-- ===== src/RequestScheduler/Slots/Choice.antt =====
-- Which request the scheduler of system/PMC/RequestScheduler_PMC.h takes at the end of a slot.
use mcsim.Common.{
  cons≢nil, ℕ, zero, suc, ◌<◌, ◌≤◌, ◌≡◌, refl, sym, ap, ◌∙◌, Bool, true, false, none, some, List,
  [], ok, Outcome, arith, length, get_elem?, get_elem?-in_range, List-cases, ltb-suc, some_unique,
  ◌≢◌, inl, inr,
}
use mcsim.Packet.{Request}
use mcsim.RequestQueue.{RequestQueue, buffer_of}
use mcsim.RequestQueue.Removal.{requestor_scheduled}
use mcsim.RequestQueue.Turns.{
  Front, taken, get_size_at, get_requestor_request_front, remove_request_front, get_size_front,
}
use mcsim.RequestScheduler.Rotation.{
  next_turn, turns, next_turn-lt, turns-next_turn, turns_self, before_extends,
}
use mcsim.RequestScheduler.Slots.{
  SlotScheduler, eight_slots, slot_lengths, candidate, grant, slot_loop,
}

-- A scheduler whose tables are set.
abbrev pub running : ℕ → ℕ → ℕ → SlotScheduler
running index counter clock = record {
  requestor_index = index;
  slot_counter = counter;
  schedule_slot = eight_slots;
  time_slot = slot_lengths;
  clock_cycle = clock;
}

-- The requestor in this place, if there is one, has no request waiting.
abbrev pub IsIdle : RequestQueue → ℕ → Type 0
IsIdle q place = (id : ℕ) → get_elem? q.requestor_order place ≡ some id → buffer_of q id ≡ []

pub candidate_idle :
    (q : RequestQueue) (place id : ℕ)
    → get_elem? q.requestor_order place ≡ some id
    → buffer_of q id ≡ []
    → candidate q place ≡ ok (none, q)
unfolding candidate
candidate_idle q place id named e = rw (get_size_at q place named) (rw e refl)

pub candidate_front :
    (q : RequestQueue) (place id : ℕ) (r : Request) (rest : List Request)
    → Front q place id r rest
    → candidate q place ≡ ok (some r, requestor_scheduled q id 0)
unfolding candidate
candidate_front q place id r rest f =
    rw (get_size_front q place id r rest f, ltb-suc (length rest))
      (get_requestor_request_front q place id r rest f)

pub slot_at : (i : ℕ) → i < 8 → get_elem? eight_slots i ≡ some i
slot_at i h = ground arith

cycles_at : (i : ℕ) → i < 8 → get_elem? slot_lengths i ≡ some 47
cycles_at i h = ground arith

not_place :
    (q : RequestQueue) (i here place id : ℕ) (r : Request) (rest : List Request)
    → get_elem? q.requestor_order i ≡ some here
    → buffer_of q here ≡ []
    → Front q place id r rest
    → i ≢ place
not_place q i here place id r rest named empty f e =
    let same : here ≡ id =
      some_unique (get_elem? q.requestor_order i) named
        (ap (get_elem? q.requestor_order) e ∙ f.named) in
    cons≢nil (sym f.waits ∙ ap (buffer_of q) (sym same) ∙ empty)

module _ {G : Type 0} (is_schedulable : G → Request → Bool → Outcome (Bool × G)) where
  -- Every request can be scheduled, as the command generators report.
  abbrev pub Accepts : Type 0
  Accepts = (g : G) (r : Request) → (g' : G) × (is_schedulable g r false ≡ ok (true, g'))

  -- From the place `i` on, the first requestor with requests waiting is served: its first request
  -- goes to the generator and leaves the queue, the turn passes to the place after it, and
  -- the slot counter starts again at 46.
  pub record Served (n i c t : ℕ) (g : G) (q : RequestQueue) : Type 0 where
    pub place : ℕ
    pub id : ℕ
    pub r : Request
    pub rest : List Request
    pub generator : G
    pub in_range : place < 8
    pub front : Front q place id r rest
    pub idle_before : (k : ℕ) → k < 8 → turns 8 i k < turns 8 i place → IsIdle q k
    pub generated : is_schedulable g r false ≡ ok (true, generator)
    pub result :
        slot_loop is_schedulable n (running i c t) g q
        ≡ ok (running (next_turn 8 place) 46 t, generator, taken q id rest)

  grant_front :
      (i c t : ℕ) (g g' : G) (q : RequestQueue) (id : ℕ) (r : Request) (rest : List Request)
      → i < 8
      → Front q i id r rest
      → is_schedulable g r false ≡ ok (true, g')
      → grant is_schedulable (running i c t) g i r (requestor_scheduled q id 0)
        ≡ ok (running (next_turn 8 i) 46 t, g', taken q id rest)
  unfolding grant
  grant_front i c t g g' q id r rest h f e =
      rw (e, remove_request_front q i id r rest f, cycles_at i h) refl

  module _ (accepts : Accepts) where
    serve_here :
        (n i c t : ℕ) (g : G) (q : RequestQueue) (id : ℕ) (r : Request) (rest : List Request)
        → i < 8
        → Front q i id r rest
        → Served (suc n) i c t g q
    unfolding slot_loop
    serve_here n i c t g q id r rest h f =
        let (g', e) = accepts g r in
        record {
          place = i;
          id = id;
          r = r;
          rest = rest;
          generator = g';
          in_range = h;
          front = f;
          idle_before = λ k hk nearer. absurd (omega (arith, turns_self 8 i));
          generated = e;
          result =
              rw (slot_at i h, candidate_front q i id r rest f)
                (grant_front i c t g g' q id r rest h f e);
        }

    pass_on :
        (n i c t : ℕ) (g : G) (q : RequestQueue) (id : ℕ)
        → i < 8
        → get_elem? q.requestor_order i ≡ some id
        → buffer_of q id ≡ []
        → Served n (next_turn 8 i) c t g q
        → Served (suc n) i c t g q
    unfolding slot_loop
    pass_on n i c t g q id h named empty s = record {
      place = s.place;
      id = s.id;
      r = s.r;
      rest = s.rest;
      generator = s.generator;
      in_range = s.in_range;
      front = s.front;
      idle_before =
          before_extends (IsIdle q) 8 i s.place h s.in_range
            (λ id' named'.
              ap (buffer_of q) (some_unique (get_elem? q.requestor_order i) named' named) ∙ empty)
            s.idle_before;
      generated = s.generated;
      result = rw (slot_at i h, candidate_idle q i id named empty) s.result;
    }

    -- Some requestor that is waiting is served within the turns that remain.
    pub slot_loop-Served :
        (n i c t : ℕ) (g : G) (q : RequestQueue) (place id : ℕ) (r : Request) (rest : List Request)
        → i < 8
        → place < 8
        → 8 ≤ length q.requestor_order
        → Front q place id r rest
        → turns 8 i place < n
        → Served n i c t g q
    slot_loop-Served zero i c t g q place id r rest hi hp full f near = absurd (omega arith)
    slot_loop-Served (suc n) i c t g q place id r rest hi hp full f near =
        let (here, named) = get_elem?-in_range q.requestor_order i (omega arith) in
        elim (List-cases (buffer_of q here)) [
          | inr (r', rest', e) ↦
              serve_here n i c t g q here r' rest' hi (record { named = named; waits = e })
          | inl empty ↦ pass_on n i c t g q here hi named empty (
              slot_loop-Served n (next_turn 8 i) c t g q place id r rest (next_turn-lt 8 i hi) hp
                full f
                (omega (
                  arith,
                  turns-next_turn 8 i place hi hp
                      (not_place q i here place id r rest named empty f),
                )))
        ]
