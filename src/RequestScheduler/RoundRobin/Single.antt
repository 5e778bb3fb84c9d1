-- ===== src/RequestScheduler/RoundRobin/Single.antt =====
-- generalScheduler/RequestScheduler_RR.h with one queue that has a buffer for each requestor.
use mcsim.Common.{
  if_true, ℕ, zero, suc, ◌-◌, ◌<◌, ◌≡◌, refl, ap, ◌∙◌, Bool, true, false, some, List, [], ◌∷◌, ok,
  Outcome, arith, length, get_elem?, get_elem?-in_range, List-cases, Bool-cases, inl, inr, ◌⊎◌,
  if◌then◌else◌, some_unique,
}
use mcsim.Packet.{Request}
use mcsim.RequestQueue.{RequestQueue, buffer_of, get_queue_size}
use mcsim.RequestQueue.Removal.{requestor_scheduled}
use mcsim.RequestQueue.Turns.{Front, taken, remove_request_front}
use mcsim.RequestScheduler.Rotation.{
  next_turn, turns, turns-lt, turns_self, next_turn-lt, before_extends, within_extends, rotate,
  rotate_full,
}
use mcsim.RequestScheduler.Slots.Choice.{IsIdle, candidate_idle, candidate_front}
use mcsim.RequestScheduler.RoundRobin.{
  RoundRobin, take_requestor, requestor_loop, visit_queue, queues_loop, round_robin_schedule,
  remove_from,
}

-- A scheduler for one queue.
abbrev pub single : ℕ → ℕ → ℕ → RoundRobin
single counter slot place = record {
  slot_counter = counter;
  time_slot = slot;
  queue_index = 0;
  queue_requestor_index = place ∷ [];
}

size_of : RequestQueue → ℕ
size_of q = length q.requestor_order

module _ {G : Type 0} (is_schedulable : G → Request → Bool → Outcome (Bool × G)) where
  -- From the place `i` on, the first requestor with requests waiting has its first request looked
  -- at. One that can be scheduled leaves the queue, and the turn passes; another keeps both.
  pub record Looked (i : ℕ) (g : G) (q : RequestQueue) : Type 0 where
    pub place : ℕ
    pub id : ℕ
    pub r : Request
    pub rest : List Request
    pub scheduled : Bool
    pub generator : G
    pub in_range : place < length q.requestor_order
    pub front : Front q place id r rest
    pub idle_before :
        (k : ℕ)
        → k < length q.requestor_order
        → turns (length q.requestor_order) i k < turns (length q.requestor_order) i place
        → IsIdle q k
    pub answered : is_schedulable g r false ≡ ok (scheduled, generator)

  module _ {i : ℕ} {g : G} {q : RequestQueue} where
    abbrev pub place_after : Looked i g q → ℕ
    place_after l = if l.scheduled then next_turn (length q.requestor_order) l.place else l.place

    abbrev pub queue_after : Looked i g q → RequestQueue
    queue_after l = if l.scheduled then taken q l.id l.rest else requestor_scheduled q l.id 0

  abbrev pub AllIdle : RequestQueue → Type 0
  AllIdle q = (k : ℕ) → k < length q.requestor_order → IsIdle q k

  -- `isSchedulable` is defined.
  abbrev pub Answers : Type 0
  Answers = (g : G) (r : Request) → (b : Bool) × (g' : G) × (is_schedulable g r false ≡ ok (b, g'))

  -- The loop from the place `i`, with `n` rounds left.
  abbrev LooksFrom : (n c slot i : ℕ) (g : G) (q : RequestQueue) → Looked i g q → Type 0
  LooksFrom n c slot i g q l =
      requestor_loop is_schedulable n (single c slot i) g (q ∷ []) 0 q
      ≡ ok (record {
        policy = single c slot (place_after l);
        generator = l.generator;
        queues = queue_after l ∷ [];
        found = true;
      })

  take_lem :
      (c slot i : ℕ) (g : G) (q : RequestQueue) (l : Looked i g q) (old : ℕ)
      → old ≡ l.place
      → take_requestor is_schedulable
          (single c slot old)
          g
          (requestor_scheduled q l.id 0 ∷ [])
          0
          (length q.requestor_order)
          l.place
          l.r
        ≡ ok (record {
          policy = single c slot (place_after l);
          generator = l.generator;
          queues = queue_after l ∷ [];
          found = true;
        })
  unfolding take_requestor remove_from
  take_lem c slot i g q l old same = elim (Bool-cases l.scheduled) [
    | inl accepted ↦
        rw l.answered
          (rw accepted (rw (remove_request_front q l.place l.id l.r l.rest l.front) refl))
    | inr refused ↦ rw l.answered (rw refused (rw same refl))
  ]

  IsIdle_at :
      (q : RequestQueue) (i id : ℕ)
      → get_elem? q.requestor_order i ≡ some id
      → buffer_of q id ≡ []
      → IsIdle q i
  IsIdle_at q i id named empty id' named' =
      ap (buffer_of q) (some_unique (get_elem? q.requestor_order i) named' named) ∙ empty

  -- The loop looks at nobody.
  record Passed (n c slot i : ℕ) (g : G) (q : RequestQueue) : Type 0 where
    idle :
        (k : ℕ)
        → k < length q.requestor_order
        → turns (length q.requestor_order) i k < n
        → IsIdle q k
    result :
        requestor_loop is_schedulable n (single c slot i) g (q ∷ []) 0 q
        ≡ ok (record {
          policy = single c slot (rotate (length q.requestor_order) n i);
          generator = g;
          queues = q ∷ [];
          found = false;
        })

  look_here :
      (n c slot i : ℕ) (g : G) (q : RequestQueue) (id : ℕ) (r : Request) (rest : List Request)
      → Answers
      → i < length q.requestor_order
      → Front q i id r rest
      → (l : Looked i g q) × LooksFrom (suc n) c slot i g q l
  unfolding requestor_loop get_queue_size
  look_here n c slot i g q id r rest answers hi f =
      let (b, g', e) = answers g r in
      let l : Looked i g q = record {
        place = i;
        id = id;
        r = r;
        rest = rest;
        scheduled = b;
        generator = g';
        in_range = hi;
        front = f;
        idle_before =
            λ k hk nearer. absurd (omega (arith, turns_self (length q.requestor_order) i));
        answered = e;
      } in
      (l, rw (candidate_front q i id r rest f) (take_lem c slot i g q l i refl))

  look_on :
      (n c slot i : ℕ) (g : G) (q : RequestQueue) (id : ℕ)
      → i < length q.requestor_order
      → get_elem? q.requestor_order i ≡ some id
      → buffer_of q id ≡ []
      → (l : Looked (next_turn (length q.requestor_order) i) g q) × LooksFrom n c slot
          (next_turn (length q.requestor_order) i)
          g
          q
          l
      → (l : Looked i g q) × LooksFrom (suc n) c slot i g q l
  unfolding requestor_loop get_queue_size
  look_on n c slot i g q id hi named empty (l, e) = (
    record {
      place = l.place;
      id = l.id;
      r = l.r;
      rest = l.rest;
      scheduled = l.scheduled;
      generator = l.generator;
      in_range = l.in_range;
      front = l.front;
      idle_before =
          before_extends (IsIdle q) (length q.requestor_order) i l.place hi l.in_range
            (IsIdle_at q i id named empty) l.idle_before;
      answered = l.answered;
    },
    rw (candidate_idle q i id named empty) e,
  )

  pass_on :
      (n c slot i : ℕ) (g : G) (q : RequestQueue) (id : ℕ)
      → i < length q.requestor_order
      → get_elem? q.requestor_order i ≡ some id
      → buffer_of q id ≡ []
      → Passed n c slot (next_turn (length q.requestor_order) i) g q
      → Passed (suc n) c slot i g q
  unfolding requestor_loop get_queue_size
  pass_on n c slot i g q id hi named empty p = record {
    idle =
        within_extends (IsIdle q) (length q.requestor_order) i n hi (IsIdle_at q i id named empty)
          p.idle;
    result = rw (candidate_idle q i id named empty) p.result;
  }

  loop_cases :
      (n c slot i : ℕ) (g : G) (q : RequestQueue)
      → Answers
      → i < length q.requestor_order
      → ((l : Looked i g q) × LooksFrom n c slot i g q l) ⊎ Passed n c slot i g q
  unfolding requestor_loop
  loop_cases zero c slot i g q answers hi =
      inr (record { idle = λ k hk near. absurd (omega arith); result = refl })
  loop_cases (suc n) c slot i g q answers hi =
      let (id, named) = get_elem?-in_range q.requestor_order i hi in
      elim (List-cases (buffer_of q id)) [
        | inr (r, rest, e) ↦
            inl
              (look_here n c slot i g q id r rest answers hi (record { named = named; waits = e }))
        | inl empty ↦
            elim (loop_cases n c slot (next_turn (length q.requestor_order) i) g q answers
              (next_turn-lt (length q.requestor_order) i hi)) [
                | inl l ↦ inl (look_on n c slot i g q id hi named empty l)
                | inr p ↦ inr (pass_on n c slot i g q id hi named empty p)
              ]
      ]

  visit_queue_requestors :
      (s : RoundRobin) (g : G) (queues : List RequestQueue) (index : ℕ) (q : RequestQueue)
      → q.per_requestor_enable ≡ true
      → visit_queue is_schedulable s g queues index q
        ≡ requestor_loop is_schedulable (length q.requestor_order) s g queues index q
  unfolding visit_queue get_queue_size
  visit_queue_requestors s g queues index q kind = if_true q.per_requestor_enable _ _ kind

  -- The call when a slot begins and somebody is waiting.
  abbrev pub TakesTurn : ℕ → ℕ → G → RequestQueue → Type 0
  TakesTurn slot i g q =
      (l : Looked i g q) × (round_robin_schedule is_schedulable (single 0 slot i) g (q ∷ [])
        ≡ ok (single (slot - 1) slot (place_after l), l.generator, queue_after l ∷ []))

  -- The call when nobody is waiting.
  abbrev pub StaysIdle : ℕ → ℕ → G → RequestQueue → Type 0
  StaysIdle slot i g q =
      AllIdle q
      × (round_robin_schedule is_schedulable (single 0 slot i) g (q ∷ [])
          ≡ ok (single 0 slot i, g, q ∷ []))

  -- One queue with a buffer for each requestor, at the end of a slot, where `isSchedulable` is
  -- defined. If no requestor has a request waiting, the call changes nothing. Otherwise it asks about
  -- the first request of the first requestor with requests waiting, in cyclic order from the
  -- requestor whose turn it is, and a new slot begins. A request that can be scheduled leaves the queue,
  -- and the turn passes to the requestor after; one that cannot stays, and so does the turn.
  pub round_robin_schedule-TakesTurn :
      (slot i : ℕ) (g : G) (q : RequestQueue)
      → Answers
      → q.per_requestor_enable ≡ true
      → i < length q.requestor_order
      → TakesTurn slot i g q ⊎ StaysIdle slot i g q
  unfolding round_robin_schedule queues_loop
  round_robin_schedule-TakesTurn slot i g q answers kind hi =
      elim (loop_cases (length q.requestor_order) 0 slot i g q answers hi) [
        | inl (l, e) ↦
            inl (l, rw (visit_queue_requestors (single 0 slot i) g (q ∷ []) 0 q kind ∙ e) refl)
        | inr p ↦ inr (
          λ k hk. p.idle k hk (turns-lt (length q.requestor_order) i k hi hk),
          rw (visit_queue_requestors (single 0 slot i) g (q ∷ []) 0 q kind ∙ p.result) (
              ap (λ j. ok (single 0 slot j, g, q ∷ []))
                (rotate_full (length q.requestor_order) i hi)),
        )
      ]
