-- ===== src/RequestScheduler/Slots/Wait.antt =====
-- How long a request waits under the scheduler of system/PMC/RequestScheduler_PMC.h, whatever comes in
-- the meantime.
use mcsim.Common.{
  cons≢nil, not_ltb→le, find_or-insert, some_unique, ◌≢◌, ltb→lt, suc-eq_zero, ℕ, zero, suc, ◌+◌,
  ◌-◌, ◌*◌, ◌<◌, ◌≤◌, ◌≡◌, refl, sym, ap, ◌∙◌, Bool, true, false, List, [], ◌∷◌, ◌++◌, ok, ◌>>=◌,
  Outcome, arith, length, get_elem?, u64, inl, inr, ==_iff, ltb, ◌==◌, Bool-cases, if_rule,
}
use mcsim.Packet.{Request}
use mcsim.RequestQueue.{RequestQueue, buffer_of}
use mcsim.RequestQueue.Turns.{Front, taken, arrive, arrive-StillFront, length-arrive}
use mcsim.RequestScheduler.Rotation.{next_turn, turns, turns-lt, next_turn-lt, turns-after}
use mcsim.RequestScheduler.Slots.{SlotScheduler, load, step, open_slot, slot_schedule}
use mcsim.RequestScheduler.Slots.Choice.{running, Accepts, Served, slot_loop-Served}

-- The scheduler with what it works on.
pub record Slotted (G : Type 0) : Type 0 where
  pub policy : SlotScheduler
  pub generator : G
  pub queues : List RequestQueue

-- The first queue is the one that the scheduler reads.
abbrev pub arrive_first : List RequestQueue → List Request → List RequestQueue
arrive_first [] xs = []
arrive_first (q ∷ qs) xs = arrive q xs ∷ qs

load-running : (i c t : ℕ) → load (running i c t) ≡ running i c t
unfolding load
load-running i c t = if_rule (λ s. s ≡ running i c t) (t == 1) (λ _. refl) (λ _. refl)

sub_one : (c : ℕ) → suc c - 1 ≡ c
sub_one c = omega arith

ne_self : (a b : ℕ) → (a == b) ≡ false → a ≢ b
ne_self a b h e = ground arith

first_unique :
    (l : List Request) {a b : Request} {xs ys : List Request}
    → l ≡ a ∷ xs
    → l ≡ b ∷ ys
    → (a ≡ b) × (xs ≡ ys)
first_unique l e f = (cc, cc)

taken-Front :
    (q : RequestQueue) (other : ℕ) (left : List Request) (place id : ℕ) (r : Request)
    (rest : List Request)
    → (id == other) ≡ false
    → Front q place id r rest
    → Front (taken q other left) place id r rest
taken-Front q other left place id r rest ne f = record {
  named = f.named;
  waits = find_or-insert q.requestor_buffer other left id [] ∙ rw ne f.waits;
}

module _ {G : Type 0} (is_schedulable : G → Request → Bool → Outcome (Bool × G)) where
  -- One cycle: requests come, and the controller calls `requestSchedule` and `step`.
  unfoldable pub cycle : List Request → Slotted G → Outcome (Slotted G)
  cycle xs s = do
    done ← slot_schedule is_schedulable s.policy s.generator (arrive_first s.queues xs)
    ok (record { policy = step done.0; generator = done.1; queues = done.2 })

  unfoldable pub cycles : List (List Request) → Slotted G → Outcome (Slotted G)
  cycles [] s = ok s
  cycles (xs ∷ xss) s = do s' ← cycle xs s; cycles xss s'

  -- In one of these cycles the request `r` of the requestor `id` goes to the generator, and leaves the
  -- front of the buffer.
  pub record ServedWithin (xss : List (List Request)) (s : Slotted G) (id : ℕ) (r : Request)
      : Type 0 where
    pub before : List (List Request)
    pub at_cycle : List Request
    pub after : List (List Request)
    pub whole : xss ≡ before ++ at_cycle ∷ after
    pub mid : Slotted G
    pub reached : cycles before s ≡ ok mid
    pub next : Slotted G
    pub served : cycle at_cycle mid ≡ ok next
    pub generated : is_schedulable mid.generator r false ≡ ok (true, next.generator)
    pub queue : RequestQueue
    pub others : List RequestQueue
    pub rest : List Request
    pub waiting : arrive_first mid.queues at_cycle ≡ queue ∷ others
    pub first : buffer_of queue id ≡ r ∷ rest
    pub gone : next.queues ≡ taken queue id rest ∷ others

  -- A cycle in which the slot is still running.
  cycle_slot :
      (xs : List Request) (i c t : ℕ) (s : Slotted G)
      → load s.policy ≡ running i (suc c) t
      → cycle xs s
        ≡ ok (record {
          policy = step (running i c t);
          generator = s.generator;
          queues = arrive_first s.queues xs;
        })
  unfolding cycle slot_schedule
  cycle_slot xs i c t s e = rw (e, suc-eq_zero c, sub_one c) refl

  -- A cycle in which a slot begins and a request is served.
  cycle_served :
      (xs : List Request) (i t : ℕ) (s : Slotted G) (q : RequestQueue) (qs : List RequestQueue)
      → load s.policy ≡ running i 0 t
      → arrive_first s.queues xs ≡ q ∷ qs
      → (v : Served is_schedulable 8 i 0 t s.generator q)
      → cycle xs s
        ≡ ok (record {
          policy = step (running (next_turn 8 v.place) 46 t);
          generator = v.generator;
          queues = taken q v.id v.rest ∷ qs;
        })
  unfolding cycle slot_schedule open_slot
  cycle_served xs i t s q qs e f v = rw e (rw f (rw v.result refl))

  -- The request is still first in the queue that the scheduler reads.
  pub record Waits (place id : ℕ) (r : Request) (s : Slotted G) : Type 0 where
    pub queue : RequestQueue
    pub others : List RequestQueue
    pub rest : List Request
    pub read : s.queues ≡ queue ∷ others
    pub front : Front queue place id r rest
    pub enough : 8 ≤ length queue.requestor_order

  arrive-Waits :
      (place id : ℕ) (r : Request) (xs : List Request) (s : Slotted G)
      → Waits place id r s
      → Waits place id r (record s { queues = arrive_first s.queues xs })
  arrive-Waits place id r xs s w =
      let (more, f) = arrive-StillFront w.queue place id r w.rest xs w.front in
      record {
        queue = arrive w.queue xs;
        others = w.others;
        rest = w.rest ++ more;
        read = ap (λ qs. arrive_first qs xs) w.read;
        front = f;
        enough = omega (arith, w.enough, length-arrive w.queue xs);
      }

  module _ (i t : ℕ) (s : Slotted G) (place id : ℕ) (r : Request) (hi : i < 8) (hp : place < 8)
      (w : Waits place id r s) (v : Served is_schedulable 8 i 0 t s.generator w.queue) where
    -- No one else was served later in the cyclic order.
    served_before : turns 8 i v.place ≤ turns 8 i place
    served_before = elim (Bool-cases (ltb (turns 8 i place) (turns 8 i v.place))) [
      | inl later ↦ absurd (
          cons≢nil (sym w.front.waits ∙ v.idle_before place hp (ltb→lt _ _ later) id w.front.named))
      | inr sooner ↦ not_ltb→le _ _ sooner
    ]

    other_place : (id == v.id) ≡ false → v.place ≢ place
    other_place ne same = absurd (
        ne_self id v.id ne (
          some_unique (get_elem? w.queue.requestor_order place) w.front.named
            (ap (get_elem? w.queue.requestor_order) (sym same) ∙ v.front.named)))

    nearer : (id == v.id) ≡ false → turns 8 (next_turn 8 v.place) place < turns 8 i place
    nearer ne = turns-after 8 i v.place place hi v.in_range hp (other_place ne) served_before

  stepped_load :
      (i c t : ℕ) (g : G) (qs : List RequestQueue)
      → load (step (running i c t)) ≡ running i c (u64 (t + 1))
  unfolding step
  stepped_load i c t g qs = load-running i c (u64 (t + 1))

  skip_cycle :
      (xs : List Request) (xss : List (List Request)) (s next : Slotted G) (id : ℕ) (r : Request)
      → cycle xs s ≡ ok next
      → ServedWithin xss next id r
      → ServedWithin (xs ∷ xss) s id r
  unfolding cycles
  skip_cycle xs xss s next id r e v = record {
    before = xs ∷ v.before;
    at_cycle = v.at_cycle;
    after = v.after;
    whole = ap (λ l. xs ∷ l) v.whole;
    mid = v.mid;
    reached = rw e v.reached;
    next = v.next;
    served = v.served;
    generated = v.generated;
    queue = v.queue;
    others = v.others;
    rest = v.rest;
    waiting = v.waiting;
    first = v.first;
    gone = v.gone;
  }

  serve_now :
      (xs : List Request) (xss : List (List Request)) (s : Slotted G) (i t place id : ℕ)
      (r : Request)
      → load s.policy ≡ running i 0 t
      → (w : Waits place id r (record s { queues = arrive_first s.queues xs }))
      → (v : Served is_schedulable 8 i 0 t s.generator w.queue) → id ≡ v.id
      → ServedWithin (xs ∷ xss) s id r
  unfolding cycles
  serve_now xs xss s i t place id r e w v same =
      let found : buffer_of w.queue id ≡ v.r ∷ v.rest =
        ap (buffer_of w.queue) same ∙ v.front.waits in
      let same_r : v.r ≡ r = (first_unique (buffer_of w.queue id) found w.front.waits).0 in
      record {
        before = [];
        at_cycle = xs;
        after = xss;
        whole = refl;
        mid = s;
        reached = refl;
        next = record {
          policy = step (running (next_turn 8 v.place) 46 t);
          generator = v.generator;
          queues = taken w.queue v.id v.rest ∷ w.others;
        };
        served = cycle_served xs i t s w.queue w.others e w.read v;
        generated = ap (λ x. is_schedulable s.generator x false) (sym same_r) ∙ v.generated;
        queue = w.queue;
        others = w.others;
        rest = v.rest;
        waiting = w.read;
        first = found ∙ ap (λ x. x ∷ v.rest) same_r;
        gone = ap (λ k. taken w.queue k v.rest ∷ w.others) (sym same);
      }

  module _ (accepts : Accepts is_schedulable) (place id : ℕ) (r : Request) (hp : place < 8) where
    wait :
        (xss : List (List Request)) (s : Slotted G) (i c t : ℕ)
        → load s.policy ≡ running i c t
        → i < 8
        → Waits place id r s
        → 47 * turns 8 i place + c < length xss
        → ServedWithin xss s id r
    wait [] s i c t e hi w near = absurd (omega arith)
    wait (xs ∷ xss) s i (suc c) t e hi w near =
        skip_cycle xs xss s _ id r (cycle_slot xs i c t s e) (
          wait xss
            (record {
              policy = step (running i c t);
              generator = s.generator;
              queues = arrive_first s.queues xs;
            })
            i c (u64 (t + 1)) (stepped_load i c t s.generator s.queues) hi
            (let a = arrive-Waits place id r xs s w in
              record {
                queue = a.queue;
                others = a.others;
                rest = a.rest;
                read = a.read;
                front = a.front;
                enough = a.enough;
              })
            (omega arith))
    wait (xs ∷ xss) s i zero t e hi w near =
        let a = arrive-Waits place id r xs s w in
        let v =
          slot_loop-Served is_schedulable accepts 8 i 0 t s.generator a.queue place id r a.rest hi
            hp a.enough a.front (turns-lt 8 i place hi hp) in
        elim (Bool-cases (id == v.id)) [
          | inl same ↦ serve_now xs xss s i t place id r e a v ((==_iff id v.id).0 same)
          | inr other ↦
              skip_cycle xs xss s _ id r (cycle_served xs i t s a.queue a.others e a.read v) (
                wait xss
                  (record {
                    policy = step (running (next_turn 8 v.place) 46 t);
                    generator = v.generator;
                    queues = taken a.queue v.id v.rest ∷ a.others;
                  })
                  (next_turn 8 v.place) 46 (u64 (t + 1))
                  (stepped_load (next_turn 8 v.place) 46 t s.generator s.queues)
                  (next_turn-lt 8 v.place v.in_range)
                  (record {
                    queue = taken a.queue v.id v.rest;
                    others = a.others;
                    rest = a.rest;
                    read = refl;
                    front = taken-Front a.queue v.id v.rest place id r a.rest other a.front;
                    enough = a.enough;
                  })
                  (omega (
                    arith,
                    nearer i t (record s { queues = arrive_first s.queues xs }) place id r hi hp a v
                        other,
                  )))
        ]

  -- The policy's tables are set or about to be, its slot counter is at most 46, and every request can be
  -- scheduled. At least eight requestors have a place in the order of the first queue, and `r` is the
  -- first request of the one in one of the first eight places. Then in 376 cycles, whatever requests
  -- come in each of them, there is one in which `r`, still the first of its buffer, goes to the command
  -- generator and leaves the buffer.
  pub slot_schedule-ServedWithin :
      (xss : List (List Request)) (s : Slotted G) (i c t place id : ℕ) (r : Request)
      → Accepts is_schedulable
      → load s.policy ≡ running i c t
      → i < 8
      → c ≤ 46
      → place < 8
      → Waits place id r s
      → length xss ≡ 376
      → ServedWithin xss s id r
  slot_schedule-ServedWithin xss s i c t place id r accepts e hi hc hp w long =
      wait accepts place id r hp xss s i c t e hi w (omega (arith, turns-lt 8 i place hi hp))
