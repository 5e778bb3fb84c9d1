-- ===== src/RequestScheduler/Oldest/Visit.antt =====
-- What the scheduler of system/FCFS/RequestScheduler_FCFS.h does with a queue that has a buffer for each
-- requestor.
use mcsim.Common.{
  get_elem?-lt, get_elem?-in_range, ℕ, zero, suc, ◌+◌, ◌<◌, ◌≤◌, ◌≡◌, refl, ap, ◌∙◌, Bool, none, ok,
  ◌>>=◌, Outcome, arith, length, inl, inr, ◌⊎◌, if◌then◌else◌, Bool-cases,
}
use mcsim.Packet.{Request}
use mcsim.RequestQueue.{RequestQueue, get_queue_size}
use mcsim.RequestQueue.Removal.{requestor_scheduled}
use mcsim.RequestQueue.Turns.{get_size_at, taken, get_requestor_request_front, remove_request_front}
use mcsim.RequestScheduler.{BankTable, update_row_table}
use mcsim.RequestScheduler.Selection.{IsConsistent, hits, is_row_hit-hits}
use mcsim.RequestScheduler.Slots.Choice.{IsIdle}
use mcsim.RequestScheduler.Oldest.{
  first_waiting, earlier_front, Check, take_request, take_checked, visit_requestors,
}
use mcsim.RequestScheduler.Oldest.Earliest.{
  Waiting, check_of, Precedes, Best, earlier_front-Best, first_waiting_cases,
}

first_waiting_idle :
    (n num : ℕ) (q : RequestQueue) (check : Check)
    → ((k : ℕ) → IsIdle q k)
    → num + n ≤ length q.requestor_order
    → first_waiting n q num check ≡ ok check
unfolding first_waiting
first_waiting_idle zero num q check idle fits = refl
first_waiting_idle (suc n) num q check idle fits =
    let (id, named) = get_elem?-in_range q.requestor_order num (omega arith) in
    rw (get_size_at q num named)
      (rw (idle num id named) (first_waiting_idle n (num + 1) q check idle (omega arith)))

earlier_front_idle :
    (n num : ℕ) (q : RequestQueue) (check : Check)
    → ((k : ℕ) → IsIdle q k)
    → num + n ≤ length q.requestor_order
    → earlier_front n q num check ≡ ok check
unfolding earlier_front
earlier_front_idle zero num q check idle fits = refl
earlier_front_idle (suc n) num q check idle fits =
    let (id, named) = get_elem?-in_range q.requestor_order num (omega arith) in
    rw (get_size_at q num named)
      (rw (idle num id named) (earlier_front_idle n (num + 1) q check idle (omega arith)))

all_idle :
    (q : RequestQueue)
    → ((k : ℕ) → k < length q.requestor_order → IsIdle q k)
    → (k : ℕ) → IsIdle q k
all_idle q idle k id named = idle k (get_elem?-lt q.requestor_order k named) id named

module _ {G : Type 0} (is_schedulable : G → Request → Bool → Outcome (Bool × G)) where
  -- The request that came first of those at the fronts of the buffers, in the last place that has one
  -- of that time, is looked at.
  pub record Oldest (t : BankTable) (g : G) (q : RequestQueue) : Type 0 where
    pub chosen : Waiting q
    pub first : (k : ℕ) → k < length q.requestor_order → Precedes q chosen k
    pub scheduled : Bool
    pub generator : G
    pub answered : is_schedulable g chosen.r (hits t chosen.r) ≡ ok (scheduled, generator)

  module _ {t : BankTable} {g : G} {q : RequestQueue} where
    -- A request that can be scheduled leaves the queue, and its row is open then.
    abbrev pub after : Oldest t g q → BankTable × G × RequestQueue
    after o =
        if o.scheduled
        then (
          update_row_table t o.chosen.r.address_map.rank o.chosen.r.address_map.bank o.chosen.r.row,
          o.generator,
          taken q o.chosen.id o.chosen.rest,
        )
        else (t, o.generator, requestor_scheduled q o.chosen.id 0)

  abbrev pub Answers : Type 0
  Answers =
      (g : G) (r : Request) (open_row : Bool)
      → (b : Bool) × (g' : G) × (is_schedulable g r open_row ≡ ok (b, g'))

  take_chosen :
      (t : BankTable) (g : G) (q : RequestQueue) (o : Oldest t g q)
      → IsConsistent o.chosen.r
      → take_checked is_schedulable t g q (check_of o.chosen) ≡ ok (after o)
  unfolding take_checked take_request
  take_chosen t g q o c =
      rw
        (get_requestor_request_front q o.chosen.place o.chosen.id o.chosen.r o.chosen.rest
          o.chosen.front)
        (rw (is_row_hit-hits t o.chosen.r c) (
          rw o.answered (elim (Bool-cases o.scheduled) [
            | inl e ↦ rw e (
                rw
                  (remove_request_front q o.chosen.place o.chosen.id o.chosen.r o.chosen.rest
                    o.chosen.front)
                  refl)
            | inr e ↦ rw e refl
          ])))

  choose-Oldest :
      (t : BankTable) (g : G) (q : RequestQueue) (w : Waiting q)
      → Answers
      → (o : Oldest t g q) × (earlier_front_result : Best (length q.requestor_order) 0 q w)
        × (earlier_front_result.new ≡ o.chosen)
  choose-Oldest t g q w answers =
      let b = earlier_front-Best (length q.requestor_order) 0 q w (omega arith) in
      let (s, g', e) = answers g b.new.r (hits t b.new.r) in
      (
        record {
          chosen = b.new;
          first = λ k hk. b.first k (omega arith) (omega arith);
          scheduled = s;
          generator = g';
          answered = e;
        },
        b,
        refl,
      )

  abbrev pub AllIdle : RequestQueue → Type 0
  AllIdle q = (k : ℕ) → IsIdle q k

  chosen_visit :
      (t : BankTable) (g : G) (q : RequestQueue) (check : Check) (w : Waiting q)
      → Answers
      → ((v : Waiting q) → IsConsistent v.r)
      → first_waiting (length q.requestor_order) q 0 check ≡ ok (check_of w)
      → (o : Oldest t g q) × (visit_requestors is_schedulable t g q check
          ≡ ok (check_of o.chosen, after o))
  unfolding visit_requestors get_queue_size
  chosen_visit t g q check w answers c e =
      let (o, b, same) = choose-Oldest t g q w answers in
      (
        o,
        rw (e, b.result)
            (rw
              (ap (λ v. take_checked is_schedulable t g q (check_of v)) same
                ∙ take_chosen t g q o (c o.chosen))
              (ap (λ v. ok (check_of v, after o)) same)),
      )

  pub idle_visit :
      (t : BankTable) (g : G) (q : RequestQueue) (check : Check)
      → AllIdle q
      → visit_requestors is_schedulable t g q check
        ≡ (take_checked is_schedulable t g q check >>= λ rest. ok (check, rest))
  unfolding visit_requestors get_queue_size
  idle_visit t g q check idle =
      rw
        (
          first_waiting_idle (length q.requestor_order) 0 q check idle (omega arith),
          earlier_front_idle (length q.requestor_order) 0 q check idle (omega arith),
        )
        refl

  -- A queue whose requests each have the rank that their address map has, where `isSchedulable` is
  -- defined and `checkRequest` is NULL. If some requestor has a request waiting, the request looked at
  -- is the one that came first of those at the fronts of the requestors' buffers, and of the
  -- last place among those of the same time; it leaves the queue and its row is entered as open if
  -- it can be scheduled, and nothing else changes but the generator and the marks of the read.
  -- If nobody waits, nothing changes.
  pub visit_requestors-Oldest :
      (t : BankTable) (g : G) (q : RequestQueue) (num : ℕ)
      → Answers
      → ((v : Waiting q) → IsConsistent v.r)
      → ((o : Oldest t g q) × (visit_requestors is_schedulable t g q (none, num)
            ≡ ok (check_of o.chosen, after o)))
        ⊎ (AllIdle q
            × (visit_requestors is_schedulable t g q (none, num) ≡ ok ((none, num), (t, g, q))))
  unfolding take_checked
  visit_requestors-Oldest t g q num answers c =
      elim (first_waiting_cases (length q.requestor_order) 0 q (none, num) (omega arith)) [
        | inl (w, e) ↦ inl (chosen_visit t g q (none, num) w answers c e)
        | inr (idle, e) ↦
            let all = all_idle q (λ k hk. idle k (omega arith) (omega arith)) in
            inr (all, idle_visit t g q (none, num) all)
      ]
