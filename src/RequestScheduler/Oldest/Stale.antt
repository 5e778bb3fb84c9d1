-- ===== src/RequestScheduler/Oldest/Stale.antt =====
-- What `checkRequest` of system/FCFS/RequestScheduler_FCFS.h holds when the loop comes to the next queue.
use mcsim.Common.{
  cons≢nil, sym, ℕ, ◌≡◌, refl, ◌∙◌, Bool, true, none, some, List, ◌∷◌, undefined_behaviour, Outcome,
  get_elem?, inl, inr, Option-cases, if_true,
}
use mcsim.Packet.{Request}
use mcsim.RequestQueue.{RequestQueue, get_requestor_request}
use mcsim.RequestScheduler.{BankTable}
use mcsim.RequestScheduler.Selection.{IsConsistent}
use mcsim.RequestScheduler.Oldest.{
  Check, take_checked, visit, queues_loop, fcfs_request_schedule, visit_requestors,
}
use mcsim.RequestScheduler.Oldest.Earliest.{Waiting}
use mcsim.RequestScheduler.Oldest.Visit.{Answers, AllIdle, visit_requestors-Oldest, idle_visit}

module _ {G : Type 0} (is_schedulable : G → Request → Bool → Outcome (Bool × G)) where
  take_stale :
      (t : BankTable) (g : G) (q : RequestQueue) (old : Request) (num : ℕ)
      → AllIdle is_schedulable q
      → take_checked is_schedulable t g q (some old, num) ≡ undefined_behaviour
  unfolding take_checked get_requestor_request
  take_stale t g q old num idle = elim (Option-cases (get_elem? q.requestor_order num)) [
    | inl e ↦ rw e refl
    | inr (id, e) ↦ rw (e, idle num id e) refl
  ]

  visit_per :
      (t : BankTable) (g : G) (q : RequestQueue) (check : Check)
      → q.per_requestor_enable ≡ true
      → visit is_schedulable t g q check ≡ visit_requestors is_schedulable t g q check
  unfolding visit
  visit_per t g q check kind = if_true q.per_requestor_enable _ _ kind

  visit_stale :
      (t : BankTable) (g : G) (q : RequestQueue) (old : Request) (num : ℕ)
      → q.per_requestor_enable ≡ true
      → AllIdle is_schedulable q
      → visit is_schedulable t g q (some old, num) ≡ undefined_behaviour
  visit_stale t g q old num kind idle =
      visit_per t g q (some old, num) kind
      ∙ idle_visit is_schedulable t g q (some old, num) idle
      ∙ rw (take_stale t g q old num idle) refl

  -- The first queue and the second have a buffer for each requestor. A request waits in the first, and
  -- each that does has the rank that its address map has; `isSchedulable` is defined. If no request
  -- waits in the second queue, the call takes the request that it found in the first queue for one of the
  -- second, and reads a request that is not there, whatever the queues after it hold.
  pub fcfs_request_schedule-stale :
      (t : BankTable) (g : G) (first second : RequestQueue) (queues : List RequestQueue) (num : ℕ)
      → Answers is_schedulable
      → first.per_requestor_enable ≡ true
      → Waiting first
      → ((v : Waiting first) → IsConsistent v.r)
      → second.per_requestor_enable ≡ true
      → AllIdle is_schedulable second
      → fcfs_request_schedule is_schedulable t g (first ∷ second ∷ queues) num ≡ undefined_behaviour
  unfolding fcfs_request_schedule queues_loop
  fcfs_request_schedule-stale t g first second queues num answers kind w c kind' idle =
      elim (visit_requestors-Oldest is_schedulable t g first num answers c) [
        | inl (o, e) ↦
            rw (visit_per t g first (none, num) kind ∙ e)
              (rw (visit_stale _ _ second o.chosen.r o.chosen.place kind' idle) refl)
        | inr (none_waits, e) ↦
            absurd (cons≢nil (sym w.front.waits ∙ none_waits w.place w.id w.front.named))
      ]
