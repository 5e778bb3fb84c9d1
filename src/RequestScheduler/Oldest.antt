-- ===== src/RequestScheduler/Oldest.antt =====
-- system/FCFS/RequestScheduler_FCFS.h: of each queue, the request that came first. Whether a request can be
-- scheduled is the virtual `isSchedulable`, a parameter, with the state it changes. `checkRequest`
-- and `numIndex` go from one queue to the next, as in the code.
pub mod Earliest
pub mod Visit
pub mod Stale
use mcsim.Common.{
  ℕ, zero, suc, ◌+◌, Bool, true, false, Option, none, some, List, [], ◌∷◌, length, ltb, leb,
  if◌then◌else◌, Outcome, ok, undefined_behaviour, ◌>>=◌, defined,
}
use mcsim.Packet.{Request, AddressMap}
use mcsim.RequestQueue.{
  RequestQueue, get_size, get_queue_size, get_request, get_requestor_request, check_request_index,
  remove_request,
}
use mcsim.RequestScheduler.{BankTable, is_row_hit, update_row_table}

-- `checkRequest` and `numIndex`
abbrev pub Check : Type 0
Check = Option Request × ℕ

-- The loop that looks for a requestor with a request, `n` rounds from `num` on.
unfoldable pub first_waiting : ℕ → RequestQueue → ℕ → Check → Outcome Check
first_waiting zero q num check = ok check
first_waiting (suc n) q num check =
    let rest = first_waiting n q (num + 1) check in
    (do
      size ← get_size q true num
      if ltb 0 size then (do r ← check_request_index q num 0; ok (r, num)) else rest)

-- The comparison of the second loop, which reads both requests.
unfoldable pub compare_front : RequestQueue → ℕ → Check → Outcome Check
compare_front q num check = do
  old ← defined check.0
  front ← check_request_index q num 0
  new ← defined front
  ok (if leb new.arrive_time old.arrive_time then (some new, num) else check)

-- The loop that looks for requests that came no later.
unfoldable pub earlier_front : ℕ → RequestQueue → ℕ → Check → Outcome Check
unfolding compare_front
earlier_front zero q num check = ok check
earlier_front (suc n) q num check = do
  size ← get_size q true num
  check' ← if ltb 0 size then compare_front q num check else ok check
  earlier_front n q (num + 1) check'

module _ {G : Type 0} (is_schedulable : G → Request → Bool → Outcome (Bool × G)) where
  -- The open-row table, the generator and the queue after a request was looked at.
  unfoldable pub take_request :
      BankTable → G → RequestQueue → Request → Outcome (BankTable × G × RequestQueue)
  take_request t g q r = do
    hit ← is_row_hit t r
    answer ← is_schedulable g r hit
    if answer.0
        then (do
          q' ← remove_request q
          ok (update_row_table t r.address_map.rank r.address_map.bank r.row, answer.1, q'))
        else ok (t, answer.1, q)

  unfoldable pub take_checked :
      BankTable → G → RequestQueue → Check → Outcome (BankTable × G × RequestQueue)
  unfolding take_request
  take_checked t g q (none, num) = ok (t, g, q)
  take_checked t g q (some checked, num) = do
    got ← get_requestor_request q num 0
    r ← defined got.0
    take_request t g got.1 r

  -- A queue with a buffer for each requestor.
  unfoldable pub visit_requestors :
      BankTable → G → RequestQueue → Check → Outcome (Check × (BankTable × G × RequestQueue))
  unfolding first_waiting earlier_front take_checked
  visit_requestors t g q check = do
    found ← first_waiting (get_queue_size q) q 0 check
    chosen ← earlier_front (get_queue_size q) q 0 found
    taken ← take_checked t g q chosen
    ok (chosen, taken)

  -- A queue that all requestors share.
  unfoldable pub visit_shared :
      BankTable → G → RequestQueue → Outcome (BankTable × G × RequestQueue)
  unfolding take_request
  visit_shared t g q =
      if ltb 0 (length q.general_buffer)
      then (do got ← get_request q 0; r ← defined got.0; take_request t g got.1 r)
      else ok (t, g, q)

  unfoldable pub visit :
      BankTable → G → RequestQueue → Check → Outcome (Check × (BankTable × G × RequestQueue))
  unfolding visit_requestors visit_shared
  visit t g q check =
      if q.per_requestor_enable
      then visit_requestors t g q check
      else (do taken ← visit_shared t g q; ok (check, taken))

  -- The loop over the queues.
  unfoldable pub queues_loop :
      BankTable → G → List RequestQueue → Check → Outcome (BankTable × G × List RequestQueue)
  unfolding visit
  queues_loop t g [] check = ok (t, g, [])
  queues_loop t g (q ∷ qs) check = do
    one ← visit t g q check
    rest ← queues_loop one.1.0 one.1.1 qs one.0
    ok (rest.0, rest.1, one.1.2 ∷ rest.2)

  -- `requestSchedule`; `num` is what an earlier call left in `numIndex`.
  unfoldable pub fcfs_request_schedule :
      BankTable → G → List RequestQueue → ℕ → Outcome (BankTable × G × List RequestQueue)
  unfolding queues_loop
  fcfs_request_schedule t g queues num = queues_loop t g queues (none, num)
