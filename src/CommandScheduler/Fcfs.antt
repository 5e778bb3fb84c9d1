-- ===== src/CommandScheduler/Fcfs.antt =====
-- src/generalScheduler/CommandScheduler_FCFS.h: the policy that sends, from the first queue that has one, the
-- earliest of the commands at the fronts of the requestors' buffers that can go. The field
-- `scheduledCommand` is an argument: the call returns its old value where nothing assigns it.
pub mod Stale
use mcsim.Common.{
  ℕ, zero, suc, ◌+◌, Bool, true, false, ◌&&◌, Option, none, some, length, get_elem?, ltb, leb,
  if◌then◌else◌, Outcome, ok, undefined_behaviour, ◌>>=◌, defined,
}
use mcsim.Packet.{BusPacket}
use mcsim.CommandQueue.{
  CommandQueue, get_requestor_index, get_requestor_size, get_requestor_command,
}
use mcsim.CommandScheduler.{CommandScheduler, Device, is_ready, is_issuable, send_command}
use mcsim.CommandScheduler.Push.{check}

-- A command of the second loop against `checkCommand_temp_1`, which may not be NULL then.
abbrev pub replace_later : Option BusPacket → Option BusPacket → Outcome (Option BusPacket)
replace_later none temp = ok temp
replace_later (some c) none = undefined_behaviour
replace_later (some c) (some t) = ok (if leb c.arrive_time t.arrive_time then some c else some t)

-- The `break` of the first loop.
abbrev pub or_else : Option BusPacket → Outcome (Option BusPacket) → Outcome (Option BusPacket)
or_else none rest = rest
or_else (some c) rest = ok (some c)

module _ {D : Type 0} (device : Device D) where
  front_command : CommandScheduler D → ℕ → CommandQueue → ℕ → Outcome (Option BusPacket)
  front_command s index q num = do
    c ← get_requestor_command q num
    ready ← is_ready s c index
    ok (if ready && is_issuable device s c then some c else none)

  -- What both loops look at: the requestor's oldest command, if it can go.
  unfoldable pub check_requestor :
      CommandScheduler D → ℕ → CommandQueue → ℕ → Outcome (Option BusPacket)
  unfolding front_command
  check_requestor s index q num = do
    size ← get_requestor_size q num
    if ltb 0 size then front_command s index q num else ok none

  unfoldable pub first_requestor :
      CommandScheduler D → ℕ → CommandQueue → ℕ → ℕ → Outcome (Option BusPacket)
  first_requestor s index q num zero = ok none
  first_requestor s index q num (suc n) = do
    o ← check_requestor s index q num
    or_else o (first_requestor s index q (num + 1) n)

  unfoldable pub earliest_requestor :
      CommandScheduler D → ℕ → CommandQueue → ℕ → ℕ → Option BusPacket → Outcome (Option BusPacket)
  earliest_requestor s index q num zero temp = ok temp
  earliest_requestor s index q num (suc n) temp = do
    o ← check_requestor s index q num
    temp' ← replace_later o temp
    earliest_requestor s index q (num + 1) n temp'

  -- A queue with a buffer for each requestor.
  unfoldable pub check_requestors :
      CommandScheduler D → ℕ → CommandQueue → Outcome (Option BusPacket)
  check_requestors s index q = do
    temp ← first_requestor s index q 0 (get_requestor_index q)
    earliest_requestor s index q 0 (get_requestor_index q) temp

  abbrev pub sent_or :
      Option BusPacket
      → CommandScheduler D
      → ℕ
      → Outcome (Option BusPacket × CommandScheduler D)
      → Outcome (Option BusPacket × CommandScheduler D)
  sent_or none s index rest = rest
  sent_or (some c) s index rest = do s' ← send_command device s c index false; ok (some c, s')

  -- The loop over the queues; a queue without requestors' buffers clears the field first.
  unfoldable pub queue_loop :
      CommandScheduler D
      → ℕ
      → ℕ
      → Option BusPacket
      → Outcome (Option BusPacket × CommandScheduler D)
  queue_loop s index zero scheduled = ok (scheduled, s)
  queue_loop s index (suc n) scheduled = do
    q ← defined (get_elem? s.command_queue index)
    if q.per_requestor_enable
        then (do
          o ← check_requestors s index q
          sent_or o s index (queue_loop s (index + 1) n scheduled))
        else (do
          one ← check device s index
          sent_or one.0 one.1 index (queue_loop one.1 (index + 1) n none))

  -- `commandSchedule`
  unfoldable pub fcfs_schedule :
      Option BusPacket → CommandScheduler D → Outcome (Option BusPacket × CommandScheduler D)
  fcfs_schedule scheduled s = queue_loop s 0 (length s.command_queue) scheduled
