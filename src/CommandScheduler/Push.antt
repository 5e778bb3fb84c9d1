-- ===== src/CommandScheduler/Push.antt =====
-- src/generalScheduler/CommandScheduler_PUSH.h: the policy that sends, of the commands at the fronts of
-- the critical buffers, the earliest one that can go.
pub mod Looks
pub mod Earliest
use mcsim.Common.{
  ℕ, zero, suc, ◌+◌, Bool, true, false, ◌&&◌, Option, none, some, List, [], ◌∷◌, length, get_elem?,
  set, ltb, leb, if◌then◌else◌, Outcome, ok, undefined_behaviour, ◌>>=◌, defined,
}
use mcsim.Packet.{BusPacket}
use mcsim.CommandQueue.{CommandQueue, get_size, get_command}
use mcsim.CommandScheduler.{CommandScheduler, Device, is_ready, is_issuable, send_command}

-- `checkCommand_temp_1` and `index_temp`
abbrev pub Temp : Type 0
Temp = Option (BusPacket × ℕ)

abbrev pub latest : Option BusPacket → ℕ → Temp → Temp
latest none index temp = temp
latest (some c) index temp = some (c, index)

-- The second loop reads the first one's command, which may not be NULL then.
abbrev pub earlier : Option BusPacket → ℕ → Temp → Outcome Temp
earlier none index temp = ok temp
earlier (some c) index none = undefined_behaviour
earlier (some c) index (some t) =
    ok (if leb c.arrive_time t.0.arrive_time then some (c, index) else some t)

-- `scheduledCommand` after the loops, which clear it in every round.
abbrev pub cleared : List CommandQueue → Option BusPacket → Option BusPacket
cleared [] scheduled = scheduled
cleared (q ∷ qs) scheduled = none

module _ {D : Type 0} (device : Device D) where
  check_front :
      CommandScheduler D → ℕ → CommandQueue → Outcome (Option BusPacket × CommandScheduler D)
  check_front s index q = do
    got ← get_command q true
    let s' = record s { command_queue = set s.command_queue index got.1 }
    ready ← is_ready s' got.0 index
    ok (if ready && is_issuable device s' got.0 then some got.0 else none, s')

  -- What both loops do with the queue at `index`: the command that can go, if any; looking at a command
  -- marks the queue's buffer.
  unfoldable pub check : CommandScheduler D → ℕ → Outcome (Option BusPacket × CommandScheduler D)
  unfolding check_front
  check s index = do
    q ← defined (get_elem? s.command_queue index)
    if ltb 0 (get_size q true) then check_front s index q else ok (none, s)

  -- The first loop, `n` queues from `index` on.
  unfoldable pub first_loop :
      CommandScheduler D → ℕ → ℕ → Temp → Outcome (Temp × CommandScheduler D)
  first_loop s index zero temp = ok (temp, s)
  first_loop s index (suc n) temp = do
    one ← check s index
    first_loop one.1 (index + 1) n (latest one.0 index temp)

  unfoldable pub second_loop :
      CommandScheduler D → ℕ → ℕ → Temp → Outcome (Temp × CommandScheduler D)
  second_loop s index zero temp = ok (temp, s)
  second_loop s index (suc n) temp = do
    one ← check s index
    temp' ← earlier one.0 index temp
    second_loop one.1 (index + 1) n temp'

  abbrev pub send :
      Option BusPacket → CommandScheduler D → Temp → Outcome (Option BusPacket × CommandScheduler D)
  send scheduled s none = ok (scheduled, s)
  send scheduled s (some (c, index)) = do s' ← send_command device s c index false; ok (some c, s')

  -- `commandSchedule`, with the value of `scheduledCommand` that an earlier call has left.
  unfoldable pub command_schedule :
      Option BusPacket → CommandScheduler D → Outcome (Option BusPacket × CommandScheduler D)
  command_schedule scheduled s = do
    one ← first_loop s 0 (length s.command_queue) none
    two ← second_loop one.1 0 (length s.command_queue) one.0
    send (cleared s.command_queue scheduled) two.1 two.0
