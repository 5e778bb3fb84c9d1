-- ===== src/CommandScheduler/CasFirst.antt =====
-- system/RTMem/CommandScheduler_RTMem.h: the policy that sends the earliest CAS command of those at the fronts
-- of the queues that are ready, and another command only where that one cannot go.
pub mod Scan
pub mod Choice
pub mod Sent
use mcsim.Common.{
  ℕ, zero, suc, ◌+◌, Bool, true, false, Option, none, some, List, [], ◌∷◌, length, get_elem?, set,
  ltb, if◌then◌else◌, Outcome, ok, undefined_behaviour, ◌>>=◌, defined,
}
use mcsim.Packet.{BusPacket, type_index, act}
use mcsim.CommandQueue.{CommandQueue, get_size, get_command}
use mcsim.CommandScheduler.{CommandScheduler, Device, is_ready, is_issuable, send_command}

-- `tempCAS` and `tempACT`
abbrev pub Temps : Type 0
Temps = Option BusPacket × Option BusPacket

-- The command at the front of the critical buffer, or else of the other one.
unfoldable pub look : CommandQueue → Outcome (Option BusPacket × CommandQueue)
look q =
    if ltb 0 (get_size q true)
    then (do got ← get_command q true; ok (some got.0, got.1))
    else if ltb 0 (get_size q false)
    then (do got ← get_command q false; ok (some got.0, got.1))
    else ok (none, q)

unfoldable pub keep_earlier : BusPacket → Option BusPacket → Option BusPacket
keep_earlier c none = some c
keep_earlier c (some t) = if ltb c.arrive_time t.arrive_time then some c else some t

-- `busPacketType < ACT`
abbrev pub is_cas_command : BusPacket → Bool
is_cas_command c = ltb (type_index c.bus_packet_type) (type_index act)

unfoldable pub note : BusPacket → Temps → Temps
unfolding keep_earlier
note c temps =
    if is_cas_command c
    then (keep_earlier c temps.0, temps.1)
    else (temps.0, keep_earlier c temps.1)

abbrev pub or_other : Option BusPacket → Option BusPacket → Option BusPacket
or_other none other = other
or_other (some c) other = some c

module _ {D : Type 0} (device : Device D) where
  -- The check is made with the command's bank as the queue's index.
  unfoldable pub note_ready :
      CommandScheduler D → Option BusPacket → Temps → Outcome (Temps × CommandScheduler D)
  unfolding note
  note_ready s none temps = ok (temps, s)
  note_ready s (some c) temps = do
    ready ← is_ready s c c.bank
    ok (if ready then note c temps else temps, s)

  -- The loop over the queues from `index` on, with `n` rounds left.
  unfoldable pub scan : ℕ → CommandScheduler D → ℕ → Temps → Outcome (Temps × CommandScheduler D)
  unfolding look note_ready
  scan zero s index temps = ok (temps, s)
  scan (suc n) s index temps = do
    q ← defined (get_elem? s.command_queue index)
    seen ← look q
    noted ← note_ready (record s { command_queue = set s.command_queue index seen.1 }) seen.0 temps
    scan n noted.1 (index + 1) noted.0

  abbrev pub if_issuable : CommandScheduler D → Option BusPacket → Option BusPacket
  if_issuable s none = none
  if_issuable s (some c) = if is_issuable device s c then some c else none

  unfoldable pub choose : CommandScheduler D → Temps → Option BusPacket
  choose s temps = or_other (if_issuable s temps.0) (if_issuable s temps.1)

  abbrev pub send_chosen :
      CommandScheduler D → Option BusPacket → Outcome (Option BusPacket × CommandScheduler D)
  send_chosen s none = ok (none, s)
  send_chosen s (some c) = do s' ← send_command device s c c.bank false; ok (some c, s')

  -- `commandSchedule`
  unfoldable pub cas_first_schedule :
      CommandScheduler D → Outcome (Option BusPacket × CommandScheduler D)
  unfolding scan choose
  cas_first_schedule s = do
    scanned ← scan (length s.command_queue) s 0 (none, none)
    send_chosen scanned.1 (choose scanned.1 scanned.0)
