-- ===== src/CommandScheduler.antt =====
-- src/CommandScheduler.h and src/CommandScheduler.cpp: the timers that hold a queue's commands back
-- after each command sent, and the calls that the scheduling policies make. The memory device is
-- a parameter: its state, its timing rules, its readiness check and its bus. A timer map that
-- holds nothing is not told apart from a missing one: every read of the code treats them alike.
-- Trace output is left out.
pub mod Timers
pub mod Spacing
pub mod Push
pub mod Fcfs
pub mod CasFirst
pub mod ReadyFifo
use mcsim.Common.{
  ℕ, zero, suc, ◌+◌, ◌-◌, Bool, true, false, not, Option, none, some, List, [], ◌∷◌, Map, insert,
  find_or, empty_map, map_values, length, get_elem?, set, ltb, max, u64, if◌then◌else◌, Outcome, ok,
  undefined_behaviour, aborted, ◌>>=◌, ◌>>◌, defined, ◌==◌,
}
use mcsim.Packet.{BusPacket, type_index}
use mcsim.CommandQueue.{CommandQueue, remove_command, remove_requestor_command}
use mcsim.RefreshMachine.{RefreshMachine, busy_bank}
use mcsim.RefreshMachine

pub record CommandScheduler (D : Type 0) : Type 0 where
  pub command_queue : List CommandQueue
  -- `cmdQueueTimer`: queue, then command type.
  pub cmd_queue_timer : ℕ → Map ℕ
  -- `reqCmdQueueTimer`: queue, requestor, then command type.
  pub req_cmd_queue_timer : ℕ → ℕ → Map ℕ
  pub refresh_machine : RefreshMachine
  pub memory_device : D
  pub clock : ℕ

-- `PDE`, the first type that has no timer.
abbrev pub timed_types : ℕ
timed_types = 11

-- `timer[type] != 0`, for an entry that is there.
abbrev pub elapsed : Option ℕ → Bool
elapsed none = true
elapsed (some n) = n == 0

-- The timers that hold back a command of the queue at `index`.
abbrev pub timers_for : {D : Type 0} → CommandScheduler D → ℕ → CommandQueue → ℕ → Map ℕ
timers_for s index q id =
    if q.per_requestor_enable then s.req_cmd_queue_timer index id else s.cmd_queue_timer index

unfoldable pub is_ready : {D : Type 0} → CommandScheduler D → BusPacket → ℕ → Outcome Bool
is_ready s cmd index = do
  q ← defined (get_elem? s.command_queue index)
  ok (elapsed (timers_for s index q cmd.requestor_id (type_index cmd.bus_packet_type)))

-- The types from `type` on, `n` of them: each timer is raised to the device's constraint.
unfoldable pub raise_timers : (ℕ → ℕ) → Map ℕ → ℕ → ℕ → Map ℕ
raise_timers timing timers type zero = timers
raise_timers timing timers type (suc n) =
    raise_timers timing (insert timers type (max (find_or timers type 0) (timing type))) (type + 1)
      n

-- One timer's `if (counter.second > 0) counter.second--`.
abbrev pub count_down : ℕ → ℕ
count_down n = if ltb 0 n then n - 1 else n

abbrev pub with_queue {ℓ} : {A : Type ℓ} → Option CommandQueue → A → A → A → A
with_queue none missing per_requestor general = missing
with_queue (some q) missing per_requestor general =
    if q.per_requestor_enable then per_requestor else general

-- A device as the command schedulers see it.
pub record Device (D : Type 0) : Type 0 where
  -- `command_timing(cmd, type)`
  pub command_timing : BusPacket → ℕ → ℕ
  -- `command_check(cmd)`
  pub command_check : D → BusPacket → Bool
  -- `receiveFromBus(cmd)`
  pub receive_from_bus : D → BusPacket → D

module _ {D : Type 0} (device : Device D) where
  open device use {command_timing, command_check, receive_from_bus}

  unfoldable pub is_issuable : CommandScheduler D → BusPacket → Bool
  is_issuable s cmd =
      if busy_bank s.refresh_machine cmd.bank then false else command_check s.memory_device cmd

  raised : BusPacket → Map ℕ → Map ℕ
  raised cmd timers = raise_timers (command_timing cmd) timers 0 timed_types

  replace_queue : CommandScheduler D → ℕ → CommandQueue → CommandScheduler D
  replace_queue s index q = record s { command_queue = set s.command_queue index q }

  send_requestor : CommandScheduler D → BusPacket → ℕ → CommandQueue → Outcome (CommandScheduler D)
  unfolding raised replace_queue
  send_requestor s cmd index q = do
    q' ← remove_requestor_command q cmd.requestor_id
    ok (record (replace_queue s index q') {
      req_cmd_queue_timer = λ i id.
          if i == index
          then if id == cmd.requestor_id
            then raised cmd (s.req_cmd_queue_timer i id)
            else s.req_cmd_queue_timer i id
          else s.req_cmd_queue_timer i id;
    })

  send_general :
      CommandScheduler D → BusPacket → ℕ → Bool → CommandQueue → Outcome (CommandScheduler D)
  unfolding raised replace_queue
  send_general s cmd index bypass q =
      let s' = record s {
        cmd_queue_timer =
            λ i. if i == index then raised cmd (s.cmd_queue_timer i) else s.cmd_queue_timer i;
      } in
      if bypass then ok s' else (do q' ← remove_command q; ok (replace_queue s' index q'))

  -- `sendCommand`; the device receives the command last. It is sent the field `scheduledCommand`, which is what
  -- every policy passes as `cmd`.
  unfoldable pub send_command :
      CommandScheduler D → BusPacket → ℕ → Bool → Outcome (CommandScheduler D)
  unfolding send_requestor send_general
  send_command s cmd index bypass = do
    q ← defined (get_elem? s.command_queue index)
    s' ←
        if q.per_requestor_enable
        then send_requestor s cmd index q
        else send_general s cmd index bypass q
    ok (record s' { memory_device = receive_from_bus s'.memory_device cmd })

  -- A refresh command goes out as soon as the device is ready for it.
  refresh_with : CommandScheduler D → Option BusPacket → Outcome (CommandScheduler D)
  refresh_with s none = ok s
  refresh_with s (some cmd) =
      if command_check s.memory_device cmd
      then (do
        popped ← RefreshMachine.pop_command s.refresh_machine
        ok (record s {
          memory_device = receive_from_bus s.memory_device cmd;
          refresh_machine = popped;
        }))
      else ok s

  -- `refresh`
  unfoldable pub refresh : CommandScheduler D → Outcome (CommandScheduler D)
  unfolding refresh_with
  refresh s =
      if s.refresh_machine.is_interval
      then (let (cmd, machine) = RefreshMachine.refresh s.refresh_machine in
          refresh_with (record s { refresh_machine = machine }) cmd)
      else ok s

-- The loop of `tick` over the queues, and over the timers of each.
tick_timers : {D : Type 0} → CommandScheduler D → CommandScheduler D
tick_timers s = record s {
  cmd_queue_timer = λ i.
      let old = s.cmd_queue_timer i in
      with_queue (get_elem? s.command_queue i) old old (map_values count_down old);
  req_cmd_queue_timer = λ i id.
      let old = s.req_cmd_queue_timer i id in
      with_queue (get_elem? s.command_queue i) old (map_values count_down old) old;
}

-- `tick`; stepping the refresh machine reads the queues.
unfoldable pub tick : {D : Type 0} → CommandScheduler D → Outcome (CommandScheduler D)
unfolding tick_timers
tick s = do
  stepped ← RefreshMachine.step s.refresh_machine s.command_queue
  ok (record (tick_timers s) {
    refresh_machine = stepped.0;
    command_queue = stepped.1;
    clock = u64 (s.clock + 1);
  })
