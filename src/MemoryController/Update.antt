-- ===== src/MemoryController/Update.antt =====
-- `update` of src/MemoryController.cpp, one cycle of the controller. The request scheduler, the command
-- scheduling policy and the memory device are parameters.
pub mod InStep
pub mod WriteLatency
use mcsim.Common.{
  ℕ, ◌+◌, ◌-◌, Option, none, some, List, [], ◌∷◌, ◌++◌, map, u32, u64, sub_u32, if◌then◌else◌,
  Outcome, ok, undefined_behaviour, ◌>>=◌, ◌==◌,
}
use mcsim.Packet.{BusPacketType, wr, wra, data_packet, BusPacket, new_packet, Request}
use mcsim.RequestQueue.{RequestQueue}
use mcsim.CommandQueue.{CommandQueue}
use mcsim.CommandGenerator.{CommandGenerator}
use mcsim.CommandScheduler.{CommandScheduler, Device}
use mcsim.CommandScheduler
use mcsim.MemoryController.State.{MemoryController, send_data}
use mcsim.MemoryController.Enqueue.{enqueue_buffer}

-- `get_constraints` of the parameters that `update` asks for.
pub record Constraints : Type 0 where
  pub t_rcd : ℕ
  pub t_wl : ℕ
  pub t_bus : ℕ

-- The data of a write command that went out, and the cycles until it is on the bus.
unfoldable pub push_write_data : Constraints → MemoryController → BusPacket → MemoryController
push_write_data t m c = record m {
  send_data_buffer =
      m.send_data_buffer
      ++ new_packet data_packet c.requestor_id c.address c.column c.row c.bank 0 c.sub_array
          (u32 m.clock_cycle)
        ∷ [];
  send_data_counter =
      m.send_data_counter
      ++ (if c.post_command
          then u32 (sub_u32 t.t_rcd 1 + t.t_wl + t.t_bus)
          else u32 (t.t_wl + t.t_bus))
        ∷ [];
}

abbrev outgoing_type : Constraints → MemoryController → BusPacket → BusPacketType → MemoryController
outgoing_type t m c wr = push_write_data t m c
outgoing_type t m c wra = push_write_data t m c
outgoing_type t m c _ = m

outgoing_command : Constraints → MemoryController → Option BusPacket → MemoryController
outgoing_command t m none = m
outgoing_command t m (some c) = outgoing_type t m c c.bus_packet_type

-- The data that is due, if its counter has run down, and the counters counted down by one; a
-- counter at 0 that is not the first wraps around.
unfoldable pub due_data :
    List ℕ → List BusPacket → Outcome (Option BusPacket × List ℕ × List BusPacket)
due_data [] buffer = ok (none, [], buffer)
due_data (n ∷ ns) [] =
    if n == 0 then undefined_behaviour else ok (none, map (λ k. sub_u32 k 1) (n ∷ ns), [])
due_data (n ∷ ns) (p ∷ ps) =
    if n == 0
    then ok (some p, map (λ k. sub_u32 k 1) ns, ps)
    else ok (none, map (λ k. sub_u32 k 1) (n ∷ ns), p ∷ ps)

pub record Scheduled (R : Type 0) : Type 0 where
  pub request_scheduler : R
  pub generator : CommandGenerator
  pub request_queues : List RequestQueue
  pub command_queues : List CommandQueue

-- The two scheduling policies of a system.
pub record Policies (D R : Type 0) : Type 0 where
  -- `requestSchedule()`
  pub request_schedule :
      R → CommandGenerator → List RequestQueue → List CommandQueue → Outcome (Scheduled R)
  -- `step()` of the request scheduler
  pub request_step : R → R
  -- `commandSchedule()`
  pub command_schedule : CommandScheduler D → Outcome (Option BusPacket × CommandScheduler D)

-- A controller with the components that it drives, and the requests called back so far.
pub record Channel (D R : Type 0) : Type 0 where
  pub controller : MemoryController
  pub request_scheduler : R
  pub generator : CommandGenerator
  pub scheduler : CommandScheduler D
  pub called_back : List Request

module _ {D R : Type 0} (device : Device D) (policies : Policies D R) (t : Constraints) where
  open policies use {request_schedule, request_step, command_schedule}

  -- The write data that is due goes to the device and to `sendData`.
  send_due : Channel D R → Option BusPacket → Channel D R
  send_due ch none = ch
  send_due ch (some p) =
      let (m, done) = send_data ch.controller p in
      record ch {
        controller = m;
        scheduler = record (ch.scheduler) {
          memory_device = device.receive_from_bus ch.scheduler.memory_device p;
        };
        called_back = ch.called_back ++ called done;
      }
    where
      called : Option Request → List Request
      called none = []
      called (some r) = r ∷ []

  -- The cycle after the schedulers have run: data, then the clocks.
  finish_cycle : Channel D R → Outcome (Channel D R)
  unfolding send_due
  finish_cycle ch = do
    due ← due_data ch.controller.send_data_counter ch.controller.send_data_buffer
    let sent = send_due ch due.0
    scheduler ← CommandScheduler.tick sent.scheduler
    let m = sent.controller
    ok (record sent {
      controller = record m {
        send_data_counter = due.1;
        send_data_buffer = due.2;
        clock_cycle = u64 (m.clock_cycle + 1);
        stats = record (m.stats) {
          close_counter = u64 (m.stats.close_counter + 1);
          open_counter = u64 (m.stats.open_counter + 1);
        };
      };
      request_scheduler = request_step sent.request_scheduler;
      scheduler = scheduler;
    })

  -- `MemoryController::update`
  unfoldable pub update : Channel D R → Outcome (Channel D R)
  unfolding outgoing_command finish_cycle
  update ch = do
    let m = ch.controller
    sch ←
        request_schedule ch.request_scheduler ch.generator m.request_queue
          ch.scheduler.command_queue
    queued ←
        enqueue_buffer (record m { request_queue = sch.request_queues }) sch.command_queues
          sch.generator.command_buffer
    refreshed ← CommandScheduler.refresh device (record (ch.scheduler) { command_queue = queued.1 })
    out ← command_schedule refreshed
    finish_cycle (record {
      controller = outgoing_command t queued.0 out.0;
      request_scheduler = sch.request_scheduler;
      generator = record (sch.generator) { command_buffer = [] };
      scheduler = out.1;
      called_back = ch.called_back;
    })
