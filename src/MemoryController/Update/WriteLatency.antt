-- ===== src/MemoryController/Update/WriteLatency.antt =====
-- When the data of a write leaves `update` of src/MemoryController.cpp: a delay line of `tWL + tBus` cycles.
-- A window has a slot for each of the cycles to come: slot 0 is for the data that is due next.
use mcsim.Common.{ℕ, ◌≡◌, false, Option, none, some, List, [], ◌∷◌, ◌++◌, length, ok, u32}
use mcsim.Packet.{BusPacketType, wr, wra, data_packet, BusPacket, new_packet, Request}
use mcsim.CommandScheduler.{CommandScheduler, Device}
use mcsim.CommandScheduler
use mcsim.CommandQueue.{CommandQueue}
use mcsim.MemoryDevice.DelayLine.{somes, counters}
use mcsim.MemoryController.State.{MemoryController, settle}
use mcsim.MemoryController.Enqueue.{enqueue_buffer}
use mcsim.MemoryController.Returns.{done_list}
use mcsim.MemoryController.Update.{Constraints, Policies, Channel, Scheduled}

-- The data of a command: `clock` is the cycle in which it goes out.
abbrev pub write_data : ℕ → BusPacket → BusPacket
write_data clock c =
    new_packet data_packet c.requestor_id c.address c.column c.row c.bank 0 c.sub_array (u32 clock)

abbrev pub write_slot_of : BusPacketType → ℕ → BusPacket → Option BusPacket
write_slot_of wr clock c = some (write_data clock c)
write_slot_of wra clock c = some (write_data clock c)
write_slot_of _ clock c = none

abbrev pub write_slot : ℕ → Option BusPacket → Option BusPacket
write_slot clock none = none
write_slot clock (some c) = write_slot_of c.bus_packet_type clock c

-- The write data held back is that of the window.
pub record HoldsBack (m : MemoryController) (w : List (Option BusPacket)) : Type 0 where
  pub counted : m.send_data_counter ≡ counters 0 w
  pub packets : m.send_data_buffer ≡ somes w

-- The writes that the data `out` completes: those called back, and those left pending.
abbrev pub completed_by :
    (width : ℕ) → Option BusPacket → List Request → List Request × List Request
completed_by width none pending = ([], pending)
completed_by width (some p) pending =
    let (left, done) = settle width p pending in (done_list done, left)

-- How a cycle comes to the command that the command policy sends: the request policy runs, the commands that it
-- generates enter the command queues, and the refresh machine has its turn.
pub record Outgoing {D R : Type 0} (device : Device D) (policies : Policies D R) (ch : Channel D R)
    : Type 0 where
  pub requested : Scheduled R
  pub queued : MemoryController × List CommandQueue
  pub refreshed : CommandScheduler D
  pub command : Option BusPacket
  pub after : CommandScheduler D
  pub requests :
      policies.request_schedule ch.request_scheduler ch.generator ch.controller.request_queue
        ch.scheduler.command_queue
      ≡ ok requested
  pub enqueues :
      enqueue_buffer
        (record (ch.controller) { request_queue = requested.request_queues })
        requested.command_queues
        requested.generator.command_buffer
      ≡ ok queued
  pub refreshes :
      CommandScheduler.refresh device (record (ch.scheduler) { command_queue = queued.1 })
      ≡ ok refreshed
  pub sends : policies.command_schedule refreshed ≡ ok (command, after)

-- What a cycle does to the window, and to the pending writes.
pub record Shifted {D R : Type 0} (device : Device D) (policies : Policies D R) (t : Constraints)
    (w : List (Option BusPacket)) (ch ch' : Channel D R) : Type 0 where
  -- the command that goes out in the cycle
  pub outgoing : Outgoing device policies ch
  -- the data that is due
  pub out : Option BusPacket
  pub window : List (Option BusPacket)
  pub shifts : out ∷ window ≡ w ++ write_slot ch.controller.clock_cycle outgoing.command ∷ []
  pub as_long : length window ≡ length w
  pub holds : HoldsBack ch'.controller window
  pub calls :
      ch'.called_back
      ≡ ch.called_back
        ++ (completed_by ch.controller.data_bus_width out ch.controller.pending_write_request).0
  pub left :
      ch'.controller.pending_write_request
      ≡ (completed_by ch.controller.data_bus_width out ch.controller.pending_write_request).1

module _ {D R : Type 0} (device : Device D) (policies : Policies D R) (t : Constraints) where
  record Finished (ch ch' : Channel D R) (x : Option BusPacket) (w : List (Option BusPacket))
      : Type 0 where
    holds : HoldsBack ch'.controller w
    calls :
        ch'.called_back
        ≡ ch.called_back
          ++ (completed_by ch.controller.data_bus_width x ch.controller.pending_write_request).0
    left :
        ch'.controller.pending_write_request
        ≡ (completed_by ch.controller.data_bus_width x ch.controller.pending_write_request).1

  -- No command is posted.
  abbrev pub NeverPosts : Type 0
  NeverPosts =
      (s s' : CommandScheduler D) (c : BusPacket)
      → policies.command_schedule s ≡ ok (some c, s')
      → c.post_command ≡ false
