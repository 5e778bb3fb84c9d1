-- ===== src/Tests/Cycle.antt =====
-- One cycle of a memory controller.
use mcsim.Common.{Option, some, none, List, [], ◌∷◌, ok}
use mcsim.Packet.{wr, BusPacket}
use mcsim.CommandScheduler.{CommandScheduler, Device}
use mcsim.CommandScheduler
use mcsim.RefreshMachine.{RefreshMachine, no_refresh, per_bank}
use mcsim.RefreshMachine
use mcsim.MemoryController.Update.{Constraints, Policies, Channel}
use mcsim.CommandGenerator
use mcsim.Tests.Sample.{command_of}
use mcsim.Tests.Controller.{one_queue, controller}

-- A request scheduler that does nothing, and a command policy that always has a write to send.
abbrev pub always_write : Policies (Unit {0}) (Unit {0})
always_write = record {
  request_schedule = λ r g rqs cqs.
      ok (record {
        request_scheduler = r;
        generator = g;
        request_queues = rqs;
        command_queues = cqs;
      });
  request_step = λ r. r;
  command_schedule = λ s. ok (some (command_of wr 4), s);
}

abbrev pub one_channel : Channel (Unit {0}) (Unit {0})
one_channel = record {
  controller = controller;
  request_scheduler = tt;
  generator = CommandGenerator.new 8;
  scheduler = one_queue;
  called_back = [];
}

abbrev pub write_times : Constraints
write_times = record { t_rcd = 11; t_wl = 8; t_bus = 4 }

abbrev twelve_slots : List (Option BusPacket)
twelve_slots =
    none ∷ none ∷ none ∷ none ∷ none ∷ none ∷ none ∷ none ∷ none ∷ none ∷ none ∷ none ∷ []
