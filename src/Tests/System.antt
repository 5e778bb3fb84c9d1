-- ===== src/Tests/System.antt =====
-- The configuration file, the channels, the device, a command policy and the requestor.
use mcsim.Common.{
  zero, suc, get_elem?, ap, sym, some-injective, ℕ, ◌%◌, ◌≡◌, refl, true, false, Option, none, some,
  List, [], ◌∷◌, ◌++◌, length, map, arith, ok, aborted, inl, inr,
}
use mcsim.Packet.{BusPacket, rd, wr, data_read}
use mcsim.MemoryController.ConfigFile.{Config, read_config_file}
use mcsim.MemoryController.ConfigFile.Entries.{Entry, IsEntry}
use mcsim.MemoryController.ConfigFile.RoundTrip.{
  Item, entry, remark, blank, print, settings, read_config_file-print, read_config_file-aborts,
}
use mcsim.MemoryController.Update.{Channel}
use mcsim.MemorySystem.{Parts, MultiChannel, add}
use mcsim.MemorySystem.Channels.{Routed, add-Accepted}
use mcsim.ClockDomain
use mcsim.MemoryDevice
use mcsim.MemoryDevice.{MemoryDevice}
use mcsim.RamulatorDdr3.{SpeedEntry, Dram, convert_cmd}
use mcsim.RamulatorDdr3.ReadLatency.{Holds, run, slot, run-delay_line}
use mcsim.CommandQueue.{CommandQueue}
use mcsim.CommandQueue
use mcsim.CommandScheduler.{CommandScheduler}
use mcsim.CommandScheduler.Fcfs.Stale.{Scheduled, fcfs_schedule-Scheduled}
use mcsim.CommandScheduler.Push.Earliest.{Pushed, command_schedule-Pushed}
use mcsim.MemoryController.Enqueue.{add_request, incoming}
use mcsim.MemoryController.Decode.{queue_number, first_marked}
use mcsim.Requestor.{Requestor, Memory, TraceLine, update, return_data}
use mcsim.Requestor
use mcsim.Requestor.Outstanding.{IsBounded, Answered, update-IsBounded, return_data-Answered}
use mcsim.Tests.Sample.{command_of, read_of}
use mcsim.Tests.Controller.{three_apart, one_queue, to_bank_one, at_bank_one, two_banks}
use mcsim.Tests.Cycle.{always_write, one_channel, write_times}

abbrev empty_config : Config
empty_config = record {
  req_map = [];
  cmd_map = [];
  write_queue_enable = false;
  requestor_req_q = false;
  requestor_cmd_q = false;
  config_table = λ k. none;
}

-- `A=12 ;x` after a remark and an empty line.
abbrev short_entry : Entry
short_entry = record {
  key = b'A' ∷ [];
  value = b'1' ∷ b'2' ∷ [];
  blanks = b' ' ∷ [];
  comment = b';' ∷ b'x' ∷ [];
}

abbrev short_file : List Item
short_file = remark (b'r' ∷ []) ∷ blank ∷ entry short_entry ∷ []

short_entry-IsEntry : IsEntry short_entry
short_entry-IsEntry = record {
  key_equals = (refl, tt);
  key_comment = (refl, tt);
  value_comment = (refl, (refl, tt));
  value_trimmed = refl;
  is_blank = (refl, tt);
  is_comment = refl;
}

read_config_file-print_example :
    read_config_file (some (print short_file)) empty_config ≡ ok (settings short_file empty_config)
read_config_file-print_example =
    read_config_file-print short_file empty_config (tt, (tt, (short_entry-IsEntry, tt)))
      ((refl, (refl, tt)), (tt, ((refl, (refl, (refl, (refl, (refl, (refl, (refl, tt))))))), tt)))

read_config_file-aborts_example :
    read_config_file
      (some (print short_file ++ (((b' ' ∷ b'A' ∷ []) ++ b';' ∷ []) ++ b'\n' ∷ b'B' ∷ [])))
      empty_config
    ≡ aborted
read_config_file-aborts_example =
    read_config_file-aborts short_file b' ' (b'A' ∷ []) (b';' ∷ []) (b'B' ∷ []) empty_config
      (tt, (tt, (short_entry-IsEntry, tt)))
      ((refl, (refl, tt)), (tt, ((refl, (refl, (refl, (refl, (refl, (refl, (refl, tt))))))), tt)))
      (refl, (refl, tt)) (refl, (refl, tt)) refl (refl, (refl, (refl, tt)))

abbrev speed : SpeedEntry
speed = record {
  n_bl = 2;
  n_cl = 1;
  n_rcd = 11;
  n_rp = 11;
  n_cwl = 8;
  n_ras = 28;
  n_rc = 39;
  n_rtp = 6;
  n_wr = 12;
}

-- A library that lets every command go and keeps nothing.
abbrev any_dram : Dram (Unit {0})
any_dram = record {
  update = λ c cmd addr clock. c;
  check = λ c cmd addr clock. true;
  get_next = λ c cmd addr. 0;
}

abbrev new_device : MemoryDevice (Unit {0})
new_device = MemoryDevice.new tt

run-delay_line_example :
    (d' : MemoryDevice (Unit {0})) × (outs : List (Option BusPacket)) × (w' : List
      (Option BusPacket))
    × (run any_dram speed new_device ((command_of rd 1 ∷ []) ∷ (command_of wr 2 ∷ []) ∷ [])
        ≡ ok (d', outs))
    × Holds any_dram speed d' w'
    × (length w' ≡ 2)
    × (outs ++ w'
        ≡ (none ∷ none ∷ []) ++ map slot ((command_of rd 1 ∷ []) ∷ (command_of wr 2 ∷ []) ∷ []))
unfolding convert_cmd
run-delay_line_example =
    run-delay_line any_dram speed new_device (none ∷ none ∷ [])
      ((command_of rd 1 ∷ []) ∷ (command_of wr 2 ∷ []) ∷ [])
      (record { cycles = refl; pending = refl; posted = refl }) (omega arith)
      ((((refl, inr (_, refl)), tt), omega arith), ((((refl, inr (_, refl)), tt), omega arith), tt))

command_schedule-Pushed_example : Pushed three_apart none one_queue
command_schedule-Pushed_example = command_schedule-Pushed three_apart none one_queue

-- A memory that takes every request.
abbrev any_memory : Memory (Unit {0})
any_memory = record {
  add_request = λ m id address r_w size. ok (m, true);
  is_write_mode = λ m. false;
  general_buffer_size = λ m. 0;
  flush_write = λ m. m;
}

abbrev one_read : Requestor
one_read =
    Requestor.new 1 true 64
      (some (record { address = 4096; request_type = data_read; comp_delay = 1 }) ∷ [])

first_update : (m : Unit {0}) × (r : Requestor) × (update any_memory tt one_read ≡ ok (m, r))
unfolding update Requestor.new Requestor.reading_trace_file Requestor.due_at Requestor.send_request
first_update = (_, _, refl)

new-IsBounded : IsBounded one_read
unfolding Requestor.new
new-IsBounded = (omega arith, λ o. omega arith)

update-IsBounded_example : IsBounded first_update.1
update-IsBounded_example =
    update-IsBounded any_memory tt first_update.0 one_read first_update.1 new-IsBounded
      first_update.2

return_data-Answered_example :
    Answered (record one_read { core_pending_data = read_of 1 64 2 7 5 ∷ [] }) 64
return_data-Answered_example =
    return_data-Answered (record one_read { core_pending_data = read_of 1 64 2 7 5 ∷ [] }) 64

-- Two channels that are alike.
abbrev parts : Parts (Unit {0}) (Unit {0})
parts = record {
  device = three_apart;
  update_device = λ d. ok (d, none);
  policies = always_write;
  constraints = write_times;
  address_mapping = to_bank_one;
}

abbrev bank_channel : Channel (Unit {0}) (Unit {0})
bank_channel = record one_channel { controller = two_banks }

abbrev two_channels : MultiChannel (Unit {0}) (Unit {0})
two_channels = record {
  channels = bank_channel ∷ bank_channel ∷ [];
  number_channels = 2;
  clock_domain_crosser = ClockDomain.new 1 1 true;
  clock_cycle = 0;
}

add-Accepted_example :
    Routed parts two_channels bank_channel
      (3 % 2)
      (at_bank_one (incoming bank_channel.controller.clock_cycle 3 4096 true 64))
      (add_request to_bank_one bank_channel.controller 3 4096 true 64)
      (add parts two_channels 3 4096 true 64)
unfolding first_marked queue_number
add-Accepted_example =
    add-Accepted parts two_channels bank_channel 3 4096 true 64
      (at_bank_one (incoming bank_channel.controller.clock_cycle 3 4096 true 64)) (omega arith) refl
      refl (omega arith, (omega arith, omega arith)) (omega arith) refl (inl refl, (inl refl, tt))

abbrev own_buffers : CommandScheduler (Unit {0})
own_buffers = record one_queue { command_queue = CommandQueue.new true ∷ [] }

each_requestor :
    (i : ℕ) (q : CommandQueue)
    → get_elem? own_buffers.command_queue i ≡ some q
    → q.per_requestor_enable ≡ true
unfolding CommandQueue.new
each_requestor zero q e =
    ap (λ (x : CommandQueue). x.per_requestor_enable) (sym (some-injective _ _ e))
each_requestor (suc i) q e = cc

fcfs_schedule-Scheduled_example : Scheduled three_apart (some (command_of wr 4)) own_buffers
fcfs_schedule-Scheduled_example =
    fcfs_schedule-Scheduled three_apart (some (command_of wr 4)) own_buffers each_requestor
