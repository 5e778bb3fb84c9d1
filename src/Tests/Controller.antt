-- ===== src/Tests/Controller.antt =====
-- The command scheduler's timers, the refresh rounds and the memory controller.
use mcsim.Common.{
  inl, Outcome, ℕ, ◌<◌, ◌≡◌, refl, true, false, List, [], ◌∷◌, length, ok, arith, empty_map, map,
}
use mcsim.Packet.{act, rd, data_packet, BusPacket, Request}
use mcsim.CommandQueue.{CommandQueue}
use mcsim.CommandQueue
use mcsim.CommandScheduler.{CommandScheduler, Device}
use mcsim.CommandScheduler
use mcsim.CommandScheduler.Spacing.{
  Action, ticks, arrives, sends, Play, run, IsSpaced, run-IsSpaced,
}
use mcsim.RefreshMachine.{RefreshMachine, no_refresh, per_bank}
use mcsim.RefreshMachine
use mcsim.RefreshMachine.Rounds.{Round, command_generate-Round}
use mcsim.MemoryController.State.{MemoryController}
use mcsim.MemoryController.Decode.{decode_queue, queue_number, decode_queue-lt-queue_number}
use mcsim.MemoryController.Decode
use mcsim.MemoryController.Returns.{
  receive_times, finished, of_key, of_others, receive_times-completes,
}
use mcsim.MemoryController.Commands.{Enqueued, enqueue_buffer-Enqueued}
use mcsim.MemoryController.Requests.{Accepted, add_request-Accepted}
use mcsim.MemoryController.Enqueue.{add_request, incoming}
use mcsim.Tests.Sample.{command_of, shared_queue, two_reads}

-- Three cycles between any two commands; always ready.
abbrev pub three_apart : Device (Unit {0})
three_apart = record {
  command_timing = λ c type. 3;
  command_check = λ d c. true;
  receive_from_bus = λ d c. d;
}

abbrev pub idle : RefreshMachine
idle = RefreshMachine.new 1 8 6240 100 160 11 no_refresh 0 0

abbrev pub one_queue : CommandScheduler (Unit {0})
one_queue = record {
  command_queue = CommandQueue.new false ∷ [];
  cmd_queue_timer = λ i. empty_map;
  req_cmd_queue_timer = λ i id. empty_map;
  refresh_machine = idle;
  memory_device = tt;
  clock = 0;
}

abbrev at_start : Play three_apart
at_start = record { scheduler = one_queue; now = 0; log = [] }

-- The read does not go out before the third tick.
abbrev actions : List Action
actions =
    arrives 0 (command_of act 4) true
    ∷ arrives 0 (command_of rd 4) true
    ∷ sends (command_of act 4) 0 false
    ∷ ticks
    ∷ sends (command_of rd 4) 0 false
    ∷ ticks
    ∷ ticks
    ∷ sends (command_of rd 4) 0 false
    ∷ []

played : (p : Play three_apart) × (run three_apart at_start actions ≡ ok p)
unfolding run CommandScheduler.is_ready CommandQueue.insert_command CommandQueue.new
    CommandScheduler.send_command CommandQueue.remove_command CommandScheduler.raise_timers
    CommandScheduler.tick RefreshMachine.step RefreshMachine.new
played = (_, refl)

run-IsSpaced_example : IsSpaced three_apart played.0.log
run-IsSpaced_example = run-IsSpaced three_apart one_queue actions played.0 played.1

two_sent : length played.0.log ≡ 2
unfolding run CommandScheduler.is_ready CommandQueue.insert_command CommandQueue.new
    CommandScheduler.send_command CommandQueue.remove_command CommandScheduler.raise_timers
    CommandScheduler.tick RefreshMachine.step RefreshMachine.new played
two_sent = refl

by_bank : RefreshMachine
by_bank = RefreshMachine.new 1 8 6240 100 160 11 per_bank 0 0

by_bank_mechanism : by_bank.refresh_mechanism ≡ per_bank
unfolding by_bank RefreshMachine.new
by_bank_mechanism = refl

command_generate-Round_example :
    Round by_bank (CommandQueue.insert_command (CommandQueue.new false) (command_of rd 4) true ∷ [])
command_generate-Round_example =
    command_generate-Round by_bank
      (CommandQueue.insert_command (CommandQueue.new false) (command_of rd 4) true ∷ [])
      by_bank_mechanism

-- One rank of eight banks, each with a queue of its own; two reads of 16 bytes wait.
abbrev pub controller : MemoryController
controller = record {
  clock_cycle = 12;
  mem_table = 1 ∷ 1 ∷ 8 ∷ 1 ∷ [];
  data_bus_width = 8;
  requestor_critical_table = empty_map;
  req_map = 0 ∷ 0 ∷ 1 ∷ 0 ∷ [];
  cmd_map = 0 ∷ 0 ∷ 1 ∷ 0 ∷ [];
  write_queue_enable = false;
  request_queue = [];
  pending_read_request = two_reads;
  pending_write_request = [];
  send_data_counter = [];
  send_data_buffer = [];
  stats = record {
    total_request = 0;
    open_read = 0;
    close_read = 0;
    open_write = 0;
    close_write = 0;
    read_bytes = 0;
    write_bytes = 0;
    open_counter = 0;
    close_counter = 0;
    open_read_latency = 0;
    open_write_latency = 0;
    close_read_latency = 0;
    close_write_latency = 0;
    close_request = false;
  };
}

abbrev three_queues : List CommandQueue
three_queues = CommandQueue.new true ∷ CommandQueue.new true ∷ CommandQueue.new true ∷ []

routed : decode_queue (1 ∷ 1 ∷ 8 ∷ 1 ∷ []) (0 ∷ 0 ∷ 2 ∷ 0 ∷ []) (0 ∷ 0 ∷ 1 ∷ 0 ∷ []) ≡ ok 2
unfolding decode_queue
routed = refl

enqueue_buffer-Enqueued_example :
    Enqueued controller controller three_queues
      (command_of act 4 ∷ command_of rd 4 ∷ [])
      2
      (CommandQueue.new true)
enqueue_buffer-Enqueued_example =
    enqueue_buffer-Enqueued controller three_queues (command_of act 4 ∷ command_of rd 4 ∷ [])
      ((2, routed, omega arith), ((2, routed, omega arith), tt)) 2 (CommandQueue.new true) refl

abbrev data_back : BusPacket
data_back = record (command_of data_packet 0) { address = 64 }

receive_times-completes_example :
    let after = receive_times controller data_back 2 in
    (after.1 ≡ map (finished 8) (of_key data_back two_reads))
    × (after.0.pending_read_request ≡ of_others data_back two_reads)
receive_times-completes_example =
    receive_times-completes controller data_back (1 ∷ []) (omega arith) (refl, omega arith, tt)

decode_queue-lt-queue_number_example :
    (k : ℕ) × (n : ℕ) × (decode_queue (2 ∷ 2 ∷ 4 ∷ 1 ∷ []) (1 ∷ 0 ∷ 3 ∷ 0 ∷ []) (0 ∷ 0 ∷ 1 ∷ 0 ∷ [])
      ≡ ok k)
    × (queue_number (2 ∷ 2 ∷ 4 ∷ 1 ∷ []) (0 ∷ 0 ∷ 1 ∷ 0 ∷ []) ≡ ok n)
    × (k < n)
unfolding Decode.first_marked
decode_queue-lt-queue_number_example =
    decode_queue-lt-queue_number (2 ∷ 2 ∷ 4 ∷ 1 ∷ []) (1 ∷ 0 ∷ 3 ∷ 0 ∷ []) (0 ∷ 0 ∷ 1 ∷ 0 ∷ [])
      (omega arith, (omega arith, omega arith)) (omega arith)

-- A mapping that sends every request to row 7 of bank 1.
abbrev pub at_bank_one : Request → Request
at_bank_one r = record r {
  bank = 1;
  row = 7;
  address_map = record { rank = 0; bank_group = 0; bank = 1; sub_array = 0 };
}

abbrev pub to_bank_one : Request → Outcome Request
to_bank_one r = ok (at_bank_one r)

abbrev pub two_banks : MemoryController
two_banks = record controller {
  mem_table = 1 ∷ 1 ∷ 2 ∷ 1 ∷ [];
  request_queue = shared_queue ∷ shared_queue ∷ [];
}

add_request-Accepted_example :
    Accepted two_banks
      (at_bank_one (incoming 12 3 4096 true 64))
      (add_request to_bank_one two_banks 3 4096 true 64)
unfolding Decode.first_marked queue_number
add_request-Accepted_example =
    add_request-Accepted to_bank_one two_banks 3 4096 true 64
      (at_bank_one (incoming 12 3 4096 true 64)) refl (omega arith, (omega arith, omega arith))
      (omega arith) refl (inl refl, (inl refl, tt))
