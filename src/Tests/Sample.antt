-- ===== src/Tests/Sample.antt =====
-- Requests, commands and queues that the tests share.
use mcsim.Common.{ℕ, false, List, [], ◌∷◌, none}
use mcsim.Packet.{BusPacketType, BusPacket, new_packet, Request, data_read}
use mcsim.RequestQueue.{RequestQueue}

-- A read of two bursts of 8 bytes.
abbrev pub read_of : (id address bank row time : ℕ) → Request
read_of id address bank row time = record {
  request_type = data_read;
  requestor_id = id;
  request_size = 16;
  address = address;
  arrive_time = time;
  rank = 0;
  bank_group = 0;
  bank = bank;
  sub_array = 0;
  row = row;
  col = 0;
  address_map = record { rank = 0; bank_group = 0; bank = bank; sub_array = 0 };
}

abbrev pub two_reads : List Request
two_reads = read_of 0 64 2 7 5 ∷ read_of 1 128 2 9 3 ∷ []

abbrev pub shared_queue : RequestQueue
shared_queue = record {
  flag = false;
  write_mode = false;
  write_queue = none;
  write_queue_enable = false;
  per_requestor_enable = false;
  general_buffer = two_reads;
  requestor_buffer = λ _. none;
  requestor_order = [];
  scheduled_requestor = false;
  scheduled_id = 0;
  scheduled_index = 0;
}

-- A command of requestor `id` for bank 2.
abbrev pub command_of : BusPacketType → ℕ → BusPacket
command_of type id = new_packet type id 64 0 7 2 0 0 0
