-- ===== src/MemoryController/Enqueue.antt =====
-- What src/MemoryController.cpp puts into its queues: `addRequest`, `enqueueCommand`, and the loop of
-- `update` that calls it. The address mapping is a parameter.
use mcsim.Common.{
  ℕ, ◌+◌, Bool, true, false, List, [], ◌∷◌, ◌++◌, insert, find_or, get_elem?, set, u32, u64, ltb,
  if◌then◌else◌, Outcome, ok, ◌>>=◌, defined, ◌==◌,
}
use mcsim.Packet.{
  BusPacketType, rd, rda, act_r, act_w, act, BusPacket, Request, RequestType, data_read, data_write,
  AddressMap, type_index,
}
use mcsim.RequestQueue.{insert_request}
use mcsim.CommandQueue.{CommandQueue, insert_command}
use mcsim.MemoryController.State.{MemoryController, Statistics}
use mcsim.MemoryController.Decode.{decode_queue}

abbrev pub levels : AddressMap → List ℕ
levels a = a.rank ∷ a.bank_group ∷ a.bank ∷ a.sub_array ∷ []

abbrev pub add_pending : MemoryController → RequestType → Request → MemoryController
add_pending m data_read r = record m { pending_read_request = m.pending_read_request ++ r ∷ [] }
add_pending m data_write r = record m { pending_write_request = m.pending_write_request ++ r ∷ [] }

unfoldable pub count_request : MemoryController → ℕ → MemoryController
count_request m id =
    if id == 0
    then record m { stats = record (m.stats) { total_request = u64 (m.stats.total_request + 1) } }
    else m

-- `new Request(...)` with its arrival time; the address fields are written by the mapping.
abbrev pub incoming : ℕ → ℕ → ℕ → Bool → ℕ → Request
incoming clock requestor_id address r_w size = record {
  request_type = if r_w then data_read else data_write;
  requestor_id = requestor_id;
  request_size = size;
  address = address;
  arrive_time = u32 clock;
  rank = 0;
  bank_group = 0;
  bank = 0;
  sub_array = 0;
  row = 0;
  col = 0;
  address_map = record { rank = 0; bank_group = 0; bank = 0; sub_array = 0 };
}

-- `addRequest`, which always returns true.
unfoldable pub add_request :
    (Request → Outcome Request)
    → MemoryController
    → (requestor_id address : ℕ) → Bool
    → (size : ℕ) → Outcome MemoryController
unfolding count_request
add_request address_mapping m requestor_id address r_w size = do
  request ← address_mapping (incoming m.clock_cycle requestor_id address r_w size)
  let counted = count_request m request.requestor_id
  index ← decode_queue m.mem_table (levels request.address_map) m.req_map
  q ← defined (get_elem? m.request_queue index)
  q' ← insert_request q request
  ok (
      add_pending (record counted { request_queue = set m.request_queue index q' })
        request.request_type request)

-- The statistics that a command of requestor 0 changes: its CAS commands count as open or closed
-- accesses, by whether an activation came since the last completed request.
cas_counted : Statistics → BusPacketType → Statistics
cas_counted st type =
    if st.close_request
    then (if is_read type
        then record st { close_counter = 0; close_read = u64 (st.close_read + 1) }
        else record st { close_counter = 0; close_write = u64 (st.close_write + 1) })
    else (if is_read type
        then record st { open_counter = 0; open_read = u64 (st.open_read + 1) }
        else record st { open_counter = 0; open_write = u64 (st.open_write + 1) })
  where
    is_read : BusPacketType → Bool
    is_read rd = true
    is_read rda = true
    is_read _ = false

type_counted : Statistics → BusPacketType → Statistics
unfolding cas_counted
type_counted st act_r = record st { close_request = true }
type_counted st act_w = record st { close_request = true }
type_counted st act = record st { close_request = true }
type_counted st type = if ltb (type_index type) 4 then cas_counted st type else st

-- The levels of a command: its rank and its bank group are not used.
abbrev pub command_levels : BusPacket → List ℕ
command_levels c = 0 ∷ 0 ∷ c.bank ∷ c.sub_array ∷ []

-- The controller after a command: what it counts, and the requestor's criticality, which looking it
-- up enters as not critical for an unknown requestor.
unfoldable pub counted : MemoryController → BusPacket → MemoryController
unfolding type_counted
counted m command = record m {
  stats =
      if command.requestor_id == 0 then type_counted m.stats command.bus_packet_type else m.stats;
  requestor_critical_table =
      insert m.requestor_critical_table command.requestor_id
        (find_or m.requestor_critical_table command.requestor_id false);
}

-- `enqueueCommand`: the controller and the command queues.
unfoldable pub enqueue_command :
    MemoryController
    → List CommandQueue
    → BusPacket
    → Outcome (MemoryController × List CommandQueue)
enqueue_command m queues command = do
  let critical = find_or m.requestor_critical_table command.requestor_id false
  index ← decode_queue m.mem_table (command_levels command) m.cmd_map
  q ← defined (get_elem? queues index)
  ok (
    counted m command,
    set queues index
        (insert_command q (record command { arrive_time = u32 m.clock_cycle }) critical),
  )

-- The loop of `update` that empties the generator's buffer.
unfoldable pub enqueue_buffer :
    MemoryController
    → List CommandQueue
    → List BusPacket
    → Outcome (MemoryController × List CommandQueue)
enqueue_buffer m queues [] = ok (m, queues)
enqueue_buffer m queues (c ∷ cs) = do
  one ← enqueue_command m queues c
  enqueue_buffer one.0 one.1 cs
