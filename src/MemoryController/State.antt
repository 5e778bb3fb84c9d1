-- ===== src/MemoryController/State.antt =====
-- The state of src/MemoryController.cpp and the handlers of its data path: `receiveData`, which the
-- device calls with read data, and `sendData`, which `update` calls with write data. A `Request` is
-- an object that the request queue and the pending list point to; the field that changes after its
-- arrival, `requestSize`, is written here, in the pending list, and read by the command generator
-- before the request's first data can return, so each list has a copy.
use mcsim.Common.{
  ℕ, ◌+◌, Bool, false, ◌&&◌, Option, none, some, List, [], ◌∷◌, Map, ltb, u64, sub_u32,
  if◌then◌else◌, ◌==◌,
}
use mcsim.Packet.{BusPacket, Request}
use mcsim.RequestQueue.{RequestQueue}

-- `Statistics`, without the counters `open` and `close`, which nothing changes.
pub record Statistics : Type 0 where
  pub total_request : ℕ
  pub open_read : ℕ
  pub close_read : ℕ
  pub open_write : ℕ
  pub close_write : ℕ
  pub read_bytes : ℕ
  pub write_bytes : ℕ
  pub open_counter : ℕ
  pub close_counter : ℕ
  pub open_read_latency : ℕ
  pub open_write_latency : ℕ
  pub close_read_latency : ℕ
  pub close_write_latency : ℕ
  pub close_request : Bool

pub record MemoryController : Type 0 where
  pub clock_cycle : ℕ
  pub mem_table : List ℕ
  pub data_bus_width : ℕ
  pub requestor_critical_table : Map Bool
  pub req_map : List ℕ
  pub cmd_map : List ℕ
  pub write_queue_enable : Bool
  pub request_queue : List RequestQueue
  pub pending_read_request : List Request
  pub pending_write_request : List Request
  pub send_data_counter : List ℕ
  pub send_data_buffer : List BusPacket
  pub stats : Statistics

-- The test of the loops of `receiveData` and `sendData`.
abbrev pub is_for : BusPacket → Request → Bool
is_for p r = p.requestor_id == r.requestor_id && p.address == r.address

-- The loop over a pending list: the first request that the data is for is served and the loop
-- breaks. The request that is called back, if any, comes with the list.
unfoldable pub settle : ℕ → BusPacket → List Request → List Request × Option Request
settle width p [] = ([], none)
settle width p (r ∷ rs) =
    let (rs', done) = settle width p rs in
    if is_for p r
    then if r.request_size == width
      then (rs, some r)
      else (record r { request_size = sub_u32 r.request_size width } ∷ rs, none)
    else (r ∷ rs', done)

-- The latency that a completed read of requestor 0 records.
read_latency : Statistics → Statistics
read_latency st =
    if st.close_request
    then record st {
      close_read_latency =
          if ltb st.close_read_latency st.close_counter
          then st.close_counter
          else st.close_read_latency;
      close_request = false;
    }
    else record st {
      open_read_latency =
          if ltb st.open_read_latency st.open_counter
          then st.open_counter
          else st.open_read_latency;
    }

write_latency : Statistics → Statistics
write_latency st =
    if st.close_request
    then record st {
      close_write_latency =
          if ltb st.close_write_latency st.close_counter
          then st.close_counter
          else st.close_write_latency;
      close_request = false;
    }
    else record st {
      open_write_latency =
          if ltb st.open_write_latency st.open_counter
          then st.open_counter
          else st.open_write_latency;
    }

-- Requestor 0 is the one that the statistics are about.
completed : (Statistics → Statistics) → BusPacket → Option Request → Statistics → Statistics
completed latency p none st = st
completed latency p (some r) st =
    if p.requestor_id == 0 then record (latency st) { close_counter = 0; open_counter = 0 } else st

-- The controller, and the request that `callback` is called with.
unfoldable pub receive_data : MemoryController → BusPacket → MemoryController × Option Request
unfolding completed read_latency
receive_data m p =
    let counted = record (m.stats) { read_bytes = u64 (m.stats.read_bytes + m.data_bus_width) } in
    let (pending, done) = settle m.data_bus_width p m.pending_read_request in
    (
      record m { pending_read_request = pending; stats = completed read_latency p done counted },
      done,
    )

-- The device receives the data first, which is the caller's.
unfoldable pub send_data : MemoryController → BusPacket → MemoryController × Option Request
unfolding completed write_latency
send_data m p =
    let counted = record (m.stats) { write_bytes = u64 (m.stats.write_bytes + m.data_bus_width) } in
    let (pending, done) = settle m.data_bus_width p m.pending_write_request in
    (
      record m { pending_write_request = pending; stats = completed write_latency p done counted },
      done,
    )
