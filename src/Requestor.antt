-- ===== src/Requestor.antt =====
-- src/Requestor.h and src/Requestor.cpp: a processor that replays a trace. The memory system that it
-- calls is a parameter. A line of the trace stands for what its text says, with the computation time
-- already divided by the memory's clock, which is done in floating point; a line that
-- is empty is `none`. The cache, which never hits, and the output are left out.
pub mod Outstanding
use mcsim.Common.{
  ℕ, zero, suc, ◌+◌, Bool, true, false, not, ◌&&◌, Option, none, some, List, [], ◌∷◌, ◌++◌, length,
  leb, ltb, u32, u64, sub_u32, if◌then◌else◌, ◌==◌, Outcome, ok, aborted, ◌>>=◌,
}
use mcsim.Packet.{Request, RequestType, data_read, data_write}

pub record TraceLine : Type 0 where
  pub address : ℕ
  pub request_type : RequestType
  pub comp_delay : ℕ

-- The calls to the memory system.
pub record Memory (M : Type 0) : Type 0 where
  pub add_request : M → (requestor_id address : ℕ) → Bool → (size : ℕ) → Outcome (M × Bool)
  pub is_write_mode : M → Bool
  pub general_buffer_size : M → ℕ
  pub flush_write : M → M

pub record Requestor : Type 0 where
  pub requestor_id : ℕ
  pub in_order : Bool
  pub request_size : ℕ
  -- The lines not read yet.
  pub trans_file : List (Option TraceLine)
  pub sim_done : Bool
  pub bypass_read : Bool
  pub current_clock_cycle : ℕ
  pub prev_arrive : ℕ
  pub prev_complete : ℕ
  pub wc_latency : ℕ
  pub comp_time : ℕ
  pub lines_read : ℕ
  pub complete_request : ℕ
  pub request_request : ℕ
  pub latency : ℕ
  pub waiting_request : Bool
  pub pending_request : Option Request
  pub core_pending_data : List Request

abbrev pub request_buffer_size : ℕ
request_buffer_size = 32

unfoldable pub new : (id : ℕ) → Bool → (request_size : ℕ) → List (Option TraceLine) → Requestor
new id in_order request_size trace = record {
  requestor_id = id;
  in_order = in_order;
  request_size = request_size;
  trans_file = trace;
  sim_done = false;
  bypass_read = false;
  current_clock_cycle = 1;
  prev_arrive = 1;
  prev_complete = 0;
  wc_latency = 0;
  comp_time = 0;
  lines_read = 0;
  complete_request = 0;
  request_request = 0;
  latency = 0;
  waiting_request = false;
  pending_request = none;
  core_pending_data = [];
}

abbrev is_read_type : RequestType → Bool
is_read_type data_read = true
is_read_type data_write = false

-- The request is in the list from the call on, with its time.
sent : Requestor → Request → Requestor
sent r request = record r {
  request_request = u64 (r.request_request + 1);
  latency = 0;
  waiting_request = true;
  core_pending_data =
      r.core_pending_data ++ (record request { arrive_time = r.current_clock_cycle }) ∷ [];
}

unfoldable pub send_request :
    {M : Type 0} → Memory M → M → Requestor → Request → Outcome (M × Requestor)
unfolding sent
send_request mem m r request = do
  added ←
      mem.add_request m request.requestor_id request.address (is_read_type request.request_type)
        request.request_size
  ok (added.0, if added.1 then sent r request else r)

-- The loop of `returnData`: the first entry of the address, and the list without it.
unfoldable pub take_returned : ℕ → List Request → Option (Request × List Request)
take_returned address [] = none
take_returned address (d ∷ ds) =
    let rest = take_returned address ds in if address == d.address then some (d, ds) else keep rest
  where
    keep : Option (Request × List Request) → Option (Request × List Request)
    keep none = none
    keep (some (e, es)) = some (e, d ∷ es)

returned : Requestor → Request → List Request → Requestor
returned r d ds =
    let age = sub_u32 r.current_clock_cycle d.arrive_time in
    record r {
      wc_latency = if ltb r.wc_latency age then age else r.wc_latency;
      prev_complete = r.current_clock_cycle;
      complete_request = u64 (r.complete_request + 1);
      latency = 0;
      waiting_request = false;
      core_pending_data = ds;
    }

-- `returnData`, called with the address of the request that comes back.
unfoldable pub return_data : Requestor → ℕ → Outcome Requestor
unfolding returned
return_data r address =
    if length r.core_pending_data == 0
    then ok r
    else found (take_returned address r.core_pending_data)
  where
    found : Option (Request × List Request) → Outcome Requestor
    found none = if r.latency == 0 then ok r else aborted
    found (some (d, ds)) = ok (returned r d ds)

-- The end of `parseTraceFileLine`: when the request is due, and the clocks.
unfoldable pub due_at : Requestor → ℕ → ℕ × Requestor
due_at r delay =
    if r.in_order
    then (u64 (delay + r.prev_complete), record r { comp_time = u64 (r.comp_time + delay) })
    else (if delay == 0 && not (r.current_clock_cycle == 1)
        then (u32 (r.prev_arrive + 1), record r { prev_arrive = u32 (r.prev_arrive + 1) })
        else (
          u64 (delay + r.prev_arrive),
          record r { prev_arrive = u32 (u64 (delay + r.prev_arrive)) },
        ))

-- `new Request(...)`, with its arrival time.
abbrev pub request_of : Requestor → TraceLine → ℕ → Request
request_of r line time = record {
  request_type = line.request_type;
  requestor_id = r.requestor_id;
  request_size = r.request_size;
  address = line.address;
  arrive_time = u32 time;
  rank = 0;
  bank_group = 0;
  bank = 0;
  sub_array = 0;
  row = 0;
  col = 0;
  address_map = record { rank = 0; bank_group = 0; bank = 0; sub_array = 0 };
}

read_line : Requestor → Option TraceLine → Requestor
read_line r none = record r { bypass_read = true }
read_line r (some line) =
    let (time, r') = due_at r line.comp_delay in
    record r' { lines_read = r'.lines_read + 1; pending_request = some (request_of r line time) }

next_line : Requestor → Option Request → List (Option TraceLine) → Bool × Requestor
unfolding read_line
next_line r (some p) ls = (false, r)
next_line r none [] = (true, r)
next_line r none (l ∷ ls) = (false, read_line (record r { trans_file = ls }) l)

-- `readingTraceFile`
unfoldable pub reading_trace_file : Requestor → Bool × Requestor
unfolding next_line
reading_trace_file r =
    if r.in_order && not (length r.core_pending_data == 0)
    then (false, r)
    else next_line r r.pending_request r.trans_file

module _ {M : Type 0} (mem : Memory M) where
  try_send : M → Requestor → Option Request → Outcome (M × Requestor)
  try_send m r none = ok (if r.bypass_read then mem.flush_write m else m, r)
  try_send m r (some p) =
      if not (mem.is_write_mode m)
        && (leb p.arrive_time r.current_clock_cycle
            && (leb (mem.general_buffer_size m) request_buffer_size
                && leb (length r.core_pending_data) request_buffer_size))
      then (do
        done ← send_request mem m r p
        ok (done.0, record (done.1) { pending_request = none }))
      else ok (m, r)

  -- `update`
  unfoldable pub update : M → Requestor → Outcome (M × Requestor)
  unfolding try_send
  update m r = do
    let (done, read) = reading_trace_file (record r { latency = u64 (r.latency + 1) })
    out ← try_send m (record read { sim_done = done }) read.pending_request
    let r' = out.1
    ok (
      out.0,
      record r' {
        sim_done = if length r'.core_pending_data == 0 then r'.sim_done else false;
        current_clock_cycle = u32 (r'.current_clock_cycle + 1);
      },
    )
