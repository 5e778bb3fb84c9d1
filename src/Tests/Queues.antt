-- ===== src/Tests/Queues.antt =====
-- The command queues and the request queues.
use mcsim.Common.{
  inr, ℕ, ◌≡◌, refl, true, false, none, some, List, [], ◌∷◌, ◌++◌, ok, All, arith, insert, ◌⊎◌,
  ◌>>=◌,
}
use mcsim.Packet.{act, rd, Request, data_write}
use mcsim.CommandQueue.{CommandQueue, insert_command, remove_requestor_command}
use mcsim.CommandQueue
use mcsim.CommandQueue.WellFormed.{new-IsWellFormed}
use mcsim.CommandQueue.Fifo.{run_fifo}
use mcsim.CommandQueue.Lanes.{
  requestor, Call, arrive, serve_requestor, Served, run, contents, departures, arrivals,
}
use mcsim.RequestQueue.{RequestQueue, WriteQueue, get_request, matches, earliest_per_bank_per_req}
use mcsim.RequestQueue.Removal.{scheduled}
use mcsim.RequestQueue.Arrival.{IsListed}
use mcsim.RequestQueue.Arrivals.{AllArrived, insert_requests-Arrived}
use mcsim.RequestQueue.WriteDrain.{drain_to_empty, answers}
use mcsim.RequestQueue.Earliest.{Holds, NoEarlier, earliest_per_bank_per_req_lem}
use mcsim.RequestQueue.Writes.{insert_requests, serve_writes, insert_requests-serve_writes}
use mcsim.Tests.Sample.{command_of, shared_queue, read_of}

abbrev empty : CommandQueue
empty = CommandQueue.new true

abbrev calls : List Call
calls = arrive (command_of act 4) false ∷ arrive (command_of rd 4) false ∷ serve_requestor 0 ∷ []

abbrev after_calls : CommandQueue × Served
after_calls = (
  record empty {
    requestor_map = 4 ∷ [];
    requestor_buffer =
        insert
          (insert (insert empty.requestor_buffer 4 (command_of act 4 ∷ [])) 4
            (command_of act 4 ∷ command_of rd 4 ∷ []))
          4 (command_of rd 4 ∷ []);
  },
  (requestor 4, command_of act 4) ∷ [],
)

calls-run : run empty calls ≡ ok after_calls
unfolding run insert_command CommandQueue.new CommandQueue.get_requestor_command
    remove_requestor_command
calls-run = refl

run_fifo_example :
    contents empty (requestor 4) ++ arrivals empty.per_requestor_enable (requestor 4) calls
    ≡ departures (requestor 4) after_calls.1 ++ contents after_calls.0 (requestor 4)
run_fifo_example = run_fifo empty calls after_calls (requestor 4) (new-IsWellFormed true) calls-run

read_general :
    get_request shared_queue 1 ≡ ok (some (read_of 1 128 2 9 3), scheduled shared_queue 1)
unfolding get_request
read_general = refl

-- A write queue with `n` writes, and a high watermark of 1.
abbrev writes_of : List Request → WriteQueue
writes_of writes = record { lowwatermark = 0; highwatermark = 1; writes = writes }

abbrev full : WriteQueue
full = writes_of shared_queue.general_buffer

abbrev half : WriteQueue
half = writes_of (read_of 1 128 2 9 3 ∷ [])

drain_to_empty_example :
    answers shared_queue (full ∷ (half ∷ []) ++ writes_of [] ∷ []) ≡ ok (false ∷ false ∷ true ∷ [])
drain_to_empty_example =
    drain_to_empty shared_queue full (half ∷ []) (writes_of []) (omega arith) (omega arith, tt) refl

earliest_per_bank_per_req_lem_example :
    ((earliest_per_bank_per_req shared_queue 1 2 ≡ ok none)
      × All (λ r. matches 1 2 r ≡ false) shared_queue.general_buffer)
    ⊎ ((r : Request) × (earliest_per_bank_per_req shared_queue 1 2 ≡ ok (some r))
        × (matches 1 2 r ≡ true)
        × Holds r shared_queue.general_buffer
        × NoEarlier 1 2 r.arrive_time shared_queue.general_buffer)
earliest_per_bank_per_req_lem_example = earliest_per_bank_per_req_lem shared_queue 1 2

-- A queue with a list for requestor 1, which keeps writes apart.
abbrev listed_queue : RequestQueue
listed_queue = record shared_queue {
  per_requestor_enable = true;
  write_queue_enable = true;
  write_queue = some (record { lowwatermark = 4; highwatermark = 10; writes = [] });
  general_buffer = [];
  requestor_buffer = insert shared_queue.requestor_buffer 1 (read_of 1 64 2 9 2 ∷ []);
  requestor_order = 1 ∷ [];
}

listed_queue-IsListed : IsListed listed_queue
listed_queue-IsListed id key = (0, ground arith)

insert_requests-Arrived_example : AllArrived listed_queue (
    read_of 4 192 2 9 3
    ∷ record (read_of 1 256 2 7 4) { request_type = data_write }
    ∷ read_of 1 128 2 9 5
    ∷ [])
insert_requests-Arrived_example =
    insert_requests-Arrived listed_queue
      (read_of 4 192 2 9 3
        ∷ record (read_of 1 256 2 7 4) { request_type = data_write }
        ∷ read_of 1 128 2 9 5
        ∷ [])
      (inr (_, refl)) listed_queue-IsListed

abbrev write_of : ℕ → Request
write_of address = record (read_of 0 address 2 7 5) { request_type = data_write }

abbrev one_write : WriteQueue
one_write = record { lowwatermark = 4; highwatermark = 10; writes = write_of 64 ∷ [] }

abbrev write_kept : RequestQueue
write_kept = record shared_queue { write_queue_enable = true; write_queue = some one_write }

insert_requests-serve_writes_example :
    (insert_requests write_kept (write_of 128 ∷ []) >>= λ q'.
    serve_writes q' (write_of 64 ∷ write_of 128 ∷ []))
    ≡ ok (
      write_of 64 ∷ write_of 128 ∷ [],
      record write_kept { write_queue = some (record one_write { writes = [] }) },
    )
insert_requests-serve_writes_example =
    insert_requests-serve_writes write_kept one_write (write_of 128 ∷ []) refl refl (refl, tt)
