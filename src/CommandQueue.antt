-- ===== src/CommandQueue.antt =====
-- src/CommandQueue.h and src/CommandQueue.cpp: a queue of commands of one memory level, either
-- one buffer for each requestor or two general buffers by criticality. The heads of the lists
-- are the fronts of the vectors.
pub mod WellFormed
pub mod Lanes
pub mod Fifo
pub mod Service
use mcsim.Common.{
  or_abort, ℕ, Bool, true, false, Option, none, some, List, [], ◌∷◌, ◌++◌, Map, insert, find_or,
  is_key, empty_map, length, get_elem?, leb, if◌then◌else◌, Outcome, ok, aborted,
  undefined_behaviour, ◌>>=◌, ◌>>◌, defined, require, ◌==◌,
}
use mcsim.Packet.{BusPacket}

pub record CommandQueue : Type 0 where
  pub per_requestor_enable : Bool
  pub scheduled_queue : Bool
  pub requestor_map : List ℕ
  pub requestor_buffer : Map (List BusPacket)
  pub hrt_buffer : List BusPacket
  pub srt_buffer : List BusPacket

unfoldable pub new : Bool → CommandQueue
new per_requestor = record {
  per_requestor_enable = per_requestor;
  scheduled_queue = true;
  requestor_map = [];
  requestor_buffer = empty_map;
  hrt_buffer = [];
  srt_buffer = [];
}

-- `requestorBuffer[id]`, read: a missing entry is an empty vector.
abbrev pub buffer_of : CommandQueue → ℕ → List BusPacket
buffer_of q id = find_or q.requestor_buffer id []

unfoldable pub get_requestor_index : CommandQueue → ℕ
get_requestor_index q = length q.requestor_map

-- The guard lets `index == size()` through to a read past the end.
unfoldable pub get_requestor_size : CommandQueue → ℕ → Outcome ℕ
get_requestor_size q index = do
  require (leb index (length q.requestor_map))
  id ← defined (get_elem? q.requestor_map index)
  ok (length (buffer_of q id))

unfoldable pub get_size : CommandQueue → Bool → ℕ
get_size q critical = if critical then length q.hrt_buffer else length q.srt_buffer

insert_requestor : CommandQueue → BusPacket → CommandQueue
insert_requestor q command =
    if is_key q.requestor_buffer id
    then record q {
      requestor_buffer = insert q.requestor_buffer id (buffer_of q id ++ command ∷ []);
    }
    else record q {
      requestor_buffer = insert q.requestor_buffer id (command ∷ []);
      requestor_map = q.requestor_map ++ id ∷ [];
    }
  where
    id : ℕ
    id = command.requestor_id

-- The method always returns true; only its effect is kept.
unfoldable pub insert_command : CommandQueue → BusPacket → Bool → CommandQueue
unfolding insert_requestor
insert_command q command critical =
    if q.per_requestor_enable
    then insert_requestor q command
    else if critical
    then record q { hrt_buffer = q.hrt_buffer ++ command ∷ [] }
    else record q { srt_buffer = q.srt_buffer ++ command ∷ [] }

abbrev pub general_buffer : CommandQueue → Bool → List BusPacket
general_buffer q critical = if critical then q.hrt_buffer else q.srt_buffer

abbrev pub front : List BusPacket → Option BusPacket
front [] = none
front (c ∷ cs) = some c

-- The command, and the queue with `scheduledQueue` set: also when the call aborts, which ends
-- the program.
unfoldable pub get_command : CommandQueue → Bool → Outcome (BusPacket × CommandQueue)
get_command q critical = do
  c ← or_abort (front (general_buffer q critical))
  ok (c, record q { scheduled_queue = critical })

unfoldable pub check_command : CommandQueue → Bool → ℕ → Outcome BusPacket
check_command q critical index = do
  first ← or_abort (front (general_buffer q critical))
  defined (get_elem? (general_buffer q critical) index)

unfoldable pub get_requestor_command : CommandQueue → ℕ → Outcome BusPacket
get_requestor_command q index = do
  id ← defined (get_elem? q.requestor_map index)
  defined (front (buffer_of q id))

-- `v.erase(v.begin())`
abbrev pub erase_front : List BusPacket → Outcome (List BusPacket)
erase_front [] = undefined_behaviour
erase_front (c ∷ cs) = ok cs

-- `removeCommand(requestorID)`
unfoldable pub remove_requestor_command : CommandQueue → ℕ → Outcome CommandQueue
remove_requestor_command q id = do
  rest ← erase_front (buffer_of q id)
  ok (record q { requestor_buffer = insert q.requestor_buffer id rest })

-- `removeCommand()`
unfoldable pub remove_command : CommandQueue → Outcome CommandQueue
remove_command q =
    if q.scheduled_queue
    then (do rest ← erase_front q.hrt_buffer; ok (record q { hrt_buffer = rest }))
    else (do rest ← erase_front q.srt_buffer; ok (record q { srt_buffer = rest }))
