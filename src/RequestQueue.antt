-- ===== src/RequestQueue.antt =====
-- src/RequestQueue.h and src/RequestQueue.cpp: the requests that wait for a memory level, in one
-- general buffer or a buffer for each requestor, and the separate queue of writes. A pointer
-- that may be NULL is an `Option`.
pub mod Arrival
pub mod Arrivals
pub mod Removal
pub mod WriteDrain
pub mod Earliest
pub mod Writes
pub mod Turns
use mcsim.Common.{
  ℕ, ◌<◌, Bool, true, false, not, ◌&&◌, Option, none, some, List, [], ◌∷◌, ◌++◌, Map, insert,
  find_or, is_key, empty_map, length, get_elem?, erase_at, ltb, if◌then◌else◌, Outcome, ok,
  undefined_behaviour, ◌>>=◌, ◌>>◌, defined, defined_if, ◌==◌,
}
use mcsim.Packet.{Request, RequestType, data_read, data_write}

pub record WriteQueue : Type 0 where
  pub lowwatermark : ℕ
  pub highwatermark : ℕ
  pub writes : List Request

pub record RequestQueue : Type 0 where
  pub flag : Bool
  pub write_mode : Bool
  pub write_queue : Option WriteQueue
  pub write_queue_enable : Bool
  pub per_requestor_enable : Bool
  pub general_buffer : List Request
  pub requestor_buffer : Map (List Request)
  pub requestor_order : List ℕ
  -- `scheduledRequest`, its three parts.
  pub scheduled_requestor : Bool
  pub scheduled_id : ℕ
  pub scheduled_index : ℕ

-- The watermarks 4 and 10 are the constructor's.
unfoldable pub new : Bool → Bool → RequestQueue
new per_requestor write_queue_enable = record {
  flag = false;
  write_mode = false;
  write_queue =
      if write_queue_enable
      then some (record { lowwatermark = 4; highwatermark = 10; writes = [] })
      else none;
  write_queue_enable = write_queue_enable;
  per_requestor_enable = per_requestor;
  general_buffer = [];
  requestor_buffer = empty_map;
  requestor_order = [];
  scheduled_requestor = false;
  scheduled_id = 0;
  scheduled_index = 0;
}

abbrev pub is_write : RequestType → Bool
is_write data_read = false
is_write data_write = true

abbrev pub buffer_of : RequestQueue → ℕ → List Request
buffer_of q id = find_or q.requestor_buffer id []

unfoldable pub insert_write : WriteQueue → Request → WriteQueue
insert_write w r = record w { writes = w.writes ++ r ∷ [] }

unfoldable pub high_watermark : WriteQueue → Bool
high_watermark w = ltb w.highwatermark (length w.writes)

unfoldable pub low_watermark : WriteQueue → Bool
low_watermark w = ltb (length w.writes) w.lowwatermark

unfoldable pub get_write : WriteQueue → ℕ → Outcome Request
get_write w index = defined (get_elem? w.writes index)

-- `removeWrite`; `popWrite` is this and `getWrite`.
unfoldable pub remove_write : WriteQueue → ℕ → Outcome WriteQueue
remove_write w index = do
  defined_if (ltb index (length w.writes))
  ok (record w { writes = erase_at w.writes index })

unfoldable pub insert_read : RequestQueue → Request → RequestQueue
insert_read q request =
    if q.per_requestor_enable
    then if is_key q.requestor_buffer id
      then record q {
        requestor_buffer = insert q.requestor_buffer id (buffer_of q id ++ request ∷ []);
      }
      else record q {
        requestor_buffer = insert q.requestor_buffer id (request ∷ []);
        requestor_order = q.requestor_order ++ id ∷ [];
      }
    else record q { general_buffer = q.general_buffer ++ request ∷ [] }
  where
    id : ℕ
    id = request.requestor_id

-- The method always returns true.
unfoldable pub insert_request : RequestQueue → Request → Outcome RequestQueue
unfolding insert_read insert_write
insert_request q request =
    if q.write_queue_enable && is_write request.request_type
    then (do
      w ← defined q.write_queue
      ok (record q { write_queue = some (insert_write w request) }))
    else ok (insert_read q request)

unfoldable pub get_queue_size : RequestQueue → ℕ
get_queue_size q = length q.requestor_order

abbrev pub requestor_size : RequestQueue → List ℕ → ℕ → Outcome ℕ
requestor_size q [] index = ok 0
requestor_size q (k ∷ ks) index = do
  id ← defined (get_elem? (k ∷ ks) index)
  ok (length (buffer_of q id))

unfoldable pub get_size : RequestQueue → Bool → ℕ → Outcome ℕ
get_size q requestor index =
    if requestor then requestor_size q q.requestor_order index else ok (length q.general_buffer)

-- A read at `index`, NULL where the buffer is empty.
abbrev pub read_at : List Request → ℕ → Outcome (Option Request)
read_at [] index = ok none
read_at (r ∷ rs) index = do found ← defined (get_elem? (r ∷ rs) index); ok (some found)

unfoldable pub check_request_index : RequestQueue → ℕ → ℕ → Outcome (Option Request)
check_request_index q req_index index = do
  id ← defined (get_elem? q.requestor_order req_index)
  read_at (buffer_of q id) index

abbrev keep_if_null : RequestQueue → Option Request → RequestQueue → RequestQueue
keep_if_null q none q' = q
keep_if_null q (some r) q' = q'

-- `getRequest(reqIndex, index)`
unfoldable pub get_requestor_request :
    RequestQueue → ℕ → ℕ → Outcome (Option Request × RequestQueue)
get_requestor_request q req_index index = do
  id ← defined (get_elem? q.requestor_order req_index)
  r ← read_at (buffer_of q id) index
  ok (
    r,
    keep_if_null q r
        (record q { scheduled_requestor = true; scheduled_id = id; scheduled_index = index }),
  )

-- `getRequest(index)`
unfoldable pub get_request : RequestQueue → ℕ → Outcome (Option Request × RequestQueue)
get_request q index = do
  r ← read_at q.general_buffer index
  ok (
    r,
    keep_if_null q r
        (record q { scheduled_requestor = false; scheduled_id = 0; scheduled_index = index }),
  )

unfoldable pub get_request_check : RequestQueue → ℕ → Outcome (Option Request)
get_request_check q index = read_at q.general_buffer index

-- An erase is defined for an index in range.
abbrev pub erase_checked : List Request → ℕ → Outcome (List Request)
erase_checked rs index = do defined_if (ltb index (length rs)); ok (erase_at rs index)

unfoldable pub remove_request : RequestQueue → Outcome RequestQueue
remove_request q =
    if q.scheduled_requestor
    then (do
      rest ← erase_checked (buffer_of q q.scheduled_id) q.scheduled_index
      ok (record q { requestor_buffer = insert q.requestor_buffer q.scheduled_id rest }))
    else (do
      rest ← erase_checked q.general_buffer q.scheduled_index
      ok (record q { general_buffer = rest }))

-- `switchMode`: the result, and the queue with its `flag`.
unfoldable pub switch_mode : RequestQueue → Outcome (Bool × RequestQueue)
unfolding high_watermark
switch_mode q = do
  w ← defined q.write_queue
  ok (
      if q.flag
      then if length w.writes == 0 then (true, record q { flag = false }) else (false, q)
      else if high_watermark w
      then (false, record q { flag = true })
      else (true, q))

abbrev pub matches : ℕ → ℕ → Request → Bool
matches p b r = r.bank == b && r.requestor_id == p

-- The first loop of `earliestperBankperReq`, with its `break`.
first_match : ℕ → ℕ → List Request → Option Request
first_match p b [] = none
first_match p b (r ∷ rs) = let rest = first_match p b rs in if matches p b r then some r else rest

-- What the second loop does with one request; it dereferences `temp` on a match.
improve : ℕ → ℕ → Request → Option Request → Outcome (Option Request)
improve p b r temp =
    if matches p b r
    then (do t ← defined temp; ok (some (if ltb r.arrive_time t.arrive_time then r else t)))
    else ok temp

scan : ℕ → ℕ → List Request → Option Request → Outcome (Option Request)
unfolding improve
scan p b [] temp = ok temp
scan p b (r ∷ rs) temp = do temp' ← improve p b r temp; scan p b rs temp'

-- An empty buffer returns NULL, which is what the loops give there.
unfoldable pub earliest_per_bank_per_req : RequestQueue → ℕ → ℕ → Outcome (Option Request)
unfolding first_match scan
earliest_per_bank_per_req q p b = scan p b q.general_buffer (first_match p b q.general_buffer)
