-- ===== src/RequestScheduler.antt =====
-- src/RequestScheduler.h and src/RequestScheduler.cpp: the open-row table that the request
-- schedulers keep, the selection of requests, and the scheduler of
-- system/FRFCFS/RequestScheduler_FRFCFS.h over it. Trace output is left out.
pub mod Selection
pub mod OpenPage
pub mod Rotation
pub mod Slots
pub mod RoundRobin
pub mod Oldest
pub mod Direct
pub mod Blacklist
use mcsim.Common.{
  ℕ, zero, suc, ◌+◌, Bool, true, false, Option, none, some, List, [], ◌∷◌, ◌++◌, Map, insert,
  find_or, is_key, empty_map, length, ltb, if◌then◌else◌, Outcome, ok, undefined_behaviour, aborted,
  ◌>>=◌, ◌>>◌, defined, defined_if, ◌==◌,
}
use mcsim.Packet.{Request, AddressMap}
use mcsim.RequestQueue.{RequestQueue, get_request, get_request_check, remove_request}

-- `bankTable`: rank, then bank, then the row that is open.
abbrev pub BankTable : Type 0
BankTable = Map (Map ℕ)

-- The row that the table has for a bank.
abbrev pub row_of : BankTable → ℕ → Map ℕ
row_of t rank = find_or t rank empty_map

abbrev is_row : Option ℕ → ℕ → Bool
is_row none row = false
is_row (some held) row = held == row

-- The code looks the bank up in the map of `request->rank` and compares with the end of the map
-- of `addressMap[Rank]`: iterators of two maps, where the ranks differ, must not be compared.
unfoldable pub is_row_hit : BankTable → Request → Outcome Bool
is_row_hit t r =
    if is_key t r.address_map.rank
    then (do
      defined_if (r.rank == r.address_map.rank)
      ok (is_row (row_of t r.address_map.rank r.address_map.bank) r.row))
    else ok false

unfoldable pub update_row_table : BankTable → ℕ → ℕ → ℕ → BankTable
update_row_table t rank bank row = insert t rank (insert (row_of t rank) bank row)

-- The loop of `scheduleFR`, from `index` on, with `n` rounds left.
fr_loop : BankTable → RequestQueue → ℕ → ℕ → Outcome (Option Request × RequestQueue)
fr_loop t q index zero = get_request q 0
fr_loop t q index (suc n) =
    let rest = fr_loop t q (index + 1) n in
    (do
      r ← get_request_check q index
      request ← defined r
      hit ← is_row_hit t request
      if hit then get_request q index else rest)

-- `scheduleFR` on one queue: the first request that hits an open row, or else the oldest.
unfoldable pub schedule_fr : BankTable → RequestQueue → Outcome (Option Request × RequestQueue)
unfolding fr_loop
schedule_fr t q = fr_loop t q 0 (length q.general_buffer)

-- The command generator is what `isSchedulable` calls; it reports success always.
module _ {G : Type 0} (generate : G → Request → Bool → Outcome G) where
  -- The open-row table and the generator change beside the queue.
  unfoldable pub serve :
      BankTable → G → Option Request → RequestQueue → Outcome (RequestQueue × BankTable × G)
  serve t g none q = ok (q, t, g)
  serve t g (some r) q = do
    hit ← is_row_hit t r
    g' ← generate g r hit
    q' ← remove_request q
    ok (q', update_row_table t r.address_map.rank r.address_map.bank r.row, g')

  -- One round of the loop of `RequestScheduler_FRFCFS::requestSchedule`.
  unfoldable pub schedule_queue :
      BankTable → G → RequestQueue → Outcome (RequestQueue × BankTable × G)
  unfolding serve
  schedule_queue t g q =
      if ltb 0 (length q.general_buffer)
      then (do picked ← schedule_fr t q; serve t g picked.0 picked.1)
      else ok (q, t, g)

  -- `RequestScheduler_FRFCFS::requestSchedule`
  unfoldable pub frfcfs_schedule :
      BankTable → G → List RequestQueue → Outcome (List RequestQueue × BankTable × G)
  unfolding schedule_queue
  frfcfs_schedule t g [] = ok ([], t, g)
  frfcfs_schedule t g (q ∷ qs) = do
    one ← schedule_queue t g q
    rest ← frfcfs_schedule one.1 one.2 qs
    ok (one.0 ∷ rest.0, rest.1, rest.2)
