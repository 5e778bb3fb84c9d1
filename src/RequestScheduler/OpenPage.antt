-- ===== src/RequestScheduler/OpenPage.antt =====
-- The contract that a DRAM bank puts on the commands it is sent, and the agreement of the row table
-- of src/RequestScheduler.cpp and of the generator of generalScheduler/CommandGenerator_OPEN.h with
-- the banks.
pub mod Generate
pub mod Schedule
use mcsim.Common.{
  ℕ, ◌<◌, ◌≡◌, Bool, true, false, not, Option, none, some, List, [], ◌∷◌, Map, insert, delete,
  is_key, is_some, if◌then◌else◌, All,
}
use mcsim.Packet.{BusPacketType, rd, wr, act, pre, BusPacket, Request}
use mcsim.CommandGenerator.{CommandGenerator, first_size}
use mcsim.RequestScheduler.{BankTable, row_of, is_row}

-- The banks of one rank: which have a row open, and which row. A precharge wants an open row, an
-- activation a closed bank, and a CAS the row that it addresses; other commands are not for a bank.
abbrev pub Banks : Type 0
Banks = Map ℕ

abbrev pub exec_type : BusPacketType → Banks → BusPacket → Option Banks
exec_type pre m c = if is_key m c.bank then some (delete m c.bank) else none
exec_type act m c = if is_key m c.bank then none else some (insert m c.bank c.row)
exec_type rd m c = if is_row (m c.bank) c.row then some m else none
exec_type wr m c = if is_row (m c.bank) c.row then some m else none
exec_type _ m c = none

abbrev pub and_then : Option Banks → (Banks → Option Banks) → Option Banks
and_then none f = none
and_then (some m) f = f m

-- The banks after a sequence of commands, if each of them is legal when it comes.
abbrev pub exec : Banks → List BusPacket → Option Banks
exec m [] = some m
exec m (c ∷ cs) = and_then (exec_type c.bus_packet_type m c) (λ m'. exec m' cs)

-- A request that address mapping has put in rank 0 and in a bank that the generator tracks.
pub record IsPlaced (r : Request) : Type 0 where
  pub in_rank : r.rank ≡ 0
  pub mapped_rank : r.address_map.rank ≡ 0
  pub mapped_bank : r.address_map.bank ≡ r.bank
  pub in_banks : r.bank < first_size

-- The row table has exactly the open rows, and `first` tells exactly the closed banks.
pub record Tracks (t : BankTable) (g : CommandGenerator) (m : Banks) : Type 0 where
  pub rows : (b : ℕ) → row_of t 0 b ≡ m b
  pub firsts : (b : ℕ) → b < first_size → g.first b ≡ not (is_some (m b))
  pub bus : 0 < g.data_bus_size
