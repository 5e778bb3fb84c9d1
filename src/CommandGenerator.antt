-- ===== src/CommandGenerator.antt =====
-- src/CommandGenerator.h, src/CommandGenerator.cpp and the two general generators, which crack a
-- request into DRAM commands: generalScheduler/CommandGenerator_OPEN.h (open page) and
-- generalScheduler/CommandGenerator_CLOSE.h (close page). `commandGenerate` always returns true, so
-- only its effect on the generator is kept.
pub mod Shape
use mcsim.Common.{
  ℕ, zero, suc, ◌+◌, ◌*◌, ◌/◌, ◌%◌, Bool, true, false, not, List, [], ◌∷◌, ◌++◌, Map, insert,
  find_or, empty_map, ltb, u32, if◌then◌else◌, Outcome, ok, undefined_behaviour, ◌>>=◌, ◌>>◌,
  defined_if, ◌==◌, length, aborted,
}
use mcsim.Packet.{
  BusPacketType, rd, rda, wr, wra, act, pre, BusPacket, new_packet, Request, RequestType, data_read,
  data_write,
}

-- `first` has the entries 0 to 7.
pub record CommandGenerator : Type 0 where
  pub data_bus_size : ℕ
  pub first : ℕ → Bool
  pub lookup_table : Map (ℕ × ℕ)
  pub command_buffer : List BusPacket

abbrev pub first_size : ℕ
first_size = 8

unfoldable pub new : ℕ → CommandGenerator
new data_bus = record {
  data_bus_size = data_bus;
  first = λ b. true;
  lookup_table = empty_map;
  command_buffer = [];
}

-- `getCommand` and `removeCommand`, on a buffer that is not empty.
unfoldable pub pop_command : CommandGenerator → Outcome (BusPacket × CommandGenerator)
pop_command g = elim g.command_buffer [
  | [] ↦ undefined_behaviour
  | c ∷ cs ↦ ok (c, record g { command_buffer = cs })
]

unfoldable pub buffer_size : CommandGenerator → ℕ
buffer_size g = length g.command_buffer

abbrev pub push : CommandGenerator → List BusPacket → CommandGenerator
push g cs = record g { command_buffer = g.command_buffer ++ cs }

-- A command for the request, at a column of its own.
abbrev pub command_at : BusPacketType → Request → ℕ → BusPacket
command_at type r col =
    new_packet type r.requestor_id r.address col r.row r.bank r.rank r.sub_array 0

abbrev pub open_cas : RequestType → BusPacketType
open_cas data_read = rd
open_cas data_write = wr

-- The CAS commands of the columns from `col + x` on, `n` of them.
unfoldable pub cas_burst : Request → ℕ → ℕ → List BusPacket
cas_burst r x zero = []
cas_burst r x (suc n) =
    command_at (open_cas r.request_type) r (u32 (r.col + x)) ∷ cas_burst r (x + 1) n

-- PRE and ACT for a row miss, ACT alone for the first access to the bank, nothing for a row hit.
-- `first` is read, and may be read out of range, only on a miss.
unfoldable pub open_row : CommandGenerator → Request → Bool → Outcome CommandGenerator
open_row g r is_open = if is_open then ok g else (do
  defined_if (ltb r.bank first_size)
  ok (
      if g.first r.bank
      then record g {
        first = λ b. if b == r.bank then false else g.first b;
        command_buffer = g.command_buffer ++ command_at act r r.col ∷ [];
      }
      else push g (command_at pre r r.col ∷ command_at act r r.col ∷ [])))

-- `CommandGenerator_Open::commandGenerate`
unfoldable pub open_generate : CommandGenerator → Request → Bool → Outcome CommandGenerator
unfolding open_row cas_burst
open_generate g r is_open = do
  defined_if (ltb 0 g.data_bus_size)
  g' ← open_row g r is_open
  ok (push g' (cas_burst r 0 (r.request_size / g.data_bus_size)))

-- The constructor of `CommandGenerator_Close`: request sizes, with the number of banks and of
-- bursts in each; a later entry overwrites an earlier one. The keys are `unsigned`.
unfoldable pub close_table : ℕ → Map (ℕ × ℕ)
close_table bus =
    insert
      (insert
        (insert (insert (insert empty_map bus (1, 1)) (u32 (bus * 2)) (2, 1)) (u32 (bus * 4))
          (4, 1))
        (u32 (bus * 8)) (8, 1))
      (u32 (bus * 16)) (8, 2)

unfoldable pub new_close : ℕ → CommandGenerator
unfolding new
new_close data_bus = record (new data_bus) { lookup_table = close_table data_bus }

abbrev pub close_cas : RequestType → BusPacketType
close_cas data_read = rda
close_cas data_write = wra

abbrev pub in_bank : BusPacketType → Request → ℕ → BusPacket
in_bank type r bank = new_packet type r.requestor_id r.address r.col r.row bank r.rank r.sub_array 0

-- The inner loop: `n` pairs of ACT and CAS with auto precharge, for one bank.
close_bursts : Request → ℕ → ℕ → List BusPacket
close_bursts r bank zero = []
close_bursts r bank (suc n) =
    in_bank act r bank ∷ in_bank (close_cas r.request_type) r bank ∷ close_bursts r bank n

-- The outer loop, over `n` banks from `bi` on.
close_banks : Request → ℕ → ℕ → ℕ → List BusPacket
close_banks r bursts bi zero = []
close_banks r bursts bi (suc n) =
    close_bursts r (u32 (r.bank + bi) % 16) bursts ++ close_banks r bursts (bi + 1) n

-- `CommandGenerator_Close::commandGenerate`; `lookupTable[size]` enters (0, 0) for an unknown size.
unfoldable pub close_generate : CommandGenerator → Request → CommandGenerator
unfolding close_banks close_bursts
close_generate g r =
    let entry : ℕ × ℕ = find_or g.lookup_table r.request_size (0, 0) in
    record g {
      lookup_table = insert g.lookup_table r.request_size entry;
      command_buffer = g.command_buffer ++ close_banks r entry.1 0 entry.0;
    }
