-- ===== src/RamulatorDdr3.antt =====
-- src/Ramulator_DDR3.h: the memory device over the DRAM library's DDR3 channel. The library's object
-- and its timing entry are parameters. The levels of that standard are channel, rank, bank, row
-- and column. The trace file is left out.
pub mod Commands
pub mod ReadLatency
pub mod Timing
use mcsim.Common.{
  ℕ, ◌+◌, Bool, true, false, List, [], ◌∷◌, ◌++◌, if◌then◌else◌, Outcome, ok, aborted, ◌>>=◌, ◌||◌,
  ◌==◌, sub_u32,
}
use mcsim.Packet.{
  BusPacketType, rd, rda, wr, wra, act_r, act_w, act, pre, prea, ref, refpb, pde, pdx, sre, srx,
  data_packet, type_index, BusPacket, new_packet,
}
use mcsim.RamulatorDdr3.Commands.{Command}
use mcsim.RamulatorDdr3.Commands
use mcsim.MemoryDevice.{MemoryDevice, generate_data}

-- The entries of `speed_entry` that the file reads for timing.
pub record SpeedEntry : Type 0 where
  pub n_bl : ℕ
  pub n_cl : ℕ
  pub n_rcd : ℕ
  pub n_rp : ℕ
  pub n_cwl : ℕ
  pub n_ras : ℕ
  pub n_rc : ℕ
  pub n_rtp : ℕ
  pub n_wr : ℕ

-- The library's channel: `update`, `check` and `get_next`.
pub record Dram (S : Type 0) : Type 0 where
  pub update : S → Command → List ℕ → ℕ → S
  pub check : S → Command → List ℕ → ℕ → Bool
  pub get_next : S → Command → List ℕ → ℕ

unfoldable pub convert_cmd : BusPacketType → Outcome Command
convert_cmd rd = ok Commands.rd
convert_cmd wr = ok Commands.wr
convert_cmd rda = ok Commands.rda
convert_cmd wra = ok Commands.wra
convert_cmd act = ok Commands.act
convert_cmd act_r = ok Commands.act_r
convert_cmd act_w = ok Commands.act_w
convert_cmd pre = ok Commands.pre
convert_cmd prea = ok Commands.prea
convert_cmd ref = ok Commands.ref
convert_cmd _ = aborted

abbrev pub convert_addr : BusPacket → List ℕ
convert_addr c = 0 ∷ 0 ∷ c.bank ∷ c.row ∷ c.column ∷ []

-- The other `switch`es are by the number of the later command.
abbrev is_cas : ℕ → Bool
is_cas t = t == 0 || t == 1 || t == 2 || t == 3

abbrev is_precharge : ℕ → Bool
is_precharge t = t == 7 || t == 8

abbrev is_any_act : ℕ → Bool
is_any_act t = t == 4 || t == 5 || t == 6

-- `command_timing(command, type)`, by the command's type.
unfoldable pub command_timing : SpeedEntry → BusPacketType → ℕ → ℕ
command_timing s pre t = if is_any_act t then s.n_rp else 0
command_timing s prea t = if is_any_act t then s.n_rp else 0
command_timing s act t =
    if t == 6 then s.n_rc else if is_precharge t then s.n_ras else if is_cas t then s.n_rcd else 1
command_timing s act_r t =
    if t == 4 || t == 5
    then s.n_rc
    else if is_precharge t
    then s.n_ras
    else if is_cas t
    then s.n_rcd
    else 1
command_timing s act_w t =
    if t == 4 || t == 5
    then s.n_rc
    else if is_precharge t
    then s.n_ras
    else if is_cas t
    then s.n_rcd
    else 1
command_timing s rd t =
    if t == 0 || t == 1
    then 4
    else if t == 2 || t == 3
    then sub_u32 (s.n_cl + s.n_bl + 2) s.n_cwl
    else if is_precharge t
    then s.n_rtp
    else 1
command_timing s rda t = if t == 6 then s.n_rtp + s.n_rp else 1
command_timing s wr t =
    if t == 0 || t == 1
    then s.n_cwl + 4 + 6
    else if t == 2 || t == 3
    then 4
    else if is_precharge t
    then s.n_cwl + 4 + s.n_wr
    else 1
command_timing s wra t = if t == 6 then s.n_cwl + 4 + s.n_wr + s.n_rp else 1
command_timing s _ t = 1

module _ {S : Type 0} (dram : Dram S) (s : SpeedEntry) where
  -- What a packet other than data does to the library's channel.
  to_channel : MemoryDevice S → BusPacket → Outcome (MemoryDevice S)
  to_channel d p = if type_index p.bus_packet_type == 15 then ok d else (do
    c ← convert_cmd p.bus_packet_type
    ok (record d { channel = dram.update d.channel c (convert_addr p) d.clock_cycle }))

  unfoldable pub receive_from_bus : MemoryDevice S → BusPacket → Outcome (MemoryDevice S)
  unfolding to_channel
  receive_from_bus d p =
      if p.post_command
      then ok (record d {
        post_buffer =
            d.post_buffer
            ++ new_packet p.bus_packet_type p.requestor_id p.address p.column p.row p.bank 0
                p.sub_array p.arrive_time
              ∷ [];
        post_counter = d.post_counter ++ s.n_rcd ∷ [];
      })
      else (do d' ← to_channel d p; ok (generate_data s.n_cl s.n_bl d' p))

  -- `command_check`
  unfoldable pub command_check : MemoryDevice S → BusPacket → Outcome Bool
  command_check d p = if p.post_command then ok true else (do
    c ← convert_cmd p.bus_packet_type
    ok (dram.check d.channel c (convert_addr p) d.clock_cycle))
