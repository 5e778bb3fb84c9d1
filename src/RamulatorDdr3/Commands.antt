-- ===== src/RamulatorDdr3/Commands.antt =====
-- The commands of the DRAM library that src/Ramulator_DDR3.h gives to it.
pub data Command : Type 0 where
  rd rda wr wra act act_r act_w pre prea ref : Command
