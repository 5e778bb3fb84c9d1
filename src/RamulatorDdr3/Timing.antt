-- ===== src/RamulatorDdr3/Timing.antt =====
-- The timing table of src/Ramulator_DDR3.h: a command with automatic precharge and the same command with
-- a precharge after it.
use mcsim.Common.{◌+◌, ◌≡◌, refl}
use mcsim.Packet.{rd, rda, wr, wra, act, pre, type_index}
use mcsim.RamulatorDdr3.{SpeedEntry, command_timing}

-- An activation comes after a read or write with automatic precharge when it would come after the plain
-- one and a precharge, each as early as the table lets it.
pub auto_precharge_timing :
    (s : SpeedEntry)
    → (command_timing s rda (type_index act)
        ≡ command_timing s rd (type_index pre) + command_timing s pre (type_index act))
      × (command_timing s wra (type_index act)
          ≡ command_timing s wr (type_index pre) + command_timing s pre (type_index act))
unfolding command_timing
auto_precharge_timing s = (refl, refl)
