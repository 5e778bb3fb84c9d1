-- ===== src/Tests/Mapping.antt =====
-- The address mapping, the configuration file and a controller that is connected to its device.
use mcsim.Common.{◌^◌, ◌≤◌, ◌<◌, ◌≡◌, refl, true, false, [], ◌∷◌, some, ok, arith, ◌⊎◌, reverse}
use mcsim.AddressMapping.{
  log2, halvings, new, DecodeIndex, not_private, rank, bank_group, bank, sub_array, row, column,
  address_mapping,
}
use mcsim.AddressMapping.Log.{log2_bounds}
use mcsim.AddressMapping.Slices.{Sliced, address_mapping-Sliced, IsDistinct, IsShiftable}
use mcsim.MemoryController.Decode.{first_marked, queue_number}
use mcsim.MemoryController.Requests.{Accepted}
use mcsim.MemoryController.Enqueue.{add_request, incoming}
use mcsim.MemoryController.Connect.{
  Sizes, Connected, connect_memory_device, connect_memory_device-Accepted,
}
use mcsim.MemoryController.ConfigFile.{Config}
use mcsim.Tests.Sample.{read_of}
use mcsim.Tests.Controller.{controller, at_bank_one, to_bank_one}

log2_bounds_example : ((6 ≤ 1) × (log2 6 ≡ 0)) ⊎ ((1 < 6) × (6 ≤ 2 ^ log2 6) × (2 ^ log2 6 < 12))
log2_bounds_example = log2_bounds 6

-- The shipped format, for one rank of 8 banks.
abbrev default_index : DecodeIndex
default_index =
    (rank, 0) ∷ (bank_group, 0) ∷ (bank, 3) ∷ (sub_array, 0) ∷ (row, 15) ∷ (column, 10) ∷ []

default_index-IsDistinct : IsDistinct (reverse default_index)
default_index-IsDistinct = (
  (refl, (refl, (refl, (refl, (refl, tt))))),
  (
    (refl, (refl, (refl, (refl, tt)))),
    ((refl, (refl, (refl, tt))), ((refl, (refl, tt)), ((refl, tt), (tt, tt)))),
  ),
)

default_index-IsShiftable : IsShiftable (reverse default_index)
default_index-IsShiftable =
    (omega arith, (omega arith, (omega arith, (omega arith, (omega arith, (omega arith, tt))))))

address_mapping-Sliced_example :
    Sliced not_private default_index
      (read_of 1 305419896 0 0 5)
      (address_mapping not_private default_index (read_of 1 305419896 0 0 5))
address_mapping-Sliced_example =
    address_mapping-Sliced not_private default_index (read_of 1 305419896 0 0 5)
      default_index-IsDistinct default_index-IsShiftable

abbrev sizes : Sizes
sizes = record {
  ranks = 1;
  bank_groups = 1;
  banks = 8;
  rows = 32768;
  columns = 1024;
  data_bus = 64;
}

abbrev bank_queues : Config
bank_queues = record {
  req_map = 0 ∷ 0 ∷ 1 ∷ 0 ∷ [];
  cmd_map = 0 ∷ 0 ∷ 1 ∷ 0 ∷ [];
  write_queue_enable = true;
  requestor_req_q = false;
  requestor_cmd_q = false;
  config_table = λ k. some (b'0' ∷ b'1' ∷ b'2' ∷ b'3' ∷ b'4' ∷ b'5' ∷ []);
}

connect_memory_device-Accepted_example :
    (c : Connected) × (connect_memory_device bank_queues controller 4 1 sizes ≡ ok c)
    × Accepted c.controller
        (at_bank_one (incoming controller.clock_cycle 3 4096 true 64))
        (add_request to_bank_one c.controller 3 4096 true 64)
unfolding first_marked queue_number new log2 halvings
connect_memory_device-Accepted_example =
    connect_memory_device-Accepted bank_queues controller 4 1 sizes 8 default_index to_bank_one 3
      4096 true 64 (at_bank_one (incoming controller.clock_cycle 3 4096 true 64)) refl
      (omega arith, (omega arith, omega arith)) (omega arith) refl refl
