-- ===== src/Packet.antt =====
-- src/BusPacket.h, src/Request.h and the memory levels of src/global.h. The payload pointers
-- `data`, which the simulator only passes on, are left out.
use mcsim.Common.{ℕ, Bool, false}

-- `BusPacketType`, in the order of the enum.
pub data BusPacketType : Type 0 where
  rd rda wr wra act_r act_w act pre prea ref refpb pde pdx sre srx data_packet : BusPacketType

-- The enum's integer values, which the code compares and uses as map keys.
abbrev pub type_index : BusPacketType → ℕ
type_index rd = 0
type_index rda = 1
type_index wr = 2
type_index wra = 3
type_index act_r = 4
type_index act_w = 5
type_index act = 6
type_index pre = 7
type_index prea = 8
type_index ref = 9
type_index refpb = 10
type_index pde = 11
type_index pdx = 12
type_index sre = 13
type_index srx = 14
type_index data_packet = 15

pub record BusPacket : Type 0 where
  pub bus_packet_type : BusPacketType
  pub requestor_id : ℕ
  pub address : ℕ
  pub column : ℕ
  pub row : ℕ
  pub sub_array : ℕ
  pub bank : ℕ
  pub rank : ℕ
  pub arrive_time : ℕ
  pub post_command : Bool

-- The constructor's call, with its argument order.
abbrev pub new_packet : BusPacketType → (id addr col rw bank rank sa time : ℕ) → BusPacket
new_packet type id addr col rw bank rank sa time = record {
  bus_packet_type = type;
  requestor_id = id;
  address = addr;
  column = col;
  row = rw;
  sub_array = sa;
  bank = bank;
  rank = rank;
  arrive_time = time;
  post_command = false;
}

pub data RequestType : Type 0 where
  data_read data_write : RequestType

-- `memOrg::Rank` to `memOrg::SubArray`, the indices of a request's `addressMap`.
pub record AddressMap : Type 0 where
  pub rank : ℕ
  pub bank_group : ℕ
  pub bank : ℕ
  pub sub_array : ℕ

pub record Request : Type 0 where
  pub request_type : RequestType
  pub requestor_id : ℕ
  pub request_size : ℕ
  pub address : ℕ
  pub arrive_time : ℕ
  pub rank : ℕ
  pub bank_group : ℕ
  pub bank : ℕ
  pub sub_array : ℕ
  pub row : ℕ
  pub col : ℕ
  pub address_map : AddressMap
