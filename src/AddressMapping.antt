-- ===== src/AddressMapping.antt =====
-- src/AddressMapping.h and src/AddressMapping.cpp: how an address is cut into rank, bank and the
-- like. The preprocessor's choice among the privatized controllers is an argument. The code also
-- writes the row and the column to `addressMap`, which ends before them: such writes are kept as a
-- list, the overrun, and change nothing here.
pub mod Log
pub mod Slices
use mcsim.Common.{
  ℕ, zero, suc, ◌+◌, ◌*◌, ◌/◌, ◌%◌, ◌^◌, Option, none, some, List, [], ◌∷◌, ◌++◌, reverse, bit_xor,
  get_elem?, ltb, u32, sub_u32, if◌then◌else◌, ◌==◌, Outcome, ok, ◌>>=◌, ◌>>◌, defined, defined_if,
  or_abort,
}
use mcsim.Packet.{Request}

-- `memOrg`
pub data MemOrg : Type 0 where
  rank bank_group bank sub_array row column : MemOrg

abbrev pub index_of : MemOrg → ℕ
index_of rank = 0
index_of bank_group = 1
index_of bank = 2
index_of sub_array = 3
index_of row = 4
index_of column = 5

abbrev pub level_of : ℕ → Option MemOrg
level_of i =
    if i == 0
    then some rank
    else if i == 1
    then some bank_group
    else if i == 2
    then some bank
    else if i == 3
    then some sub_array
    else if i == 4
    then some row
    else if i == 5
    then some column
    else none

-- The loop of `log2`, with fuel: how often the value can be halved until it is 0.
unfoldable pub halvings : ℕ → ℕ → ℕ
halvings zero value = 0
halvings (suc fuel) value =
    let rest = halvings fuel (value / 2) in if ltb 0 value then suc rest else 0

-- `log2`; the number is fuel enough.
unfoldable pub log2 : ℕ → ℕ
log2 n = let l = halvings n (n / 2) in if ltb (2 ^ l) n then l + 1 else l

-- `decodeIndex`
abbrev pub DecodeIndex : Type 0
DecodeIndex = List (MemOrg × ℕ)

-- The constructor, from the format's characters; a table entry that is missing is read out of range.
unfoldable pub new : List ℕ → List ℕ → Outcome DecodeIndex
new [] mem_table = ok []
new (c ∷ format) mem_table = do
  level ← or_abort (level_of (sub_u32 c b'0'))
  size ← defined (get_elem? mem_table (index_of level))
  rest ← new format mem_table
  ok ((level, log2 size) ∷ rest)

pub record Decoding : Type 0 where
  pub request : Request
  pub overrun : List (MemOrg × ℕ)

abbrev pub store_request : MemOrg → ℕ → Request → Request
store_request rank v r = record r { rank = v; address_map = record (r.address_map) { rank = v } }
store_request bank_group v r = record r {
  bank_group = v;
  address_map = record (r.address_map) { bank_group = v };
}
store_request bank v r = record r { bank = v; address_map = record (r.address_map) { bank = v } }
store_request sub_array v r = record r {
  sub_array = v;
  address_map = record (r.address_map) { sub_array = v };
}
store_request row v r = record r { row = v }
store_request column v r = record r { col = v }

-- The write past the end of `addressMap`, if any.
abbrev pub past_end : MemOrg → ℕ → List (MemOrg × ℕ)
past_end row v = (row, v) ∷ []
past_end column v = (column, v) ∷ []
past_end _ v = []

-- The `switch`.
abbrev pub store : MemOrg → ℕ → Decoding → Decoding
store level v d = record {
  request = store_request level v d.request;
  overrun = d.overrun ++ past_end level v;
}

-- The loop, over the index from its end on, with `tempA` and `tempB`. A shift by the width of
-- `unsigned` or more is undefined.
unfoldable pub cut : DecodeIndex → ℕ → ℕ → Decoding → Outcome Decoding
cut [] temp_a temp_b d = ok d
cut ((level, w) ∷ rest) temp_a temp_b d = do
  defined_if (ltb w 32)
  let cleared = u32 (temp_a / 2 ^ w * 2 ^ w)
  cut rest (cleared / 2 ^ w) (cleared / 2 ^ w) (store level (bit_xor cleared temp_b) d)

-- The macros: neither, `SINGLE_RANK_BANK_PRIVATIZATION`, `MULTI_RANK_BANK_PRIVATIZATION`.
pub data Privatization : Type 0 where
  not_private single_rank multi_rank : Privatization

abbrev pub privatize : Privatization → Request → Request
privatize not_private r = r
privatize single_rank r = record r { rank = 0; bank = r.requestor_id }
privatize multi_rank r = record r {
  rank = if ltb r.requestor_id 8 then r.requestor_id % 3 else 3;
  bank = r.requestor_id;
}

-- The assignments at the end.
abbrev pub map_levels : Request → Request
map_levels r = record r {
  address_map = record {
    rank = 0;
    bank_group = r.bank_group;
    bank = r.bank;
    sub_array = r.sub_array;
  };
}

-- `addressMapping`; the address is cut to `unsigned`.
unfoldable pub address_mapping : Privatization → DecodeIndex → Request → Outcome Decoding
address_mapping p index request = do
  d ←
      cut (reverse index) (u32 request.address) (u32 request.address)
        (record { request = request; overrun = [] })
  ok (record d { request = map_levels (privatize p d.request) })
