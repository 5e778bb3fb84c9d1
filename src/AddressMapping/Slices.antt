-- ===== src/AddressMapping/Slices.antt =====
-- What src/AddressMapping.cpp makes of an address: a mixed-radix numeral that can be put together again.
use mcsim.Common.{
  ℕ, ◌+◌, ◌*◌, ◌/◌, ◌%◌, ◌^◌, ◌<◌, ◌≡◌, refl, sym, ap, ◌∙◌, false, List, [], ◌∷◌, ◌++◌, reverse,
  append_assoc, append-nil, xor_low, pow_pos, u32, u32_mod, lt→ltb, ◌==◌, All, Outcome, ok, arith,
}
use native.Mathlib.Nat.{div-add-mod', mod-lt, div-mul-le_self, div-le_self, mul-div_cancel}
use mcsim.Packet.{Request}
use mcsim.AddressMapping.{
  MemOrg, rank, bank_group, bank, sub_array, row, column, index_of, DecodeIndex, Decoding, store,
  store_request, past_end, cut, Privatization, privatize, map_levels, address_mapping,
}

abbrev pub field : Request → MemOrg → ℕ
field r rank = r.rank
field r bank_group = r.bank_group
field r bank = r.bank
field r sub_array = r.sub_array
field r row = r.row
field r column = r.col

-- No entry of the index is for the level.
abbrev pub Lacks : MemOrg → DecodeIndex → Type 0
Lacks l = All (λ (e : MemOrg × ℕ). (index_of l == index_of e.0) ≡ false)

-- Each level has one entry at most.
abbrev pub IsDistinct : DecodeIndex → Type 0
IsDistinct [] = Unit
IsDistinct ((l, w) ∷ rest) = Lacks l rest × IsDistinct rest

-- Each shift is below the width of `unsigned`.
abbrev pub IsShiftable : DecodeIndex → Type 0
IsShiftable = All (λ (e : MemOrg × ℕ). e.1 < 32)

-- The number with the given digits, the last entry's first; `top` is what is left above them.
abbrev pub assemble : DecodeIndex → (MemOrg → ℕ) → ℕ → ℕ
assemble [] digits top = top
assemble ((l, w) ∷ rest) digits top = assemble rest digits top * 2 ^ w + digits l

-- Each level has a digit that its entry has room for.
abbrev pub InRange : (MemOrg → ℕ) → DecodeIndex → Type 0
InRange digits = All (λ (e : MemOrg × ℕ). digits e.0 < 2 ^ e.1)

field-store : (l : MemOrg) (v : ℕ) (r : Request) → field (store_request l v r) l ≡ v
field-store rank v r = refl
field-store bank_group v r = refl
field-store bank v r = refl
field-store sub_array v r = refl
field-store row v r = refl
field-store column v r = refl

field-store_ne :
    (l k : MemOrg) (v : ℕ) (r : Request)
    → (index_of l == index_of k) ≡ false
    → field (store_request k v r) l ≡ field r l
field-store_ne rank rank v r h = cc
field-store_ne rank _ v r h = refl
field-store_ne bank_group bank_group v r h = cc
field-store_ne bank_group _ v r h = refl
field-store_ne bank bank v r h = cc
field-store_ne bank _ v r h = refl
field-store_ne sub_array sub_array v r h = cc
field-store_ne sub_array _ v r h = refl
field-store_ne row row v r h = cc
field-store_ne row _ v r h = refl
field-store_ne column column v r h = cc
field-store_ne column _ v r h = refl

-- What identifies a request stays.
pub record SameRequest (r r' : Request) : Type 0 where
  pub same_type : r'.request_type ≡ r.request_type
  pub same_requestor : r'.requestor_id ≡ r.requestor_id
  pub same_size : r'.request_size ≡ r.request_size
  pub same_address : r'.address ≡ r.address
  pub same_arrival : r'.arrive_time ≡ r.arrive_time

store-SameRequest : (l : MemOrg) (v : ℕ) (r : Request) → SameRequest r (store_request l v r)
store-SameRequest rank v r = record {
  same_type = refl;
  same_requestor = refl;
  same_size = refl;
  same_address = refl;
  same_arrival = refl;
}
store-SameRequest bank_group v r = record {
  same_type = refl;
  same_requestor = refl;
  same_size = refl;
  same_address = refl;
  same_arrival = refl;
}
store-SameRequest bank v r = record {
  same_type = refl;
  same_requestor = refl;
  same_size = refl;
  same_address = refl;
  same_arrival = refl;
}
store-SameRequest sub_array v r = record {
  same_type = refl;
  same_requestor = refl;
  same_size = refl;
  same_address = refl;
  same_arrival = refl;
}
store-SameRequest row v r = record {
  same_type = refl;
  same_requestor = refl;
  same_size = refl;
  same_address = refl;
  same_arrival = refl;
}
store-SameRequest column v r = record {
  same_type = refl;
  same_requestor = refl;
  same_size = refl;
  same_address = refl;
  same_arrival = refl;
}

SameRequest-trans : {r s t : Request} → SameRequest r s → SameRequest s t → SameRequest r t
SameRequest-trans a b = record {
  same_type = b.same_type ∙ a.same_type;
  same_requestor = b.same_requestor ∙ a.same_requestor;
  same_size = b.same_size ∙ a.same_size;
  same_address = b.same_address ∙ a.same_address;
  same_arrival = b.same_arrival ∙ a.same_arrival;
}

-- The writes past the end, in the order in which they are made.
abbrev pub overrun_of : DecodeIndex → (MemOrg → ℕ) → List (MemOrg × ℕ)
overrun_of [] digits = []
overrun_of ((l, w) ∷ rest) digits = past_end l (digits l) ++ overrun_of rest digits

-- What the loop does to `a`, over `rest`.
record Cut (rest : DecodeIndex) (a : ℕ) (d : Decoding) : Type 0 where
  after : Decoding
  runs : cut rest a a d ≡ ok after
  top : ℕ
  whole : assemble rest (field after.request) top ≡ a
  in_range : InRange (field after.request) rest
  kept : (l : MemOrg) → Lacks l rest → field after.request l ≡ field d.request l
  same : SameRequest d.request after.request
  overran : after.overrun ≡ d.overrun ++ overrun_of rest (field after.request)

cleared_lem : (w a : ℕ) → a < u32_mod → u32 (a / 2 ^ w * 2 ^ w) ≡ a / 2 ^ w * 2 ^ w
cleared_lem w a h = omega (arith, div-mul-le_self a (2 ^ w))

shifted_lem : (w a : ℕ) → a / 2 ^ w * 2 ^ w / 2 ^ w ≡ a / 2 ^ w
shifted_lem w a = mul-div_cancel (a / 2 ^ w) (pow_pos w)

-- One round.
cut-cons :
    (l : MemOrg) (w : ℕ) (rest : DecodeIndex) (a : ℕ) (d : Decoding)
    → w < 32
    → a < u32_mod
    → cut ((l, w) ∷ rest) a a d ≡ cut rest (a / 2 ^ w) (a / 2 ^ w) (store l (a % 2 ^ w) d)
unfolding cut
cut-cons l w rest a d s h =
    rw (lt→ltb w 32 s) (rw (cleared_lem w a h) (rw (shifted_lem w a) (rw (xor_low w a) refl)))

cut_lem :
    (index : DecodeIndex) (a : ℕ) (d : Decoding)
    → IsDistinct index
    → IsShiftable index
    → a < u32_mod
    → Cut index a d
unfolding cut
cut_lem [] a d distinct shifts h = record {
  after = d;
  runs = refl;
  top = a;
  whole = refl;
  in_range = tt;
  kept = λ l _. refl;
  same = record {
    same_type = refl;
    same_requestor = refl;
    same_size = refl;
    same_address = refl;
    same_arrival = refl;
  };
  overran = sym (append-nil d.overrun);
}
cut_lem ((l, w) ∷ rest) a d distinct shifts h =
    let d' = store l (a % 2 ^ w) d in
    let less : a / 2 ^ w < u32_mod = omega (arith, div-le_self a (2 ^ w)) in
    let ih = cut_lem rest (a / 2 ^ w) d' distinct.1 shifts.1 less in
    let digit : field (ih.after).request l ≡ a % 2 ^ w =
      ih.kept l distinct.0 ∙ field-store l (a % 2 ^ w) d.request in
    record {
      after = ih.after;
      runs = cut-cons l w rest a d shifts.0 h ∙ ih.runs;
      top = ih.top;
      whole = rw digit (rw ih.whole (div-add-mod' a (2 ^ w)));
      in_range = (rw digit (mod-lt a (pow_pos w)), ih.in_range);
      kept = λ k lacks. ih.kept k lacks.1 ∙ field-store_ne k l (a % 2 ^ w) d.request lacks.0;
      same = SameRequest-trans (store-SameRequest l (a % 2 ^ w) d.request) ih.same;
      overran =
          ih.overran
          ∙ append_assoc d.overrun (past_end l (a % 2 ^ w)) _
          ∙ ap (λ v. d.overrun ++ (past_end l v ++ overrun_of rest (field (ih.after).request)))
              (sym digit);
    }

-- What the whole mapping makes of a request: `sliced` has the digits, before a private controller
-- overrides the rank and the bank.
pub record Sliced (p : Privatization) (index : DecodeIndex) (r : Request)
    (result : Outcome Decoding) : Type 0 where
  pub sliced : Request
  pub top : ℕ
  pub overrun : List (MemOrg × ℕ)
  pub runs : result ≡ ok (record { request = map_levels (privatize p sliced); overrun = overrun })
  pub whole : assemble (reverse index) (field sliced) top ≡ u32 r.address
  pub in_range : InRange (field sliced) (reverse index)
  pub kept : (l : MemOrg) → Lacks l (reverse index) → field sliced l ≡ field r l
  pub same : SameRequest r sliced
  pub overran : overrun ≡ overrun_of (reverse index) (field sliced)

-- Let the index name each level once at most, and let each shift be below 32. Then `addressMapping`
-- ends normally: each level of the index gets a digit below its power of two, the digits, put
-- together again from the index's first entry down, and what is left above them give the low 32 bits
-- of the address, a level that the index lacks stays as it was, the request is otherwise
-- unchanged, and the writes past the end of `addressMap` are those of the row and the column. Where
-- banks are private, the rank and the bank are overridden after that.
pub address_mapping-Sliced :
    (p : Privatization) (index : DecodeIndex) (r : Request)
    → IsDistinct (reverse index)
    → IsShiftable (reverse index)
    → Sliced p index r (address_mapping p index r)
unfolding address_mapping
address_mapping-Sliced p index r distinct shifts =
    let start : Decoding = record { request = r; overrun = [] } in
    let c = cut_lem (reverse index) (u32 r.address) start distinct shifts (omega arith) in
    record {
      sliced = (c.after).request;
      top = c.top;
      overrun = (c.after).overrun;
      runs = rw c.runs refl;
      whole = c.whole;
      in_range = c.in_range;
      kept = c.kept;
      same = c.same;
      overran = c.overran;
    }
