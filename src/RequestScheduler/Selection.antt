-- ===== src/RequestScheduler/Selection.antt =====
-- Which request `scheduleFR` of src/RequestScheduler.cpp takes.
use mcsim.Common.{
  ℕ, ◌+◌, ◌<◌, ◌≡◌, refl, sym, ap, ◌∙◌, subst, Bool, true, false, some, List, [], ◌∷◌, ◌++◌,
  append-nil, append_assoc, ◌⊎◌, inl, inr, ok, arith, All, All-append, length, length-append,
  get_elem?, get_elem?-middle, is_key, if◌then◌else◌, List-cases, Bool-cases,
}
use mcsim.Packet.{Request}
use mcsim.RequestQueue.{RequestQueue, get_request}
use mcsim.RequestQueue.Removal.{scheduled, get_request_found, get_request_check_found}
use mcsim.RequestScheduler.{BankTable, row_of, is_row, is_row_hit, fr_loop, schedule_fr}

-- The rank that the row table is asked for is the one that it is indexed by.
abbrev pub IsConsistent : Request → Type 0
IsConsistent r = r.rank ≡ r.address_map.rank

-- The open-row test, for such a request.
unfoldable pub hits : BankTable → Request → Bool
hits t r =
    if is_key t r.address_map.rank
    then is_row (row_of t r.address_map.rank r.address_map.bank) r.row
    else false

pub is_row_hit-hits :
    (t : BankTable) (r : Request) → IsConsistent r → is_row_hit t r ≡ ok (hits t r)
unfolding is_row_hit hits
is_row_hit-hits t r c = ground arith

abbrev pub Misses : BankTable → List Request → Type 0
Misses t = All (λ r. hits t r ≡ false)

-- `r` is the first request of `buffer` that hits an open row, or the oldest if none does.
pub record Selected (t : BankTable) (buffer : List Request) (r : Request) (before : List Request)
    : Type 0 where
  pub after : List Request
  pub whole : buffer ≡ before ++ r ∷ after
  pub choice : ((hits t r ≡ true) × Misses t before) ⊎ ((before ≡ []) × Misses t buffer)

fr_end :
    (t : BankTable) (q : RequestQueue)
    → 0 < length q.general_buffer
    → Misses t q.general_buffer
    → (r : Request) × (before : List Request) × (get_request q 0
        ≡ ok (some r, scheduled q (length before)))
      × Selected t q.general_buffer r before
fr_end t q full misses = elim (List-cases q.general_buffer) [
  | inl e ↦ absurd (omega (arith, ap length e))
  | inr (r, rest, e) ↦ (
    r,
    [],
    get_request_found q 0 r (rw e),
    record { after = rest; whole = e; choice = inr (refl, misses) },
  )
]

fr_loop-Selected :
    (t : BankTable) (q : RequestQueue) (seen rest : List Request) (index : ℕ)
    → 0 < length q.general_buffer
    → q.general_buffer ≡ seen ++ rest
    → length seen ≡ index
    → All IsConsistent rest
    → Misses t seen
    → (r : Request) × (before : List Request) × (fr_loop t q index (length rest)
        ≡ ok (some r, scheduled q (length before)))
      × Selected t q.general_buffer r before
unfolding fr_loop
fr_loop-Selected t q seen [] index full whole at c misses =
    fr_end t q full (subst (Misses t) (sym (whole ∙ append-nil seen)) misses)
fr_loop-Selected t q seen (x ∷ rest) index full whole at c misses =
    let here : get_elem? q.general_buffer index ≡ some x =
      rw (whole, ← at) (get_elem?-middle seen x rest) in
    elim (Bool-cases (hits t x)) [
      | inl hit ↦ (
        x,
        seen,
        rw (get_request_check_found q index x here, is_row_hit-hits t x c.0, hit)
            (rw at (get_request_found q index x here)),
        record { after = rest; whole = whole; choice = inl (hit, misses) },
      )
      | inr miss ↦
          let (r, before, result, selected) =
            fr_loop-Selected t q (seen ++ x ∷ []) rest (index + 1) full
              (whole ∙ sym (append_assoc seen (x ∷ []) rest))
              (omega (arith, at, length-append seen (x ∷ []))) c.1
              (All-append _ seen (x ∷ []) misses (miss, tt)) in
          (
            r,
            before,
            rw (get_request_check_found q index x here, is_row_hit-hits t x c.0, miss) result,
            selected,
          )
    ]

-- On a queue that is not empty, and whose requests each have the rank that their address map has,
-- the call is defined and takes the first request that hits an open row, wherever it stands, and the
-- oldest request where none does; the queue is left with that position remembered and unchanged
-- otherwise.
pub schedule_fr-Selected :
    (t : BankTable) (q : RequestQueue)
    → 0 < length q.general_buffer
    → All IsConsistent q.general_buffer
    → (r : Request) × (before : List Request) × (schedule_fr t q
        ≡ ok (some r, scheduled q (length before)))
      × Selected t q.general_buffer r before
unfolding schedule_fr
schedule_fr-Selected t q full c = fr_loop-Selected t q [] q.general_buffer 0 full refl refl c tt
