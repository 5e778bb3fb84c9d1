-- ===== src/RequestScheduler/Blacklist/Agreeing.antt =====
-- `scheduleBLISS` of src/RequestScheduler.cpp where the marks of the waiting requestors agree.
use mcsim.Common.{
  ℕ, suc, ◌+◌, ◌-◌, ◌<◌, ◌≡◌, refl, sym, ap, ◌∙◌, subst, Bool, true, false, not, ◌||◌, some, List,
  [], ◌∷◌, ◌++◌, append_assoc, inl, inr, ok, arith, All, length, length-append, get_elem?,
  get_elem?-middle, if◌then◌else◌, List-cases, Bool-cases, ltb-suc,
}
use mcsim.Packet.{Request}
use mcsim.RequestQueue.{RequestQueue, get_request}
use mcsim.RequestQueue.Removal.{get_request_check_found}
use mcsim.RequestScheduler.{BankTable, fr_loop, schedule_fr}
use mcsim.RequestScheduler.Selection.{IsConsistent, hits, is_row_hit-hits}
use mcsim.RequestScheduler.Blacklist.{
  is_marked, first_present, differs, compare_hits, compare_round, compare_loop, schedule_bliss,
}

differs_self : (b : Bool) → differs b b ≡ false
differs_self true = refl
differs_self false = refl

module _ (marks : List ℕ) (t : BankTable) (q : RequestQueue) (mark : Bool) where
  -- The requestor's entry is `mark`, and the row-hit test is defined.
  abbrev pub Agrees : Request → Type 0
  Agrees r = (is_marked marks r.requestor_id ≡ ok mark) × IsConsistent r

  -- A round whose two requests agree compares the row hits.
  compare_loop-round :
      (index n : ℕ) (x r : Request) (h k : Bool)
      → Agrees x
      → Agrees r
      → get_elem? q.general_buffer index ≡ some r
      → compare_loop marks t q 0 x index (suc n) h k ≡ (
          if differs (h || hits t x) (k || hits t r)
          then if h || hits t x then get_request q 0 else get_request q index
          else compare_loop marks t q 0 x (index + 1) n (h || hits t x) (k || hits t r))
  unfolding compare_loop compare_round compare_hits
  compare_loop-round index n x r h k ax ar here =
      rw (get_request_check_found q index r here, ax.0, ar.0)
        (rw (differs_self (not mark)) (rw (is_row_hit-hits t x ax.1, is_row_hit-hits t r ar.1)))

  -- Once the oldest request is known to hit a row, it is taken in the end.
  compare_loop-oldest :
      (seen rest : List Request) (index : ℕ) (x : Request)
      → q.general_buffer ≡ seen ++ rest
      → length seen ≡ index
      → Agrees x
      → All Agrees rest
      → compare_loop marks t q 0 x index (length rest) true true ≡ get_request q 0
  unfolding compare_loop
  compare_loop-oldest seen [] index x whole at ax c = refl
  compare_loop-oldest seen (r ∷ rest) index x whole at ax c =
      let here : get_elem? q.general_buffer index ≡ some r =
        rw (whole, ← at) (get_elem?-middle seen r rest) in
      compare_loop-round index (length rest) x r true true ax c.0 here
      ∙ compare_loop-oldest (seen ++ r ∷ []) rest (index + 1) x
          (whole ∙ sym (append_assoc seen (r ∷ []) rest))
          (omega (arith, at, length-append seen (r ∷ []))) ax c.1

  -- While the oldest request hits none, the first one that does is taken, as in `scheduleFR`.
  compare_loop-fr_loop :
      (seen rest : List Request) (index : ℕ) (x : Request)
      → q.general_buffer ≡ seen ++ rest
      → length seen ≡ index
      → Agrees x
      → hits t x ≡ false
      → All Agrees rest
      → compare_loop marks t q 0 x index (length rest) false false ≡ fr_loop t q index (length rest)
  unfolding compare_loop fr_loop
  compare_loop-fr_loop seen [] index x whole at ax miss c = refl
  compare_loop-fr_loop seen (r ∷ rest) index x whole at ax miss c =
      let here : get_elem? q.general_buffer index ≡ some r =
        rw (whole, ← at) (get_elem?-middle seen r rest) in
      let next =
        compare_loop-fr_loop (seen ++ r ∷ []) rest (index + 1) x
          (whole ∙ sym (append_assoc seen (r ∷ []) rest))
          (omega (arith, at, length-append seen (r ∷ []))) ax miss c.1 in
      compare_loop-round index (length rest) x r false false ax c.0 here
      ∙ elim (Bool-cases (hits t r)) [
        | inl hit ↦
            rw (get_request_check_found q index r here, is_row_hit-hits t r c.0.1, miss, hit)
        | inr not_hit ↦
            rw (get_request_check_found q index r here, is_row_hit-hits t r c.0.1, miss, not_hit)
              next
      ]

  -- The first loop stops at once.
  first_present-front :
      (n : ℕ) (x : Request)
      → get_elem? q.general_buffer 0 ≡ some x
      → first_present q 0 (suc n) ≡ ok (0, x)
  unfolding first_present
  first_present-front n x here = rw (get_request_check_found q 0 x here) refl

  schedule_bliss-compare_loop :
      (x : Request) (rest : List Request)
      → q.general_buffer ≡ x ∷ rest
      → schedule_bliss marks t q false false
        ≡ compare_loop marks t q 0 x 0 (suc (length rest)) false false
  unfolding schedule_bliss
  schedule_bliss-compare_loop x rest e =
      let size : length q.general_buffer ≡ suc (length rest) = ap length e in
      let here : get_elem? q.general_buffer 0 ≡ some x = ap (λ l. get_elem? l 0) e in
      let rounds : suc (length rest) - 0 ≡ suc (length rest) = omega arith in
      rw (size, ltb-suc (length rest), first_present-front (length rest) x here)
        (ap (λ n. compare_loop marks t q 0 x 0 n false false) rounds)

  -- On a queue that is not empty, whose requestors have the same mark and whose requests each have the rank that
  -- their address map has, and where `hit_1` and `hit_2` happen to be false at first, the call is the
  -- same as `scheduleFR`.
  pub schedule_bliss-schedule_fr :
      0 < length q.general_buffer
      → All Agrees q.general_buffer
      → schedule_bliss marks t q false false ≡ schedule_fr t q
  unfolding schedule_fr fr_loop
  schedule_bliss-schedule_fr full c = elim (List-cases q.general_buffer) [
    | inl e ↦ absurd (omega (arith, ap length e))
    | inr (x, rest, e) ↦
        let (ax, c') = subst (All Agrees) e c in
        schedule_bliss-compare_loop x rest e ∙ elim (Bool-cases (hits t x)) [
          | inl hit ↦
              let size : length q.general_buffer ≡ suc (length rest) = ap length e in
              let here : get_elem? q.general_buffer 0 ≡ some x = ap (λ l. get_elem? l 0) e in
              compare_loop-round 0 (length rest) x x false false ax ax here
              ∙ rw (hit, size, get_request_check_found q 0 x here, is_row_hit-hits t x ax.1, hit)
                  (compare_loop-oldest (x ∷ []) rest 1 x e refl ax c')
          | inr miss ↦
              compare_loop-fr_loop [] (x ∷ rest) 0 x e refl ax miss (ax, c')
              ∙ ap (λ xs. fr_loop t q 0 (length xs)) (sym e)
        ]
  ]
