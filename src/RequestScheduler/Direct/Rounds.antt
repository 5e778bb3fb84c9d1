-- ===== src/RequestScheduler/Direct/Rounds.antt =====
-- The rounds of the loop of generalScheduler/RequestScheduler_DIRECT.h over the requestors' buffers.
use mcsim.Common.{
  subst, if_rule, lt→ltb, ℕ, suc, ◌+◌, ◌<◌, ◌≤◌, ◌≡◌, sym, ap, ◌∙◌, true, false, some, List, [],
  ◌∷◌, arith, get_elem?, All, Bool-cases, inl, inr, if◌then◌else◌, ltb, ◌==◌, ==_iff,
  find_or-insert, if_true, if_false,
}
use mcsim.Packet.{Request}
use mcsim.RequestQueue.{RequestQueue, buffer_of}
use mcsim.RequestQueue.Turns.{Front, taken}
use mcsim.RequestScheduler.Selection.{IsConsistent}
use mcsim.RequestScheduler.Rotation.{
  next_turn, turns, turns_self, turns-next_turn, ne_eq, turns-next_turn_self,
}

abbrev pub tail : List Request → List Request
tail [] = []
tail (r ∷ rs) = rs

-- No requestor has two places.
abbrev pub Distinct : RequestQueue → Type 0
Distinct q =
    (j k id : ℕ)
    → get_elem? q.requestor_order j ≡ some id
    → get_elem? q.requestor_order k ≡ some id
    → j ≡ k

-- The rank of every request is the one that its address map has.
abbrev pub AllConsistent : RequestQueue → Type 0
AllConsistent q = (id : ℕ) → All IsConsistent (buffer_of q id)

-- One round more: `b` is a buffer before it, `b₁` after it, and `b₂` at the end.
pub one_more :
    (size n i k : ℕ) (b b₁ b₂ : List Request)
    → i < size
    → n < size
    → k < size
    → b₁ ≡ (if k == i then tail b else b)
    → b₂ ≡ (if ltb (turns size (next_turn size i) k) n then tail b₁ else b₁)
    → b₂ ≡ (if ltb (turns size i k) (suc n) then tail b else b)
one_more size n i k b b₁ b₂ hi hn hk first later = elim (Bool-cases (k == i)) [
  | inl same ↦
      let e = (==_iff k i).0 same in
      let last : turns size (next_turn size i) k + 1 ≡ size =
        ap (λ j. turns size (next_turn size i) j + 1) e ∙ turns-next_turn_self size i hi in
      let here : turns size i k ≡ 0 = ap (turns size i) e ∙ turns_self size i in
      let passed : ltb (turns size (next_turn size i) k) n ≡ false =
        not_below _ _ (omega (arith, last)) in
      let due : ltb (turns size i k) (suc n) ≡ true = lt→ltb _ _ (omega (arith, here)) in
      later
      ∙ if_false _ (tail b₁) b₁ passed
      ∙ first
      ∙ if_true (k == i) (tail b) b same
      ∙ sym (if_true _ (tail b) b due)
  | inr other ↦
      let near = turns-next_turn size i k hi hk (λ e. ne_eq k i other (sym e)) in
      let same_buffer : b₁ ≡ b = first ∙ if_false (k == i) _ _ other in
      later
      ∙ ap (λ x. if x then tail b₁ else b₁) (shift _ _ n near)
      ∙ ap (λ x. if ltb (turns size i k) (suc n) then tail x else x) same_buffer
]
  where
    not_below : (a c : ℕ) → c ≤ a → ltb a c ≡ false
    not_below a c h = ground arith

    shift : (a c m : ℕ) → a + 1 ≡ c → ltb a m ≡ ltb c (suc m)
    shift a c m e = ground arith

pub ltb_zero : (a : ℕ) → ltb a 0 ≡ false
ltb_zero a = ground arith

pub taken-AllConsistent :
    (q : RequestQueue) (i id : ℕ) (r : Request) (rest : List Request)
    → Front q i id r rest
    → AllConsistent q
    → AllConsistent (taken q id rest)
taken-AllConsistent q i id r rest f c j =
    subst (All IsConsistent) (sym (find_or-insert q.requestor_buffer id rest j [])) (
      if_rule (All IsConsistent) (j == id) (λ _. (subst (All IsConsistent) f.waits (c id)).1)
        (λ _. c j))
