-- ===== src/RequestScheduler/Rotation.antt =====
-- The cyclic order in which system/PMC/RequestScheduler_PMC.h and
-- generalScheduler/RequestScheduler_RR.h look at requestors.
use mcsim.Common.{
  ℕ, zero, suc, ◌+◌, ◌-◌, ◌<◌, ◌≤◌, ◌≡◌, ◌≢◌, arith, leb, ltb, ◌==◌, ◌∙◌, ==_iff, Bool-cases, subst,
  false, inl, inr, if◌then◌else◌,
}

-- `index++; if (index == n) index = 0;`
abbrev pub next_turn : ℕ → ℕ → ℕ
next_turn n i = if i + 1 == n then 0 else i + 1

-- How many turns there are from `i` to `j` in the cycle of `n`.
unfoldable pub turns : ℕ → ℕ → ℕ → ℕ
turns n i j = if leb i j then j - i else j + n - i

pub turns-lt : (n i j : ℕ) → i < n → j < n → turns n i j < n
unfolding turns
turns-lt n i j hi hj = ground arith

pub turns_self : (n i : ℕ) → turns n i i ≡ 0
unfolding turns
turns_self n i = ground arith

pub next_turn-lt : (n i : ℕ) → i < n → next_turn n i < n
next_turn-lt n i h = ground arith

-- A turn passes: every other place is one turn nearer.
pub turns-next_turn :
    (n i j : ℕ) → i < n → j < n → i ≢ j → turns n (next_turn n i) j + 1 ≡ turns n i j
unfolding turns
turns-next_turn n i j hi hj h = ground arith

-- After the turn of a place no later than `j`, and not `j` itself, `j` is nearer.
pub turns-after :
    (n i m j : ℕ)
    → i < n
    → m < n
    → j < n
    → m ≢ j
    → turns n i m ≤ turns n i j
    → turns n (next_turn n m) j < turns n i j
unfolding turns
turns-after n i m j hi hm hj h k = ground arith

-- The order of two other places stays the same when the turn passes.
pub turns-nearer :
    (n i k m : ℕ)
    → i < n
    → k < n
    → m < n
    → i ≢ k
    → turns n i k < turns n i m
    → turns n (next_turn n i) k < turns n (next_turn n i) m
unfolding turns
turns-nearer n i k m hi hk hm h nearer = ground arith

-- The turn after `k` places.
abbrev pub rotate : ℕ → ℕ → ℕ → ℕ
rotate n zero i = i
rotate n (suc k) i = rotate n k (next_turn n i)

rotate_lem :
    (n k i : ℕ) → i < n → k ≤ n → rotate n k i ≡ (if ltb (i + k) n then i + k else i + k - n)
rotate_lem n zero i hi hk = ground arith
rotate_lem n (suc k) i hi hk =
    rotate_lem n k (next_turn n i) (next_turn-lt n i hi) (omega arith) ∙ ground arith

-- After as many places as there are, the turn is where it was.
pub rotate_full : (n i : ℕ) → i < n → rotate n n i ≡ i
rotate_full n i hi = rotate_lem n n i hi (omega arith) ∙ ground arith

pub ne_eq : (a b : ℕ) → (a == b) ≡ false → a ≢ b
ne_eq a b h e = ground arith

-- What holds at the place whose turn it is, and at those before `m` after it, holds before `m`.
pub before_extends :
    (P : ℕ → Type 0) (n i m : ℕ)
    → i < n
    → m < n
    → P i
    → ((k : ℕ) → k < n → turns n (next_turn n i) k < turns n (next_turn n i) m → P k)
    → (k : ℕ) → k < n
    → turns n i k < turns n i m
    → P k
before_extends P n i m hi hm here later k hk nearer = elim (Bool-cases (i == k)) [
  | inl same ↦ subst P ((==_iff i k).0 same) here
  | inr other ↦ later k hk (turns-nearer n i k m hi hk hm (ne_eq i k other) nearer)
]

-- The same for the places within a number of turns.
pub within_extends :
    (P : ℕ → Type 0) (n i t : ℕ)
    → i < n
    → P i
    → ((k : ℕ) → k < n → turns n (next_turn n i) k < t → P k)
    → (k : ℕ) → k < n
    → turns n i k < suc t
    → P k
within_extends P n i t hi here later k hk near = elim (Bool-cases (i == k)) [
  | inl same ↦ subst P ((==_iff i k).0 same) here
  | inr other ↦ later k hk (omega (arith, turns-next_turn n i k hi hk (ne_eq i k other)))
]

-- The place whose turn has passed is the last one then.
pub turns-next_turn_self : (n i : ℕ) → i < n → turns n (next_turn n i) i + 1 ≡ n
unfolding turns
turns-next_turn_self n i hi = ground arith
