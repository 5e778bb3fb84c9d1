-- ===== src/AddressMapping/Log.antt =====
-- The logarithm of src/AddressMapping.h.
use mcsim.Common.{
  ℕ, zero, suc, ◌+◌, ◌*◌, ◌/◌, ◌^◌, ◌≤◌, ◌<◌, ◌≡◌, refl, ltb, arith, Bool-cases, inl, inr, ltb→lt,
  ap, ◌⊎◌,
}
use native.Mathlib.Nat.{pow-suc}
use native.Mathlib.Numerals.{towards_suc}
use mcsim.AddressMapping.{halvings, log2}

double_pow : (k : ℕ) → 2 ^ suc k ≡ 2 * 2 ^ k
double_pow k = omega (arith, pow-suc 2 k)

add_pow : (k : ℕ) → 2 ^ (k + 1) ≡ 2 * 2 ^ k
add_pow k = simp towards_suc (double_pow k)

halvings_zero : (fuel : ℕ) → halvings fuel 0 ≡ 0
unfolding halvings
halvings_zero zero = refl
halvings_zero (suc fuel) = refl

power_of_zero : (fuel value : ℕ) → value ≡ 0 → 2 ^ halvings fuel value ≡ 1
power_of_zero fuel value e = rw e (ap (λ k. 2 ^ k) (halvings_zero fuel))

halved :
    (value k m : ℕ)
    → value / 2 < k
    → (0 < value / 2 → k ≤ value / 2 + value / 2)
    → (value / 2 ≡ 0 → k ≡ 1)
    → 0 < value
    → m ≡ 2 * k
    → m ≤ value + value
halved value k m l u z p e = elim (eq_or_lt (value / 2)) [
  | inl e0 ↦ omega (arith, z e0, e, p)
  | inr q ↦ omega (arith, u q, e)
]
  where
    eq_or_lt : (n : ℕ) → (n ≡ 0) ⊎ (0 < n)
    eq_or_lt zero = inl refl
    eq_or_lt (suc n) = inr (omega arith)

-- `halvings fuel value` is the number of binary digits of the value.
halvings_bounds :
    (fuel value : ℕ)
    → value ≤ fuel
    → (value < 2 ^ halvings fuel value) × (0 < value → 2 ^ halvings fuel value ≤ value + value)
unfolding halvings
halvings_bounds zero value h = (omega arith, λ p. absurd (omega arith))
halvings_bounds (suc fuel) value h = elim (Bool-cases (ltb 0 value)) [
  | inl t ↦
      let ih = halvings_bounds fuel (value / 2) (omega arith) in
      let p = double_pow (halvings fuel (value / 2)) in
      rw t (
        omega (arith, p, ih.0),
        λ q. halved value _ _ ih.0 ih.1 (power_of_zero fuel (value / 2)) q p,
      )
  | inr f ↦ rw f (ground arith, λ p. absurd (ground arith))
]

log2_above : (n : ℕ) → 1 < n → (n ≤ 2 ^ log2 n) × (2 ^ log2 n < n + n)
unfolding log2
log2_above n h =
    let b = halvings_bounds n (n / 2) (omega arith) in
    let u = b.1 (omega arith) in
    elim (Bool-cases (ltb (2 ^ halvings n (n / 2)) n)) [
      | inl t ↦ rw t (
        omega (arith, b.0, add_pow (halvings n (n / 2))),
        omega (arith, add_pow (halvings n (n / 2)), ltb→lt _ _ t),
      )
      | inr f ↦ rw f (ground arith, omega (arith, u))
    ]

-- `log2 n` is the least exponent with which the power of two is not below `n`: for `n` up to 1 it is 0, and for
-- `n` above 1 the power reaches `n` and its half does not.
pub log2_bounds :
    (n : ℕ) → ((n ≤ 1) × (log2 n ≡ 0)) ⊎ ((1 < n) × (n ≤ 2 ^ log2 n) × (2 ^ log2 n < n + n))
unfolding log2 halvings
log2_bounds zero = inl (omega arith, refl)
log2_bounds (suc zero) = inl (omega arith, refl)
log2_bounds (suc (suc n)) =
    let (reaches, half) = log2_above (suc (suc n)) (omega arith) in inr (omega arith, reaches, half)
