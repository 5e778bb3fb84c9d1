-- ===== src/Common/Bits.antt =====
-- Exclusive or, shifts and powers of two on native numbers.
use Prim.Native.Nat.{
  ℕ, zero, suc, ◌+◌, ◌*◌, ◌/◌, ◌%◌, ◌^◌, ◌≤◌, ◌<◌, bit_xor, differ, digits, bit_xor-bitwise,
}
use mathlib.Core.Path.{◌≡◌, refl, ap, sym, ◌∙◌}
use native.Mathlib.Omega.{arith}
use native.Mathlib.Nat.{pow-suc, div-add-mod', mod-lt}

-- Two amounts of fuel that are both enough give the same digits.
fuels : (x y f g : ℕ) → x ≤ f → x ≤ g → digits (λ z. z) differ f x y ≡ digits (λ z. z) differ g x y
fuels zero y zero zero h k = refl
fuels zero y zero (suc g) h k = refl
fuels zero y (suc f) zero h k = refl
fuels zero y (suc f) (suc g) h k = refl
fuels (suc x) y zero g h k = absurd (omega (arith, h))
fuels (suc x) y (suc f) zero h k = absurd (omega (arith, k))
fuels (suc x) y (suc f) (suc g) h k =
    let half : suc x / 2 ≤ x = omega arith in
    omega (arith, fuels (suc x / 2) (y / 2) f g (omega (arith, half)) (omega (arith, half)))

differ_zero : (y : ℕ) → differ 0 y ≡ y
differ_zero y = refl

xor_of_zero : (y : ℕ) → bit_xor 0 y ≡ y
xor_of_zero y = bit_xor-bitwise 0 y

-- The lowest digit apart from the others.
xor_by_digit : (x y : ℕ) → bit_xor x y ≡ differ (x % 2) (y % 2) + 2 * bit_xor (x / 2) (y / 2)
xor_by_digit zero y = omega (arith, differ_zero (y % 2), xor_of_zero (y / 2), xor_of_zero y)
xor_by_digit (suc x) y =
    let enough = fuels (suc x / 2) (y / 2) x (suc x / 2) (omega arith) (omega arith) in
    let upper = bit_xor-bitwise (suc x / 2) (y / 2) in
    omega (arith, enough, upper, bit_xor-bitwise (suc x) y)

differ_self : (x : ℕ) → differ x x ≡ 0
differ_self zero = refl
differ_self (suc x) = differ_self x

bit_xor_self_below : (n a : ℕ) → a ≤ n → bit_xor a a ≡ 0
bit_xor_self_below n zero h = xor_of_zero 0
bit_xor_self_below zero (suc a) h = absurd (omega arith)
bit_xor_self_below (suc n) (suc a) h = omega (
  arith,
  xor_by_digit (suc a) (suc a),
  differ_self (suc a % 2),
  bit_xor_self_below n (suc a / 2) (omega arith),
)

bit_xor_self : (a : ℕ) → bit_xor a a ≡ 0
bit_xor_self a = bit_xor_self_below a a (omega arith)

-- One more place.
double_high : (high w : ℕ) → high * 2 ^ suc w ≡ high * 2 ^ w * 2
double_high high w = omega (arith, ap (λ p. high * p) (pow-suc 2 w))

-- With its low digits cleared, a number differs from itself in the low digits only.
xor_fields : (w high low : ℕ) → low < 2 ^ w → bit_xor (high * 2 ^ w) (high * 2 ^ w + low) ≡ low
xor_fields zero high low below = ground (arith, bit_xor_self high)
xor_fields (suc w) high low below =
    let halves : low / 2 < 2 ^ w = omega (arith, pow-suc 2 w) in
    ground (
      arith,
      differ_zero (low % 2),
      xor_fields w high (low / 2) halves,
      pow-suc 2 w,
      double_high high w,
      xor_by_digit (high * 2 ^ suc w) (high * 2 ^ suc w + low),
    )

pub pow_pos : (w : ℕ) → 0 < 2 ^ w
pow_pos zero = omega arith
pow_pos (suc w) = omega (arith, pow-suc 2 w, pow_pos w)

pub xor_low : (w a : ℕ) → bit_xor (a / 2 ^ w * 2 ^ w) a ≡ a % 2 ^ w
xor_low w a =
    ap (bit_xor (a / 2 ^ w * 2 ^ w)) (sym (div-add-mod' a (2 ^ w)))
    ∙ xor_fields w (a / 2 ^ w) (a % 2 ^ w) (mod-lt a (pow_pos w))
