-- ===== src/Base/Bits.antt =====
-- `|` and `^` of words, from the digit recursion that the native operations stand for.
use Prim.Native.Nat.{
  ℕ, zero, suc, ◌+◌, ◌-◌, ◌*◌, ◌/◌, ◌%◌, ◌^◌, ◌≤◌, ◌<◌, max, bit_or, bit_xor, differ, digits,
  bitwise, bit_or-bitwise, bit_xor-bitwise,
}
use mathlib.Core.Path.{◌≡◌, refl, sym, ap, ◌∙◌}
use mathlib.Core.Logic.{inl, inr}
use vlite.Base.Tests.{leb, Bool-cases}
use native.Mathlib.Nat.{pow-suc, one-le-pow}
use native.Mathlib.Omega.{arith}

-- The recursion on digits, where `rest` is what it gives at the end of the first word and `bit`
-- what it makes of two digits.
module _ (rest : ℕ → ℕ) (bit : ℕ → ℕ → ℕ) where
  -- One unit of fuel more than the first word changes nothing.
  digits_spare :
      (fuel x y : ℕ) → x ≤ fuel → digits rest bit (suc fuel) x y ≡ digits rest bit fuel x y
  digits_spare zero zero y le = refl
  digits_spare (suc fuel) zero y le = refl
  digits_spare (suc fuel) (suc x) y le =
      let half : suc x / 2 ≤ fuel = omega (arith, le) in
      ap (λ t. t * 2 + bit (suc x % 2) (y % 2)) (digits_spare fuel (suc x / 2) (y / 2) half)
  digits_spare zero (suc x) y le = absurd (omega (arith, le))

  digits-bitwise : (fuel x y : ℕ) → x ≤ fuel → digits rest bit fuel x y ≡ bitwise rest bit x y
  digits-bitwise zero zero y le = refl
  digits-bitwise zero (suc x) y le = absurd (omega (arith, le))
  digits-bitwise (suc fuel) x y le = elim (Bool-cases (leb x fuel)) [
    | inl less ↦
        let bound : x ≤ fuel = ground arith in
        digits_spare fuel x y bound ∙ digits-bitwise fuel x y bound
    | inr full ↦
        let same : x ≡ suc fuel = ground arith in ap (λ t. digits rest bit t x y) (sym same)
  ]

  -- The lowest digit apart.
  bitwise-low :
      (x y : ℕ)
      → bitwise rest bit (suc x) y
        ≡ bitwise rest bit (suc x / 2) (y / 2) * 2 + bit (suc x % 2) (y % 2)
  bitwise-low x y =
      ap (λ t. t * 2 + bit (suc x % 2) (y % 2)) (digits-bitwise x (suc x / 2) (y / 2) (omega arith))

bit_or_step : (x y : ℕ) → bit_or x y ≡ bit_or (x / 2) (y / 2) * 2 + max (x % 2) (y % 2)
bit_or_step (suc x) y = simp bit_or-bitwise (bitwise-low (λ t. t) max x y)
bit_or_step zero y = simp bit_or-bitwise (omega arith)

differ_digits : (x y : ℕ) → x < 2 → y < 2 → differ x y ≡ (x + y) % 2
differ_digits zero y p q = omega arith
differ_digits (suc zero) zero p q = refl
differ_digits (suc zero) (suc zero) p q = refl
differ_digits (suc zero) (suc (suc y)) p q = absurd (omega arith)
differ_digits (suc (suc x)) y p q = absurd (omega arith)

bit_xor_step : (a b : ℕ) → bit_xor a b ≡ bit_xor (a / 2) (b / 2) * 2 + (a % 2 + b % 2) % 2
bit_xor_step zero b = simp bit_xor-bitwise (omega arith)
bit_xor_step (suc a) b = simp bit_xor-bitwise (
    bitwise-low (λ y. y) differ a b
    ∙ ap (λ t. bitwise (λ y. y) differ (suc a / 2) (b / 2) * 2 + t)
        (differ_digits (suc a % 2) (b % 2) (omega arith) (omega arith)))

-- Facts below go by the number of digits of both words.
two_pow_suc : (k : ℕ) → 2 ^ suc k ≡ 2 * 2 ^ k
two_pow_suc k = omega (arith, pow-suc 2 k)

bit_or_bounds_digits :
    (k a b : ℕ)
    → a < 2 ^ k
    → b < 2 ^ k
    → (a ≤ bit_or a b) × (bit_or a b ≤ a + b) × (bit_or a b < 2 ^ k)
bit_or_bounds_digits zero zero zero p q = omega (arith, bit_or_step 0 0)
bit_or_bounds_digits zero (suc a) b p q = absurd (omega arith)
bit_or_bounds_digits zero zero (suc b) p q = absurd (omega arith)
bit_or_bounds_digits (suc k) a b p q =
    let e = two_pow_suc k in
    let (x, y, z) = bit_or_bounds_digits k (a / 2) (b / 2) (omega arith) (omega arith) in
    omega (arith, bit_or_step a b)

-- `a | b` of two 16-bit words lies between `a` and `a + b`, and is a 16-bit word.
pub bit_or_bounds :
    (a b : ℕ)
    → a < 65536
    → b < 65536
    → (a ≤ bit_or a b) × (bit_or a b ≤ a + b) × (bit_or a b < 65536)
bit_or_bounds a b = bit_or_bounds_digits 16 a b

bit_xor_ones_digits : (k m : ℕ) → m < 2 ^ k → bit_xor (2 ^ k - 1) m ≡ 2 ^ k - 1 - m
bit_xor_ones_digits zero zero p = refl
bit_xor_ones_digits zero (suc m) p = absurd (omega arith)
bit_xor_ones_digits (suc k) m p =
    let e = two_pow_suc k in
    let one = one-le-pow k 2 in
    let half : (2 ^ suc k - 1) / 2 ≡ 2 ^ k - 1 = omega arith in
    omega (
      arith,
      bit_xor_step (2 ^ suc k - 1) m,
      ap (λ t. bit_xor t (m / 2)) half,
      bit_xor_ones_digits k (m / 2) (omega arith),
    )

-- The complement of a 16-bit word.
pub bit_xor_ones : (m : ℕ) → m < 65536 → bit_xor 0xffff m ≡ 0xffff - m
bit_xor_ones m = bit_xor_ones_digits 16 m

bit_or_complement_digits : (k m : ℕ) → m < 2 ^ k → bit_or (2 ^ k - 1 - m) m ≡ 2 ^ k - 1
bit_or_complement_digits zero zero p = refl
bit_or_complement_digits zero (suc m) p = absurd (omega arith)
bit_or_complement_digits (suc k) m p =
    let e = two_pow_suc k in
    let half : (2 ^ suc k - 1 - m) / 2 ≡ 2 ^ k - 1 - m / 2 = omega arith in
    omega (
      arith,
      bit_or_step (2 ^ suc k - 1 - m) m,
      ap (λ t. bit_or t (m / 2)) half,
      bit_or_complement_digits k (m / 2) (omega arith),
    )

-- A word and its complement cover every bit.
pub bit_or_complement : (m : ℕ) → m < 65536 → bit_or (0xffff - m) m ≡ 0xffff
bit_or_complement m = bit_or_complement_digits 16 m

bit_xor_twice_fuel : (n a b : ℕ) → a ≤ n → b ≤ n → bit_xor (bit_xor a b) b ≡ a
bit_xor_twice_fuel zero zero zero p q = refl
bit_xor_twice_fuel zero (suc a) b p q = absurd (omega arith)
bit_xor_twice_fuel zero zero (suc b) p q = absurd (omega arith)
bit_xor_twice_fuel (suc n) a b p q =
    let x = bit_xor a b in
    let half : x / 2 ≡ bit_xor (a / 2) (b / 2) = omega (arith, bit_xor_step a b) in
    omega (
      arith,
      bit_xor_step a b,
      bit_xor_step x b,
      ap (λ t. bit_xor t (b / 2)) half,
      bit_xor_twice_fuel n (a / 2) (b / 2) (omega arith) (omega arith),
    )

-- Masking by `^` twice gives the word back.
pub bit_xor_twice : (a b : ℕ) → bit_xor (bit_xor a b) b ≡ a
bit_xor_twice a b = bit_xor_twice_fuel (a + b) a b (omega arith) (omega arith)

pub zero-bit_or : (b : ℕ) → bit_or 0 b ≡ b
zero-bit_or b = simp bit_or-bitwise

pub bit_or-zero : (a : ℕ) → a < 65536 → bit_or a 0 ≡ a
bit_or-zero a h = omega (arith, bit_or_bounds a 0)

bit_xor_lt_digits : (k a b : ℕ) → a < 2 ^ k → b < 2 ^ k → bit_xor a b < 2 ^ k
bit_xor_lt_digits zero zero zero p q = omega (arith, bit_xor_step 0 0)
bit_xor_lt_digits zero (suc a) b p q = absurd (omega arith)
bit_xor_lt_digits zero zero (suc b) p q = absurd (omega arith)
bit_xor_lt_digits (suc k) a b p q =
    let e = two_pow_suc k in
    let half = bit_xor_lt_digits k (a / 2) (b / 2) (omega arith) (omega arith) in
    omega (arith, bit_xor_step a b)

-- `a ^ b` of two 64-bit words is a 64-bit word.
pub bit_xor_lt : (a b : ℕ) → a < 2 ^ 64 → b < 2 ^ 64 → bit_xor a b < 2 ^ 64
bit_xor_lt a b = bit_xor_lt_digits 64 a b
