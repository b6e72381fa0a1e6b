-- ===== src/Prelude/Bits.antt =====
-- `bit_or` of a multiple of a power of two and a smaller number is their sum.
use Prim.Native.Nat.{
  ℕ, zero, suc, ◌+◌, ◌*◌, ◌/◌, ◌%◌, ◌≤◌, ◌<◌, max, bit_or, digits, bit_or-bitwise,
}
use mathlib.Core.Path.{◌≡◌, refl, ap, sym, ◌∙◌}
use native.Mathlib.Omega.{arith}

abbrev or_digits : ℕ → ℕ → ℕ → ℕ
or_digits n a b = digits (λ b. b) max n a b

or_digits_fuel : (n m a b : ℕ) → a ≤ n → a ≤ m → or_digits n a b ≡ or_digits m a b
or_digits_fuel zero zero a b p q = refl
or_digits_fuel zero (suc m) zero b p q = refl
or_digits_fuel zero (suc m) (suc a) b p q = absurd (omega arith)
or_digits_fuel (suc n) zero zero b p q = refl
or_digits_fuel (suc n) zero (suc a) b p q = absurd (omega arith)
or_digits_fuel (suc n) (suc m) zero b p q = refl
or_digits_fuel (suc n) (suc m) (suc a) b p q =
    omega (arith, or_digits_fuel n m (suc a / 2) (b / 2) (omega arith) (omega arith))

zero-bit_or : (b : ℕ) → bit_or 0 b ≡ b
zero-bit_or b = bit_or-bitwise 0 b

bit_or_step : (a b : ℕ) → bit_or a b ≡ bit_or (a / 2) (b / 2) * 2 + max (a % 2) (b % 2)
bit_or_step zero b = omega (arith, zero-bit_or b, zero-bit_or (b / 2))
bit_or_step (suc a) b = omega (
  arith,
  bit_or-bitwise (suc a) b,
  bit_or-bitwise (suc a / 2) (b / 2),
  or_digits_fuel a (suc a / 2) (suc a / 2) (b / 2) (omega arith) (omega arith),
)

bit_or-zero_fuel : (n a : ℕ) → a ≤ n → bit_or a 0 ≡ a
bit_or-zero_fuel n zero h = refl
bit_or-zero_fuel zero (suc a) h = absurd (omega arith)
bit_or-zero_fuel (suc n) (suc a) h =
    omega (arith, bit_or_step (suc a) 0, bit_or-zero_fuel n (suc a / 2) (omega arith))

-- Shifted left by `n` bits.
abbrev shifted : ℕ → ℕ → ℕ
shifted zero a = a
shifted (suc n) a = 2 * shifted n a

bit_or-shifted : (n a b : ℕ) → b < shifted n 1 → bit_or (shifted n a) b ≡ shifted n a + b
bit_or-shifted zero a b h =
    let z : b ≡ 0 = omega arith in rw z (bit_or-zero_fuel a a (omega arith) ∙ omega arith)
bit_or-shifted (suc n) a b h = omega (
  arith,
  bit_or_step (2 * shifted n a) b,
  ap (λ k. bit_or k (b / 2)) half,
  bit_or-shifted n a (b / 2) (omega arith),
)
  where
    half : 2 * shifted n a / 2 ≡ shifted n a
    half = omega arith

pub bit_or-page : (a b : ℕ) → a % 4096 ≡ 0 → b < 4096 → bit_or a b ≡ a + b
bit_or-page a b h l =
    let e : shifted 12 (a / 4096) ≡ a = omega arith in
    ap (λ k. bit_or k b) (sym e)
    ∙ (bit_or-shifted 12 (a / 4096) b (omega arith) ∙ ap (λ k. k + b) e)
