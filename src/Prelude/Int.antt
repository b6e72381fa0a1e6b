-- ===== src/Prelude/Int.antt =====
-- C's `int`, as an integer over the native numbers, under the library's names.
use Prim.Native.Nat.{ℕ, ◌-◌}
use mathlib.Core.Path.{◌≡◌}
use mathlib.Core.Bool.{Bool, true, false}
use mathlib.Core.Logic.{◌↔◌}
use native.Mathlib.Omega.{arith}
use kfs.Prelude.Tests.{ltb, ◌==◌, if◌then◌else◌}

-- `negsuc n` is -(n + 1).
pub data ℤ : Type 0 where
  pos : ℕ → ℤ
  negsuc : ℕ → ℤ

-- The value -1 that failing functions return.
abbrev pub minus_one : ℤ
minus_one = negsuc 0

infix 50 ◌=ℤ=◌
abbrev pub ◌=ℤ=◌ : ℤ → ℤ → Bool
pos m =ℤ= pos n = m == n
negsuc m =ℤ= negsuc n = m == n
pos m =ℤ= negsuc n = false
negsuc m =ℤ= pos n = false

=ℤ=_iff : (a b : ℤ) → ((a =ℤ= b) ≡ true) ↔ (a ≡ b)
=ℤ=_iff a b = ground arith

-- The cast of a `uint32_t` to `int`.
abbrev pub to_int : ℕ → ℤ
to_int n = if ltb n 0x80000000 then pos n else negsuc (0xffffffff - n)
