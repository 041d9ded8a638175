-- ===== src/Base/Ints.antt =====
-- Signed numbers over the native ones, under the library's names.
use Prim.Native.Nat.{ℕ}
use mathlib.Core.Path.{◌≡◌, ap}
use mathlib.Core.Bool.{Bool, true, false}
use native.Mathlib.Omega.{arith}
use huicpp.Base.Tests.{◌==◌, ltb}

pub data ℤ : Type 0 where
  pos : ℕ → ℤ
  negsuc : ℕ → ℤ

unfoldable pub eqz : ℤ → ℤ → Bool
eqz (pos a) (pos b) = a == b
eqz (negsuc a) (negsuc b) = a == b
eqz (pos a) (negsuc b) = false
eqz (negsuc a) (pos b) = false

-- More than 0.
unfoldable pub is_positive : ℤ → Bool
is_positive (pos a) = ltb 0 a
is_positive (negsuc a) = false

pub eqz_refl : (a : ℤ) → eqz a a ≡ true
unfolding eqz
eqz_refl (pos a) = ground arith
eqz_refl (negsuc a) = ground arith

pub eqz→≡ : (a b : ℤ) → eqz a b ≡ true → a ≡ b
unfolding eqz
eqz→≡ (pos a) (pos b) h = ap pos (ground arith)
eqz→≡ (negsuc a) (negsuc b) h = ap negsuc (ground arith)
eqz→≡ (pos a) (negsuc b) h = ground arith
eqz→≡ (negsuc a) (pos b) h = ground arith
