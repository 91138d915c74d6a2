-- ===== src/Base/Int.antt =====
-- Signed integers over the native numbers, and the int64 arithmetic of Go with its wrap-around.
use Prim.Native.Nat.{ℕ, zero, suc, ◌+◌, ◌-◌, ◌*◌, ◌%◌, ◌^◌, ◌≤◌, ◌<◌}
use mathlib.Core.Path.{◌≡◌}
use mathlib.Core.Bool.{Bool}
use native.Mathlib.Omega.{arith}
use remote_runtime_engine.Base.Tests.{ltb, leb, ◌==◌, if◌then◌else◌}

-- `negsuc n` is -(n + 1).
pub data ℤ : Type 0 where
  pos : ℕ → ℤ
  negsuc : ℕ → ℤ

abbrev pub pos_part : ℤ → ℕ
pos_part (pos n) = n
pos_part (negsuc n) = 0

abbrev pub neg_part : ℤ → ℕ
neg_part (pos n) = 0
neg_part (negsuc n) = suc n

infix 50 ◌≤ℤ◌
abbrev pub ◌≤ℤ◌ : ℤ → ℤ → Type 0
a ≤ℤ b = pos_part a + neg_part b ≤ pos_part b + neg_part a

abbrev pub ltb_ℤ : ℤ → ℤ → Bool
ltb_ℤ a b = ltb (pos_part a + neg_part b) (pos_part b + neg_part a)

abbrev pub leb_ℤ : ℤ → ℤ → Bool
leb_ℤ a b = leb (pos_part a + neg_part b) (pos_part b + neg_part a)

abbrev pub eqb_ℤ : ℤ → ℤ → Bool
eqb_ℤ a b = pos_part a + neg_part b == pos_part b + neg_part a

-- An integer reduced to the int64 range, as two's complement does.
abbrev pub wrap64 : ℤ → ℤ
wrap64 (pos n) = let m = n % 2 ^ 64 in if ltb m (2 ^ 63) then pos m else negsuc (2 ^ 64 - 1 - m)
wrap64 (negsuc n) = let m = n % 2 ^ 64 in if ltb m (2 ^ 63) then negsuc m else pos (2 ^ 64 - 1 - m)

-- `a * k` of int64, for a constant k that is not negative.
abbrev pub mul64 : ℤ → ℕ → ℤ
mul64 (pos n) k = wrap64 (pos (n * k))
mul64 (negsuc n) zero = pos 0
mul64 (negsuc n) (suc k) = wrap64 (negsuc (suc n * suc k - 1))

pub mul64_small : (n k : ℕ) → n * k < 2 ^ 63 → mul64 (pos n) k ≡ pos (n * k)
mul64_small n k h = ground arith

-- `a + n` of int64, for a number n that is not negative.
abbrev pub add64 : ℤ → ℕ → ℤ
add64 (pos a) n = wrap64 (pos (a + n))
add64 (negsuc a) n = if ltb a n then wrap64 (pos (n - a - 1)) else negsuc (a - n)

pub add64_small : (a n : ℕ) → a + n < 2 ^ 63 → add64 (pos a) n ≡ pos (a + n)
add64_small a n h = ground arith
