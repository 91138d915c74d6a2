-- ===== src/Base/Floats.antt =====
-- The float64 operations that the engine uses. Their values are left open; the two laws hold of
-- the order of IEEE 754, with NaN, which is below nothing and above nothing.
use mathlib.Core.Path.{◌≡◌}
use mathlib.Core.Bool.{Bool, true, false}
use remote_runtime_engine.Base.Int.{ℤ}
use remote_runtime_engine.Base.Strings.{Text}

pub record Float (F : Type 0) : Type 0 where
  pub zero_f : F
  pub of_int : ℤ → F
  pub to_int : F → ℤ
  pub add : F → F → F
  pub mul : F → F → F
  pub div : F → F → F
  pub lt : F → F → Bool
  pub le : F → F → Bool
  pub two_decimals : F → Text
  pub lt_irrefl : (a : F) → lt a a ≡ false
  pub lt_trans : (a b c : F) → lt a b ≡ true → lt b c ≡ true → lt a c ≡ true
