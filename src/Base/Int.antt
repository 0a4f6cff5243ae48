-- ===== src/Base/Int.antt =====
-- Python's signed integers, as far as the program compares them with a bound.
use Prim.Native.Nat.{ℕ, ◌≤◌}
use mathlib.Core.Path.{◌≡◌}
use mathlib.Core.Bool.{Bool, true, false}
use native.Mathlib.Omega.{arith}
use order_run_be.Base.Tests.{ltb}

-- `negsuc n` is -(n + 1).
pub data ℤ : Type 0 where
  pos : ℕ → ℤ
  negsuc : ℕ → ℤ

-- `a < k` for a bound k that is not negative.
abbrev pub ltb_ℤ : ℤ → ℕ → Bool
ltb_ℤ (pos n) k = ltb n k
ltb_ℤ (negsuc n) k = true

-- `k <= a` as a statement.
abbrev pub AtLeast : ℕ → ℤ → Type 0
AtLeast k (pos n) = k ≤ n
AtLeast k (negsuc n) = ⊥

pub ltb_ℤ→AtLeast : (a : ℤ) (k : ℕ) → ltb_ℤ a k ≡ false → AtLeast k a
ltb_ℤ→AtLeast (pos n) k h = ground arith
ltb_ℤ→AtLeast (negsuc n) k h = cc
