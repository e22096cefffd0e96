-- ===== src/Base/Words.antt =====
-- Machine integers as bit patterns: an int64 is a number below 2 ^ 64, and is negative from
-- 2 ^ 63 on. Recursion on a number that falls.
use Prim.Native.Nat.{ℕ, zero, suc, ◌+◌, ◌%◌, ◌^◌, ◌<◌}
use mathlib.Core.Bool.{Bool}
use mathlib.Core.WellFounded.{Acc, WellFounded}
use native.Mathlib.Omega.{arith}
use aurora_rl.Base.Tests.{leb}

abbrev pub IsByte : ℕ → Type 0
IsByte b = b < 256

abbrev pub IsInt64 : ℕ → Type 0
IsInt64 x = x < 2 ^ 64

-- A pattern that stands for a number from 0 on.
abbrev pub IsNonNegative : ℕ → Type 0
IsNonNegative x = x < 2 ^ 63

abbrev pub is_negative : ℕ → Bool
is_negative x = leb (2 ^ 63) x

abbrev pub wrap64 : ℕ → ℕ
wrap64 x = x % 2 ^ 64

below-Acc : (bound n : ℕ) → n < bound → Acc ◌<◌ n
below-Acc zero n h = absurd (omega arith)
below-Acc (suc bound) n h = Acc.intro n (λ m lt. below-Acc bound m (omega arith))

unfoldable pub lt_wf : WellFounded ◌<◌
unfolding below-Acc
lt_wf = record { apply = λ n. below-Acc (n + 1) n (omega arith) }
