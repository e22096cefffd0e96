-- ===== src/Base/Blocks.antt =====
-- Numbers as a block and a place in it.
use Prim.Native.Nat.{ℕ, ◌+◌, ◌*◌, ◌%◌, ◌<◌, ◌≤◌}
use mathlib.Core.Path.{◌≡◌, ◌∙◌}
use native.Mathlib.Omega.{arith}
use native.Mathlib.Nat.{mul-add-mod_self_right, mod-eq_of_lt}

-- A number is its block and its place there.
pub place_unique : (q b r : ℕ) → r < b → (q * b + r) % b ≡ r
place_unique q b r h = mul-add-mod_self_right q b r ∙ mod-eq_of_lt h

pub rows-le : (a b w : ℕ) → a ≤ b → a * w ≤ b * w
rows-le a b w h = grind arith
