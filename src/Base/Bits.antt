-- ===== src/Base/Bits.antt =====
-- Masks and shifts as arithmetic. On a byte a law is a table; `|` with a shifted group goes by
-- recursion on the shift, one binary digit at a time.
use Prim.Native.Nat.{ℕ, zero, suc, ◌+◌, ◌*◌, ◌/◌, ◌%◌, ◌^◌, ◌≤◌, ◌<◌, min, max, bit_and, bit_or}
use Prim.Native.Nat.{digits, bit_and-bitwise, bit_or-bitwise}
use mathlib.Core.Path.{◌≡◌, refl, ap, sym, ◌∙◌}
use mathlib.Core.Bool.{Bool, true, ◌&&◌}
use native.Mathlib.Omega.{arith}
use native.Mathlib.Nat.{pow-suc, div-add-mod', mul-add-mod_self_right, mod-eq_of_lt, mod-lt}
use aurora_rl.Base.Tests.{◌==◌, ==→eq}

-- A table: the test holds of every number below the bound.
holds_below : (ℕ → Bool) → ℕ → Bool
holds_below test zero = true
holds_below test (suc n) = holds_below test n && test n

holds_below→holds : (test : ℕ → Bool) (n x : ℕ) → holds_below test n ≡ true → x < n → test x ≡ true
unfolding holds_below
holds_below→holds test zero x all lt = absurd (omega arith)
holds_below→holds test (suc n) x all lt = ground (arith, holds_below→holds test n x)

high_bit_table : holds_below (λ b. bit_and b 0x80 == b / 128 * 128) 256 ≡ true
unfolding holds_below
high_bit_table = refl

pub bit_and_high : (b : ℕ) → b < 256 → bit_and b 0x80 ≡ b / 128 * 128
bit_and_high b h = ==→eq _ _ (holds_below→holds _ 256 b high_bit_table h)

marked_table : holds_below (λ g. bit_or g 0x80 == g + 128) 128 ≡ true
unfolding holds_below
marked_table = refl

pub bit_or_high : (g : ℕ) → g < 128 → bit_or g 0x80 ≡ g + 128
bit_or_high g h = ==→eq _ _ (holds_below→holds _ 128 g marked_table h)

module _ (z : ℕ → ℕ) (f : ℕ → ℕ → ℕ) where
  -- Fuel beyond the first number changes nothing.
  more_fuel : (a b m n : ℕ) → a ≤ m → a ≤ n → digits z f m a b ≡ digits z f n a b
  more_fuel zero b zero zero hm hn = refl
  more_fuel zero b zero (suc n) hm hn = refl
  more_fuel zero b (suc m) zero hm hn = refl
  more_fuel zero b (suc m) (suc n) hm hn = refl
  more_fuel (suc a) b zero n hm hn = absurd (omega arith)
  more_fuel (suc a) b (suc m) zero hm hn = absurd (omega arith)
  more_fuel (suc a) b (suc m) (suc n) hm hn =
      ap (λ t. t * 2 + f (suc a % 2) (b % 2))
        (more_fuel (suc a / 2) (b / 2) m n (omega arith) (omega arith))

and_step : (a b : ℕ) → bit_and a b ≡ bit_and (a / 2) (b / 2) * 2 + min (a % 2) (b % 2)
and_step zero b = omega (arith, bit_and-bitwise 0 b, bit_and-bitwise 0 (b / 2))
and_step (suc a) b = omega (
  arith,
  bit_and-bitwise (suc a) b,
  bit_and-bitwise (suc a / 2) (b / 2),
  more_fuel (λ y. 0) min (suc a / 2) (b / 2) a (suc a / 2) (omega arith) (omega arith),
)

or_step : (a b : ℕ) → bit_or a b ≡ bit_or (a / 2) (b / 2) * 2 + max (a % 2) (b % 2)
or_step zero b = omega (arith, bit_or-bitwise 0 b, bit_or-bitwise 0 (b / 2))
or_step (suc a) b = omega (
  arith,
  bit_or-bitwise (suc a) b,
  bit_or-bitwise (suc a / 2) (b / 2),
  more_fuel (λ y. y) max (suc a / 2) (b / 2) a (suc a / 2) (omega arith) (omega arith),
)

-- Below the mask nothing is left after as many halvings as the mask has digits.
and_zero : (n a : ℕ) → a ≤ n → bit_and a 0 ≡ 0
and_zero zero zero h = refl
and_zero zero (suc a) h = absurd (omega arith)
and_zero (suc n) zero h = refl
and_zero (suc n) (suc a) h = omega (arith, and_step (suc a) 0, and_zero n (suc a / 2) (omega arith))

-- One more digit of ones in the mask is one more factor of two in the remainder.
mask_step :
    (d m r : ℕ) → 0 < r → bit_and (d / 2) m ≡ d / 2 % r → bit_and d (m * 2 + 1) ≡ d % (r * 2)
mask_step d m r pos h =
    let inner : bit_and d (m * 2 + 1) ≡ d / 2 % r * 2 + d % 2 =
      omega (arith, and_step d (m * 2 + 1), low) in
    inner ∙ sym place
  where
    low : bit_and (d / 2) ((m * 2 + 1) / 2) ≡ d / 2 % r
    low = let half : (m * 2 + 1) / 2 ≡ m = omega arith in rw half h

    place : d % (r * 2) ≡ d / 2 % r * 2 + d % 2
    place =
        let q : ℕ = d / 2 / r in
        let whole : d ≡ q * (r * 2) + (d / 2 % r * 2 + d % 2) =
          omega (arith, div-add-mod' (d / 2) r) in
        ap (λ t. t % (r * 2)) whole
        ∙ mul-add-mod_self_right q (r * 2) (d / 2 % r * 2 + d % 2)
        ∙ mod-eq_of_lt (omega (arith, mod-lt (d / 2) pos))

no_mask : (d : ℕ) → bit_and d 0 ≡ d % 1
no_mask d = omega (arith, and_zero d d (omega arith))

mask : ℕ → ℕ
mask zero = 0
mask (suc k) = mask k * 2 + 1

two_pow_pos : (k : ℕ) → 0 < 2 ^ k
two_pow_pos zero = omega arith
two_pow_pos (suc k) = omega (arith, pow-suc 2 k, two_pow_pos k)

bit_and-mask : (k d : ℕ) → bit_and d (mask k) ≡ d % 2 ^ k
unfolding mask
bit_and-mask zero d = no_mask d
bit_and-mask (suc k) d =
    rw (pow-suc 2 k) (mask_step d (mask k) (2 ^ k) (two_pow_pos k) (bit_and-mask k (d / 2)))

-- `d & 0x7F` is the remainder by 128, for `d` of any width.
pub bit_and_low : (d : ℕ) → bit_and d 0x7f ≡ d % 128
unfolding mask
bit_and_low d = bit_and-mask 7 d

-- `d |= g << s` is a sum where `d` fits `s` bits.
pub bit_or_shifted : (s d g : ℕ) → d < 2 ^ s → bit_or d (g * 2 ^ s) ≡ d + g * 2 ^ s
bit_or_shifted zero d g h =
    let d_zero : d ≡ 0 = omega arith in rw d_zero (omega (arith, bit_or-bitwise 0 (g * 1)))
bit_or_shifted (suc s) d g h = ground (
  arith,
  or_step d (g * 2 ^ suc s),
  pow-suc 2 s,
  ap (λ (t : ℕ). g * t) (pow-suc 2 s),
  bit_or_shifted s (d / 2) g (omega (arith, pow-suc 2 s)),
)
