-- ===== src/Delta/Decode/Bytewise.antt =====
-- One group, and open bytes, in the loop of the reference decoder.
use aurora_rl.Base.{
  ℕ, ◌+◌, ◌*◌, ◌%◌, ◌^◌, ◌<◌, ◌≤◌, ◌≡◌, refl, ◌∙◌, ap, List, [], ◌∷◌, ◌++◌, length, set, All, ok,
  err, arith, bit_and, bit_or,
}
use aurora_rl.Base.Bits.{bit_and_high, bit_and_low, bit_or_shifted}
use aurora_rl.Delta.Errors.{too_many_indices}
use aurora_rl.Delta.Groups.{Group, IsOpen, last, more, group_value}
use aurora_rl.Delta.Decode.{Reader, reference_loop}
use native.Mathlib.Numerals.{towards_suc}

shift_seven : (shift : ℕ) → 2 ^ (shift + 7) ≡ 128 * 2 ^ shift
shift_seven shift = simp towards_suc (omega arith)

add_seven_bits :
    (shift d b : ℕ)
    → d < 2 ^ shift
    → bit_or d (bit_and b 0x7F * 2 ^ shift) ≡ d + b % 128 * 2 ^ shift
add_seven_bits shift d b h = rw bit_and_low (bit_or_shifted shift d (b % 128) h)

seven_bits_fit : (shift d b : ℕ) → d < 2 ^ shift → d + b % 128 * 2 ^ shift < 2 ^ (shift + 7)
seven_bits_fit shift d b h = rw shift_seven (grind arith)

-- The number that the loop adds when the group `bs` ends.
abbrev pub next_current : Reader → List ℕ → ℕ
next_current r bs = r.current + (r.diff + group_value bs * 2 ^ r.shift)

abbrev pub stored : Reader → ℕ → Reader
stored r current = record {
  out = set r.out r.out_index current;
  out_index = r.out_index + 1;
  current = current;
  diff = 0;
  shift = 0;
}

abbrev pub continued : Reader → ℕ → Reader
continued r b = record r { diff = r.diff + b % 128 * 2 ^ r.shift; shift = r.shift + 7 }

continued-next_current :
    (r : Reader) (b : ℕ) (bs : List ℕ) → next_current (continued r b) bs ≡ next_current r (b ∷ bs)
continued-next_current r b bs =
    omega (arith, shift_seven r.shift, ap (λ (t : ℕ). group_value bs * t) (shift_seven r.shift))

module _ (n : ℕ) where
  loop_open :
      (b : ℕ) (rest : List ℕ) (r : Reader)
      → 128 ≤ b
      → b < 256
      → r.diff < 2 ^ r.shift
      → reference_loop n (b ∷ rest) r ≡ reference_loop n rest (continued r b)
  unfolding reference_loop
  loop_open b rest r high byte fits =
      ground (arith, add_seven_bits r.shift r.diff b fits, bit_and_high b byte)

  loop_last :
      (b : ℕ) (rest : List ℕ) (r : Reader)
      → b < 128
      → r.diff < 2 ^ r.shift
      → r.out_index < n
      → r.current + (r.diff + b % 128 * 2 ^ r.shift) < 2 ^ 63
      → reference_loop n (b ∷ rest) r
        ≡ reference_loop n rest (stored r (r.current + (r.diff + b % 128 * 2 ^ r.shift)))
  unfolding reference_loop
  loop_last b rest r small fits room sums =
      ground (arith, add_seven_bits r.shift r.diff b fits, bit_and_high b)

  loop_full :
      (b : ℕ) (rest : List ℕ) (r : Reader)
      → b < 128
      → n ≤ r.out_index
      → reference_loop n (b ∷ rest) r ≡ err too_many_indices
  unfolding reference_loop
  loop_full b rest r small full = ground (arith, bit_and_high b)

  pub loop-Group :
      {bs : List ℕ} (h : Group bs) (rest : List ℕ) (r : Reader)
      → r.diff < 2 ^ r.shift
      → r.out_index < n
      → next_current r bs < 2 ^ 63
      → reference_loop n (bs ++ rest) r ≡ reference_loop n rest (stored r (next_current r bs))
  loop-Group (last {b} small) rest r fits room sums =
      ground (arith, loop_last b rest r small fits room)
  loop-Group (more {b} {bs} high byte h) rest r fits room sums =
      loop_open b (bs ++ rest) r high byte fits
      ∙ loop-Group h rest (continued r b) (seven_bits_fit r.shift r.diff b fits) room
          (rw continued-next_current sums)
      ∙ ap (λ t. reference_loop n rest (stored r t)) (continued-next_current r b bs)

  pub full-Group :
      {bs : List ℕ} (h : Group bs) (rest : List ℕ) (r : Reader)
      → r.diff < 2 ^ r.shift
      → n ≤ r.out_index
      → reference_loop n (bs ++ rest) r ≡ err too_many_indices
  full-Group (last {b} small) rest r fits full = loop_full b rest r small full
  full-Group (more {b} {bs} high byte h) rest r fits full =
      loop_open b (bs ++ rest) r high byte fits
      ∙ full-Group h rest (continued r b) (seven_bits_fit r.shift r.diff b fits) full

  -- Open bytes only move the shift.
  pub loop-tail :
      (tail : List ℕ) (r : Reader)
      → All IsOpen tail
      → r.diff < 2 ^ r.shift
      → (r' : Reader) × (reference_loop n tail r ≡ ok r')
        × (r'.shift ≡ r.shift + 7 * length tail)
        × (r'.out ≡ r.out)
        × (r'.out_index ≡ r.out_index)
  loop-tail [] r h fits = (r, unfold reference_loop in refl, omega arith, refl, refl)
  loop-tail (b ∷ tail) r ((high, byte), h) fits =
      let (r', e, shift, out, index) =
        loop-tail tail (continued r b) h (seven_bits_fit r.shift r.diff b fits) in
      (r', loop_open b tail r high byte fits ∙ e, omega arith, out, index)
