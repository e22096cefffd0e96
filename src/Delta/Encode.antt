-- ===== src/Delta/Encode.antt =====
-- utils/delta.py: the delta and varint encoding of sorted index lists. A byte array is a list of
-- numbers below 256, an int64 array a list of bit patterns.
pub mod Bytes
use aurora_rl.Base.{
  ℕ, ◌+◌, ◌-◌, ◌*◌, ◌/◌, ◌%◌, ◌^◌, ◌<◌, ◌≤◌, bit_and, bit_or, List, [], ◌∷◌, set, ltb,
  if◌then◌else◌, Result, ok, err, ◌>>=◌, is_negative, lt_wf, arith,
}
use aurora_rl.Delta.Errors.{DeltaError, negative_index, unsorted_indices}
use mathlib.Core.Logic.{dite}
use mathlib.Core.WellFounded.{Acc}
use native.Mathlib.Decide.{dec_le}

pub seven_bits_less : (diff : ℕ) → 128 ≤ diff → diff / 128 < diff
seven_bits_less diff h = omega arith

-- `while diff >= 0x80: diff >>= 7; encoded_size += 1`
unfoldable pub size_loop : (diff : ℕ) → Acc ◌<◌ diff → ℕ → ℕ
size_loop diff (Acc.intro _ below) size =
    dite (dec_le 0x80 diff)
      (λ more. size_loop (diff / 2 ^ 7) (below (diff / 128) (seven_bits_less diff more)) (size + 1))
      (λ _. size)

-- The first pass: the checks, and the size of the output.
unfoldable pub size_pass : List ℕ → ℕ → ℕ → Result DeltaError ℕ
size_pass [] previous encoded_size = ok encoded_size
size_pass (current ∷ rest) previous encoded_size =
    if is_negative current
    then err negative_index
    else if ltb current previous
    then err unsorted_indices
    else size_pass rest current
        (size_loop (current - previous) (lt_wf.apply (current - previous)) (encoded_size + 1))

-- The bytes of one difference are stored from `output_index` on. Returns the array and the next index.
unfoldable pub write_loop : List ℕ → ℕ → (diff : ℕ) → Acc ◌<◌ diff → List ℕ × ℕ
write_loop encoded output_index diff (Acc.intro _ below) =
    dite (dec_le 0x80 diff)
      (λ more.
        write_loop (set encoded output_index (bit_or (bit_and diff 0x7F) 0x80)) (output_index + 1)
          (diff / 2 ^ 7) (below (diff / 128) (seven_bits_less diff more)))
      (λ _. (set encoded output_index (diff % 256), output_index + 1))

-- The second pass.
unfoldable pub write_pass : List ℕ → ℕ → List ℕ → ℕ → List ℕ
write_pass [] previous encoded output_index = encoded
write_pass (current ∷ rest) previous encoded output_index =
    let (encoded', output_index') =
      write_loop encoded output_index (current - previous) (lt_wf.apply (current - previous)) in
    write_pass rest current encoded' output_index'

-- `empty n` is what a new array of `n` places holds: `np.empty`, `torch.empty`.
module _ (empty : ℕ → List ℕ) where
  unfoldable pub encode_varint_delta_indices_numba : List ℕ → Result DeltaError (List ℕ)
  encode_varint_delta_indices_numba indices = do
    encoded_size ← size_pass indices 0 0
    ok (write_pass indices 0 (empty encoded_size) 0)

  unfoldable pub encode_varint_delta_indices : List ℕ → Result DeltaError (List ℕ)
  encode_varint_delta_indices [] = ok []
  encode_varint_delta_indices (x ∷ xs) = encode_varint_delta_indices_numba (x ∷ xs)
