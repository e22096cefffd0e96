-- ===== src/Delta/Indices.antt =====
-- utils/delta.py: `encode_sparse_indices` and `decode_sparse_indices`, over both index encodings.
pub mod RoundTrip
mod Runs
use aurora_rl.Base.{
  ℕ, ◌+◌, ◌-◌, ◌%◌, ◌^◌, Bool, true, false, ◌&&◌, ◌||◌, not, List, [], ◌∷◌, map, length, ltb, ◌==◌,
  if◌then◌else◌, Result, ok, err, ◌>>=◌, is_negative,
}
use aurora_rl.Delta.Errors.{
  DeltaError, unsupported_encoding, unsupported_index_dtype, not_uint8, length_mismatch,
}
use aurora_rl.Delta.Encode.{encode_varint_delta_indices}
use aurora_rl.Delta.Decode.{decode_varint_delta_indices}

-- The `encoding` argument.
pub data IndexEncoding : Type 0 where
  optimized naive other_encoding : IndexEncoding

-- A flat integer tensor by its dtype; the elements are bit patterns.
pub data IndexTensor : Type 0 where
  uint8 int32 int64 other_dtype : List ℕ → IndexTensor

-- `int(indices.max().item()) < 2**31`, over signed numbers.
unfoldable pub max_below_int32 : List ℕ → Bool
max_below_int32 [] = true
max_below_int32 (x ∷ xs) = (is_negative x || ltb x (2 ^ 31)) && max_below_int32 xs

-- `.to(torch.int32)` from int64, and back.
abbrev pub to_int32 : ℕ → ℕ
to_int32 x = x % 2 ^ 32

abbrev pub from_int32 : ℕ → ℕ
from_int32 x = if ltb x (2 ^ 31) then x else (x + 2 ^ 64 - 2 ^ 32)

unfoldable pub encode_sparse_indices :
    (ℕ → List ℕ) → List ℕ → IndexEncoding → Result DeltaError IndexTensor
encode_sparse_indices empty indices optimized = do
  encoded ← encode_varint_delta_indices empty indices
  ok (uint8 encoded)
encode_sparse_indices empty [] naive = ok (int32 [])
encode_sparse_indices empty (x ∷ xs) naive =
    if max_below_int32 (x ∷ xs) then ok (int32 (map to_int32 (x ∷ xs))) else ok (int64 (x ∷ xs))
encode_sparse_indices empty indices other_encoding = err unsupported_encoding

-- The check at the end of the raw formats.
unfoldable pub same_count : List ℕ → ℕ → Result DeltaError (List ℕ)
same_count indices value_count =
    if not (length indices == value_count) then err length_mismatch else ok indices

unfoldable pub decode_sparse_indices : IndexTensor → ℕ → Result DeltaError (List ℕ)
unfolding same_count
decode_sparse_indices (uint8 index_bytes) value_count =
    decode_varint_delta_indices index_bytes value_count
decode_sparse_indices (int32 xs) value_count = same_count (map from_int32 xs) value_count
decode_sparse_indices (int64 xs) value_count = same_count xs value_count
decode_sparse_indices (other_dtype xs) value_count = err unsupported_index_dtype
