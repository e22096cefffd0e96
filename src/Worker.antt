-- ===== src/Worker.antt =====
-- inference/vllm/worker/weight_transfer.py: one sparse update, applied to a parameter in place.
-- The parameter's elements are passed on; the flag says whether all of them were updated.
pub mod Fast
mod Runs
use aurora_rl.Base.{
  ℕ, ◌-◌, Bool, true, false, ◌&&◌, ◌||◌, not, List, [], ◌∷◌, length, ltb, ◌==◌, if◌then◌else◌,
  Result, ok, err, ◌>>=◌, ◌>>◌, check,
}
use aurora_rl.Delta.Errors.{
  DeltaError, index_out_of_range, length_mismatch, not_contiguous, unsorted_indices,
}
use aurora_rl.Delta.Indices.{IndexTensor, decode_sparse_indices}
use aurora_rl.Delta.Values.{
  Arithmetic, Values, same_dtype, wide_dtype, zip_with, numel, any_negative, any_beyond, scaled,
  add_values,
}
use aurora_rl.Layout.Adapter.{strictly_increasing}

unfoldable pub last_is : ℕ → List ℕ → Bool
last_is n [] = false
last_is n (i ∷ []) = i == n
last_is n (i ∷ j ∷ is) = last_is n (j ∷ is)

unfoldable pub first_is : ℕ → List ℕ → Bool
first_is n [] = false
first_is n (i ∷ is) = i == n

unfoldable pub indices_cover_flat_tensor : List ℕ → ℕ → Bool
indices_cover_flat_tensor indices flat_numel =
    length indices == flat_numel
    && ltb 0 flat_numel
    && first_is 0 indices
    && last_is (flat_numel - 1) indices

module _ (A : Arithmetic) where
  -- The two ways to add: all elements at once, or those at the indices.
  unfoldable pub add_in_place : Bool → List A.Element → List ℕ → Values A → List A.Element
  add_in_place true flat indices (same_dtype ws) = zip_with A.plus flat ws
  add_in_place _ flat indices values = add_values A flat indices values

  unfoldable pub apply_decoded_sparse_delta_tensor :
      Bool
      → List A.Element
      → List ℕ
      → Values A
      → A.Scale
      → Result DeltaError (List A.Element × Bool)
  apply_decoded_sparse_delta_tensor is_contiguous flat [] values scale_factor = do
    check is_contiguous not_contiguous
    check (0 == numel A values) length_mismatch
    ok (flat, false)
  apply_decoded_sparse_delta_tensor is_contiguous flat (i ∷ is) values scale_factor = do
    check is_contiguous not_contiguous
    check (length (i ∷ is) == numel A values) length_mismatch
    check (not (any_negative (i ∷ is) || any_beyond (length flat) (i ∷ is))) index_out_of_range
    check (strictly_increasing (i ∷ is)) unsorted_indices
    let full_tensor = indices_cover_flat_tensor (i ∷ is) (length flat)
    ok (add_in_place full_tensor flat (i ∷ is) (scaled A scale_factor values), full_tensor)

  unfoldable pub apply_sparse_delta_tensor :
      Bool
      → List A.Element
      → IndexTensor
      → Values A
      → A.Scale
      → Result DeltaError (List A.Element × Bool)
  apply_sparse_delta_tensor is_contiguous flat encoded_indices values scale_factor = do
    indices ← decode_sparse_indices encoded_indices (numel A values)
    apply_decoded_sparse_delta_tensor is_contiguous flat indices values scale_factor
