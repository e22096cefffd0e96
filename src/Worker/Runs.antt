-- ===== src/Worker/Runs.antt =====
-- Concrete runs of the worker's update, over bytes that wrap around.
use aurora_rl.Base.{◌≡◌, refl, true, false, [], ◌∷◌, ok, err}
use aurora_rl.Delta.Errors.{unsorted_indices}
use aurora_rl.Sparse.{gather, scatter}
use aurora_rl.Delta.Indices.{int64, same_count, decode_sparse_indices}
use aurora_rl.Delta.Values.{
  same_dtype, zip_with, numel, any_negative, any_beyond, scaled, add_values,
  reconstruct_sparse_delta_tensor,
}
use aurora_rl.Delta.Values.Runs.{byte_arithmetic}
use aurora_rl.Layout.Adapter.{strictly_increasing}
use aurora_rl.Worker.{
  first_is, last_is, indices_cover_flat_tensor, add_in_place, apply_decoded_sparse_delta_tensor,
  apply_sparse_delta_tensor,
}
use aurora_rl.Worker.Fast.{apply-reconstruct}

full_run :
    apply_sparse_delta_tensor byte_arithmetic true
      (1 ∷ 2 ∷ 3 ∷ [])
      (int64 (0 ∷ 1 ∷ 2 ∷ []))
      (same_dtype (5 ∷ 6 ∷ 255 ∷ []))
      1
    ≡ ok (6 ∷ 8 ∷ 2 ∷ [], true)
unfolding first_is last_is indices_cover_flat_tensor add_in_place apply_decoded_sparse_delta_tensor
    apply_sparse_delta_tensor same_count decode_sparse_indices zip_with numel any_negative
    any_beyond scaled strictly_increasing
full_run = refl

part_run :
    apply_sparse_delta_tensor byte_arithmetic true
      (1 ∷ 2 ∷ 3 ∷ [])
      (int64 (2 ∷ []))
      (same_dtype (255 ∷ []))
      1
    ≡ ok (1 ∷ 2 ∷ 2 ∷ [], false)
unfolding first_is last_is indices_cover_flat_tensor add_in_place apply_decoded_sparse_delta_tensor
    apply_sparse_delta_tensor same_count decode_sparse_indices zip_with numel any_negative
    any_beyond scaled strictly_increasing add_values gather scatter
part_run = refl

unsorted_run :
    apply_sparse_delta_tensor byte_arithmetic true
      (1 ∷ 2 ∷ 3 ∷ [])
      (int64 (2 ∷ 1 ∷ []))
      (same_dtype (4 ∷ 5 ∷ []))
      1
    ≡ err unsorted_indices
unfolding apply_decoded_sparse_delta_tensor apply_sparse_delta_tensor same_count
    decode_sparse_indices numel any_negative any_beyond strictly_increasing
unsorted_run = refl

apply-reconstruct_example :
    reconstruct_sparse_delta_tensor byte_arithmetic
      (1 ∷ 2 ∷ 3 ∷ [])
      (int64 (0 ∷ 1 ∷ 2 ∷ []))
      (same_dtype (5 ∷ 6 ∷ 255 ∷ []))
      1
    ≡ ok (6 ∷ 8 ∷ 2 ∷ [])
apply-reconstruct_example =
    apply-reconstruct byte_arithmetic (1 ∷ 2 ∷ 3 ∷ []) true (same_dtype (5 ∷ 6 ∷ 255 ∷ [])) 1
      (6 ∷ 8 ∷ 2 ∷ []) true (int64 (0 ∷ 1 ∷ 2 ∷ [])) full_run
