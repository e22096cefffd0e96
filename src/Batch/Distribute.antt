-- ===== src/Batch/Distribute.antt =====
-- `prepare_batch`.
pub mod Strided
pub mod Modality
use aurora_rl.Base.{
  ℕ, zero, suc, ◌+◌, ◌%◌, Bool, true, false, not, List, [], ◌∷◌, ◌++◌, length, replicate,
  if◌then◌else◌, Result, ok, err, ◌>>=◌, ◌>>◌, check, ◌==◌, ltb,
}
use aurora_rl.Batch.Types.{
  BatchError, assertion, zero_division, TrainingSample, MicroBatch, is_multimodal_sample,
}
use aurora_rl.Batch.Prepare.{prepare_sample}
use aurora_rl.Batch.Pack.{Sample, packed_samples_into_micro_bs}
use aurora_rl.Batch.Pad.{pad_micro_batch, pad_group_for_distribution}

-- The first exception ends the comprehension.
unfoldable pub map_all {ℓ κ} :
    {A : Type ℓ} {B : Type κ} → (A → Result BatchError B) → List A → Result BatchError (List B)
map_all f [] = ok []
map_all f (x ∷ xs) = f x >>= λ y. map_all f xs >>= λ ys. ok (y ∷ ys)

-- `zip(idxs, rollouts)`
unfoldable pub zip {ℓ κ} : {A : Type ℓ} {B : Type κ} → List A → List B → List (A × B)
zip [] ys = []
zip (x ∷ xs) [] = []
zip (x ∷ xs) (y ∷ ys) = (x, y) ∷ zip xs ys

unfoldable pub keep : (MicroBatch → Bool) → List MicroBatch → List MicroBatch
keep p [] = []
keep p (b ∷ batches) = let rest = keep p batches in if p b then b ∷ rest else rest

-- `batches_per_gpu[r].append(batch)`
unfoldable pub append_to {ℓ} : {A : Type ℓ} → ℕ → A → List (List A) → List (List A)
append_to r a [] = []
append_to zero a (row ∷ grid) = (row ++ a ∷ []) ∷ grid
append_to (suc r) a (row ∷ grid) = row ∷ append_to r a grid

-- The loop over the batches from the i-th on.
unfoldable pub distribute {ℓ} : {A : Type ℓ} → ℕ → ℕ → List A → List (List A) → List (List A)
unfolding append_to
distribute num_train_workers i [] grid = grid
distribute num_train_workers i (a ∷ ordered) grid =
    distribute num_train_workers (i + 1) ordered (append_to (i % num_train_workers) a grid)

-- The multimodal batches, then those of text only, each group padded.
unfoldable pub order_batches : ℕ → List MicroBatch → List MicroBatch
unfolding keep pad_group_for_distribution
order_batches num_train_workers micro_batches =
    pad_group_for_distribution (keep is_multimodal_sample micro_batches) num_train_workers
    ++ pad_group_for_distribution (keep (λ b. not (is_multimodal_sample b)) micro_batches)
        num_train_workers

unfoldable pub prepare_all : ℕ → List (ℕ × TrainingSample) → Result BatchError (List Sample)
unfolding map_all prepare_sample
prepare_all seq_len rollouts =
    map_all (λ r. prepare_sample r.1 seq_len >>= λ sample. ok (r.0, sample)) rollouts

unfoldable pub prepare_batch :
    List TrainingSample → ℕ → ℕ → List ℕ → ℕ → ℕ → Result BatchError (List (List MicroBatch))
unfolding prepare_all zip packed_samples_into_micro_bs map_all pad_micro_batch order_batches
    distribute
prepare_batch rollouts seq_len num_train_workers idxs num_loras pad_to_multiple_of = do
  all_samples ← prepare_all seq_len (zip idxs rollouts)
  packed ← packed_samples_into_micro_bs seq_len num_loras all_samples
  micro_batches ← map_all (pad_micro_batch pad_to_multiple_of) packed
  check (ltb 0 num_train_workers) zero_division
  let ordered = order_batches num_train_workers micro_batches
  check (length ordered % num_train_workers == 0) assertion
  ok (distribute num_train_workers 0 ordered (replicate num_train_workers []))
