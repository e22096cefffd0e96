-- ===== src/Batch/Runs.antt =====
-- Four examples, one of them with images, for two workers and two adapters.
use aurora_rl.Base.{
  ℕ, ◌+◌, ◌*◌, ◌≤◌, ◌<◌, ◌≡◌, ◌↔◌, refl, true, false, none, some, List, [], ◌∷◌, ◌++◌, length, take,
  replicate, get_elem?, map, Result, ok, err, arith,
}
use aurora_rl.Base.Names.{codes}
use aurora_rl.Batch.Types.{
  BatchError, TrainingSample, MicroBatch, one_point, at_index, item_size, routed_experts_row_size,
  slice_routed_experts, add_rows, append_routed_experts, pad_routed_experts, is_multimodal_sample,
}
use aurora_rl.Batch.Prepare.{
  range_from, untruncated, slice_some, truncate, check_routed, check_lengths, prepare_sample,
  map_option, fits_count,
}
use aurora_rl.Batch.Prepare.Returns.{IsExample, IsAligned, prepare_sample-returns}
use aurora_rl.Batch.Pack.{
  Sample, size, key_le, insert_by_key, sort_by_key, add_at, start_bin, extend_rewards, extend_some,
  extend_routed, count_lora, extend_bin, first_fit, place, place_all, packed_samples_into_micro_bs,
}
use aurora_rl.Batch.Pack.Bins.{Partition, packed-Partition}
use aurora_rl.Batch.Pack.Gaps.{is_given, extend_bin-fits}
use aurora_rl.Batch.Pad.{
  padding, add_last, pad_lora, pad_routed, pad_by, pad_micro_batch, make_dummy_batch,
  pad_group_for_distribution,
}
use aurora_rl.Batch.Pad.Padded.{IsPadded, pad_micro_batch-IsPadded}
use aurora_rl.Batch.Distribute.{
  map_all, zip, keep, append_to, distribute, order_batches, prepare_all, prepare_batch,
}
use aurora_rl.Batch.Distribute.Strided.{cell, distribute-strided}
use aurora_rl.Batch.Distribute.Modality.{prepare_batch-modality}

abbrev returned {ℓ} : {A : Type ℓ} → Result BatchError A → A → A
returned (ok a) d = a
returned (err e) d = d

abbrev example : TrainingSample
example = record {
  prompt_ids = 11 ∷ 12 ∷ [];
  prompt_mask = false ∷ false ∷ [];
  completion_ids = 13 ∷ 14 ∷ [];
  completion_mask = true ∷ true ∷ [];
  completion_logprobs = 5 ∷ 6 ∷ [];
  completion_temperatures = one_point ∷ one_point ∷ [];
  env_name = codes "math";
  teacher_logprobs = none;
  advantage = some 9;
  reward = none;
  mm_kwargs = none;
  routed_experts =
      some (record { bytes = 1 ∷ 2 ∷ 3 ∷ 4 ∷ []; shape = 4 ∷ 1 ∷ 1 ∷ []; dtype = codes "uint8" });
  mm_token_type_ids = none;
  training_mode = codes "rl";
}

abbrev with_image : TrainingSample
with_image = record example { mm_kwargs = some (7 ∷ []) }

abbrev with_teacher : TrainingSample
with_teacher = record example { teacher_logprobs = some (1 ∷ 2 ∷ 3 ∷ 4 ∷ []) }

example-IsExample : IsExample example
unfolding item_size
example-IsExample = record {
  named = refl;
  prompt_mask = refl;
  completion_mask = refl;
  completion_logprobs = refl;
  completion_temperatures = refl;
  teacher_logprobs = refl;
  routed_experts = (1, 1, 1, refl, refl, refl);
  mm_token_type_ids = refl;
}

prepare_sample-returns_example :
    (b : MicroBatch) × (prepare_sample example 3 ≡ ok b)
    × IsAligned b
    × (b.input_ids ≡ take 3 (example.prompt_ids ++ example.completion_ids))
    × (size b ≤ 3)
prepare_sample-returns_example = prepare_sample-returns example 3 example-IsExample

abbrev nothing : MicroBatch
nothing = record {
  input_ids = [];
  loss_mask = [];
  advantages = [];
  inference_logprobs = [];
  position_ids = [];
  temperatures = [];
  env_names = [];
  teacher_logprobs = none;
  lora_num_tokens = none;
  routed_experts = none;
  mm_kwargs = none;
  mm_token_type_ids = none;
  training_mode = [];
  rewards = none;
}

abbrev prepared : TrainingSample → ℕ → MicroBatch
prepared e n = returned (prepare_sample e n) nothing

abbrev samples : List Sample
samples =
    (1, prepared example 3)
    ∷ (0, prepared with_image 8)
    ∷ (1, prepared example 8)
    ∷ (0, prepared example 8)
    ∷ []

abbrev bins : List MicroBatch
bins = returned (packed_samples_into_micro_bs 8 2 samples) []

packed_run : packed_samples_into_micro_bs 8 2 samples ≡ ok bins
unfolding range_from untruncated slice_some truncate check_routed check_lengths prepare_sample
    at_index item_size routed_experts_row_size slice_routed_experts add_rows append_routed_experts
    is_multimodal_sample key_le insert_by_key sort_by_key add_at start_bin extend_rewards
    extend_some extend_routed count_lora extend_bin first_fit place place_all
    packed_samples_into_micro_bs
packed_run = refl

adapters_run :
    map (λ b. b.lora_num_tokens) bins
    ≡ some (4 ∷ 0 ∷ []) ∷ some (4 ∷ 4 ∷ []) ∷ some (0 ∷ 3 ∷ []) ∷ []
unfolding range_from untruncated slice_some truncate check_routed check_lengths prepare_sample
    at_index item_size routed_experts_row_size slice_routed_experts add_rows append_routed_experts
    is_multimodal_sample key_le insert_by_key sort_by_key add_at start_bin extend_rewards
    extend_some extend_routed count_lora extend_bin first_fit place place_all
    packed_samples_into_micro_bs
adapters_run = refl

packed-Partition_example : Partition 8 2 samples bins
packed-Partition_example = packed-Partition 8 2 samples bins packed_run

abbrev bin : MicroBatch
bin = record (prepared example 3) { lora_num_tokens = some (0 ∷ 3 ∷ []) }

abbrev padded_bin : MicroBatch
padded_bin = returned (pad_micro_batch 4 bin) nothing

padded_run : pad_micro_batch 4 bin ≡ ok padded_bin
unfolding range_from untruncated slice_some truncate check_routed check_lengths prepare_sample
    at_index item_size routed_experts_row_size slice_routed_experts add_rows pad_routed_experts
    padding add_last pad_lora pad_routed pad_by pad_micro_batch
padded_run = refl

pad_micro_batch-IsPadded_example :
    ((blocks : ℕ) × (size padded_bin ≡ blocks * 4))
    × (count : ℕ) × (count < 4)
    × IsPadded count bin padded_bin
pad_micro_batch-IsPadded_example = pad_micro_batch-IsPadded 4 bin padded_bin padded_run

abbrev numbers : List ℕ
numbers = 5 ∷ 6 ∷ 7 ∷ []

distribute-strided_example :
    (length (distribute 2 0 numbers (replicate 2 [])) ≡ 2)
    × ((r k : ℕ)
        → r < 2
        → cell (distribute 2 0 numbers (replicate 2 [])) r k ≡ get_elem? numbers (k * 2 + r))
distribute-strided_example = distribute-strided 2 numbers (omega arith)

abbrev rollouts : List TrainingSample
rollouts = example ∷ with_image ∷ example ∷ []

abbrev grid : List (List MicroBatch)
grid = returned (prepare_batch rollouts 8 2 (0 ∷ 0 ∷ 1 ∷ []) 2 4) []

grid_run : prepare_batch rollouts 8 2 (0 ∷ 0 ∷ 1 ∷ []) 2 4 ≡ ok grid
unfolding range_from untruncated slice_some truncate check_routed check_lengths prepare_sample
    at_index item_size routed_experts_row_size slice_routed_experts add_rows append_routed_experts
    is_multimodal_sample key_le insert_by_key sort_by_key add_at start_bin extend_rewards
    extend_some extend_routed count_lora extend_bin first_fit place place_all
    packed_samples_into_micro_bs pad_routed_experts padding add_last pad_lora pad_routed pad_by
    pad_micro_batch make_dummy_batch pad_group_for_distribution map_all zip keep append_to
    distribute order_batches prepare_all prepare_batch
grid_run = refl

prepare_batch-modality_example :
    (length grid ≡ 2)
    × ((k r r' : ℕ)
        → r < 2
        → r' < 2
        → map_option is_multimodal_sample (cell grid r k)
          ≡ map_option is_multimodal_sample (cell grid r' k))
prepare_batch-modality_example =
    prepare_batch-modality rollouts 8 2 (0 ∷ 0 ∷ 1 ∷ []) 2 4 grid grid_run

abbrev taught : Sample
taught = (1, prepared with_teacher 8)

abbrev mixed_bin : MicroBatch
mixed_bin = returned (extend_bin taught bin) nothing

mixed_run : extend_bin taught bin ≡ ok mixed_bin
unfolding range_from untruncated slice_some truncate check_routed check_lengths prepare_sample
    at_index item_size routed_experts_row_size slice_routed_experts add_rows append_routed_experts
    add_at extend_rewards extend_some extend_routed count_lora extend_bin
mixed_run = refl

mixed_sizes :
    (0 < size bin)
    × (0 < size taught.1)
    × ((fits_count bin.rewards (size bin) ≡ true)
        × (fits_count taught.1.rewards (size taught.1) ≡ true))
    × ((fits_count bin.teacher_logprobs (size bin) ≡ true)
        × (fits_count taught.1.teacher_logprobs (size taught.1) ≡ true))
    × ((fits_count bin.mm_token_type_ids (size bin) ≡ true)
        × (fits_count taught.1.mm_token_type_ids (size taught.1) ≡ true))
unfolding range_from untruncated slice_some truncate check_routed check_lengths prepare_sample
    at_index item_size routed_experts_row_size slice_routed_experts
mixed_sizes = (omega arith, omega arith, (refl, refl), (refl, refl), (refl, refl))

extend_bin-fits_example :
    (fits_count mixed_bin.rewards (size mixed_bin) ≡ true)
    × ((fits_count mixed_bin.teacher_logprobs (size mixed_bin) ≡ true)
        ↔ (is_given bin.teacher_logprobs ≡ is_given taught.1.teacher_logprobs))
    × ((fits_count mixed_bin.mm_token_type_ids (size mixed_bin) ≡ true)
        ↔ (is_given bin.mm_token_type_ids ≡ is_given taught.1.mm_token_type_ids))
extend_bin-fits_example =
    extend_bin-fits taught bin mixed_bin mixed_sizes.0 mixed_sizes.1 mixed_sizes.2 mixed_sizes.3
      mixed_sizes.4 mixed_run
