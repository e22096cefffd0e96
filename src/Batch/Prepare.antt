-- ===== src/Batch/Prepare.antt =====
-- `prepare_sample`.
pub mod Returns
use aurora_rl.Base.{
  ℕ, zero, suc, ◌+◌, ◌*◌, Bool, true, false, not, ◌&&◌, Option, none, some, List, [], ◌∷◌, ◌++◌,
  length, take, replicate, if◌then◌else◌, Result, ok, err, ◌>>=◌, ◌>>◌, check, ◌==◌, ltb,
}
use aurora_rl.Base.Names.{Name, codes, same_name}
use aurora_rl.Batch.Types.{
  Float, zero_point, one_point, not_a_number, BatchError, assertion, RoutedExperts, TrainingSample,
  MicroBatch, routed_experts_row_size, slice_routed_experts, at_index,
}

-- `list(range(start, start + count))`
unfoldable pub range_from : ℕ → ℕ → List ℕ
range_from start zero = []
range_from start (suc count) = start ∷ range_from (suc start) count

abbrev first_or : List Float → Float → Float
first_or [] d = d
first_or (x ∷ xs) d = x

abbrev or_else : Option Float → Float → Float
or_else none d = d
or_else (some x) d = x

-- Before truncation.
unfoldable pub untruncated : TrainingSample → MicroBatch
unfolding range_from
untruncated example =
    let input_ids = example.prompt_ids ++ example.completion_ids in
    let count = length input_ids in
    let prompt_temp = first_or example.completion_temperatures one_point in
    record {
      input_ids = input_ids;
      loss_mask = example.prompt_mask ++ example.completion_mask;
      advantages = replicate count example.advantage;
      inference_logprobs =
          replicate (length example.prompt_ids) zero_point ++ example.completion_logprobs;
      position_ids = range_from 0 count;
      temperatures =
          replicate (length example.prompt_ids) prompt_temp ++ example.completion_temperatures;
      env_names = replicate count example.env_name;
      teacher_logprobs = example.teacher_logprobs;
      lora_num_tokens = none;
      routed_experts = example.routed_experts;
      mm_kwargs = example.mm_kwargs;
      mm_token_type_ids = example.mm_token_type_ids;
      training_mode = example.training_mode;
      rewards = some (replicate count (or_else example.reward not_a_number));
    }

abbrev pub map_option {ℓ κ} : {A : Type ℓ} {B : Type κ} → (A → B) → Option A → Option B
map_option f none = none
map_option f (some a) = some (f a)

unfoldable pub slice_some : Option RoutedExperts → ℕ → Result BatchError (Option RoutedExperts)
unfolding slice_routed_experts
slice_some none seq_len = ok none
slice_some (some routed) seq_len = do sliced ← slice_routed_experts routed seq_len; ok (some sliced)

unfoldable pub truncate : ℕ → MicroBatch → Result BatchError MicroBatch
unfolding slice_some
truncate seq_len b = do
  routed_experts ← slice_some b.routed_experts seq_len
  ok (record b {
    input_ids = take seq_len b.input_ids;
    loss_mask = take seq_len b.loss_mask;
    advantages = take seq_len b.advantages;
    inference_logprobs = take seq_len b.inference_logprobs;
    position_ids = take seq_len b.position_ids;
    temperatures = take seq_len b.temperatures;
    env_names = take seq_len b.env_names;
    teacher_logprobs = map_option (take seq_len) b.teacher_logprobs;
    routed_experts = routed_experts;
    mm_token_type_ids = map_option (take seq_len) b.mm_token_type_ids;
    rewards = map_option (take seq_len) b.rewards;
  })

-- Whether an optional list has one entry for each token.
abbrev pub fits_count {ℓ} : {A : Type ℓ} → Option (List A) → ℕ → Bool
fits_count none count = true
fits_count (some xs) count = length xs == count

unfoldable pub check_routed : Option RoutedExperts → ℕ → Result BatchError (Unit {0})
unfolding routed_experts_row_size
check_routed none count = ok tt
check_routed (some routed) count = do
  rows ← at_index routed.shape 0
  check (rows == count) assertion
  row_size ← routed_experts_row_size routed
  check (length routed.bytes == count * row_size) assertion

-- The assertions on the lengths.
unfoldable pub check_lengths : MicroBatch → Result BatchError (Unit {0})
unfolding check_routed
check_lengths b =
    let count = length b.input_ids in
    (do
      check
          (length b.advantages == count
            && length b.loss_mask == count
            && length b.position_ids == count
            && length b.inference_logprobs == count
            && fits_count b.rewards count
            && length b.temperatures == count)
          assertion
      check (fits_count b.teacher_logprobs count) assertion
      check_routed b.routed_experts count
      check (fits_count b.mm_token_type_ids count) assertion
      check (length b.env_names == count) assertion)

unfoldable pub prepare_sample : TrainingSample → ℕ → Result BatchError MicroBatch
unfolding untruncated truncate check_lengths
prepare_sample example seq_len = do
  check (not (same_name example.env_name (codes "all"))) assertion
  let whole = untruncated example
  prepared ← (if ltb seq_len (length whole.input_ids) then truncate seq_len whole else ok whole)
  check_lengths prepared
  ok prepared
