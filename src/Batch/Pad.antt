-- ===== src/Batch/Pad.antt =====
-- `pad_micro_batch`, `_make_dummy_batch` and `_pad_group_for_distribution`.
pub mod Multiple
pub mod Padded
use aurora_rl.Base.{
  ℕ, ◌+◌, ◌-◌, ◌%◌, Bool, true, false, not, ◌&&◌, Option, none, some, List, [], ◌∷◌, ◌++◌, length,
  replicate, if◌then◌else◌, Result, ok, err, ◌>>=◌, ◌>>◌, check, ◌==◌, ltb,
}
use aurora_rl.Base.Names.{codes}
use aurora_rl.Batch.Types.{
  zero_point, one_point, not_a_number, BatchError, index_error, type_error, zero_division,
  value_error, RoutedExperts, MicroBatch, pad_routed_experts,
}
use aurora_rl.Batch.Prepare.{range_from, map_option}
use aurora_rl.Batch.Pack.{size}

-- `(m - len % m) % m` and `-len % m`, for a positive m.
unfoldable pub padding : ℕ → ℕ → ℕ
padding count m = (m - count % m) % m

-- `tokens[-1] += count`
unfoldable pub add_last : ℕ → List ℕ → Result BatchError (List ℕ)
add_last count [] = err index_error
add_last count (n ∷ []) = ok ((n + count) ∷ [])
add_last count (n ∷ m ∷ tokens) = add_last count (m ∷ tokens) >>= λ rest. ok (n ∷ rest)

unfoldable pub pad_lora : ℕ → Option (List ℕ) → Result BatchError (Option (List ℕ))
unfolding add_last
pad_lora count none = err type_error
pad_lora count (some tokens) = add_last count tokens >>= λ padded. ok (some padded)

unfoldable pub pad_routed : ℕ → Option RoutedExperts → Result BatchError (Option RoutedExperts)
unfolding pad_routed_experts
pad_routed count none = ok none
pad_routed count (some routed) = pad_routed_experts routed count >>= λ padded. ok (some padded)

unfoldable pub pad_by : ℕ → MicroBatch → Result BatchError MicroBatch
unfolding pad_lora pad_routed range_from
pad_by count b = do
  tokens ← pad_lora count b.lora_num_tokens
  routed_experts ← pad_routed count b.routed_experts
  ok (record b {
    input_ids = b.input_ids ++ replicate count 1;
    advantages = b.advantages ++ replicate count (some zero_point);
    rewards = map_option (λ rewards. rewards ++ replicate count not_a_number) b.rewards;
    loss_mask = b.loss_mask ++ replicate count false;
    position_ids = b.position_ids ++ range_from 0 count;
    inference_logprobs = b.inference_logprobs ++ replicate count zero_point;
    temperatures = b.temperatures ++ replicate count one_point;
    teacher_logprobs =
        map_option (λ logprobs. logprobs ++ replicate count zero_point) b.teacher_logprobs;
    lora_num_tokens = tokens;
    mm_token_type_ids = map_option (λ ids. ids ++ replicate count 0) b.mm_token_type_ids;
    routed_experts = routed_experts;
    env_names = b.env_names ++ replicate count [];
  })

unfoldable pub pad_micro_batch : ℕ → MicroBatch → Result BatchError MicroBatch
unfolding padding pad_by
pad_micro_batch pad_to_multiple_of b =
    let count = padding (size b) pad_to_multiple_of in
    let padded = pad_by count b in
    (do
      check (ltb 0 pad_to_multiple_of) zero_division
      check (length b.env_names == size b) value_error
      if ltb 1 pad_to_multiple_of && ltb 0 count then padded else ok b)

unfoldable pub make_dummy_batch : MicroBatch → MicroBatch
make_dummy_batch source = record source {
  advantages = replicate (size source) (some zero_point);
  loss_mask = replicate (size source) false;
}

-- An empty group needs no padding.
unfoldable pub pad_group_for_distribution : List MicroBatch → ℕ → List MicroBatch
unfolding padding make_dummy_batch
pad_group_for_distribution [] num_train_workers = []
pad_group_for_distribution (b ∷ group) num_train_workers =
    (b ∷ group) ++ replicate (padding (length (b ∷ group)) num_train_workers) (make_dummy_batch b)
