-- ===== src/Batch/Pack.antt =====
-- `packed_samples_into_micro_bs`: first fit, over samples in the order of their adapter and from
-- long to short.
pub mod Groups
pub mod Bins
pub mod Gaps
use aurora_rl.Base.{
  ℕ, ◌+◌, Bool, true, false, not, ◌&&◌, ◌||◌, Option, none, some, List, [], ◌∷◌, ◌++◌, length,
  replicate, set, get_elem?, if◌then◌else◌, Result, ok, err, ◌>>=◌, ◌>>◌, check, ◌==◌, ltb, leb,
}
use aurora_rl.Base.Names.{Name, same_name}
use aurora_rl.Batch.Types.{
  Float, not_a_number, BatchError, assertion, index_error, type_error, RoutedExperts, MicroBatch,
  at_index, append_routed_experts, is_multimodal_sample,
}

abbrev pub Sample : Type 0
Sample = ℕ × MicroBatch

abbrev pub size : MicroBatch → ℕ
size b = length b.input_ids

-- The order of the keys `(x[0], -len(x[1].input_ids))`.
unfoldable pub key_le : Sample → Sample → Bool
key_le (idx, b) (idx', b') = ltb idx idx' || (idx == idx' && leb (size b') (size b))

unfoldable pub insert_by_key : Sample → List Sample → List Sample
unfolding key_le
insert_by_key sample [] = sample ∷ []
insert_by_key sample (other ∷ samples) =
    if key_le sample other then sample ∷ other ∷ samples else other ∷ insert_by_key sample samples

-- `samples.sort(key=...)`, which keeps the order of samples with one key.
unfoldable pub sort_by_key : List Sample → List Sample
unfolding insert_by_key
sort_by_key [] = []
sort_by_key (sample ∷ samples) = insert_by_key sample (sort_by_key samples)

-- `tokens[idx] += count`
unfoldable pub add_at : ℕ → ℕ → List ℕ → Result BatchError (List ℕ)
add_at idx count tokens = elim (get_elem? tokens idx) [
  | none ↦ err index_error
  | some n ↦ ok (set tokens idx (n + count))
]

unfoldable pub start_bin : ℕ → Sample → Result BatchError MicroBatch
unfolding add_at
start_bin num_loras (idx, sample) = do
  tokens ← add_at idx (size sample) (replicate num_loras 0)
  ok (record sample { lora_num_tokens = some tokens })

unfoldable pub extend_rewards :
    ℕ → ℕ → Option (List Float) → Option (List Float) → Option (List Float)
extend_rewards existing_len count none none = none
extend_rewards existing_len count (some rewards) none =
    some (rewards ++ replicate count not_a_number)
extend_rewards existing_len count none (some more) =
    some (replicate existing_len not_a_number ++ more)
extend_rewards existing_len count (some rewards) (some more) = some (rewards ++ more)

-- `teacher_logprobs` and `mm_token_type_ids`
unfoldable pub extend_some {ℓ} : {A : Type ℓ} → Option (List A) → Option (List A) → Option (List A)
extend_some found none = found
extend_some none (some more) = some more
extend_some (some xs) (some more) = some (xs ++ more)

unfoldable pub extend_routed :
    Option RoutedExperts → Option RoutedExperts → Result BatchError (Option RoutedExperts)
unfolding append_routed_experts
extend_routed none none = ok none
extend_routed (some dst) (some src) = do
  appended ← append_routed_experts dst src
  ok (some appended)
extend_routed none (some src) = err assertion
extend_routed (some dst) none = err assertion

unfoldable pub count_lora : ℕ → ℕ → Option (List ℕ) → Result BatchError (List ℕ)
unfolding add_at
count_lora idx count none = err type_error
count_lora idx count (some tokens) = add_at idx count tokens

unfoldable pub extend_bin : Sample → MicroBatch → Result BatchError MicroBatch
unfolding extend_rewards extend_some extend_routed count_lora
extend_bin (idx, sample) b = do
  routed_experts ← extend_routed b.routed_experts sample.routed_experts
  tokens ← count_lora idx (size sample) b.lora_num_tokens
  ok (record b {
    input_ids = b.input_ids ++ sample.input_ids;
    loss_mask = b.loss_mask ++ sample.loss_mask;
    advantages = b.advantages ++ sample.advantages;
    rewards = extend_rewards (size b) (size sample) b.rewards sample.rewards;
    inference_logprobs = b.inference_logprobs ++ sample.inference_logprobs;
    temperatures = b.temperatures ++ sample.temperatures;
    teacher_logprobs = extend_some b.teacher_logprobs sample.teacher_logprobs;
    routed_experts = routed_experts;
    mm_token_type_ids = extend_some b.mm_token_type_ids sample.mm_token_type_ids;
    env_names = b.env_names ++ sample.env_names;
    position_ids = b.position_ids ++ sample.position_ids;
    lora_num_tokens = some tokens;
  })

abbrev pub fits_bin : ℕ → MicroBatch → MicroBatch → Bool
fits_bin max_seq_len sample b =
    not (is_multimodal_sample b)
    && (leb (size b + size sample) max_seq_len && same_name b.training_mode sample.training_mode)

module _ (max_seq_len num_loras : ℕ) where
  -- The search for a bin, and a new one behind the last.
  unfoldable pub first_fit : Sample → List MicroBatch → Result BatchError (List MicroBatch)
  unfolding start_bin extend_bin
  first_fit sample [] = do b ← start_bin num_loras sample; ok (b ∷ [])
  first_fit sample (b ∷ bins) =
      let here = extend_bin sample b >>= λ extended. ok (extended ∷ bins) in
      let there = first_fit sample bins >>= λ rest. ok (b ∷ rest) in
      if fits_bin max_seq_len sample.1 b then here else there

  unfoldable pub place : Sample → List MicroBatch → Result BatchError (List MicroBatch)
  unfolding first_fit
  place sample bins =
      let alone = start_bin num_loras sample >>= λ b. ok (bins ++ b ∷ []) in
      if is_multimodal_sample sample.1 then alone else first_fit sample bins

  unfoldable pub place_all : List Sample → List MicroBatch → Result BatchError (List MicroBatch)
  unfolding place
  place_all [] bins = ok bins
  place_all (sample ∷ samples) bins = place sample bins >>= λ placed. place_all samples placed

  unfoldable pub packed_samples_into_micro_bs : List Sample → Result BatchError (List MicroBatch)
  unfolding place_all sort_by_key
  packed_samples_into_micro_bs samples = place_all (sort_by_key samples) []
