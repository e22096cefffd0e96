-- ===== src/Batch/Prepare/Returns.antt =====
-- Samples that are prepared without an exception.
use aurora_rl.Base.{
  ℕ, zero, suc, ◌+◌, ◌*◌, ◌≤◌, ◌≡◌, refl, sym, ◌∙◌, ap, true, false, Option, none, some, List, [],
  ◌∷◌, ◌++◌, length, take, min, replicate, ok, ◌==◌, ltb, arith, length-append, length-replicate,
  length-take, subst, Bool-cases, inl, inr,
}
use aurora_rl.Base.Blocks.{rows-le}
use aurora_rl.Base.Names.{codes, same_name}
use aurora_rl.Batch.Types.{
  RoutedExperts, TrainingSample, MicroBatch, item_size, at_index, routed_experts_row_size,
  slice_routed_experts,
}
use aurora_rl.Batch.Pack.{size}
use aurora_rl.Batch.Prepare.{
  range_from, untruncated, map_option, slice_some, truncate, fits_count, check_routed,
  check_lengths, prepare_sample,
}

test_eq : (a b : ℕ) → a ≡ b → (a == b) ≡ true
test_eq a b h = ground arith

length-range_from : (start count : ℕ) → length (range_from start count) ≡ count
unfolding range_from
length-range_from start zero = refl
length-range_from start (suc count) = ap suc (length-range_from (suc start) count)

-- Rows of experts for so many tokens.
abbrev IsRouted : ℕ → Option RoutedExperts → Type 0
IsRouted count none = Unit {0}
IsRouted count (some routed) =
    (layers : ℕ) × (topk : ℕ) × (item : ℕ) × (routed.shape ≡ count ∷ layers ∷ topk ∷ [])
    × (item_size routed.dtype ≡ ok item)
    × (length routed.bytes ≡ count * (layers * topk * item))

-- One entry for each token in every list.
pub record IsAligned (b : MicroBatch) : Type 0 where
  pub advantages : length b.advantages ≡ size b
  pub loss_mask : length b.loss_mask ≡ size b
  pub position_ids : length b.position_ids ≡ size b
  pub inference_logprobs : length b.inference_logprobs ≡ size b
  pub rewards : fits_count b.rewards (size b) ≡ true
  pub temperatures : length b.temperatures ≡ size b
  pub teacher_logprobs : fits_count b.teacher_logprobs (size b) ≡ true
  pub routed_experts : IsRouted (size b) b.routed_experts
  pub mm_token_type_ids : fits_count b.mm_token_type_ids (size b) ≡ true
  pub env_names : length b.env_names ≡ size b

check_routed-ok :
    (count : ℕ) (found : Option RoutedExperts)
    → IsRouted count found
    → check_routed found count ≡ ok tt
unfolding check_routed routed_experts_row_size at_index
check_routed-ok count none h = refl
check_routed-ok count (some routed) (layers, topk, item, shape, sized, bytes) =
    rw (shape, sized, test_eq _ _ bytes, test_eq count count refl) refl

check_lengths-ok : (b : MicroBatch) → IsAligned b → check_lengths b ≡ ok tt
unfolding check_lengths
check_lengths-ok b h =
    rw
      (
        test_eq _ _ h.advantages,
        test_eq _ _ h.loss_mask,
        test_eq _ _ h.position_ids,
        test_eq _ _ h.inference_logprobs,
        h.rewards,
        test_eq _ _ h.temperatures,
        h.teacher_logprobs,
        check_routed-ok (size b) b.routed_experts h.routed_experts,
        h.mm_token_type_ids,
        test_eq _ _ h.env_names,
      )
      refl

-- An example with one entry for each token.
pub record IsExample (example : TrainingSample) : Type 0 where
  pub named : same_name example.env_name (codes "all") ≡ false
  pub prompt_mask : length example.prompt_mask ≡ length example.prompt_ids
  pub completion_mask : length example.completion_mask ≡ length example.completion_ids
  pub completion_logprobs : length example.completion_logprobs ≡ length example.completion_ids
  pub completion_temperatures :
      length example.completion_temperatures ≡ length example.completion_ids
  pub teacher_logprobs :
      fits_count example.teacher_logprobs
        (length example.prompt_ids + length example.completion_ids)
      ≡ true
  pub routed_experts :
      IsRouted (length example.prompt_ids + length example.completion_ids) example.routed_experts
  pub mm_token_type_ids :
      fits_count example.mm_token_type_ids
        (length example.prompt_ids + length example.completion_ids)
      ≡ true

module _ (example : TrainingSample) (h : IsExample example) where
  count-split :
      length (example.prompt_ids ++ example.completion_ids)
      ≡ length example.prompt_ids + length example.completion_ids
  count-split = length-append example.prompt_ids example.completion_ids

  padded {ℓ} :
      {A : Type ℓ} (a : A) (xs : List A)
      → length xs ≡ length example.completion_ids
      → length (replicate (length example.prompt_ids) a ++ xs)
        ≡ length (example.prompt_ids ++ example.completion_ids)
  padded a xs e =
      length-append (replicate (length example.prompt_ids) a) xs
      ∙ omega (arith, length-replicate (length example.prompt_ids) a, e, count-split)

  untruncated-IsAligned : IsAligned (untruncated example)
  unfolding untruncated
  untruncated-IsAligned = record {
    advantages = length-replicate _ _;
    loss_mask =
        length-append example.prompt_mask example.completion_mask
        ∙ omega (arith, h.prompt_mask, h.completion_mask, count-split);
    position_ids = length-range_from 0 _;
    inference_logprobs = padded _ example.completion_logprobs h.completion_logprobs;
    rewards = test_eq _ _ (length-replicate _ _);
    temperatures = padded _ example.completion_temperatures h.completion_temperatures;
    teacher_logprobs = rw count-split h.teacher_logprobs;
    routed_experts = rw count-split h.routed_experts;
    mm_token_type_ids = rw count-split h.mm_token_type_ids;
    env_names = length-replicate _ _;
  }

short_take {ℓ} :
    {A : Type ℓ} (n count : ℕ) (xs : List A) → length xs ≡ count → length (take n xs) ≡ min n count
short_take n count xs e = length-take n xs ∙ ap (λ (t : ℕ). min n t) e

fits_count-take {ℓ} :
    {A : Type ℓ} (n count : ℕ) (found : Option (List A))
    → fits_count found count ≡ true
    → fits_count (map_option (take n) found) (min n count) ≡ true
fits_count-take n count none h = refl
fits_count-take n count (some xs) h = test_eq _ _ (short_take n count xs (ground arith))

rows_taken :
    (n count row : ℕ) (bytes : List ℕ)
    → n ≤ count
    → length bytes ≡ count * row
    → length (take (n * row) bytes) ≡ n * row
rows_taken n count row bytes le e =
    short_take (n * row) (count * row) bytes e ∙ omega (arith, rows-le n count row le)

slice_some-ok :
    (n count : ℕ) (found : Option RoutedExperts)
    → n ≤ count
    → IsRouted count found
    → (sliced : Option RoutedExperts) × (slice_some found n ≡ ok sliced) × IsRouted n sliced
unfolding slice_some slice_routed_experts routed_experts_row_size at_index
slice_some-ok n count none le h = (none, refl, tt)
slice_some-ok n count (some routed) le (layers, topk, item, shape, sized, bytes) = (
  some (record {
    bytes = take (n * (layers * topk * item)) routed.bytes;
    shape = n ∷ layers ∷ topk ∷ [];
    dtype = routed.dtype;
  }),
  rw (shape, sized) refl,
  (
    layers,
    topk,
    item,
    refl,
    sized,
    rows_taken n count (layers * topk * item) routed.bytes le bytes,
  ),
)

cut {ℓ} :
    {A : Type ℓ} (n count : ℕ) (xs : List A)
    → n ≤ count
    → length xs ≡ count
    → length (take n xs) ≡ n
cut n count xs le e = short_take n count xs e ∙ omega arith

fits_cut {ℓ} :
    {A : Type ℓ} (n count : ℕ) (found : Option (List A))
    → n ≤ count
    → fits_count found count ≡ true
    → fits_count (map_option (take n) found) n ≡ true
fits_cut n count found le h =
    let least : min n count ≡ n = omega arith in
    subst (λ m. fits_count (map_option (take n) found) m ≡ true) least
      (fits_count-take n count found h)

abbrev cut_to : ℕ → Option RoutedExperts → MicroBatch → MicroBatch
cut_to n routed b = record b {
  input_ids = take n b.input_ids;
  loss_mask = take n b.loss_mask;
  advantages = take n b.advantages;
  inference_logprobs = take n b.inference_logprobs;
  position_ids = take n b.position_ids;
  temperatures = take n b.temperatures;
  env_names = take n b.env_names;
  teacher_logprobs = map_option (take n) b.teacher_logprobs;
  routed_experts = routed;
  mm_token_type_ids = map_option (take n) b.mm_token_type_ids;
  rewards = map_option (take n) b.rewards;
}

-- A batch that is longer than the sequence length is cut to it.
truncate-IsAligned :
    (n : ℕ) (b : MicroBatch)
    → n ≤ size b
    → IsAligned b
    → (b' : MicroBatch) × (truncate n b ≡ ok b')
      × IsAligned b'
      × (b'.input_ids ≡ take n b.input_ids)
      × (size b' ≡ n)
unfolding truncate
truncate-IsAligned n b le h =
    let (routed, sliced, is_routed) =
      slice_some-ok n (size b) b.routed_experts le h.routed_experts in
    let count : length (take n b.input_ids) ≡ n = length-take n b.input_ids ∙ omega arith in
    (
      cut_to n routed b,
      rw sliced refl,
      record {
        advantages = cut n (size b) b.advantages le h.advantages ∙ sym count;
        loss_mask = cut n (size b) b.loss_mask le h.loss_mask ∙ sym count;
        position_ids = cut n (size b) b.position_ids le h.position_ids ∙ sym count;
        inference_logprobs =
            cut n (size b) b.inference_logprobs le h.inference_logprobs ∙ sym count;
        rewards = rw count (fits_cut n (size b) b.rewards le h.rewards);
        temperatures = cut n (size b) b.temperatures le h.temperatures ∙ sym count;
        teacher_logprobs = rw count (fits_cut n (size b) b.teacher_logprobs le h.teacher_logprobs);
        routed_experts = rw count is_routed;
        mm_token_type_ids =
            rw count (fits_cut n (size b) b.mm_token_type_ids le h.mm_token_type_ids);
        env_names = cut n (size b) b.env_names le h.env_names ∙ sym count;
      },
      refl,
      count,
    )

take_all {ℓ} : {A : Type ℓ} (n : ℕ) (xs : List A) → length xs ≤ n → take n xs ≡ xs
take_all zero [] h = refl
take_all zero (x ∷ xs) h = absurd (omega arith)
take_all (suc n) [] h = refl
take_all (suc n) (x ∷ xs) h = ap (λ t. x ∷ t) (take_all n xs (omega arith))

-- An example with one entry for each token in every list, not of the reserved environment "all", is
-- prepared: the first tokens up to the sequence length, with one entry for each of them in every list.
pub prepare_sample-returns :
    (example : TrainingSample) (seq_len : ℕ)
    → IsExample example
    → (b : MicroBatch) × (prepare_sample example seq_len ≡ ok b)
      × IsAligned b
      × (b.input_ids ≡ take seq_len (example.prompt_ids ++ example.completion_ids))
      × (size b ≤ seq_len)
unfolding prepare_sample
prepare_sample-returns example n h = elim (Bool-cases (ltb n (size (untruncated example)))) [
  | inl longer ↦
      let (b, cut_ok, aligned, ids, count) =
        truncate-IsAligned n (untruncated example) (ground arith)
          (untruncated-IsAligned example h) in
      (
        b,
        rw (h.named, longer, cut_ok, check_lengths-ok b aligned) refl,
        aligned,
        ids ∙ unfold untruncated in refl,
        omega (arith, count),
      )
  | inr shorter ↦
      let aligned = untruncated-IsAligned example h in
      let le : size (untruncated example) ≤ n = ground arith in
      (
        untruncated example,
        rw (h.named, shorter, check_lengths-ok (untruncated example) aligned) refl,
        aligned,
        sym (take_all n _ (unfold untruncated in le)),
        le,
      )
]
