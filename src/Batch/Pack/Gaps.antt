-- ===== src/Batch/Pack/Gaps.antt =====
-- Optional per-token lists where only some samples of a bin have them.
use aurora_rl.Base.{
  ℕ, ◌+◌, ◌<◌, ◌≡◌, ◌↔◌, refl, Bool, true, false, Option, none, some, List, ◌++◌, length, ok, arith,
  length-append, length-replicate, replicate, on_ok, ok-injective, subst,
}
use aurora_rl.Batch.Types.{Float, not_a_number, MicroBatch}
use aurora_rl.Batch.Prepare.{fits_count}
use aurora_rl.Batch.Pack.{
  Sample, size, extend_rewards, extend_some, extend_routed, count_lora, extend_bin,
}

abbrev pub is_given {ℓ} : {A : Type ℓ} → Option A → Bool
is_given none = false
is_given (some a) = true

extend_some-fits {ℓ} :
    {A : Type ℓ} (found more : Option (List A)) (m n : ℕ)
    → 0 < m
    → 0 < n
    → fits_count found m ≡ true
    → fits_count more n ≡ true
    → (fits_count (extend_some found more) (m + n) ≡ true) ↔ (is_given found ≡ is_given more)
unfolding extend_some
extend_some-fits none none m n pm pn h k = (λ _. refl, λ _. refl)
extend_some-fits (some xs) none m n pm pn h k = (λ e. absurd (ground arith), λ e. cc)
extend_some-fits none (some ys) m n pm pn h k = (λ e. absurd (ground arith), λ e. cc)
extend_some-fits (some xs) (some ys) m n pm pn h k =
    (λ _. refl, λ _. ground (arith, length-append xs ys))

extend_rewards-fits :
    (found more : Option (List Float)) (m n : ℕ)
    → fits_count found m ≡ true
    → fits_count more n ≡ true
    → fits_count (extend_rewards m n found more) (m + n) ≡ true
unfolding extend_rewards
extend_rewards-fits none none m n h k = refl
extend_rewards-fits (some xs) none m n h k =
    ground (arith, length-append xs (replicate n not_a_number), length-replicate n not_a_number)
extend_rewards-fits none (some ys) m n h k =
    ground (arith, length-append (replicate m not_a_number) ys, length-replicate m not_a_number)
extend_rewards-fits (some xs) (some ys) m n h k = ground (arith, length-append xs ys)

-- A sample that goes into a bin, neither of them empty, each with as many rewards, teacher
-- log-probabilities and token types as tokens where it has them: the bin still has as many rewards as
-- tokens; it has as many teacher log-probabilities as tokens exactly if both had them or neither, and
-- likewise token types.
pub extend_bin-fits :
    (sample : Sample) (b b' : MicroBatch)
    → 0 < size b
    → 0 < size sample.1
    → (fits_count b.rewards (size b) ≡ true) × (fits_count sample.1.rewards (size sample.1) ≡ true)
    → (fits_count b.teacher_logprobs (size b) ≡ true)
      × (fits_count sample.1.teacher_logprobs (size sample.1) ≡ true)
    → (fits_count b.mm_token_type_ids (size b) ≡ true)
      × (fits_count sample.1.mm_token_type_ids (size sample.1) ≡ true)
    → extend_bin sample b ≡ ok b'
    → (fits_count b'.rewards (size b') ≡ true)
      × ((fits_count b'.teacher_logprobs (size b') ≡ true)
          ↔ (is_given b.teacher_logprobs ≡ is_given sample.1.teacher_logprobs))
      × ((fits_count b'.mm_token_type_ids (size b') ≡ true)
          ↔ (is_given b.mm_token_type_ids ≡ is_given sample.1.mm_token_type_ids))
unfolding extend_bin
extend_bin-fits (idx, sample) b b' pb ps (rb, rs) (tb, ts) (mb, ms) h =
    on_ok (extend_routed b.routed_experts sample.routed_experts) _ h λ routed _ h1.
      on_ok (count_lora idx (size sample) b.lora_num_tokens) _ h1 λ tokens _ h2.
        let total : length (b.input_ids ++ sample.input_ids) ≡ size b + size sample =
          length-append b.input_ids sample.input_ids in
        subst
          (λ t.
            (fits_count t.rewards (size t) ≡ true)
            × ((fits_count t.teacher_logprobs (size t) ≡ true)
                ↔ (is_given b.teacher_logprobs ≡ is_given sample.teacher_logprobs))
            × ((fits_count t.mm_token_type_ids (size t) ≡ true)
                ↔ (is_given b.mm_token_type_ids ≡ is_given sample.mm_token_type_ids)))
          (ok-injective h2)
          (rw total (
            extend_rewards-fits b.rewards sample.rewards (size b) (size sample) rb rs,
            extend_some-fits b.teacher_logprobs sample.teacher_logprobs (size b) (size sample) pb ps
                tb ts,
            extend_some-fits b.mm_token_type_ids sample.mm_token_type_ids (size b) (size sample) pb
                ps mb ms,
          ))
