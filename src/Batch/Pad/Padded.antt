-- ===== src/Batch/Pad/Padded.antt =====
-- What a padded batch is.
use aurora_rl.Base.{
  ℕ, ◌+◌, ◌*◌, ◌<◌, ◌≡◌, refl, sym, ◌∙◌, ap, false, ◌&&◌, Option, some, List, [], ◌∷◌, ◌++◌,
  append-nil, length, sum, replicate, ok, check, check-true, ◌==◌, ltb, ltb→lt, arith,
  length-append, length-replicate, on_ok, ok-injective, subst, Bool-cases, inl, inr,
}
use aurora_rl.Batch.Types.{zero_division, value_error, MicroBatch}
use aurora_rl.Batch.Pack.{size}
use aurora_rl.Batch.Pad.{padding, add_last, pad_lora, pad_routed, pad_by, pad_micro_batch}
use aurora_rl.Batch.Pad.Multiple.{padding-lt, padding_multiple}

add_last-sum :
    (count : ℕ) (tokens tokens' : List ℕ)
    → add_last count tokens ≡ ok tokens'
    → sum tokens' ≡ sum tokens + count
unfolding add_last
add_last-sum count [] tokens' h = absurd (ground arith)
add_last-sum count (n ∷ []) tokens' h = rw (← ok-injective h) (omega arith)
add_last-sum count (n ∷ m ∷ tokens) tokens' h =
    on_ok (add_last count (m ∷ tokens)) _ h λ rest added h1.
      rw (← ok-injective h1) (omega (arith, add_last-sum count (m ∷ tokens) rest added))

-- The first batch with masked tokens behind it, which the last adapter counts.
pub record IsPadded (count : ℕ) (b b' : MicroBatch) : Type 0 where
  pub input_ids : b'.input_ids ≡ b.input_ids ++ replicate count 1
  pub loss_mask : b'.loss_mask ≡ b.loss_mask ++ replicate count false
  pub adapters :
      (tokens : List ℕ)
      → b.lora_num_tokens ≡ some tokens
      → sum tokens ≡ size b
      → (padded : List ℕ) × (b'.lora_num_tokens ≡ some padded) × (sum padded ≡ size b')

unpadded : (b : MicroBatch) → IsPadded 0 b b
unpadded b = record {
  input_ids = sym (append-nil _);
  loss_mask = sym (append-nil _);
  adapters = λ tokens at all. (tokens, at, all);
}

pad_by-IsPadded : (count : ℕ) (b b' : MicroBatch) → pad_by count b ≡ ok b' → IsPadded count b b'
unfolding pad_by
pad_by-IsPadded count b b' h = on_ok (pad_lora count b.lora_num_tokens) _ h λ tokens counted h1.
    on_ok (pad_routed count b.routed_experts) _ h1 λ routed _ h2.
      subst (λ t. IsPadded count b t) (ok-injective h2)
        (record {
          input_ids = refl;
          loss_mask = refl;
          adapters =
              λ before at all. padded_tokens before (some_tokens before tokens at counted) all;
        })
  where
    some_tokens :
        (before : List ℕ) (tokens : Option (List ℕ))
        → b.lora_num_tokens ≡ some before
        → pad_lora count b.lora_num_tokens ≡ ok tokens
        → (padded : List ℕ) × (tokens ≡ some padded) × (add_last count before ≡ ok padded)
    some_tokens before tokens at counted =
        unfold pad_lora in
        on_ok (add_last count before) _ (rw at at counted)
          λ padded added h. (padded, sym (ok-injective h), added)

    padded_tokens :
        (before : List ℕ) {tokens : Option (List ℕ)}
        → (padded : List ℕ) × (tokens ≡ some padded) × (add_last count before ≡ ok padded)
        → sum before ≡ size b
        → (padded : List ℕ) × (tokens ≡ some padded)
          × (sum padded ≡ length (b.input_ids ++ replicate count 1))
    padded_tokens before (padded, is, added) all = (
      padded,
      is,
      add_last-sum count before padded added
          ∙ ap (λ (t : ℕ). t + count) all
          ∙ sym (
              length-append b.input_ids (replicate count 1)
              ∙ ap (λ (t : ℕ). size b + t) (length-replicate count 1)),
    )

-- Where padding returns, the size is a whole number of multiples, fewer than one multiple of masked
-- tokens stands behind those that were there, and tokens that were all counted by adapter still are.
pub pad_micro_batch-IsPadded :
    (pad_to_multiple_of : ℕ) (b b' : MicroBatch)
    → pad_micro_batch pad_to_multiple_of b ≡ ok b'
    → ((blocks : ℕ) × (size b' ≡ blocks * pad_to_multiple_of))
      × (count : ℕ) × (count < pad_to_multiple_of)
      × IsPadded count b b'
unfolding pad_micro_batch
pad_micro_batch-IsPadded m b b' h = on_ok (check (ltb 0 m) zero_division) _ h λ _ positive h1.
    on_ok (check (length b.env_names == size b) value_error) _ h1 λ _ _ h2.
      let pos : 0 < m = ltb→lt 0 m (check-true (ltb 0 m) zero_division positive) in
      let (blocks, whole) = padding_multiple (size b) m pos in
      elim (Bool-cases (ltb 1 m && ltb 0 (padding (size b) m))) [
        | inl some_padding ↦
            let padded = pad_by-IsPadded (padding (size b) m) b b' (rw some_padding at h2) in
            (
              (
                blocks,
                ap (λ (t : List ℕ). length t) padded.input_ids
                    ∙ length-append b.input_ids _
                    ∙ ap (λ (t : ℕ). size b + t) (length-replicate _ 1)
                    ∙ whole,
              ),
              padding (size b) m,
              padding-lt (size b) m pos,
              padded,
            )
        | inr no_padding ↦
            let same : b ≡ b' = ok-injective (rw no_padding at h2) in
            let nothing : padding (size b) m ≡ 0 =
              none_needed (padding (size b) m) (padding-lt (size b) m pos) no_padding in
            (
              subst (λ t. (blocks : ℕ) × (size t ≡ blocks * m)) same
                  (blocks, omega (arith, whole, nothing)),
              0,
              pos,
              subst (λ t. IsPadded 0 b t) same (unpadded b),
            )
      ]
  where
    none_needed : (count : ℕ) → count < m → (ltb 1 m && ltb 0 count) ≡ false → count ≡ 0
    none_needed count lt h = ground arith
