-- ===== src/Batch/Pack/Groups.antt =====
-- What a bin is for the group of samples that went into it.
use aurora_rl.Base.{
  ℕ, zero, suc, ◌+◌, ◌≤◌, ◌<◌, ◌≡◌, refl, sym, ◌∙◌, ap, Bool, true, false, not, ◌&&◌, Option, none,
  some, List, [], ◌∷◌, ◌++◌, append_assoc, append-nil, length, replicate, set, get_elem?,
  get_elem?-some→lt, All, All-append, if◌then◌else◌, Result, ok, err, ◌==◌, arith, length-append,
  length-replicate, length-set, leb→le, Bool-cases, inl, inr, on_ok, ok-injective, subst,
}
use aurora_rl.Base.Names.{same_name, same_name_refl}
use aurora_rl.Batch.Types.{BatchError, index_error, MicroBatch, is_multimodal_sample}
use aurora_rl.Batch.Pack.{
  Sample, size, add_at, start_bin, extend_routed, count_lora, extend_bin, fits_bin,
}

-- The entries of a column, sample after sample.
abbrev pub joined {ℓ} : {A : Type ℓ} → (MicroBatch → List A) → List Sample → List A
joined f [] = []
joined f (sample ∷ group) = f sample.1 ++ joined f group

joined-last {ℓ} :
    {A : Type ℓ} (f : MicroBatch → List A) (group : List Sample) (sample : Sample)
    → joined f (group ++ sample ∷ []) ≡ joined f group ++ f sample.1
joined-last f [] sample = append-nil (f sample.1)
joined-last f (other ∷ group) sample =
    ap (λ t. f other.1 ++ t) (joined-last f group sample)
    ∙ sym (append_assoc (f other.1) (joined f group) (f sample.1))

-- The tokens of one adapter in a group.
abbrev pub adapter_tokens : ℕ → List Sample → ℕ
adapter_tokens idx [] = 0
adapter_tokens idx (sample ∷ group) =
    (if sample.0 == idx then size sample.1 else 0) + adapter_tokens idx group

adapter_tokens-last :
    (idx : ℕ) (group : List Sample) (sample : Sample)
    → adapter_tokens idx (group ++ sample ∷ [])
      ≡ adapter_tokens idx group + (if sample.0 == idx then size sample.1 else 0)
adapter_tokens-last idx [] sample = omega arith
adapter_tokens-last idx (other ∷ group) sample = omega (arith, adapter_tokens-last idx group sample)

-- By adapter.
abbrev pub Ascending : List Sample → Type 0
Ascending [] = Unit
Ascending (sample ∷ group) = All (λ later. sample.0 ≤ later.0) group × Ascending group

Ascending-last :
    (group : List Sample) (sample : Sample)
    → Ascending group
    → All (λ earlier. earlier.0 ≤ sample.0) group
    → Ascending (group ++ sample ∷ [])
Ascending-last [] sample h k = (tt, tt)
Ascending-last (other ∷ group) sample (hb, h) (kb, k) = (
  All-append (λ later. other.0 ≤ later.0) group (sample ∷ []) hb (kb, tt),
  Ascending-last group sample h k,
)

module _ (max_seq_len num_loras : ℕ) where
  pub record IsBin (group : List Sample) (b : MicroBatch) : Type 0 where
    pub input_ids : b.input_ids ≡ joined (λ s. s.input_ids) group
    pub loss_mask : b.loss_mask ≡ joined (λ s. s.loss_mask) group
    pub advantages : b.advantages ≡ joined (λ s. s.advantages) group
    pub inference_logprobs : b.inference_logprobs ≡ joined (λ s. s.inference_logprobs) group
    pub position_ids : b.position_ids ≡ joined (λ s. s.position_ids) group
    pub temperatures : b.temperatures ≡ joined (λ s. s.temperatures) group
    pub env_names : b.env_names ≡ joined (λ s. s.env_names) group
    pub modes : All (λ s. same_name b.training_mode s.1.training_mode ≡ true) group
    pub modality : All (λ s. is_multimodal_sample s.1 ≡ is_multimodal_sample b) group
    pub alone : is_multimodal_sample b ≡ true → length group ≡ 1
    pub room : 1 < length group → size b ≤ max_seq_len
    pub ascending : Ascending group
    pub adapters :
        (tokens : List ℕ) × (b.lora_num_tokens ≡ some tokens)
        × (length tokens ≡ num_loras)
        × ((idx : ℕ) → idx < num_loras → get_elem? tokens idx ≡ some (adapter_tokens idx group))

  get_elem?-replicate : (n idx : ℕ) (a : ℕ) → idx < n → get_elem? (replicate n a) idx ≡ some a
  get_elem?-replicate zero idx a lt = absurd (omega arith)
  get_elem?-replicate (suc n) zero a lt = refl
  get_elem?-replicate (suc n) (suc idx) a lt = get_elem?-replicate n idx a (omega arith)

  get_elem?-set :
      (xs : List ℕ) (i j v : ℕ)
      → i < length xs
      → get_elem? (set xs i v) j ≡ (if i == j then some v else get_elem? xs j)
  get_elem?-set [] i j v lt = absurd (omega arith)
  get_elem?-set (x ∷ xs) zero zero v lt = ground arith
  get_elem?-set (x ∷ xs) zero (suc j) v lt = ground arith
  get_elem?-set (x ∷ xs) (suc i) zero v lt = ground arith
  get_elem?-set (x ∷ xs) (suc i) (suc j) v lt = get_elem?-set xs i j v (omega arith) ∙ ground arith

  add_counted :
      (tokens : List ℕ) (i j n count : ℕ) (f : ℕ → ℕ)
      → get_elem? tokens i ≡ some n
      → get_elem? tokens j ≡ some (f j)
      → (if i == j then some (n + count) else get_elem? tokens j)
        ≡ some (f j + (if i == j then count else 0))
  add_counted tokens i j n count f e at = elim (Bool-cases (i == j)) [
    | inl same ↦
        let own : i ≡ j = ground arith in
        let found : some n ≡ some (f j) = sym e ∙ ap (λ k. get_elem? tokens k) own ∙ at in
        let value : n ≡ f j = cc in rw same (ap some (ap (λ (t : ℕ). t + count) value))
    | inr other ↦ rw (other, at) (ap some (omega arith))
  ]

  add_at-ok :
      (tokens tokens' : List ℕ) (group : List Sample) (sample : Sample)
      → length tokens ≡ num_loras
      → ((j : ℕ) → j < num_loras → get_elem? tokens j ≡ some (adapter_tokens j group))
      → add_at sample.0 (size sample.1) tokens ≡ ok tokens'
      → (length tokens' ≡ num_loras)
        × ((j : ℕ)
            → j < num_loras
            → get_elem? tokens' j ≡ some (adapter_tokens j (group ++ sample ∷ [])))
  unfolding add_at
  add_at-ok tokens tokens' group sample full at h = looked (get_elem? tokens sample.0) refl h
    where
      looked :
          (found : Option ℕ)
          → get_elem? tokens sample.0 ≡ found
          → (let r : Result BatchError (List ℕ) = elim found [
            | none ↦ err index_error
            | some n ↦ ok (set tokens sample.0 (n + size sample.1))
          ] in
              r ≡ ok tokens')
          → (length tokens' ≡ num_loras)
            × ((j : ℕ)
                → j < num_loras
                → get_elem? tokens' j ≡ some (adapter_tokens j (group ++ sample ∷ [])))
      looked none e h = absurd (ground arith)
      looked (some n) e h =
          let inside = get_elem?-some→lt tokens sample.0 e in
          let changed : set tokens sample.0 (n + size sample.1) ≡ tokens' = ok-injective h in
          (
            rw (← changed) (length-set tokens sample.0 _ ∙ full),
            λ j lt.
                rw
                  (
                    ← changed,
                    get_elem?-set tokens sample.0 j (n + size sample.1) inside,
                    adapter_tokens-last j group sample,
                  )
                  (add_counted tokens sample.0 j n (size sample.1) (λ k. adapter_tokens k group) e
                    (at j lt)),
          )

  zero_tokens :
      (idx : ℕ)
      → idx < num_loras
      → get_elem? (replicate num_loras 0) idx ≡ some (adapter_tokens idx [])
  zero_tokens idx lt = get_elem?-replicate num_loras idx 0 lt

  -- A new bin is its first sample.
  pub start_bin-IsBin :
      (sample : Sample) (b : MicroBatch)
      → start_bin num_loras sample ≡ ok b
      → IsBin (sample ∷ []) b × (is_multimodal_sample b ≡ is_multimodal_sample sample.1)
  unfolding start_bin is_multimodal_sample
  start_bin-IsBin (idx, sample) b h =
      on_ok (add_at idx (size sample) (replicate num_loras 0)) _ h λ tokens added h1.
        let (full, counts) =
          add_at-ok (replicate num_loras 0) tokens [] (idx, sample) (length-replicate num_loras 0)
            zero_tokens added in
        subst
          (λ t.
            IsBin ((idx, sample) ∷ []) t × (is_multimodal_sample t ≡ is_multimodal_sample sample))
          (ok-injective h1)
          (
            record {
              input_ids = sym (append-nil _);
              loss_mask = sym (append-nil _);
              advantages = sym (append-nil _);
              inference_logprobs = sym (append-nil _);
              position_ids = sym (append-nil _);
              temperatures = sym (append-nil _);
              env_names = sym (append-nil _);
              modes = (same_name_refl sample.training_mode, tt);
              modality = (refl, tt);
              alone = λ _. refl;
              room = λ many. absurd (omega arith);
              ascending = (tt, tt);
              adapters = (tokens, refl, full, counts);
            },
            refl,
          )

  column-last {ℓ} :
      {A : Type ℓ} (f : MicroBatch → List A) (group : List Sample) (sample : Sample)
      (column : List A)
      → column ≡ joined f group
      → column ++ f sample.1 ≡ joined f (group ++ sample ∷ [])
  column-last f group sample column e =
      ap (λ t. t ++ f sample.1) e ∙ sym (joined-last f group sample)

  fits_parts : (a b c : Bool) → (not a && (b && c)) ≡ true → (a ≡ false) × (b ≡ true) × (c ≡ true)
  fits_parts true b c h = cc
  fits_parts false true c h = (refl, refl, h)
  fits_parts false false c h = cc

  count_lora-some :
      (idx count : ℕ) {found : Option (List ℕ)} (before : List ℕ) {tokens : List ℕ}
      → found ≡ some before
      → count_lora idx count found ≡ ok tokens
      → add_at idx count before ≡ ok tokens
  unfolding count_lora
  count_lora-some idx count before at counted = rw at at counted

  -- A bin that a sample fits in becomes the bin of the group with the sample at its end.
  pub extend_bin-IsBin :
      (sample : Sample) (group : List Sample) (b b' : MicroBatch)
      → is_multimodal_sample sample.1 ≡ false
      → fits_bin max_seq_len sample.1 b ≡ true
      → All (λ earlier. earlier.0 ≤ sample.0) group
      → IsBin group b
      → extend_bin sample b ≡ ok b'
      → IsBin (group ++ sample ∷ []) b'
  unfolding extend_bin is_multimodal_sample
  extend_bin-IsBin (idx, sample) group b b' text fits below bin h =
      on_ok (extend_routed b.routed_experts sample.routed_experts) _ h λ routed _ h1.
        on_ok (count_lora idx (size sample) b.lora_num_tokens) _ h1 λ tokens counted h2.
          let (before, at, full, counts) = bin.adapters in
          let (full', counts') =
            add_at-ok before tokens group (idx, sample) full counts
              (count_lora-some idx (size sample) before at counted) in
          let (text_bin, room, mode) = fits_parts (is_multimodal_sample b) _ _ fits in
          subst (λ t. IsBin (group ++ (idx, sample) ∷ []) t) (ok-injective h2)
            (record {
              input_ids =
                  column-last (λ s. s.input_ids) group (idx, sample) b.input_ids bin.input_ids;
              loss_mask =
                  column-last (λ s. s.loss_mask) group (idx, sample) b.loss_mask bin.loss_mask;
              advantages =
                  column-last (λ s. s.advantages) group (idx, sample) b.advantages bin.advantages;
              inference_logprobs =
                  column-last (λ s. s.inference_logprobs) group (idx, sample) b.inference_logprobs
                    bin.inference_logprobs;
              position_ids =
                  column-last (λ s. s.position_ids) group (idx, sample) b.position_ids
                    bin.position_ids;
              temperatures =
                  column-last (λ s. s.temperatures) group (idx, sample) b.temperatures
                    bin.temperatures;
              env_names =
                  column-last (λ s. s.env_names) group (idx, sample) b.env_names bin.env_names;
              modes = All-append _ group _ bin.modes (mode, tt);
              modality = All-append _ group _ bin.modality (text ∙ sym text_bin, tt);
              alone = λ multimodal. absurd (let e = sym text_bin ∙ multimodal in cc);
              room = λ _. rw (length-append b.input_ids sample.input_ids) (leb→le _ _ room);
              ascending = Ascending-last group (idx, sample) bin.ascending below;
              adapters = (tokens, refl, full', counts');
            })
