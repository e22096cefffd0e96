-- ===== src/Batch/Distribute/Modality.antt =====
-- At each step the ranks see batches of one modality.
use aurora_rl.Base.{
  ℕ, suc, ◌+◌, ◌-◌, ◌*◌, ◌%◌, ◌<◌, ◌≤◌, ◌≡◌, refl, sym, ◌∙◌, ap, Bool, true, false, not, List, [],
  ◌∷◌, ◌++◌, length, get_elem?, get_elem?-inside, get_elem?-behind, get_elem?-append, replicate,
  Option, none, some, All, All-append, All-replicate, All-get_elem?, arith, length-append,
  length-replicate, ltb, ◌==◌, if◌then◌else◌, Bool-cases, inl, inr, ok, check, check-true,
  ok-injective, lt→ltb, ltb→lt, on_ok,
}
use aurora_rl.Base.Blocks.{rows-le}
use aurora_rl.Batch.Types.{
  zero_division, assertion, TrainingSample, MicroBatch, is_multimodal_sample,
}
use aurora_rl.Batch.Prepare.{map_option}
use aurora_rl.Batch.Pack.{packed_samples_into_micro_bs}
use aurora_rl.Batch.Pad.{pad_micro_batch, make_dummy_batch, pad_group_for_distribution}
use aurora_rl.Batch.Pad.Multiple.{padding_multiple}
use aurora_rl.Batch.Distribute.{
  keep, order_batches, distribute, prepare_all, map_all, zip, prepare_batch,
}
use aurora_rl.Batch.Distribute.Strided.{cell, distribute-strided}
use native.Mathlib.Decide.{dec_lt}

abbrev Has : Bool → MicroBatch → Type 0
Has multimodal b = is_multimodal_sample b ≡ multimodal

keep-Has :
    (p : MicroBatch → Bool) (multimodal : Bool) (bs : List MicroBatch)
    → ((b : MicroBatch) → p b ≡ true → Has multimodal b)
    → All (Has multimodal) (keep p bs)
unfolding keep
keep-Has p multimodal [] h = tt
keep-Has p multimodal (b ∷ bs) h = elim (Bool-cases (p b)) [
  | inl kept ↦ rw kept (h b kept, keep-Has p multimodal bs h)
  | inr dropped ↦ rw dropped (keep-Has p multimodal bs h)
]

sum_rows : (a b n : ℕ) → (a + b) * n ≡ a * n + b * n
sum_rows a b n = grind arith

module _ (n : ℕ) (pos : 0 < n) where
  -- A padded group is made of whole rows, all of its modality.
  record WholeRows (multimodal : Bool) (group : List MicroBatch) : Type 0 where
    steps : ℕ
    whole : length group ≡ steps * n
    uniform : All (Has multimodal) group

  pad_group-WholeRows :
      (multimodal : Bool) (group : List MicroBatch)
      → All (Has multimodal) group
      → WholeRows multimodal (pad_group_for_distribution group n)
  unfolding pad_group_for_distribution make_dummy_batch is_multimodal_sample
  pad_group-WholeRows multimodal [] h = record { steps = 0; whole = omega arith; uniform = tt }
  pad_group-WholeRows multimodal (b ∷ group) (hb, h) =
      let (steps, e) = padding_multiple (length (b ∷ group)) n pos in
      record {
        steps = steps;
        whole =
            length-append (b ∷ group) _
            ∙ ap (λ (t : ℕ). length (b ∷ group) + t) (length-replicate _ _)
            ∙ e;
        uniform =
            All-append (Has multimodal) (b ∷ group) _ (hb, h)
              (All-replicate (Has multimodal) _ _ hb);
      }

  abbrev modality : Option MicroBatch → Option Bool
  modality = map_option is_multimodal_sample

  WholeRows-modality :
      (multimodal : Bool) (group : List MicroBatch) (g : WholeRows multimodal group) (k r : ℕ)
      → r < n
      → modality (get_elem? group (k * n + r)) ≡ (if ltb k g.steps then some multimodal else none)
  WholeRows-modality multimodal group g k r lt = elim (dec_lt k g.steps) [
    | yes inside ↦
        let (b, found) =
          get_elem?-inside group (k * n + r)
            (omega (arith, g.whole, rows-le (suc k) g.steps n (omega arith))) in
        let at : ltb k g.steps ≡ true = lt→ltb k g.steps inside in
        rw (found, at) (ap some (All-get_elem? (Has multimodal) group (k * n + r) g.uniform found))
    | no outside ↦
        let at : ltb k g.steps ≡ false = ground arith in
        let behind =
          get_elem?-behind group (k * n + r)
            (omega (arith, g.whole, outside, rows-le g.steps k n (omega (arith, outside)))) in
        rw (behind, at) refl
  ]

  -- The modality at a step of two groups, one behind the other.
  two_groups :
      (first second : List MicroBatch) (g : WholeRows true first) (g' : WholeRows false second)
      (k r : ℕ)
      → r < n
      → modality (get_elem? (first ++ second) (k * n + r)) ≡ (
          if ltb k g.steps
          then some true
          else if ltb (k - g.steps) g'.steps
          then some false
          else none)
  two_groups first second g g' k r lt = elim (dec_lt k g.steps) [
    | yes inside ↦
        let at : ltb k g.steps ≡ true = lt→ltb k g.steps inside in
        let in_first : ltb (k * n + r) (length first) ≡ true =
          lt→ltb _ _ (omega (arith, g.whole, rows-le (suc k) g.steps n (omega arith))) in
        rw (get_elem?-append first second (k * n + r), in_first, at)
          (WholeRows-modality true first g k r lt ∙ rw at refl)
    | no outside ↦
        let at : ltb k g.steps ≡ false = ground arith in
        let row : k * n + r - length first ≡ (k - g.steps) * n + r = shifted outside in
        let in_second : ltb (k * n + r) (length first) ≡ false = behind outside in
        rw (get_elem?-append first second (k * n + r), in_second, at, row)
          (WholeRows-modality false second g' (k - g.steps) r lt)
  ]
    where
      shifted : ¬ (k < g.steps) → k * n + r - length first ≡ (k - g.steps) * n + r
      shifted outside =
          let split : k ≡ k - g.steps + g.steps = omega (arith, outside) in
          omega (arith, g.whole, ap (λ (t : ℕ). t * n) split, sum_rows (k - g.steps) g.steps n)

      behind : ¬ (k < g.steps) → ltb (k * n + r) (length first) ≡ false
      behind outside =
          let le : length first ≤ k * n + r =
            omega (arith, g.whole, rows-le g.steps k n (omega (arith, outside))) in
          ground arith

  order-modality :
      (bs : List MicroBatch) (k r r' : ℕ)
      → r < n
      → r' < n
      → modality (get_elem? (order_batches n bs) (k * n + r))
        ≡ modality (get_elem? (order_batches n bs) (k * n + r'))
  unfolding order_batches
  order-modality bs k r r' lt lt' =
      let multimodal =
        pad_group-WholeRows true _ (keep-Has is_multimodal_sample true bs (λ b h. h)) in
      let text =
        pad_group-WholeRows false _
          (keep-Has (λ b. not (is_multimodal_sample b)) false bs (λ b h. not-true _ h)) in
      two_groups _ _ multimodal text k r lt ∙ sym (two_groups _ _ multimodal text k r' lt')
    where
      not-true : (b : Bool) → not b ≡ true → b ≡ false
      not-true true h = cc
      not-true false h = refl

-- Where the batches are prepared: there is a list for each of the workers, and at each step all
-- workers have a batch of the same modality, or all have none.
pub prepare_batch-modality :
    (rollouts : List TrainingSample) (seq_len num_train_workers : ℕ) (idxs : List ℕ)
    (num_loras pad_to_multiple_of : ℕ) (grid : List (List MicroBatch))
    → prepare_batch rollouts seq_len num_train_workers idxs num_loras pad_to_multiple_of ≡ ok grid
    → (length grid ≡ num_train_workers)
      × ((k r r' : ℕ)
          → r < num_train_workers
          → r' < num_train_workers
          → map_option is_multimodal_sample (cell grid r k)
            ≡ map_option is_multimodal_sample (cell grid r' k))
unfolding prepare_batch
prepare_batch-modality rollouts seq_len n idxs num_loras m grid h =
    on_ok (prepare_all seq_len (zip idxs rollouts)) _ h λ all_samples _ h1.
      on_ok (packed_samples_into_micro_bs seq_len num_loras all_samples) _ h1 λ packed _ h2.
        on_ok (map_all (pad_micro_batch m) packed) _ h2 λ micro_batches _ h3.
          on_ok (check (ltb 0 n) zero_division) _ h3 λ _ some_workers h4.
            on_ok (check (length (order_batches n micro_batches) % n == 0) assertion) _ h4 λ _ _ h5.
              let pos : 0 < n = ltb→lt 0 n (check-true (ltb 0 n) zero_division some_workers) in
              let (rows, cells) = distribute-strided n (order_batches n micro_batches) pos in
              let at : distribute n 0 (order_batches n micro_batches) (replicate n []) ≡ grid =
                ok-injective h5 in
              (
                rw (← at) rows,
                λ k r r' lt lt'.
                    rw (← at, cells r k lt, cells r' k lt')
                      (order-modality n pos micro_batches k r r' lt lt'),
              )
