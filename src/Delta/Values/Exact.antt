-- ===== src/Delta/Values/Exact.antt =====
-- Applying an extracted update to the base gives the target.
use aurora_rl.Base.{
  ℕ, ◌+◌, ◌<◌, ◌≤◌, ◌^◌, ◌≡◌, ◌≢◌, refl, sym, ◌∙◌, ap, Bool, true, false, ◌||◌, not, Option, none,
  some, List, length, All, get_elem?, Result, ok, >>=-eq-ok, ok-injective, arith, Bool-cases, inl,
  inr, subst,
}
use aurora_rl.Sparse.{IncreasesFrom, value_at, scatter, gather}
use aurora_rl.Sparse.Lookup.{scatter-gather, updated}
use aurora_rl.Delta.Groups.{Ascends}
use aurora_rl.Delta.Errors.{DeltaError}
use aurora_rl.Delta.Indices.{
  IndexTensor, IndexEncoding, other_encoding, encode_sparse_indices, decode_sparse_indices,
}
use aurora_rl.Delta.Indices.RoundTrip.{decode-encode}
use aurora_rl.Delta.Values.{
  Arithmetic, Values, same_dtype, wide_dtype, zip_with, all_equal, index_select, is_changed,
  changed_indices, add_wide, subtract_wide, additive_values, extract_changed_values, numel, scaled,
  any_negative, any_beyond, add_values, reconstruct_sparse_delta_tensor,
}
use aurora_rl.Delta.Values.Elements.{
  flatnonzero-IncreasesFrom, flatnonzero-below, value_at-flatnonzero, get_elem?-zip_with,
  length-zip_with, length-scatter, IncreasesFrom-Ascends, in_range-check, length-index_select,
  all_equal_pointwise, value_at-all_equal,
}

not-false : (b : Bool) → not b ≡ false → b ≡ true
not-false true h = refl
not-false false h = cc

module _ (A : Arithmetic) (base target : List A.Element) (same : length base ≡ length target) where
  abbrev changes : List ℕ
  changes = changed_indices A none base target

  bits_length : length (zip_with (is_changed A none) target base) ≡ length base
  bits_length = length-zip_with (is_changed A none) target base (sym same) ∙ sym same

  changes-Increases : IncreasesFrom 0 changes
  unfolding changed_indices
  changes-Increases = flatnonzero-IncreasesFrom 0 _

  changes-below : All (λ i. i < length base) changes
  unfolding changed_indices
  changes-below = flatnonzero-below 0 (length base) _ (omega (arith, bits_length))

  changes-below_target : All (λ i. i < length target) changes
  unfolding changed_indices
  changes-below_target = flatnonzero-below 0 (length target) _ (omega (arith, bits_length, same))

  -- The updated elements, for values of either dtype that add up to the selected targets.
  module _ {W : Type 0} (combine : A.Element → W → A.Element) (ws : List W)
      (counted : length ws ≡ length changes)
      (adds : all_equal A
          (zip_with combine (index_select A base changes) ws)
          (index_select A target changes)
        ≡ true) where
    result_at :
        (k : ℕ) (x b t : A.Element) (value : Option W)
        → get_elem? base k ≡ some b
        → get_elem? target k ≡ some t
        → value_at changes ws k ≡ value
        → updated combine (some b) value ≡ some x
        → A.equal x t ≡ true
    unfolding changed_indices is_changed
    result_at k x b t none hb ht missing hx = elim (Bool-cases (A.differs t b)) [
      | inl changed ↦
          let bit : get_elem? (zip_with (is_changed A none) target base) k ≡ some true =
            get_elem?-zip_with (is_changed A none) target base k ht hb ∙ ap some changed in
          let add_zero : 0 + k ≡ k = omega arith in
          absurd (omega (arith, value_at-flatnonzero _ ws 0 k bit (rw add_zero missing), counted))
      | inr kept ↦
          let alike : A.equal t b ≡ true = not-false _ (sym (A.differs_negates t b) ∙ kept) in
          let same_element : some b ≡ some x = hx in
          let swapped : A.equal b t ≡ true = A.equal_symmetric b t ∙ alike in cc
    ]
    result_at k x b t (some w) hb ht present hx =
        let equal =
          value_at-all_equal A combine base target changes ws k changes-below same adds hb ht
            present in
        cc

    pub additive_update : all_equal A (scatter (gather combine base changes ws) base) target ≡ true
    additive_update =
        all_equal_pointwise A _ target (length-scatter (gather combine base changes ws) base ∙ same)
          (λ k x t hx ht.
            by_value k x t (get_elem? base k) (value_at changes ws k) refl ht refl
              (sym (scatter-gather combine base changes ws changes-Increases changes-below k) ∙ hx))
      where
        by_value :
            (k : ℕ) (x t : A.Element) (old : Option A.Element) (value : Option W)
            → get_elem? base k ≡ old
            → get_elem? target k ≡ some t
            → value_at changes ws k ≡ value
            → updated combine old value ≡ some x
            → A.equal x t ≡ true
        by_value k x t (some b) value hb ht hv hx = result_at k x b t value hb ht hv hx
        by_value k x t none none hb ht hv hx = cc
        by_value k x t none (some w) hb ht hv hx = cc

module _ (A : Arithmetic) where
  -- Values that add up to the target, and how they came about.
  abbrev Adds : List A.Element → List A.Element → Values A → Type 0
  Adds base target (same_dtype ws) =
      (ws ≡ zip_with A.minus target base) × (all_equal A (zip_with A.plus base ws) target ≡ true)
  Adds base target (wide_dtype ws) =
      (ws ≡ zip_with (subtract_wide A) target base)
      × (all_equal A (zip_with (add_wide A) base ws) target ≡ true)

  additive-Adds :
      (base target : List A.Element) (values : Values A)
      → additive_values A base target ≡ ok values
      → Adds base target values
  unfolding additive_values
  additive-Adds base target values h =
      let narrow_values : List A.Element = zip_with A.minus target base in
      let wide_values : List A.Wide = zip_with (subtract_wide A) target base in
      elim (Bool-cases (all_equal A (zip_with A.plus base narrow_values) target)) [
        | inl exact ↦
            let kept : Result DeltaError (Values A) = ok (same_dtype narrow_values) in
            let found : kept ≡ ok values = cc in
            subst (λ v. Adds base target v) (ok-injective found) (refl, exact)
        | inr inexact ↦
            elim (Bool-cases (all_equal A (zip_with (add_wide A) base wide_values) target)) [
              | inl exact ↦
                  let kept : Result DeltaError (Values A) = ok (wide_dtype wide_values) in
                  let found : kept ≡ ok values = cc in
                  subst (λ v. Adds base target v) (ok-injective found) (refl, exact)
              | inr lost ↦ absurd cc
            ]
      ]

  module _ (base target : List A.Element) (same : length base ≡ length target) where
    same_selected :
        length (index_select A target (changes A base target same))
        ≡ length (index_select A base (changes A base target same))
    same_selected =
        length-index_select A target _ (changes-below_target A base target same)
        ∙ sym (length-index_select A base _ (changes-below A base target same))

    counted_changes :
        {W : Type 0} (f : A.Element → A.Element → W) (ws : List W)
        → ws
          ≡ zip_with f
              (index_select A target (changes A base target same))
              (index_select A base (changes A base target same))
        → length ws ≡ length (changes A base target same)
    counted_changes f ws h =
        ap length h
        ∙ length-zip_with f _ _ same_selected
        ∙ length-index_select A target _ (changes-below_target A base target same)

    applied :
        (values : Values A)
        → Adds
            (index_select A base (changes A base target same))
            (index_select A target (changes A base target same))
            values
        → (numel A values ≡ length (changes A base target same))
          × (all_equal A (add_values A base (changes A base target same) values) target ≡ true)
    unfolding numel add_values
    applied (same_dtype ws) (made, adds) =
        let counted = counted_changes A.minus ws made in
        (counted, additive_update A base target same A.plus ws counted adds)
    applied (wide_dtype ws) (made, adds) =
        let counted = counted_changes (subtract_wide A) ws made in
        (counted, additive_update A base target same (add_wide A) ws counted adds)

    scaled-one :
        (values : Values A) {factor : A.Scale}
        → A.is_one factor ≡ true
        → scaled A factor values ≡ values
    unfolding scaled
    scaled-one (same_dtype ws) one = rw one refl
    scaled-one (wide_dtype ws) one = rw one refl

    reconstruct_known :
        (t : IndexTensor) (indices : List ℕ) (values : Values A) (factor : A.Scale)
        → decode_sparse_indices t (length indices) ≡ ok indices
        → numel A values ≡ length indices
        → A.is_one factor ≡ true
        → not (any_negative indices || any_beyond (length base) indices) ≡ true
        → reconstruct_sparse_delta_tensor A base t values factor
          ≡ ok (add_values A base indices values)
    unfolding reconstruct_sparse_delta_tensor
    reconstruct_known t indices values factor decoded counted one inside =
        rw (counted, decoded, inside, scaled-one values one) refl

    module _ (empty : ℕ → List ℕ) (length-empty : (n : ℕ) → length (empty n) ≡ n) where
      module _ (encoding : IndexEncoding) (factor : A.Scale) where
        abbrev Reconstructs : List ℕ → Values A → Type 0
        Reconstructs indices values =
            (t : IndexTensor) × (out : List A.Element) × (encode_sparse_indices empty indices
                encoding
              ≡ ok t)
            × (reconstruct_sparse_delta_tensor A base t values factor ≡ ok out)
            × (all_equal A out target ≡ true)

        reconstruct_changes :
            (values : Values A)
            → length base ≤ 2 ^ 63
            → encoding ≢ other_encoding
            → A.is_one factor ≡ true
            → numel A values ≡ length (changes A base target same)
            → all_equal A (add_values A base (changes A base target same) values) target ≡ true
            → Reconstructs (changes A base target same) values
        reconstruct_changes values small known one counted equal =
            let inside = changes-below A base target same in
            let ascends : Ascends 0 (changes A base target same) =
              IncreasesFrom-Ascends (length base) 0 0 _ small (omega arith)
                (changes-Increases A base target same) inside in
            let (t, encoded, decoded) = decode-encode empty length-empty _ encoding ascends known in
            (
              t,
              add_values A base (changes A base target same) values,
              encoded,
              reconstruct_known t _ values factor decoded counted one
                  (in_range-check (length base) _ small inside),
              equal,
            )

      -- Applying an extracted update gives the target: on tensors of one size, of at most 2 ^ 63
      -- elements, if extraction without a threshold succeeds, then its indices can be encoded, and
      -- reconstruction from the base without scaling succeeds with a tensor that equals the target.
      pub reconstruct-extract :
          (indices : List ℕ) (values : Values A) (encoding : IndexEncoding) (factor : A.Scale)
          → length base ≤ 2 ^ 63
          → encoding ≢ other_encoding
          → A.is_one factor ≡ true
          → extract_changed_values A none base target ≡ ok (indices, values)
          → (t : IndexTensor) × (out : List A.Element) × (encode_sparse_indices empty indices
                encoding
              ≡ ok t)
            × (reconstruct_sparse_delta_tensor A base t values factor ≡ ok out)
            × (all_equal A out target ≡ true)
      unfolding extract_changed_values reconstruct_sparse_delta_tensor
      reconstruct-extract indices values encoding factor small known one h =
          let (found, made, paired) = >>=-eq-ok (additive_values A _ _) _ h in
          let (counted, equal) = applied found (additive-Adds _ _ found made) in
          subst (λ r. Reconstructs encoding factor r.0 r.1) (ok-injective paired)
            (reconstruct_changes encoding factor found small known one counted equal)
