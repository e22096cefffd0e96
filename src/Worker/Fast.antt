-- ===== src/Worker/Fast.antt =====
-- The worker's update is the one that the trainer verified.
use aurora_rl.Base.{
  same_elements, ℕ, zero, suc, ◌+◌, ◌<◌, ◌≤◌, ◌^◌, ◌≡◌, refl, sym, ◌∙◌, ap, Bool, true, false, ◌||◌,
  not, some, List, [], ◌∷◌, length, length-map, All, get_elem?, ltb, ◌==◌, ==→eq, if◌then◌else◌, ok,
  ◌>>◌, check, >>=-eq-ok, ok-injective, arith, Bool-cases, inl, inr, eq→==, ne→==,
}
use aurora_rl.Sparse.{IncreasesFrom, value_at, scatter, gather}
use aurora_rl.Sparse.Lookup.{scatter-gather, updated}
use aurora_rl.Delta.Errors.{index_out_of_range}
use aurora_rl.Delta.Indices.{IndexTensor, decode_sparse_indices}
use aurora_rl.Delta.Values.{
  Arithmetic, Values, same_dtype, wide_dtype, zip_with, numel, any_negative, any_beyond, scaled,
  add_values, reconstruct_sparse_delta_tensor,
}
use aurora_rl.Layout.Adapter.{strictly_increasing, flip_sign}
use aurora_rl.Layout.Adapter.Valid.{check-true}
use aurora_rl.Worker.{
  indices_cover_flat_tensor, add_in_place, apply_decoded_sparse_delta_tensor,
  apply_sparse_delta_tensor,
}

-- Increasing numbers from `a` on and below `n` are at most `n - a`.
room :
    (a n : ℕ) (is : List ℕ) → a ≤ n → IncreasesFrom a is → All (λ i. i < n) is → a + length is ≤ n
room a n [] le h inside = omega arith
room a n (i ∷ is) le (from, h) (lt, inside) =
    omega (arith, room (suc i) n is (omega arith) h inside)

-- If there are as many as fit, then the values stand in their places.
value_at_full :
    {W : Type 0} (b : ℕ) (is : List ℕ) (ws : List W) (k : ℕ)
    → IncreasesFrom b is
    → All (λ i. i < b + length is) is
    → length is ≡ length ws
    → value_at is ws (b + k) ≡ get_elem? ws k
unfolding value_at
value_at_full b [] [] k h inside same = refl
value_at_full b [] (w ∷ ws) k h inside same = absurd (omega arith)
value_at_full b (i ∷ is) [] k h inside same = absurd (omega arith)
value_at_full b (i ∷ is) (w ∷ ws) k (from, h) (lt, inside) same =
    let fit = room (suc i) (b + suc (length is)) is (omega arith) h inside in
    let start : i ≡ b = omega (arith, fit) in
    by_place k start (λ k' below later. value_at_full (suc b) is ws k' later below (omega arith))
  where
    next : i ≡ b → All (λ j. j < suc b + length is) is
    next e = let shift : suc b + length is ≡ b + suc (length is) = omega arith in rw shift inside

    by_place :
        (k : ℕ)
        → i ≡ b
        → ((k' : ℕ)
            → All (λ j. j < suc b + length is) is
            → IncreasesFrom (suc b) is
            → value_at is ws (suc b + k') ≡ get_elem? ws k')
        → (if i == b + k then some w else value_at is ws (b + k)) ≡ get_elem? (w ∷ ws) k
    by_place zero e rest = rw (eq→== i (b + 0) (omega arith)) refl
    by_place (suc k) e rest =
        let shifted : b + suc k ≡ suc b + k = omega arith in
        let later : IncreasesFrom (suc b) is = rw e at h in
        rw (ne→== i (b + suc k) (λ o. omega arith), shifted) (rest k (next e) later)

in_range-All :
    (n : ℕ) (is : List ℕ)
    → not (any_negative is || any_beyond n is) ≡ true
    → All (λ i. i < n) is × All (λ i. i < 2 ^ 63) is
unfolding any_negative any_beyond
in_range-All n [] h = (tt, tt)
in_range-All n (i ∷ is) h =
    let rest = in_range-All n is (ground arith) in ((ground arith, rest.0), (ground arith, rest.1))

signed-lt : (x y : ℕ) → x < 2 ^ 63 → y < 2 ^ 63 → ltb (flip_sign x) (flip_sign y) ≡ true → x < y
signed-lt x y hx hy h = ground arith

strictly_increasing-IncreasesFrom :
    (b i : ℕ) (is : List ℕ)
    → b ≤ i
    → All (λ i. i < 2 ^ 63) (i ∷ is)
    → strictly_increasing (i ∷ is) ≡ true
    → IncreasesFrom b (i ∷ is)
unfolding strictly_increasing
strictly_increasing-IncreasesFrom b i [] le small h = (le, tt)
strictly_increasing-IncreasesFrom b i (j ∷ is) le (hi, (hj, small)) h = (
  le,
  strictly_increasing-IncreasesFrom (suc i) j is (signed-lt i j hi hj (ground arith)) (hj, small)
      (ground arith),
)

module _ (A : Arithmetic) (flat : List A.Element) where
  get_elem?-zip_all :
      (xs ws : List A.Element) (k : ℕ)
      → length ws ≡ length xs
      → get_elem? (zip_with A.plus xs ws) k ≡ updated A.plus (get_elem? xs k) (get_elem? ws k)
  unfolding zip_with
  get_elem?-zip_all [] [] k h = refl
  get_elem?-zip_all [] (w ∷ ws) k h = absurd (omega arith)
  get_elem?-zip_all (x ∷ xs) [] k h = absurd (omega arith)
  get_elem?-zip_all (x ∷ xs) (w ∷ ws) zero h = refl
  get_elem?-zip_all (x ∷ xs) (w ∷ ws) (suc k) h = get_elem?-zip_all xs ws k (omega arith)

  -- Where the indices cover the tensor, adding at the indices adds everywhere.
  full-scatter :
      (is : List ℕ) (ws : List A.Element)
      → length is ≡ length flat
      → length is ≡ length ws
      → IncreasesFrom 0 is
      → All (λ i. i < length flat) is
      → zip_with A.plus flat ws ≡ scatter (gather A.plus flat is ws) flat
  full-scatter is ws covers counted h inside = same_elements _ _ (λ k.
      let at0 : 0 + k ≡ k = omega arith in
      let filled : value_at is ws (0 + k) ≡ get_elem? ws k =
        value_at_full 0 is ws k h (rw (total covers) inside) counted in
      get_elem?-zip_all flat ws k (omega arith)
      ∙ ap (updated A.plus (get_elem? flat k)) (sym (rw at0 at filled))
      ∙ sym (scatter-gather A.plus flat is ws h inside k))
    where
      total : {n m : ℕ} → n ≡ m → 0 + n ≡ m
      total e = omega arith

  numel-scaled :
      (values : Values A) (factor : A.Scale) → numel A (scaled A factor values) ≡ numel A values
  unfolding numel scaled
  numel-scaled (same_dtype ws) factor = elim (Bool-cases (A.is_one factor)) [
    | inl one ↦ rw one refl
    | inr other ↦ rw other (length-map _ ws)
  ]
  numel-scaled (wide_dtype ws) factor = elim (Bool-cases (A.is_one factor)) [
    | inl one ↦ rw one refl
    | inr other ↦ rw other (length-map _ ws)
  ]

  add_values-nil : (values : Values A) → add_values A flat [] values ≡ flat
  unfolding add_values gather scatter
  add_values-nil (same_dtype ws) = refl
  add_values-nil (wide_dtype ws) = refl

  add_in_place-add_values :
      (is : List ℕ) (values : Values A) (full : Bool)
      → indices_cover_flat_tensor is (length flat) ≡ full
      → length is ≡ numel A values
      → IncreasesFrom 0 is
      → All (λ i. i < length flat) is
      → add_in_place A full flat is values ≡ add_values A flat is values
  unfolding add_in_place add_values numel indices_cover_flat_tensor
  add_in_place-add_values is (same_dtype ws) true covers counted h inside =
      full-scatter is ws (==→eq _ _ (ground arith)) counted h inside
  add_in_place-add_values is (wide_dtype ws) true covers counted h inside = refl
  add_in_place-add_values is values false covers counted h inside = refl

  module _ (is_contiguous : Bool) (values : Values A) (factor : A.Scale) (out : List A.Element)
      (full : Bool) where
    decoded-reconstructed :
        (indices : List ℕ)
        → apply_decoded_sparse_delta_tensor A is_contiguous flat indices values factor
          ≡ ok (out, full)
        → (check (not (any_negative indices || any_beyond (length flat) indices)) index_out_of_range
            >> ok (add_values A flat indices (scaled A factor values)))
          ≡ ok out
    unfolding apply_decoded_sparse_delta_tensor any_negative any_beyond
    decoded-reconstructed [] h =
        let (_, _, h1) = >>=-eq-ok (check is_contiguous _) _ h in
        let (_, _, h2) = >>=-eq-ok (check (0 == numel A values) _) _ h1 in
        ap ok (add_values-nil _ ∙ ap (λ r. r.0) (ok-injective h2))
    decoded-reconstructed (i ∷ is) h =
        let (_, _, h1) = >>=-eq-ok (check is_contiguous _) _ h in
        let (_, counted, h2) = >>=-eq-ok (check (length (i ∷ is) == numel A values) _) _ h1 in
        let (_, within, h3) =
          >>=-eq-ok (check (not (any_negative (i ∷ is) || any_beyond (length flat) (i ∷ is))) _) _
            h2 in
        let (_, up, h4) = >>=-eq-ok (check (strictly_increasing (i ∷ is)) _) _ h3 in
        let (inside, small) = in_range-All (length flat) (i ∷ is) (check-true _ _ within) in
        let same_out = ap (λ r. r.0) (ok-injective h4) in
        let increasing =
          strictly_increasing-IncreasesFrom 0 i is (omega arith) small (check-true _ _ up) in
        rw (check-true _ _ within) (
          ap ok (
            sym (
              add_in_place-add_values (i ∷ is) (scaled A factor values) _ refl
                (==→eq _ _ (check-true _ _ counted) ∙ sym (numel-scaled values factor)) increasing
                inside)
            ∙ same_out))

    -- Where the worker's update of a parameter succeeds, whichever of its two ways to add it takes,
    -- the reconstruction that the trainer verifies with succeeds on the same elements, indices,
    -- values and factor, and has the same result.
    pub apply-reconstruct :
        (encoded_indices : IndexTensor)
        → apply_sparse_delta_tensor A is_contiguous flat encoded_indices values factor
          ≡ ok (out, full)
        → reconstruct_sparse_delta_tensor A flat encoded_indices values factor ≡ ok out
    unfolding apply_sparse_delta_tensor reconstruct_sparse_delta_tensor
    apply-reconstruct encoded_indices h =
        let (indices, decoded, h1) =
          >>=-eq-ok (decode_sparse_indices encoded_indices (numel A values)) _ h in
        rw decoded (decoded-reconstructed indices h1)
