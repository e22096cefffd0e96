-- ===== src/Delta/Values.antt =====
-- utils/delta.py: `_extract_changed_values`, the additive update between two versions of a tensor,
-- and `reconstruct_sparse_delta_tensor`, which applies one. Tensors are flat here.
pub mod Elements
pub mod Exact
pub mod Runs
use aurora_rl.Base.{
  ℕ, Bool, true, false, ◌&&◌, ◌||◌, not, List, [], ◌∷◌, ◌≡◌, Option, none, some, map, length, ltb,
  leb, if◌then◌else◌, Result, ok, err, ◌>>=◌, ◌>>◌, check, is_negative, get_elem?,
}
use aurora_rl.Sparse.{gather, scatter}
use aurora_rl.Delta.Errors.{DeltaError, not_exact, index_out_of_range}
use aurora_rl.Delta.Decode.{flatnonzero}
use aurora_rl.Delta.Indices.{IndexTensor, decode_sparse_indices}

-- What torch does with the elements of the tensors' dtype, of the wider dtype that
-- `_extract_changed_values` turns to, with a threshold, and with a scale factor.
pub record Arithmetic : Type 1 where
  pub Element : Type 0
  pub Wide : Type 0
  pub Threshold : Type 0
  pub Scale : Type 0
  pub differs : Element → Element → Bool
  pub equal : Element → Element → Bool
  pub minus : Element → Element → Element
  pub plus : Element → Element → Element
  pub exceeds : Element → Threshold → Bool
  pub widen : Element → Wide
  pub narrow : Wide → Element
  pub minus_wide : Wide → Wide → Wide
  pub plus_wide : Wide → Wide → Wide
  pub is_one : Scale → Bool
  pub times : Element → Scale → Element
  pub times_wide : Wide → Scale → Wide
  -- `!=` is the negation of `==`, which is symmetric.
  pub differs_negates : (a b : Element) → differs a b ≡ not (equal a b)
  pub equal_symmetric : (a b : Element) → equal a b ≡ equal b a

-- An elementwise operation on two tensors of one size.
unfoldable pub zip_with : {X Y Z : Type 0} → (X → Y → Z) → List X → List Y → List Z
zip_with f (x ∷ xs) (y ∷ ys) = f x y ∷ zip_with f xs ys
zip_with f _ _ = []

unfoldable pub any_negative : List ℕ → Bool
any_negative [] = false
any_negative (i ∷ is) = is_negative i || any_negative is

-- Some index is not negative and not below the size.
unfoldable pub any_beyond : ℕ → List ℕ → Bool
any_beyond size [] = false
any_beyond size (i ∷ is) = (not (is_negative i) && leb size i) || any_beyond size is

module _ (A : Arithmetic) where
  -- The tensor of values, of one dtype or the other.
  pub data Values : Type 0 where
    same_dtype : List A.Element → Values
    wide_dtype : List A.Wide → Values

  -- `torch.equal`
  unfoldable pub all_equal : List A.Element → List A.Element → Bool
  all_equal [] [] = true
  all_equal (x ∷ xs) (y ∷ ys) = A.equal x y && all_equal xs ys
  all_equal _ _ = false

  -- `flat.index_select(0, indices)`; every index is in range where it is called.
  unfoldable pub index_select : List A.Element → List ℕ → List A.Element
  index_select flat [] = []
  index_select flat (i ∷ is) = elim (get_elem? flat i) [
    | none ↦ index_select flat is
    | some v ↦ v ∷ index_select flat is
  ]

  -- A threshold of 0.0 is `none`.
  unfoldable pub is_changed : Option A.Threshold → A.Element → A.Element → Bool
  is_changed none target base = A.differs target base
  is_changed (some threshold) target base = A.exceeds (A.minus target base) threshold

  unfoldable pub changed_indices : Option A.Threshold → List A.Element → List A.Element → List ℕ
  changed_indices threshold base target =
      flatnonzero 0 (zip_with (is_changed threshold) target base)

  unfoldable pub add_wide : A.Element → A.Wide → A.Element
  add_wide base value = A.narrow (A.plus_wide (A.widen base) value)

  unfoldable pub subtract_wide : A.Element → A.Element → A.Wide
  subtract_wide target base = A.minus_wide (A.widen target) (A.widen base)

  unfoldable pub additive_values : List A.Element → List A.Element → Result DeltaError Values
  additive_values base target =
      let values = zip_with A.minus target base in
      let wide = zip_with subtract_wide target base in
      if all_equal (zip_with A.plus base values) target
      then ok (same_dtype values)
      else if all_equal (zip_with add_wide base wide) target
      then ok (wide_dtype wide)
      else err not_exact

  unfoldable pub extract_changed_values :
      Option A.Threshold → List A.Element → List A.Element → Result DeltaError (List ℕ × Values)
  extract_changed_values threshold base target = do
    let indices = changed_indices threshold base target
    values ← additive_values (index_select base indices) (index_select target indices)
    ok (indices, values)

  -- `values.numel()`
  unfoldable pub numel : Values → ℕ
  numel (same_dtype ws) = length ws
  numel (wide_dtype ws) = length ws

  unfoldable pub scaled : A.Scale → Values → Values
  scaled factor (same_dtype ws) =
      if A.is_one factor then same_dtype ws else same_dtype (map (λ w. A.times w factor) ws)
  scaled factor (wide_dtype ws) =
      if A.is_one factor then wide_dtype ws else wide_dtype (map (λ w. A.times_wide w factor) ws)

  -- `updated` and `index_copy_`; where the dtypes agree there is no promotion.
  unfoldable pub add_values : List A.Element → List ℕ → Values → List A.Element
  add_values flat indices (same_dtype ws) = scatter (gather A.plus flat indices ws) flat
  add_values flat indices (wide_dtype ws) = scatter (gather add_wide flat indices ws) flat

  -- `indices.min()` is negative or `indices.max()` is beyond: some index is.
  unfoldable pub reconstruct_sparse_delta_tensor :
      List A.Element → IndexTensor → Values → A.Scale → Result DeltaError (List A.Element)
  reconstruct_sparse_delta_tensor flat encoded_indices values scale_factor = do
    indices ← decode_sparse_indices encoded_indices (numel values)
    check (not (any_negative indices || any_beyond (length flat) indices)) index_out_of_range
    ok (add_values flat indices (scaled scale_factor values))
