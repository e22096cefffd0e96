-- ===== src/Layout/Project.antt =====
-- `_project_dimension`: the indices of one tensor that lie in a shard of one dimension, as indices
-- of the local tensor. Index tensors hold numbers from 0 on here: `_validate_update` runs first.
pub mod Address
pub mod Shard
pub mod Update
use aurora_rl.Base.{
  ℕ, zero, suc, ◌+◌, ◌-◌, ◌*◌, ◌/◌, ◌%◌, Bool, true, false, ◌&&◌, ◌||◌, not, Option, none, some,
  List, [], ◌∷◌, map, length, get_or, drop, ltb, leb, ◌==◌, if◌then◌else◌, Result, ok, err, ◌>>=◌,
  ◌>>◌, check,
}
use aurora_rl.Base.Int.{ℤ, pos, negsuc}
use aurora_rl.Layout.Errors.{
  LayoutError, ranks_differ, invalid_dimension, other_dimensions_differ, invalid_source_shard,
  invalid_target_shard,
}

-- `math.prod`
abbrev pub prod : List ℕ → ℕ
prod [] = 1
prod (d ∷ ds) = d * prod ds

-- `tensor[mask]`
unfoldable pub select {ℓ} : {A : Type ℓ} → List Bool → List A → List A
select (true ∷ mask) (x ∷ xs) = x ∷ select mask xs
select (false ∷ mask) (x ∷ xs) = select mask xs
select _ _ = []

-- `if dimension < 0: dimension += rank`, and the range check.
unfoldable pub axis : ℕ → ℤ → Result LayoutError ℕ
axis rank (pos d) = if ltb d rank then ok d else err invalid_dimension
axis rank (negsuc d) = if ltb d rank then ok (rank - suc d) else err invalid_dimension

-- The loop over the axes, from axis `position` on; `zip` stops at the shorter shape.
unfoldable pub others_agree : ℕ → ℕ → List ℕ → List ℕ → Bool
others_agree dimension position (s ∷ source) (t ∷ target) =
    (position == dimension || s == t) && others_agree dimension (position + 1) source target
others_agree dimension position _ _ = true

-- `start < 0 or size < 0 or start + size > extent` fails.
unfoldable pub fits_shard : ℤ → ℤ → ℕ → Bool
fits_shard (pos start) (pos size) extent = leb (start + size) extent
fits_shard _ _ extent = false

abbrev pub natural : ℤ → ℕ
natural (pos n) = n
natural (negsuc n) = 0

-- The vectorised arithmetic, at one place of the index tensor.
module _ (inner_size source_extent target_extent source_start source_size target_start : ℕ) where
  unfoldable pub coordinate : ℕ → ℕ
  coordinate index = index / inner_size % source_extent

  unfoldable pub in_shard : ℕ → Bool
  in_shard index =
      leb source_start (coordinate index) && ltb (coordinate index) (source_start + source_size)

  unfoldable pub local_index : ℕ → ℕ
  local_index index =
      let outer = index / (source_extent * inner_size) in
      let inner = index % inner_size in
      let local_coordinate = coordinate index - source_start + target_start in
      outer * (target_extent * inner_size) + local_coordinate * inner_size + inner

unfoldable pub project_dimension :
    List ℕ → List ℕ → List ℕ → ℤ → ℤ → ℤ → ℤ → Result LayoutError (List ℕ × List Bool)
project_dimension indices source_shape target_shape dimension source_start source_size
      target_start =
    do
      check (length source_shape == length target_shape) ranks_differ
      d ← axis (length source_shape) dimension
      check (others_agree d 0 source_shape target_shape) other_dimensions_differ
      let source_extent = get_or source_shape d 0
      let target_extent = get_or target_shape d 0
      check (fits_shard source_start source_size source_extent) invalid_source_shard
      check (fits_shard target_start source_size target_extent) invalid_target_shard
      let inner_size = prod (drop (d + 1) source_shape)
      let mask =
          map
            (in_shard inner_size source_extent target_extent (natural source_start)
              (natural source_size) (natural target_start))
            indices
      ok (
        map
            (local_index inner_size source_extent target_extent (natural source_start)
              (natural source_size) (natural target_start))
            (select mask indices),
        mask,
      )
