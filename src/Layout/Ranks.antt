-- ===== src/Layout/Ranks.antt =====
-- The shards that `_project_regular` gives to the ranks of a tensor-parallel group.
use aurora_rl.Base.{
  ℕ, zero, suc, ◌+◌, ◌-◌, ◌*◌, ◌/◌, ◌%◌, ◌<◌, ◌≤◌, ◌≡◌, sym, ap, ◌∙◌, Bool, true, Option, none,
  some, List, [], ◌∷◌, map, length, drop, get_or, get_elem?, get_elem?-inside, get_elem?-map,
  Bool-cases, subst, inl, inr, ok, ok-injective, check, check-true, >>=-eq-ok, arith, leb, ltb,
  ◌==◌, ==→eq, ◌&&◌, leb→le, ltb→lt,
}
use aurora_rl.Base.Int.{ℤ, pos, negsuc}
use aurora_rl.Base.Blocks.{rows-le}
use aurora_rl.Layout.Errors.{LayoutError}
use aurora_rl.Layout.Project.{prod, coordinate, in_shard, project_dimension}
use aurora_rl.Layout.Project.Shard.{axis_value}
use aurora_rl.Layout.Project.Update.{projection, extent_pos}
use aurora_rl.Layout.Adapter.{
  Parameter, Layer, LogicalSparseUpdate, or_fail, parallel_position, tensor_parallel_position,
  shape_at, project_regular,
}
use native.Mathlib.Nat.{div-add-mod', mod-lt, mul_comm}
use native.Mathlib.Decide.{dec_lt}

-- Windows of `s` places: a place lies in the window of its quotient and in no other.
window_unique : (s c r r' : ℕ) → r * s ≤ c → c < r * s + s → r' * s ≤ c → c < r' * s + s → r' ≡ r
window_unique s c r r' from to from' to' = elim (dec_lt r r') [
  | yes lt ↦ absurd (omega (arith, rows-le (suc r) r' s (omega arith)))
  | no not_lt ↦ elim (dec_lt r' r) [
    | yes lt ↦ absurd (omega (arith, rows-le (suc r') r s (omega arith)))
    | no not_gt ↦ omega (arith, not_lt, not_gt)
  ]
]

share_pos : (s size extent : ℕ) → s * size ≡ extent → 0 < extent → 0 < s
share_pos zero size extent h lt = absurd (omega arith)
share_pos (suc s) size extent h lt = omega arith

rank-lt : (r s c size : ℕ) → r * s ≤ c → c < s * size → r < size
rank-lt r s c size from lt = elim (dec_lt r size) [
  | yes inside ↦ inside
  | no outside ↦ absurd (omega (arith, mul_comm s size, rows-le size r s (omega (arith, outside))))
]

in_window : (a b c : ℕ) → a ≤ c → c < b → (leb a c && ltb c b) ≡ true
in_window a b c from to = ground arith

window_from : (a b c : ℕ) → (leb a c && ltb c b) ≡ true → (a ≤ c) × (c < b)
window_from a b c h = (leb→le a c (ground arith), ltb→lt c b (ground arith))

module _ (inner extent target_extent tp_size target_start : ℕ) where
  abbrev shard_of : ℕ → ℕ → Bool
  shard_of rank =
      in_shard inner extent target_extent (rank * (extent / tp_size)) (extent / tp_size)
        target_start

  shards-partition :
      0 < extent
      → 0 < tp_size
      → extent % tp_size ≡ 0
      → (index : ℕ)
      → (rank : ℕ) × (rank < tp_size)
        × (shard_of rank index ≡ true)
        × ((other : ℕ) → shard_of other index ≡ true → other ≡ rank)
  unfolding in_shard coordinate
  shards-partition extent_pos size_pos whole index =
      let c : ℕ = index / inner % extent in
      let s : ℕ = extent / tp_size in
      let c_lt : c < extent = mod-lt (index / inner) extent_pos in
      let ext : s * tp_size ≡ extent = omega (arith, div-add-mod' extent tp_size) in
      let s_pos : 0 < s = share_pos s tp_size extent ext extent_pos in
      let own : c / s * s + c % s ≡ c = div-add-mod' c s in
      let place : c % s < s = mod-lt c s_pos in
      (
        c / s,
        rank-lt (c / s) s c tp_size (omega arith) (omega arith),
        in_window (c / s * s) (c / s * s + s) c (omega arith) (omega arith),
        λ other h.
            let (from, to) = window_from (other * s) (other * s + s) c h in
            window_unique s c (c / s) other (omega arith) (omega arith) from to,
      )

get_or-get_elem? : (xs : List ℕ) (i : ℕ) {x : ℕ} → get_elem? xs i ≡ some x → get_or xs i 0 ≡ x
get_or-get_elem? [] i h = cc
get_or-get_elem? (y ∷ xs) zero h = cc
get_or-get_elem? (y ∷ xs) (suc i) h = get_or-get_elem? xs i h

or_fail-some : (e : LayoutError) (o : Option ℕ) {x : ℕ} → or_fail e o ≡ ok x → o ≡ some x
unfolding or_fail
or_fail-some e none h = cc
or_fail-some e (some y) h = ap some (ok-injective h)

-- The extent that is read is that of the dimension that is meant.
shape_at-axis_value :
    (shape : List ℕ) (dimension : ℤ) {extent : ℕ}
    → shape_at shape dimension ≡ ok extent
    → get_or shape (axis_value (length shape) dimension) 0 ≡ extent
unfolding shape_at
shape_at-axis_value shape (pos d) h = get_or-get_elem? shape d (or_fail-some _ _ h)
shape_at-axis_value shape (negsuc d) h = elim (Bool-cases (ltb d (length shape))) [
  | inl inside ↦ get_or-get_elem? shape (length shape - suc d) (or_fail-some _ _ (rw inside at h))
  | inr outside ↦ absurd (let e = rw outside at h in cc)
]

-- The layer as the worker of a tensor-parallel rank has it.
abbrev pub at_rank : Layer → ℕ → ℕ → Layer
at_rank m tp_size rank = record m { tp_rank = pos rank; tp_size = pos tp_size }

position-at_rank :
    (m : Layer) (tp_size rank : ℕ)
    → rank < tp_size
    → tensor_parallel_position (at_rank m tp_size rank) ≡ ok (rank, tp_size)
unfolding tensor_parallel_position parallel_position
position-at_rank m tp_size rank lt = ground arith

module _ {W : Type 0} (u : LogicalSparseUpdate W) (param : Parameter) (dimension : ℤ) where
  abbrev d : ℕ
  d = axis_value (length u.shape) dimension

  abbrev extent : ℕ
  extent = get_or u.shape d 0

  abbrev shard : ℕ → ℕ → ℕ → ℕ → Bool
  shard = shard_of (prod (drop (d + 1) u.shape)) extent (get_or param.shape d 0)

  -- What `_project_regular` does on a worker: its sizes divide, and its mask is that of a window.
  regular-shard :
      (m : Layer) (tp_size rank : ℕ) {locals : List ℕ} {mask : List Bool}
      → rank < tp_size
      → project_regular u param (at_rank m tp_size rank) (some dimension) ≡ ok (locals, mask)
      → (extent % tp_size ≡ 0)
        × (0 < prod u.shape → 0 < extent)
        × (mask ≡ map (shard tp_size 0 rank) u.indices)
  unfolding project_regular or_fail
  regular-shard m tp_size rank {locals} {mask} lt h =
      let h1 = rw (position-at_rank m tp_size rank lt) at h in
      let (found, at, h2) = >>=-eq-ok (shape_at u.shape dimension) _ h1 in
      let same : extent ≡ found = shape_at-axis_value u.shape dimension at in
      let (_, divides, h3) = >>=-eq-ok (check (found % tp_size == 0) _) _ h2 in
      let windowed =
        subst
          (λ (e : ℕ).
            project_dimension u.indices u.shape param.shape dimension (pos (rank * (e / tp_size)))
              (pos (e / tp_size)) (pos 0)
            ≡ ok (locals, mask))
          (sym same) h3 in
      let p =
        projection u.indices u.shape param.shape dimension (pos (rank * (extent / tp_size)))
          (pos (extent / tp_size)) (pos 0) windowed in
      (rw same (==→eq _ _ (check-true _ _ divides)), extent_pos p, p.mask_eq)

  -- Where the projection to a row- or column-parallel weight succeeds on each of the tensor-parallel
  -- ranks, for a tensor that is not empty: each place of the index tensor is in the mask of one rank
  -- and of no other, so exactly one worker applies the change there.
  pub project_regular_partition :
      (m : Layer) (tp_size : ℕ) (locals : ℕ → List ℕ) (masks : ℕ → List Bool)
      → 0 < prod u.shape
      → 0 < tp_size
      → ((rank : ℕ)
          → rank < tp_size
          → project_regular u param (at_rank m tp_size rank) (some dimension)
            ≡ ok (locals rank, masks rank))
      → (i : ℕ) → i < length u.indices
      → (rank : ℕ) × (rank < tp_size)
        × (get_elem? (masks rank) i ≡ some true)
        × ((other : ℕ) → other < tp_size → get_elem? (masks other) i ≡ some true → other ≡ rank)
  project_regular_partition m tp_size locals masks not_empty size_pos projected i inside =
      let (x, at) = get_elem?-inside u.indices i inside in
      let (whole, extent_is_pos, _) = regular-shard m tp_size 0 size_pos (projected 0 size_pos) in
      let (rank, lt, mine, alone) =
        shards-partition (prod (drop (d + 1) u.shape)) extent (get_or param.shape d 0) tp_size 0
          (extent_is_pos not_empty) size_pos whole x in
      let at_mask : (r : ℕ) → r < tp_size → get_elem? (masks r) i ≡ some (shard tp_size 0 r x) =
        λ r r_lt.
          rw (regular-shard m tp_size r r_lt (projected r r_lt)).2
            (get_elem?-map (shard tp_size 0 r) u.indices i at) in
      (
        rank,
        lt,
        at_mask rank lt ∙ ap some mine,
        λ other other_lt h. alone other (let e = sym (at_mask other other_lt) ∙ h in cc),
      )
