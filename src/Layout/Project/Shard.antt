-- ===== src/Layout/Project/Shard.antt =====
-- What a successful projection is, for a whole index tensor.
use aurora_rl.Base.{
  ℕ, zero, suc, ◌+◌, ◌-◌, ◌*◌, ◌<◌, ◌≡◌, refl, ap, ap₂, Bool, true, false, List, [], ◌∷◌, map,
  length, get_or, take, drop, ◌==◌, ok, check, arith, >>=-eq-ok, ==→eq,
}
use aurora_rl.Base.Int.{ℤ, pos, negsuc}
use aurora_rl.Layout.Project.{
  prod, select, axis, others_agree, fits_shard, natural, in_shard, local_index, project_dimension,
}

-- The facts behind a result, where the dimension that was meant is `d`.
pub record Projection (source_shape target_shape indices : List ℕ) (d : ℕ)
    (source_start source_size target_start : ℤ) (locals : List ℕ) (mask : List Bool) : Type 0 where
  pub d_lt : d < length source_shape
  pub same_rank : length source_shape ≡ length target_shape
  pub others : others_agree d 0 source_shape target_shape ≡ true
  pub source_fits : fits_shard source_start source_size (get_or source_shape d 0) ≡ true
  pub target_fits : fits_shard target_start source_size (get_or target_shape d 0) ≡ true
  pub mask_eq :
      mask
      ≡ map
          (in_shard
            (prod (drop (d + 1) source_shape))
            (get_or source_shape d 0)
            (get_or target_shape d 0)
            (natural source_start)
            (natural source_size)
            (natural target_start))
          indices
  pub locals_eq :
      locals
      ≡ map
          (local_index
            (prod (drop (d + 1) source_shape))
            (get_or source_shape d 0)
            (get_or target_shape d 0)
            (natural source_start)
            (natural source_size)
            (natural target_start))
          (select mask indices)

-- The dimension that is meant, counted from 0.
abbrev pub axis_value : ℕ → ℤ → ℕ
axis_value rank (pos d) = d
axis_value rank (negsuc d) = rank - suc d

axis-axis_value :
    (rank : ℕ) (dimension : ℤ) {d : ℕ} → axis rank dimension ≡ ok d → axis_value rank dimension ≡ d
unfolding axis
axis-axis_value rank (pos d) h = ground arith
axis-axis_value rank (negsuc d) h = ground arith

axis-lt : (rank : ℕ) (dimension : ℤ) {d : ℕ} → axis rank dimension ≡ ok d → d < rank
unfolding axis
axis-lt rank (pos d) h = ground arith
axis-lt rank (negsuc d) h = ground arith

check-true : {E : Type 0} (b : Bool) (e : E) {u : Unit {0}} → check b e ≡ ok u → b ≡ true
check-true true e h = refl
check-true false e h = cc

pub project-Projection :
    (indices source_shape target_shape : List ℕ)
    (dimension source_start source_size target_start : ℤ) {locals : List ℕ} {mask : List Bool}
    → project_dimension indices source_shape target_shape dimension source_start source_size
        target_start
      ≡ ok (locals, mask)
    → Projection source_shape target_shape indices
        (axis_value (length source_shape) dimension)
        source_start
        source_size
        target_start
        locals
        mask
unfolding project_dimension
project-Projection indices ss ts dim start size tstart {locals} {mask} h =
    let (_, ranks, h1) = >>=-eq-ok (check (length ss == length ts) _) _ h in
    let (d, at, h2) = >>=-eq-ok (axis (length ss) dim) _ h1 in
    let (_, others, h3) = >>=-eq-ok (check (others_agree d 0 ss ts) _) _ h2 in
    let (_, source, h4) = >>=-eq-ok (check (fits_shard start size (get_or ss d 0)) _) _ h3 in
    let (_, target, h5) = >>=-eq-ok (check (fits_shard tstart size (get_or ts d 0)) _) _ h4 in
    rw (axis-axis_value (length ss) dim at) (record {
      d_lt = axis-lt (length ss) dim at;
      same_rank = ==→eq _ _ (check-true _ _ ranks);
      others = check-true _ _ others;
      source_fits = check-true _ _ source;
      target_fits = check-true _ _ target;
      mask_eq = cc h5;
      locals_eq = cc h5;
    })

-- The numbers before, at and behind dimension `d`.
pub prod-split :
    (d : ℕ) (shape : List ℕ)
    → d < length shape
    → prod shape ≡ prod (take d shape) * (get_or shape d 0 * prod (drop (suc d) shape))
prod-split d [] h = absurd (omega arith)
prod-split zero (s ∷ shape) h = omega arith
prod-split (suc d) (s ∷ shape) h = rw (prod-split d shape (omega arith)) (omega arith)

-- Behind the sharded dimension the shapes are equal.
others_agree-behind :
    (dimension position : ℕ) (source target : List ℕ)
    → dimension < position
    → length source ≡ length target
    → others_agree dimension position source target ≡ true
    → source ≡ target
unfolding others_agree
others_agree-behind dimension position [] [] later e h = refl
others_agree-behind dimension position [] (t ∷ target) later e h = absurd (omega arith)
others_agree-behind dimension position (s ∷ source) [] later e h = absurd (omega arith)
others_agree-behind dimension position (s ∷ source) (t ∷ target) later e h =
    ground (arith, others_agree-behind dimension (position + 1) source target)

pub others_agree-prod :
    (d position dimension : ℕ) (source target : List ℕ)
    → dimension ≡ position + d
    → length source ≡ length target
    → others_agree dimension position source target ≡ true
    → (prod (take d source) ≡ prod (take d target))
      × (prod (drop (suc d) source) ≡ prod (drop (suc d) target))
unfolding others_agree
others_agree-prod d position dimension [] [] at e h = (refl, refl)
others_agree-prod d position dimension [] (t ∷ target) at e h = absurd (omega arith)
others_agree-prod d position dimension (s ∷ source) [] at e h = absurd (omega arith)
others_agree-prod zero position dimension (s ∷ source) (t ∷ target) at e h = (
  refl,
  ap prod (
      others_agree-behind dimension (position + 1) source target (omega arith) (omega arith)
        (ground arith)),
)
others_agree-prod (suc d) position dimension (s ∷ source) (t ∷ target) at e h =
    let (outer, inner) =
      others_agree-prod d (position + 1) dimension source target (omega arith) (omega arith)
        (ground arith) in
    (ap₂ ◌*◌ (ground arith) outer, inner)
