-- ===== src/Layout/Adapter/Local.antt =====
-- Every mapped update is in the form that its local parameter takes.
use aurora_rl.Base.{
  ℕ, zero, suc, ◌%◌, ◌<◌, ◌≡◌, refl, ◌∙◌, ap, Bool, true, false, Option, none, some, List, [], ◌∷◌,
  length, length-map, All, ◌==◌, Result, ok, ◌>>=◌, check, >>=-eq-ok, ok-injective, Bool-cases, inl,
  inr, subst, arith, IsInt64, replicate, get_elem?,
}
use aurora_rl.Base.Int.{ℤ, pos}
use aurora_rl.Base.Names.{same_shape, same_name→eq}
use aurora_rl.Sparse.{IncreasesFrom}
use aurora_rl.Layout.Errors.{LayoutError}
use aurora_rl.Layout.Project.{prod, select, project_dimension}
use aurora_rl.Layout.Project.Shard.{Projection, axis_value, project-Projection}
use aurora_rl.Layout.Project.Update.{project-IncreasesFrom}
use aurora_rl.Layout.Adapter.{
  Adapter, Parameter, Layer, LogicalSparseUpdate, LocalSparseUpdate, Kind, ShardId, qkv,
  merged_column, row, column, vocab, replicated, other_kind, no_shard, q, k, v, part, or_fail,
  validate_update, project_regular, project_vocab, project_merged_column, project_qkv, project,
  to_local, mapping, parameter_module, validate_supported_parameter, tensor_parallel_position,
  shape_at, all_divisible, qkv_shard, source_rank,
}
use aurora_rl.Layout.Adapter.Valid.{ValidUpdate, validate-ValidUpdate}

-- The local update: increasing indices within the parameter, one value each.
pub record IsLocal {W : Type 0} (shape : List ℕ) (indices : List ℕ) (values : List W) : Type 0 where
  pub increasing : IncreasesFrom 0 indices
  pub inside : All (λ i. i < prod shape) indices
  pub same_length : length indices ≡ length values

length-select :
    {V W : Type 0} (mask : List Bool) (xs : List V) (ws : List W)
    → length xs ≡ length ws
    → length (select mask xs) ≡ length (select mask ws)
unfolding select
length-select [] xs ws h = refl
length-select (true ∷ mask) [] [] h = refl
length-select (true ∷ mask) [] (w ∷ ws) h = absurd (omega arith)
length-select (true ∷ mask) (x ∷ xs) [] h = absurd (omega arith)
length-select (true ∷ mask) (x ∷ xs) (w ∷ ws) h = ap suc (length-select mask xs ws (omega arith))
length-select (false ∷ mask) [] [] h = refl
length-select (false ∷ mask) [] (w ∷ ws) h = absurd (omega arith)
length-select (false ∷ mask) (x ∷ xs) [] h = absurd (omega arith)
length-select (false ∷ mask) (x ∷ xs) (w ∷ ws) h = length-select mask xs ws (omega arith)

select_all : {W : Type 0} (ws : List W) (n : ℕ) → n ≡ length ws → select (replicate n true) ws ≡ ws
unfolding select
select_all [] zero h = refl
select_all [] (suc n) h = absurd (omega arith)
select_all (w ∷ ws) zero h = absurd (omega arith)
select_all (w ∷ ws) (suc n) h = ap (λ t. w ∷ t) (select_all ws n (omega arith))

module _ {W : Type 0} (u : LogicalSparseUpdate W) (valid : ValidUpdate u) (param : Parameter) where
  abbrev Good : List ℕ × List Bool → Type 0
  Good r = IsLocal param.shape r.0 (select r.1 u.values)

  dimension-IsLocal :
      (dimension start size target_start : ℤ) (locals : List ℕ) (mask : List Bool)
      → project_dimension u.indices u.shape param.shape dimension start size target_start
        ≡ ok (locals, mask)
      → Good (locals, mask)
  dimension-IsLocal dimension start size target_start locals mask h =
      let p : Projection u.shape param.shape u.indices (axis_value (length u.shape) dimension) start
          size target_start locals mask =
        project-Projection u.indices u.shape param.shape dimension start size target_start h in
      let (increasing, inside) =
        project-IncreasesFrom u.indices u.shape param.shape dimension start size target_start h
          valid.increasing valid.inside in
      record {
        increasing = increasing;
        inside = inside;
        same_length =
            ap length p.locals_eq
            ∙ length-map _ (select mask u.indices)
            ∙ length-select mask u.indices u.values valid.same_length;
      }

  module _ (m : Layer) where
    regular-IsLocal :
        (attribute : Option ℤ) (locals : List ℕ) (mask : List Bool)
        → project_regular u param m attribute ≡ ok (locals, mask)
        → Good (locals, mask)
    unfolding project_regular
    regular-IsLocal attribute locals mask h =
        let (dimension, _, h1) = >>=-eq-ok (or_fail _ attribute) _ h in
        let ((rank, size), _, h2) = >>=-eq-ok (tensor_parallel_position m) _ h1 in
        let (extent, _, h3) = >>=-eq-ok (shape_at u.shape dimension) _ h2 in
        let (_, _, h4) = >>=-eq-ok (check (extent % size == 0) _) _ h3 in
        dimension-IsLocal dimension _ _ _ locals mask h4

    vocab-IsLocal :
        (locals : List ℕ) (mask : List Bool)
        → project_vocab u param m ≡ ok (locals, mask)
        → Good (locals, mask)
    unfolding project_vocab
    vocab-IsLocal locals mask h =
        let ((start, end), _, h1) = >>=-eq-ok (or_fail _ m.shard_indices) _ h in
        dimension-IsLocal (pos 0) _ _ _ locals mask h1

    merged-IsLocal :
        (shard_id : ℕ) (locals : List ℕ) (mask : List Bool)
        → project_merged_column u param m shard_id ≡ ok (locals, mask)
        → Good (locals, mask)
    unfolding project_merged_column
    merged-IsLocal shard_id locals mask h =
        let (sizes, _, h1) = >>=-eq-ok (or_fail _ m.output_sizes) _ h in
        let (expected, _, h2) = >>=-eq-ok (or_fail _ (get_elem? sizes shard_id)) _ h1 in
        let (rows, _, h3) = >>=-eq-ok (or_fail _ (get_elem? u.shape 0)) _ h2 in
        let (_, _, h4) = >>=-eq-ok (check (rows == expected) _) _ h3 in
        let ((rank, size), _, h5) = >>=-eq-ok (tensor_parallel_position m) _ h4 in
        let (_, _, h6) = >>=-eq-ok (check (all_divisible u param m sizes size) _) _ h5 in
        dimension-IsLocal (pos 0) _ _ _ locals mask h6

    qkv-IsLocal :
        (shard_id : ShardId) (locals : List ℕ) (mask : List Bool)
        → project_qkv u param m shard_id ≡ ok (locals, mask)
        → Good (locals, mask)
    unfolding project_qkv
    qkv-IsLocal shard_id locals mask h =
        let (sizes, _, h1) = >>=-eq-ok (or_fail _ m.qkv_sizes) _ h in
        let (found, _, h2) = >>=-eq-ok (or_fail _ (qkv_shard u param m sizes shard_id)) _ h1 in
        let (rows, _, h3) = >>=-eq-ok (or_fail _ (get_elem? u.shape 0)) _ h2 in
        let (_, _, h4) = >>=-eq-ok (check (rows == found.0) _) _ h3 in
        let ((rank, size), _, h5) = >>=-eq-ok (tensor_parallel_position m) _ h4 in
        let (own_rank, _, h6) =
          >>=-eq-ok (or_fail _ (source_rank u param m sizes shard_id rank)) _ h5 in
        dimension-IsLocal (pos 0) _ _ _ locals mask h6

    replicated-IsLocal : param.shape ≡ u.shape → Good (u.indices, replicate (length u.indices) true)
    replicated-IsLocal same = record {
      increasing = valid.increasing;
      inside = rw same valid.inside;
      same_length = rw (select_all u.values (length u.indices) valid.same_length) valid.same_length;
    }

    project-IsLocal :
        (kind : Kind) (shard_id : ShardId) (locals : List ℕ) (mask : List Bool)
        → project u param m kind shard_id ≡ ok (locals, mask)
        → Good (locals, mask)
    unfolding project
    project-IsLocal qkv shard_id locals mask h = qkv-IsLocal shard_id locals mask h
    project-IsLocal merged_column (part n) locals mask h = merged-IsLocal n locals mask h
    project-IsLocal merged_column no_shard locals mask h = cc
    project-IsLocal merged_column q locals mask h = cc
    project-IsLocal merged_column k locals mask h = cc
    project-IsLocal merged_column v locals mask h = cc
    project-IsLocal row shard_id locals mask h = regular-IsLocal param.input_dim locals mask h
    project-IsLocal column shard_id locals mask h = regular-IsLocal param.output_dim locals mask h
    project-IsLocal vocab shard_id locals mask h = vocab-IsLocal locals mask h
    project-IsLocal replicated shard_id locals mask h =
        elim (Bool-cases (same_shape param.shape u.shape)) [
          | inl same ↦
              let kept : Result LayoutError (List ℕ × List Bool) =
                ok (u.indices, replicate (length u.indices) true) in
              let found : kept ≡ ok (locals, mask) = cc in
              subst (λ r. Good r) (ok-injective found) (replicated-IsLocal (same_name→eq _ _ same))
          | inr other ↦ absurd cc
        ]
    project-IsLocal other_kind shard_id locals mask h = cc

or_fail-some :
    {A : Type 0} (e : LayoutError) (found : Option A) (a : A)
    → or_fail e found ≡ ok a
    → found ≡ some a
unfolding or_fail
or_fail-some e none a h = cc
or_fail-some e (some b) a h = cc

module _ {W : Type 0} (a : Adapter) (u : LogicalSparseUpdate W) where
  abbrev Lands : LocalSparseUpdate W → Type 0
  Lands l =
      (param : Parameter) × (a.params l.name ≡ some param) × IsLocal param.shape l.indices l.values

  Lands-eq :
      (l : LocalSparseUpdate W) (name : List ℕ) (param : Parameter) (m : Layer) (kind : Kind)
      (shard_id : ShardId)
      → All IsInt64 u.indices
      → validate_update u ≡ ok tt
      → a.params name ≡ some param
      → (project u param m kind shard_id >>= λ r.
          ok (record { name = name; indices = r.0; values = select r.1 u.values }))
        ≡ ok l
      → Lands l
  Lands-eq l name param m kind shard_id patterns checked found h =
      let ((locals, mask), mapped, built) = >>=-eq-ok (project u param m kind shard_id) _ h in
      let good =
        project-IsLocal u (validate-ValidUpdate u patterns checked) param m kind shard_id locals
          mask mapped in
      subst (λ l'. Lands l') (ok-injective built) (param, found, good)

  -- An update over int64 indices that the adapter maps names a parameter of the model, and its
  -- local indices increase strictly within that parameter's elements and have one value each.
  pub to_local-IsLocal :
      (l : LocalSparseUpdate W)
      → All IsInt64 u.indices
      → to_local a u ≡ ok l
      → (param : Parameter) × (a.params l.name ≡ some param)
        × IsLocal param.shape l.indices l.values
  unfolding to_local
  to_local-IsLocal l patterns h =
      let (target, _, h1) = >>=-eq-ok (mapping a u.name) _ h in
      let (param, found, h2) = >>=-eq-ok (or_fail _ (a.params target.target_name)) _ h1 in
      let (m, _, h3) = >>=-eq-ok (parameter_module a target.target_name) _ h2 in
      let (_, _, h4) = >>=-eq-ok (validate_supported_parameter param m) _ h3 in
      let (tt, checked, h5) = >>=-eq-ok (validate_update u) _ h4 in
      Lands-eq l target.target_name param m target.kind target.shard_id patterns checked
        (or_fail-some _ _ param found) h5
