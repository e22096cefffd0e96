-- ===== src/Layout/Runs.antt =====
-- Concrete runs of the layout adapter, and the theorems about it at concrete inputs.
use aurora_rl.Base.{
  ℕ, zero, suc, ◌+◌, ◌*◌, ◌<◌, ◌≡◌, refl, true, false, none, some, List, Bool, [], ◌∷◌, All,
  get_elem?, ok, if◌then◌else◌, arith, leb, ltb, ◌&&◌,
}
use aurora_rl.Base.Int.{pos}
use aurora_rl.Base.Names.{codes, same_name}
use aurora_rl.Sparse.{IncreasesFrom, gather, scatter}
use aurora_rl.Layout.Project.{
  prod, select, axis, others_agree, fits_shard, coordinate, in_shard, local_index,
  project_dimension,
}
use aurora_rl.Layout.Project.Address.{local_index_row_major}
use aurora_rl.Layout.Project.Update.{
  project-IncreasesFrom, project-scatter, projection, owned, moved,
}
use aurora_rl.Layout.Project.Shard.{Projection}
use aurora_rl.Layout.Ranks.{at_rank, project_regular_partition}
use aurora_rl.Layout.Adapter.{
  Adapter, Parameter, Layer, LogicalSparseUpdate, LocalSparseUpdate, or_fail, starts_with, contains,
  before_last_dot, kind_by_class, direct_layout_kind, parallel_position, tensor_parallel_position,
  parameter_module, mapping, validate_supported_parameter, strictly_increasing, last_below,
  ends_in_range, validate_update, shape_at, project_regular, project, to_local,
}
use aurora_rl.Layout.Adapter.Local.{IsLocal, to_local-IsLocal}

-- A weight of shape 4 × 2 whose rows two ranks share; this worker has the second half.
abbrev weight : Parameter
weight = record {
  shape = 2 ∷ 2 ∷ [];
  input_dim = some (pos 1);
  output_dim = some (pos 0);
  packed = false;
}

abbrev linear : Layer
linear = record {
  class_name = codes "ColumnParallelLinear";
  shard_kind = none;
  shard_indices = none;
  has_num_embeddings_per_partition = false;
  has_quant_config = false;
  quant_method = none;
  tp_rank = pos 1;
  tp_size = pos 2;
  output_sizes = none;
  qkv_sizes = none;
}

abbrev worker : Adapter
worker = record {
  params = λ name. if same_name name (codes "fc.weight") then some weight else none;
  modules = λ name. if same_name name (codes "fc") then some linear else none;
}

abbrev three_changes : LogicalSparseUpdate ℕ
three_changes = record {
  name = codes "fc.weight";
  shape = 4 ∷ 2 ∷ [];
  indices_are_int64 = true;
  indices = 1 ∷ 5 ∷ 6 ∷ [];
  values = 10 ∷ 20 ∷ 30 ∷ [];
}

abbrev two_changes : LocalSparseUpdate ℕ
two_changes = record { name = codes "fc.weight"; indices = 1 ∷ 2 ∷ []; values = 20 ∷ 30 ∷ [] }

project_run :
    project_dimension (1 ∷ 5 ∷ 6 ∷ []) (4 ∷ 2 ∷ []) (2 ∷ 2 ∷ []) (pos 0) (pos 2) (pos 2) (pos 0)
    ≡ ok (1 ∷ 2 ∷ [], false ∷ true ∷ true ∷ [])
unfolding select axis others_agree fits_shard coordinate in_shard local_index project_dimension
project_run = refl

to_local_run : to_local worker three_changes ≡ ok two_changes
unfolding or_fail starts_with contains before_last_dot kind_by_class direct_layout_kind
    parallel_position tensor_parallel_position parameter_module mapping validate_supported_parameter
    strictly_increasing last_below ends_in_range validate_update shape_at project_regular project
    to_local select axis others_agree fits_shard coordinate in_shard local_index project_dimension
to_local_run = refl

to_local-IsLocal_example :
    (param : Parameter) × (worker.params (codes "fc.weight") ≡ some param)
    × IsLocal {W = ℕ} param.shape (1 ∷ 2 ∷ []) (20 ∷ 30 ∷ [])
to_local-IsLocal_example =
    to_local-IsLocal worker three_changes two_changes (omega arith) to_local_run

local_index_row_major_example :
    (in_shard 2 4 2 2 2 0 ((0 * 4 + 3) * 2 + 1) ≡ (leb 2 3 && ltb 3 4))
    × (local_index 2 4 2 2 2 0 ((0 * 4 + 3) * 2 + 1) ≡ 3)
local_index_row_major_example =
    local_index_row_major 2 4 (omega arith) (omega arith) 2 2 2 0 0 3 1 (omega arith) (omega arith)

project-IncreasesFrom_example :
    IncreasesFrom 0 (1 ∷ 2 ∷ []) × All (λ x. x < prod (2 ∷ 2 ∷ [])) (1 ∷ 2 ∷ [])
project-IncreasesFrom_example =
    project-IncreasesFrom (1 ∷ 5 ∷ 6 ∷ []) (4 ∷ 2 ∷ []) (2 ∷ 2 ∷ []) (pos 0) (pos 2) (pos 2) (pos 0)
      project_run (omega arith) (omega arith)

first_change : LogicalSparseUpdate ℕ
first_change = record three_changes { indices = 1 ∷ 6 ∷ []; values = 10 ∷ 30 ∷ [] }

masks : ℕ → List Bool
masks zero = true ∷ false ∷ []
masks (suc rank) = false ∷ true ∷ []

locals : ℕ → List ℕ
locals zero = 1 ∷ []
locals (suc rank) = 2 ∷ []

projected :
    (rank : ℕ)
    → rank < 2
    → project_regular first_change weight (at_rank linear 2 rank) (some (pos 0))
      ≡ ok (locals rank, masks rank)
unfolding first_change masks locals or_fail parallel_position tensor_parallel_position shape_at
    project_regular select axis others_agree fits_shard coordinate in_shard local_index
    project_dimension
projected zero lt = refl
projected (suc zero) lt = refl
projected (suc (suc rank)) lt = absurd (omega arith)

project_regular_partition_example :
    (rank : ℕ) × (rank < 2)
    × (get_elem? (masks rank) 1 ≡ some true)
    × ((other : ℕ) → other < 2 → get_elem? (masks other) 1 ≡ some true → other ≡ rank)
unfolding first_change
project_regular_partition_example =
    project_regular_partition first_change weight (pos 0) linear 2 locals masks (omega arith)
      (omega arith) projected 1 (omega arith)

-- The second of two elements, on a worker that holds no other.
half_run :
    project_dimension (1 ∷ []) (2 ∷ []) (1 ∷ []) (pos 0) (pos 1) (pos 1) (pos 0)
    ≡ ok (0 ∷ [], true ∷ [])
unfolding select axis others_agree fits_shard coordinate in_shard local_index project_dimension
half_run = refl

abbrev half : Projection (2 ∷ []) (1 ∷ []) (1 ∷ []) 0 (pos 1) (pos 1) (pos 0) (0 ∷ []) (true ∷ [])
half = projection (1 ∷ []) (2 ∷ []) (1 ∷ []) (pos 0) (pos 1) (pos 1) (pos 0) half_run

half_held :
    (x : ℕ)
    → x < 2
    → owned half x ≡ true
    → get_elem? {A = ℕ} (8 ∷ []) (moved half x) ≡ get_elem? (7 ∷ 8 ∷ []) x
unfolding in_shard local_index coordinate
half_held zero lt h = cc
half_held (suc zero) lt h = refl
half_held (suc (suc x)) lt h = absurd (omega arith)

project-scatter_example :
    get_elem? {A = ℕ}
      (scatter (gather (λ v w. v + w) (8 ∷ []) (0 ∷ []) (select (true ∷ []) (5 ∷ []))) (8 ∷ []))
      0
    ≡ get_elem? (scatter (gather (λ v w. v + w) (7 ∷ 8 ∷ []) (1 ∷ []) (5 ∷ [])) (7 ∷ 8 ∷ [])) 1
unfolding local_index coordinate
project-scatter_example =
    project-scatter (1 ∷ []) (2 ∷ []) (1 ∷ []) (pos 0) (pos 1) (pos 1) (pos 0) half_run
      (omega arith) (omega arith) (λ v w. v + w) (5 ∷ []) (7 ∷ 8 ∷ []) (8 ∷ []) refl refl half_held
      1 (omega arith) (unfold in_shard in refl)
