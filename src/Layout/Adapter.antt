-- ===== src/Layout/Adapter.antt =====
-- `DenseVllmModelLayoutAdapter`: one logical update, mapped to the parameter and the indices that
-- this worker holds. Attributes that the code reads with a default are fields with that default put
-- in; sizes are numbers from 0 on.
pub mod Valid
pub mod Local
use aurora_rl.Base.{
  ℕ, zero, suc, ◌+◌, ◌-◌, ◌*◌, ◌/◌, ◌%◌, ◌^◌, Bool, true, false, ◌&&◌, ◌||◌, not, Option, none,
  some, List, [], ◌∷◌, ◌++◌, map, length, get_elem?, take, sum, ltb, leb, ◌==◌, if◌then◌else◌,
  Result, ok, err, ◌>>=◌, ◌>>◌, check, is_negative, replicate,
}
use aurora_rl.Base.Int.{ℤ, pos, negsuc, ◌-ℤ◌}
use aurora_rl.Base.Names.{Name, codes, same_name, same_shape, strip_suffix}
use aurora_rl.Layout.Errors.{
  LayoutError, unsupported_parameter, unresolved_module, quantized_layout, packed_parameter,
  not_int64, length_mismatch, not_increasing, index_out_of_range, no_dimension_attribute,
  not_divisible, no_shard_indices, invalid_shard_id, merged_shape_mismatch, qkv_shape_mismatch,
  replicated_shape_mismatch, unsupported_kind, invalid_tp_position, missing_attribute,
}
use aurora_rl.Layout.Project.{prod, select, axis, project_dimension}

pub data Kind : Type 0 where
  qkv merged_column row column vocab replicated other_kind : Kind

pub data ShardId : Type 0 where
  no_shard q k v : ShardId
  part : ℕ → ShardId

pub record LayoutMapping : Type 0 where
  pub target_name : Name
  pub kind : Kind
  pub shard_id : ShardId

pub record Parameter : Type 0 where
  pub shape : List ℕ
  pub input_dim : Option ℤ
  pub output_dim : Option ℤ
  pub packed : Bool

pub record QkvSizes : Type 0 where
  pub head_size : ℕ
  pub v_head_size : ℕ
  pub total_num_heads : ℕ
  pub total_num_kv_heads : ℕ
  pub num_heads : ℕ
  pub num_kv_heads : ℕ
  pub num_kv_head_replicas : ℕ

pub record Layer : Type 0 where
  pub class_name : Name
  pub shard_kind : Option Kind
  pub shard_indices : Option (ℤ × ℤ)
  pub has_num_embeddings_per_partition : Bool
  pub has_quant_config : Bool
  pub quant_method : Option Name
  pub tp_rank : ℤ
  pub tp_size : ℤ
  pub output_sizes : Option (List ℕ)
  pub qkv_sizes : Option QkvSizes

pub record Adapter : Type 0 where
  pub params : Name → Option Parameter
  pub modules : Name → Option Layer

-- The value type is that of the tensors' elements.
pub record LogicalSparseUpdate (W : Type 0) : Type 0 where
  pub name : Name
  pub shape : List ℕ
  pub indices_are_int64 : Bool
  pub indices : List ℕ
  pub values : List W

pub record LocalSparseUpdate (W : Type 0) : Type 0 where
  pub name : Name
  pub indices : List ℕ
  pub values : List W

unfoldable pub or_fail {ℓ} : {A : Type ℓ} → LayoutError → Option A → Result LayoutError A
or_fail e none = err e
or_fail e (some a) = ok a

-- `piece in text`
unfoldable pub starts_with : Name → Name → Bool
starts_with [] text = true
starts_with (a ∷ as') [] = false
starts_with (a ∷ as') (b ∷ text) = a == b && starts_with as' text

unfoldable pub contains : Name → Name → Bool
contains piece [] = starts_with piece []
contains piece (c ∷ text) = starts_with piece (c ∷ text) || contains piece text

-- `name.rpartition(".")[0]`, or nothing where there is no dot.
unfoldable pub before_last_dot : Name → Option Name
before_last_dot [] = none
before_last_dot (c ∷ name) = elim (before_last_dot name) [
  | some front ↦ some (c ∷ front)
  | none ↦ if c == b'.' then some [] else none
]

unfoldable pub kind_by_class : Layer → Parameter → Kind
kind_by_class m param =
    if contains (codes "RowParallelLinear") m.class_name
    then elim param.input_dim [ none ↦ replicated | some _ ↦ row ]
    else if contains (codes "ColumnParallelLinear") m.class_name
        || contains (codes "ParallelLMHead") m.class_name
    then elim param.output_dim [ none ↦ replicated | some _ ↦ column ]
    else replicated

unfoldable pub direct_layout_kind : Layer → Parameter → Kind
direct_layout_kind m param = elim m.shard_kind [
  | some kind ↦ kind
  | none ↦ elim m.shard_indices [
    | some _ ↦ if m.has_num_embeddings_per_partition then vocab else kind_by_class m param
    | none ↦ kind_by_class m param
  ]
]

unfoldable pub parallel_position : ℤ → ℤ → Result LayoutError (ℕ × ℕ)
parallel_position (pos rank) (pos size) =
    if ltb size 1 || leb size rank then err invalid_tp_position else ok (rank, size)
parallel_position _ _ = err invalid_tp_position

unfoldable pub tensor_parallel_position : Layer → Result LayoutError (ℕ × ℕ)
unfolding parallel_position
tensor_parallel_position m = parallel_position m.tp_rank m.tp_size

-- `_FUSED_SUFFIX_MAPPINGS`: source suffix, target suffix, kind, shard.
abbrev pub FusedRule : Type 0
FusedRule = Name × Name × Kind × ShardId

unfoldable pub fused_suffix_mappings : List FusedRule
fused_suffix_mappings =
    (codes ".self_attn.q_proj.weight", codes ".self_attn.qkv_proj.weight", qkv, q)
    ∷ (codes ".self_attn.k_proj.weight", codes ".self_attn.qkv_proj.weight", qkv, k)
    ∷ (codes ".self_attn.v_proj.weight", codes ".self_attn.qkv_proj.weight", qkv, v)
    ∷ (codes ".self_attn.q_proj.bias", codes ".self_attn.qkv_proj.bias", qkv, q)
    ∷ (codes ".self_attn.k_proj.bias", codes ".self_attn.qkv_proj.bias", qkv, k)
    ∷ (codes ".self_attn.v_proj.bias", codes ".self_attn.qkv_proj.bias", qkv, v)
    ∷ (codes ".mlp.gate_proj.weight", codes ".mlp.gate_up_proj.weight", merged_column, part 0)
    ∷ (codes ".mlp.up_proj.weight", codes ".mlp.gate_up_proj.weight", merged_column, part 1)
    ∷ (codes ".mlp.gate_proj.bias", codes ".mlp.gate_up_proj.bias", merged_column, part 0)
    ∷ (codes ".mlp.up_proj.bias", codes ".mlp.gate_up_proj.bias", merged_column, part 1)
    ∷ []

module _ (a : Adapter) where
  unfoldable pub parameter_module : Name → Result LayoutError Layer
  parameter_module parameter_name =
      or_fail unresolved_module
        (a.modules (elim (before_last_dot parameter_name) [ none ↦ [] | some front ↦ front ]))

  -- The loop over the rules; the first whose suffix fits decides.
  unfoldable pub fused_mapping : List FusedRule → Name → Result LayoutError LayoutMapping
  fused_mapping [] source_name = err unsupported_parameter
  fused_mapping ((source_suffix, target_suffix, kind, shard_id) ∷ rules) source_name =
      elim (strip_suffix source_suffix source_name) [
        | none ↦ fused_mapping rules source_name
        | some front ↦ elim (a.params (front ++ target_suffix)) [
          | none ↦ err unsupported_parameter
          | some _ ↦
              ok (record { target_name = front ++ target_suffix; kind = kind; shard_id = shard_id })
        ]
      ]

  unfoldable pub mapping : Name → Result LayoutError LayoutMapping
  mapping source_name = elim (a.params source_name) [
    | some param ↦ do
      m ← parameter_module source_name
      ok (record {
        target_name = source_name;
        kind = direct_layout_kind m param;
        shard_id = no_shard;
      })
    | none ↦ fused_mapping fused_suffix_mappings source_name
  ]

unfoldable pub is_unquantized : Name → Bool
is_unquantized method =
    same_name method (codes "UnquantizedEmbeddingMethod")
    || same_name method (codes "UnquantizedLinearMethod")

unfoldable pub validate_supported_parameter : Parameter → Layer → Result LayoutError (Unit {0})
validate_supported_parameter param m = do
  check (not m.has_quant_config) quantized_layout
  check (elim m.quant_method [ none ↦ true | some method ↦ is_unquantized method ]) quantized_layout
  check (not param.packed) packed_parameter

-- The order of int64 patterns as signed numbers.
abbrev pub flip_sign : ℕ → ℕ
flip_sign x = (x + 2 ^ 63) % 2 ^ 64

-- `not torch.any(indices[1:] <= indices[:-1])`
unfoldable pub strictly_increasing : List ℕ → Bool
strictly_increasing [] = true
strictly_increasing (x ∷ []) = true
strictly_increasing (x ∷ y ∷ xs) = ltb (flip_sign x) (flip_sign y) && strictly_increasing (y ∷ xs)

-- `indices.numel() and (int(indices[0]) < 0 or int(indices[-1]) >= numel)` fails.
unfoldable pub last_below : ℕ → List ℕ → Bool
last_below numel [] = true
last_below numel (x ∷ []) = is_negative x || ltb x numel
last_below numel (x ∷ y ∷ xs) = last_below numel (y ∷ xs)

unfoldable pub ends_in_range : ℕ → List ℕ → Bool
ends_in_range numel [] = true
ends_in_range numel (x ∷ xs) = not (is_negative x) && last_below numel (x ∷ xs)

unfoldable pub validate_update :
    {W : Type 0} → LogicalSparseUpdate W → Result LayoutError (Unit {0})
validate_update u = do
  check u.indices_are_int64 not_int64
  check (length u.indices == length u.values) length_mismatch
  check (strictly_increasing u.indices) not_increasing
  check (ends_in_range (prod u.shape) u.indices) index_out_of_range

-- `shape[dimension]`, which Python counts from the end where it is negative.
unfoldable pub shape_at : List ℕ → ℤ → Result LayoutError ℕ
shape_at shape (pos d) = or_fail missing_attribute (get_elem? shape d)
shape_at shape (negsuc d) =
    if ltb d (length shape)
    then or_fail missing_attribute (get_elem? shape (length shape - suc d))
    else err missing_attribute

module _ {W : Type 0} (update : LogicalSparseUpdate W) (param : Parameter) (m : Layer) where
  unfoldable pub project_regular : Option ℤ → Result LayoutError (List ℕ × List Bool)
  project_regular dimension_attribute = do
    dimension ← or_fail no_dimension_attribute dimension_attribute
    (tp_rank, tp_size) ← tensor_parallel_position m
    extent ← shape_at update.shape dimension
    check (extent % tp_size == 0) not_divisible
    let shard_size = extent / tp_size
    project_dimension update.indices update.shape param.shape dimension (pos (tp_rank * shard_size))
        (pos shard_size) (pos 0)

  -- `end - start` as an integer.
  unfoldable pub project_vocab : Result LayoutError (List ℕ × List Bool)
  project_vocab = do
    (start, end) ← or_fail no_shard_indices m.shard_indices
    project_dimension update.indices update.shape param.shape (pos 0) start (end -ℤ start) (pos 0)

  unfoldable pub all_divisible : List ℕ → ℕ → Bool
  all_divisible [] tp_size = true
  all_divisible (size ∷ sizes) tp_size = size % tp_size == 0 && all_divisible sizes tp_size

  unfoldable pub project_merged_column : ℕ → Result LayoutError (List ℕ × List Bool)
  project_merged_column shard_id = do
    output_sizes ← or_fail missing_attribute m.output_sizes
    expected ← or_fail invalid_shard_id (get_elem? output_sizes shard_id)
    rows ← or_fail missing_attribute (get_elem? update.shape 0)
    check (rows == expected) merged_shape_mismatch
    (tp_rank, tp_size) ← tensor_parallel_position m
    check (all_divisible output_sizes tp_size) not_divisible
    let local_sizes = map (λ size. size / tp_size) output_sizes
    let local_size = expected / tp_size
    project_dimension update.indices update.shape param.shape (pos 0) (pos (tp_rank * local_size))
        (pos local_size) (pos (sum (take shard_id local_sizes)))

  -- The sizes of one shard: whole, local, and where it starts; none for an unknown shard.
  unfoldable pub qkv_shard : QkvSizes → ShardId → Option (ℕ × ℕ × ℕ)
  qkv_shard s q = some (s.total_num_heads * s.head_size, s.num_heads * s.head_size, 0)
  qkv_shard s k =
      some (
        s.total_num_kv_heads * s.head_size,
        s.num_kv_heads * s.head_size,
        s.num_heads * s.head_size,
      )
  qkv_shard s v = some (
    s.total_num_kv_heads * s.v_head_size,
    s.num_kv_heads * s.v_head_size,
    s.num_heads * s.head_size + s.num_kv_heads * s.head_size,
  )
  qkv_shard s _ = none

  -- Python refuses to divide by 0.
  unfoldable pub source_rank : QkvSizes → ShardId → ℕ → Option ℕ
  source_rank s q tp_rank = some tp_rank
  source_rank s _ tp_rank =
      if s.num_kv_head_replicas == 0 then none else some (tp_rank / s.num_kv_head_replicas)

  unfoldable pub project_qkv : ShardId → Result LayoutError (List ℕ × List Bool)
  project_qkv shard_id = do
    sizes ← or_fail missing_attribute m.qkv_sizes
    (global_size, local_size, target_start) ← or_fail missing_attribute (qkv_shard sizes shard_id)
    rows ← or_fail missing_attribute (get_elem? update.shape 0)
    check (rows == global_size) qkv_shape_mismatch
    (tp_rank, tp_size) ← tensor_parallel_position m
    rank ← or_fail missing_attribute (source_rank sizes shard_id tp_rank)
    project_dimension update.indices update.shape param.shape (pos 0) (pos (rank * local_size))
        (pos local_size) (pos target_start)

  unfoldable pub project : Kind → ShardId → Result LayoutError (List ℕ × List Bool)
  project qkv shard_id = project_qkv shard_id
  project merged_column (part n) = project_merged_column n
  project merged_column _ = err missing_attribute
  project row shard_id = project_regular param.input_dim
  project column shard_id = project_regular param.output_dim
  project vocab shard_id = project_vocab
  project replicated shard_id =
      if same_shape param.shape update.shape
      then ok (update.indices, replicate (length update.indices) true)
      else err replicated_shape_mismatch
  project other_kind shard_id = err unsupported_kind

unfoldable pub to_local :
    {W : Type 0} → Adapter → LogicalSparseUpdate W → Result LayoutError (LocalSparseUpdate W)
to_local a update = do
  target ← mapping a update.name
  param ← or_fail missing_attribute (a.params target.target_name)
  m ← parameter_module a target.target_name
  validate_supported_parameter param m
  validate_update update
  (indices, mask) ← project update param m target.kind target.shard_id
  ok (record { name = target.target_name; indices = indices; values = select mask update.values })
