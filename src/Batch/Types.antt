-- ===== src/Batch/Types.antt =====
-- transport/types.py as far as batch.py uses it. A float is the number that has its bits as a
-- double; tensors for images are bytes that only pass through.
use aurora_rl.Base.{
  ℕ, ◌+◌, ◌*◌, Bool, Option, none, some, List, [], ◌∷◌, ◌++◌, take, drop, get_elem?, replicate,
  Result, ok, err, ◌>>=◌, ◌>>◌, check, true, false,
}
use aurora_rl.Base.Names.{Name, codes, same_name, same_shape}
use aurora_rl.Base.Dict.{lookup}

abbrev pub Float : Type 0
Float = ℕ

-- 0.0, 1.0 and float("nan")
abbrev pub zero_point : Float
zero_point = 0

abbrev pub one_point : Float
one_point = 4607182418800017408

abbrev pub not_a_number : Float
not_a_number = 9221120237041090560

-- The exceptions that batch.py may end in.
pub data BatchError : Type 0 where
  assertion index_error key_error type_error zero_division value_error : BatchError

pub record RoutedExperts : Type 0 where
  pub bytes : List ℕ
  pub shape : List ℕ
  pub dtype : Name

pub record TrainingSample : Type 0 where
  pub prompt_ids : List ℕ
  pub prompt_mask : List Bool
  pub completion_ids : List ℕ
  pub completion_mask : List Bool
  pub completion_logprobs : List Float
  pub completion_temperatures : List Float
  pub env_name : Name
  pub teacher_logprobs : Option (List Float)
  pub advantage : Option Float
  pub reward : Option Float
  pub mm_kwargs : Option (List ℕ)
  pub routed_experts : Option RoutedExperts
  pub mm_token_type_ids : Option (List ℕ)
  pub training_mode : Name

pub record MicroBatch : Type 0 where
  pub input_ids : List ℕ
  pub loss_mask : List Bool
  pub advantages : List (Option Float)
  pub inference_logprobs : List Float
  pub position_ids : List ℕ
  pub temperatures : List Float
  pub env_names : List Name
  pub teacher_logprobs : Option (List Float)
  pub lora_num_tokens : Option (List ℕ)
  pub routed_experts : Option RoutedExperts
  pub mm_kwargs : Option (List ℕ)
  pub mm_token_type_ids : Option (List ℕ)
  pub training_mode : Name
  pub rewards : Option (List Float)

abbrev pub item_sizes : List (Name × ℕ)
item_sizes = (codes "uint8", 1) ∷ (codes "int16", 2) ∷ (codes "int32", 4) ∷ []

unfoldable pub at_index : List ℕ → ℕ → Result BatchError ℕ
at_index xs i = elim (get_elem? xs i) [ none ↦ err index_error | some x ↦ ok x ]

unfoldable pub item_size : Name → Result BatchError ℕ
item_size dtype = elim (lookup dtype item_sizes) [ none ↦ err key_error | some size ↦ ok size ]

unfoldable pub routed_experts_row_size : RoutedExperts → Result BatchError ℕ
unfolding at_index item_size
routed_experts_row_size routed = do
  layers ← at_index routed.shape 1
  topk ← at_index routed.shape 2
  size ← item_size routed.dtype
  ok (layers * topk * size)

unfoldable pub slice_routed_experts : RoutedExperts → ℕ → Result BatchError RoutedExperts
unfolding routed_experts_row_size
slice_routed_experts routed seq_len = do
  row_size ← routed_experts_row_size routed
  layers ← at_index routed.shape 1
  topk ← at_index routed.shape 2
  ok (record {
    bytes = take (seq_len * row_size) routed.bytes;
    shape = seq_len ∷ layers ∷ topk ∷ [];
    dtype = routed.dtype;
  })

-- `shape[0] += count`
unfoldable pub add_rows : ℕ → List ℕ → Result BatchError (List ℕ)
add_rows count [] = err index_error
add_rows count (rows ∷ shape) = ok ((rows + count) ∷ shape)

unfoldable pub append_routed_experts :
    RoutedExperts → RoutedExperts → Result BatchError RoutedExperts
unfolding add_rows at_index
append_routed_experts dst src = do
  check (same_name dst.dtype src.dtype) assertion
  check (same_shape (drop 1 dst.shape) (drop 1 src.shape)) assertion
  rows ← at_index src.shape 0
  shape ← add_rows rows dst.shape
  ok (record dst { bytes = dst.bytes ++ src.bytes; shape = shape })

unfoldable pub pad_routed_experts : RoutedExperts → ℕ → Result BatchError RoutedExperts
unfolding routed_experts_row_size add_rows
pad_routed_experts routed padding_size = do
  row_size ← routed_experts_row_size routed
  shape ← add_rows padding_size routed.shape
  ok (record routed {
    bytes = routed.bytes ++ replicate (padding_size * row_size) 0;
    shape = shape;
  })

unfoldable pub is_multimodal_sample : MicroBatch → Bool
is_multimodal_sample sample = elim sample.mm_kwargs [ none ↦ false | some kwargs ↦ true ]
