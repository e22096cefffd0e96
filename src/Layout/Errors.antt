-- ===== src/Layout/Errors.antt =====
-- The errors that weight_layout.py raises, one constructor for each message. `missing_attribute`
-- stands for Python's AttributeError, KeyError and IndexError.
pub data LayoutError : Type 0 where
  ranks_differ invalid_dimension other_dimensions_differ : LayoutError
  invalid_source_shard invalid_target_shard : LayoutError
  unsupported_parameter unresolved_module quantized_layout packed_parameter : LayoutError
  not_int64 length_mismatch not_increasing index_out_of_range : LayoutError
  no_dimension_attribute not_divisible no_shard_indices : LayoutError
  invalid_shard_id merged_shape_mismatch qkv_shape_mismatch replicated_shape_mismatch : LayoutError
  unsupported_kind invalid_tp_position missing_attribute : LayoutError
