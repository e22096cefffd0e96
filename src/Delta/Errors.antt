-- ===== src/Delta/Errors.antt =====
-- The errors that utils/delta.py raises, one constructor for each message.
pub data DeltaError : Type 0 where
  -- encoding indices
  negative_index unsorted_indices : DeltaError
  unsupported_encoding : DeltaError
  -- extracting and applying values
  not_exact index_out_of_range not_contiguous : DeltaError
  -- decoding indices
  not_uint8 unsupported_index_dtype stream_not_empty truncated_varint : DeltaError
  too_many_indices count_mismatch wide_delta int64_overflow length_mismatch : DeltaError
