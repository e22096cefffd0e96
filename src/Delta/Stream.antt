-- ===== src/Delta/Stream.antt =====
-- The container of a delta stream: `StreamingDeltaWriter`, `iter_streaming_delta_records` and what
-- they call. A tensor is its dtype and its bytes in memory, which is what the stream holds of it; a
-- name is its text in UTF-8, and which bytes are such a text is the parameter `is_utf8`.
pub mod RoundTrip
pub mod File
pub mod Fuel
mod Runs
use aurora_rl.Base.{
  ℕ, zero, suc, ◌+◌, ◌*◌, ◌/◌, ◌%◌, Bool, true, false, not, ◌&&◌, ◌||◌, Option, none, some, List,
  [], ◌∷◌, ◌++◌, length, take, drop, ltb, leb, ◌==◌, if◌then◌else◌, Result, ok, err, check,
}
use aurora_rl.Base.Results
use aurora_rl.Base.Exec.{Exec, pure, lift, modify, require, ◌>>=◌, ◌>>◌}
use aurora_rl.Base.Names.{same_name}

pub data Dtype : Type 0 where
  float16 bfloat16 float32 float64 int64 int32 int8 uint8 other : Dtype

pub data StreamError : Type 0 where
  unsupported_index_dtype unsupported_dtype rank_too_large out_of_range : StreamError
  truncated magic_mismatch unsupported_version unsupported_flags unsupported_code : StreamError
  invalid_index_size unsupported_index_format not_utf8 : StreamError

pub record Tensor : Type 0 where
  pub dtype : Dtype
  pub bytes : List ℕ

pub record StreamingDeltaRecord : Type 0 where
  pub name : List ℕ
  pub shape : Option (List ℕ)
  pub encoded_indices : Tensor
  pub values : Tensor
  pub format_version : ℕ

-- b"PDELSTRM"
abbrev pub stream_magic : List ℕ
stream_magic = 80 ∷ 68 ∷ 69 ∷ 76 ∷ 83 ∷ 84 ∷ 82 ∷ 77 ∷ []

unfoldable pub dtype_to_code : Dtype → Result StreamError ℕ
dtype_to_code float16 = ok 1
dtype_to_code bfloat16 = ok 2
dtype_to_code float32 = ok 3
dtype_to_code float64 = ok 4
dtype_to_code int64 = ok 5
dtype_to_code int32 = ok 6
dtype_to_code int8 = ok 7
dtype_to_code uint8 = ok 8
dtype_to_code other = err unsupported_dtype

unfoldable pub code_to_dtype : ℕ → Result StreamError Dtype
code_to_dtype code =
    if code == 1
    then ok float16
    else if code == 2
    then ok bfloat16
    else if code == 3
    then ok float32
    else if code == 4
    then ok float64
    else if code == 5
    then ok int64
    else if code == 6
    then ok int32
    else if code == 7
    then ok int8
    else if code == 8
    then ok uint8
    else err unsupported_code

-- Bytes of one element.
abbrev pub element_size : Dtype → ℕ
element_size float16 = 2
element_size bfloat16 = 2
element_size float32 = 4
element_size float64 = 8
element_size int64 = 8
element_size int32 = 4
element_size int8 = 1
element_size uint8 = 1
element_size other = 1

abbrev pub element_count : Tensor → ℕ
element_count tensor = length tensor.bytes / element_size tensor.dtype

-- 256 to the power of a number of bytes.
unfoldable pub byte_range : ℕ → ℕ
byte_range zero = 1
byte_range (suc w) = 256 * byte_range w

unfoldable pub little_endian : ℕ → ℕ → List ℕ
little_endian zero n = []
little_endian (suc w) n = (n % 256) ∷ little_endian w (n / 256)

unfoldable pub from_little_endian : List ℕ → ℕ
from_little_endian [] = 0
from_little_endian (b ∷ bytes) = b + 256 * from_little_endian bytes

-- A field of `struct.pack`, which refuses a number that needs more bytes.
unfoldable pub pack_field : ℕ → ℕ → Result StreamError (List ℕ)
unfolding byte_range little_endian
pack_field w n = Results.◌>>◌ (check (ltb n (byte_range w)) out_of_range) (ok (little_endian w n))

unfoldable pub pack_fields : List (ℕ × ℕ) → Result StreamError (List ℕ)
unfolding pack_field
pack_fields [] = ok []
pack_fields ((w, n) ∷ fields) =
    Results.◌>>=◌ (pack_field w n)
      λ first. Results.◌>>=◌ (pack_fields fields) λ rest. ok (first ++ rest)

abbrev pub dims : List ℕ → List (ℕ × ℕ)
dims [] = []
dims (dim ∷ shape) = (8, dim) ∷ dims shape

unfoldable pub stream_index_format : Dtype → Result StreamError ℕ
stream_index_format uint8 = ok 0
stream_index_format int32 = ok 1
stream_index_format int64 = ok 2
stream_index_format _ = err unsupported_index_dtype

unfoldable pub stream_index_dtype : ℕ → ℕ → Result StreamError Dtype
stream_index_dtype index_format index_size =
    if index_format == 0
    then ok uint8
    else if index_format == 1
    then (if index_size % 4 == 0 then ok int32 else err invalid_index_size)
    else if index_format == 2
    then (if index_size % 8 == 0 then ok int64 else err invalid_index_size)
    else err unsupported_index_format

abbrev pub write : List ℕ → Exec (List ℕ) StreamError (Unit {0})
write bytes = modify (λ file. file ++ bytes)

-- The header of a new stream.
unfoldable pub open_writer : Exec (List ℕ) StreamError (Unit {0})
unfolding little_endian
open_writer = write (stream_magic ++ little_endian 4 2)

-- The indices are already encoded.
unfoldable pub write_record :
    List ℕ → List ℕ → Tensor → Tensor → Exec (List ℕ) StreamError (Unit {0})
unfolding stream_index_format dtype_to_code pack_fields
write_record name shape encoded_indices values = do
  index_format ← lift (stream_index_format encoded_indices.dtype)
  code ← lift (dtype_to_code values.dtype)
  require (leb (length shape) 65535) rank_too_large
  header ← lift (
      pack_fields (
        (4, length name)
        ∷ (1, index_format)
        ∷ (1, code)
        ∷ (2, length shape)
        ∷ (8, length encoded_indices.bytes)
        ∷ (8, element_count values)
        ∷ []))
  write header
  write name
  packed_shape ← lift (pack_fields (dims shape))
  write packed_shape
  write encoded_indices.bytes
  write values.bytes

-- `_read_exact`, and what is left of the stream.
unfoldable pub read_exact : ℕ → List ℕ → Result StreamError (List ℕ × List ℕ)
read_exact size stream =
    if leb size (length stream) then ok (take size stream, drop size stream) else err truncated

unfoldable pub read_field : ℕ → List ℕ → Result StreamError (ℕ × List ℕ)
unfolding read_exact from_little_endian
read_field w stream = Results.◌>>=◌ (read_exact w stream) λ r. ok (from_little_endian r.0, r.1)

unfoldable pub read_dims : ℕ → List ℕ → Result StreamError (List ℕ × List ℕ)
unfolding read_field
read_dims zero stream = ok ([], stream)
read_dims (suc rank) stream =
    Results.◌>>=◌ (read_field 8 stream)
      λ r. Results.◌>>=◌ (read_dims rank r.1) λ rest. ok (r.0 ∷ rest.0, rest.1)

unfoldable pub read_shape : ℕ → ℕ → List ℕ → Result StreamError (Option (List ℕ) × List ℕ)
unfolding read_dims
read_shape version reserved stream =
    if version == 2
    then (Results.◌>>=◌ (read_dims reserved stream) λ r. ok (some r.0, r.1))
    else ok (none, stream)

unfoldable pub read_version : List ℕ → Result StreamError (ℕ × List ℕ)
unfolding read_exact from_little_endian
read_version stream = Results.◌>>=◌ (read_exact 12 stream) λ r.
    let version = from_little_endian (drop 8 r.0) in
    Results.◌>>◌ (check (same_name (take 8 r.0) stream_magic) magic_mismatch)
      (Results.◌>>◌ (check (version == 1 || version == 2) unsupported_version) (ok (version, r.1)))

module _ (is_utf8 : List ℕ → Bool) where
  -- One record, of a stream that is not at its end.
  unfoldable pub read_record : ℕ → List ℕ → Result StreamError (StreamingDeltaRecord × List ℕ)
  unfolding read_field read_shape read_exact code_to_dtype stream_index_dtype
  read_record version stream = Results.◌>>◌ (check (leb 24 (length stream)) truncated) (
      Results.◌>>=◌ (read_field 4 stream) λ name_size.
        Results.◌>>=◌ (read_field 1 name_size.1) λ index_format.
          Results.◌>>=◌ (read_field 1 index_format.1) λ dtype_code.
            Results.◌>>=◌ (read_field 2 dtype_code.1) λ reserved.
              Results.◌>>=◌ (read_field 8 reserved.1) λ index_size.
                Results.◌>>=◌ (read_field 8 index_size.1) λ value_count.
                  Results.◌>>◌ (check (not (version == 1) || reserved.0 == 0) unsupported_flags) (
                    Results.◌>>=◌ (code_to_dtype dtype_code.0) λ dtype.
                      Results.◌>>=◌ (read_exact name_size.0 value_count.1) λ name.
                        Results.◌>>◌ (check (is_utf8 name.0) not_utf8) (
                          Results.◌>>=◌ (read_shape version reserved.0 name.1) λ shape.
                            Results.◌>>=◌ (read_exact index_size.0 shape.1) λ indices.
                              Results.◌>>=◌
                                (read_exact (value_count.0 * element_size dtype) indices.1)
                                λ values.
                                  Results.◌>>=◌ (stream_index_dtype index_format.0 index_size.0)
                                    λ index_dtype. ok (
                                      record {
                                        name = name.0;
                                        shape = shape.0;
                                        encoded_indices = record {
                                          dtype = index_dtype;
                                          bytes = indices.0;
                                        };
                                        values = record { dtype = dtype; bytes = values.0 };
                                        format_version = version;
                                      },
                                      values.1,
                                    ))))

  -- The records that come before the end or before an error. A record takes bytes, so the length of
  -- the stream is fuel enough.
  unfoldable pub read_records :
      ℕ → ℕ → List ℕ → List StreamingDeltaRecord × Result StreamError (Unit {0})
  unfolding read_record
  read_records fuel version [] = ([], ok tt)
  read_records zero version (b ∷ stream) = ([], ok tt)
  read_records (suc fuel) version (b ∷ stream) = elim (read_record version (b ∷ stream)) [
    | err e ↦ ([], err e)
    | ok (found, rest) ↦ let later = read_records fuel version rest in (found ∷ later.0, later.1)
  ]

  unfoldable pub iter_streaming_delta_records :
      List ℕ → List StreamingDeltaRecord × Result StreamError (Unit {0})
  unfolding read_version read_records
  iter_streaming_delta_records stream = elim (read_version stream) [
    | err e ↦ ([], err e)
    | ok (version, rest) ↦ read_records (length rest) version rest
  ]
