-- ===== src/Delta/Stream/RoundTrip.antt =====
-- Reading what was written.
use aurora_rl.Base.{
  ℕ, zero, suc, ◌*◌, ◌/◌, ◌%◌, ◌<◌, ◌≡◌, refl, sym, ap, Bool, true, some, List, [], ◌∷◌, ◌++◌,
  append_assoc, length, take-append, drop-append, length-append, ltb, leb, ok, check, check-true,
  on_ok, ok-injective, arith, ltb→lt, le→leb,
}
use aurora_rl.Delta.Stream.{
  Dtype, float16, bfloat16, float32, float64, int64, int32, int8, uint8, other, out_of_range,
  Tensor, StreamingDeltaRecord, dtype_to_code, code_to_dtype, element_size, element_count,
  byte_range, little_endian, from_little_endian, pack_field, pack_fields, dims, stream_index_format,
  stream_index_dtype, read_exact, read_field, read_dims, read_shape, read_record,
}

pub length-little_endian : (w n : ℕ) → length (little_endian w n) ≡ w
unfolding little_endian
length-little_endian zero n = refl
length-little_endian (suc w) n = ap suc (length-little_endian w (n / 256))

from_little_endian-inverse :
    (w n : ℕ) → n < byte_range w → from_little_endian (little_endian w n) ≡ n
unfolding little_endian from_little_endian byte_range
from_little_endian-inverse zero n h = omega arith
from_little_endian-inverse (suc w) n h =
    omega (arith, from_little_endian-inverse w (n / 256) (omega arith))

pub read_exact-append :
    (n : ℕ) (xs rest : List ℕ) → n ≡ length xs → read_exact n (xs ++ rest) ≡ ok (xs, rest)
unfolding read_exact
read_exact-append n xs rest e =
    let enough : leb (length xs) (length (xs ++ rest)) ≡ true =
      le→leb _ _ (omega (arith, length-append xs rest)) in
    rw (e, enough, take-append xs rest, drop-append xs rest) refl

read_field-append :
    (w n : ℕ) (rest : List ℕ)
    → n < byte_range w
    → read_field w (little_endian w n ++ rest) ≡ ok (n, rest)
unfolding read_field
read_field-append w n rest h =
    rw
      (
        read_exact-append w (little_endian w n) rest (sym (length-little_endian w n)),
        from_little_endian-inverse w n h,
      )
      refl

-- The fields one after the other, in front of what follows.
abbrev pub encoded : List (ℕ × ℕ) → List ℕ → List ℕ
encoded [] rest = rest
encoded ((w, n) ∷ fields) rest = little_endian w n ++ encoded fields rest

abbrev pub InRange : List (ℕ × ℕ) → Type 0
InRange [] = Unit
InRange ((w, n) ∷ fields) = (n < byte_range w) × InRange fields

pub pack_fields-encoded :
    (fields : List (ℕ × ℕ)) (bytes : List ℕ)
    → pack_fields fields ≡ ok bytes
    → InRange fields × ((rest : List ℕ) → bytes ++ rest ≡ encoded fields rest)
unfolding pack_fields
pack_fields-encoded [] bytes h = (tt, λ rest. rw (← ok-injective h) refl)
pack_fields-encoded ((w, n) ∷ fields) bytes h = on_ok (pack_field w n) _ h λ first packed h1.
    on_ok (pack_fields fields) _ h1 λ later others h2.
      let (inside, same) = pack_fields-encoded fields later others in
      let (fits, is) = field first packed in
      (
        (fits, inside),
        λ rest. rw (← ok-injective h2, append_assoc first later rest, same rest, is) refl,
      )
  where
    field :
        (first : List ℕ)
        → pack_field w n ≡ ok first
        → (n < byte_range w) × (first ≡ little_endian w n)
    field first packed =
        unfold pack_field in
        on_ok (check (ltb n (byte_range w)) out_of_range) _ packed
          λ _ small h. (ltb→lt _ _ (check-true _ _ small), sym (ok-injective h))

read_dims-encoded :
    (shape rest : List ℕ)
    → InRange (dims shape)
    → read_dims (length shape) (encoded (dims shape) rest) ≡ ok (shape, rest)
unfolding read_dims
read_dims-encoded [] rest h = refl
read_dims-encoded (dim ∷ shape) rest (small, h) =
    rw (read_field-append 8 dim (encoded (dims shape) rest) small, read_dims-encoded shape rest h)
      refl

pub code_to_dtype-inverse :
    (dtype : Dtype) (code : ℕ) → dtype_to_code dtype ≡ ok code → code_to_dtype code ≡ ok dtype
unfolding dtype_to_code code_to_dtype
code_to_dtype-inverse float16 code h = rw (← ok-injective h) refl
code_to_dtype-inverse bfloat16 code h = rw (← ok-injective h) refl
code_to_dtype-inverse float32 code h = rw (← ok-injective h) refl
code_to_dtype-inverse float64 code h = rw (← ok-injective h) refl
code_to_dtype-inverse int64 code h = rw (← ok-injective h) refl
code_to_dtype-inverse int32 code h = rw (← ok-injective h) refl
code_to_dtype-inverse int8 code h = rw (← ok-injective h) refl
code_to_dtype-inverse uint8 code h = rw (← ok-injective h) refl
code_to_dtype-inverse other code h = absurd (ground arith)

pub stream_index_dtype-inverse :
    (dtype : Dtype) (index_format size : ℕ)
    → size % element_size dtype ≡ 0
    → stream_index_format dtype ≡ ok index_format
    → stream_index_dtype index_format size ≡ ok dtype
unfolding stream_index_format stream_index_dtype
stream_index_dtype-inverse uint8 f size h e = rw (← ok-injective e) refl
stream_index_dtype-inverse int32 f size h e = rw (← ok-injective e, h) refl
stream_index_dtype-inverse int64 f size h e = rw (← ok-injective e, h) refl
stream_index_dtype-inverse float16 f size h e = absurd (ground arith)
stream_index_dtype-inverse bfloat16 f size h e = absurd (ground arith)
stream_index_dtype-inverse float32 f size h e = absurd (ground arith)
stream_index_dtype-inverse float64 f size h e = absurd (ground arith)
stream_index_dtype-inverse int8 f size h e = absurd (ground arith)
stream_index_dtype-inverse other f size h e = absurd (ground arith)

-- Elements are whole.
abbrev pub IsTensor : Tensor → Type 0
IsTensor tensor = length tensor.bytes ≡ element_count tensor * element_size tensor.dtype

abbrev pub header_fields : ℕ → ℕ → ℕ → ℕ → ℕ → ℕ → List (ℕ × ℕ)
header_fields name_size index_format code rank index_size value_count =
    (4, name_size)
    ∷ (1, index_format)
    ∷ (1, code)
    ∷ (2, rank)
    ∷ (8, index_size)
    ∷ (8, value_count)
    ∷ []

header_room :
    (a b c d e f : ℕ) (rest : List ℕ)
    → leb 24 (length (encoded (header_fields a b c d e f) rest)) ≡ true
header_room a b c d e f rest = le→leb 24 _ (
    omega (
      arith,
      length-append (little_endian 4 a)
          (encoded ((1, b) ∷ (1, c) ∷ (2, d) ∷ (8, e) ∷ (8, f) ∷ []) rest),
      length-append (little_endian 1 b) (encoded ((1, c) ∷ (2, d) ∷ (8, e) ∷ (8, f) ∷ []) rest),
      length-append (little_endian 1 c) (encoded ((2, d) ∷ (8, e) ∷ (8, f) ∷ []) rest),
      length-append (little_endian 2 d) (encoded ((8, e) ∷ (8, f) ∷ []) rest),
      length-append (little_endian 8 e) (encoded ((8, f) ∷ []) rest),
      length-append (little_endian 8 f) rest,
      length-little_endian 4 a,
      length-little_endian 1 b,
      length-little_endian 1 c,
      length-little_endian 2 d,
      length-little_endian 8 e,
      length-little_endian 8 f,
    ))

module _ (is_utf8 : List ℕ → Bool) where
  -- The record at the front of a stream, and what follows it.
  abbrev pub Reads : List ℕ → StreamingDeltaRecord → List ℕ → Type 0
  Reads stream found rest = read_record is_utf8 2 stream ≡ ok (found, rest)

  abbrev pub written : List ℕ → List ℕ → Tensor → Tensor → StreamingDeltaRecord
  written name shape encoded_indices values = record {
    name = name;
    shape = some shape;
    encoded_indices = encoded_indices;
    values = values;
    format_version = 2;
  }

  pub read_record-fields :
      (name shape : List ℕ) (indices values : Tensor) (index_format code : ℕ) (rest : List ℕ)
      → is_utf8 name ≡ true
      → IsTensor values
      → InRange (
          header_fields
            (length name)
            index_format
            code
            (length shape)
            (length indices.bytes)
            (element_count values))
      → InRange (dims shape)
      → code_to_dtype code ≡ ok values.dtype
      → stream_index_dtype index_format (length indices.bytes) ≡ ok indices.dtype
      → Reads
          (encoded
            (header_fields
              (length name)
              index_format
              code
              (length shape)
              (length indices.bytes)
              (element_count values))
            (name ++ encoded (dims shape) (indices.bytes ++ (values.bytes ++ rest))))
          (written name shape indices values)
          rest
  unfolding read_record read_shape
  read_record-fields name shape indices values f c rest text whole
        (ha, (hb, (hc, (hd, (he, (hf, _)))))) hs dtype index_dtype =
      let values_part = values.bytes ++ rest in
      let indices_part = indices.bytes ++ values_part in
      let shape_part = encoded (dims shape) indices_part in
      let name_part = name ++ shape_part in
      rw
        (
          header_room (length name) f c (length shape) (length indices.bytes) (element_count values)
              name_part,
          read_field-append 4 (length name)
              (encoded
                ((1, f)
                  ∷ (1, c)
                  ∷ (2, length shape)
                  ∷ (8, length indices.bytes)
                  ∷ (8, element_count values)
                  ∷ [])
                name_part)
              ha,
          read_field-append 1 f
              (encoded
                ((1, c)
                  ∷ (2, length shape)
                  ∷ (8, length indices.bytes)
                  ∷ (8, element_count values)
                  ∷ [])
                name_part)
              hb,
          read_field-append 1 c
              (encoded
                ((2, length shape) ∷ (8, length indices.bytes) ∷ (8, element_count values) ∷ [])
                name_part)
              hc,
          read_field-append 2 (length shape)
              (encoded ((8, length indices.bytes) ∷ (8, element_count values) ∷ []) name_part) hd,
          read_field-append 8 (length indices.bytes)
              (encoded ((8, element_count values) ∷ []) name_part) he,
          read_field-append 8 (element_count values) name_part hf,
          dtype,
          read_exact-append (length name) name shape_part refl,
          text,
          read_dims-encoded shape indices_part hs,
          read_exact-append (length indices.bytes) indices.bytes values_part refl,
          read_exact-append (element_count values * element_size values.dtype) values.bytes rest
              (sym whole),
          index_dtype,
        )
        refl
