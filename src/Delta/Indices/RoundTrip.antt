-- ===== src/Delta/Indices/RoundTrip.antt =====
-- Decoding what the encoder wrote gives the indices back.
use aurora_rl.Base.{
  ℕ, suc, ◌+◌, ◌-◌, ◌^◌, ◌<◌, ◌≤◌, ◌≡◌, refl, ◌∙◌, ap, ap₂, List, [], ◌∷◌, append-nil, map, length,
  All, ltb-false, eq→==, Bool-cases, inl, inr, ◌≢◌, ok, arith, wrap64, true,
}
use aurora_rl.Delta.Groups.{
  Group, group_value, concat, concat-All_bytes, Ascends, differences, varint, varint-Varint,
  Varint-Group, Varint-value, length-Varint, index_bytes, index_bytes-nil, index_bytes-concat,
}
use aurora_rl.Delta.Encode.Bytes.{encode-index_bytes}
use aurora_rl.Delta.Decode.{cumsum, largest, decode_varint_delta_indices}
use aurora_rl.Delta.Decode.Numpy.{numpy-Stream}
use aurora_rl.Delta.Decode.Agreement.{decode-numpy, short_groups}
use aurora_rl.Delta.Indices.{
  IndexEncoding, optimized, naive, other_encoding, IndexTensor, int32, int64, uint8,
  max_below_int32, to_int32, from_int32, encode_sparse_indices, decode_sparse_indices, same_count,
}

groups_of : ℕ → List ℕ → List (List ℕ)
groups_of previous indices = map varint (differences previous indices)

-- What the groups of ascending indices are.
record IsEncoding (previous : ℕ) (indices : List ℕ) : Type 0 where
  are_groups : All Group (groups_of previous indices)
  are_short : All (λ g. length g ≤ 9) (groups_of previous indices)
  values : map group_value (groups_of previous indices) ≡ differences previous indices
  count : length (groups_of previous indices) ≡ length indices

Ascends-IsEncoding :
    (indices : List ℕ) (previous : ℕ) → Ascends previous indices → IsEncoding previous indices
unfolding groups_of
Ascends-IsEncoding [] previous h = record {
  are_groups = tt;
  are_short = tt;
  values = refl;
  count = refl;
}
Ascends-IsEncoding (x ∷ xs) previous (le, fits, h) =
    let v = varint-Varint (x - previous) in
    let rest = Ascends-IsEncoding xs x h in
    record {
      are_groups = (Varint-Group v, rest.are_groups);
      are_short = (length-Varint 8 v (omega arith), rest.are_short);
      values = ap₂ ◌∷◌ (Varint-value v) rest.values;
      count = ap suc rest.count;
    }

-- Running sums undo the differences; here they wrap around nowhere.
cumsum-differences :
    (indices : List ℕ) (previous : ℕ)
    → Ascends previous indices
    → cumsum previous (differences previous indices) ≡ indices
unfolding cumsum
cumsum-differences [] previous h = refl
cumsum-differences (x ∷ xs) previous (le, fits, h) =
    let back : wrap64 (previous + (x - previous)) ≡ x = omega arith in
    rw back (ap (λ t. x ∷ t) (cumsum-differences xs x h))

decode_groups :
    (x : ℕ) (xs : List ℕ)
    → Ascends 0 (x ∷ xs)
    → decode_varint_delta_indices (concat (groups_of 0 (x ∷ xs))) (length (x ∷ xs)) ≡ ok (x ∷ xs)
decode_groups x xs h =
    let gs : List (List ℕ) = groups_of 0 (x ∷ xs) in
    let n : ℕ = length (x ∷ xs) in
    let e = Ascends-IsEncoding (x ∷ xs) 0 h in
    decode-numpy (concat gs) n (concat-All_bytes gs e.are_groups) (omega arith)
    ∙ rw (append-nil (concat gs)) at (numpy-Stream gs [] n e.are_groups tt (omega arith))
    ∙ rw (
      e.count,
      eq→== n n refl,
      ltb-false 9 (largest (map length gs)) (short_groups gs e.are_short),
      e.values,
      cumsum-differences (x ∷ xs) 0 h,
    )

decode-index_bytes :
    (indices : List ℕ)
    → Ascends 0 indices
    → decode_varint_delta_indices (index_bytes 0 indices) (length indices) ≡ ok indices
decode-index_bytes [] h = rw index_bytes-nil (unfold decode_varint_delta_indices in refl)
decode-index_bytes (x ∷ xs) h = rw index_bytes-concat (unfold groups_of in decode_groups x xs h)

-- The raw formats.
int32_back : (x : ℕ) → x < 2 ^ 31 → from_int32 (to_int32 x) ≡ x
int32_back x h = ground arith

raw32_back :
    (indices : List ℕ) (previous : ℕ)
    → Ascends previous indices
    → max_below_int32 indices ≡ true
    → map from_int32 (map to_int32 indices) ≡ indices
unfolding max_below_int32
raw32_back [] previous h small = refl
raw32_back (x ∷ xs) previous (le, fits, h) small =
    ap₂ ◌∷◌ (int32_back x (ground arith)) (raw32_back xs x h (ground arith))

same_count_lem : (indices : List ℕ) → same_count indices (length indices) ≡ ok indices
unfolding same_count
same_count_lem indices = rw (eq→== (length indices) (length indices) refl)

module _ (empty : ℕ → List ℕ) (length-empty : (n : ℕ) → length (empty n) ≡ n) where
  abbrev IsExact : List ℕ → IndexEncoding → Type 0
  IsExact indices encoding =
      (t : IndexTensor) × (encode_sparse_indices empty indices encoding ≡ ok t)
      × (decode_sparse_indices t (length indices) ≡ ok indices)

  naive-IsExact : (x : ℕ) (xs : List ℕ) → Ascends 0 (x ∷ xs) → IsExact (x ∷ xs) naive
  unfolding encode_sparse_indices decode_sparse_indices
  naive-IsExact x xs h = elim (Bool-cases (max_below_int32 (x ∷ xs))) [
    | inl small ↦ (
      int32 (map to_int32 (x ∷ xs)),
      rw small,
      ap (λ t. same_count t (length (x ∷ xs))) (raw32_back (x ∷ xs) 0 h small)
          ∙ same_count_lem (x ∷ xs),
    )
    | inr large ↦ (int64 (x ∷ xs), rw large, same_count_lem (x ∷ xs))
  ]

  -- Both index encodings are exact: for indices that ascend from 0 within an int64 the encoder
  -- returns a tensor, and decoding that tensor at their count gives the indices back.
  pub decode-encode :
      (indices : List ℕ) (encoding : IndexEncoding)
      → Ascends 0 indices
      → encoding ≢ other_encoding
      → (t : IndexTensor) × (encode_sparse_indices empty indices encoding ≡ ok t)
        × (decode_sparse_indices t (length indices) ≡ ok indices)
  unfolding encode_sparse_indices decode_sparse_indices
  decode-encode indices optimized h known = (
    uint8 (index_bytes 0 indices),
    rw (encode-index_bytes empty length-empty indices h),
    decode-index_bytes indices h,
  )
  decode-encode [] naive h known = (int32 [], refl, same_count_lem [])
  decode-encode (x ∷ xs) naive h known = naive-IsExact x xs h
  decode-encode indices other_encoding h known = absurd (known refl)
