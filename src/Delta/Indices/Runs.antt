-- ===== src/Delta/Indices/Runs.antt =====
-- Concrete runs of the index codecs, and the theorems about them at concrete inputs.
use aurora_rl.Base.{
  ℕ, ◌≡◌, ◌↔◌, refl, List, [], ◌∷◌, length, replicate, ok, err, length-replicate, lt_wf, arith,
}
use aurora_rl.Delta.Errors.{truncated_varint, unsorted_indices}
use aurora_rl.Delta.Groups.{Group, last, more, Ascends, index_bytes}
use aurora_rl.Delta.Encode.{
  encode_varint_delta_indices, encode_varint_delta_indices_numba, size_pass, size_loop, write_pass,
  write_loop,
}
use aurora_rl.Delta.Encode.Bytes.{encode_iff}
use aurora_rl.Delta.Decode.{
  cumsum, is_terminal, any_high, flatnonzero, ends_open, following, spans, largest, take_offset,
  offsets_loop, zeros, decode_varint_delta_indices, decode_varint_delta_indices_numpy,
  decode_varint_delta_indices_python,
}
use aurora_rl.Delta.Decode.Agreement.{decode-numpy, decode-python, decode_cut}
use aurora_rl.Delta.Indices.{IndexTensor, optimized, encode_sparse_indices, decode_sparse_indices}
use aurora_rl.Delta.Indices.RoundTrip.{decode-encode}
use native.Mathlib.Decide.{dec_le}

abbrev blank : ℕ → List ℕ
blank n = replicate n 7

length-blank : (n : ℕ) → length (blank n) ≡ n
length-blank n = length-replicate n 7

abbrev some_indices : List ℕ
some_indices = 3 ∷ 200 ∷ 200 ∷ 20000 ∷ []

abbrev their_bytes : List ℕ
their_bytes = 3 ∷ 0xc5 ∷ 1 ∷ 0 ∷ 0xd8 ∷ 0x9a ∷ 1 ∷ []

encode_run : encode_varint_delta_indices blank some_indices ≡ ok their_bytes
unfolding encode_varint_delta_indices encode_varint_delta_indices_numba size_pass size_loop
    write_pass write_loop lt_wf dec_le
encode_run = refl

encode_unsorted : encode_varint_delta_indices blank (3 ∷ 2 ∷ []) ≡ err unsorted_indices
unfolding encode_varint_delta_indices encode_varint_delta_indices_numba size_pass size_loop lt_wf
    dec_le
encode_unsorted = refl

decode_run : decode_varint_delta_indices their_bytes 4 ≡ ok some_indices
unfolding decode_varint_delta_indices decode_varint_delta_indices_numpy cumsum is_terminal any_high
    flatnonzero ends_open following spans largest take_offset offsets_loop zeros
decode_run = refl

encode_iff_example :
    (encode_varint_delta_indices blank some_indices ≡ ok their_bytes)
    ↔ (Ascends 0 some_indices × (their_bytes ≡ index_bytes 0 some_indices))
encode_iff_example = encode_iff blank length-blank some_indices their_bytes

decode-numpy_example :
    decode_varint_delta_indices (3 ∷ 4 ∷ []) 2 ≡ decode_varint_delta_indices_numpy (3 ∷ 4 ∷ []) 2
decode-numpy_example = decode-numpy (3 ∷ 4 ∷ []) 2 (omega arith) (omega arith)

abbrev two_groups : List (List ℕ)
two_groups = (3 ∷ []) ∷ (0xc5 ∷ 1 ∷ []) ∷ []

small-Group : Group (3 ∷ [])
small-Group = last (omega arith)

long-Group : Group (0xc5 ∷ 1 ∷ [])
long-Group = more (omega arith) (omega arith) (last (omega arith))

decode-python_example :
    decode_varint_delta_indices (3 ∷ 0xc5 ∷ 1 ∷ []) 2
    ≡ decode_varint_delta_indices_python blank (3 ∷ 0xc5 ∷ 1 ∷ []) 2
decode-python_example =
    decode-python blank length-blank two_groups 2 (small-Group, (long-Group, tt)) (omega arith)
      (omega arith)

decode_cut_example :
    (decode_varint_delta_indices (3 ∷ 0xc5 ∷ 1 ∷ 0x80 ∷ []) 2 ≡ ok (3 ∷ 200 ∷ []))
    × (decode_varint_delta_indices_python blank (3 ∷ 0xc5 ∷ 1 ∷ 0x80 ∷ []) 2 ≡ err truncated_varint)
decode_cut_example =
    decode_cut blank length-blank two_groups 0x80 [] (small-Group, (long-Group, tt)) (omega arith)
      (omega arith) (omega arith) (omega arith)

decode-encode_example :
    (t : IndexTensor) × (encode_sparse_indices blank some_indices optimized ≡ ok t)
    × (decode_sparse_indices t 4 ≡ ok some_indices)
decode-encode_example =
    decode-encode blank length-blank some_indices optimized (omega arith) (λ e. cc)
