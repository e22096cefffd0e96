-- ===== src/Delta/Values/Runs.antt =====
-- A concrete run of extraction and reconstruction, over bytes that wrap around.
use aurora_rl.Base.{
  ℕ, ◌+◌, ◌-◌, ◌%◌, ◌≡◌, refl, true, not, none, List, [], ◌∷◌, length, replicate, length-replicate,
  ltb, ◌==◌, ok, arith,
}
use aurora_rl.Delta.Decode.{flatnonzero}
use aurora_rl.Delta.Indices.{IndexTensor, optimized, encode_sparse_indices}
use aurora_rl.Delta.Values.{
  Arithmetic, same_dtype, zip_with, all_equal, index_select, is_changed, changed_indices,
  additive_values, extract_changed_values, reconstruct_sparse_delta_tensor,
}
use aurora_rl.Delta.Values.Exact.{reconstruct-extract}

pub same_either_way : (a b : ℕ) → (a == b) ≡ (b == a)
same_either_way a b = ground arith

abbrev pub byte_arithmetic : Arithmetic
byte_arithmetic = record {
  Element = ℕ;
  Wide = ℕ;
  Threshold = ℕ;
  Scale = ℕ;
  differs = λ a b. not (a == b);
  equal = λ a b. a == b;
  minus = λ a b. (a + 256 - b) % 256;
  plus = λ a b. (a + b) % 256;
  exceeds = λ a limit. ltb limit a;
  widen = λ a. a;
  narrow = λ a. a % 256;
  minus_wide = λ a b. (a + 65536 - b) % 65536;
  plus_wide = λ a b. (a + b) % 65536;
  is_one = λ s. s == 1;
  times = λ a s. a;
  times_wide = λ a s. a;
  differs_negates = λ a b. refl;
  equal_symmetric = same_either_way;
}

abbrev blank : ℕ → List ℕ
blank n = replicate n 7

length-blank : (n : ℕ) → length (blank n) ≡ n
length-blank n = length-replicate n 7

extract_run :
    extract_changed_values byte_arithmetic none (1 ∷ 2 ∷ 3 ∷ []) (1 ∷ 5 ∷ 0 ∷ [])
    ≡ ok (1 ∷ 2 ∷ [], same_dtype (3 ∷ 253 ∷ []))
unfolding extract_changed_values additive_values changed_indices is_changed index_select all_equal
    zip_with flatnonzero
extract_run = refl

reconstruct-extract_example :
    (t : IndexTensor) × (out : List ℕ) × (encode_sparse_indices blank (1 ∷ 2 ∷ []) optimized ≡ ok t)
    × (reconstruct_sparse_delta_tensor byte_arithmetic
          (1 ∷ 2 ∷ 3 ∷ [])
          t
          (same_dtype (3 ∷ 253 ∷ []))
          1
        ≡ ok out)
    × (all_equal byte_arithmetic out (1 ∷ 5 ∷ 0 ∷ []) ≡ true)
reconstruct-extract_example =
    reconstruct-extract byte_arithmetic (1 ∷ 2 ∷ 3 ∷ []) (1 ∷ 5 ∷ 0 ∷ []) refl blank length-blank
      (1 ∷ 2 ∷ []) (same_dtype (3 ∷ 253 ∷ [])) optimized 1 (omega arith) (λ e. cc) refl extract_run
