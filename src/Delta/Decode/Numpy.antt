-- ===== src/Delta/Decode/Numpy.antt =====
-- The vectorised decoder on every byte stream.
use aurora_rl.Base.{
  ℕ, suc, ◌+◌, ◌<◌, ◌≤◌, ◌≡◌, ◌≢◌, refl, ap, List, [], ◌∷◌, ◌++◌, map, length, All, ltb,
  if◌then◌else◌, not, Bool-cases, inl, inr, ◌==◌, ne→==, Result, ok, err, arith, eq→==,
}
use native.Mathlib.Nat.{le_refl}
use native.Mathlib.Decide.{ℕ_discrete}
use aurora_rl.Delta.Errors.{
  DeltaError, truncated_varint, too_many_indices, count_mismatch, wide_delta,
}
use aurora_rl.Delta.Groups.{Group, IsOpen, is_open, group_value, concat}
use aurora_rl.Delta.Decode.{cumsum, largest, decode_varint_delta_indices_numpy}
use aurora_rl.Delta.Decode.Positions.{
  flatnonzero-concat, ends_open-concat, following-ends, spans-ends, length-ends,
}
use aurora_rl.Delta.Decode.Offsets.{offsets_loop-groups}

largest_bound :
    (gs : List (List ℕ)) (bound : ℕ)
    → largest (map length gs) ≤ bound
    → All (λ g. length g ≤ bound) gs
unfolding largest
largest_bound [] bound h = tt
largest_bound (g ∷ gs) bound h = (omega arith, largest_bound gs bound (omega arith))

-- What the vectorised decoder answers on groups `gs` followed by open bytes.
abbrev pub numpy_answer : List (List ℕ) → List ℕ → ℕ → Result DeltaError (List ℕ)
numpy_answer gs tail expected_count =
    if not (length gs == expected_count)
    then (if is_open tail
        then err truncated_varint
        else if ltb expected_count (length gs)
        then err too_many_indices
        else err count_mismatch)
    else if ltb 9 (largest (map length gs))
    then err wide_delta
    else ok (cumsum 0 (map group_value gs))

numpy-counted :
    (g : List ℕ) (gs : List (List ℕ)) (tail : List ℕ)
    → All Group (g ∷ gs)
    → All IsOpen tail
    → decode_varint_delta_indices_numpy (concat (g ∷ gs) ++ tail) (length (g ∷ gs))
      ≡ numpy_answer (g ∷ gs) tail (length (g ∷ gs))
unfolding decode_varint_delta_indices_numpy
numpy-counted g gs tail h t =
    let most : ℕ = largest (map length (g ∷ gs)) in
    rw
      (
        flatnonzero-concat (g ∷ gs) tail 0 h t,
        length-ends gs (0 + length g),
        eq→== (suc (length gs)) (suc (length gs)) refl,
        following-ends g gs 0 h,
        spans-ends (g ∷ gs) 0 h,
      )
      (elim (Bool-cases (ltb 9 most)) [
        | inl wide ↦ rw wide
        | inr fits ↦ rw fits (
            ap (λ t. ok (cumsum 0 t))
              (offsets_loop-groups (g ∷ gs) [] tail most
                (largest_bound (g ∷ gs) most (le_refl most)) (ground arith)))
      ])

numpy-miscounted :
    (gs : List (List ℕ)) (tail : List ℕ) (expected_count : ℕ)
    → All Group gs
    → All IsOpen tail
    → length gs ≢ expected_count
    → decode_varint_delta_indices_numpy (concat gs ++ tail) expected_count
      ≡ numpy_answer gs tail expected_count
unfolding decode_varint_delta_indices_numpy
numpy-miscounted gs tail expected_count h t other = rw (
  flatnonzero-concat gs tail 0 h t,
  length-ends gs 0,
  ends_open-concat gs tail h t,
  ne→== (length gs) expected_count other,
)

-- The vectorised decoder on any byte stream, told apart into groups and open bytes, for a positive
-- count: it counts the groups, refuses a group of more than nine bytes, and returns the running
-- sums of the numbers.
pub numpy-Stream :
    (gs : List (List ℕ)) (tail : List ℕ) (expected_count : ℕ)
    → All Group gs
    → All IsOpen tail
    → 0 < expected_count
    → decode_varint_delta_indices_numpy (concat gs ++ tail) expected_count
      ≡ numpy_answer gs tail expected_count
numpy-Stream gs tail n h t pos = elim (ℕ_discrete (length gs) n) [
  | yes e ↦ counted gs h e
  | no other ↦ numpy-miscounted gs tail n h t other
]
  where
    counted :
        (gs : List (List ℕ))
        → All Group gs
        → length gs ≡ n
        → decode_varint_delta_indices_numpy (concat gs ++ tail) n ≡ numpy_answer gs tail n
    counted [] h e = absurd (omega arith)
    counted (g ∷ gs) h e = rw (← e) (numpy-counted g gs tail h t)
