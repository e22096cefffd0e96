-- ===== src/Delta/Decode/Reference.antt =====
-- The byte-by-byte reference decoder on every byte stream whose indices fit an int64.
use aurora_rl.Base.{
  ℕ, suc, ◌+◌, ◌^◌, ◌<◌, ◌≤◌, ◌≡◌, refl, ◌∙◌, ap, ap₂, length-map, length-drop, ne→==, List, [],
  ◌∷◌, ◌++◌, append-nil, append_assoc, map, length, length-append, drop, set-append, sum, All, ltb,
  if◌then◌else◌, not, ◌==◌, Result, ok, err, arith, lt→ltb, ltb-false,
}
use aurora_rl.Delta.Errors.{DeltaError, truncated_varint, too_many_indices, count_mismatch}
use aurora_rl.Delta.Groups.{Group, IsOpen, is_open, group_value, concat}
use aurora_rl.Delta.Decode.{
  Reader, reference_loop, reference_end, decode_varint_delta_indices_python,
}
use aurora_rl.Delta.Decode.Bytewise.{loop-Group, full-Group, loop-tail, next_current, stored}
use native.Mathlib.Nat.{add-zero, add_assoc}
use native.Mathlib.Decide.{dec_le, ℕ_discrete}

-- Running sums that do not wrap around.
abbrev pub running : ℕ → List ℕ → List ℕ
running total [] = []
running total (d ∷ ds) = (total + d) ∷ running (total + d) ds

-- The loop's variables between two groups.
abbrev between : List ℕ → List ℕ → ℕ → Reader
between done gap current = record {
  out = done ++ gap;
  out_index = length done;
  current = current;
  diff = 0;
  shift = 0;
}

stored-between :
    (done : List ℕ) (y : ℕ) (gap : List ℕ) (current : ℕ) (g : List ℕ)
    → stored (between done (y ∷ gap) current) (next_current (between done (y ∷ gap) current) g)
      ≡ between (done ++ ((current + group_value g) ∷ [])) gap (current + group_value g)
stored-between done y gap current g =
    let next : ℕ = current + group_value g in
    let same : next_current (between done (y ∷ gap) current) g ≡ next = omega arith in
    rw (
      same,
      set-append done y gap next,
      append_assoc done (next ∷ []) gap,
      length-append done (next ∷ []),
    )

module _ (n : ℕ) where
  loop_step :
      (g : List ℕ) (gs : List (List ℕ)) (tail done : List ℕ) (y : ℕ) (gap : List ℕ) (current : ℕ)
      → Group g
      → length done < n
      → current + group_value g < 2 ^ 63
      → reference_loop n (concat (g ∷ gs) ++ tail) (between done (y ∷ gap) current)
        ≡ reference_loop n
            (concat gs ++ tail)
            (between (done ++ ((current + group_value g) ∷ [])) gap (current + group_value g))
  loop_step g gs tail done y gap current h room sums = rw (append_assoc g (concat gs) tail) (
      loop-Group n h (concat gs ++ tail) (between done (y ∷ gap) current) (omega arith) room
        (omega arith)
      ∙ ap (reference_loop n (concat gs ++ tail)) (stored-between done y gap current g))

  loop-concat :
      (gs : List (List ℕ)) (tail done gap : List ℕ) (current : ℕ)
      → All Group gs
      → length done + length gap ≡ n
      → length gs ≤ length gap
      → current + sum (map group_value gs) < 2 ^ 63
      → reference_loop n (concat gs ++ tail) (between done gap current)
        ≡ reference_loop n tail (
            between
              (done ++ running current (map group_value gs))
              (drop (length gs) gap)
              (current + sum (map group_value gs)))
  loop-concat [] tail done gap current h size room sums = rw (append-nil, add-zero)
  loop-concat (g ∷ gs) tail done [] current h size room sums = absurd (omega arith)
  loop-concat (g ∷ gs) tail done (y ∷ gap) current (h, hs) size room sums =
      let next : ℕ = current + group_value g in
      loop_step g gs tail done y gap current h (omega arith) (omega arith)
      ∙ loop-concat gs tail (done ++ (next ∷ [])) gap next hs
          (omega (arith, length-append done (next ∷ []))) (omega arith) (omega arith)
      ∙ ap₂ (λ out total. reference_loop n tail (between out (drop (length gs) gap) total))
          (append_assoc done (next ∷ []) (running next (map group_value gs)))
          (add_assoc current (group_value g) (sum (map group_value gs)))

  -- More groups than places.
  loop-concat_full :
      (gs : List (List ℕ)) (tail done gap : List ℕ) (current : ℕ)
      → All Group gs
      → length done + length gap ≡ n
      → length gap < length gs
      → current + sum (map group_value gs) < 2 ^ 63
      → reference_loop n (concat gs ++ tail) (between done gap current) ≡ err too_many_indices
  loop-concat_full [] tail done gap current h size full sums = absurd (omega arith)
  loop-concat_full (g ∷ gs) tail done [] current (h, hs) size full sums =
      rw append_assoc
        (full-Group n h (concat gs ++ tail) (between done [] current) (omega arith) (omega arith))
  loop-concat_full (g ∷ gs) tail done (y ∷ gap) current (h, hs) size full sums =
      let next : ℕ = current + group_value g in
      loop_step g gs tail done y gap current h (omega arith) (omega arith)
      ∙ loop-concat_full gs tail (done ++ (next ∷ [])) gap next hs
          (omega (arith, length-append done (next ∷ []))) (omega arith) (omega arith)

-- What the reference decoder answers on groups `gs` followed by open bytes.
abbrev pub reference_answer : List (List ℕ) → List ℕ → ℕ → Result DeltaError (List ℕ)
reference_answer gs tail expected_count =
    if ltb expected_count (length gs)
    then err too_many_indices
    else if is_open tail
    then err truncated_varint
    else if not (length gs == expected_count)
    then err count_mismatch
    else ok (running 0 (map group_value gs))

-- What remains of the loop after the groups, and the checks behind it.
end-tail :
    (n : ℕ) (tail done gap : List ℕ) (current : ℕ)
    → All IsOpen tail
    → elim (reference_loop n tail (between done gap current)) [
      | ok r ↦ reference_end n r
      | err e ↦ err e
    ]
      ≡ (if is_open tail
          then err truncated_varint
          else if not (length done == n)
          then err count_mismatch
          else ok (done ++ gap))
unfolding reference_end
end-tail n [] done gap current h = unfold reference_loop in ground arith
end-tail n (b ∷ tail) done gap current h =
    let (r', e, shift, out, index) =
      loop-tail n (b ∷ tail) (between done gap current) h (omega arith) in
    rw e (ground (arith, shift))

length-running : (total : ℕ) (ds : List ℕ) → length (running total ds) ≡ length ds
length-running total [] = refl
length-running total (d ∷ ds) = ap suc (length-running (total + d) ds)

nil_of_length : (xs : List ℕ) → length xs ≡ 0 → xs ≡ []
nil_of_length [] h = refl
nil_of_length (x ∷ xs) h = absurd (omega arith)

module _ (empty : ℕ → List ℕ) (length-empty : (n : ℕ) → length (empty n) ≡ n) where
  -- The reference decoder on any byte stream, told apart into groups and open bytes, for a positive
  -- count, where the numbers add up to less than 2 ^ 63.
  pub python-Stream :
      (gs : List (List ℕ)) (tail : List ℕ) (expected_count : ℕ)
      → All Group gs
      → All IsOpen tail
      → 0 < expected_count
      → sum (map group_value gs) < 2 ^ 63
      → decode_varint_delta_indices_python empty (concat gs ++ tail) expected_count
        ≡ reference_answer gs tail expected_count
  unfolding decode_varint_delta_indices_python
  python-Stream gs tail n h t pos sums = elim (dec_le (length gs) n) [
    | yes fits ↦
        rw
          (
            ne→== n 0 (omega arith),
            loop-concat n gs tail [] (empty n) 0 h (omega (arith, length-empty n))
                (rw length-empty fits) (omega arith),
            end-tail n tail (running 0 values) (drop (length gs) (empty n)) (0 + sum values) t,
            length-running 0 values,
            length-map group_value gs,
            ltb-false n (length gs) fits,
          )
          (whole fits)
    | no more ↦ rw (
      ne→== n 0 (omega arith),
      loop-concat_full n gs tail [] (empty n) 0 h (omega (arith, length-empty n))
          (rw length-empty (omega arith)) (omega arith),
      lt→ltb n (length gs) (omega arith),
    )
  ]
    where
      values : List ℕ
      values = map group_value gs

      whole :
          length gs ≤ n
          → (if is_open tail
              then err truncated_varint
              else if not (length gs == n)
              then err count_mismatch
              else ok (running 0 values ++ drop (length gs) (empty n)))
            ≡ (if is_open tail
                then err truncated_varint
                else if not (length gs == n)
                then err count_mismatch
                else ok (running 0 values))
      whole fits = elim (ℕ_discrete (length gs) n) [
        | yes e ↦ rw (
          nil_of_length (drop (length gs) (empty n))
              (omega (arith, length-drop (length gs) (empty n), length-empty n)),
          append-nil,
        )
        | no other ↦ rw (ne→== (length gs) n other)
      ]
