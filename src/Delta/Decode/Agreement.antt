-- ===== src/Delta/Decode/Agreement.antt =====
-- The three decoders compared: the fast path is the vectorised decoder, and that one is the
-- reference decoder on complete streams.
use aurora_rl.Base.{
  ℕ, zero, suc, ◌+◌, ◌^◌, ◌<◌, ◌≤◌, ◌≡◌, refl, sym, ◌∙◌, ap, ap₂, List, [], ◌∷◌, ◌++◌, append-nil,
  map, length, length-map, sum, All, All-append, ltb, ltb-false, if◌then◌else◌, not, ◌==◌, ne→==,
  eq→==, Bool, true, false, ◌&&◌, Bool-cases, inl, inr, Result, ok, err, arith, wrap64, IsByte,
}
use aurora_rl.Base.Bits.{bit_and_high}
use aurora_rl.Delta.Errors.{DeltaError, truncated_varint, too_many_indices, count_mismatch}
use aurora_rl.Delta.Groups.{
  Group, last, IsOpen, group_value, concat, concat-All_bytes, tail-All_bytes,
}
use aurora_rl.Delta.Decode.{
  cumsum, any_high, largest, decode_varint_delta_indices, decode_varint_delta_indices_numpy,
  decode_varint_delta_indices_python,
}
use aurora_rl.Delta.Decode.Numpy.{numpy_answer, numpy-Stream}
use aurora_rl.Delta.Decode.Reference.{running, reference_answer, python-Stream}
use native.Mathlib.Nat.{mod-eq_of_lt, le_refl}

-- A sum that fits an int64 does not wrap around.
pub cumsum-running :
    (ds : List ℕ) (total : ℕ) → total + sum ds < 2 ^ 63 → cumsum total ds ≡ running total ds
unfolding cumsum
cumsum-running [] total h = refl
cumsum-running (d ∷ ds) total h =
    let same : wrap64 (total + d) ≡ total + d = mod-eq_of_lt (omega arith) in
    rw same (ap (λ t. (total + d) ∷ t) (cumsum-running ds (total + d) (omega arith)))

abbrev singles : List ℕ → List (List ℕ)
singles = map (λ b. b ∷ [])

concat-singles : (bs : List ℕ) → concat (singles bs) ≡ bs
concat-singles [] = refl
concat-singles (b ∷ bs) = ap (λ t. b ∷ t) (concat-singles bs)

-- Bytes without the top bit are groups of their own.
record IsPlain (bs : List ℕ) : Type 0 where
  groups : All Group (singles bs)
  values : map group_value (singles bs) ≡ bs
  short : largest (map length (singles bs)) ≤ 9

any_high-cons :
    (b : ℕ) (bs : List ℕ) → b < 256 → any_high (b ∷ bs) ≡ false → (b < 128) × (any_high bs ≡ false)
unfolding any_high
any_high-cons b bs byte plain = ground (arith, bit_and_high b byte)

any_high-IsPlain : (bs : List ℕ) → All IsByte bs → any_high bs ≡ false → IsPlain bs
unfolding largest
any_high-IsPlain [] h plain = record { groups = tt; values = refl; short = omega arith }
any_high-IsPlain (b ∷ bs) (hb, h) plain =
    let (small, later) = any_high-cons b bs hb plain in
    let rest = any_high-IsPlain bs h later in
    record {
      groups = (last small, rest.groups);
      values = ap₂ ◌∷◌ (omega arith) rest.values;
      short = omega (arith, rest.short);
    }

plain-numpy :
    (bs : List ℕ)
    → All IsByte bs
    → any_high bs ≡ false
    → 0 < length bs
    → decode_varint_delta_indices_numpy bs (length bs) ≡ ok (cumsum 0 bs)
plain-numpy bs h plain pos =
    let p = any_high-IsPlain bs h plain in
    let stream : concat (singles bs) ++ [] ≡ bs = append-nil _ ∙ concat-singles bs in
    let count : length (singles bs) ≡ length bs = length-map _ bs in
    rw stream at (numpy-Stream (singles bs) [] (length bs) p.groups tt pos)
    ∙ rw (
      count,
      eq→== (length bs) (length bs) refl,
      ltb-false 9 (largest (map length (singles bs))) p.short,
      p.values,
    )

fast_path : (b : Bool) (m n : ℕ) → (m == n && not b) ≡ true → (m ≡ n) × (b ≡ false)
fast_path b m n h = ground arith

-- The fast path changes no answer: on bytes and a positive count the decoder is the vectorised one.
pub decode-numpy :
    (bs : List ℕ) (n : ℕ)
    → All IsByte bs
    → 0 < n
    → decode_varint_delta_indices bs n ≡ decode_varint_delta_indices_numpy bs n
unfolding decode_varint_delta_indices
decode-numpy bs n h pos = elim (Bool-cases (length bs == n && not (any_high bs))) [
  | inl fast ↦
      let (count, plain) = fast_path (any_high bs) (length bs) n fast in
      rw (ne→== n 0 (omega arith), fast)
        (sym (plain-numpy bs h plain (omega arith))
          ∙ ap (decode_varint_delta_indices_numpy bs) count)
  | inr slow ↦ rw (ne→== n 0 (omega arith), slow)
]

pub short_groups : (gs : List (List ℕ)) → All (λ g. length g ≤ 9) gs → largest (map length gs) ≤ 9
unfolding largest
short_groups [] h = omega arith
short_groups (g ∷ gs) (h, hs) = omega (arith, short_groups gs hs)

-- The vectorised and the reference answer on complete streams.
same_answer :
    (gs : List (List ℕ)) (n : ℕ)
    → All (λ g. length g ≤ 9) gs
    → sum (map group_value gs) < 2 ^ 63
    → numpy_answer gs [] n ≡ reference_answer gs [] n
same_answer gs n short sums =
    rw
      (
        ltb-false 9 (largest (map length gs)) (short_groups gs short),
        cumsum-running (map group_value gs) 0 (omega arith),
      )
      (branches (length gs) n _)
  where
    branches :
        (m n : ℕ) (r : Result DeltaError (List ℕ))
        → (if not (m == n)
            then (if ltb n m then err too_many_indices else err count_mismatch)
            else r)
          ≡ (if ltb n m
              then err too_many_indices
              else if not (m == n)
              then err count_mismatch
              else r)
    branches m n r = ground arith

module _ (empty : ℕ → List ℕ) (length-empty : (n : ℕ) → length (empty n) ≡ n) where
  -- On a stream of whole groups of at most nine bytes whose numbers add up to less than 2 ^ 63, the
  -- decoder and the byte-by-byte reference give the same indices or the same error, at every count.
  pub decode-python :
      (gs : List (List ℕ)) (n : ℕ)
      → All Group gs
      → All (λ g. length g ≤ 9) gs
      → sum (map group_value gs) < 2 ^ 63
      → decode_varint_delta_indices (concat gs) n
        ≡ decode_varint_delta_indices_python empty (concat gs) n
  decode-python gs zero h short sums =
      unfold decode_varint_delta_indices decode_varint_delta_indices_python in refl
  decode-python gs (suc n) h short sums =
      decode-numpy (concat gs) (suc n) (concat-All_bytes gs h) (omega arith)
      ∙ rw (append-nil (concat gs)) at (
          numpy-Stream gs [] (suc n) h tt (omega arith)
          ∙ same_answer gs (suc n) short sums
          ∙ sym (python-Stream empty length-empty gs [] (suc n) h tt (omega arith) sums))

  -- A stream that is cut inside a group, behind as many whole groups as indices are expected (at
  -- least one, of at most nine bytes each, with a sum below 2 ^ 63): the reference refuses it, and
  -- the decoder returns the indices of the whole groups.
  pub decode_cut :
      (gs : List (List ℕ)) (b : ℕ) (tail : List ℕ)
      → All Group gs
      → All (λ g. length g ≤ 9) gs
      → sum (map group_value gs) < 2 ^ 63
      → 0 < length gs
      → All IsOpen (b ∷ tail)
      → (decode_varint_delta_indices (concat gs ++ (b ∷ tail)) (length gs)
          ≡ ok (running 0 (map group_value gs)))
        × (decode_varint_delta_indices_python empty (concat gs ++ (b ∷ tail)) (length gs)
            ≡ err truncated_varint)
  decode_cut gs b tail h short sums pos t =
      let n : ℕ = length gs in
      let bytes : All IsByte (concat gs ++ (b ∷ tail)) =
        All-append IsByte (concat gs) (b ∷ tail) (concat-All_bytes gs h)
          (tail-All_bytes (b ∷ tail) t) in
      (
        decode-numpy (concat gs ++ (b ∷ tail)) n bytes pos
            ∙ numpy-Stream gs (b ∷ tail) n h t pos
            ∙ rw (
              eq→== n n refl,
              ltb-false 9 (largest (map length gs)) (short_groups gs short),
              cumsum-running (map group_value gs) 0 (omega arith),
            ),
        python-Stream empty length-empty gs (b ∷ tail) n h t pos sums
            ∙ rw (ltb-false n n (le_refl n)),
      )
