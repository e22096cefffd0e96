-- ===== src/Delta/Encode/Bytes.antt =====
-- What the encoder writes: the two passes agree on the size, and the second fills the array with
-- the bytes of the format, whatever the new array held.
use aurora_rl.Base.{
  ℕ, ◌+◌, ◌-◌, ◌/◌, ◌%◌, ◌<◌, ◌≡◌, ◌∙◌, ap, List, [], ◌∷◌, ◌++◌, append_assoc, length,
  length-append, take, drop, take-append-drop, length-take, length-drop, set-append, ok, >>=-eq-ok,
  ◌↔◌, sym, lt_wf, arith,
}
use aurora_rl.Base.Bits.{bit_and_low, bit_or_high}
use aurora_rl.Delta.Groups.{
  Varint, final, carry, varint, varint-Varint, Ascends, index_bytes, index_bytes-nil,
  index_bytes-cons,
}
use aurora_rl.Delta.Encode.{
  size_loop, size_pass, write_loop, write_pass, encode_varint_delta_indices_numba,
  encode_varint_delta_indices,
}
use mathlib.Core.WellFounded.{Acc}

size_loop-Varint :
    {d : ℕ} {bs : List ℕ} (v : Varint d bs) (w : Acc ◌<◌ d) (size : ℕ)
    → size_loop d w (size + 1) ≡ size + length bs
unfolding size_loop
size_loop-Varint (final h) (Acc.intro _ below) size = grind arith
size_loop-Varint (carry {d} {bs} h v) (Acc.intro _ below) size =
    grind (arith, λ (w : Acc ◌<◌ (d / 128)). size_loop-Varint v w (size + 1))

size_pass-index_bytes :
    (indices : List ℕ) (previous size : ℕ)
    → Ascends previous indices
    → size_pass indices previous size ≡ ok (size + length (index_bytes previous indices))
unfolding size_pass
size_pass-index_bytes [] previous size h = rw index_bytes-nil (ap ok (omega arith))
size_pass-index_bytes (x ∷ xs) previous size (le, fits, h) = ground (
  arith,
  size_loop-Varint (varint-Varint (x - previous)) (lt_wf.apply (x - previous)) size,
  size_pass-index_bytes xs x (size + length (varint (x - previous))) h,
  index_bytes-cons previous x xs,
  length-append (varint (x - previous)) (index_bytes x xs),
)

write_loop-Varint :
    {d : ℕ} {bs : List ℕ} (v : Varint d bs) (w : Acc ◌<◌ d) (out gap rest : List ℕ)
    → length gap ≡ length bs
    → write_loop (out ++ (gap ++ rest)) (length out) d w
      ≡ (out ++ (bs ++ rest), length out + length bs)
unfolding write_loop
write_loop-Varint (final {d} h) (Acc.intro _ below) out (y ∷ []) rest e =
    grind (arith, set-append out y rest d)
write_loop-Varint (carry {d} {bs} h v) (Acc.intro _ below) out (y ∷ gap) rest e =
    let next : ℕ = d % 128 + 128 in
    grind (
      arith,
      bit_and_low d,
      bit_or_high (d % 128),
      set-append out y (gap ++ rest) next,
      append_assoc out (next ∷ []) (gap ++ rest),
      append_assoc out (next ∷ []) (bs ++ rest),
      length-append out (next ∷ []),
      λ (w : Acc ◌<◌ (d / 128)). write_loop-Varint v w (out ++ (next ∷ [])) gap rest (omega arith),
    )
write_loop-Varint (final {d} h) w out [] rest e = absurd (omega arith)
write_loop-Varint (final {d} h) w out (y ∷ z ∷ gap) rest e = absurd (omega arith)
write_loop-Varint (carry {d} {bs} h v) w out [] rest e = absurd (omega arith)

module _ (x : ℕ) (xs : List ℕ) (previous : ℕ) (out front back : List ℕ) where
  abbrev bytes : List ℕ
  bytes = varint (x - previous)

  write_pass_step :
      length front ≡ length bytes
      → write_pass xs x ((out ++ bytes) ++ back) (length (out ++ bytes))
        ≡ (out ++ bytes) ++ index_bytes x xs
      → write_pass (x ∷ xs) previous (out ++ (front ++ back)) (length out)
        ≡ out ++ index_bytes previous (x ∷ xs)
  unfolding write_pass
  write_pass_step e ih = ground (
    arith,
    write_loop-Varint (varint-Varint (x - previous)) (lt_wf.apply (x - previous)) out front back e,
    length-append out bytes,
    append_assoc out bytes back,
    append_assoc out bytes (index_bytes x xs),
    index_bytes-cons previous x xs,
  )

write_pass-index_bytes :
    (indices : List ℕ) (previous : ℕ) (out gap : List ℕ)
    → length gap ≡ length (index_bytes previous indices)
    → write_pass indices previous (out ++ gap) (length out) ≡ out ++ index_bytes previous indices
unfolding write_pass
write_pass-index_bytes [] previous out [] e = rw index_bytes-nil
write_pass-index_bytes [] previous out (y ∷ gap) e =
    absurd (omega (arith, ap length (index_bytes-nil previous)))
write_pass-index_bytes (x ∷ xs) previous out gap e =
    let bytes : List ℕ = varint (x - previous) in
    let front : List ℕ = take (length bytes) gap in
    let back : List ℕ = drop (length bytes) gap in
    let size : length gap ≡ length bytes + length (index_bytes x xs) =
      omega (
        arith,
        ap length (index_bytes-cons previous x xs),
        length-append bytes (index_bytes x xs),
      ) in
    rw (← take-append-drop (length bytes) gap) (
      write_pass_step x xs previous out front back (omega (arith, length-take (length bytes) gap)) (
        write_pass-index_bytes xs x (out ++ bytes) back
          (omega (arith, length-drop (length bytes) gap))))

size_pass-Ascends :
    (indices : List ℕ) (previous size : ℕ) {n : ℕ}
    → size_pass indices previous size ≡ ok n
    → Ascends previous indices
unfolding size_pass
size_pass-Ascends [] previous size h = tt
size_pass-Ascends (x ∷ xs) previous size {n} h = ground (
  arith,
  size_pass-Ascends xs x (size_loop (x - previous) (lt_wf.apply (x - previous)) (size + 1)) {n = n},
)

module _ (empty : ℕ → List ℕ) (length-empty : (n : ℕ) → length (empty n) ≡ n) where
  numba-index_bytes :
      (indices : List ℕ)
      → Ascends 0 indices
      → encode_varint_delta_indices_numba empty indices ≡ ok (index_bytes 0 indices)
  unfolding encode_varint_delta_indices_numba
  numba-index_bytes indices h =
      let size : ℕ = length (index_bytes 0 indices) in
      rw (size_pass-index_bytes indices 0 0 h) (
        ap ok (
          write_pass-index_bytes indices 0 [] (empty (0 + size))
            (omega (arith, length-empty (0 + size)))))

  -- On indices that ascend from 0 the encoder writes the bytes of the format.
  pub encode-index_bytes :
      (indices : List ℕ)
      → Ascends 0 indices
      → encode_varint_delta_indices empty indices ≡ ok (index_bytes 0 indices)
  unfolding encode_varint_delta_indices
  encode-index_bytes [] h = rw index_bytes-nil
  encode-index_bytes (x ∷ xs) h = numba-index_bytes (x ∷ xs) h

  encode-Ascends :
      (indices : List ℕ) {bs : List ℕ}
      → encode_varint_delta_indices empty indices ≡ ok bs
      → Ascends 0 indices
  unfolding encode_varint_delta_indices encode_varint_delta_indices_numba
  encode-Ascends [] h = tt
  encode-Ascends (x ∷ xs) h =
      let (n, e, _) = >>=-eq-ok (size_pass (x ∷ xs) 0 0) _ h in size_pass-Ascends (x ∷ xs) 0 0 e

  -- The encoder succeeds exactly on indices that ascend from 0 and fit an int64, and then returns
  -- the bytes of the format, whatever the new array held.
  pub encode_iff :
      (indices bs : List ℕ)
      → (encode_varint_delta_indices empty indices ≡ ok bs)
        ↔ (Ascends 0 indices × (bs ≡ index_bytes 0 indices))
  encode_iff indices bs = (
    λ h. let a = encode-Ascends indices h in (a, cc (h, encode-index_bytes indices a)),
    λ h. encode-index_bytes indices h.0 ∙ ap ok (sym h.1),
  )
