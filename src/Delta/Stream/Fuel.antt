-- ===== src/Delta/Stream/Fuel.antt =====
-- The length of a stream is fuel enough to read it.
use aurora_rl.Base.{
  ℕ, zero, suc, ◌+◌, ◌*◌, ◌≤◌, ◌≡◌, refl, ◌∙◌, ap, Bool, not, ◌||◌, List, [], ◌∷◌, length,
  length-drop, Option, leb, ◌==◌, Result, ok, err, check, on_ok, ok-injective, leb→le, arith,
  Bool-cases, inl, inr, subst,
}
use aurora_rl.Delta.Stream.{
  StreamError, truncated, unsupported_flags, not_utf8, StreamingDeltaRecord, code_to_dtype,
  element_size, read_exact, read_field, read_dims, read_shape, read_record, read_records,
  stream_index_dtype,
}

module _ {A : Type 0} where
  -- What is left after reading at least so many bytes.
  abbrev Takes : ℕ → List ℕ → A × List ℕ → Type 0
  Takes n stream r = length r.1 + n ≤ length stream

read_exact-Takes :
    (n : ℕ) (stream : List ℕ) (r : List ℕ × List ℕ) → read_exact n stream ≡ ok r → Takes n stream r
unfolding read_exact
read_exact-Takes n stream r h = elim (Bool-cases (leb n (length stream))) [
  | inl enough ↦
      subst (λ t. Takes n stream t) (ok-injective (rw enough at h))
        (omega (arith, length-drop n stream, leb→le n (length stream) enough))
  | inr short ↦ absurd (let e = rw short at h in ground arith)
]

read_field-Takes :
    (w : ℕ) (stream : List ℕ) (r : ℕ × List ℕ) → read_field w stream ≡ ok r → Takes w stream r
unfolding read_field
read_field-Takes w stream r h = on_ok (read_exact w stream) _ h λ bytes found h1.
    subst (λ t. Takes w stream t) (ok-injective h1) (read_exact-Takes w stream bytes found)

read_dims-Takes :
    (rank : ℕ) (stream : List ℕ) (r : List ℕ × List ℕ)
    → read_dims rank stream ≡ ok r
    → Takes 0 stream r
unfolding read_dims
read_dims-Takes zero stream r h = subst (λ t. Takes 0 stream t) (ok-injective h) (omega arith)
read_dims-Takes (suc rank) stream r h = on_ok (read_field 8 stream) _ h λ dim found h1.
    on_ok (read_dims rank dim.1) _ h1 λ rest others h2.
      subst (λ t. Takes 0 stream t) (ok-injective h2)
        (omega (arith, read_field-Takes 8 stream dim found, read_dims-Takes rank dim.1 rest others))

read_shape-Takes :
    (version reserved : ℕ) (stream : List ℕ) (r : Option (List ℕ) × List ℕ)
    → read_shape version reserved stream ≡ ok r
    → Takes 0 stream r
unfolding read_shape
read_shape-Takes version reserved stream r h = elim (Bool-cases (version == 2)) [
  | inl two ↦ on_ok (read_dims reserved stream) _ (rw two at h) λ dims found h1.
      subst (λ t. Takes 0 stream t) (ok-injective h1) (read_dims-Takes reserved stream dims found)
  | inr one ↦ subst (λ t. Takes 0 stream t) (ok-injective (rw one at h)) (omega arith)
]

module _ (is_utf8 : List ℕ → Bool) (version : ℕ) where
  read_record-Takes :
      (stream : List ℕ) (r : StreamingDeltaRecord × List ℕ)
      → read_record is_utf8 version stream ≡ ok r
      → Takes 1 stream r
  unfolding read_record
  read_record-Takes stream r h = on_ok (check (leb 24 (length stream)) truncated) _ h λ _ _ h1.
      on_ok (read_field 4 stream) _ h1 λ a ea h2. on_ok (read_field 1 a.1) _ h2 λ b eb h3.
        on_ok (read_field 1 b.1) _ h3 λ c ec h4. on_ok (read_field 2 c.1) _ h4 λ d ed h5.
          on_ok (read_field 8 d.1) _ h5 λ e ee h6. on_ok (read_field 8 e.1) _ h6 λ f ef h7.
            on_ok (check (not (version == 1) || d.0 == 0) unsupported_flags) _ h7 λ _ _ h8.
              on_ok (code_to_dtype c.0) _ h8 λ dtype _ h9.
                on_ok (read_exact a.0 f.1) _ h9 λ name en h10.
                  on_ok (check (is_utf8 name.0) not_utf8) _ h10 λ _ _ h11.
                    on_ok (read_shape version d.0 name.1) _ h11 λ shape es h12.
                      on_ok (read_exact e.0 shape.1) _ h12 λ indices ei h13.
                        on_ok (read_exact (f.0 * element_size dtype) indices.1) _ h13
                          λ values ev h14. on_ok (stream_index_dtype b.0 e.0) _ h14 λ _ _ h15.
                            subst (λ t. Takes 1 stream t) (ok-injective h15)
                              (omega (
                                arith,
                                read_field-Takes 4 stream a ea,
                                read_field-Takes 1 a.1 b eb,
                                read_field-Takes 1 b.1 c ec,
                                read_field-Takes 2 c.1 d ed,
                                read_field-Takes 8 d.1 e ee,
                                read_field-Takes 8 e.1 f ef,
                                read_exact-Takes a.0 f.1 name en,
                                read_shape-Takes version d.0 name.1 shape es,
                                read_exact-Takes e.0 shape.1 indices ei,
                                read_exact-Takes (f.0 * element_size dtype) indices.1 values ev,
                              ))

  -- With as much fuel as the stream is long, any more changes nothing: the loop ends at the end of
  -- the stream or at an error, and never for want of fuel.
  pub read_records_fuel :
      (fuel more : ℕ) (stream : List ℕ)
      → length stream ≤ fuel
      → read_records is_utf8 (fuel + more) version stream ≡ read_records is_utf8 fuel version stream
  unfolding read_records
  read_records_fuel fuel more [] h = refl
  read_records_fuel zero more (b ∷ stream) h = absurd (omega arith)
  read_records_fuel (suc fuel) more (b ∷ stream) h =
      let at : suc fuel + more ≡ suc (fuel + more) = omega arith in
      ap (λ (n : ℕ). read_records is_utf8 n version (b ∷ stream)) at
      ∙ same (read_records_fuel fuel more) (read_record is_utf8 version (b ∷ stream)) refl
    where
      after :
          ℕ
          → Result StreamError (StreamingDeltaRecord × List ℕ)
          → List StreamingDeltaRecord × Result StreamError (Unit {0})
      after n r = elim r [
        | err e ↦ ([], err e)
        | ok (found, rest) ↦
            let later = read_records is_utf8 n version rest in (found ∷ later.0, later.1)
      ]

      same :
          ((rest : List ℕ)
            → length rest ≤ fuel
            → read_records is_utf8 (fuel + more) version rest
              ≡ read_records is_utf8 fuel version rest)
          → (r : Result StreamError (StreamingDeltaRecord × List ℕ))
          → read_record is_utf8 version (b ∷ stream) ≡ r
          → after (fuel + more) r ≡ after fuel r
      same ih (err e) is = refl
      same ih (ok (found, rest)) is =
          ap (λ later. (found ∷ later.0, later.1))
            (ih rest (omega (arith, h, read_record-Takes (b ∷ stream) (found, rest) is)))
