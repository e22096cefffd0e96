-- ===== src/Staging/Files/Content.antt =====
-- Chunks of one content, in any order and also more than once, leave that content in the file.
use aurora_rl.Base.{
  ℕ, zero, suc, ◌+◌, ◌-◌, ◌≤◌, ◌<◌, ◌≡◌, refl, sym, ◌∙◌, Bool, true, false, ◌&&◌, ◌||◌, List, [],
  ◌∷◌, length, get_elem?, get_elem?-behind, ltb, leb, max, arith, same_elements, Bool-cases, inl,
  inr, ◌⊎◌, le→leb,
}
use aurora_rl.Staging.Ranges.{Range, merge_received_range, upload_complete}
use aurora_rl.Staging.Ranges.Cover.{covers, within, ApartFrom, merge_received_range-covers}
use aurora_rl.Staging.Ranges.Complete.{upload_complete-covers}
use aurora_rl.Staging.Files.{after_first, overwrite, write_behind, write_at}

get_elem?-overwrite_inside :
    (file chunk : List ℕ) (k : ℕ)
    → k < length chunk
    → get_elem? (overwrite file chunk) k ≡ get_elem? chunk k
unfolding overwrite
get_elem?-overwrite_inside file [] k h = absurd (omega arith)
get_elem?-overwrite_inside file (b ∷ chunk) zero h = refl
get_elem?-overwrite_inside file (b ∷ chunk) (suc k) h =
    get_elem?-overwrite_inside (after_first file) chunk k (omega arith)

get_elem?-after_first :
    (file : List ℕ) (k : ℕ) → get_elem? (after_first file) k ≡ get_elem? file (suc k)
get_elem?-after_first [] k = refl
get_elem?-after_first (b ∷ file) k = refl

length-after_first : (file : List ℕ) → length (after_first file) ≡ length file - 1
length-after_first [] = refl
length-after_first (b ∷ file) = omega arith

get_elem?-overwrite_behind :
    (file chunk : List ℕ) (k : ℕ)
    → length chunk ≤ k
    → get_elem? (overwrite file chunk) k ≡ get_elem? file k
unfolding overwrite
get_elem?-overwrite_behind file [] k h = refl
get_elem?-overwrite_behind file (b ∷ chunk) zero h = absurd (omega arith)
get_elem?-overwrite_behind file (b ∷ chunk) (suc k) h =
    get_elem?-overwrite_behind (after_first file) chunk k (omega arith)
    ∙ get_elem?-after_first file k

length-overwrite :
    (file chunk : List ℕ) → length (overwrite file chunk) ≡ max (length file) (length chunk)
unfolding overwrite
length-overwrite file [] = omega arith
length-overwrite file (b ∷ chunk) =
    omega (arith, length-overwrite (after_first file) chunk, length-after_first file)

get_elem?-write_behind_inside :
    (file : List ℕ) (offset : ℕ) (chunk : List ℕ) (k : ℕ)
    → k < length chunk
    → get_elem? (write_behind file offset chunk) (offset + k) ≡ get_elem? chunk k
unfolding write_behind
get_elem?-write_behind_inside file zero chunk k h =
    let at : 0 + k ≡ k = omega arith in rw at (get_elem?-overwrite_inside file chunk k h)
get_elem?-write_behind_inside file (suc offset) chunk k h =
    let at : suc offset + k ≡ suc (offset + k) = omega arith in
    rw at (get_elem?-write_behind_inside (after_first file) offset chunk k h)

get_elem?-write_behind_other :
    (file : List ℕ) (offset : ℕ) (chunk : List ℕ) (k : ℕ)
    → (leb offset k && ltb k (offset + length chunk)) ≡ false
    → k < length file
    → get_elem? (write_behind file offset chunk) k ≡ get_elem? file k
unfolding write_behind
get_elem?-write_behind_other file zero chunk k out h =
    get_elem?-overwrite_behind file chunk k (ground arith)
get_elem?-write_behind_other [] (suc offset) chunk k out h = absurd (omega arith)
get_elem?-write_behind_other (b ∷ file) (suc offset) chunk zero out h = refl
get_elem?-write_behind_other (b ∷ file) (suc offset) chunk (suc k) out h =
    get_elem?-write_behind_other file offset chunk k (ground arith) (omega arith)

length-write_behind :
    (file : List ℕ) (offset : ℕ) (chunk : List ℕ)
    → length (write_behind file offset chunk) ≡ max (length file) (offset + length chunk)
unfolding write_behind
length-write_behind file zero chunk = omega (arith, length-overwrite file chunk)
length-write_behind file (suc offset) chunk =
    omega (arith, length-write_behind (after_first file) offset chunk, length-after_first file)

module _ (whole : List ℕ) where
  -- The file agrees with the content where bytes have come in, and is not longer.
  pub record Holds (file : List ℕ) (ranges : List Range) : Type 0 where
    pub apart : ApartFrom 0 ranges
    pub short : length file ≤ length whole
    pub filled : (k : ℕ) → covers ranges k ≡ true → k < length file
    pub agrees : (k : ℕ) → covers ranges k ≡ true → get_elem? file k ≡ get_elem? whole k

  -- The chunk is what the content has from the offset on.
  abbrev pub IsSlice : ℕ → List ℕ → Type 0
  IsSlice offset chunk =
      (offset + length chunk ≤ length whole)
      × ((k : ℕ) → k < length chunk → get_elem? chunk k ≡ get_elem? whole (offset + k))

  module _ (file : List ℕ) (ranges : List Range) (offset : ℕ) (chunk : List ℕ)
      (h : Holds file ranges) (slice : IsSlice offset chunk) where
    -- A byte that is covered now was written, or was covered before.
    covered_now :
        (k : ℕ)
        → covers (merge_received_range ranges offset (offset + length chunk)) k ≡ true
        → ((i : ℕ) × (i < length chunk) × (k ≡ offset + i))
          ⊎ ((within k (offset, offset + length chunk) ≡ false) × (covers ranges k ≡ true))
    covered_now k covered = elim (Bool-cases (within k (offset, offset + length chunk))) [
      | inl written ↦ inl (k - offset, ground arith, ground arith)
      | inr other ↦
          let merged =
            (merge_received_range-covers ranges offset (offset + length chunk) h.apart).1 k in
          inr (
            other,
            before (covers ranges k) (within k (offset, offset + length chunk)) other
                (sym merged ∙ covered),
          )
    ]
      where
        before : (a b : Bool) → b ≡ false → (a || b) ≡ true → a ≡ true
        before true b e t = refl
        before false b e t = cc

    write_behind-Holds :
        Holds
          (write_behind file offset chunk)
          (merge_received_range ranges offset (offset + length chunk))
    write_behind-Holds = record {
      apart = (merge_received_range-covers ranges offset (offset + length chunk) h.apart).0;
      short = omega (arith, length-write_behind file offset chunk, h.short, slice.0);
      filled = λ k covered. elim (covered_now k covered) [
        | inl (i, lt, at) ↦ omega (arith, length-write_behind file offset chunk)
        | inr (other, before) ↦
            omega (arith, length-write_behind file offset chunk, h.filled k before)
      ];
      agrees = λ k covered. elim (covered_now k covered) [
        | inl (i, lt, at) ↦
            rw at (get_elem?-write_behind_inside file offset chunk i lt ∙ slice.1 i lt)
        | inr (other, before) ↦
            get_elem?-write_behind_other file offset chunk k other (h.filled k before)
            ∙ h.agrees k before
      ];
    }

  -- A chunk of the content, written where it belongs, keeps the file in agreement with the content
  -- on all bytes that have come in.
  pub write_at-Holds :
      (file : List ℕ) (ranges : List Range) (offset : ℕ) (chunk : List ℕ)
      → Holds file ranges
      → IsSlice offset chunk
      → Holds
          (write_at file offset chunk)
          (merge_received_range ranges offset (offset + length chunk))
  unfolding write_at
  write_at-Holds file ranges offset [] h slice =
      rw (empty_range (offset + 0) offset (omega arith)) h
    where
      empty_range : (end start : ℕ) → end ≤ start → merge_received_range ranges start end ≡ ranges
      empty_range end start le = unfold merge_received_range in rw (le→leb end start le) refl
  write_at-Holds file ranges offset (b ∷ chunk) h slice =
      write_behind-Holds file ranges offset (b ∷ chunk) h slice

  -- A file whose upload is complete is the content.
  pub complete-content :
      (file : List ℕ) (ranges : List Range)
      → Holds file ranges
      → upload_complete ranges (length whole) ≡ true
      → file ≡ whole
  complete-content file ranges h complete = same_elements file whole λ k.
      elim (Bool-cases (ltb k (length whole))) [
        | inl inside ↦
            h.agrees k
              ((upload_complete-covers ranges (length whole) h.apart).0 complete k ∙ inside)
        | inr behind ↦
            get_elem?-behind file k (omega (arith, h.short, outside k (length whole) behind))
            ∙ sym (get_elem?-behind whole k (outside k (length whole) behind))
      ]
    where
      outside : (k n : ℕ) → ltb k n ≡ false → n ≤ k
      outside k n h = ground arith
