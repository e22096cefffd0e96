-- ===== src/Staging/Ranges/Cover.antt =====
-- Merging keeps exactly the bytes that were there and the new ones, and keeps the ranges apart.
use aurora_rl.Base.{
  ℕ, suc, ◌≤◌, ◌<◌, ◌≡◌, refl, ◌∙◌, ap, max, Bool, false, ◌&&◌, ◌||◌, List, [], ◌∷◌, ◌++◌, ltb, leb,
  Bool-cases, inl, inr, arith,
}
use aurora_rl.Staging.Ranges.{
  Range, pair_le, insert_sorted, sort, merge_loop, merge_sorted, merge_received_range,
}

-- Whether a byte lies in a range, and in one of several.
abbrev pub within : ℕ → Range → Bool
within b (s, e) = leb s b && ltb b e

abbrev pub covers : List Range → ℕ → Bool
covers [] b = false
covers (r ∷ ranges) b = within b r || covers ranges b

-- Not empty, in order, with a gap between any two; the first one starts at the bound or behind it.
abbrev pub ApartFrom : ℕ → List Range → Type 0
ApartFrom bound [] = Unit
ApartFrom bound ((s, e) ∷ ranges) = (bound ≤ s) × (s < e) × ApartFrom (suc e) ranges

-- In order of their starts, none empty.
abbrev StartsFrom : ℕ → List Range → Type 0
StartsFrom bound [] = Unit
StartsFrom bound ((s, e) ∷ ranges) = (bound ≤ s) × (s < e) × StartsFrom s ranges

covers-append : (xs ys : List Range) (b : ℕ) → covers (xs ++ ys) b ≡ (covers xs b || covers ys b)
covers-append [] ys b = refl
covers-append (x ∷ xs) ys b = ground (arith, covers-append xs ys b)

covers-insert_sorted :
    (r : Range) (ranges : List Range) (b : ℕ)
    → covers (insert_sorted r ranges) b ≡ (within b r || covers ranges b)
unfolding insert_sorted
covers-insert_sorted r [] b = refl
covers-insert_sorted r (r' ∷ ranges) b = ground (arith, covers-insert_sorted r ranges b)

covers-sort : (ranges : List Range) (b : ℕ) → covers (sort ranges) b ≡ covers ranges b
unfolding sort
covers-sort [] b = refl
covers-sort (r ∷ ranges) b =
    covers-insert_sorted r (sort ranges) b ∙ ap (λ t. within b r || t) (covers-sort ranges b)

lower_start : (a b : ℕ) (ranges : List Range) → a ≤ b → StartsFrom b ranges → StartsFrom a ranges
lower_start a b [] le h = tt
lower_start a b ((s, e) ∷ ranges) le (from, lt, h) = (omega arith, lt, h)

insert_sorted-StartsFrom :
    (bound s e : ℕ) (ranges : List Range)
    → bound ≤ s
    → s < e
    → StartsFrom bound ranges
    → StartsFrom bound (insert_sorted (s, e) ranges)
unfolding insert_sorted
insert_sorted-StartsFrom bound s e [] le lt h = (le, lt, tt)
insert_sorted-StartsFrom bound s e ((s', e') ∷ ranges) le lt (le', lt', h) =
    elim (Bool-cases (pair_le (s, e) (s', e'))) [
      | inl first ↦ rw first (le, lt, (unfold pair_le in ground arith, lt', h))
      | inr later ↦
          let behind : s' ≤ s = unfold pair_le in ground arith in
          rw later (le', lt', insert_sorted-StartsFrom s' s e ranges behind lt h)
    ]

abbrev Proper : List Range → Type 0
Proper [] = Unit
Proper ((s, e) ∷ ranges) = (s < e) × Proper ranges

sort-StartsFrom : (ranges : List Range) → Proper ranges → StartsFrom 0 (sort ranges)
unfolding sort
sort-StartsFrom [] h = tt
sort-StartsFrom ((s, e) ∷ ranges) (lt, h) =
    insert_sorted-StartsFrom 0 s e (sort ranges) (omega arith) lt (sort-StartsFrom ranges h)

covers-merge_loop :
    (ps pe : ℕ) (ranges : List Range) (b : ℕ)
    → StartsFrom ps ranges
    → covers (merge_loop ps pe ranges) b ≡ (within b (ps, pe) || covers ranges b)
unfolding merge_loop
covers-merge_loop ps pe [] b h = refl
covers-merge_loop ps pe ((s, e) ∷ ranges) b (le, lt, h) = elim (Bool-cases (ltb pe s)) [
  | inl apart ↦ rw apart (ap (λ t. within b (ps, pe) || t) (covers-merge_loop s e ranges b h))
  | inr joined ↦
      let low : StartsFrom ps ranges = lower_start ps s ranges le h in
      rw joined (covers-merge_loop ps (max pe e) ranges b low ∙ ground arith)
]

merge_loop-ApartFrom :
    (bound ps pe : ℕ) (ranges : List Range)
    → bound ≤ ps
    → ps < pe
    → StartsFrom ps ranges
    → ApartFrom bound (merge_loop ps pe ranges)
unfolding merge_loop
merge_loop-ApartFrom bound ps pe [] le lt h = (le, lt, tt)
merge_loop-ApartFrom bound ps pe ((s, e) ∷ ranges) le lt (from, lt', h) =
    elim (Bool-cases (ltb pe s)) [
      | inl apart ↦ rw apart (le, lt, merge_loop-ApartFrom (suc pe) s e ranges (ground arith) lt' h)
      | inr joined ↦ rw joined (
          merge_loop-ApartFrom bound ps (max pe e) ranges le (omega arith)
            (lower_start ps s ranges from h))
    ]

ApartFrom-Proper :
    (bound s e : ℕ) (ranges : List Range)
    → ApartFrom bound ranges
    → s < e
    → Proper (ranges ++ (s, e) ∷ [])
ApartFrom-Proper bound s e [] h lt = (lt, tt)
ApartFrom-Proper bound s e ((s', e') ∷ ranges) (_, lt', h) lt =
    (lt', ApartFrom-Proper (suc e') s e ranges h lt)

-- A byte is in the merged ranges exactly if it was in the ranges or is in the new one, which may be
-- empty; ranges that are in order with gaps between them stay so.
pub merge_received_range-covers :
    (ranges : List Range) (start end : ℕ)
    → ApartFrom 0 ranges
    → ApartFrom 0 (merge_received_range ranges start end)
      × ((b : ℕ)
          → covers (merge_received_range ranges start end) b
            ≡ (covers ranges b || within b (start, end)))
unfolding merge_received_range merge_sorted
merge_received_range-covers ranges start end h = elim (Bool-cases (leb end start)) [
  | inl empty ↦ rw empty (h, λ b. ground arith)
  | inr new ↦
      let sorted =
        sort-StartsFrom (ranges ++ (start, end) ∷ [])
          (ApartFrom-Proper 0 start end ranges h (ground arith)) in
      rw new (
        merged-Apart (sort (ranges ++ (start, end) ∷ [])) sorted,
        λ b.
            covers-merged (sort (ranges ++ (start, end) ∷ [])) b sorted
            ∙ covers-sort (ranges ++ (start, end) ∷ []) b
            ∙ covers-append ranges ((start, end) ∷ []) b
            ∙ ground arith,
      )
]
  where
    merged-Apart : (rs : List Range) → StartsFrom 0 rs → ApartFrom 0 (merge_sorted rs)
    merged-Apart [] k = tt
    merged-Apart ((s, e) ∷ rs) (_, lt, k) = merge_loop-ApartFrom 0 s e rs (omega arith) lt k

    covers-merged :
        (rs : List Range) (b : ℕ) → StartsFrom 0 rs → covers (merge_sorted rs) b ≡ covers rs b
    covers-merged [] b k = refl
    covers-merged ((s, e) ∷ rs) b (_, lt, k) = covers-merge_loop s e rs b k
