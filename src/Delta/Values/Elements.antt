-- ===== src/Delta/Values/Elements.antt =====
-- Elementwise facts: positions of changes, selections, and equality of tensors.
use aurora_rl.Base.{
  ℕ, zero, suc, ◌+◌, ◌<◌, ◌≤◌, ◌^◌, ◌≡◌, refl, ◌∙◌, ap, Bool, true, false, ◌&&◌, ◌||◌, not, none,
  some, List, [], ◌∷◌, length, length-set, All, get_elem?, ◌==◌, arith, Bool-cases, inl, inr, ne→==,
  eq→==, ==→eq,
}
use aurora_rl.Sparse.{IncreasesFrom, value_at, scatter}
use aurora_rl.Sparse.Lookup.{get_elem?_inside}
use aurora_rl.Delta.Groups.{Ascends}
use aurora_rl.Delta.Decode.{flatnonzero}
use aurora_rl.Delta.Values.{Arithmetic, zip_with, all_equal, index_select, any_negative, any_beyond}

pub flatnonzero-IncreasesFrom : (p : ℕ) (bits : List Bool) → IncreasesFrom p (flatnonzero p bits)
unfolding flatnonzero
flatnonzero-IncreasesFrom p [] = tt
flatnonzero-IncreasesFrom p (true ∷ bits) =
    (omega arith, rw (suc_form p) (flatnonzero-IncreasesFrom (p + 1) bits))
  where
    suc_form : (p : ℕ) → suc p ≡ p + 1
    suc_form p = omega arith
flatnonzero-IncreasesFrom p (false ∷ bits) =
    lower (p + 1) p (flatnonzero (p + 1) bits) (omega arith)
      (flatnonzero-IncreasesFrom (p + 1) bits)
  where
    lower : (b a : ℕ) (is : List ℕ) → a ≤ b → IncreasesFrom b is → IncreasesFrom a is
    lower b a [] le h = tt
    lower b a (i ∷ is) le (from, h) = (omega arith, h)

pub flatnonzero-below :
    (p n : ℕ) (bits : List Bool) → p + length bits ≤ n → All (λ i. i < n) (flatnonzero p bits)
unfolding flatnonzero
flatnonzero-below p n [] h = tt
flatnonzero-below p n (true ∷ bits) h =
    (omega arith, flatnonzero-below (p + 1) n bits (omega arith))
flatnonzero-below p n (false ∷ bits) h = flatnonzero-below (p + 1) n bits (omega arith)

-- Where a bit is set, there is a value unless the values run out.
pub value_at-flatnonzero :
    {W : Type 0} (bits : List Bool) (ws : List W) (p k : ℕ)
    → get_elem? bits k ≡ some true
    → value_at (flatnonzero p bits) ws (p + k) ≡ none
    → length ws < length (flatnonzero p bits)
unfolding flatnonzero value_at
value_at-flatnonzero [] ws p k set missing = cc
value_at-flatnonzero (true ∷ bits) [] p k set missing = omega arith
value_at-flatnonzero (true ∷ bits) (w ∷ ws) p zero set missing =
    absurd (let same : p == p + 0 ≡ true = eq→== p (p + 0) (omega arith) in cc)
value_at-flatnonzero (true ∷ bits) (w ∷ ws) p (suc k) set missing =
    let other : p == p + suc k ≡ false = ne→== p (p + suc k) (λ e. omega arith) in
    let shifted : p + suc k ≡ p + 1 + k = omega arith in
    let rest : value_at (flatnonzero (p + 1) bits) ws (p + 1 + k) ≡ none =
      rw (← shifted) (rw other at missing) in
    omega (arith, value_at-flatnonzero bits ws (p + 1) k set rest)
value_at-flatnonzero (false ∷ bits) ws p zero set missing = cc
value_at-flatnonzero (false ∷ bits) ws p (suc k) set missing =
    let shifted : p + suc k ≡ p + 1 + k = omega arith in
    value_at-flatnonzero bits ws (p + 1) k set (rw (← shifted) missing)

pub get_elem?-zip_with :
    {X Y Z : Type 0} (f : X → Y → Z) (xs : List X) (ys : List Y) (k : ℕ) {x : X} {y : Y}
    → get_elem? xs k ≡ some x
    → get_elem? ys k ≡ some y
    → get_elem? (zip_with f xs ys) k ≡ some (f x y)
unfolding zip_with
get_elem?-zip_with f [] ys k hx hy = cc
get_elem?-zip_with f (x ∷ xs) [] k hx hy = cc
get_elem?-zip_with f (x ∷ xs) (y ∷ ys) zero hx hy = cc
get_elem?-zip_with f (x ∷ xs) (y ∷ ys) (suc k) hx hy = get_elem?-zip_with f xs ys k hx hy

pub length-zip_with :
    {X Y Z : Type 0} (f : X → Y → Z) (xs : List X) (ys : List Y)
    → length xs ≡ length ys
    → length (zip_with f xs ys) ≡ length xs
unfolding zip_with
length-zip_with f [] ys h = refl
length-zip_with f (x ∷ xs) [] h = absurd (omega arith)
length-zip_with f (x ∷ xs) (y ∷ ys) h = ap suc (length-zip_with f xs ys (omega arith))

pub length-scatter :
    {V : Type 0} (updates : List (ℕ × V)) (flat : List V)
    → length (scatter updates flat) ≡ length flat
unfolding scatter
length-scatter [] flat = refl
length-scatter ((i, v) ∷ updates) flat = length-scatter updates _ ∙ length-set flat i v

pub IncreasesFrom-Ascends :
    (n bound previous : ℕ) (is : List ℕ)
    → n ≤ 2 ^ 63
    → previous ≤ bound
    → IncreasesFrom bound is
    → All (λ i. i < n) is
    → Ascends previous is
IncreasesFrom-Ascends n bound previous [] hn le h inside = tt
IncreasesFrom-Ascends n bound previous (i ∷ is) hn le (from, h) (lt, inside) =
    (omega arith, omega arith, IncreasesFrom-Ascends n (suc i) i is hn (omega arith) h inside)

pub in_range-check :
    (n : ℕ) (is : List ℕ)
    → n ≤ 2 ^ 63
    → All (λ i. i < n) is
    → not (any_negative is || any_beyond n is) ≡ true
unfolding any_negative any_beyond
in_range-check n [] hn h = refl
in_range-check n (i ∷ is) hn (lt, h) = ground (arith, in_range-check n is hn h)

both_true : (a b : Bool) → a && b ≡ true → (a ≡ true) × (b ≡ true)
both_true true true h = (refl, refl)
both_true true false h = cc
both_true false b h = cc

module _ (A : Arithmetic) where
  index_select-inside :
      (flat : List A.Element) (i : ℕ) (is : List ℕ) {v : A.Element}
      → get_elem? flat i ≡ some v
      → index_select A flat (i ∷ is) ≡ v ∷ index_select A flat is
  unfolding index_select
  index_select-inside flat i is at = rw (at, index_select) refl

  pub length-index_select :
      (flat : List A.Element) (is : List ℕ)
      → All (λ i. i < length flat) is
      → length (index_select A flat is) ≡ length is
  unfolding index_select
  length-index_select flat [] h = refl
  length-index_select flat (i ∷ is) (lt, h) =
      let (v, at) = get_elem?_inside flat i lt in
      ap length (index_select-inside flat i is at) ∙ ap suc (length-index_select flat is h)

  -- Equal tensors, element by element.
  pub all_equal_pointwise :
      (xs ys : List A.Element)
      → length xs ≡ length ys
      → ((k : ℕ) (x y : A.Element)
          → get_elem? xs k ≡ some x
          → get_elem? ys k ≡ some y
          → A.equal x y ≡ true)
      → all_equal A xs ys ≡ true
  unfolding all_equal
  all_equal_pointwise [] [] same h = refl
  all_equal_pointwise [] (y ∷ ys) same h = absurd (omega arith)
  all_equal_pointwise (x ∷ xs) [] same h = absurd (omega arith)
  all_equal_pointwise (x ∷ xs) (y ∷ ys) same h =
      rw (h zero x y refl refl) (all_equal_pointwise xs ys (omega arith) (λ k. h (suc k)))

  -- The value for a place, where adding the values to the selected elements gives the target's.
  pub value_at-all_equal :
      {W : Type 0} (combine : A.Element → W → A.Element) (base target : List A.Element)
      (is : List ℕ) (ws : List W) (k : ℕ) {b t : A.Element} {w : W}
      → All (λ i. i < length base) is
      → length base ≡ length target
      → all_equal A (zip_with combine (index_select A base is) ws) (index_select A target is) ≡ true
      → get_elem? base k ≡ some b
      → get_elem? target k ≡ some t
      → value_at is ws k ≡ some w
      → A.equal (combine b w) t ≡ true
  unfolding all_equal zip_with index_select value_at
  value_at-all_equal combine base target [] ws k inside same eq hb ht hw = cc
  value_at-all_equal combine base target (i ∷ is) [] k inside same eq hb ht hw = cc
  value_at-all_equal combine base target (i ∷ is) (w' ∷ ws) k {b} {t} {w} (lt, inside) same eq hb ht
        hw =
      let (b', atb) = get_elem?_inside base i lt in
      let (t', att) = get_elem?_inside target i (omega arith) in
      let both : A.equal (combine b' w') t'
            && all_equal A (zip_with combine (index_select A base is) ws) (index_select A target is)
          ≡ true =
        rw (index_select-inside base i is atb, index_select-inside target i is att) at eq in
      let here_equal : A.equal (combine b' w') t' ≡ true = (both_true _ _ both).0 in
      elim (Bool-cases (i == k)) [
        | inl here ↦
            let same_place : i ≡ k = ==→eq i k here in
            let same_value : some w' ≡ some w = rw here at hw in cc
        | inr other ↦
            value_at-all_equal combine base target is ws k inside same (both_true _ _ both).1 hb ht
              (rw other at hw)
      ]
