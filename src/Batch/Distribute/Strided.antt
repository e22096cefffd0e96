-- ===== src/Batch/Distribute/Strided.antt =====
-- Where each batch goes.
use aurora_rl.Base.{
  ℕ, zero, suc, ◌+◌, ◌*◌, ◌/◌, ◌%◌, ◌<◌, ◌≡◌, refl, sym, ◌∙◌, ap, false, List, [], ◌∷◌, ◌++◌,
  append_assoc, append-nil, subst, length, get_elem?, get_elem?-inside, get_elem?-behind,
  get_elem?-some→lt, get_elem?-none→le, replicate, Option, none, some, ◌≢◌, arith, length-append,
  length-replicate, ◌==◌, if◌then◌else◌, Bool-cases, inl, inr,
}
use aurora_rl.Base.Blocks.{place_unique, rows-le}
use aurora_rl.Batch.Distribute.{append_to, distribute}
use native.Mathlib.Decide.{dec_lt}
use native.Mathlib.Nat.{div-add-mod'}

-- The element at a column of a row.
abbrev column {ℓ} : {A : Type ℓ} → Option (List A) → ℕ → Option A
column none k = none
column (some row) k = get_elem? row k

abbrev pub cell {ℓ} : {A : Type ℓ} → List (List A) → ℕ → ℕ → Option A
cell grid r k = column (get_elem? grid r) k

module _ {ℓ} {A : Type ℓ} where
  get_elem?-last :
      (xs : List A) (a : A) (k : ℕ)
      → get_elem? (xs ++ a ∷ []) k ≡ (if k == length xs then some a else get_elem? xs k)
  get_elem?-last [] a zero = refl
  get_elem?-last [] a (suc k) = ground arith
  get_elem?-last (x ∷ xs) a zero = ground arith
  get_elem?-last (x ∷ xs) a (suc k) = get_elem?-last xs a k ∙ ground arith

  length-append_to :
      (r : ℕ) (a : A) (grid : List (List A)) → length (append_to r a grid) ≡ length grid
  unfolding append_to
  length-append_to r a [] = refl
  length-append_to zero a (row ∷ grid) = refl
  length-append_to (suc r) a (row ∷ grid) = ap suc (length-append_to r a grid)

  get_elem?-append_to_self :
      (r : ℕ) (a : A) (grid : List (List A)) (row : List A)
      → get_elem? grid r ≡ some row
      → get_elem? (append_to r a grid) r ≡ some (row ++ a ∷ [])
  unfolding append_to
  get_elem?-append_to_self r a [] row h = cc
  get_elem?-append_to_self zero a (row' ∷ grid) row h = let same : row' ≡ row = cc in rw same refl
  get_elem?-append_to_self (suc r) a (row' ∷ grid) row h = get_elem?-append_to_self r a grid row h

  get_elem?-append_to_other :
      (r r' : ℕ) (a : A) (grid : List (List A))
      → (r == r') ≡ false
      → get_elem? (append_to r a grid) r' ≡ get_elem? grid r'
  unfolding append_to
  get_elem?-append_to_other r r' a [] h = refl
  get_elem?-append_to_other zero zero a (row ∷ grid) h = absurd (ground arith)
  get_elem?-append_to_other zero (suc r') a (row ∷ grid) h = refl
  get_elem?-append_to_other (suc r) zero a (row ∷ grid) h = refl
  get_elem?-append_to_other (suc r) (suc r') a (row ∷ grid) h =
      get_elem?-append_to_other r r' a grid (ground arith)

module _ {ℓ} {A : Type ℓ} where
  -- The batches that have been dealt out stand in the grid in strides of its rows.
  record Dealt (n : ℕ) (done : List A) (grid : List (List A)) : Type ℓ where
    rows : length grid ≡ n
    cells : (r k : ℕ) → r < n → cell grid r k ≡ get_elem? done (k * n + r)

  module _ (n : ℕ) (pos : 0 < n) (done : List A) where
    row-length :
        (r : ℕ) (row : List A)
        → length done % n ≡ r
        → ((k : ℕ) → get_elem? row k ≡ get_elem? done (k * n + r))
        → length row ≡ length done / n
    row-length r row own cells = short (length done / n) (div-add-mod' (length done) n)
      where
        short : (q : ℕ) → q * n + length done % n ≡ length done → length row ≡ q
        short zero e = omega (
          arith,
          get_elem?-none→le row 0 (cells 0 ∙ get_elem?-behind done (0 * n + r) (omega arith)),
        )
        short (suc q) e =
            let (x, at) = get_elem?-inside done (q * n + r) (omega arith) in
            omega (
              arith,
              get_elem?-none→le row (suc q)
                  (cells (suc q) ∙ get_elem?-behind done (suc q * n + r) (omega arith)),
              get_elem?-some→lt row q (cells q ∙ at),
            )

    same_place :
        (k r : ℕ) → length done % n ≡ r → (k * n + r == length done) ≡ (k == length done / n)
    same_place k r own = elim (Bool-cases (k == length done / n)) [
      | inl same ↦ rw same (
          let e : k ≡ length done / n = ground arith in
          let at : k * n + r ≡ length done =
            omega (arith, div-add-mod' (length done) n, ap (λ (t : ℕ). t * n) e) in
          ground arith)
      | inr differs ↦ rw differs (elim (Bool-cases (k * n + r == length done)) [
        | inl at ↦ absurd (apart (ground arith) (ground arith))
        | inr apart ↦ apart
      ])
    ]
      where
        apart : k * n + r ≡ length done → k ≢ length done / n → ⊥
        apart at differs = elim (dec_lt k (length done / n)) [
          | yes lt ↦ omega (
            arith,
            div-add-mod' (length done) n,
            rows-le (suc k) (length done / n) n (omega arith),
          )
          | no not_lt ↦ omega (
            arith,
            differs,
            not_lt,
            div-add-mod' (length done) n,
            rows-le (suc (length done / n)) k n (omega (arith, differs, not_lt)),
          )
        ]

    own_row :
        (a : A) (grid : List (List A)) (h : Dealt n done grid) (r k : ℕ) (row : List A)
        → r < n
        → length done % n ≡ r
        → get_elem? grid r ≡ some row
        → cell (append_to r a grid) r k ≡ get_elem? (done ++ a ∷ []) (k * n + r)
    own_row a grid h r k row lt own found =
        let cells : (j : ℕ) → get_elem? row j ≡ get_elem? done (j * n + r) =
          λ j. ap (λ t. column t j) (sym found) ∙ h.cells r j lt in
        rw
          (
            get_elem?-append_to_self r a grid row found,
            get_elem?-last row a k,
            row-length r row own cells,
          )
          (rw (cells k, ← same_place k r own) (sym (get_elem?-last done a (k * n + r))))

    other_place :
        (r k : ℕ) → r < n → (length done % n == r) ≡ false → (k * n + r == length done) ≡ false
    other_place r k lt other = elim (Bool-cases (k * n + r == length done)) [
      | inl at ↦
          let e : k * n + r ≡ length done = ground arith in
          let own : length done % n ≡ r = ap (λ (t : ℕ). t % n) (sym e) ∙ place_unique k n r lt in
          absurd (ground arith)
      | inr apart ↦ apart
    ]

    Dealt-step :
        (a : A) (grid : List (List A))
        → Dealt n done grid
        → Dealt n (done ++ a ∷ []) (append_to (length done % n) a grid)
    Dealt-step a grid h = record {
      rows = length-append_to (length done % n) a grid ∙ h.rows;
      cells = λ r k lt. elim (Bool-cases (length done % n == r)) [
        | inl own ↦
            let at : length done % n ≡ r = ground arith in
            let (row, found) = get_elem?-inside grid r (omega (arith, h.rows)) in
            subst (λ t. cell (append_to t a grid) r k ≡ get_elem? (done ++ a ∷ []) (k * n + r))
              (sym at) (own_row a grid h r k row lt at found)
        | inr other ↦
            ap (λ found. column found k)
              (get_elem?-append_to_other (length done % n) r a grid other)
            ∙ h.cells r k lt
            ∙ sym (get_elem?-last done a (k * n + r) ∙ rw (other_place r k lt other) refl)
      ];
    }

  distribute-Dealt :
      (n : ℕ) (done ordered : List A) (grid : List (List A))
      → 0 < n
      → Dealt n done grid
      → Dealt n (done ++ ordered) (distribute n (length done) ordered grid)
  unfolding distribute
  distribute-Dealt n done [] grid pos h = rw append-nil h
  distribute-Dealt n done (a ∷ ordered) grid pos h =
      let step =
        distribute-Dealt n (done ++ a ∷ []) ordered (append_to (length done % n) a grid) pos
          (Dealt-step n pos done a grid h) in
      let at : length (done ++ a ∷ []) ≡ length done + 1 = length-append done (a ∷ []) in
      rw (at, append_assoc) at step

  no_cells : (n r k : ℕ) → cell (replicate n (let row : List A = [] in row)) r k ≡ none
  no_cells zero r k = refl
  no_cells (suc n) zero k = refl
  no_cells (suc n) (suc r) k = no_cells n r k

  -- The r-th rank gets, as its k-th batch, the one at place k * n + r, for a positive number n of ranks; there is none
  -- where the batches end before.
  pub distribute-strided :
      (n : ℕ) (ordered : List A)
      → 0 < n
      → (length (distribute n 0 ordered (replicate n [])) ≡ n)
        × ((r k : ℕ)
            → r < n
            → cell (distribute n 0 ordered (replicate n [])) r k ≡ get_elem? ordered (k * n + r))
  distribute-strided n ordered pos =
      let dealt =
        distribute-Dealt n [] ordered (replicate n []) pos
          (record { rows = length-replicate n []; cells = λ r k lt. no_cells n r k }) in
      (dealt.rows, dealt.cells)
