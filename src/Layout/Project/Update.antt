-- ===== src/Layout/Project/Update.antt =====
-- Projecting an update and applying it to the shard, against applying it to the whole tensor.
use aurora_rl.Base.{
  ℕ, zero, suc, ◌+◌, ◌*◌, ◌<◌, ◌≤◌, ◌≡◌, ◌≢◌, refl, sym, ◌∙◌, ap, ap₂, Bool, true, false, none,
  List, [], ◌∷◌, map, length, get_or, get_elem?, take, drop, All, ok, arith, Bool-cases, inl, inr,
  eq→==, ne→==,
}
use aurora_rl.Base.Int.{ℤ, pos, negsuc}
use aurora_rl.Sparse.{IncreasesFrom, gather, scatter, value_at}
use aurora_rl.Sparse.Lookup.{scatter-gather, updated}
use aurora_rl.Layout.Project.{
  prod, select, fits_shard, natural, in_shard, local_index, project_dimension,
}
use aurora_rl.Layout.Project.Address.{local_index-lt, local_index_bound}
use aurora_rl.Layout.Project.Shard.{
  Projection, axis_value, project-Projection, prod-split, others_agree-prod,
}
use native.Mathlib.Decide.{dec_lt, ℕ_discrete}
use native.Mathlib.Numerals.{add-one}

select-nil : {W : Type 0} (mask : List Bool) → select {A = W} mask [] ≡ []
unfolding select
select-nil [] = refl
select-nil (true ∷ mask) = refl
select-nil (false ∷ mask) = refl

value_at-nil : {W : Type 0} (indices : List ℕ) (k : ℕ) → value_at {W = W} indices [] k ≡ none
unfolding value_at
value_at-nil [] k = refl
value_at-nil (i ∷ is) k = refl

module _ (f : ℕ → Bool) (g : ℕ → ℕ)
    (mono : (x y : ℕ) → x < y → f x ≡ true → f y ≡ true → g x < g y) where
  select-Increases :
      (xs : List ℕ) (bound bound' : ℕ)
      → IncreasesFrom bound xs
      → ((x : ℕ) → bound ≤ x → f x ≡ true → bound' ≤ g x)
      → IncreasesFrom bound' (map g (select (map f xs) xs))
  unfolding select
  select-Increases [] bound bound' h lower = tt
  select-Increases (x ∷ xs) bound bound' (le, h) lower = elim (Bool-cases (f x)) [
    | inl mine ↦ rw mine (
      lower x le mine,
      select-Increases xs (suc x) (suc (g x)) h (λ y above his. mono x y above mine his),
    )
    | inr other ↦
        rw other (select-Increases xs (suc x) bound' h (λ y above his. lower y (omega arith) his))
  ]

  moved-ne : (x k : ℕ) → x ≢ k → f x ≡ true → f k ≡ true → g x ≢ g k
  moved-ne x k other hx hk = elim (dec_lt x k) [
    | yes lt ↦ λ e. absurd (omega (arith, mono x k lt hx hk))
    | no not_lt ↦ λ e. absurd (omega (arith, other, mono k x (omega (arith, other)) hk hx))
  ]

  -- In the shard, the projected update has for the moved place the value that the update has.
  value_at-select :
      {W : Type 0} (xs : List ℕ) (ws : List W) (k : ℕ)
      → f k ≡ true
      → value_at (map g (select (map f xs) xs)) (select (map f xs) ws) (g k) ≡ value_at xs ws k
  unfolding value_at select
  value_at-select [] ws k hk = refl
  value_at-select (x ∷ xs) [] k hk =
      rw (select-nil (map f (x ∷ xs)))
        (value_at-nil (map g (select (map f (x ∷ xs)) (x ∷ xs))) (g k))
  value_at-select (x ∷ xs) (w ∷ ws) k hk = elim (Bool-cases (f x)) [
    | inl mine ↦ rw mine (elim (ℕ_discrete x k) [
      | yes same ↦ rw (eq→== x k same, eq→== (g x) (g k) (ap g same))
      | no other ↦
          rw (ne→== x k other, ne→== (g x) (g k) (moved-ne x k other mine hk))
            (value_at-select xs ws k hk)
    ])
    | inr not_mine ↦ rw (not_mine, ne→== x k (λ e. cc)) (value_at-select xs ws k hk)
  ]

module _ (f : ℕ → Bool) (g : ℕ → ℕ) where
  select-All_moved :
      (P : ℕ → Type 0) (xs : List ℕ) (bound : ℕ)
      → All (λ x. x < bound) xs
      → ((x : ℕ) → x < bound → f x ≡ true → P (g x))
      → All P (map g (select (map f xs) xs))
  unfolding select
  select-All_moved P [] bound h keeps = tt
  select-All_moved P (x ∷ xs) bound (lt, h) keeps = elim (Bool-cases (f x)) [
    | inl mine ↦ rw mine (keeps x lt mine, select-All_moved P xs bound h keeps)
    | inr other ↦ rw other (select-All_moved P xs bound h keeps)
  ]

fits-le :
    (start size : ℤ) (extent : ℕ)
    → fits_shard start size extent ≡ true
    → natural start + natural size ≤ extent
unfolding fits_shard
fits-le (pos start) (pos size) extent h = ground arith
fits-le (pos start) (negsuc size) extent h = cc
fits-le (negsuc start) (pos size) extent h = cc
fits-le (negsuc start) (negsuc size) extent h = cc

factors_pos : (outer extent inner x : ℕ) → x < outer * (extent * inner) → (0 < inner) × (0 < extent)
factors_pos outer zero inner x h = absurd (grind arith)
factors_pos outer (suc extent) zero x h = absurd (grind arith)
factors_pos outer (suc extent) (suc inner) x h = omega arith

module _ {ss ts indices : List ℕ} {d : ℕ} {start size tstart : ℤ} {locals : List ℕ}
    {mask : List Bool} (p : Projection ss ts indices d start size tstart locals mask) where
  abbrev inner : ℕ
  inner = prod (drop (d + 1) ss)

  abbrev extent : ℕ
  extent = get_or ss d 0

  abbrev target_extent : ℕ
  target_extent = get_or ts d 0

  abbrev outer : ℕ
  outer = prod (take d ss)

  -- Whether an index of the whole tensor lies in the shard, and its index there.
  abbrev pub owned : ℕ → Bool
  owned = in_shard inner extent target_extent (natural start) (natural size) (natural tstart)

  abbrev pub moved : ℕ → ℕ
  moved = local_index inner extent target_extent (natural start) (natural size) (natural tstart)

  source_prod : prod ss ≡ outer * (extent * inner)
  source_prod = rw add-one (prod-split d ss p.d_lt)

  target_prod : prod ts ≡ outer * (target_extent * inner)
  target_prod =
      let (o, i) = others_agree-prod d 0 d ss ts (omega arith) p.same_rank p.others in
      rw (add-one, o, i) (prod-split d ts (omega (arith, p.d_lt, p.same_rank)))

  source_room : natural start + natural size ≤ extent
  source_room = fits-le start size extent p.source_fits

  target_room : natural tstart + natural size ≤ target_extent
  target_room = fits-le tstart size target_extent p.target_fits

  moved_mono :
      (z : ℕ)
      → z < prod ss
      → (x y : ℕ) → x < y
      → owned x ≡ true
      → owned y ≡ true
      → moved x < moved y
  moved_mono z lt x y le hx hy =
      let (inner_pos, extent_pos) = factors_pos outer extent inner z (rw source_prod at lt) in
      local_index-lt inner extent inner_pos extent_pos target_extent (natural start) (natural size)
        (natural tstart) source_room target_room x y le hx hy

  pub extent_pos : 0 < prod ss → 0 < extent
  extent_pos lt = (factors_pos outer extent inner 0 (rw source_prod at lt)).1

  moved-lt : (x : ℕ) → x < prod ss → owned x ≡ true → moved x < prod ts
  moved-lt x lt hx =
      let (inner_pos, extent_pos) = factors_pos outer extent inner x (rw source_prod at lt) in
      rw target_prod (
        local_index_bound inner extent inner_pos extent_pos target_extent (natural start)
          (natural size) (natural tstart) source_room target_room outer x (rw source_prod at lt) hx)

  locals-Increases :
      IncreasesFrom 0 indices → All (λ x. x < prod ss) indices → IncreasesFrom 0 locals
  locals-Increases h inside = rw (p.locals_eq, p.mask_eq) (by_cases indices h inside)
    where
      by_cases :
          (xs : List ℕ)
          → IncreasesFrom 0 xs
          → All (λ x. x < prod ss) xs
          → IncreasesFrom 0 (map moved (select (map owned xs) xs))
      by_cases [] h inside = unfold select in tt
      by_cases (x ∷ xs) h (lt, inside) =
          select-Increases owned moved (moved_mono x lt) (x ∷ xs) 0 0 h (λ y above his. omega arith)

  locals-All : All (λ x. x < prod ss) indices → All (λ x. x < prod ts) locals
  locals-All inside =
      rw (p.locals_eq, p.mask_eq)
        (select-All_moved owned moved (λ x. x < prod ts) indices (prod ss) inside moved-lt)

  value_at-locals :
      {W : Type 0} (values : List W) (x : ℕ)
      → x < prod ss
      → owned x ≡ true
      → value_at locals (select mask values) (moved x) ≡ value_at indices values x
  value_at-locals values x lt hx =
      rw (p.locals_eq, p.mask_eq)
        (value_at-select owned moved (moved_mono x lt) indices values x hx)

module _ (indices ss ts : List ℕ) (dimension start size tstart : ℤ) {locals : List ℕ}
    {mask : List Bool}
    (done : project_dimension indices ss ts dimension start size tstart ≡ ok (locals, mask)) where
  abbrev pub projection :
      Projection ss ts indices (axis_value (length ss) dimension) start size tstart locals mask
  projection = project-Projection indices ss ts dimension start size tstart done

  module _ (increasing : IncreasesFrom 0 indices) (inside : All (λ x. x < prod ss) indices) where
    -- Strictly increasing indices within the source shape are projected to strictly increasing
    -- indices within the target shape.
    pub project-IncreasesFrom : IncreasesFrom 0 locals × All (λ x. x < prod ts) locals
    project-IncreasesFrom =
        (locals-Increases projection increasing inside, locals-All projection inside)

    -- Strictly increasing indices within the source shape: if the local tensor holds the whole
    -- tensor's elements of the shard at their moved indices, then it does so after both updates,
    -- whatever adding a value to an element means.
    pub project-scatter :
        {V W : Type 0} (combine : V → W → V) (values : List W) (whole shard : List V)
        → length whole ≡ prod ss
        → length shard ≡ prod ts
        → ((x : ℕ)
            → x < prod ss
            → owned projection x ≡ true
            → get_elem? shard (moved projection x) ≡ get_elem? whole x)
        → (x : ℕ) → x < prod ss
        → owned projection x ≡ true
        → get_elem?
            (scatter (gather combine shard locals (select mask values)) shard)
            (moved projection x)
          ≡ get_elem? (scatter (gather combine whole indices values) whole) x
    project-scatter combine values whole shard size_whole size_shard same x lt hx =
        scatter-gather combine shard locals (select mask values)
          (locals-Increases projection increasing inside)
          (rw size_shard (locals-All projection inside)) (moved projection x)
        ∙ ap₂ (updated combine) (same x lt hx) (value_at-locals projection values x lt hx)
        ∙ sym (scatter-gather combine whole indices values increasing (rw size_whole inside) x)
