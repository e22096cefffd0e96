-- ===== src/Sparse/Lookup.antt =====
-- What the update leaves at each place.
use aurora_rl.Base.{
  ℕ, zero, suc, ◌<◌, ◌≤◌, ◌≡◌, ◌≢◌, refl, ◌∙◌, ap, Option, none, some, List, [], ◌∷◌, length,
  length-set, get_elem?, set, ◌==◌, eq→==, ne→==, if◌then◌else◌, All, arith,
}
use aurora_rl.Sparse.{IncreasesFrom, gather, scatter, value_at}
use native.Mathlib.Decide.{ℕ_discrete}

get_elem?-set_self :
    {V : Type 0} (flat : List V) (i : ℕ) (v : V)
    → i < length flat
    → get_elem? (set flat i v) i ≡ some v
get_elem?-set_self [] i v h = absurd (omega arith)
get_elem?-set_self (x ∷ flat) zero v h = refl
get_elem?-set_self (x ∷ flat) (suc i) v h = get_elem?-set_self flat i v (omega arith)

get_elem?-set_other :
    {V : Type 0} (flat : List V) (i k : ℕ) (v : V)
    → i ≢ k
    → get_elem? (set flat i v) k ≡ get_elem? flat k
get_elem?-set_other [] i k v h = refl
get_elem?-set_other (x ∷ flat) zero zero v h = absurd (h refl)
get_elem?-set_other (x ∷ flat) zero (suc k) v h = refl
get_elem?-set_other (x ∷ flat) (suc i) zero v h = refl
get_elem?-set_other (x ∷ flat) (suc i) (suc k) v h =
    get_elem?-set_other flat i k v (λ e. h (ap suc e))

pub get_elem?_inside :
    {V : Type 0} (flat : List V) (i : ℕ) → i < length flat → (v : V) × (get_elem? flat i ≡ some v)
get_elem?_inside [] i h = absurd (omega arith)
get_elem?_inside (x ∷ flat) zero h = (x, refl)
get_elem?_inside (x ∷ flat) (suc i) h = get_elem?_inside flat i (omega arith)

-- Below the first index the update has no value.
value_at_below :
    {W : Type 0} (indices : List ℕ) (values : List W) (bound k : ℕ)
    → IncreasesFrom bound indices
    → k < bound
    → value_at indices values k ≡ none
unfolding value_at
value_at_below [] values bound k h lt = refl
value_at_below (i ∷ is) [] bound k h lt = refl
value_at_below (i ∷ is) (w ∷ ws) bound k (le, h) lt =
    rw (ne→== i k (λ e. omega arith)) (value_at_below is ws (suc i) k h (omega arith))

module _ {V W : Type 0} (combine : V → W → V) where
  -- An element is combined with its value, and one without a value stays.
  abbrev pub updated : Option V → Option W → Option V
  updated old none = old
  updated none (some w) = none
  updated (some v) (some w) = some (combine v w)

  -- `now` is the tensor on the way: at the places still to come it holds the old elements.
  scatter-gather_at :
      (flat : List V) (indices : List ℕ) (values : List W) (bound : ℕ) (now : List V)
      → IncreasesFrom bound indices
      → All (λ i. i < length flat) indices
      → length now ≡ length flat
      → ((j : ℕ) → bound ≤ j → get_elem? now j ≡ get_elem? flat j)
      → (k : ℕ)
      → get_elem? (scatter (gather combine flat indices values) now) k
        ≡ updated (get_elem? now k) (value_at indices values k)
  unfolding gather scatter value_at
  scatter-gather_at flat [] values bound now h inside same later k = refl
  scatter-gather_at flat (i ∷ is) [] bound now h inside same later k = refl
  scatter-gather_at flat (i ∷ is) (w ∷ ws) bound now (le, h) (lt, inside) same later k =
      let (v, at) = get_elem?_inside flat i lt in
      let next : List V = set now i (combine v w) in
      let now_at : get_elem? now i ≡ some v = later i le ∙ at in
      let rest =
        scatter-gather_at flat is ws (suc i) next h inside (length-set now i (combine v w) ∙ same)
          (λ j above.
            get_elem?-set_other now i j (combine v w) (λ e. omega arith) ∙ later j (omega arith))
          k in
      rw (at, gather) (rest ∙ here v at now_at (ℕ_discrete i k))
    where
      here :
          (v : V)
          → get_elem? flat i ≡ some v
          → get_elem? now i ≡ some v
          → Dec (i ≡ k)
          → updated (get_elem? (set now i (combine v w)) k) (value_at is ws k)
            ≡ updated (get_elem? now k) (if i == k then some w else value_at is ws k)
      here v at now_at (yes e) = rw (
        ← e,
        eq→== i i refl,
        get_elem?-set_self now i (combine v w) (omega arith),
        value_at_below is ws (suc i) i h (omega arith),
        now_at,
      )
      here v at now_at (no other) =
          rw (ne→== i k other, get_elem?-set_other now i k (combine v w) other)

  -- After the update an element whose index has a value is combined with it; the others stay.
  pub scatter-gather :
      (flat : List V) (indices : List ℕ) (values : List W)
      → IncreasesFrom 0 indices
      → All (λ i. i < length flat) indices
      → (k : ℕ)
      → get_elem? (scatter (gather combine flat indices values) flat) k
        ≡ updated (get_elem? flat k) (value_at indices values k)
  scatter-gather flat indices values h inside =
      scatter-gather_at flat indices values 0 flat h inside refl (λ j above. refl)
