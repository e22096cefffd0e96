-- ===== src/Sparse.antt =====
-- Flat tensors as lists, and the additive update of some of their elements that the trainer's
-- verification (utils/delta.py) and the inference workers (worker/weight_transfer.py) share:
-- `flat.index_select(0, indices) + values`, then `flat.index_copy_(0, indices, updated)`.
pub mod Lookup
use aurora_rl.Base.{
  ℕ, suc, ◌≤◌, ◌≡◌, refl, Option, none, some, List, [], ◌∷◌, get_elem?, set, ◌==◌, if◌then◌else◌,
}

-- Strictly increasing from a bound on.
abbrev pub IncreasesFrom : ℕ → List ℕ → Type 0
IncreasesFrom bound [] = Unit
IncreasesFrom bound (i ∷ is) = (bound ≤ i) × IncreasesFrom (suc i) is

module _ {V W : Type 0} (combine : V → W → V) where
  -- The old elements at the indices, each with its value added. Every index is in range there.
  unfoldable pub gather : List V → List ℕ → List W → List (ℕ × V)
  gather flat (i ∷ is) (w ∷ ws) = elim (get_elem? flat i) [
    | none ↦ gather flat is ws
    | some v ↦ (i, combine v w) ∷ gather flat is ws
  ]
  gather flat _ _ = []

-- `index_copy_`
unfoldable pub scatter : {V : Type 0} → List (ℕ × V) → List V → List V
scatter [] flat = flat
scatter ((i, v) ∷ updates) flat = scatter updates (set flat i v)

-- The value that an update has for a place.
unfoldable pub value_at : {W : Type 0} → List ℕ → List W → ℕ → Option W
value_at (i ∷ is) (w ∷ ws) k = if i == k then some w else value_at is ws k
value_at _ _ k = none
