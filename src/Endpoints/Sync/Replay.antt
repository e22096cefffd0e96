-- ===== src/Endpoints/Sync/Replay.antt =====
-- `_delta_replay_plan`: the plan is the chain of all versions from 1 to the active one.
use aurora_rl.Base.{
  ℕ, suc, ◌≡◌, refl, sym, ap, subst, ◌∙◌, inl, inr, true, false, Option, none, some, List, [], ◌∷◌,
  Bool-cases, Result, ok, err, on_ok, ok-injective, arith,
}
use aurora_rl.Base.Int.{ℤ, pos, negsuc}
use aurora_rl.Base.Names.{Name}
use aurora_rl.Base.Dict.{values}
use aurora_rl.Endpoints.Types.{Texts, PoolError, DeltaReplayEntry}
use aurora_rl.Endpoints.Pool.{Pool}
use aurora_rl.Endpoints.Plan.{
  at_most, is_number, sort_entries, plan_from, place_entry, reached, plan_to, plan_for,
  delta_replay_plan,
}
use aurora_rl.Endpoints.Sync.Agree.{SameVersion, number}

-- The entries have the numbers from i to below e, and none is above the active version.
abbrev pub Numbered : Texts → ℤ → ℕ → List DeltaReplayEntry → ℕ → Type 0
Numbered t active i [] e = i ≡ e
Numbered t active i (entry ∷ plan) e =
    (t.parse_int entry.version ≡ some (pos i))
    × (at_most (pos i) active ≡ true)
    × Numbered t active (suc i) plan e

is_number-eq : (i : ℕ) (v : ℤ) → is_number i v ≡ true → v ≡ pos i
unfolding is_number
is_number-eq i (pos m) h = ap pos (ground (arith))
is_number-eq i (negsuc m) h = cc

abbrev IfOk : Texts → ℤ → ℕ → Result PoolError (List DeltaReplayEntry × ℕ) → Type 0
IfOk t active i (ok (plan, e)) = Numbered t active i plan e
IfOk t active i (err f) = Unit {0}

module _ (t : Texts) where
  place_entry-Numbered :
      (active : ℤ) (i : ℕ) (entry : DeltaReplayEntry) (version : Option ℤ)
      (skipped placed : Result PoolError (List DeltaReplayEntry × ℕ))
      → t.parse_int entry.version ≡ version
      → IfOk t active i skipped
      → IfOk t active (suc i) placed
      → IfOk t active i (place_entry t active i entry version skipped placed)
  unfolding place_entry
  place_entry-Numbered active i entry none skipped placed at s p = tt
  place_entry-Numbered active i entry (some version) skipped (err f) at s p =
      elim (Bool-cases (at_most version active)) [
        | inr above ↦ rw above s
        | inl below ↦ elim (Bool-cases (is_number i version)) [
          | inr other ↦ rw (below, other) tt
          | inl same ↦ rw (below, same) tt
        ]
      ]
  place_entry-Numbered active i entry (some version) skipped (ok (plan, e)) at s p =
      elim (Bool-cases (at_most version active)) [
        | inr above ↦ rw above s
        | inl below ↦ elim (Bool-cases (is_number i version)) [
          | inr other ↦ rw (below, other) tt
          | inl same ↦
              let number = is_number-eq i version same in
              rw (below, same) (at ∙ ap some number, rw number at below, p)
        ]
      ]

  plan_from-Numbered :
      (active : ℤ) (i : ℕ) (entries : List DeltaReplayEntry)
      → IfOk t active i (plan_from t active i entries)
  unfolding plan_from
  plan_from-Numbered active i [] = refl
  plan_from-Numbered active i (entry ∷ rest) =
      place_entry-Numbered active i entry (t.parse_int entry.version) _ _ refl
        (plan_from-Numbered active i rest) (plan_from-Numbered active (suc i) rest)

  -- What an endpoint serves after it has replayed a plan.
  abbrev pub last_version : Option Name → List DeltaReplayEntry → Option Name
  last_version v [] = v
  last_version v (entry ∷ plan) = last_version (some entry.version) plan

  -- The last step: no number above j is planned, and j itself is reached.
  last_reached :
      (active : ℤ) (j : ℕ)
      → at_most (pos j) active ≡ true
      → at_most (pos (suc j)) active ≡ false
      → pos j ≡ active
  unfolding at_most
  last_reached (pos a) j h above = ap pos (ground arith)
  last_reached (negsuc a) j h above = cc

  last_version-number :
      (active : ℤ) (j : ℕ) (plan : List DeltaReplayEntry) (e : ℕ) (before : Option Name)
      → number t before ≡ some (pos j)
      → at_most (pos j) active ≡ true
      → at_most (pos e) active ≡ false
      → Numbered t active (suc j) plan e
      → number t (last_version before plan) ≡ some active
  unfolding number
  last_version-number active j [] e before r h above n =
      r
      ∙ ap some
          (last_reached active j h (subst (λ x. at_most (pos x) active ≡ false) (sym n) above))
  last_version-number active j (entry ∷ plan) e before r h above (at, below, rest) =
      last_version-number active (suc j) plan e (some entry.version) at below above rest

  reached-ok :
      (active : ℤ) (found : List DeltaReplayEntry × ℕ) (plan : List DeltaReplayEntry)
      → reached t active found ≡ ok plan
      → (found.0 ≡ plan) × (at_most (pos found.1) active ≡ false)
  unfolding reached
  reached-ok active (made, e) plan h = elim (Bool-cases (at_most (pos e) active)) [
    | inl short ↦ absurd (let x = rw short at h in cc)
    | inr long ↦ (ok-injective (rw long at h), long)
  ]

  -- A plan that was made holds all versions from 1 to the active one.
  pub plan_to-Numbered :
      (version : Name) (active : ℤ) (entries plan : List DeltaReplayEntry)
      → plan_to t version (some active) entries ≡ ok plan
      → (e : ℕ) × Numbered t active 1 plan e × (at_most (pos e) active ≡ false)
  unfolding plan_to
  plan_to-Numbered version active entries plan h =
      on_ok (plan_from t active 1 (sort_entries t entries)) (reached t active) h λ found made rest.
        let (same, long) = reached-ok active found plan rest in
        let numbered : IfOk t active 1 (ok found) =
          subst (IfOk t active 1) made (plan_from-Numbered active 1 (sort_entries t entries)) in
        (found.1, subst (λ x. Numbered t active 1 x found.1) same numbered, long)

  Numbered-reaches :
      (version : Name) (active : ℤ) (plan : List DeltaReplayEntry) (e : ℕ)
      → t.parse_int version ≡ some active
      → Numbered t active 1 plan e
      → at_most (pos e) active ≡ false
      → SameVersion t (last_version none plan) (some version)
  unfolding number
  Numbered-reaches version active [] e at n above =
      inr (inr (refl, active, at, subst (λ x. at_most (pos x) active ≡ false) (sym n) above))
  Numbered-reaches version active (entry ∷ plan) e at (first, below, rest) above = inr (
      inl (
        active,
        last_version-number active 1 plan e (some entry.version) first below above rest,
        at,
      ))

  -- So it leads from the base model to the active version.
  pub plan_to-reaches :
      (version : Name) (entries plan : List DeltaReplayEntry)
      → plan_to t version (t.parse_int version) entries ≡ ok plan
      → SameVersion t (last_version none plan) (some version)
  unfolding plan_to
  plan_to-reaches version entries plan = by_number (t.parse_int version) refl
    where
      by_number :
          (found : Option ℤ)
          → t.parse_int version ≡ found
          → plan_to t version found entries ≡ ok plan
          → SameVersion t (last_version none plan) (some version)
      by_number none at h = absurd (let e = h in cc)
      by_number (some active) at h =
          let (e, numbered, long) = plan_to-Numbered version active entries plan h in
          Numbered-reaches version active plan e at numbered long

  pub delta_replay_plan-reaches :
      (p : Pool) (plan : List DeltaReplayEntry)
      → delta_replay_plan t p ≡ ok plan
      → SameVersion t (last_version none plan) p.active_version
  unfolding delta_replay_plan plan_for
  delta_replay_plan-reaches p plan h = by_active p.active_version h
    where
      by_active :
          (active : Option Name)
          → plan_for t active (values p.delta_replay_entries) ≡ ok plan
          → SameVersion t (last_version none plan) active
      by_active none h = inl (sym (ap (last_version none) (ok-injective h)))
      by_active (some version) h = (plan_to-reaches version (values p.delta_replay_entries) plan h)
