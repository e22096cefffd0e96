-- ===== src/Endpoints/Chain.antt =====
-- utils/client.py, `_delta_replay_plan`: when there is a plan, and what it is.
use aurora_rl.Base.{
  ℕ, zero, suc, ◌+◌, ◌≤◌, ◌<◌, ◌≡◌, refl, sym, ap, ◌∙◌, false, some, List, [], ◌∷◌, length, take,
  leb-false, le→leb, eq→==, ◌==◌, ok, arith,
}
use aurora_rl.Base.Int.{ℤ, pos}
use aurora_rl.Base.Names.{Name}
use aurora_rl.Base.Dict.{values}
use aurora_rl.Endpoints.Types.{Texts, DeltaReplayEntry}
use aurora_rl.Endpoints.Pool.{Pool}
use aurora_rl.Endpoints.Plan.{
  at_most, is_number, sort_key, insert_entry, sort_entries, place_entry, plan_from, reached,
  plan_to, plan_for, delta_replay_plan,
}
use aurora_rl.Endpoints.Sync.Replay.{Numbered, plan_to-Numbered}

-- Entries with the numbers from i on, one after the other.
abbrev pub Chain : Texts → ℕ → List DeltaReplayEntry → Type 0
Chain t i [] = Unit {0}
Chain t i (entry ∷ entries) = (t.parse_int entry.version ≡ some (pos i)) × Chain t (suc i) entries

module _ (t : Texts) where
  key_of :
      (i : ℕ) (entry : DeltaReplayEntry)
      → t.parse_int entry.version ≡ some (pos (suc i))
      → sort_key t entry ≡ pos (suc i)
  unfolding sort_key is_number
  key_of i entry h =
      let positive : suc i == 0 ≡ false = ground arith in rw (h, sort_key) (rw positive refl)

  insert_first :
      (i : ℕ) (entry : DeltaReplayEntry) (entries : List DeltaReplayEntry)
      → t.parse_int entry.version ≡ some (pos (suc i))
      → Chain t (suc (suc i)) entries
      → insert_entry t entry entries ≡ entry ∷ entries
  unfolding insert_entry at_most
  insert_first i entry [] h c = refl
  insert_first i entry (next ∷ rest) h (k, c) =
      rw (key_of i entry h, key_of (suc i) next k) (ground arith)

  sort-Chain :
      (i : ℕ) (entries : List DeltaReplayEntry)
      → Chain t (suc i) entries
      → sort_entries t entries ≡ entries
  unfolding sort_entries
  sort-Chain i [] c = refl
  sort-Chain i (entry ∷ entries) (h, c) =
      rw (sort-Chain (suc i) entries c) (insert_first i entry entries h c)

  skip_all :
      (a i e : ℕ) (entries : List DeltaReplayEntry)
      → a < i
      → Chain t i entries
      → plan_from t (pos a) e entries ≡ ok ([], e)
  unfolding plan_from place_entry at_most
  skip_all a i e [] h c = refl
  skip_all a i e (entry ∷ entries) h (k, c) =
      rw k (rw (leb-false i a h) (skip_all a (suc i) e entries (omega arith) c))

  plan-Chain :
      (a n i : ℕ) (entries : List DeltaReplayEntry)
      → a ≡ i + n
      → n ≤ length entries
      → Chain t (suc i) entries
      → plan_from t (pos a) (suc i) entries ≡ ok (take n entries, suc a)
  unfolding plan_from place_entry at_most is_number
  plan-Chain a zero i entries e h c =
      skip_all a (suc i) (suc i) entries (omega arith) c
      ∙ ap (λ x. ok ([], suc x)) (let same : i ≡ a = omega arith in same)
  plan-Chain a (suc n) i [] e h c = absurd (omega arith)
  plan-Chain a (suc n) i (entry ∷ entries) e h (k, c) = rw k (
      rw
        (
          le→leb (suc i) a (omega arith),
          eq→== (suc i) (suc i) refl,
          plan-Chain a n (suc i) entries (omega arith) (omega arith) c,
        )
        refl)

  -- Where deltas were remembered under the numbers from 1 on, one after the other, and the active
  -- version is one of them: the plan is made, and consists of all of them up to the active version, in
  -- order.
  pub delta_replay_plan-Chain :
      (p : Pool) (version : Name) (a : ℕ)
      → Chain t 1 (values p.delta_replay_entries)
      → p.active_version ≡ some version
      → t.parse_int version ≡ some (pos a)
      → a ≤ length (values p.delta_replay_entries)
      → delta_replay_plan t p ≡ ok (take a (values p.delta_replay_entries))
  unfolding delta_replay_plan plan_for plan_to reached at_most
  delta_replay_plan-Chain p version a chain active number enough =
      let entries = values p.delta_replay_entries in
      ap (λ v. plan_for t v entries) active
      ∙ ap (λ x. plan_to t version x entries) number
      ∙ rw (sort-Chain 0 entries chain, plan-Chain a a 0 entries (omega arith) enough chain)
          (rw (leb-false (suc a) a (omega arith)) refl)

  -- Whenever a plan is made for an active version with a number, its entries have the numbers from 1
  -- up to it, in order, and there are none if it is below 1.
  pub delta_replay_plan-Numbered :
      (p : Pool) (plan : List DeltaReplayEntry) (version : Name) (active : ℤ)
      → p.active_version ≡ some version
      → t.parse_int version ≡ some active
      → delta_replay_plan t p ≡ ok plan
      → (e : ℕ) × Numbered t active 1 plan e × (at_most (pos e) active ≡ false)
  unfolding delta_replay_plan plan_for
  delta_replay_plan-Numbered p plan version active is_active number made =
      plan_to-Numbered t version active (values p.delta_replay_entries) plan (
        sym (
          ap (λ v. plan_for t v (values p.delta_replay_entries)) is_active
          ∙ ap (λ x. plan_to t version x (values p.delta_replay_entries)) number)
        ∙ made)
