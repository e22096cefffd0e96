-- ===== src/Endpoints/Plan.antt =====
-- utils/client.py: which deltas an endpoint is to be brought up to date with
-- (`_remember_delta_replay_entry`, `_delta_replay_plan`, `_parse_version`).
use aurora_rl.Base.{
  ℕ, suc, Bool, true, false, not, Option, none, some, List, [], ◌∷◌, ◌++◌, leb, ◌==◌, if◌then◌else◌,
  Result, ok, err, ◌>>=◌,
}
use aurora_rl.Base.Int.{ℤ, pos, negsuc}
use aurora_rl.Base.Names.{Name, codes}
use aurora_rl.Base.Dict.{insert, values}
use aurora_rl.Endpoints.Types.{Texts, PoolError, DeltaReplayEntry, runtime_error}
use aurora_rl.Endpoints.Uploads.{StageJob, is_delta}
use aurora_rl.Endpoints.Pool.{Pool}

-- `a <= b`
unfoldable pub at_most : ℤ → ℤ → Bool
at_most (pos a) (pos b) = leb a b
at_most (pos a) (negsuc b) = false
at_most (negsuc a) (pos b) = true
at_most (negsuc a) (negsuc b) = leb b a

unfoldable pub is_number : ℕ → ℤ → Bool
is_number n (pos m) = m == n
is_number n (negsuc m) = false

unfoldable pub replay_entry : StageJob → DeltaReplayEntry
replay_entry job = record {
  weight_path = job.weight_path;
  version = job.version;
  base_version = job.base_version;
  upload = job.upload;
  upload_method = job.upload_method;
  done_path = job.done_path;
}

unfoldable pub remember_delta_replay_entry : StageJob → Pool → Pool
unfolding is_delta replay_entry
remember_delta_replay_entry job p = if not (is_delta job) then p else record p {
  delta_replay_entries = insert job.version (replay_entry job) p.delta_replay_entries;
}

module _ (t : Texts) where
  -- `self._parse_version(entry.version) or -1`
  unfoldable pub sort_key : DeltaReplayEntry → ℤ
  sort_key entry = elim (t.parse_int entry.version) [
    | none ↦ negsuc 0
    | some version ↦ if is_number 0 version then negsuc 0 else version
  ]

  unfoldable pub insert_entry : DeltaReplayEntry → List DeltaReplayEntry → List DeltaReplayEntry
  unfolding sort_key at_most
  insert_entry entry [] = entry ∷ []
  insert_entry entry (first ∷ rest) =
      if at_most (sort_key entry) (sort_key first)
      then entry ∷ first ∷ rest
      else first ∷ insert_entry entry rest

  -- `sorted`, which keeps the order of equal keys.
  unfoldable pub sort_entries : List DeltaReplayEntry → List DeltaReplayEntry
  unfolding insert_entry
  sort_entries [] = []
  sort_entries (entry ∷ entries) = insert_entry entry (sort_entries entries)

  unfoldable pub not_numeric : Name → PoolError
  not_numeric version =
      runtime_error (codes "delta recovery requires numeric versions, got " ++ t.repr version)

  unfoldable pub show_number : ℤ → Name
  show_number (pos n) = t.show_int n
  show_number (negsuc n) = codes "-" ++ t.show_int (suc n)

  unfoldable pub missing_entry : ℕ → ℤ → PoolError
  unfolding show_number
  missing_entry expected active = runtime_error (
      codes "missing delta replay entry for version "
      ++ t.show_int expected
      ++ codes "; cannot recover to "
      ++ show_number active)

  -- What a remembered entry adds, given the plan without it and the plan behind it.
  unfoldable pub place_entry :
      ℤ
      → ℕ
      → DeltaReplayEntry
      → Option ℤ
      → Result PoolError (List DeltaReplayEntry × ℕ)
      → Result PoolError (List DeltaReplayEntry × ℕ)
      → Result PoolError (List DeltaReplayEntry × ℕ)
  unfolding not_numeric missing_entry at_most is_number
  place_entry active expected entry none skipped placed = err (not_numeric entry.version)
  place_entry active expected entry (some version) skipped placed =
      if not (at_most version active)
      then skipped
      else if not (is_number expected version)
      then err (missing_entry expected active)
      else (placed >>= λ found. ok (entry ∷ found.0, found.1))

  -- The entries to replay in order, and the version that is expected next.
  unfoldable pub plan_from :
      ℤ → ℕ → List DeltaReplayEntry → Result PoolError (List DeltaReplayEntry × ℕ)
  unfolding place_entry
  plan_from active expected [] = ok ([], expected)
  plan_from active expected (entry ∷ rest) =
      let skipped = plan_from active expected rest in
      let placed = plan_from active (suc expected) rest in
      place_entry active expected entry (t.parse_int entry.version) skipped placed

  -- All versions up to the active one are there.
  unfoldable pub reached : ℤ → List DeltaReplayEntry × ℕ → Result PoolError (List DeltaReplayEntry)
  unfolding at_most
  reached active (plan, expected) =
      if at_most (pos expected) active
      then err
          (runtime_error (codes "missing delta replay entry for version " ++ t.show_int expected))
      else ok plan

  -- From the number of the active version, if it has one.
  unfoldable pub plan_to :
      Name → Option ℤ → List DeltaReplayEntry → Result PoolError (List DeltaReplayEntry)
  unfolding not_numeric sort_entries plan_from reached
  plan_to version none entries = err (not_numeric version)
  plan_to version (some active) entries =
      plan_from active 1 (sort_entries entries) >>= reached active

  -- Before the first commit there is nothing to replay.
  unfoldable pub plan_for :
      Option Name → List DeltaReplayEntry → Result PoolError (List DeltaReplayEntry)
  unfolding plan_to
  plan_for none entries = ok []
  plan_for (some version) entries = plan_to version (t.parse_int version) entries

  unfoldable pub delta_replay_plan : Pool → Result PoolError (List DeltaReplayEntry)
  unfolding plan_for
  delta_replay_plan p = plan_for p.active_version (values p.delta_replay_entries)
