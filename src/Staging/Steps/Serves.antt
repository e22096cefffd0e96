-- ===== src/Staging/Steps/Serves.antt =====
-- The workers hold what the active version says, whatever requests come in.
use aurora_rl.Base.{
  ◌≡◌, refl, sym, ◌∙◌, Bool, true, false, not, Option, none, some, List, [], ◌∷◌, Result, ok, err,
  Bool-cases, inl, inr, subst, arith, ◌==◌, ◌&&◌, if◌then◌else◌, >>=-eq-ok,
}
use aurora_rl.Base.Names.{Name, same_name}
use aurora_rl.Base.Exec.{lift, gets, modify, require, and_then, ◌>>=◌}
use aurora_rl.Staging.State.{State, Entry, Weights, Refusal, base, full, delta, current_version}
use aurora_rl.Staging.Requests.{
  Host, Fields, is_delta, validate_base, validate_stage_metadata, same_version_text,
}
use aurora_rl.Staging.Commit.{
  commit_target, prepare_commit, start_update, updated_weights, update_workers, finish_commit,
  start_reload, finish_reload, cleanup_entries,
}
use aurora_rl.Staging.Commit.Outcome.{commit_target-found, core-drop_others}
use aurora_rl.Staging.Steps.{
  Pending, idle, reloading, committing, pending_commit, Step, Log, request, commit_starts,
  commit_ends, reload_starts, reload_ends, Reach, here, next, record_step, record_steps,
}
use aurora_rl.Staging.State.Core.{core, Core, core-cleanup_staged_file}
use aurora_rl.Staging.Steps.Core.{run-Keeps}

-- What the workers hold and the active version, by the updates that were made: none, a full
-- checkpoint, or a delta. The entry of a delta names as its base the version of the weights that its
-- file was applied to, and that is not its own version.
pub data Serves : Log → Weights → Option Name → Type 0 where
  fresh : Serves [] base none
  loaded :
      {log : Log} (version : Name) (entry : Entry)
      → is_delta entry.mode ≡ false
      → Serves ((version, entry) ∷ log) (full entry.path) (some version)
  patched :
      {log : Log} {weights : Weights} {active : Option Name} (version : Name) (entry : Entry)
      (base_version : Name)
      → is_delta entry.mode ≡ true
      → Serves log weights active
      → entry.base_version ≡ some base_version
      → same_name base_version (current_version active) ≡ true
      → same_name version base_version ≡ false
      → Serves ((version, entry) ∷ log) (delta weights entry.path) (some version)

-- What an entry must say for its update to lead to its version.
abbrev Fits : Name → Entry → Option Name → Type 0
Fits version entry active =
    is_delta entry.mode ≡ true
    → (base_version : Name) × (entry.base_version ≡ some base_version)
      × (same_name base_version (current_version active) ≡ true)
      × (same_name version base_version ≡ false)

abbrev SafeCore : Log → Core → Pending → Type 0
SafeCore log (weights, active, dirty) idle = dirty ≡ false → Serves log weights active
SafeCore log (weights, active, dirty) reloading = dirty ≡ true
SafeCore log (weights, active, dirty) (committing (version, entry, true)) =
    (dirty ≡ true) × Serves log weights active × Fits version entry active
SafeCore log (weights, active, dirty) (committing (version, entry, false)) =
    dirty ≡ false → Serves log weights active

abbrev pub IsSafe : Log → State → Pending → Type 0
IsSafe log s p = SafeCore log (core s) p

update-Serves :
    (log : Log) (version : Name) (entry : Entry) (weights : Weights) (active : Option Name)
    → Serves log weights active
    → Fits version entry active
    → Serves ((version, entry) ∷ log) (updated_weights entry weights) (some version)
unfolding updated_weights
update-Serves log version entry weights active h fits = elim (Bool-cases (is_delta entry.mode)) [
  | inl is ↦
      let (base_version, named, at_base, differs) = fits is in
      rw is (patched version entry base_version is h named at_base differs)
  | inr other ↦ rw other (loaded version entry other)
]

not-false : (b : Bool) → not b ≡ false → b ≡ true
not-false true h = refl
not-false false h = cc

validate_base-found :
    (s : State) (version : Name) (base_version : Option Name) {u : Unit {0}}
    → validate_base s version base_version ≡ ok u
    → (found : Name) × (base_version ≡ some found)
      × (same_name found (current_version s.active_version) ≡ true)
      × (same_name version found ≡ false)
unfolding validate_base
validate_base-found s version none h = cc
validate_base-found s version (some found) h =
    elim (Bool-cases (same_name found (current_version s.active_version))) [
      | inl at_base ↦ elim (Bool-cases (same_name version found)) [
        | inl own ↦ absurd (let e = rw at_base at h in ground arith)
        | inr differs ↦ (found, refl, at_base, differs)
      ]
      | inr elsewhere ↦ absurd (ground arith)
    ]

validate-Fits :
    (s : State) (version : Name) (entry : Entry) {metadata : Name × Name × Option Name}
    → validate_stage_metadata s (some version) (some entry.mode) entry.base_version ≡ ok metadata
    → Fits version entry s.active_version
unfolding validate_stage_metadata
validate-Fits s version entry accepted delta_mode = elim (Bool-cases (s.api_server_count == 1)) [
  | inl one ↦ elim (Bool-cases s.weights_dirty) [
    | inl dirty ↦ absurd (let h = rw (delta_mode, one, dirty) at accepted in ground arith)
    | inr clean ↦
        let h = rw (delta_mode, one, clean) at accepted in
        let (_, checked, _) = >>=-eq-ok (validate_base s version entry.base_version) _ h in
        validate_base-found s version entry.base_version checked
  ]
  | inr several ↦ absurd (let h = rw (delta_mode, several) at accepted in ground arith)
]

-- An outcome that leaves the server safe, whether it is an error or a result.
record Outcome {A : Type 0} (Post : Result Refusal A → State → Type 0)
    (x : Result Refusal A × State) : Type 0 where
  post : Post x.0 x.1

abbrev Prepared : Log → Result Refusal (Name × Entry × Bool) → State → Type 0
Prepared log r s = IsSafe log s (pending_commit r)

start_update-Prepared :
    (log : Log) (version : Name) (entry : Entry) (s : State)
    → s.weights_dirty ≡ false
    → IsSafe log s idle
    → Outcome (Prepared log) (start_update version entry s)
unfolding start_update pending_commit
start_update-Prepared log version entry s clean safe =
    elim (Bool-cases (same_version_text s.active_version (some version))) [
      | inl active ↦ rw active (record { post = safe })
      | inr other ↦ rw other (
          validated (validate_stage_metadata s (some version) (some entry.mode) entry.base_version)
            refl)
    ]
  where
    validated :
        (r : Result Refusal (Name × Name × Option Name))
        → validate_stage_metadata s (some version) (some entry.mode) entry.base_version ≡ r
        → Outcome (Prepared log) (elim r [
          | err e ↦ (err e, s)
          | ok metadata ↦ (ok (version, entry, true), record s { weights_dirty = true })
        ])
    validated (ok metadata) e = record {
      post = (refl, safe clean, validate-Fits s version entry e);
    }
    validated (err e) _ = record { post = safe }

prepare_commit-Prepared :
    (log : Log) (fields : Fields) (s : State)
    → IsSafe log s idle
    → Outcome (Prepared log) (prepare_commit fields s)
unfolding prepare_commit ◌>>=◌ lift gets
prepare_commit-Prepared log fields s safe = targeted (commit_target fields s) refl
  where
    targeted :
        (r : Result Refusal (Name × Entry))
        → commit_target fields s ≡ r
        → Outcome (Prepared log) (and_then r (λ t. start_update t.0 t.1) s)
    targeted (ok (version, entry)) e =
        start_update-Prepared log version entry s (commit_target-found fields s version entry e).0
          safe
    targeted (err e) _ = record { post = unfold pending_commit in safe }

update_workers-Finished :
    (log : Log) (version : Name) (entry : Entry) (call engine_ok : Bool) (s : State)
    → IsSafe log s (committing (version, entry, call))
    → IsSafe
        (if call && engine_ok then (version, entry) ∷ log else log)
        (update_workers engine_ok version entry call s).1
        idle
unfolding update_workers
update_workers-Finished log version entry false engine_ok s safe clean = safe clean
update_workers-Finished log version entry true true s (dirty, serves, fits) clean =
    update-Serves log version entry s.weights s.active_version serves fits
update_workers-Finished log version entry true false s (dirty, serves, fits) clean =
    absurd (ground arith)

finish_commit-core :
    (version : Name) (entry : Entry) (call engine_ok failed : Bool) (s : State)
    → core (finish_commit engine_ok failed (version, entry, call) s).1
      ≡ core (update_workers engine_ok version entry call s).1
unfolding finish_commit update_workers ◌>>=◌ modify require
finish_commit-core version entry false engine_ok false s =
    core-drop_others version s.staged_versions s
finish_commit-core version entry false engine_ok true s =
    core-drop_others version s.staged_versions s
finish_commit-core version entry true true false s = core-drop_others version s.staged_versions _
finish_commit-core version entry true true true s = core-drop_others version s.staged_versions _
finish_commit-core version entry true false failed s = refl

finish_commit-IsSafe :
    (log : Log) (version : Name) (entry : Entry) (call engine_ok failed : Bool) (s : State)
    → IsSafe log s (committing (version, entry, call))
    → IsSafe
        (if call && engine_ok then (version, entry) ∷ log else log)
        (finish_commit engine_ok failed (version, entry, call) s).1
        idle
finish_commit-IsSafe log version entry call engine_ok failed s safe =
    subst (λ c. SafeCore (if call && engine_ok then (version, entry) ∷ log else log) c idle)
      (sym (finish_commit-core version entry call engine_ok failed s))
      (update_workers-Finished log version entry call engine_ok s safe)

core-cleanup_entries :
    (items : List (Name × Entry)) (s : State) → core (cleanup_entries items s) ≡ core s
unfolding cleanup_entries
core-cleanup_entries [] s = refl
core-cleanup_entries ((version, entry) ∷ items) s =
    core-cleanup_entries items _ ∙ core-cleanup_staged_file entry s

finish_reload-IsSafe :
    (log : Log) (engine_ok failed : Bool) (s : State)
    → IsSafe log s reloading
    → IsSafe (if engine_ok then [] else log) (finish_reload engine_ok failed s).1 idle
unfolding finish_reload require
finish_reload-IsSafe log false failed s dirty clean = absurd (ground arith)
finish_reload-IsSafe log true true s dirty clean = fresh
finish_reload-IsSafe log true false s dirty clean = fresh

pub Step-IsSafe :
    {h : Host} {s t : State} {p q : Pending} (log : Log) (step : Step h s p t q)
    → IsSafe log s p
    → IsSafe (record_step log step) t q
unfolding record_step
Step-IsSafe {h} log (request s p' call free) safe =
    subst (λ c. SafeCore log c p') (sym ((run-Keeps (core s) h call).at s refl)) safe
Step-IsSafe log (commit_starts s fields) safe = (prepare_commit-Prepared log fields s safe).post
Step-IsSafe log (commit_ends s (version, entry, call) engine_ok failed) safe =
    finish_commit-IsSafe log version entry call engine_ok failed s safe
Step-IsSafe log (reload_starts s) safe = unfold start_reload in refl
Step-IsSafe log (reload_ends s engine_ok failed) safe =
    finish_reload-IsSafe log engine_ok failed s safe

pub Reach-IsSafe :
    {h : Host} {s : State} {p : Pending} {t : State} {q : Pending} (log : Log)
    → IsSafe log s p
    → (reached : Reach h s p t q) → IsSafe (record_steps log reached) t q
unfolding record_steps
Reach-IsSafe log safe here = safe
Reach-IsSafe log safe (next reached step) =
    Step-IsSafe (record_steps log reached) step (Reach-IsSafe log safe reached)

-- On a server whose weights are explained at the start by the updates that were made, after any
-- requests, commits and reloads: as long as the weights are not dirty and no call of the workers is
-- under way, the weights are those of the committed entries since the last reload, one after the
-- other, the active version is the last of them, and each delta that counts was applied to the
-- weights of the version that its own entry names as its base.
pub Reach-Serves :
    {h : Host} {s t : State} (log : Log)
    → Serves log s.weights s.active_version
    → (reached : Reach h s idle t idle) → t.weights_dirty ≡ false
    → Serves (record_steps log reached) t.weights t.active_version
Reach-Serves log serves reached clean = Reach-IsSafe log (λ _. serves) reached clean
