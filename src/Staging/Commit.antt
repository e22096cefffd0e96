-- ===== src/Staging/Commit.antt =====
-- `/resume`, `/commit` and `/reload_weights`. A call of the engine's workers may fail, which an
-- argument says; the two handlers that make one are in two parts, before the call and from it on.
pub mod Outcome
use aurora_rl.Base.{
  Bool, true, false, not, Option, none, some, List, [], ◌∷◌, if◌then◌else◌, Result, ok, err, check,
  ◌≡◌,
}
use aurora_rl.Base.Results
use aurora_rl.Base.Names.{Name, same_name}
use aurora_rl.Base.Dict.{lookup, erase}
use aurora_rl.Base.Exec.{Exec, lift, gets, modify, require, ◌>>=◌, ◌>>◌}
use aurora_rl.Staging.State.{
  State, Entry, Upload, Weights, Refusal, cleanup_staged_file, cleanup_stage_upload, base, unknown,
  full, delta, needs_reload, version_required, not_staged, staged_mode_mismatch, engine_failed,
  relay_failed,
}
use aurora_rl.Staging.Requests.{
  Fields, or_refuse, is_delta, validate_stage_metadata, same_version_text,
}

unfoldable pub resume : Exec State Refusal (Unit {0})
resume = do s ← gets (λ s. s); require (not s.weights_dirty) needs_reload

unfoldable pub mode_agrees : Option Name → Name → Bool
mode_agrees none mode = true
mode_agrees (some requested) mode = same_name requested mode

-- `if state.active_version != version:`, up to the call of the workers.
unfoldable pub start_update : Name → Entry → Exec State Refusal (Name × Entry × Bool)
start_update version entry s =
    if same_version_text s.active_version (some version)
    then (ok (version, entry, false), s)
    else elim (validate_stage_metadata s (some version) (some entry.mode) entry.base_version) [
      | err e ↦ (err e, s)
      | ok metadata ↦ (ok (version, entry, true), record s { weights_dirty = true })
    ]

-- The checks before the update.
unfoldable pub commit_target : Fields → State → Result Refusal (Name × Entry)
unfolding mode_agrees
commit_target fields s = Results.◌>>=◌ (or_refuse fields.version version_required) λ version.
    Results.◌>>=◌ (or_refuse (lookup version s.staged_versions) not_staged) λ entry.
      Results.◌>>◌ (check (mode_agrees fields.mode entry.mode) staged_mode_mismatch)
        (Results.◌>>◌ (check (not s.weights_dirty) needs_reload) (ok (version, entry)))

-- Up to the call: the version, its entry, and whether there is a call to make.
unfoldable pub prepare_commit : Fields → Exec State Refusal (Name × Entry × Bool)
unfolding start_update
prepare_commit fields = do
  s ← gets (λ s. s)
  (version, entry) ← lift (commit_target fields s)
  start_update version entry

-- What the workers hold after `update_weights_from_delta_path` or `update_weights_from_path`.
unfoldable pub updated_weights : Entry → Weights → Weights
updated_weights entry weights =
    if is_delta entry.mode then delta weights entry.path else full entry.path

unfoldable pub update_workers : Bool → Name → Entry → Bool → Exec State Refusal (Unit {0})
unfolding updated_weights
update_workers engine_ok version entry false s = (ok tt, s)
update_workers true version entry true s = (
  ok tt,
  record s {
    weights = updated_weights entry s.weights;
    active_version = some version;
    weights_dirty = false;
  },
)
update_workers false version entry true s = (err engine_failed, record s { weights = unknown })

unfoldable pub drop_one : Name → Name → Entry → State → State
unfolding cleanup_staged_file
drop_one version staged_version old_entry s =
    if same_name staged_version version
    then s
    else (let cleaned = cleanup_staged_file old_entry s in
        record cleaned { staged_versions = erase staged_version s.staged_versions })

-- The loop over `list(staged_versions.items())`.
unfoldable pub drop_others : Name → List (Name × Entry) → State → State
unfolding drop_one
drop_others version [] s = s
drop_others version ((staged_version, old_entry) ∷ items) s =
    drop_others version items (drop_one version staged_version old_entry s)

-- From the call on.
unfoldable pub finish_commit : Bool → Bool → Name × Entry × Bool → Exec State Refusal (Unit {0})
unfolding update_workers drop_others
finish_commit engine_ok fan_out_failed (version, entry, call) = do
  update_workers engine_ok version entry call
  modify (λ s. drop_others version s.staged_versions s)
  require (not fan_out_failed) relay_failed

unfoldable pub commit_weights : Bool → Bool → Fields → Exec State Refusal (Unit {0})
commit_weights engine_ok fan_out_failed fields = do
  prepared ← prepare_commit fields
  finish_commit engine_ok fan_out_failed prepared

unfoldable pub start_reload : State → State
start_reload s = record s { weights_dirty = true }

unfoldable pub cleanup_entries : List (Name × Entry) → State → State
unfolding cleanup_staged_file
cleanup_entries [] s = s
cleanup_entries ((version, entry) ∷ items) s = cleanup_entries items (cleanup_staged_file entry s)

unfoldable pub cleanup_uploads : List (Name × Upload) → State → State
unfolding cleanup_stage_upload
cleanup_uploads [] s = s
cleanup_uploads ((key, upload) ∷ items) s =
    cleanup_uploads items (cleanup_stage_upload upload.path s)

unfoldable pub finish_reload : Bool → Bool → Exec State Refusal (Unit {0})
unfolding cleanup_entries cleanup_uploads
finish_reload false fan_out_failed s = (err engine_failed, record s { weights = unknown })
finish_reload true fan_out_failed s =
    let cleaned = cleanup_uploads s.stage_uploads (cleanup_entries s.staged_versions s) in
    require (not fan_out_failed) relay_failed (record cleaned {
      weights = base;
      active_version = none;
      weights_dirty = false;
      staged_versions = [];
      stage_uploads = [];
    })

unfoldable pub reload_weights : Bool → Bool → Exec State Refusal (Unit {0})
unfolding start_reload finish_reload
reload_weights engine_ok fan_out_failed s = finish_reload engine_ok fan_out_failed (start_reload s)
