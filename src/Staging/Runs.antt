-- ===== src/Staging/Runs.antt =====
-- A server that stages a full checkpoint in two chunks, commits it, and then a delta to it.
use aurora_rl.Base.{
  ℕ, zero, suc, subst, ◌+◌, ◌≡◌, refl, ◌↔◌, Bool, true, false, ◌&&◌, ◌||◌, Option, none, some, List,
  [], ◌∷◌, ok, err, leb, ltb, ◌<◌, get_elem?, arith,
}
use mathlib.Core.Option
use aurora_rl.Base.Int.{pos}
use aurora_rl.Base.Names.{Name, codes, same_name}
use aurora_rl.Base.Dict.{lookup}
use aurora_rl.Base.Exec.{pure, refuse, lift, gets, modify, require, Keeps, ◌>>=◌}
use aurora_rl.Staging.Ranges.{
  sort, merge_sorted, insert_sorted, pair_le, merge_loop, merge_received_range, is_whole, is_empty,
  upload_complete,
}
use aurora_rl.Staging.Ranges.Cover.{covers, within, ApartFrom, merge_received_range-covers}
use aurora_rl.Staging.Ranges.Complete.{upload_complete-covers}
use aurora_rl.Staging.Files.{overwrite, write_behind, write_at}
use aurora_rl.Staging.Files.Content.{Holds}
use aurora_rl.Staging.State.{
  same_path, State, FilePath, Upload, Entry, base, full, unknown, delta, Refusal, current_version,
  set_file, is_file, remove_staged, cleanup_staged_file, needs_reload, engine_failed,
}
use aurora_rl.Staging.Requests.{
  Host, Fields, UploadedFile, number, missing, or_default, or_text, same_version_text, or_refuse,
  parse_non_negative_int, validate_base, validate_stage_metadata, safe_char, safe_path_component,
  staging_path,
}
use aurora_rl.Staging.Uploads.{
  replace_entry, register_staged_version, move_file, receive_chunk, same_upload, finish_upload,
  check_sha256, find_or_start,
}
use aurora_rl.Staging.Handlers.{stage_chunk, stage_finalize, stage_source, stage_weights}
use aurora_rl.Staging.Handlers.Content.{
  Staged, Uploading, receive_chunk-Uploading, stage_finalize-whole,
}
use aurora_rl.Staging.Commit.{
  resume, mode_agrees, commit_target, start_update, prepare_commit, updated_weights, update_workers,
  drop_one, drop_others, finish_commit, commit_weights,
}
use aurora_rl.Staging.Commit.Outcome.{
  Committed, Refused, commit_dirty, commit-Committed, commit-Refused,
}
use aurora_rl.Staging.Steps.{
  Call, chunk, finalize, stage, run, Pending, idle, pending_commit, Step, request, commit_starts,
  commit_ends, Reach, here, next, record_steps,
}
use aurora_rl.Staging.Steps.Serves.{Serves, fresh, Reach-Serves}
use aurora_rl.Staging.Steps.Core.{Kept, run-Keeps}
use aurora_rl.Staging.State.Core.{core}

abbrev host : Host
host = record {
  is_alnum = λ c. (leb b'0' c && leb c b'9') || (leb b'a' c && leb c b'z');
  path_name = λ name. name;
  expand = λ name. record { parent = codes "disk"; file_name = name };
  sha256_of = λ content. content;
}

abbrev started : State
started = record {
  staged_versions = [];
  stage_uploads = [];
  active_version = none;
  weights_dirty = false;
  staging_dir = codes "staged";
  api_server_count = 1;
  files = λ path. none;
  is_directory = λ path. false;
  weights = base;
}

abbrev checkpoint : List ℕ
checkpoint = 9 ∷ 8 ∷ 7 ∷ 6 ∷ []

abbrev fields : ℕ → Option UploadedFile → Fields
fields offset file = record {
  version = some (codes "v1");
  mode = none;
  base_version = none;
  filename = some (codes "w");
  path = none;
  upload_id = none;
  sha256 = some checkpoint;
  offset = number (pos offset);
  total_size = number (pos 4);
  final_size = missing;
  file = file;
}

abbrev chunk_at : ℕ → List ℕ → Call
chunk_at offset content =
    chunk false (fields offset (some (record { filename = none; content = content })))

abbrev delta_fields : Name → Fields
delta_fields base_version =
    record (fields 0 (some (record { filename = some (codes "d"); content = 1 ∷ [] }))) {
      version = some (codes "v2");
      mode = some (codes "delta");
      base_version = some base_version;
    }

abbrev uploading : State
uploading = (run host (chunk_at 2 (7 ∷ 6 ∷ [])) started).1

abbrev uploaded : State
uploaded = (run host (chunk_at 0 (9 ∷ 8 ∷ [])) uploading).1

abbrev staged : State
staged = (run host (finalize (codes "f1") false (fields 0 none)) uploaded).1

uploading_run :
    Option.map (λ upload. upload.ranges) (lookup (codes "v1:full") uploading.stage_uploads)
    ≡ some ((2, 4) ∷ [])
unfolding insert_sorted pair_le sort merge_loop merge_sorted merge_received_range is_whole is_empty
    upload_complete overwrite write_behind write_at current_version set_file is_file remove_staged
    cleanup_staged_file or_default or_text or_refuse parse_non_negative_int validate_base
    validate_stage_metadata safe_char safe_path_component replace_entry register_staged_version
    move_file receive_chunk same_upload finish_upload check_sha256 find_or_start stage_chunk
    stage_finalize run pure refuse lift gets modify require ◌>>=◌
uploading_run = refl

staged_run : (run host (finalize (codes "f1") false (fields 0 none)) uploaded).0 ≡ ok tt
unfolding insert_sorted pair_le sort merge_loop merge_sorted merge_received_range is_whole is_empty
    upload_complete overwrite write_behind write_at current_version set_file is_file remove_staged
    cleanup_staged_file or_default or_text or_refuse parse_non_negative_int validate_base
    validate_stage_metadata safe_char safe_path_component replace_entry register_staged_version
    move_file receive_chunk same_upload finish_upload check_sha256 find_or_start stage_chunk
    stage_finalize run pure refuse lift gets modify require ◌>>=◌
staged_run = refl

staged_file_run :
    staged.files (record { parent = codes "staged"; file_name = codes "f1_full_w" })
    ≡ some checkpoint
unfolding insert_sorted pair_le sort merge_loop merge_sorted merge_received_range is_whole is_empty
    upload_complete overwrite write_behind write_at current_version set_file is_file remove_staged
    cleanup_staged_file or_default or_text or_refuse parse_non_negative_int validate_base
    validate_stage_metadata safe_char safe_path_component replace_entry register_staged_version
    move_file receive_chunk same_upload finish_upload check_sha256 find_or_start stage_chunk
    stage_finalize run pure refuse lift gets modify require ◌>>=◌
staged_file_run = refl

abbrev staged_at : Name → FilePath
staged_at file_name = record { parent = codes "staged"; file_name = file_name }

abbrev entry : Entry
entry = record {
  path = staged_at (codes "f1_full_w");
  mode = codes "full";
  base_version = none;
  owned = true;
}

abbrev delta_entry : Entry
delta_entry = record {
  path = staged_at (codes "f2_delta_d");
  mode = codes "delta";
  base_version = some (codes "v1");
  owned = true;
}

abbrev committed : State
committed =
    (finish_commit true false (codes "v1", entry, true) (prepare_commit (fields 0 none) staged).1).1

abbrev delta_staged : State
delta_staged = (run host (stage (codes "f2") false (delta_fields (codes "v1"))) committed).1

abbrev delta_committed : State
delta_committed =
    (finish_commit true false (codes "v2", delta_entry, true)
      (prepare_commit (delta_fields (codes "v1")) delta_staged).1).1

delta_run :
    delta_committed.weights
    ≡ delta (full (staged_at (codes "f1_full_w"))) (staged_at (codes "f2_delta_d"))
unfolding insert_sorted pair_le sort merge_loop merge_sorted merge_received_range is_whole is_empty
    upload_complete overwrite write_behind write_at current_version set_file is_file remove_staged
    cleanup_staged_file or_default or_text or_refuse parse_non_negative_int validate_base
    validate_stage_metadata safe_char safe_path_component replace_entry register_staged_version
    move_file receive_chunk same_upload finish_upload check_sha256 find_or_start stage_chunk
    stage_finalize run pure refuse lift gets modify require ◌>>=◌ stage_source stage_weights
    mode_agrees commit_target start_update prepare_commit updated_weights update_workers drop_one
    drop_others finish_commit commit_weights pending_commit
delta_run = refl

clean_run : delta_committed.weights_dirty ≡ false
unfolding insert_sorted pair_le sort merge_loop merge_sorted merge_received_range is_whole is_empty
    upload_complete overwrite write_behind write_at current_version set_file is_file remove_staged
    cleanup_staged_file or_default or_text or_refuse parse_non_negative_int validate_base
    validate_stage_metadata safe_char safe_path_component replace_entry register_staged_version
    move_file receive_chunk same_upload finish_upload check_sha256 find_or_start stage_chunk
    stage_finalize run pure refuse lift gets modify require ◌>>=◌ stage_source stage_weights
    mode_agrees commit_target start_update prepare_commit updated_weights update_workers drop_one
    drop_others finish_commit commit_weights pending_commit
clean_run = refl

commit_run : commit_weights true false (fields 0 none) staged ≡ (ok tt, committed)
unfolding insert_sorted pair_le sort merge_loop merge_sorted merge_received_range is_whole is_empty
    upload_complete overwrite write_behind write_at current_version set_file is_file remove_staged
    cleanup_staged_file or_default or_text or_refuse parse_non_negative_int validate_base
    validate_stage_metadata safe_char safe_path_component replace_entry register_staged_version
    move_file receive_chunk same_upload finish_upload check_sha256 find_or_start stage_chunk
    stage_finalize run pure refuse lift gets modify require ◌>>=◌ stage_source stage_weights
    mode_agrees commit_target start_update prepare_commit updated_weights update_workers drop_one
    drop_others finish_commit commit_weights pending_commit
commit_run = refl

target_run : commit_target (fields 0 none) staged ≡ ok (codes "v1", entry)
unfolding insert_sorted pair_le sort merge_loop merge_sorted merge_received_range is_whole is_empty
    upload_complete overwrite write_behind write_at current_version set_file is_file remove_staged
    cleanup_staged_file or_default or_text or_refuse parse_non_negative_int validate_base
    validate_stage_metadata safe_char safe_path_component replace_entry register_staged_version
    move_file receive_chunk same_upload finish_upload check_sha256 find_or_start stage_chunk
    stage_finalize run pure refuse lift gets modify require ◌>>=◌ stage_source stage_weights
    mode_agrees commit_target start_update prepare_commit updated_weights update_workers drop_one
    drop_others finish_commit commit_weights pending_commit
target_run = refl

accepted_run :
    validate_stage_metadata staged (some (codes "v1")) (some (codes "full")) none
    ≡ ok (codes "v1", codes "full", none)
unfolding insert_sorted pair_le sort merge_loop merge_sorted merge_received_range is_whole is_empty
    upload_complete overwrite write_behind write_at current_version set_file is_file remove_staged
    cleanup_staged_file or_default or_text or_refuse parse_non_negative_int validate_base
    validate_stage_metadata safe_char safe_path_component replace_entry register_staged_version
    move_file receive_chunk same_upload finish_upload check_sha256 find_or_start stage_chunk
    stage_finalize run pure refuse lift gets modify require ◌>>=◌ stage_source stage_weights
    mode_agrees commit_target start_update prepare_commit updated_weights update_workers drop_one
    drop_others finish_commit commit_weights pending_commit
accepted_run = refl

not_active_run : same_version_text staged.active_version (some (codes "v1")) ≡ false
unfolding insert_sorted pair_le sort merge_loop merge_sorted merge_received_range is_whole is_empty
    upload_complete overwrite write_behind write_at current_version set_file is_file remove_staged
    cleanup_staged_file or_default or_text or_refuse parse_non_negative_int validate_base
    validate_stage_metadata safe_char safe_path_component replace_entry register_staged_version
    move_file receive_chunk same_upload finish_upload check_sha256 find_or_start stage_chunk
    stage_finalize run pure refuse lift gets modify require ◌>>=◌ stage_source stage_weights
    mode_agrees commit_target start_update prepare_commit updated_weights update_workers drop_one
    drop_others finish_commit commit_weights pending_commit
not_active_run = refl

abbrev upload : Upload
upload = record {
  path = staged_at (codes "v1_full_w.part");
  staged_path = none;
  filename = codes "w";
  mode = codes "full";
  version = none;
  base_version = none;
  total_size = some 4;
  sha256 = some checkpoint;
  ranges = (0, 4) ∷ [];
  chunks = 2;
}

upload_run : lookup (codes "v1:full") uploaded.stage_uploads ≡ some upload
unfolding insert_sorted pair_le sort merge_loop merge_sorted merge_received_range is_whole is_empty
    upload_complete overwrite write_behind write_at current_version set_file is_file remove_staged
    cleanup_staged_file or_default or_text or_refuse parse_non_negative_int validate_base
    validate_stage_metadata safe_char safe_path_component replace_entry register_staged_version
    move_file receive_chunk same_upload finish_upload check_sha256 find_or_start stage_chunk
    stage_finalize run pure refuse lift gets modify require ◌>>=◌
upload_run = refl

Holds-run : Holds checkpoint (or_default (uploaded.files upload.path) []) upload.ranges
unfolding insert_sorted pair_le sort merge_loop merge_sorted merge_received_range is_whole is_empty
    upload_complete overwrite write_behind write_at current_version set_file is_file remove_staged
    cleanup_staged_file or_default or_text or_refuse parse_non_negative_int validate_base
    validate_stage_metadata safe_char safe_path_component replace_entry register_staged_version
    move_file receive_chunk same_upload finish_upload check_sha256 find_or_start stage_chunk
    stage_finalize run pure refuse lift gets modify require ◌>>=◌
Holds-run = record {
  apart = omega arith;
  short = omega arith;
  filled = λ k covered. ground arith;
  agrees = λ k covered. refl;
}

finalize_run : stage_finalize host (codes "f1") false (fields 0 none) uploaded ≡ (ok tt, staged)
unfolding insert_sorted pair_le sort merge_loop merge_sorted merge_received_range is_whole is_empty
    upload_complete overwrite write_behind write_at current_version set_file is_file remove_staged
    cleanup_staged_file or_default or_text or_refuse parse_non_negative_int validate_base
    validate_stage_metadata safe_char safe_path_component replace_entry register_staged_version
    move_file receive_chunk same_upload finish_upload check_sha256 find_or_start stage_chunk
    stage_finalize run pure refuse lift gets modify require ◌>>=◌
finalize_run = refl

fresh_path :
    (name : Name)
    → same_path upload.path (staging_path uploaded (codes "f1") (codes "full") name []) ≡ false
unfolding insert_sorted pair_le sort merge_loop merge_sorted merge_received_range is_whole is_empty
    upload_complete overwrite write_behind write_at current_version set_file is_file remove_staged
    cleanup_staged_file or_default or_text or_refuse parse_non_negative_int validate_base
    validate_stage_metadata safe_char safe_path_component replace_entry register_staged_version
    move_file receive_chunk same_upload finish_upload check_sha256 find_or_start stage_chunk
    stage_finalize run pure refuse lift gets modify require ◌>>=◌
fresh_path name = refl

stage_finalize-whole_example :
    Staged (codes "v1") checkpoint staged
    × (expected : Name) × (some checkpoint ≡ some expected)
    × (same_name checkpoint expected ≡ true)
unfolding or_default
stage_finalize-whole_example =
    stage_finalize-whole checkpoint host (codes "f1") false (fields 0 none) uploaded staged upload
      upload_run Holds-run refl fresh_path finalize_run

nothing_yet : Holds checkpoint (or_default (started.files upload.path) []) []
unfolding or_default
nothing_yet = record {
  apart = tt;
  short = omega arith;
  filled = λ k covered. absurd (cc);
  agrees = λ k covered. absurd (cc);
}

slice : (k : ℕ) → k < 2 → get_elem? (7 ∷ 6 ∷ []) k ≡ get_elem? checkpoint (2 + k)
slice zero h = refl
slice (suc zero) h = refl
slice (suc (suc k)) h = absurd (omega arith)

receive_chunk-Uploading_example :
    Uploading checkpoint
      (codes "v1:full")
      (receive_chunk (codes "v1:full") (record upload { ranges = [] }) 2 (7 ∷ 6 ∷ []) started)
receive_chunk-Uploading_example =
    receive_chunk-Uploading checkpoint (codes "v1:full") (record upload { ranges = [] }) 2
      (7 ∷ 6 ∷ []) started nothing_yet (omega arith, slice)

commit-Committed_example :
    (version : Name) × ((fields 0 none).version ≡ some version) × Committed version committed
commit-Committed_example = commit-Committed (fields 0 none) true false staged committed commit_run

-- The call of the workers fails.
commit_fails_run :
    commit_weights false false (fields 0 none) staged
    ≡ (err engine_failed, record staged { weights_dirty = true; weights = unknown })
unfolding insert_sorted pair_le sort merge_loop merge_sorted merge_received_range is_whole is_empty
    upload_complete overwrite write_behind write_at current_version set_file is_file remove_staged
    cleanup_staged_file or_default or_text or_refuse parse_non_negative_int validate_base
    validate_stage_metadata safe_char safe_path_component replace_entry register_staged_version
    move_file receive_chunk same_upload finish_upload check_sha256 find_or_start stage_chunk
    stage_finalize run pure refuse lift gets modify require ◌>>=◌ stage_source stage_weights
    mode_agrees commit_target start_update prepare_commit updated_weights update_workers drop_one
    drop_others finish_commit commit_weights pending_commit
commit_fails_run = refl

commit-Refused_example :
    Refused
      (fields 0 none)
      false
      false
      engine_failed
      staged
      (record staged { weights_dirty = true; weights = unknown })
commit-Refused_example =
    commit-Refused (fields 0 none) false false staged
      (record staged { weights_dirty = true; weights = unknown }) commit_fails_run

commit_dirty_example :
    (resume (record started { weights_dirty = true })
      ≡ (err needs_reload, record started { weights_dirty = true }))
    × (e : Refusal) × (commit_weights true false
          (fields 0 none)
          (record started { weights_dirty = true })
        ≡ (err e, record started { weights_dirty = true }))
commit_dirty_example =
    commit_dirty (record started { weights_dirty = true }) true false (fields 0 none) refl

merge_received_range-covers_example :
    ApartFrom 0 (merge_received_range ((0, 2) ∷ (6, 8) ∷ []) 1 6)
    × ((b : ℕ)
        → covers (merge_received_range ((0, 2) ∷ (6, 8) ∷ []) 1 6) b
          ≡ (covers ((0, 2) ∷ (6, 8) ∷ []) b || within b (1, 6)))
merge_received_range-covers_example =
    merge_received_range-covers ((0, 2) ∷ (6, 8) ∷ []) 1 6 (omega arith)

upload_complete-covers_example :
    (upload_complete ((0, 4) ∷ []) 4 ≡ true) ↔ ((b : ℕ) → covers ((0, 4) ∷ []) b ≡ ltb b 4)
upload_complete-covers_example = upload_complete-covers ((0, 4) ∷ []) 4 (omega arith)

run-Keeps_example : Keeps (Kept (core started)) (run host (chunk_at 2 (7 ∷ 6 ∷ [])))
run-Keeps_example = run-Keeps (core started) host (chunk_at 2 (7 ∷ 6 ∷ []))

on_host :
    {s t u : State} {p q r : Pending} → Reach host s p t q → Step host t q u r → Reach host s p u r
on_host reached step = next reached step

commit-Reach :
    (s t : State) (asked : Fields) (prepared : Name × Entry × Bool)
    → Reach host s idle t idle
    → (prepare_commit asked t).0 ≡ ok prepared
    → Reach host s idle (finish_commit true false prepared (prepare_commit asked t).1).1 idle
unfolding pending_commit
commit-Reach s t asked prepared reached e =
    on_host
      (subst (λ r. Reach host s idle (prepare_commit asked t).1 (pending_commit r)) e
        (on_host reached (commit_starts t asked)))
      (commit_ends (prepare_commit asked t).1 prepared true false)

prepare_run : (prepare_commit (fields 0 none) staged).0 ≡ ok (codes "v1", entry, true)
unfolding insert_sorted pair_le sort merge_loop merge_sorted merge_received_range is_whole is_empty
    upload_complete overwrite write_behind write_at current_version set_file is_file remove_staged
    cleanup_staged_file or_default or_text or_refuse parse_non_negative_int validate_base
    validate_stage_metadata safe_char safe_path_component replace_entry register_staged_version
    move_file receive_chunk same_upload finish_upload check_sha256 find_or_start stage_chunk
    stage_finalize run pure refuse lift gets modify require ◌>>=◌ stage_source stage_weights
    mode_agrees commit_target start_update prepare_commit updated_weights update_workers drop_one
    drop_others finish_commit commit_weights pending_commit
prepare_run = refl

delta_prepare_run :
    (prepare_commit (delta_fields (codes "v1")) delta_staged).0 ≡ ok (codes "v2", delta_entry, true)
unfolding insert_sorted pair_le sort merge_loop merge_sorted merge_received_range is_whole is_empty
    upload_complete overwrite write_behind write_at current_version set_file is_file remove_staged
    cleanup_staged_file or_default or_text or_refuse parse_non_negative_int validate_base
    validate_stage_metadata safe_char safe_path_component replace_entry register_staged_version
    move_file receive_chunk same_upload finish_upload check_sha256 find_or_start stage_chunk
    stage_finalize run pure refuse lift gets modify require ◌>>=◌ stage_source stage_weights
    mode_agrees commit_target start_update prepare_commit updated_weights update_workers drop_one
    drop_others finish_commit commit_weights pending_commit
delta_prepare_run = refl

reached_staged : Reach host started idle staged idle
reached_staged =
    on_host
      (on_host (on_host here (request started idle (chunk_at 2 (7 ∷ 6 ∷ [])) (λ _. refl)))
        (request uploading idle (chunk_at 0 (9 ∷ 8 ∷ [])) (λ _. refl)))
      (request uploaded idle (finalize (codes "f1") false (fields 0 none)) (λ _. refl))

reached : Reach host started idle delta_committed idle
reached =
    commit-Reach started delta_staged (delta_fields (codes "v1")) (codes "v2", delta_entry, true)
      (on_host
        (commit-Reach started staged (fields 0 none) (codes "v1", entry, true) reached_staged
          prepare_run)
        (request committed idle (stage (codes "f2") false (delta_fields (codes "v1"))) (λ _. refl)))
      delta_prepare_run

Reach-Serves_example :
    Serves (record_steps [] reached) delta_committed.weights delta_committed.active_version
Reach-Serves_example = Reach-Serves {h = host} [] fresh reached clean_run
