-- ===== src/Staging/Uploads.antt =====
-- Uploads in progress and `_register_staged_version`.
use aurora_rl.Base.{
  ℕ, ◌+◌, Bool, true, false, not, Option, none, some, List, [], length, ◌==◌, if◌then◌else◌, Result,
  ok, err, check,
}
use aurora_rl.Base.Results
use aurora_rl.Base.Names.{Name, codes, same_name}
use aurora_rl.Base.Dict.{lookup, insert, erase}
use aurora_rl.Base.Exec.{Exec, pure, refuse, modify, require, ◌>>◌}
use aurora_rl.Staging.Ranges.{merge_received_range}
use aurora_rl.Staging.Files.{write_at}
use aurora_rl.Staging.State.{
  State, Entry, Upload, FilePath, Refusal, same_path, set_file, cleanup_staged_file,
  cleanup_stage_upload, metadata_mismatch, sha256_mismatch, relay_failed, missing_key,
}
use aurora_rl.Staging.Requests.{
  Host, or_default, or_refuse, validate_stage_metadata, safe_path_component, staging_path,
  same_version_text,
}

-- A previous entry gives its file up, unless it is the same file.
unfoldable pub replace_entry : Name → Entry → State → State
unfolding cleanup_staged_file
replace_entry version entry s =
    let cleaned : State = elim (lookup version s.staged_versions) [
      | none ↦ s
      | some previous ↦
          if same_path previous.path entry.path then s else cleanup_staged_file previous s
    ] in
    record cleaned { staged_versions = insert version entry s.staged_versions }

unfoldable pub register_staged_version : Name → Entry → Exec State Refusal (Unit {0})
unfolding replace_entry
register_staged_version version entry s =
    elim (validate_stage_metadata s (some version) (some entry.mode) entry.base_version) [
      | err e ↦ (err e, cleanup_staged_file entry s)
      | ok metadata ↦ (ok tt, replace_entry version entry s)
    ]

abbrev pub Action : Type 0 → Type 0
Action A = Exec State Refusal A

unfoldable pub move_file : FilePath → FilePath → List ℕ → State → State
unfolding set_file
move_file temp_path staged_path content s =
    set_file temp_path none (set_file staged_path (some content) s)

-- The chunk in the file, and its range in the upload, which stays under its key.
unfoldable pub receive_chunk : Name → Upload → ℕ → List ℕ → State → State
unfolding set_file
receive_chunk key upload offset chunk s =
    let content = or_default (s.files upload.path) [] in
    let received = record upload {
      ranges = merge_received_range upload.ranges offset (offset + length chunk);
      chunks = upload.chunks + 1;
    } in
    let written = set_file upload.path (some (write_at content offset chunk)) s in
    record written { stage_uploads = insert key received s.stage_uploads }

-- The comparison with the active upload, from left to right.
unfoldable pub same_upload : Upload → Name → ℕ → Name → Option Name → Result Refusal (Unit {0})
same_upload upload filename total_size sha256 base_version =
    Results.◌>>◌ (check (same_name upload.filename filename) metadata_mismatch) (
      Results.◌>>=◌ (or_refuse upload.total_size missing_key) λ size.
        Results.◌>>◌ (check (size == total_size) metadata_mismatch) (
          Results.◌>>=◌ (or_refuse upload.sha256 missing_key) λ hash.
            Results.◌>>◌ (check (same_name hash sha256) metadata_mismatch)
              (check (same_version_text upload.base_version base_version) metadata_mismatch)))

unfoldable pub stop_on_failure : Bool → FilePath → Action (Unit {0})
stop_on_failure false temp_path = pure tt
stop_on_failure true temp_path = do modify (cleanup_stage_upload temp_path); refuse relay_failed

-- The file moves to its staged path, the upload ends, and the version is registered.
unfoldable pub finish_upload :
    Name → Upload → FilePath → List ℕ → Name → Name → Option Name → Bool → Action (Unit {0})
finish_upload key upload staged_path content version mode base_version fan_out_failed = do
  modify (λ s.
      let moved = move_file upload.path staged_path content s in
      record moved { stage_uploads = erase key s.stage_uploads })
  register_staged_version version
      (record { path = staged_path; mode = mode; base_version = base_version; owned = true })
  require (not fan_out_failed) relay_failed

module _ (h : Host) where
  -- A hash that differs ends the upload.
  unfoldable pub check_sha256 : Name → Upload → Option Name → List ℕ → Action (Unit {0})
  check_sha256 key upload none content = pure tt
  check_sha256 key upload (some expected) content =
      if same_name (h.sha256_of content) expected then pure tt else (do
        modify (λ s.
            let cleaned = cleanup_stage_upload upload.path s in
            record cleaned { stage_uploads = erase key s.stage_uploads })
        refuse sha256_mismatch)

  unfoldable pub find_or_start :
      State → Name → Name → Name → Option Name → Name → ℕ → Name → Result Refusal Upload
  find_or_start s key version mode base_version filename total_size sha256 =
      elim (lookup key s.stage_uploads) [
        | none ↦ ok (record {
          path = staging_path s (safe_path_component h version) mode filename (codes ".part");
          staged_path = none;
          filename = filename;
          mode = mode;
          version = none;
          base_version = base_version;
          total_size = some total_size;
          sha256 = some sha256;
          ranges = [];
          chunks = 0;
        })
        | some upload ↦
            Results.◌>>◌ (same_upload upload filename total_size sha256 base_version) (ok upload)
      ]
