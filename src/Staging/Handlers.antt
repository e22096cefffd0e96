-- ===== src/Staging/Handlers.antt =====
-- The handlers that receive weights: `/stage`, the chunked upload and the streaming upload. Whether
-- the fan-out to the peers makes `_relay_failure_response` refuse is an argument, and so are the
-- names that `uuid4` gives.
pub mod Content
use aurora_rl.Base.{
  ℕ, ◌+◌, Bool, true, false, ◌||◌, not, Option, none, some, List, [], length, leb, ◌==◌,
}
use aurora_rl.Base.Names.{Name, codes}
use aurora_rl.Base.Dict.{lookup, insert}
use aurora_rl.Base.Exec.{pure, refuse, lift, gets, modify, require, ◌>>=◌, ◌>>◌}
use aurora_rl.Staging.Ranges.{upload_complete}
use aurora_rl.Staging.State.{
  FilePath, set_file, is_file, no_file, staged_path_missing, upload_not_found, upload_incomplete,
  size_mismatch, sha256_required, filename_required, upload_id_required, chunk_required,
  chunk_too_long, relay_failed, missing_key, file_missing,
}
use aurora_rl.Staging.Requests.{
  Host, Fields, UploadedFile, or_text, or_refuse, parse_non_negative_int, validate_stage_metadata,
  safe_path_component, staging_path, stage_upload_key, stage_stream_upload_key,
}
use aurora_rl.Staging.Uploads.{
  Action, register_staged_version, receive_chunk, same_upload, stop_on_failure, finish_upload,
  check_sha256, find_or_start,
}

unfoldable pub stage_stream_chunk : Bool → Fields → List ℕ → Action (Unit {0})
stage_stream_chunk fan_out_failed fields chunk = do
  upload_id ← lift (or_refuse fields.upload_id upload_id_required)
  offset ← lift (parse_non_negative_int fields.offset)
  s ← gets (λ s. s)
  let key = stage_stream_upload_key upload_id
  upload ← lift (or_refuse (lookup key s.stage_uploads) upload_not_found)
  require (not (length chunk == 0)) chunk_required
  modify (receive_chunk key upload offset chunk)
  require (not fan_out_failed) relay_failed

module _ (h : Host) where
  unfoldable pub stage_source :
      Name → Name → Option UploadedFile → Option Name → Action (FilePath × Bool)
  stage_source fresh mode (some uploaded) path = do
    s ← gets (λ s. s)
    let filename = safe_path_component h (h.path_name (or_text uploaded.filename (codes "weights")))
    let staged_path = staging_path s fresh mode filename []
    modify (set_file staged_path (some uploaded.content))
    pure (staged_path, true)
  stage_source fresh mode none none = refuse no_file
  stage_source fresh mode none (some path) = do
    s ← gets (λ s. s)
    let staged_path = h.expand path
    require (is_file s staged_path || s.is_directory staged_path) staged_path_missing
    pure (staged_path, false)

  unfoldable pub stage_weights : Name → Bool → Fields → Action (Unit {0})
  stage_weights fresh fan_out_failed fields = do
    s ← gets (λ s. s)
    (version, mode, base_version) ←
        lift (validate_stage_metadata s fields.version fields.mode fields.base_version)
    (staged_path, owned) ← stage_source fresh mode fields.file fields.path
    register_staged_version version
        (record { path = staged_path; mode = mode; base_version = base_version; owned = owned })
    require (not fan_out_failed) relay_failed

  unfoldable pub stage_stream_init : Name → Bool → Fields → Action Name
  stage_stream_init upload_id fan_out_failed fields = do
    s ← gets (λ s. s)
    (version, mode, base_version) ←
        lift (validate_stage_metadata s fields.version fields.mode fields.base_version)
    given ← lift (or_refuse fields.filename filename_required)
    let filename = safe_path_component h (h.path_name given)
    let temp_path = staging_path s upload_id mode filename (codes ".stream.part")
    let staged_path = staging_path s upload_id mode filename []
    modify (set_file temp_path (some []))
    stop_on_failure fan_out_failed temp_path
    modify (λ s. record s {
      stage_uploads =
          insert (stage_stream_upload_key upload_id)
            (record {
              path = temp_path;
              staged_path = some staged_path;
              filename = filename;
              mode = mode;
              version = some version;
              base_version = base_version;
              total_size = none;
              sha256 = none;
              ranges = [];
              chunks = 0;
            })
            s.stage_uploads;
    })
    pure upload_id

  unfoldable pub stage_stream_finalize : Bool → Fields → Action (Unit {0})
  stage_stream_finalize fan_out_failed fields = do
    upload_id ← lift (or_refuse fields.upload_id upload_id_required)
    final_size ← lift (parse_non_negative_int fields.final_size)
    s ← gets (λ s. s)
    let key = stage_stream_upload_key upload_id
    upload ← lift (or_refuse (lookup key s.stage_uploads) upload_not_found)
    lift (validate_stage_metadata s upload.version (some upload.mode) upload.base_version)
    require (upload_complete upload.ranges final_size) upload_incomplete
    content ← lift (or_refuse (s.files upload.path) file_missing)
    require (length content == final_size) size_mismatch
    check_sha256 h key upload fields.sha256 content
    staged_path ← lift (or_refuse upload.staged_path missing_key)
    version ← lift (or_refuse upload.version missing_key)
    finish_upload key upload staged_path content version upload.mode upload.base_version
        fan_out_failed

  unfoldable pub stage_chunk : Bool → Fields → Action (Unit {0})
  stage_chunk fan_out_failed fields = do
    s ← gets (λ s. s)
    (version, mode, base_version) ←
        lift (validate_stage_metadata s fields.version fields.mode fields.base_version)
    uploaded ← lift (or_refuse fields.file chunk_required)
    offset ← lift (parse_non_negative_int fields.offset)
    total_size ← lift (parse_non_negative_int fields.total_size)
    sha256 ← lift (or_refuse fields.sha256 sha256_required)
    let filename =
        safe_path_component h
          (h.path_name (or_text fields.filename (or_text uploaded.filename (codes "weights"))))
    require (leb (offset + length uploaded.content) total_size) chunk_too_long
    let key = stage_upload_key version mode
    upload ← lift (find_or_start h s key version mode base_version filename total_size sha256)
    modify (receive_chunk key upload offset uploaded.content)
    require (not fan_out_failed) relay_failed

  unfoldable pub stage_finalize : Name → Bool → Fields → Action (Unit {0})
  stage_finalize fresh fan_out_failed fields = do
    s ← gets (λ s. s)
    (version, mode, base_version) ←
        lift (validate_stage_metadata s fields.version fields.mode fields.base_version)
    total_size ← lift (parse_non_negative_int fields.total_size)
    sha256 ← lift (or_refuse fields.sha256 sha256_required)
    let filename = safe_path_component h (h.path_name (or_text fields.filename (codes "weights")))
    let key = stage_upload_key version mode
    upload ← lift (or_refuse (lookup key s.stage_uploads) upload_not_found)
    lift (same_upload upload filename total_size sha256 base_version)
    require (upload_complete upload.ranges total_size) upload_incomplete
    content ← lift (or_refuse (s.files upload.path) file_missing)
    check_sha256 h key upload (some sha256) content
    let staged_path = staging_path s fresh mode filename []
    finish_upload key upload staged_path content version mode base_version fan_out_failed
