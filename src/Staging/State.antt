-- ===== src/Staging/State.antt =====
-- The state that server.py keeps for staging (`_ensure_weight_staging_state`), the files that it
-- writes, and what the workers hold.
pub mod Core
use aurora_rl.Base.{ℕ, Bool, true, false, ◌&&◌, Option, none, some, List, [], ◌∷◌, if◌then◌else◌}
use aurora_rl.Base.Names.{Name, codes, same_name}
use aurora_rl.Staging.Ranges.{Range}

pub record FilePath : Type 0 where
  pub parent : Name
  pub file_name : Name

abbrev pub same_path : FilePath → FilePath → Bool
same_path p q = same_name p.parent q.parent && same_name p.file_name q.file_name

pub record Entry : Type 0 where
  pub path : FilePath
  pub mode : Name
  pub base_version : Option Name
  pub owned : Bool

-- Chunked uploads have a total size and a hash, streaming ones a version and a path to move to.
pub record Upload : Type 0 where
  pub path : FilePath
  pub staged_path : Option FilePath
  pub filename : Name
  pub mode : Name
  pub version : Option Name
  pub base_version : Option Name
  pub total_size : Option ℕ
  pub sha256 : Option Name
  pub ranges : List Range
  pub chunks : ℕ

-- The weights of the workers, by how they came about: a failed call leaves them unknown.
pub data Weights : Type 0 where
  base unknown : Weights
  full : FilePath → Weights
  delta : Weights → FilePath → Weights

pub record State : Type 0 where
  pub staged_versions : List (Name × Entry)
  pub stage_uploads : List (Name × Upload)
  pub active_version : Option Name
  pub weights_dirty : Bool
  pub staging_dir : Name
  pub api_server_count : ℕ
  pub files : FilePath → Option (List ℕ)
  pub is_directory : FilePath → Bool
  pub weights : Weights

-- One constructor for each answer of `_error_response`, by its status and message, and two for
-- exceptions that a handler does not catch.
pub data Refusal : Type 0 where
  unsupported_mode several_api_servers needs_reload base_version_required base_version_mismatch :
      Refusal
  same_version no_file staged_path_missing upload_not_found metadata_mismatch upload_incomplete :
      Refusal
  size_mismatch sha256_mismatch sha256_required filename_required upload_id_required : Refusal
  field_required not_an_integer negative_number chunk_required chunk_too_long : Refusal
  version_required not_staged staged_mode_mismatch relay_failed : Refusal
  engine_failed missing_key file_missing : Refusal

-- `active_version or "0"`: an empty text counts as none.
unfoldable pub current_version : Option Name → Name
current_version none = codes "0"
current_version (some []) = codes "0"
current_version (some (c ∷ version)) = c ∷ version

unfoldable pub set_file : FilePath → Option (List ℕ) → State → State
set_file p content s = record s { files = λ q. if same_path p q then content else s.files q }

unfoldable pub is_file : State → FilePath → Bool
is_file s p = elim (s.files p) [ none ↦ false | some content ↦ true ]

-- `path.is_file() and path.parent == staging_dir`, then `path.unlink()`
unfoldable pub remove_staged : FilePath → State → State
unfolding is_file set_file
remove_staged p s = if is_file s p && same_name p.parent s.staging_dir then set_file p none s else s

unfoldable pub cleanup_staged_file : Entry → State → State
unfolding remove_staged
cleanup_staged_file entry s = if entry.owned then remove_staged entry.path s else s

unfoldable pub cleanup_stage_upload : FilePath → State → State
unfolding remove_staged
cleanup_stage_upload path s = remove_staged path s
