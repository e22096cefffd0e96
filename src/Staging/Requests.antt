-- ===== src/Staging/Requests.antt =====
-- What a request brings (`_read_request_fields`), read the way the handlers read it, and
-- `_validate_stage_metadata`.
use aurora_rl.Base.{
  ℕ, ◌≡◌, Bool, true, false, ◌||◌, not, Option, none, some, List, [], ◌∷◌, ◌++◌, map, ◌==◌,
  if◌then◌else◌, Result, ok, err,
}
use aurora_rl.Base.Results
use aurora_rl.Base.Int.{ℤ, pos, negsuc}
use aurora_rl.Base.Names.{Name, codes, same_name}
use aurora_rl.Staging.State.{
  State, FilePath, Refusal, current_version, unsupported_mode, several_api_servers, needs_reload,
  base_version_required, base_version_mismatch, same_version, field_required, not_an_integer,
  negative_number,
}

-- Characters, paths and hashes, which Python's library knows about.
pub record Host : Type 0 where
  pub is_alnum : ℕ → Bool
  pub path_name : Name → Name
  pub expand : Name → FilePath
  pub sha256_of : List ℕ → Name

-- A field that is read as a number: `None`, a text that is no integer, or an integer.
pub data IntField : Type 0 where
  missing malformed : IntField
  number : ℤ → IntField

pub record UploadedFile : Type 0 where
  pub filename : Option Name
  pub content : List ℕ

-- What `_read_request_fields` reads.
pub record Fields : Type 0 where
  pub version : Option Name
  pub mode : Option Name
  pub base_version : Option Name
  pub filename : Option Name
  pub path : Option Name
  pub upload_id : Option Name
  pub sha256 : Option Name
  pub offset : IntField
  pub total_size : IntField
  pub final_size : IntField
  pub file : Option UploadedFile

unfoldable pub or_default {ℓ} : {A : Type ℓ} → Option A → A → A
or_default none d = d
or_default (some a) d = a

-- `x or y` on texts: an empty one counts as none.
unfoldable pub or_text : Option Name → Name → Name
or_text none d = d
or_text (some []) d = d
or_text (some (c ∷ t)) d = c ∷ t

unfoldable pub or_refuse {ℓ} : {A : Type ℓ} → Option A → Refusal → Result Refusal A
or_refuse none e = err e
or_refuse (some a) e = ok a

pub or_refuse-some :
    {A : Type 0} (found : Option A) (e : Refusal) (a : A)
    → or_refuse found e ≡ ok a
    → found ≡ some a
unfolding or_refuse
or_refuse-some none e a h = cc
or_refuse-some (some b) e a h = cc

unfoldable pub parse_non_negative_int : IntField → Result Refusal ℕ
parse_non_negative_int missing = err field_required
parse_non_negative_int malformed = err not_an_integer
parse_non_negative_int (number (pos n)) = ok n
parse_non_negative_int (number (negsuc n)) = err negative_number

abbrev pub is_delta : Name → Bool
is_delta mode = same_name mode (codes "delta")

unfoldable pub validate_base : State → Name → Option Name → Result Refusal (Unit {0})
validate_base s version none = err base_version_required
validate_base s version (some base_version) =
    if not (same_name base_version (current_version s.active_version))
    then err base_version_mismatch
    else if same_name version base_version
    then err same_version
    else ok tt

unfoldable pub validate_stage_metadata :
    State → Option Name → Option Name → Option Name → Result Refusal (Name × Name × Option Name)
unfolding validate_base or_default
validate_stage_metadata s version_field mode_field base_version =
    let version = or_default version_field (codes "unknown") in
    let mode = or_default mode_field (codes "full") in
    let accepted = ok (version, mode, base_version) in
    if not (is_delta mode || same_name mode (codes "full"))
    then err unsupported_mode
    else if not (s.api_server_count == 1)
    then err several_api_servers
    else if is_delta mode
    then (if s.weights_dirty
        then err needs_reload
        else Results.◌>>◌ (validate_base s version base_version) accepted)
    else accepted

unfoldable pub safe_char : Host → ℕ → ℕ
safe_char h c = if h.is_alnum c || c == b'.' || c == b'_' || c == b'-' then c else b'_'

unfoldable pub safe_path_component : Host → Name → Name
unfolding or_text safe_char
safe_path_component h value = or_text (some (map (safe_char h) value)) (codes "unknown")

abbrev pub suffix : Name → Name
suffix mode = if is_delta mode then codes "delta" else codes "full"

-- `staging_dir / f"{front}_{suffix}_{filename}{end}"`
abbrev pub staging_path : State → Name → Name → Name → Name → FilePath
staging_path s front mode filename end = record {
  parent = s.staging_dir;
  file_name = front ++ codes "_" ++ suffix mode ++ codes "_" ++ filename ++ end;
}

abbrev pub stage_upload_key : Name → Name → Name
stage_upload_key version mode = version ++ codes ":" ++ mode

abbrev pub stage_stream_upload_key : Name → Name
stage_stream_upload_key upload_id = codes "stream:" ++ upload_id

abbrev pub same_version_text : Option Name → Option Name → Bool
same_version_text none none = true
same_version_text (some v) (some w) = same_name v w
same_version_text _ _ = false
