-- ===== src/Staging/Handlers/Content.antt =====
-- From the chunks of a content to the staged file.
use aurora_rl.Base.{
  ℕ, ◌+◌, ◌≡◌, refl, sym, ◌∙◌, ap, Bool, true, false, ◌&&◌, Option, none, some, List, [], length,
  if◌then◌else◌, Result, ok, err, Bool-cases, inl, inr, subst, arith,
}
use aurora_rl.Base.Names.{Name, codes, same_name, same_name_refl}
use aurora_rl.Base.Dict.{lookup, insert, erase, lookup-insert_self}
use aurora_rl.Base.Exec.{
  pure, refuse, modify, ◌>>=◌, ◌>>◌, on_bind, on_lift, on_gets, on_require, require-ok,
}
use aurora_rl.Staging.Ranges.{upload_complete, merge_received_range}
use aurora_rl.Staging.Files.Content.{Holds, IsSlice, write_at-Holds, complete-content}
use aurora_rl.Base.Int.{pos}
use aurora_rl.Staging.State.{
  sha256_mismatch, State, Entry, Upload, FilePath, Refusal, same_path, set_file, is_file,
  remove_staged, cleanup_staged_file, cleanup_stage_upload,
}
use aurora_rl.Staging.Requests.{
  Host, Fields, number, or_default, or_refuse-some, parse_non_negative_int, validate_stage_metadata,
  staging_path, stage_upload_key,
}
use aurora_rl.Staging.Uploads.{
  replace_entry, register_staged_version, move_file, receive_chunk, finish_upload, check_sha256,
}
use aurora_rl.Staging.Handlers.{stage_finalize}

same_path_refl : (p : FilePath) → same_path p p ≡ true
same_path_refl p = rw (same_name_refl p.parent, same_name_refl p.file_name) refl

-- An upload that is under way, with a file that agrees with a content as far as it came in.
abbrev pub Uploading : List ℕ → Name → State → Type 0
Uploading whole key s =
    (upload : Upload) × (lookup key s.stage_uploads ≡ some upload)
    × Holds whole (or_default (s.files upload.path) []) upload.ranges

-- Receiving a slice of a content keeps an upload whose file agrees with the content where bytes have
-- come in so, under its key.
pub receive_chunk-Uploading :
    (whole : List ℕ) (key : Name) (upload : Upload) (offset : ℕ) (chunk : List ℕ) (s : State)
    → Holds whole (or_default (s.files upload.path) []) upload.ranges
    → IsSlice whole offset chunk
    → Uploading whole key (receive_chunk key upload offset chunk s)
unfolding receive_chunk set_file or_default
receive_chunk-Uploading whole key upload offset chunk s h slice = (
  record upload {
    ranges = merge_received_range upload.ranges offset (offset + length chunk);
    chunks = upload.chunks + 1;
  },
  lookup-insert_self key _ s.stage_uploads,
  rw (same_path_refl upload.path, or_default)
      (write_at-Holds whole _ upload.ranges offset chunk h slice),
)

module _ (version : Name) (entry : Entry) (s : State) where
  kept_file :
      (previous : Entry) (content : List ℕ)
      → same_path previous.path entry.path ≡ false
      → s.files entry.path ≡ some content
      → (cleanup_staged_file previous s).files entry.path ≡ some content
  unfolding cleanup_staged_file remove_staged set_file
  kept_file previous content apart there = elim (Bool-cases previous.owned) [
    | inl owned ↦
        elim (Bool-cases
          (is_file s previous.path && same_name previous.path.parent s.staging_dir)) [
            | inl mine ↦ rw owned (rw mine (rw apart there))
            | inr other ↦ rw owned (rw other there)
          ]
    | inr other ↦ rw other there
  ]

  replace_entry-staged :
      (content : List ℕ)
      → s.files entry.path ≡ some content
      → (lookup version (replace_entry version entry s).staged_versions ≡ some entry)
        × ((replace_entry version entry s).files entry.path ≡ some content)
  unfolding replace_entry
  replace_entry-staged content there = by_previous (lookup version s.staged_versions)
    where
      by_previous :
          (found : Option Entry)
          → (lookup version (insert version entry s.staged_versions) ≡ some entry)
            × ((let cleaned : State = elim found [
              | none ↦ s
              | some previous ↦
                  if same_path previous.path entry.path then s else cleanup_staged_file previous s
            ] in
                  cleaned.files entry.path)
                ≡ some content)
      by_previous none = (lookup-insert_self version entry s.staged_versions, there)
      by_previous (some previous) = (
        lookup-insert_self version entry s.staged_versions,
        elim (Bool-cases (same_path previous.path entry.path)) [
          | inl same ↦ rw same there
          | inr other ↦ rw other (kept_file previous content other there)
        ],
      )

  -- A version that is registered is staged, with its file as it was.
  register_staged_version-staged :
      (s' : State) (content : List ℕ) {u : Unit {0}}
      → s.files entry.path ≡ some content
      → register_staged_version version entry s ≡ (ok u, s')
      → (lookup version s'.staged_versions ≡ some entry) × (s'.files entry.path ≡ some content)
  unfolding register_staged_version
  register_staged_version-staged s' content there h =
      validated (validate_stage_metadata s (some version) (some entry.mode) entry.base_version) h
    where
      validated :
          (r : Result Refusal (Name × Name × Option Name))
          → (let outcome : Result Refusal (Unit {0}) × State = elim r [
            | err e ↦ (err e, cleanup_staged_file entry s)
            | ok metadata ↦ (ok tt, replace_entry version entry s)
          ] in
              outcome ≡ (ok tt, s'))
          → (lookup version s'.staged_versions ≡ some entry) × (s'.files entry.path ≡ some content)
      validated (ok metadata) h =
          subst
            (λ t.
              (lookup version t.staged_versions ≡ some entry) × (t.files entry.path ≡ some content))
            (ap (λ r. r.1) h) (replace_entry-staged content there)
      validated (err e) h = absurd (ground arith)

-- A version that is staged, with this content in its file.
abbrev pub Staged : Name → List ℕ → State → Type 0
Staged version content s =
    (entry : Entry) × (lookup version s.staged_versions ≡ some entry)
    × (s.files entry.path ≡ some content)

finish_upload-Staged :
    (key : Name) (upload : Upload) (staged_path : FilePath) (content : List ℕ) (version mode : Name)
    (base_version : Option Name) (failed : Bool) (s s' : State) {u : Unit {0}}
    → same_path upload.path staged_path ≡ false
    → finish_upload key upload staged_path content version mode base_version failed s ≡ (ok u, s')
    → Staged version content s'
unfolding finish_upload
finish_upload-Staged key upload staged_path content version mode base_version failed s s' apart h =
    on_bind _ _ _ _ _ h λ _ moved move h1. on_bind _ _ _ _ _ h1 λ _ registered register passed.
      let (at, content_there) =
        register_staged_version-staged version staged_entry moved s' content (there moved move) (
          subst (λ t. register_staged_version version staged_entry moved ≡ (ok tt, t))
            (require-ok _ _ _ _ passed).1 register) in
      (staged_entry, at, content_there)
  where
    staged_entry : Entry
    staged_entry = record {
      path = staged_path;
      mode = mode;
      base_version = base_version;
      owned = true;
    }

    there :
        (moved : State)
        → modify {E = Refusal}
            (λ s.
              let moved = move_file upload.path staged_path content s in
              record moved { stage_uploads = erase key s.stage_uploads })
            s
          ≡ (ok tt, moved)
        → moved.files staged_path ≡ some content
    there moved move =
        unfold modify move_file set_file in
        subst (λ t. t.files staged_path ≡ some content) (ap (λ r. r.1) move)
          (rw (apart, same_path_refl staged_path) refl)

validate-metadata :
    (s : State) (version mode base_version : Option Name) (metadata : Name × Name × Option Name)
    → validate_stage_metadata s version mode base_version ≡ ok metadata
    → metadata
      ≡ (or_default version (codes "unknown"), or_default mode (codes "full"), base_version)
unfolding validate_stage_metadata
validate-metadata s version mode base_version metadata accepted = ground arith

check_sha256-ok :
    (h : Host) (key : Name) (upload : Upload) (expected : Name) (content : List ℕ) (s t : State)
    {u : Unit {0}}
    → check_sha256 h key upload (some expected) content s ≡ (ok u, t)
    → (same_name (h.sha256_of content) expected ≡ true) × (s ≡ t)
unfolding check_sha256
check_sha256-ok h key upload expected content s t accepted =
    elim (Bool-cases (same_name (h.sha256_of content) expected)) [
      | inl same ↦ (same, passed (rw same at accepted))
      | inr other ↦ absurd (let refused = rw other at accepted in stopped refused)
    ]
  where
    passed : pure {E = Refusal} tt s ≡ (ok tt, t) → s ≡ t
    passed e = unfold pure in ap (λ r. r.1) e

    stopped :
        (modify {E = Refusal} (λ s.
                let cleaned = cleanup_stage_upload upload.path s in
                record cleaned { stage_uploads = erase key s.stage_uploads })
              >> refuse sha256_mismatch)
            s
          ≡ (ok tt, t)
        → ⊥
    stopped e = unfold ◌>>=◌ modify refuse in ground arith

module _ (whole : List ℕ) (h : Host) (fresh : Name) (failed : Bool) (fields : Fields) (s s' : State)
    (upload : Upload) where
  -- A chunked upload whose file agrees with a content where bytes have come in, with that content's
  -- size in the request and a path that differs from each new staged path: if the request that ends it
  -- is answered, then the version is staged, with a file of the whole content, whose hash is the one
  -- that the request gives.
  pub stage_finalize-whole :
      {u : Unit {0}}
      → lookup
          (stage_upload_key
            (or_default fields.version (codes "unknown"))
            (or_default fields.mode (codes "full")))
          s.stage_uploads
        ≡ some upload
      → Holds whole (or_default (s.files upload.path) []) upload.ranges
      → fields.total_size ≡ number (pos (length whole))
      → ((filename : Name)
          → same_path upload.path
              (staging_path s fresh (or_default fields.mode (codes "full")) filename [])
            ≡ false)
      → stage_finalize h fresh failed fields s ≡ (ok u, s')
      → Staged (or_default fields.version (codes "unknown")) whole s'
        × (expected : Name) × (fields.sha256 ≡ some expected)
        × (same_name (h.sha256_of whole) expected ≡ true)
  unfolding stage_finalize
  stage_finalize-whole under holds size new h0 =
      on_lift _ _ _ _ _ (on_gets _ _ _ _ _ h0) λ metadata valid h1.
        on_lift _ _ _ _ _ h1 λ total_size total h2. on_lift _ _ _ _ _ h2 λ expected hash h3.
          on_lift _ _ _ _ _ h3 λ found at h4. on_lift _ _ _ _ _ h4 λ _ same h5.
            on_require _ _ _ _ _ _ h5 λ complete h6. on_lift _ _ _ _ _ h6 λ content file h7.
              on_bind _ _ _ _ _ h7 λ _ checked check h8.
                let meta =
                  validate-metadata s fields.version fields.mode fields.base_version metadata
                    valid in
                let own : found ≡ upload =
                  found_upload metadata found meta (or_refuse-some _ _ found at) in
                let as_whole : content ≡ whole =
                  whole_content found content own (or_refuse-some _ _ content file)
                    (rw (← total_whole total_size total) complete) in
                let staged =
                  finish_upload-Staged _ found _ content metadata.0 metadata.1 metadata.2 failed
                    checked s' (rw (own, meta) (new _)) h8 in
                (
                  subst (λ v. Staged v whole s') (ap (λ m. m.0) meta)
                      (subst (λ c. Staged metadata.0 c s') as_whole staged),
                  expected,
                  or_refuse-some _ _ expected hash,
                  rw (← as_whole) (check_sha256-ok h _ found expected content s checked check).0,
                )
    where
      total_whole : (n : ℕ) → parse_non_negative_int fields.total_size ≡ ok n → n ≡ length whole
      total_whole n e = unfold parse_non_negative_int in let given = rw size at e in ground arith

      found_upload :
          (metadata : Name × Name × Option Name) (found : Upload)
          → metadata ≡ (
            or_default fields.version (codes "unknown"),
            or_default fields.mode (codes "full"),
            fields.base_version,
          )
          → lookup (stage_upload_key metadata.0 metadata.1) s.stage_uploads ≡ some found
          → found ≡ upload
      found_upload metadata found meta looked =
          let e = rw meta at looked in let same : some found ≡ some upload = sym e ∙ under in cc

      whole_content :
          (found : Upload) (content : List ℕ)
          → found ≡ upload
          → s.files found.path ≡ some content
          → upload_complete found.ranges (length whole) ≡ true
          → content ≡ whole
      whole_content found content own file complete =
          let agrees : Holds whole (or_default (s.files found.path) []) found.ranges =
            rw own holds in
          complete-content whole content found.ranges
            (let given = rw file at agrees in unfold or_default in given) complete
