-- ===== src/Staging/Steps/Core.antt =====
-- Requests that receive weights leave the weights, the active version and the dirty flag alone.
use aurora_rl.Base.{
  ℕ, ◌≡◌, refl, ◌∙◌, Bool, true, false, Option, none, some, List, [], if◌then◌else◌, Result, ok,
  err, Bool-cases, inl, inr,
}
use aurora_rl.Base.Names.{Name}
use aurora_rl.Base.Dict.{lookup}
use aurora_rl.Base.Exec.{
  modify, Keeps, Keeps-pure, Keeps-refuse, Keeps-gets, Keeps-if, Keeps-modify, Keeps-bind,
  keeps_rules,
}
use aurora_rl.Staging.State.{
  State, Entry, Upload, FilePath, Refusal, set_file, same_path, cleanup_staged_file,
}
use aurora_rl.Staging.State.Core.{
  Core, core, core-set_file, core-cleanup_staged_file, core-cleanup_stage_upload,
}
use aurora_rl.Staging.Requests.{Host, Fields, UploadedFile, validate_stage_metadata}
use aurora_rl.Staging.Uploads.{
  replace_entry, register_staged_version, move_file, receive_chunk, stop_on_failure, finish_upload,
  check_sha256,
}
use aurora_rl.Staging.Handlers.{
  stage_source, stage_weights, stage_stream_init, stage_stream_chunk, stage_stream_finalize,
  stage_chunk, stage_finalize,
}
use aurora_rl.Staging.Commit.{resume}
use aurora_rl.Staging.Steps.{
  Call, stage, init, finalize, chunk, stream_finalize, stream_chunk, resume_generation, run,
}

core-replace_entry :
    (version : Name) (entry : Entry) (s : State) → core (replace_entry version entry s) ≡ core s
unfolding replace_entry
core-replace_entry version entry s =
    elim (lookup version s.staged_versions)
      as (λ found.
        core (
          let cleaned : State = elim found [
            | none ↦ s
            | some previous ↦
                if same_path previous.path entry.path then s else cleanup_staged_file previous s
          ] in
          record cleaned { staged_versions = [] })
        ≡ core s) [
          | none ↦ refl
          | some previous ↦ elim (Bool-cases (same_path previous.path entry.path)) [
            | inl same ↦ rw same refl
            | inr other ↦ rw other (core-cleanup_staged_file previous s)
          ]
        ]

core-receive_chunk :
    (key : Name) (upload : Upload) (offset : ℕ) (content : List ℕ) (s : State)
    → core (receive_chunk key upload offset content s) ≡ core s
unfolding receive_chunk set_file
core-receive_chunk key upload offset content s = refl

core-move_file :
    (p q : FilePath) (content : List ℕ) (s : State) → core (move_file p q content s) ≡ core s
unfolding move_file set_file
core-move_file p q content s = refl

module _ (c : Core) where
  abbrev pub Kept : State → Type 0
  Kept s = core s ≡ c

  Keeps-change :
      (f : State → State)
      → ((s : State) → core (f s) ≡ core s)
      → Keeps Kept (modify {E = Refusal} f)
  Keeps-change f same = Keeps-modify f (λ s h. same s ∙ h)

  set_file-Keeps :
      (path : FilePath) (content : Option (List ℕ))
      → Keeps Kept (modify {E = Refusal} (set_file path content))
  set_file-Keeps path content = Keeps-change _ (core-set_file path content)

  receive_chunk-Keeps :
      (key : Name) (upload : Upload) (offset : ℕ) (content : List ℕ)
      → Keeps Kept (modify {E = Refusal} (receive_chunk key upload offset content))
  receive_chunk-Keeps key upload offset content =
      Keeps-change _ (core-receive_chunk key upload offset content)

  insert-Keeps :
      (uploads : State → List (Name × Upload))
      → Keeps Kept (modify {E = Refusal} (λ s. record s { stage_uploads = uploads s }))
  insert-Keeps uploads = Keeps-change _ (λ s. refl)

  register_staged_version-Keeps :
      (version : Name) (entry : Entry) → Keeps Kept (register_staged_version version entry)
  unfolding register_staged_version
  register_staged_version-Keeps version entry = record {
    at = λ s h.
        elim (validate_stage_metadata s (some version) (some entry.mode) entry.base_version)
          as (λ r.
            core (
              let outcome : Result Refusal (Unit {0}) × State = elim r [
                | err e ↦ (err e, cleanup_staged_file entry s)
                | ok metadata ↦ (ok tt, replace_entry version entry s)
              ] in
              outcome.1)
            ≡ c) [
              | err e ↦ core-cleanup_staged_file entry s ∙ h
              | ok metadata ↦ core-replace_entry version entry s ∙ h
            ];
  }

  stop_on_failure-Keeps :
      (failed : Bool) (path : FilePath) → Keeps Kept (stop_on_failure failed path)
  unfolding stop_on_failure
  stop_on_failure-Keeps false path = search (Keeps-pure)
  stop_on_failure-Keeps true path =
      Keeps-bind _ _ (Keeps-change _ (core-cleanup_stage_upload path)) (λ _. search keeps_rules)

  finish_upload-Keeps :
      (key : Name) (upload : Upload) (staged_path : FilePath) (content : List ℕ)
      (version mode : Name) (base_version : Option Name) (failed : Bool)
      → Keeps Kept (finish_upload key upload staged_path content version mode base_version failed)
  unfolding finish_upload
  finish_upload-Keeps key upload staged_path content version mode base_version failed =
      Keeps-bind _ _ (Keeps-change _ (core-move_file upload.path staged_path content))
        (λ _. search (keeps_rules, register_staged_version-Keeps))

  module _ (h : Host) where
    check_sha256-Keeps :
        (key : Name) (upload : Upload) (expected : Option Name) (content : List ℕ)
        → Keeps Kept (check_sha256 h key upload expected content)
    unfolding check_sha256
    check_sha256-Keeps key upload none content = search (keeps_rules)
    check_sha256-Keeps key upload (some expected) content = Keeps-if _ _ _ (Keeps-pure tt) (
        Keeps-bind _ _ (Keeps-change _ (core-cleanup_stage_upload upload.path))
          (λ _. Keeps-refuse _))

    stage_source-Keeps :
        (fresh mode : Name) (file : Option UploadedFile) (path : Option Name)
        → Keeps Kept (stage_source h fresh mode file path)
    unfolding stage_source
    stage_source-Keeps fresh mode (some uploaded) path = Keeps-bind _ _ (Keeps-gets _) λ s.
        Keeps-bind _ _ (Keeps-change _ (core-set_file _ (some uploaded.content))) λ _. Keeps-pure _
    stage_source-Keeps fresh mode none none = search (keeps_rules)
    stage_source-Keeps fresh mode none (some path) = search (keeps_rules)

    stage_stream_init-Keeps :
        (upload_id : Name) (failed : Bool) (fields : Fields)
        → Keeps Kept (stage_stream_init h upload_id failed fields)
    unfolding stage_stream_init
    stage_stream_init-Keeps upload_id failed fields =
        search (keeps_rules, set_file-Keeps, stop_on_failure-Keeps, insert-Keeps) depth 30

    -- Receiving weights, and the request to resume, leave what the workers hold, the active version and the dirty flag as they
    -- are, whether the request is answered or refused.
    pub run-Keeps : (call : Call) → Keeps Kept (run h call)
    unfolding run
    run-Keeps (stage fresh failed fields) =
        unfold stage_weights in
        search (keeps_rules, stage_source-Keeps, register_staged_version-Keeps) depth 30
    run-Keeps (init upload_id failed fields) = search (keeps_rules, stage_stream_init-Keeps)
    run-Keeps (finalize fresh failed fields) =
        unfold stage_finalize in
        search (keeps_rules, check_sha256-Keeps, finish_upload-Keeps) depth 40
    run-Keeps (chunk failed fields) =
        unfold stage_chunk in search (keeps_rules, receive_chunk-Keeps) depth 40
    run-Keeps (stream_finalize failed fields) =
        unfold stage_stream_finalize in
        search (keeps_rules, check_sha256-Keeps, finish_upload-Keeps) depth 40
    run-Keeps (stream_chunk failed fields content) =
        unfold stage_stream_chunk in search (keeps_rules, receive_chunk-Keeps) depth 40
    run-Keeps resume_generation = unfold resume in search (keeps_rules)
