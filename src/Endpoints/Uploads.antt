-- ===== src/Endpoints/Uploads.antt =====
-- utils/client.py: `stage_weights`, by a path, as one file, in chunks, or as a stream that follows a
-- file while it grows.
use aurora_rl.Base.{
  ℕ, zero, suc, ◌+◌, ◌-◌, Bool, true, false, ◌||◌, not, Option, none, some, List, [], ◌∷◌, ◌++◌,
  length, take, drop, min, ltb, leb, if◌then◌else◌, Result, ok, err,
}
use aurora_rl.Base.Names.{Name, codes, same_name}
use aurora_rl.Base.Exec.{pure, refuse, lift, gets, require, ◌>>=◌, ◌>>◌}
use aurora_rl.Endpoints.Types.{Texts, Failure, PoolError, raised, exception, is_none}
use aurora_rl.Endpoints.Urls.{AdminClient}
use aurora_rl.Endpoints.Fleet.{
  Net, Metadata, Whole, Call, Operation, stage_path, stage_file, stage_chunk, stage_finalize,
  stream_init, stream_chunk, stream_finalize, tell, post, run_endpoint_operations,
}

pub record StageJob : Type 0 where
  pub weight_path : Name
  pub version : Name
  pub mode : Name
  pub base_version : Option Name
  pub upload : Bool
  pub upload_method : Name
  pub done_path : Option Name

unfoldable pub metadata : StageJob → Metadata
metadata job = record { version = job.version; mode = job.mode; base_version = job.base_version }

-- What `while chunk := f.read(size)` reads; `fuel` is the length of the file.
unfoldable pub chunks_of : ℕ → ℕ → List ℕ → List (List ℕ)
chunks_of zero size content = []
chunks_of (suc fuel) size content =
    let rest = chunks_of fuel size (drop size content) in
    elim content [ [] ↦ [] | byte ∷ bytes ↦ take size (byte ∷ bytes) ∷ rest ]

unfoldable pub is_delta : StageJob → Bool
is_delta job = same_name job.mode (codes "delta")

unfoldable pub is_streaming : StageJob → Bool
is_streaming job = same_name job.upload_method (codes "streaming")

abbrev pub value_error : Name → PoolError
value_error message = raised (exception (codes "ValueError") message)

-- `response.json().get("upload_id")`, which is missing or empty where there is none.
unfoldable pub required_id : Option Name → Result Failure Name
required_id (some (c ∷ upload_id)) = ok (c ∷ upload_id)
required_id _ = err (
    exception (codes "RuntimeError") (codes "stage_stream_init response did not include upload_id"))

unfoldable pub known_mode : Name → Bool
known_mode mode = same_name mode (codes "full") || same_name mode (codes "delta")

unfoldable pub known_method : Name → Bool
known_method method =
    same_name method (codes "multipart")
    || same_name method (codes "chunked")
    || same_name method (codes "streaming")

-- An empty file is sent as one empty chunk.
unfoldable pub some_chunks : List (List ℕ) → List (List ℕ)
some_chunks [] = [] ∷ []
some_chunks (chunk ∷ chunks) = chunk ∷ chunks

unfoldable pub or_missing : Name → Option (List ℕ) → Result Failure (List ℕ)
or_missing path none = err (exception (codes "FileNotFoundError") path)
or_missing path (some content) = ok content

module _ (t : Texts) (n : Net) where
  open n use {World, sleep, exists, is_dir, read_file, join, file_name, sha256_of}

  unfoldable pub open_file : Name → World → Result Failure (List ℕ)
  unfolding or_missing
  open_file path w = or_missing path (read_file path w)

  -- What is known of the files, at the moment.
  unfoldable pub look : {A : Type 0} → (World → A) → Call t n A
  look f w = (ok (f w), w)

  unfoldable pub read_now : Name → Call t n (List ℕ)
  unfolding open_file
  read_now path w = (open_file path w, w)

  unfoldable pub stage_by_path : StageJob → AdminClient → Call t n (Unit {0})
  unfolding tell metadata
  stage_by_path job client = tell t n client (stage_path (metadata job) job.weight_path)

  unfoldable pub stage_multipart_upload : StageJob → Name → AdminClient → Call t n (Unit {0})
  unfolding tell metadata read_now
  stage_multipart_upload job upload_path client = do
    content ← read_now upload_path
    tell t n client (stage_file (metadata job) (file_name upload_path) content)

  -- The chunks from an offset on.
  unfoldable pub send_chunks :
      Metadata → Whole → AdminClient → ℕ → List (List ℕ) → Call t n (Unit {0})
  unfolding tell
  send_chunks info whole client offset [] = pure tt
  send_chunks info whole client offset (chunk ∷ chunks) = do
    tell t n client (stage_chunk info whole offset chunk)
    send_chunks info whole client (offset + length chunk) chunks

  unfoldable pub stage_chunked_upload :
      StageJob → ℕ → Name → Whole → AdminClient → Call t n (Unit {0})
  unfolding tell metadata read_now send_chunks some_chunks chunks_of
  stage_chunked_upload job chunk_size upload_path whole client = do
    content ← read_now upload_path
    send_chunks (metadata job) whole client 0
        (some_chunks (chunks_of (length content) chunk_size content))
    tell t n client (stage_finalize (metadata job) whole)

  -- The bytes to send next, if the file is there and longer than what was sent.
  unfoldable pub next_chunk : ℕ → Name → ℕ → World → Result Failure (List ℕ)
  unfolding open_file
  next_chunk chunk_size upload_path offset w =
      if exists upload_path w
      then elim (open_file upload_path w) [
        | err e ↦ err e
        | ok content ↦ ok (take (min chunk_size (length content - offset)) (drop offset content))
      ]
      else ok []

  -- Everything that will come has been sent.
  unfoldable pub is_finished : StageJob → Name → ℕ → World → Result Failure Bool
  unfolding open_file
  is_finished job upload_path offset w =
      let sent : Result Failure Bool = elim (open_file upload_path w) [
        | err e ↦ err e
        | ok content ↦ ok (leb (length content) offset)
      ] in
      elim job.done_path [
        | none ↦ if exists upload_path w then sent else ok false
        | some done_path ↦
            if exists done_path w
            then (if exists upload_path w then sent else ok (leb 0 offset))
            else ok false
      ]

  -- What a round does: it raises, waits, or sends a chunk.
  unfoldable pub send_or_wait :
      Result Failure (List ℕ)
      → Call t n (Unit {0})
      → (List ℕ → Call t n (Unit {0}))
      → Call t n (Unit {0})
  send_or_wait (err e) wait send = refuse e
  send_or_wait (ok []) wait send = wait
  send_or_wait (ok (byte ∷ bytes)) wait send = send (byte ∷ bytes)

  unfoldable pub end_or_wait : Result Failure Bool → Call t n (Unit {0}) → Call t n (Unit {0})
  end_or_wait (err e) wait = refuse e
  end_or_wait (ok true) wait = pure tt
  end_or_wait (ok false) wait = wait

  -- `await asyncio.sleep(...)`
  unfoldable pub sleep_then : Call t n (Unit {0}) → Call t n (Unit {0})
  sleep_then call w = call (sleep w)

  -- An upload that still waits after `polls` rounds is given up.
  unfoldable pub follow_file :
      StageJob → ℕ → Name → Name → AdminClient → ℕ → ℕ → ℕ → Call t n (Unit {0})
  unfolding tell next_chunk is_finished send_or_wait end_or_wait sleep_then
  follow_file job chunk_size upload_path upload_id client zero chunk_index offset w =
      (err (exception (codes "Unfinished") upload_path), w)
  follow_file job chunk_size upload_path upload_id client (suc polls) chunk_index offset w =
      let again = follow_file job chunk_size upload_path upload_id client polls in
      send_or_wait (next_chunk chunk_size upload_path offset w)
        (end_or_wait (is_finished job upload_path offset w) (sleep_then (again chunk_index offset)))
        (λ chunk. do
          tell t n client (stream_chunk upload_id chunk_index offset chunk)
          again (chunk_index + 1) (offset + length chunk))
        w

  unfoldable pub stage_streaming_upload :
      StageJob → ℕ → ℕ → Name → AdminClient → Call t n (Unit {0})
  unfolding tell post metadata look read_now follow_file is_none
  stage_streaming_upload job chunk_size polls upload_path client = do
    require (is_delta job) (
        exception (codes "ValueError")
          (codes "streaming upload currently supports delta mode only"))
    there ← look (exists upload_path)
    require (not (is_none job.done_path) || there)
        (exception (codes "FileNotFoundError") upload_path)
    response ← post t n client (stream_init (metadata job) (file_name upload_path))
    upload_id ← lift (required_id response.upload_id)
    follow_file job chunk_size upload_path upload_id client polls 0 0
    content ← read_now upload_path
    tell t n client (stream_finalize upload_id (length content) (sha256_of content))

  -- `_upload_path`: the file in a directory of a delta, by the method that it is sent with.
  unfoldable pub find_upload_path : StageJob → World → Result PoolError Name
  find_upload_path job w =
      let delta_stream = join job.weight_path (codes "delta.stream") in
      let delta_tensors = join job.weight_path (codes "delta.safetensors") in
      let preferred = if is_streaming job then delta_stream else delta_tensors in
      let fallback = if is_streaming job then delta_tensors else delta_stream in
      if not (is_dir job.weight_path w)
      then ok job.weight_path
      else if not (is_delta job)
      then err (value_error (codes "upload=True requires a file path for full checkpoint staging"))
      else ok (if exists preferred w || not (exists fallback w) then preferred else fallback)

  unfoldable pub stage_each : List AdminClient → (AdminClient → Call t n (Unit {0})) → Operation t n
  unfolding run_endpoint_operations
  stage_each clients = run_endpoint_operations t n clients (codes "stage_weights")

  -- The size and the hash are taken once, before the chunks are sent.
  unfoldable pub stage_chunked : List AdminClient → StageJob → ℕ → Name → Operation t n
  unfolding open_file stage_each stage_chunked_upload
  stage_chunked clients job chunk_size upload_path w = elim (open_file upload_path w) [
    | err e ↦ (err (raised e), w)
    | ok content ↦
        stage_each clients
          (stage_chunked_upload job chunk_size upload_path (record {
            filename = file_name upload_path;
            total_size = length content;
            sha256 = sha256_of content;
          }))
          w
  ]

  unfoldable pub stage_upload : List AdminClient → StageJob → ℕ → ℕ → Name → Operation t n
  unfolding stage_each stage_chunked stage_multipart_upload stage_streaming_upload
  stage_upload clients job chunk_size polls upload_path =
      if same_name job.upload_method (codes "multipart")
      then stage_each clients (stage_multipart_upload job upload_path)
      else if same_name job.upload_method (codes "chunked")
      then stage_chunked clients job chunk_size upload_path
      else stage_each clients (stage_streaming_upload job chunk_size polls upload_path)

  unfoldable pub stage_weights : List AdminClient → StageJob → ℕ → ℕ → Operation t n
  unfolding known_mode known_method find_upload_path stage_upload stage_each stage_by_path
  stage_weights clients job chunk_size polls = do
    require (known_mode job.mode)
        (value_error (codes "unsupported weight update mode: " ++ job.mode))
    require (known_method job.upload_method)
        (value_error (codes "unsupported stage upload method: " ++ job.upload_method))
    require (ltb 0 chunk_size) (value_error (codes "chunk_size_bytes must be positive"))
    if job.upload
        then (do
          found ← gets (find_upload_path job)
          upload_path ← lift found
          stage_upload clients job chunk_size polls upload_path)
        else stage_each clients (stage_by_path job)
