-- ===== src/Endpoints/Chunks.antt =====
-- utils/client.py, `stage_weights`: the chunks of an upload.
use aurora_rl.Base.{
  ℕ, zero, suc, ◌+◌, ◌≤◌, ◌<◌, ◌≡◌, refl, sym, ap, ◌∙◌, true, Option, some, List, [], ◌∷◌, ◌++◌,
  length, drop, take-append-drop, length-drop, length-append, append-nil, append_assoc, ok,
  ok-injective, arith,
}
use aurora_rl.Base.Names.{Name}
use aurora_rl.Base.Exec.{pure, on_bind}
use aurora_rl.Endpoints.Types.{Texts}
use aurora_rl.Endpoints.Urls.{AdminClient}
use aurora_rl.Endpoints.Fleet.{
  Net, Metadata, Whole, Response, stage_chunk, stage_finalize, tell, is_success,
}
use aurora_rl.Endpoints.Uploads.{
  StageJob, metadata, chunks_of, some_chunks, send_chunks, read_now, open_file, or_missing,
  stage_chunked_upload,
}
use aurora_rl.Endpoints.Sync.Fleet.{on_tell}

-- The bytes of the chunks, one after the other.
unfoldable pub joined : List (List ℕ) → List ℕ
joined [] = []
joined (chunk ∷ chunks) = chunk ++ joined chunks

chunks_of-joined :
    (fuel size : ℕ) (content : List ℕ)
    → 0 < size
    → length content ≤ fuel
    → joined (chunks_of fuel size content) ≡ content
unfolding joined chunks_of
chunks_of-joined zero size [] h enough = refl
chunks_of-joined zero size (byte ∷ bytes) h enough = absurd (omega arith)
chunks_of-joined (suc fuel) size [] h enough = refl
chunks_of-joined (suc fuel) size (byte ∷ bytes) h enough =
    rw
      (chunks_of-joined fuel size (drop size (byte ∷ bytes)) h
        (omega (arith, length-drop size (byte ∷ bytes))))
      (take-append-drop size (byte ∷ bytes))

some_chunks-joined : (chunks : List (List ℕ)) → joined (some_chunks chunks) ≡ joined chunks
unfolding joined some_chunks
some_chunks-joined [] = refl
some_chunks-joined (chunk ∷ chunks) = refl

-- What is relied on of the servers, each at its own URL: an upload, which goes by its version and
-- mode, takes in a chunk that begins where the ones before end; when it is finalized, the version is
-- staged with what the upload has received.
pub record Receives (n : Net) (received : n.World → Name → Name → Name → List ℕ)
    (staged : n.World → Name → Name → Option (List ℕ)) : Type 0 where
  pub appends :
      (url : Name) (info : Metadata) (whole : Whole) (offset : ℕ) (chunk : List ℕ) (w w' : n.World)
      (response : Response)
      → n.send url (stage_chunk info whole offset chunk) w ≡ (ok response, w')
      → is_success response ≡ true
      → offset ≡ length (received w url info.version info.mode)
      → received w' url info.version info.mode ≡ received w url info.version info.mode ++ chunk
  pub finalized :
      (url : Name) (info : Metadata) (whole : Whole) (w w' : n.World) (response : Response)
      → n.send url (stage_finalize info whole) w ≡ (ok response, w')
      → is_success response ≡ true
      → staged w' url info.version ≡ some (received w url info.version info.mode)

module _ (t : Texts) (n : Net) (received : n.World → Name → Name → Name → List ℕ)
    (staged : n.World → Name → Name → Option (List ℕ)) (server : Receives n received staged) where
  send_chunks-delivers :
      (info : Metadata) (whole : Whole) (client : AdminClient) (offset : ℕ) (chunks : List (List ℕ))
      (w w' : n.World)
      → offset ≡ length (received w client.base_url info.version info.mode)
      → send_chunks t n info whole client offset chunks w ≡ (ok tt, w')
      → received w' client.base_url info.version info.mode
        ≡ received w client.base_url info.version info.mode ++ joined chunks
  unfolding send_chunks joined pure
  send_chunks-delivers info whole client offset [] w w' e h =
      let at : n.World → List ℕ = λ u. received u client.base_url info.version info.mode in
      ap at (sym (ap (λ r. r.1) h)) ∙ sym (append-nil (at w))
  send_chunks-delivers info whole client offset (chunk ∷ chunks) w w' e h =
      on_bind (tell t n client (stage_chunk info whole offset chunk)) _ w w' tt h λ a v told rest.
        on_tell t n client (stage_chunk info whole offset chunk) w v told λ response sent success.
          let before = received w client.base_url info.version info.mode in
          let here =
            server.appends client.base_url info whole offset chunk w v response sent success e in
          send_chunks-delivers info whole client (offset + length chunk) chunks v w'
            (omega (arith, e, ap length here, length-append before chunk)) rest
          ∙ rw here (append_assoc before chunk (joined chunks))

  -- A chunked upload that returned, to a server that takes in the chunks in order and stages them, and
  -- that had received nothing of this version and mode: at the client's URL, the version of the job is
  -- staged with the bytes of the file.
  pub stage_chunked_upload-delivers :
      (job : StageJob) (size : ℕ) (path : Name) (whole : Whole) (client : AdminClient)
      (content : List ℕ) (w w' : n.World)
      → 0 < size
      → n.read_file path w ≡ some content
      → received w client.base_url job.version job.mode ≡ []
      → stage_chunked_upload t n job size path whole client w ≡ (ok tt, w')
      → staged w' client.base_url job.version ≡ some content
  unfolding stage_chunked_upload read_now open_file or_missing metadata
  stage_chunked_upload-delivers job size path whole client content w w' h file empty returned =
      on_bind (read_now t n path) _ w w' tt returned λ found u read rest.
        on_bind
          (send_chunks t n (metadata job) whole client 0
            (some_chunks (chunks_of (length found) size found)))
          _ u w' tt rest
          λ a v sent finalizing.
            on_tell t n client (stage_finalize (metadata job) whole) v w' finalizing
              λ response told success.
                let at : n.World → List ℕ = λ u. received u client.base_url job.version job.mode in
                let (same, unmoved) = read_now-content found u read in
                let nothing = ap at unmoved ∙ empty in
                let delivered =
                  send_chunks-delivers (metadata job) whole client 0
                    (some_chunks (chunks_of (length found) size found)) u v
                    (omega (arith, ap length nothing)) sent in
                server.finalized client.base_url (metadata job) whole v w' response told success
                ∙ ap some (
                    delivered
                    ∙ rw nothing (
                        some_chunks-joined (chunks_of (length found) size found)
                        ∙ chunks_of-joined (length found) size found h (omega arith)
                        ∙ same))
    where
      read_now-content :
          (found : List ℕ) (u : n.World)
          → read_now t n path w ≡ (ok found, u)
          → (found ≡ content) × (u ≡ w)
      read_now-content found u read =
          (sym (ok-injective (rw file at (ap (λ r. r.0) read))), sym (ap (λ r. r.1) read))
