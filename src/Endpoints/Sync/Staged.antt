-- ===== src/Endpoints/Sync/Staged.antt =====
-- Staging keeps what any neutral request keeps.
use aurora_rl.Base.{
  ℕ, zero, suc, ◌+◌, ◌≡◌, refl, Bool, true, false, List, [], ◌∷◌, length, Result, ok, err,
}
use aurora_rl.Base.Names.{Name}
use aurora_rl.Base.Exec.{
  Keeps, Keeps-pure, Keeps-refuse, Keeps-lift, Keeps-bind, Keeps-require, ◌>>◌,
}
use aurora_rl.Endpoints.Types.{Texts, Failure}
use aurora_rl.Endpoints.Urls.{AdminClient}
use aurora_rl.Endpoints.Fleet.{Net, Request, Metadata, Whole, Call, stream_chunk, tell}
use aurora_rl.Endpoints.Uploads.{
  StageJob, stage_by_path, stage_multipart_upload, send_chunks, stage_chunked_upload,
  stage_streaming_upload, follow_file, send_or_wait, end_or_wait, sleep_then, read_now, look,
  next_chunk, is_finished,
}
use aurora_rl.Endpoints.Sync.Calls.{is_neutral, Sends, Keeps-post, Keeps-tell}

module _ (t : Texts) (n : Net) (P : n.World → Type 0) (client : AdminClient)
    (sends : Sends t n P client is_neutral) where
  open n use {World, sleep}

  Keeps-tell_step : (r : Request) → is_neutral r ≡ true → Keeps {S = World} P (tell t n client r)
  Keeps-tell_step r e = Keeps-tell t n P client r (sends r e)

  Keeps-read : (path : Name) → Keeps {S = World} P (read_now t n path)
  unfolding read_now
  Keeps-read path = record { at = λ w h. h }

  Keeps-look : {A : Type 0} (f : World → A) → Keeps {S = World} P (look t n f)
  unfolding look
  Keeps-look f = record { at = λ w h. h }

  pub Keeps-by_path : (job : StageJob) → Keeps {S = World} P (stage_by_path t n job client)
  unfolding stage_by_path is_neutral
  Keeps-by_path job = Keeps-tell_step _ refl

  pub Keeps-multipart :
      (job : StageJob) (path : Name)
      → Keeps {S = World} P (stage_multipart_upload t n job path client)
  unfolding stage_multipart_upload is_neutral
  Keeps-multipart job path = Keeps-bind _ _ (Keeps-read path) (λ content. Keeps-tell_step _ refl)

  Keeps-chunks :
      (info : Metadata) (whole : Whole) (offset : ℕ) (chunks : List (List ℕ))
      → Keeps {S = World} P (send_chunks t n info whole client offset chunks)
  unfolding send_chunks is_neutral
  Keeps-chunks info whole offset [] = Keeps-pure _
  Keeps-chunks info whole offset (chunk ∷ chunks) =
      Keeps-bind _ _ (Keeps-tell_step _ refl)
        (λ done. Keeps-chunks info whole (offset + length chunk) chunks)

  pub Keeps-chunked :
      (job : StageJob) (size : ℕ) (path : Name) (whole : Whole)
      → Keeps {S = World} P (stage_chunked_upload t n job size path whole client)
  unfolding stage_chunked_upload is_neutral
  Keeps-chunked job size path whole =
      Keeps-bind _ _ (Keeps-read path)
        (λ content. Keeps-bind _ _ (Keeps-chunks _ whole 0 _) (λ done. Keeps-tell_step _ refl))

  Keeps-round :
      (found : Result Failure (List ℕ)) (wait : Call t n (Unit {0}))
      (next : List ℕ → Call t n (Unit {0}))
      → Keeps {S = World} P wait
      → ((chunk : List ℕ) → Keeps {S = World} P (next chunk))
      → Keeps {S = World} P (send_or_wait t n found wait next)
  unfolding send_or_wait
  Keeps-round (err e) wait next k l = Keeps-refuse e
  Keeps-round (ok []) wait next k l = k
  Keeps-round (ok (byte ∷ bytes)) wait next k l = l (byte ∷ bytes)

  Keeps-end :
      (finished : Result Failure Bool) (wait : Call t n (Unit {0}))
      → Keeps {S = World} P wait
      → Keeps {S = World} P (end_or_wait t n finished wait)
  unfolding end_or_wait
  Keeps-end (err e) wait k = Keeps-refuse e
  Keeps-end (ok true) wait k = Keeps-pure tt
  Keeps-end (ok false) wait k = k

  module _ (sleeps : (w : World) → P w → P (sleep w)) where
    -- A round of the loop, given what the later ones keep.
    Keeps-step :
        (job : StageJob) (size : ℕ) (path id : Name) (chunk_index offset : ℕ)
        (again : ℕ → ℕ → Call t n (Unit {0}))
        → ((i o : ℕ) → Keeps {S = World} P (again i o))
        → (w : World)
        → Keeps {S = World} P (
            send_or_wait t n
              (next_chunk t n size path offset w)
              (end_or_wait t n
                (is_finished t n job path offset w)
                (sleep_then t n (again chunk_index offset)))
              (λ chunk. do
                tell t n client (stream_chunk id chunk_index offset chunk)
                again (chunk_index + 1) (offset + length chunk)))
    unfolding sleep_then is_neutral
    Keeps-step job size path id chunk_index offset again kept w =
        Keeps-round _ _ _
          (Keeps-end (is_finished t n job path offset w) _
            (record { at = λ v k. (kept chunk_index offset).at (sleep v) (sleeps v k) }))
          (λ chunk.
            Keeps-bind _ _ (Keeps-tell_step (stream_chunk id chunk_index offset chunk) refl)
              (λ done. kept (chunk_index + 1) (offset + length chunk)))

    Keeps-follow :
        (job : StageJob) (size : ℕ) (path id : Name) (polls chunk_index offset : ℕ)
        → Keeps {S = World} P (follow_file t n job size path id client polls chunk_index offset)
    unfolding follow_file
    Keeps-follow job size path id zero chunk_index offset = record { at = λ w h. h }
    Keeps-follow job size path id (suc polls) chunk_index offset = record {
      at = λ w h.
          (Keeps-step job size path id chunk_index offset
              (follow_file t n job size path id client polls)
              (λ i o. Keeps-follow job size path id polls i o) w).at
            w h;
    }

    pub Keeps-streaming :
        (job : StageJob) (size polls : ℕ) (path : Name)
        → Keeps {S = World} P (stage_streaming_upload t n job size polls path client)
    unfolding stage_streaming_upload is_neutral
    Keeps-streaming job size polls path = Keeps-bind _ _ (Keeps-require _ _) λ a.
        Keeps-bind _ _ (Keeps-look _) λ there. Keeps-bind _ _ (Keeps-require _ _) λ b.
          Keeps-bind _ _ (Keeps-post t n P client _ (sends _ refl)) λ response.
            Keeps-bind _ _ (Keeps-lift _) λ id.
              Keeps-bind _ _ (Keeps-follow job size path id polls 0 0)
                λ c. Keeps-bind _ _ (Keeps-read path) λ content. Keeps-tell_step _ refl
