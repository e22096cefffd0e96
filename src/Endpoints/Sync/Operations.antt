-- ===== src/Endpoints/Sync/Operations.antt =====
-- What an operation on several servers keeps, and what it brings about where it did not fail.
use aurora_rl.Base.{
  ℕ, ◌≡◌, refl, sym, ap, subst, ◌∙◌, ◌⊎◌, inl, inr, true, false, List, [], ◌∷◌, All, Bool-cases,
  Result, ok, err,
}
use aurora_rl.Base.Names.{Name, same_name}
use aurora_rl.Base.Exec.{
  Keeps, Keeps-lift, Keeps-gets, Keeps-bind, Keeps-require, Keeps-if, on_bind,
}
use aurora_rl.Endpoints.Types.{Texts, Failure, is_ok, is_none}
use aurora_rl.Endpoints.Urls.{AdminClient, endpoint_key}
use aurora_rl.Endpoints.Fleet.{
  Net, Call, pause, resume, tell, finally, run_one, run_each, run_endpoint_operations, closing,
  error_of,
}
use aurora_rl.Endpoints.Calls.{with_pause}
use aurora_rl.Endpoints.Uploads.{
  StageJob, stage_weights, stage_each, stage_upload, stage_chunked, open_file,
}
use aurora_rl.Endpoints.Sync.Leases.{IsIn, has_failed, true-ne-false}
use aurora_rl.Endpoints.Sync.Calls.{is_neutral, Sends, Keeps-tell}
use aurora_rl.Endpoints.Sync.Staged.{Keeps-by_path, Keeps-multipart, Keeps-chunked, Keeps-streaming}

module _ (t : Texts) (n : Net) (P : n.World → Type 0) where
  open n use {World, sleep}

  run_each-keeps :
      (operation : Name) (call : AdminClient → Call t n (Unit {0})) (clients : List AdminClient)
      → All (λ c. Keeps {S = World} P (call c)) clients
      → (w : World) → P w
      → P (run_each t n operation call clients w).1
  unfolding run_each run_one
  run_each-keeps operation call [] k w h = h
  run_each-keeps operation call (c ∷ cs) (k, ks) w h =
      run_each-keeps operation call cs ks (call c w).1 (k.at w h)

  pub Keeps-operations :
      (clients : List AdminClient) (operation : Name) (call : AdminClient → Call t n (Unit {0}))
      → All (λ c. Keeps {S = World} P (call c)) clients
      → Keeps {S = World} P (run_endpoint_operations t n clients operation call)
  unfolding run_endpoint_operations
  Keeps-operations clients operation call k = record {
    at = λ w h. run_each-keeps operation call clients k w h;
  }

  each :
      {Q : AdminClient → Type 0} (R : AdminClient → Type 0)
      → ((c : AdminClient) → R c → Q c)
      → (clients : List AdminClient) → All R clients
      → All Q clients
  each R f [] h = tt
  each R f (c ∷ cs) (h, hs) = (f c h, each R f cs hs)

  module _ (sleeps : (w : World) → P w → P (sleep w)) (clients : List AdminClient)
      (sends : All (λ c. Sends t n P c is_neutral) clients) where
    Keeps-each :
        (call : AdminClient → Call t n (Unit {0}))
        → ((c : AdminClient) → Sends t n P c is_neutral → Keeps {S = World} P (call c))
        → Keeps {S = World} P (stage_each t n clients call)
    unfolding stage_each
    Keeps-each call k =
        Keeps-operations clients _ call (each (λ c. Sends t n P c is_neutral) k clients sends)

    Keeps-chunked_all :
        (job : StageJob) (size : ℕ) (path : Name)
        → Keeps {S = World} P (stage_chunked t n clients job size path)
    unfolding stage_chunked
    Keeps-chunked_all job size path = record {
      at = λ w h. by_content w (open_file t n path w) refl h;
    }
      where
        by_content :
            (w : World) (found : Result Failure (List ℕ))
            → open_file t n path w ≡ found
            → P w
            → P (stage_chunked t n clients job size path w).1
        by_content w (err e) at h = rw (at, stage_chunked) h
        by_content w (ok content) at h =
            rw (at, stage_chunked)
              ((Keeps-each _ (λ c s. Keeps-chunked t n P c s job size path _)).at w h)

    pub Keeps-upload :
        (job : StageJob) (size polls : ℕ) (path : Name)
        → Keeps {S = World} P (stage_upload t n clients job size polls path)
    unfolding stage_upload
    Keeps-upload job size polls path =
        Keeps-if _ _ _ (Keeps-each _ (λ c s. Keeps-multipart t n P c s job path)) (
          Keeps-if _ _ _ (Keeps-chunked_all job size path)
            (Keeps-each _ (λ c s. Keeps-streaming t n P c s sleeps job size polls path)))

    pub Keeps-stage_weights :
        (job : StageJob) (size polls : ℕ)
        → Keeps {S = World} P (stage_weights t n clients job size polls)
    unfolding stage_weights
    Keeps-stage_weights job size polls = Keeps-bind _ _ (Keeps-require _ _) λ a.
        Keeps-bind _ _ (Keeps-require _ _) λ b. Keeps-bind _ _ (Keeps-require _ _) λ c.
          Keeps-if job.upload _ _
            (Keeps-bind _ _ (Keeps-gets _)
              λ found. Keeps-bind _ _ (Keeps-lift _) λ path. Keeps-upload job size polls path)
            (Keeps-each _ (λ c s. Keeps-by_path t n P c s job))

-- A call that returned has brought about what its part between pause and resume did.
module _ (t : Texts) (n : Net) (P : n.World → Type 0) where
  open n use {World}

  closing-ok :
      (outcome closed : Result Failure (Unit {0}))
      → closing outcome closed ≡ ok tt
      → outcome ≡ ok tt
  unfolding closing
  closing-ok outcome (err e) h = cc
  closing-ok outcome (ok done) h = h

  finally-ok :
      (first last : Call t n (Unit {0})) (w w' : World)
      → Keeps {S = World} P last
      → ((v : World) → first w ≡ (ok tt, v) → P v)
      → finally t n first last w ≡ (ok tt, w')
      → P w'
  unfolding finally
  finally-ok first last w w' k f h =
      let returned = closing-ok (first w).0 (last (first w).1).0 (ap (λ r. r.0) h) in
      let done = f (first w).1 (ap (λ r. (r, (first w).1)) returned) in
      subst P (ap (λ r. r.1) h) (k.at (first w).1 done)

  pub with_pause-ok :
      (c : AdminClient) (call : AdminClient → Call t n (Unit {0})) (w w' : World)
      → Sends t n P c is_neutral
      → ((v v' : World) → call c v ≡ (ok tt, v') → P v')
      → with_pause t n call c w ≡ (ok tt, w')
      → P w'
  unfolding with_pause is_neutral
  with_pause-ok c call w w' s f h = on_bind (tell t n c pause) _ w w' tt h λ a v paused rest.
      finally-ok (call c) (tell t n c resume) v w' (Keeps-tell t n P c resume (s resume refl))
        (λ v'. f v v') rest

-- The endpoint k has the property after an operation in which it did not fail, if it took part, or
-- had it before.
module _ (t : Texts) (n : Net) (P : n.World → Type 0) (k : Name)
    (call : AdminClient → Call t n (Unit {0}))
    (establishes : (c : AdminClient)
      → same_name (endpoint_key c) k ≡ true
      → (w w' : n.World) → call c w ≡ (ok tt, w')
      → P w')
    (keeps : (c : AdminClient)
      → same_name (endpoint_key c) k ≡ false
      → Keeps {S = n.World} P (call c)) where
  open n use {World}

  fine-ok :
      (outcome : Result Failure (Unit {0})) → is_none (error_of t outcome) ≡ true → outcome ≡ ok tt
  unfolding error_of is_none
  fine-ok (ok done) h = refl
  fine-ok (err e) h = cc

  pub run_each-establishes :
      (operation : Name) (clients : List AdminClient) (w : World)
      → has_failed k (run_each t n operation call clients w).0 ≡ false
      → IsIn k clients ⊎ P w
      → P (run_each t n operation call clients w).1
  unfolding run_each run_one has_failed is_ok
  run_each-establishes operation [] w h (inl m) = absurd m
  run_each-establishes operation [] w h (inr p) = p
  run_each-establishes operation (c ∷ cs) w h start =
      elim (Bool-cases (is_none (error_of t (call c w).0))) [
        | inl fine ↦ run_each-establishes operation cs (call c w).1 (rw fine at h) (now fine start)
        | inr failed ↦ elim (Bool-cases (same_name (endpoint_key c) k)) [
          | inl same ↦ absurd (true-ne-false (rw (failed, same) at h))
          | inr other ↦
              run_each-establishes operation cs (call c w).1 (rw (failed, other) at h)
                (later other start)
        ]
      ]
    where
      later :
          same_name (endpoint_key c) k ≡ false → IsIn k (c ∷ cs) ⊎ P w → IsIn k cs ⊎ P (call c w).1
      later other (inl (inl same)) = absurd (true-ne-false (sym same ∙ other))
      later other (inl (inr m)) = inl m
      later other (inr p) = inr ((keeps c other).at w p)

      now :
          is_none (error_of t (call c w).0) ≡ true
          → IsIn k (c ∷ cs) ⊎ P w
          → IsIn k cs ⊎ P (call c w).1
      now fine start = elim (Bool-cases (same_name (endpoint_key c) k)) [
        | inl same ↦ inr (
            establishes c same w (call c w).1
              (ap (λ r. (r, (call c w).1)) (fine-ok (call c w).0 fine)))
        | inr other ↦ later other start
      ]
