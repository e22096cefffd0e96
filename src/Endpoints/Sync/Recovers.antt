-- ===== src/Endpoints/Sync/Recovers.antt =====
-- `_recover_retired_endpoint`: an endpoint that comes back serves the active version.
use aurora_rl.Base.{
  ℕ, ◌≡◌, refl, sym, ap, subst, ◌∙◌, inl, false, Option, none, some, List, [], ◌∷◌, ok,
}
use aurora_rl.Base.Names.{Name, codes, same_name_refl}
use aurora_rl.Base.Exec.{
  Keeps, Keeps-bind, Keeps-gets, Keeps-lift, Keeps-pure, pure, modify, ◌>>=◌, on_bind, on_lift,
  on_gets,
}
use aurora_rl.Endpoints.Types.{Texts, EndpointOperationResult, DeltaReplayEntry}
use aurora_rl.Endpoints.Urls.{AdminClient, endpoint_key}
use aurora_rl.Endpoints.Fleet.{Net, Operation}
use aurora_rl.Endpoints.Calls
use aurora_rl.Endpoints.Uploads
use aurora_rl.Endpoints.Pool.{Pool, runtime_of}
use aurora_rl.Endpoints.Plan.{delta_replay_plan}
use aurora_rl.Endpoints.Session.{
  Session, Action, record_admin_results, replay_job, stage_upload_chunk_bytes,
}
use aurora_rl.Endpoints.Recovery.{mark_staged, replay_each, replay}
use aurora_rl.Endpoints.Sync.Shrinks.{Shrinks, record_admin-Shrinks}
use aurora_rl.Endpoints.Sync.Operations.{Keeps-operations}
use aurora_rl.Endpoints.Sync.Effects.{
  all_ok-fine, stage_weights-At, commit_call, reload_call, commit-elsewhere, reload-elsewhere,
  commits-At, reloads-At,
}
use aurora_rl.Endpoints.Sync.Results.{everything_ok}
use aurora_rl.Endpoints.Sync.Fleet.{IsFleet, At}
use aurora_rl.Endpoints.Sync.Agree.{SameVersion, Away, Keeps-record-Away, Keeps-pool-Away}
use aurora_rl.Endpoints.Sync.Replay.{last_version, delta_replay_plan-reaches}

module _ (t : Texts) (n : Net) (served : n.World → Name → Option Name) (fleet : IsFleet n served)
    (polls : ℕ) (client : AdminClient) where
  abbrev key : Name
  key = endpoint_key client

  mark_staged-Shrinks :
      (version endpoint : Name) (p : Pool) → Shrinks p (mark_staged version endpoint p)
  unfolding mark_staged runtime_of
  mark_staged-Shrinks version endpoint p = record {
    admins = refl;
    lease = refl;
    active = refl;
    healthy_before = λ k h. h;
  }

  Keeps-commit_one :
      (version : Name) (mode : Option Name)
      → Keeps {S = Session t n}
          (Away t n served fleet key)
          (record_admin_results t n (Calls.commit_weights t n (client ∷ []) version mode) false)
  unfolding Calls.commit_weights
  Keeps-commit_one version mode = Keeps-record-Away t n served fleet key _ false (λ k v other.
      Keeps-operations t n (At t n served fleet k v) (client ∷ []) (codes "commit_weights")
        (commit_call t n served fleet version mode)
        (commit-elsewhere t n served fleet version mode k v client other, tt))

  Keeps-reload :
      Keeps {S = Session t n}
        (Away t n served fleet key)
        (record_admin_results t n (Calls.reload_weights t n (client ∷ [])) false)
  unfolding Calls.reload_weights
  Keeps-reload = Keeps-record-Away t n served fleet key _ false (λ k v other.
      Keeps-operations t n (At t n served fleet k v) (client ∷ []) (codes "reload_weights")
        (reload_call t n served fleet) (reload-elsewhere t n served fleet k v client other, tt))

  Keeps-replay_each :
      (plan : List DeltaReplayEntry)
      → Keeps {S = Session t n} (Away t n served fleet key) (replay_each t n polls client plan)
  unfolding replay_each
  Keeps-replay_each [] = Keeps-pure tt
  Keeps-replay_each (entry ∷ plan) =
      Keeps-bind _ _
        (Keeps-record-Away t n served fleet key _ false
          (λ k v other. stage_weights-At t n served fleet k v _ _ _ _))
        λ a. Keeps-bind _ _ (Keeps-commit_one entry.version (some (codes "delta"))) λ b.
          Keeps-bind _ _
            (Keeps-pool-Away t n served fleet key (λ s. mark_staged entry.version key s.pool)
              (λ s. mark_staged-Shrinks entry.version key s.pool))
            λ c. Keeps-replay_each plan

  pub Keeps-replay : Keeps {S = Session t n} (Away t n served fleet key) (replay t n polls client)
  unfolding replay
  Keeps-replay = Keeps-bind _ _ Keeps-reload λ a.
      Keeps-bind _ _ (Keeps-gets _)
        λ p. Keeps-bind _ _ (Keeps-lift _) λ plan. Keeps-replay_each plan

  abbrev commit_one : Name → Option Name → Operation t n
  commit_one = Calls.commit_weights t n (client ∷ [])

  abbrev stage_one : DeltaReplayEntry → Operation t n
  stage_one entry =
      Uploads.stage_weights t n (client ∷ []) (replay_job entry) stage_upload_chunk_bytes polls

  abbrev commits : Name → Option Name → Action t n (List EndpointOperationResult)
  commits version mode = record_admin_results t n (commit_one version mode) false

  abbrev stages : DeltaReplayEntry → Action t n (List EndpointOperationResult)
  stages entry = record_admin_results t n (stage_one entry) false

  abbrev reloads : Action t n (List EndpointOperationResult)
  reloads = record_admin_results t n (Calls.reload_weights t n (client ∷ [])) false

  committed-At :
      (version : Name) (mode : Option Name) (s s' : Session t n)
      (found : List EndpointOperationResult)
      → commits version mode s ≡ (ok found, s')
      → At t n served fleet key (some version) s'.world
  unfolding Calls.commit_weights record_admin_results ◌>>=◌
  committed-At version mode s s' found h =
      subst (λ x. At t n served fleet key (some version) x.world) (ap (λ r. r.1) h)
        (commits-At t n served fleet (codes "commit_weights") version mode key (client ∷ []) s.world
          (all_ok-fine key _ (
            everything_ok t n (client ∷ []) (codes "commit_weights")
              (commit_call t n served fleet version mode) false s found refl (ap (λ r. r.0) h)))
          (inl (same_name_refl key)))

  reloaded-At :
      (s s' : Session t n) (found : List EndpointOperationResult)
      → reloads s ≡ (ok found, s')
      → At t n served fleet key none s'.world
  unfolding Calls.reload_weights record_admin_results ◌>>=◌
  reloaded-At s s' found h =
      subst (λ x. At t n served fleet key none x.world) (ap (λ r. r.1) h)
        (reloads-At t n served fleet (codes "reload_weights") key (client ∷ []) s.world
          (all_ok-fine key _ (
            everything_ok t n (client ∷ []) (codes "reload_weights") (reload_call t n served fleet)
              false s found refl (ap (λ r. r.0) h)))
          (inl (same_name_refl key)))

  -- The endpoint serves the last version of the chain.
  replay_each-serves :
      (plan : List DeltaReplayEntry) (before : Option Name) (s s' : Session t n)
      → At t n served fleet key before s.world
      → replay_each t n polls client plan s ≡ (ok tt, s')
      → At t n served fleet key (last_version t before plan) s'.world
        × (s'.pool.active_version ≡ s.pool.active_version)
  unfolding replay_each pure modify
  replay_each-serves [] before s s' at h = (
    subst (λ x. At t n served fleet key before x.world) (ap (λ r. r.1) h) at,
    sym (ap (λ r. r.1.pool.active_version) h),
  )
  replay_each-serves (entry ∷ plan) before s s' at h =
      on_bind (stages entry) _ s s' tt h λ a u staged h1.
        on_bind (commits entry.version (some (codes "delta"))) _ u s' tt h1 λ b v committed h2.
          on_bind (modify (λ s. record s { pool = mark_staged entry.version key s.pool })) _ v s' tt
            h2
            λ c w marked h3.
              let (serves, active) =
                replay_each-serves plan (some entry.version) w s'
                  (subst (λ x. At t n served fleet key (some entry.version) x.world)
                    (ap (λ r. r.1) marked)
                    (committed-At entry.version (some (codes "delta")) u v b committed))
                  h3 in
              (
                serves,
                active
                    ∙ sym (ap (λ r. r.1.pool.active_version) marked)
                    ∙ (mark_staged-Shrinks entry.version key v.pool).active
                    ∙ sym (ap (λ r. r.1.pool.active_version) committed)
                    ∙ (record_admin-Shrinks t n (commit_one entry.version (some (codes "delta")))
                        false u).active
                    ∙ sym (ap (λ r. r.1.pool.active_version) staged)
                    ∙ (record_admin-Shrinks t n (stage_one entry) false s).active,
              )

  -- A replay that returned leaves the endpoint with the active version.
  pub replay-serves :
      (s s' : Session t n)
      → replay t n polls client s ≡ (ok tt, s')
      → SameVersion t (served s'.world key) s'.pool.active_version
  unfolding replay
  replay-serves s s' h = on_bind reloads _ s s' tt h λ a v reloaded h1.
      on_lift (delta_replay_plan t v.pool) _ v s' tt (on_gets (λ s. s.pool) _ v s' tt h1)
        λ plan made h2.
          let (serves, active) =
            replay_each-serves plan none v s' (reloaded-At s v a reloaded) h2 in
          subst (λ x. SameVersion t x s'.pool.active_version) (sym serves)
            (subst (SameVersion t (last_version t none plan)) (sym active)
              (delta_replay_plan-reaches t v.pool plan made))
