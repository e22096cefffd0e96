-- ===== src/Endpoints/Recovery.antt =====
-- utils/client.py, `StaticInferencePool`: endpoints that are not healthy are brought back by loading
-- the base weights and replaying all deltas.
use aurora_rl.Base.{
  ℕ, Bool, true, false, not, Option, none, some, List, [], ◌∷◌, ◌++◌, ltb, ◌==◌, if◌then◌else◌, ok,
  err,
}
use aurora_rl.Base.Names.{Name, codes}
use aurora_rl.Base.Dict.{lookup, insert}
use aurora_rl.Base.Exec.{pure, lift, gets, modify, ◌>>=◌, ◌>>◌}
use aurora_rl.Endpoints.Types.{
  Texts, PoolError, DeltaReplayEntry, EndpointLeaseRuntime, healthy, quarantine, retired,
  recovering, str_error,
}
use aurora_rl.Endpoints.Urls.{AdminClient, endpoint_key}
use aurora_rl.Endpoints.Fleet.{Net, health, is_success}
use aurora_rl.Endpoints.Calls
use aurora_rl.Endpoints.Uploads
use aurora_rl.Endpoints.Pool.{Pool, or_empty, runtime_of, with_runtime, set_endpoint_state}
use aurora_rl.Endpoints.Plan.{delta_replay_plan}
use aurora_rl.Endpoints.Session.{
  Action, add_name, forget_endpoint, replay_job, stage_upload_chunk_bytes, change,
  record_admin_results, try_except,
}

-- `self._staged_endpoints.setdefault(version, set()).add(endpoint)`
unfoldable pub mark_staged : Name → Name → Pool → Pool
unfolding or_empty add_name
mark_staged version endpoint p = record p {
  staged_endpoints =
      insert version (add_name endpoint (or_empty (lookup version p.staged_endpoints)))
        p.staged_endpoints;
}

unfoldable pub start_recovery : Name → ℕ → Pool → Pool
unfolding set_endpoint_state forget_endpoint
start_recovery endpoint now p =
    let p' =
      set_endpoint_state now endpoint recovering (codes "starting delta replay recovery") p in
    record p' { staged_endpoints = forget_endpoint endpoint p'.staged_endpoints }

-- `f"{self._active_version}"`
unfoldable pub version_text : Option Name → Name
version_text none = codes "None"
version_text (some version) = version

-- In quarantine or retired, and its cooldown is over.
unfoldable pub is_due : ℕ → EndpointLeaseRuntime → Bool
is_due now runtime =
    let over : Bool = elim runtime.quarantine_until [
      | none ↦ true
      | some until ↦ not (ltb now until)
    ] in
    elim runtime.state [ quarantine ↦ over | retired ↦ over | _ ↦ false ]

module _ (t : Texts) (n : Net) (polls : ℕ) where
  open n use {World, monotonic, send}

  unfoldable pub replay_each : AdminClient → List DeltaReplayEntry → Action t n (Unit {0})
  unfolding record_admin_results mark_staged replay_job
  replay_each client [] = pure tt
  replay_each client (entry ∷ entries) = do
    record_admin_results t n
        (Uploads.stage_weights t n (client ∷ []) (replay_job entry) stage_upload_chunk_bytes polls)
        false
    record_admin_results t n
        (Calls.commit_weights t n (client ∷ []) entry.version (some (codes "delta"))) false
    modify (λ s. record s { pool = mark_staged entry.version (endpoint_key client) s.pool })
    replay_each client entries

  unfoldable pub replay : AdminClient → Action t n (Unit {0})
  unfolding record_admin_results replay_each delta_replay_plan
  replay client = do
    record_admin_results t n (Calls.reload_weights t n (client ∷ [])) false
    p ← gets (λ s. s.pool)
    plan ← lift (delta_replay_plan t p)
    replay_each client plan

  unfoldable pub recovery_failed : Name → PoolError → Action t n (Unit {0})
  unfolding change set_endpoint_state
  recovery_failed endpoint e = modify (
      change t n λ now.
        set_endpoint_state now endpoint retired
          (codes "delta replay recovery failed: " ++ str_error t e))

  unfoldable pub recovered : Name → Action t n (Unit {0})
  unfolding change set_endpoint_state version_text
  recovered endpoint = modify (
      change t n λ now p.
        set_endpoint_state now endpoint healthy
          (codes "replayed delta chain to version " ++ version_text p.active_version) p)

  unfoldable pub recover_retired_endpoint : AdminClient → Action t n (Unit {0})
  unfolding start_recovery change replay recovery_failed recovered try_except
  recover_retired_endpoint client = do
    modify (change t n (start_recovery (endpoint_key client)))
    try_except t n (replay client) (recovery_failed (endpoint_key client))
        (λ done. recovered (endpoint_key client))

  -- No exception is raised: a status of 404 counts as healthy.
  unfoldable pub endpoint_health_check : AdminClient → Action t n Bool
  unfolding is_success
  endpoint_health_check client s =
      let (outcome, w) = send client.base_url health s.world in
      (
        ok (elim outcome [
          | err e ↦ false
          | ok response ↦ if response.status_code == 404 then true else is_success response
        ]),
        record s { world = w },
      )

  unfoldable pub recover_if_due : ℕ → AdminClient → Action t n (Unit {0})
  unfolding with_runtime is_due endpoint_health_check recover_retired_endpoint
  recover_if_due now client = do
    modify (λ s. record s { pool = with_runtime (endpoint_key client) s.pool })
    runtime ← gets (λ s. runtime_of s.pool (endpoint_key client))
    if not (is_due now runtime) then pure tt else (do
      answers ← endpoint_health_check client
      if answers then recover_retired_endpoint client else pure tt)

  unfoldable pub recover_each : ℕ → List AdminClient → Action t n (Unit {0})
  unfolding recover_if_due
  recover_each now [] = pure tt
  recover_each now (client ∷ clients) = do recover_if_due now client; recover_each now clients

  -- `_recover_unhealthy_endpoints`: the time is read once.
  unfoldable pub recover_endpoints : Action t n (Unit {0})
  unfolding recover_each
  recover_endpoints = do
    now ← gets (λ s. monotonic s.world)
    p ← gets (λ s. s.pool)
    recover_each now p.admin_clients

  unfoldable pub recover_unhealthy_endpoints : Action t n (Unit {0})
  unfolding recover_endpoints
  recover_unhealthy_endpoints = do
    p ← gets (λ s. s.pool)
    if p.lease_recovery_enabled then recover_endpoints else pure tt
