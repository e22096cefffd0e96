-- ===== src/Endpoints/Updates.antt =====
-- utils/client.py, `StaticInferencePool`: staging, committing and updating weights on the healthy
-- endpoints, and the next client for an evaluation.
use aurora_rl.Base.{
  ℕ, zero, suc, Bool, false, ◌&&◌, not, Option, none, some, List, [], ◌∷◌, if◌then◌else◌, ok,
}
use aurora_rl.Base.Names.{Name, codes, same_name}
use aurora_rl.Base.Dict.{lookup, insert}
use aurora_rl.Base.Exec.{pure, refuse, gets, modify, ◌>>=◌, ◌>>◌}
use aurora_rl.Endpoints.Types.{
  Texts, PoolError, EndpointOperationResult, DeltaReplayEntry, operation_error, raised,
}
use aurora_rl.Endpoints.Urls.{RolloutClient, AdminClient, endpoint_key}
use aurora_rl.Endpoints.Fleet.{Net}
use aurora_rl.Endpoints.Calls
use aurora_rl.Endpoints.Calls.{as_operation}
use aurora_rl.Endpoints.Start.{check_health, maybe_check_has_model}
use aurora_rl.Endpoints.Uploads
use aurora_rl.Endpoints.Uploads.{StageJob}
use aurora_rl.Endpoints.Pool.{Pool, or_empty, quarantine_client, healthy_clients, eval_pass}
use aurora_rl.Endpoints.Plan.{remember_delta_replay_entry}
use aurora_rl.Endpoints.Session.{
  Action, has_name, add_ok_endpoints, replay_job, stage_upload_chunk_bytes, change, select_clients,
  record_admin_results, try_except,
}
use aurora_rl.Endpoints.Recovery.{recover_endpoints, recover_unhealthy_endpoints}

-- The endpoints that staged a version, of those that were asked.
unfoldable pub set_staged : Name → List EndpointOperationResult → Pool → Pool
unfolding add_ok_endpoints
set_staged version results p = record p {
  staged_endpoints = insert version (add_ok_endpoints results []) p.staged_endpoints;
}

-- `self._staged_endpoints.setdefault(version, set()).update(...)`
unfoldable pub extend_staged : Name → List EndpointOperationResult → Pool → Pool
unfolding add_ok_endpoints or_empty
extend_staged version results p = record p {
  staged_endpoints =
      insert version (add_ok_endpoints results (or_empty (lookup version p.staged_endpoints)))
        p.staged_endpoints;
}

unfoldable pub missing_stage : List Name → List AdminClient → List AdminClient
unfolding has_name
missing_stage staged [] = []
missing_stage staged (client ∷ clients) =
    let rest = missing_stage staged clients in
    if has_name (endpoint_key client) staged then rest else client ∷ rest

unfoldable pub is_delta_mode : Option Name → Bool
is_delta_mode none = false
is_delta_mode (some mode) = same_name mode (codes "delta")

module _ (t : Texts) (n : Net) (polls : ℕ) where
  open n use {World, monotonic, sleep}

  abbrev on_pool : (Pool → Pool) → Action t n (Unit {0})
  on_pool f = modify (λ s. record s { pool = f s.pool })

  abbrev reads : {A : Type 0} → (Pool → A) → Action t n A
  reads f = gets (λ s. f s.pool)

  unfoldable pub update_weights : Option Name → Option Name → Name → Action t n (Unit {0})
  unfolding select_clients record_admin_results
  update_weights weight_dir lora_name mode = do
    clients ← select_clients t n (codes "update_weights")
    partial ← reads (λ p. p.lease_enabled)
    record_admin_results t n (Calls.update_weights t n clients weight_dir lora_name mode) partial
    pure tt

  unfoldable pub stage_weights : StageJob → Action t n (Unit {0})
  unfolding select_clients record_admin_results set_staged remember_delta_replay_entry
  stage_weights job = do
    clients ← select_clients t n (codes "stage_weights")
    partial ← reads (λ p. p.lease_enabled)
    results ←
        record_admin_results t n
          (Uploads.stage_weights t n clients job stage_upload_chunk_bytes polls) partial
    on_pool (set_staged job.version results)
    on_pool (remember_delta_replay_entry job)

  -- The error is raised again if no train client is healthy.
  unfoldable pub raise_unless_some : PoolError → List RolloutClient → Action t n (Unit {0})
  raise_unless_some e [] = refuse e
  raise_unless_some e (client ∷ clients) = pure tt

  -- `except EndpointOperationError`
  unfoldable pub missed_stage : PoolError → Action t n (Unit {0})
  unfolding healthy_clients raise_unless_some
  missed_stage (raised e) = refuse (raised e)
  missed_stage (operation_error operation results) = do
    p ← reads (λ p. p)
    if not p.lease_enabled
        then refuse (operation_error operation results)
        else raise_unless_some (operation_error operation results)
            (healthy_clients p p.train_clients)

  unfoldable pub stage_missing : Name → StageJob → List AdminClient → Action t n (Unit {0})
  unfolding record_admin_results missed_stage extend_staged try_except
  stage_missing version job [] = pure tt
  stage_missing version job (client ∷ clients) = do
    partial ← reads (λ p. p.lease_enabled)
    try_except t n
        (record_admin_results t n
          (Uploads.stage_weights t n (client ∷ clients) job stage_upload_chunk_bytes polls) partial)
        missed_stage (λ results. on_pool (extend_staged version results))

  -- Endpoints that were not there when a delta was staged get it now.
  unfoldable pub stage_entry : Name → Option DeltaReplayEntry → Action t n (Unit {0})
  unfolding select_clients missing_stage stage_missing replay_job or_empty
  stage_entry version none = pure tt
  stage_entry version (some entry) = do
    clients ← select_clients t n (codes "commit_weights")
    staged ← reads (λ p. or_empty (lookup version p.staged_endpoints))
    stage_missing version (replay_job entry) (missing_stage staged clients)

  unfoldable pub stage_if_missing : Name → Action t n (Unit {0})
  unfolding stage_entry
  stage_if_missing version = do
    entry ← reads (λ p. lookup version p.delta_replay_entries)
    stage_entry version entry

  unfoldable pub commit_healthy : Name → Option Name → Action t n (List EndpointOperationResult)
  unfolding select_clients record_admin_results
  commit_healthy version mode = do
    clients ← select_clients t n (codes "commit_weights")
    partial ← reads (λ p. p.lease_enabled)
    record_admin_results t n (Calls.commit_weights t n clients version mode) partial

  unfoldable pub commit_weights : Name → Option Name → Action t n (Unit {0})
  unfolding stage_if_missing commit_healthy is_delta_mode recover_endpoints
  commit_weights version mode = do
    stage_if_missing version
    commit_healthy version mode
    on_pool (λ p. record p { active_version = some version })
    p ← reads (λ p. p)
    if is_delta_mode mode && p.lease_recovery_enabled then recover_endpoints t n polls else pure tt

  unfoldable pub reload_weights : Action t n (Unit {0})
  unfolding select_clients record_admin_results
  reload_weights = do
    clients ← select_clients t n (codes "reload_weights")
    partial ← reads (λ p. p.lease_enabled)
    record_admin_results t n (Calls.reload_weights t n clients) partial
    pure tt

  unfoldable pub quarantine_client_now : RolloutClient → Name → Action t n (Unit {0})
  unfolding change quarantine_client
  quarantine_client_now client reason =
      modify (change t n λ now. quarantine_client now client reason)

  -- The client of a pass, or another try.
  unfoldable pub found_or :
      Option RolloutClient → Action t n (Option RolloutClient) → Action t n (Option RolloutClient)
  found_or (some client) retry = pure (some client)
  found_or none retry = retry

  unfoldable pub pass_over : Action t n (Option RolloutClient)
  unfolding eval_pass
  pass_over s = let (found, p) = eval_pass s.pool in (ok found, record s { pool = p })

  -- `left` passes over the clients; `none` is a call that waits still.
  unfoldable pub get_eval_client : ℕ → Action t n (Option RolloutClient)
  unfolding pass_over found_or recover_unhealthy_endpoints
  get_eval_client zero = pure none
  get_eval_client (suc left) = do
    found ← pass_over
    found_or found (do
      recover_unhealthy_endpoints t n polls
      modify (λ s. record s { world = sleep s.world })
      get_eval_client left)

  unfoldable pub wait_for_ready : Name → ℕ → Action t n (Unit {0})
  unfolding check_health maybe_check_has_model as_operation
  wait_for_ready model timeout s =
      let clients = s.pool.admin_clients in
      let (outcome, w) =
        as_operation
          (do
            check_health t n clients timeout
            maybe_check_has_model t n clients model s.pool.skip_model_check)
          s.world in
      (outcome, record s { world = w })
