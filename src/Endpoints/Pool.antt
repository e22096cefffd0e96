-- ===== src/Endpoints/Pool.antt =====
-- utils/client.py, `StaticInferencePool`: its state, the lease of an endpoint and its transitions,
-- and which clients are used.
use aurora_rl.Base.{
  ℕ, zero, suc, ◌+◌, ◌%◌, Bool, true, false, ◌||◌, not, Option, none, some, List, [], ◌∷◌, ◌++◌,
  length, get_elem?, if◌then◌else◌, Result, ok, err,
}
use aurora_rl.Base.Names.{Name, codes}
use aurora_rl.Base.Dict.{lookup, insert, set_default, update}
use aurora_rl.Endpoints.Types.{
  EndpointOperationResult, PoolError, EndpointStats, LeaseState, EndpointLeaseRuntime,
  DeltaReplayEntry, healthy, quarantine, retired, recovering, is_ok, is_healthy, record_result,
  no_stats, new_runtime, error_text, runtime_error,
}
use aurora_rl.Endpoints.Urls.{
  ClientConfig, RolloutClient, AdminClient, endpoint_key, normalize_endpoint_url,
  build_endpoint_aliases,
}

pub record Pool : Type 0 where
  pub train_clients : List RolloutClient
  pub eval_clients : List RolloutClient
  pub admin_clients : List AdminClient
  pub eval_next : ℕ
  pub endpoint_aliases : List (Name × Name)
  pub endpoint_stats : List (Name × List (Name × EndpointStats))
  pub endpoint_runtime : List (Name × EndpointLeaseRuntime)
  pub skip_model_check : Bool
  pub lease_enabled : Bool
  pub lease_cooldown : ℕ
  pub lease_recovery_enabled : Bool
  pub delta_replay_entries : List (Name × DeltaReplayEntry)
  pub staged_endpoints : List (Name × List Name)
  pub active_version : Option Name
  pub model_name : Name

unfoldable pub keyed : {V : Type 0} → V → List AdminClient → List (Name × V)
keyed v [] = []
keyed v (client ∷ clients) = (endpoint_key client, v) ∷ keyed v clients

unfoldable pub or_new : Option EndpointLeaseRuntime → EndpointLeaseRuntime
or_new none = new_runtime
or_new (some runtime) = runtime

-- `self._endpoint_runtime.setdefault(endpoint, EndpointLeaseRuntime())`
unfoldable pub runtime_of : Pool → Name → EndpointLeaseRuntime
unfolding or_new
runtime_of p endpoint = or_new (lookup endpoint p.endpoint_runtime)

unfoldable pub with_runtime : Name → Pool → Pool
with_runtime endpoint p = record p {
  endpoint_runtime = set_default endpoint new_runtime p.endpoint_runtime;
}

-- The runtime after `_set_endpoint_state`, at a time.
unfoldable pub enter : ℕ → ℕ → LeaseState → Name → EndpointLeaseRuntime → EndpointLeaseRuntime
enter now cooldown healthy reason runtime = record runtime {
  state = healthy;
  last_reason = some reason;
  quarantine_until = none;
  recovery_success_count = elim runtime.state [
    | recovering ↦ runtime.recovery_success_count + 1
    | _ ↦ runtime.recovery_success_count
  ];
}
enter now cooldown quarantine reason runtime = record runtime {
  state = quarantine;
  last_reason = some reason;
  quarantine_count = runtime.quarantine_count + 1;
  quarantine_until = some (now + cooldown);
}
enter now cooldown retired reason runtime = record runtime {
  state = retired;
  last_reason = some reason;
  retired_count = runtime.retired_count + 1;
  quarantine_until = some (now + cooldown);
}
enter now cooldown recovering reason runtime = record runtime {
  state = recovering;
  last_reason = some reason;
  recovery_attempt_count = runtime.recovery_attempt_count + 1;
  quarantine_until = none;
}

-- `previous_state == state and state != "retired"`
unfoldable pub stays : LeaseState → LeaseState → Bool
stays healthy healthy = true
stays quarantine quarantine = true
stays recovering recovering = true
stays _ _ = false

unfoldable pub next_runtime :
    ℕ → ℕ → LeaseState → Name → EndpointLeaseRuntime → EndpointLeaseRuntime
unfolding enter stays
next_runtime now cooldown state reason runtime =
    if stays runtime.state state
    then record runtime { last_reason = some reason }
    else enter now cooldown state reason runtime

unfoldable pub set_endpoint_state : ℕ → Name → LeaseState → Name → Pool → Pool
unfolding next_runtime runtime_of
set_endpoint_state now endpoint state reason p = record p {
  endpoint_runtime =
      insert endpoint (next_runtime now p.lease_cooldown state reason (runtime_of p endpoint))
        p.endpoint_runtime;
}

unfoldable pub retire_failed : ℕ → List EndpointOperationResult → Pool → Pool
unfolding set_endpoint_state is_ok error_text
retire_failed now [] p = p
retire_failed now (result ∷ results) p = retire_failed now results (
    if is_ok result
    then p
    else set_endpoint_state now result.endpoint retired
        (result.operation ++ codes " failed: " ++ error_text result.error) p)

unfoldable pub mark_failed_endpoints_retired : ℕ → List EndpointOperationResult → Pool → Pool
unfolding retire_failed
mark_failed_endpoints_retired now results p =
    if p.lease_enabled then retire_failed now results p else p

unfoldable pub or_empty {ℓ} : {V : Type ℓ} → Option (List V) → List V
or_empty none = []
or_empty (some values) = values

unfoldable pub or_no_stats : Option EndpointStats → EndpointStats
or_no_stats none = no_stats
or_no_stats (some stats) = stats

unfoldable pub stats_of : List (Name × EndpointStats) → Name → EndpointStats
unfolding or_no_stats
stats_of stats operation = or_no_stats (lookup operation stats)

unfoldable pub record_endpoint_result : EndpointOperationResult → Pool → Pool
unfolding record_result or_empty stats_of
record_endpoint_result result p =
    let stats = or_empty (lookup result.endpoint p.endpoint_stats) in
    record p {
      endpoint_stats =
          insert result.endpoint
            (insert result.operation (record_result (stats_of stats result.operation) result) stats)
            p.endpoint_stats;
    }

unfoldable pub record_endpoint_results : List EndpointOperationResult → Pool → Pool
unfolding record_endpoint_result
record_endpoint_results [] p = p
record_endpoint_results (result ∷ results) p =
    record_endpoint_results results (record_endpoint_result result p)

unfoldable pub client_endpoint_key : Pool → RolloutClient → Name
unfolding normalize_endpoint_url
client_endpoint_key p client =
    let endpoint = normalize_endpoint_url client.api_base_url in
    elim (lookup endpoint p.endpoint_aliases) [ none ↦ endpoint | some admin ↦ admin ]

unfoldable pub client_is_healthy : Pool → RolloutClient → Bool
unfolding client_endpoint_key is_healthy
client_is_healthy p client =
    not p.lease_enabled || elim (lookup (client_endpoint_key p client) p.endpoint_runtime) [
      | none ↦ true
      | some runtime ↦ is_healthy runtime.state
    ]

unfoldable pub healthy_clients : Pool → List RolloutClient → List RolloutClient
unfolding client_is_healthy
healthy_clients p [] = []
healthy_clients p (client ∷ clients) =
    let rest = healthy_clients p clients in
    if client_is_healthy p client then client ∷ rest else rest

-- What becomes of a client by its endpoint's state, given how it goes on with the endpoint as it is,
-- or retired.
unfoldable pub keep_or_skip :
    LeaseState
    → AdminClient
    → List AdminClient × Pool
    → List AdminClient × Pool
    → List AdminClient × Pool
keep_or_skip healthy client known given_up = (client ∷ known.0, known.1)
keep_or_skip quarantine client known given_up = given_up
keep_or_skip retired client known given_up = known
keep_or_skip recovering client known given_up = known

unfoldable pub missed : Name → Name
missed operation = codes "missed " ++ operation ++ codes "; delta catch-up is required before reuse"

-- The healthy clients of an operation; a quarantined endpoint that misses it is retired.
unfoldable pub select_healthy : ℕ → Name → List AdminClient → Pool → List AdminClient × Pool
unfolding with_runtime runtime_of set_endpoint_state keep_or_skip missed
select_healthy now operation [] p = ([], p)
select_healthy now operation (client ∷ clients) p =
    let endpoint = endpoint_key client in
    let known = with_runtime endpoint p in
    let go_on = select_healthy now operation clients in
    let given_up = go_on (set_endpoint_state now endpoint retired (missed operation) known) in
    keep_or_skip (runtime_of p endpoint).state client (go_on known) given_up

unfoldable pub no_healthy : Name → PoolError
unfolding runtime_error
no_healthy operation =
    runtime_error
      (codes "No healthy inference endpoints are available for " ++ operation ++ codes ".")

-- `if not selected_clients: raise RuntimeError(...)`
unfoldable pub some_selected : Name → List AdminClient → Result PoolError (List AdminClient)
unfolding no_healthy
some_selected operation [] = err (no_healthy operation)
some_selected operation (client ∷ clients) = ok (client ∷ clients)

unfoldable pub healthy_admin_clients : ℕ → Name → Pool → Result PoolError (List AdminClient) × Pool
unfolding select_healthy some_selected
healthy_admin_clients now operation p =
    if not p.lease_enabled
    then (ok p.admin_clients, p)
    else let (selected, p') = select_healthy now operation p.admin_clients p in
      (some_selected operation selected, p')

-- An endpoint that is known and healthy goes into quarantine: other states stay.
unfoldable pub quarantine_healthy : ℕ → Name → Name → Option EndpointLeaseRuntime → Pool → Pool
unfolding set_endpoint_state is_healthy
quarantine_healthy now endpoint reason none p = p
quarantine_healthy now endpoint reason (some runtime) p =
    if is_healthy runtime.state then set_endpoint_state now endpoint quarantine reason p else p

-- A failed request of a rollout.
unfoldable pub quarantine_client : ℕ → RolloutClient → Name → Pool → Pool
unfolding client_endpoint_key quarantine_healthy
quarantine_client now client reason p =
    let endpoint = client_endpoint_key p client in
    if not p.lease_enabled
    then p
    else quarantine_healthy now endpoint reason (lookup endpoint p.endpoint_runtime) p

-- What comes of a client of the cycle, with the pool moved on and what the later ones come to.
unfoldable pub take_or_skip :
    Option RolloutClient → Pool → Pool → Option RolloutClient × Pool → Option RolloutClient × Pool
unfolding client_is_healthy
take_or_skip none p moved rest = (none, p)
take_or_skip (some client) p moved rest =
    if client_is_healthy p client then (some client, moved) else rest

-- `for _ in range(len(self._eval_clients))`, with so many turns left.
unfoldable pub next_eval_client : ℕ → Pool → Option RolloutClient × Pool
unfolding take_or_skip
next_eval_client zero p = (none, p)
next_eval_client (suc left) p =
    let moved = record p { eval_next = (p.eval_next + 1) % length p.eval_clients } in
    let rest = next_eval_client left moved in
    take_or_skip (get_elem? p.eval_clients p.eval_next) p moved rest

unfoldable pub eval_pass : Pool → Option RolloutClient × Pool
unfolding next_eval_client
eval_pass p = next_eval_client (length p.eval_clients) p

-- `StaticInferencePool.__init__`, from the clients of `setup_clients` and `setup_admin_clients`.
unfoldable pub build_pool :
    ClientConfig → Name → List RolloutClient → List RolloutClient → List AdminClient → Pool
unfolding keyed build_endpoint_aliases
build_pool config model_name train_clients eval_clients admin_clients = record {
  train_clients = train_clients;
  eval_clients = eval_clients;
  admin_clients = admin_clients;
  eval_next = 0;
  endpoint_aliases = build_endpoint_aliases config;
  endpoint_stats = update [] (keyed [] admin_clients);
  endpoint_runtime = update [] (keyed new_runtime admin_clients);
  skip_model_check = config.skip_model_check;
  lease_enabled = config.lease_enabled;
  lease_cooldown = config.lease_cooldown;
  lease_recovery_enabled = config.lease_recovery_enabled;
  delta_replay_entries = [];
  staged_endpoints = [];
  active_version = none;
  model_name = model_name;
}
