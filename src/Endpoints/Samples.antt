-- ===== src/Endpoints/Samples.antt =====
-- Pools and a server that show the parts of the pool at work.
use aurora_rl.Base.{
  ℕ, ◌+◌, ◌≡◌, Bool, ◌&&◌, ◌==◌, eq→==, length, Option, refl, ap, true, false, none, some, List, [],
  ◌∷◌, ◌++◌, if◌then◌else◌, ok, arith,
}
use aurora_rl.Base.Int.{pos}
use aurora_rl.Base.Names.{Name, codes, same_name, same_name_refl}
use aurora_rl.Base.Exec.{◌>>=◌}
use aurora_rl.Endpoints.Types.{
  EndpointOperationResult, EndpointLeaseRuntime, DeltaReplayEntry, is_none, new_runtime, recovering,
  healthy,
}
use aurora_rl.Endpoints.Urls.{
  RolloutClient, AdminClient, setup_clients, setup_admin_clients, rollout_client,
}
use aurora_rl.Endpoints.Fleet.{
  Net, Request, Response, stage_chunk, stage_finalize, init_broadcaster, Whole,
}
use aurora_rl.Endpoints.Uploads.{stage_chunked_upload}
use aurora_rl.Endpoints.Pool.{
  Pool, runtime_of, or_new, set_endpoint_state, record_endpoint_results, client_is_healthy,
  client_endpoint_key,
}
use aurora_rl.Endpoints.Plan.{at_most, delta_replay_plan}
use aurora_rl.Endpoints.Session.{Session}
use aurora_rl.Endpoints.Start.{init_nccl_broadcast}
use aurora_rl.Endpoints.Updates.{get_eval_client}
use aurora_rl.Endpoints.Sync.Replay.{Numbered}
use aurora_rl.Endpoints.Runs.{texts, config, answer, job, net}
use aurora_rl.Endpoints.Leases.{IsLease, waits, open_attempts, set_endpoint_state-IsLease}
use aurora_rl.Endpoints.Stats.{
  stats_at, count_results, count_errors, record_endpoint_results-counts,
}
use aurora_rl.Endpoints.Chain.{delta_replay_plan-Chain, delta_replay_plan-Numbered}
use aurora_rl.Endpoints.Evals.{get_eval_client-finds}
use aurora_rl.Endpoints.Chunks.{Receives, stage_chunked_upload-delivers}
use aurora_rl.Endpoints.Broadcast.{Answers, init_nccl_broadcast-returns}

abbrev clients : List RolloutClient
clients = setup_clients (λ v. none) (λ n. n ∷ []) config (codes "chat") none none none

abbrev admins : List AdminClient
admins = setup_admin_clients (λ v. none) (λ n. n ∷ []) config

abbrev entry : ℕ → DeltaReplayEntry
entry version = record {
  weight_path = codes "d";
  version = version ∷ [];
  base_version = none;
  upload = false;
  upload_method = codes "chunked";
  done_path = none;
}

abbrev under_recovery : EndpointLeaseRuntime
under_recovery = record new_runtime { state = recovering; recovery_attempt_count = 1 }

-- One endpoint is being recovered, two deltas were remembered, and the second is active.
abbrev pool : Pool
pool = record {
  train_clients = [];
  eval_clients = clients;
  admin_clients = admins;
  eval_next = 1;
  endpoint_aliases = [];
  endpoint_stats = [];
  endpoint_runtime = (codes "a", under_recovery) ∷ [];
  skip_model_check = false;
  lease_enabled = true;
  lease_cooldown = 5;
  lease_recovery_enabled = true;
  delta_replay_entries = (codes "1", entry 1) ∷ (codes "2", entry 2) ∷ [];
  staged_endpoints = [];
  active_version = some (2 ∷ []);
  model_name = codes "m";
}

IsLease-of : (k : Name) → IsLease (runtime_of pool k)
unfolding runtime_of or_new waits open_attempts is_none
IsLease-of k =
    elim (same_name (codes "a") k)
      as (λ b. IsLease (or_new (if b then some under_recovery else none))) [
        | true ↦ record { deadline = refl; attempts = omega arith }
        | false ↦ record { deadline = refl; attempts = omega arith }
      ]

set_endpoint_state-IsLease_example :
    IsLease (runtime_of (set_endpoint_state 7 (codes "a") healthy (codes "done") pool) (codes "a"))
set_endpoint_state-IsLease_example =
    set_endpoint_state-IsLease 7 (codes "a") healthy (codes "done") pool IsLease-of (codes "a")

abbrev failed : EndpointOperationResult
failed = record {
  endpoint = codes "a";
  operation = codes "commit_weights";
  duration = 3;
  error = some (codes "timeout");
}

record_endpoint_results-counts_example :
    let after =
      stats_at
        (record_endpoint_results (failed ∷ failed ∷ []) pool)
        (codes "a")
        (codes "commit_weights") in
    let before = stats_at pool (codes "a") (codes "commit_weights") in
    (after.requests
      ≡ before.requests + count_results (codes "a") (codes "commit_weights") (failed ∷ failed ∷ []))
    × (after.errors
        ≡ before.errors + count_errors (codes "a") (codes "commit_weights") (failed ∷ failed ∷ []))
record_endpoint_results-counts_example =
    record_endpoint_results-counts (failed ∷ failed ∷ []) pool (codes "a") (codes "commit_weights")

delta_replay_plan-Chain_example : delta_replay_plan texts pool ≡ ok (entry 1 ∷ entry 2 ∷ [])
delta_replay_plan-Chain_example =
    delta_replay_plan-Chain texts pool (2 ∷ []) 2 (refl, (refl, tt)) refl refl (omega arith)

delta_replay_plan-Numbered_example :
    (e : ℕ) × Numbered texts (pos 2) 1 (entry 1 ∷ entry 2 ∷ []) e
    × (at_most (pos e) (pos 2) ≡ false)
delta_replay_plan-Numbered_example =
    delta_replay_plan-Numbered texts pool (entry 1 ∷ entry 2 ∷ []) (2 ∷ []) (pos 2) refl refl
      (delta_replay_plan-Chain texts pool (2 ∷ []) 2 (refl, (refl, tt)) refl refl (omega arith))

abbrev session : Session texts net
session = record { pool = pool; world = record { served = λ k. none; clock = 0; down = codes "b" } }

abbrev first_client : RolloutClient
first_client =
    rollout_client (λ v. none) (λ n. n ∷ []) config (codes "chat") none (codes "a/v1") 0 0

abbrev third_client : RolloutClient
third_client =
    rollout_client (λ v. none) (λ n. n ∷ []) config (codes "chat") none (codes "b/v1/") 0 2

get_eval_client-finds_example :
    (found : RolloutClient) × ((get_eval_client texts net 1 1 session).0 ≡ ok (some found))
    × (client_is_healthy pool found ≡ true)
unfolding client_is_healthy client_endpoint_key setup_clients
get_eval_client-finds_example =
    get_eval_client-finds texts net 1 0 2 session third_client (omega arith) (omega arith) refl refl

-- Servers that keep what they received of each upload, and what they have staged. They know no NCCL
-- broadcast.
record Store : Type 0 where
  parts : Name → Name → Name → List ℕ
  versions : Name → Name → Option (List ℕ)

empty_store : Store
empty_store = record { parts = λ url version mode. []; versions = λ url version. none }

-- A chunk that does not begin where the ones before end is refused.
fits : ℕ → List ℕ → Bool
fits offset received = offset == length received

take_in : Name → Request → Store → Response × Store
unfolding fits
take_in url (stage_chunk info whole offset chunk) w =
    if fits offset (w.parts url info.version info.mode)
    then (
      answer,
      record w {
        parts = λ u v m.
            if same_name url u && same_name info.version v && same_name info.mode m
            then w.parts u v m ++ chunk
            else w.parts u v m;
      },
    )
    else (record answer { status_code = 409 }, w)
take_in url (stage_finalize info whole) w = (
  answer,
  record w {
    versions = λ u v.
        if same_name url u && same_name info.version v
        then some (w.parts url info.version info.mode)
        else w.versions u v;
  },
)
take_in url (init_broadcaster b) w = (record answer { status_code = 500 }, w)
take_in url _ w = (answer, w)

abbrev appending : Net
appending = record {
  World = Store;
  monotonic = λ w. 0;
  perf_counter = λ w. 0;
  sleep = λ w. w;
  send = λ url r w. let (response, w') = take_in url r w in (ok response, w');
  status_failure = λ r. record {
    class_name = codes "HTTPStatusError";
    message = [];
    status = some r.status_code;
    is_transport = false;
  };
  retry = λ again call. call;
  exists = λ path w. true;
  is_dir = λ path w. false;
  read_file = λ path w. some (4 ∷ 5 ∷ 6 ∷ []);
  make_marker = λ path w. (ok tt, w);
  join = λ a b. a;
  file_name = λ path. path;
  sha256_of = λ content. content;
}

receives : Receives appending (λ w. w.parts) (λ w. w.versions)
unfolding take_in fits
receives = record {
  appends = λ url info whole offset chunk w w' response sent success e.
      let fit = eq→== offset (length (w.parts url info.version info.mode)) e in
      rw
        (
          ← ap (λ r. r.1) (rw fit at sent),
          same_name_refl url,
          same_name_refl info.version,
          same_name_refl info.mode,
        )
        refl;
  finalized = λ url info whole w w' response sent success.
      rw (← ap (λ r. r.1) sent, same_name_refl url, same_name_refl info.version) refl;
}

answers : Answers appending
answers = record {
  status = λ response. refl;
  reply = λ url r w. (take_in url r w).0;
  answered = λ url r w. refl;
}

abbrev server : AdminClient
server = record {
  base_url = codes "a";
  headers = [];
  max_connections = 4;
  max_keepalive_connections = 1;
  timeout = 1;
  connect_timeout = 1;
}

abbrev whole : Whole
whole = record { filename = codes "f"; total_size = 3; sha256 = codes "h" }

delivered : Store
unfolding stage_chunked_upload take_in fits empty_store
delivered = (stage_chunked_upload texts appending job 2 (codes "f") whole server empty_store).1

stage_chunked_upload-delivers_example :
    delivered.versions (codes "a") job.version ≡ some (4 ∷ 5 ∷ 6 ∷ [])
unfolding delivered empty_store take_in fits ◌>>=◌
stage_chunked_upload-delivers_example =
    stage_chunked_upload-delivers texts appending (λ w. w.parts) (λ w. w.versions) receives job 2
      (codes "f") whole server (4 ∷ 5 ∷ 6 ∷ []) empty_store delivered (omega arith) refl refl refl

init_nccl_broadcast-returns_example :
    (init_nccl_broadcast texts appending
      (server ∷ [])
      (record {
        host = codes "h";
        port = 1;
        rank_offset = 0;
        inference_world_size = 0;
        timeout = 1;
        quantize_in_weight_transfer = false;
      })
      none
      empty_store).0
    ≡ ok tt
init_nccl_broadcast-returns_example =
    init_nccl_broadcast-returns texts appending answers server [] _ none empty_store
