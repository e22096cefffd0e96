-- ===== src/Endpoints/Session.antt =====
-- utils/client.py, `StaticInferencePool`: the operations that send requests and keep count of what
-- became of them.
use aurora_rl.Base.{ℕ, ◌*◌, Bool, true, false, ◌&&◌, List, [], ◌∷◌, if◌then◌else◌, Result, ok, err}
use aurora_rl.Base.Names.{Name, codes, same_name}
use aurora_rl.Base.Exec.{Exec}
use aurora_rl.Endpoints.Types.{
  Texts, EndpointOperationResult, PoolError, DeltaReplayEntry, operation_error, raised, is_ok,
  any_ok,
}
use aurora_rl.Endpoints.Urls.{AdminClient}
use aurora_rl.Endpoints.Fleet.{Net, Operation}
use aurora_rl.Endpoints.Uploads.{StageJob}
use aurora_rl.Endpoints.Pool.{
  Pool, mark_failed_endpoints_retired, record_endpoint_results, healthy_admin_clients,
}

-- `set.add` and `set.discard`
unfoldable pub has_name : Name → List Name → Bool
has_name k [] = false
has_name k (j ∷ names) = if same_name j k then true else has_name k names

unfoldable pub add_name : Name → List Name → List Name
unfolding has_name
add_name k names = if has_name k names then names else k ∷ names

unfoldable pub discard_name : Name → List Name → List Name
discard_name k [] = []
discard_name k (j ∷ names) =
    let rest = discard_name k names in if same_name j k then rest else j ∷ rest

unfoldable pub forget_endpoint : Name → List (Name × List Name) → List (Name × List Name)
unfolding discard_name
forget_endpoint endpoint [] = []
forget_endpoint endpoint ((version, endpoints) ∷ staged) =
    (version, discard_name endpoint endpoints) ∷ forget_endpoint endpoint staged

-- `names.update(result.endpoint for result in results if result.ok)`
unfoldable pub add_ok_endpoints : List EndpointOperationResult → List Name → List Name
unfolding is_ok add_name
add_ok_endpoints [] names = names
add_ok_endpoints (result ∷ results) names =
    add_ok_endpoints results (if is_ok result then add_name result.endpoint names else names)

unfoldable pub replay_job : DeltaReplayEntry → StageJob
replay_job entry = record {
  weight_path = entry.weight_path;
  version = entry.version;
  mode = codes "delta";
  base_version = entry.base_version;
  upload = entry.upload;
  upload_method = entry.upload_method;
  done_path = entry.done_path;
}

-- `STAGE_UPLOAD_CHUNK_BYTES`
abbrev pub stage_upload_chunk_bytes : ℕ
stage_upload_chunk_bytes = 16 * 1024 * 1024

-- The results are recorded, and endpoints that failed are retired, before anything is raised.
unfoldable pub record_outcome :
    Result PoolError (List EndpointOperationResult)
    → Bool
    → ℕ
    → Pool
    → Result PoolError (List EndpointOperationResult) × Pool
unfolding record_endpoint_results mark_failed_endpoints_retired any_ok
record_outcome (ok results) allow_partial now p = (ok results, record_endpoint_results results p)
record_outcome (err (raised e)) allow_partial now p = (err (raised e), p)
record_outcome (err (operation_error operation results)) allow_partial now p = (
  (if allow_partial && any_ok results then ok results else err (operation_error operation results)),
  mark_failed_endpoints_retired now results (record_endpoint_results results p),
)

module _ (t : Texts) (n : Net) where
  open n use {World, monotonic, send, sleep}

  pub record Session : Type 0 where
    pub pool : Pool
    pub world : World

  abbrev pub Action : Type 0 → Type 0
  Action A = Exec Session PoolError A

  unfoldable pub change : (ℕ → Pool → Pool) → Session → Session
  change f s = record s { pool = f (monotonic s.world) s.pool }

  unfoldable pub record_admin_results : Operation t n → Bool → Action (List EndpointOperationResult)
  unfolding record_outcome
  record_admin_results operation allow_partial s =
      let (outcome, w) = operation s.world in
      let (results, p) = record_outcome outcome allow_partial (monotonic w) s.pool in
      (results, record { pool = p; world = w })

  unfoldable pub select_clients : Name → Action (List AdminClient)
  unfolding healthy_admin_clients
  select_clients operation s =
      let (selected, p) = healthy_admin_clients (monotonic s.world) operation s.pool in
      (selected, record s { pool = p })

  unfoldable pub handle :
      {A : Type 0}
      → Result PoolError A
      → (PoolError → Action (Unit {0}))
      → (A → Action (Unit {0}))
      → Action (Unit {0})
  handle (ok a) handler otherwise s = otherwise a s
  handle (err e) handler otherwise s = handler e s

  -- `try: first except Exception as e: handler(e)`, with what follows if nothing is raised.
  unfoldable pub try_except :
      {A : Type 0}
      → Action A
      → (PoolError → Action (Unit {0}))
      → (A → Action (Unit {0}))
      → Action (Unit {0})
  unfolding handle
  try_except first handler otherwise s =
      let (outcome, s') = first s in handle outcome handler otherwise s'
