-- ===== src/Endpoints/Calls.antt =====
-- utils/client.py: the operations that update the weights of the servers, and those that start them.
use aurora_rl.Base.{Bool, ◌||◌, Option, none, some, List, [], ◌∷◌, map, ◌==◌, Result, ok, err}
use aurora_rl.Base.Names.{Name, codes}
use aurora_rl.Base.Exec.{Exec, pure, ◌>>◌}
use aurora_rl.Endpoints.Types.{Texts, Failure, EndpointOperationResult, PoolError, raised}
use aurora_rl.Endpoints.Urls.{AdminClient, endpoint_key}
use aurora_rl.Endpoints.Fleet.{
  Net, Call, Operation, pause, resume, reload, update, commit, load_lora, unload_lora, tell,
  finally, run_endpoint_operations,
}

-- A call that raises an operation's errors where it raises one of its own.
unfoldable pub as_operation : {W A : Type 0} → Exec W Failure A → Exec W PoolError A
as_operation call w =
    let (outcome, w') = call w in (elim outcome [ ok a ↦ ok a | err e ↦ err (raised e) ], w')

-- `asyncio.gather`: all calls are made, and the first exception is raised.
unfoldable pub first_error :
    Result Failure (Unit {0}) → Result Failure (Unit {0}) → Result Failure (Unit {0})
first_error (ok done) others = others
first_error (err e) others = err e

unfoldable pub gather : {W : Type 0} → List (Exec W Failure (Unit {0})) → Exec W Failure (Unit {0})
unfolding first_error
gather [] w = (ok tt, w)
gather (call ∷ calls) w =
    let (outcome, w') = call w in
    let (others, w'') = gather calls w' in (first_error outcome others, w'')

unfoldable pub is_retryable_lora_error : Failure → Bool
is_retryable_lora_error e = elim e.status [
  | some status ↦ status == 404 || status == 500
  | none ↦ e.is_transport
]

unfoldable pub lora_loaded : List AdminClient → List EndpointOperationResult
lora_loaded = map λ client. record {
  endpoint = endpoint_key client;
  operation = codes "load_lora";
  duration = 0;
  error = none;
}

module _ (t : Texts) (n : Net) where
  open n use {World, send, sleep, join, make_marker, retry}

  unfoldable pub with_pause :
      (AdminClient → Call t n (Unit {0})) → AdminClient → Call t n (Unit {0})
  unfolding tell finally
  with_pause call client = do
    tell t n client pause
    finally t n (call client) (tell t n client resume)

  unfoldable pub commit_weights : List AdminClient → Name → Option Name → Operation t n
  unfolding run_endpoint_operations with_pause
  commit_weights clients version mode =
      run_endpoint_operations t n clients (codes "commit_weights")
        (with_pause (λ client. tell t n client (commit version mode)))

  unfoldable pub reload_weights : List AdminClient → Operation t n
  unfolding run_endpoint_operations with_pause
  reload_weights clients =
      run_endpoint_operations t n clients (codes "reload_weights")
        (with_pause (λ client. tell t n client reload))

  unfoldable pub load_lora_adapter : List AdminClient → Name → Name → Call t n (Unit {0})
  unfolding tell gather
  load_lora_adapter clients lora_name lora_path = gather (
      map
        (λ client. retry is_retryable_lora_error (tell t n client (load_lora lora_name lora_path)))
        clients)

  -- The status of the answer is not looked at.
  unfoldable pub unload_lora_adapter : List AdminClient → Name → Call t n (Unit {0})
  unfolding gather
  unload_lora_adapter clients lora_name =
      gather (map (λ client. (do send client.base_url (unload_lora lora_name); pure tt)) clients)

  unfoldable pub pause_engines : List AdminClient → Call t n (Unit {0})
  unfolding gather tell
  pause_engines clients = gather (map (λ client. tell t n client pause) clients)

  unfoldable pub resume_engines : List AdminClient → Call t n (Unit {0})
  unfolding gather tell
  resume_engines clients = gather (map (λ client. tell t n client resume) clients)

  -- The marker of the NCCL broadcast, where there is a directory.
  unfoldable pub mark_ready : Option Name → Call t n (Unit {0})
  mark_ready none = pure tt
  mark_ready (some weight_dir) = make_marker (join weight_dir (codes "NCCL_READY"))

  -- `finally: await _resume_engines(...)`
  unfoldable pub then_resume : List AdminClient → Operation t n → Operation t n
  unfolding resume_engines
  then_resume clients operation w =
      let (outcome, w') = operation w in
      let (resumed, w'') = resume_engines clients w' in
      (elim resumed [ err e ↦ err (raised e) | ok done ↦ outcome ], w'')

  unfoldable pub update_all : List AdminClient → Option Name → Name → Operation t n
  unfolding pause_engines mark_ready then_resume run_endpoint_operations as_operation
  update_all clients weight_dir mode = do
    as_operation (pause_engines clients)
    then_resume clients (do
      as_operation (mark_ready weight_dir)
      run_endpoint_operations t n clients (codes "update_weights")
          (λ client. tell t n client (update weight_dir mode)))

  unfoldable pub load_lora_all : List AdminClient → Name → Name → Operation t n
  unfolding load_lora_adapter lora_loaded as_operation
  load_lora_all clients lora_name weight_dir = do
    as_operation (load_lora_adapter clients lora_name weight_dir)
    pure (lora_loaded clients)

  unfoldable pub update_weights :
      List AdminClient → Option Name → Option Name → Name → Operation t n
  unfolding update_all load_lora_all
  update_weights clients weight_dir none mode = update_all clients weight_dir mode
  update_weights clients none (some lora_name) mode = update_all clients none mode
  update_weights clients (some weight_dir) (some lora_name) mode =
      load_lora_all clients lora_name weight_dir
