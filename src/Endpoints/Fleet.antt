-- ===== src/Endpoints/Fleet.antt =====
-- utils/client.py: requests to one inference server, and an operation on all of them. The servers,
-- the clocks and the files are a world outside, which each request may change.
use aurora_rl.Base.{
  ℕ, ◌-◌, Bool, ◌&&◌, Option, none, some, List, [], ◌∷◌, leb, ltb, if◌then◌else◌, Result, ok, err,
}
use aurora_rl.Base.Names.{Name}
use aurora_rl.Base.Exec.{Exec, pure, lift, ◌>>=◌, ◌>>◌}
use aurora_rl.Endpoints.Types.{
  Texts, Failure, EndpointOperationResult, PoolError, operation_error, all_ok, format_exception,
}
use aurora_rl.Endpoints.Urls.{AdminClient, endpoint_key}

pub record Response : Type 0 where
  pub status_code : ℕ
  pub upload_id : Option Name
  pub models : Option (List Name)

-- The fields `version`, `mode` and `base_version` of a request that stages weights.
pub record Metadata : Type 0 where
  pub version : Name
  pub mode : Name
  pub base_version : Option Name

pub record Whole : Type 0 where
  pub filename : Name
  pub total_size : ℕ
  pub sha256 : Name

pub record Broadcast : Type 0 where
  pub host : Name
  pub port : ℕ
  pub rank_offset : ℕ
  pub inference_world_size : ℕ
  pub timeout : ℕ
  pub quantize_in_weight_transfer : Bool

pub data Request : Type 0 where
  health models pause resume reload : Request
  update : Option Name → Name → Request
  stage_path : Metadata → Name → Request
  stage_file : Metadata → Name → List ℕ → Request
  stage_chunk : Metadata → Whole → ℕ → List ℕ → Request
  stage_finalize : Metadata → Whole → Request
  stream_init : Metadata → Name → Request
  stream_chunk : Name → ℕ → ℕ → List ℕ → Request
  stream_finalize : Name → ℕ → Name → Request
  commit : Name → Option Name → Request
  load_lora : Name → Name → Request
  unload_lora : Name → Request
  init_broadcaster : Broadcast → Request

-- What is outside of the program: the servers behind httpx, the clocks, the file system and hashes,
-- and tenacity's `retry` with its stops and waits, which is told what to retry on.
pub record Net : Type 1 where
  pub World : Type 0
  pub monotonic : World → ℕ
  pub perf_counter : World → ℕ
  pub sleep : World → World
  pub send : Name → Request → World → Result Failure Response × World
  pub status_failure : Response → Failure
  pub retry :
      (Failure → Bool)
      → (World → Result Failure (Unit {0}) × World)
      → World
      → Result Failure (Unit {0}) × World
  pub exists : Name → World → Bool
  pub is_dir : Name → World → Bool
  pub read_file : Name → World → Option (List ℕ)
  pub make_marker : Name → World → Result Failure (Unit {0}) × World
  pub join : Name → Name → Name
  pub file_name : Name → Name
  pub sha256_of : List ℕ → Name

unfoldable pub is_success : Response → Bool
is_success response = leb 200 response.status_code && ltb response.status_code 300

-- What `last` raises takes the place of what `first` did.
unfoldable pub closing :
    Result Failure (Unit {0}) → Result Failure (Unit {0}) → Result Failure (Unit {0})
closing outcome (err e) = err e
closing outcome (ok done) = outcome

-- The exception of a call, as a text.
unfoldable pub error_of : Texts → Result Failure (Unit {0}) → Option Name
error_of t (ok done) = none
error_of t (err e) = some (format_exception t e)

module _ (t : Texts) (n : Net) where
  open n use {World, perf_counter, send, status_failure}

  abbrev pub Call : Type 0 → Type 0
  Call A = Exec World Failure A

  -- A request, and `response.raise_for_status()`.
  unfoldable pub raise_for_status : Response → Result Failure Response
  unfolding is_success
  raise_for_status response =
      if is_success response then ok response else err (status_failure response)

  unfoldable pub post : AdminClient → Request → Call Response
  unfolding raise_for_status
  post client request = do response ← send client.base_url request; lift (raise_for_status response)

  -- A request of which only the outcome counts.
  unfoldable pub tell : AdminClient → Request → Call (Unit {0})
  unfolding post
  tell client request = do post client request; pure tt

  -- `try: first finally: last`
  unfoldable pub finally : Call (Unit {0}) → Call (Unit {0}) → Call (Unit {0})
  unfolding closing
  finally first last w =
      let (outcome, w') = first w in let (closed, w'') = last w' in (closing outcome closed, w'')

  -- One call, timed, with its exception as a text.
  unfoldable pub run_one :
      Name → (AdminClient → Call (Unit {0})) → AdminClient → World → EndpointOperationResult × World
  unfolding error_of
  run_one operation call client w =
      let (outcome, w') = call client w in
      (
        record {
          endpoint = endpoint_key client;
          operation = operation;
          duration = perf_counter w' - perf_counter w;
          error = error_of t outcome;
        },
        w',
      )

  unfoldable pub run_each :
      Name
      → (AdminClient → Call (Unit {0}))
      → List AdminClient
      → World
      → List EndpointOperationResult × World
  unfolding run_one
  run_each operation call [] w = ([], w)
  run_each operation call (client ∷ clients) w =
      let (result, w') = run_one operation call client w in
      let (results, w'') = run_each operation call clients w' in (result ∷ results, w'')

  abbrev pub Operation : Type 0
  Operation = Exec World PoolError (List EndpointOperationResult)

  unfoldable pub run_endpoint_operations :
      List AdminClient → Name → (AdminClient → Call (Unit {0})) → Operation
  unfolding run_each
  run_endpoint_operations clients operation call w =
      let (results, w') = run_each operation call clients w in
      ((if all_ok results then ok results else err (operation_error operation results)), w')
