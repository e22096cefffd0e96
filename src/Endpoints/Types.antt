-- ===== src/Endpoints/Types.antt =====
-- utils/client.py: what the pool keeps of an endpoint, and the exceptions that an operation ends in.
use aurora_rl.Base.{
  ℕ, ◌+◌, Bool, true, false, ◌&&◌, Option, none, some, List, [], ◌∷◌, ◌++◌, length, if◌then◌else◌,
}
use aurora_rl.Base.Int.{ℤ}
use aurora_rl.Base.Names.{Name, codes}

-- Texts, as Python's own functions see them.
pub record Texts : Type 0 where
  pub is_space : ℕ → Bool
  pub show_int : ℕ → Name
  pub repr : Name → Name
  pub parse_int : Name → Option ℤ

-- An exception by the name of its class and its message; with the status of the response where it
-- is an `HTTPStatusError`, and whether it is a `TimeoutException` or a `TransportError` of httpx.
pub record Failure : Type 0 where
  pub class_name : Name
  pub message : Name
  pub status : Option ℕ
  pub is_transport : Bool

-- Durations are counted in ticks of the clock.
pub record EndpointOperationResult : Type 0 where
  pub endpoint : Name
  pub operation : Name
  pub duration : ℕ
  pub error : Option Name

unfoldable pub is_none {ℓ} : {A : Type ℓ} → Option A → Bool
is_none none = true
is_none (some a) = false

unfoldable pub is_ok : EndpointOperationResult → Bool
unfolding is_none
is_ok result = is_none result.error

unfoldable pub all_ok : List EndpointOperationResult → Bool
unfolding is_ok
all_ok [] = true
all_ok (result ∷ results) = is_ok result && all_ok results

unfoldable pub any_ok : List EndpointOperationResult → Bool
unfolding is_ok
any_ok [] = false
any_ok (result ∷ results) = if is_ok result then true else any_ok results

-- `EndpointOperationError` with its operation and results, or another exception.
pub data PoolError : Type 0 where
  operation_error : Name → List EndpointOperationResult → PoolError
  raised : Failure → PoolError

abbrev pub exception : Name → Name → Failure
exception class_name message = record {
  class_name = class_name;
  message = message;
  status = none;
  is_transport = false;
}

unfoldable pub runtime_error : Name → PoolError
runtime_error message = raised (exception (codes "RuntimeError") message)

pub record EndpointStats : Type 0 where
  pub requests : ℕ
  pub errors : ℕ
  pub total_duration : ℕ
  pub last_duration : ℕ

abbrev pub no_stats : EndpointStats
no_stats = record { requests = 0; errors = 0; total_duration = 0; last_duration = 0 }

unfoldable pub record_result : EndpointStats → EndpointOperationResult → EndpointStats
unfolding is_ok
record_result stats result = record {
  requests = stats.requests + 1;
  errors = if is_ok result then stats.errors else stats.errors + 1;
  total_duration = stats.total_duration + result.duration;
  last_duration = result.duration;
}

pub data LeaseState : Type 0 where
  healthy quarantine retired recovering : LeaseState

unfoldable pub is_healthy : LeaseState → Bool
is_healthy healthy = true
is_healthy _ = false

pub record EndpointLeaseRuntime : Type 0 where
  pub state : LeaseState
  pub quarantine_until : Option ℕ
  pub quarantine_count : ℕ
  pub retired_count : ℕ
  pub recovery_attempt_count : ℕ
  pub recovery_success_count : ℕ
  pub last_reason : Option Name

abbrev pub new_runtime : EndpointLeaseRuntime
new_runtime = record {
  state = healthy;
  quarantine_until = none;
  quarantine_count = 0;
  retired_count = 0;
  recovery_attempt_count = 0;
  recovery_success_count = 0;
  last_reason = none;
}

pub record DeltaReplayEntry : Type 0 where
  pub weight_path : Name
  pub version : Name
  pub base_version : Option Name
  pub upload : Bool
  pub upload_method : Name
  pub done_path : Option Name

unfoldable pub failures : List EndpointOperationResult → List EndpointOperationResult
unfolding is_ok
failures [] = []
failures (result ∷ results) =
    let rest = failures results in if is_ok result then rest else result ∷ rest

-- `f"{error}"`, which is "None" where there is none.
unfoldable pub error_text : Option Name → Name
error_text none = codes "None"
error_text (some text) = text

unfoldable pub join_failures : List EndpointOperationResult → Name
unfolding error_text
join_failures [] = []
join_failures (failure ∷ []) = failure.endpoint ++ codes ": " ++ error_text failure.error
join_failures (failure ∷ next ∷ rest) =
    failure.endpoint
    ++ codes ": "
    ++ error_text failure.error
    ++ codes "; "
    ++ join_failures (next ∷ rest)

module _ (t : Texts) where
  -- `text.strip()`
  unfoldable pub strip_left : Name → Name
  strip_left [] = []
  strip_left (c ∷ text) = if t.is_space c then strip_left text else c ∷ text

  unfoldable pub strip_right : Name → Name
  strip_right [] = []
  strip_right (c ∷ text) = elim (strip_right text) [
    | [] ↦ if t.is_space c then [] else c ∷ []
    | d ∷ rest ↦ c ∷ d ∷ rest
  ]

  unfoldable pub format_exception : Failure → Name
  unfolding strip_left strip_right
  format_exception e = elim (strip_left (strip_right e.message)) [
    | [] ↦ e.class_name
    | c ∷ message ↦ e.class_name ++ codes ": " ++ c ∷ message
  ]

  -- `str(exc)`
  unfoldable pub str_error : PoolError → Name
  unfolding failures join_failures
  str_error (raised e) = e.message
  str_error (operation_error operation results) =
      operation
      ++ codes " failed on "
      ++ t.show_int (length (failures results))
      ++ codes "/"
      ++ t.show_int (length results)
      ++ codes " inference endpoint(s): "
      ++ join_failures (failures results)
