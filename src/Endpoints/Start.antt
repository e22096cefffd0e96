-- ===== src/Endpoints/Start.antt =====
-- utils/client.py: what is done before the first update: `check_health`, `maybe_check_has_model` and
-- `init_nccl_broadcast`.
use aurora_rl.Base.{
  ℕ, zero, suc, ◌+◌, ◌*◌, ◌/◌, Bool, true, false, Option, none, some, List, [], ◌∷◌, ◌++◌, map,
  length, if◌then◌else◌, Result, ok, err,
}
use aurora_rl.Base.Names.{Name, codes, same_name}
use aurora_rl.Base.Exec.{pure, lift, ◌>>=◌, ◌>>◌}
use aurora_rl.Endpoints.Types.{Texts, Failure, exception}
use aurora_rl.Endpoints.Urls.{AdminClient}
use aurora_rl.Endpoints.Fleet.{
  Net, Broadcast, Call, Response, health, models, init_broadcaster, post,
}
use aurora_rl.Endpoints.Calls.{gather}

-- The answer of `/v1/models` names the model.
unfoldable pub has_model : Name → List Name → Bool
has_model model [] = false
has_model model (id ∷ ids) = if same_name id model then true else has_model model ids

-- `except httpx.HTTPStatusError`, whose branch ends without raising again, for any status.
unfoldable pub drop_status : Option ℕ → Failure → Result Failure (Unit {0})
drop_status none e = err e
drop_status (some status) e = ok tt

unfoldable pub without_status : Result Failure (Unit {0}) → Result Failure (Unit {0})
unfolding drop_status
without_status (ok done) = ok tt
without_status (err e) = drop_status e.status e

module _ (t : Texts) (n : Net) where
  open n use {World, send, sleep}

  -- `left` seconds, at an interval of one. openai's `NotFoundError` counts as an answer.
  unfoldable pub ping : ℕ → ℕ → AdminClient → Call t n (Unit {0})
  ping timeout zero client w = (
    err (
        exception (codes "TimeoutError") (
          codes "Inference server is not ready after "
          ++ t.show_int timeout
          ++ codes " (>"
          ++ t.show_int timeout
          ++ codes ") seconds. Aborting...")),
    w,
  )
  ping timeout (suc left) client w =
      let (outcome, w') = send client.base_url health w in
      let rest = ping timeout left client (sleep w') in
      elim outcome [
        | ok response ↦ (ok tt, w')
        | err e ↦ if same_name e.class_name (codes "NotFoundError") then (ok tt, w') else rest
      ]

  unfoldable pub check_health : List AdminClient → ℕ → Call t n (Unit {0})
  unfolding ping gather
  check_health clients timeout = gather (map (ping timeout timeout) clients)

  unfoldable pub fetch_models : AdminClient → Call t n Response
  fetch_models client = send client.base_url models

  -- `gather` of the answers: the first exception, or all of them.
  unfoldable pub fetch_all : List AdminClient → Call t n (List Response)
  unfolding fetch_models
  fetch_all [] w = (ok [], w)
  fetch_all (client ∷ clients) w =
      let (outcome, w') = fetch_models client w in
      let (others, w'') = fetch_all clients w' in
      (
        elim outcome [
          | err e ↦ err e
          | ok response ↦ elim others [ err e ↦ err e | ok rest ↦ ok (response ∷ rest) ]
        ],
        w'',
      )

  unfoldable pub check_models : Name → List AdminClient → List Response → Result Failure (Unit {0})
  unfolding has_model
  check_models model (client ∷ clients) (response ∷ rest) = elim response.models [
    | none ↦ err (exception (codes "KeyError") (codes "'data'"))
    | some ids ↦
        if has_model model ids
        then check_models model clients rest
        else err (
            exception (codes "ValueError") (
              codes "Model "
              ++ model
              ++ codes " was not found in the inference pool on "
              ++ client.base_url))
  ]
  check_models model [] rest = ok tt
  check_models model clients [] = ok tt

  unfoldable pub maybe_check_has_model : List AdminClient → Name → Bool → Call t n (Unit {0})
  unfolding fetch_all check_models
  maybe_check_has_model clients model true = pure tt
  maybe_check_has_model clients model false = do
    responses ← fetch_all clients
    lift (check_models model clients responses)

  unfoldable pub ignore_status_error : Call t n (Unit {0}) → Call t n (Unit {0})
  unfolding without_status
  ignore_status_error call w = let (outcome, w') = call w in (without_status outcome, w')

  unfoldable pub init_server : Broadcast → AdminClient → Call t n (Unit {0})
  unfolding ignore_status_error post
  init_server broadcast client =
      ignore_status_error (do post t n client (init_broadcaster broadcast); pure tt)

  -- `client_num * gpus_per_server`, from a client on.
  unfoldable pub init_servers : Broadcast → ℕ → ℕ → List AdminClient → List (Call t n (Unit {0}))
  unfolding init_server
  init_servers broadcast gpus_per_server client_num [] = []
  init_servers broadcast gpus_per_server client_num (client ∷ clients) =
      init_server (record broadcast { rank_offset = client_num * gpus_per_server }) client
      ∷ init_servers broadcast gpus_per_server (client_num + 1) clients

  unfoldable pub world_size : Option ℕ → List AdminClient → ℕ
  world_size none clients = length clients
  world_size (some size) clients = size

  -- `broadcast` holds the arguments; its world size is used where one is given.
  unfoldable pub init_nccl_broadcast : List AdminClient → Broadcast → Option ℕ → Call t n (Unit {0})
  unfolding init_servers gather world_size
  init_nccl_broadcast [] broadcast given w =
      (err (exception (codes "ZeroDivisionError") (codes "division by zero")), w)
  init_nccl_broadcast (client ∷ clients) broadcast given w =
      let size = world_size given (client ∷ clients) in
      gather
        (init_servers (record broadcast { inference_world_size = size })
          (size / length (client ∷ clients)) 0 (client ∷ clients))
        w
