-- ===== src/Endpoints/Runs.antt =====
-- Two servers, of which one may be down, and what the pool does with them.
use aurora_rl.Base.{
  ℕ, ◌+◌, ◌≡◌, refl, sym, ap, ◌∙◌, inl, inr, true, false, Option, none, some, List, [], ◌∷◌,
  Bool-cases, if◌then◌else◌, Result, ok, err,
}
use aurora_rl.Base.Int.{pos}
use aurora_rl.Base.Names.{Name, codes, same_name, same_name_refl}
use aurora_rl.Endpoints.Types.{
  Texts, Failure, LeaseState, EndpointLeaseRuntime, exception, healthy, retired, all_ok,
}
use aurora_rl.Base.Dict.{lookup}
use aurora_rl.Base.Exec.{◌>>=◌}
use mathlib.Core.Option
use aurora_rl.Endpoints.Urls.{
  ClientConfig, endpoint_key, normalize_endpoint_url, setup_clients, setup_admin_clients,
}
use aurora_rl.Endpoints.Fleet.{Net, Request, Response, commit, reload}
use aurora_rl.Endpoints.Calls
use aurora_rl.Endpoints.Uploads
use aurora_rl.Endpoints.Uploads.{StageJob}
use aurora_rl.Endpoints.Pool.{build_pool}
use aurora_rl.Endpoints.Session.{Session}
use aurora_rl.Endpoints.Updates.{stage_weights, commit_weights}
use aurora_rl.Endpoints.Sync.Calls.{is_neutral}
use aurora_rl.Endpoints.Sync.Fleet.{IsFleet}
use aurora_rl.Endpoints.Sync.Agree.{InSync}
use aurora_rl.Endpoints.Sync.Steps.{here, next, stages, commits, Reach-InSync}

abbrev pub texts : Texts
texts = record {
  is_space = λ c. false;
  show_int = λ n. n ∷ [];
  repr = λ t. t;
  parse_int = λ t. elim t [ [] ↦ none | c ∷ rest ↦ elim rest [ [] ↦ some (pos c) | d ∷ e ↦ none ] ];
}

pub record World : Type 0 where
  pub served : Name → Option Name
  pub clock : ℕ
  pub down : Name

abbrev pub answer : Response
answer = record { status_code = 200; upload_id = some (codes "u"); models = some [] }

target : Request → Option Name
target (commit version mode) = some version
target _ = none

put : Name → Option Name → World → World
put k v w = record w { served = λ j. if same_name k j then v else w.served j }

effect : Name → Request → World → World
unfolding put target
effect k r w = if is_neutral r then w else put k (target r) w

unfoldable pub send : Name → Request → World → Result Failure Response × World
unfolding effect
send url r w =
    if same_name url w.down
    then (err (exception (codes "ConnectError") (codes "refused")), w)
    else (ok answer, effect (normalize_endpoint_url url) r w)

abbrev pub net : Net
net = record {
  World = World;
  monotonic = λ w. w.clock;
  perf_counter = λ w. w.clock;
  sleep = λ w. record w { clock = w.clock + 1 };
  send = send;
  status_failure = λ r. exception (codes "HTTPStatusError") [];
  retry = λ again call. call;
  exists = λ path w. true;
  is_dir = λ path w. false;
  read_file = λ path w. some (1 ∷ 2 ∷ 3 ∷ []);
  make_marker = λ path w. (ok tt, w);
  join = λ a b. a;
  file_name = λ path. path;
  sha256_of = λ content. content;
}

abbrev served : World → Name → Option Name
served w k = w.served k

effect-others :
    (k : Name) (r : Request) (w : World) (j : Name)
    → same_name k j ≡ false
    → (effect k r w).served j ≡ w.served j
unfolding effect
effect-others k r w j h = elim (Bool-cases (is_neutral r)) [
  | inl neutral ↦ rw neutral refl
  | inr other ↦ rw (other, h) refl
]

send-others :
    (url : Name) (r : Request) (w : World) (j : Name)
    → same_name (normalize_endpoint_url url) j ≡ false
    → (send url r w).1.served j ≡ w.served j
unfolding send
send-others url r w j h = elim (Bool-cases (same_name url w.down)) [
  | inl down ↦ rw down refl
  | inr up ↦ rw up (effect-others (normalize_endpoint_url url) r w j h)
]

send-neutral :
    (url : Name) (r : Request) (w : World)
    → is_neutral r ≡ true
    → (send url r w).1.served (normalize_endpoint_url url) ≡ w.served (normalize_endpoint_url url)
unfolding send effect
send-neutral url r w h = elim (Bool-cases (same_name url w.down)) [
  | inl down ↦ rw down refl
  | inr up ↦ rw (up, h) refl
]

send-target :
    (url : Name) (r : Request) (w w' : World) (response : Response)
    → is_neutral r ≡ false
    → send url r w ≡ (ok response, w')
    → w'.served (normalize_endpoint_url url) ≡ target r
unfolding send effect
send-target url r w w' response h sent = elim (Bool-cases (same_name url w.down)) [
  | inl down ↦ absurd (let e = ap (λ x. x.0) (rw down at sent) in cc)
  | inr up ↦
      sym (ap (λ x. x.1.served (normalize_endpoint_url url)) (rw up at sent))
      ∙ rw (h, same_name_refl (normalize_endpoint_url url)) refl
]

fleet : IsFleet net served
unfolding is_neutral target
fleet = record {
  others = send-others;
  neutral = send-neutral;
  committed = λ url version mode w w' response sent success.
      send-target url (commit version mode) w w' response refl sent;
  reloaded = λ url w w' response sent success. send-target url reload w w' response refl sent;
  slept = λ w k. refl;
}

abbrev pub config : ClientConfig
config = record {
  base_url = codes "a/v1" ∷ codes "b/v1/" ∷ [];
  admin_base_url = none;
  api_key_var = codes "KEY";
  headers = [];
  headers_from_env = [];
  extra_headers_from_state = [];
  timeout = 1;
  connect_timeout = 1;
  dp_rank_count = 2;
  skip_model_check = false;
  lease_enabled = true;
  lease_cooldown = 0;
  lease_recovery_enabled = true;
  lease_recovery_poll_interval = 1;
}

unfoldable pub start : Name → Session texts net
start down = record {
  pool =
      build_pool config (codes "m")
        (setup_clients (λ v. none) (λ n. n ∷ []) config (codes "chat") none none none) []
        (setup_admin_clients (λ v. none) (λ n. n ∷ []) config);
  world = record { served = λ k. none; clock = 0; down = down };
}

start-InSync : InSync texts net served fleet (start (codes "b"))
unfolding start build_pool
start-InSync = record { leased = refl; agree = λ k m fine. inl refl }

abbrev pub job : StageJob
job = record {
  weight_path = codes "d";
  version = 1 ∷ [];
  mode = codes "delta";
  base_version = some (0 ∷ []);
  upload = false;
  upload_method = codes "chunked";
  done_path = none;
}

abbrev staged : Session texts net
staged = (stage_weights texts net 1 job (start (codes "b"))).1

abbrev committed : Session texts net
committed = (commit_weights texts net 1 (1 ∷ []) (some (codes "delta")) staged).1

-- One server is down: it is retired, and the other one serves the version.
Reach-InSync_example : InSync texts net served fleet committed
Reach-InSync_example =
    Reach-InSync texts net served fleet 1 (start (codes "b")) committed start-InSync (
      next (next here (stages (start (codes "b")) job))
        (commits staged (1 ∷ []) (some (codes "delta"))))

state_at : Name → List (Name × EndpointLeaseRuntime) → Option LeaseState
state_at k runtimes = Option.map (λ r. r.state) (lookup k runtimes)

summary : Name → Session texts net → Option LeaseState × Option Name
summary k s = (state_at k s.pool.endpoint_runtime, s.world.served k)

-- The server that is up serves the version that was committed; the other one was retired.
commit_serves : summary (codes "a") committed ≡ (some healthy, some (1 ∷ []))
unfolding summary state_at start send stage_weights commit_weights ◌>>=◌ build_pool
    setup_admin_clients endpoint_key Uploads.stage_weights all_ok is_neutral Calls.commit_weights
commit_serves = refl

commit_retires : summary (codes "b") committed ≡ (some retired, none)
unfolding summary state_at start send stage_weights commit_weights ◌>>=◌ build_pool
    setup_admin_clients endpoint_key Uploads.stage_weights all_ok is_neutral Calls.commit_weights
commit_retires = refl
