-- ===== src/Endpoints/Sync/Steps.antt =====
-- Operations of the pool in sequence, while the servers' world goes its own way between them.
use aurora_rl.Base.{
  ℕ, zero, suc, ◌+◌, ◌%◌, length, get_elem?, ◌≡◌, refl, ◌∙◌, Bool, true, false, not, Option, none,
  some, if◌then◌else◌,
}
use aurora_rl.Base.Names.{Name}
use aurora_rl.Base.Dict.{lookup}
use aurora_rl.Base.Exec.{Keeps, Keeps-bind, Keeps-pure, modify}
use aurora_rl.Endpoints.Types.{Texts, PoolError, EndpointLeaseRuntime, quarantine, is_healthy}
use aurora_rl.Endpoints.Urls.{RolloutClient}
use aurora_rl.Endpoints.Fleet.{Net}
use aurora_rl.Endpoints.Uploads.{StageJob}
use aurora_rl.Endpoints.Pool.{
  Pool, runtime_of, set_endpoint_state, quarantine_client, quarantine_healthy, client_endpoint_key,
  client_is_healthy, take_or_skip, next_eval_client, eval_pass,
}
use aurora_rl.Endpoints.Session.{Session, Action, change}
use aurora_rl.Endpoints.Recovery.{recover_unhealthy_endpoints}
use aurora_rl.Endpoints.Updates.{
  stage_weights, commit_weights, quarantine_client_now, get_eval_client, found_or, pass_over,
}
use aurora_rl.Endpoints.Sync.Shrinks.{
  Shrinks, Shrinks-refl, Shrinks-trans, set_endpoint_state-Shrinks,
}
use aurora_rl.Endpoints.Sync.Fleet.{IsFleet, sleeps-At}
use aurora_rl.Endpoints.Sync.Agree.{InSync, InSync-shrunk, Keeps-pool}
use aurora_rl.Endpoints.Sync.Recovered.{Keeps-recover_unhealthy}
use aurora_rl.Endpoints.Sync.Commits.{Keeps-stage}
use aurora_rl.Endpoints.Sync.Active.{Keeps-commit}

quarantine_client-Shrinks :
    (now : ℕ) (client : RolloutClient) (reason : Name) (p : Pool)
    → Shrinks p (quarantine_client now client reason p)
unfolding quarantine_client
quarantine_client-Shrinks now client reason p = by_lease (not p.lease_enabled)
  where
    endpoint : Name
    endpoint = client_endpoint_key p client

    by_health :
        (b : Bool)
        → Shrinks p (if b then set_endpoint_state now endpoint quarantine reason p else p)
    by_health true = set_endpoint_state-Shrinks now endpoint quarantine reason p (λ h. cc)
    by_health false = Shrinks-refl p

    by_runtime :
        (found : Option EndpointLeaseRuntime)
        → Shrinks p (quarantine_healthy now endpoint reason found p)
    by_runtime none = Shrinks-refl p
    by_runtime (some runtime) = by_health (is_healthy runtime.state)

    by_lease :
        (b : Bool)
        → Shrinks p (
            if b
            then p
            else quarantine_healthy now endpoint reason (lookup endpoint p.endpoint_runtime) p)
    by_lease true = Shrinks-refl p
    by_lease false = by_runtime (lookup endpoint p.endpoint_runtime)

next_eval-Shrinks : (left : ℕ) (p : Pool) → Shrinks p (next_eval_client left p).1
unfolding next_eval_client runtime_of
next_eval-Shrinks zero p = Shrinks-refl p
next_eval-Shrinks (suc left) p = by_client (get_elem? p.eval_clients p.eval_next) _ (
    Shrinks-trans p _ _ moved
      (next_eval-Shrinks left (record p { eval_next = (p.eval_next + 1) % length p.eval_clients })))
  where
    moved : Shrinks p (record p { eval_next = (p.eval_next + 1) % length p.eval_clients })
    moved = record { admins = refl; lease = refl; active = refl; healthy_before = λ k h. h }

    by_bool :
        (client : RolloutClient) (r : Option RolloutClient × Pool) (b : Bool)
        → Shrinks p r.1
        → (let q : Option RolloutClient × Pool =
              if b
              then (some client, record p { eval_next = (p.eval_next + 1) % length p.eval_clients })
              else r in
            Shrinks p q.1)
    by_bool client r true h = moved
    by_bool client r false h = h

    by_client :
        (found : Option RolloutClient) (r : Option RolloutClient × Pool)
        → Shrinks p r.1
        → Shrinks p
            (take_or_skip found p
              (record p { eval_next = (p.eval_next + 1) % length p.eval_clients })
              r).1
    by_client none r h = Shrinks-refl p
    by_client (some client) r h = by_bool client r (client_is_healthy p client) h

-- Between operations time passes, and rollouts are answered.
pub data Step (t : Texts) (n : Net) (served : n.World → Name → Option Name) (polls : ℕ)
    : Session t n → Session t n → Type 0 where
  stages :
      (s : Session t n) (job : StageJob) → Step t n served polls s (stage_weights t n polls job s).1
  commits :
      (s : Session t n) (version : Name) (mode : Option Name)
      → Step t n served polls s (commit_weights t n polls version mode s).1
  recovers : (s : Session t n) → Step t n served polls s (recover_unhealthy_endpoints t n polls s).1
  quarantines :
      (s : Session t n) (client : RolloutClient) (reason : Name)
      → Step t n served polls s (quarantine_client_now t n polls client reason s).1
  evaluates :
      (s : Session t n) (passes : ℕ)
      → Step t n served polls s (get_eval_client t n polls passes s).1
  drifts :
      (s : Session t n) (w : n.World)
      → ((k : Name) → served w k ≡ served s.world k)
      → Step t n served polls s (record s { world = w })

pub data Reach (t : Texts) (n : Net) (served : n.World → Name → Option Name) (polls : ℕ)
    (s : Session t n) : Session t n → Type 0 where
  here : Reach t n served polls s s
  next :
      {u v : Session t n}
      → Reach t n served polls s u
      → Step t n served polls u v
      → Reach t n served polls s v

module _ (t : Texts) (n : Net) (served : n.World → Name → Option Name) (fleet : IsFleet n served)
    (polls : ℕ) where
  Keeps-found :
      (found : Option RolloutClient) (retry : Action t n (Option RolloutClient))
      → Keeps {S = Session t n} (InSync t n served fleet) retry
      → Keeps {S = Session t n} (InSync t n served fleet) (found_or t n polls found retry)
  unfolding found_or
  Keeps-found (some client) retry k = Keeps-pure _
  Keeps-found none retry k = k

  Keeps-pass : Keeps {S = Session t n} (InSync t n served fleet) (pass_over t n polls)
  unfolding pass_over eval_pass
  Keeps-pass = record {
    at = λ s i. InSync-shrunk t n served fleet s _ i (next_eval-Shrinks _ s.pool) (λ k v fine h. h);
  }

  Keeps-sleep :
      Keeps {S = Session t n} {E = PoolError}
        (InSync t n served fleet)
        (modify (λ s. record s { world = n.sleep s.world }))
  unfolding modify
  Keeps-sleep = record {
    at = λ s i.
        InSync-shrunk t n served fleet s _ i (Shrinks-refl s.pool)
          (λ k v fine h. sleeps-At t n served fleet k v s.world h);
  }

  Keeps-eval :
      (passes : ℕ)
      → Keeps {S = Session t n} (InSync t n served fleet) (get_eval_client t n polls passes)
  unfolding get_eval_client
  Keeps-eval zero = Keeps-pure _
  Keeps-eval (suc left) = Keeps-bind _ _ Keeps-pass λ found. Keeps-found found _ (
      Keeps-bind _ _ (Keeps-recover_unhealthy t n served fleet polls)
        λ a. Keeps-bind _ _ Keeps-sleep λ b. Keeps-eval left)

  Step-InSync :
      {s s' : Session t n}
      → Step t n served polls s s'
      → InSync t n served fleet s
      → InSync t n served fleet s'
  unfolding quarantine_client_now change
  Step-InSync (stages s job) i = (Keeps-stage t n served fleet polls job).at s i
  Step-InSync (commits s version mode) i = (Keeps-commit t n served fleet polls version mode).at s i
  Step-InSync (recovers s) i = (Keeps-recover_unhealthy t n served fleet polls).at s i
  Step-InSync (quarantines s client reason) i =
      (Keeps-pool t n served fleet
          (λ s. quarantine_client (n.monotonic s.world) client reason s.pool)
          (λ s. quarantine_client-Shrinks (n.monotonic s.world) client reason s.pool)).at
        s i
  Step-InSync (evaluates s passes) i = (Keeps-eval passes).at s i
  Step-InSync (drifts s w same) i =
      InSync-shrunk t n served fleet s _ i (Shrinks-refl s.pool) (λ k v fine h. same k ∙ h)

  -- With leases, and servers that do with a request what it says: however the pool is used to stage
  -- and commit weights, to recover and quarantine endpoints and to find clients, and whichever
  -- requests fail, every endpoint that is healthy serves the active version, in the same words or by
  -- the same number, or the base model where the active version is a number below 1, if it was so at
  -- the start.
  pub Reach-InSync :
      (s s' : Session t n)
      → InSync t n served fleet s
      → Reach t n served polls s s'
      → InSync t n served fleet s'
  Reach-InSync s s' i here = i
  Reach-InSync s s' i (next r step) = Step-InSync step (Reach-InSync s _ i r)
