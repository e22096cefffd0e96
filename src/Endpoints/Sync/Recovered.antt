-- ===== src/Endpoints/Sync/Recovered.antt =====
-- `_recover_unhealthy_endpoints` keeps the healthy endpoints in step.
use aurora_rl.Base.{
  ℕ, ◌≡◌, refl, sym, subst, ◌∙◌, inl, inr, not, Option, List, [], ◌∷◌, ◌++◌, Bool-cases, Result, ok,
  err,
}
use aurora_rl.Base.Names.{Name, codes, same_name, same_name→eq, same_name_refl}
use aurora_rl.Base.Exec.{Keeps, Keeps-bind, Keeps-gets, Keeps-pure, Keeps-if, modify, ◌>>=◌}
use aurora_rl.Endpoints.Types.{Texts, PoolError, healthy, retired, recovering, str_error}
use aurora_rl.Endpoints.Urls.{AdminClient, endpoint_key}
use aurora_rl.Endpoints.Fleet.{Net, health}
use aurora_rl.Endpoints.Pool.{with_runtime, runtime_of, set_endpoint_state}
use aurora_rl.Endpoints.Session.{Session, change, handle, try_except}
use aurora_rl.Endpoints.Recovery.{
  start_recovery, replay, recovery_failed, recovered, recover_retired_endpoint, version_text,
  endpoint_health_check, recover_if_due, recover_each, recover_endpoints,
  recover_unhealthy_endpoints, is_due,
}
use aurora_rl.Endpoints.Sync.Leases.{state_of-set, IsIn, recovering-ne-healthy}
use aurora_rl.Endpoints.Sync.Shrinks.{
  Shrinks-refl, with_runtime-Shrinks, set_endpoint_state-Shrinks, set_endpoint_state-frame,
}
use aurora_rl.Endpoints.Sync.Fleet.{IsFleet, Sends-neutral}
use aurora_rl.Endpoints.Sync.Calls.{is_neutral}
use aurora_rl.Endpoints.Sync.Agree.{SameVersion, InSync, Away, Keeps-pool, InSync-shrunk}
use aurora_rl.Endpoints.Sync.Recovers.{Keeps-replay, replay-serves}

module _ (t : Texts) (n : Net) (served : n.World → Name → Option Name) (fleet : IsFleet n served)
    (polls : ℕ) where
  module _ (client : AdminClient) where
    abbrev key : Name
    key = endpoint_key client

    start_reason : Name
    start_reason = codes "starting delta replay recovery"

    starts-Away :
        (s : Session t n)
        → InSync t n served fleet s
        → Away t n served fleet key (change t n (start_recovery key) s)
    unfolding change start_recovery runtime_of start_reason
    starts-Away s i =
        let now = n.monotonic s.world in
        let shrunk = set_endpoint_state-Shrinks now key recovering start_reason s.pool (λ h. cc) in
        record {
          in_sync =
              InSync-shrunk t n served fleet s _ i
                (record {
                  admins = shrunk.admins;
                  lease = shrunk.lease;
                  active = shrunk.active;
                  healthy_before = shrunk.healthy_before;
                })
                (λ k v fine h. h);
          ill = λ fine. recovering-ne-healthy (
              sym (
                rw (same_name_refl key) at
                  (state_of-set now key recovering start_reason s.pool key))
              ∙ fine);
        }

    recovery_failed-InSync :
        (e : PoolError) (s : Session t n)
        → Away t n served fleet key s
        → InSync t n served fleet (recovery_failed t n polls key e s).1
    unfolding recovery_failed change modify
    recovery_failed-InSync e s a =
        InSync-shrunk t n served fleet s _ a.in_sync
          (set_endpoint_state-Shrinks (n.monotonic s.world) key retired
            (codes "delta replay recovery failed: " ++ str_error t e) s.pool (λ h. cc))
          (λ k v fine h. h)

    recovered-InSync :
        (s : Session t n)
        → Away t n served fleet key s
        → SameVersion t (served s.world key) s.pool.active_version
        → InSync t n served fleet (recovered t n polls key s).1
    unfolding recovered change modify
    recovered-InSync s a same =
        set_healthy (codes "replayed delta chain to version " ++ version_text s.pool.active_version)
      where
        set_healthy :
            (reason : Name)
            → InSync t n served fleet (record s {
              pool = set_endpoint_state (n.monotonic s.world) key healthy reason s.pool;
            })
        set_healthy reason =
            let now = n.monotonic s.world in
            let (admins, lease, active) = set_endpoint_state-frame now key healthy reason s.pool in
            record {
              leased = lease ∙ a.in_sync.leased;
              agree = λ k m fine.
                  subst (SameVersion t (served s.world k)) (sym active)
                    (elim (Bool-cases (same_name key k)) [
                      | inl here ↦
                          subst (λ j. SameVersion t (served s.world j) s.pool.active_version)
                            (same_name→eq key k here) same
                      | inr other ↦
                          a.in_sync.agree k (subst (IsIn k) admins m) (
                            sym (rw other at (state_of-set now key healthy reason s.pool k)) ∙ fine)
                    ]);
            }

    by_outcome :
        (s : Session t n) (outcome : Result PoolError (Unit {0})) (s' : Session t n)
        → replay t n polls client s ≡ (outcome, s')
        → Away t n served fleet key s'
        → InSync t n served fleet
            (handle t n outcome
              (recovery_failed t n polls key)
              (λ done. recovered t n polls key)
              s').1
    unfolding handle
    by_outcome s (ok done) s' h a =
        recovered-InSync s' a (replay-serves t n served fleet polls client s s' h)
    by_outcome s (err e) s' h a = recovery_failed-InSync e s' a

    pub Keeps-recover :
        Keeps {S = Session t n}
          (InSync t n served fleet)
          (recover_retired_endpoint t n polls client)
    unfolding recover_retired_endpoint try_except handle modify ◌>>=◌
    Keeps-recover = record {
      at = λ s i. finished (change t n (start_recovery key) s) (starts-Away s i);
    }
      where
        finished :
            (s : Session t n)
            → Away t n served fleet key s
            → InSync t n served fleet
                (try_except t n
                  (replay t n polls client)
                  (recovery_failed t n polls key)
                  (λ done. recovered t n polls key)
                  s).1
        finished s a =
            by_outcome s (replay t n polls client s).0 (replay t n polls client s).1 refl
              ((Keeps-replay t n served fleet polls client).at s a)

  Keeps-health :
      (client : AdminClient)
      → Keeps {S = Session t n} (InSync t n served fleet) (endpoint_health_check t n polls client)
  unfolding endpoint_health_check is_neutral
  Keeps-health client = record {
    at = λ s i.
        InSync-shrunk t n served fleet s _ i (Shrinks-refl s.pool)
          (λ k v fine h. (Sends-neutral t n served fleet k v client health refl).at s.world h);
  }

  Keeps-if_due :
      (now : ℕ) (client : AdminClient)
      → Keeps {S = Session t n} (InSync t n served fleet) (recover_if_due t n polls now client)
  unfolding recover_if_due
  Keeps-if_due now client =
      Keeps-bind _ _
        (Keeps-pool t n served fleet (λ s. with_runtime (endpoint_key client) s.pool)
          (λ s. with_runtime-Shrinks (endpoint_key client) s.pool))
        λ a. Keeps-bind _ _ (Keeps-gets _) λ runtime.
          Keeps-if (not (is_due now runtime)) _ _ (Keeps-pure _) (
            Keeps-bind _ _ (Keeps-health client)
              λ answers. Keeps-if answers _ _ (Keeps-recover client) (Keeps-pure _))

  Keeps-each :
      (now : ℕ) (clients : List AdminClient)
      → Keeps {S = Session t n} (InSync t n served fleet) (recover_each t n polls now clients)
  unfolding recover_each
  Keeps-each now [] = Keeps-pure _
  Keeps-each now (client ∷ clients) =
      Keeps-bind _ _ (Keeps-if_due now client) λ a. Keeps-each now clients

  pub Keeps-recover_endpoints :
      Keeps {S = Session t n} (InSync t n served fleet) (recover_endpoints t n polls)
  unfolding recover_endpoints
  Keeps-recover_endpoints =
      Keeps-bind _ _ (Keeps-gets _)
        λ now. Keeps-bind _ _ (Keeps-gets _) λ p. Keeps-each now p.admin_clients

  pub Keeps-recover_unhealthy :
      Keeps {S = Session t n} (InSync t n served fleet) (recover_unhealthy_endpoints t n polls)
  unfolding recover_unhealthy_endpoints
  Keeps-recover_unhealthy =
      Keeps-bind _ _ (Keeps-gets _)
        λ p. Keeps-if p.lease_recovery_enabled _ _ Keeps-recover_endpoints (Keeps-pure _)
