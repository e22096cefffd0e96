-- ===== src/Endpoints/Sync/Active.antt =====
-- `commit_weights` of the pool: the healthy endpoints afterwards serve the version, or those that
-- served the active version still do.
use aurora_rl.Base.{
  ℕ, ◌≡◌, refl, sym, ap, subst, ◌∙◌, inl, true, false, ◌&&◌, Option, some, List, if◌then◌else◌,
  Result, ok, err,
}
use aurora_rl.Base.Names.{Name, codes}
use aurora_rl.Base.Exec.{
  Keeps, Keeps-bind, Keeps-gets, Keeps-pure, Keeps-if, pure, gets, modify, ◌>>=◌, ◌>>◌, and_then,
}
use aurora_rl.Endpoints.Types.{Texts, PoolError, EndpointOperationResult, healthy}
use aurora_rl.Endpoints.Urls.{AdminClient}
use aurora_rl.Endpoints.Fleet.{Net, run_each}
use aurora_rl.Endpoints.Calls
use aurora_rl.Endpoints.Pool.{runtime_of}
use aurora_rl.Endpoints.Session.{Session, Action, record_admin_results, select_clients}
use aurora_rl.Endpoints.Updates.{commit_healthy, commit_weights, is_delta_mode}
use aurora_rl.Endpoints.Sync.Leases.{state_of, IsIn, has_failed, true-ne-false}
use aurora_rl.Endpoints.Sync.Shrinks.{Shrinks, record_admin-Shrinks, select_clients-Shrinks}
use aurora_rl.Endpoints.Sync.Effects.{commit_call, commits-At, none_ok-failed}
use aurora_rl.Endpoints.Sync.Results.{still_healthy, nothing_ok, select_clients-chosen}
use aurora_rl.Endpoints.Sync.Fleet.{IsFleet}
use aurora_rl.Endpoints.Sync.Agree.{InSync, Keeps-select}
use aurora_rl.Endpoints.Sync.Commits.{Keeps-if_missing}
use aurora_rl.Endpoints.Sync.Recovered.{Keeps-recover_endpoints}
use aurora_rl.Endpoints.Recovery.{recover_endpoints}

module _ (t : Texts) (n : Net) (served : n.World → Name → Option Name) (fleet : IsFleet n served)
    (polls : ℕ) where
  -- Every healthy endpoint serves a version.
  pub record AllServe (version : Name) (s : Session t n) : Type 0 where
    pub leased : s.pool.lease_enabled ≡ true
    pub serves :
        (k : Name)
        → IsIn k s.pool.admin_clients
        → state_of s.pool k ≡ healthy
        → served s.world k ≡ some version

  -- What a commit leaves behind, by whether it returned.
  abbrev After : Name → Result PoolError (List EndpointOperationResult) → Session t n → Type 0
  After version (ok results) s = AllServe version s
  After version (err e) s = InSync t n served fleet s

  module _ (version : Name) (mode : Option Name) (clients : List AdminClient) (s : Session t n)
      (i : InSync t n served fleet s)
      (chosen : (k : Name)
        → IsIn k s.pool.admin_clients
        → state_of s.pool k ≡ healthy
        → IsIn k clients) where
    abbrev run : Result PoolError (List EndpointOperationResult) × Session t n
    run =
        record_admin_results t n (Calls.commit_weights t n clients version mode)
          s.pool.lease_enabled s

    shrunk : Shrinks s.pool run.1.pool
    shrunk =
        record_admin-Shrinks t n (Calls.commit_weights t n clients version mode)
          s.pool.lease_enabled s

    took_part :
        (k : Name)
        → IsIn k run.1.pool.admin_clients
        → state_of run.1.pool k ≡ healthy
        → IsIn k clients
    took_part k m fine = chosen k (subst (IsIn k) shrunk.admins m) (shrunk.healthy_before k fine)

    not_failed :
        (k : Name)
        → state_of run.1.pool k ≡ healthy
        → has_failed k
            (run_each t n
              (codes "commit_weights")
              (commit_call t n served fleet version mode)
              clients
              s.world).0
          ≡ false
    unfolding Calls.commit_weights
    not_failed k fine =
        still_healthy t n clients (codes "commit_weights")
          (commit_call t n served fleet version mode) s.pool.lease_enabled s k i.leased fine

    committed-After :
        (outcome : Result PoolError (List EndpointOperationResult))
        → run.0 ≡ outcome
        → After version outcome run.1
    unfolding Calls.commit_weights record_admin_results ◌>>=◌
    committed-After (ok results) h = record {
      leased = shrunk.lease ∙ i.leased;
      serves = λ k m fine.
          commits-At t n served fleet (codes "commit_weights") version mode k clients s.world
            (not_failed k fine) (took_part k m fine);
    }
    committed-After (err e) h = record {
      leased = shrunk.lease ∙ i.leased;
      agree = λ k m fine. absurd (
          true-ne-false (
            sym (
              none_ok-failed t n k (codes "commit_weights")
                (commit_call t n served fleet version mode) clients s.world
                (nothing_ok t n clients (codes "commit_weights")
                  (commit_call t n served fleet version mode) s.pool.lease_enabled s e i.leased h)
                (took_part k m fine))
            ∙ not_failed k fine));
    }

  selected-After :
      (version : Name) (mode : Option Name) (outcome : Result PoolError (List AdminClient))
      (s s' : Session t n)
      → InSync t n served fleet s
      → select_clients t n (codes "commit_weights") s ≡ (outcome, s')
      → InSync t n served fleet s'
      → (let r =
            and_then outcome
              (λ clients. do
                partial ← gets (λ s. s.pool.lease_enabled)
                record_admin_results t n (Calls.commit_weights t n clients version mode) partial)
              s' in
          After version r.0 r.1)
  unfolding gets ◌>>=◌
  selected-After version mode (err e) s s' i h i' = i'
  selected-After version mode (ok clients) s s' i h i' =
      let admins =
        sym (ap (λ r. r.1.pool.admin_clients) h)
        ∙ (select_clients-Shrinks t n (codes "commit_weights") s).admins in
      committed-After version mode clients s' i'
        (λ k m fine.
          select_clients-chosen t n (codes "commit_weights") s s' clients k i.leased h
            (subst (IsIn k) admins m) fine)
        _ refl

  commit_healthy-After :
      (version : Name) (mode : Option Name) (s : Session t n)
      → InSync t n served fleet s
      → (let r = commit_healthy t n polls version mode s in After version r.0 r.1)
  unfolding commit_healthy ◌>>=◌
  commit_healthy-After version mode s i =
      selected-After version mode _ s _ i refl
        ((Keeps-select t n served fleet (codes "commit_weights")).at s i)

  -- The version becomes the active one.
  activated :
      (version : Name) (s : Session t n)
      → AllServe version s
      → InSync t n served fleet
          (record s { pool = record s.pool { active_version = some version } })
  unfolding runtime_of
  activated version s all = record {
    leased = all.leased;
    agree = λ k m fine. inl (all.serves k m fine);
  }

  finish : Option Name → Action t n (Unit {0})
  unfolding is_delta_mode recover_endpoints
  finish mode = do
    p ← gets (λ s. s.pool)
    if is_delta_mode mode && p.lease_recovery_enabled then recover_endpoints t n polls else pure tt

  Keeps-finish :
      (mode : Option Name) → Keeps {S = Session t n} (InSync t n served fleet) (finish mode)
  unfolding finish
  Keeps-finish mode = Keeps-bind _ _ (Keeps-gets _) λ p.
      Keeps-if (is_delta_mode mode && p.lease_recovery_enabled) _ _
        (Keeps-recover_endpoints t n served fleet polls) (Keeps-pure _)

  activate_and_finish :
      (version : Name) (mode : Option Name)
      (outcome : Result PoolError (List EndpointOperationResult)) (s : Session t n)
      → After version outcome s
      → InSync t n served fleet
          (and_then outcome
            (λ results. do
              modify (λ s. record s { pool = record s.pool { active_version = some version } })
              finish mode)
            s).1
  unfolding ◌>>=◌ modify
  activate_and_finish version mode (err e) s i = i
  activate_and_finish version mode (ok results) s all =
      (Keeps-finish mode).at _ (activated version s all)

  pub Keeps-commit :
      (version : Name) (mode : Option Name)
      → Keeps {S = Session t n} (InSync t n served fleet) (commit_weights t n polls version mode)
  unfolding commit_weights finish ◌>>=◌
  Keeps-commit version mode = Keeps-bind _ _ (Keeps-if_missing t n served fleet polls version) λ a.
      record {
        at = λ s i. activate_and_finish version mode _ _ (commit_healthy-After version mode s i);
      }
