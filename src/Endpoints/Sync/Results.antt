-- ===== src/Endpoints/Sync/Results.antt =====
-- What is known of an endpoint that is still healthy after an operation in which it took part.
use aurora_rl.Base.{
  ℕ, ◌≡◌, refl, sym, ap, subst, ◌∙◌, inl, inr, Bool, true, false, not, List, [], ◌∷◌, Bool-cases,
  if◌then◌else◌, Result, ok, err, ok-injective,
}
use aurora_rl.Base.Names.{Name}
use aurora_rl.Endpoints.Types.{Texts, EndpointOperationResult, PoolError, healthy, all_ok, any_ok}
use aurora_rl.Endpoints.Urls.{AdminClient}
use aurora_rl.Endpoints.Fleet.{Net, Call, run_each, run_endpoint_operations}
use aurora_rl.Endpoints.Pool.{
  Pool, mark_failed_endpoints_retired, record_endpoint_results, healthy_admin_clients,
  select_healthy, retire_failed, some_selected,
}
use aurora_rl.Endpoints.Session.{Session, record_admin_results, record_outcome, select_clients}
use aurora_rl.Endpoints.Sync.Leases.{
  state_of, IsIn, has_failed, retire_failed-healthy, select_healthy-Chosen,
}
use aurora_rl.Endpoints.Sync.Effects.{all_ok-fine}
use aurora_rl.Endpoints.Sync.Shrinks.{record_results-Shrinks}

mark_failed-healthy :
    (now : ℕ) (results : List EndpointOperationResult) (p : Pool) (k : Name)
    → p.lease_enabled ≡ true
    → state_of (mark_failed_endpoints_retired now results p) k ≡ healthy
    → has_failed k results ≡ false
unfolding mark_failed_endpoints_retired
mark_failed-healthy now results p k leased h =
    (retire_failed-healthy now results p k (
      subst
        (λ b.
          (let q : Pool = if b then retire_failed now results p else p in state_of q k ≡ healthy))
        leased h)).1

module _ (t : Texts) (n : Net) (clients : List AdminClient) (operation : Name)
    (call : AdminClient → Call t n (Unit {0})) (allow : Bool) (s : Session t n) where
  open n use {World}

  abbrev results : List EndpointOperationResult
  results = (run_each t n operation call clients s.world).0

  abbrev ran : Result PoolError (List EndpointOperationResult) × Session t n
  ran = record_admin_results t n (run_endpoint_operations t n clients operation call) allow s

  pub still_healthy :
      (k : Name)
      → s.pool.lease_enabled ≡ true
      → state_of ran.1.pool k ≡ healthy
      → has_failed k results ≡ false
  unfolding record_admin_results record_outcome run_endpoint_operations
  still_healthy k leased h = elim (Bool-cases (all_ok results)) [
    | inl fine ↦ all_ok-fine k results fine
    | inr failed ↦
        mark_failed-healthy _ results (record_endpoint_results results s.pool) k
          ((record_results-Shrinks results s.pool).lease ∙ leased) (rw failed at h)
  ]

  -- Where failures are allowed, an exception means that nothing succeeded.
  pub nothing_ok : (e : PoolError) → allow ≡ true → ran.0 ≡ err e → any_ok results ≡ false
  unfolding record_admin_results record_outcome run_endpoint_operations
  nothing_ok e allowed h = elim (Bool-cases (all_ok results)) [
    | inl fine ↦ absurd (let e = rw fine at h in cc)
    | inr failed ↦ elim (Bool-cases (any_ok results)) [
      | inl some_ok ↦ absurd (let e = rw (failed, allowed, some_ok) at h in cc)
      | inr none_ok ↦ none_ok
    ]
  ]

  -- Where none is allowed, a return means that everything succeeded.
  pub everything_ok :
      (found : List EndpointOperationResult)
      → allow ≡ false
      → ran.0 ≡ ok found
      → all_ok results ≡ true
  unfolding record_admin_results record_outcome run_endpoint_operations
  everything_ok found strict h = elim (Bool-cases (all_ok results)) [
    | inl fine ↦ fine
    | inr failed ↦ absurd (let e = rw (failed, strict) at h in cc)
  ]

  pub run-world : ran.1.world ≡ (run_each t n operation call clients s.world).1
  unfolding record_admin_results record_outcome run_endpoint_operations
  run-world = refl

-- The clients that are chosen: those of all endpoints that are healthy then.
pub select_clients-chosen :
    (t : Texts) (n : Net) (operation : Name) (s s' : Session t n) (clients : List AdminClient)
    (k : Name)
    → s.pool.lease_enabled ≡ true
    → select_clients t n operation s ≡ (ok clients, s')
    → IsIn k s.pool.admin_clients
    → state_of s'.pool k ≡ healthy
    → IsIn k clients
unfolding select_clients healthy_admin_clients some_selected
select_clients-chosen t n operation s s' clients k leased h m fine =
    subst (IsIn k) (some_selected-ok selected.0 (ap (λ r. r.0) h')) (
      (select_healthy-Chosen (n.monotonic s.world) operation s.pool.admin_clients s.pool k
          (subst (λ q. state_of q k ≡ healthy) (sym (ap (λ r. r.1.pool) h')) fine)).1
        m)
  where
    selected : List AdminClient × Pool
    selected = select_healthy (n.monotonic s.world) operation s.pool.admin_clients s.pool

    some_selected-ok :
        (found : List AdminClient) {clients : List AdminClient}
        → some_selected operation found ≡ ok clients
        → found ≡ clients
    some_selected-ok [] h = cc
    some_selected-ok (c ∷ cs) h = ok-injective h

    h' :
        (let r : Result PoolError (List AdminClient) × Session t n =
            (some_selected operation selected.0, record s { pool = selected.1 }) in
          r ≡ (ok clients, s'))
    h' =
        subst
          (λ b.
            (let q : Result PoolError (List AdminClient) × Pool =
                if not b
                then (ok s.pool.admin_clients, s.pool)
                else (some_selected operation selected.0, selected.1) in
              let r : Result PoolError (List AdminClient) × Session t n =
                (q.0, record s { pool = q.1 }) in
              r ≡ (ok clients, s')))
          leased h
