-- ===== src/Endpoints/Sync/Shrinks.antt =====
-- Changes of the pool that make no endpoint healthy, and leave alone which endpoints there are and
-- which version is active.
use aurora_rl.Base.{
  ℕ, ◌≡◌, refl, sym, ap, ◌∙◌, inl, inr, Bool, true, false, not, List, [], ◌∷◌, Bool-cases,
  if◌then◌else◌, Result, ok, err,
}
use aurora_rl.Base.Names.{Name, same_name}
use aurora_rl.Endpoints.Types.{
  Texts, EndpointOperationResult, PoolError, LeaseState, healthy, quarantine, retired, recovering,
  operation_error, raised, is_ok,
}
use aurora_rl.Endpoints.Urls.{AdminClient, endpoint_key}
use aurora_rl.Endpoints.Fleet.{Net, Operation}
use aurora_rl.Endpoints.Pool.{
  Pool, runtime_of, with_runtime, set_endpoint_state, retire_failed, mark_failed_endpoints_retired,
  record_endpoint_result, record_endpoint_results, select_healthy, keep_or_skip, missed,
  healthy_admin_clients,
}
use aurora_rl.Endpoints.Session.{Session, record_admin_results, record_outcome, select_clients}
use aurora_rl.Endpoints.Sync.Leases.{state_of, state_of-set, runtime_of-with}

pub record Shrinks (p q : Pool) : Type 0 where
  pub admins : q.admin_clients ≡ p.admin_clients
  pub lease : q.lease_enabled ≡ p.lease_enabled
  pub active : q.active_version ≡ p.active_version
  pub healthy_before : (k : Name) → state_of q k ≡ healthy → state_of p k ≡ healthy

pub Shrinks-refl : (p : Pool) → Shrinks p p
Shrinks-refl p = record { admins = refl; lease = refl; active = refl; healthy_before = λ k h. h }

pub Shrinks-trans : (p q r : Pool) → Shrinks p q → Shrinks q r → Shrinks p r
Shrinks-trans p q r a b = record {
  admins = b.admins ∙ a.admins;
  lease = b.lease ∙ a.lease;
  active = b.active ∙ a.active;
  healthy_before = λ k h. a.healthy_before k (b.healthy_before k h);
}

pub set_endpoint_state-Shrinks :
    (now : ℕ) (endpoint : Name) (state : LeaseState) (reason : Name) (p : Pool)
    → ((let s : LeaseState = state in s ≡ healthy) → ⊥)
    → Shrinks p (set_endpoint_state now endpoint state reason p)
unfolding set_endpoint_state
set_endpoint_state-Shrinks now endpoint state reason p ill = record {
  admins = refl;
  lease = refl;
  active = refl;
  healthy_before = λ k h. elim (Bool-cases (same_name endpoint k)) [
    | inl same ↦ absurd (ill (sym (rw same at (state_of-set now endpoint state reason p k)) ∙ h))
    | inr other ↦ sym (rw other at (state_of-set now endpoint state reason p k)) ∙ h
  ];
}

-- A new state changes the lease only.
pub set_endpoint_state-frame :
    (now : ℕ) (endpoint : Name) (state : LeaseState) (reason : Name) (p : Pool)
    → let q = set_endpoint_state now endpoint state reason p in
      (q.admin_clients ≡ p.admin_clients)
      × (q.lease_enabled ≡ p.lease_enabled)
      × (q.active_version ≡ p.active_version)
unfolding set_endpoint_state
set_endpoint_state-frame now endpoint state reason p = (refl, refl, refl)

pub with_runtime-Shrinks : (endpoint : Name) (p : Pool) → Shrinks p (with_runtime endpoint p)
unfolding with_runtime
with_runtime-Shrinks endpoint p = record {
  admins = refl;
  lease = refl;
  active = refl;
  healthy_before = λ k h. sym (ap (λ r. r.state) (runtime_of-with endpoint p k)) ∙ h;
}

retired-ill : (let s : LeaseState = retired in s ≡ healthy) → ⊥
retired-ill h = cc

retire_failed-Shrinks :
    (now : ℕ) (results : List EndpointOperationResult) (p : Pool)
    → Shrinks p (retire_failed now results p)
unfolding retire_failed
retire_failed-Shrinks now [] p = Shrinks-refl p
retire_failed-Shrinks now (result ∷ results) p = elim (Bool-cases (is_ok result)) [
  | inl fine ↦ rw fine (retire_failed-Shrinks now results p)
  | inr failed ↦ rw failed (
      Shrinks-trans p _ _ (set_endpoint_state-Shrinks now result.endpoint retired _ p retired-ill)
        (retire_failed-Shrinks now results _))
]

pub mark_failed-Shrinks :
    (now : ℕ) (results : List EndpointOperationResult) (p : Pool)
    → Shrinks p (mark_failed_endpoints_retired now results p)
unfolding mark_failed_endpoints_retired
mark_failed-Shrinks now results p =
    elim p.lease_enabled as (λ b. Shrinks p (if b then retire_failed now results p else p)) [
      | true ↦ retire_failed-Shrinks now results p
      | false ↦ Shrinks-refl p
    ]

pub record_results-Shrinks :
    (results : List EndpointOperationResult) (p : Pool)
    → Shrinks p (record_endpoint_results results p)
unfolding record_endpoint_results record_endpoint_result runtime_of
record_results-Shrinks [] p = Shrinks-refl p
record_results-Shrinks (result ∷ results) p =
    let rest = record_results-Shrinks results (record_endpoint_result result p) in
    record {
      admins = rest.admins;
      lease = rest.lease;
      active = rest.active;
      healthy_before = rest.healthy_before;
    }

keep_or_skip-Shrinks :
    (state : LeaseState) (client : AdminClient) (known given_up : List AdminClient × Pool)
    (p : Pool)
    → Shrinks p known.1
    → Shrinks p given_up.1
    → Shrinks p (keep_or_skip state client known given_up).1
unfolding keep_or_skip
keep_or_skip-Shrinks healthy client known given_up p k g = k
keep_or_skip-Shrinks quarantine client known given_up p k g = g
keep_or_skip-Shrinks retired client known given_up p k g = k
keep_or_skip-Shrinks recovering client known given_up p k g = k

pub select_healthy-Shrinks :
    (now : ℕ) (operation : Name) (clients : List AdminClient) (p : Pool)
    → Shrinks p (select_healthy now operation clients p).1
unfolding select_healthy
select_healthy-Shrinks now operation [] p = Shrinks-refl p
select_healthy-Shrinks now operation (client ∷ clients) p =
    let endpoint = endpoint_key client in
    let known = with_runtime-Shrinks endpoint p in
    let set =
      set_endpoint_state-Shrinks now endpoint retired (missed operation) (with_runtime endpoint p)
        retired-ill in
    keep_or_skip-Shrinks _ client _ _ p
      (Shrinks-trans p _ _ known (select_healthy-Shrinks now operation clients _))
      (Shrinks-trans p _ _ known
        (Shrinks-trans _ _ _ set (select_healthy-Shrinks now operation clients _)))

record_outcome-Shrinks :
    (outcome : Result PoolError (List EndpointOperationResult)) (allow : Bool) (now : ℕ) (p : Pool)
    → Shrinks p (record_outcome outcome allow now p).1
unfolding record_outcome
record_outcome-Shrinks (ok results) allow now p = record_results-Shrinks results p
record_outcome-Shrinks (err (raised f)) allow now p = Shrinks-refl p
record_outcome-Shrinks (err (operation_error o results)) allow now p =
    Shrinks-trans p _ _ (record_results-Shrinks results p)
      (mark_failed-Shrinks now results (record_endpoint_results results p))

module _ (t : Texts) (n : Net) where
  pub select_clients-Shrinks :
      (operation : Name) (s : Session t n) → Shrinks s.pool (select_clients t n operation s).1.pool
  unfolding select_clients healthy_admin_clients
  select_clients-Shrinks operation s =
      by_lease _ _ s.pool.lease_enabled
        (select_healthy-Shrinks _ operation s.pool.admin_clients s.pool)
    where
      by_lease :
          (r r' : Result PoolError (List AdminClient)) {q : Pool} (b : Bool)
          → Shrinks s.pool q
          → (let chosen : Result PoolError (List AdminClient) × Pool =
                if not b then (r, s.pool) else (r', q) in
              Shrinks s.pool chosen.1)
      by_lease r r' true h = h
      by_lease r r' false h = Shrinks-refl s.pool

  pub record_admin-Shrinks :
      (operation : Operation t n) (allow : Bool) (s : Session t n)
      → Shrinks s.pool (record_admin_results t n operation allow s).1.pool
  unfolding record_admin_results
  record_admin-Shrinks operation allow s =
      record_outcome-Shrinks (operation s.world).0 allow (n.monotonic (operation s.world).1) s.pool
