-- ===== src/Endpoints/Sync/Leases.antt =====
-- The state of each endpoint's lease under the operations of the pool (`_set_endpoint_state`,
-- `_mark_failed_endpoints_retired`, `_healthy_admin_clients`).
use aurora_rl.Base.{
  ℕ, ◌≡◌, refl, sym, ap, subst, ◌∙◌, ◌⊎◌, inl, inr, Bool, true, false, List, [], ◌∷◌, ◌++◌, map,
  if◌then◌else◌, Bool-cases, arith,
}
use aurora_rl.Base.Names.{Name, codes, same_name, same_name→eq}
use aurora_rl.Base.Dict.{lookup-insert, lookup-set_default}
use aurora_rl.Endpoints.Types.{
  EndpointOperationResult, LeaseState, EndpointLeaseRuntime, healthy, quarantine, retired,
  recovering, is_ok, new_runtime, error_text,
}
use aurora_rl.Endpoints.Urls.{AdminClient, endpoint_key}
use aurora_rl.Endpoints.Pool.{
  Pool, or_new, runtime_of, with_runtime, next_runtime, set_endpoint_state, retire_failed,
  select_healthy, keep_or_skip, missed,
}

abbrev pub state_of : Pool → Name → LeaseState
state_of p k = (runtime_of p k).state

pub next_runtime-state :
    (now cooldown : ℕ) (state : LeaseState) (reason : Name) (r : EndpointLeaseRuntime)
    → (next_runtime now cooldown state reason r).state ≡ state
unfolding next_runtime
next_runtime-state now cooldown state reason r = by_states r.state refl state
  where
    by_states :
        (before : LeaseState)
        → r.state ≡ before
        → (state : LeaseState) → (next_runtime now cooldown state reason r).state ≡ state
    by_states healthy e healthy = ground arith
    by_states healthy e quarantine = ground arith
    by_states healthy e retired = ground arith
    by_states healthy e recovering = ground arith
    by_states quarantine e healthy = ground arith
    by_states quarantine e quarantine = ground arith
    by_states quarantine e retired = ground arith
    by_states quarantine e recovering = ground arith
    by_states retired e healthy = ground arith
    by_states retired e quarantine = ground arith
    by_states retired e retired = ground arith
    by_states retired e recovering = ground arith
    by_states recovering e healthy = ground arith
    by_states recovering e quarantine = ground arith
    by_states recovering e retired = ground arith
    by_states recovering e recovering = ground arith

pub runtime_of-set :
    (now : ℕ) (endpoint : Name) (state : LeaseState) (reason : Name) (p : Pool) (k : Name)
    → runtime_of (set_endpoint_state now endpoint state reason p) k ≡ (
        if same_name endpoint k
        then next_runtime now p.lease_cooldown state reason (runtime_of p endpoint)
        else runtime_of p k)
unfolding set_endpoint_state or_new runtime_of
runtime_of-set now endpoint state reason p k =
    rw
      (lookup-insert k endpoint
        (next_runtime now p.lease_cooldown state reason (runtime_of p endpoint)) p.endpoint_runtime)
      (elim (Bool-cases (same_name endpoint k)) [ inl e ↦ rw e refl | inr e ↦ rw e refl ])

pub state_of-set :
    (now : ℕ) (endpoint : Name) (state : LeaseState) (reason : Name) (p : Pool) (k : Name)
    → state_of (set_endpoint_state now endpoint state reason p) k
      ≡ (if same_name endpoint k then state else state_of p k)
state_of-set now endpoint state reason p k =
    ap (λ r. r.state) (runtime_of-set now endpoint state reason p k)
    ∙ (elim (Bool-cases (same_name endpoint k)) [
      | inl e ↦ rw e (next_runtime-state now p.lease_cooldown state reason (runtime_of p endpoint))
      | inr e ↦ rw e refl
    ])

pub runtime_of-with :
    (endpoint : Name) (p : Pool) (k : Name)
    → runtime_of (with_runtime endpoint p) k ≡ runtime_of p k
unfolding with_runtime runtime_of or_new
runtime_of-with endpoint p k = elim (lookup-set_default k endpoint new_runtime p.endpoint_runtime) [
  | inl e ↦ ap or_new e
  | inr (there, missing) ↦ ap or_new there ∙ sym (ap or_new missing)
]

-- Retiring what failed: an endpoint is healthy afterwards only if it was so and did not fail.
unfoldable pub has_failed : Name → List EndpointOperationResult → Bool
has_failed k [] = false
has_failed k (result ∷ results) =
    if is_ok result
    then has_failed k results
    else if same_name result.endpoint k
    then true
    else has_failed k results

abbrev failed_text : EndpointOperationResult → Name
failed_text result = result.operation ++ codes " failed: " ++ error_text result.error

retired-ne-healthy : (let s : LeaseState = retired in s ≡ healthy) → ⊥
retired-ne-healthy h = cc

pub retire_failed-healthy :
    (now : ℕ) (results : List EndpointOperationResult) (p : Pool) (k : Name)
    → state_of (retire_failed now results p) k ≡ healthy
    → (state_of p k ≡ healthy) × (has_failed k results ≡ false)
unfolding retire_failed has_failed
retire_failed-healthy now [] p k h = (h, refl)
retire_failed-healthy now (result ∷ results) p k h = elim (Bool-cases (is_ok result)) [
  | inl fine ↦ rw fine (retire_failed-healthy now results p k (rw fine at h))
  | inr failed ↦
      let (before, rest) =
        retire_failed-healthy now results
          (set_endpoint_state now result.endpoint retired (failed_text result) p) k
          (rw failed at h) in
      let set = state_of-set now result.endpoint retired (failed_text result) p k in
      elim (Bool-cases (same_name result.endpoint k)) [
        | inl same ↦ absurd (retired-ne-healthy (sym (rw same at set) ∙ before))
        | inr other ↦ rw (failed, other) (sym (rw other at set) ∙ before, rest)
      ]
]

-- Choosing the healthy clients: an endpoint that is healthy afterwards was so before, and is chosen
-- if it is one of those chosen from.
abbrev pub keys : List AdminClient → List Name
keys = map endpoint_key

-- Membership, as a proposition that is read off the list.
abbrev pub IsIn : Name → List AdminClient → Type 0
IsIn k [] = ⊥
IsIn k (client ∷ clients) = (same_name (endpoint_key client) k ≡ true) ⊎ IsIn k clients

abbrev Chosen : Name → List AdminClient → Pool → List AdminClient × Pool → Type 0
Chosen k clients p r =
    state_of r.1 k ≡ healthy → (state_of p k ≡ healthy) × (IsIn k clients → IsIn k r.0)

pub true-ne-false : (let b : Bool = true in b ≡ false) → ⊥
true-ne-false h = cc

pub recovering-ne-healthy : (let s : LeaseState = recovering in s ≡ healthy) → ⊥
recovering-ne-healthy h = cc

at_endpoint :
    (k : Name) (client : AdminClient) (p : Pool)
    → same_name (endpoint_key client) k ≡ true
    → state_of p k ≡ healthy
    → state_of p (endpoint_key client) ≡ healthy
at_endpoint k client p same before =
    subst (λ j. state_of p j ≡ healthy) (sym (same_name→eq (endpoint_key client) k same)) before

keep_or_skip-Chosen :
    (k : Name) (client : AdminClient) (clients : List AdminClient) (p : Pool)
    (known given_up : List AdminClient × Pool) (same_as : LeaseState)
    → (runtime_of p (endpoint_key client)).state ≡ same_as
    → Chosen k clients p known
    → (state_of given_up.1 k ≡ healthy
        → (state_of p k ≡ healthy)
          × (same_name (endpoint_key client) k ≡ false)
          × (IsIn k clients → IsIn k given_up.0))
    → Chosen k (client ∷ clients) p (keep_or_skip same_as client known given_up)
unfolding keep_or_skip
keep_or_skip-Chosen k client clients p known given_up healthy e c g h =
    let (before, chosen) = c h in
    (before, λ m. elim m [ inl same ↦ inl same | inr later ↦ inr (chosen later) ])
keep_or_skip-Chosen k client clients p known given_up quarantine e c g h =
    let (before, other, chosen) = g h in
    (
      before,
      λ m. elim m [
        | inl same ↦ absurd (true-ne-false (sym same ∙ other))
        | inr later ↦ chosen later
      ],
    )
keep_or_skip-Chosen k client clients p known given_up retired e c g h =
    let (before, chosen) = c h in
    (
      before,
      λ m. elim m [
        | inl same ↦ absurd (retired-ne-healthy (sym e ∙ at_endpoint k client p same before))
        | inr later ↦ chosen later
      ],
    )
keep_or_skip-Chosen k client clients p known given_up recovering e c g h =
    let (before, chosen) = c h in
    (
      before,
      λ m. elim m [
        | inl same ↦ absurd (recovering-ne-healthy (sym e ∙ at_endpoint k client p same before))
        | inr later ↦ chosen later
      ],
    )

pub select_healthy-Chosen :
    (now : ℕ) (operation : Name) (clients : List AdminClient) (p : Pool) (k : Name)
    → Chosen k clients p (select_healthy now operation clients p)
unfolding select_healthy
select_healthy-Chosen now operation [] p k h = (h, λ m. m)
select_healthy-Chosen now operation (client ∷ clients) p k h =
    keep_or_skip-Chosen k client clients p
      (select_healthy now operation clients (with_runtime (endpoint_key client) p))
      (select_healthy now operation clients (
        set_endpoint_state now (endpoint_key client) retired (missed operation)
          (with_runtime (endpoint_key client) p)))
      (runtime_of p (endpoint_key client)).state refl
      (λ after.
        let (before, chosen) =
          select_healthy-Chosen now operation clients (with_runtime (endpoint_key client) p) k
            after in
        (sym (same_state (endpoint_key client)) ∙ before, chosen))
      (λ after.
        let (before, chosen) =
          select_healthy-Chosen now operation clients
            (set_endpoint_state now (endpoint_key client) retired (missed operation)
              (with_runtime (endpoint_key client) p))
            k after in
        let set =
          state_of-set now (endpoint_key client) retired (missed operation)
            (with_runtime (endpoint_key client) p) k in
        elim (Bool-cases (same_name (endpoint_key client) k)) [
          | inl same ↦ absurd (retired-ne-healthy (sym (rw same at set) ∙ before))
          | inr other ↦ (
            sym (same_state (endpoint_key client)) ∙ sym (rw other at set) ∙ before,
            other,
            chosen,
          )
        ])
      h
  where
    same_state : (endpoint : Name) → state_of (with_runtime endpoint p) k ≡ state_of p k
    same_state endpoint = ap (λ r. r.state) (runtime_of-with endpoint p k)
