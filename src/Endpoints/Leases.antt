-- ===== src/Endpoints/Leases.antt =====
-- utils/client.py: what the counters and the deadline of a lease say of its state.
use aurora_rl.Base.{
  ℕ, ◌+◌, ◌≤◌, ◌≡◌, refl, sym, subst, Bool, true, false, not, if◌then◌else◌, arith,
}
use aurora_rl.Base.Names.{Name, same_name}
use aurora_rl.Endpoints.Types.{
  LeaseState, EndpointLeaseRuntime, healthy, quarantine, retired, recovering, is_none,
}
use aurora_rl.Endpoints.Pool.{Pool, runtime_of, next_runtime, set_endpoint_state}
use aurora_rl.Endpoints.Sync.Leases.{runtime_of-set}

-- In quarantine and when retired there is a time to wait for, and at no other time.
unfoldable pub waits : LeaseState → Bool
waits healthy = false
waits quarantine = true
waits retired = true
waits recovering = false

-- Attempts that are under way.
unfoldable pub open_attempts : LeaseState → ℕ
open_attempts recovering = 1
open_attempts _ = 0

pub record IsLease (r : EndpointLeaseRuntime) : Type 0 where
  pub deadline : is_none r.quarantine_until ≡ not (waits r.state)
  pub attempts : r.recovery_success_count + open_attempts r.state ≤ r.recovery_attempt_count

next_runtime-IsLease :
    (now cooldown : ℕ) (before state : LeaseState) (reason : Name) (r : EndpointLeaseRuntime)
    → r.state ≡ before
    → IsLease r
    → IsLease (next_runtime now cooldown state reason r)
unfolding next_runtime waits open_attempts is_none
next_runtime-IsLease now cooldown healthy healthy reason r e h = ground arith
next_runtime-IsLease now cooldown healthy quarantine reason r e h = ground arith
next_runtime-IsLease now cooldown healthy retired reason r e h = ground arith
next_runtime-IsLease now cooldown healthy recovering reason r e h = ground arith
next_runtime-IsLease now cooldown quarantine healthy reason r e h = ground arith
next_runtime-IsLease now cooldown quarantine quarantine reason r e h = ground arith
next_runtime-IsLease now cooldown quarantine retired reason r e h = ground arith
next_runtime-IsLease now cooldown quarantine recovering reason r e h = ground arith
next_runtime-IsLease now cooldown retired healthy reason r e h = ground arith
next_runtime-IsLease now cooldown retired quarantine reason r e h = ground arith
next_runtime-IsLease now cooldown retired retired reason r e h = ground arith
next_runtime-IsLease now cooldown retired recovering reason r e h = ground arith
next_runtime-IsLease now cooldown recovering healthy reason r e h = ground arith
next_runtime-IsLease now cooldown recovering quarantine reason r e h = ground arith
next_runtime-IsLease now cooldown recovering retired reason r e h = ground arith
next_runtime-IsLease now cooldown recovering recovering reason r e h = ground arith

-- If every lease has a deadline exactly while it is in quarantine or retired, and no more successful
-- recoveries, with the one under way, than attempts, then this is so after any change of a state.
pub set_endpoint_state-IsLease :
    (now : ℕ) (endpoint : Name) (state : LeaseState) (reason : Name) (p : Pool)
    → ((k : Name) → IsLease (runtime_of p k))
    → (k : Name) → IsLease (runtime_of (set_endpoint_state now endpoint state reason p) k)
set_endpoint_state-IsLease now endpoint state reason p all k =
    subst IsLease (sym (runtime_of-set now endpoint state reason p k))
      (elim (same_name endpoint k)
        as (λ b. IsLease (
          if b
          then next_runtime now p.lease_cooldown state reason (runtime_of p endpoint)
          else runtime_of p k)) [
            | true ↦
                next_runtime-IsLease now p.lease_cooldown (runtime_of p endpoint).state state reason
                  (runtime_of p endpoint) refl (all endpoint)
            | false ↦ all k
          ])
