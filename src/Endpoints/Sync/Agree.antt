-- ===== src/Endpoints/Sync/Agree.antt =====
-- The healthy endpoints serve the active version: what keeps it so.
use aurora_rl.Base.{
  ◌≡◌, refl, sym, subst, ◌∙◌, ◌⊎◌, inl, inr, Bool, true, false, Option, none, some, Bool-cases,
}
use aurora_rl.Base.Int.{ℤ, pos}
use aurora_rl.Base.Names.{Name, same_name, same_name→eq}
use aurora_rl.Base.Exec.{Keeps, modify}
use aurora_rl.Endpoints.Types.{Texts, PoolError, healthy}
use aurora_rl.Endpoints.Fleet.{Net, Operation}
use aurora_rl.Endpoints.Pool.{Pool}
use aurora_rl.Endpoints.Plan.{at_most}
use aurora_rl.Endpoints.Session.{Session, record_admin_results, select_clients}
use aurora_rl.Endpoints.Sync.Leases.{state_of, IsIn}
use aurora_rl.Endpoints.Sync.Shrinks.{Shrinks, select_clients-Shrinks, record_admin-Shrinks}
use aurora_rl.Endpoints.Sync.Fleet.{IsFleet, At}

unfoldable pub number : Texts → Option Name → Option ℤ
number t none = none
number t (some version) = t.parse_int version

-- What an endpoint serves stands for the active version: the same text, or the same number, or the
-- base model where the active version is a number below 1, for which no delta is replayed.
abbrev pub SameVersion : Texts → Option Name → Option Name → Type 0
SameVersion t served active =
    (served ≡ active)
    ⊎ (((n : ℤ) × (number t served ≡ some n) × (number t active ≡ some n))
        ⊎ ((served ≡ none) × (n : ℤ) × (number t active ≡ some n) × (at_most (pos 1) n ≡ false)))

module _ (t : Texts) (n : Net) (served : n.World → Name → Option Name)
    (fleet : IsFleet n served) where
  -- With leases, every endpoint that is healthy serves the active version.
  pub record InSync (s : Session t n) : Type 0 where
    pub leased : s.pool.lease_enabled ≡ true
    pub agree :
        (k : Name)
        → IsIn k s.pool.admin_clients
        → state_of s.pool k ≡ healthy
        → SameVersion t (served s.world k) s.pool.active_version

  -- The same while one endpoint is being recovered.
  pub record Away (k0 : Name) (s : Session t n) : Type 0 where
    pub in_sync : InSync s
    pub ill : state_of s.pool k0 ≡ healthy → ⊥

  pub InSync-shrunk :
      (s s' : Session t n)
      → InSync s
      → Shrinks s.pool s'.pool
      → ((k : Name) (v : Option Name)
          → state_of s.pool k ≡ healthy
          → At t n served fleet k v s.world
          → At t n served fleet k v s'.world)
      → InSync s'
  InSync-shrunk s s' i h kept = record {
    leased = h.lease ∙ i.leased;
    agree = λ k m fine.
        let before = h.healthy_before k fine in
        let same = i.agree k (subst (IsIn k) h.admins m) before in
        subst (λ v. SameVersion t v s'.pool.active_version)
          (sym (kept k (served s.world k) before refl))
          (subst (SameVersion t (served s.world k)) (sym h.active) same);
  }

  ill-other :
      (k0 k : Name) (p : Pool)
      → (state_of p k0 ≡ healthy → ⊥)
      → state_of p k ≡ healthy
      → same_name k0 k ≡ false
  ill-other k0 k p ill fine = elim (Bool-cases (same_name k0 k)) [
    | inr other ↦ other
    | inl same ↦
        absurd (ill (subst (λ j. state_of p j ≡ healthy) (sym (same_name→eq k0 k same)) fine))
  ]

  pub Away-shrunk :
      (k0 : Name) (s s' : Session t n)
      → Away k0 s
      → Shrinks s.pool s'.pool
      → ((k : Name) (v : Option Name)
          → same_name k0 k ≡ false
          → At t n served fleet k v s.world
          → At t n served fleet k v s'.world)
      → Away k0 s'
  Away-shrunk k0 s s' a h kept = record {
    in_sync =
        InSync-shrunk s s' a.in_sync h (λ k v fine. kept k v (ill-other k0 k s.pool a.ill fine));
    ill = λ fine. a.ill (h.healthy_before k0 fine);
  }

  pub Keeps-record :
      (operation : Operation t n) (allow : Bool)
      → ((k : Name) (v : Option Name) → Keeps {S = n.World} (At t n served fleet k v) operation)
      → Keeps {S = Session t n} InSync (record_admin_results t n operation allow)
  unfolding record_admin_results
  Keeps-record operation allow kept = record {
    at = λ s i.
        InSync-shrunk s _ i (record_admin-Shrinks t n operation allow s)
          (λ k v fine h. (kept k v).at s.world h);
  }

  pub Keeps-record-Away :
      (k0 : Name) (operation : Operation t n) (allow : Bool)
      → ((k : Name) (v : Option Name)
          → same_name k0 k ≡ false
          → Keeps {S = n.World} (At t n served fleet k v) operation)
      → Keeps {S = Session t n} (Away k0) (record_admin_results t n operation allow)
  unfolding record_admin_results
  Keeps-record-Away k0 operation allow kept = record {
    at = λ s i.
        Away-shrunk k0 s _ i (record_admin-Shrinks t n operation allow s)
          (λ k v other h. (kept k v other).at s.world h);
  }

  pub Keeps-select :
      (operation : Name) → Keeps {S = Session t n} InSync (select_clients t n operation)
  unfolding select_clients
  Keeps-select operation = record {
    at = λ s i. InSync-shrunk s _ i (select_clients-Shrinks t n operation s) (λ k v fine h. h);
  }

  -- A change of the pool alone.
  pub Keeps-pool :
      (f : Session t n → Pool)
      → ((s : Session t n) → Shrinks s.pool (f s))
      → Keeps {S = Session t n} {E = PoolError} InSync (modify (λ s. record s { pool = f s }))
  unfolding modify
  Keeps-pool f shrinks = record { at = λ s i. InSync-shrunk s _ i (shrinks s) (λ k v fine h. h) }

  pub Keeps-pool-Away :
      (k0 : Name) (f : Session t n → Pool)
      → ((s : Session t n) → Shrinks s.pool (f s))
      → Keeps {S = Session t n} {E = PoolError} (Away k0) (modify (λ s. record s { pool = f s }))
  unfolding modify
  Keeps-pool-Away k0 f shrinks = record {
    at = λ s i. Away-shrunk k0 s _ i (shrinks s) (λ k v other h. h);
  }
