-- ===== src/Endpoints/Sync/Effects.antt =====
-- Which versions the endpoints serve after each operation on the servers.
use aurora_rl.Base.{
  ℕ, ◌≡◌, refl, sym, subst, ◌∙◌, inl, inr, true, false, Option, none, some, List, [], ◌∷◌, All,
  Bool-cases, ok,
}
use aurora_rl.Base.Names.{Name, same_name, same_name→eq}
use aurora_rl.Base.Exec.{Keeps}
use aurora_rl.Endpoints.Types.{Texts, EndpointOperationResult, is_ok, all_ok, any_ok}
use aurora_rl.Endpoints.Urls.{AdminClient, endpoint_key}
use aurora_rl.Endpoints.Fleet.{Net, Call, reload, commit, tell, run_one, run_each}
use aurora_rl.Endpoints.Calls.{with_pause}
use aurora_rl.Endpoints.Uploads.{StageJob, stage_weights}
use aurora_rl.Endpoints.Sync.Leases.{IsIn, has_failed}
use aurora_rl.Endpoints.Sync.Calls.{Keeps-tell, Keeps-with_pause}
use aurora_rl.Endpoints.Sync.Operations.{Keeps-stage_weights, with_pause-ok, run_each-establishes}
use aurora_rl.Endpoints.Sync.Fleet.{IsFleet, on_tell, At, sends_to_other, Sends-neutral, sleeps-At}

pub all_ok-fine :
    (k : Name) (results : List EndpointOperationResult)
    → all_ok results ≡ true
    → has_failed k results ≡ false
unfolding all_ok has_failed
all_ok-fine k [] h = refl
all_ok-fine k (result ∷ results) h = elim (Bool-cases (is_ok result)) [
  | inl fine ↦ rw fine (all_ok-fine k results (rw fine at h))
  | inr failed ↦ absurd (let e = rw failed at h in cc)
]

all_clients :
    {Q : AdminClient → Type 0} → ((c : AdminClient) → Q c) → (cs : List AdminClient) → All Q cs
all_clients f [] = tt
all_clients f (c ∷ cs) = (f c, all_clients f cs)

module _ (t : Texts) (n : Net) where
  open n use {World}

  -- Where no call succeeded, each endpoint that took part failed.
  pub none_ok-failed :
      (k : Name) (operation : Name) (call : AdminClient → Call t n (Unit {0}))
      (clients : List AdminClient) (w : World)
      → any_ok (run_each t n operation call clients w).0 ≡ false
      → IsIn k clients
      → has_failed k (run_each t n operation call clients w).0 ≡ true
  unfolding run_each run_one any_ok has_failed is_ok
  none_ok-failed k operation call [] w h m = absurd m
  none_ok-failed k operation call (c ∷ cs) w h m =
      elim (Bool-cases (is_ok (run_one t n operation call c w).0)) [
        | inl fine ↦ absurd (let e = rw fine at h in cc)
        | inr failed ↦ elim (Bool-cases (same_name (endpoint_key c) k)) [
          | inl same ↦ rw (failed, same) refl
          | inr other ↦
              rw (failed, other)
                (none_ok-failed k operation call cs (call c w).1 (rw failed at h) (rest other m))
        ]
      ]
    where
      rest : same_name (endpoint_key c) k ≡ false → IsIn k (c ∷ cs) → IsIn k cs
      rest other (inl same) = absurd (let e = sym same ∙ other in cc)
      rest other (inr m) = m

module _ (t : Texts) (n : Net) (served : n.World → Name → Option Name)
    (fleet : IsFleet n served) where
  open n use {World}

  pub stage_weights-At :
      (k : Name) (v : Option Name) (clients : List AdminClient) (job : StageJob) (size polls : ℕ)
      → Keeps {S = World} (At t n served fleet k v) (stage_weights t n clients job size polls)
  stage_weights-At k v clients job size polls =
      Keeps-stage_weights t n _ (sleeps-At t n served fleet k v) clients
        (all_clients (Sends-neutral t n served fleet k v) clients) job size polls

  abbrev pub commit_call : Name → Option Name → AdminClient → Call t n (Unit {0})
  commit_call version mode = with_pause t n (λ client. tell t n client (commit version mode))

  abbrev pub reload_call : AdminClient → Call t n (Unit {0})
  reload_call = with_pause t n (λ client. tell t n client reload)

  commit-here :
      (version : Name) (mode : Option Name) (k : Name) (c : AdminClient)
      → same_name (endpoint_key c) k ≡ true
      → (w w' : World) → commit_call version mode c w ≡ (ok tt, w')
      → At t n served fleet k (some version) w'
  unfolding endpoint_key
  commit-here version mode k c same w w' h =
      with_pause-ok t n (At t n served fleet k (some version)) c _ w w'
        (Sends-neutral t n served fleet k (some version) c)
        (λ v v' told. on_tell t n c (commit version mode) v v' told λ response sent success.
          subst (λ j. served v' j ≡ some version) (same_name→eq (endpoint_key c) k same)
            (fleet.committed c.base_url version mode v v' response sent success))
        h

  reload-here :
      (k : Name) (c : AdminClient)
      → same_name (endpoint_key c) k ≡ true
      → (w w' : World) → reload_call c w ≡ (ok tt, w')
      → At t n served fleet k none w'
  unfolding endpoint_key
  reload-here k c same w w' h =
      with_pause-ok t n (At t n served fleet k none) c _ w w'
        (Sends-neutral t n served fleet k none c)
        (λ v v' told. on_tell t n c reload v v' told λ response sent success.
          subst (λ j. served v' j ≡ none) (same_name→eq (endpoint_key c) k same)
            (fleet.reloaded c.base_url v v' response sent success))
        h

  pub commit-elsewhere :
      (version : Name) (mode : Option Name) (k : Name) (v : Option Name) (c : AdminClient)
      → same_name (endpoint_key c) k ≡ false
      → Keeps {S = World} (At t n served fleet k v) (commit_call version mode c)
  commit-elsewhere version mode k v c other =
      Keeps-with_pause t n _ c _ (Sends-neutral t n served fleet k v c)
        (Keeps-tell t n _ c _ (sends_to_other t n served fleet k v c other _))

  pub reload-elsewhere :
      (k : Name) (v : Option Name) (c : AdminClient)
      → same_name (endpoint_key c) k ≡ false
      → Keeps {S = World} (At t n served fleet k v) (reload_call c)
  reload-elsewhere k v c other =
      Keeps-with_pause t n _ c _ (Sends-neutral t n served fleet k v c)
        (Keeps-tell t n _ c _ (sends_to_other t n served fleet k v c other _))

  -- An endpoint that took part in a commit, and did not fail, serves its version.
  pub commits-At :
      (operation version : Name) (mode : Option Name) (k : Name) (clients : List AdminClient)
      (w : World)
      → has_failed k (run_each t n operation (commit_call version mode) clients w).0 ≡ false
      → IsIn k clients
      → At t n served fleet k
          (some version)
          (run_each t n operation (commit_call version mode) clients w).1
  commits-At operation version mode k clients w h m =
      run_each-establishes t n (At t n served fleet k (some version)) k (commit_call version mode)
        (commit-here version mode k) (commit-elsewhere version mode k (some version)) operation
        clients w h (inl m)

  pub reloads-At :
      (operation : Name) (k : Name) (clients : List AdminClient) (w : World)
      → has_failed k (run_each t n operation reload_call clients w).0 ≡ false
      → IsIn k clients
      → At t n served fleet k none (run_each t n operation reload_call clients w).1
  reloads-At operation k clients w h m =
      run_each-establishes t n (At t n served fleet k none) k reload_call (reload-here k)
        (reload-elsewhere k none) operation clients w h (inl m)
