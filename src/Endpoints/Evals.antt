-- ===== src/Endpoints/Evals.antt =====
-- utils/client.py, `get_eval_client`: a pass over the clients finds one that is healthy, if there is one.
use aurora_rl.Base.{
  ℕ, zero, suc, ◌+◌, ◌-◌, ◌%◌, ◌<◌, ◌≡◌, refl, ap, subst, ◌∙◌, inl, inr, true, false, Option, some,
  length, get_elem?, get_elem?-inside, Bool-cases, ok, arith,
}
use native.Mathlib.Nat.{mod-eq_of_lt, mod-add-mod, add-mod-mod, add-mod_right}
use aurora_rl.Base.Exec.{pure, ◌>>=◌}
use aurora_rl.Endpoints.Types.{Texts}
use aurora_rl.Endpoints.Urls.{RolloutClient}
use aurora_rl.Endpoints.Fleet.{Net}
use aurora_rl.Endpoints.Session.{Session}
use aurora_rl.Endpoints.Updates.{get_eval_client, pass_over, found_or}
use aurora_rl.Endpoints.Pool.{
  Pool, client_is_healthy, client_endpoint_key, take_or_skip, next_eval_client, eval_pass,
}

-- The pool with the cycle one client further.
abbrev pub moved : Pool → Pool
moved p = record p { eval_next = (p.eval_next + 1) % length p.eval_clients }

-- A pass with so many turns left has found a healthy client.
abbrev pub Finds : Pool → Option RolloutClient → Type 0
Finds p found =
    (client : RolloutClient) × (found ≡ some client) × (client_is_healthy p client ≡ true)

Finds-now :
    (p q : Pool) (client : RolloutClient) (rest : Option RolloutClient × Pool)
    → client_is_healthy p client ≡ true
    → Finds p (take_or_skip (some client) p q rest).0
unfolding take_or_skip
Finds-now p q client rest h = (client, rw h refl, h)

Finds-later :
    (p q : Pool) (client : RolloutClient) (rest : Option RolloutClient × Pool)
    → client_is_healthy p client ≡ false
    → Finds p rest.0
    → Finds p (take_or_skip (some client) p q rest).0
unfolding take_or_skip
Finds-later p q client rest h (found, e, fine) = (found, rw h e, fine)

-- The client at a distance d ahead in the cycle is healthy.
next_eval-Finds :
    (left d : ℕ) (p : Pool) (client : RolloutClient)
    → d < left
    → p.eval_next < length p.eval_clients
    → get_elem? p.eval_clients ((p.eval_next + d) % length p.eval_clients) ≡ some client
    → client_is_healthy p client ≡ true
    → Finds p (next_eval_client left p).0
unfolding next_eval_client client_is_healthy client_endpoint_key
next_eval-Finds zero d p client h inside at fine = absurd (omega arith)
next_eval-Finds (suc left) zero p client h inside at fine =
    let here : (p.eval_next + 0) % length p.eval_clients ≡ p.eval_next = grind arith in
    rw (rw here at at) (Finds-now p (moved p) client (next_eval_client left (moved p)) fine)
next_eval-Finds (suc left) (suc d) p client h inside at fine =
    let further : p.eval_next + suc d ≡ p.eval_next + 1 + d = omega arith in
    let (first, now) = get_elem?-inside p.eval_clients p.eval_next inside in
    elim (Bool-cases (client_is_healthy p first)) [
      | inl healthy ↦ rw now (Finds-now p (moved p) first (next_eval_client left (moved p)) healthy)
      | inr ill ↦ rw now (
          Finds-later p (moved p) first (next_eval_client left (moved p)) ill (
            next_eval-Finds left d (moved p) client (omega arith) (grind arith)
              (rw (mod-add-mod (p.eval_next + 1) (length p.eval_clients) d) (
                subst (λ x. get_elem? p.eval_clients (x % length p.eval_clients) ≡ some client)
                  further at))
              fine))
    ]

-- How far ahead of one place of a cycle another one is.
ahead : (n i j : ℕ) → i < n → j < n → (d : ℕ) × (d < n) × ((i + d) % n ≡ j)
ahead n i j hi hj =
    let exact : i + (j + n - i) ≡ j + n = omega arith in
    (
      (j + n - i) % n,
      grind arith,
      add-mod-mod i (j + n - i) n ∙ ap (λ x. x % n) exact ∙ add-mod_right j n ∙ mod-eq_of_lt hj,
    )

module _ (t : Texts) (n : Net) (polls : ℕ) where
  -- If the cycle stands at one of the clients, and one of them is healthy, then already the first pass
  -- returns a healthy client.
  pub get_eval_client-finds :
      (left j : ℕ) (s : Session t n) (client : RolloutClient)
      → s.pool.eval_next < length s.pool.eval_clients
      → j < length s.pool.eval_clients
      → get_elem? s.pool.eval_clients j ≡ some client
      → client_is_healthy s.pool client ≡ true
      → (found : RolloutClient) × ((get_eval_client t n polls (suc left) s).0 ≡ ok (some found))
        × (client_is_healthy s.pool found ≡ true)
  unfolding get_eval_client pass_over eval_pass ◌>>=◌ found_or pure
  get_eval_client-finds left j s client inside within at fine =
      let p = s.pool in
      let (d, short, there) = ahead (length p.eval_clients) p.eval_next j inside within in
      let (found, e, healthy) =
        next_eval-Finds (length p.eval_clients) d p client short inside (rw there at) fine in
      (found, rw e refl, healthy)
