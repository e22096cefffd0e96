-- ===== src/Endpoints/Sync/Fleet.antt =====
-- What the servers behind the requests do with weights: the documented behaviour of
-- inference/vllm/server.py, by the version that each endpoint serves; none is the base model.
use aurora_rl.Base.{
  ◌≡◌, refl, ap, subst, ◌∙◌, inl, inr, Bool, true, false, Option, none, some, Bool-cases,
  if◌then◌else◌, Result, ok, err,
}
use aurora_rl.Base.Names.{Name, same_name, same_name→eq}
use aurora_rl.Base.Exec.{Keeps, pure, lift, on_bind}
use aurora_rl.Endpoints.Types.{Texts, Failure}
use aurora_rl.Endpoints.Urls.{AdminClient, endpoint_key, normalize_endpoint_url}
use aurora_rl.Endpoints.Fleet.{
  Net, Request, Response, reload, commit, tell, post, raise_for_status, is_success,
}
use aurora_rl.Endpoints.Sync.Calls.{is_neutral, Sends}

pub record IsFleet (n : Net) (served : n.World → Name → Option Name) : Type 0 where
  -- A request concerns the endpoint that it is sent to.
  pub others :
      (url : Name) (r : Request) (w : n.World) (k : Name)
      → same_name (normalize_endpoint_url url) k ≡ false
      → served (n.send url r w).1 k ≡ served w k
  pub neutral :
      (url : Name) (r : Request) (w : n.World)
      → is_neutral r ≡ true
      → served (n.send url r w).1 (normalize_endpoint_url url)
        ≡ served w (normalize_endpoint_url url)
  pub committed :
      (url version : Name) (mode : Option Name) (w w' : n.World) (response : Response)
      → n.send url (commit version mode) w ≡ (ok response, w')
      → is_success response ≡ true
      → served w' (normalize_endpoint_url url) ≡ some version
  pub reloaded :
      (url : Name) (w w' : n.World) (response : Response)
      → n.send url reload w ≡ (ok response, w')
      → is_success response ≡ true
      → served w' (normalize_endpoint_url url) ≡ none
  pub slept : (w : n.World) (k : Name) → served (n.sleep w) k ≡ served w k

module _ (t : Texts) (n : Net) {C : Type 0} where
  -- A request that returned was answered, and the answer was a success.
  pub on_tell :
      (c : AdminClient) (r : Request) (w w' : n.World)
      → tell t n c r w ≡ (ok tt, w')
      → ((response : Response)
          → n.send c.base_url r w ≡ (ok response, w')
          → is_success response ≡ true
          → C)
      → C
  unfolding tell post raise_for_status lift pure
  on_tell c r w w' h k = on_bind (post t n c r) _ w w' tt h λ answer v posted rest.
      on_bind (n.send c.base_url r) _ w v answer posted λ response u sent lifted.
        let end = ap (λ r. r.1) lifted ∙ ap (λ r. r.1) rest in
        k response (subst (λ x. n.send c.base_url r w ≡ (ok response, x)) end sent)
          (raise_for_status-ok response (ap (λ r. r.0) lifted))
    where
      raise_for_status-ok :
          (response : Response) {answer : Response}
          → raise_for_status t n response ≡ ok answer
          → is_success response ≡ true
      raise_for_status-ok response h = by_status (is_success response) h
        where
          by_status :
              (b : Bool) {answer : Response}
              → (let r : Result Failure Response =
                    if b then ok response else err (n.status_failure response) in
                  r ≡ ok answer)
              → b ≡ true
          by_status true h = refl
          by_status false h = cc

module _ (t : Texts) (n : Net) (served : n.World → Name → Option Name)
    (fleet : IsFleet n served) where
  open n use {World, send, sleep}

  abbrev pub At : Name → Option Name → World → Type 0
  At k v w = served w k ≡ v

  -- An endpoint keeps its weights whatever is sent to another one.
  pub sends_to_other :
      (k : Name) (v : Option Name) (c : AdminClient)
      → same_name (endpoint_key c) k ≡ false
      → (r : Request) → Keeps {S = World} (At k v) (send c.base_url r)
  unfolding endpoint_key
  sends_to_other k v c other r = record { at = λ w h. fleet.others c.base_url r w k other ∙ h }

  pub Sends-neutral :
      (k : Name) (v : Option Name) (c : AdminClient) → Sends t n (At k v) c is_neutral
  unfolding endpoint_key
  Sends-neutral k v c r e = elim (Bool-cases (same_name (endpoint_key c) k)) [
    | inr other ↦ sends_to_other k v c other r
    | inl same ↦
        let here = same_name→eq (endpoint_key c) k same in
        record {
          at = λ w h.
              subst (λ j. served w j ≡ v → served (send c.base_url r w).1 j ≡ v) here
                (λ h. fleet.neutral c.base_url r w e ∙ h) h;
        }
  ]

  pub sleeps-At : (k : Name) (v : Option Name) (w : World) → At k v w → At k v (sleep w)
  sleeps-At k v w h = fleet.slept w k ∙ h
