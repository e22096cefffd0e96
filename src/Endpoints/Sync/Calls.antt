-- ===== src/Endpoints/Sync/Calls.antt =====
-- What the calls on one server keep: those that stage weights make neutral requests only.
use aurora_rl.Base.{◌≡◌, refl, Bool, true, false}
use aurora_rl.Base.Exec.{Keeps, Keeps-pure, Keeps-lift, Keeps-bind}
use aurora_rl.Endpoints.Types.{Texts}
use aurora_rl.Endpoints.Urls.{AdminClient}
use aurora_rl.Endpoints.Fleet.{
  Net, Request, Call, pause, resume, reload, update, commit, tell, post, finally,
}
use aurora_rl.Endpoints.Calls.{with_pause}

-- Requests that leave the weights as they are.
unfoldable pub is_neutral : Request → Bool
is_neutral (commit version mode) = false
is_neutral reload = false
is_neutral (update weight_dir mode) = false
is_neutral _ = true

module _ (t : Texts) (n : Net) (P : n.World → Type 0) where
  open n use {World, send, sleep}

  module _ (client : AdminClient) where
    -- Every request that is allowed keeps the property.
    abbrev pub Sends : (Request → Bool) → Type 0
    Sends allowed = (r : Request) → allowed r ≡ true → Keeps {S = World} P (send client.base_url r)

    pub Keeps-post :
        (r : Request)
        → Keeps {S = World} P (send client.base_url r)
        → Keeps {S = World} P (post t n client r)
    unfolding post
    Keeps-post r k = Keeps-bind _ _ k (λ response. Keeps-lift _)

    pub Keeps-tell :
        (r : Request)
        → Keeps {S = World} P (send client.base_url r)
        → Keeps {S = World} P (tell t n client r)
    unfolding tell
    Keeps-tell r k = Keeps-bind _ _ (Keeps-post r k) (λ response. Keeps-pure _)

  pub Keeps-finally :
      (first last : Call t n (Unit {0}))
      → Keeps {S = World} P first
      → Keeps {S = World} P last
      → Keeps {S = World} P (finally t n first last)
  unfolding finally
  Keeps-finally first last k l = record { at = λ w h. l.at (first w).1 (k.at w h) }

  pub Keeps-with_pause :
      (client : AdminClient) (call : AdminClient → Call t n (Unit {0}))
      → Sends client is_neutral
      → Keeps {S = World} P (call client)
      → Keeps {S = World} P (with_pause t n call client)
  unfolding with_pause is_neutral
  Keeps-with_pause client call s k =
      Keeps-bind _ _ (Keeps-tell client pause (s pause refl))
        (λ done. Keeps-finally _ _ k (Keeps-tell client resume (s resume refl)))
