-- ===== src/Endpoints/Broadcast.antt =====
-- utils/client.py, `init_nccl_broadcast`: what becomes of a server's refusal.
use aurora_rl.Base.{
  ℕ, ◌+◌, ◌*◌, ◌/◌, ◌≡◌, refl, inl, inr, Option, some, List, [], ◌∷◌, length, Bool-cases, ok,
}
use aurora_rl.Base.Names.{Name}
use aurora_rl.Base.Exec.{pure, lift, ◌>>=◌}
use aurora_rl.Endpoints.Types.{Texts}
use aurora_rl.Endpoints.Urls.{AdminClient}
use aurora_rl.Endpoints.Fleet.{
  Net, Request, Broadcast, Response, init_broadcaster, post, raise_for_status, is_success,
}
use aurora_rl.Endpoints.Calls.{gather, first_error}
use aurora_rl.Endpoints.Start.{
  ignore_status_error, without_status, drop_status, init_server, init_servers, world_size,
  init_nccl_broadcast,
}

-- An `HTTPStatusError` carries the status of its response, and servers answer each request.
pub record Answers (n : Net) : Type 0 where
  pub status :
      (response : Response) → (n.status_failure response).status ≡ some response.status_code
  pub reply : (url : Name) (r : Request) (w : n.World) → Response
  pub answered : (url : Name) (r : Request) (w : n.World) → (n.send url r w).0 ≡ ok (reply url r w)

module _ (t : Texts) (n : Net) (a : Answers n) where
  open n use {World}

  init_server-returns :
      (b : Broadcast) (client : AdminClient) (w : World) → (init_server t n b client w).0 ≡ ok tt
  unfolding init_server ignore_status_error without_status drop_status post raise_for_status ◌>>=◌
      lift pure
  init_server-returns b client w =
      let response = a.reply client.base_url (init_broadcaster b) w in
      rw (a.answered client.base_url (init_broadcaster b) w)
        (elim (Bool-cases (is_success response)) [
          | inl good ↦ rw good refl
          | inr bad ↦ rw (bad, a.status response) refl
        ])

  init_servers-return :
      (b : Broadcast) (gpus i : ℕ) (clients : List AdminClient) (w : World)
      → (gather (init_servers t n b gpus i clients) w).0 ≡ ok tt
  unfolding init_servers gather first_error
  init_servers-return b gpus i [] w = refl
  init_servers-return b gpus i (client ∷ clients) w =
      rw (init_server-returns (record b { rank_offset = i * gpus }) client w) (
        init_servers-return b gpus (i + 1) clients
          (init_server t n (record b { rank_offset = i * gpus }) client w).1)

  -- If each request is answered, with whatever status, the start of the broadcast on any servers
  -- returns without an exception.
  pub init_nccl_broadcast-returns :
      (client : AdminClient) (clients : List AdminClient) (b : Broadcast) (given : Option ℕ)
      (w : World)
      → (init_nccl_broadcast t n (client ∷ clients) b given w).0 ≡ ok tt
  unfolding init_nccl_broadcast
  init_nccl_broadcast-returns client clients b given w =
      let size = world_size t n given (client ∷ clients) in
      init_servers-return (record b { inference_world_size = size })
        (size / length (client ∷ clients)) 0 (client ∷ clients) w
