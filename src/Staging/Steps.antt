-- ===== src/Staging/Steps.antt =====
-- The server as a state machine: requests in any order, and at most one commit or reload between
-- its start and its end, which `weight_update_lock` sees to. Requests that register a version take
-- the lock too; the others also come in between.
pub mod Core
pub mod Serves
use aurora_rl.Base.{
  ℕ, ◌≡◌, Bool, true, false, Option, none, some, List, [], ◌∷◌, Result, ok, err, ap, if◌then◌else◌,
  ◌&&◌,
}
use aurora_rl.Base.Names.{Name}
use aurora_rl.Base.Exec.{Exec, pure, ◌>>◌, ◌>>=◌}
use aurora_rl.Staging.State.{State, Entry, Refusal}
use aurora_rl.Staging.Requests.{Host, Fields}
use aurora_rl.Staging.Handlers.{
  stage_weights, stage_stream_init, stage_stream_chunk, stage_stream_finalize, stage_chunk,
  stage_finalize,
}
use aurora_rl.Staging.Commit.{resume, prepare_commit, finish_commit, start_reload, finish_reload}

-- A request with what its fan-out gives, and the name that `uuid4` gives where it is called.
pub data Call : Type 0 where
  stage init finalize : Name → Bool → Fields → Call
  chunk stream_finalize : Bool → Fields → Call
  stream_chunk : Bool → Fields → List ℕ → Call
  resume_generation : Call

unfoldable pub run : Host → Call → Exec State Refusal (Unit {0})
run h (stage fresh failed fields) = stage_weights h fresh failed fields
run h (init upload_id failed fields) = do
  upload_id ← stage_stream_init h upload_id failed fields
  pure tt
run h (finalize fresh failed fields) = stage_finalize h fresh failed fields
run h (chunk failed fields) = stage_chunk h failed fields
run h (stream_finalize failed fields) = stage_stream_finalize h failed fields
run h (stream_chunk failed fields content) = stage_stream_chunk failed fields content
run h resume_generation = resume

abbrev pub takes_lock : Call → Bool
takes_lock (stage fresh failed fields) = true
takes_lock (init upload_id failed fields) = false
takes_lock (finalize fresh failed fields) = true
takes_lock (chunk failed fields) = false
takes_lock (stream_finalize failed fields) = true
takes_lock (stream_chunk failed fields content) = false
takes_lock resume_generation = false

-- What the lock is held for.
pub data Pending : Type 0 where
  idle reloading : Pending
  committing : Name × Entry × Bool → Pending

unfoldable pub pending_commit : Result Refusal (Name × Entry × Bool) → Pending
pending_commit (ok prepared) = committing prepared
pending_commit (err e) = idle

pub data Step (h : Host) : State → Pending → State → Pending → Type 0 where
  request :
      (s : State) (p : Pending) (c : Call)
      → (takes_lock c ≡ true → p ≡ idle)
      → Step h s p (run h c s).1 p
  commit_starts :
      (s : State) (fields : Fields)
      → Step h s idle (prepare_commit fields s).1 (pending_commit (prepare_commit fields s).0)
  commit_ends :
      (s : State) (prepared : Name × Entry × Bool) (engine_ok fan_out_failed : Bool)
      → Step h s (committing prepared) (finish_commit engine_ok fan_out_failed prepared s).1 idle
  reload_starts : (s : State) → Step h s idle (start_reload s) reloading
  reload_ends :
      (s : State) (engine_ok fan_out_failed : Bool)
      → Step h s reloading (finish_reload engine_ok fan_out_failed s).1 idle

pub data Reach (h : Host) (s : State) (p : Pending) : State → Pending → Type 0 where
  here : Reach h s p s p
  next : {t u : State} {q r : Pending} → Reach h s p t q → Step h t q u r → Reach h s p u r

abbrev pub Log : Type 0
Log = List (Name × Entry)

-- The updates that the workers have made, the latest first; a reload begins again.
unfoldable pub record_step : {h : Host} {s t : State} {p q : Pending} → Log → Step h s p t q → Log
record_step log (request s p c free) = log
record_step log (commit_starts s fields) = log
record_step log (commit_ends s (version, entry, call) engine_ok failed) =
    if call && engine_ok then (version, entry) ∷ log else log
record_step log (reload_starts s) = log
record_step log (reload_ends s engine_ok failed) = if engine_ok then [] else log

unfoldable pub record_steps :
    {h : Host} {s : State} {p : Pending} {t : State} {q : Pending} → Log → Reach h s p t q → Log
unfolding record_step
record_steps log here = log
record_steps log (next reached step) = record_step (record_steps log reached) step
