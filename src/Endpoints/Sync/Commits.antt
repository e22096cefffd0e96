-- ===== src/Endpoints/Sync/Commits.antt =====
-- `stage_weights` and `commit_weights` of the pool keep the healthy endpoints in step, also where
-- they fail on some of them or on all.
use aurora_rl.Base.{
  ℕ, refl, Bool, true, false, not, Option, none, some, List, [], ◌∷◌, if◌then◌else◌, Result, ok,
  err,
}
use aurora_rl.Base.Names.{Name, codes}
use aurora_rl.Base.Dict.{insert}
use aurora_rl.Base.Exec.{Keeps, Keeps-bind, Keeps-gets, Keeps-pure, Keeps-if, Keeps-refuse}
use aurora_rl.Endpoints.Types.{
  Texts, PoolError, EndpointOperationResult, DeltaReplayEntry, operation_error, raised,
}
use aurora_rl.Endpoints.Urls.{RolloutClient, AdminClient}
use aurora_rl.Endpoints.Fleet.{Net}
use aurora_rl.Endpoints.Uploads
use aurora_rl.Endpoints.Uploads.{StageJob, is_delta}
use aurora_rl.Endpoints.Pool.{Pool, runtime_of, healthy_clients}
use aurora_rl.Endpoints.Plan.{remember_delta_replay_entry, replay_entry}
use aurora_rl.Endpoints.Session.{
  Session, Action, handle, try_except, record_admin_results, stage_upload_chunk_bytes,
}
use aurora_rl.Endpoints.Updates.{
  set_staged, extend_staged, stage_weights, missed_stage, raise_unless_some, stage_missing,
  stage_entry, stage_if_missing,
}
use aurora_rl.Endpoints.Sync.Shrinks.{Shrinks, Shrinks-refl}
use aurora_rl.Endpoints.Sync.Effects.{stage_weights-At}
use aurora_rl.Endpoints.Sync.Fleet.{IsFleet}
use aurora_rl.Endpoints.Sync.Agree.{InSync, Keeps-record, Keeps-select, Keeps-pool}

set_staged-Shrinks :
    (version : Name) (results : List EndpointOperationResult) (p : Pool)
    → Shrinks p (set_staged version results p)
unfolding set_staged runtime_of
set_staged-Shrinks version results p = record {
  admins = refl;
  lease = refl;
  active = refl;
  healthy_before = λ k h. h;
}

extend_staged-Shrinks :
    (version : Name) (results : List EndpointOperationResult) (p : Pool)
    → Shrinks p (extend_staged version results p)
unfolding extend_staged runtime_of
extend_staged-Shrinks version results p = record {
  admins = refl;
  lease = refl;
  active = refl;
  healthy_before = λ k h. h;
}

remember-Shrinks : (job : StageJob) (p : Pool) → Shrinks p (remember_delta_replay_entry job p)
unfolding remember_delta_replay_entry runtime_of
remember-Shrinks job p = by_mode (not (is_delta job))
  where
    by_mode :
        (b : Bool)
        → Shrinks p (
            if b then p else record p {
              delta_replay_entries = insert job.version (replay_entry job) p.delta_replay_entries;
            })
    by_mode true = Shrinks-refl p
    by_mode false = record { admins = refl; lease = refl; active = refl; healthy_before = λ k h. h }

module _ (t : Texts) (n : Net) (served : n.World → Name → Option Name) (fleet : IsFleet n served)
    (polls : ℕ) where
  Keeps-stage_one :
      (clients : List AdminClient) (job : StageJob) (allow : Bool)
      → Keeps {S = Session t n} (InSync t n served fleet) (
          record_admin_results t n
            (Uploads.stage_weights t n clients job stage_upload_chunk_bytes polls)
            allow)
  Keeps-stage_one clients job allow =
      Keeps-record t n served fleet _ allow
        (λ k v. stage_weights-At t n served fleet k v clients job stage_upload_chunk_bytes polls)

  pub Keeps-stage :
      (job : StageJob)
      → Keeps {S = Session t n} (InSync t n served fleet) (stage_weights t n polls job)
  unfolding stage_weights
  Keeps-stage job =
      Keeps-bind _ _ (Keeps-select t n served fleet (codes "stage_weights")) λ clients.
        Keeps-bind _ _ (Keeps-gets _) λ partial.
          Keeps-bind _ _ (Keeps-stage_one clients job partial) λ results.
            Keeps-bind _ _
              (Keeps-pool t n served fleet (λ s. set_staged job.version results s.pool)
                (λ s. set_staged-Shrinks job.version results s.pool))
              λ a.
                Keeps-pool t n served fleet (λ s. remember_delta_replay_entry job s.pool)
                  (λ s. remember-Shrinks job s.pool)

  Keeps-try :
      {A : Type 0} (first : Action t n A) (handler : PoolError → Action t n (Unit {0}))
      (otherwise : A → Action t n (Unit {0}))
      → Keeps {S = Session t n} (InSync t n served fleet) first
      → ((e : PoolError) → Keeps {S = Session t n} (InSync t n served fleet) (handler e))
      → ((a : A) → Keeps {S = Session t n} (InSync t n served fleet) (otherwise a))
      → Keeps {S = Session t n} (InSync t n served fleet) (try_except t n first handler otherwise)
  unfolding try_except handle
  Keeps-try {A} first handler otherwise f h o = record {
    at = λ s i. by_outcome (first s).0 _ (f.at s i);
  }
    where
      by_outcome :
          (outcome : Result PoolError A) (s : Session t n)
          → InSync t n served fleet s
          → InSync t n served fleet (handle t n outcome handler otherwise s).1
      by_outcome (ok a) s i = (o a).at s i
      by_outcome (err e) s i = (h e).at s i

  Keeps-missed :
      (e : PoolError) → Keeps {S = Session t n} (InSync t n served fleet) (missed_stage t n polls e)
  unfolding missed_stage raise_unless_some
  Keeps-missed (raised e) = Keeps-refuse _
  Keeps-missed (operation_error operation results) = Keeps-bind _ _ (Keeps-gets _) λ p.
      Keeps-if (not p.lease_enabled) _ _ (Keeps-refuse _)
        (some_or_raise (healthy_clients p p.train_clients))
    where
      some_or_raise :
          (clients : List RolloutClient)
          → Keeps {S = Session t n}
              (InSync t n served fleet)
              (raise_unless_some t n polls (operation_error operation results) clients)
      some_or_raise [] = Keeps-refuse _
      some_or_raise (c ∷ cs) = Keeps-pure _

  Keeps-missing :
      (version : Name) (job : StageJob) (clients : List AdminClient)
      → Keeps {S = Session t n}
          (InSync t n served fleet)
          (stage_missing t n polls version job clients)
  unfolding stage_missing
  Keeps-missing version job [] = Keeps-pure _
  Keeps-missing version job (client ∷ clients) = Keeps-bind _ _ (Keeps-gets _) λ partial.
      Keeps-try _ _ _ (Keeps-stage_one (client ∷ clients) job partial) Keeps-missed (λ results.
        Keeps-pool t n served fleet (λ s. extend_staged version results s.pool)
          (λ s. extend_staged-Shrinks version results s.pool))

  Keeps-entry :
      (version : Name) (entry : Option DeltaReplayEntry)
      → Keeps {S = Session t n} (InSync t n served fleet) (stage_entry t n polls version entry)
  unfolding stage_entry
  Keeps-entry version none = Keeps-pure _
  Keeps-entry version (some entry) =
      Keeps-bind _ _ (Keeps-select t n served fleet (codes "commit_weights"))
        λ clients. Keeps-bind _ _ (Keeps-gets _) λ staged. Keeps-missing version _ _

  pub Keeps-if_missing :
      (version : Name)
      → Keeps {S = Session t n} (InSync t n served fleet) (stage_if_missing t n polls version)
  unfolding stage_if_missing
  Keeps-if_missing version = Keeps-bind _ _ (Keeps-gets _) λ entry. Keeps-entry version entry
