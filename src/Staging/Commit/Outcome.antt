-- ===== src/Staging/Commit/Outcome.antt =====
-- What a commit leaves, in each way that it ends.
use aurora_rl.Base.{
  ◌≡◌, refl, sym, ◌∙◌, ap, Bool, true, false, ◌&&◌, ◌||◌, not, Option, some, List, [], ◌∷◌, All,
  Result, ok, err, check, ◌⊎◌, Bool-cases, inl, inr, subst, arith, >>=-eq-ok, check-true,
}
use aurora_rl.Base.Names.{Name, same_name, same_name→eq, same_name_refl}
use aurora_rl.Base.Dict.{lookup, erase}
use aurora_rl.Base.Exec.{lift, gets, modify, require, and_then, ◌>>=◌}
use aurora_rl.Staging.State.{
  State, Entry, Refusal, unknown, cleanup_staged_file, remove_staged, is_file, set_file,
  needs_reload, engine_failed, relay_failed,
}
use aurora_rl.Staging.State.Core.{core, Core, core-cleanup_staged_file}
use aurora_rl.Staging.Requests.{
  Fields, or_refuse, or_refuse-some, same_version_text, validate_stage_metadata,
}
use aurora_rl.Staging.Commit.{
  resume, mode_agrees, commit_target, start_update, prepare_commit, update_workers, drop_one,
  drop_others, finish_commit, commit_weights,
}

pub not-true : (b : Bool) → not b ≡ true → b ≡ false
not-true true h = cc
not-true false h = refl

-- A commit that starts is of a staged version, on weights that need no reload.
pub commit_target-found :
    (fields : Fields) (s : State) (version : Name) (entry : Entry)
    → commit_target fields s ≡ ok (version, entry)
    → (s.weights_dirty ≡ false)
      × (lookup version s.staged_versions ≡ some entry)
      × (fields.version ≡ some version)
unfolding commit_target
commit_target-found fields s version entry h =
    let (asked, named, h1) = >>=-eq-ok (or_refuse fields.version _) _ h in
    let (found, at, h2) = >>=-eq-ok (or_refuse (lookup asked s.staged_versions) _) _ h1 in
    let (_, _, h3) = >>=-eq-ok (check (mode_agrees fields.mode found.mode) _) _ h2 in
    let (_, clean, h4) = >>=-eq-ok (check (not s.weights_dirty) _) _ h3 in
    let same_asked : asked ≡ version = cc in
    let same_found : found ≡ entry = cc in
    (
      not-true _ (check-true _ _ clean),
      rw (← same_asked, ← same_found) (or_refuse-some _ _ found at),
      or_refuse-some _ _ asked named ∙ ap some same_asked,
    )

-- While the weights are dirty, generation is not resumed and no commit starts: both are refused and
-- nothing changes.
pub commit_dirty :
    (s : State) (engine_ok failed : Bool) (fields : Fields)
    → s.weights_dirty ≡ true
    → (resume s ≡ (err needs_reload, s))
      × (e : Refusal) × (commit_weights engine_ok failed fields s ≡ (err e, s))
unfolding resume commit_weights prepare_commit ◌>>=◌ lift gets require
commit_dirty s engine_ok failed fields dirty =
    let (e, stopped) = refused (commit_target fields s) refl in (rw dirty refl, e, rw stopped refl)
  where
    refused :
        (r : Result Refusal (Name × Entry))
        → commit_target fields s ≡ r
        → (e : Refusal) × (commit_target fields s ≡ err e)
    refused (err e) h = (e, h)
    refused (ok (version, entry)) h =
        let clean = (commit_target-found fields s version entry h).0 in absurd (ground arith)

abbrev OnlyKeys : (Name → Bool) → List (Name × Entry) → Type 0
OnlyKeys p = All (λ item. p item.0 ≡ true)

-- The version itself, or one that the loop has still to come to.
abbrev left : Name → List (Name × Entry) → Name → Bool
left version [] key = same_name key version
left version ((staged_version, entry) ∷ items) key =
    same_name staged_version key || left version items key

cleaned-staged :
    (entry : Entry) (s : State) → (cleanup_staged_file entry s).staged_versions ≡ s.staged_versions
unfolding cleanup_staged_file remove_staged set_file
cleaned-staged entry s = elim (Bool-cases entry.owned) [
  | inl owned ↦
      elim (Bool-cases (is_file s entry.path && same_name entry.path.parent s.staging_dir)) [
        | inl mine ↦ rw owned (rw mine refl)
        | inr other ↦ rw owned (rw other refl)
      ]
  | inr other ↦ rw other refl
]

OnlyKeys-weaken :
    (p q : Name → Bool) (d : List (Name × Entry))
    → ((key : Name) → p key ≡ true → q key ≡ true)
    → OnlyKeys p d
    → OnlyKeys q d
OnlyKeys-weaken p q [] sub h = tt
OnlyKeys-weaken p q ((key, entry) ∷ d) sub (hk, h) = (sub key hk, OnlyKeys-weaken p q d sub h)

OnlyKeys-erase :
    (p q : Name → Bool) (gone : Name) (d : List (Name × Entry))
    → ((key : Name) → p key ≡ true → same_name key gone ≡ false → q key ≡ true)
    → OnlyKeys p d
    → OnlyKeys q (erase gone d)
OnlyKeys-erase p q gone [] sub h = tt
OnlyKeys-erase p q gone ((key, entry) ∷ d) sub (hk, h) = elim (Bool-cases (same_name key gone)) [
  | inl same ↦ rw same (OnlyKeys-erase p q gone d sub h)
  | inr other ↦ rw other (sub key hk other, OnlyKeys-erase p q gone d sub h)
]

left_own : (version : Name) (d : List (Name × Entry)) → OnlyKeys (left version d) d
left_own version [] = tt
left_own version ((key, entry) ∷ d) = (
  rw (same_name_refl key) refl,
  OnlyKeys-weaken (left version d) (left version ((key, entry) ∷ d)) d (λ k h. ground arith)
      (left_own version d),
)

left_version :
    (version key : Name) (items : List (Name × Entry))
    → same_name key version ≡ true
    → left version items key ≡ true
left_version version key [] h = h
left_version version key ((staged_version, entry) ∷ items) h =
    ground (arith, left_version version key items h)

left_passed :
    (version staged_version key : Name) (entry : Entry) (items : List (Name × Entry))
    → left version ((staged_version, entry) ∷ items) key ≡ true
    → (staged_version ≡ key → left version items key ≡ true)
    → left version items key ≡ true
left_passed version staged_version key entry items h same =
    elim (Bool-cases (same_name staged_version key)) [
      | inl own ↦ same (same_name→eq staged_version key own)
      | inr other ↦ rw other at h
    ]

drop_one-OnlyKeys :
    (version staged_version : Name) (entry : Entry) (items : List (Name × Entry)) (s : State)
    → OnlyKeys (left version ((staged_version, entry) ∷ items)) s.staged_versions
    → OnlyKeys (left version items) (drop_one version staged_version entry s).staged_versions
unfolding drop_one
drop_one-OnlyKeys version staged_version entry items s h =
    elim (Bool-cases (same_name staged_version version)) [
      | inl own ↦ rw own (
          OnlyKeys-weaken (left version ((staged_version, entry) ∷ items)) (left version items)
            s.staged_versions
            (λ key k.
              left_passed version staged_version key entry items k
                λ at. left_version version key items (rw (← at) own))
            h)
      | inr other ↦ rw other (
          OnlyKeys-erase (left version ((staged_version, entry) ∷ items)) (left version items)
            staged_version s.staged_versions
            (λ key k differs. left_passed version staged_version key entry items k λ at. absurd (
              let same : same_name key staged_version ≡ true = rw at (same_name_refl key) in
              ground arith))
            h)
    ]

drop_others-OnlyKeys :
    (version : Name) (items : List (Name × Entry)) (s : State)
    → OnlyKeys (left version items) s.staged_versions
    → OnlyKeys (left version []) (drop_others version items s).staged_versions
unfolding drop_others
drop_others-OnlyKeys version [] s h = h
drop_others-OnlyKeys version ((staged_version, entry) ∷ items) s h =
    drop_others-OnlyKeys version items _ (drop_one-OnlyKeys version staged_version entry items s h)

-- What `commit_one` leaves where it is answered.
pub record Committed (version : Name) (s : State) : Type 0 where
  pub active : same_version_text s.active_version (some version) ≡ true
  pub clean : s.weights_dirty ≡ false
  pub only : OnlyKeys (λ key. same_name key version) s.staged_versions

core-drop_one :
    (version staged_version : Name) (entry : Entry) (s : State)
    → core (drop_one version staged_version entry s) ≡ core s
unfolding drop_one
core-drop_one version staged_version entry s =
    elim (Bool-cases (same_name staged_version version)) [
      | inl own ↦ rw own refl
      | inr other ↦ rw other (core-cleanup_staged_file entry s)
    ]

pub core-drop_others :
    (version : Name) (items : List (Name × Entry)) (s : State)
    → core (drop_others version items s) ≡ core s
unfolding drop_others
core-drop_others version [] s = refl
core-drop_others version ((staged_version, entry) ∷ items) s =
    core-drop_others version items _ ∙ core-drop_one version staged_version entry s

abbrev Settled : Name → Core → Type 0
Settled version (weights, active, dirty) =
    (same_version_text active (some version) ≡ true) × (dirty ≡ false)

update_workers-Settled :
    (version : Name) (entry : Entry) (call engine_ok : Bool) (s s' : State) {u : Unit {0}}
    → (call ≡ false → Settled version (core s))
    → update_workers engine_ok version entry call s ≡ (ok u, s')
    → Settled version (core s')
unfolding update_workers
update_workers-Settled version entry false engine_ok s s' now h =
    subst (λ t. Settled version (core t)) (ap (λ r. r.1) h) (now refl)
update_workers-Settled version entry true true s s' now h =
    subst (λ t. Settled version (core t)) (ap (λ r. r.1) h) (same_name_refl version, refl)
update_workers-Settled version entry true false s s' now h = absurd (ground arith)

Settled-Committed :
    (version : Name) (s : State)
    → Settled version (core s)
    → Committed version (drop_others version s.staged_versions s)
Settled-Committed version s settled =
    let kept : Settled version (core (drop_others version s.staged_versions s)) =
      subst (λ c. Settled version c) (sym (core-drop_others version s.staged_versions s)) settled in
    record {
      active = kept.0;
      clean = kept.1;
      only = drop_others-OnlyKeys version s.staged_versions s (left_own version s.staged_versions);
    }

finish_commit-Committed :
    (version : Name) (entry : Entry) (call engine_ok failed : Bool) (s s' : State) {u : Unit {0}}
    → (call ≡ false → Settled version (core s))
    → finish_commit engine_ok failed (version, entry, call) s ≡ (ok u, s')
    → Committed version s'
unfolding finish_commit update_workers ◌>>=◌ modify require
finish_commit-Committed version entry false engine_ok false s s' now h =
    subst (λ t. Committed version t) (ap (λ r. r.1) h) (Settled-Committed version s (now refl))
finish_commit-Committed version entry true true false s s' now h =
    subst (λ t. Committed version t) (ap (λ r. r.1) h)
      (Settled-Committed version (update_workers true version entry true s).1
        (same_name_refl version, refl))
finish_commit-Committed version entry false engine_ok true s s' now h = absurd (ground arith)
finish_commit-Committed version entry true true true s s' now h = absurd (ground arith)
finish_commit-Committed version entry true false failed s s' now h = absurd (ground arith)

-- A commit that is answered leaves the version that it names active, the weights clean, and no other
-- version staged.
pub commit-Committed :
    (fields : Fields) (engine_ok failed : Bool) (s s' : State) {u : Unit {0}}
    → commit_weights engine_ok failed fields s ≡ (ok u, s')
    → (version : Name) × (fields.version ≡ some version) × Committed version s'
unfolding commit_weights prepare_commit start_update ◌>>=◌ lift gets
commit-Committed fields engine_ok failed s s' h = targeted (commit_target fields s) refl h
  where
    validated :
        (version : Name) (entry : Entry) (r : Result Refusal (Name × Name × Option Name))
        → (let started : Result Refusal (Name × Entry × Bool) × State = elim r [
          | err e ↦ (err e, s)
          | ok metadata ↦ (ok (version, entry, true), record s { weights_dirty = true })
        ] in
            and_then started.0 (finish_commit engine_ok failed) started.1 ≡ (ok tt, s'))
        → Committed version s'
    validated version entry (ok metadata) h =
        finish_commit-Committed version entry true engine_ok failed
          (record s { weights_dirty = true }) s' (λ e. cc) h
    validated version entry (err e) h = absurd (ground arith)

    started :
        (version : Name) (entry : Entry)
        → s.weights_dirty ≡ false
        → and_then
            (start_update version entry s).0
            (finish_commit engine_ok failed)
            (start_update version entry s).1
          ≡ (ok tt, s')
        → Committed version s'
    started version entry clean h =
        elim (Bool-cases (same_version_text s.active_version (some version))) [
          | inl active ↦
              finish_commit-Committed version entry false engine_ok failed s s'
                (λ _. (active, clean)) (rw active at h)
          | inr other ↦
              validated version entry
                (validate_stage_metadata s (some version) (some entry.mode) entry.base_version)
                (rw other at h)
        ]

    targeted :
        (r : Result Refusal (Name × Entry))
        → commit_target fields s ≡ r
        → and_then
            (and_then r (λ t. start_update t.0 t.1) s).0
            (finish_commit engine_ok failed)
            (and_then r (λ t. start_update t.0 t.1) s).1
          ≡ (ok tt, s')
        → (version : Name) × (fields.version ≡ some version) × Committed version s'
    targeted (ok (version, entry)) e h =
        let (clean, _, named) = commit_target-found fields s version entry e in
        (version, named, started version entry clean h)
    targeted (err e) _ h = absurd (ground arith)

-- How a commit ends that is refused after it was let in: it was done and its relay failed, or the
-- call of the workers failed.
abbrev AfterUpdate : Name → State → Bool → Bool → Refusal → State → Type 0
AfterUpdate version s engine_ok failed e s' =
    ((e ≡ relay_failed) × (failed ≡ true) × Committed version s')
    ⊎ ((e ≡ engine_failed) × (engine_ok ≡ false) × (s' ≡ record s { weights = unknown }))

relayed :
    (version : Name) (s s' : State) {e : Refusal}
    → Settled version (core s)
    → ◌≡◌ {A = Result Refusal (Unit {0}) × State}
        (err relay_failed, drop_others version s.staged_versions s)
        (err e, s')
    → (e ≡ relay_failed) × Committed version s'
relayed version s s' settled h = (
  let found = ap (λ r. r.0) h in cc,
  subst (λ t. Committed version t) (ap (λ r. r.1) h) (Settled-Committed version s settled),
)

finish_commit_refused :
    (version : Name) (entry : Entry) (engine_ok failed : Bool) (s s' : State) {e : Refusal}
    → finish_commit engine_ok failed (version, entry, true) s ≡ (err e, s')
    → AfterUpdate version s engine_ok failed e s'
unfolding finish_commit update_workers ◌>>=◌ modify require
finish_commit_refused version entry true false s s' h = absurd (ground arith)
finish_commit_refused version entry true true s s' h =
    let (relay, done) =
      relayed version (update_workers true version entry true s).1 s' (same_name_refl version, refl)
        h in
    inl (relay, refl, done)
finish_commit_refused version entry false failed s s' h =
    inr (let found = ap (λ r. r.0) h in (cc, refl, sym (ap (λ r. r.1) h)))

finish_active_refused :
    (version : Name) (entry : Entry) (engine_ok failed : Bool) (s s' : State) {e : Refusal}
    → Settled version (core s)
    → finish_commit engine_ok failed (version, entry, false) s ≡ (err e, s')
    → (e ≡ relay_failed) × (failed ≡ true) × Committed version s'
unfolding finish_commit update_workers ◌>>=◌ modify require
finish_active_refused version entry engine_ok false s s' settled h = absurd (ground arith)
finish_active_refused version entry engine_ok true s s' settled h =
    let (relay, done) = relayed version s s' settled h in (relay, refl, done)

-- How a refused commit leaves the server.
abbrev pub Refused : Fields → Bool → Bool → Refusal → State → State → Type 0
Refused fields engine_ok failed e s s' =
    (s' ≡ s)
    ⊎ ((version : Name) × (fields.version ≡ some version)
        × AfterUpdate version (record s { weights_dirty = true }) engine_ok failed e s')

-- A commit that is refused has changed nothing, unless it was refused late: either it was done, as if
-- it were answered, and the fan-out to the other servers failed, or the call of the workers failed,
-- and the weights are left dirty and unknown, with all else as it was.
pub commit-Refused :
    (fields : Fields) (engine_ok failed : Bool) (s s' : State) {e : Refusal}
    → commit_weights engine_ok failed fields s ≡ (err e, s')
    → Refused fields engine_ok failed e s s'
unfolding commit_weights prepare_commit start_update ◌>>=◌ lift gets
commit-Refused fields engine_ok failed s s' {e} h = targeted (commit_target fields s) refl h
  where
    validated :
        (version : Name) (entry : Entry) (r : Result Refusal (Name × Name × Option Name))
        → fields.version ≡ some version
        → (let started : Result Refusal (Name × Entry × Bool) × State = elim r [
          | err e ↦ (err e, s)
          | ok metadata ↦ (ok (version, entry, true), record s { weights_dirty = true })
        ] in
            and_then started.0 (finish_commit engine_ok failed) started.1 ≡ (err e, s'))
        → Refused fields engine_ok failed e s s'
    validated version entry (ok metadata) named h = inr (
      version,
      named,
      finish_commit_refused version entry engine_ok failed (record s { weights_dirty = true }) s' h,
    )
    validated version entry (err e) named h = inl (sym (ap (λ r. r.1) h))

    started :
        (version : Name) (entry : Entry)
        → fields.version ≡ some version
        → s.weights_dirty ≡ false
        → and_then
            (start_update version entry s).0
            (finish_commit engine_ok failed)
            (start_update version entry s).1
          ≡ (err e, s')
        → Refused fields engine_ok failed e s s'
    started version entry named clean h =
        elim (Bool-cases (same_version_text s.active_version (some version))) [
          | inl active ↦ inr (
            version,
            named,
            inl (
                finish_active_refused version entry engine_ok failed s s' (active, clean)
                  (rw active at h)),
          )
          | inr other ↦
              validated version entry
                (validate_stage_metadata s (some version) (some entry.mode) entry.base_version)
                named (rw other at h)
        ]

    targeted :
        (r : Result Refusal (Name × Entry))
        → commit_target fields s ≡ r
        → and_then
            (and_then r (λ t. start_update t.0 t.1) s).0
            (finish_commit engine_ok failed)
            (and_then r (λ t. start_update t.0 t.1) s).1
          ≡ (err e, s')
        → Refused fields engine_ok failed e s s'
    targeted (ok (version, entry)) at h =
        let (clean, _, named) = commit_target-found fields s version entry at in
        started version entry named clean h
    targeted (err e) _ h = inl (sym (ap (λ r. r.1) h))
