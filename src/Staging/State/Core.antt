-- ===== src/Staging/State/Core.antt =====
-- What the files do not touch: the weights, the active version and the dirty flag.
use aurora_rl.Base.{ℕ, ◌≡◌, refl, Bool, ◌&&◌, Option, none, List, Bool-cases, inl, inr}
use aurora_rl.Base.Names.{Name, same_name}
use aurora_rl.Staging.State.{
  State, Entry, FilePath, Weights, set_file, is_file, remove_staged, cleanup_staged_file,
  cleanup_stage_upload,
}

abbrev pub Core : Type 0
Core = Weights × Option Name × Bool

abbrev pub core : State → Core
core s = (s.weights, s.active_version, s.weights_dirty)

pub core-set_file :
    (p : FilePath) (content : Option (List ℕ)) (s : State) → core (set_file p content s) ≡ core s
unfolding set_file
core-set_file p content s = refl

pub core-remove_staged : (p : FilePath) (s : State) → core (remove_staged p s) ≡ core s
unfolding remove_staged
core-remove_staged p s = elim (Bool-cases (is_file s p && same_name p.parent s.staging_dir)) [
  | inl mine ↦ rw mine (core-set_file p none s)
  | inr other ↦ rw other refl
]

pub core-cleanup_staged_file :
    (entry : Entry) (s : State) → core (cleanup_staged_file entry s) ≡ core s
unfolding cleanup_staged_file
core-cleanup_staged_file entry s = elim (Bool-cases entry.owned) [
  | inl owned ↦ rw owned (core-remove_staged entry.path s)
  | inr other ↦ rw other refl
]

pub core-cleanup_stage_upload :
    (path : FilePath) (s : State) → core (cleanup_stage_upload path s) ≡ core s
unfolding cleanup_stage_upload
core-cleanup_stage_upload path s = core-remove_staged path s
