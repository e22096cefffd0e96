-- ===== src/Base/Dict.antt =====
-- Python dictionaries with texts for keys: in the order of insertion, each key once.
use mathlib.Core.Path.{◌≡◌, refl, ◌∙◌}
use mathlib.Core.Option.{Option, none, some}
use mathlib.Core.List.{List, [], ◌∷◌}
use aurora_rl.Base.Tests.{if◌then◌else◌, Bool-cases}
use aurora_rl.Base.Names.{Name, same_name, same_name_refl, same_name→eq, same_name_sym}
use mathlib.Core.Logic.{◌⊎◌, inl, inr}

module _ {V : Type 0} where
  abbrev pub lookup : Name → List (Name × V) → Option V
  lookup k [] = none
  lookup k ((j, v) ∷ d) = if same_name j k then some v else lookup k d

  -- `d[k] = v`
  abbrev pub insert : Name → V → List (Name × V) → List (Name × V)
  insert k v [] = (k, v) ∷ []
  insert k v ((j, w) ∷ d) = if same_name j k then (j, v) ∷ d else (j, w) ∷ insert k v d

  -- `d.pop(k, None)`
  abbrev pub erase : Name → List (Name × V) → List (Name × V)
  erase k [] = []
  erase k ((j, w) ∷ d) = if same_name j k then erase k d else (j, w) ∷ erase k d

  pub lookup-insert_self :
      (k : Name) (v : V) (d : List (Name × V)) → lookup k (insert k v d) ≡ some v
  lookup-insert_self k v [] = rw (same_name_refl k) refl
  lookup-insert_self k v ((j, w) ∷ d) = elim (Bool-cases (same_name j k)) [
    | inl same ↦ rw (same, lookup) (rw same refl)
    | inr other ↦ rw (other, lookup) (rw other (lookup-insert_self k v d))
  ]

  abbrev insert_missing : Option V → Name → V → List (Name × V) → List (Name × V)
  insert_missing none k v d = insert k v d
  insert_missing (some old) k v d = d

  -- `d.setdefault(k, v)`, as the dictionary that it leaves.
  abbrev pub set_default : Name → V → List (Name × V) → List (Name × V)
  set_default k v d = insert_missing (lookup k d) k v d

  -- `{**d, **e}`
  abbrev pub update : List (Name × V) → List (Name × V) → List (Name × V)
  update d [] = d
  update d ((k, v) ∷ e) = update (insert k v d) e

  abbrev pub values : List (Name × V) → List V
  values [] = []
  values ((k, v) ∷ d) = v ∷ values d

  pub lookup-insert :
      (j k : Name) (v : V) (d : List (Name × V))
      → lookup j (insert k v d) ≡ (if same_name k j then some v else lookup j d)
  lookup-insert j k v [] = refl
  lookup-insert j k v ((i, w) ∷ d) = elim (Bool-cases (same_name i k)) [
    | inl same ↦
        rw (same, lookup)
          (let e = same_name→eq i k same in
            rw (← e) (elim (Bool-cases (same_name i j)) [ inl h ↦ rw h refl | inr h ↦ rw h refl ]))
    | inr other ↦
        rw (other, lookup)
          (elim (Bool-cases (same_name i j)) [
            | inl h ↦
                let e = same_name→eq i j h in
                rw (← e) (rw (same_name_refl i, same_name_sym k i other) refl)
            | inr h ↦ rw h (lookup-insert j k v d)
          ])
  ]

  -- A key that was there keeps its value.
  pub lookup-set_default :
      (j k : Name) (v : V) (d : List (Name × V))
      → (lookup j (set_default k v d) ≡ lookup j d)
        ⊎ ((lookup j (set_default k v d) ≡ some v) × (lookup j d ≡ none))
  lookup-set_default j k v d = by_lookup (lookup k d) refl
    where
      by_lookup :
          (found : Option V)
          → lookup k d ≡ found
          → (lookup j (insert_missing found k v d) ≡ lookup j d)
            ⊎ ((lookup j (insert_missing found k v d) ≡ some v) × (lookup j d ≡ none))
      by_lookup (some w) e = inl refl
      by_lookup none e = elim (Bool-cases (same_name k j)) [
        | inl same ↦
            let s = same_name→eq k j same in inr (lookup-insert j k v d ∙ rw same refl, rw (← s) e)
        | inr other ↦ inl (lookup-insert j k v d ∙ rw other refl)
      ]
