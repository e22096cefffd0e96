-- ===== src/Base/Names.antt =====
-- Names of parameters and modules, as their code points.
use Prim.Native.Nat.{ℕ}
use Prim.Native.Char.{code}
use Prim.Native.String.{String}
use mathlib.Core.Bool.{Bool, true, false, ◌&&◌}
use mathlib.Core.Option.{Option, none, some}
use mathlib.Core.List.{List}
use mathlib.Core.Path.{◌≡◌, refl}
use native.Mathlib.Omega.{arith}
use aurora_rl.Base.Tests.{◌==◌, if◌then◌else◌}

abbrev pub Name : Type 0
Name = List ℕ

abbrev pub codes : String → Name
codes String.[] = List.[]
codes (String.◌∷◌ c s) = List.◌∷◌ (code c) (codes s)

abbrev pub same_name : Name → Name → Bool
same_name List.[] List.[] = true
same_name (List.◌∷◌ a as') (List.◌∷◌ b bs) = a == b && same_name as' bs
same_name _ _ = false

abbrev pub same_shape : List ℕ → List ℕ → Bool
same_shape = same_name

-- `name[: -len(suffix)]` where `name.endswith(suffix)`.
abbrev pub strip_suffix : Name → Name → Option Name
strip_suffix suffix List.[] = if same_name suffix List.[] then some List.[] else none
strip_suffix suffix (List.◌∷◌ c name) =
    if same_name suffix (List.◌∷◌ c name)
    then some List.[]
    else elim (strip_suffix suffix name) [ none ↦ none | some front ↦ some (List.◌∷◌ c front) ]

pub same_name→eq : (a b : Name) → same_name a b ≡ true → a ≡ b
same_name→eq List.[] List.[] h = refl
same_name→eq List.[] (List.◌∷◌ b bs) h = cc
same_name→eq (List.◌∷◌ a as') List.[] h = cc
same_name→eq (List.◌∷◌ a as') (List.◌∷◌ b bs) h = ground (arith, same_name→eq as' bs)

pub same_name_refl : (a : Name) → same_name a a ≡ true
same_name_refl List.[] = refl
same_name_refl (List.◌∷◌ a as') = ground (arith, same_name_refl as')

-- If two names differ, they differ the other way round.
pub same_name_sym : (a b : Name) → same_name b a ≡ false → same_name a b ≡ false
same_name_sym List.[] List.[] h = h
same_name_sym List.[] (List.◌∷◌ b bs) h = refl
same_name_sym (List.◌∷◌ a as') List.[] h = refl
same_name_sym (List.◌∷◌ a as') (List.◌∷◌ b bs) h = ground (arith, same_name_sym as' bs)
