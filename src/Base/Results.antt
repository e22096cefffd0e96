-- ===== src/Base/Results.antt =====
-- Code that may raise returns a `Result` over the errors of its component.
use mathlib.Core.Path.{◌≡◌, refl}
use mathlib.Core.Bool.{Bool, true, false}

pub data Result {ℓ} (E : Type 0) (A : Type ℓ) : Type ℓ where
  ok : A → Result E A
  err : E → Result E A

infixl 5 ◌>>=◌ ◌>>◌
abbrev pub ◌>>=◌ {ℓ κ} :
    {E : Type 0} {A : Type ℓ} {B : Type κ} → Result E A → (A → Result E B) → Result E B
err e >>= next = err e
ok a >>= next = next a

-- `if not c: raise e`
abbrev pub check : {E : Type 0} → Bool → E → Result E (Unit {0})
check false e = err e
check true e = ok tt

abbrev pub ◌>>◌ {ℓ} : {E : Type 0} {B : Type ℓ} → Result E (Unit {0}) → Result E B → Result E B
first >> second = first >>= λ done. second

-- A chain that succeeded: what its first part returned, and that the rest did with it.
module _ {ℓ κ} {E : Type 0} {A : Type ℓ} {B : Type κ} where
  pub >>=-eq-ok :
      (first : Result E A) (next : A → Result E B) {b : B}
      → (first >>= next) ≡ ok b
      → (found : A) × (first ≡ ok found) × (next found ≡ ok b)
  >>=-eq-ok (err e) next h = cc
  >>=-eq-ok (ok found) next h = (found, refl, h)

pub ok-injective {ℓ} :
    {E : Type 0} {A : Type ℓ} {a b : A} → (let r : Result E A = ok a in r ≡ ok b) → a ≡ b
ok-injective h = cc

pub check-true : {E : Type 0} (b : Bool) (e : E) {u : Unit {0}} → check b e ≡ ok u → b ≡ true
check-true true e h = refl
check-true false e h = cc

-- The same for a goal C; the values stay variables.
pub on_ok {ℓ κ μ} :
    {E : Type 0} {A : Type ℓ} {B : Type κ} {C : Type μ} (first : Result E A) (next : A → Result E B)
    {b : B}
    → (first >>= next) ≡ ok b
    → ((found : A) → first ≡ ok found → next found ≡ ok b → C)
    → C
on_ok (err e) next h k = cc
on_ok (ok found) next h k = k found refl h
