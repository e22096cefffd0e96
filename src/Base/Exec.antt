-- ===== src/Base/Exec.antt =====
-- Handlers that change an object and may refuse. What was written before a refusal stays written,
-- so the object comes back beside the error.
use mathlib.Core.Path.{◌≡◌, refl, ap}
use mathlib.Core.Bool.{Bool, true, false}
use native.Mathlib.Omega.{arith}
use aurora_rl.Base.Results.{Result, ok, err}
use aurora_rl.Base.Tests.{if◌then◌else◌}

module _ (S E : Type 0) where
  abbrev pub Exec : Type 0 → Type 0
  Exec A = S → Result E A × S

module _ {S E : Type 0} where
  unfoldable pub pure : {A : Type 0} → A → Exec S E A
  pure a s = (ok a, s)

  unfoldable pub refuse : {A : Type 0} → E → Exec S E A
  refuse e s = (err e, s)

  unfoldable pub lift : {A : Type 0} → Result E A → Exec S E A
  lift r s = (r, s)

  unfoldable pub gets : {A : Type 0} → (S → A) → Exec S E A
  gets f s = (ok (f s), s)

  unfoldable pub modify : (S → S) → Exec S E (Unit {0})
  modify f s = (ok tt, f s)

  -- `if not c: return error`
  unfoldable pub require : Bool → E → Exec S E (Unit {0})
  require true e s = (ok tt, s)
  require false e s = (err e, s)

  abbrev pub and_then : {A B : Type 0} → Result E A → (A → Exec S E B) → Exec S E B
  and_then (ok a) f s = f a s
  and_then (err e) f s = (err e, s)

  infixl 5 ◌>>=◌ ◌>>◌
  unfoldable pub ◌>>=◌ : {A B : Type 0} → Exec S E A → (A → Exec S E B) → Exec S E B
  unfolding pure refuse lift gets modify require
  ◌>>=◌ m f s = and_then (m s).0 f (m s).1

  abbrev pub ◌>>◌ : {A B : Type 0} → Exec S E A → Exec S E B → Exec S E B
  m >> n = m >>= λ _. n

-- An action keeps a property of the object, whether it returns or refuses.
pub record Keeps {S E A : Type 0} (P : S → Type 0) (m : Exec S E A) : Type 0 where
  pub at : (s : S) → P s → P (m s).1

module _ {S E A : Type 0} {P : S → Type 0} where
  pub Keeps-pure : (a : A) → Keeps P (pure {E = E} a)
  unfolding pure
  Keeps-pure a = record { at = λ s h. h }

  pub Keeps-refuse : (e : E) → Keeps P (refuse {A = A} e)
  unfolding refuse
  Keeps-refuse e = record { at = λ s h. h }

  pub Keeps-lift : (r : Result E A) → Keeps P (lift r)
  unfolding lift
  Keeps-lift r = record { at = λ s h. h }

  pub Keeps-gets : (f : S → A) → Keeps P (gets {E = E} f)
  unfolding gets
  Keeps-gets f = record { at = λ s h. h }

  pub Keeps-if :
      (b : Bool) (m n : Exec S E A) → Keeps P m → Keeps P n → Keeps P (if b then m else n)
  Keeps-if true m n km kn = km
  Keeps-if false m n km kn = kn

module _ {S E : Type 0} {P : S → Type 0} where
  pub Keeps-modify : (f : S → S) → ((s : S) → P s → P (f s)) → Keeps P (modify {E = E} f)
  unfolding modify
  Keeps-modify f k = record { at = k }

  pub Keeps-require : (b : Bool) (e : E) → Keeps P (require b e)
  unfolding require
  Keeps-require true e = record { at = λ s h. h }
  Keeps-require false e = record { at = λ s h. h }

module _ {S E A B : Type 0} {P : S → Type 0} where
  Keeps-and_then :
      (r : Result E A) (f : A → Exec S E B) (s : S)
      → P s
      → ((a : A) → Keeps P (f a))
      → P (and_then r f s).1
  Keeps-and_then (ok a) f s h k = (k a).at s h
  Keeps-and_then (err e) f s h k = h

  pub Keeps-bind :
      (m : Exec S E A) (f : A → Exec S E B)
      → Keeps P m
      → ((a : A) → Keeps P (f a))
      → Keeps P (m >>= f)
  unfolding ◌>>=◌
  Keeps-bind m f km kf = record { at = λ s h. Keeps-and_then (m s).0 f (m s).1 (km.at s h) kf }

pub ruleset keeps_rules =
    (Keeps-pure, Keeps-refuse, Keeps-lift, Keeps-gets, Keeps-if, Keeps-require, Keeps-bind)

-- Inversion of a chain that returned.
module _ {S E : Type 0} {A B : Type 0} where
  pub and_then-eq-ok :
      (r : Result E A) (f : A → Exec S E B) (s s' : S) (b : B)
      → and_then r f s ≡ (ok b, s')
      → (a : A) × (r ≡ ok a) × (f a s ≡ (ok b, s'))
  and_then-eq-ok (ok a) f s s' b h = (a, refl, h)
  and_then-eq-ok (err e) f s s' b h = absurd (refused (ap (λ r. r.0) h))
    where
      refused : (let r : Result E B = err e in r ≡ ok b) → ⊥
      refused h = cc

pub require-ok :
    {S E : Type 0} (b : Bool) (e : E) (s s' : S) {u : Unit {0}}
    → require b e s ≡ (ok u, s')
    → (b ≡ true) × (s ≡ s')
unfolding require
require-ok true e s s' h = (refl, ap (λ r. r.1) h)
require-ok false e s s' h = absurd (ground (arith))

-- What a chain that returned went through, for a goal C; the values stay variables.
module _ {S E A B C : Type 0} where
  pub on_bind :
      (m : Exec S E A) (f : A → Exec S E B) (s s' : S) (b : B)
      → (m >>= f) s ≡ (ok b, s')
      → ((a : A) (t : S) → m s ≡ (ok a, t) → f a t ≡ (ok b, s') → C)
      → C
  unfolding ◌>>=◌
  on_bind m f s s' b h k =
      let (a, returned, rest) = and_then-eq-ok (m s).0 f (m s).1 s' b h in
      k a (m s).1 (ap (λ r. (r, (m s).1)) returned) rest

  pub on_lift :
      (r : Result E A) (f : A → Exec S E B) (s s' : S) (b : B)
      → (lift r >>= f) s ≡ (ok b, s')
      → ((a : A) → r ≡ ok a → f a s ≡ (ok b, s') → C)
      → C
  unfolding ◌>>=◌ lift
  on_lift r f s s' b h k =
      let (a, returned, rest) = and_then-eq-ok r f s s' b h in k a returned rest

pub on_require :
    {S E B C : Type 0} (c : Bool) (e : E) (n : Exec S E B) (s s' : S) (b : B)
    → (require c e >> n) s ≡ (ok b, s')
    → (c ≡ true → n s ≡ (ok b, s') → C)
    → C
unfolding ◌>>=◌ require
on_require true e n s s' b h k = k refl h
on_require false e n s s' b h k = absurd (ground (arith))

pub on_gets :
    {S E A B : Type 0} (g : S → A) (f : A → Exec S E B) (s s' : S) (b : B)
    → (gets g >>= f) s ≡ (ok b, s')
    → f (g s) s ≡ (ok b, s')
unfolding ◌>>=◌ gets
on_gets g f s s' b h = h
