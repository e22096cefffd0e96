-- ===== src/Layout/Adapter/Valid.antt =====
-- An update that is mapped at all is one that its parameter can take.
use aurora_rl.Base.{
  ℕ, suc, ◌^◌, ◌<◌, ◌≤◌, ◌≡◌, refl, Bool, true, false, List, [], ◌∷◌, length, All, ltb, ◌==◌, ok,
  check, >>=-eq-ok, arith, IsInt64, ==→eq,
}
use aurora_rl.Sparse.{IncreasesFrom}
use aurora_rl.Layout.Project.{prod}
use aurora_rl.Layout.Adapter.{
  LogicalSparseUpdate, flip_sign, strictly_increasing, last_below, ends_in_range, validate_update,
}

pub check-true : {E : Type 0} (b : Bool) (e : E) {u : Unit {0}} → check b e ≡ ok u → b ≡ true
check-true true e h = refl
check-true false e h = cc

-- Signed order above a number from 0 on is the order of the patterns.
above :
    (x y : ℕ)
    → x < 2 ^ 63
    → y < 2 ^ 64
    → ltb (flip_sign x) (flip_sign y) ≡ true
    → (x < y) × (y < 2 ^ 63)
above x y hx hy h = ground arith

in_order :
    (numel bound x : ℕ) (xs : List ℕ)
    → bound ≤ x
    → x < 2 ^ 63
    → All IsInt64 xs
    → strictly_increasing (x ∷ xs) ≡ true
    → last_below numel (x ∷ xs) ≡ true
    → IncreasesFrom bound (x ∷ xs) × All (λ i. i < numel) (x ∷ xs)
unfolding strictly_increasing last_below
in_order numel bound x [] le hx h up last = ((le, tt), (ground arith, tt))
in_order numel bound x (y ∷ ys) le hx (hy, h) up last =
    let (x_lt, y_fits) = above x y hx hy (ground arith) in
    let (increasing, inside) =
      in_order numel (suc x) y ys (omega arith) y_fits h (ground arith) (ground arith) in
    ((le, increasing), (omega arith, inside))

-- What `_validate_update` makes sure of.
pub record ValidUpdate {W : Type 0} (u : LogicalSparseUpdate W) : Type 0 where
  pub same_length : length u.indices ≡ length u.values
  pub increasing : IncreasesFrom 0 u.indices
  pub inside : All (λ i. i < prod u.shape) u.indices

pub validate-ValidUpdate :
    {W : Type 0} (u : LogicalSparseUpdate W) {done : Unit {0}}
    → All IsInt64 u.indices
    → validate_update u ≡ ok done
    → ValidUpdate u
unfolding validate_update
validate-ValidUpdate u patterns h =
    let (_, _, h1) = >>=-eq-ok (check u.indices_are_int64 _) _ h in
    let (_, counted, h2) = >>=-eq-ok (check (length u.indices == length u.values) _) _ h1 in
    let (_, up, ends) = >>=-eq-ok (check (strictly_increasing u.indices) _) _ h2 in
    let both = ranged u.indices patterns (check-true _ _ up) (check-true _ _ ends) in
    record {
      same_length = ==→eq _ _ (check-true _ _ counted);
      increasing = both.0;
      inside = both.1;
    }
  where
    ranged :
        (xs : List ℕ)
        → All IsInt64 xs
        → strictly_increasing xs ≡ true
        → ends_in_range (prod u.shape) xs ≡ true
        → IncreasesFrom 0 xs × All (λ i. i < prod u.shape) xs
    ranged [] patterns up ends = (tt, tt)
    ranged (x ∷ xs) (_, patterns) up ends =
        in_order (prod u.shape) 0 x xs (omega arith) (unfold ends_in_range in ground arith) patterns
          up (unfold ends_in_range in ground arith)
