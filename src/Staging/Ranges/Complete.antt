-- ===== src/Staging/Ranges/Complete.antt =====
-- When an upload counts as complete.
use aurora_rl.Base.{ℕ, suc, ◌-◌, ◌<◌, ◌≡◌, ◌↔◌, refl, true, false, List, [], ◌∷◌, ltb, arith}
use aurora_rl.Staging.Ranges.{Range, upload_complete, received_bytes}
use aurora_rl.Staging.Ranges.Cover.{covers, ApartFrom}

-- Behind the bound, nothing below it is covered.
covers_below :
    (bound : ℕ) (ranges : List Range) (b : ℕ)
    → ApartFrom bound ranges
    → b < bound
    → covers ranges b ≡ false
covers_below bound [] b h lt = refl
covers_below bound ((s, e) ∷ ranges) b (le, lt', h) lt =
    ground (arith, covers_below (suc e) ranges b h (omega arith))

-- For ranges in order with gaps between them: the upload is complete exactly if the bytes below the
-- total size, and no others, have come in.
pub upload_complete-covers :
    (ranges : List Range) (total_size : ℕ)
    → ApartFrom 0 ranges
    → (upload_complete ranges total_size ≡ true) ↔ ((b : ℕ) → covers ranges b ≡ ltb b total_size)
unfolding upload_complete
upload_complete-covers [] total_size h = (λ complete b. ground arith, λ all. ground (arith, all 0))
upload_complete-covers ((s, e) ∷ []) total_size (from, lt, h) = (
  λ complete b. ground arith,
  λ all. ground (arith, all s, all 0, all (e - 1), all e, all total_size, all (total_size - 1)),
)
upload_complete-covers ((s, e) ∷ (s', e') ∷ ranges) total_size (from, lt, (from', lt', h)) = (
  λ complete b. absurd (ground arith),
  λ all. absurd (
      let gap : covers ((s', e') ∷ ranges) e ≡ false =
        covers_below (suc e) ((s', e') ∷ ranges) e (from', lt', h) (omega arith) in
      ground (arith, gap, all e, all s')),
)

-- The bytes received are as many as the total size once the upload is complete.
pub received_bytes_complete :
    (ranges : List Range) (total_size : ℕ)
    → upload_complete ranges total_size ≡ true
    → received_bytes ranges ≡ total_size
unfolding upload_complete received_bytes
received_bytes_complete [] total_size h = ground arith
received_bytes_complete ((s, e) ∷ []) total_size h = ground arith
received_bytes_complete ((s, e) ∷ r ∷ ranges) total_size h = absurd (ground arith)
