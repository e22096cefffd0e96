-- ===== src/Batch/Pad/Multiple.antt =====
-- Padding reaches the next multiple.
use aurora_rl.Base.{ℕ, ◌+◌, ◌-◌, ◌*◌, ◌/◌, ◌%◌, ◌<◌, ◌≡◌, ◌∙◌, ap, arith}
use aurora_rl.Base.Blocks.{place_unique}
use aurora_rl.Batch.Pad.{padding}
use native.Mathlib.Nat.{mod-lt, div-add-mod', mod-eq_of_lt}
use native.Mathlib.Decide.{dec_lt}

module _ (count m : ℕ) (pos : 0 < m) where
  pub padding-lt : padding count m < m
  unfolding padding
  padding-lt = mod-lt (m - count % m) pos

  -- With the padding the count is a number of whole blocks.
  pub padding_multiple : (blocks : ℕ) × (count + padding count m ≡ blocks * m)
  unfolding padding
  padding_multiple = elim (dec_lt 0 (count % m)) [
    | yes some_rest ↦
        let small : m - count % m < m = omega (arith, some_rest, pos) in
        (
          count / m + 1,
          omega (
            arith,
            mod-eq_of_lt small,
            div-add-mod' count m,
            mod-lt count pos,
            one_more (count / m),
          ),
        )
    | no whole ↦
        let full : m - count % m ≡ m = omega (arith, whole) in
        let none_left : (m - count % m) % m ≡ 0 =
          ap (λ (t : ℕ). t % m) full ∙ ap (λ (t : ℕ). t % m) (one_block) ∙ place_unique 1 m 0 pos in
        (count / m, omega (arith, none_left, whole, div-add-mod' count m))
  ]
    where
      one_more : (q : ℕ) → (q + 1) * m ≡ q * m + m
      one_more q = grind arith

      one_block : m ≡ 1 * m + 0
      one_block = omega arith

  pub padding-mod : (count + padding count m) % m ≡ 0
  padding-mod =
      let (blocks, e) = padding_multiple in
      let at : blocks * m ≡ blocks * m + 0 = omega arith in
      ap (λ (t : ℕ). t % m) (e ∙ at) ∙ place_unique blocks m 0 pos
