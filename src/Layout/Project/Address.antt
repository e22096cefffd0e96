-- ===== src/Layout/Project/Address.antt =====
-- Row-major arithmetic of one index: a shard is a window of each block of the source, moved to a
-- window of the block of the target.
use aurora_rl.Base.{
  ℕ, suc, ◌+◌, ◌-◌, ◌*◌, ◌/◌, ◌%◌, ◌<◌, ◌≤◌, ◌≡◌, ◌∙◌, ap, ap₂, sym, Bool, true, ◌&&◌, leb, ltb,
  arith, leb→le, ltb→lt,
}
use aurora_rl.Layout.Project.{coordinate, in_shard, local_index}
use aurora_rl.Base.Blocks.{place_unique, rows-le}
use native.Mathlib.Nat.{
  div-add-mod, div-add-mod', mul-add-div_right, div-eq_of_lt, div-div-eq-div-mul, mod-lt, mul_comm,
}
use native.Mathlib.Decide.{dec_lt}

pub row-lt : (r c w h : ℕ) → r < h → c < w → r * w + c < h * w
row-lt r c w h p q = grind arith

row_from : (r s w : ℕ) → s ≤ r → r * w ≡ (r - s) * w + s * w
row_from r s w h =
    let split : r ≡ r - s + s = omega arith in omega (arith, ap (λ (t : ℕ). t * w) split)

-- A window of `size` places at `s` in blocks of `b`, moved to `t` in blocks of `tb`.
module _ (b tb s t size : ℕ) (room : t + size ≤ tb) where
  window-lt :
      (o r o' r' : ℕ)
      → o * b + r < o' * b + r'
      → r < b
      → r' < b
      → s ≤ r
      → r < s + size
      → s ≤ r'
      → o * tb + (r - s) + t < o' * tb + (r' - s) + t
  window-lt o r o' r' lt rb rb' from to from' = elim (dec_lt o o') [
    | yes earlier ↦ omega (arith, rows-le (suc o) o' tb earlier)
    | no not_earlier ↦ elim (dec_lt o' o) [
      | yes later ↦ absurd (omega (arith, rows-le (suc o') o b later))
      | no not_later ↦
          (let same : o ≡ o' = omega arith in
            omega (arith, ap (λ (u : ℕ). u * b) same, ap (λ (u : ℕ). u * tb) same))
    ]
  ]

  window_bound :
      (blocks o r : ℕ)
      → o * b + r < blocks * b
      → s ≤ r
      → r < s + size
      → o * tb + (r - s) + t < blocks * tb
  window_bound blocks o r lt from to = elim (dec_lt o blocks) [
    | yes inside ↦ omega (arith, rows-le (suc o) blocks tb inside)
    | no outside ↦ absurd (omega (arith, rows-le blocks o b (omega arith)))
  ]

module _ (inner extent : ℕ) (inner_pos : 0 < inner) (extent_pos : 0 < extent) where
  place : (x : ℕ) → x % (extent * inner) ≡ x / inner % extent * inner + x % inner
  place x =
      let c : ℕ = x / inner % extent in
      let i : ℕ = x % inner in
      let o : ℕ = x / inner / extent in
      let i_lt : i < inner = mod-lt x inner_pos in
      let c_lt : c < extent = mod-lt (x / inner) extent_pos in
      let whole : x ≡ o * (extent * inner) + (c * inner + i) =
        omega (
          arith,
          div-add-mod x inner,
          ap (λ (t : ℕ). inner * t) (div-add-mod (x / inner) extent),
        ) in
      let fits : c * inner + i < extent * inner = grind arith in
      ap (λ t. t % (extent * inner)) whole ∙ place_unique o (extent * inner) (c * inner + i) fits

  module _ (target_extent start size target_start : ℕ) where
    abbrev shard : ℕ → Bool
    shard = in_shard inner extent target_extent start size target_start

    abbrev local : ℕ → ℕ
    local = local_index inner extent target_extent start size target_start

    abbrev block : ℕ
    block = extent * inner

    abbrev target_block : ℕ
    target_block = target_extent * inner

    -- The window of the source block that the shard is.
    in_shard-window :
        (x : ℕ)
        → shard x ≡ true
        → (start * inner ≤ x % block) × (x % block < (start + size) * inner)
    unfolding in_shard coordinate
    in_shard-window x h =
        let c : ℕ = x / inner % extent in
        let from : start ≤ c = leb→le start c (ground arith) in
        let to : c < start + size = ltb→lt c (start + size) (ground arith) in
        let i_lt : x % inner < inner = mod-lt x inner_pos in
        (
          rw (place x) (omega (arith, rows-le start c inner from)),
          rw (place x) (row-lt c (x % inner) inner (start + size) to i_lt),
        )

    -- The local index is the place in the window, moved.
    local-window :
        (x : ℕ)
        → shard x ≡ true
        → local x ≡ x / block * target_block + (x % block - start * inner) + target_start * inner
    unfolding local_index in_shard coordinate
    local-window x h =
        let c : ℕ = x / inner % extent in
        let from : start ≤ c = leb→le start c (ground arith) in
        omega (arith, place x, row_from c start inner from)

    block_pos : 0 < block
    block_pos = grind arith

    target_room :
        target_start + size ≤ target_extent → target_start * inner + size * inner ≤ target_block
    target_room h = omega (arith, rows-le (target_start + size) target_extent inner h)

    -- Places in the window keep their order.
    pub local_index-lt :
        start + size ≤ extent
        → target_start + size ≤ target_extent
        → (x y : ℕ) → x < y
        → shard x ≡ true
        → shard y ≡ true
        → local x < local y
    local_index-lt from to x y lt hx hy =
        let (x_from, x_to) = in_shard-window x hx in
        let (y_from, y_to) = in_shard-window y hy in
        rw (local-window x hx, local-window y hy)
          (window-lt block target_block (start * inner) (target_start * inner) (size * inner)
            (target_room to) (x / block) (x % block) (y / block) (y % block)
            (rw (div-add-mod' x block, div-add-mod' y block) lt) (mod-lt x block_pos)
            (mod-lt y block_pos) x_from (omega arith) y_from)

    pub local_index_bound :
        start + size ≤ extent
        → target_start + size ≤ target_extent
        → (blocks x : ℕ) → x < blocks * block
        → shard x ≡ true
        → local x < blocks * target_block
    local_index_bound from to blocks x lt hx =
        let (x_from, x_to) = in_shard-window x hx in
        rw (local-window x hx) (
          window_bound block target_block (start * inner) (target_start * inner) (size * inner)
            (target_room to) blocks (x / block) (x % block) (rw (div-add-mod' x block) lt) x_from
            (omega arith))

    -- By row-major coordinates (`o` outside, `c` along the sharded dimension, `i` inside): the mask
    -- keeps exactly the coordinates of the shard, and a local index has the same outer and inner
    -- coordinates and the shifted one between, for positive sizes and coordinates in range.
    pub local_index_row_major :
        (o c i : ℕ)
        → c < extent
        → i < inner
        → (shard ((o * extent + c) * inner + i) ≡ (leb start c && ltb c (start + size)))
          × (local ((o * extent + c) * inner + i)
              ≡ (o * target_extent + (c - start + target_start)) * inner + i)
    unfolding in_shard local_index coordinate
    local_index_row_major o c i hc hi =
        let x : ℕ = (o * extent + c) * inner + i in
        let rows : x / inner ≡ o * extent + c =
          mul-add-div_right inner_pos (o * extent + c) i ∙ omega (arith, div-eq_of_lt hi) in
        let inside : x % inner ≡ i = place_unique (o * extent + c) inner i hi in
        let along : x / inner % extent ≡ c =
          ap (λ t. t % extent) rows ∙ place_unique o extent c hc in
        let outside : x / (extent * inner) ≡ o =
          ap (λ t. x / t) (mul_comm extent inner)
          ∙ sym (div-div-eq-div-mul x inner extent)
          ∙ ap (λ t. t / extent) rows
          ∙ mul-add-div_right extent_pos o c
          ∙ omega (arith, div-eq_of_lt hc) in
        (
          ap (λ t. leb start t && ltb t (start + size)) along,
          ap₂ (λ u v. u * target_block + (v - start + target_start) * inner + x % inner) outside
                along
              ∙ omega (arith, inside),
        )
