-- ===== src/Delta/Decode/Offsets.antt =====
-- The loop over offsets collects the number of every group.
use aurora_rl.Base.{
  ℕ, zero, suc, ◌+◌, ◌*◌, ◌%◌, ◌^◌, ◌<◌, ◌≤◌, ◌≡◌, refl, ◌∙◌, ap, ap₂, List, [], ◌∷◌, ◌++◌,
  append_assoc, map, length, length-append, get_or, All, ltb, ltb-false, lt→ltb, if◌then◌else◌,
  arith, bit_and, bit_or, wrap64,
}
use native.Mathlib.Nat.{pow-le-pow_right, mod-eq_of_lt}
use native.Mathlib.Numerals.{towards_suc}
use aurora_rl.Base.Bits.{bit_and_low, bit_or_shifted}
use aurora_rl.Delta.Groups.{group_value, concat}
use aurora_rl.Delta.Decode.{take_offset, offsets_loop, zeros}
use aurora_rl.Delta.Decode.Positions.{starts}

-- The loop over offsets, at one place of the arrays.
pub collect : ℕ → ℕ → List ℕ → ℕ → ℕ → ℕ → ℕ
collect zero offset payload s l d = d
collect (suc rounds) offset payload s l d = collect rounds (offset + 1) payload s l (
    if ltb offset l
    then bit_or d (wrap64 (get_or payload (s + offset) 0 * 2 ^ (7 * offset)))
    else d)

pub offsets_loop-nil :
    (rounds offset : ℕ) (payload : List ℕ) → offsets_loop rounds offset payload [] [] [] ≡ []
unfolding offsets_loop take_offset
offsets_loop-nil zero offset payload = refl
offsets_loop-nil (suc rounds) offset payload = offsets_loop-nil rounds (offset + 1) payload

pub offsets_loop-cons :
    (rounds offset : ℕ) (payload : List ℕ) (s l d : ℕ) (ss ls ds : List ℕ)
    → offsets_loop rounds offset payload (s ∷ ss) (l ∷ ls) (d ∷ ds)
      ≡ collect rounds offset payload s l d ∷ offsets_loop rounds offset payload ss ls ds
unfolding offsets_loop take_offset collect
offsets_loop-cons zero offset payload s l d ss ls ds = refl
offsets_loop-cons (suc rounds) offset payload s l d ss ls ds =
    offsets_loop-cons rounds (offset + 1) payload s l _ ss ls _

pub collect_done :
    (rounds offset : ℕ) (payload : List ℕ) (s l d : ℕ)
    → l ≤ offset
    → collect rounds offset payload s l d ≡ d
unfolding collect
collect_done zero offset payload s l d h = refl
collect_done (suc rounds) offset payload s l d h =
    rw (ltb-false offset l h) (collect_done rounds (offset + 1) payload s l d (omega arith))

abbrev pub low : ℕ → ℕ
low b = bit_and b 0x7F

pub payload_at :
    (before : List ℕ) (b : ℕ) (rest : List ℕ)
    → get_or (map low (before ++ (b ∷ rest))) (length before) 0 ≡ b % 128
payload_at [] b rest = bit_and_low b
payload_at (x ∷ before) b rest = payload_at before b rest

-- Seven bits at an offset below 9 stay below 2 ^ 63.
pub group_power : (offset : ℕ) → 2 ^ (7 * (offset + 1)) ≡ 128 * 2 ^ (7 * offset)
group_power offset =
    let e : 7 * (offset + 1) ≡ 7 * offset + 7 = omega arith in rw e (simp towards_suc (omega arith))

pub shifted_fits :
    (g offset : ℕ) → g < 128 → offset < 9 → wrap64 (g * 2 ^ (7 * offset)) ≡ g * 2 ^ (7 * offset)
shifted_fits g offset hg ho =
    let below : 2 ^ (7 * offset) ≤ 2 ^ 56 =
      pow-le-pow_right {n = 2} (omega arith) {i = 7 * offset} {j = 56} (omega arith) in
    mod-eq_of_lt (grind arith)

pub collect_step :
    (before : List ℕ) (b : ℕ) (rest : List ℕ) (rounds offset s l d : ℕ)
    → s + offset ≡ length before
    → offset < l
    → offset < 9
    → d < 2 ^ (7 * offset)
    → collect (suc rounds) offset (map low (before ++ (b ∷ rest))) s l d
      ≡ collect rounds
          (offset + 1)
          (map low (before ++ (b ∷ rest)))
          s
          l
          (d + b % 128 * 2 ^ (7 * offset))
unfolding collect
collect_step before b rest rounds offset s l d at inside h9 fits = rw (
  lt→ltb offset l inside,
  at,
  payload_at before b rest,
  shifted_fits (b % 128) offset (omega arith) h9,
  bit_or_shifted (7 * offset) d (b % 128) fits,
)

pub seven_more : (d b power : ℕ) → d < power → d + b % 128 * power < 128 * power
seven_more d b power h = grind arith

-- `bs` is what is left of a group whose first `offset` bytes gave `d`.
pub collect-value :
    (bs before after : List ℕ) (rounds offset s d : ℕ)
    → s + offset ≡ length before
    → length bs ≤ rounds
    → offset + length bs ≤ 9
    → d < 2 ^ (7 * offset)
    → collect rounds offset (map low (before ++ (bs ++ after))) s (offset + length bs) d
      ≡ d + group_value bs * 2 ^ (7 * offset)
collect-value [] before after rounds offset s d at hr h9 fits =
    rw (collect_done rounds offset (map low (before ++ after)) s (offset + 0) d (omega arith))
      (omega arith)
collect-value (b ∷ bs) before after zero offset s d at hr h9 fits = absurd (omega arith)
collect-value (b ∷ bs) before after (suc rounds) offset s d at hr h9 fits =
    let g : ℕ = b % 128 in
    let power : ℕ = 2 ^ (7 * offset) in
    ground (
      arith,
      collect_step before b (bs ++ after) rounds offset s (offset + suc (length bs)) d,
      collect-value bs (before ++ (b ∷ [])) after rounds (offset + 1) s (d + g * power),
      append_assoc before (b ∷ []) (bs ++ after),
      length-append before (b ∷ []),
      group_power offset,
      ap (λ (t : ℕ). group_value bs * t) (group_power offset),
      seven_more d b power fits,
    )

pub collect-group :
    (g before after : List ℕ) (rounds : ℕ)
    → length g ≤ rounds
    → rounds ≤ 9
    → collect rounds 0 (map low (before ++ (g ++ after))) (length before) (length g) 0
      ≡ group_value g
collect-group g before after rounds h h9 =
    ground (arith, collect-value g before after rounds 0 (length before) 0)

pub offsets_loop-groups :
    (gs : List (List ℕ)) (before tail : List ℕ) (rounds : ℕ)
    → All (λ g. length g ≤ rounds) gs
    → rounds ≤ 9
    → offsets_loop rounds 0
        (map low (before ++ (concat gs ++ tail)))
        (starts (length before) gs)
        (map length gs)
        (zeros (length gs))
      ≡ map group_value gs
unfolding zeros
offsets_loop-groups [] before tail rounds h h9 = offsets_loop-nil rounds 0 _
offsets_loop-groups (g ∷ gs) before tail rounds (h, hs) h9 =
    let rest : offsets_loop rounds 0 (map low (before ++ (g ++ (concat gs ++ tail))))
          (starts (length before + length g) gs) (map length gs) (zeros (length gs))
        ≡ map group_value gs =
      rw (← append_assoc before g (concat gs ++ tail), ← length-append before g)
        (offsets_loop-groups gs (before ++ g) tail rounds hs h9) in
    rw append_assoc (
      offsets_loop-cons rounds 0 _ (length before) (length g) 0 _ _ _
      ∙ ap₂ ◌∷◌ (collect-group g before (concat gs ++ tail) rounds h h9) rest)
