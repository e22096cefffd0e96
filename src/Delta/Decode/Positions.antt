-- ===== src/Delta/Decode/Positions.antt =====
-- The positions that the vectorised decoder computes are those of the groups.
use aurora_rl.Base.{
  ℕ, suc, ◌+◌, ◌-◌, ◌≡◌, refl, ◌∙◌, ap, List, [], ◌∷◌, ◌++◌, append_assoc, map, length, All, sym,
  arith,
}
use aurora_rl.Base.Bits.{bit_and_high}
use aurora_rl.Delta.Groups.{Group, IsOpen, is_open, last, more, concat, length-Group}
use aurora_rl.Delta.Decode.{is_terminal, flatnonzero, ends_open, following, spans}

-- Where the groups start and end, counted from `position`.
abbrev pub starts : ℕ → List (List ℕ) → List ℕ
starts position [] = []
starts position (g ∷ gs) = position ∷ starts (position + length g) gs

abbrev pub ends : ℕ → List (List ℕ) → List ℕ
ends position [] = []
ends position (g ∷ gs) = (position + length g - 1) ∷ ends (position + length g) gs

pub flatnonzero-Group :
    {g : List ℕ} (h : Group g) (position : ℕ) (rest : List ℕ)
    → flatnonzero position (map is_terminal (g ++ rest))
      ≡ (position + length g - 1) ∷ flatnonzero (position + length g) (map is_terminal rest)
unfolding flatnonzero is_terminal
flatnonzero-Group (last {b} h) position rest = ground (arith, bit_and_high b)
flatnonzero-Group (more {b} {bs} h k g) position rest =
    ground (arith, bit_and_high b, length-Group g, flatnonzero-Group g (position + 1) rest)

pub flatnonzero-tail :
    (tail : List ℕ) (position : ℕ)
    → All IsOpen tail
    → flatnonzero position (map is_terminal tail) ≡ []
unfolding flatnonzero is_terminal
flatnonzero-tail [] position h = refl
flatnonzero-tail (b ∷ tail) position ((high, byte), h) =
    ground (arith, bit_and_high b byte, flatnonzero-tail tail (position + 1) h)

pub flatnonzero-concat :
    (gs : List (List ℕ)) (tail : List ℕ) (position : ℕ)
    → All Group gs
    → All IsOpen tail
    → flatnonzero position (map is_terminal (concat gs ++ tail)) ≡ ends position gs
flatnonzero-concat [] tail position h t = flatnonzero-tail tail position t
flatnonzero-concat (g ∷ gs) tail position (h, hs) t = rw append_assoc (
    flatnonzero-Group h position (concat gs ++ tail)
    ∙ ap (λ t. (position + length g - 1) ∷ t)
        (flatnonzero-concat gs tail (position + length g) hs t))

pub ends_open-tail :
    (tail : List ℕ) → All IsOpen tail → ends_open (map is_terminal tail) ≡ is_open tail
unfolding ends_open is_terminal
ends_open-tail [] h = refl
ends_open-tail (b ∷ []) ((high, byte), h) = ground (arith, bit_and_high b byte)
ends_open-tail (b ∷ c ∷ tail) (_, h) = ends_open-tail (c ∷ tail) h

pub ends_open-Group :
    {g : List ℕ} (h : Group g) (bs : List ℕ)
    → ends_open (map is_terminal bs) ≡ ends_open (map is_terminal (g ++ bs))
unfolding ends_open is_terminal
ends_open-Group (last {b} h) [] = ground (arith, bit_and_high b)
ends_open-Group (last {b} h) (c ∷ bs) = refl
ends_open-Group (more h k (last small)) bs = ends_open-Group (last small) bs
ends_open-Group (more h k (more h' k' hg)) bs = ends_open-Group (more h' k' hg) bs

pub ends_open-concat :
    (gs : List (List ℕ)) (tail : List ℕ)
    → All Group gs
    → All IsOpen tail
    → ends_open (map is_terminal (concat gs ++ tail)) ≡ is_open tail
ends_open-concat [] tail h t = ends_open-tail tail t
ends_open-concat (g ∷ gs) tail (h, hs) t =
    rw append_assoc (sym (ends_open-Group h (concat gs ++ tail)) ∙ ends_open-concat gs tail hs t)

pub following-ends :
    (g : List ℕ) (gs : List (List ℕ)) (position : ℕ)
    → All Group (g ∷ gs)
    → following (ends position (g ∷ gs)) ≡ starts (position + length g) gs
unfolding following
following-ends g [] position h = refl
following-ends g (g' ∷ gs) position (h, hs) =
    ground (arith, length-Group h, following-ends g' gs (position + length g) hs)

pub spans-ends :
    (gs : List (List ℕ)) (position : ℕ)
    → All Group gs
    → spans (ends position gs) (starts position gs) ≡ map length gs
unfolding spans
spans-ends [] position h = refl
spans-ends (g ∷ gs) position (h, hs) =
    ground (arith, length-Group h, spans-ends gs (position + length g) hs)

pub length-ends : (gs : List (List ℕ)) (position : ℕ) → length (ends position gs) ≡ length gs
length-ends [] position = refl
length-ends (g ∷ gs) position = ap suc (length-ends gs (position + length g))
