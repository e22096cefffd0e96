-- ===== src/Delta/Groups.antt =====
-- The byte format that encoder and decoders share, described without loops: a number is a group
-- of bytes, seven bits each, lowest first, with the top bit set on every byte but the last.
use aurora_rl.Base.{
  ℕ, zero, suc, ◌+◌, ◌-◌, ◌*◌, ◌/◌, ◌%◌, ◌^◌, ◌<◌, ◌≤◌, ◌≡◌, List, [], ◌∷◌, ◌++◌, length, All, map,
  refl, All-append, Bool, true, false, ap, IsByte, lt_wf, arith,
}
use mathlib.Core.WellFounded.{Acc}
use native.Mathlib.Decide.{dec_le}

pub data Group : List ℕ → Type 0 where
  last : {b : ℕ} → b < 128 → Group (b ∷ [])
  more : {b : ℕ} {bs : List ℕ} → 128 ≤ b → b < 256 → Group bs → Group (b ∷ bs)

-- The number that a group stands for.
abbrev pub group_value : List ℕ → ℕ
group_value [] = 0
group_value (b ∷ bs) = b % 128 + 128 * group_value bs

-- `bs` is the shortest group for `d`.
pub data Varint : ℕ → List ℕ → Type 0 where
  final : {d : ℕ} → d < 128 → Varint d (d ∷ [])
  carry : {d : ℕ} {bs : List ℕ} → 128 ≤ d → Varint (d / 128) bs → Varint d ((d % 128 + 128) ∷ bs)

Varint-below : (d : ℕ) → Acc ◌<◌ d → (bs : List ℕ) × Varint d bs
Varint-below d (Acc.intro _ below) = elim (dec_le 128 d) [
  | yes h ↦ let (bs, v) = Varint-below (d / 128) (below _ (omega arith)) in (_, carry h v)
  | no h ↦ (_, final (omega arith))
]

pub varint : ℕ → List ℕ
varint d = (Varint-below d (lt_wf.apply d)).0

pub varint-Varint : (d : ℕ) → Varint d (varint d)
unfolding varint
varint-Varint d = (Varint-below d (lt_wf.apply d)).1

pub Varint-Group : {d : ℕ} {bs : List ℕ} → Varint d bs → Group bs
Varint-Group (final h) = last h
Varint-Group (carry h v) = more (omega arith) (omega arith) (Varint-Group v)

pub Varint-value : {d : ℕ} {bs : List ℕ} → Varint d bs → group_value bs ≡ d
Varint-value (final h) = omega arith
Varint-value (carry h v) = omega (arith, Varint-value v)

pub length-Varint :
    (k : ℕ) {d : ℕ} {bs : List ℕ} → Varint d bs → d < 128 ^ suc k → length bs ≤ suc k
length-Varint k (final h) lt = omega arith
length-Varint zero (carry h v) lt = absurd (omega arith)
length-Varint (suc k) (carry h v) lt = omega (arith, length-Varint k v (omega arith))

pub length-Group : {bs : List ℕ} → Group bs → 1 ≤ length bs
length-Group (last h) = omega arith
length-Group (more h k g) = omega arith

pub Group-All_bytes : {bs : List ℕ} → Group bs → All IsByte bs
Group-All_bytes (last h) = (omega arith, tt)
Group-All_bytes (more h k g) = (k, Group-All_bytes g)

-- The bytes of the differences of successive indices.
abbrev pub differences : ℕ → List ℕ → List ℕ
differences previous [] = []
differences previous (current ∷ rest) = (current - previous) ∷ differences current rest

-- Indices that the format can hold: none is negative, and none is below the one before it.
abbrev pub Ascends : ℕ → List ℕ → Type 0
Ascends previous [] = Unit
Ascends previous (current ∷ rest) = (previous ≤ current) × (current < 2 ^ 63) × Ascends current rest

abbrev pub concat : List (List ℕ) → List ℕ
concat [] = []
concat (g ∷ gs) = g ++ concat gs

-- A byte that announces another one.
abbrev pub IsOpen : ℕ → Type 0
IsOpen b = (128 ≤ b) × (b < 256)

-- Whether something follows the whole groups.
abbrev pub is_open : List ℕ → Bool
is_open [] = false
is_open (b ∷ bs) = true

-- Whole groups and what is left of a last one: every byte stream is of this form.
pub record Stream (bs : List ℕ) : Type 0 where
  pub groups : List (List ℕ)
  pub tail : List ℕ
  pub groups-Group : All Group groups
  pub tail-IsOpen : All IsOpen tail
  pub whole : bs ≡ concat groups ++ tail

Stream-cons : (b : ℕ) (bs : List ℕ) → b < 256 → Stream bs → Stream (b ∷ bs)
Stream-cons b bs h s = elim (dec_le 128 b) [
  | yes high ↦ longer s.groups s.groups-Group s.whole high
  | no small ↦ record {
    groups = (b ∷ []) ∷ s.groups;
    tail = s.tail;
    groups-Group = (last (omega arith), s.groups-Group);
    tail-IsOpen = s.tail-IsOpen;
    whole = ap (λ t. b ∷ t) s.whole;
  }
]
  where
    longer :
        (gs : List (List ℕ)) → All Group gs → bs ≡ concat gs ++ s.tail → 128 ≤ b → Stream (b ∷ bs)
    longer [] hs e high = record {
      groups = [];
      tail = b ∷ s.tail;
      groups-Group = tt;
      tail-IsOpen = ((high, h), s.tail-IsOpen);
      whole = ap (λ t. b ∷ t) e;
    }
    longer (g ∷ gs) (hg, hs) e high = record {
      groups = (b ∷ g) ∷ gs;
      tail = s.tail;
      groups-Group = (more high h hg, hs);
      tail-IsOpen = s.tail-IsOpen;
      whole = ap (λ t. b ∷ t) e;
    }

pub Stream-of : (bs : List ℕ) → All IsByte bs → Stream bs
Stream-of [] h = record {
  groups = [];
  tail = [];
  groups-Group = tt;
  tail-IsOpen = tt;
  whole = refl;
}
Stream-of (b ∷ bs) (hb, h) = Stream-cons b bs hb (Stream-of bs h)

-- The bytes for a list of indices, by the format alone.
pub index_bytes : ℕ → List ℕ → List ℕ
index_bytes previous indices = concat (map varint (differences previous indices))

pub index_bytes-nil : (previous : ℕ) → index_bytes previous [] ≡ []
unfolding index_bytes
index_bytes-nil previous = refl

pub index_bytes-cons :
    (previous current : ℕ) (rest : List ℕ)
    → index_bytes previous (current ∷ rest)
      ≡ varint (current - previous) ++ index_bytes current rest
unfolding index_bytes
index_bytes-cons previous current rest = refl

pub concat-All_bytes : (gs : List (List ℕ)) → All Group gs → All IsByte (concat gs)
concat-All_bytes [] h = tt
concat-All_bytes (g ∷ gs) (h, hs) =
    All-append IsByte g (concat gs) (Group-All_bytes h) (concat-All_bytes gs hs)

pub tail-All_bytes : (tail : List ℕ) → All IsOpen tail → All IsByte tail
tail-All_bytes [] h = tt
tail-All_bytes (b ∷ tail) ((_, byte), h) = (byte, tail-All_bytes tail h)

pub index_bytes-concat :
    (previous : ℕ) (indices : List ℕ)
    → index_bytes previous indices ≡ concat (map varint (differences previous indices))
unfolding index_bytes
index_bytes-concat previous indices = refl
