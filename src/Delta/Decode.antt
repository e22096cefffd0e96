-- ===== src/Delta/Decode.antt =====
-- utils/delta.py: the decoders of index lists. The fast path, the vectorised decoder and the
-- byte-by-byte reference decoder read the same byte format.
mod Positions
mod Offsets
mod Bytewise
pub mod Numpy
pub mod Reference
pub mod Agreement
use aurora_rl.Base.{
  ℕ, zero, suc, ◌+◌, ◌-◌, ◌*◌, ◌%◌, ◌^◌, bit_and, bit_or, Bool, true, false, ◌&&◌, ◌||◌, not, List,
  [], ◌∷◌, map, length, get_or, set, ltb, leb, ◌==◌, if◌then◌else◌, max, Result, ok, err,
  is_negative, wrap64,
}
use aurora_rl.Delta.Errors.{
  DeltaError, stream_not_empty, truncated_varint, too_many_indices, count_mismatch, wide_delta,
  int64_overflow,
}

-- `torch.cumsum`, `np.cumsum` on int64, which wrap around.
unfoldable pub cumsum : ℕ → List ℕ → List ℕ
cumsum total [] = []
cumsum total (d ∷ ds) = let next = wrap64 (total + d) in next ∷ cumsum next ds

unfoldable pub is_terminal : ℕ → Bool
is_terminal b = bit_and b 0x80 == 0

unfoldable pub any_high : List ℕ → Bool
any_high [] = false
any_high (b ∷ bs) = not (bit_and b 0x80 == 0) || any_high bs

-- `np.flatnonzero`, at the positions from `position` on.
unfoldable pub flatnonzero : ℕ → List Bool → List ℕ
flatnonzero position [] = []
flatnonzero position (true ∷ bits) = position ∷ flatnonzero (position + 1) bits
flatnonzero position (false ∷ bits) = flatnonzero (position + 1) bits

-- `encoded.size > 0 and not is_terminal[-1]`
unfoldable pub ends_open : List Bool → Bool
ends_open [] = false
ends_open (bit ∷ []) = not bit
ends_open (bit ∷ next ∷ bits) = ends_open (next ∷ bits)

-- `end_positions[:-1] + 1`
unfoldable pub following : List ℕ → List ℕ
following [] = []
following (e ∷ []) = []
following (e ∷ next ∷ ends) = (e + 1) ∷ following (next ∷ ends)

-- `end_positions - start_positions + 1`
unfoldable pub spans : List ℕ → List ℕ → List ℕ
spans (e ∷ ends) (s ∷ starts) = (e - s + 1) ∷ spans ends starts
spans _ _ = []

unfoldable pub largest : List ℕ → ℕ
largest [] = 0
largest (x ∷ xs) = max x (largest xs)

-- One round of the loop over offsets: every difference whose group is longer than `offset` takes
-- the seven bits of the byte there.
unfoldable pub take_offset : List ℕ → ℕ → List ℕ → List ℕ → List ℕ → List ℕ
take_offset payload offset (s ∷ starts) (l ∷ lengths) (d ∷ diffs) =
    (if ltb offset l
      then bit_or d (wrap64 (get_or payload (s + offset) 0 * 2 ^ (7 * offset)))
      else d)
    ∷ take_offset payload offset starts lengths diffs
take_offset payload offset _ _ _ = []

-- `for offset in range(max_length)`, with `rounds` of them left.
unfoldable pub offsets_loop : ℕ → ℕ → List ℕ → List ℕ → List ℕ → List ℕ → List ℕ
offsets_loop zero offset payload starts lengths diffs = diffs
offsets_loop (suc rounds) offset payload starts lengths diffs =
    offsets_loop rounds (offset + 1) payload starts lengths
      (take_offset payload offset starts lengths diffs)

unfoldable pub zeros : ℕ → List ℕ
zeros zero = []
zeros (suc n) = 0 ∷ zeros n

unfoldable pub decode_varint_delta_indices_numpy : List ℕ → ℕ → Result DeltaError (List ℕ)
decode_varint_delta_indices_numpy encoded expected_count =
    let terminal = map is_terminal encoded in
    let end_positions = flatnonzero 0 terminal in
    let count = length end_positions in
    if not (count == expected_count)
    then (if ends_open terminal
        then err truncated_varint
        else if ltb expected_count count
        then err too_many_indices
        else err count_mismatch)
    else let start_positions = 0 ∷ following end_positions in
      let lengths = spans end_positions start_positions in
      let max_length = largest lengths in
      if ltb 9 max_length
      then err wide_delta
      else let payload = map (λ b. bit_and b 0x7F) encoded in
        ok (
          cumsum 0
            (offsets_loop max_length 0 payload start_positions lengths (zeros expected_count)))

unfoldable pub decode_varint_delta_indices : List ℕ → ℕ → Result DeltaError (List ℕ)
decode_varint_delta_indices index_bytes expected_count =
    if expected_count == 0
    then (if not (length index_bytes == 0) then err stream_not_empty else ok [])
    else if length index_bytes == expected_count && not (any_high index_bytes)
    then ok (cumsum 0 index_bytes)
    else decode_varint_delta_indices_numpy index_bytes expected_count

-- The variables of the reference decoder's loop. `out` is the new tensor, filled from the front;
-- a Python number that does not fit the int64 tensor is refused when it is stored.
pub record Reader : Type 0 where
  pub out : List ℕ
  pub out_index : ℕ
  pub current : ℕ
  pub diff : ℕ
  pub shift : ℕ

unfoldable pub reference_loop : ℕ → List ℕ → Reader → Result DeltaError Reader
reference_loop expected_count [] r = ok r
reference_loop expected_count (byte ∷ rest) r =
    let diff' = bit_or r.diff (bit_and byte 0x7F * 2 ^ r.shift) in
    let current' = r.current + diff' in
    let continued =
      reference_loop expected_count rest (record r { diff = diff'; shift = r.shift + 7 }) in
    let stored = reference_loop expected_count rest (record {
      out = set r.out r.out_index current';
      out_index = r.out_index + 1;
      current = current';
      diff = 0;
      shift = 0;
    }) in
    if not (bit_and byte 0x80 == 0)
    then continued
    else if leb expected_count r.out_index
    then err too_many_indices
    else if is_negative current'
    then err int64_overflow
    else stored

unfoldable pub reference_end : ℕ → Reader → Result DeltaError (List ℕ)
reference_end expected_count r =
    if not (r.shift == 0)
    then err truncated_varint
    else if not (r.out_index == expected_count)
    then err count_mismatch
    else ok r.out

-- `empty n` is what a new tensor of `n` places holds.
unfoldable pub decode_varint_delta_indices_python :
    (ℕ → List ℕ) → List ℕ → ℕ → Result DeltaError (List ℕ)
decode_varint_delta_indices_python empty index_bytes expected_count =
    if expected_count == 0
    then (if not (length index_bytes == 0) then err stream_not_empty else ok [])
    else let start : Reader = record {
      out = empty expected_count;
      out_index = 0;
      current = 0;
      diff = 0;
      shift = 0;
    } in
      elim (reference_loop expected_count index_bytes start) [
        | ok r ↦ reference_end expected_count r
        | err e ↦ err e
      ]
