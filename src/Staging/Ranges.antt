-- ===== src/Staging/Ranges.antt =====
-- The byte ranges of an upload that have come in: `_merge_received_range`, `_received_bytes` and
-- `_upload_complete`.
pub mod Cover
pub mod Complete
use aurora_rl.Base.{
  ℕ, ◌+◌, ◌-◌, ◌≤◌, ◌<◌, max, Bool, true, false, ◌&&◌, ◌||◌, List, [], ◌∷◌, ◌++◌, map, length, sum,
  ltb, leb, ◌==◌, if◌then◌else◌,
}

abbrev pub Range : Type 0
Range = ℕ × ℕ

-- The order of pairs that `ranges.sort()` goes by.
unfoldable pub pair_le : Range → Range → Bool
pair_le (s, e) (s', e') = ltb s s' || (s == s' && leb e e')

unfoldable pub insert_sorted : Range → List Range → List Range
unfolding pair_le
insert_sorted r [] = r ∷ []
insert_sorted r (r' ∷ ranges) =
    if pair_le r r' then r ∷ r' ∷ ranges else r' ∷ insert_sorted r ranges

-- `ranges.sort()`
unfoldable pub sort : List Range → List Range
unfolding insert_sorted
sort [] = []
sort (r ∷ ranges) = insert_sorted r (sort ranges)

-- The loop; the first two arguments are the last range of `merged`.
unfoldable pub merge_loop : ℕ → ℕ → List Range → List Range
merge_loop previous_start previous_end [] = (previous_start, previous_end) ∷ []
merge_loop previous_start previous_end ((range_start, range_end) ∷ ranges) =
    let apart = (previous_start, previous_end) ∷ merge_loop range_start range_end ranges in
    let joined = merge_loop previous_start (max previous_end range_end) ranges in
    if ltb previous_end range_start then apart else joined

unfoldable pub merge_sorted : List Range → List Range
unfolding merge_loop
merge_sorted [] = []
merge_sorted ((s, e) ∷ ranges) = merge_loop s e ranges

unfoldable pub merge_received_range : List Range → ℕ → ℕ → List Range
unfolding sort merge_sorted
merge_received_range ranges start end =
    if leb end start then ranges else merge_sorted (sort (ranges ++ (start, end) ∷ []))

unfoldable pub received_bytes : List Range → ℕ
received_bytes ranges = sum (map (λ r. r.1 - r.0) ranges)

unfoldable pub is_empty : List Range → Bool
is_empty [] = true
is_empty (r ∷ ranges) = false

unfoldable pub is_whole : ℕ → List Range → Bool
is_whole total_size ((s, e) ∷ []) = s == 0 && e == total_size
is_whole total_size _ = false

unfoldable pub upload_complete : List Range → ℕ → Bool
unfolding is_empty is_whole
upload_complete ranges total_size =
    if total_size == 0 then is_empty ranges else is_whole total_size ranges
