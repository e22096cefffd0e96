-- ===== src/Staging/Files.antt =====
-- Writing a chunk into a file, and the content that a sequence of chunks leaves.
pub mod Content
use aurora_rl.Base.{ℕ, zero, suc, List, [], ◌∷◌}

abbrev after_first : List ℕ → List ℕ
after_first [] = []
after_first (b ∷ file) = file

abbrev head_or_zero : List ℕ → ℕ
head_or_zero [] = 0
head_or_zero (b ∷ file) = b

unfoldable pub overwrite : List ℕ → List ℕ → List ℕ
overwrite file [] = file
overwrite file (b ∷ chunk) = b ∷ overwrite (after_first file) chunk

unfoldable pub write_behind : List ℕ → ℕ → List ℕ → List ℕ
unfolding overwrite
write_behind file zero chunk = overwrite file chunk
write_behind file (suc offset) chunk =
    head_or_zero file ∷ write_behind (after_first file) offset chunk

-- `f.seek(offset)` and `f.write(chunk)`: a gap is filled with zeros, and nothing is written for an
-- empty chunk.
unfoldable pub write_at : List ℕ → ℕ → List ℕ → List ℕ
unfolding write_behind
write_at file offset [] = file
write_at file offset (b ∷ chunk) = write_behind file offset (b ∷ chunk)
