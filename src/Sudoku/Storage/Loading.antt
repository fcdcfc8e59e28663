-- ===== src/Sudoku/Storage/Loading.antt =====
-- load_file returns the bytes that the reads deliver.
use phone.Prelude.{
  ℕ, ◌+◌, ◌≤◌, ◌≡◌, sym, ◌∙◌, ap, List, [], ◌∷◌, ◌++◌, some, true, false, length, length-append,
  ltb, arith,
}
use phone.Prelude.Results.{ok}
use mathlib.Core.List.{append_assoc, append-nil}
use phone.Sudoku.Storage.{Read, Opened, maximum_size, read_loop, read_opened, load_file}

-- The answers deliver the bytes in any pieces, between interruptions, and then the end of the file.
abbrev pub Delivers : List Read → List ℕ → Type 0
Delivers [] bytes = ⊥
Delivers (Read.interrupted_read ∷ answers) bytes = Delivers answers bytes
Delivers (Read.failed_read ∷ answers) bytes = ⊥
Delivers (Read.data_read [] ∷ answers) bytes = bytes ≡ []
Delivers (Read.data_read (b ∷ buffer) ∷ answers) bytes =
    (rest : List ℕ) × (bytes ≡ (b ∷ buffer) ++ rest) × Delivers answers rest

read_loop-Delivers :
    (answers : List Read) (got bytes : List ℕ)
    → Delivers answers bytes
    → length got + length bytes ≤ maximum_size
    → read_loop answers got ≡ some (ok (got ++ bytes))
unfolding read_loop
read_loop-Delivers [] got bytes h fits = absurd h
read_loop-Delivers (Read.interrupted_read ∷ answers) got bytes h fits =
    read_loop-Delivers answers got bytes h fits
read_loop-Delivers (Read.failed_read ∷ answers) got bytes h fits = absurd h
read_loop-Delivers (Read.data_read [] ∷ answers) got bytes h fits =
    rw h (ap (λ (xs : List ℕ). some (ok xs)) (sym (append-nil got)))
read_loop-Delivers (Read.data_read (b ∷ buffer) ∷ answers) got bytes h fits =
    let piece = b ∷ buffer in
    let (rest, split, later) = h in
    let joined : length bytes ≡ length piece + length rest =
      ap length split ∙ length-append piece rest in
    let room : length (got ++ piece) + length rest ≤ maximum_size =
      omega (arith, length-append got piece, joined, fits) in
    let small : ltb maximum_size (length (got ++ piece)) ≡ false = ground (arith, room) in
    rw small (
      read_loop-Delivers answers (got ++ piece) rest later room
      ∙ ap (λ (xs : List ℕ). some (ok xs))
          (append_assoc got piece rest ∙ ap (λ (xs : List ℕ). got ++ xs) (sym split)))

-- When its file opens, its allocation succeeds and the reads deliver at most a mebibyte, in any
-- pieces and with any interruptions between them, load_file returns exactly these bytes.
pub load_file-Delivers :
    (answers : List Read) (bytes : List ℕ)
    → Delivers answers bytes
    → length bytes ≤ maximum_size
    → load_file true Opened.opened answers ≡ some (ok bytes)
unfolding load_file read_opened
load_file-Delivers answers bytes h fits = read_loop-Delivers answers [] bytes h (omega arith)
