-- ===== src/Sudoku/Game/Save.antt =====
-- Writer, Reader, encode_game and decode_game of sudoku/game.cc. A byte is a number below 256, and
-- memory is little-endian, as on the phone's processor.
pub mod RoundTrip
use package.phone.Prelude.{
  ℕ, zero, suc, ◌+◌, ◌-◌, ◌*◌, ◌/◌, ◌%◌, Bool, true, false, not, ◌&&◌, ◌||◌, List, [], ◌∷◌, ◌++◌,
  Option, none, some, length, at, range, ltb, leb, ◌==◌, if◌then◌else◌, ◌>>=◌, require,
}
use package.phone.Prelude.Masks.{and_not}
use package.phone.Prelude.Results.{Result, ok, error}
use package.phone.Sudoku.Rate.{Puzzle}
use package.phone.Sudoku.Game.{
  ℤ, pos, negsuc, Change, Game, Double, maximum_moves, maximum_mistakes, all_of,
}
use package.phone.Sudoku.Game.Create.{valid_puzzle}

-- Writer::put of a number of some bytes.
unfoldable pub put_word : ℕ → ℕ → List ℕ
put_word zero x = []
put_word (suc width) x = (x % 256) ∷ put_word width (x / 256)

-- Writer::put of an array, or of the elements of a vector.
unfoldable pub put_words : ℕ → List ℕ → List ℕ
put_words width [] = []
put_words width (x ∷ xs) = put_word width x ++ put_words width xs

unfoldable pub put_changes : List Change → List ℕ
put_changes [] = []
put_changes (c ∷ changes) =
    put_word 1 c.cell ++ put_word 1 c.value ++ put_word 2 c.notes ++ put_changes changes

-- std::int8_t(g.selected), as its byte.
unfoldable pub selected_byte : ℤ → ℕ
selected_byte (pos n) = n % 256
selected_byte (negsuc n) = 255 - n % 256

unfoldable pub flag : Bool → ℕ
flag true = 1
flag false = 0

abbrev pub magic : ℕ
magic = 0x554b4453

abbrev pub version : ℕ
version = 1

unfoldable pub encode_game : Game → List ℕ
encode_game g =
    put_word 4 magic
    ++ put_word 4 version
    ++ put_words 1 g.puzzle.givens
    ++ put_words 1 g.puzzle.solution
    ++ put_words 1 g.values
    ++ put_words 2 g.notes
    ++ put_word 1 (selected_byte g.selected)
    ++ put_word 1 g.mistakes
    ++ put_word 1 (flag g.notes_mode)
    ++ put_word 1 0
    ++ put_word 8 g.elapsed
    ++ put_word 4 (length g.moves)
    ++ put_word 4 (length g.changes)
    ++ put_words 2 g.moves
    ++ put_changes g.changes

-- Reader::get; the list holds the bytes from the reader's offset on.
unfoldable pub get_word : ℕ → List ℕ → Option (ℕ × List ℕ)
get_word zero bytes = some (0, bytes)
get_word (suc width) [] = none
get_word (suc width) (byte ∷ bytes) = elim (get_word width bytes) [
  | none ↦ none
  | some (x, rest) ↦ some (byte + 256 * x, rest)
]

unfoldable pub get_words : ℕ → ℕ → List ℕ → Option (List ℕ × List ℕ)
get_words width zero bytes = some ([], bytes)
get_words width (suc n) bytes = do
  (x, later) ← get_word width bytes
  (xs, rest) ← get_words width n later
  some (x ∷ xs, rest)

-- What comes before the moves. `selected` is the byte.
pub record Saved : Type 0 where
  pub puzzle : Puzzle
  pub values : List ℕ
  pub notes : List ℕ
  pub selected : ℕ
  pub mistakes : ℕ
  pub notes_mode : ℕ
  pub reserved : ℕ
  pub elapsed : ℕ
  pub move_count : ℕ
  pub change_count : ℕ

-- The first condition of decode_game.
unfoldable pub read_header : List ℕ → Option (Saved × List ℕ)
read_header bytes0 = do
  (word1, bytes1) ← get_word 4 bytes0
  (word2, bytes2) ← get_word 4 bytes1
  _ ← require (word1 == magic && word2 == version)
  (givens, bytes3) ← get_words 1 81 bytes2
  (solution, bytes4) ← get_words 1 81 bytes3
  (values, bytes5) ← get_words 1 81 bytes4
  (notes, bytes6) ← get_words 2 81 bytes5
  (selected, bytes7) ← get_word 1 bytes6
  (mistakes, bytes8) ← get_word 1 bytes7
  (notes_mode, bytes9) ← get_word 1 bytes8
  (reserved, bytes10) ← get_word 1 bytes9
  (elapsed, bytes11) ← get_word 8 bytes10
  (move_count, bytes12) ← get_word 4 bytes11
  (change_count, rest) ← get_word 4 bytes12
  some (
    record {
      puzzle = record { givens = givens; solution = solution };
      values = values;
      notes = notes;
      selected = selected;
      mistakes = mistakes;
      notes_mode = notes_mode;
      reserved = reserved;
      elapsed = elapsed;
      move_count = move_count;
      change_count = change_count;
    },
    rest,
  )

-- The counts fit the limits and the bytes that are left.
unfoldable pub valid_counts : ℕ → ℕ → ℕ → Bool
valid_counts moves changes left =
    leb moves (maximum_moves + 1)
    && leb changes ((maximum_moves + 1) * 81)
    && left == moves * 2 + changes * 4

unfoldable pub read_moves : ℕ → List ℕ → Option (List ℕ × List ℕ)
read_moves zero bytes = some ([], bytes)
read_moves (suc n) bytes = do
  (size, later) ← get_word 2 bytes
  _ ← require (not (size == 0))
  (sizes, rest) ← read_moves n later
  some (size ∷ sizes, rest)

unfoldable pub valid_change : List ℕ → Change → Bool
valid_change givens c =
    ltb c.cell 81 && leb c.value 9 && and_not c.notes 0x1ff == 0 && at givens c.cell == 0

unfoldable pub read_changes : List ℕ → ℕ → List ℕ → Option (List Change × List ℕ)
read_changes givens zero bytes = some ([], bytes)
read_changes givens (suc n) bytes0 = do
  (cell, bytes1) ← get_word 1 bytes0
  (value, bytes2) ← get_word 1 bytes1
  (notes, bytes3) ← get_word 2 bytes2
  _ ← require (valid_change givens (record { cell = cell; value = value; notes = notes }))
  (changes, rest) ← read_changes givens n bytes3
  some (record { cell = cell; value = value; notes = notes } ∷ changes, rest)

unfoldable pub total : List ℕ → ℕ
total [] = 0
total (size ∷ sizes) = size + total sizes

-- The byte as std::int8_t.
unfoldable pub selected_of : ℕ → ℤ
selected_of byte = if ltb byte 128 then pos byte else negsuc (255 - byte)

unfoldable pub valid_selected : ℤ → Bool
valid_selected (pos cell) = ltb cell 81
valid_selected (negsuc zero) = true
valid_selected (negsuc (suc n)) = false

unfoldable pub valid_cell : List ℕ → List ℕ → List ℕ → ℕ → Bool
valid_cell givens values notes cell =
    leb (at values cell) 9
    && and_not (at notes cell) 0x1ff == 0
    && (at givens cell == 0 || at values cell == at givens cell)

-- The conditions that decode_game tests after the changes are read.
unfoldable pub valid_saved : Double → Saved → List ℕ → Bool
valid_saved d h moves =
    total moves == h.change_count
    && valid_selected (selected_of h.selected)
    && leb h.mistakes maximum_mistakes
    && leb h.notes_mode 1
    && h.reserved == 0
    && d.is_finite h.elapsed
    && not (d.is_negative h.elapsed)
    && valid_puzzle h.puzzle
    && all_of (valid_cell h.puzzle.givens h.values h.notes) (range 0 81)

-- decode_game once the game is allocated; `none` is its invalid().
unfoldable pub restore : Double → List ℕ → Option Game
restore d bytes = do
  (h, left) ← read_header bytes
  _ ← require (valid_counts h.move_count h.change_count (length left))
  (moves, later) ← read_moves h.move_count left
  (changes, rest) ← read_changes h.puzzle.givens h.change_count later
  _ ← require (valid_saved d h moves)
  some (record {
    puzzle = h.puzzle;
    values = h.values;
    notes = h.notes;
    selected = selected_of h.selected;
    mistakes = h.mistakes;
    notes_mode = not (h.notes_mode == 0);
    elapsed = h.elapsed;
    changes = changes;
    moves = moves;
  })

-- The flag says whether the allocation succeeds.
unfoldable pub decode_game : Double → Bool → List ℕ → Result Game
decode_game d false bytes = error "Cannot allocate the game"
decode_game d true bytes = elim (restore d bytes) [
  | none ↦ error "The saved game is invalid"
  | some g ↦ ok g
]
