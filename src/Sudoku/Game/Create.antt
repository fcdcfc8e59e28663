-- ===== src/Sudoku/Game/Create.antt =====
-- valid_solution, valid_puzzle, create_game and get_board of sudoku/game.cc.
pub mod Valid
use package.phone.Prelude.{
  ℕ, suc, ◌+◌, ◌*◌, ◌^◌, bit_or, Bool, true, false, not, ◌&&◌, ◌||◌, List, [], ◌∷◌, Option, none,
  some, length, at, set, map, range, replicate, ltb, leb, ◌==◌, list_eq, if◌then◌else◌,
}
use package.phone.Prelude.Results.{Result, ok, error}
use package.phone.Sudoku.Grid.{Grid}
use package.phone.Sudoku.Search.{empty_grid, count_solutions}
use package.phone.Sudoku.Minimize.{pointee}
use package.phone.Sudoku.Rate.{Puzzle}
use package.phone.Sudoku.Game.{Game, ℤ, negsuc, Status, status, is_playing, unit_cell, all_of}

-- The bits of the digits in a unit, from a list of its cells; `none` is `return false`.
unfoldable pub seen_digits : Grid → ℕ → List ℕ → ℕ → Option ℕ
seen_digits grid unit [] seen = some seen
seen_digits grid unit (i ∷ is) seen =
    let digit = at grid (unit_cell unit i) in
    let rest = seen_digits grid unit is (bit_or seen (2 ^ digit)) in
    if ltb digit 1 || ltb 9 digit then none else rest

unfoldable pub is_full : Option ℕ → Bool
is_full none = false
is_full (some seen) = seen == 0x3fe

unfoldable pub valid_unit : Grid → ℕ → Bool
unfolding is_full
valid_unit grid unit = is_full (seen_digits grid unit (range 0 9) 0)

unfoldable pub valid_solution : Grid → Bool
valid_solution grid = all_of (valid_unit grid) (range 0 27)

unfoldable pub agrees : Puzzle → ℕ → Bool
agrees puzzle cell = at puzzle.givens cell == 0 || at puzzle.givens cell == at puzzle.solution cell

-- The local `solution` is read only where the count is 1, and then it was written.
unfoldable pub valid_puzzle : Puzzle → Bool
valid_puzzle puzzle =
    let (found, solution) = count_solutions puzzle.givens 2 (some empty_grid) in
    valid_solution puzzle.solution
    && all_of (agrees puzzle) (range 0 81)
    && found == 1
    && list_eq (pointee solution) puzzle.solution

abbrev pub new_game : Puzzle → Game
new_game puzzle = record {
  puzzle = puzzle;
  values = puzzle.givens;
  notes = replicate 81 0;
  selected = negsuc 0;
  mistakes = 0;
  notes_mode = false;
  elapsed = 0;
  changes = [];
  moves = [];
}

-- The flag says whether the allocation succeeds.
unfoldable pub create_game : Bool → Puzzle → Result Game
create_game allocated puzzle =
    if not (valid_puzzle puzzle)
    then error "Invalid puzzle"
    else if not allocated
    then error "Cannot allocate the game"
    else ok (new_game puzzle)

pub record Cell : Type 0 where
  pub value : ℕ
  pub given : Bool
  pub wrong : Bool
  pub notes : ℕ

pub record Board : Type 0 where
  pub cells : List Cell
  pub placed : List ℕ
  pub selected : ℤ
  pub mistakes : ℕ
  pub notes_mode : Bool
  pub can_undo : Bool
  pub status : Status
  pub elapsed : ℕ

unfoldable pub board_cell : Game → ℕ → Cell
board_cell g cell =
    let value = at g.values cell in
    record {
      value = value;
      given = not (at g.puzzle.givens cell == 0);
      wrong = not (value == 0) && not (value == at g.puzzle.solution cell);
      notes = if not (value == 0) then 0 else at g.notes cell;
    }

-- ++board.placed[c.value] for each cell that holds a correct digit.
unfoldable pub count_placed : List Cell → List ℕ → List ℕ
count_placed [] placed = placed
count_placed (c ∷ cells) placed = count_placed cells (
    if not (c.value == 0) && not c.wrong
    then set placed c.value (at placed c.value + 1)
    else placed)

unfoldable pub is_empty : List ℕ → Bool
is_empty [] = true
is_empty (x ∷ xs) = false

unfoldable pub get_board : Game → Board
get_board g =
    let cells = map (board_cell g) (range 0 81) in
    record {
      cells = cells;
      placed = count_placed cells (replicate 10 0);
      selected = g.selected;
      mistakes = g.mistakes;
      notes_mode = g.notes_mode;
      can_undo = not (is_empty g.moves) && is_playing (status g);
      status = status g;
      elapsed = g.elapsed;
    }
