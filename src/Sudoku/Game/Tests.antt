-- ===== src/Sudoku/Game/Tests.antt =====
-- Runs of a game, and the theorems at a concrete one.
use phone.Prelude.{◌≡◌, refl, true, false, set, arith}
use phone.Sudoku.Search.{empty_grid}
use phone.Sudoku.Minimize.{pointee}
use phone.Sudoku.Runs.{solver_run, game_run}
use phone.Sudoku.Minimize.Filled.{filled}
use phone.Sudoku.Minimize.Minimal.{Poses}
use phone.Sudoku.Rate.{Puzzle}
use phone.Sudoku.Game.{Game, pos, Status, status, enter_digit, erase_cell, undo, unit_cell, all_of}
use phone.Sudoku.Game.Create.{
  valid_puzzle, valid_solution, valid_unit, seen_digits, agrees, new_game,
}
use phone.Sudoku.Game.Create.Valid.{valid_puzzle-Poses, Poses-valid_puzzle}
use phone.Sudoku.Game.Undo.{undo-enter_digit, undo-erase_cell}

abbrev pub puzzle : Puzzle
puzzle = record { givens = set (set filled 0 0) 10 0; solution = filled }

-- The first gap selected; the second has the mark 1, which an entry of 1 in the first clears.
abbrev pub game : Game
game = record (new_game puzzle) { selected = pos 0; notes = set (new_game puzzle).notes 1 1 }

abbrev marked : Game
marked = record game { notes = set empty_grid 0 5 }

pub accepted : valid_puzzle puzzle ≡ true
unfolding valid_puzzle valid_solution valid_unit seen_digits agrees pointee unit_cell all_of
    solver_run
accepted = refl

right_digit : (enter_digit game 1).1 ≡ record { changed = true; mistake = false; completed = 0x201 }
unfolding game_run
right_digit = refl

wrong_digit : (enter_digit game 2).1 ≡ record { changed = true; mistake = true; completed = 0 }
unfolding game_run
wrong_digit = refl

still_playing : status (enter_digit game 1).0 ≡ Status.playing
unfolding game_run
still_playing = refl

erased : (erase_cell marked).1.changed ≡ true
unfolding game_run
erased = refl

erased_playing : status (erase_cell marked).0 ≡ Status.playing
unfolding game_run
erased_playing = refl

entered : (enter_digit game 1).1.changed ≡ true
unfolding game_run
entered = refl

undo-enter_digit_example :
    undo (enter_digit game 1).0 ≡ (record game { mistakes = (enter_digit game 1).0.mistakes }, true)
undo-enter_digit_example = undo-enter_digit game 0 1 refl (omega arith) entered still_playing

undo-erase_cell_example : undo (erase_cell marked).0 ≡ (marked, true)
undo-erase_cell_example = undo-erase_cell marked 0 refl (omega arith) erased erased_playing

valid_puzzle-Poses_example : (valid_solution filled ≡ true) × Poses filled puzzle.givens
valid_puzzle-Poses_example = valid_puzzle-Poses puzzle refl accepted

Poses-valid_puzzle_example : valid_puzzle puzzle ≡ true
Poses-valid_puzzle_example =
    Poses-valid_puzzle puzzle refl valid_puzzle-Poses_example.0 valid_puzzle-Poses_example.1
