-- ===== src/Sudoku/Minimize.antt =====
-- random_solution and minimize of sudoku/puzzle.cc: a random full grid, and as few of its clues as
-- keep the solution unique.
pub mod Filled
pub mod Minimal
use package.phone.Prelude.{
  ℕ, ◌≡◌, List, [], ◌∷◌, Option, none, some, at, set, range, ◌==◌, if◌then◌else◌,
}
use package.phone.Sudoku.Grid.{Grid}
use package.phone.Sudoku.Search.{
  Search, fresh, empty_grid, search, search_fuel, shuffle, count_solutions,
}

-- The grid that a pointer points to; the callers here never pass a null pointer.
unfoldable pub pointee : Option Grid → Grid
pointee none = empty_grid
pointee (some grid) = grid

unfoldable pub state_of : ℕ → Option ℕ → ℕ
state_of state none = state
state_of state (some state') = state'

-- The grid, and the generator's state afterwards.
unfoldable pub random_solution : ℕ → Grid × ℕ
unfolding pointee state_of
random_solution state =
    let (s, stop) =
      search search_fuel (record fresh { solution = some empty_grid; random = some state }) in
    (pointee s.solution, state_of state s.random)

-- The loop over the cells in their random order.
unfoldable pub remove_clues : List ℕ → Grid → Grid
remove_clues [] puzzle = puzzle
remove_clues (cell ∷ order) puzzle =
    let digit = at puzzle cell in
    let without = set puzzle cell 0 in
    let (found, _) = count_solutions without 2 none in
    remove_clues order (if found == 1 then without else set without cell digit)

unfoldable pub minimize : Grid → ℕ → Grid × ℕ
minimize solution state =
    let (order, state') = shuffle 80 (range 0 81) state in (remove_clues order solution, state')
