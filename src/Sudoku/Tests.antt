-- ===== src/Sudoku/Tests.antt =====
-- Runs of the solvers and the generator, and the theorems at concrete grids.
use phone.Prelude.{◌≡◌, ◌↔◌, refl, true, false, [], ◌∷◌, none, some, set}
use phone.Sudoku.Grid.{Grid, IsCompletion, HasUnique}
use phone.Sudoku.Search.{empty_grid, count_solutions}
use phone.Sudoku.Search.Count.{Counts, count_solutions-Counts, count_solutions-HasUnique}
use phone.Sudoku.Minimize.{random_solution, minimize}
use phone.Sudoku.Minimize.Filled.{filled, filled-IsCompletion, random_solution-IsCompletion}
use phone.Sudoku.Minimize.Minimal.{IsMinimal, minimize-IsMinimal}
use phone.Sudoku.Runs.{solver_run}
use phone.Sudoku.Rate.{generate_puzzle}
use phone.Sudoku.Rate.Generated.{Promises, generate_puzzle-Promises}

-- Two cells emptied.
abbrev holed : Grid
holed = set (set filled 0 0) 10 0

-- A row with two equal clues.
abbrev clash : Grid
clash = set filled 1 1

two_gaps : (count_solutions holed 2 none).0 ≡ 1
unfolding solver_run
two_gaps = refl

no_start : (count_solutions clash 2 none).0 ≡ 0
unfolding solver_run
no_start = refl

limit_reached : (count_solutions empty_grid 3 none).0 ≡ 3
unfolding solver_run
limit_reached = refl

count_solutions-Counts_example :
    Counts holed 2 (some empty_grid) (count_solutions holed 2 (some empty_grid))
count_solutions-Counts_example = count_solutions-Counts holed 2 (some empty_grid)

count_solutions-HasUnique_example : ((count_solutions holed 2 none).0 ≡ 1) ↔ HasUnique holed
count_solutions-HasUnique_example = count_solutions-HasUnique holed none

random_solution-IsCompletion_example : IsCompletion empty_grid (random_solution 7).0
random_solution-IsCompletion_example = random_solution-IsCompletion 7

minimize-IsMinimal_example : IsMinimal filled (minimize filled 7).0
minimize-IsMinimal_example = minimize-IsMinimal filled filled-IsCompletion 7

generate_puzzle-Promises_example :
    Promises (false ∷ false ∷ true ∷ []) (generate_puzzle 7 (false ∷ false ∷ true ∷ []))
generate_puzzle-Promises_example = generate_puzzle-Promises 7 (false ∷ false ∷ true ∷ [])
