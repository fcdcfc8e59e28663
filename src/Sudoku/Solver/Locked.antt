-- ===== src/Sudoku/Solver/Locked.antt =====
-- locked_candidates of sudoku/puzzle.cc: pointing and claiming.
use phone.Prelude.{
  ℕ, ◌+◌, ◌-◌, Bool, false, not, List, [], ◌∷◌, Option, none, some, filter, range, ltb, leb, ◌==◌,
  if◌then◌else◌,
}
use phone.Prelude.Masks.{bit}
use phone.Sudoku.Grid.{row, column, box}
use phone.Sudoku.Solver.{Logic, eliminate, attempt, sweep, unit_cells}
use phone.Sudoku.Solver.Singles.{places_for}

-- std::popcount(mask) == 1 and std::countr_zero(mask) of the mask of the cells' lines: the one
-- line that all of them lie on.
unfoldable pub common : (ℕ → ℕ) → List ℕ → Option ℕ
common line [] = none
common line (cell ∷ []) = some (line cell)
common line (cell ∷ next ∷ rest) =
    let shared = common line (next ∷ rest) in
    elim shared [ none ↦ none | some i ↦ if line cell == i then some i else none ]

unfoldable pub or_else : Option ℕ → ℕ → Option ℕ → Option ℕ
or_else (some i) base rest = some (base + i)
or_else none base rest = rest

-- target: -1 is `none`.
unfoldable pub target_of : ℕ → List ℕ → Option ℕ
target_of unit cells =
    if leb 18 unit
    then or_else (common row cells) 0 (or_else (common column cells) 9 none)
    else or_else (common box cells) 18 none

unfoldable pub inside : ℕ → ℕ → Bool
inside unit cell =
    if ltb unit 9
    then row cell == unit
    else if ltb unit 18
    then column cell == unit - 9
    else box cell == unit - 18

unfoldable pub clear_target : ℕ → ℕ → Option ℕ → Logic → Logic × Bool
clear_target unit digit none s = (s, false)
clear_target unit digit (some target) s =
    sweep (λ cell s. eliminate s cell (bit digit))
      (filter (λ cell. not (inside unit cell)) (unit_cells target)) s

unfoldable pub try_locked : ℕ → ℕ → Logic → Logic × Bool
try_locked unit digit s = clear_target unit digit (target_of unit (places_for s unit digit)) s

unfoldable pub locked_candidates : Logic → Logic × Bool
locked_candidates s = attempt (λ unit. attempt (try_locked unit) (range 1 9)) (range 0 27) s
