-- ===== src/Sudoku/Solver/Singles.antt =====
-- naked_single and hidden_single of sudoku/puzzle.cc.
use phone.Prelude.{
  ℕ, Bool, true, false, List, [], ◌∷◌, suc, zero, at, range, filter, ◌+◌, ◌==◌, if◌then◌else◌,
}
use phone.Prelude.Masks.{has, popcount}
use phone.Sudoku.Solver.{Logic, place, attempt, unit_cells}

-- std::countr_zero(mask) + 1 for a mask with a digit: the lowest one of those from `first` on.
unfoldable pub lowest_from : ℕ → ℕ → ℕ → ℕ
lowest_from zero first mask = first
lowest_from (suc n) first mask = if has mask first then first else lowest_from n (first + 1) mask

unfoldable pub lowest_digit : ℕ → ℕ
lowest_digit mask = lowest_from 16 1 mask

unfoldable pub try_naked : ℕ → Logic → Logic × Bool
try_naked cell s =
    if popcount 16 (at s.candidates cell) == 1
    then (place s cell (lowest_digit (at s.candidates cell)), true)
    else (s, false)

unfoldable pub naked_single : Logic → Logic × Bool
naked_single s = attempt try_naked (range 0 81) s

-- The cells of a unit that have a digit as a candidate.
unfoldable pub places_for : Logic → ℕ → ℕ → List ℕ
places_for s unit digit = filter (λ cell. has (at s.candidates cell) digit) (unit_cells unit)

-- count == 1 and found: the only place of a digit.
unfoldable pub place_only : List ℕ → ℕ → Logic → Logic × Bool
place_only (found ∷ []) digit s = (place s found digit, true)
place_only _ digit s = (s, false)

unfoldable pub try_hidden : ℕ → ℕ → Logic → Logic × Bool
try_hidden unit digit s = place_only (places_for s unit digit) digit s

unfoldable pub hidden_single : Logic → Logic × Bool
hidden_single s = attempt (λ unit. attempt (try_hidden unit) (range 1 9)) (range 0 27) s
