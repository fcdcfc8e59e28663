-- ===== src/Sudoku/Solver/Wings.antt =====
-- xy_wing and xyz_wing of sudoku/puzzle.cc.
use phone.Prelude.{
  ℕ, bit_and, bit_or, Bool, false, not, ◌&&◌, ◌||◌, at, filter, range, ◌==◌, if◌then◌else◌,
}
use phone.Prelude.Masks.{and_not, popcount}
use phone.Sudoku.Grid.{sees}
use phone.Sudoku.Solver.{Logic, eliminate, attempt, sweep, peers}

-- One pair of wings a and b of a bivalue pivot with the candidates `pair`.
unfoldable pub try_xy : ℕ → ℕ → ℕ → ℕ → Logic → Logic × Bool
try_xy a z second b s =
    if b == a || not (at s.candidates b == second)
    then (s, false)
    else sweep (λ cell s. eliminate s cell z)
        (filter (λ cell. not (cell == b) && sees cell b) (peers a)) s

unfoldable pub xy_first : ℕ → ℕ → ℕ → Logic → Logic × Bool
xy_first pivot pair a s =
    let first = at s.candidates a in
    if not (popcount 16 first == 2) || not (popcount 16 (bit_and first pair) == 1)
    then (s, false)
    else let z = and_not first pair in
      attempt (try_xy a z (bit_or (and_not pair first) z)) (peers pivot) s

unfoldable pub xy_pivot : ℕ → Logic → Logic × Bool
xy_pivot pivot s =
    let pair = at s.candidates pivot in
    if not (popcount 16 pair == 2)
    then (s, false)
    else attempt (xy_first pivot pair) (peers pivot) s

unfoldable pub xy_wing : Logic → Logic × Bool
xy_wing s = attempt xy_pivot (range 0 81) s

unfoldable pub try_xyz : ℕ → ℕ → ℕ → ℕ → ℕ → Logic → Logic × Bool
try_xyz pivot triple a first b s =
    let second = at s.candidates b in
    if b == a
      || not (popcount 16 second == 2)
      || not (and_not second triple == 0)
      || first == second
      || not (bit_or first second == triple)
    then (s, false)
    else sweep (λ cell s. eliminate s cell (bit_and first second))
        (filter (λ cell. not (cell == a) && not (cell == b) && sees cell a && sees cell b)
          (peers pivot))
        s

unfoldable pub xyz_first : ℕ → ℕ → ℕ → Logic → Logic × Bool
xyz_first pivot triple a s =
    let first = at s.candidates a in
    if not (popcount 16 first == 2) || not (and_not first triple == 0)
    then (s, false)
    else attempt (try_xyz pivot triple a first) (peers pivot) s

unfoldable pub xyz_pivot : ℕ → Logic → Logic × Bool
xyz_pivot pivot s =
    let triple = at s.candidates pivot in
    if not (popcount 16 triple == 3)
    then (s, false)
    else attempt (xyz_first pivot triple) (peers pivot) s

unfoldable pub xyz_wing : Logic → Logic × Bool
xyz_wing s = attempt xyz_pivot (range 0 81) s
