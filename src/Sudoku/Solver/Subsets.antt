-- ===== src/Sudoku/Solver/Subsets.antt =====
-- subsets and fish of sudoku/puzzle.cc: naked and hidden subsets, X-wing, swordfish, jellyfish.
use phone.Prelude.{
  ℕ, ◌+◌, ◌*◌, Bool, true, false, not, [], ◌∷◌, Option, none, some, at, range, ◌==◌, if◌then◌else◌,
}
use phone.Prelude.Masks.{bit, has, and_not, popcount}
use phone.Sudoku.Solver.{
  Logic, eliminate, attempt, sweep, unit_cells, members, others, union_of, positions,
}

-- A union of `size` bits clears what it says; any other union, or an empty member, does nothing.
unfoldable pub when_size : ℕ → Option ℕ → (ℕ → Logic → Logic × Bool) → Logic → Logic × Bool
when_size size none act s = (s, false)
when_size size (some union) act s = if popcount 16 union == size then act union s else (s, false)

unfoldable pub cell_of : ℕ → ℕ → ℕ
cell_of unit i = at (unit_cells unit) i

unfoldable pub try_naked_subset : ℕ → ℕ → ℕ → Logic → Logic × Bool
try_naked_subset size unit combination s =
    if not (popcount 9 combination == size)
    then (s, false)
    else when_size size (union_of (λ i. at s.candidates (cell_of unit i)) (members combination) 0)
        (λ digits. sweep (λ i s. eliminate s (cell_of unit i) digits) (others combination)) s

-- positions[digit]: the places of a digit in a unit.
unfoldable pub digit_positions : Logic → ℕ → ℕ → ℕ
digit_positions s unit digit =
    positions (λ i. has (at s.candidates (cell_of unit i)) digit) (range 0 9)

unfoldable pub try_hidden_subset : ℕ → ℕ → ℕ → Logic → Logic × Bool
try_hidden_subset size unit combination s =
    if not (popcount 9 combination == size)
    then (s, false)
    else when_size size (union_of (λ i. digit_positions s unit (i + 1)) (members combination) 0)
        (λ cells.
          sweep (λ i s. eliminate s (cell_of unit i) (and_not 0x1ff combination)) (members cells))
        s

-- Both passes over one unit.
unfoldable pub subsets_in : ℕ → ℕ → Logic → Logic × Bool
subsets_in size unit s =
    attempt (λ pass s. pass s)
      (attempt (try_naked_subset size unit) (range 0 512)
        ∷ attempt (try_hidden_subset size unit) (range 0 512)
        ∷ [])
      s

unfoldable pub subsets : Logic → Logic × Bool
subsets s = attempt (λ size. attempt (subsets_in size) (range 0 27)) (range 2 3) s

unfoldable pub line_cell : Bool → ℕ → ℕ → ℕ
line_cell by_rows line position = if by_rows then line * 9 + position else position * 9 + line

unfoldable pub line_positions : Logic → ℕ → Bool → ℕ → ℕ
line_positions s digit by_rows line =
    positions (λ position. has (at s.candidates (line_cell by_rows line position)) digit)
      (range 0 9)

unfoldable pub clear_cover : ℕ → Bool → ℕ → ℕ → Logic → Logic × Bool
clear_cover digit by_rows combination cover =
    sweep
      (λ line.
        sweep (λ position s. eliminate s (line_cell by_rows line position) (bit digit))
          (members cover))
      (others combination)

unfoldable pub try_fish : ℕ → ℕ → Bool → ℕ → Logic → Logic × Bool
try_fish size digit by_rows combination s =
    if not (popcount 9 combination == size)
    then (s, false)
    else when_size size (union_of (line_positions s digit by_rows) (members combination) 0)
        (clear_cover digit by_rows combination) s

unfoldable pub fish : Logic → Logic × Bool
fish s =
    attempt
      (λ size.
        attempt
          (λ digit.
            attempt (λ by_rows. attempt (try_fish size digit by_rows) (range 0 512))
              (true ∷ false ∷ []))
          (range 1 9))
      (range 2 3) s
