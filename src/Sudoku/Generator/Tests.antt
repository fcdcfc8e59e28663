-- ===== src/Sudoku/Generator/Tests.antt =====
-- A generator that is destroyed while its thread generates a puzzle.
use phone.Prelude.{◌≡◌, refl, true, [], ◌∷◌, some}
use phone.Prelude.Results.{Result, error}
use phone.Sudoku.Rate.{Puzzle, generate_puzzle}
use phone.Sudoku.Generator.{
  Generator, create_generator, loop, finish_puzzle, cancel, stop, looped, generated,
  cancelled_first, stopped, Reaches, created, next,
}
use phone.Sudoku.Generator.Extreme.{IsSound, Reaches-IsSound}

abbrev refusal : Result Puzzle
refusal = error "Puzzle generation was cancelled"

refused : generate_puzzle 7 (true ∷ []) ≡ some refusal
unfolding generate_puzzle
refused = refl

-- The states after the loop's head, the store of destroy, the return of generate_puzzle and the end
-- of destroy.
abbrev destroyed : Generator
destroyed = stop (finish_puzzle (cancel (loop (create_generator 7))) refusal)

history : Reaches 7 destroyed
unfolding loop cancel finish_puzzle
history =
    next
      (next (next (next created (looped refl)) cancelled_first)
        (generated 7 (true ∷ []) refusal refl refused (λ m. refl)))
      (stopped refl)

Reaches-IsSound_example : IsSound destroyed
Reaches-IsSound_example = Reaches-IsSound 7 destroyed history
