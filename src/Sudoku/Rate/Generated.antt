-- ===== src/Sudoku/Rate/Generated.antt =====
-- What generate_puzzle returns.
use phone.Prelude.{
  ◌≡◌, Bool, true, false, List, [], ◌∷◌, Option, some, none, ℕ, In, inl, inr, Bool-cases, refl,
}
use phone.Prelude.Results.{Result, ok, error}
use phone.Sudoku.Grid.{IsCompletion}
use phone.Sudoku.Search.{empty_grid}
use phone.Sudoku.Minimize.{random_solution, minimize}
use phone.Sudoku.Minimize.Filled.{random_solution-IsCompletion}
use phone.Sudoku.Minimize.Minimal.{IsMinimal, minimize-IsMinimal}
use phone.Sudoku.Rate.{Puzzle, rate, is_extreme, generate_puzzle}

-- A full valid solution, clues that only it completes and none of which can be spared, and a
-- rating of Extreme.
pub record IsExtremePuzzle (p : Puzzle) : Type 0 where
  pub filled : IsCompletion empty_grid p.solution
  pub minimal : IsMinimal p.solution p.givens
  pub extreme : is_extreme (rate p.givens none) ≡ true

-- What each outcome promises.
abbrev pub Promises : List Bool → Option (Result Puzzle) → Type 0
Promises polls none = ¬ In true polls
Promises polls (some (ok p)) = IsExtremePuzzle p
Promises polls (some (error message)) = In true polls

Promises-later :
    (polls : List Bool) (r : Option (Result Puzzle)) → Promises polls r → Promises (false ∷ polls) r
Promises-later polls none h = elim [ inl e ↦ cc | inr m ↦ h m ]
Promises-later polls (some (ok p)) h = h
Promises-later polls (some (error message)) h = inr h

-- For every state of the random generator and every sequence of answers to the cancellation poll: a
-- puzzle that is returned has a valid full solution, clues that only it completes and none of which
-- can be removed, and a rating that is_extreme accepts; an error is returned only if some poll
-- answered true; and if the polls run out before a result, none of them did.
pub generate_puzzle-Promises :
    (state : ℕ) (polls : List Bool) → Promises polls (generate_puzzle state polls)
unfolding generate_puzzle
generate_puzzle-Promises state [] = λ m. m
generate_puzzle-Promises state (true ∷ polls) = inl refl
generate_puzzle-Promises state (false ∷ polls) =
    let solution = (random_solution state).0 in
    let state1 = (random_solution state).1 in
    let givens = (minimize solution state1).0 in
    let full = random_solution-IsCompletion state in
    elim (Bool-cases (is_extreme (rate givens none))) [
      | inl extreme ↦ rw extreme (record {
        filled = full;
        minimal = minimize-IsMinimal solution full state1;
        extreme = extreme;
      })
      | inr easy ↦
          rw easy
            (Promises-later polls _ (generate_puzzle-Promises (minimize solution state1).1 polls))
    ]
