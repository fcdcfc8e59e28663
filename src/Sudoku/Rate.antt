-- ===== src/Sudoku/Rate.antt =====
-- rate, is_extreme and generate_puzzle of sudoku/puzzle.cc.
pub mod Generated
use package.phone.Prelude.{
  ℕ, zero, suc, ◌+◌, ◌*◌, Bool, true, false, not, ◌&&◌, ◌||◌, List, [], ◌∷◌, Option, none, some,
  max, at, range, replicate, ltb, leb, ◌==◌, if◌then◌else◌,
}
use package.phone.Prelude.Masks.{has}
use package.phone.Prelude.Results.{Result, ok, error}
use package.phone.Sudoku.Grid.{Grid}
use package.phone.Sudoku.Search.{empty_grid}
use package.phone.Sudoku.Minimize.{random_solution, minimize}
use package.phone.Sudoku.Solver.{Logic, place}
use package.phone.Sudoku.Solver.Singles.{naked_single, hidden_single}
use package.phone.Sudoku.Solver.Locked.{locked_candidates}
use package.phone.Sudoku.Solver.Subsets.{subsets, fish}
use package.phone.Sudoku.Solver.Wings.{xy_wing, xyz_wing}
use package.phone.Sudoku.Solver.Chains.{chains}

pub record Puzzle : Type 0 where
  pub givens : Grid
  pub solution : Grid

pub record Rating : Type 0 where
  pub solved : Bool
  pub consistent : Bool
  pub level : ℕ
  pub advanced_steps : ℕ
  pub chain_steps : ℕ

abbrev pub no_rating : Rating
no_rating = record {
  solved = false;
  consistent = true;
  level = 0;
  advanced_steps = 0;
  chain_steps = 0;
}

-- The first loop: `none` is its early return.
unfoldable pub place_givens : List ℕ → Grid → Logic → Option Logic
place_givens [] givens s = some s
place_givens (cell ∷ cells) givens s =
    let digit = at givens cell in
    let refused = ltb 9 digit || not (has (at s.candidates cell) digit) in
    let rest = place_givens cells givens (if digit == 0 then s else place s cell digit) in
    if not (digit == 0) && refused then none else rest

-- The scan for empty cells: all full, some empty, or an empty one with no candidate.
pub data Scan : Type 0 where
  complete incomplete stuck : Scan

unfoldable pub scan : List ℕ → Logic → Scan → Scan
scan [] s so_far = so_far
scan (cell ∷ cells) s so_far =
    let empty = at s.values cell == 0 in
    let rest = scan cells s (if empty then incomplete else so_far) in
    if empty && at s.candidates cell == 0 then stuck else rest

-- The techniques in order of difficulty; the level of the first that progresses, 0 for none.
unfoldable pub first_level : List (ℕ × (Logic → Logic × Bool)) → Logic → Logic × ℕ
first_level [] s = (s, 0)
first_level ((level, technique) ∷ rest) s =
    let (s', progress) = technique s in
    let later = first_level rest s' in if progress then (s', level) else later

unfoldable pub techniques : List (ℕ × (Logic → Logic × Bool))
techniques =
    (1, naked_single)
    ∷ (1, hidden_single)
    ∷ (2, locked_candidates)
    ∷ (3, subsets)
    ∷ (4, fish)
    ∷ (4, xy_wing)
    ∷ (4, xyz_wing)
    ∷ (5, chains)
    ∷ []

unfoldable pub score : ℕ → Rating → Rating
score level rating = record rating {
  level = max rating.level level;
  advanced_steps = rating.advanced_steps + (if leb 4 level then 1 else 0);
  chain_steps = rating.chain_steps + (if level == 5 then 1 else 0);
}

-- while (true), on fuel: every round but the last removes a candidate.
unfoldable pub rate_loop : ℕ → Logic → Rating → Rating
rate_loop zero s rating = rating
rate_loop (suc fuel) s rating = elim (scan (range 0 81) s complete) [
  | stuck ↦ record rating { consistent = s.consistent }
  | complete ↦ record rating { solved = true; consistent = s.consistent }
  | incomplete ↦
      let (s', level) = first_level techniques s in
      elim level [
        | zero ↦ record rating { consistent = s'.consistent }
        | suc l ↦ rate_loop fuel s' (score (suc l) rating)
      ]
]

abbrev pub rate_fuel : ℕ
rate_fuel = 81 * 9 + 1

unfoldable pub rate : Grid → Option Grid → Rating
rate givens reference =
    let s : Logic = record {
      values = empty_grid;
      candidates = replicate 81 0x1ff;
      reference = reference;
      consistent = true;
    } in
    elim (place_givens (range 0 81) givens s) [
      | none ↦ no_rating
      | some s' ↦ rate_loop rate_fuel s' no_rating
    ]

unfoldable pub is_extreme : Rating → Bool
is_extreme rating = rating.solved && rating.level == 5 && leb 4 rating.chain_steps

-- The loop of generate_puzzle. The list holds what `cancelled` reads in each round; a list that
-- ends leaves the loop running, which is `none`.
unfoldable pub generate_puzzle : ℕ → List Bool → Option (Result Puzzle)
generate_puzzle state [] = none
generate_puzzle state (true ∷ polls) = some (error "Puzzle generation was cancelled")
generate_puzzle state (false ∷ polls) =
    let (solution, state1) = random_solution state in
    let (givens, state2) = minimize solution state1 in
    let rest = generate_puzzle state2 polls in
    if is_extreme (rate givens none)
    then some (ok (record { givens = givens; solution = solution }))
    else rest
