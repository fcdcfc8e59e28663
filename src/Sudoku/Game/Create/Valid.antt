-- ===== src/Sudoku/Game/Create/Valid.antt =====
-- The puzzles that create_game accepts are those with the given grid as their only solution.
use phone.Prelude.{
  ℕ, zero, suc, ◌+◌, ◌≤◌, ◌<◌, ◌≡◌, ◌≢◌, refl, sym, ◌∙◌, ap, subst, ==→≡, inl, inr, Bool, true,
  List, [], ◌∷◌, Option, some, length, at, range, ◌==◌, list_eq, list_eq→≡, list_eq_self, arith, In,
  Distinct, All,
}
use phone.Sudoku.Grid.{Grid, IsCompletion}
use phone.Sudoku.Search.{count_solutions, empty_grid, keep_solution}
use phone.Sudoku.Search.Finds.{first_of_all}
use phone.Sudoku.Minimize.{pointee}
use native.Mathlib.Decide.{ℕ_discrete}
use phone.Sudoku.Search.Count.{Counts, count_solutions-Counts}
use phone.Sudoku.Minimize.Minimal.{Poses}
use phone.Sudoku.Rate.{Puzzle}
use phone.Sudoku.Game.{all_of}
use phone.Sudoku.Game.Create.{valid_solution, valid_puzzle, agrees}

pub all_of-range :
    (test : ℕ → Bool) (first n c : ℕ)
    → all_of test (range first n) ≡ true
    → first ≤ c
    → c < first + n
    → test c ≡ true
unfolding all_of
all_of-range test first zero c h p q = absurd (omega arith)
all_of-range test first (suc n) c h p q = elim (ℕ_discrete first c) [
  | yes here ↦ subst (λ (k : ℕ). test k ≡ true) here (ground arith)
  | no other ↦ all_of-range test (first + 1) n c (ground arith) (omega arith) (omega arith)
]

pub range-all_of :
    (test : ℕ → Bool) (first n : ℕ)
    → ((c : ℕ) → first ≤ c → c < first + n → test c ≡ true)
    → all_of test (range first n) ≡ true
unfolding all_of
range-all_of test first zero h = refl
range-all_of test first (suc n) h =
    rw (h first (omega arith) (omega arith))
      (range-all_of test (first + 1) n (λ c p q. h c (omega arith) (omega arith)))

-- The one completion that was counted, as the pointer shows it.
single_solution :
    (solution : Grid) (found : List Grid)
    → length found ≡ 1
    → pointee (first_of_all (some empty_grid) 0 found) ≡ solution
    → found ≡ solution ∷ []
unfolding pointee keep_solution
single_solution solution [] e h = absurd (omega arith)
single_solution solution (t ∷ []) e h = ap (λ (u : Grid). u ∷ []) h
single_solution solution (t ∷ u ∷ us) e h = absurd (omega arith)

only_solution :
    (puzzle solution : Grid) (found : List Grid)
    → Poses solution puzzle
    → All (IsCompletion puzzle) found
    → Distinct found
    → (length found < 2 → (t : Grid) → IsCompletion puzzle t → In t found)
    → found ≡ solution ∷ []
only_solution puzzle solution [] p sound distinct complete =
    absurd (complete (omega arith) solution p.solves)
only_solution puzzle solution (t ∷ []) p sound distinct complete =
    ap (λ (u : Grid). u ∷ []) (p.only t sound.0)
only_solution puzzle solution (t ∷ u ∷ us) p sound distinct complete =
    absurd (distinct.0 (inl (p.only t sound.0 ∙ sym (p.only u sound.1.0))))

module _ (p : Puzzle) (size : length p.givens ≡ 81) where
  abbrev run : ℕ × Option Grid
  run = count_solutions p.givens 2 (some empty_grid)

  counts : Counts p.givens 2 (some empty_grid) run
  counts = count_solutions-Counts p.givens 2 (some empty_grid)

  -- For clues of 81 cells, if valid_puzzle accepts them with a solution, then valid_solution accepts
  -- the solution, and it keeps the clues, completes them and is their only completion.
  pub valid_puzzle-Poses :
      valid_puzzle p ≡ true → (valid_solution p.solution ≡ true) × Poses p.solution p.givens
  unfolding valid_puzzle
  valid_puzzle-Poses h =
      let parts : (valid_solution p.solution ≡ true)
          × (all_of (agrees p) (range 0 81) ≡ true)
          × ((run.0 == 1) ≡ true)
          × (list_eq (pointee run.1) p.solution ≡ true) =
        ground arith in
      let one =
        single_solution p.solution counts.found (sym counts.counted ∙ ==→≡ _ 1 parts.2)
          (ap pointee (sym counts.copied) ∙ list_eq→≡ (pointee run.1) p.solution parts.3) in
      (
        parts.0,
        record {
          size = size;
          clues = λ c h ne. clue c h ne (all_of-range (agrees p) 0 81 c parts.1 (omega arith) h);
          solves = (subst (All (IsCompletion p.givens)) one counts.sound).0;
          only = λ t comp. elim (subst (In t) one (counts.complete (rw one (omega arith)) t comp)) [
            | inl e ↦ e
            | inr nowhere ↦ absurd nowhere
          ];
        },
      )
    where
      clue :
          (c : ℕ) → c < 81 → at p.givens c ≢ 0 → agrees p c ≡ true → at p.givens c ≡ at p.solution c
      clue c h ne = unfold agrees in λ e. ground arith

  -- Conversely, for clues of 81 cells, valid_puzzle accepts them with a solution that valid_solution
  -- accepts, that keeps the clues and that is their only completion.
  pub Poses-valid_puzzle :
      valid_solution p.solution ≡ true → Poses p.solution p.givens → valid_puzzle p ≡ true
  unfolding valid_puzzle
  Poses-valid_puzzle valid poses =
      let one =
        only_solution p.givens p.solution counts.found poses counts.sound counts.distinct
          counts.complete in
      let found : run.0 ≡ 1 = counts.counted ∙ ap (length {A = Grid}) one in
      let copied : pointee run.1 ≡ p.solution =
        ap pointee counts.copied
        ∙ ap (λ (ts : List Grid). pointee (first_of_all (some empty_grid) 0 ts)) one
        ∙ first_pointee p.solution in
      rw (valid, range-all_of (agrees p) 0 81 agree, found, copied, list_eq_self p.solution)
    where
      agree : (c : ℕ) → 0 ≤ c → c < 0 + 81 → agrees p c ≡ true
      agree c _ h = let f = poses.clues c (omega arith) in unfold agrees in ground arith

      first_pointee : (t : Grid) → pointee (first_of_all (some empty_grid) 0 (t ∷ [])) ≡ t
      first_pointee t = unfold pointee keep_solution in refl
