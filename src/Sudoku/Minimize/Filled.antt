-- ===== src/Sudoku/Minimize/Filled.antt =====
-- random_solution returns a full, valid grid, whatever the generator's state.
use phone.Prelude.{
  ℕ, zero, suc, ◌<◌, ◌≡◌, refl, ◌∙◌, ap, Bool, true, not, ◌&&◌, ◌||◌, List, [], ◌∷◌, some, ◌==◌,
  leb, ltb, length, at, In, arith, All,
}
use phone.Sudoku.Grid.{Grid, sees, IsCompletion}
use phone.Sudoku.Search.{Search, fresh, empty_grid, search, search_fuel, keep_solution}
use phone.Sudoku.Search.Load.{fresh-Loaded, at-replicate}
use phone.Sudoku.Search.Finds.{first_of_all, Finds}
use phone.Sudoku.Search.Count.{IsCoherent-setup}
use phone.Sudoku.Search.Explore.{search-Finds}
use phone.Sudoku.Minimize.{random_solution}

-- One full grid is enough to see that the search of the empty grid succeeds.
abbrev pub filled : Grid
filled =
    1 ∷ 2 ∷ 3 ∷ 4 ∷ 5 ∷ 6 ∷ 7 ∷ 8 ∷ 9 ∷ 4 ∷ 5 ∷ 6 ∷ 7 ∷ 8 ∷ 9 ∷ 1 ∷ 2 ∷ 3 ∷ 7 ∷ 8 ∷ 9 ∷ 1 ∷ 2 ∷ 3
    ∷ 4 ∷ 5 ∷ 6 ∷ 2 ∷ 3 ∷ 4 ∷ 5 ∷ 6 ∷ 7 ∷ 8 ∷ 9 ∷ 1 ∷ 5 ∷ 6 ∷ 7 ∷ 8 ∷ 9 ∷ 1 ∷ 2 ∷ 3 ∷ 4 ∷ 8 ∷ 9 ∷ 1
    ∷ 2 ∷ 3 ∷ 4 ∷ 5 ∷ 6 ∷ 7 ∷ 3 ∷ 4 ∷ 5 ∷ 6 ∷ 7 ∷ 8 ∷ 9 ∷ 1 ∷ 2 ∷ 6 ∷ 7 ∷ 8 ∷ 9 ∷ 1 ∷ 2 ∷ 3 ∷ 4 ∷ 5
    ∷ 9 ∷ 1 ∷ 2 ∷ 3 ∷ 4 ∷ 5 ∷ 6 ∷ 7 ∷ 8 ∷ []

below_all : ℕ → (ℕ → Bool) → Bool
below_all zero p = true
below_all (suc n) p = p n && below_all n p

below_all_lem : (n : ℕ) (p : ℕ → Bool) (x : ℕ) → below_all n p ≡ true → x < n → p x ≡ true
unfolding below_all
below_all_lem zero p x h l = absurd (omega arith)
below_all_lem (suc n) p x h l = ground (arith, below_all_lem n p x)

abbrev differs : Grid → ℕ → ℕ → Bool
differs t a b = not (sees a b) || not (at t a == at t b)

-- A full grid, tested cell by cell and pair by pair, completes the empty one.
checked-IsCompletion :
    (t : Grid)
    → length t ≡ 81
    → below_all 81 (λ c. ltb 0 (at t c) && leb (at t c) 9) ≡ true
    → below_all 81 (λ a. below_all 81 (differs t a)) ≡ true
    → IsCompletion empty_grid t
checked-IsCompletion t size digits proper = record {
  size = size;
  digits =
      λ c h. ground (arith, below_all_lem 81 (λ c. ltb 0 (at t c) && leb (at t c) 9) c digits h);
  keeps = λ c h ne. absurd (ne (at-replicate 81 c));
  proper = λ a b ha hb see. ground (
    arith,
    below_all_lem 81 (differs t a) b
        (below_all_lem 81 (λ a. below_all 81 (differs t a)) a proper ha) hb,
  );
}

pub filled-IsCompletion : IsCompletion empty_grid filled
unfolding below_all sees
filled-IsCompletion = checked-IsCompletion filled refl refl refl

first-IsCompletion :
    (found : List Grid)
    → All (IsCompletion empty_grid) found
    → (length found < 1 → In filled found)
    → (t : Grid) × (first_of_all (some empty_grid) 0 found ≡ some t) × IsCompletion empty_grid t
unfolding keep_solution
first-IsCompletion [] sound complete = absurd (complete (omega arith))
first-IsCompletion (t ∷ ts) sound complete = (t, refl, sound.0)

abbrev start : ℕ → Search
start state = record fresh { solution = some empty_grid; random = some state }

start-Finds :
    (state : ℕ) → Finds (IsCompletion empty_grid) (start state) (search search_fuel (start state))
start-Finds state =
    search-Finds search_fuel (start state) (IsCoherent-setup (fresh-Loaded empty_grid))
      (omega arith) (omega arith)

-- For every state of the random generator, random_solution returns a full grid of digits in which no
-- two cells of a unit are equal.
pub random_solution-IsCompletion : (state : ℕ) → IsCompletion empty_grid (random_solution state).0
unfolding random_solution
random_solution-IsCompletion state =
    let f = start-Finds state in
    let ended =
      λ (few : length f.found < 1). f.complete (f.stop ∙ ground arith) filled filled-IsCompletion in
    let (t, e, comp) = first-IsCompletion f.found f.sound ended in
    rw (ap (λ (u : Search). u.solution) f.state ∙ e) comp
