-- ===== src/Sudoku/Search/Count.antt =====
-- What `count_solutions` counts, and what the solution pointer holds.
use phone.Prelude.{
  ℕ, ◌≤◌, ◌<◌, ◌≡◌, refl, sym, ◌∙◌, ap, ◌↔◌, inl, inr, List, [], ◌∷◌, Option, max, length,
  count-le-length, In, Distinct, All, All-map, arith,
}
use phone.Sudoku.Grid.{Grid, IsCompletion, IsCompletion_mono, HasUnique}
use phone.Sudoku.Search.{Search, search, search_fuel, count_solutions}
use phone.Sudoku.Search.Board.{IsCoherent}
use phone.Sudoku.Search.Load.{Loaded, load_lem}
use phone.Sudoku.Search.Finds.{first_of_all, Finds}
use phone.Sudoku.Search.Explore.{search-Finds}

-- `found` are the solutions that were counted: completions of the grid, no two the same, at most
-- the limit; below the limit they are all that there are, and the first is copied out.
pub record Counts (grid : Grid) (limit : ℕ) (solution : Option Grid) (r : ℕ × Option Grid)
    : Type 0 where
  pub found : List Grid
  pub counted : r.0 ≡ length found
  pub copied : r.1 ≡ first_of_all solution 0 found
  pub sound : All (IsCompletion grid) found
  pub distinct : Distinct found
  pub within : length found ≤ max 1 limit
  pub complete : length found < max 1 limit → (t : Grid) → IsCompletion grid t → In t found

run-Counts :
    (grid : Grid) (limit : ℕ) (solution : Option Grid) (s : Search)
    → Loaded grid 81 s
    → (f : Finds
        (IsCompletion s.cells)
        (record s { limit = max 1 limit; solution = solution })
        (search search_fuel (record s { limit = max 1 limit; solution = solution })))
    → Counts grid limit solution (
      (search search_fuel (record s { limit = max 1 limit; solution = solution })).0.count,
      (search search_fuel (record s { limit = max 1 limit; solution = solution })).0.solution,
    )
run-Counts grid limit solution s l f = record {
  found = f.found;
  counted = ap (λ (u : Search). u.count) f.state ∙ omega arith;
  copied =
      ap (λ (u : Search). u.solution) f.state
      ∙ ap (λ (n : ℕ). first_of_all solution n f.found) l.uncounted;
  sound = All-map _ _ f.found (λ t. IsCompletion_mono (λ c h ne. sym (l.done c h))) f.sound;
  distinct = f.distinct;
  within = omega (arith, f.within, l.uncounted);
  complete = λ few t comp.
      f.complete (ground (arith, f.stop)) t (IsCompletion_mono (λ c h ne. l.done c h) comp);
}

pub IsCoherent-setup :
    {grid : Grid} {k limit : ℕ} {solution : Option Grid} {s : Search}
    → {random : Option ℕ} → Loaded grid k s
    → IsCoherent (record s { limit = limit; solution = solution; random = random })
IsCoherent-setup l = record {
  size = l.coherent.size;
  small = l.coherent.small;
  rows = l.coherent.rows;
  columns = l.coherent.columns;
  boxes = l.coherent.boxes;
  proper = l.coherent.proper;
}

-- For every grid, limit and solution pointer, the count is the number of a list of distinct
-- completions of the grid, at most the limit (or one, for a limit of 0) of them; all completions are
-- in it if there are fewer than that; and the pointed-to grid is the first of them, or unchanged if
-- there is none.
pub count_solutions-Counts :
    (grid : Grid) (limit : ℕ) (solution : Option Grid)
    → Counts grid limit solution (count_solutions grid limit solution)
unfolding count_solutions
count_solutions-Counts grid limit solution = elim (load_lem grid) [
  | inl (fail, nothing) ↦
      rw (fail, count_solutions)
        (record {
          found = [];
          counted = refl;
          copied = refl;
          sound = tt;
          distinct = tt;
          within = omega arith;
          complete = λ few t comp. absurd (nothing t comp);
        })
  | inr (s, e, l) ↦
      rw (e, count_solutions)
        (run-Counts grid limit solution s l (
          search-Finds search_fuel (record s { limit = max 1 limit; solution = solution })
            (IsCoherent-setup l) (omega arith)
            (ground (arith, count-le-length 0 s.cells, l.coherent.size))))
]

single-HasUnique :
    (grid : Grid) (found : List Grid)
    → length found ≡ 1
    → All (IsCompletion grid) found
    → (length found < 2 → (t : Grid) → IsCompletion grid t → In t found)
    → HasUnique grid
single-HasUnique grid [] e sound complete = absurd (omega arith)
single-HasUnique grid (t ∷ []) e sound complete = record {
  solution = t;
  solves = sound.0;
  only = λ u comp. elim (complete (omega arith) u comp) [
    | inl same ↦ same
    | inr nowhere ↦ absurd nowhere
  ];
}
single-HasUnique grid (t ∷ u ∷ us) e sound complete = absurd (omega arith)

HasUnique-single :
    (grid : Grid) (found : List Grid)
    → All (IsCompletion grid) found
    → Distinct found
    → (length found < 2 → (t : Grid) → IsCompletion grid t → In t found)
    → HasUnique grid
    → length found ≡ 1
HasUnique-single grid [] sound distinct complete h =
    absurd (complete (omega arith) h.solution h.solves)
HasUnique-single grid (t ∷ []) sound distinct complete h = refl
HasUnique-single grid (t ∷ u ∷ us) sound distinct complete h =
    absurd (distinct.0 (inl (h.only t sound.0 ∙ sym (h.only u sound.1.0))))

-- For every grid, the count up to two is one exactly if the grid has exactly one completion.
pub count_solutions-HasUnique :
    (grid : Grid) (solution : Option Grid)
    → ((count_solutions grid 2 solution).0 ≡ 1) ↔ HasUnique grid
count_solutions-HasUnique grid solution =
    let c = count_solutions-Counts grid 2 solution in
    (
      λ e. single-HasUnique grid c.found (sym c.counted ∙ e) c.sound c.complete,
      λ h. c.counted ∙ HasUnique-single grid c.found c.sound c.distinct c.complete h,
    )
