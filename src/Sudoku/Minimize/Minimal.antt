-- ===== src/Sudoku/Minimize/Minimal.antt =====
-- minimize returns a puzzle with one solution that no clue can be spared from.
use phone.Prelude.{
  ℕ, ◌<◌, ◌≡◌, ◌≢◌, refl, sym, ◌∙◌, inl, inr, Bool-cases, List, [], ◌∷◌, none, ◌==◌, ==→≡, ==→≢,
  if◌then◌else◌, length, length-set, set, set-set_back, at, at-set, at_ext, count, range, leb, ltb,
  ◌&&◌, subst, arith,
}
use native.Mathlib.Decide.{ℕ_discrete}
use phone.Sudoku.Grid.{Grid, IsCompletion, HasUnique, HasUnique-mono}
use phone.Sudoku.Search.{empty_grid, shuffle, count_solutions}
use phone.Sudoku.Search.Choose.{count-shuffle, count-range}
use phone.Sudoku.Search.Count.{count_solutions-HasUnique}
use phone.Sudoku.Minimize.{remove_clues, minimize}

-- Every clue of the first grid is one of the second.
abbrev pub Within : Grid → Grid → Type 0
Within fewer clues = (c : ℕ) → c < 81 → at fewer c ≢ 0 → at fewer c ≡ at clues c

-- A puzzle whose only solution is the given one.
pub record Poses (solution puzzle : Grid) : Type 0 where
  pub size : length puzzle ≡ 81
  pub clues : Within puzzle solution
  pub solves : IsCompletion puzzle solution
  pub only : (t : Grid) → IsCompletion puzzle t → t ≡ solution

-- Without its clue in cell c the puzzle has another solution.
abbrev pub IsNeeded : Grid → ℕ → Type 0
IsNeeded puzzle c = at puzzle c ≢ 0 → ¬ HasUnique (set puzzle c 0)

-- A well-posed puzzle none of whose clues can be removed.
pub record IsMinimal (solution puzzle : Grid) : Type 0 where
  pub poses : Poses solution puzzle
  pub needed : (c : ℕ) → c < 81 → IsNeeded puzzle c

module _ (solution : Grid) (full : IsCompletion empty_grid solution) where
  solves_of_Within : (puzzle : Grid) → Within puzzle solution → IsCompletion puzzle solution
  solves_of_Within puzzle sub = record {
    size = full.size;
    digits = full.digits;
    keeps = λ c h ne. sym (sub c h ne);
    proper = full.proper;
  }

  without-Within :
      (puzzle : Grid) (cell : ℕ)
      → length puzzle ≡ 81
      → cell < 81
      → Within (set puzzle cell 0) puzzle
  without-Within puzzle cell size inside c h ne = ground (arith, at-set puzzle cell c 0)

  without-Poses :
      (puzzle : Grid) (cell : ℕ)
      → Poses solution puzzle
      → cell < 81
      → HasUnique (set puzzle cell 0)
      → Poses solution (set puzzle cell 0)
  without-Poses puzzle cell p inside unique =
      let sub : Within (set puzzle cell 0) solution = λ c h ne.
        let e = without-Within puzzle cell p.size inside c h ne in
        e ∙ p.clues c h (λ z. ne (e ∙ z)) in
      let comp = solves_of_Within (set puzzle cell 0) sub in
      record {
        size = length-set puzzle cell 0 ∙ p.size;
        clues = sub;
        solves = comp;
        only = λ t h. unique.only t h ∙ sym (unique.only solution comp);
      }

  -- What the loop leaves of a puzzle, for the cells of its order.
  record Removes (puzzle : Grid) (order : List ℕ) (q : Grid) : Type 0 where
    poses : Poses solution q
    sub : Within q puzzle
    needed : (c : ℕ) → c < 81 → 0 < count c order → IsNeeded q c

  -- A clue that was needed stays needed when other clues go.
  needed_later :
      (puzzle q : Grid) (cell : ℕ)
      → length puzzle ≡ 81
      → cell < 81
      → Poses solution puzzle
      → Within q puzzle
      → length q ≡ 81
      → ¬ HasUnique (set puzzle cell 0)
      → ¬ HasUnique (set q cell 0)
  needed_later puzzle q cell size inside p sub size' not_unique unique =
      not_unique (HasUnique-mono solution less comp unique)
    where
      less : Within (set q cell 0) (set puzzle cell 0)
      less c h ne = ground (arith, at-set q cell c 0, at-set puzzle cell c 0, sub c h)

      comp : IsCompletion (set puzzle cell 0) solution
      comp = solves_of_Within (set puzzle cell 0) (λ c h ne.
          let e = without-Within puzzle cell size inside c h ne in
          e ∙ p.clues c h (λ z. ne (e ∙ z)))

  remove_clues-Removes :
      (order : List ℕ) (puzzle : Grid)
      → ((c : ℕ) → 0 < count c order → c < 81)
      → Poses solution puzzle
      → Removes puzzle order (remove_clues order puzzle)
  unfolding remove_clues
  remove_clues-Removes [] puzzle cells p = record {
    poses = p;
    sub = λ c h ne. refl;
    needed = λ c h k. absurd (omega arith);
  }
  remove_clues-Removes (cell ∷ order) puzzle cells p =
      let inside : cell < 81 = cells cell (ground arith) in
      let later = λ (c : ℕ) (h : 0 < count c order). cells c (ground arith) in
      let asks = count_solutions-HasUnique (set puzzle cell 0) none in
      elim (Bool-cases ((count_solutions (set puzzle cell 0) 2 none).0 == 1)) [
        | inl one ↦
            let rest =
              remove_clues-Removes order (set puzzle cell 0) later
                (without-Poses puzzle cell p inside (asks.0 (==→≡ _ 1 one))) in
            rw one (record {
              poses = rest.poses;
              sub = λ c h ne.
                  let e = rest.sub c h ne in
                  e ∙ without-Within puzzle cell p.size inside c h (λ z. ne (e ∙ z));
              needed = λ c h k. elim (ℕ_discrete cell c) [
                | yes here ↦ λ ne nu. ne (rest.sub c h ne ∙ cleared c here)
                | no other ↦ rest.needed c h (ground arith)
              ];
            })
        | inr more ↦
            let rest = remove_clues-Removes order puzzle later p in
            rw (more, set-set_back puzzle cell 0 0 (at puzzle cell) refl)
              (record {
                poses = rest.poses;
                sub = rest.sub;
                needed = λ c h k. elim (ℕ_discrete cell c) [
                  | yes here ↦ λ ne.
                      subst (λ (k : ℕ). ¬ HasUnique (set (remove_clues order puzzle) k 0)) here
                        (needed_later puzzle (remove_clues order puzzle) cell p.size inside p
                          rest.sub rest.poses.size (λ u. ==→≢ _ 1 more (asks.1 u)))
                  | no other ↦ rest.needed c h (ground arith)
                ];
              })
      ]
    where
      cleared : (c : ℕ) → cell ≡ c → at (set puzzle cell 0) c ≡ 0
      cleared c here = at-set puzzle cell c 0 (rw p.size (cells cell (ground arith))) ∙ ground arith

  full-Poses : Poses solution solution
  full-Poses = record {
    size = full.size;
    clues = λ c h ne. refl;
    solves = solves_of_Within solution (λ c h ne. refl);
    only = λ t comp.
        at_ext 81 t solution comp.size full.size
          (λ c h. comp.keeps c h (omega (arith, full.digits c h)));
  }

  -- From a valid full grid and any state of the random generator, minimize returns clues of that grid
  -- that only it completes, and without any one of these clues there is another completion.
  pub minimize-IsMinimal : (state : ℕ) → IsMinimal solution (minimize solution state).0
  unfolding minimize
  minimize-IsMinimal state =
      let order = (shuffle 80 (range 0 81) state).0 in
      let r = remove_clues-Removes order solution (λ c h. ground (arith, once c)) full-Poses in
      record { poses = r.poses; needed = λ c h. r.needed c h (ground (arith, once c)) }
    where
      once :
          (c : ℕ)
          → count c (shuffle 80 (range 0 81) state).0 ≡ (if leb 0 c && ltb c 81 then 1 else 0)
      once c = count-shuffle c 80 (range 0 81) state (omega arith) ∙ count-range c 0 81
