-- ===== src/Sudoku/Solver.antt =====
-- The human-style solver of sudoku/puzzle.cc: the unit tables, Logic with place and eliminate, and
-- the loop shapes that the techniques in the modules below share.
pub mod Singles
pub mod Locked
pub mod Subsets
pub mod Wings
pub mod Chains
use package.phone.Prelude.{
  ℕ, zero, suc, ◌+◌, ◌*◌, ◌/◌, ◌%◌, bit_and, bit_or, Bool, true, false, not, ◌&&◌, ◌||◌, List, [],
  ◌∷◌, Option, none, some, at, get_or, set, range, filter, replicate, ltb, leb, ◌==◌, if◌then◌else◌,
}
use package.phone.Prelude.Masks.{bit, has, and_not, popcount}
use package.phone.Sudoku.Grid.{Grid, row, column, box, sees}

-- kTables: a unit's cells in ascending order, a cell's three units and its twenty peers.
-- Rows are units 0-8, columns 9-17, boxes 18-26.
unfoldable pub unit_cells : ℕ → List ℕ
unit_cells unit =
    filter (λ cell. row cell == unit || 9 + column cell == unit || 18 + box cell == unit)
      (range 0 81)

unfoldable pub cell_units : ℕ → List ℕ
cell_units cell = row cell ∷ (9 + column cell) ∷ (18 + box cell) ∷ []

unfoldable pub peers : ℕ → List ℕ
peers cell = filter (sees cell) (range 0 81)

-- struct Logic: the digits placed, the candidates of each cell, the reference solution if one was
-- passed, and whether every deduction agreed with it.
pub record Logic : Type 0 where
  pub values : Grid
  pub candidates : List ℕ
  pub reference : Option Grid
  pub consistent : Bool

-- for (int peer : kTables.peers[cell]) s.candidates[peer] &= ~bit(digit);
unfoldable pub clear_all : List ℕ → ℕ → List ℕ → List ℕ
clear_all [] digit candidates = candidates
clear_all (peer ∷ rest) digit candidates =
    clear_all rest digit (set candidates peer (and_not (at candidates peer) (bit digit)))

-- s.reference && (*s.reference)[cell] != digit
unfoldable pub contradicts_place : Option Grid → ℕ → ℕ → Bool
contradicts_place none cell digit = false
contradicts_place (some reference) cell digit = not (at reference cell == digit)

unfoldable pub place : Logic → ℕ → ℕ → Logic
place s cell digit = record s {
  values = set s.values cell digit;
  candidates = clear_all (peers cell) digit (set s.candidates cell 0);
  consistent = if contradicts_place s.reference cell digit then false else s.consistent;
}

-- s.reference && (*s.reference)[cell] && (mask & bit((*s.reference)[cell]))
unfoldable pub contradicts_eliminate : Option Grid → ℕ → ℕ → Bool
contradicts_eliminate none cell mask = false
contradicts_eliminate (some reference) cell mask =
    not (at reference cell == 0) && has mask (at reference cell)

-- Whether a candidate was removed.
unfoldable pub eliminate : Logic → ℕ → ℕ → Logic × Bool
eliminate s cell mask =
    let mask' = bit_and mask (at s.candidates cell) in
    if mask' == 0 then (s, false) else (
      record s {
        candidates = set s.candidates cell (and_not (at s.candidates cell) mask');
        consistent = if contradicts_eliminate s.reference cell mask' then false else s.consistent;
      },
      true,
    )

module _ {A : Type 0} (step : A → Logic → Logic × Bool) where
  -- A loop whose body returns true on progress: the rounds after that are not run.
  unfoldable pub attempt : List A → Logic → Logic × Bool
  attempt [] s = (s, false)
  attempt (x ∷ xs) s =
      let (s', progress) = step x s in
      let rest = attempt xs s' in if progress then (s', true) else rest

  -- A loop that collects progress: `progress |= …` in every round.
  unfoldable pub sweep : List A → Logic → Logic × Bool
  sweep [] s = (s, false)
  sweep (x ∷ xs) s =
      let (s', progress) = step x s in let (s'', more) = sweep xs s' in (s'', progress || more)

-- The positions whose bit is set in a combination, from a first position on, and the others.
unfoldable pub members : ℕ → List ℕ
members combination = filter (λ i. has combination (i + 1)) (range 0 9)

unfoldable pub others : ℕ → List ℕ
others combination = filter (λ i. not (has combination (i + 1))) (range 0 9)

-- The union of the members' masks; `none` if one of them is empty (valid is false).
unfoldable pub union_of : (ℕ → ℕ) → List ℕ → ℕ → Option ℕ
union_of mask [] acc = some acc
union_of mask (i ∷ is) acc =
    let rest = union_of mask is (bit_or acc (mask i)) in if mask i == 0 then none else rest

-- The positions 0-8 that pass a test, as a mask.
unfoldable pub positions : (ℕ → Bool) → List ℕ → ℕ
positions test [] = 0
positions test (i ∷ is) =
    (if test i then bit_or (bit (i + 1)) (positions test is) else positions test is)
