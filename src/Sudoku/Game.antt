-- ===== src/Sudoku/Game.antt =====
-- A game in play: sudoku/game.h and the state and moves of sudoku/game.cc.
pub mod Create
pub mod Journal
pub mod Save
pub mod Undo
pub mod Unchanged
pub mod Tests
pub use package.phone.Prelude.Integers.{ℤ, pos, negsuc}
use package.phone.Prelude.{
  ℕ, zero, suc, ◌+◌, ◌-◌, ◌*◌, ◌/◌, ◌%◌, ◌^◌, bit_or, bit_xor, Bool, true, false, not, ◌&&◌, ◌||◌,
  List, [], ◌∷◌, ◌++◌, Option, none, some, length, at, set, range, replicate, drop, get_or, back,
  pop_back, ltb, leb, ◌==◌, list_eq, if◌then◌else◌,
}
use package.phone.Prelude.Masks.{bit, has, and_not}
use package.phone.Sudoku.Grid.{Grid, row, column, box, sees}
use package.phone.Sudoku.Rate.{Puzzle}

abbrev pub maximum_mistakes : ℕ
maximum_mistakes = 3

abbrev pub maximum_moves : ℕ
maximum_moves = 2000

pub data Status : Type 0 where
  playing won lost : Status

-- A cell's state before a move changed it.
pub record Change : Type 0 where
  pub cell : ℕ
  pub value : ℕ
  pub notes : ℕ

-- struct Game. `elapsed` is the bit pattern of the double; `changes` and `moves` are oldest first.
pub record Game : Type 0 where
  pub puzzle : Puzzle
  pub values : Grid
  pub notes : List ℕ
  pub selected : ℤ
  pub mistakes : ℕ
  pub notes_mode : Bool
  pub elapsed : ℕ
  pub changes : List Change
  pub moves : List ℕ

pub record Move : Type 0 where
  pub changed : Bool
  pub mistake : Bool
  pub completed : ℕ

abbrev pub no_move : Move
no_move = record { changed = false; mistake = false; completed = 0 }

unfoldable pub status : Game → Status
status g =
    if leb maximum_mistakes g.mistakes
    then Status.lost
    else if list_eq g.values g.puzzle.solution
    then Status.won
    else Status.playing

unfoldable pub is_playing : Status → Bool
is_playing Status.playing = true
is_playing Status.won = false
is_playing Status.lost = false

unfoldable pub editable : Game → ℤ → Bool
editable g (negsuc n) = false
editable g (pos cell) =
    ltb cell 81
    && is_playing (status g)
    && at g.puzzle.givens cell == 0
    && not (at g.values cell == at g.puzzle.solution cell)

unfoldable pub record_change : Game → ℕ → Game
record_change g cell = record g {
  changes =
      g.changes ++ record { cell = cell; value = at g.values cell; notes = at g.notes cell } ∷ [];
}

unfoldable pub front : List ℕ → ℕ
front [] = 0
front (size ∷ sizes) = size

-- Over the limit, the oldest move and its changes are dropped.
unfoldable pub trim : Game → Game
unfolding front
trim g =
    if ltb maximum_moves (length g.moves)
    then record g { changes = drop (front g.moves) g.changes; moves = drop 1 g.moves }
    else g

unfoldable pub finish_move : Game → ℕ → Game
finish_move g first =
    if length g.changes == first
    then g
    else trim (record g { moves = g.moves ++ ((length g.changes - first) % 2 ^ 16) ∷ [] })

-- Cell i of a unit, in the order of unit_complete.
unfoldable pub unit_cell : ℕ → ℕ → ℕ
unit_cell unit i =
    if ltb unit 9
    then unit * 9 + i
    else if ltb unit 18
    then i * 9 + unit - 9
    else (unit - 18) / 3 * 27 + (unit - 18) % 3 * 3 + i / 3 * 9 + i % 3

unfoldable pub all_of : (ℕ → Bool) → List ℕ → Bool
all_of test [] = true
all_of test (i ∷ is) = test i && all_of test is

unfoldable pub unit_complete : Game → ℕ → Bool
unfolding unit_cell all_of
unit_complete g unit =
    all_of (λ i. at g.values (unit_cell unit i) == at g.puzzle.solution (unit_cell unit i))
      (range 0 9)

-- The bits of the units completed by an entry: for (int unit : units) …
unfoldable pub completed_units : Game → List ℕ → ℕ → ℕ
completed_units g [] completed = completed
completed_units g (unit ∷ units) completed =
    completed_units g units
      (if unit_complete g unit then bit_or completed (2 ^ unit) else completed)

unfoldable pub select_cell : Game → ℤ → Game
select_cell g (pos cell) = if ltb cell 81 then record g { selected = pos cell } else g
select_cell g (negsuc zero) = record g { selected = negsuc 0 }
select_cell g (negsuc (suc n)) = g

-- The peers' marks of a digit that was placed correctly.
unfoldable pub clear_marks : List ℕ → ℕ → ℕ → Game → Game
clear_marks [] cell digit g = g
clear_marks (other ∷ others) cell digit g =
    let hit = sees cell other && at g.values other == 0 && has (at g.notes other) digit in
    let g' = record_change g other in
    clear_marks others cell digit (
      if hit
      then record g' { notes = set g'.notes other (and_not (at g'.notes other) (bit digit)) }
      else g)

-- enter_digit in notes mode, for an editable cell.
unfoldable pub toggle_mark : Game → ℕ → ℕ → Game × Move
toggle_mark g cell digit =
    if not (at g.values cell == 0)
    then (g, no_move)
    else let g' = record_change g cell in
      (
        record g' { notes = set g'.notes cell (bit_xor (at g'.notes cell) (bit digit)) },
        record no_move { changed = true },
      )

-- The digit written over the cell.
unfoldable pub write_digit : Game → ℕ → ℕ → Game
write_digit g cell digit =
    let g' = record_change g cell in
    record g' { values = set g'.values cell digit; notes = set g'.notes cell 0 }

-- enter_digit outside notes mode, for an editable cell that does not hold the digit.
unfoldable pub set_digit : Game → ℕ → ℕ → Game × Move
set_digit g cell digit =
    let g' = write_digit g cell digit in
    let g'' = clear_marks (range 0 81) cell digit g' in
    if digit == at g.puzzle.solution cell
    then (
      g'',
      record {
        changed = true;
        mistake = false;
        completed = completed_units g'' (row cell ∷ (9 + column cell) ∷ (18 + box cell) ∷ []) 0;
      },
    )
    else (
      record g' { mistakes = g'.mistakes + 1 },
      record { changed = true; mistake = true; completed = 0 },
    )

unfoldable pub enter_at : Game → ℕ → ℕ → Game × Move
enter_at g cell digit =
    if g.notes_mode
    then toggle_mark g cell digit
    else if at g.values cell == digit
    then (g, no_move)
    else set_digit g cell digit

-- enter_digit at the selected cell.
unfoldable pub enter_in : Game → ℤ → ℕ → Game × Move
enter_in g (negsuc n) digit = (g, no_move)
enter_in g (pos cell) digit =
    if ltb digit 1 || ltb 9 digit || not (editable g (pos cell))
    then (g, no_move)
    else let (g', move) = enter_at g cell digit in (finish_move g' (length g.changes), move)

-- A negative digit is refused as 0 is.
unfoldable pub enter_digit : Game → ℕ → Game × Move
enter_digit g digit = enter_in g g.selected digit

unfoldable pub erase_in : Game → ℤ → Game × Move
erase_in g (negsuc n) = (g, no_move)
erase_in g (pos cell) =
    if not (editable g (pos cell)) || (at g.values cell == 0 && at g.notes cell == 0)
    then (g, no_move)
    else let g' = record_change g cell in
      let g'' = record g' { values = set g'.values cell 0; notes = set g'.notes cell 0 } in
      (finish_move g'' (length g.changes), record no_move { changed = true })

unfoldable pub erase_cell : Game → Game × Move
erase_cell g = erase_in g g.selected

-- One round of undo's loop: the newest change is taken from the list and put back.
unfoldable pub put_back : Game → Game
put_back g = elim (back g.changes) [
  | none ↦ g
  | some change ↦ record g {
    changes = pop_back g.changes;
    values = set g.values change.cell change.value;
    notes = set g.notes change.cell change.notes;
  }
]

unfoldable pub put_back_all : ℕ → Game → Game
put_back_all zero g = g
put_back_all (suc n) g = put_back_all n (put_back g)

-- The cell of the change at a place in the list; undo's place is in range in a valid game.
unfoldable pub cell_at : List Change → ℕ → ℕ
cell_at changes i = (get_or changes i (record { cell = 0; value = 0; notes = 0 })).cell

-- Undo of a move of `count` changes.
unfoldable pub undo_move : Game → ℕ → Game
undo_move g count =
    let primary = cell_at g.changes (length g.changes - count) in
    let g' = put_back_all count (record g { moves = pop_back g.moves }) in
    record g' { selected = pos primary }

unfoldable pub undo_last : Game → Option ℕ → Game × Bool
undo_last g none = (g, false)
undo_last g (some count) = if is_playing (status g) then (undo_move g count, true) else (g, false)

unfoldable pub undo : Game → Game × Bool
undo g = undo_last g (back g.moves)

unfoldable pub toggle_notes : Game → Game
toggle_notes g = record g { notes_mode = not g.notes_mode }

-- The floating-point operations that add_time and decode_game use, on bit patterns of doubles.
pub record Double : Type 0 where
  pub is_finite : ℕ → Bool
  pub is_positive : ℕ → Bool
  pub is_negative : ℕ → Bool
  pub plus : ℕ → ℕ → ℕ
  pub minimum : ℕ → ℕ → ℕ

-- 359999.
abbrev pub maximum_elapsed : ℕ
maximum_elapsed = 0x4115f8fc00000000

unfoldable pub add_time : Double → Game → ℕ → Game
add_time d g seconds =
    if d.is_finite seconds && d.is_positive seconds && is_playing (status g)
    then record g { elapsed = d.minimum (d.plus g.elapsed seconds) maximum_elapsed }
    else g
