-- ===== src/Sudoku/Game/Unchanged.antt =====
-- A move that reports no change makes none.
use phone.Prelude.{
  ℕ, Bool, false, not, ◌&&◌, ◌||◌, Option, none, some, length, ◌≡◌, refl, ap, ◌∙◌, ==-self, ltb,
  ◌==◌, at, if-both, back,
}
use phone.Sudoku.Game.{
  ℤ, pos, negsuc, Game, Move, is_playing, status, editable, finish_move, toggle_mark, set_digit,
  enter_at, enter_in, enter_digit, erase_in, erase_cell, undo_last, undo,
}

abbrev pub Unchanged : Game → Game × Move → Type 0
Unchanged g r = r.1.changed ≡ false → r.0 ≡ g

finish_move-same : (g : Game) → finish_move g (length g.changes) ≡ g
unfolding finish_move
finish_move-same g = rw (==-self (length g.changes)) refl

enter_at-Unchanged : (g : Game) (cell digit : ℕ) → Unchanged g (enter_at g cell digit)
unfolding enter_at toggle_mark set_digit
enter_at-Unchanged g cell digit =
    if-both (Unchanged g) g.notes_mode
      (if-both (Unchanged g) (not (at g.values cell == 0)) (λ e. refl) (λ e. absurd cc))
      (if-both (Unchanged g) (at g.values cell == digit) (λ e. refl)
        (if-both (Unchanged g) (digit == at g.puzzle.solution cell) (λ e. absurd cc)
          (λ e. absurd cc)))

enter_in-Unchanged : (g : Game) (cell : ℤ) (digit : ℕ) → Unchanged g (enter_in g cell digit)
unfolding enter_in
enter_in-Unchanged g (negsuc n) digit = λ e. refl
enter_in-Unchanged g (pos cell) digit =
    if-both (Unchanged g) (ltb digit 1 || ltb 9 digit || not (editable g (pos cell))) (λ e. refl)
      (λ e.
        ap (λ (h : Game). finish_move h (length g.changes)) (enter_at-Unchanged g cell digit e)
        ∙ finish_move-same g)

pub enter_digit-Unchanged : (g : Game) (digit : ℕ) → Unchanged g (enter_digit g digit)
unfolding enter_digit
enter_digit-Unchanged g digit = enter_in-Unchanged g g.selected digit

erase_in-Unchanged : (g : Game) (cell : ℤ) → Unchanged g (erase_in g cell)
unfolding erase_in
erase_in-Unchanged g (negsuc n) = λ e. refl
erase_in-Unchanged g (pos cell) =
    if-both (Unchanged g)
      (not (editable g (pos cell)) || (at g.values cell == 0 && at g.notes cell == 0)) (λ e. refl)
      (λ e. absurd cc)

pub erase_cell-Unchanged : (g : Game) → Unchanged g (erase_cell g)
unfolding erase_cell
erase_cell-Unchanged g = erase_in-Unchanged g g.selected

undo_last-unchanged :
    (g : Game) (last : Option ℕ) → (undo_last g last).1 ≡ false → (undo_last g last).0 ≡ g
unfolding undo_last
undo_last-unchanged g none = λ e. refl
undo_last-unchanged g (some count) =
    if-both (λ (r : Game × Bool). r.1 ≡ false → r.0 ≡ g) (is_playing (status g)) (λ e. absurd cc)
      (λ e. refl)

pub undo_unchanged : (g : Game) → (undo g).1 ≡ false → (undo g).0 ≡ g
unfolding undo
undo_unchanged g = undo_last-unchanged g (back g.moves)
