-- ===== src/Sudoku/Game/Undo.antt =====
-- Undo takes back exactly what the last move changed.
use phone.Prelude.{
  ℕ, suc, ◌+◌, ◌-◌, ◌≤◌, ◌<◌, ◌≡◌, refl, sym, ◌∙◌, ap, true, false, not, ◌&&◌, ◌||◌, List, [], ◌∷◌,
  ◌++◌, length, length-append, at, get_or-append, pop_back, back-append, pop_back-append, ◌==◌, ltb,
  if-both, ◌%◌, subst, arith,
}
use mathlib.Core.Path.{ap₂}
use phone.Sudoku.Game.Journal.{
  old, written, with_rest, JournalOf, Entered, moves-put_back_all, JournalOf-written,
  JournalOf-mono, enter_at-Entered, put_back_all-with_rest,
}
use phone.Sudoku.Game.{
  Game, Change, Move, ℤ, pos, Status, status, is_playing, editable, record_change, trim,
  finish_move, enter_at, enter_in, enter_digit, erase_in, erase_cell, put_back_all, cell_at,
  undo_move, undo_last, undo, maximum_moves,
}

-- The number of changes of a journal, as finish_move counts them.
counted :
    (g0 g : Game) (cell : ℕ)
    → (j : JournalOf g0 cell 81 g) → length g.changes ≡ length g0.changes + suc (length j.0.later)
counted g0 g cell (j, h) =
    ap (length {A = Change}) j.list ∙ length-append g0.changes (old g0 cell ∷ j.later)

module _ (g b : Game) (cell m : ℕ) (j : JournalOf g cell 81 b)
    (room : length g.moves < maximum_moves) where
  abbrev k : ℕ
  k = suc (length j.0.later)

  abbrev closed : Game
  closed = record b { mistakes = m; moves = g.moves ++ k ∷ [] }

  moves-before : b.moves ≡ g.moves
  moves-before =
      sym (moves-put_back_all (suc (length j.0.later)) b) ∙ ap (λ (u : Game). u.moves) j.0.restored

  finish_move-closed : finish_move (record b { mistakes = m }) (length g.changes) ≡ closed
  unfolding finish_move trim
  finish_move-closed =
      let n = counted g b cell j in
      let size : (length b.changes - length g.changes) % 65536 ≡ k = omega (arith, n, j.1) in
      let grown : (length b.changes == length g.changes) ≡ false = ground (arith, n) in
      rw (grown, size, moves-before)
        (rw (full (omega (arith, length-append g.moves (k ∷ [])))) refl)
    where
      full : length (g.moves ++ k ∷ []) ≤ 2000 → ltb 2000 (length (g.moves ++ k ∷ [])) ≡ false
      full h = ground arith

  primary : cell_at b.changes (length b.changes - k) ≡ cell
  unfolding cell_at
  primary =
      let e : length b.changes - suc (length j.0.later) ≡ length g.changes =
        omega (arith, counted g b cell j) in
      rw (e, j.0.list)
        (ap (λ (c : Change). c.cell) (get_or-append g.changes (old g cell) j.0.later _))

  undo_move-closed : undo_move closed k ≡ record g { mistakes = m; selected = pos cell }
  unfolding undo_move
  undo_move-closed =
      let again : put_back_all k (with_rest b (pop_back (g.moves ++ k ∷ [])) m)
          ≡ with_rest g g.moves m =
        put_back_all-with_rest k b (pop_back (g.moves ++ k ∷ [])) m
        ∙ ap₂ (λ (u : Game) (ms : List ℕ). with_rest u ms m) j.0.restored
            (pop_back-append g.moves k) in
      ap₂ (λ (u : Game) (c : ℕ). record u { selected = pos c }) again primary

  undo-closed :
      status closed ≡ Status.playing
      → undo closed ≡ (record g { mistakes = m; selected = pos cell }, true)
  unfolding undo undo_last undo_move is_playing
  undo-closed playing =
      rw (back-append g.moves k, undo_last)
        (rw (playing, is_playing) (ap (λ (u : Game). (u, true)) undo_move-closed))

-- The move is closed and can be taken back.
finish-undo :
    (g : Game) (cell : ℕ) (g' : Game)
    → Entered g cell g'
    → length g.moves < maximum_moves
    → status (finish_move g' (length g.changes)) ≡ Status.playing
    → undo (finish_move g' (length g.changes))
      ≡ (record g { mistakes = g'.mistakes; selected = pos cell }, true)
finish-undo g cell g' e room = rw e.same (
    rw (finish_move-closed g e.before cell e.mistakes e.journal room)
      (undo-closed g e.before cell e.mistakes e.journal room))

mistakes-finish_move : (g : Game) (n : ℕ) → (finish_move g n).mistakes ≡ g.mistakes
unfolding finish_move trim
mistakes-finish_move g n = ground arith

-- A result that undo takes back, but for the mistakes.
abbrev TakenBack : Game → ℤ → Game × Move → Type 0
TakenBack g z r =
    r.1.changed ≡ true
    → status r.0 ≡ Status.playing
    → undo r.0 ≡ (record g { mistakes = r.0.mistakes; selected = z }, true)

abbrev ErasureTakenBack : Game → ℤ → Game × Move → Type 0
ErasureTakenBack g z r =
    r.1.changed ≡ true → status r.0 ≡ Status.playing → undo r.0 ≡ (record g { selected = z }, true)

enter_in-TakenBack :
    (g : Game) (cell digit : ℕ)
    → length g.moves < maximum_moves
    → TakenBack g (pos cell) (enter_in g (pos cell) digit)
unfolding enter_in
enter_in-TakenBack g cell digit room =
    if-both (TakenBack g (pos cell)) (ltb digit 1 || ltb 9 digit || not (editable g (pos cell)))
      (λ changed. absurd (ground arith))
      (λ changed playing.
        finish-undo g cell (enter_at g cell digit).0 (enter_at-Entered g cell digit changed) room
          playing
        ∙ ap (λ (m : ℕ). (record g { mistakes = m; selected = pos cell }, true))
            (sym (mistakes-finish_move (enter_at g cell digit).0 (length g.changes))))

erase_in-TakenBack :
    (g : Game) (cell : ℕ)
    → length g.moves < maximum_moves
    → ErasureTakenBack g (pos cell) (erase_in g (pos cell))
unfolding erase_in record_change
erase_in-TakenBack g cell room =
    if-both (ErasureTakenBack g (pos cell))
      (not (editable g (pos cell)) || (at g.values cell == 0 && at g.notes cell == 0))
      (λ changed. absurd (ground arith))
      (λ changed playing. finish-undo g cell (written g cell 0 0) erased room playing)
  where
    erased : Entered g cell (written g cell 0 0)
    erased = record {
      before = written g cell 0 0;
      journal = JournalOf-mono (omega arith) (JournalOf-written g cell 0 0);
      mistakes = g.mistakes;
      same = refl;
    }

-- Undo after an entry at a selected cell that changed something and left the game in play, while the
-- move list has room, gives back the game before it, but for the mistakes, which stay counted.
pub undo-enter_digit :
    (g : Game) (cell digit : ℕ)
    → g.selected ≡ pos cell
    → length g.moves < maximum_moves
    → (enter_digit g digit).1.changed ≡ true
    → status (enter_digit g digit).0 ≡ Status.playing
    → undo (enter_digit g digit).0
      ≡ (record g { mistakes = (enter_digit g digit).0.mistakes }, true)
unfolding enter_digit
undo-enter_digit g cell digit sel room =
    subst (λ (z : ℤ). TakenBack g z (enter_in g z digit)) (sym sel)
      (enter_in-TakenBack g cell digit room)

-- Undo after an erasure at a selected cell that changed something and left the game in play, while
-- the move list has room, gives back the game before it.
pub undo-erase_cell :
    (g : Game) (cell : ℕ)
    → g.selected ≡ pos cell
    → length g.moves < maximum_moves
    → (erase_cell g).1.changed ≡ true
    → status (erase_cell g).0 ≡ Status.playing
    → undo (erase_cell g).0 ≡ (g, true)
unfolding erase_cell
undo-erase_cell g cell sel room =
    subst (λ (z : ℤ). ErasureTakenBack g z (erase_in g z)) (sym sel)
      (erase_in-TakenBack g cell room)
