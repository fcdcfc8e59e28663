-- ===== src/Sudoku/Game/Journal.antt =====
-- The moves as recorded writes: what the undo history says about a game.
use phone.Prelude.{
  ℕ, zero, suc, ◌+◌, ◌≤◌, ◌≡◌, refl, sym, ◌∙◌, ap, true, not, ◌&&◌, Bool-cases, inl, inr, List, [],
  ◌∷◌, ◌++◌, length, length-append, at, set, set-set_back, set-same, back-append, pop_back-append,
  range, ◌==◌, if-both, subst, arith, bit_xor,
}
use mathlib.Core.List.{append_assoc}
use phone.Prelude.Masks.{bit, has, and_not}
use phone.Sudoku.Grid.{sees}
use phone.Sudoku.Game.{
  Game, Change, Move, record_change, write_digit, clear_marks, toggle_mark, set_digit, enter_at,
  put_back, put_back_all,
}

abbrev pub old : Game → ℕ → Change
old g cell = record { cell = cell; value = at g.values cell; notes = at g.notes cell }

-- A recorded write of a value and marks to a cell.
abbrev pub written : Game → ℕ → ℕ → ℕ → Game
written g cell value notes = record g {
  values = set g.values cell value;
  notes = set g.notes cell notes;
  changes = g.changes ++ old g cell ∷ [];
}

put_back-written : (g : Game) (cell value notes : ℕ) → put_back (written g cell value notes) ≡ g
unfolding put_back
put_back-written g cell value notes =
    rw (back-append g.changes (old g cell), put_back)
      (cc (
        pop_back-append g.changes (old g cell),
        set-set_back g.values cell value 0 (at g.values cell) refl,
        set-set_back g.notes cell notes 0 (at g.notes cell) refl,
      ))

-- The parts of a game that undo's loop neither reads nor writes.
abbrev pub with_rest : Game → List ℕ → ℕ → Game
with_rest g moves mistakes = record g { moves = moves; mistakes = mistakes }

put_back-with_rest :
    (g : Game) (moves : List ℕ) (mistakes : ℕ)
    → put_back (with_rest g moves mistakes) ≡ with_rest (put_back g) moves mistakes
unfolding put_back
put_back-with_rest g moves mistakes = ground arith

pub put_back_all-with_rest :
    (n : ℕ) (g : Game) (moves : List ℕ) (mistakes : ℕ)
    → put_back_all n (with_rest g moves mistakes) ≡ with_rest (put_back_all n g) moves mistakes
unfolding put_back_all
put_back_all-with_rest zero g moves mistakes = refl
put_back_all-with_rest (suc n) g moves mistakes =
    ap (put_back_all n) (put_back-with_rest g moves mistakes)
    ∙ put_back_all-with_rest n (put_back g) moves mistakes

moves-put_back : (g : Game) → (put_back g).moves ≡ g.moves
unfolding put_back
moves-put_back g = ground arith

pub moves-put_back_all : (n : ℕ) (g : Game) → (put_back_all n g).moves ≡ g.moves
unfolding put_back_all
moves-put_back_all zero g = refl
moves-put_back_all (suc n) g = moves-put_back_all n (put_back g) ∙ moves-put_back g

-- g is reached from g0 by recorded writes, the first of them to the given cell.
pub record Journal (g0 : Game) (cell : ℕ) (g : Game) : Type 0 where
  pub later : List Change
  pub list : g.changes ≡ g0.changes ++ old g0 cell ∷ later
  pub restored : put_back_all (suc (length later)) g ≡ g0

Journal-written : (g : Game) (cell value notes : ℕ) → Journal g cell (written g cell value notes)
unfolding put_back_all
Journal-written g cell value notes = record {
  later = [];
  list = refl;
  restored = put_back-written g cell value notes;
}

Journal-next :
    {g0 g : Game} {first : ℕ} (cell value notes : ℕ)
    → (j : Journal g0 first g) → Journal g0 first (written g cell value notes)
unfolding put_back_all
Journal-next {g0} {g} {first} cell value notes j = record {
  later = j.later ++ old g cell ∷ [];
  list =
      ap (λ (xs : List Change). xs ++ old g cell ∷ []) j.list
      ∙ append_assoc g0.changes (old g0 first ∷ j.later) (old g cell ∷ []);
  restored =
      let e : length (j.later ++ old g cell ∷ []) ≡ suc (length j.later) =
        omega (arith, length-append j.later (old g cell ∷ [])) in
      rw e (
        ap (put_back_all (suc (length j.later))) (put_back-written g cell value notes)
        ∙ j.restored);
}

-- A journal with at most n changes after the first.
abbrev pub JournalOf : Game → ℕ → ℕ → Game → Type 0
JournalOf g0 cell n g = (j : Journal g0 cell g) × (length j.later ≤ n)

clear_marks-Journal :
    (others : List ℕ) (cell digit : ℕ) (g0 g : Game) (first n : ℕ)
    → JournalOf g0 first n g
    → JournalOf g0 first (n + length others) (clear_marks others cell digit g)
unfolding clear_marks record_change Journal-next
clear_marks-Journal [] cell digit g0 g first n (j, h) = (j, omega arith)
clear_marks-Journal (other ∷ others) cell digit g0 g first n (j, h) =
    elim (Bool-cases (sees cell other && at g.values other == 0 && has (at g.notes other) digit)) [
      | inr miss ↦
          let (j', h') = clear_marks-Journal others cell digit g0 g first n (j, h) in
          rw miss (j', omega arith)
      | inl hit ↦
          let marks = and_not (at g.notes other) (bit digit) in
          let next = Journal-next other (at g.values other) marks j in
          let (j', h') =
            clear_marks-Journal others cell digit g0 (written g other (at g.values other) marks)
              first (n + 1) (next, omega (arith, length-append j.later (old g other ∷ []))) in
          rw hit (
            subst
              (λ (vs : List ℕ). JournalOf g0 first (n + length (other ∷ others)) (
                clear_marks others cell digit
                  (record (written g other (at g.values other) marks) { values = vs })))
              (set-same g.values other 0) (j', omega arith))
    ]

-- What entering at a cell leaves, if it changed anything: a journal, up to the mistakes.
pub record Entered (g : Game) (cell : ℕ) (g' : Game) : Type 0 where
  pub before : Game
  pub journal : JournalOf g cell 81 before
  pub mistakes : ℕ
  pub same : g' ≡ record before { mistakes = mistakes }

pub JournalOf-written :
    (g : Game) (cell value notes : ℕ) → JournalOf g cell 0 (written g cell value notes)
unfolding Journal-written
JournalOf-written g cell value notes = (Journal-written g cell value notes, omega arith)

pub JournalOf-mono :
    {g0 g : Game} {cell n m : ℕ} → n ≤ m → JournalOf g0 cell n g → JournalOf g0 cell m g
JournalOf-mono le (j, h) = (j, omega arith)

toggle_mark-Entered :
    (g : Game) (cell digit : ℕ)
    → (toggle_mark g cell digit).1.changed ≡ true
    → Entered g cell (toggle_mark g cell digit).0
unfolding toggle_mark record_change
toggle_mark-Entered g cell digit =
    let marks = bit_xor (at g.notes cell) (bit digit) in
    if-both (λ (r : Game × Move). r.1.changed ≡ true → Entered g cell r.0)
      (not (at g.values cell == 0)) (λ changed. absurd (ground arith))
      (λ changed. record {
        before = written g cell (at g.values cell) marks;
        journal = JournalOf-mono (omega arith) (JournalOf-written g cell (at g.values cell) marks);
        mistakes = g.mistakes;
        same =
            ap (λ (vs : List ℕ). record (written g cell 0 marks) { values = vs })
              (sym (set-same g.values cell 0));
      })

set_digit-Entered : (g : Game) (cell digit : ℕ) → Entered g cell (set_digit g cell digit).0
unfolding set_digit write_digit record_change
set_digit-Entered g cell digit =
    let w = written g cell digit 0 in
    if-both (λ (r : Game × Move). Entered g cell r.0) (digit == at g.puzzle.solution cell)
      (record {
        before = clear_marks (range 0 81) cell digit w;
        journal =
            clear_marks-Journal (range 0 81) cell digit g w cell 0
              (JournalOf-written g cell digit 0);
        mistakes = (clear_marks (range 0 81) cell digit w).mistakes;
        same = refl;
      })
      (record {
        before = w;
        journal = JournalOf-mono (omega arith) (JournalOf-written g cell digit 0);
        mistakes = g.mistakes + 1;
        same = refl;
      })

pub enter_at-Entered :
    (g : Game) (cell digit : ℕ)
    → (enter_at g cell digit).1.changed ≡ true
    → Entered g cell (enter_at g cell digit).0
unfolding enter_at
enter_at-Entered g cell digit =
    let P = λ (r : Game × Move). r.1.changed ≡ true → Entered g cell r.0 in
    if-both P g.notes_mode (toggle_mark-Entered g cell digit) (
      if-both P (at g.values cell == digit) (λ changed. absurd (ground arith))
        (λ changed. set_digit-Entered g cell digit))
