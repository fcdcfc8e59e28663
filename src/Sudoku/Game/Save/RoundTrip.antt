-- ===== src/Sudoku/Game/Save/RoundTrip.antt =====
-- What encode_game writes, decode_game reads back.
use phone.Prelude.{
  ℕ, zero, suc, ◌+◌, ◌*◌, ◌/◌, ◌%◌, ◌^◌, ◌≤◌, ◌<◌, ◌≡◌, refl, ap, ◌∙◌, Bool, true, false, not, List,
  [], ◌∷◌, ◌++◌, some, length, length-append, All, range, ltb, leb, ◌==◌, ==-self, subst, arith,
}
use phone.Prelude.Results.{ok}
use native.Mathlib.Nat.{pow-suc}
use mathlib.Core.List.{append_assoc, append-nil}
use phone.Sudoku.Game.{
  ℤ, pos, negsuc, Change, Game, Double, maximum_moves, maximum_mistakes, all_of,
}
use phone.Sudoku.Game.Create.{valid_puzzle}
use phone.Sudoku.Game.Save.{
  put_word, put_words, put_changes, selected_byte, flag, encode_game, get_word, get_words, Saved,
  read_header, valid_counts, read_moves, valid_change, read_changes, total, selected_of,
  valid_selected, valid_cell, valid_saved, restore, decode_game,
}

-- Each unfinished read starts where the write of the value ended.
pub get_word-put_word :
    (width x : ℕ) (rest : List ℕ)
    → x < 256 ^ width
    → get_word width (put_word width x ++ rest) ≡ some (x, rest)
unfolding get_word put_word
get_word-put_word zero x rest h = ap (λ (n : ℕ). some (n, rest)) (omega arith)
get_word-put_word (suc width) x rest h =
    rw (get_word-put_word width (x / 256) rest (omega (arith, pow-suc 256 width)))
      (ap (λ (n : ℕ). some (n, rest)) (omega arith))

pub length-put_word : (width x : ℕ) → length (put_word width x) ≡ width
unfolding put_word
length-put_word zero x = refl
length-put_word (suc width) x = ap suc (length-put_word width (x / 256))

get_words-put_words :
    (width : ℕ) (xs rest : List ℕ)
    → All (λ (x : ℕ). x < 256 ^ width) xs
    → get_words width (length xs) (put_words width xs ++ rest) ≡ some (xs, rest)
unfolding get_words put_words
get_words-put_words width [] rest h = refl
get_words-put_words width (x ∷ xs) rest h =
    rw
      (
        append_assoc (put_word width x) (put_words width xs) rest,
        get_word-put_word width x (put_words width xs ++ rest) h.0,
        get_words-put_words width xs rest h.1,
      )
      refl

length-put_words : (width : ℕ) (xs : List ℕ) → length (put_words width xs) ≡ length xs * width
unfolding put_words
length-put_words width [] = omega arith
length-put_words width (x ∷ xs) =
    length-append (put_word width x) (put_words width xs)
    ∙ omega (arith, length-put_word width x, length-put_words width xs)

abbrev pub IsMoveSize : ℕ → Type 0
IsMoveSize size = (0 < size) × (size < 256 ^ 2)

-- The change passes decode_game's tests and fits its two bytes and word.
abbrev pub IsSavableChange : List ℕ → Change → Type 0
IsSavableChange givens c =
    (valid_change givens c ≡ true) × (c.cell < 256 ^ 1) × (c.value < 256 ^ 1) × (c.notes < 256 ^ 2)

read_moves-put_words :
    (sizes rest : List ℕ)
    → All IsMoveSize sizes
    → read_moves (length sizes) (put_words 2 sizes ++ rest) ≡ some (sizes, rest)
unfolding read_moves put_words
read_moves-put_words [] rest h = refl
read_moves-put_words (size ∷ sizes) rest h =
    let nonzero : (size == 0) ≡ false = ground (arith, h.0.0) in
    rw
      (
        append_assoc (put_word 2 size) (put_words 2 sizes) rest,
        get_word-put_word 2 size (put_words 2 sizes ++ rest) h.0.1,
        nonzero,
        read_moves-put_words sizes rest h.1,
      )
      refl

-- The four bytes of one change, and what follows.
change_bytes : Change → List ℕ → List ℕ
change_bytes c rest = put_word 1 c.cell ++ (put_word 1 c.value ++ (put_word 2 c.notes ++ rest))

put_changes-cons :
    (c : Change) (changes : List Change) (rest : List ℕ)
    → put_changes (c ∷ changes) ++ rest ≡ change_bytes c (put_changes changes ++ rest)
unfolding put_changes change_bytes put_word
put_changes-cons c changes rest = refl

read_changes-put_changes :
    (givens : List ℕ) (changes : List Change) (rest : List ℕ)
    → All (IsSavableChange givens) changes
    → read_changes givens (length changes) (put_changes changes ++ rest) ≡ some (changes, rest)
unfolding read_changes change_bytes
read_changes-put_changes givens [] rest h = unfold put_changes in refl
read_changes-put_changes givens (c ∷ changes) rest h =
    let later = put_changes changes ++ rest in
    rw
      (
        put_changes-cons c changes rest,
        get_word-put_word 1 c.cell (put_word 1 c.value ++ (put_word 2 c.notes ++ later)) h.0.1,
        get_word-put_word 1 c.value (put_word 2 c.notes ++ later) h.0.2,
        get_word-put_word 2 c.notes later h.0.3,
        h.0.0,
        read_changes-put_changes givens changes rest h.1,
      )
      refl

length-put_changes : (changes : List Change) → length (put_changes changes) ≡ length changes * 4
unfolding put_changes put_word
length-put_changes [] = omega arith
length-put_changes (c ∷ changes) = omega (arith, length-put_changes changes)

get_words_array :
    (width n : ℕ) (xs rest : List ℕ)
    → length xs ≡ n
    → All (λ (x : ℕ). x < 256 ^ width) xs
    → get_words width n (put_words width xs ++ rest) ≡ some (xs, rest)
get_words_array width n xs rest size small = rw (← size) (get_words-put_words width xs rest small)

selected_byte-small : (s : ℤ) → selected_byte s < 256 ^ 1
unfolding selected_byte
selected_byte-small (pos n) = omega arith
selected_byte-small (negsuc n) = omega arith

selected_of-selected_byte : (s : ℤ) → valid_selected s ≡ true → selected_of (selected_byte s) ≡ s
unfolding selected_of selected_byte valid_selected
selected_of-selected_byte (pos n) h =
    let small : n < 81 = ground arith in
    let byte : n % 256 ≡ n = omega arith in
    let low : ltb n 128 ≡ true = ground arith in rw (byte, low) refl
selected_of-selected_byte (negsuc zero) h = refl
selected_of-selected_byte (negsuc (suc n)) h = absurd (ground arith)

-- A game as the program keeps it: arrays of their length, numbers within their types, a puzzle that
-- valid_puzzle accepts, and a journal whose move sizes add up to its changes.
pub record IsSavable (d : Double) (g : Game) : Type 0 where
  pub givens_size : length g.puzzle.givens ≡ 81
  pub solution_size : length g.puzzle.solution ≡ 81
  pub values_size : length g.values ≡ 81
  pub notes_size : length g.notes ≡ 81
  pub givens_small : All (λ (x : ℕ). x < 256 ^ 1) g.puzzle.givens
  pub solution_small : All (λ (x : ℕ). x < 256 ^ 1) g.puzzle.solution
  pub values_small : All (λ (x : ℕ). x < 256 ^ 1) g.values
  pub notes_small : All (λ (x : ℕ). x < 256 ^ 2) g.notes
  pub puzzle : valid_puzzle g.puzzle ≡ true
  pub cells : all_of (valid_cell g.puzzle.givens g.values g.notes) (range 0 81) ≡ true
  pub selected : valid_selected g.selected ≡ true
  pub mistakes : g.mistakes ≤ maximum_mistakes
  pub elapsed : g.elapsed < 256 ^ 8
  pub finite : d.is_finite g.elapsed ≡ true
  pub not_negative : d.is_negative g.elapsed ≡ false
  pub move_count : length g.moves ≤ maximum_moves + 1
  pub change_count : length g.changes ≤ (maximum_moves + 1) * 81
  pub moves : All IsMoveSize g.moves
  pub changes : All (IsSavableChange g.puzzle.givens) g.changes
  pub sizes : total g.moves ≡ length g.changes

module _ (d : Double) (g : Game) (k : IsSavable d g) where
  abbrev journal : List ℕ
  journal = put_words 2 g.moves ++ put_changes g.changes

  abbrev header : Saved
  header = record {
    puzzle = g.puzzle;
    values = g.values;
    notes = g.notes;
    selected = selected_byte g.selected;
    mistakes = g.mistakes;
    notes_mode = flag g.notes_mode;
    reserved = 0;
    elapsed = g.elapsed;
    move_count = length g.moves;
    change_count = length g.changes;
  }

  flag-small : (b : Bool) → flag b < 256 ^ 1
  unfolding flag
  flag-small true = omega arith
  flag-small false = omega arith

  read_header-encode_game : read_header (encode_game g) ≡ some (header, journal)
  unfolding read_header encode_game
  read_header-encode_game =
      let moves : length g.moves < 256 ^ 4 = omega (arith, k.move_count) in
      let changes : length g.changes < 256 ^ 4 = omega (arith, k.change_count) in
      simp append_assoc (
        rw
          (
            get_word-put_word 4 0x554b4453 _ (omega arith),
            get_word-put_word 4 1 _ (omega arith),
            get_words_array 1 81 g.puzzle.givens _ k.givens_size k.givens_small,
            get_words_array 1 81 g.puzzle.solution _ k.solution_size k.solution_small,
            get_words_array 1 81 g.values _ k.values_size k.values_small,
            get_words_array 2 81 g.notes _ k.notes_size k.notes_small,
            get_word-put_word 1 (selected_byte g.selected) _ (selected_byte-small g.selected),
            get_word-put_word 1 g.mistakes _ (omega (arith, k.mistakes)),
            get_word-put_word 1 (flag g.notes_mode) _ (flag-small g.notes_mode),
            get_word-put_word 1 0 _ (omega arith),
            get_word-put_word 8 g.elapsed _ k.elapsed,
            get_word-put_word 4 (length g.moves) _ moves,
            get_word-put_word 4 (length g.changes) _ changes,
          )
          refl)

  flag-bit : (b : Bool) → leb (flag b) 1 ≡ true
  unfolding flag
  flag-bit true = refl
  flag-bit false = refl

  flag-read : (b : Bool) → not (flag b == 0) ≡ b
  unfolding flag
  flag-read true = refl
  flag-read false = refl

  leb-true : (a b : ℕ) → a ≤ b → leb a b ≡ true
  leb-true a b h = ground arith

  counts_lem : valid_counts (length g.moves) (length g.changes) (length journal) ≡ true
  unfolding valid_counts
  counts_lem =
      let left : length journal ≡ length g.moves * 2 + length g.changes * 4 =
        length-append (put_words 2 g.moves) (put_changes g.changes)
        ∙ omega (arith, length-put_words 2 g.moves, length-put_changes g.changes) in
      ground (arith, left, k.move_count, k.change_count)

  tests_lem : valid_saved d header g.moves ≡ true
  unfolding valid_saved flag
  tests_lem =
      rw
        (
          k.sizes,
          selected_of-selected_byte g.selected k.selected,
          k.selected,
          k.finite,
          k.not_negative,
          k.puzzle,
          k.cells,
          flag-bit g.notes_mode,
          ==-self (length g.changes),
          leb-true g.mistakes maximum_mistakes k.mistakes,
        )
        refl

  read_all_changes :
      read_changes g.puzzle.givens (length g.changes) (put_changes g.changes) ≡ some (g.changes, [])
  read_all_changes =
      subst
        (λ (bytes : List ℕ).
          read_changes g.puzzle.givens (length g.changes) bytes ≡ some (g.changes, []))
        (append-nil (put_changes g.changes))
        (read_changes-put_changes g.puzzle.givens g.changes [] k.changes)

  restored : restore d (encode_game g) ≡ some g
  unfolding restore
  restored =
      rw
        (
          read_header-encode_game,
          counts_lem,
          read_moves-put_words g.moves (put_changes g.changes) k.moves,
          read_all_changes,
          tests_lem,
          selected_of-selected_byte g.selected k.selected,
          flag-read g.notes_mode,
        )
        refl

  -- Writing a game as the program keeps it and reading the bytes back gives the same game, when its
  -- allocation succeeds.
  pub decode_game-encode_game : decode_game d true (encode_game g) ≡ ok g
  unfolding decode_game
  decode_game-encode_game = rw (restored, decode_game) refl
