-- ===== src/Sudoku/Grid.antt =====
-- Grids and their units: sudoku/puzzle.h and the cell arithmetic of sudoku/puzzle.cc.
use phone.Prelude.{
  ℕ, ◌+◌, ◌*◌, ◌/◌, ◌%◌, ◌≤◌, ◌<◌, ◌≡◌, sym, ◌∙◌, ◌≢◌, ◌⊎◌, Bool, true, not, ◌&&◌, ◌||◌, List,
}
use phone.Prelude.{◌==◌, length, at, arith}

-- std::array<std::uint8_t, 81>: digits 1-9 in row-major order, zero for an empty cell.
abbrev pub Grid : Type 0
Grid = List ℕ

unfoldable pub row : ℕ → ℕ
row cell = cell / 9

unfoldable pub column : ℕ → ℕ
column cell = cell % 9

unfoldable pub box : ℕ → ℕ
box cell = cell / 27 * 3 + cell % 9 / 3

unfoldable pub sees : ℕ → ℕ → Bool
unfolding row column box
sees a b = not (a == b) && (row a == row b || column a == column b || box a == box b)

pub row-lt : (cell : ℕ) → cell < 81 → row cell < 9
unfolding row
row-lt cell h = omega arith

pub column-lt : (cell : ℕ) → column cell < 9
unfolding column
column-lt cell = omega arith

pub box-lt : (cell : ℕ) → cell < 81 → box cell < 9
unfolding box
box-lt cell h = omega arith

pub sees_cases :
    (a b : ℕ)
    → sees a b ≡ true
    → (a ≢ b) × ((row a ≡ row b) ⊎ (column a ≡ column b) ⊎ (box a ≡ box b))
unfolding sees
sees_cases a b h = ground arith

pub sees_of :
    (a b : ℕ) → a ≢ b → (row a ≡ row b) ⊎ (column a ≡ column b) ⊎ (box a ≡ box b) → sees a b ≡ true
unfolding sees
sees_of a b ne h = ground arith

pub sees_comm : (a b : ℕ) → sees a b ≡ true → sees b a ≡ true
sees_comm a b h = ground (arith, sees_cases a b, sees_of b a)

-- What a puzzle asks for: a full grid that keeps the clues and repeats no digit in a unit.
pub record IsCompletion (clues t : Grid) : Type 0 where
  pub size : length t ≡ 81
  pub digits : (c : ℕ) → c < 81 → (0 < at t c) × (at t c ≤ 9)
  pub keeps : (c : ℕ) → c < 81 → at clues c ≢ 0 → at t c ≡ at clues c
  pub proper : (a b : ℕ) → a < 81 → b < 81 → sees a b ≡ true → at t a ≢ at t b

-- Fewer clues, more completions.
pub IsCompletion_mono :
    {clues fewer t : Grid}
    → ((c : ℕ) → c < 81 → at fewer c ≢ 0 → at fewer c ≡ at clues c)
    → IsCompletion clues t
    → IsCompletion fewer t
IsCompletion_mono {clues} {fewer} {t} sub comp = record {
  size = comp.size;
  digits = comp.digits;
  keeps = λ c h ne. ground (arith, sub c h ne, comp.keeps c h);
  proper = comp.proper;
}

-- A grid with exactly one completion.
pub record HasUnique (grid : Grid) : Type 0 where
  pub solution : Grid
  pub solves : IsCompletion grid solution
  pub only : (t : Grid) → IsCompletion grid t → t ≡ solution

-- Taking clues away adds completions, so a grid is not unique if one with more clues, and with a
-- completion, is not.
pub HasUnique-mono :
    {clues fewer : Grid} (t : Grid)
    → ((c : ℕ) → c < 81 → at fewer c ≢ 0 → at fewer c ≡ at clues c)
    → IsCompletion clues t
    → HasUnique fewer
    → HasUnique clues
HasUnique-mono t sub comp h = record {
  solution = t;
  solves = comp;
  only = λ u other.
      h.only u (IsCompletion_mono sub other) ∙ sym (h.only t (IsCompletion_mono sub comp));
}
