-- ===== src/Sudoku/App/Tests.antt =====
-- The application at a concrete game.
use phone.Prelude.{
  ℕ, ◌/◌, ◌%◌, ◌^◌, ◌≡◌, refl, Bool, true, false, not, [], ◌∷◌, none, some, ltb, ◌==◌, ◌&&◌, ◌<◌,
  All, List, arith,
}
use phone.Prelude.Results.{ok}
use phone.Sudoku.Minimize.Filled.{filled}
use phone.Sudoku.Game.{pos, Double, all_of}
use phone.Sudoku.Game.Save.{encode_game, decode_game, valid_cell, valid_selected, total}
use phone.Prelude.Masks.{and_not}
use phone.Sudoku.Runs.{app_run}
use phone.Sudoku.Game.Save.RoundTrip.{IsSavable, decode_game-encode_game}
use phone.Sudoku.Game.Tests.{accepted, game}
use phone.Sudoku.App.{Target, no_hit, App, Device, Outside}
use phone.Sudoku.App.Input.{activate}
use phone.Sudoku.App.Events.{set_resumed, hit_on}
use phone.Sudoku.App.Frames.{new_app, create_app}
use phone.Sudoku.App.Restart.{create_app-set_resumed}
use phone.Sudoku.App.Saving.{IsSaved, activate-IsSaved}

-- The tests of bit patterns that decode_game makes; time stands still.
abbrev double : Double
double = record {
  is_finite = λ x. not (x / 2 ^ 52 % 2048 == 2047);
  is_positive = λ x. ltb 0 x;
  is_negative = λ x. not (ltb x (2 ^ 63));
  plus = λ a b. a;
  minimum = λ a b. a;
}

abbrev device : Device
device = record {
  double = double;
  not_negative = λ x. ltb x (2 ^ 63);
  minus = λ a b. a;
  whole = λ x. pos 0;
  before_flash_end = λ x. false;
  after_flash_end = λ x. true;
  flash_age = λ x. 0;
  is_size = λ x. true;
  same_pixels = λ a b. a == b;
  is_beyond = λ a b c d e. false;
  hit_test = λ layout board view x y. no_hit;
}

abbrev outside : Outside
outside = record { file = none; saves = []; puzzles = []; allocations = [] }

abbrev app : App
app = record (new_app outside) { game = some game; resumed = true }

abbrev are_below : ℕ → List ℕ → Bool
are_below bound [] = true
are_below bound (x ∷ xs) = ltb x bound && are_below bound xs

All-below : (bound : ℕ) (xs : List ℕ) → are_below bound xs ≡ true → All (λ (x : ℕ). x < bound) xs
All-below bound [] h = tt
All-below bound (x ∷ xs) h = (ground arith, All-below bound xs (ground arith))

game-IsSavable : IsSavable double game
unfolding total valid_cell all_of valid_selected and_not
game-IsSavable = record {
  givens_size = refl;
  solution_size = refl;
  values_size = refl;
  notes_size = refl;
  givens_small = All-below 256 game.puzzle.givens refl;
  solution_small = All-below 256 filled refl;
  values_small = All-below 256 game.values refl;
  notes_small = All-below 65536 game.notes refl;
  puzzle = accepted;
  cells = refl;
  selected = refl;
  mistakes = omega arith;
  elapsed = omega arith;
  finite = refl;
  not_negative = refl;
  move_count = omega arith;
  change_count = omega arith;
  moves = tt;
  changes = tt;
  sizes = refl;
}

decode_game-encode_game_example : decode_game double true (encode_game game) ≡ ok game
decode_game-encode_game_example = decode_game-encode_game double game game-IsSavable

paused_game : (set_resumed device app false 0).game ≡ some game
unfolding app_run
paused_game = refl

create_app-set_resumed_example :
    (bytes : List ℕ) × (b : App) × ((set_resumed device app false 0).outside.file ≡ some bytes)
    × (create_app device true none (ok bytes) outside ≡ ok b)
    × (b.game ≡ some game)
create_app-set_resumed_example =
    create_app-set_resumed device app 0 game outside refl paused_game game-IsSavable refl

activate-IsSaved_example : IsSaved app.game (activate app (hit_on Target.digit (pos 1)) 0)
activate-IsSaved_example = activate-IsSaved app (hit_on Target.digit (pos 1)) 0 refl
