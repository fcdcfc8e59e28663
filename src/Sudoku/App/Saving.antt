-- ===== src/Sudoku/App/Saving.antt =====
-- activate saves every game that it changes.
use phone.Prelude.{
  ℕ, Bool, true, false, not, List, [], ◌∷◌, Option, none, some, ◌≡◌, ◌⊎◌, refl, sym, ap, ◌∙◌, inl,
  inr, ◌&&◌, ◌==◌, Bool-cases, if-both,
}
use phone.Prelude.Results.{Result, ok, error}
use phone.Sudoku.Game.{ℤ, Game, Move, enter_digit, erase_cell, undo, toggle_notes}
use phone.Sudoku.Game.Unchanged.{enter_digit-Unchanged, erase_cell-Unchanged, undo_unchanged}
use phone.Sudoku.Game.Create.{create_game}
use phone.Sudoku.Game.Save.{encode_game}
use phone.Sudoku.Rate.{Puzzle}
use phone.Sudoku.App.{
  Target, Hit, Dialog, App, save, start_game, start_with, begin_game, take_puzzle, allocate,
  set_dialog, request_new_game, has_progress, board, playing, interactive, is_closed,
}
use phone.Sudoku.App.Restart.{save_game_lem, save-file}
use phone.Sudoku.App.Input.{
  digit_of, is_play, release, redrawn, after_entry, enter, save_if, play, manage, play_or_manage,
  activate,
}

-- The game shown is the one before, or none, or the one whose bytes are in the file.
abbrev pub IsSaved : Option Game → App → Type 0
IsSaved before a =
    (a.game ≡ before)
    ⊎ ((a.game ≡ none) ⊎ ((g : Game) × (a.game ≡ some g) × (a.outside.file ≡ some (encode_game g))))

save-IsSaved :
    (before : Option Game) (a : App) (g : Game)
    → a.game ≡ some g
    → a.outside.saves ≡ []
    → IsSaved before (save a)
save-IsSaved before a g e free = inr (inr (g, save_game_lem a ∙ e, save-file a g e free))

begin_game-IsSaved :
    (a : App) (made : Result Game) → a.outside.saves ≡ [] → IsSaved a.game (begin_game a made)
unfolding begin_game
begin_game-IsSaved a (error message) free = inl refl
begin_game-IsSaved a (ok g) free = save-IsSaved a.game _ g refl free

start_with-IsSaved :
    (a : App) (puzzle : Option Puzzle) → a.outside.saves ≡ [] → IsSaved a.game (start_with a puzzle)
unfolding start_with allocate
start_with-IsSaved a none free = inr (inl refl)
start_with-IsSaved a (some puzzle) free = allocated a.outside.allocations
  where
    allocated :
        (coming : List Bool)
        → IsSaved a.game
            (begin_game (allocate a coming).0 (create_game (allocate a coming).1 puzzle))
    allocated [] = begin_game-IsSaved a _ free
    allocated (b ∷ later) =
        begin_game-IsSaved (record a { outside = record a.outside { allocations = later } }) _ free

start_game-IsSaved : (a : App) → a.outside.saves ≡ [] → IsSaved a.game (start_game a)
unfolding start_game take_puzzle
start_game-IsSaved a free = taken a.outside.puzzles
  where
    taken :
        (coming : List (Option Puzzle))
        → IsSaved a.game (start_with (take_puzzle a coming).0 (take_puzzle a coming).1)
    taken [] = start_with-IsSaved a none free
    taken (p ∷ later) =
        start_with-IsSaved (record a { outside = record a.outside { puzzles = later } }) p free

request_new_game-IsSaved : (a : App) → a.outside.saves ≡ [] → IsSaved a.game (request_new_game a)
unfolding request_new_game set_dialog
request_new_game-IsSaved a free =
    if-both (IsSaved a.game) (has_progress (board a)) (inl refl) (start_game-IsSaved a free)

manage-IsSaved :
    (a : App) (target : Target) → a.outside.saves ≡ [] → IsSaved a.game (manage a target)
unfolding manage set_dialog
manage-IsSaved a Target.pause free =
    if-both (IsSaved a.game) (playing a && is_closed a.view.dialog) (inl refl) (inl refl)
manage-IsSaved a Target.resume free = inl refl
manage-IsSaved a Target.new_game free =
    if-both (IsSaved a.game) (is_closed a.view.dialog) (request_new_game-IsSaved a free) (inl refl)
manage-IsSaved a Target.primary free =
    if-both (IsSaved a.game) (is_closed a.view.dialog) (inl refl)
      (start_game-IsSaved (set_dialog a Dialog.closed) free)
manage-IsSaved a Target.secondary free = inl refl
manage-IsSaved a Target.nowhere free = inl refl
manage-IsSaved a Target.cell free = inl refl
manage-IsSaved a Target.digit free = inl refl
manage-IsSaved a Target.undo free = inl refl
manage-IsSaved a Target.erase free = inl refl
manage-IsSaved a Target.notes free = inl refl

after_entry-IsSaved :
    (a : App) (g : Game) (cell : ℤ) (r : Game × Move) (now : ℕ)
    → a.game ≡ some g
    → a.outside.saves ≡ []
    → (r.1.changed ≡ false → r.0 ≡ g)
    → IsSaved a.game (after_entry a cell r.0 r.1 now)
unfolding after_entry
after_entry-IsSaved a g cell r now shown free same = elim (Bool-cases r.1.changed) [
  | inl changed ↦ rw changed (
      if-both (λ (b : App). IsSaved a.game (save b)) (not (r.1.completed == 0))
        (save-IsSaved a.game _ r.0 refl free) (save-IsSaved a.game _ r.0 refl free))
  | inr idle ↦ rw idle (inl (ap some (same idle) ∙ sym shown))
]

save_if-IsSaved :
    (a : App) (g : Game) (r : Game) (changed : Bool)
    → a.game ≡ some g
    → a.outside.saves ≡ []
    → (changed ≡ false → r ≡ g)
    → IsSaved a.game (save_if changed (record a { game = some r }))
unfolding save_if
save_if-IsSaved a g r true shown free same = save-IsSaved a.game _ r refl free
save_if-IsSaved a g r false shown free same = inl (ap some (same refl) ∙ sym shown)

play-IsSaved :
    (a : App) (g : Game) (target : Target) (index : ℤ) (now : ℕ)
    → a.game ≡ some g
    → a.outside.saves ≡ []
    → IsSaved a.game (play a g (record { target = target; index = index }) now)
unfolding play enter
play-IsSaved a g Target.digit index now shown free =
    after_entry-IsSaved a g g.selected (enter_digit g (digit_of index)) now shown free
      (enter_digit-Unchanged g (digit_of index))
play-IsSaved a g Target.undo index now shown free =
    save_if-IsSaved a g (undo g).0 (undo g).1 shown free (undo_unchanged g)
play-IsSaved a g Target.erase index now shown free =
    save_if-IsSaved a g (erase_cell g).0 (erase_cell g).1.changed shown free
      (erase_cell-Unchanged g)
play-IsSaved a g Target.notes index now shown free =
    save-IsSaved a.game _ (toggle_notes g) refl free
play-IsSaved a g Target.nowhere index now shown free = inl refl
play-IsSaved a g Target.cell index now shown free = inl refl
play-IsSaved a g Target.pause index now shown free = inl refl
play-IsSaved a g Target.new_game index now shown free = inl refl
play-IsSaved a g Target.resume index now shown free = inl refl
play-IsSaved a g Target.primary index now shown free = inl refl
play-IsSaved a g Target.secondary index now shown free = inl refl

play_or_manage-IsSaved :
    (a : App) (game : Option Game) (hit : Hit) (now : ℕ)
    → a.game ≡ game
    → a.outside.saves ≡ []
    → IsSaved a.game (play_or_manage a game hit now)
unfolding play_or_manage
play_or_manage-IsSaved a none hit now shown free =
    if-both (IsSaved a.game) (is_play hit.target) (inl refl) (manage-IsSaved a hit.target free)
play_or_manage-IsSaved a (some g) hit now shown free =
    if-both (IsSaved a.game) (is_play hit.target)
      (if-both (IsSaved a.game) (interactive a)
        (play-IsSaved a g hit.target hit.index now shown free) (inl refl))
      (manage-IsSaved a hit.target free)

-- While saves succeed, after activate on any target the application shows the game of before, or no
-- game, or the game whose encoding the saved file holds.
pub activate-IsSaved :
    (a : App) (hit : Hit) (now : ℕ) → a.outside.saves ≡ [] → IsSaved a.game (activate a hit now)
unfolding activate release redrawn
activate-IsSaved a hit now free = play_or_manage-IsSaved a a.game hit now refl free
