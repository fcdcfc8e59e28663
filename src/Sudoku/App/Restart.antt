-- ===== src/Sudoku/App/Restart.antt =====
-- A game survives the end of the process: what set_resumed saves, create_app restores.
use phone.Prelude.{
  ℕ, true, false, List, [], ◌∷◌, Option, none, some, ◌≡◌, refl, sym, ap, ◌∙◌, subst, inl, inr,
  Bool-cases, Option-cases, if-both,
}
use phone.Prelude.Results.{ok}
use phone.Sudoku.Game.{Game, Double}
use phone.Sudoku.Game.Create.{Board}
use phone.Sudoku.Game.Save.{encode_game, decode_game, restore, read_header, get_word}
use phone.Sudoku.Game.Save.RoundTrip.{IsSavable, decode_game-encode_game}
use phone.Sudoku.App.{
  App, Device, Outside, board, playing, running, write_file, save_game, save, allocate, advance,
  flash, show_result, finish_update, update,
}
use phone.Sudoku.App.Input.{release, redrawn}
use phone.Sudoku.App.Events.{set_resumed}
use phone.Sudoku.App.Frames.{new_app, restored, load_saved, start_if_none, create_app}

-- The game and the outside are left alone.
abbrev pub Keeps : App → App → Type 0
Keeps a b = (b.game ≡ a.game) × (b.outside ≡ a.outside)

module _ (d : Device) where
  flash-Keeps : (a : App) (now : ℕ) → Keeps a (flash d a now)
  unfolding flash
  flash-Keeps a now = if-both (Keeps a) (d.not_negative a.flash_start) (refl, refl) (refl, refl)

  show_result-Keeps : (a : App) (current : Board) → Keeps a (show_result d a current)
  unfolding show_result
  show_result-Keeps a current = if-both (Keeps a) _ (refl, refl) (refl, refl)

  finish_update-Keeps : (a : App) (current : Option Board) → Keeps a (finish_update d a current)
  unfolding finish_update
  finish_update-Keeps a none = (refl, refl)
  finish_update-Keeps a (some current) = show_result-Keeps a current

  update_outside : (a : App) (now : ℕ) → (update d a now).0.outside ≡ a.outside
  unfolding update advance
  update_outside a now =
      let moved = advance d a now in
      (finish_update-Keeps (flash d moved now) (board (flash d moved now))).1
      ∙ (flash-Keeps moved now).1

  -- An update while the clock does not run leaves the game alone.
  update_stopped : (a : App) (now : ℕ) → running a ≡ false → (update d a now).0.game ≡ a.game
  unfolding update advance
  update_stopped a now stopped =
      let moved = advance d a now in
      (finish_update-Keeps (flash d moved now) (board (flash d moved now))).0
      ∙ (flash-Keeps moved now).0
      ∙ rw stopped refl

not_resumed : (a : App) → a.resumed ≡ false → running a ≡ false
unfolding running
not_resumed a h = elim (Bool-cases (playing a)) [ inl e ↦ rw (e, h) refl | inr e ↦ rw e refl ]

pub save_game_lem : (a : App) → (save a).game ≡ a.game
unfolding save save_game
save_game_lem a = elim (Option-cases a.game) [
  | inl e ↦ rw (e, save) e
  | inr (g, e) ↦ rw (e, save) e
]

pub save-file :
    (a : App) (g : Game)
    → a.game ≡ some g
    → a.outside.saves ≡ []
    → (save a).outside.file ≡ some (encode_game g)
unfolding save save_game write_file
save-file a g e free = rw (e, save, free, write_file) refl

save-resumed : (a : App) → (save a).resumed ≡ a.resumed
unfolding save save_game
save-resumed a = elim (Option-cases a.game) [
  | inl e ↦ rw (e, save) refl
  | inr (g, e) ↦ rw (e, save) refl
]

no_bytes : (f : Double) (g : Game) → ¬ (decode_game f true [] ≡ ok g)
unfolding decode_game restore read_header get_word
no_bytes f g h = cc

start_if_none_lem :
    (a : App) (game : Option Game) (g : Game) → game ≡ some g → start_if_none a game ≡ a
unfolding start_if_none
start_if_none_lem a game g e =
    subst (λ (shown : Option Game). start_if_none a shown ≡ a) (sym e) refl

load_saved-game :
    (d : Device) (a : App) (bytes : List ℕ) (g : Game)
    → a.outside.allocations ≡ []
    → decode_game d.double true bytes ≡ ok g
    → (load_saved d a (ok bytes)).game ≡ some g
unfolding load_saved allocate restored
load_saved-game d a [] g free read = absurd (no_bytes d.double g read)
load_saved-game d a (byte ∷ bytes) g free read = rw (free, allocate, read, restored) refl

create_app-game :
    (d : Device) (o : Outside) (bytes : List ℕ) (g : Game)
    → o.allocations ≡ []
    → decode_game d.double true bytes ≡ ok g
    → (b : App) × (create_app d true none (ok bytes) o ≡ ok b) × (b.game ≡ some g)
unfolding create_app
create_app-game d o bytes g free read =
    let e = load_saved-game d (new_app o) bytes g free read in
    let b = load_saved d (new_app o) (ok bytes) in (b, ap ok (start_if_none_lem b b.game g e), e)

-- The game and the saved file after the activity is paused.
paused_file :
    (d : Device) (a : App) (now : ℕ) (g : Game)
    → a.outside.saves ≡ []
    → (set_resumed d a false now).game ≡ some g
    → (set_resumed d a false now).outside.file ≡ some (encode_game g)
unfolding set_resumed release redrawn
paused_file d a now g free shown =
    let held = release (record (update d a now).0 { resumed = false }) in
    let kept = update_stopped d (save held) now (not_resumed (save held) (save-resumed held)) in
    let mine : held.game ≡ some g = sym (save_game_lem held) ∙ sym kept ∙ shown in
    ap (λ (o : Outside). o.file) (update_outside d (save held) now)
    ∙ save-file held g mine (ap (λ (o : Outside). o.saves) (update_outside d a now) ∙ free)

-- While saves succeed, if pausing the activity leaves a game as the program keeps it, then the saved
-- file holds bytes from which create_app, where its allocations succeed and the generator starts,
-- makes an application with the same game.
pub create_app-set_resumed :
    (d : Device) (a : App) (now : ℕ) (g : Game) (o : Outside)
    → a.outside.saves ≡ []
    → (set_resumed d a false now).game ≡ some g
    → IsSavable d.double g
    → o.allocations ≡ []
    → (bytes : List ℕ) × (b : App) × ((set_resumed d a false now).outside.file ≡ some bytes)
      × (create_app d true none (ok bytes) o ≡ ok b)
      × (b.game ≡ some g)
create_app-set_resumed d a now g o free shown savable room =
    let (b, started, same) =
      create_app-game d o (encode_game g) g room (decode_game-encode_game d.double g savable) in
    (encode_game g, b, paused_file d a now g free shown, started, same)
