-- ===== src/Sudoku/App/Input.antt =====
-- activate of sudoku/app.cc and what it calls: the buttons and the selection.
use phone.Prelude.{
  ℕ, ◌+◌, ◌-◌, ◌*◌, ◌/◌, ◌%◌, Bool, true, false, not, ◌&&◌, Option, none, some, ◌==◌, if◌then◌else◌,
}
use phone.Sudoku.Game.{
  ℤ, pos, negsuc, Game, Move, enter_digit, erase_cell, undo, toggle_notes, select_cell,
}
use phone.Sudoku.App.{
  Target, Hit, no_hit, Dialog, App, is_closed, playing, interactive, save, start_game, set_dialog,
  request_new_game,
}

-- A digit that is negative is refused by enter_digit, as 0 is.
unfoldable pub digit_of : ℤ → ℕ
digit_of (pos n) = n
digit_of (negsuc n) = 0

-- enter after enter_digit, in which `cell` is the selected cell.
unfoldable pub after_entry : App → ℤ → Game → Move → ℕ → App
after_entry a cell g move now =
    let entered = record a { game = some g } in
    let flashing = record entered {
      view = record a.view { flash_units = move.completed; flash_cell = cell; flash_age = 0 };
      flash_start = now;
    } in
    if not move.changed
    then entered
    else save (if not (move.completed == 0) then flashing else entered)

unfoldable pub enter : App → Game → ℤ → ℕ → App
enter a g digit now =
    let (g', move) = enter_digit g (digit_of digit) in after_entry a g.selected g' move now

-- if (can_play && changed) save(a), once the move is made.
unfoldable pub save_if : Bool → App → App
save_if changed a = if changed then save a else a

-- The cases of activate that play, for a game that can be played.
unfoldable pub play : App → Game → Hit → ℕ → App
play a g hit now = elim hit.target [
  | Target.digit ↦ enter a g hit.index now
  | Target.undo ↦ save_if (undo g).1 (record a { game = some (undo g).0 })
  | Target.erase ↦ save_if (erase_cell g).1.changed (record a { game = some (erase_cell g).0 })
  | Target.notes ↦ save (record a { game = some (toggle_notes g) })
  | _ ↦ a
]

-- The other cases of activate.
unfoldable pub manage : App → Target → App
manage a Target.pause =
    if playing a && is_closed a.view.dialog
    then record a { view = record a.view { paused = not a.view.paused } }
    else a
manage a Target.resume = record a { view = record a.view { paused = false } }
manage a Target.new_game = if is_closed a.view.dialog then request_new_game a else a
manage a Target.primary =
    if is_closed a.view.dialog then a else start_game (set_dialog a Dialog.closed)
manage a Target.secondary = set_dialog a Dialog.closed
manage a Target.nowhere = a
manage a Target.cell = a
manage a Target.digit = a
manage a Target.undo = a
manage a Target.erase = a
manage a Target.notes = a

unfoldable pub is_play : Target → Bool
is_play Target.digit = true
is_play Target.undo = true
is_play Target.erase = true
is_play Target.notes = true
is_play Target.nowhere = false
is_play Target.cell = false
is_play Target.pause = false
is_play Target.new_game = false
is_play Target.resume = false
is_play Target.primary = false
is_play Target.secondary = false

unfoldable pub release : App → App
release a = record a { view = record a.view { pressed = no_hit } }

unfoldable pub redrawn : App → App
redrawn a = record a { dirty = true }

unfoldable pub play_or_manage : App → Option Game → Hit → ℕ → App
play_or_manage a none hit now = if is_play hit.target then a else manage a hit.target
play_or_manage a (some g) hit now =
    let played = if interactive a then play a g hit now else a in
    if is_play hit.target then played else manage a hit.target

unfoldable pub activate : App → Hit → ℕ → App
activate a hit now = redrawn (release (play_or_manage a a.game hit now))

-- (n + step + 9) % 9, for a step of at most 9 either way.
unfoldable pub wrap : ℕ → ℤ → ℕ
wrap n (pos step) = (n + step + 9) % 9
wrap n (negsuc step) = (n + 9 - (step + 1)) % 9

unfoldable pub moved_cell : ℤ → ℤ → ℤ → ℕ
moved_cell (negsuc n) dx dy = 40
moved_cell (pos cell) dx dy = wrap (cell / 9) dy * 9 + wrap (cell % 9) dx

unfoldable pub move_selection : App → ℤ → ℤ → App
move_selection a dx dy = elim a.game [
  | none ↦ a
  | some g ↦
      if a.view.paused
      then a
      else record a { game = some (select_cell g (pos (moved_cell g.selected dx dy))) }
]
