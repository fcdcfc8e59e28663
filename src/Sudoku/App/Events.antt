-- ===== src/Sudoku/App/Events.antt =====
-- The events of sudoku/app.cc: touch, press, dismiss, the window's settings and set_resumed.
use phone.Prelude.{ℕ, Bool, true, false, not, ◌&&◌, ◌||◌, none, some, if◌then◌else◌}
use phone.Prelude.Integers.{same_int}
use phone.Sudoku.Game.{ℤ, pos, negsuc, select_cell}
use phone.Sudoku.App.{Target, Hit, no_hit, Rect, App, Device, is_closed, board, save, update}
use phone.Sudoku.App.Input.{release, redrawn, activate, move_selection}

pub data Touch : Type 0 where
  down_touch move_touch up_touch cancel_touch : Touch

pub data Key : Type 0 where
  digit_key erase_key undo_key notes_key pause_key new_game_key left_key right_key up_key down_key :
      Key
  enter_key : Key

unfoldable pub same_target : Target → Target → Bool
same_target Target.nowhere Target.nowhere = true
same_target Target.cell Target.cell = true
same_target Target.digit Target.digit = true
same_target Target.undo Target.undo = true
same_target Target.erase Target.erase = true
same_target Target.notes Target.notes = true
same_target Target.pause Target.pause = true
same_target Target.new_game Target.new_game = true
same_target Target.resume Target.resume = true
same_target Target.primary Target.primary = true
same_target Target.secondary Target.secondary = true
same_target _ _ = false

unfoldable pub same : Hit → Hit → Bool
same a b = same_target a.target b.target && same_int a.index b.index

unfoldable pub touch_down : App → Hit → ℕ → ℕ → App
touch_down a hit x y =
    let b = record a {
      down_x = x;
      down_y = y;
      moved = false;
      view = record a.view { pressed = no_hit };
    } in
    if same_target hit.target Target.cell
    then elim b.game [ none ↦ b | some g ↦ record b { game = some (select_cell g hit.index) } ]
    else record b { view = record b.view { pressed = hit } }

-- The switch of touch.
unfoldable pub touch_action : App → Touch → Hit → ℕ → ℕ → ℕ → App
touch_action a Touch.down_touch hit x y now = touch_down a hit x y
touch_action a Touch.move_touch hit x y now =
    if a.moved || not (same hit a.view.pressed) then release a else a
touch_action a Touch.up_touch hit x y now = release (
    if not (same_target a.view.pressed.target Target.nowhere)
      && same hit a.view.pressed
      && not a.moved
    then activate a hit now
    else a)
touch_action a Touch.cancel_touch hit x y now = release a

unfoldable pub is_down : Touch → Bool
is_down Touch.down_touch = true
is_down Touch.move_touch = false
is_down Touch.up_touch = false
is_down Touch.cancel_touch = false

unfoldable pub touch : Device → App → Touch → ℕ → ℕ → ℕ → App
touch d a0 action x y now =
    let a = (update d a0 now).0 in
    let hit = d.hit_test a.layout (board a) a.view x y in
    let far = d.is_beyond x y a.down_x a.down_y a.touch_slop in
    let b = if not (is_down action) && far then record a { moved = true } else a in
    if not a.laid_out then a else (update d (redrawn (touch_action b action hit x y now)) now).0

unfoldable pub hit_on : Target → ℤ → Hit
hit_on target index = record { target = target; index = index }

-- The switch of press, without a dialog.
unfoldable pub press_key : App → Key → ℤ → ℕ → App
press_key a Key.digit_key digit now = activate a (hit_on Target.digit digit) now
press_key a Key.erase_key digit now = activate a (hit_on Target.erase (negsuc 0)) now
press_key a Key.undo_key digit now = activate a (hit_on Target.undo (negsuc 0)) now
press_key a Key.notes_key digit now = activate a (hit_on Target.notes (negsuc 0)) now
press_key a Key.pause_key digit now = activate a (hit_on Target.pause (negsuc 0)) now
press_key a Key.new_game_key digit now = activate a (hit_on Target.new_game (negsuc 0)) now
press_key a Key.enter_key digit now =
    if a.view.paused then activate a (hit_on Target.resume (negsuc 0)) now else a
press_key a Key.left_key digit now = move_selection a (negsuc 0) (pos 0)
press_key a Key.right_key digit now = move_selection a (pos 1) (pos 0)
press_key a Key.up_key digit now = move_selection a (pos 0) (negsuc 0)
press_key a Key.down_key digit now = move_selection a (pos 0) (pos 1)

unfoldable pub is_enter : Key → Bool
is_enter Key.enter_key = true
is_enter _ = false

unfoldable pub press_open : App → Key → ℕ → App
press_open a key now = if is_enter key then activate a (hit_on Target.primary (negsuc 0)) now else a

unfoldable pub press : Device → App → Key → ℤ → ℕ → App
press d a0 key digit now =
    let a = release (update d a0 now).0 in
    let b =
      if not (is_closed a.view.dialog) then press_open a key now else press_key a key digit now in
    (update d (redrawn b) now).0

unfoldable pub dismiss : Device → App → ℕ → App × Bool
dismiss d a now = if is_closed a.view.dialog then (a, false) else (
  (update d (activate (update d a now).0 (hit_on Target.secondary (negsuc 0)) now) now).0,
  true,
)

unfoldable pub same_rect : Device → Rect → Rect → Bool
same_rect d a b =
    d.same_pixels a.x b.x && d.same_pixels a.y b.y && d.same_pixels a.w b.w && d.same_pixels a.h b.h

unfoldable pub set_content : Device → App → Rect → App
set_content d a content =
    if same_rect d content a.content then a else redrawn (release (record a { content = content }))

unfoldable pub set_density : Device → App → ℕ → App
set_density d a density =
    if not (d.is_size density) || d.same_pixels density a.density
    then a
    else redrawn (release (record a { density = density }))

unfoldable pub set_touch_slop : Device → App → ℕ → App
set_touch_slop d a pixels = if d.is_size pixels then record a { touch_slop = pixels } else a

unfoldable pub set_resumed : Device → App → Bool → ℕ → App
set_resumed d a0 resumed now =
    let a = release (record (update d a0 now).0 { resumed = resumed }) in
    let b = if not resumed then save a else a in redrawn (update d b now).0
