-- ===== src/Sudoku/App/Frames.antt =====
-- The rest of sudoku/app.cc: create_app, the window, drawing, the generator's notice and get_state.
-- What the renderer, the allocator and the generator answer is an input.
use Prim.Native.String.{String}
use phone.Prelude.{
  ℕ, zero, suc, ◌+◌, Bool, true, false, not, List, [], ◌∷◌, Option, none, some, if◌then◌else◌,
}
use phone.Prelude.Results.{Result, ok, error}
use phone.Sudoku.Game.{negsuc, Game}
use phone.Sudoku.Game.Create.{Board}
use phone.Sudoku.Game.Save.{decode_game}
use phone.Sudoku.App.{
  Dialog, new_view, minus_one, Outside, Layout, App, Device, board, allocate, start_game, update,
}
use phone.Sudoku.App.Input.{release, redrawn}

-- A new App, with its members' initial values; 0x3f800000 is 1 and 0x41000000 is 8.
abbrev pub new_app : Outside → App
new_app outside = record {
  game = none;
  renderer = false;
  content = record { x = 0; y = 0; w = 0; h = 0 };
  density = 0x3f800000;
  touch_slop = 0x41000000;
  layout = none;
  laid_out = false;
  view = new_view;
  resumed = false;
  dirty = true;
  pending = false;
  moved = false;
  result_shown = false;
  clock = minus_one;
  flash_start = minus_one;
  shown_second = negsuc 0;
  down_x = 0;
  down_y = 0;
  notice = "";
  outside = outside;
}

-- The saved bytes, once decode_game has answered.
unfoldable pub restored : App → Result Game → App
restored a (ok g) = record a { game = some g }
restored a (error message) = record a { notice = "The saved game could not be restored" }

-- What create_app makes of load_file's result.
unfoldable pub load_saved : Device → App → Result (List ℕ) → App
load_saved d a (error message) = record a { notice = message }
load_saved d a (ok []) = a
load_saved d a (ok (byte ∷ bytes)) =
    let (a', allocated) = allocate a a.outside.allocations in
    restored a' (decode_game d.double allocated (byte ∷ bytes))

unfoldable pub start_if_none : App → Option Game → App
start_if_none a none = start_game a
start_if_none a (some g) = a

-- The flag says whether the allocation succeeds, and the message is an error of create_generator.
unfoldable pub create_app : Device → Bool → Option String → Result (List ℕ) → Outside → Result App
create_app d false generator saved outside = error "Cannot allocate the application"
create_app d true (some message) saved outside = error message
create_app d true none saved outside =
    let a = load_saved d (new_app outside) saved in ok (start_if_none a a.game)

-- The message is an error of create_overlay_renderer.
unfoldable pub attach_window : App → Option String → App × Option String
attach_window a none = (record a { renderer = true; laid_out = false; dirty = true }, none)
attach_window a (some message) = (record a { renderer = false; laid_out = false }, some message)

unfoldable pub detach_window : App → App
detach_window a = release (record a { renderer = false; laid_out = false; clock = minus_one })

-- What the renderer answers while a frame is drawn: prepare_frame, the size that get_stats gives,
-- render_overlay and present.
pub record Frame : Type 0 where
  pub prepared : Result Bool
  pub width : ℕ
  pub height : ℕ
  pub begun : Result Bool
  pub presented : Result Bool

unfoldable pub shown_of : Device → Option Board → App → App
shown_of d none a = record a { shown_second = negsuc 0 }
shown_of d (some current) a = record a { shown_second = d.whole current.elapsed }

unfoldable pub finish_frame : Device → App → Frame → Result Bool → App × Result Bool
finish_frame d a frame (error message) = (a, error message)
finish_frame d a frame (ok false) = (a, ok false)
finish_frame d a frame (ok true) =
    let layout : Layout = record {
      width = frame.width;
      height = frame.height;
      content = a.content;
      density = a.density;
    } in
    (
      shown_of d (board a) (record a {
        layout = some layout;
        laid_out = true;
        dirty = d.not_negative a.flash_start;
      }),
      ok true,
    )

unfoldable pub render_frame : Device → App → Frame → Result Bool → App × Result Bool
render_frame d a frame (error message) = (a, error message)
render_frame d a frame (ok false) = (a, ok false)
render_frame d a frame (ok true) = finish_frame d a frame frame.presented

unfoldable pub prepare : Device → App → Frame → Result Bool → App × Result Bool
prepare d a frame (error message) = (a, error message)
prepare d a frame (ok false) = (a, ok false)
prepare d a frame (ok true) = render_frame d a frame frame.begun

unfoldable pub draw : Device → App → ℕ → Frame → App × Result Bool
draw d a now frame =
    if not a.renderer then (a, ok false) else prepare d (update d a now).0 frame frame.prepared

-- The attempts of redraw from `attempt` on, `n` of them, and how wait_frame ends (`none` is success).
unfoldable pub redraw_from :
    ℕ → ℕ → Device → App → ℕ → (ℕ → Frame) → Option String → App × Option String
redraw_from zero attempt d a now frames waited = (a, none)
redraw_from (suc n) attempt d a now frames waited =
    let (a', drawn) = draw d a now (frames attempt) in
    let again = redraw_from n (attempt + 1) d a' now frames waited in
    elim drawn [
      | error message ↦ (a', some message)
      | ok true ↦ (a', waited)
      | ok false ↦ if not a'.renderer then (a', none) else again
    ]

unfoldable pub redraw : Device → App → ℕ → (ℕ → Frame) → Option String → App × Option String
redraw d a now frames waited = redraw_from 4 0 d a now frames waited

-- check_surface with what surface_changed answers.
unfoldable pub surface_changed : App → Result Bool → App × Result Bool
surface_changed a (error message) = (a, error message)
surface_changed a (ok true) = (redrawn (release a), ok true)
surface_changed a (ok false) = (a, ok false)

unfoldable pub check_surface : App → Result Bool → App × Result Bool
check_surface a changed = if not a.renderer then (a, ok false) else surface_changed a changed

-- puzzle_ready only reads the generator's notice.
unfoldable pub on_puzzle_ready : Device → App → ℕ → App
on_puzzle_ready d a now =
    if not a.pending then a else (update d (redrawn (start_game (update d a now).0)) now).0

unfoldable pub take_notice : App → App × String
take_notice a = (record a { notice = "" }, a.notice)

-- AppState; its board is read only where there is a game.
pub record AppState : Type 0 where
  pub board : Option Board
  pub paused : Bool
  pub pending : Bool
  pub dialog : Dialog

unfoldable pub get_state : App → AppState
get_state a = record {
  board = board a;
  paused = a.view.paused;
  pending = a.pending;
  dialog = a.view.dialog;
}
