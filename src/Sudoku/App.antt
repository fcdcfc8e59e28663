-- ===== src/Sudoku/App.antt =====
-- The application's state and what its events share: sudoku/app.cc and the data types of
-- sudoku/view.h. Pixels and times are the bit patterns of floats and doubles.
pub mod Input
pub mod Events
pub mod Frames
pub mod Restart
pub mod Saving
mod Tests
use Prim.Native.String.{String}
use package.phone.Prelude.{
  ℕ, Bool, true, false, not, ◌&&◌, ◌||◌, List, [], ◌∷◌, Option, none, some, ◌==◌, if◌then◌else◌,
}
use package.phone.Prelude.Integers.{same_int}
use package.phone.Prelude.Results.{Result, ok, error}
use package.phone.Sudoku.Rate.{Puzzle}
use package.phone.Sudoku.Game.{ℤ, pos, negsuc, Status, Game, Move, Double, is_playing, add_time}
use package.phone.Sudoku.Game.Create.{Board, create_game, get_board}
use package.phone.Sudoku.Game.Save.{encode_game}

pub data Target : Type 0 where
  nowhere cell digit undo erase notes pause new_game resume primary secondary : Target

pub data Dialog : Type 0 where
  closed confirm_new_game lost won : Dialog

pub record Hit : Type 0 where
  pub target : Target
  pub index : ℤ

abbrev pub no_hit : Hit
no_hit = record { target = Target.nowhere; index = negsuc 0 }

pub record ViewState : Type 0 where
  pub pressed : Hit
  pub dialog : Dialog
  pub paused : Bool
  pub flash_units : ℕ
  pub flash_cell : ℤ
  pub flash_age : ℕ

-- -1 as a float, and as a double.
abbrev pub minus_one_float : ℕ
minus_one_float = 0xbf800000

abbrev pub minus_one : ℕ
minus_one = 0xbff0000000000000

abbrev pub new_view : ViewState
new_view = record {
  pressed = no_hit;
  dialog = Dialog.closed;
  paused = false;
  flash_units = 0;
  flash_cell = negsuc 0;
  flash_age = minus_one_float;
}

pub record Rect : Type 0 where
  pub x : ℕ
  pub y : ℕ
  pub w : ℕ
  pub h : ℕ

-- What layout_view computes a layout from: the layout is a function of these.
pub record Layout : Type 0 where
  pub width : ℕ
  pub height : ℕ
  pub content : Rect
  pub density : ℕ

-- How a call of save_file ends. After an error the file may still have been replaced, when only
-- flushing the directory failed.
pub data SaveOutcome : Type 0 where
  saved : SaveOutcome
  failed : String → Bool → SaveOutcome

-- What the application meets outside: the saved file (`none` before the first save), how the coming
-- calls of save_file end, what the coming calls of take_puzzle return, and whether the coming
-- allocations of a game succeed. A list that has ended stands for success, or for no puzzle.
pub record Outside : Type 0 where
  pub file : Option (List ℕ)
  pub saves : List SaveOutcome
  pub puzzles : List (Option Puzzle)
  pub allocations : List Bool

-- struct App, its renderer as whether there is one.
pub record App : Type 0 where
  pub game : Option Game
  pub renderer : Bool
  pub content : Rect
  pub density : ℕ
  pub touch_slop : ℕ
  pub layout : Option Layout
  pub laid_out : Bool
  pub view : ViewState
  pub resumed : Bool
  pub dirty : Bool
  pub pending : Bool
  pub moved : Bool
  pub result_shown : Bool
  pub clock : ℕ
  pub flash_start : ℕ
  pub shown_second : ℤ
  pub down_x : ℕ
  pub down_y : ℕ
  pub notice : String
  pub outside : Outside

-- The floating-point operations of app.cc, on bit patterns, and hit_test of view.cc.
pub record Device : Type 0 where
  pub double : Double
  -- x >= 0, a - b, int(x)
  pub not_negative : ℕ → Bool
  pub minus : ℕ → ℕ → ℕ
  pub whole : ℕ → ℤ
  -- age < kFlashSeconds, age >= kFlashSeconds, float(std::max(0., age))
  pub before_flash_end : ℕ → Bool
  pub after_flash_end : ℕ → Bool
  pub flash_age : ℕ → ℕ
  -- std::isfinite(pixels) && pixels > 0, a == b
  pub is_size : ℕ → Bool
  pub same_pixels : ℕ → ℕ → Bool
  -- Whether a point lies further than the touch slop from another.
  pub is_beyond : ℕ → ℕ → ℕ → ℕ → ℕ → Bool
  pub hit_test : Option Layout → Option Board → ViewState → ℕ → ℕ → Hit

unfoldable pub is_closed : Dialog → Bool
is_closed Dialog.closed = true
is_closed Dialog.confirm_new_game = false
is_closed Dialog.lost = false
is_closed Dialog.won = false

unfoldable pub board : App → Option Board
board a = elim a.game [ none ↦ none | some g ↦ some (get_board g) ]

unfoldable pub playing : App → Bool
playing a = elim a.game [ none ↦ false | some g ↦ is_playing (get_board g).status ]

unfoldable pub running : App → Bool
running a = playing a && a.resumed && a.renderer && not a.view.paused && is_closed a.view.dialog

unfoldable pub interactive : App → Bool
interactive a = playing a && not a.view.paused && is_closed a.view.dialog

-- The call of save_file, whose outcome is an input here: what is outside afterwards, and the message
-- of an error. Sudoku/Storage models save_file itself.
unfoldable pub write_file : Outside → List SaveOutcome → List ℕ → Outside × Option String
write_file o [] bytes = (record o { file = some bytes }, none)
write_file o (SaveOutcome.saved ∷ later) bytes =
    (record o { file = some bytes; saves = later }, none)
write_file o (SaveOutcome.failed message replaced ∷ later) bytes =
    (record o { file = if replaced then some bytes else o.file; saves = later }, some message)

unfoldable pub save_game : App → Game → App
save_game a g =
    let (outside', message) = write_file a.outside a.outside.saves (encode_game g) in
    record a { outside = outside'; notice = elim message [ none ↦ a.notice | some text ↦ text ] }

unfoldable pub save : App → App
save a = elim a.game [ none ↦ a | some g ↦ save_game a g ]

unfoldable pub take_puzzle : App → List (Option Puzzle) → App × Option Puzzle
take_puzzle a [] = (a, none)
take_puzzle a (puzzle ∷ later) =
    (record a { outside = record a.outside { puzzles = later } }, puzzle)

unfoldable pub allocate : App → List Bool → App × Bool
allocate a [] = (a, true)
allocate a (allocated ∷ later) =
    (record a { outside = record a.outside { allocations = later } }, allocated)

-- start_game with the result of create_game.
unfoldable pub begin_game : App → Result Game → App
begin_game a (error message) = record a { pending = true; notice = message }
begin_game a (ok g) = save (record a {
  game = some g;
  pending = false;
  result_shown = false;
  view = new_view;
  flash_start = minus_one;
})

-- start_game with what take_puzzle returned.
unfoldable pub start_with : App → Option Puzzle → App
start_with a none = record a { pending = true; game = none; view = new_view }
start_with a (some puzzle) =
    let (a', allocated) = allocate a a.outside.allocations in
    begin_game a' (create_game allocated puzzle)

unfoldable pub start_game : App → App
start_game a = let (a', puzzle) = take_puzzle a a.outside.puzzles in start_with a' puzzle

unfoldable pub set_dialog : App → Dialog → App
set_dialog a dialog = record a { view = record a.view { dialog = dialog } }

unfoldable pub has_progress : Option Board → Bool
has_progress none = false
has_progress (some b) = is_playing b.status && (b.can_undo || not (b.mistakes == 0))

unfoldable pub request_new_game : App → App
request_new_game a =
    if has_progress (board a) then set_dialog a Dialog.confirm_new_game else start_game a

-- The clock's part of update.
unfoldable pub advance : Device → App → ℕ → App
advance d a now =
    let run = running a in
    record a {
      game =
          if run && d.not_negative a.clock
          then elim a.game [
            | none ↦ none
            | some g ↦ some (add_time d.double g (d.minus now a.clock))
          ]
          else a.game;
      clock = if run then now else minus_one;
    }

-- The flash's part of update.
unfoldable pub flash : Device → App → ℕ → App
flash d a now =
    let age = d.minus now a.flash_start in
    if d.not_negative a.flash_start
    then record a {
      view = record a.view {
        flash_age = if d.before_flash_end age then d.flash_age age else minus_one_float;
      };
      flash_start = if d.after_flash_end age then minus_one else a.flash_start;
      dirty = true;
    }
    else a

unfoldable pub result_dialog : Status → Dialog
result_dialog Status.playing = Dialog.lost
result_dialog Status.won = Dialog.won
result_dialog Status.lost = Dialog.lost

unfoldable pub show_result : Device → App → Board → App
show_result d a current =
    if not (is_playing current.status) && not a.result_shown && d.double.is_negative a.flash_start
    then record a {
      result_shown = true;
      view = record a.view { paused = false; dialog = result_dialog current.status };
      dirty = true;
    }
    else a

unfoldable pub finish_update : Device → App → Option Board → App
finish_update d a none = a
finish_update d a (some current) =
    let a' = show_result d a current in
    record a' {
      dirty = if same_int (d.whole current.elapsed) a'.shown_second then a'.dirty else true;
    }

unfoldable pub update : Device → App → ℕ → App × Bool
update d a now =
    let b = flash d (advance d a now) now in
    let a' = finish_update d b (board b) in (a', a'.dirty && a'.renderer)
