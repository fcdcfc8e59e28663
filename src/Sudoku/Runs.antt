-- ===== src/Sudoku/Runs.antt =====
-- What a run of the solver, a game or the application computes through: tests unfold one of these names.
use phone.Prelude.Masks.{has, and_not, popcount}
use phone.Sudoku.Grid.{row, column, box, sees}
use phone.Sudoku.Search.{
  used, put, take_back, load_cell, load_from, load, open_mask, choose, digits_of, order_digits,
  keep_solution, finish, try_digits, proceed, search, count_solutions,
}
use phone.Sudoku.Game.{
  status, is_playing, editable, record_change, trim, finish_move, write_digit, clear_marks,
  toggle_mark, set_digit, enter_at, enter_in, enter_digit, erase_in, erase_cell, completed_units,
  unit_complete, all_of,
}
use phone.Sudoku.Game.Create.{get_board}
use phone.Sudoku.App.{
  update, advance, flash, finish_update, show_result, running, playing, board, save, save_game,
  write_file, is_closed,
}
use phone.Sudoku.App.Input.{release, redrawn}
use phone.Sudoku.App.Events.{set_resumed}

unfoldable pub solver_run : Unit {0}
unfolding has and_not popcount row column box used put take_back load_cell load_from load open_mask
    choose digits_of order_digits keep_solution finish try_digits proceed search count_solutions
solver_run = tt

unfoldable pub game_run : Unit {0}
unfolding has and_not row column box sees status is_playing editable record_change trim finish_move
    write_digit clear_marks toggle_mark set_digit enter_at enter_in enter_digit erase_in erase_cell
    completed_units unit_complete all_of
game_run = tt

unfoldable pub app_run : Unit {0}
unfolding game_run set_resumed update advance flash finish_update show_result running playing board
    get_board save save_game write_file release redrawn is_closed
app_run = tt
