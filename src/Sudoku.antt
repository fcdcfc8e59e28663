-- ===== src/Sudoku.antt =====
-- The Sudoku application, sudoku/: the grid, the solvers and the game.
pub mod Grid
pub mod Search
pub mod Minimize
pub mod Solver
pub mod Rate
pub mod Game
pub mod App
pub mod Storage
pub mod Generator
pub mod Runs
mod Tests
