-- ===== src/Lib.antt =====
-- Verification of the phone apps: the Sudoku app of sudoku/, the set-up of Chromecasts of
-- chromecast/, and the saved state, the gestures and the controls of native_buttons/.
--
-- The Sudoku app keeps one game in play. sudoku/puzzle.cc makes puzzles: a backtracking search fills a random
-- grid, minimize takes clues away while the solution stays unique, and a solver that works as a human
-- does rates what is left; puzzles rated below Extreme are thrown away. sudoku/game.cc holds a game on
-- such a puzzle: its digits, pencil marks, mistakes and a journal of changes that undo reads, and its
-- form in the saved file. sudoku/storage.cc reads and replaces that file. sudoku/app.cc turns input
-- into moves, runs the clock and saves the game. sudoku/generator.cc keeps the next puzzle ready.
--
-- The other app moves a Chromecast to a Wi-Fi network. chromecast/discovery.cc finds the devices of a
-- network, chromecast/protocol.cc reads their answers with chromecast/json.cc and encrypts the
-- password, and chromecast/session.cc runs the set-up on a thread of its own: calls leave a command
-- for it, the latest of which replaces the one before, and a join ends with success only once the
-- device was found on its new network.
--
-- The files:
--   Prelude            Boolean tests, lists and masks over the native natural numbers
--   Sudoku/Grid        grids of 81 cells; rows, columns, boxes; what a completion of clues is
--   Sudoku/Search      sudoku/puzzle.cc: Random, Search, load, search, count_solutions
--   Sudoku/Minimize    sudoku/puzzle.cc: random_solution and minimize
--   Sudoku/Solver      sudoku/puzzle.cc: Logic, place, eliminate and the techniques: Solver/Singles,
--                      Solver/Locked, Solver/Subsets (with fish), Solver/Wings, Solver/Chains
--   Sudoku/Rate        sudoku/puzzle.cc: rate, is_extreme and generate_puzzle
--   Sudoku/Game        sudoku/game.cc: the game's state, the moves and undo
--   Sudoku/Game/Create sudoku/game.cc: valid_solution, valid_puzzle, create_game and get_board
--   Sudoku/Game/Save   sudoku/game.cc: encode_game and decode_game
--   Sudoku/App         sudoku/app.cc: the application's state, saving, starting a game and update;
--                      App/Input: activate; App/Events: touch, press, set_resumed; App/Frames:
--                      create_app, the window and drawing
--   Sudoku/Storage     sudoku/storage.cc: load_file and save_file over what the system calls answer
--   Sudoku/Generator   sudoku/generator.cc: its thread and the main thread as interleaved steps
--   NativeButtons/State  native_buttons/state.cc: encode_state and decode_state
--   NativeButtons/Gestures  native_buttons/gestures.cc: pinches and touches from motion events
--   NativeButtons/Controls  native_buttons/controls.cc: hit_test and safe_area
--   Chromecast/Json    chromecast/json.cc: the tokens; Json/Parser: values, the lookups and quote
--   Chromecast/Protocol  chromecast/protocol.cc: parse_info, parse_configured and states;
--                      Protocol/Scanning: parse_scan; Protocol/Passwords: encrypt_password and the
--                      checks; Protocol/Wrapping: wrap_pkcs1; Protocol/Body: connect_body
--   Chromecast/Discovery  chromecast/discovery.cc: query_mdns and the hosts of sweep_subnet
--   Chromecast/Session/Known  chromecast/session.cc: the known devices and their file
--   Chromecast/Session/Commands  chromecast/session.cc: send, destroy and the loop of run
--   Chromecast/Session/World  the worker's state, and the calls of the phone and the network
--   Chromecast/Session/Devices  chromecast/session.cc: read_info, find_devices, network_saved and
--                      what the commands share
--   Chromecast/Session/Finish, Chromecast/Session/Moved and Chromecast/Session/Join
--                      chromecast/session.cc: finish, the search of run_join, and run_join
--   Chromecast/Session/Search, Chromecast/Session/Hotspot and Chromecast/Session/Open
--                      chromecast/session.cc: run_search, join_hotspot, and open with scan
-- The other modules below these hold proofs, and are named for what they prove.
--
-- The state is passed explicitly: an operation takes the record and returns it, with the function's
-- result beside it. An array of the source is a list, its indices and digits are natural numbers, and
-- a write outside a list is no write. A null pointer or -1 for a cell is `none`, but the game's
-- selected cell, which is -1 for none, is an integer. A 64-bit word of the random generator is a
-- natural number below 2 ^ 64, with every product and sum reduced. A number of type double is its bit
-- pattern, and its arithmetic is a parameter (Double, and Device for the application, which also
-- has the view's hit_test). What the renderer, the allocator, the saving of a file and the generator
-- answer to the application is an input (Outside, Frame). A part of the session's program takes the
-- session and the state of the phone and the network, and returns both (Run); its calls of them, on
-- a state of any type, are a parameter (Phone), as are mbedtls (Crypto) and strtod (Numbers).
--
-- Loops over a range or a list are structural recursion. The search is recursion on its depth: a call
-- enters one digit, so 82 calls are enough for 81 cells, and the theorems on it hold for the program
-- as it runs, with this fuel. The generator's loop runs along the list of answers that its
-- cancellation poll gives. The techniques are searched in the order of the source. The loops of rate
-- and of the chain search run on fuel: one round for each digit placed or candidate removed
-- (81 * 9 + 1), and one visit for each node (2 * 729 + 1). The parser of JSON has two units of fuel
-- for each byte of its text and one more, and it needs no more. A loop of the session that ends at a
-- deadline takes the number of its rounds before that, and the theorems are about every such number.
--
-- Not modelled: drawing and layout, the Android glue, sockets and TLS, the start of a Chromecast
-- session and the copies of its snapshot, the screens of chromecast/app.cc, and the other programs of
-- the repository (the rest of native_buttons, gemm, and the renderer of common/gpu).
pub mod Chromecast
pub mod NativeButtons
pub mod Prelude
pub mod Sudoku
