-- ===== src/Sudoku/Search.antt =====
-- The backtracking solver of sudoku/puzzle.cc: Random, Search, load, search, count_solutions,
-- random_solution and minimize. The proofs are in the modules below.
pub mod Board
pub mod Choose
pub mod Finds
pub mod Explore
pub mod Load
pub mod Count
use package.phone.Prelude.{
  ℕ, zero, suc, ◌+◌, ◌-◌, ◌*◌, ◌/◌, ◌%◌, ◌^◌, bit_or, bit_xor, bit_and, Bool, true, false, not,
  List, [], ◌∷◌, Option, none, some, max, at, set, length, replicate, range, filter, ltb, leb, ◌==◌,
  if◌then◌else◌,
}
use package.phone.Prelude.Masks.{bit, has, and_not, popcount}
use package.phone.Sudoku.Grid.{Grid, row, column, box}

-- struct Random, its state a 64-bit word: the new state and the number drawn.
unfoldable pub next : ℕ → ℕ × ℕ
next state =
    let state' = (state + 0x9e3779b97f4a7c15) % 2 ^ 64 in
    let y = bit_xor state' (state' / 2 ^ 30) * 0xbf58476d1ce4e5b9 % 2 ^ 64 in
    let z = bit_xor y (y / 2 ^ 27) * 0x94d049bb133111eb % 2 ^ 64 in (state', bit_xor z (z / 2 ^ 31))

unfoldable pub below : ℕ → ℕ → ℕ × ℕ
unfolding next
below state limit = let (state', n) = next state in (state', n % limit)

unfoldable pub swap : List ℕ → ℕ → ℕ → List ℕ
swap xs i j = let x = at xs i in let y = at xs j in set (set xs i y) j x

-- for (int i = count - 1; i > 0; --i) std::swap(xs[i], xs[random.below(i + 1)])
unfoldable pub shuffle : ℕ → List ℕ → ℕ → List ℕ × ℕ
unfolding below swap
shuffle zero xs state = (xs, state)
shuffle (suc i) xs state =
    let (state', j) = below state (suc i + 1) in shuffle i (swap xs (suc i) j) state'

-- struct Search. `solution` is `none` for a null pointer, and holds the pointed-to grid otherwise;
-- `random` is `none` for a null pointer, and holds the generator's state otherwise.
pub record Search : Type 0 where
  pub rows : List ℕ
  pub columns : List ℕ
  pub boxes : List ℕ
  pub cells : Grid
  pub count : ℕ
  pub limit : ℕ
  pub solution : Option Grid
  pub random : Option ℕ

abbrev pub empty_grid : Grid
empty_grid = replicate 81 0

abbrev pub fresh : Search
fresh = record {
  rows = replicate 9 0;
  columns = replicate 9 0;
  boxes = replicate 9 0;
  cells = empty_grid;
  count = 0;
  limit = 1;
  solution = none;
  random = none;
}

-- s.rows[row(cell)] | s.columns[column(cell)] | s.boxes[box(cell)]
unfoldable pub used : Search → ℕ → ℕ
used s cell =
    bit_or (bit_or (at s.rows (row cell)) (at s.columns (column cell))) (at s.boxes (box cell))

-- The assignments that enter a digit, in load and in search.
unfoldable pub put : Search → ℕ → ℕ → Search
put s cell digit = record s {
  rows = set s.rows (row cell) (bit_or (at s.rows (row cell)) (bit digit));
  columns = set s.columns (column cell) (bit_or (at s.columns (column cell)) (bit digit));
  boxes = set s.boxes (box cell) (bit_or (at s.boxes (box cell)) (bit digit));
  cells = set s.cells cell digit;
}

-- The assignments that take a digit back in search.
unfoldable pub take_back : Search → ℕ → ℕ → Search
take_back s cell digit = record s {
  rows = set s.rows (row cell) (and_not (at s.rows (row cell)) (bit digit));
  columns = set s.columns (column cell) (and_not (at s.columns (column cell)) (bit digit));
  boxes = set s.boxes (box cell) (and_not (at s.boxes (box cell)) (bit digit));
  cells = set s.cells cell 0;
}

-- One round of load's loop; `none` is its `return false`, after which no caller reads the state.
unfoldable pub load_cell : Search → ℕ → ℕ → Option Search
load_cell s cell digit =
    if digit == 0
    then some s
    else if ltb 9 digit
    then none
    else if has (used s cell) digit
    then none
    else some (put s cell digit)

-- The rounds for the cells from `cell` on, `n` of them.
unfoldable pub load_from : ℕ → ℕ → Grid → Search → Option Search
load_from zero cell grid s = some s
load_from (suc n) cell grid s = elim (load_cell s cell (at grid cell)) [
  | none ↦ none
  | some s' ↦ load_from n (cell + 1) grid s'
]

unfoldable pub load : Search → Grid → Option Search
load s grid = load_from 81 0 grid s

-- best, best_count and best_mask; `none` is -1.
pub record Best : Type 0 where
  pub cell : Option ℕ
  pub count : ℕ
  pub mask : ℕ

abbrev pub no_best : Best
no_best = record { cell = none; count = 10; mask = 0 }

unfoldable pub open_mask : Search → ℕ → ℕ
unfolding used
open_mask s cell = and_not 0x1ff (used s cell)

-- The loop for the most constrained cell, from `cell` on for `n` rounds.
unfoldable pub choose : ℕ → ℕ → Search → Best → Best
unfolding open_mask
choose zero cell s b = b
choose (suc n) cell s b =
    let mask = open_mask s cell in
    let count = popcount 16 mask in
    let b' : Best = record { cell = some cell; count = count; mask = mask } in
    let skip = choose n (cell + 1) s b in
    let take = choose n (cell + 1) s b' in
    if not (at s.cells cell == 0)
    then skip
    else if ltb count b.count
    then (if leb count 1 then b' else take)
    else skip

-- The digits of a mask in ascending order.
unfoldable pub digits_of : ℕ → List ℕ
digits_of mask = filter (has mask) (range 1 9)

-- if (s.random) …: the shuffled digits and the generator's new state.
unfoldable pub order_digits : List ℕ → Option ℕ → List ℕ × Option ℕ
unfolding shuffle
order_digits digits none = (digits, none)
order_digits digits (some state) =
    let (digits', state') = shuffle (length digits - 1) digits state in (digits', some state')

unfoldable pub keep_solution : Option Grid → ℕ → Grid → Option Grid
keep_solution none count cells = none
keep_solution (some old) count cells = some (if count == 0 then cells else old)

-- The branch of search for a full grid.
unfoldable pub finish : Search → Search × Bool
unfolding keep_solution
finish s = (
  record s { solution = keep_solution s.solution s.count s.cells; count = s.count + 1 },
  leb s.limit (s.count + 1),
)

-- The loop over the digits of one cell; `go` is the recursive call.
unfoldable pub try_digits : (Search → Search × Bool) → ℕ → List ℕ → Search → Search × Bool
unfolding put take_back
try_digits go cell [] s = (s, false)
try_digits go cell (digit ∷ digits) s =
    let (s1, stop) = go (put s cell digit) in
    let s2 = take_back s1 cell digit in
    let rest = try_digits go cell digits s2 in if stop then (s2, true) else rest

-- What search does with the best cell: a full grid is counted, an empty cell is tried.
unfoldable pub proceed : (Search → Search × Bool) → Search → ℕ → Option ℕ → Search × Bool
proceed go s mask none = finish s
proceed go s mask (some cell) =
    let (digits, random') = order_digits (digits_of mask) s.random in
    try_digits go cell digits (record s { random = random' })

-- Returns the state and whether to stop. The fuel bounds the depth: a call enters one digit.
unfoldable pub search : ℕ → Search → Search × Bool
search zero s = (s, true)
search (suc fuel) s = let b = choose 81 0 s no_best in proceed (search fuel) s b.mask b.cell

-- One call for each empty cell and one for the full grid.
abbrev pub search_fuel : ℕ
search_fuel = 82

-- The count, and what `solution` points to afterwards. A limit below 0, which the source raises to 1,
-- is not covered; its calls have a limit of 2.
unfoldable pub count_solutions : Grid → ℕ → Option Grid → ℕ × Option Grid
count_solutions grid limit solution = elim (load fresh grid) [
  | none ↦ (0, solution)
  | some s ↦
      let (s', stop) = search search_fuel (record s { limit = max 1 limit; solution = solution }) in
      (s'.count, s'.solution)
]
