-- ===== src/Sudoku/Solver/Chains.antt =====
-- chains of sudoku/puzzle.cc: alternating inference chains over bivalue cells and bilocal units.
use phone.Prelude.{
  ℕ, zero, suc, ◌+◌, ◌-◌, ◌*◌, ◌/◌, ◌%◌, Bool, true, false, not, ◌&&◌, ◌||◌, List, [], ◌∷◌, ◌++◌,
  Option, none, some, at, get_or, set, filter, range, replicate, leb, ◌==◌, if◌then◌else◌,
}
use phone.Prelude.Masks.{bit, has, and_not, popcount}
use phone.Sudoku.Grid.{sees}
use phone.Sudoku.Solver.{Logic, place, eliminate, attempt, sweep, peers, cell_units}
use phone.Sudoku.Solver.Singles.{lowest_digit, places_for}

abbrev maximum_chain_links : ℕ
maximum_chain_links = 12

abbrev nodes : ℕ
nodes = 729

-- bilocal[unit][digit], the sum of the two cells; -1 is `none`.
unfoldable pub pair_sum : List ℕ → Option ℕ
pair_sum (a ∷ b ∷ []) = some (a + b)
pair_sum _ = none

unfoldable pub bilocal : Logic → ℕ → ℕ → Option ℕ
bilocal s unit digit = pair_sum (places_for s unit digit)

-- The search from one start: the distances `on` and `off`, -1 being `none`, the queue from its
-- head on, an entry being a node and whether it is on, and whether the start was forced true.
pub record Chain : Type 0 where
  pub on : List (Option ℕ)
  pub off : List (Option ℕ)
  pub queue : List (ℕ × Bool)
  pub proven : Bool

unfoldable pub seen : Chain → ℕ → Bool → Option ℕ
seen c node is_on = get_or (if is_on then c.on else c.off) node none

-- The lambda `visit`, at a distance of `distance` from the start.
unfoldable pub visit : ℕ → ℕ → ℕ → ℕ → Bool → Chain → Chain
visit start distance cell digit next_on c =
    let next = cell * 9 + digit - 1 in
    elim (seen c next next_on) [
      | some _ ↦ c
      | none ↦ record {
        on = if next_on then set c.on next (some (distance + 1)) else c.on;
        off = if next_on then c.off else set c.off next (some (distance + 1));
        queue = c.queue ++ (next, next_on) ∷ [];
        proven = c.proven || (next_on && next == start);
      }
    ]

unfoldable pub visit_all : (ℕ → Chain → Chain) → List ℕ → Chain → Chain
visit_all step [] c = c
visit_all step (x ∷ xs) c = visit_all step xs (step x c)

unfoldable pub visit_partner : ℕ → ℕ → ℕ → ℕ → Option ℕ → Chain → Chain
visit_partner start distance cell digit none c = c
visit_partner start distance cell digit (some sum) c =
    visit start distance (sum - cell) digit true c

-- Strong links, from a node that is off.
unfoldable pub expand_off : Logic → ℕ → ℕ → ℕ → ℕ → Chain → Chain
expand_off s start distance cell digit c =
    let candidates = at s.candidates cell in
    let c' =
      if popcount 16 candidates == 2
      then visit start distance cell (lowest_digit (and_not candidates (bit digit))) true c
      else c in
    visit_all (λ unit. visit_partner start distance cell digit (bilocal s unit digit))
      (cell_units cell) c'

-- Weak links, from a node that is on.
unfoldable pub expand_on : Logic → ℕ → ℕ → ℕ → ℕ → Chain → Chain
expand_on s start distance cell digit c =
    let c' =
      visit_all (λ other. visit start distance cell other false)
        (filter (λ other. not (other == digit) && has (at s.candidates cell) other) (range 1 9))
        c in
    visit_all (λ peer. visit start distance peer digit false)
      (filter (λ peer. has (at s.candidates peer) digit) (peers cell)) c'

unfoldable pub distance_of : Option ℕ → ℕ
distance_of none = 0
distance_of (some distance) = distance

-- The body of the while loop for one entry taken from the queue.
unfoldable pub expand : Logic → ℕ → ℕ → Bool → Chain → Chain
expand s start node is_on c =
    let distance = distance_of (seen c node is_on) in
    if leb maximum_chain_links distance
    then c
    else if is_on
    then expand_on s start distance (node / 9) (node % 9 + 1) c
    else expand_off s start distance (node / 9) (node % 9 + 1) c

-- while (head < tail && !proven), on fuel: an entry enters the queue once at most.
unfoldable pub follow : ℕ → Logic → ℕ → Chain → Chain
follow zero s start c = c
follow (suc fuel) s start c = elim c.queue [
  | [] ↦ c
  | entry ∷ rest ↦ elim c.proven [
    | true ↦ c
    | false ↦ follow fuel s start (expand s start entry.0 entry.1 (record c { queue = rest }))
  ]
]

abbrev pub follow_fuel : ℕ
follow_fuel = 2 * 729 + 1

unfoldable pub begin : ℕ → Chain
begin start = record {
  on = replicate nodes none;
  off = set (replicate nodes none) start (some 0);
  queue = (start, false) ∷ [];
  proven = false;
}

-- A candidate that the chain forces false and that sees the start.
unfoldable pub is_linked : ℕ → Chain → ℕ → Bool
is_linked start c node =
    let cell = node / 9 in
    let digit = node % 9 + 1 in
    let forced : Bool = elim (seen c node false) [ none ↦ false | some _ ↦ true ] in
    let linked =
      if cell == start / 9
      then not (digit == start % 9 + 1)
      else digit == start % 9 + 1 && sees cell (start / 9) in
    not (node == start) && forced && linked

unfoldable pub conclude : ℕ → Chain → Logic → Logic × Bool
conclude start c s =
    if c.proven
    then (place s (start / 9) (start % 9 + 1), true)
    else sweep (λ node s. eliminate s (node / 9) (bit (node % 9 + 1)))
        (filter (is_linked start c) (range 0 nodes)) s

unfoldable pub try_chain : ℕ → Logic → Logic × Bool
try_chain start s =
    if not (has (at s.candidates (start / 9)) (start % 9 + 1))
    then (s, false)
    else conclude start (follow follow_fuel s start (begin start)) s

unfoldable pub chains : Logic → Logic × Bool
chains s = attempt try_chain (range 0 nodes) s
