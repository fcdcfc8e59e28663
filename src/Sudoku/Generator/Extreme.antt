-- ===== src/Sudoku/Generator/Extreme.antt =====
-- In every interleaving the main thread takes extreme puzzles only, and the thread runs until destroy.
use phone.Prelude.{ℕ, ◌≡◌, refl, subst, Bool, true, List, Option, some, In, if-both, if-each}
use phone.Prelude.Results.{Result, ok, error}
use phone.Sudoku.Rate.{Puzzle}
use phone.Sudoku.Rate.Generated.{IsExtremePuzzle, Promises, generate_puzzle-Promises}
use phone.Sudoku.Generator.{
  Phase, Generator, loop, finish_puzzle, drain, take_ready, cancel, stop, Step, looped, woken,
  generated, drained, taken, cancelled_first, stopped, Reaches, created, next,
}

-- A puzzle that is ready is extreme, and only destroy ends the thread or asks it to stop.
pub record IsSound (g : Generator) : Type 0 where
  pub extreme : g.ready ≡ true → (p : Puzzle) × (g.puzzle ≡ some p) × IsExtremePuzzle p
  pub alive : g.phase ≡ Phase.finished → g.cancelled ≡ true
  pub asked : g.stopping ≡ true → g.cancelled ≡ true

loop-IsSound : (g : Generator) → IsSound g → IsSound (loop g)
unfolding loop
loop-IsSound g s =
    if-each IsSound g.stopping
      (λ stops. record { extreme = s.extreme; alive = λ e. s.asked stops; asked = s.asked })
      (λ runs.
        if-both IsSound g.ready
          (record { extreme = s.extreme; alive = λ e. absurd cc; asked = s.asked })
          (record { extreme = s.extreme; alive = λ e. absurd cc; asked = s.asked }))

finish_puzzle-IsSound :
    (g : Generator) (polls : List Bool) (outcome : Result Puzzle)
    → IsSound g
    → Promises polls (some outcome)
    → (In true polls → g.cancelled ≡ true)
    → IsSound (finish_puzzle g outcome)
unfolding finish_puzzle
finish_puzzle-IsSound g polls (ok p) s promise seen = record {
  extreme = λ e. (p, refl, promise);
  alive = λ e. absurd cc;
  asked = s.asked;
}
finish_puzzle-IsSound g polls (error message) s promise seen = record {
  extreme = s.extreme;
  alive = λ e. seen promise;
  asked = s.asked;
}

take_ready-IsSound : (g : Generator) → IsSound g → IsSound (take_ready g).0
unfolding take_ready
take_ready-IsSound g s =
    if-both (λ (r : Generator × Option Puzzle). IsSound r.0) g.ready
      (record { extreme = λ e. absurd cc; alive = s.alive; asked = s.asked }) s

Step-IsSound : (g h : Generator) → Step g h → IsSound g → IsSound h
unfolding drain cancel stop
Step-IsSound g h (looped e) s = loop-IsSound g s
Step-IsSound g h (woken e) s = record {
  extreme = s.extreme;
  alive = λ e. absurd cc;
  asked = s.asked;
}
Step-IsSound g h (generated seed polls outcome e made seen) s =
    finish_puzzle-IsSound g polls outcome s
      (subst (Promises polls) made (generate_puzzle-Promises seed polls)) seen
Step-IsSound g h drained s = record { extreme = s.extreme; alive = s.alive; asked = s.asked }
Step-IsSound g h taken s = take_ready-IsSound g s
Step-IsSound g h cancelled_first s = record {
  extreme = s.extreme;
  alive = λ e. refl;
  asked = λ e. refl;
}
Step-IsSound g h (stopped e) s = record { extreme = s.extreme; alive = s.alive; asked = λ _. e }

-- In every state that the two threads reach together from a new generator, a puzzle that is ready is
-- extreme in the sense of generate_puzzle's promise, and the thread has ended, or was asked to stop,
-- only if destroy cancelled it.
pub Reaches-IsSound : (seed : ℕ) (g : Generator) → Reaches seed g → IsSound g
Reaches-IsSound seed g created = record {
  extreme = λ e. absurd cc;
  alive = λ e. absurd cc;
  asked = λ e. absurd cc;
}
Reaches-IsSound seed g (next {g = f} before step) =
    Step-IsSound f g step (Reaches-IsSound seed f before)
