-- ===== src/Sudoku/Generator.antt =====
-- The background thread of sudoku/generator.cc, and the calls of the main thread, as interleaved
-- steps. A stretch of code that holds the mutex is one step, and so is a call on the notice's
-- descriptor. A wait on the condition variable may end at any time, as POSIX allows.
pub mod Extreme
mod Tests
use package.phone.Prelude.{
  ℕ, ◌+◌, ◌*◌, ◌%◌, ◌^◌, ◌≡◌, Bool, true, false, List, Option, none, some, In, if◌then◌else◌,
}
use package.phone.Prelude.Results.{Result, ok, error}
use package.phone.Sudoku.Rate.{Puzzle, generate_puzzle}

-- Where the thread is: at the head of its loop, in the wait, in generate_puzzle with its seed, or
-- past the loop.
pub data Phase : Type 0 where
  looping waiting finished : Phase
  generating : ℕ → Phase

-- struct Generator, with the descriptor as its counter and the thread as its phase.
pub record Generator : Type 0 where
  pub stopping : Bool
  pub ready : Bool
  pub cancelled : Bool
  pub notices : ℕ
  pub seed : ℕ
  pub puzzle : Option Puzzle
  pub phase : Phase

-- create_generator, when every call in it succeeds.
abbrev pub create_generator : ℕ → Generator
create_generator seed = record {
  stopping = false;
  ready = false;
  cancelled = false;
  notices = 0;
  seed = seed;
  puzzle = none;
  phase = Phase.looping;
}

-- run from the head of its loop to the wait, to generate_puzzle or to its end.
unfoldable pub loop : Generator → Generator
loop g =
    if g.stopping
    then record g { phase = Phase.finished }
    else if g.ready
    then record g { phase = Phase.waiting }
    else record g {
      seed = (g.seed * 6364136223846793005 + 1442695040888963407) % 2 ^ 64;
      phase = Phase.generating g.seed;
    }

-- run after generate_puzzle.
unfoldable pub finish_puzzle : Generator → Result Puzzle → Generator
finish_puzzle g (error message) = record g { phase = Phase.finished }
finish_puzzle g (ok puzzle) = record g {
  puzzle = some puzzle;
  ready = true;
  notices = g.notices + 1;
  phase = Phase.looping;
}

-- The read of the descriptor in puzzle_ready and take_puzzle.
unfoldable pub drain : Generator → Generator
drain g = record g { notices = 0 }

-- puzzle_ready, and take_puzzle, with the mutex held.
unfoldable pub is_ready : Generator → Bool
is_ready g = g.ready

unfoldable pub take_ready : Generator → Generator × Option Puzzle
take_ready g = if g.ready then (record g { ready = false }, g.puzzle) else (g, none)

-- The store of destroy, and its section with the mutex.
unfoldable pub cancel : Generator → Generator
cancel g = record g { cancelled = true }

unfoldable pub stop : Generator → Generator
stop g = record g { stopping = true }

-- The steps of the two threads. generate_puzzle reads `true` only after destroy stored it.
pub data Step (g : Generator) : Generator → Type 0 where
  looped : g.phase ≡ Phase.looping → Step g (loop g)
  woken : g.phase ≡ Phase.waiting → Step g (record g { phase = Phase.looping })
  generated :
      (seed : ℕ) (polls : List Bool) (outcome : Result Puzzle)
      → g.phase ≡ Phase.generating seed
      → generate_puzzle seed polls ≡ some outcome
      → (In true polls → g.cancelled ≡ true)
      → Step g (finish_puzzle g outcome)
  drained : Step g (drain g)
  taken : Step g (take_ready g).0
  cancelled_first : Step g (cancel g)
  stopped : g.cancelled ≡ true → Step g (stop g)

pub data Reaches (seed : ℕ) : Generator → Type 0 where
  created : Reaches seed (create_generator seed)
  next : {g h : Generator} → Reaches seed g → Step g h → Reaches seed h
