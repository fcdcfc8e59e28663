-- ===== src/Sudoku/Search/Finds.antt =====
-- The results of a search as lists of grids: taking a digit back, stopping, and going on.
use phone.Prelude.{
  ℕ, ◌+◌, ◌≤◌, ◌<◌, ◌≡◌, refl, sym, ◌∙◌, ap, subst, ◌⊎◌, inl, inr, Bool, true, false, List, [], ◌∷◌,
  ◌++◌, Option, none, some, ◌==◌, leb, if◌then◌else◌, length, length-append, at, at-set, set, count,
  In, Distinct, All, In-append_left, In-append_right, All-append, All-map, All-In, Distinct-append,
  arith,
}
use mathlib.Core.Path.{ap₂}
use native.Mathlib.Decide.{ℕ_discrete}
use phone.Prelude.Masks.{has}
use phone.Sudoku.Grid.{Grid, IsCompletion, IsCompletion_mono}
use phone.Sudoku.Search.{Search, used, put, take_back, keep_solution}
use phone.Sudoku.Search.Board.{IsCoherent, take_back-put}

-- The solution pointer after the grids `found`: the first one of all is copied.
abbrev pub first_of_all : Option Grid → ℕ → List Grid → Option Grid
first_of_all solution n [] = solution
first_of_all solution n (t ∷ ts) = keep_solution solution n t

abbrev pub resume : Search → ℕ → Option Grid → Option ℕ → Search
resume s n solution random = record s { count = n; solution = solution; random = random }

-- A result `r` of a search from `s` among the grids that satisfy P: the board is restored, the
-- grids found are counted and each satisfies P, none is found twice, the search stops exactly at
-- the limit, and one that does not stop has found every grid.
pub record Finds (P : Grid → Type 0) (s : Search) (r : Search × Bool) : Type 0 where
  pub found : List Grid
  pub state :
      r.0 ≡ resume s (s.count + length found) (first_of_all s.solution s.count found) r.0.random
  pub sound : All P found
  pub distinct : Distinct found
  pub stop : r.1 ≡ leb s.limit (s.count + length found)
  pub within : s.count + length found ≤ s.limit
  pub complete : r.1 ≡ false → (t : Grid) → P t → In t found

-- A search that ends by itself: from any board with fewer empty cells than the fuel.
abbrev pub Searches : (Search → Search × Bool) → ℕ → Type 0
Searches go fuel =
    (s : Search)
    → IsCoherent s
    → s.count < s.limit
    → count 0 s.cells < fuel
    → Finds (IsCompletion s.cells) s (go s)

pub IsCoherent-resume :
    (s : Search) (n : ℕ) (solution : Option Grid) (random : Option ℕ)
    → IsCoherent s
    → IsCoherent (resume s n solution random)
IsCoherent-resume s n solution random h = record {
  size = h.size;
  small = h.small;
  rows = h.rows;
  columns = h.columns;
  boxes = h.boxes;
  proper = h.proper;
}

take_back-resume :
    (s : Search) (n : ℕ) (solution : Option Grid) (random : Option ℕ) (cell d : ℕ)
    → take_back (resume s n solution random) cell d ≡ resume (take_back s cell d) n solution random
unfolding take_back
take_back-resume s n solution random cell d = refl

random-take_back : (s : Search) (cell d : ℕ) → (take_back s cell d).random ≡ s.random
unfolding take_back
random-take_back s cell d = refl

keep_solution-keep_solution :
    (o : Option Grid) (n m : ℕ) (t u : Grid)
    → 0 < m
    → keep_solution (keep_solution o n t) m u ≡ keep_solution o n t
unfolding keep_solution
keep_solution-keep_solution none n m t u h = refl
keep_solution-keep_solution (some o) n m t u h = ground arith

first_of_all-append :
    (o : Option Grid) (n : ℕ) (xs ys : List Grid)
    → first_of_all (first_of_all o n xs) (n + length xs) ys ≡ first_of_all o n (xs ++ ys)
first_of_all-append o n [] [] = refl
first_of_all-append o n [] (y ∷ ys) = ap (λ (m : ℕ). keep_solution o m y) (omega arith)
first_of_all-append o n (x ∷ xs) [] = refl
first_of_all-append o n (x ∷ xs) (y ∷ ys) =
    keep_solution-keep_solution o n (n + length (x ∷ xs)) x y (omega arith)

-- Entering a digit in an empty cell singles out the completions that have it there.
module _ (cells : Grid) (long : length cells ≡ 81) (cell d : ℕ) (inside : cell < 81)
    (vacant : at cells cell ≡ 0) (pos : 0 < d) where
  now : (c : ℕ) → at (set cells cell d) c ≡ (if cell == c then d else at cells c)
  now c = at-set cells cell c d (rw long inside)

  IsCompletion-entered :
      (t : Grid) → IsCompletion cells t → at t cell ≡ d → IsCompletion (set cells cell d) t
  IsCompletion-entered t comp e = record {
    size = comp.size;
    digits = comp.digits;
    keeps = λ c h ne. elim (ℕ_discrete cell c) [
      | yes here ↦
          subst (λ (k : ℕ). at t k ≡ at (set cells cell d) k) here
            (e ∙ sym (now cell ∙ ground arith))
      | no other ↦ ground (arith, now c, comp.keeps c h)
    ];
    proper = comp.proper;
  }

  entered-IsCompletion :
      (t : Grid) → IsCompletion (set cells cell d) t → IsCompletion cells t × (at t cell ≡ d)
  entered-IsCompletion t comp = (
    IsCompletion_mono (λ c h ne. ground (arith, now c)) comp,
    ground (arith, comp.keeps cell inside, now cell),
  )

-- The search of the board with one more digit, seen from the board before.
pub Finds-take_back :
    (s : Search) (cell d : ℕ) (r : Search × Bool)
    → IsCoherent s
    → cell < 81
    → at s.cells cell ≡ 0
    → 0 < d
    → d ≤ 9
    → has (used s cell) d ≡ false
    → Finds (IsCompletion (put s cell d).cells) (put s cell d) r
    → Finds (λ t. IsCompletion s.cells t × (at t cell ≡ d)) s (take_back r.0 cell d, r.1)
unfolding put
Finds-take_back s cell d r coherent inside vacant pos small free f =
    let n = s.count + length f.found in
    let o = first_of_all s.solution s.count f.found in
    record {
      found = f.found;
      state =
          ap (λ (u : Search). take_back u cell d) f.state
          ∙ take_back-resume (put s cell d) n o r.0.random cell d
          ∙ ap (λ (u : Search). resume u n o r.0.random)
              (take_back-put s coherent cell d inside vacant pos small free)
          ∙ ap (λ (x : Option ℕ). resume s n o x) (sym (random-take_back r.0 cell d));
      sound =
          All-map _ _ f.found (entered-IsCompletion s.cells coherent.size cell d inside vacant pos)
            f.sound;
      distinct = f.distinct;
      stop = f.stop;
      within = f.within;
      complete = λ e t h.
          f.complete e t
            (IsCompletion-entered s.cells coherent.size cell d inside vacant pos t h.0 h.1);
    }

Finds-stopped :
    (P Q : Grid → Type 0) (s s' : Search)
    → ((t : Grid) → P t → Q t)
    → Finds P s (s', true)
    → Finds Q s (s', true)
Finds-stopped P Q s s' sub f = record {
  found = f.found;
  state = f.state;
  sound = All-map P Q f.found sub f.sound;
  distinct = f.distinct;
  stop = f.stop;
  within = f.within;
  complete = λ e. absurd (ground arith);
}

-- The same grids under another description, and the generator's state before the call changed.
pub Finds-iff :
    (P Q : Grid → Type 0) (s : Search) (random : Option ℕ) (r : Search × Bool)
    → ((t : Grid) → P t → Q t)
    → ((t : Grid) → Q t → P t)
    → Finds P (record s { random = random }) r
    → Finds Q s r
Finds-iff P Q s random r to from f = record {
  found = f.found;
  state = f.state;
  sound = All-map P Q f.found to f.sound;
  distinct = f.distinct;
  stop = f.stop;
  within = f.within;
  complete = λ e t h. f.complete e t (from t h);
}

-- A search that did not stop, and the search that goes on from there.
pub Finds-append :
    (P Q R : Grid → Type 0) (s s' : Search) (r : Search × Bool)
    → ((t : Grid) → P t → R t)
    → ((t : Grid) → Q t → R t)
    → ((t : Grid) → R t → P t ⊎ Q t)
    → ((t : Grid) → P t → Q t → ⊥)
    → (f : Finds P s (s', false))
    → Finds Q
        (resume s (s.count + length f.found) (first_of_all s.solution s.count f.found) s'.random)
        r
    → Finds R s r
Finds-append P Q R s s' r pr qr split apart f g =
    let n = s.count + length f.found in
    let o = first_of_all s.solution s.count f.found in
    let same : n + length g.found ≡ s.count + length (f.found ++ g.found) =
      omega (arith, length-append f.found g.found) in
    record {
      found = f.found ++ g.found;
      state =
          g.state
          ∙ ap₂ (λ (m : ℕ) (x : Option Grid). resume s m x r.0.random) same
              (first_of_all-append s.solution s.count f.found g.found);
      sound =
          All-append R f.found g.found (All-map P R f.found pr f.sound)
            (All-map Q R g.found qr g.sound);
      distinct =
          Distinct-append f.found g.found f.distinct g.distinct
            (λ t p q. apart t (All-In P f.found t f.sound p) (All-In Q g.found t g.sound q));
      stop = g.stop ∙ ap (leb s.limit) same;
      within = omega arith;
      complete = λ e t h. elim (split t h) [
        | inl p ↦ In-append_left t f.found g.found (f.complete refl t p)
        | inr q ↦ In-append_right t f.found g.found (g.complete e t q)
      ];
    }

-- The branch on the flag that a search returns.
pub Finds-if :
    {P R : Grid → Type 0} {s s' : Search} {stop : Bool} {rest : Search × Bool}
    → ((t : Grid) → P t → R t)
    → Finds P s (s', stop)
    → (Finds P s (s', false) → Finds R s rest)
    → Finds R s (if stop then (s', true) else rest)
Finds-if {P} {R} {s} {s'} {stop = true} sub f k = Finds-stopped P R s s' sub f
Finds-if {stop = false} sub f k = k f
