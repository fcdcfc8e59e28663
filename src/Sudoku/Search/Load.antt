-- ===== src/Sudoku/Search/Load.antt =====
-- `load` enters the clues of a grid, and fails only for a grid that no full grid completes.
use phone.Prelude.{
  ℕ, zero, suc, ◌+◌, ◌≤◌, ◌<◌, ◌≡◌, refl, sym, ◌∙◌, subst, ◌⊎◌, inl, inr, Bool-cases, true, false,
  none, some, ◌==◌, ltb, at, at-set, set, replicate, ==→≡, if◌then◌else◌, arith,
}
use native.Mathlib.Decide.{ℕ_discrete}
use phone.Prelude.Masks.{has, has-zero}
use phone.Sudoku.Grid.{Grid, IsCompletion, row, column, box, row-lt, column-lt, box-lt}
use phone.Sudoku.Search.{Search, fresh, empty_grid, used, put, load_cell, load_from, load}
use phone.Sudoku.Search.Board.{Covers, IsCoherent, used_held, put-IsCoherent}

-- The state after the cells below k.
pub record Loaded (grid : Grid) (k : ℕ) (s : Search) : Type 0 where
  pub coherent : IsCoherent s
  pub done : (c : ℕ) → c < k → at s.cells c ≡ at grid c
  pub todo : (c : ℕ) → k ≤ c → c < 81 → at s.cells c ≡ 0
  pub uncounted : s.count ≡ 0

pub at-replicate : (n i : ℕ) → at (replicate n 0) i ≡ 0
at-replicate zero i = refl
at-replicate (suc n) zero = refl
at-replicate (suc n) (suc i) = at-replicate n i

fresh-Covers :
    (unit : ℕ → ℕ) → ((c : ℕ) → c < 81 → unit c < 9) → Covers unit (replicate 9 0) empty_grid
fresh-Covers unit bound = record {
  size = refl;
  word = λ i h. rw (at-replicate 9 i) (omega arith);
  held = λ i d h p q t. absurd (no_digit i d q t);
  marked = λ c h p q. absurd (omega (arith, at-replicate 81 c));
}
  where
    no_digit : (i d : ℕ) → d ≤ 9 → has (at (replicate 9 0) i) d ≡ true → ⊥
    no_digit i d q t =
        let u : has 0 d ≡ true = rw (at-replicate 9 i) at t in cc (has-zero d (omega arith), u)

pub fresh-Loaded : (grid : Grid) → Loaded grid 0 fresh
fresh-Loaded grid = record {
  coherent = record {
    size = refl;
    small = λ c h. rw (at-replicate 81 c) (omega arith);
    rows = fresh-Covers row row-lt;
    columns = fresh-Covers column (λ c h. column-lt c);
    boxes = fresh-Covers box box-lt;
    proper = λ a b ha hb see full. absurd (full (at-replicate 81 a));
  };
  done = λ c h. absurd (omega arith);
  todo = λ c p q. at-replicate 81 c;
  uncounted = refl;
}

module _ (grid : Grid) (k : ℕ) (s : Search) (inside : k < 81) (l : Loaded grid k s) where
  -- An empty cell is passed over.
  skip-Loaded : at grid k ≡ 0 → Loaded grid (k + 1) s
  skip-Loaded e = record {
    coherent = l.coherent;
    done = λ c h. elim (ℕ_discrete c k) [
      | yes same ↦ rw same (l.todo k (omega arith) inside ∙ sym e)
      | no other ↦ l.done c (omega arith)
    ];
    todo = λ c p q. l.todo c (omega arith) q;
    uncounted = l.uncounted;
  }

  put-Loaded :
      0 < at grid k
      → at grid k ≤ 9
      → has (used s k) (at grid k) ≡ false
      → Loaded grid (k + 1) (put s k (at grid k))
  unfolding put
  put-Loaded pos small free = record {
    coherent =
        unfold put in
        put-IsCoherent s l.coherent k (at grid k) inside (l.todo k (omega arith) inside) pos small
          free;
    done = λ c h. elim (ℕ_discrete k c) [
      | yes same ↦ now c ∙ rw (← same) (ground arith)
      | no other ↦ ground (arith, now c, l.done c)
    ];
    todo = λ c p q. ground (arith, now c, l.todo c);
    uncounted = l.uncounted;
  }
    where
      now :
          (c : ℕ) → at (set s.cells k (at grid k)) c ≡ (if k == c then at grid k else at s.cells c)
      now c = at-set s.cells k c (at grid k) (rw l.coherent.size inside)

  -- A clue that the earlier clues exclude leaves no completion.
  excluded :
      0 < at grid k
      → at grid k ≤ 9
      → has (used s k) (at grid k) ≡ true
      → (t : Grid) → ¬ IsCompletion grid t
  excluded pos small taken t comp =
      let (c, h, see, e) =
        used_held s l.coherent k (at grid k) inside taken pos small
          (l.todo k (omega arith) inside) in
      let before : c < k = ground (arith, l.todo c) in
      comp.proper c k h inside see (
        comp.keeps c h (ground (arith, l.done c))
        ∙ sym (l.done c before)
        ∙ e
        ∙ sym (comp.keeps k inside (omega arith)))

  -- One cell: entered, or no completion.
  load_cell_lem :
      (load_cell s k (at grid k) ≡ none) × ((t : Grid) → ¬ IsCompletion grid t)
      ⊎ ((s' : Search) × (load_cell s k (at grid k) ≡ some s') × Loaded grid (k + 1) s')
  unfolding load_cell
  load_cell_lem = elim (Bool-cases (at grid k == 0)) [
    | inl vacant ↦ inr (s, rw vacant, skip-Loaded (==→≡ _ 0 vacant))
    | inr full ↦ elim (Bool-cases (ltb 9 (at grid k))) [
      | inl big ↦ inl (
        rw (full, big),
        λ t comp. absurd (ground (arith, comp.keeps k inside, comp.digits k inside)),
      )
      | inr small ↦ elim (Bool-cases (has (used s k) (at grid k))) [
        | inl taken ↦ inl (rw (full, small, taken), excluded (ground arith) (ground arith) taken)
        | inr free ↦ inr (
          put s k (at grid k),
          rw (full, small, free),
          put-Loaded (ground arith) (ground arith) free,
        )
      ]
    ]
  ]

load_from_lem :
    (grid : Grid) (n k : ℕ) (s : Search)
    → k + n ≡ 81
    → Loaded grid k s
    → (load_from n k grid s ≡ none) × ((t : Grid) → ¬ IsCompletion grid t)
      ⊎ ((s' : Search) × (load_from n k grid s ≡ some s') × Loaded grid 81 s')
unfolding load_from
load_from_lem grid zero k s e l = inr (s, refl, subst (λ (j : ℕ). Loaded grid j s) (omega arith) l)
load_from_lem grid (suc n) k s e l = elim (load_cell_lem grid k s (omega arith) l) [
  | inl (fail, nothing) ↦ inl (rw (fail, load_from), nothing)
  | inr (s', e', l') ↦ rw (e', load_from) (load_from_lem grid n (k + 1) s' (omega arith) l')
]

pub load_lem :
    (grid : Grid)
    → (load fresh grid ≡ none) × ((t : Grid) → ¬ IsCompletion grid t)
      ⊎ ((s : Search) × (load fresh grid ≡ some s) × Loaded grid 81 s)
unfolding load
load_lem grid = load_from_lem grid 81 0 fresh refl (fresh-Loaded grid)
