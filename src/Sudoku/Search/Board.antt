-- ===== src/Sudoku/Search/Board.antt =====
-- The masks of a Search say which digits each unit holds; `put` keeps that, `take_back` undoes it.
use phone.Prelude.{
  ℕ, ◌≤◌, ◌<◌, ◌≡◌, ◌≢◌, sym, ◌∙◌, ap, inl, inr, Bool, true, false, ◌&&◌, ◌||◌, List, Bool-cases,
  ◌==◌, if◌then◌else◌, ==→≡, ==-self, length, length-set, at, at-set, set, set-set_back, bit_or,
  arith,
}
use native.Mathlib.Decide.{ℕ_discrete}
use phone.Prelude.Masks.{bit, bit-lt, has, and_not, has-bit_or, has-bit, and_not-bit_or, bit_or-lt}
use phone.Sudoku.Grid.{
  Grid, row, column, box, sees, sees_cases, sees_of, sees_comm, row-lt, column-lt, box-lt,
}
use phone.Sudoku.Search.{Search, used, put, take_back}

-- The masks of one kind of unit, `unit` being row, column or box: mask i has digit d exactly if a
-- cell of unit i holds d.
pub record Covers (unit : ℕ → ℕ) (masks : List ℕ) (cells : Grid) : Type 0 where
  pub size : length masks ≡ 9
  pub word : (i : ℕ) → i < 9 → at masks i < 65536
  pub held :
      (i d : ℕ)
      → i < 9
      → 0 < d
      → d ≤ 9
      → has (at masks i) d ≡ true
      → (c : ℕ) × (c < 81) × (unit c ≡ i) × (at cells c ≡ d)
  pub marked :
      (c : ℕ)
      → c < 81
      → 0 < at cells c
      → at cells c ≤ 9
      → has (at masks (unit c)) (at cells c) ≡ true

pub record IsCoherent (s : Search) : Type 0 where
  pub size : length s.cells ≡ 81
  pub small : (c : ℕ) → c < 81 → at s.cells c ≤ 9
  pub rows : Covers row s.rows s.cells
  pub columns : Covers column s.columns s.cells
  pub boxes : Covers box s.boxes s.cells
  pub proper :
      (a b : ℕ) → a < 81 → b < 81 → sees a b ≡ true → at s.cells a ≢ 0 → at s.cells a ≢ at s.cells b

module _ (unit : ℕ → ℕ) (bound : (c : ℕ) → c < 81 → unit c < 9) (masks : List ℕ) (cells : Grid)
    (long : length cells ≡ 81) (covers : Covers unit masks cells) (cell d : ℕ) (inside : cell < 81)
    (pos : 0 < d) (small : d ≤ 9) where
  abbrev entered : List ℕ
  entered = set masks (unit cell) (bit_or (at masks (unit cell)) (bit d))

  at-entered :
      (i : ℕ)
      → at entered i
        ≡ (if unit cell == i then bit_or (at masks (unit cell)) (bit d) else at masks i)
  at-entered i = at-set masks (unit cell) i _ (rw covers.size (bound cell inside))

  has-entered :
      (i e : ℕ)
      → 0 < e
      → e ≤ 9
      → has (at entered i) e
        ≡ (if unit cell == i then has (at masks i) e || (d == e) else has (at masks i) e)
  has-entered i e p q = elim (Bool-cases (unit cell == i)) [
    | inl here ↦
        rw (at-entered i, here, ==→≡ (unit cell) i here)
          (has-bit_or (at masks i) (bit d) e (omega arith)
            ∙ ap (λ (b : Bool). has (at masks i) e || b)
                (has-bit d e pos p (omega arith) (omega arith)))
    | inr other ↦ rw (at-entered i, other)
  ]

  pub entered-Covers : at cells cell ≡ 0 → Covers unit entered (set cells cell d)
  entered-Covers vacant = record {
    size = length-set masks (unit cell) _ ∙ covers.size;
    word = λ i h. rw at-entered (
        ground (
          arith,
          covers.word i h,
          bit_or-lt 16 (at masks (unit cell)) (bit d) (covers.word (unit cell) (bound cell inside))
              (bit-lt d),
        ));
    held = λ i e h p q t. elim (Bool-cases (unit cell == i && (d == e))) [
      | inl new ↦ (cell, inside, ground arith, ground (arith, now cell))
      | inr old ↦
          let (c, c_lt, c_unit, c_holds) =
            covers.held i e h p q (ground (arith, has-entered i e p q)) in
          (c, c_lt, c_unit, ground (arith, now c))
    ];
    marked = λ c h p q.
        ground
          (arith, now c, covers.marked c h, has-entered (unit c) (at (set cells cell d) c) p q);
  }
    where
      now : (c : ℕ) → at (set cells cell d) c ≡ (if cell == c then d else at cells c)
      now c = at-set cells cell c d (rw long inside)

  -- Clearing the digit restores the masks.
  pub entered_back :
      has (at masks (unit cell)) d ≡ false
      → set entered (unit cell) (and_not (at entered (unit cell)) (bit d)) ≡ masks
  entered_back free = set-set_back masks (unit cell) _ 0 _ (
      rw (at-entered (unit cell), ==-self (unit cell))
        (and_not-bit_or _ d (covers.word _ (bound cell inside)) pos (omega arith) free))

module _ (s : Search) (coherent : IsCoherent s) (cell d : ℕ) (inside : cell < 81) where
  -- A digit that the masks leave open is in none of the three.
  pub used_free :
      has (used s cell) d ≡ false
      → d ≤ 9
      → (has (at s.rows (row cell)) d ≡ false)
        × (has (at s.columns (column cell)) d ≡ false)
        × (has (at s.boxes (box cell)) d ≡ false)
  unfolding used
  used_free free small = ground (
    arith,
    has-bit_or (bit_or (at s.rows (row cell)) (at s.columns (column cell))) (at s.boxes (box cell))
        d (omega arith),
    has-bit_or (at s.rows (row cell)) (at s.columns (column cell)) d (omega arith),
  )

  -- A digit that the masks exclude stands in a cell that sees this one, or in the cell itself.
  pub used_held :
      has (used s cell) d ≡ true
      → 0 < d
      → d ≤ 9
      → at s.cells cell ≡ 0
      → (c : ℕ) × (c < 81) × (sees c cell ≡ true) × (at s.cells c ≡ d)
  unfolding used
  used_held taken pos small vacant = elim (Bool-cases (has (at s.rows (row cell)) d)) [
    | inl r ↦
        let (c, h, unit, e) = coherent.rows.held (row cell) d (row-lt cell inside) pos small r in
        (c, h, sees_of c cell (ground arith) (inl unit), e)
    | inr nr ↦ elim (Bool-cases (has (at s.columns (column cell)) d)) [
      | inl k ↦
          let (c, h, unit, e) =
            coherent.columns.held (column cell) d (column-lt cell) pos small k in
          (c, h, sees_of c cell (ground arith) (inr (inl unit)), e)
      | inr nk ↦
          let k : has (at s.boxes (box cell)) d ≡ true = ground (
            arith,
            has-bit_or (bit_or (at s.rows (row cell)) (at s.columns (column cell)))
                (at s.boxes (box cell)) d (omega arith),
            has-bit_or (at s.rows (row cell)) (at s.columns (column cell)) d (omega arith),
          ) in
          let (c, h, unit, e) = coherent.boxes.held (box cell) d (box-lt cell inside) pos small k in
          (c, h, sees_of c cell (ground arith) (inr (inr unit)), e)
    ]
  ]

  -- A digit that the masks leave open stands in no cell that sees this one.
  used_unseen :
      has (used s cell) d ≡ false
      → 0 < d
      → d ≤ 9
      → (c : ℕ) → c < 81
      → sees c cell ≡ true
      → at s.cells c ≢ d
  used_unseen free pos small c h see e =
      let (r, k, b) = used_free free small in
      let same = (sees_cases c cell see).1 in
      ground
        (arith, coherent.rows.marked c h, coherent.columns.marked c h, coherent.boxes.marked c h)

  module _ (vacant : at s.cells cell ≡ 0) (pos : 0 < d) (small : d ≤ 9)
      (free : has (used s cell) d ≡ false) where
    pub put-IsCoherent : IsCoherent (put s cell d)
    unfolding put
    put-IsCoherent = record {
      size = length-set s.cells cell d ∙ coherent.size;
      small = λ c h. ground (arith, now c, coherent.small c h);
      rows =
          entered-Covers row row-lt s.rows s.cells coherent.size coherent.rows cell d inside pos
            small vacant;
      columns =
          entered-Covers column (λ c _. column-lt c) s.columns s.cells coherent.size
            coherent.columns cell d inside pos small vacant;
      boxes =
          entered-Covers box box-lt s.boxes s.cells coherent.size coherent.boxes cell d inside pos
            small vacant;
      proper = λ a b ha hb see full. apart a b ha hb see full;
    }
      where
        now : (c : ℕ) → at (set s.cells cell d) c ≡ (if cell == c then d else at s.cells c)
        now c = at-set s.cells cell c d (rw coherent.size inside)

        apart :
            (a b : ℕ)
            → a < 81
            → b < 81
            → sees a b ≡ true
            → at (set s.cells cell d) a ≢ 0
            → at (set s.cells cell d) a ≢ at (set s.cells cell d) b
        apart a b ha hb see full e = elim (ℕ_discrete cell a) [
          | yes p ↦
              used_unseen free pos small b hb (rw p (sees_comm a b see))
                (ground (arith, now a, now b, (sees_cases a b see).0))
          | no p ↦ elim (ℕ_discrete cell b) [
            | yes q ↦ used_unseen free pos small a ha (rw q see) (ground (arith, now a, now b))
            | no q ↦
                coherent.proper a b ha hb see (ground (arith, now a)) (ground (arith, now a, now b))
          ]
        ]

    pub take_back-put : take_back (put s cell d) cell d ≡ s
    unfolding take_back put
    take_back-put =
        let (r, k, b) = used_free free small in
        cc (
          entered_back row row-lt s.rows s.cells coherent.size coherent.rows cell d inside pos small
              r,
          entered_back column (λ c _. column-lt c) s.columns s.cells coherent.size coherent.columns
              cell d inside pos small k,
          entered_back box box-lt s.boxes s.cells coherent.size coherent.boxes cell d inside pos
              small b,
          set-set_back s.cells cell d 0 0 (sym vacant),
        )
