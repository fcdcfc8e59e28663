-- ===== src/Sudoku/Search/Choose.antt =====
-- The choice of the cell to try and the digits tried in it: `choose`, `digits_of`, `shuffle`.
use phone.Prelude.{
  ℕ, zero, suc, ◌+◌, ◌-◌, ◌≤◌, ◌<◌, ◌≡◌, ◌≢◌, refl, ◌∙◌, ◌⊎◌, inl, inr, Bool, true, not, ◌&&◌, List,
  [], ◌∷◌, Option, none, some, Bool-cases, ◌==◌, ltb, leb, if◌then◌else◌, length, length-set, at,
  at-set, set, count, count-set, range, filter, arith,
}
use phone.Prelude.Masks.{has, and_not, and_not-le, popcount, popcount-le, has-and_not, has_all}
use phone.Sudoku.Search.{
  Search, Best, no_best, used, open_mask, choose, digits_of, swap, below, shuffle, order_digits,
}

-- The best cell so far is an empty one, with the digits that the masks leave open there.
abbrev pub Chosen : Search → Best → Type 0
Chosen s b = (c : ℕ) × (b.cell ≡ some c) × (c < 81) × (at s.cells c ≡ 0) × (b.mask ≡ open_mask s c)

popcount-open_mask : (s : Search) (cell : ℕ) → popcount 16 (open_mask s cell) < 10
unfolding open_mask
popcount-open_mask s cell =
    let h =
      popcount-le 16 9 (and_not 511 (used s cell)) (omega (arith, and_not-le 511 (used s cell))) in
    omega arith

choose-Chosen :
    (n cell : ℕ) (s : Search) (b : Best) → cell + n ≡ 81 → Chosen s b → Chosen s (choose n cell s b)
unfolding choose
choose-Chosen zero cell s b e chosen = chosen
choose-Chosen (suc n) cell s b e chosen =
    let rest = λ (b' : Best) (h : Chosen s b'). choose-Chosen n (cell + 1) s b' (omega arith) h in
    elim (Bool-cases (at s.cells cell == 0)) [
      | inr full ↦ rw full (rest b chosen)
      | inl vacant ↦
          let here : Chosen s (record {
            cell = some cell;
            count = popcount 16 (open_mask s cell);
            mask = open_mask s cell;
          }) =
            (cell, refl, omega arith, ground arith, refl) in
          elim (Bool-cases (ltb (popcount 16 (open_mask s cell)) b.count)) [
            | inr worse ↦ rw (vacant, worse) (rest b chosen)
            | inl better ↦ elim (Bool-cases (leb (popcount 16 (open_mask s cell)) 1)) [
              | inl stop ↦ rw (vacant, better, stop) here
              | inr go ↦ rw (vacant, better, go) (rest _ here)
            ]
          ]
    ]

-- From no best cell, either one is chosen or every cell is full.
pub choose_lem :
    (n cell : ℕ) (s : Search)
    → cell + n ≡ 81
    → Chosen s (choose n cell s no_best)
      ⊎ ((choose n cell s no_best).cell ≡ none) × ((c : ℕ) → cell ≤ c → c < 81 → at s.cells c ≢ 0)
unfolding choose
choose_lem zero cell s e = inr (refl, λ c p q. absurd (omega arith))
choose_lem (suc n) cell s e = elim (Bool-cases (at s.cells cell == 0)) [
  | inr full ↦ rw full (elim (choose_lem n (cell + 1) s (omega arith)) [
    | inl chosen ↦ inl chosen
    | inr (nothing, rest) ↦ inr (
      nothing,
      λ c p q. elim (Bool-cases (c == cell)) [
        | inl same ↦ ground arith
        | inr other ↦ rest c (ground arith) q
      ],
    )
  ])
  | inl vacant ↦
      let here : Chosen s (record {
        cell = some cell;
        count = popcount 16 (open_mask s cell);
        mask = open_mask s cell;
      }) =
        (cell, refl, omega arith, ground arith, refl) in
      let better : ltb (popcount 16 (open_mask s cell)) 10 ≡ true =
        ground (arith, popcount-open_mask s cell) in
      elim (Bool-cases (leb (popcount 16 (open_mask s cell)) 1)) [
        | inl stop ↦ rw (vacant, better, stop) (inl here)
        | inr go ↦ rw (vacant, better, go) (inl (choose-Chosen n (cell + 1) s _ (omega arith) here))
      ]
]

count-filter :
    (p : ℕ → Bool) (a : ℕ) (xs : List ℕ) → count a (filter p xs) ≡ (if p a then count a xs else 0)
count-filter p a [] = ground arith
count-filter p a (x ∷ xs) = elim (Bool-cases (x == a)) [
  | inl same ↦ ground (arith, count-filter p a xs, p)
  | inr other ↦ ground (arith, count-filter p a xs)
]

pub count-range :
    (a first n : ℕ) → count a (range first n) ≡ (if leb first a && ltb a (first + n) then 1 else 0)
count-range a first zero = ground arith
count-range a first (suc n) = ground (arith, count-range a (first + 1) n)

count-filter-range :
    (p : ℕ → Bool) (a first n : ℕ)
    → count a (filter p (range first n))
      ≡ (if p a && (leb first a && ltb a (first + n)) then 1 else 0)
count-filter-range p a first n =
    count-filter p a (range first n) ∙ rw (count-range a first n) (ground arith)

pub count-digits_of :
    (d mask : ℕ) → count d (digits_of mask) ≡ (if has mask d && (leb 1 d && leb d 9) then 1 else 0)
unfolding digits_of
count-digits_of d mask = count-filter-range (has mask) d 1 9 ∙ ground arith

pub has-open_mask :
    (s : Search) (cell d : ℕ) → 0 < d → d ≤ 9 → has (open_mask s cell) d ≡ not (has (used s cell) d)
unfolding open_mask
has-open_mask s cell d p q = has-and_not 511 (used s cell) d (omega arith) ∙ rw (has_all d p q) refl

length-swap : (xs : List ℕ) (i j : ℕ) → length (swap xs i j) ≡ length xs
unfolding swap
length-swap xs i j = length-set (set xs i (at xs j)) j (at xs i) ∙ length-set xs i (at xs j)

count-swap :
    (a : ℕ) (xs : List ℕ) (i j : ℕ)
    → i < length xs
    → j < length xs
    → count a (swap xs i j) ≡ count a xs
unfolding swap
count-swap a xs i j hi hj =
    let x = at xs i in
    let y = at xs j in
    let kept : at (set xs i y) j ≡ y = at-set xs i j y hi ∙ same y refl in
    let second : count a (set (set xs i y) j x) + (if y == a then 1 else 0)
        ≡ count a (set xs i y) + (if x == a then 1 else 0) =
      rw kept at (count-set a (set xs i y) j x (rw (length-set xs i y) hj)) in
    omega (arith, second, count-set a xs i y hi)
  where
    same : (y : ℕ) → y ≡ at xs j → (if i == j then y else at xs j) ≡ y
    same y e = ground arith

below-lt : (state limit : ℕ) → 0 < limit → (below state limit).1 < limit
unfolding below
below-lt state limit h = omega arith

length-shuffle : (i : ℕ) (xs : List ℕ) (state : ℕ) → length (shuffle i xs state).0 ≡ length xs
unfolding shuffle
length-shuffle zero xs state = refl
length-shuffle (suc i) xs state =
    length-shuffle i (swap xs (suc i) (below state (suc i + 1)).1) (below state (suc i + 1)).0
    ∙ length-swap xs (suc i) (below state (suc i + 1)).1

-- A shuffle keeps every element as often as it was.
pub count-shuffle :
    (a i : ℕ) (xs : List ℕ) (state : ℕ)
    → i ≤ length xs - 1
    → count a (shuffle i xs state).0 ≡ count a xs
unfolding shuffle
count-shuffle a zero xs state h = refl
count-shuffle a (suc i) xs state h =
    let j = (below state (suc i + 1)).1 in
    count-shuffle a i (swap xs (suc i) (below state (suc i + 1)).1) (below state (suc i + 1)).0
      (omega (arith, length-swap xs (suc i) j))
    ∙ count-swap a xs (suc i) (below state (suc i + 1)).1 (omega arith)
        (omega (arith, below-lt state (suc i + 1) (omega arith)))

pub count-order_digits :
    (a : ℕ) (digits : List ℕ) (random : Option ℕ)
    → count a (order_digits digits random).0 ≡ count a digits
unfolding order_digits
count-order_digits a digits none = refl
count-order_digits a digits (some state) =
    count-shuffle a (length digits - 1) digits state (omega arith)
