-- ===== src/Sudoku/Search/Explore.antt =====
-- What a call of `search` finds: the completions of its board, each once, up to the limit.
use native.Mathlib.Decide.{ℕ_discrete}
use phone.Prelude.{
  ℕ, zero, suc, ◌+◌, ◌≤◌, ◌<◌, ◌≡◌, ◌≢◌, refl, sym, ◌∙◌, ap, subst, ◌⊎◌, inl, inr, Bool, false,
  ◌&&◌, List, [], ◌∷◌, Option, some, Bool-cases, leb, if◌then◌else◌, length, at, at_ext, set, count,
  count-set, arith,
}
use phone.Prelude.Masks.{has}
use phone.Sudoku.Grid.{Grid, IsCompletion}
use phone.Sudoku.Search.{
  Search, used, open_mask, put, take_back, digits_of, order_digits, finish, try_digits, proceed,
  search,
}
use phone.Sudoku.Search.Board.{IsCoherent, used_held, put-IsCoherent}
use phone.Sudoku.Search.Choose.{choose_lem, count-digits_of, count-order_digits, has-open_mask}
use phone.Sudoku.Search.Finds.{
  Finds, Searches, first_of_all, resume, IsCoherent-resume, Finds-take_back, Finds-append, Finds-if,
  Finds-iff,
}

-- The digits that the loop over one cell tries: each once, and each open there.
abbrev AreOpen : Search → ℕ → List ℕ → Type 0
AreOpen s cell digits =
    (d : ℕ)
    → (count d digits ≤ 1)
      × (0 < count d digits → (0 < d) × (d ≤ 9) × (has (used s cell) d ≡ false))

-- The completions that have one of the digits in the cell.
abbrev HasOneOf : Search → ℕ → List ℕ → Grid → Type 0
HasOneOf s cell digits t = IsCompletion s.cells t × (0 < count (at t cell) digits)

AreOpen-resume :
    (s : Search) (cell : ℕ) (digits : List ℕ) (n : ℕ) (solution : Option Grid) (random : Option ℕ)
    → AreOpen s cell digits
    → AreOpen (resume s n solution random) cell digits
unfolding used
AreOpen-resume s cell digits n solution random free = free

-- The completions with one digit in the cell.
abbrev HasDigit : Search → ℕ → ℕ → Grid → Type 0
HasDigit s cell d t = IsCompletion s.cells t × (at t cell ≡ d)

module _ (s : Search) (cell d : ℕ) (digits : List ℕ) where
  HasOneOf-first : (t : Grid) → HasDigit s cell d t → HasOneOf s cell (d ∷ digits) t
  HasOneOf-first t (comp, e) = (comp, ground arith)

  HasOneOf-rest : (t : Grid) → HasOneOf s cell digits t → HasOneOf s cell (d ∷ digits) t
  HasOneOf-rest t (comp, h) = (comp, ground arith)

  HasOneOf-split :
      (t : Grid) → HasOneOf s cell (d ∷ digits) t → HasDigit s cell d t ⊎ HasOneOf s cell digits t
  HasOneOf-split t (comp, h) = elim (ℕ_discrete (at t cell) d) [
    | yes e ↦ inl (comp, e)
    | no ne ↦ inr (comp, ground arith)
  ]

  AreOpen-tail :
      (n : ℕ) (solution : Option Grid) (random : Option ℕ)
      → AreOpen s cell (d ∷ digits)
      → AreOpen (resume s n solution random) cell digits
  unfolding used
  AreOpen-tail n solution random free e = let h = free e in (ground arith, λ p. h.1 (ground arith))

module _ (go : Search → Search × Bool) (fuel : ℕ) (goes : Searches go fuel) (cell : ℕ)
    (inside : cell < 81) where
  try_digits-Finds :
      (digits : List ℕ) (s : Search)
      → IsCoherent s
      → s.count < s.limit
      → count 0 s.cells < fuel + 1
      → at s.cells cell ≡ 0
      → AreOpen s cell digits
      → Finds (HasOneOf s cell digits) s (try_digits go cell digits s)
  unfolding try_digits
  try_digits-Finds [] s coherent room left vacant free = record {
    found = [];
    state = ap (λ (n : ℕ). resume s n s.solution s.random) (omega arith);
    sound = tt;
    distinct = tt;
    stop = ground arith;
    within = omega arith;
    complete = λ e t h. absurd (omega (arith, h.1));
  }
  try_digits-Finds (d ∷ digits) s coherent room left vacant free =
      let (pos, small, open_here) = (free d).1 (ground arith) in
      let p = put s cell d in
      let first = Finds-take_back s cell d (go p) coherent inside vacant pos small open_here (
        goes p (put-IsCoherent s coherent cell d inside vacant pos small open_here)
          (unfold put in room) (unfold put in fewer pos)) in
      Finds-if (HasOneOf-first s cell d digits) first λ f.
        let u =
          resume s (s.count + length f.found) (first_of_all s.solution s.count f.found)
            (take_back (go p).0 cell d).random in
        Finds-append (HasDigit s cell d) (HasOneOf s cell digits) (HasOneOf s cell (d ∷ digits)) s
          (take_back (go p).0 cell d) (try_digits go cell digits (take_back (go p).0 cell d))
          (HasOneOf-first s cell d digits) (HasOneOf-rest s cell d digits)
          (HasOneOf-split s cell d digits) (λ t h k. ground (arith, free d)) f
          (subst (λ (v : Search). Finds (HasOneOf s cell digits) u (try_digits go cell digits v))
            (sym f.state)
            (try_digits-Finds digits u (IsCoherent-resume s _ _ _ coherent) (ground (arith, f.stop))
              left vacant (AreOpen-tail s cell d digits _ _ _ free)))
    where
      fewer : 0 < d → count 0 (set s.cells cell d) < fuel
      fewer pos = ground (arith, count-set 0 s.cells cell d, coherent.size)

-- A full board is its own completion, and the only one.
finish-Finds :
    (s : Search)
    → IsCoherent s
    → s.count < s.limit
    → ((c : ℕ) → c < 81 → at s.cells c ≢ 0)
    → Finds (IsCompletion s.cells) s (finish s)
unfolding finish
finish-Finds s coherent room full = record {
  found = s.cells ∷ [];
  state = refl;
  sound = (
    record {
      size = coherent.size;
      digits = λ c h. (ground (arith, full c h), coherent.small c h);
      keeps = λ c h ne. refl;
      proper = λ a b ha hb see. coherent.proper a b ha hb see (full a ha);
    },
    tt,
  );
  distinct = (λ h. h, tt);
  stop = refl;
  within = omega arith;
  complete = λ e t comp.
      inl (at_ext 81 t s.cells comp.size coherent.size (λ c h. comp.keeps c h (full c h)));
}

-- Every completion has in an empty cell one of the digits that the masks leave open there.
completion_is_open :
    (s : Search) (cell : ℕ) (t : Grid)
    → IsCoherent s
    → cell < 81
    → at s.cells cell ≡ 0
    → IsCompletion s.cells t
    → has (used s cell) (at t cell) ≡ false
completion_is_open s cell t coherent inside vacant comp =
    let (pos, small) = comp.digits cell inside in
    elim (Bool-cases (has (used s cell) (at t cell))) [
      | inr free ↦ free
      | inl taken ↦
          let (c, h, see, e) =
            used_held s coherent cell (at t cell) inside taken pos small vacant in
          absurd (comp.proper c cell h inside see (comp.keeps c h (ground arith) ∙ e))
    ]

-- A chosen cell is tried with the digits that its mask leaves open, in any order.
chosen-Finds :
    (go : Search → Search × Bool) (fuel : ℕ) (s : Search) (cell mask : ℕ)
    → Searches go fuel
    → IsCoherent s
    → s.count < s.limit
    → count 0 s.cells < fuel + 1
    → cell < 81
    → at s.cells cell ≡ 0
    → mask ≡ open_mask s cell
    → Finds (IsCompletion s.cells) s (proceed go s mask (some cell))
unfolding proceed
chosen-Finds go fuel s cell mask goes coherent room left inside vacant e =
    Finds-iff (HasOneOf s cell digits) (IsCompletion s.cells) s random' _ (λ t h. h.0)
      (λ t comp. (comp, occurs t comp))
      (try_digits-Finds go fuel goes cell inside digits (record s { random = random' })
        (IsCoherent-resume s s.count s.solution random' coherent) room left vacant
        (AreOpen-resume s cell digits s.count s.solution random' opens))
  where
    digits : List ℕ
    digits = (order_digits (digits_of mask) s.random).0

    random' : Option ℕ
    random' = (order_digits (digits_of mask) s.random).1

    counted :
        (d : ℕ)
        → count d digits ≡ (if has (open_mask s cell) d && (leb 1 d && leb d 9) then 1 else 0)
    counted d =
        count-order_digits d (digits_of mask) s.random
        ∙ count-digits_of d mask
        ∙ ap (λ (m : ℕ). if has m d && (leb 1 d && leb d 9) then 1 else 0) e

    opens : AreOpen s cell digits
    opens d = (ground (arith, counted d), λ p. ground (arith, counted d, has-open_mask s cell d))

    occurs : (t : Grid) → IsCompletion s.cells t → 0 < count (at t cell) digits
    occurs t comp = ground (
      arith,
      counted (at t cell),
      comp.digits cell inside,
      has-open_mask s cell (at t cell),
      completion_is_open s cell t coherent inside vacant comp,
    )

-- Enough fuel for the empty cells: the search ends, and finds what there is to find.
pub search-Finds : (fuel : ℕ) → Searches (search fuel) fuel
unfolding search
search-Finds zero s coherent room left = absurd (omega arith)
search-Finds (suc fuel) s coherent room left = elim (choose_lem 81 0 s refl) [
  | inl (cell, e, inside, vacant, mask) ↦ rw e (
      chosen-Finds (search fuel) fuel s cell _ (search-Finds fuel) coherent room (omega arith)
        inside vacant mask)
  | inr (e, full) ↦
      rw e (unfold proceed in finish-Finds s coherent room (λ c h. full c (omega arith) h))
]
