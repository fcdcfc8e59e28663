-- ===== src/Sudoku/Storage/Atomic.antt =====
-- save_file leaves the old file or the new one, and no temporary file.
use phone.Prelude.{
  ℕ, zero, suc, ◌≤◌, ◌≡◌, ◌≢◌, ◌⊎◌, refl, sym, ◌∙◌, ap, subst, inl, inr, Bool, true, false, not,
  List, [], ◌∷◌, ◌++◌, Option, none, some, length, take, drop, arith, if-both, Option-cases,
}
use Prim.Native.String.{String}
use phone.Prelude.Results.{Result, ok}
use mathlib.Core.List.{append_assoc, append-nil}
use phone.Sudoku.Storage.{
  Disk, Write, Calls, write_loop, give_up, replace, flush, write_temporary, save_file,
}

take-drop : (n : ℕ) (xs : List ℕ) → take n xs ++ drop n xs ≡ xs
take-drop zero xs = refl
take-drop (suc n) [] = refl
take-drop (suc n) (x ∷ xs) = ap (λ (ys : List ℕ). x ∷ ys) (take-drop n xs)

-- A loop that wrote everything wrote the bytes in order.
abbrev Written : List ℕ → Option (Bool × List ℕ) → Type 0
Written bytes none = Unit {0}
Written bytes (some (complete, written)) = complete ≡ true → written ≡ bytes

write_loop-Written :
    (answers : List Write) (left written : List ℕ)
    → Written (written ++ left) (write_loop answers left written)
unfolding write_loop
write_loop-Written [] [] written = λ e. sym (append-nil written)
write_loop-Written (answer ∷ answers) [] written = λ e. sym (append-nil written)
write_loop-Written [] (b ∷ left) written = tt
write_loop-Written (Write.interrupted_write ∷ answers) (b ∷ left) written =
    write_loop-Written answers (b ∷ left) written
write_loop-Written (Write.failed_write ∷ answers) (b ∷ left) written = λ e. absurd cc
write_loop-Written (Write.wrote_suc n ∷ answers) (b ∷ left) written =
    subst
      (λ (bytes : List ℕ).
        Written bytes (write_loop answers (drop n left) (written ++ (b ∷ take n left))))
      (append_assoc written (b ∷ take n left) (drop n left)
        ∙ ap (λ (xs : List ℕ). written ++ (b ∷ xs)) (take-drop n left))
      (write_loop-Written answers (drop n left) (written ++ (b ∷ take n left)))

-- The answers that are not an interruption.
abbrev pub progress : List Write → ℕ
progress [] = 0
progress (Write.interrupted_write ∷ answers) = progress answers
progress (Write.failed_write ∷ answers) = suc (progress answers)
progress (Write.wrote_suc n ∷ answers) = suc (progress answers)

length-drop_le : (n : ℕ) (xs : List ℕ) → length (drop n xs) ≤ length xs
length-drop_le zero xs = omega arith
length-drop_le (suc n) [] = omega arith
length-drop_le (suc n) (x ∷ xs) = omega (arith, length-drop_le n xs)

write_loop-returns :
    (answers : List Write) (left written : List ℕ)
    → length left ≤ progress answers
    → write_loop answers left written ≢ none
unfolding write_loop
write_loop-returns [] [] written enough = λ e. cc
write_loop-returns (answer ∷ answers) [] written enough = λ e. cc
write_loop-returns [] (b ∷ left) written enough = absurd (omega arith)
write_loop-returns (Write.interrupted_write ∷ answers) (b ∷ left) written enough =
    write_loop-returns answers (b ∷ left) written enough
write_loop-returns (Write.failed_write ∷ answers) (b ∷ left) written enough = λ e. cc
write_loop-returns (Write.wrote_suc n ∷ answers) (b ∷ left) written enough =
    write_loop-returns answers (drop n left) (written ++ (b ∷ take n left))
      (omega (arith, length-drop_le n left))

-- The saved game is the old one or the new one, the new one after a success, and the temporary file
-- is gone.
pub record IsAtomic (disk : Disk) (bytes : List ℕ) (r : Result (Unit {0}) × Disk) : Type 0 where
  pub whole : (r.1.file ≡ disk.file) ⊎ (r.1.file ≡ some bytes)
  pub stored : r.0 ≡ ok tt → r.1.file ≡ some bytes
  pub cleaned : r.1.temporary ≡ none

abbrev AtomicIfReturned : Disk → List ℕ → Option (Result (Unit {0}) × Disk) → Type 0
AtomicIfReturned disk bytes none = Unit {0}
AtomicIfReturned disk bytes (some r) = IsAtomic disk bytes r

module _ (calls : Calls) (disk : Disk) (bytes : List ℕ) where
  kept :
      (message : String) (other : Option (List ℕ))
      → IsAtomic disk bytes (give_up (record disk { temporary = other }) message)
  unfolding give_up
  kept message other = record { whole = inl refl; stored = λ e. absurd cc; cleaned = refl }

  replace-IsAtomic :
      (other : Option (List ℕ))
      → IsAtomic disk bytes (replace calls (record disk { temporary = other }) bytes)
  unfolding replace
  replace-IsAtomic other = if-both (IsAtomic disk bytes) (not calls.renamed) (kept _ other) (
      if-both (IsAtomic disk bytes) (not calls.folder_opened)
        (record { whole = inr refl; stored = λ e. absurd cc; cleaned = refl })
        (if-both (IsAtomic disk bytes) (not calls.folder_synced)
          (record { whole = inr refl; stored = λ e. absurd cc; cleaned = refl })
          (record { whole = inr refl; stored = λ e. refl; cleaned = refl })))

  flush-IsAtomic :
      (complete : Bool) (written : List ℕ) (other : Option (List ℕ))
      → (complete ≡ true → written ≡ bytes)
      → IsAtomic disk bytes (flush calls (record disk { temporary = other }) complete written)
  unfolding flush
  flush-IsAtomic false written other same = kept _ other
  flush-IsAtomic true written other same =
      if-both (IsAtomic disk bytes) (not calls.synced) (kept _ other) (
        if-both (IsAtomic disk bytes) (not calls.closed) (kept _ other) (
          subst
            (λ (ws : List ℕ).
              IsAtomic disk bytes (replace calls (record disk { temporary = some ws }) ws))
            (sym (same refl)) (replace-IsAtomic (some bytes))))

  write_temporary-IsAtomic :
      (looped : Option (Bool × List ℕ))
      → Written bytes looped
      → AtomicIfReturned disk bytes (write_temporary calls disk looped)
  unfolding write_temporary
  write_temporary-IsAtomic none h = tt
  write_temporary-IsAtomic (some (complete, written)) h =
      flush-IsAtomic complete written (some written) h

  save_file-Atomic :
      (writes : List Write)
      → disk.temporary ≡ none
      → AtomicIfReturned disk bytes (save_file calls writes disk bytes)
  unfolding save_file
  save_file-Atomic writes clean =
      if-both (AtomicIfReturned disk bytes) (not calls.allocated)
        (record { whole = inl refl; stored = λ e. absurd cc; cleaned = clean })
        (if-both (AtomicIfReturned disk bytes) (not calls.created)
          (record { whole = inl refl; stored = λ e. absurd cc; cleaned = clean })
          (write_temporary-IsAtomic (write_loop writes bytes [])
            (write_loop-Written writes bytes [])))

  write_temporary-returns :
      (looped : Option (Bool × List ℕ)) → looped ≢ none → write_temporary calls disk looped ≢ none
  unfolding write_temporary
  write_temporary-returns none returned = absurd (returned refl)
  write_temporary-returns (some (complete, written)) returned = λ e. cc

  save_file-returns :
      (writes : List Write)
      → length bytes ≤ progress writes
      → save_file calls writes disk bytes ≢ none
  unfolding save_file
  save_file-returns writes enough =
      if-both (λ (o : Option (Result (Unit {0}) × Disk)). o ≢ none) (not calls.allocated) (λ e. cc)
        (if-both (λ (o : Option (Result (Unit {0}) × Disk)). o ≢ none) (not calls.created) (λ e. cc)
          (write_temporary-returns (write_loop writes bytes [])
            (write_loop-returns writes bytes [] enough)))

  -- From a disk without a temporary file, and given at least as many answers of write other than
  -- EINTR as there are bytes, save_file returns, however the system calls end: the saved game is then
  -- the old one or the new one, it is the new one if save_file succeeded, and no temporary file is
  -- left.
  pub save_file-IsAtomic :
      (writes : List Write)
      → disk.temporary ≡ none
      → length bytes ≤ progress writes
      → (r : Result (Unit {0}) × Disk) × (save_file calls writes disk bytes ≡ some r)
        × IsAtomic disk bytes r
  save_file-IsAtomic writes clean enough = elim (Option-cases (save_file calls writes disk bytes)) [
    | inl e ↦ absurd (save_file-returns writes enough e)
    | inr (r, e) ↦ (r, e, subst (AtomicIfReturned disk bytes) e (save_file-Atomic writes clean))
  ]
