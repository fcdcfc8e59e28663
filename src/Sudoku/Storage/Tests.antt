-- ===== src/Sudoku/Storage/Tests.antt =====
-- Runs of the loops with interrupted and partial calls, and the theorems at them.
use phone.Prelude.{ℕ, ◌≡◌, refl, true, [], ◌∷◌, none, some, List, arith}
use phone.Prelude.Results.{Result, ok}
use phone.Sudoku.Storage.{Read, Write, Opened, Disk, Calls, load_file, write_loop, save_file}
use phone.Sudoku.Storage.Loading.{load_file-Delivers}
use phone.Sudoku.Storage.Atomic.{IsAtomic, save_file-IsAtomic}

abbrev bytes : List ℕ
bytes = 1 ∷ 2 ∷ 3 ∷ []

abbrev reads : List Read
reads =
    Read.data_read (1 ∷ 2 ∷ [])
    ∷ Read.interrupted_read
    ∷ Read.data_read (3 ∷ [])
    ∷ Read.data_read []
    ∷ []

abbrev pub writes : List Write
writes = Write.wrote_suc 0 ∷ Write.interrupted_write ∷ Write.wrote_suc 1 ∷ Write.failed_write ∷ []

abbrev pub disk : Disk
disk = record { file = none; temporary = none }

abbrev pub calls : Calls
calls = record {
  allocated = true;
  created = true;
  synced = true;
  closed = true;
  renamed = true;
  folder_opened = true;
  folder_synced = true;
}

written : write_loop writes bytes [] ≡ some (true, bytes)
unfolding write_loop
written = refl

load_file-Delivers_example : load_file true Opened.opened reads ≡ some (ok bytes)
load_file-Delivers_example =
    load_file-Delivers reads bytes (3 ∷ [], refl, ([], refl, refl)) (omega arith)

save_file-IsAtomic_example :
    (r : Result (Unit {0}) × Disk) × (save_file calls writes disk bytes ≡ some r)
    × IsAtomic disk bytes r
save_file-IsAtomic_example = save_file-IsAtomic calls disk bytes writes refl (omega arith)
