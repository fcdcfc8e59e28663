-- ===== src/Sudoku/Storage.antt =====
-- load_file and save_file of sudoku/storage.cc, over what the system calls answer.
pub mod Atomic
pub mod Loading
pub mod Tests
use Prim.Native.String.{String}
use package.phone.Prelude.{
  ℕ, zero, suc, Bool, true, false, not, List, [], ◌∷◌, ◌++◌, Option, none, some, length, take, drop,
  ltb, if◌then◌else◌,
}
use package.phone.Prelude.Results.{Result, ok, error}

-- 1 << 20.
abbrev pub maximum_size : ℕ
maximum_size = 1048576

-- What open answers: a descriptor, ENOENT or another error.
pub data Opened : Type 0 where
  opened missing refused : Opened

-- What read answers: EINTR, another error, or the bytes read, none at the end of the file.
pub data Read : Type 0 where
  interrupted_read failed_read : Read
  data_read : List ℕ → Read

-- The loop of load_file. A list of answers that ends leaves it running, which is `none`.
unfoldable pub read_loop : List Read → List ℕ → Option (Result (List ℕ))
read_loop [] bytes = none
read_loop (Read.interrupted_read ∷ answers) bytes = read_loop answers bytes
read_loop (Read.failed_read ∷ answers) bytes = some (error "Cannot read the saved game")
read_loop (Read.data_read [] ∷ answers) bytes = some (ok bytes)
read_loop (Read.data_read (b ∷ buffer) ∷ answers) bytes =
    let rest = read_loop answers (bytes ++ (b ∷ buffer)) in
    if ltb maximum_size (length (bytes ++ (b ∷ buffer)))
    then some (error "The saved game is too large")
    else rest

unfoldable pub read_opened : Opened → List Read → Option (Result (List ℕ))
read_opened Opened.opened answers = read_loop answers []
read_opened Opened.missing answers = some (ok [])
read_opened Opened.refused answers = some (error "Cannot open the saved game")

-- The flag says whether the allocation succeeds.
unfoldable pub load_file : Bool → Opened → List Read → Option (Result (List ℕ))
load_file false file answers = some (error "Cannot allocate file state")
load_file true file answers = read_opened file answers

-- The files on the disk that save_file changes: the saved game and the temporary file, if they exist.
pub record Disk : Type 0 where
  pub file : Option (List ℕ)
  pub temporary : Option (List ℕ)

-- What write answers: EINTR, another error or 0, or the number of bytes written, less one.
pub data Write : Type 0 where
  interrupted_write failed_write : Write
  wrote_suc : ℕ → Write

-- What the other calls answer: whether each succeeds.
pub record Calls : Type 0 where
  pub allocated : Bool
  pub created : Bool
  pub synced : Bool
  pub closed : Bool
  pub renamed : Bool
  pub folder_opened : Bool
  pub folder_synced : Bool

-- The loop of save_file, on the bytes from the offset on and what the temporary file holds: whether
-- all were written, and what it holds then. `none` is a loop that is still running.
unfoldable pub write_loop : List Write → List ℕ → List ℕ → Option (Bool × List ℕ)
write_loop answers [] written = some (true, written)
write_loop [] (b ∷ left) written = none
write_loop (Write.interrupted_write ∷ answers) (b ∷ left) written =
    write_loop answers (b ∷ left) written
write_loop (Write.failed_write ∷ answers) (b ∷ left) written = some (false, written)
write_loop (Write.wrote_suc n ∷ answers) (b ∷ left) written =
    write_loop answers (drop n left) (written ++ (b ∷ take n left))

-- An early return while File::pending names the temporary file: its owner unlinks it, and this call
-- is taken to succeed. From the rename on, `pending` is empty, and nothing is unlinked.
unfoldable pub give_up : Disk → String → Result (Unit {0}) × Disk
give_up disk message = (error message, record disk { temporary = none })

-- From the rename on.
unfoldable pub replace : Calls → Disk → List ℕ → Result (Unit {0}) × Disk
replace calls disk written =
    let replaced = record disk { file = some written; temporary = none } in
    if not calls.renamed
    then give_up disk "Cannot replace the saved game"
    else if not calls.folder_opened
    then (error "Cannot flush the saved-game directory", replaced)
    else if not calls.folder_synced
    then (error "Cannot flush the saved-game directory", replaced)
    else (ok tt, replaced)

-- From the end of the loop on.
unfoldable pub flush : Calls → Disk → Bool → List ℕ → Result (Unit {0}) × Disk
flush calls disk false written = give_up disk "Cannot write the saved game"
flush calls disk true written =
    if not calls.synced
    then give_up disk "Cannot flush the saved game"
    else if not calls.closed
    then give_up disk "Cannot close the saved game"
    else replace calls (record disk { temporary = some written }) written

-- With the temporary file created.
unfoldable pub write_temporary :
    Calls → Disk → Option (Bool × List ℕ) → Option (Result (Unit {0}) × Disk)
write_temporary calls disk none = none
write_temporary calls disk (some (complete, written)) =
    some (flush calls (record disk { temporary = some written }) complete written)

unfoldable pub save_file : Calls → List Write → Disk → List ℕ → Option (Result (Unit {0}) × Disk)
save_file calls writes disk bytes =
    if not calls.allocated
    then some (error "Cannot allocate file state", disk)
    else if not calls.created
    then some (error "Cannot create a temporary saved game", disk)
    else write_temporary calls disk (write_loop writes bytes [])
