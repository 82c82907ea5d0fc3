-- ===== src/Directory.antt =====
-- nachos/filesys/directory.h and directory.cc: the table of names of a directory. `table` is the
-- array of entries, `tableSize` its length, which never changes. A name is the characters of a C
-- string before its NUL. Of a stored name only the first FILENAMEMAXLEN characters are ever
-- compared, so the byte behind them, which `strncpy` may leave unset, plays no part. An index or a
-- sector of -1 is `none`.
pub mod Names
pub mod Lookup
pub mod Operations
mod Examples
use sgptp.Prelude.{
  ℕ, zero, suc, ◌+◌, Bool, true, false, not, Option, none, some, List, [], ◌∷◌, ◌==◌, if◌then◌else◌,
  get_elem?, ◌>>=◌, replicate,
}

pub record DirectoryEntry : Type 0 where
  pub in_use : Bool
  pub sector : ℕ
  pub name : List ℕ

-- The codes of kernel/msgerror.h; `ErrorCode` is the `int` that names one.
pub data ErrorCode : Type 0 where
  no_error : ErrorCode
  inc_error : ErrorCode
  open_file_error : ErrorCode
  exec_file_format_error : ErrorCode
  out_of_memory : ErrorCode
  out_of_disk : ErrorCode
  already_in_directory : ErrorCode
  inexist_file_error : ErrorCode
  inexist_directory_error : ErrorCode
  no_space_in_directory : ErrorCode
  not_a_file : ErrorCode
  not_a_directory : ErrorCode
  directory_not_empty : ErrorCode
  invalid_semaphore_id : ErrorCode
  invalid_lock_id : ErrorCode
  invalid_condition_id : ErrorCode
  invalid_file_id : ErrorCode
  invalid_thread_id : ErrorCode
  no_acia : ErrorCode

abbrev pub file_name_max_len : ℕ
file_name_max_len = 80

-- `strncpy(_, src, n)`: the characters that it stores.
unfoldable pub strncpy : ℕ → List ℕ → List ℕ
strncpy zero src = []
strncpy (suc n) [] = []
strncpy (suc n) (c ∷ src) = c ∷ strncpy n src

-- `!strncmp(a, b, n)`.
unfoldable pub same_prefix : ℕ → List ℕ → List ℕ → Bool
same_prefix zero a b = true
same_prefix (suc n) [] [] = true
same_prefix (suc n) [] (d ∷ b) = false
same_prefix (suc n) (c ∷ a) [] = false
same_prefix (suc n) (c ∷ a) (d ∷ b) = let rest = same_prefix n a b in if c == d then rest else false

-- The constructor; `memory` is what `new DirectoryEntry[size]` returns.
unfoldable pub new_directory : List DirectoryEntry → List DirectoryEntry
new_directory [] = []
new_directory (e ∷ memory) = record e { in_use = false } ∷ new_directory memory

abbrev pub matches : DirectoryEntry → List ℕ → Bool
matches e name = if e.in_use then same_prefix file_name_max_len e.name name else false

unfoldable pub find_index_from : List DirectoryEntry → ℕ → List ℕ → Option ℕ
find_index_from [] i name = none
find_index_from (e ∷ table) i name =
    let rest = find_index_from table (i + 1) name in if matches e name then some i else rest

unfoldable pub find_index : List DirectoryEntry → List ℕ → Option ℕ
unfolding find_index_from
find_index table name = find_index_from table 0 name

unfoldable pub find : List DirectoryEntry → List ℕ → Option ℕ
unfolding find_index
find table name = do i ← find_index table name; e ← get_elem? table i; some e.sector

-- The loop of Add: the first entry that is not in use is filled.
unfoldable pub fill_first : List DirectoryEntry → List ℕ → ℕ → ErrorCode × List DirectoryEntry
unfolding strncpy
fill_first [] name new_sector = (no_space_in_directory, [])
fill_first (e ∷ table) name new_sector =
    let rest = fill_first table name new_sector in
    if not e.in_use
    then (
      no_error,
      record { in_use = true; sector = new_sector; name = strncpy file_name_max_len name } ∷ table,
    )
    else (rest.0, e ∷ rest.1)

unfoldable pub add : List DirectoryEntry → List ℕ → ℕ → ErrorCode × List DirectoryEntry
unfolding find_index fill_first
add table name new_sector = elim (find_index table name) [
  | some i ↦ (already_in_directory, table)
  | none ↦ fill_first table name new_sector
]

-- `table[i].inUse = false`.
unfoldable pub switch_off : List DirectoryEntry → ℕ → List DirectoryEntry
switch_off [] i = []
switch_off (e ∷ table) zero = record e { in_use = false } ∷ table
switch_off (e ∷ table) (suc i) = e ∷ switch_off table i

unfoldable pub remove : List DirectoryEntry → List ℕ → ErrorCode × List DirectoryEntry
unfolding find_index switch_off
remove table name = elim (find_index table name) [
  | some i ↦ (no_error, switch_off table i)
  | none ↦ (inexist_directory_error, table)
]

unfoldable pub empty : List DirectoryEntry → Bool
empty [] = true
empty (e ∷ table) = let rest = empty table in if e.in_use then false else rest
