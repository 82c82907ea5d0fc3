-- ===== src/OpenFileTable.antt =====
-- nachos/filesys/oftable.h and oftable.cc: the table of the files that are open.
--
-- A place of the table that is NULL is `none`, and so is a place, a sector or an OpenFile of -1 or
-- NULL. `free_map` is the map of free sectors in its file. What Open and Remove read from the disk is
-- a `Disk`: the directory that FindDir finds for a path, with the name that it leaves, and the file
-- header at a sector.
pub mod Full
mod Examples
use sgptp.Prelude.{
  ℕ, zero, suc, ◌+◌, ◌-◌, Bool, true, false, Option, none, some, List, [], ◌∷◌, get_elem?, set,
  replicate, ◌==◌, if◌then◌else◌, ◌>>=◌,
}
use sgptp.BitMap.{BitMap}
use sgptp.BitMap
use sgptp.FileHeader.{FileHeader, deallocate}
use sgptp.Directory.{DirectoryEntry}
use sgptp.Directory

pub record OpenFileTableEntry : Type 0 where
  pub name : List ℕ
  pub file : FileHeader
  pub num_thread : ℕ
  pub to_be_deleted : Bool
  pub sector : ℕ

-- `nb_entry` is the place for the next file.
pub record OpenFileTable : Type 0 where
  pub table : List (Option OpenFileTableEntry)
  pub nb_entry : Option ℕ

pub record Disk : Type 0 where
  pub find_dir : List ℕ → Option (List DirectoryEntry × List ℕ)
  pub header : ℕ → FileHeader

abbrev pub nb_oft_entry : ℕ
nb_oft_entry = 15

unfoldable pub new_table : OpenFileTable
new_table = record { table = replicate nb_oft_entry none; nb_entry = some 0 }

-- `strcmp(a, b) == 0`.
unfoldable pub same_name : List ℕ → List ℕ → Bool
same_name [] [] = true
same_name [] (d ∷ b) = false
same_name (c ∷ a) [] = false
same_name (c ∷ a) (d ∷ b) = let rest = same_name a b in if c == d then rest else false

abbrev pub is_at : Option OpenFileTableEntry → List ℕ → Bool
is_at slot name = elim slot [ none ↦ false | some e ↦ same_name e.name name ]

-- The loop of findl, from place i.
unfoldable pub findl_from : List (Option OpenFileTableEntry) → ℕ → List ℕ → Option ℕ
findl_from [] i name = none
findl_from (slot ∷ table) i name =
    let rest = findl_from table (i + 1) name in if is_at slot name then some i else rest

unfoldable pub findl : OpenFileTable → List ℕ → Option ℕ
findl t name = findl_from t.table 0 name

-- The loop of next_entry, from place i.
unfoldable pub next_entry : List (Option OpenFileTableEntry) → ℕ → Option ℕ
next_entry [] i = none
next_entry (none ∷ table) i = some i
next_entry (some e ∷ table) i = next_entry table (i + 1)

-- Open of a file that is in the table.
unfoldable pub share : OpenFileTable → ℕ → Option (Option ℕ × OpenFileTable)
share t num = do
  slot ← get_elem? t.table num
  e ← slot
  some (
      if e.to_be_deleted then (none, t) else (
        some e.sector,
        record t { table = set t.table num (some (record e { num_thread = e.num_thread + 1 })) },
      ))

-- Open of a file that is not in the table, at place i.
unfoldable pub open_new : Disk → OpenFileTable → List ℕ → ℕ → Option ℕ × OpenFileTable
open_new d t name i = elim (d.find_dir name) [
  | none ↦ (none, t)
  | some (directory, filename) ↦ elim (Directory.find directory filename) [
    | none ↦ (none, t)
    | some sector ↦
        if (d.header sector).isdir == 1
        then (none, t)
        else (let entry : OpenFileTableEntry = record {
          name = name;
          file = d.header sector;
          num_thread = 1;
          to_be_deleted = false;
          sector = sector;
        } in
            let table = set t.table i (some entry) in
            (some sector, record { table = table; nb_entry = next_entry table 0 }))
  ]
]

-- The result is the sector of the OpenFile.
unfoldable pub open_file : Disk → OpenFileTable → List ℕ → Option (Option ℕ × OpenFileTable)
open_file d t name = elim (findl t name) [
  | some num ↦ share t num
  | none ↦ elim t.nb_entry [ none ↦ some (none, t) | some i ↦ some (open_new d t name i) ]
]

-- The destructor of an entry.
unfoldable pub destroy : OpenFileTableEntry → BitMap → Option BitMap
destroy e free_map =
    if e.to_be_deleted
    then (deallocate e.file free_map >>= λ freed. BitMap.clear freed e.sector)
    else some free_map

unfoldable pub close : BitMap → OpenFileTable → List ℕ → Option (BitMap × OpenFileTable)
close free_map t name = elim (findl t name) [
  | none ↦ some (free_map, t)
  | some num ↦ (do
    slot ← get_elem? t.table num
    e ← slot
    let left = e.num_thread - 1
    freed ← (if left == 0 then destroy e free_map else some free_map)
    let slot' = if left == 0 then none else some (record e { num_thread = left })
    some (freed, record t { table = set t.table num slot' }))
]

-- What Remove does: nothing for a file that does not exist; the directory that it writes back, for a
-- file that is open; or the call of FileSystem::Remove.
pub data Removal : Type 0 where
  inexist_file_error : Removal
  wrote_directory : List DirectoryEntry → Removal
  file_system_remove : Removal

-- `ToBeDeleted = true` at place num.
unfoldable pub doom : OpenFileTable → ℕ → Option OpenFileTable
doom t num = do
  slot ← get_elem? t.table num
  e ← slot
  some (record t { table = set t.table num (some (record e { to_be_deleted = true })) })

unfoldable pub remove : Disk → OpenFileTable → List ℕ → Option (Removal × OpenFileTable)
remove d t name = elim (d.find_dir name) [
  | none ↦ some (inexist_file_error, t)
  | some (directory, filename) ↦ elim (Directory.find directory filename) [
    | none ↦ some (inexist_file_error, t)
    | some sector ↦ elim (findl t name) [
      | none ↦ some (file_system_remove, t)
      | some num ↦ (do
        t' ← doom t num
        some (wrote_directory (Directory.remove directory filename).1, t'))
    ]
  ]
]
