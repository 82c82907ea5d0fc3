-- ===== src/OpenFileTable/Full.antt =====
-- nachos/filesys/oftable.cc: the tables that come after one in which `nbentry` is -1.
use sgptp.Prelude.{ℕ, ◌≡◌, ◌∙◌, Option, none, some, List, arith}
use sgptp.BitMap.{BitMap}
use sgptp.OpenFileTable.{OpenFileTable, Disk, Removal, findl, share, open_file, close, doom, remove}

-- t' is a table that calls of Open, Close and Remove make of t.
pub data Later (t : OpenFileTable) : OpenFileTable → Type 0 where
  same : Later t t
  do_open :
      {t1 t2 : OpenFileTable} (d : Disk) (name : List ℕ) (r : Option ℕ)
      → Later t t1
      → open_file d t1 name ≡ some (r, t2)
      → Later t t2
  do_close :
      {t1 t2 : OpenFileTable} (free_map : BitMap) (name : List ℕ) (r : BitMap)
      → Later t t1
      → close free_map t1 name ≡ some (r, t2)
      → Later t t2
  do_remove :
      {t1 t2 : OpenFileTable} (d : Disk) (name : List ℕ) (r : Removal)
      → Later t t1
      → remove d t1 name ≡ some (r, t2)
      → Later t t2

share_keeps :
    (t : OpenFileTable) (num : ℕ) {r : Option ℕ} {t' : OpenFileTable}
    → share t num ≡ some (r, t')
    → t'.nb_entry ≡ t.nb_entry
unfolding share
share_keeps t num h = ground (arith, h)

doom_keeps :
    (t : OpenFileTable) (num : ℕ) {t' : OpenFileTable}
    → doom t num ≡ some t'
    → t'.nb_entry ≡ t.nb_entry
unfolding doom
doom_keeps t num h = ground (arith, h)

open_keeps :
    (d : Disk) (t : OpenFileTable) (name : List ℕ) {r : Option ℕ} {t' : OpenFileTable}
    → t.nb_entry ≡ none
    → open_file d t name ≡ some (r, t')
    → t'.nb_entry ≡ none
unfolding open_file
open_keeps d t name full h = grind (arith, share_keeps, h, full)

close_keeps :
    (free_map : BitMap) (t : OpenFileTable) (name : List ℕ) {r : BitMap} {t' : OpenFileTable}
    → close free_map t name ≡ some (r, t')
    → t'.nb_entry ≡ t.nb_entry
unfolding close
close_keeps free_map t name h = ground (arith, h)

remove_keeps :
    (d : Disk) (t : OpenFileTable) (name : List ℕ) {r : Removal} {t' : OpenFileTable}
    → remove d t name ≡ some (r, t')
    → t'.nb_entry ≡ t.nb_entry
unfolding remove
remove_keeps d t name h = grind (arith, h, doom_keeps)

later_keeps : {t t' : OpenFileTable} → Later t t' → t.nb_entry ≡ none → t'.nb_entry ≡ none
later_keeps same full = full
later_keeps (do_open d name r l h) full = open_keeps d _ name (later_keeps l full) h
later_keeps (do_close free_map name r l h) full = close_keeps free_map _ name h ∙ later_keeps l full
later_keeps (do_remove d name r l h) full = remove_keeps d _ name h ∙ later_keeps l full

-- The defect of Open and Close: let nbentry be -1. Whatever calls of Open, Close and Remove follow, and
-- even if they close every file, Open returns NULL for every path of which no file is open then.
pub open_file-full :
    {t t' : OpenFileTable} (d : Disk) (name : List ℕ)
    → t.nb_entry ≡ none
    → Later t t'
    → findl t' name ≡ none
    → open_file d t' name ≡ some (none, t')
unfolding open_file
open_file-full {t' = t'} d name full l closed =
    let kept = later_keeps l full in ground (arith, closed, kept)
