-- ===== src/OpenFileTable/Examples.antt =====
-- A table of fifteen files that are open, which is full, and the same after the first was closed.
use sgptp.Prelude.{ℕ, ◌≡◌, refl, true, false, Option, none, some, [], ◌∷◌, replicate}
use sgptp.BitMap.{BitMap}
use sgptp.FileHeader.{FileHeader}
use sgptp.OpenFileTable.{
  OpenFileTableEntry, OpenFileTable, Disk, findl, findl_from, same_name, open_file, close, destroy,
}
use sgptp.OpenFileTable.Full.{Later, same, do_close, open_file-full}

abbrev some_header : FileHeader
some_header = record {
  isdir = 0;
  num_bytes = 0;
  num_sectors = 0;
  data_sectors = [];
  num_header_sectors = 0;
  header_sectors = [];
}

abbrev file_named : ℕ → Option OpenFileTableEntry
file_named c = some (record {
  name = c ∷ [];
  file = some_header;
  num_thread = 1;
  to_be_deleted = false;
  sector = c;
})

abbrev full_table : OpenFileTable
full_table = record { table = file_named 97 ∷ replicate 14 (file_named 98); nb_entry = none }

abbrev one_closed : OpenFileTable
one_closed = record { table = none ∷ replicate 14 (file_named 98); nb_entry = none }

abbrev some_map : BitMap
some_map = record { num_bits = 8; num_words = 1; map = 0 ∷ [] }

one_closed-Later : Later full_table one_closed
unfolding close findl findl_from same_name destroy
one_closed-Later = do_close some_map (97 ∷ []) some_map same refl

-- The file is on the disk.
abbrev one_file : Disk
one_file = record {
  find_dir = λ path. some (record { in_use = true; sector = 7; name = 97 ∷ [] } ∷ [], path);
  header = λ sector. some_header;
}

open_file-full_example : open_file one_file one_closed (97 ∷ []) ≡ some (none, one_closed)
open_file-full_example = open_file-full one_file (97 ∷ []) refl one_closed-Later not_there
  where
    not_there : findl one_closed (97 ∷ []) ≡ none
    not_there = unfold findl findl_from same_name in refl
