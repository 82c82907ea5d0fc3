-- ===== src/FileSystem/Examples.antt =====
-- A file system in memory with one directory, and a Create in it.
use sgptp.Prelude.{ℕ, ◌≡◌, refl, true, false, some, List, [], ◌∷◌, replicate, arith, ◌>>=◌}
use mathlib.Core.Path.{subst}
use sgptp.BitMap.{BitMap, div_round_up, find, find_from, mark, test, count_from, num_clear}
use sgptp.BitMap.Words.{IsValid}
use sgptp.FileHeader.{FileHeader, allocate, take_sectors, store}
use sgptp.Directory.{
  DirectoryEntry, ErrorCode, no_error, inexist_directory_error, new_directory, add, find_index,
  find_index_from, fill_first, same_prefix, strncpy,
}
use sgptp.Directory
use sgptp.Directory.Lookup.{IsDirectory, lookup}
use sgptp.FileSystem.{
  Storage, FileSystem, Config, skip_slashes, break_slash, decompname, enter, find_dir_from,
  find_dir, open_directory, fill_file, create_locked, mkdir,
}
use sgptp.FileSystem.Paths.{find_dir-walk, walk, elements}
use sgptp.FileSystem.Failures.{mkdir_request, serve, untouched, serve-untouched}
use sgptp.FileSystem.Changes.{Created, create-Created}

-- Every file that is read is the only directory.
record Memory : Type 0 where
  free_map : BitMap
  table : List DirectoryEntry

abbrev root_header : FileHeader
root_header = record {
  isdir = 1;
  num_bytes = 0;
  num_sectors = 0;
  data_sectors = [];
  num_header_sectors = 0;
  header_sectors = replicate 32 0;
}

abbrev in_memory : Storage Memory
in_memory = record {
  fetch_header = λ d s. some root_header;
  write_header = λ hdr s d. some d;
  fetch_map = λ hdr d. some d.free_map;
  write_map = λ hdr m d. some (record d { free_map = m });
  fetch_directory = λ hdr d old. some d.table;
  write_directory = λ hdr t d. some (record d { table = t });
  acquire = λ d. some d;
  release = λ d. some d;
}

abbrev config : Config
config = record {
  sector_size = 24;
  num_sectors = 40;
  directory_file_size = 48;
  map_memory = 0 ∷ 0 ∷ [];
  table_memory = [];
  sector_memory = replicate 156 0;
  header_memory = root_header;
}

abbrev opened : FileSystem
opened = record { free_map_file = root_header; directory_file = root_header }

abbrev bin : DirectoryEntry
bin = record { in_use = true; sector = 5; name = b'b' ∷ [] }

abbrev unused : DirectoryEntry
unused = record { in_use = false; sector = 0; name = [] }

abbrev disk : Memory
disk = record {
  free_map = record { num_bits = 40; num_words = 2; map = 63 ∷ 0 ∷ [] };
  table = bin ∷ unused ∷ [];
}

-- "/b/f"
abbrev path : List ℕ
path = b'/' ∷ b'b' ∷ b'/' ∷ b'f' ∷ []

find_dir-walk_example : find_dir in_memory config opened path disk ≡ (
    in_memory.fetch_directory root_header disk [] >>= λ root.
    walk in_memory config (elements path).0 (elements path).1 1 root disk)
unfolding new_directory
find_dir-walk_example = find_dir-walk in_memory config opened path disk

-- "/x/f", in a directory that does not exist.
abbrev no_path : List ℕ
no_path = b'/' ∷ b'x' ∷ b'/' ∷ b'f' ∷ []

refused_runs :
    serve in_memory config opened mkdir_request no_path 0 disk
    ≡ some (inexist_directory_error, disk)
unfolding serve mkdir find_dir find_dir_from enter decompname skip_slashes break_slash
    Directory.find find_index find_index_from same_prefix new_directory
refused_runs = refl

serve-untouched_example : untouched in_memory config opened mkdir_request disk ≡ some disk
serve-untouched_example =
    serve-untouched in_memory config opened mkdir_request no_path 0 disk inexist_directory_error
      disk refused_runs (λ h. cc h)

-- The disk after the Create of a file of 30 bytes at `path`.
abbrev with_file : Memory
with_file = record {
  free_map = record { num_bits = 40; num_words = 2; map = 1023 ∷ 0 ∷ [] };
  table = bin ∷ record { in_use = true; sector = 6; name = b'f' ∷ [] } ∷ [];
}

create_runs : create_locked in_memory config opened path 30 disk ≡ some (no_error, with_file)
unfolding create_locked find_dir find_dir_from enter open_directory fill_file decompname
    skip_slashes break_slash Directory.find find_index find_index_from same_prefix new_directory
    find find_from mark test add fill_first strncpy allocate num_clear count_from div_round_up store
    take_sectors
create_runs = refl

table-IsDirectory :
    (s : ℕ) (f : FileHeader) (t : List DirectoryEntry)
    → open_directory in_memory config s disk ≡ some (f, t)
    → IsDirectory t
unfolding open_directory lookup
table-IsDirectory s f t h =
    (let e : disk.table ≡ t = cc h in subst IsDirectory e) ((λ u. refl), ((λ u. refl), tt))

map-IsValid : (m : BitMap) → some disk.free_map ≡ some m → IsValid m
unfolding div_round_up
map-IsValid m h =
    (let e : disk.free_map ≡ m = cc h in subst IsValid e)
      (record { sized = refl; filled = refl; fits = omega arith })

create-Created_example : Created in_memory config opened path 30 disk with_file
create-Created_example =
    create-Created in_memory config opened 30 (omega arith) (omega arith) refl refl path disk
      with_file table-IsDirectory map-IsValid create_runs
