-- ===== src/FileSystem.antt =====
-- nachos/filesys/filesys.h and filesys.cc: paths, and the files and directories of the file system.
--
-- `D` is the disk, with the lock `createLock`. How headers, the map of free sectors and the tables of
-- directories are stored on it is a `Storage`: FetchFrom and WriteBack of FileHeader, BitMap and
-- Directory, and Acquire and Release of the lock. No file grows here, so WriteBack of a map or a
-- directory leaves the header of its file as it is. A path is the characters of a C string before its
-- NUL, which fits into the arrays of MaxFileNameSize characters.

pub mod Paths
mod Examples
pub mod Changes
pub mod Failures
use sgptp.Prelude.{
  ℕ, zero, suc, Bool, true, false, not, Option, none, some, List, [], ◌∷◌, length, ◌/◌, ◌==◌,
  if◌then◌else◌, ◌>>=◌, ◌>>◌, assert,
}
use sgptp.BitMap.{BitMap}
use sgptp.BitMap
use sgptp.FileHeader.{FileHeader, allocate, deallocate}
use sgptp.Directory.{
  DirectoryEntry, ErrorCode, no_error, out_of_disk, already_in_directory, inexist_file_error,
  inexist_directory_error, not_a_file, not_a_directory, directory_not_empty, new_directory, add,
  empty,
}
use sgptp.Directory

-- What decompname leaves of a path behind its leading slashes.
unfoldable pub skip_slashes : List ℕ → List ℕ
skip_slashes [] = []
skip_slashes (c ∷ path) = let rest = skip_slashes path in if c == b'/' then rest else c ∷ path

-- The path up to its next slash, and from there on.
unfoldable pub break_slash : List ℕ → List ℕ × List ℕ
break_slash [] = ([], [])
break_slash (c ∷ path) =
    let rest = break_slash path in if c == b'/' then ([], c ∷ path) else (c ∷ rest.0, rest.1)

-- The result, `head` and `tail`. FindDir passes the path itself as `tail`, so that `memmove` puts its
-- last element there.
unfoldable pub decompname : List ℕ → Bool × List ℕ × List ℕ
decompname orig_path =
    let path = skip_slashes orig_path in
    elim (break_slash path).1 [
      | [] ↦ (false, [], path)
      | c ∷ tail ↦ (true, (break_slash path).0, c ∷ tail)
    ]

pub record Storage (D : Type 0) : Type 0 where
  pub fetch_header : D → ℕ → Option FileHeader
  pub write_header : FileHeader → ℕ → D → Option D
  pub fetch_map : FileHeader → D → Option BitMap
  pub write_map : FileHeader → BitMap → D → Option D
  pub fetch_directory : FileHeader → D → List DirectoryEntry → Option (List DirectoryEntry)
  pub write_directory : FileHeader → List DirectoryEntry → D → Option D
  pub acquire : D → Option D
  pub release : D → Option D

-- The two files that stay open, by their headers.
pub record FileSystem : Type 0 where
  pub free_map_file : FileHeader
  pub directory_file : FileHeader

-- Of `g_cfg`, with NUM_SECTORS: `map_memory`, `table_memory`, `sector_memory` and `header_memory` are
-- what the new arrays and the new header hold.
pub record Config : Type 0 where
  pub sector_size : ℕ
  pub num_sectors : ℕ
  pub directory_file_size : ℕ
  pub map_memory : List ℕ
  pub table_memory : List DirectoryEntry
  pub sector_memory : List ℕ
  pub header_memory : FileHeader

abbrev pub free_map_sector : ℕ
free_map_sector = 0

abbrev pub directory_sector : ℕ
directory_sector = 1

abbrev pub is_dir : FileHeader → Bool
is_dir hdr = hdr.isdir == 1

abbrev pub set_file : FileHeader → FileHeader
set_file hdr = record hdr { isdir = 0 }

abbrev pub set_dir : FileHeader → FileHeader
set_dir hdr = record hdr { isdir = 1 }

-- `result == NoError`.
abbrev pub is_no_error : ErrorCode → Bool
is_no_error no_error = true
is_no_error _ = false

module _ {D : Type 0} (st : Storage D) (cfg : Config) where
  -- A round of the loop of FindDir: the directory of that name, with its sector. The outer `none` is
  -- an abort, the inner one -1.
  unfoldable pub enter :
      List DirectoryEntry → List ℕ → D → Option (Option (ℕ × List DirectoryEntry))
  enter directory dirname disk = elim (Directory.find directory dirname) [
    | none ↦ some none
    | some sector ↦ (do
      hdr ← st.fetch_header disk sector
      if not (is_dir hdr) then some none else (do
        directory' ← st.fetch_directory hdr disk directory
        some (some (sector, directory'))))
  ]

  -- The loop, on fuel.
  unfoldable pub find_dir_from :
      ℕ → ℕ → List DirectoryEntry → List ℕ → D → Option (Option (ℕ × List ℕ))
  find_dir_from zero sector directory name disk = none
  find_dir_from (suc fuel) sector directory name disk =
      let (more, head, tail) = decompname name in
      elim more [
        | false ↦ some (some (sector, tail))
        | true ↦ (do
          found ← enter directory head disk
          elim found [
            | none ↦ some none
            | some (sector', directory') ↦ find_dir_from fuel sector' directory' tail disk
          ])
      ]

  -- The sector of the directory, and what is left of the path.
  unfoldable pub find_dir : FileSystem → List ℕ → D → Option (Option (ℕ × List ℕ))
  find_dir fs name disk = do
    directory ← st.fetch_directory fs.directory_file disk (new_directory cfg.table_memory)
    find_dir_from (suc (length name)) directory_sector directory name disk

  -- `OpenFile file(sector); directory.FetchFrom(&file)` for a new directory.
  unfoldable pub open_directory : ℕ → D → Option (FileHeader × List DirectoryEntry)
  open_directory sector disk = do
    hdr ← st.fetch_header disk sector
    directory ← st.fetch_directory hdr disk (new_directory cfg.table_memory)
    some (hdr, directory)

  -- The constructor with `format`.
  unfoldable pub format : D → Option (FileSystem × D)
  format disk = do
    empty_map ← BitMap.init cfg.map_memory cfg.num_sectors
    with_map ← BitMap.mark empty_map free_map_sector
    with_both ← BitMap.mark with_map directory_sector
    (map_done, map_hdr, map1) ←
        allocate cfg.sector_size cfg.sector_memory with_both (cfg.num_sectors / 8) cfg.header_memory
    assert map_done
    (dir_done, dir_hdr, map2) ←
        allocate cfg.sector_size cfg.sector_memory map1 cfg.directory_file_size cfg.header_memory
    assert dir_done
    disk1 ← st.write_header map_hdr free_map_sector disk
    disk2 ← st.write_header (set_dir dir_hdr) directory_sector disk1
    free_map_file ← st.fetch_header disk2 free_map_sector
    directory_file ← st.fetch_header disk2 directory_sector
    disk3 ← st.write_map free_map_file map2 disk2
    disk4 ← st.write_directory directory_file (new_directory cfg.table_memory) disk3
    some (record { free_map_file = free_map_file; directory_file = directory_file }, disk4)

  -- The constructor without `format`.
  unfoldable pub mount : D → Option (FileSystem × D)
  mount disk = do
    free_map_file ← st.fetch_header disk free_map_sector
    directory_file ← st.fetch_header disk directory_sector
    some (record { free_map_file = free_map_file; directory_file = directory_file }, disk)

  module _ (fs : FileSystem) where
    -- Create from the call of Add on, with the sector for the header.
    unfoldable pub fill_file :
        FileHeader → List DirectoryEntry → List ℕ → ℕ → BitMap → ℕ → D → Option (ErrorCode × D)
    fill_file dirfile directory name sector free_map initial_size disk =
        let (add_result, directory') = add directory name sector in
        if not (is_no_error add_result) then some (add_result, disk) else (do
          (done, hdr, free_map') ←
              allocate cfg.sector_size cfg.sector_memory free_map initial_size
                (set_file cfg.header_memory)
          if not done then some (out_of_disk, disk) else (do
            disk1 ← st.write_header hdr sector disk
            disk2 ← st.write_directory dirfile directory' disk1
            disk3 ← st.write_map fs.free_map_file free_map' disk2
            some (no_error, disk3)))

    -- Create while it holds `createLock`.
    unfoldable pub create_locked : List ℕ → ℕ → D → Option (ErrorCode × D)
    create_locked name initial_size disk = do
      place ← find_dir fs name disk
      elim place [
        | none ↦ some (inexist_file_error, disk)
        | some (dirsector, dirname) ↦ (do
          (dirfile, directory) ← open_directory dirsector disk
          elim (Directory.find directory dirname) [
            | some sector ↦ some (already_in_directory, disk)
            | none ↦ (do
              free_map ← st.fetch_map fs.free_map_file disk
              (found, free_map') ← BitMap.find free_map
              elim found [
                | none ↦ some (out_of_disk, disk)
                | some sector ↦
                    fill_file dirfile directory dirname sector free_map' initial_size disk
              ])
          ])
      ]

    unfoldable pub create : List ℕ → ℕ → D → Option (ErrorCode × D)
    create name initial_size disk = do
      disk1 ← st.acquire disk
      (result, disk2) ← create_locked name initial_size disk1
      disk3 ← st.release disk2
      some (result, disk3)

    -- The OpenFile, by its sector and header; `none` is NULL.
    unfoldable pub open_file : List ℕ → D → Option (Option (ℕ × FileHeader))
    open_file name disk = do
      place ← find_dir fs name disk
      elim place [
        | none ↦ some none
        | some (dirsector, dirname) ↦ (do
          (dirfile, directory) ← open_directory dirsector disk
          elim (Directory.find directory dirname) [
            | none ↦ some none
            | some sector ↦ (do
              hdr ← st.fetch_header disk sector
              some (if is_dir hdr then none else some (sector, hdr)))
          ])
      ]

    -- The end of Remove and Rmdir.
    unfoldable pub give_back :
        FileHeader → List DirectoryEntry → List ℕ → ℕ → FileHeader → D → Option (ErrorCode × D)
    give_back dirfile directory name sector hdr disk = do
      free_map ← st.fetch_map fs.free_map_file disk
      without_data ← deallocate hdr free_map
      without_header ← BitMap.clear without_data sector
      disk1 ← st.write_map fs.free_map_file without_header disk
      disk2 ← st.write_directory dirfile (Directory.remove directory name).1 disk1
      some (no_error, disk2)

    unfoldable pub remove : List ℕ → D → Option (ErrorCode × D)
    remove name disk = do
      place ← find_dir fs name disk
      elim place [
        | none ↦ some (inexist_directory_error, disk)
        | some (dirsector, dirname) ↦ (do
          (dirfile, directory) ← open_directory dirsector disk
          elim (Directory.find directory dirname) [
            | none ↦ some (inexist_file_error, disk)
            | some sector ↦ (do
              hdr ← st.fetch_header disk sector
              if is_dir hdr
                  then some (not_a_file, disk)
                  else give_back dirfile directory dirname sector hdr disk)
          ])
      ]

    -- Mkdir from the Find of a sector for the header on.
    unfoldable pub fill_directory :
        FileHeader → List DirectoryEntry → List ℕ → ℕ → BitMap → D → Option (ErrorCode × D)
    fill_directory parentdirfile parentdir name hdr_sect free_map disk = do
      (done, hdr, free_map') ←
          allocate cfg.sector_size cfg.sector_memory free_map cfg.directory_file_size
            cfg.header_memory
      if not done
          then some (out_of_disk, disk)
          else (let (add_result, parentdir') = add parentdir name hdr_sect in
              if not (is_no_error add_result) then some (add_result, disk) else (do
                disk1 ← st.write_header (set_dir hdr) hdr_sect disk
                newdirfile ← st.fetch_header disk1 hdr_sect
                disk2 ← st.write_directory newdirfile (new_directory cfg.table_memory) disk1
                disk3 ← st.write_directory parentdirfile parentdir' disk2
                disk4 ← st.write_map fs.free_map_file free_map' disk3
                some (no_error, disk4)))

    unfoldable pub mkdir : List ℕ → D → Option (ErrorCode × D)
    mkdir dirname disk = do
      place ← find_dir fs dirname disk
      elim place [
        | none ↦ some (inexist_directory_error, disk)
        | some (parentsect, name) ↦ (do
          (parentdirfile, parentdir) ← open_directory parentsect disk
          elim (Directory.find parentdir name) [
            | some sector ↦ some (already_in_directory, disk)
            | none ↦ (do
              free_map ← st.fetch_map fs.free_map_file disk
              (found, free_map') ← BitMap.find free_map
              elim found [
                | none ↦ some (out_of_disk, disk)
                | some hdr_sect ↦
                    fill_directory parentdirfile parentdir name hdr_sect free_map' disk
              ])
          ])
      ]

    unfoldable pub rmdir : List ℕ → D → Option (ErrorCode × D)
    rmdir dirname disk = do
      place ← find_dir fs dirname disk
      elim place [
        | none ↦ some (inexist_directory_error, disk)
        | some (parentsect, name) ↦ (do
          (parentdirfile, parentdir) ← open_directory parentsect disk
          elim (Directory.find parentdir name) [
            | none ↦ some (inexist_directory_error, disk)
            | some thedirsect ↦ (do
              thedirheader ← st.fetch_header disk thedirsect
              if not (is_dir thedirheader) then some (not_a_directory, disk) else (do
                thedir ← st.fetch_directory thedirheader disk (new_directory cfg.table_memory)
                if not (empty thedir)
                    then some (directory_not_empty, disk)
                    else give_back parentdirfile parentdir name thedirsect thedirheader disk))
          ])
      ]
