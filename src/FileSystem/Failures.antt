-- ===== src/FileSystem/Failures.antt =====
-- nachos/filesys/filesys.cc: what the operations leave on the disk when they return an error.
use sgptp.Prelude.{ℕ, ◌≡◌, ◌≢◌, sym, ap, ◌∙◌, Option, some, List, ◌>>=◌, >>=-eq-some, arith}
use sgptp.BitMap.{BitMap}
use sgptp.FileHeader.{FileHeader}
use sgptp.Directory.{DirectoryEntry, ErrorCode, no_error}
use sgptp.FileSystem.{
  Storage, FileSystem, Config, fill_file, create_locked, create, give_back, remove, fill_directory,
  mkdir, rmdir,
}

-- The operations that change the file system.
pub data Request : Type 0 where
  create_request : Request
  remove_request : Request
  mkdir_request : Request
  rmdir_request : Request

-- A result that is an error comes with the disk as it was.
Kept : {D : Type 0} → D → Option (ErrorCode × D) → Type 0
Kept disk r = (e : ErrorCode) → (disk' : _) → r ≡ some (e, disk') → e ≢ no_error → disk' ≡ disk

module _ {D : Type 0} (st : Storage D) (cfg : Config) (fs : FileSystem) where
  fill_file-Kept :
      (dirfile : FileHeader) (directory : List DirectoryEntry) (name : List ℕ) (sector : ℕ)
      (free_map : BitMap) (size : ℕ) (disk : D)
      → Kept disk (fill_file st cfg fs dirfile directory name sector free_map size disk)
  unfolding fill_file Kept
  fill_file-Kept dirfile directory name sector free_map size disk e disk' h bad =
      ground (arith, h, bad)

  give_back-Kept :
      (dirfile : FileHeader) (directory : List DirectoryEntry) (name : List ℕ) (sector : ℕ)
      (hdr : FileHeader) (disk : D)
      → Kept disk (give_back st cfg fs dirfile directory name sector hdr disk)
  unfolding give_back Kept
  give_back-Kept dirfile directory name sector hdr disk e disk' h bad = ground (arith, h, bad)

  fill_directory-Kept :
      (dirfile : FileHeader) (directory : List DirectoryEntry) (name : List ℕ) (sector : ℕ)
      (free_map : BitMap) (disk : D)
      → Kept disk (fill_directory st cfg fs dirfile directory name sector free_map disk)
  unfolding fill_directory Kept
  fill_directory-Kept dirfile directory name sector free_map disk e disk' h bad =
      ground (arith, h, bad)

  create_locked-Kept :
      (name : List ℕ) (size : ℕ) (disk : D) → Kept disk (create_locked st cfg fs name size disk)
  unfolding create_locked Kept
  create_locked-Kept name size disk e disk' h bad = grind (arith, h, bad, fill_file-Kept)

  remove-Kept : (name : List ℕ) (disk : D) → Kept disk (remove st cfg fs name disk)
  unfolding remove Kept
  remove-Kept name disk e disk' h bad = grind (arith, h, bad, give_back-Kept)

  mkdir-Kept : (name : List ℕ) (disk : D) → Kept disk (mkdir st cfg fs name disk)
  unfolding mkdir Kept
  mkdir-Kept name disk e disk' h bad = grind (arith, h, bad, fill_directory-Kept)

  rmdir-Kept : (name : List ℕ) (disk : D) → Kept disk (rmdir st cfg fs name disk)
  unfolding rmdir Kept
  rmdir-Kept name disk e disk' h bad = grind (arith, h, bad, give_back-Kept)

  create_failed :
      (name : List ℕ) (size : ℕ) (disk : D) (e : ErrorCode) (disk' : D)
      → e ≢ no_error
      → create st cfg fs name size disk ≡ some (e, disk')
      → (st.acquire disk >>= st.release) ≡ some disk'
  unfolding create Kept
  create_failed name size disk e disk' bad h =
      let (disk1, held, h1) = >>=-eq-some (st.acquire disk) _ h in
      let (r, done, h2) = >>=-eq-some (create_locked st cfg fs name size disk1) _ h1 in
      let (disk3, freed, h3) = >>=-eq-some (st.release r.1) _ h2 in
      let code : r.0 ≡ e = cc h3 in
      let same = create_locked-Kept name size disk1 r.0 r.1 done (λ x. bad (sym code ∙ x)) in
      ground (arith, held, freed, h3, same)

  unfoldable pub serve : Request → List ℕ → ℕ → D → Option (ErrorCode × D)
  serve create_request name size disk = create st cfg fs name size disk
  serve remove_request name size disk = remove st cfg fs name disk
  serve mkdir_request name size disk = mkdir st cfg fs name disk
  serve rmdir_request name size disk = rmdir st cfg fs name disk

  -- The disk after a request that did nothing, where Create takes and gives back its lock.
  abbrev pub untouched : Request → D → Option D
  untouched create_request disk = do held ← st.acquire disk; st.release held
  untouched _ disk = some disk

  -- Whenever Remove, Mkdir or Rmdir returns an error, the disk is as it was; and when Create does, its
  -- two calls of the lock were all that it did.
  pub serve-untouched :
      (q : Request) (name : List ℕ) (size : ℕ) (disk : D) (e : ErrorCode) (disk' : D)
      → serve q name size disk ≡ some (e, disk')
      → e ≢ no_error
      → untouched q disk ≡ some disk'
  unfolding serve Kept
  serve-untouched create_request name size disk e disk' h bad =
      create_failed name size disk e disk' bad h
  serve-untouched remove_request name size disk e disk' h bad =
      ap some (sym (remove-Kept name disk e disk' h bad))
  serve-untouched mkdir_request name size disk e disk' h bad =
      ap some (sym (mkdir-Kept name disk e disk' h bad))
  serve-untouched rmdir_request name size disk e disk' h bad =
      ap some (sym (rmdir-Kept name disk e disk' h bad))
