-- ===== src/FileSystem/Changes.antt =====
-- nachos/filesys/filesys.cc: what Create writes when it succeeds, and that Remove can take it back.
use sgptp.Prelude.{
  ℕ, ◌≤◌, ◌<◌, ◌≡◌, ◌≢◌, refl, sym, ap, ◌∙◌, inl, inr, Bool, false, Option, none, some, List,
  length, ◌==◌, ◌>>=◌, >>=-eq-some, arith, Bool-cases,
}
use sgptp.BitMap.{BitMap, marked, cleared}
use sgptp.BitMap
use sgptp.BitMap.Words.{bit, IsValid, clear_lem}
use sgptp.BitMap.Allocation.{marked-Writes, cleared-Writes}
use sgptp.BitMap.Search.{find-Found}
use sgptp.FileHeader.{
  FileHeader, allocate, deallocate, max_header_sectors, max_data_sectors, max_file_length,
}
use sgptp.FileHeader.Sectors.{Takes-size}
use sgptp.FileHeader.Allocate.{Allocated, allocate-Outcome, deallocate-Allocated, deallocate-size}
use sgptp.Directory.{
  DirectoryEntry, ErrorCode, no_error, out_of_disk, already_in_directory, inexist_file_error, add,
}
use sgptp.Directory
use sgptp.Directory.Lookup.{lookup, IsDirectory}
use sgptp.Directory.Operations.{Rebinds, add-Added}
use sgptp.FileSystem.{
  Storage, FileSystem, Config, set_file, find_dir, open_directory, fill_file, create_locked,
}

-- If the branch of `none` or that of `some` is an error, success is the other one.
present :
    {A D : Type 0} (o : Option A) (f : A → Option (ErrorCode × D)) (e : ErrorCode) (disk : D)
    {disk' : D}
    → e ≢ no_error
    → (elim o as (λ x. Option (ErrorCode × D)) [ none ↦ some (e, disk) | some a ↦ f a ])
      ≡ some (no_error, disk')
    → (a : A) × (o ≡ some a) × (f a ≡ some (no_error, disk'))
present none f e disk bad h = absurd (bad (cc h))
present (some a) f e disk bad h = (a, refl, h)

absent :
    {A D : Type 0} (o : Option A) (r : Option (ErrorCode × D)) (e : ErrorCode) (disk : D)
    {disk' : D}
    → e ≢ no_error
    → (elim o as (λ x. Option (ErrorCode × D)) [ none ↦ r | some a ↦ some (e, disk) ])
      ≡ some (no_error, disk')
    → (o ≡ none) × (r ≡ some (no_error, disk'))
absent none r e disk bad h = (refl, h)
absent (some a) r e disk bad h = absurd (bad (cc h))

allocate-isdir :
    (sector_size size : ℕ) (memory : List ℕ) (m : BitMap) (hdr : FileHeader) {done : Bool}
    {hdr' : FileHeader} {m' : BitMap}
    → allocate sector_size memory m size hdr ≡ some (done, hdr', m')
    → hdr'.isdir ≡ hdr.isdir
unfolding allocate
allocate-isdir sector_size size memory m hdr h = ground (arith, h)

-- The sector that Find takes.
found_sector :
    (m : BitMap) (sector : ℕ) (m1 : BitMap)
    → BitMap.find m ≡ some (some sector, m1)
    → (sector < m.num_bits) × (bit m sector ≡ false) × (m1 ≡ marked m sector)
found_sector m sector m1 h = elim (find-Found m) [
  | inl (r, full) ↦ absurd (cc (r, h))
  | inr (i, r, lt, free, full) ↦
      let same : i ≡ sector = cc (r, h) in
      let rest : m1 ≡ marked m i = cc (r, h) in
      (omega (arith, lt, same), ap (bit m) (sym same) ∙ free, rest ∙ ap (marked m) same)
]

deallocate_sector :
    (sector_size size : ℕ) (m : BitMap) (sector : ℕ) (hdr : FileHeader) (m' : BitMap)
    → IsValid m
    → sector < m.num_bits
    → bit m sector ≡ false
    → Allocated sector_size size (marked m sector) hdr m'
    → (m1 : BitMap) × (m2 : BitMap) × (deallocate hdr m' ≡ some m1)
      × (BitMap.clear m1 sector ≡ some m2)
      × ((j : ℕ) → bit m2 j ≡ bit m j)
deallocate_sector sector_size size m sector hdr m' v lt free a =
    let (m1, back, valid, bits) =
      deallocate-Allocated sector_size size (marked m sector) hdr m' a in
    let long : m1.num_bits ≡ m.num_bits =
      deallocate-size hdr m' back ∙ Takes-size a.data_taken ∙ Takes-size a.header_taken in
    let inside : sector < m1.num_bits = omega (arith, long) in
    let w = marked-Writes m sector v lt in
    let w' = cleared-Writes m1 sector valid inside in
    (
      m1,
      cleared m1 sector,
      back,
      clear_lem m1 sector inside,
      λ j. elim (Bool-cases (sector == j)) [
        | inl same ↦
            let e : sector ≡ j = ground (arith, same) in
            ground (arith, w'.bits j, free, ap (bit m) e)
        | inr other ↦ ground (arith, w'.bits j, bits j, w.bits j)
      ],
    )

module _ {D : Type 0} (st : Storage D) (cfg : Config) (fs : FileSystem) where
  -- A successful end of Create, from Add on: `m` is the map of free sectors before Find.
  pub record Filled (dirfile : FileHeader) (directory : List DirectoryEntry) (name : List ℕ)
      (sector : ℕ) (m : BitMap) (size : ℕ) (disk disk' : D) : Type 0 where
    pub directory' : List DirectoryEntry
    pub hdr : FileHeader
    pub m' : BitMap
    pub new : lookup directory name ≡ none
    pub binds : Rebinds directory name (some sector) directory'
    pub distinct : IsDirectory directory'
    pub is_file : hdr.isdir ≡ 0
    pub allocated : Allocated cfg.sector_size size (marked m sector) hdr m'
    pub written :
        (st.write_header hdr sector disk >>= λ d1.
        st.write_directory dirfile directory' d1 >>= λ d2. st.write_map fs.free_map_file m' d2)
        ≡ some disk'

  -- A successful Create. `m_again` is the map after Deallocate and Clear as Remove calls them.
  pub record Created (name : List ℕ) (size : ℕ) (disk disk' : D) : Type 0 where
    pub dirsector : ℕ
    pub dirname : List ℕ
    pub dirfile : FileHeader
    pub directory : List DirectoryEntry
    pub m : BitMap
    pub sector : ℕ
    pub found : find_dir st cfg fs name disk ≡ some (some (dirsector, dirname))
    pub opened : open_directory st cfg dirsector disk ≡ some (dirfile, directory)
    pub map_before : st.fetch_map fs.free_map_file disk ≡ some m
    pub sector_free : bit m sector ≡ false
    pub filled : Filled dirfile directory dirname sector m size disk disk'
    pub without_data : BitMap
    pub m_again : BitMap
    pub given_back : deallocate filled.hdr filled.m' ≡ some without_data
    pub cleared_header : BitMap.clear without_data sector ≡ some m_again
    pub same_map : (j : ℕ) → bit m_again j ≡ bit m j

  module _ (size : ℕ) (big : 24 ≤ cfg.sector_size) (small : size ≤ max_file_length cfg.sector_size)
      (room : length cfg.sector_memory ≡ max_data_sectors cfg.sector_size)
      (slots : length cfg.header_memory.header_sectors ≡ max_header_sectors) where
    fill_file-Filled :
        (dirfile : FileHeader) (directory : List DirectoryEntry) (name : List ℕ) (sector : ℕ)
        (m : BitMap) (disk : D) {disk' : D}
        → IsDirectory directory
        → IsValid (marked m sector)
        → fill_file st cfg fs dirfile directory name sector (marked m sector) size disk
          ≡ some (no_error, disk')
        → Filled dirfile directory name sector m size disk disk'
    unfolding fill_file
    fill_file-Filled dirfile directory name sector m disk d v h =
        elim (add-Added directory name sector d) [
          | inl (code, same, there) ↦ absurd (ground (arith, code, h))
          | inr (new, inl (code, same, full)) ↦ absurd (ground (arith, code, h))
          | inr (new, inr (code, binds, distinct)) ↦
              elim (allocate-Outcome cfg.sector_size size cfg.sector_memory (marked m sector)
                (set_file cfg.header_memory) big small v room slots) [
                  | inl (hdr, r, few) ↦ absurd (ground (arith, code, r, h))
                  | inr (hdr, m', r, a) ↦ record {
                    directory' = (add directory name sector).1;
                    hdr = hdr;
                    m' = m';
                    new = new;
                    binds = binds;
                    distinct = distinct;
                    is_file =
                        allocate-isdir cfg.sector_size size cfg.sector_memory (marked m sector)
                          (set_file cfg.header_memory) r;
                    allocated = a;
                    written = ground (arith, code, r, h);
                  }
                ]
        ]

    -- A Create that succeeds: the path leads to a directory in which the name stood for nothing. A free
    -- sector holds the header, of a file, for which Allocate took free sectors only; the header is
    -- written there, then the directory in which the name stands for that sector and every other name
    -- for what it stood for, then the map. With Deallocate and Clear, as Remove calls them, that map has
    -- again the bits it had. This holds for directories without double names, a valid map, and a size up
    -- to MAX_FILE_LENGTH.
    pub create-Created :
        (name : List ℕ) (disk disk' : D)
        → ((s : ℕ) (f : FileHeader) (t : List DirectoryEntry)
            → open_directory st cfg s disk ≡ some (f, t)
            → IsDirectory t)
        → ((m : BitMap) → st.fetch_map fs.free_map_file disk ≡ some m → IsValid m)
        → create_locked st cfg fs name size disk ≡ some (no_error, disk')
        → Created name size disk disk'
    unfolding create_locked
    create-Created name disk disk' dirs maps h =
        let (place, found, h1) = >>=-eq-some (find_dir st cfg fs name disk) _ h in
        let ((dirsector, dirname), there, h2) =
          present place _ inexist_file_error disk (λ x. cc x) h1 in
        let ((dirfile, directory), opened, h3) =
          >>=-eq-some (open_directory st cfg dirsector disk) _ h2 in
        let (missing, h4) =
          absent (Directory.find directory dirname) _ already_in_directory disk (λ x. cc x) h3 in
        let (m, map_before, h5) = >>=-eq-some (st.fetch_map fs.free_map_file disk) _ h4 in
        let ((sector', m1), search, h6) = >>=-eq-some (BitMap.find m) _ h5 in
        let (sector, is, h7) = present sector' _ out_of_disk disk (λ x. cc x) h6 in
        let v = maps m map_before in
        let (lt, free, taken) =
          found_sector m sector m1 (search ∙ ap (λ (o : Option ℕ). some (o, m1)) is) in
        let filled =
          fill_file-Filled dirfile directory dirname sector m disk
            (dirs dirsector dirfile directory opened) (marked-Writes m sector v lt).valid
            (ap (λ b. fill_file st cfg fs dirfile directory dirname sector b size disk) (sym taken)
              ∙ h7) in
        let (without_data, m_again, given_back, cleared_header, same_map) =
          deallocate_sector cfg.sector_size size m sector filled.hdr filled.m' v lt free
            filled.allocated in
        record {
          dirsector = dirsector;
          dirname = dirname;
          dirfile = dirfile;
          directory = directory;
          m = m;
          sector = sector;
          found = found ∙ ap some there;
          opened = opened;
          map_before = map_before;
          sector_free = free;
          filled = filled;
          without_data = without_data;
          m_again = m_again;
          given_back = given_back;
          cleared_header = cleared_header;
          same_map = same_map;
        }
