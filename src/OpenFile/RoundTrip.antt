-- ===== src/OpenFile/RoundTrip.antt =====
-- nachos/filesys/openfile.cc: WriteAt within the sectors of the file, and ReadAt after it.
use sgptp.Prelude.{
  ℕ, ◌+◌, ◌*◌, ◌≤◌, ◌<◌, ◌≡◌, refl, sym, ap, ◌∙◌, false, Option, some, List, length, get_elem?, ltb,
  ◌==◌, ◌||◌, if◌then◌else◌, arith, le→leb, if_true, if_false, Bool-cases, inl, inr,
}
use sgptp.BitMap.{BitMap}
use sgptp.FileHeader.{FileHeader, max_length, max_file_length}
use sgptp.OpenFile.{read_at, make_room, write_at}
use sgptp.OpenFile.Reading.{IsFile, readable, read_at-Read}
use sgptp.OpenFile.Writing.{Written, transfer-Written, IsFile-disk}

-- The header of a file that is at least `end` bytes long.
abbrev pub lengthened : FileHeader → ℕ → FileHeader
lengthened hdr end = record hdr { num_bytes = if ltb hdr.num_bytes end then end else hdr.num_bytes }

module _ (sector_size total : ℕ) where
  pub IsFile-lengthened :
      {hdr : FileHeader} {disk : List ℕ} (f : IsFile sector_size total hdr disk) (end : ℕ)
      → end ≤ hdr.num_sectors * sector_size
      → IsFile sector_size total (lengthened hdr end) disk
  IsFile-lengthened f end h = record {
    some_bytes = f.some_bytes;
    fits = ground (arith, f.fits);
    disk_size = f.disk_size;
    sector = f.sector;
    holds = f.holds;
    in_disk = f.in_disk;
    apart = f.apart;
  }

  module _ (blank : ℕ → List ℕ) (fetch_free_map : List ℕ → Option BitMap)
      (write_back : FileHeader → BitMap → List ℕ → Option (List ℕ)) where
    make_room_lem :
        (hdr : FileHeader) (disk : List ℕ) (position num_bytes : ℕ)
        → position + num_bytes ≤ hdr.num_sectors * sector_size
        → position + num_bytes ≤ max_file_length sector_size
        → make_room sector_size total blank fetch_free_map write_back hdr disk position num_bytes
          ≡ some (num_bytes, lengthened hdr (position + num_bytes), disk)
    unfolding make_room max_length
    make_room_lem hdr disk position num_bytes room most =
        let enough : ltb (hdr.num_sectors * sector_size) (position + num_bytes) ≡ false =
          ground arith in
        elim (Bool-cases (ltb hdr.num_bytes (position + num_bytes))) [
          | inl longer ↦
              if_false _ _ enough
              ∙ if_true _ _ longer
              ∙ rw (le→leb _ _ most) (
                  ap (λ n. some (num_bytes, record hdr { num_bytes = n }, disk))
                    (sym (if_true _ _ longer)))
          | inr within ↦
              if_false _ _ enough
              ∙ if_false _ _ within
              ∙ ap (λ n. some (num_bytes, record hdr { num_bytes = n }, disk))
                  (sym (if_false _ _ within))
        ]

    -- On a file whose parts each have a sector of the disk, a WriteAt of some bytes that starts
    -- inside of the file or at its end, and ends inside of its sectors and of the largest file,
    -- does not abort and writes all of them: the file is as long as before or ends behind them,
    -- they stand at the position, every other byte of the file is what it was, and so is every
    -- byte of the disk outside of the file's sectors.
    pub write_at-Written :
        {hdr : FileHeader} {disk : List ℕ} (f : IsFile sector_size total hdr disk) (from : List ℕ)
        (num_bytes position : ℕ)
        → ((m : ℕ) → length (blank m) ≡ m)
        → 0 < num_bytes
        → position ≤ hdr.num_bytes
        → num_bytes ≤ length from
        → (room : position + num_bytes ≤ hdr.num_sectors * sector_size)
        → position + num_bytes ≤ max_file_length sector_size
        → (disk' : List ℕ) × (write_at sector_size total blank fetch_free_map write_back hdr disk
              from num_bytes position
            ≡ some (num_bytes, lengthened hdr (position + num_bytes), disk'))
          × Written sector_size total
              (IsFile-lengthened f (position + num_bytes) room)
              from
              position
              num_bytes
              disk'
    unfolding write_at
    write_at-Written {hdr = hdr} {disk = disk} f from num_bytes position sized some_count start
          given room most =
        let (disk', moved, w) =
          transfer-Written sector_size total blank (IsFile-lengthened f (position + num_bytes) room)
            from position num_bytes sized some_count (ground arith) given in
        let begins : ((num_bytes == 0) || ltb hdr.num_bytes position) ≡ false = ground arith in
        (
          disk',
          if_false _ _ begins
              ∙ rw (make_room_lem hdr disk position num_bytes room most, moved) refl,
          w,
        )

    -- On a file whose parts each have a sector of the disk, let a WriteAt of some bytes start
    -- inside of the file or at its end, and end inside of its sectors and of the largest file. A
    -- ReadAt of as many bytes at the same position reads them back.
    pub read_at-write_at :
        {hdr : FileHeader} {disk : List ℕ} (f : IsFile sector_size total hdr disk)
        (from into : List ℕ) (num_bytes position : ℕ)
        → ((m : ℕ) → length (blank m) ≡ m)
        → 0 < num_bytes
        → position ≤ hdr.num_bytes
        → num_bytes ≤ length from
        → num_bytes ≤ length into
        → position + num_bytes ≤ hdr.num_sectors * sector_size
        → position + num_bytes ≤ max_file_length sector_size
        → (hdr' : FileHeader) × (disk' into' : List ℕ) × (write_at sector_size total blank
              fetch_free_map write_back hdr disk from num_bytes position
            ≡ some (num_bytes, hdr', disk'))
          × (read_at sector_size total blank hdr' disk' into 0 num_bytes position
              ≡ some (num_bytes, into'))
          × ((k : ℕ) → k < num_bytes → get_elem? into' k ≡ get_elem? from k)
    unfolding IsFile-lengthened
    read_at-write_at {hdr = hdr} f from into num_bytes position sized some_count start given fits
          room most =
        let longer = lengthened hdr (position + num_bytes) in
        let (disk', wrote, w) =
          write_at-Written f from num_bytes position sized some_count start given room most in
        let f' =
          IsFile-disk sector_size total (IsFile-lengthened f (position + num_bytes) room) disk'
            w.size in
        let all : readable sector_size total blank longer num_bytes position ≡ num_bytes =
          ground arith in
        let (into', got, r) =
          read_at-Read sector_size total blank f' into 0 num_bytes position sized
            (omega (arith, all)) in
        (
          longer,
          disk',
          into',
          wrote,
          got ∙ ap (λ n. some (n, into')) all,
          λ k h.
              ap (get_elem? into') (omega arith) ∙ r.inside k (omega (arith, all)) ∙ w.written k h,
        )
