-- ===== src/OpenFile.antt =====
-- nachos/filesys/openfile.h and openfile.cc: the bytes of an open file, on a disk of whole sectors,
-- with ReadRequest and WriteRequest of machine/disk.cc behind the driver's ReadSector and WriteSector.
--
-- The disk is the bytes of all its sectors. `blank n` is what an array of n bytes on the stack holds
-- before it is written. `fetch_free_map` and `write_back` are what WriteAt does with the file of the
-- free map and with the header on disk. Positions and sizes are from 0 on, and their sum is an `int`.
-- The driver's lock and semaphore, and the latency of the disk, are left out.
pub mod Copies
pub mod Reading
pub mod Buffers
pub mod Writing
pub mod RoundTrip
mod Examples
use sgptp.Prelude.{
  ℕ, zero, suc, ◌+◌, ◌-◌, ◌*◌, ◌/◌, Bool, true, false, not, Option, none, some, List, length,
  get_elem?, set, ltb, leb, ◌==◌, if◌then◌else◌, ◌&&◌, ◌||◌, ◌>>=◌, ◌>>◌, assert,
}
use sgptp.BitMap.{BitMap}
use sgptp.FileHeader.{FileHeader, byte_to_sector, max_length, max_file_length, re_allocate}

-- `bcopy(&src[i], &dst[j], n)`.
unfoldable pub bcopy : ℕ → List ℕ → ℕ → List ℕ → ℕ → Option (List ℕ)
bcopy zero src i dst j = some dst
bcopy (suc n) src i dst j = do
  b ← get_elem? src i
  assert (ltb j (length dst))
  bcopy n src (i + 1) (set dst j b) (j + 1)

pub record OpenFile : Type 0 where
  pub hdr : FileHeader
  pub seek_position : ℕ

module _ (sector_size num_sectors : ℕ) where
  unfoldable pub read_sector : List ℕ → ℕ → List ℕ → ℕ → Option (List ℕ)
  read_sector disk sector buf place = do
    assert (ltb sector num_sectors)
    bcopy sector_size disk (sector * sector_size) buf place

  unfoldable pub write_sector : List ℕ → ℕ → List ℕ → ℕ → Option (List ℕ)
  write_sector disk sector buf place = do
    assert (ltb sector num_sectors)
    bcopy sector_size buf place disk (sector * sector_size)

  -- The loops over the sectors from firstSector on; `d` is `i - firstSector`.
  unfoldable pub read_sectors : FileHeader → List ℕ → ℕ → ℕ → ℕ → List ℕ → Option (List ℕ)
  read_sectors hdr disk first zero d buf = some buf
  read_sectors hdr disk first (suc n) d buf = do
    sector ← byte_to_sector sector_size hdr ((first + d) * sector_size)
    buf' ← read_sector disk sector buf (d * sector_size)
    read_sectors hdr disk first n (d + 1) buf'

  unfoldable pub write_sectors : FileHeader → List ℕ → ℕ → ℕ → ℕ → List ℕ → Option (List ℕ)
  write_sectors hdr buf first zero d disk = some disk
  write_sectors hdr buf first (suc n) d disk = do
    sector ← byte_to_sector sector_size hdr ((first + d) * sector_size)
    disk' ← write_sector disk sector buf (d * sector_size)
    write_sectors hdr buf first n (d + 1) disk'

  module _ (blank : ℕ → List ℕ) where
    -- ReadAt into `&into[place]`: the number of bytes, and the array after it.
    unfoldable pub read_at : FileHeader → List ℕ → List ℕ → ℕ → ℕ → ℕ → Option (ℕ × List ℕ)
    read_at hdr disk into place num_bytes position =
        let file_length = hdr.num_bytes in
        let count =
          if ltb file_length (position + num_bytes) then file_length - position else num_bytes in
        let first = position / sector_size in
        let last = (position + count - 1) / sector_size in
        let sectors = 1 + last - first in
        if (num_bytes == 0) || leb file_length position then some (0, into) else (do
          buf ← read_sectors hdr disk first sectors 0 (blank (sectors * sector_size))
          into' ← bcopy count buf (position - first * sector_size) into place
          some (count, into'))

    -- WriteAt, once the file is long enough: the buffer with the bytes that are kept around the new
    -- ones.
    unfoldable pub fill_buffer : FileHeader → List ℕ → ℕ → ℕ → ℕ → ℕ → Option (List ℕ)
    fill_buffer hdr disk position num_bytes first last = do
      let buf = blank ((1 + last - first) * sector_size)
      let first_aligned = position == first * sector_size
      let last_aligned = position + num_bytes == (last + 1) * sector_size
      head ←
          if not first_aligned
          then read_at hdr disk buf 0 sector_size (first * sector_size)
          else some (0, buf)
      tail ←
          if not last_aligned && (not (first == last) || first_aligned)
          then read_at hdr disk head.1 ((last - first) * sector_size) sector_size
              (last * sector_size)
          else some head
      some tail.1

    unfoldable pub transfer : FileHeader → List ℕ → List ℕ → ℕ → ℕ → Option (List ℕ)
    transfer hdr disk from position num_bytes = do
      let first = position / sector_size
      let last = (position + num_bytes - 1) / sector_size
      buf ← fill_buffer hdr disk position num_bytes first last
      changed ← bcopy num_bytes from 0 buf (position - first * sector_size)
      write_sectors hdr changed first (1 + last - first) 0 disk

    module _ (fetch_free_map : List ℕ → Option BitMap)
        (write_back : FileHeader → BitMap → List ℕ → Option (List ℕ)) where
      -- The number of bytes that WriteAt will write, the header and the disk.
      unfoldable pub make_room : FileHeader → List ℕ → ℕ → ℕ → Option (ℕ × FileHeader × List ℕ)
      make_room hdr disk position num_bytes =
          if ltb (max_length sector_size hdr) (position + num_bytes)
          then (do
            free_map ← fetch_free_map disk
            (grown, hdr', free_map') ← re_allocate sector_size free_map (position + num_bytes) hdr
            if grown
                then (do disk' ← write_back hdr' free_map' disk; some (num_bytes, hdr', disk'))
                else some (hdr.num_bytes - position, hdr', disk))
          else if ltb hdr.num_bytes (position + num_bytes)
          then (do
            assert (leb (position + num_bytes) (max_file_length sector_size))
            some (num_bytes, record hdr { num_bytes = position + num_bytes }, disk))
          else some (num_bytes, hdr, disk)

      unfoldable pub write_at :
          FileHeader → List ℕ → List ℕ → ℕ → ℕ → Option (ℕ × FileHeader × List ℕ)
      write_at hdr disk from num_bytes position =
          if (num_bytes == 0) || ltb hdr.num_bytes position then some (0, hdr, disk) else (do
            (count, hdr', disk1) ← make_room hdr disk position num_bytes
            disk2 ← transfer hdr' disk1 from position count
            some (count, hdr', disk2))

      unfoldable pub seek : OpenFile → ℕ → OpenFile
      seek file position = record file { seek_position = position }

      unfoldable pub read : OpenFile → List ℕ → List ℕ → ℕ → Option (ℕ × OpenFile × List ℕ)
      read file disk into num_bytes = do
        (result, into') ← read_at file.hdr disk into 0 num_bytes file.seek_position
        some (result, record file { seek_position = file.seek_position + result }, into')

      unfoldable pub write : OpenFile → List ℕ → List ℕ → ℕ → Option (ℕ × OpenFile × List ℕ)
      write file disk from num_bytes = do
        (result, hdr', disk') ← write_at file.hdr disk from num_bytes file.seek_position
        some
            (result, record file { hdr = hdr'; seek_position = file.seek_position + result }, disk')
