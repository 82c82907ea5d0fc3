-- ===== src/FileHeader.antt =====
-- nachos/filesys/filehdr.h and filehdr.cc: which sectors hold a file, and how they are taken from
-- and given back to the map of free sectors. `int` values that the code stores are 32-bit
-- patterns, so the -1 of `BitMap::Find` is 2 ^ 32 - 1. An access outside of an array is a fault,
-- which is `none` as a failed `ASSERT` is.
pub mod Sectors
pub mod Allocate
pub mod Growth
mod Examples
use sgptp.Prelude.{
  ℕ, zero, suc, ◌+◌, ◌-◌, ◌*◌, ◌/◌, ◌^◌, Bool, true, false, Option, none, some, List, length,
  get_elem?, set, ltb, leb, ◌==◌, if◌then◌else◌, ◌>>=◌, ◌>>◌, assert,
}
use sgptp.BitMap.{BitMap, div_round_up}
use sgptp.BitMap

pub record FileHeader : Type 0 where
  pub isdir : ℕ
  pub num_bytes : ℕ
  pub num_sectors : ℕ
  pub data_sectors : List ℕ
  pub num_header_sectors : ℕ
  pub header_sectors : List ℕ

abbrev pub max_header_sectors : ℕ
max_header_sectors = 32

-- The macros of filehdr.h over `g_cfg->SectorSize`.
abbrev pub datas_in_first_sector : ℕ → ℕ
datas_in_first_sector sector_size = (sector_size - 5 * 4) / 4

abbrev pub datas_in_sector : ℕ → ℕ
datas_in_sector sector_size = (sector_size - 1 * 4) / 4

abbrev pub max_data_sectors : ℕ → ℕ
max_data_sectors sector_size =
    (max_header_sectors - 1) * datas_in_sector sector_size + datas_in_first_sector sector_size

abbrev pub max_file_length : ℕ → ℕ
max_file_length sector_size = max_data_sectors sector_size * sector_size

-- The header sectors that a file of `sectors` data sectors needs. Where `sectors` is below
-- `DatasInFirstSector` the quotient of C is 0, as it is here.
abbrev pub header_sectors_for : ℕ → ℕ → ℕ
header_sectors_for sector_size sectors =
    div_round_up (sectors - datas_in_first_sector sector_size) (datas_in_sector sector_size)

abbrev pub int_of : Option ℕ → ℕ
int_of none = 2 ^ 32 - 1
int_of (some n) = n

-- `array[i] = v`.
unfoldable pub store : List ℕ → ℕ → ℕ → Option (List ℕ)
store array i v = do assert (ltb i (length array)); some (set array i v)

-- `for (i = 0; i < n; i++) array[i + base] = freeMap->Find()`.
unfoldable pub take_sectors : ℕ → ℕ → List ℕ → BitMap → Option (List ℕ × BitMap)
take_sectors zero i array free_map = some (array, free_map)
take_sectors (suc n) i array free_map = do
  found ← BitMap.find free_map
  array' ← store array i (int_of found.0)
  take_sectors n (i + 1) array' found.1

-- `memory` is what `new int[MAX_DATA_SECTORS]` returns. The size is from 0 on; negative ones, which
-- SC_CREATE lets through, are not modelled.
unfoldable pub allocate : ℕ → List ℕ → BitMap → ℕ → FileHeader → Option (Bool × FileHeader × BitMap)
allocate sector_size memory free_map file_size hdr = do
  assert (leb file_size (max_file_length sector_size))
  let sectors = div_round_up file_size sector_size
  let headers = header_sectors_for sector_size sectors
  let sized = record hdr {
    num_bytes = file_size;
    num_sectors = sectors;
    num_header_sectors = headers;
  }
  free ← BitMap.num_clear free_map
  if ltb free (sectors + headers) then some (false, sized, free_map) else (do
    h ← take_sectors headers 0 hdr.header_sectors free_map
    d ← take_sectors sectors 0 memory h.1
    some (true, record sized { header_sectors = h.0; data_sectors = d.0 }, d.1))

-- The differences `newnumSectors` and `newnumHeaderSectors` may be negative in the code: their
-- loops then make no round, the test is moved to the side where it is exact, and `numSectors +=
-- newnumSectors` is the new number of sectors.
unfoldable pub re_allocate : ℕ → BitMap → ℕ → FileHeader → Option (Bool × FileHeader × BitMap)
re_allocate sector_size free_map new_file_size hdr = do
  let sectors = div_round_up new_file_size sector_size
  let headers = header_sectors_for sector_size hdr.num_sectors
  let grown = record hdr { num_bytes = new_file_size }
  assert (leb new_file_size (max_file_length sector_size))
  free ← BitMap.num_clear free_map
  if ltb (free + hdr.num_sectors + hdr.num_header_sectors) (sectors + headers)
      then some (false, grown, free_map)
      else (do
        h ←
            take_sectors (headers - hdr.num_header_sectors) hdr.num_header_sectors
              hdr.header_sectors free_map
        d ← take_sectors (sectors - hdr.num_sectors) hdr.num_sectors hdr.data_sectors h.1
        some (
          true,
          record grown {
            num_sectors = sectors;
            data_sectors = d.0;
            num_header_sectors = headers;
            header_sectors = h.0;
          },
          d.1,
        ))

-- `for (i = 0; i < n; i++) { ASSERT(freeMap->Test(array[i])); freeMap->Clear(array[i]); }`.
pub release_sectors : ℕ → ℕ → List ℕ → BitMap → Option BitMap
release_sectors zero i array free_map = some free_map
release_sectors (suc n) i array free_map = do
  sector ← get_elem? array i
  taken ← BitMap.test free_map sector
  assert taken
  cleared ← BitMap.clear free_map sector
  release_sectors n (i + 1) array cleared

unfoldable pub deallocate : FileHeader → BitMap → Option BitMap
deallocate hdr free_map = do
  freed ← release_sectors hdr.num_sectors 0 hdr.data_sectors free_map
  release_sectors hdr.num_header_sectors 0 hdr.header_sectors freed

unfoldable pub byte_to_sector : ℕ → FileHeader → ℕ → Option ℕ
byte_to_sector sector_size hdr offset = get_elem? hdr.data_sectors (offset / sector_size)

unfoldable pub max_length : ℕ → FileHeader → ℕ
max_length sector_size hdr = hdr.num_sectors * sector_size
