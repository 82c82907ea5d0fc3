-- ===== src/OpenFile/Examples.antt =====
-- A disk of 4 sectors of 8 bytes, and a file of 12 bytes in sectors 3 and 1.
use sgptp.Prelude.{
  ℕ, zero, suc, ◌+◌, ◌*◌, ◌≤◌, ◌<◌, ◌≡◌, refl, Option, none, some, List, [], ◌∷◌, length, get_elem?,
  get_or, replicate, length-replicate, arith,
}
use sgptp.BitMap.{BitMap}
use sgptp.FileHeader.{FileHeader}
use sgptp.OpenFile.{read_at, write_at}
use sgptp.OpenFile.Reading.{IsFile, FileRead, read_at-Read}
use sgptp.OpenFile.Writing.{Written}
use sgptp.OpenFile.RoundTrip.{lengthened, IsFile-lengthened, write_at-Written, read_at-write_at}

abbrev header : FileHeader
header = record {
  isdir = 0;
  num_bytes = 12;
  num_sectors = 2;
  data_sectors = 3 ∷ 1 ∷ 0 ∷ [];
  num_header_sectors = 1;
  header_sectors = 2 ∷ [];
}

abbrev bytes : List ℕ
bytes = replicate 32 7

abbrev zeros : ℕ → List ℕ
zeros n = replicate n 0

zeros_sized : (n : ℕ) → length (zeros n) ≡ n
zeros_sized n = length-replicate n 0

abbrev sector_of : ℕ → ℕ
sector_of c = get_or (3 ∷ 1 ∷ []) c 0

holds : (c : ℕ) → c < 2 → get_elem? (3 ∷ 1 ∷ 0 ∷ []) c ≡ some (sector_of c)
holds zero h = refl
holds (suc zero) h = refl
holds (suc (suc c)) h = absurd (omega arith)

in_disk : (c : ℕ) → c < 2 → sector_of c < 4
in_disk zero h = omega arith
in_disk (suc zero) h = omega arith
in_disk (suc (suc c)) h = absurd (omega arith)

apart : (c d : ℕ) → c < 2 → d < 2 → sector_of c ≡ sector_of d → c ≡ d
apart zero zero p q e = refl
apart zero (suc zero) p q e = absurd (omega arith)
apart (suc zero) zero p q e = absurd (omega arith)
apart (suc zero) (suc zero) p q e = refl
apart (suc (suc c)) d p q e = absurd (omega arith)
apart c (suc (suc d)) p q e = absurd (omega arith)

header-IsFile : IsFile 8 4 header bytes
header-IsFile = record {
  some_bytes = omega arith;
  fits = omega arith;
  disk_size = refl;
  sector = sector_of;
  holds = holds;
  in_disk = in_disk;
  apart = apart;
}

-- What is done with the free map is of no account here: the file is long enough.
abbrev no_map : List ℕ → Option BitMap
no_map disk = none

abbrev keep : FileHeader → BitMap → List ℕ → Option (List ℕ)
keep hdr free_map disk = some disk

-- The last 7 bytes of the file, of 9 that are asked for.
read_at-Read_example :
    (into' : List ℕ) × (read_at 8 4 zeros header bytes (zeros 9) 1 9 5 ≡ some (7, into'))
    × FileRead 8 header bytes 7 5 1 (zeros 9) into'
read_at-Read_example =
    read_at-Read 8 4 zeros header-IsFile (zeros 9) 1 9 5 zeros_sized (omega arith)

long_enough : 6 + 9 ≤ 2 * 8
long_enough = omega arith

-- 9 bytes from place 6 on make the file 15 bytes long.
write_at-Written_example :
    (disk' : List ℕ) × (write_at 8 4 zeros no_map keep header bytes (replicate 9 1) 9 6
      ≡ some (9, lengthened header (6 + 9), disk'))
    × Written 8 4
        (IsFile-lengthened 8 4 header-IsFile (6 + 9) long_enough)
        (replicate 9 1)
        6
        9
        disk'
write_at-Written_example =
    write_at-Written 8 4 zeros no_map keep header-IsFile (replicate 9 1) 9 6 zeros_sized
      (omega arith) (omega arith) (omega arith) long_enough (omega arith)

read_at-write_at_example :
    (hdr' : FileHeader) × (disk' into' : List ℕ) × (write_at 8 4 zeros no_map keep header bytes
        (replicate 9 1)
        9
        6
      ≡ some (9, hdr', disk'))
    × (read_at 8 4 zeros hdr' disk' (zeros 9) 0 9 6 ≡ some (9, into'))
    × ((k : ℕ) → k < 9 → get_elem? into' k ≡ get_elem? (replicate 9 1) k)
read_at-write_at_example =
    read_at-write_at 8 4 zeros no_map keep header-IsFile (replicate 9 1) (zeros 9) 9 6 zeros_sized
      (omega arith) (omega arith) (omega arith) (omega arith) (omega arith) (omega arith)
