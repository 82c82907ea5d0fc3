-- ===== src/FileHeader/Examples.antt =====
-- A disk of 96 sectors of 128 bytes: a file of two sectors, one of three, and one that outgrows its header.
use sgptp.Prelude.{ℕ, ◌≡◌, refl, true, some, List, [], ◌∷◌, replicate, arith, inl, inr}
use sgptp.BitMap.{BitMap, div_round_up}
use sgptp.BitMap.Words.{bit, IsValid}
use sgptp.BitMap.Allocation.{count_clear}
use sgptp.FileHeader.{FileHeader, allocate, re_allocate, deallocate}
use sgptp.FileHeader.Allocate.{Allocated, Outcome, allocate-Outcome, deallocate-Allocated}
use sgptp.FileHeader.Growth.{Growth, re_allocate-Growth}

abbrev empty_disk : BitMap
empty_disk = record { num_bits = 96; num_words = 3; map = 0 ∷ 0 ∷ 0 ∷ [] }

empty_disk-IsValid : IsValid empty_disk
unfolding div_round_up
empty_disk-IsValid = record { sized = refl; filled = refl; fits = omega arith }

abbrev blank : FileHeader
blank = record {
  isdir = 0;
  num_bytes = 0;
  num_sectors = 0;
  data_sectors = [];
  num_header_sectors = 0;
  header_sectors = replicate 32 0;
}

abbrev memory : List ℕ
memory = replicate 988 0

allocate-Outcome_example : Outcome 128 200 empty_disk (allocate 128 memory empty_disk 200 blank)
unfolding div_round_up
allocate-Outcome_example =
    allocate-Outcome 128 200 memory empty_disk blank (omega arith) (omega arith) empty_disk-IsValid
      refl refl

-- The header of that file, with the map after it.
two_sectors : (hdr : FileHeader) × (m : BitMap) × Allocated 128 200 empty_disk hdr m
two_sectors = taken allocate-Outcome_example
  where
    taken :
        Outcome 128 200 empty_disk (allocate 128 memory empty_disk 200 blank)
        → (hdr : FileHeader) × (m : BitMap) × Allocated 128 200 empty_disk hdr m
    taken (inl (hdr, r, short)) = absurd (unfold count_clear bit div_round_up in omega arith)
    taken (inr (hdr, m, r, a)) = (hdr, m, a)

deallocate-Allocated_example :
    (m : BitMap) × (deallocate two_sectors.0 two_sectors.1 ≡ some m)
    × IsValid m
    × ((j : ℕ) → bit m j ≡ bit empty_disk j)
deallocate-Allocated_example =
    deallocate-Allocated 128 200 empty_disk two_sectors.0 two_sectors.1 two_sectors.2

-- A file of 27 sectors, as many as the first sector of its header can list.
abbrev full_header : FileHeader
full_header = record {
  isdir = 0;
  num_bytes = 3456;
  num_sectors = 27;
  data_sectors = replicate 988 0;
  num_header_sectors = 0;
  header_sectors = replicate 32 0;
}

re_allocate-Growth_example :
    Growth 128 3584 empty_disk full_header (re_allocate 128 empty_disk 3584 full_header)
unfolding div_round_up
re_allocate-Growth_example =
    re_allocate-Growth 128 3584 empty_disk full_header (omega arith) (omega arith)
      empty_disk-IsValid refl (omega arith) refl

outgrown :
    (new : FileHeader) × (m : BitMap) × (re_allocate 128 empty_disk 3584 full_header
      ≡ some (true, new, m))
outgrown = grown re_allocate-Growth_example
  where
    grown :
        Growth 128 3584 empty_disk full_header (re_allocate 128 empty_disk 3584 full_header)
        → (new : FileHeader) × (m : BitMap) × (re_allocate 128 empty_disk 3584 full_header
            ≡ some (true, new, m))
    grown (inl (r, short)) = absurd (unfold count_clear bit div_round_up in omega arith)
    grown (inr (new, m, r, g)) = (new, m, r)
