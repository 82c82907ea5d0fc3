-- ===== src/FileHeader/Growth.antt =====
-- FileHeader::reAllocate: a file that grows. The header sectors are counted from the old number of
-- data sectors, so none is ever added.
use sgptp.Prelude.{
  ℕ, ◌+◌, ◌-◌, ◌≤◌, ◌<◌, ◌≡◌, refl, sym, ◌⊎◌, inl, inr, Bool, true, false, Option, some, List,
  length, get_elem?, arith, lt→ltb, le→leb, not-lt→ltb, dec_lt,
}
use sgptp.BitMap.{BitMap, div_round_up}
use sgptp.BitMap.Words.{IsValid}
use sgptp.BitMap.Allocation.{count_clear}
use sgptp.BitMap.Search.{num_clear-count_clear}
use sgptp.FileHeader.{
  FileHeader, max_data_sectors, max_file_length, header_sectors_for, take_sectors, re_allocate,
}
use sgptp.FileHeader.Sectors.{Takes, Holds, Taken, take_sectors-Taken}
use sgptp.FileHeader.Allocate.{tables_fit}

-- The header has the header sectors that its data sectors need.
abbrev pub HasHeaders : ℕ → FileHeader → Type 0
HasHeaders sector_size hdr = hdr.num_header_sectors ≡ header_sectors_for sector_size hdr.num_sectors

-- A header that has grown to `new_size` bytes: the new sectors stand behind the old ones.
pub record Grown (sector_size new_size : ℕ) (m : BitMap) (old new : FileHeader) (m' : BitMap)
    : Type 0 where
  pub bytes : new.num_bytes ≡ new_size
  pub sectors : new.num_sectors ≡ div_round_up new_size sector_size
  pub same_headers : new.num_header_sectors ≡ old.num_header_sectors
  pub same_header_table : new.header_sectors ≡ old.header_sectors
  pub added : List ℕ
  pub added_count : length added + old.num_sectors ≡ new.num_sectors
  pub added_held : Holds new.data_sectors old.num_sectors added
  pub kept :
      (j : ℕ) → j < old.num_sectors → get_elem? new.data_sectors j ≡ get_elem? old.data_sectors j
  pub taken : Takes m added m'
  pub valid : IsValid m'

-- What reAllocate returns for a file that grows: either the free sectors do not suffice for the new
-- data, the map is untouched, and the header says the new length all the same; or it is `Grown`.
abbrev pub Growth : ℕ → ℕ → BitMap → FileHeader → Option (Bool × FileHeader × BitMap) → Type 0
Growth sector_size new_size m hdr r =
    ((r ≡ some (false, record hdr { num_bytes = new_size }, m))
      × (count_clear m.num_bits m + hdr.num_sectors < div_round_up new_size sector_size))
    ⊎ ((new : FileHeader) × (m' : BitMap) × (r ≡ some (true, new, m'))
        × Grown sector_size new_size m hdr new m')

-- For a header that has its header sectors and a new size up to MAX_FILE_LENGTH that needs at least
-- as many data sectors, reAllocate does not abort, and its result is one of those of `Growth`: in
-- both the number of header sectors stays what it was.
pub re_allocate-Growth :
    (sector_size new_size : ℕ) (m : BitMap) (hdr : FileHeader)
    → 24 ≤ sector_size
    → new_size ≤ max_file_length sector_size
    → IsValid m
    → HasHeaders sector_size hdr
    → hdr.num_sectors ≤ div_round_up new_size sector_size
    → length hdr.data_sectors ≡ max_data_sectors sector_size
    → Growth sector_size new_size m hdr (re_allocate sector_size m new_size hdr)
unfolding re_allocate
re_allocate-Growth sector_size new_size m hdr big h v has grows room =
    let sectors = div_round_up new_size sector_size in
    let headers = header_sectors_for sector_size hdr.num_sectors in
    let free = count_clear m.num_bits m in
    let none_new : headers - hdr.num_header_sectors ≡ 0 = omega (arith, has) in
    rw (le→leb new_size (max_file_length sector_size) h, num_clear-count_clear m)
      (elim (dec_lt (free + hdr.num_sectors + hdr.num_header_sectors) (sectors + headers)) [
        | yes short ↦ rw (lt→ltb _ _ short) (inl (refl, omega (arith, has)))
        | no enough ↦
            let left = free - (sectors - hdr.num_sectors) in
            let ds : Taken (sectors - hdr.num_sectors) hdr.num_sectors hdr.data_sectors m left =
              take_sectors-Taken (sectors - hdr.num_sectors) hdr.num_sectors hdr.data_sectors m left
                v (omega (arith, has)) (omega (arith, (tables_fit sector_size new_size big h).0)) in
            rw
              (
                not-lt→ltb (free + hdr.num_sectors + hdr.num_header_sectors) (sectors + headers)
                    enough,
                none_new,
                take_none hdr.num_header_sectors hdr.header_sectors m,
                ds.returned,
              )
              (inr (
                record hdr {
                  num_bytes = new_size;
                  num_sectors = sectors;
                  data_sectors = ds.array';
                  num_header_sectors = headers;
                },
                ds.map',
                refl,
                record {
                  bytes = refl;
                  sectors = refl;
                  same_headers = sym has;
                  same_header_table = refl;
                  added = ds.sectors;
                  added_count = omega (arith, ds.many);
                  added_held = ds.held;
                  kept = ds.before;
                  taken = ds.takes;
                  valid = ds.valid;
                },
              ))
      ])
  where
    take_none :
        (i : ℕ) (array : List ℕ) (free_map : BitMap)
        → take_sectors 0 i array free_map ≡ some (array, free_map)
    take_none i array free_map = unfold take_sectors in refl
