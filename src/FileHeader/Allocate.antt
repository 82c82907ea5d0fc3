-- ===== src/FileHeader/Allocate.antt =====
-- FileHeader::Allocate and FileHeader::Deallocate as a pair.
use sgptp.Prelude.{
  ℕ, ◌+◌, ◌-◌, ◌*◌, ◌/◌, ◌%◌, ◌≤◌, ◌<◌, ◌≡◌, refl, ◌⊎◌, inl, inr, Bool, true, false, Option, some,
  List, length, arith, lt→ltb, le→leb, not-lt→ltb, dec_lt, zero, suc, ◌∙◌, get_elem?, assert,
  >>=-eq-some,
}
use native.Mathlib.Nat.{div-add-mod', div-le_of_le-mul, mul_comm, mul-le-mul_right}
use sgptp.BitMap.{BitMap, div_round_up}
use sgptp.BitMap
use sgptp.BitMap.Words.{bit, IsValid}
use sgptp.BitMap.Allocation.{count_clear}
use sgptp.BitMap.Search.{num_clear-count_clear}
use sgptp.FileHeader.{
  FileHeader, max_header_sectors, datas_in_first_sector, datas_in_sector, max_data_sectors,
  max_file_length, header_sectors_for, allocate, deallocate, release_sectors,
}
use sgptp.FileHeader.Sectors.{
  Takes, Holds, Taken, take_sectors-Taken, Takes-bit, Takes-size, Takes-free, Takes-Distinct,
  Takes-InUse, InUse, Released, release_sectors-Released,
}

quotient-lt : (n s m : ℕ) → n ≤ m * s → 0 < n % s → n / s < m
quotient-lt n s m h part = elim (dec_lt (n / s) m) [
  | yes below ↦ below
  | no above ↦
      let big : m * s ≤ n / s * s = mul-le-mul_right s (omega arith) in
      absurd (omega (arith, big, div-add-mod' n s))
]

-- `divRoundUp(n, s)` is at most `m` if `n` is at most `m * s`.
div_round_up-le : (n s m : ℕ) → 0 < s → n ≤ m * s → div_round_up n s ≤ m
unfolding div_round_up
div_round_up-le n s m pos h = elim (dec_lt 0 (n % s)) [
  | yes part ↦ ground (arith, quotient-lt n s m h part)
  | no whole ↦ ground (arith, div-le_of_le-mul s {m = n} {n = m} (rw mul_comm h))
]

-- The limit that Allocate asserts keeps both tables within their arrays.
pub tables_fit :
    (sector_size file_size : ℕ)
    → 24 ≤ sector_size
    → file_size ≤ max_file_length sector_size
    → let sectors = div_round_up file_size sector_size in
      (sectors ≤ max_data_sectors sector_size)
      × (header_sectors_for sector_size sectors ≤ max_header_sectors)
tables_fit sector_size file_size big h =
    let few =
      div_round_up-le file_size sector_size (max_data_sectors sector_size) (omega arith) h in
    (
      few,
      omega (
        arith,
        div_round_up-le (div_round_up file_size sector_size - datas_in_first_sector sector_size)
            (datas_in_sector sector_size) 31 (omega arith) (omega (arith, few)),
      ),
    )

-- A header that has just been given its sectors: which ones, in which order, and that they were
-- all free.
pub record Allocated (sector_size file_size : ℕ) (m : BitMap) (hdr : FileHeader) (m' : BitMap)
    : Type 0 where
  pub bytes : hdr.num_bytes ≡ file_size
  pub sectors : hdr.num_sectors ≡ div_round_up file_size sector_size
  pub headers : hdr.num_header_sectors ≡ header_sectors_for sector_size hdr.num_sectors
  pub header_list : List ℕ
  pub data_list : List ℕ
  pub header_count : length header_list ≡ hdr.num_header_sectors
  pub data_count : length data_list ≡ hdr.num_sectors
  pub header_held : Holds hdr.header_sectors 0 header_list
  pub data_held : Holds hdr.data_sectors 0 data_list
  pub between : BitMap
  pub header_taken : Takes m header_list between
  pub data_taken : Takes between data_list m'
  pub valid : IsValid m'
  pub left :
      count_clear m'.num_bits m' + hdr.num_sectors + hdr.num_header_sectors
      ≡ count_clear m.num_bits m

-- What Allocate returns: `false` with the map untouched if the free sectors do not suffice for data
-- and header together, otherwise `true` and the header `Allocated`.
abbrev pub Outcome : ℕ → ℕ → BitMap → Option (Bool × FileHeader × BitMap) → Type 0
Outcome sector_size file_size m r =
    let sectors = div_round_up file_size sector_size in
    ((hdr : FileHeader) × (r ≡ some (false, hdr, m))
      × (count_clear m.num_bits m < sectors + header_sectors_for sector_size sectors))
    ⊎ ((hdr : FileHeader) × (m' : BitMap) × (r ≡ some (true, hdr, m'))
        × Allocated sector_size file_size m hdr m')

-- For a file size from 0 up to MAX_FILE_LENGTH Allocate neither aborts nor writes outside of its two
-- arrays, and its result is one of those of `Outcome`.
pub allocate-Outcome :
    (sector_size file_size : ℕ) (memory : List ℕ) (m : BitMap) (hdr : FileHeader)
    → 24 ≤ sector_size
    → file_size ≤ max_file_length sector_size
    → IsValid m
    → length memory ≡ max_data_sectors sector_size
    → length hdr.header_sectors ≡ max_header_sectors
    → Outcome sector_size file_size m (allocate sector_size memory m file_size hdr)
unfolding allocate
allocate-Outcome sector_size file_size memory m hdr big h v room slots =
    let sectors = div_round_up file_size sector_size in
    let headers = header_sectors_for sector_size sectors in
    let fit = tables_fit sector_size file_size big h in
    let sized : FileHeader = record hdr {
      num_bytes = file_size;
      num_sectors = sectors;
      num_header_sectors = headers;
    } in
    rw (le→leb file_size (max_file_length sector_size) h, num_clear-count_clear m)
      (elim (dec_lt (count_clear m.num_bits m) (sectors + headers)) [
        | yes short ↦ rw (lt→ltb _ _ short) (inl (sized, refl, short))
        | no enough ↦
            let free = count_clear m.num_bits m - sectors - headers in
            let hs : Taken headers 0 hdr.header_sectors m (free + sectors) =
              take_sectors-Taken headers 0 hdr.header_sectors m (free + sectors) v (omega arith)
                (omega (arith, fit.1)) in
            let ds : Taken sectors 0 memory hs.map' free =
              take_sectors-Taken sectors 0 memory hs.map' free hs.valid (omega (arith, hs.left))
                (omega (arith, fit.0)) in
            rw
              (
                not-lt→ltb (count_clear m.num_bits m) (sectors + headers) enough,
                hs.returned,
                ds.returned,
              )
              (inr (
                record sized { header_sectors = hs.array'; data_sectors = ds.array' },
                ds.map',
                refl,
                record {
                  bytes = refl;
                  sectors = refl;
                  headers = refl;
                  header_list = hs.sectors;
                  data_list = ds.sectors;
                  header_count = hs.many;
                  data_count = ds.many;
                  header_held = hs.held;
                  data_held = ds.held;
                  between = hs.map';
                  header_taken = hs.takes;
                  data_taken = ds.takes;
                  valid = ds.valid;
                  left = omega (arith, ds.left);
                },
              ))
      ])

-- Deallocate gives back exactly what Allocate took: no ASSERT fails, and afterwards every bit of
-- the free map is what it was before Allocate.
pub deallocate-Allocated :
    (sector_size file_size : ℕ) (m : BitMap) (hdr : FileHeader) (m' : BitMap)
    → Allocated sector_size file_size m hdr m'
    → (m'' : BitMap) × (deallocate hdr m' ≡ some m'')
      × IsValid m''
      × ((j : ℕ) → bit m'' j ≡ bit m j)
unfolding deallocate
deallocate-Allocated sector_size file_size m hdr m' a =
    let (freed, first, r) =
      release_sectors-Released a.data_list 0 hdr.data_sectors m' a.valid a.data_held
        (Takes-Distinct a.data_taken) (Takes-InUse a.data_taken) in
    let (m'', second, r') =
      release_sectors-Released a.header_list 0 hdr.header_sectors freed r.valid a.header_held
        (Takes-Distinct a.header_taken) (still freed r) in
    (
      m'',
      rw (← a.data_count, first, ← a.header_count) second,
      r'.valid,
      λ j. ground (
        arith,
        r'.bits j,
        r.bits j,
        Takes-bit a.data_taken j,
        Takes-bit a.header_taken j,
        Takes-free a.data_taken j,
        Takes-free a.header_taken j,
      ),
    )
  where
    still : (freed : BitMap) → Released m' freed a.data_list → InUse freed a.header_list
    still freed r j h =
        let here = Takes-InUse a.header_taken j h in
        (
          ground (arith, r.bits j, here.0, Takes-bit a.data_taken j, Takes-free a.data_taken j),
          omega (arith, here.1, r.size, Takes-size a.data_taken),
        )

clear-size :
    (m : BitMap) (i : ℕ) {m' : BitMap} → BitMap.clear m i ≡ some m' → m'.num_bits ≡ m.num_bits
unfolding BitMap.clear
clear-size m i h = ground (arith, h)

release_sectors-size :
    (n i : ℕ) (array : List ℕ) (m : BitMap) {m' : BitMap}
    → release_sectors n i array m ≡ some m'
    → m'.num_bits ≡ m.num_bits
unfolding release_sectors
release_sectors-size zero i array m h = ground (arith, h)
release_sectors-size (suc n) i array m h =
    let (sector, at, h1) = >>=-eq-some (get_elem? array i) _ h in
    let (taken, test, h2) = >>=-eq-some (BitMap.test m sector) _ h1 in
    let (u, ok, h3) = >>=-eq-some (assert taken) _ h2 in
    let (cleared, clr, h4) = >>=-eq-some (BitMap.clear m sector) _ h3 in
    release_sectors-size n (i + 1) array cleared h4 ∙ clear-size m sector clr

pub deallocate-size :
    (hdr : FileHeader) (m : BitMap) {m' : BitMap}
    → deallocate hdr m ≡ some m'
    → m'.num_bits ≡ m.num_bits
unfolding deallocate
deallocate-size hdr m h =
    let (freed, h1, h2) = >>=-eq-some (release_sectors hdr.num_sectors 0 hdr.data_sectors m) _ h in
    release_sectors-size hdr.num_header_sectors 0 hdr.header_sectors freed h2
    ∙ release_sectors-size hdr.num_sectors 0 hdr.data_sectors m h1
