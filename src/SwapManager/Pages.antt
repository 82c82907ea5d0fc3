-- ===== src/SwapManager/Pages.antt =====
-- nachos/vm/swapManager.cc: a page that is put into the swap area is read back, and harms no other.
use native.Mathlib.Nat as Nat
use sgptp.Prelude.{
  ℕ, zero, suc, ◌+◌, ◌*◌, ◌≤◌, ◌<◌, ◌≡◌, refl, sym, ap, ◌∙◌, inl, inr, false, some, List, length,
  get_elem?, if◌then◌else◌, ◌>>=◌, arith, lt→ltb,
}
use sgptp.Prelude.Int.{pos, negsuc}
use sgptp.BitMap.{BitMap, test, mark, find, find_from, marked}
use sgptp.BitMap.Words.{bit, IsValid}
use sgptp.BitMap.Allocation.{count_clear}
use sgptp.BitMap.Search.{find-count_clear}
use sgptp.OpenFile.{read_sector, write_sector}
use sgptp.OpenFile.Copies.{bcopy-Copied}
use sgptp.OpenFile.Writing.{Outside}
use sgptp.SwapManager.{SwapManager, scan_pages, get_free_page, put_page_swap, get_page_swap}

-- The loop of GetFreePage is that of BitMap::Find.
scan_pages-find_from : (n i : ℕ) (flags : BitMap) → scan_pages n i flags ≡ find_from n i flags
unfolding scan_pages find_from
scan_pages-find_from zero i flags = refl
scan_pages-find_from (suc n) i flags =
    ap
      (λ rest. test flags i >>= λ taken.
        if taken then rest else (mark flags i >>= λ flags'. some (some i, flags')))
      (scan_pages-find_from n (i + 1) flags)

module _ (sector_size num_sectors : ℕ) where
  -- The page is in sector s of the swap area, which was free, and comes back from there; every other
  -- sector is what it was.
  pub record Swapped (m : SwapManager) (swap_page buf : List ℕ) (s : ℕ) (m' : SwapManager)
      : Type 0 where
    pub was_free : bit m.page_flags s ≡ false
    pub taken : m'.page_flags ≡ marked m.page_flags s
    pub page : List ℕ
    pub back : get_page_swap sector_size num_sectors m' s buf ≡ some page
    pub same : (k : ℕ) → k < sector_size → get_elem? page k ≡ get_elem? swap_page k
    pub others :
        (p : ℕ) → Outside sector_size s p → get_elem? m'.swap_disk p ≡ get_elem? m.swap_disk p

  -- On a swap area with a valid map of NUM_SECTORS bits of which one is clear, PutPageSwap(-1, page)
  -- of a page of the size of a sector does not abort: it returns a sector that was free, which is then
  -- marked and no other, GetPageSwap of that sector reads the page back, and no other byte of the swap
  -- disk has changed.
  pub put_page_swap-Swapped :
      (m : SwapManager) (swap_page buf : List ℕ) (free : ℕ)
      → IsValid m.page_flags
      → m.page_flags.num_bits ≡ num_sectors
      → count_clear num_sectors m.page_flags ≡ free + 1
      → length m.swap_disk ≡ num_sectors * sector_size
      → length swap_page ≡ sector_size
      → length buf ≡ sector_size
      → (s : ℕ) × (m' : SwapManager) × (put_page_swap sector_size num_sectors m (negsuc 0) swap_page
          ≡ some (pos s, m'))
        × Swapped m swap_page buf s m'
  unfolding put_page_swap get_free_page get_page_swap read_sector write_sector find
  put_page_swap-Swapped m swap_page buf free v bits some_free disk_size page_size buf_size =
      let (s, found, inside, clear_before, w, left) =
        find-count_clear m.page_flags free v
          (ap (λ n. count_clear n m.page_flags) bits ∙ some_free) in
      let scanned : scan_pages num_sectors 0 m.page_flags ≡ some (some s, marked m.page_flags s) =
        scan_pages-find_from num_sectors 0 m.page_flags
        ∙ ap (λ n. find_from n 0 m.page_flags) (sym bits)
        ∙ found in
      let in_disk : s < num_sectors = omega (arith, bits) in
      let room : s * sector_size + sector_size ≤ length m.swap_disk = omega (
        arith,
        disk_size,
        Nat.mul-le-mul_right {m = suc s} {n = num_sectors} sector_size in_disk,
      ) in
      let (disk, written, c) =
        bcopy-Copied sector_size swap_page 0 m.swap_disk (s * sector_size) (omega arith) room in
      let (page, got, r) =
        bcopy-Copied sector_size disk (s * sector_size) buf 0 (omega (arith, c.size))
          (omega arith) in
      (
        s,
        record { page_flags = marked m.page_flags s; swap_disk = disk },
        rw (scanned, lt→ltb s num_sectors in_disk, written) refl,
        record {
          was_free = clear_before;
          taken = refl;
          page = page;
          back = rw (lt→ltb s num_sectors in_disk, got) refl;
          same = λ k h.
              ap (get_elem? page) (omega arith)
              ∙ r.inside k h
              ∙ c.inside k h
              ∙ ap (get_elem? swap_page) (omega arith);
          others =
              λ p out. elim out [ inl before ↦ c.below p before | inr behind ↦ c.above p behind ];
        },
      )
