-- ===== src/SwapManager.antt =====
-- nachos/vm/swapManager.h and swapManager.cc: the pages of the swap area.
--
-- The swap disk is the bytes of its sectors, as for OpenFile; `num_sectors` is NUM_SECTORS.
pub mod Pages
mod Examples
use sgptp.Prelude.{
  ℕ, zero, suc, ◌+◌, Bool, true, false, Option, none, some, List, ltb, if◌then◌else◌, ◌>>=◌,
}
use sgptp.Prelude.Int.{ℤ, pos, negsuc}
use sgptp.BitMap.{BitMap, test, mark, clear}
use sgptp.OpenFile.{read_sector, write_sector}

pub record SwapManager : Type 0 where
  pub page_flags : BitMap
  pub swap_disk : List ℕ

-- The loop of GetFreePage, by the rounds that are left; `none` is the page -1.
unfoldable pub scan_pages : ℕ → ℕ → BitMap → Option (Option ℕ × BitMap)
scan_pages zero i flags = some (none, flags)
scan_pages (suc n) i flags = do
  taken ← test flags i
  let rest = scan_pages n (i + 1) flags
  if taken then rest else (mark flags i >>= λ flags'. some (some i, flags'))

module _ (sector_size num_sectors : ℕ) where
  unfoldable pub get_free_page : SwapManager → Option (Option ℕ × SwapManager)
  get_free_page s = do
    (page, flags) ← scan_pages num_sectors 0 s.page_flags
    some (page, record s { page_flags = flags })

  unfoldable pub release_page_swap : SwapManager → ℕ → Option SwapManager
  release_page_swap s num_sector = do
    flags ← clear s.page_flags num_sector
    some (record s { page_flags = flags })

  unfoldable pub get_page_swap : SwapManager → ℕ → List ℕ → Option (List ℕ)
  get_page_swap s num_sector swap_page =
      read_sector sector_size num_sectors s.swap_disk num_sector swap_page 0

  abbrev pub write_page : SwapManager → ℕ → List ℕ → Option (ℤ × SwapManager)
  write_page s num_sector swap_page = do
    disk ← write_sector sector_size num_sectors s.swap_disk num_sector swap_page 0
    some (pos num_sector, record s { swap_disk = disk })

  -- A negative sector number asks for a free one.
  unfoldable pub put_page_swap : SwapManager → ℤ → List ℕ → Option (ℤ × SwapManager)
  put_page_swap s (pos num_sector) swap_page = write_page s num_sector swap_page
  put_page_swap s (negsuc n) swap_page = do
    (page, s') ← get_free_page s
    elim page [ none ↦ some (negsuc 0, s') | some new_page ↦ write_page s' new_page swap_page ]
