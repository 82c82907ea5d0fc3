-- ===== src/TranslationTable.antt =====
-- nachos/machine/translationtable.h and translationtable.cc: the page table of a process. A virtual
-- page number is a natural number; the upper half of each ASSERT is kept. Physical pages and disk
-- addresses are `int`s that may be -1. A method without a result here is one that failed its ASSERT.
use sgptp.Prelude.{
  ℕ, Bool, true, false, Option, some, List, get_elem?, set, ltb, ◌>>=◌, ◌>>◌, assert,
}
use sgptp.Prelude.Int.{ℤ}

pub record PageTableEntry : Type 0 where
  pub valid : Bool
  pub u : Bool
  pub m : Bool
  pub read_allowed : Bool
  pub write_allowed : Bool
  pub physical_page : ℤ
  pub swap : Bool
  pub addr_disk : ℤ
  pub io : Bool

pub record TranslationTable : Type 0 where
  pub max_num_pages : ℕ
  pub page_table : List PageTableEntry

-- The ASSERT that every method begins with, and the entry that it reads.
unfoldable pub entry : TranslationTable → ℕ → Option PageTableEntry
entry t virtual_page = do
  assert (ltb virtual_page t.max_num_pages)
  get_elem? t.page_table virtual_page

-- A method that sets a field: the entry changed by `change`.
unfoldable pub modify :
    (PageTableEntry → PageTableEntry) → TranslationTable → ℕ → Option TranslationTable
unfolding entry
modify change t virtual_page = do
  e ← entry t virtual_page
  some (record t { page_table = set t.page_table virtual_page (change e) })

unfoldable pub get_physical_page : TranslationTable → ℕ → Option ℤ
unfolding entry
get_physical_page t virtual_page = do e ← entry t virtual_page; some e.physical_page

unfoldable pub get_bit_valid : TranslationTable → ℕ → Option Bool
unfolding entry
get_bit_valid t virtual_page = do e ← entry t virtual_page; some e.valid

unfoldable pub get_bit_read_allowed : TranslationTable → ℕ → Option Bool
unfolding entry
get_bit_read_allowed t virtual_page = do e ← entry t virtual_page; some e.read_allowed

unfoldable pub get_bit_write_allowed : TranslationTable → ℕ → Option Bool
unfolding entry
get_bit_write_allowed t virtual_page = do e ← entry t virtual_page; some e.write_allowed

unfoldable pub set_bit_u : TranslationTable → ℕ → Option TranslationTable
unfolding modify
set_bit_u = modify (λ e. record e { u = true })

unfoldable pub set_bit_m : TranslationTable → ℕ → Option TranslationTable
unfolding modify
set_bit_m = modify (λ e. record e { m = true })

unfoldable pub set_physical_page : TranslationTable → ℕ → ℤ → Option TranslationTable
unfolding modify
set_physical_page t virtual_page page =
    modify (λ e. record e { physical_page = page }) t virtual_page

unfoldable pub get_addr_disk : TranslationTable → ℕ → Option ℤ
unfolding entry
get_addr_disk t virtual_page = do e ← entry t virtual_page; some e.addr_disk

unfoldable pub set_addr_disk : TranslationTable → ℕ → ℤ → Option TranslationTable
unfolding modify
set_addr_disk t virtual_page address = modify (λ e. record e { addr_disk = address }) t virtual_page

unfoldable pub set_bit_valid : TranslationTable → ℕ → Option TranslationTable
unfolding modify
set_bit_valid = modify (λ e. record e { valid = true })

unfoldable pub clear_bit_valid : TranslationTable → ℕ → Option TranslationTable
unfolding modify
clear_bit_valid = modify (λ e. record e { valid = false })

unfoldable pub set_bit_io : TranslationTable → ℕ → Option TranslationTable
unfolding modify
set_bit_io = modify (λ e. record e { io = true })

unfoldable pub clear_bit_io : TranslationTable → ℕ → Option TranslationTable
unfolding modify
clear_bit_io = modify (λ e. record e { io = false })

unfoldable pub set_bit_swap : TranslationTable → ℕ → Option TranslationTable
unfolding modify
set_bit_swap = modify (λ e. record e { swap = true })

unfoldable pub clear_bit_swap : TranslationTable → ℕ → Option TranslationTable
unfolding modify
clear_bit_swap = modify (λ e. record e { swap = false })

unfoldable pub set_bit_read_allowed : TranslationTable → ℕ → Option TranslationTable
unfolding modify
set_bit_read_allowed = modify (λ e. record e { read_allowed = true })

unfoldable pub clear_bit_read_allowed : TranslationTable → ℕ → Option TranslationTable
unfolding modify
clear_bit_read_allowed = modify (λ e. record e { read_allowed = false })

unfoldable pub set_bit_write_allowed : TranslationTable → ℕ → Option TranslationTable
unfolding modify
set_bit_write_allowed = modify (λ e. record e { write_allowed = true })

unfoldable pub clear_bit_write_allowed : TranslationTable → ℕ → Option TranslationTable
unfolding modify
clear_bit_write_allowed = modify (λ e. record e { write_allowed = false })

unfoldable pub clear_bit_u : TranslationTable → ℕ → Option TranslationTable
unfolding modify
clear_bit_u = modify (λ e. record e { u = false })

unfoldable pub clear_bit_m : TranslationTable → ℕ → Option TranslationTable
unfolding modify
clear_bit_m = modify (λ e. record e { m = false })

unfoldable pub get_bit_io : TranslationTable → ℕ → Option Bool
unfolding entry
get_bit_io t virtual_page = do e ← entry t virtual_page; some e.io

unfoldable pub get_bit_swap : TranslationTable → ℕ → Option Bool
unfolding entry
get_bit_swap t virtual_page = do e ← entry t virtual_page; some e.swap

unfoldable pub get_bit_u : TranslationTable → ℕ → Option Bool
unfolding entry
get_bit_u t virtual_page = do e ← entry t virtual_page; some e.u

unfoldable pub get_bit_m : TranslationTable → ℕ → Option Bool
unfolding entry
get_bit_m t virtual_page = do e ← entry t virtual_page; some e.m
