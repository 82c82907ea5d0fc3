-- ===== src/AddrSpace.antt =====
-- nachos/kernel/addrspace.h and addrspace.cc: the areas of a virtual address space, its stacks and the
-- files mapped in it, for demand paging (ETUDIANTS_TP).
--
-- A file is a number. `mapped_files` is the array up to `nb_mapped_files`, sizes and the addresses
-- asked for are from 0 on, and no product passes 2^31. A method without a result here failed an
-- ASSERT, wrote behind the array or called Halt.
pub mod Pages
pub mod Areas
pub mod Found
mod Examples
use sgptp.Prelude.{
  ℕ, zero, suc, ◌+◌, ◌-◌, ◌*◌, ◌&&◌, Bool, true, false, not, Option, none, some, List, [], ◌∷◌,
  ◌++◌, length, ltb, leb, if◌then◌else◌, ◌>>=◌, ◌>>◌, assert,
}
use sgptp.Prelude.Int.{ℤ, pos, negsuc}
use sgptp.BitMap.{div_round_up}
use sgptp.TranslationTable.{
  TranslationTable, set_addr_disk, clear_bit_valid, clear_bit_swap, clear_bit_io, clear_bit_u,
  clear_bit_m, set_bit_read_allowed, set_bit_write_allowed,
}

-- MAX_MAPPED_FILES
abbrev pub max_mapped_files : ℕ
max_mapped_files = 10

-- STACK_BLANK_LEN
abbrev pub stack_blank_len : ℕ
stack_blank_len = 4

-- `size` counts pages.
pub record MappedFile : Type 0 where
  pub first_address : ℤ
  pub size : ℕ
  pub file : ℕ

pub record AddrSpace : Type 0 where
  pub translation_table : TranslationTable
  pub free_page_id : ℕ
  pub mapped_files : List MappedFile

-- m - n
abbrev pub minus : ℕ → ℕ → ℤ
minus m n = if ltb m n then negsuc (n - m - 1) else pos (m - n)

-- `none` is the page -1.
unfoldable pub alloc : AddrSpace → ℕ → Option ℕ × AddrSpace
alloc s num_pages =
    if leb s.translation_table.max_num_pages (s.free_page_id + num_pages)
    then (none, s)
    else (some s.free_page_id, record s { free_page_id = s.free_page_id + num_pages })

-- One round of the loop of StackAllocate.
unfoldable pub stack_page : TranslationTable → ℕ → Option TranslationTable
stack_page t i = do
  t1 ← clear_bit_valid t i
  t2 ← set_addr_disk t1 i (negsuc 0)
  t3 ← clear_bit_swap t2 i
  t4 ← set_bit_read_allowed t3 i
  t5 ← set_bit_write_allowed t4 i
  clear_bit_io t5 i

-- The rounds of the loop that are left, from page i on.
unfoldable pub stack_pages : ℕ → ℕ → TranslationTable → Option TranslationTable
stack_pages zero i t = some t
stack_pages (suc n) i t = do t' ← stack_page t i; stack_pages n (i + 1) t'

-- The stack pointer of a new stack. That the blank area could not be had is not tested.
unfoldable pub stack_allocate : ℕ → ℕ → AddrSpace → Option (ℤ × AddrSpace)
stack_allocate page_size user_stack_size s = do
  let blank = alloc s stack_blank_len
  let num_pages = div_round_up user_stack_size page_size
  let stack = alloc blank.1 num_pages
  base ← stack.0
  t ← stack_pages num_pages base stack.1.translation_table
  some (minus ((base + num_pages) * page_size) 16, record stack.1 { translation_table = t })

-- One round of the loop of Mmap.
unfoldable pub map_page : TranslationTable → ℕ → ℕ → Option TranslationTable
map_page t virtual_page byte_offset = do
  t1 ← set_addr_disk t virtual_page (pos byte_offset)
  t2 ← clear_bit_io t1 virtual_page
  t3 ← clear_bit_valid t2 virtual_page
  t4 ← clear_bit_swap t3 virtual_page
  t5 ← set_bit_read_allowed t4 virtual_page
  t6 ← set_bit_write_allowed t5 virtual_page
  t7 ← clear_bit_u t6 virtual_page
  clear_bit_m t7 virtual_page

-- The rounds of the loop that are left, from round i on. The page -1 fails the first ASSERT.
unfoldable pub map_pages : ℕ → ℕ → ℕ → Option ℕ → TranslationTable → Option TranslationTable
map_pages page_size zero i page_allocated t = some t
map_pages page_size (suc n) i page_allocated t = do
  page ← page_allocated
  t' ← map_page t (page + i) (i * page_size)
  map_pages page_size n (i + 1) page_allocated t'

-- The address of a page, or of the page -1.
abbrev pub address_of : ℕ → Option ℕ → ℤ
address_of page_size none = minus 0 page_size
address_of page_size (some page) = pos (page * page_size)

abbrev pub is_null : ℤ → Bool
is_null (pos zero) = true
is_null (pos (suc n)) = false
is_null (negsuc n) = false

unfoldable pub mmap : ℕ → AddrSpace → ℕ → ℕ → Option (ℤ × AddrSpace)
mmap page_size s f size = do
  let nb_pages = div_round_up size page_size
  let area = alloc s nb_pages
  let addr_allocated = address_of page_size area.0
  assert (not (is_null addr_allocated))
  let element : MappedFile = record { first_address = addr_allocated; size = nb_pages; file = f }
  assert (ltb (length s.mapped_files) max_mapped_files)
  t ← map_pages page_size nb_pages 0 area.0 area.1.translation_table
  some (
    addr_allocated,
    record area.1 { translation_table = t; mapped_files = s.mapped_files ++ element ∷ [] },
  )

-- `addr >= mf_start && addr < mf_end`
abbrev pub covers : ℕ → ℕ → ℤ → ℕ → Bool
covers page_size addr (pos start) size = leb start addr && ltb addr (start + (size + 1) * page_size)
covers page_size addr (negsuc n) size = ltb (addr + suc n) ((size + 1) * page_size)

-- The loop of findMappedFile; `none` is NULL.
unfoldable pub find_in : ℕ → List MappedFile → ℕ → Option ℕ
find_in page_size [] addr = none
find_in page_size (mf ∷ rest) addr =
    if covers page_size addr mf.first_address mf.size
    then some mf.file
    else find_in page_size rest addr

unfoldable pub find_mapped_file : ℕ → AddrSpace → ℕ → Option ℕ
unfolding find_in
find_mapped_file page_size s addr = find_in page_size s.mapped_files addr
