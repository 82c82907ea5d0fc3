-- ===== src/AddrSpace/Examples.antt =====
-- Address spaces with 64 pages of 128 bytes, in which two files are mapped.
use sgptp.Prelude.{ℕ, ◌+◌, ◌*◌, ◌<◌, ◌≡◌, refl, arith, false, Option, none, some, [], replicate}
use sgptp.Prelude.Int.{ℤ, pos, negsuc}
use sgptp.BitMap.{div_round_up}
use sgptp.TranslationTable.{
  entry, modify, set_addr_disk, clear_bit_valid, clear_bit_swap, clear_bit_io, clear_bit_u,
  clear_bit_m, set_bit_read_allowed, set_bit_write_allowed,
}
use sgptp.AddrSpace.{
  AddrSpace, alloc, stack_page, stack_pages, stack_allocate, map_page, map_pages, mmap, find_in,
  find_mapped_file,
}
use sgptp.AddrSpace.Areas.{IsBase, Stack, Mapping, stack_allocate-Stack, mmap-Mapping}
use sgptp.AddrSpace.Found.{
  WellPlaced, mapping, Grows-WellPlaced, find_mapped_file-mmap, find_mapped_file-mmap_next,
}

abbrev space : AddrSpace
space = record {
  translation_table = record {
    max_num_pages = 64;
    page_table = replicate 64 (record {
      valid = false;
      u = false;
      m = false;
      read_allowed = false;
      write_allowed = false;
      physical_page = negsuc 0;
      swap = false;
      addr_disk = negsuc 0;
      io = false;
    });
  };
  free_page_id = 5;
  mapped_files = [];
}

-- The space of a call that returned.
abbrev after : Option (ℤ × AddrSpace) → AddrSpace
after (some (address, s)) = s
after none = space

abbrev after_pointer : Option (ℤ × AddrSpace) → ℤ
after_pointer (some (address, s)) = address
after_pointer none = pos 0

abbrev once : AddrSpace
once = after (mmap 128 space 7 300)

abbrev twice : AddrSpace
twice = after (mmap 128 once 8 100)

first_mapped : mmap 128 space 7 300 ≡ some (pos 640, once)
unfolding mmap alloc div_round_up map_pages map_page set_addr_disk clear_bit_valid clear_bit_swap
    clear_bit_io clear_bit_u clear_bit_m set_bit_read_allowed set_bit_write_allowed modify entry
first_mapped = refl

second_mapped : mmap 128 once 8 100 ≡ some (pos 1024, twice)
unfolding mmap alloc div_round_up map_pages map_page set_addr_disk clear_bit_valid clear_bit_swap
    clear_bit_io clear_bit_u clear_bit_m set_bit_read_allowed set_bit_write_allowed modify entry
second_mapped = refl

-- The last address of the first file.
last_of_first : find_mapped_file 128 once 1023 ≡ some 7
unfolding find_mapped_file find_in mmap alloc div_round_up map_pages map_page set_addr_disk
    clear_bit_valid clear_bit_swap clear_bit_io clear_bit_u clear_bit_m set_bit_read_allowed
    set_bit_write_allowed modify entry
last_of_first = refl

-- The stack pointer of a stack of 1024 bytes, and one without a blank area.
stacks :
    (after_pointer (stack_allocate 128 1024 space) ≡ pos 2160)
    × (after_pointer (stack_allocate 128 256 (record space { free_page_id = 60 })) ≡ pos 7920)
unfolding stack_allocate stack_pages stack_page alloc div_round_up set_addr_disk clear_bit_valid
    clear_bit_swap clear_bit_io set_bit_read_allowed set_bit_write_allowed modify entry
stacks = (refl, refl)

some_pages : 0 < div_round_up 300 128
unfolding div_round_up
some_pages = omega arith

one_page : 0 < div_round_up 100 128
unfolding div_round_up
one_page = omega arith

space-WellPlaced : WellPlaced 128 space
space-WellPlaced = record { entries = omega arith; some_page = omega arith; ordered = omega arith }

stack_allocate-Stack_example :
    (base : ℕ) × IsBase space base
    × Stack 128 (div_round_up 1024 128) base space (stack_allocate 128 1024 space)
stack_allocate-Stack_example = stack_allocate-Stack 128 1024 space (omega arith)

mmap-Mapping_example : Mapping 128 (div_round_up 300 128) 7 space (mmap 128 space 7 300)
mmap-Mapping_example =
    mmap-Mapping 128 space 7 300 (omega arith) (omega arith) some_pages (omega arith)

Grows-WellPlaced_example : WellPlaced 128 once
Grows-WellPlaced_example =
    Grows-WellPlaced 128 space once (omega arith) space-WellPlaced
      (mapping 7 300 some_pages first_mapped)

inside : 900 < 640 + div_round_up 300 128 * 128
unfolding div_round_up
inside = omega arith

find_mapped_file-mmap_example : find_mapped_file 128 once 900 ≡ some 7
find_mapped_file-mmap_example =
    find_mapped_file-mmap 128 space once 7 300 640 900 (omega arith) space-WellPlaced some_pages
      first_mapped (omega arith) inside

find_mapped_file-mmap_next_example : find_mapped_file 128 twice 1024 ≡ some 7
find_mapped_file-mmap_next_example =
    find_mapped_file-mmap_next 128 space once twice 7 300 8 100 640 1024 (omega arith)
      space-WellPlaced some_pages one_page first_mapped second_mapped
