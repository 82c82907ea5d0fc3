-- ===== src/PageFault/Examples.antt =====
-- A fault on page 0 of a program whose bytes are read from its file: one free page of two bytes.
use sgptp.Prelude.{ℕ, ◌≡◌, refl, arith, true, false, Option, none, some, List, [], ◌∷◌}
use sgptp.Prelude.Int.{pos, negsuc}
use sgptp.LinkedList.{append, element, is_empty, remove}
use sgptp.TranslationTable.{
  PageTableEntry, TranslationTable, set_bit_io, get_bit_io, get_bit_valid, get_bit_swap,
  get_addr_disk, set_physical_page, clear_bit_io, clear_bit_m, set_bit_u, set_bit_valid, entry,
  modify,
}
use sgptp.PhysicalMem.{
  PhysicalMem, new_manager, append_pages, add_mapping, find_free_page, unlock_page,
}
use sgptp.PhysicalMem.FreeList.{IsConsistent}
use sgptp.PhysicalMem.Reach.{start, Reach-IsConsistent}
use sgptp.OpenFile.{bcopy}
use sgptp.AddrSpace.{find_in}
use sgptp.PageFault.{
  State, Devices, on_table, fetch, page_fault, bring_in, wait_io, wait_swap, resolve,
}
use sgptp.PageFault.Resolved.{Ready, Resolved, Careful, page_fault-Resolved}

abbrev absent : PageTableEntry
absent = record {
  valid = false;
  u = false;
  m = false;
  read_allowed = true;
  write_allowed = false;
  physical_page = negsuc 0;
  swap = false;
  addr_disk = pos 8;
  io = false;
}

abbrev one_page : TranslationTable
one_page = record { max_num_pages = 1; page_table = absent ∷ [] }

abbrev one_table : ℕ → Option TranslationTable
one_table owner = some one_page

abbrev one_free : PhysicalMem
one_free = record {
  tpr = record { free = true; locked = false; virtual_page = 9; owner = none } ∷ [];
  free_page_list = element 0 0 ∷ [];
  tables = one_table;
}

one_free-IsConsistent : IsConsistent one_free
unfolding new_manager append_pages append
one_free-IsConsistent = Reach-IsConsistent {n = 1} {garbage = 9} {tables = one_table} start

abbrev faulted : State
faulted = record { manager = one_free; main_memory = 0 ∷ 0 ∷ []; mapped_files = [] }

abbrev disk : Devices
disk = record {
  read_at = λ f ad s. (4 ∷ 5 ∷ [], s);
  get_page_swap = λ sector s. (6 ∷ 7 ∷ [], s);
  yield = λ s. s;
  evict = λ m. none;
}

disk-Careful : Careful 2 3 0 disk
disk-Careful = record { reads = λ f ad s r. (refl, r); swaps = λ sector s r. (refl, r) }

abbrev faulted-Ready : Ready 2 3 0 faulted
faulted-Ready = record {
  table = one_page;
  here = refl;
  at_page = absent;
  has = (omega arith, refl);
  free_page = 0;
  some_free = refl;
  consistent = one_free-IsConsistent;
  frames = λ page lt. omega arith;
}

page_fault-Resolved_example :
    (s1 s2 s' : State) × (buffer : List ℕ) × (on_table disk 2 3 7 0 (λ t. set_bit_io t 0) faulted
      ≡ some s1)
    × (fetch disk 2 3 7 0 1 s1 ≡ some (buffer, s2))
    × (page_fault disk 2 3 7 0 1 faulted ≡ some s')
    × Resolved 2 3 0 buffer s'
page_fault-Resolved_example =
    page_fault-Resolved disk 2 3 7 0 0 faulted disk-Careful faulted-Ready refl refl refl

-- The memory after a fault: what the program holds at position 8.
abbrev memory_of : Option State → List ℕ
memory_of (some s) = s.main_memory
memory_of none = []

loaded : memory_of (page_fault disk 2 3 7 0 1 faulted) ≡ 4 ∷ 5 ∷ []
unfolding page_fault bring_in fetch wait_io wait_swap resolve get_bit_io get_bit_valid get_bit_swap
    get_addr_disk set_bit_io set_physical_page clear_bit_io clear_bit_m set_bit_u set_bit_valid
    entry modify add_mapping find_free_page is_empty remove unlock_page bcopy find_in
loaded = refl
