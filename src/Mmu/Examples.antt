-- ===== src/Mmu/Examples.antt =====
-- Pages of 16 bytes, two frames: page 0 may be written, page 1 only be read, page 2 is not mapped.
use sgptp.Prelude.{ℕ, ◌+◌, ◌≤◌, ◌≡◌, refl, true, false, some, [], ◌∷◌, replicate, arith}
use sgptp.Prelude.Int.{pos, negsuc}
use sgptp.TranslationTable.{PageTableEntry}
use sgptp.Mmu.{Cpu, ExceptionType, read_mem, write_mem}
use sgptp.Mmu.Bytes.{Stored}
use sgptp.Mmu.Resident.{IsResident}
use sgptp.Mmu.Access.{read_mem-write_mem}
use sgptp.Mmu.Negative.{below_zero, write_mem_before_frame}

abbrev data_page : PageTableEntry
data_page = record {
  valid = true;
  u = false;
  m = false;
  read_allowed = true;
  write_allowed = true;
  physical_page = pos 1;
  swap = false;
  addr_disk = negsuc 0;
  io = false;
}

abbrev code_page : PageTableEntry
code_page = record data_page { write_allowed = false; physical_page = pos 0 }

abbrev no_page : PageTableEntry
no_page = record data_page { valid = false; read_allowed = false; write_allowed = false }

abbrev small : Cpu
small = record {
  int_registers = λ r. 0;
  float_registers = λ r. 0;
  cc = false;
  table = record { max_num_pages = 3; page_table = data_page ∷ code_page ∷ no_page ∷ [] };
  main_memory = replicate 32 0;
}

-- A handler that leaves all as it is.
abbrev ignore : ExceptionType → ℕ → Cpu → Cpu
ignore x a k = k

data_page-IsResident : IsResident true small.table 0 1
data_page-IsResident = record {
  in_table = omega arith;
  sized = refl;
  e = data_page;
  here = refl;
  valid = refl;
  may = refl;
  may_write = λ h. refl;
  page = refl;
}

read_mem-write_mem_example :
    (k' k'' : Cpu) × (write_mem 16 2 ignore 4 4 305419896 small ≡ some (true, k'))
    × (read_mem 16 2 ignore 4 4 k' ≡ some (true, 305419896, k''))
    × (k''.main_memory ≡ k'.main_memory)
    × (k'.int_registers ≡ small.int_registers)
    × (4 + 4 ≤ 16)
    × Stored small.main_memory 20 4 305419896 k'.main_memory
read_mem-write_mem_example =
    read_mem-write_mem 16 2 ignore 4 4 305419896 1 small refl refl (omega arith) (omega arith) refl
      (omega arith) (omega arith) data_page-IsResident

-- The address -4 is byte 12 of frame 0, although no page of it may be written there.
write_mem_before_frame_example :
    (k' : Cpu) × (write_mem 16 2 ignore (below_zero 4) 4 7 small ≡ some (true, k'))
    × Stored small.main_memory 12 4 7 k'.main_memory
    × (12 + 4 ≤ 16)
write_mem_before_frame_example =
    write_mem_before_frame 16 2 ignore 4 4 7 1 small refl refl (omega arith) (omega arith)
      (omega arith) (omega arith) (omega arith) (omega arith) data_page-IsResident
