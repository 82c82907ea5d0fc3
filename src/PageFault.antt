-- ===== src/PageFault.antt =====
-- nachos/vm/pagefaultmanager.cc: PageFaultManager::PageFault, over the translation tables, the physical
-- pages and the mapped files.
--
-- `owner` is the address space of the running process and `exec_file` its program. A read of a device,
-- and Yield, let other threads run: they may change the whole state. A loop that waits is on fuel.
-- NO_EXCEPTION is the only result, so the state is what is returned.
pub mod Resolved
mod Examples
use sgptp.Prelude.{
  ℕ, zero, suc, ◌*◌, Bool, true, false, Option, none, some, List, replicate, update, if◌then◌else◌,
  ◌>>=◌,
}
use sgptp.Prelude.Int.{ℤ, pos, negsuc}
use sgptp.TranslationTable.{
  TranslationTable, get_bit_io, get_bit_valid, get_bit_swap, get_addr_disk, set_bit_io,
  set_physical_page, clear_bit_io, clear_bit_m, set_bit_u, set_bit_valid,
}
use sgptp.OpenFile.{bcopy}
use sgptp.PhysicalMem.{PhysicalMem, add_mapping, unlock_page}
use sgptp.AddrSpace.{MappedFile, find_in}

pub record State : Type 0 where
  pub manager : PhysicalMem
  pub main_memory : List ℕ
  pub mapped_files : List MappedFile

-- What the handler calls: a read leaves a page in the buffer. `read_at` is ReadAt of a file at a
-- position, `get_page_swap` GetPageSwap of a sector.
pub record Devices : Type 0 where
  pub read_at : ℕ → ℤ → State → List ℕ × State
  pub get_page_swap : ℤ → State → List ℕ × State
  pub yield : State → State
  pub evict : PhysicalMem → Option (ℕ × PhysicalMem)

abbrev pub is_minus_one : ℤ → Bool
is_minus_one (negsuc zero) = true
is_minus_one (negsuc (suc n)) = false
is_minus_one (pos n) = false

-- The methods that end the handling of a fault.
unfoldable pub resolve : TranslationTable → ℕ → ℕ → Option TranslationTable
resolve t virtual_page page = do
  t1 ← set_physical_page t virtual_page (pos page)
  t2 ← clear_bit_io t1 virtual_page
  t3 ← clear_bit_m t2 virtual_page
  t4 ← set_bit_u t3 virtual_page
  set_bit_valid t4 virtual_page

module _ (dev : Devices) (page_size owner exec_file virtual_page : ℕ) where
  -- A method of `tt` that changes it.
  abbrev pub on_table : (TranslationTable → Option TranslationTable) → State → Option State
  on_table change s = do
    t ← s.manager.tables owner
    t' ← change t
    some (record s {
      manager = record s.manager { tables = update s.manager.tables owner (some t') };
    })

  unfoldable pub wait_io : ℕ → State → Option State
  wait_io zero s = none
  wait_io (suc fuel) s = do
    let again = wait_io fuel (dev.yield s)
    t ← s.manager.tables owner
    io ← get_bit_io t virtual_page
    if io then again else some s

  -- The sector in which a page is kept, when the page is no longer on its way to it.
  unfoldable pub wait_swap : ℕ → State → Option (ℤ × State)
  wait_swap zero s = none
  wait_swap (suc fuel) s = do
    let again = wait_swap fuel (dev.yield s)
    t ← s.manager.tables owner
    num_sector ← get_addr_disk t virtual_page
    if is_minus_one num_sector then again else some (num_sector, s)

  -- The buffer with the contents of the page.
  unfoldable pub fetch : ℕ → State → Option (List ℕ × State)
  fetch fuel s = do
    t ← s.manager.tables owner
    ad ← get_addr_disk t virtual_page
    swap ← get_bit_swap t virtual_page
    let from_swap = do (num_sector, s') ← wait_swap fuel s; some (dev.get_page_swap num_sector s')
    elim (find_in page_size s.mapped_files (virtual_page * page_size)) [
      | some f ↦ some (dev.read_at f ad s)
      | none ↦
          if swap
          then from_swap
          else if is_minus_one ad
          then some (replicate page_size 0, s)
          else some (dev.read_at exec_file ad s)
    ]

  unfoldable pub bring_in : ℕ → State → Option State
  bring_in fuel s = do
    s1 ← on_table (λ t. set_bit_io t virtual_page) s
    (buffer, s2) ← fetch fuel s1
    (page, manager) ← add_mapping dev.evict s2.manager owner virtual_page
    memory ← bcopy page_size buffer 0 s2.main_memory (page * page_size)
    s3 ←
        on_table (λ t. resolve t virtual_page page)
          (record s2 { manager = manager; main_memory = memory })
    manager' ← unlock_page s3.manager page
    some (record s3 { manager = manager' })

  unfoldable pub page_fault : ℕ → State → Option State
  page_fault fuel s = do
    s1 ← wait_io fuel s
    t ← s1.manager.tables owner
    valid ← get_bit_valid t virtual_page
    let loaded = bring_in fuel s1
    if valid then some s1 else loaded
