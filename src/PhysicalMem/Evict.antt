-- ===== src/PhysicalMem/Evict.antt =====
-- nachos/vm/physMem.cc: EvictPage. The clock is an argument, and the page that it stops at the result.
-- While it waits, other threads run: what they do to the manager is in the record `Others`, with
-- whether findMappedFile finds a file at a virtual page.
use sgptp.Prelude.{
  ℕ, zero, suc, ◌+◌, ◌%◌, Bool, true, Option, none, some, get_elem?, update, if◌then◌else◌, ◌>>=◌,
}
use sgptp.Prelude.Int.{ℤ, negsuc}
use sgptp.TranslationTable.{
  TranslationTable, get_bit_io, get_bit_m, get_bit_swap, get_addr_disk, set_addr_disk, set_bit_io,
  set_bit_swap, clear_bit_io, clear_bit_valid,
}
use sgptp.PhysicalMem.{PhysicalMem, set_tpr, find_victim, change_owner}

-- `write_at` writes a page to its mapped file at an address, `put_page_swap` to a sector of the swap
-- disk, or a new one for -1.
pub record Others : Type 0 where
  pub yield : ℕ → PhysicalMem → PhysicalMem
  pub is_mapped : ℕ → PhysicalMem → Bool
  pub write_at : ℕ → ℤ → ℕ → PhysicalMem → Option PhysicalMem
  pub put_page_swap : ℤ → ℕ → PhysicalMem → Option (ℤ × PhysicalMem)

-- A method of the table of an address space that changes it.
unfoldable pub on_owner :
    ℕ → (TranslationTable → Option TranslationTable) → PhysicalMem → Option PhysicalMem
on_owner owner change m = do
  t ← m.tables owner
  t' ← change t
  some (record m { tables = update m.tables owner (some t') })

module _ (o : Others) (owner vpn page : ℕ) where
  -- `while (tt->getBitIo(vpn)) Yield();`, on fuel.
  unfoldable pub wait_owner_io : ℕ → PhysicalMem → Option PhysicalMem
  wait_owner_io zero m = none
  wait_owner_io (suc fuel) m = do
    let again = wait_owner_io fuel (o.yield page m)
    t ← m.tables owner
    io ← get_bit_io t vpn
    if io then again else some m

  -- The page has a sector of the swap disk.
  unfoldable pub save_again : PhysicalMem → Option PhysicalMem
  save_again m = do
    t ← m.tables owner
    addr_disk ← get_addr_disk t vpn
    m1 ← on_owner owner (λ t. set_addr_disk t vpn (negsuc 0)) m
    (sector, m2) ← o.put_page_swap addr_disk page m1
    on_owner owner (λ t. set_addr_disk t vpn addr_disk) m2

  unfoldable pub save_first : PhysicalMem → Option PhysicalMem
  save_first m = do
    m1 ← on_owner owner (λ t. set_addr_disk t vpn (negsuc 0)) m
    (swap_addr, m2) ← o.put_page_swap (negsuc 0) page m1
    m3 ← on_owner owner (λ t. set_addr_disk t vpn swap_addr) m2
    on_owner owner (λ t. set_bit_swap t vpn) m3

  unfoldable pub save_mapped : PhysicalMem → Option PhysicalMem
  save_mapped m = do t ← m.tables owner; ad ← get_addr_disk t vpn; o.write_at vpn ad page m

  unfoldable pub write_out : PhysicalMem → Option PhysicalMem
  unfolding save_again save_first save_mapped
  write_out m = do
    t ← m.tables owner
    modified ← get_bit_m t vpn
    swap ← get_bit_swap t vpn
    if o.is_mapped vpn m
        then (if modified then save_mapped m else some m)
        else if swap
        then (if modified then save_again m else some m)
        else save_first m

unfoldable pub evict_page : Others → ℕ → ℕ → ℕ → ℕ → PhysicalMem → Option (ℕ × PhysicalMem)
unfolding wait_owner_io write_out
evict_page o num_pages current fuel i_clock m = do
  (page, m1) ← find_victim num_pages o.yield fuel ((i_clock + 1) % num_pages) 0 m
  f ← get_elem? m1.tpr page
  owner ← f.owner
  m2 ← on_owner owner (λ t. clear_bit_valid t f.virtual_page) m1
  m3 ← wait_owner_io o owner f.virtual_page page fuel (set_tpr m2 page (record f { locked = true }))
  m4 ← on_owner owner (λ t. set_bit_io t f.virtual_page) m3
  m5 ← write_out o owner f.virtual_page page m4
  m6 ← change_owner m5 page current
  m7 ← on_owner owner (λ t. clear_bit_io t f.virtual_page) m6
  some (page, m7)
