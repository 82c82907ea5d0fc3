-- ===== src/Mmu/Protection.antt =====
-- Accesses that the page table forbids.
use sgptp.Prelude.{
  ◌^◌, ℕ, ◌/◌, ◌≤◌, ◌<◌, ◌≡◌, refl, ◌⊎◌, inl, inr, Bool, true, false, not, some, get_elem?, leb,
  arith, lt→ltb, le→leb, ◌&&◌, ◌||◌,
}
use sgptp.TranslationTable.{
  PageTableEntry, TranslationTable, entry, get_bit_read_allowed, get_bit_write_allowed,
}
use sgptp.Mmu.{
  Cpu, ExceptionType, addresserror_exception, readonly_exception, exception, is_aligned, translate,
  translate_twice, read_mem, write_mem,
}

-- The page is in the table, with this entry.
abbrev pub Has : TranslationTable → ℕ → PageTableEntry → Type 0
Has t vpn e = (vpn < t.max_num_pages) × (get_elem? t.page_table vpn ≡ some e)

-- The access is forbidden by the table, for the reason `x`: the page is beyond the table, it has no
-- rights at all, or it may only be read and the access writes.
abbrev pub Denied : Bool → TranslationTable → ℕ → ExceptionType → Type 0
Denied writing t vpn x =
    ((t.max_num_pages ≤ vpn) × (x ≡ addresserror_exception))
    ⊎ ((e : PageTableEntry) × Has t vpn e
        × (((e.read_allowed || e.write_allowed) ≡ false) × (x ≡ addresserror_exception)
            ⊎ (e.read_allowed ≡ true)
              × (e.write_allowed ≡ false)
              × (writing ≡ true)
              × (x ≡ readonly_exception)))

module _ (page_size num_phys_pages : ℕ) (raise : ExceptionType → ℕ → Cpu → Cpu) where
  translate-Denied :
      (a size : ℕ) (writing : Bool) (x : ExceptionType) (k : Cpu)
      → is_aligned a size ≡ true
      → a < 2 ^ 31
      → Denied writing k.table (a / page_size) x
      → translate page_size num_phys_pages raise a size writing k ≡ some (exception x, k)
  unfolding translate get_bit_read_allowed get_bit_write_allowed entry
  translate-Denied a size writing x k al lo (inl (beyond, why)) =
      rw (al, lt→ltb a (2 ^ 31) lo, le→leb _ _ beyond, why) refl
  translate-Denied a size writing x k al lo (inr (e, (inside, here), inl (rights, why))) =
      let within : leb k.table.max_num_pages (a / page_size) ≡ false = ground (arith, inside) in
      let unmapped : (not e.read_allowed && not e.write_allowed) ≡ true = ground (arith, rights) in
      rw (al, lt→ltb a (2 ^ 31) lo, within, lt→ltb _ _ inside, here, unmapped, why) refl
  translate-Denied a size writing x k al lo (inr (e, (inside, here), inr (rd, wr, writes, why))) =
      let within : leb k.table.max_num_pages (a / page_size) ≡ false = ground (arith, inside) in
      rw (al, lt→ltb a (2 ^ 31) lo, within, lt→ltb _ _ inside, here, rd, wr, writes, why) refl

  -- An aligned WriteMem at an address from 0 on that the table forbids fails: the exception is raised once, and neither the
  -- table nor a byte of memory has changed before.
  pub write_mem-Denied :
      (a size value : ℕ) (x : ExceptionType) (k : Cpu)
      → is_aligned a size ≡ true
      → a < 2 ^ 31
      → Denied true k.table (a / page_size) x
      → write_mem page_size num_phys_pages raise a size value k ≡ some (false, raise x a k)
  unfolding write_mem translate_twice
  write_mem-Denied a size value x k al lo d =
      rw (translate-Denied a size true x k al lo d, translate-Denied a size true x k al lo d) refl

  -- An aligned ReadMem at an address from 0 on that the table forbids fails: the exception is raised once, and neither the
  -- table nor a byte of memory has changed before.
  pub read_mem-Denied :
      (a size : ℕ) (x : ExceptionType) (k : Cpu)
      → is_aligned a size ≡ true
      → a < 2 ^ 31
      → Denied false k.table (a / page_size) x
      → read_mem page_size num_phys_pages raise a size k ≡ some (false, 0, raise x a k)
  unfolding read_mem translate_twice
  read_mem-Denied a size x k al lo d =
      rw (translate-Denied a size false x k al lo d, translate-Denied a size false x k al lo d) refl
