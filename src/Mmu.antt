-- ===== src/Mmu.antt =====
-- nachos/machine/mmu.h and mmu.cc: the translation of virtual addresses and the access to memory.
--
-- An address is the 32-bit pattern of an `int`. C divides towards zero, so a negative address less
-- than a page below zero has page number 0 and a negative offset; any other negative address has a
-- negative page number, which fails the ASSERT of the page table. `raise` is what
-- `Machine::RaiseException` does. Main memory is a list of bytes, in the byte order of a
-- little-endian machine; a physical address before its start, which the code would use as an index,
-- is `none`. A value read is a 32-bit pattern. The counters of accesses and faults are left out.
pub mod Bytes
pub mod Resident
pub mod Access
pub mod Protection
pub mod Negative
mod Examples
use sgptp.Prelude.{
  ℕ, zero, suc, ◌+◌, ◌-◌, ◌*◌, ◌/◌, ◌%◌, ◌^◌, Bool, true, false, not, Option, none, some, List,
  length, get_elem?, set, ltb, leb, ◌==◌, if◌then◌else◌, ◌&&◌, ◌||◌, ◌>>=◌, ◌>>◌, assert,
}
use sgptp.Prelude.Int.{ℤ, pos, negsuc}
use sgptp.TranslationTable.{
  TranslationTable, get_physical_page, get_bit_valid, get_bit_read_allowed, get_bit_write_allowed,
  set_bit_u, set_bit_m,
}

pub data ExceptionType : Type 0 where
  no_exception : ExceptionType
  syscall_exception : ExceptionType
  pagefault_exception : ExceptionType
  readonly_exception : ExceptionType
  buserror_exception : ExceptionType
  addresserror_exception : ExceptionType
  overflow_exception : ExceptionType
  illegalinstr_exception : ExceptionType

-- The result of Translate: `*physAddr` is set only with NO_EXCEPTION.
pub data Translation : Type 0 where
  physical : ℕ → Translation
  exception : ExceptionType → Translation

-- The part of class Machine that a program can reach.
pub record Cpu : Type 0 where
  pub int_registers : ℕ → ℕ
  pub float_registers : ℕ → ℕ
  pub cc : Bool
  pub table : TranslationTable
  pub main_memory : List ℕ

abbrev pub is_aligned : ℕ → ℕ → Bool
is_aligned virt_addr size =
    not (((size == 4) && not (virt_addr % 4 == 0)) || ((size == 2) && not (virt_addr % 2 == 0)))

abbrev pub set_used : TranslationTable → ℕ → Bool → Option TranslationTable
set_used t vpn true = do t' ← set_bit_m t vpn; set_bit_u t' vpn
set_used t vpn false = set_bit_u t vpn

-- `virtAddr / PageSize`, where it is not negative.
abbrev pub page_of : ℕ → ℕ → Option ℕ
page_of page_size virt_addr =
    if ltb virt_addr (2 ^ 31)
    then some (virt_addr / page_size)
    else if ltb (2 ^ 32 - virt_addr) page_size
    then some 0
    else none

-- `page * PageSize + virtAddr % PageSize`, where it is not negative.
abbrev pub place : ℕ → ℕ → ℕ → Option ℕ
place page_size page virt_addr =
    let below = (2 ^ 32 - virt_addr) % page_size in
    if ltb virt_addr (2 ^ 31)
    then some (page * page_size + virt_addr % page_size)
    else if leb below (page * page_size)
    then some (page * page_size - below)
    else none

-- The end of Translate, from the check of the physical page on.
abbrev pub locate : ℕ → ℕ → Cpu → ℕ → ℕ → Bool → ℤ → Option (Translation × Cpu)
locate page_size num_phys_pages k vpn virt_addr writing (negsuc n) =
    some (exception buserror_exception, k)
locate page_size num_phys_pages k vpn virt_addr writing (pos n) =
    if leb num_phys_pages n then some (exception buserror_exception, k) else (do
      t ← set_used k.table vpn writing
      phys_addr ← place page_size n virt_addr
      some (physical phys_addr, record k { table = t }))

-- Bytes of memory; the size of the access is the number of rounds.
unfoldable pub load : List ℕ → ℕ → ℕ → Option ℕ
load memory p zero = some 0
load memory p (suc n) = do
  b ← get_elem? memory p
  rest ← load memory (p + 1) n
  some (b + 256 * rest)

unfoldable pub store : List ℕ → ℕ → ℕ → ℕ → Option (List ℕ)
store memory p zero value = some memory
store memory p (suc n) value = do
  assert (ltb p (length memory))
  store (set memory p (value % 256)) (p + 1) n (value / 256)

-- `data = mainMemory[physAddr]`, an `int8_t` made an `int`.
abbrev pub sign_extend : ℕ → ℕ
sign_extend b = if ltb b 128 then b else b + (2 ^ 32 - 256)

abbrev pub is_size : ℕ → Bool
is_size size = (size == 1) || ((size == 2) || (size == 4))

abbrev pub as_int : ℕ → ℕ → ℕ
as_int size data_read = if size == 1 then sign_extend data_read else data_read

module _ (page_size num_phys_pages : ℕ) (raise : ExceptionType → ℕ → Cpu → Cpu) where
  -- The page fault of Translate, after which the page must be valid.
  unfoldable pub fault_in : Cpu → ℕ → ℕ → Bool → Option Cpu
  fault_in k virt_addr vpn true = some k
  fault_in k virt_addr vpn false = do
    let k' = raise pagefault_exception virt_addr k
    valid ← get_bit_valid k'.table vpn
    assert valid
    some k'

  unfoldable pub translate : ℕ → ℕ → Bool → Cpu → Option (Translation × Cpu)
  unfolding fault_in
  translate virt_addr size writing k = do
    assert (is_aligned virt_addr size)
    vpn ← page_of page_size virt_addr
    if leb k.table.max_num_pages vpn then some (exception addresserror_exception, k) else (do
      r ← get_bit_read_allowed k.table vpn
      w ← get_bit_write_allowed k.table vpn
      if not r && not w
          then some (exception addresserror_exception, k)
          else if writing && not w
          then some (exception readonly_exception, k)
          else (do
            valid ← get_bit_valid k.table vpn
            k' ← fault_in k virt_addr vpn valid
            page ← get_physical_page k'.table vpn
            locate page_size num_phys_pages k' vpn virt_addr writing page))

  -- Both translations of an access, and the ASSERT on their addresses.
  unfoldable pub translate_twice : ℕ → ℕ → Bool → Cpu → Option (Translation × Cpu)
  unfolding translate
  translate_twice virt_addr size writing k = do
    (first, k1) ← translate virt_addr size writing k
    (last, k2) ← translate virt_addr size writing k1
    elim first [
      | exception e ↦ some (exception e, k2)
      | physical a ↦ elim last [
        | exception e ↦ none
        | physical b ↦ (do assert (a == b); some (physical a, k2))
      ]
    ]

  -- ReadMem: whether it succeeded, the value, and the machine after it.
  unfoldable pub read_mem : ℕ → ℕ → Cpu → Option (Bool × ℕ × Cpu)
  unfolding translate_twice load
  read_mem virt_addr size k = do
    (found, k') ← translate_twice virt_addr size false k
    elim found [
      | exception e ↦ some (false, 0, raise e virt_addr k')
      | physical a ↦ (do
        assert (is_size size)
        value ← load k'.main_memory a size
        some (true, as_int size value, k'))
    ]

  unfoldable pub write_mem : ℕ → ℕ → ℕ → Cpu → Option (Bool × Cpu)
  unfolding translate_twice store
  write_mem addr size value k = do
    (found, k') ← translate_twice addr size true k
    elim found [
      | exception e ↦ some (false, raise e addr k')
      | physical a ↦ (do
        assert (is_size size)
        memory ← store k'.main_memory a size value
        some (true, record k' { main_memory = memory }))
    ]
