-- ===== src/Mips/StoreLoad.antt =====
-- nachos/machine/mipssim.cc with mmu.cc: SW and LW on a page in memory.
use sgptp.Prelude.{
  ℕ, ◌*◌, ◌/◌, ◌%◌, ◌^◌, ◌≤◌, ◌<◌, ◌≡◌, refl, ap, true, some, length, arith, ==_iff,
}
use sgptp.Mmu.{Cpu, ExceptionType, is_aligned, as_int}
use sgptp.Mmu.Bytes.{low_bytes}
use sgptp.Mmu.Resident.{IsResident}
use sgptp.Mmu.Access.{read_mem-write_mem}
use sgptp.Mips.{completed, raise_exception}
use sgptp.Mips.Words.{add32}
use sgptp.Mips.Opcodes.{op_sw, op_lw}
use sgptp.Mips.Decode.{Instruction}
use sgptp.Mips.Float.{FloatUnit, after_read, after_write}
use sgptp.Mips.LoadStore.{execute_memory}
use sgptp.Mips.Branch.{execute_branch}
use sgptp.Mips.Integer.{execute}

low_bytes-word : (v : ℕ) → v < 2 ^ 32 → as_int 4 (low_bytes 4 v) ≡ v
low_bytes-word v h = ground arith

-- The address of a load or a store.
abbrev pub address : Instruction → Cpu → ℕ
address i k = add32 (k.int_registers i.rs) i.extra

module _ (page_size num_phys_pages : ℕ) (handler : ExceptionType → ℕ → Cpu → Cpu)
    (fpu : FloatUnit) where
  -- For a word of memory, at an address from 0 on, that is in a frame and may be written, pages being
  -- a multiple of 4 bytes: SW of a register completes, and LW of the same word after it completes with
  -- the word of that register as the value to load.
  pub execute-store_load :
      (i : Instruction) (k : Cpu) (pc1 pc2 n : ℕ)
      → address i k % 4 ≡ 0
      → address i k < 2 ^ 31
      → k.int_registers i.rt < 2 ^ 32
      → 0 < page_size
      → page_size % 4 ≡ 0
      → num_phys_pages * page_size ≤ length k.main_memory
      → n < num_phys_pages
      → IsResident true k.table (address i k / page_size) n
      → (k1 k2 : Cpu) × (execute page_size num_phys_pages handler fpu op_sw i k pc1
          ≡ some (completed k1 0 0 pc1))
        × (execute page_size num_phys_pages handler fpu op_lw i k1 pc2
            ≡ some (completed k2 i.rt (k.int_registers i.rt) pc2))
  unfolding execute execute_branch execute_memory after_read after_write
  execute-store_load i k pc1 pc2 n aligned lo word some_bytes fours enough fits r =
      let a = add32 (k.int_registers i.rs) i.extra in
      let al : is_aligned a 4 ≡ true = ground arith in
      let (k1, k2, stored, loaded, same, registers, inside, bytes) =
        read_mem-write_mem page_size num_phys_pages (raise_exception handler) a 4
          (k.int_registers i.rt) n k refl al lo some_bytes fours enough fits r in
      let again : add32 (k1.int_registers i.rs) i.extra ≡ a =
        ap (λ f. add32 (f i.rs) i.extra) registers in
      (
        k1,
        k2,
        rw stored refl,
        rw (again, (==_iff (a % 4) 0).1 aligned, loaded)
            (ap (λ v. some (completed k2 i.rt v pc2)) (low_bytes-word _ word)),
      )
