-- ===== src/Mips/Branch.antt =====
-- nachos/machine/mipssim.cc: the branches and jumps of OneInstruction, and the system call.
--
-- A branch completes with the address of the instruction after its delay slot.
use Prim.Native.Nat.{bit_and, bit_or}
use sgptp.Prelude.{ℕ, Bool, not, Option, some, ◌==◌, if◌then◌else◌}
use sgptp.Mmu.{Cpu, ExceptionType, syscall_exception}
use sgptp.Mips.{Executed, completed, trapped, raise_exception, set_reg, nextpc_reg, r31}
use sgptp.Mips.Words.{add32, shift_left, has_sign, less_int}
use sgptp.Mips.Opcodes.{
  OpCode, op_beq, op_bgezal, op_bgez, op_bgtz, op_blez, op_bltzal, op_bltz, op_bne, op_jal, op_j,
  op_jalr, op_jr, op_syscall,
}
use sgptp.Mips.Decode.{Instruction}
use sgptp.Mips.Float.{FloatUnit}
use sgptp.Mips.LoadStore.{execute_memory}

-- A branch to `IndexToAddr(extra)` from the next instruction, if the test holds.
abbrev pub branch : Bool → ℕ → Cpu → ℕ → Option Executed
branch taken extra k pc_after =
    let target = add32 (k.int_registers nextpc_reg) (shift_left extra 2) in
    some (completed k 0 0 (if taken then target else pc_after))

-- `int_registers[r] = int_registers[NEXTPC_REG] + 4`.
abbrev pub link : ℕ → Cpu → Cpu
link r k = set_reg k r (add32 (k.int_registers nextpc_reg) 4)

abbrev pub jump : ℕ → Cpu → ℕ → Option Executed
jump extra k pc_after =
    some (completed k 0 0 (bit_or (bit_and pc_after 0xf000_0000) (shift_left extra 2)))

module _ (page_size num_phys_pages : ℕ) (handler : ExceptionType → ℕ → Cpu → Cpu)
    (fpu : FloatUnit) where
  unfoldable pub execute_branch : OpCode → Instruction → Cpu → ℕ → Option Executed
  execute_branch op i k pc_after =
      let rs = k.int_registers i.rs in
      let linked = link r31 k in
      let linked_rd = link i.rd k in
      elim op [
        | op_beq ↦ branch (rs == k.int_registers i.rt) i.extra k pc_after
        | op_bgezal ↦ branch (not (has_sign (linked.int_registers i.rs))) i.extra linked pc_after
        | op_bgez ↦ branch (not (has_sign rs)) i.extra k pc_after
        | op_bgtz ↦ branch (less_int 0 rs) i.extra k pc_after
        | op_blez ↦ branch (not (less_int 0 rs)) i.extra k pc_after
        | op_bltzal ↦ branch (has_sign (linked.int_registers i.rs)) i.extra linked pc_after
        | op_bltz ↦ branch (has_sign rs) i.extra k pc_after
        | op_bne ↦ branch (not (rs == k.int_registers i.rt)) i.extra k pc_after
        | op_jal ↦ jump i.extra linked pc_after
        | op_j ↦ jump i.extra k pc_after
        | op_jalr ↦ some (completed linked_rd 0 0 (linked_rd.int_registers i.rs))
        | op_jr ↦ some (completed k 0 0 rs)
        | op_syscall ↦ some (trapped (raise_exception handler syscall_exception 0 k))
        | other ↦ execute_memory page_size num_phys_pages handler fpu other i k pc_after
      ]
