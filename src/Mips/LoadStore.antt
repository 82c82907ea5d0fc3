-- ===== src/Mips/LoadStore.antt =====
-- nachos/machine/mipssim.cc: the loads and stores of the general registers in OneInstruction.
--
-- A load completes with the register and the value that the next instruction will set.
use Prim.Native.Nat.{bit_and, bit_or}
use sgptp.Prelude.{ℕ, ◌-◌, ◌%◌, Bool, true, false, not, Option, some, ◌==◌, if◌then◌else◌, ◌&&◌}
use sgptp.Mmu.{Cpu, ExceptionType, addresserror_exception}
use sgptp.Mips.{Executed, completed, trapped, raise_exception, load_reg, loadvalue_reg}
use sgptp.Mips.Words.{add32, shift_left, shift_right}
use sgptp.Mips.Opcodes.{
  OpCode, op_lb, op_lbu, op_lh, op_lhu, op_lw, op_lwl, op_lwr, op_sb, op_sh, op_sw, op_swl, op_swr,
}
use sgptp.Mips.Decode.{Instruction}
use sgptp.Mips.Float.{FloatUnit, after_read, after_write, execute_move}

-- The value that a load of one or two bytes leaves for the register.
abbrev pub loaded_byte : Bool → ℕ → ℕ
loaded_byte signed value =
    if signed && not (bit_and value 0x80 == 0) then bit_or value 0xffff_ff00 else bit_and value 0xff

abbrev pub loaded_half : Bool → ℕ → ℕ
loaded_half signed value =
    if signed && not (bit_and value 0x8000 == 0)
    then bit_or value 0xffff_0000
    else bit_and value 0xffff

-- The switches of LWL, LWR, SWL and SWR on the last two bits of the address: the bytes of the
-- register `old` and of the word `value` in memory.
abbrev pub left_load : ℕ → ℕ → ℕ → ℕ
left_load rest old value =
    if rest == 0
    then value
    else if rest == 1
    then bit_or (bit_and old 0xff) (shift_left value 8)
    else if rest == 2
    then bit_or (bit_and old 0xffff) (shift_left value 16)
    else bit_or (bit_and old 0xff_ffff) (shift_left value 24)

abbrev pub right_load : ℕ → ℕ → ℕ → ℕ
right_load rest old value =
    if rest == 0
    then bit_or (bit_and old 0xffff_ff00) (bit_and (shift_right value 24) 0xff)
    else if rest == 1
    then bit_or (bit_and old 0xffff_0000) (bit_and (shift_right value 16) 0xffff)
    else if rest == 2
    then bit_or (bit_and old 0xff00_0000) (bit_and (shift_right value 8) 0xff_ffff)
    else value

abbrev pub left_store : ℕ → ℕ → ℕ → ℕ
left_store rest register value =
    if rest == 0
    then register
    else if rest == 1
    then bit_or (bit_and value 0xff00_0000) (bit_and (shift_right register 8) 0xff_ffff)
    else if rest == 2
    then bit_or (bit_and value 0xffff_0000) (bit_and (shift_right register 16) 0xffff)
    else bit_or (bit_and value 0xffff_ff00) (bit_and (shift_right register 24) 0xff)

abbrev pub right_store : ℕ → ℕ → ℕ → ℕ
right_store rest register value =
    if rest == 0
    then bit_or (bit_and value 0xff_ffff) (shift_left register 24)
    else if rest == 1
    then bit_or (bit_and value 0xffff) (shift_left register 16)
    else if rest == 2
    then bit_or (bit_and value 0xff) (shift_left register 8)
    else register

-- The register `rt` as LWL and LWR see it: a load in its delay slot is taken first.
abbrev pub pending : ℕ → Cpu → ℕ
pending rt k =
    if k.int_registers load_reg == rt then k.int_registers loadvalue_reg else k.int_registers rt

module _ (page_size num_phys_pages : ℕ) (handler : ExceptionType → ℕ → Cpu → Cpu)
    (fpu : FloatUnit) where
  abbrev read : ℕ → ℕ → Cpu → (ℕ → Cpu → Option Executed) → Option Executed
  read = after_read page_size num_phys_pages handler fpu

  abbrev write : ℕ → ℕ → ℕ → ℕ → Cpu → Option Executed
  write addr size value pc_after k =
      after_write page_size num_phys_pages handler fpu addr size value k
        (λ k'. some (completed k' 0 0 pc_after))

  abbrev loads : ℕ → ℕ → (ℕ → Cpu → ℕ) → ℕ → Cpu → ℕ → Option Executed
  loads addr size make rt k pc_after =
      read addr size k (λ value k'. some (completed k' rt (make value k') pc_after))

  abbrev misaligned : ℕ → Cpu → Option Executed
  misaligned addr k = some (trapped (raise_exception handler addresserror_exception addr k))

  unfoldable pub execute_memory : OpCode → Instruction → Cpu → ℕ → Option Executed
  execute_memory op i k pc_after =
      let addr = add32 (k.int_registers i.rs) i.extra in
      let word = addr - addr % 4 in
      elim op [
        | op_lb ↦ loads addr 1 (λ value k'. loaded_byte true value) i.rt k pc_after
        | op_lbu ↦ loads addr 1 (λ value k'. loaded_byte false value) i.rt k pc_after
        | op_lh ↦
            if addr % 2 == 0
            then loads addr 2 (λ value k'. loaded_half true value) i.rt k pc_after
            else misaligned addr k
        | op_lhu ↦
            if addr % 2 == 0
            then loads addr 2 (λ value k'. loaded_half false value) i.rt k pc_after
            else misaligned addr k
        | op_lw ↦
            if addr % 4 == 0
            then loads addr 4 (λ value k'. value) i.rt k pc_after
            else misaligned addr k
        | op_lwl ↦
            loads addr 4 (λ value k'. left_load (addr % 4) (pending i.rt k') value) i.rt k pc_after
        | op_lwr ↦
            loads addr 4 (λ value k'. right_load (addr % 4) (pending i.rt k') value) i.rt k pc_after
        | op_sb ↦ write addr 1 (k.int_registers i.rt) pc_after k
        | op_sh ↦ write addr 2 (k.int_registers i.rt) pc_after k
        | op_sw ↦ write addr 4 (k.int_registers i.rt) pc_after k
        | op_swl ↦ read word 4 k (λ value k'.
            write word 4 (left_store (addr % 4) (k'.int_registers i.rt) value) pc_after k')
        | op_swr ↦ read word 4 k (λ value k'.
            write word 4 (right_store (addr % 4) (k'.int_registers i.rt) value) pc_after k')
        | other ↦ execute_move page_size num_phys_pages handler fpu other i k pc_after
      ]
