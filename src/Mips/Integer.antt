-- ===== src/Mips/Integer.antt =====
-- nachos/machine/mipssim.cc: the arithmetic, the logic and the shifts of OneInstruction.
--
-- `execute` is the whole switch: what is not arithmetic is left to the files for branches, for loads
-- and stores and for floating point.
use Prim.Native.Nat.{bit_and, bit_or, bit_xor}
use sgptp.Prelude.{
  ℕ, ◌/◌, ◌%◌, ◌^◌, Bool, true, false, not, Option, some, ltb, ◌==◌, if◌then◌else◌, ◌&&◌, ◌>>=◌,
}
use sgptp.Mmu.{Cpu, ExceptionType, overflow_exception}
use sgptp.Mips.{Executed, completed, trapped, raise_exception, set_reg, hi_reg, lo_reg}
use sgptp.Mips.Words.{
  add32, sub32, not32, shift_left, shift_right, has_sign, less_int, divide_int, mult,
}
use sgptp.Mips.Opcodes.{
  OpCode, op_add, op_addi, op_addiu, op_addu, op_and, op_andi, op_div, op_divu, op_lui, op_mfhi,
  op_mflo, op_mthi, op_mtlo, op_mult, op_multu, op_nor, op_or, op_ori, op_sll, op_sllv, op_slt,
  op_slti, op_sltiu, op_sltu, op_sra, op_srav, op_srl, op_srlv, op_sub, op_subu, op_xor, op_xori,
}
use sgptp.Mips.Decode.{Instruction}
use sgptp.Mips.Float.{FloatUnit}
use sgptp.Mips.Branch.{execute_branch}

-- The tests of OP_ADD and OP_SUB for an overflow.
abbrev pub add_overflows : ℕ → ℕ → Bool
add_overflows a b = not (has_sign (bit_xor a b)) && has_sign (bit_xor a (add32 a b))

abbrev pub sub_overflows : ℕ → ℕ → Bool
sub_overflows a b = has_sign (bit_xor a b) && has_sign (bit_xor a (sub32 a b))

-- The test of OP_ADDI, which looks at the immediate and the sum.
abbrev pub addi_overflows : ℕ → ℕ → Bool
addi_overflows a b = not (has_sign (bit_xor a b)) && has_sign (bit_xor b (add32 a b))

abbrev pub set_hi_lo : Cpu → ℕ × ℕ → Cpu
set_hi_lo k (hi, lo) = set_reg (set_reg k hi_reg hi) lo_reg lo

-- OP_DIV and OP_DIVU set LO and then HI from the same registers rs and rt, which are none of them.
abbrev pub divided : ℕ → ℕ → Option (ℕ × ℕ)
divided rs rt = if rt == 0 then some (0, 0) else divide_int rs rt

abbrev pub divided_unsigned : ℕ → ℕ → ℕ × ℕ
divided_unsigned rs rt = if rt == 0 then (0, 0) else (rs / rt, rs % rt)

abbrev bit_of : Bool → ℕ
bit_of b = if b then 1 else 0

-- `int_registers[r] = v; break;`
abbrev pub stores : Cpu → ℕ → ℕ → ℕ → Option Executed
stores k pc_after r v = some (completed (set_reg k r v) 0 0 pc_after)

abbrev stores_hi_lo : Cpu → ℕ → ℕ × ℕ → Option Executed
stores_hi_lo k pc_after hi_lo = some (completed (set_hi_lo k hi_lo) 0 0 pc_after)

module _ (page_size num_phys_pages : ℕ) (handler : ExceptionType → ℕ → Cpu → Cpu)
    (fpu : FloatUnit) where
  unfoldable pub execute : OpCode → Instruction → Cpu → ℕ → Option Executed
  execute op i k pc_after =
      let rs = k.int_registers i.rs in
      let rt = k.int_registers i.rt in
      let low = i.extra % 2 ^ 16 in
      let overflow = some (trapped (raise_exception handler overflow_exception 0 k)) in
      let store : ℕ → ℕ → Option Executed = stores k pc_after in
      let store_hi_lo : ℕ × ℕ → Option Executed = stores_hi_lo k pc_after in
      elim op [
        | op_add ↦ if add_overflows rs rt then overflow else store i.rd (add32 rs rt)
        | op_addi ↦ if addi_overflows rs i.extra then overflow else store i.rt (add32 rs i.extra)
        | op_addiu ↦ store i.rt (add32 rs i.extra)
        | op_addu ↦ store i.rd (add32 rs rt)
        | op_and ↦ store i.rd (bit_and rs rt)
        | op_andi ↦ store i.rt (bit_and rs low)
        | op_div ↦ (do (quotient, rest) ← divided rs rt; store_hi_lo (rest, quotient))
        | op_divu ↦ let (quotient, rest) = divided_unsigned rs rt in store_hi_lo (rest, quotient)
        | op_lui ↦ store i.rt (shift_left i.extra 16)
        | op_mfhi ↦ store i.rd (k.int_registers hi_reg)
        | op_mflo ↦ store i.rd (k.int_registers lo_reg)
        | op_mthi ↦ store hi_reg rs
        | op_mtlo ↦ store lo_reg rs
        | op_mult ↦ store_hi_lo (mult rs rt true)
        | op_multu ↦ store_hi_lo (mult rs rt false)
        | op_nor ↦ store i.rd (not32 (bit_or rs rt))
        | op_or ↦ store i.rd (bit_or rs rs)
        | op_ori ↦ store i.rt (bit_or rs low)
        | op_sll ↦ store i.rd (shift_left rt i.extra)
        | op_sllv ↦ store i.rd (shift_left rt (rs % 2 ^ 5))
        | op_slt ↦ store i.rd (bit_of (less_int rs rt))
        | op_slti ↦ store i.rt (bit_of (less_int rs i.extra))
        | op_sltiu ↦ store i.rt (bit_of (ltb rs i.extra))
        | op_sltu ↦ store i.rd (bit_of (ltb rs rt))
        | op_sra ↦ store i.rd (shift_right rt i.extra)
        | op_srav ↦ store i.rd (shift_right rt (rs % 2 ^ 5))
        | op_srl ↦ store i.rd (shift_right rt i.extra)
        | op_srlv ↦ store i.rd (shift_right rt (rs % 2 ^ 5))
        | op_sub ↦ if sub_overflows rs rt then overflow else store i.rd (sub32 rs rt)
        | op_subu ↦ store i.rd (sub32 rs rt)
        | op_xor ↦ store i.rd (bit_xor rs rt)
        | op_xori ↦ store i.rt (bit_xor rs low)
        | other ↦ execute_branch page_size num_phys_pages handler fpu other i k pc_after
      ]
