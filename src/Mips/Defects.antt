-- ===== src/Mips/Defects.antt =====
-- nachos/machine/mipssim.cc: instructions that do not do what the processor does.
use Prim.Native.Nat.{bit_or}
use native.Mathlib.Nat as Nat
use sgptp.Prelude.{
  ℕ, zero, suc, ◌-◌, ◌*◌, ◌/◌, ◌%◌, ◌^◌, ◌≤◌, ◌<◌, ◌≡◌, ◌≢◌, refl, ap, none, some, arith, ne→==,
}
use sgptp.Prelude.Bits.{bit_or_step}
use sgptp.Mmu.{Cpu, ExceptionType, read_mem, translate_twice, translate}
use sgptp.Mips.{completed, set_reg}
use sgptp.Mips.Words.{add32, shift_right}
use sgptp.Mips.Opcodes.{op_or, op_srl, op_lwl, op_lwr}
use sgptp.Mips.Decode.{Instruction}
use sgptp.Mips.Float.{FloatUnit, after_read}
use sgptp.Mips.LoadStore.{execute_memory}
use sgptp.Mips.Branch.{execute_branch}
use sgptp.Mips.Integer.{execute}

bit_or-self_below : (n a : ℕ) → a ≤ n → bit_or a a ≡ a
bit_or-self_below n zero h = refl
bit_or-self_below zero (suc a) h = absurd (omega arith)
bit_or-self_below (suc n) (suc a) h =
    omega (arith, bit_or_step (suc a) (suc a), bit_or-self_below n (suc a / 2) (omega arith))

-- A shift of `int` by n bits, for a word with the sign, keeps the sign; the quotient has none.
half_quotient : (n x : ℕ) → 1 ≤ n → x / 2 ^ n ≤ x / 2
half_quotient zero x h = absurd (omega arith)
half_quotient (suc n) x h =
    let twice : 2 ^ suc n ≡ 2 * 2 ^ n = omega (arith, Nat.pow-suc 2 n) in
    omega (
      arith,
      ap (λ d. x / d) twice,
      Nat.div-div-eq-div-mul x 2 (2 ^ n),
      Nat.div-le_self (x / 2) (2 ^ n),
    )

shift_right-sign :
    (n a : ℕ) → 1 ≤ n → 2 ^ 31 ≤ a → a < 2 ^ 32 → (2 ^ 31 ≤ shift_right a n) × (a / 2 ^ n < 2 ^ 31)
shift_right-sign n a h lo fits =
    ground (arith, half_quotient n a h, half_quotient n (2 ^ 32 - 1 - a) h)

module _ (page_size num_phys_pages : ℕ) (handler : ExceptionType → ℕ → Cpu → Cpu) (fpu : FloatUnit)
    (i : Instruction) (k : Cpu) (pc_after : ℕ) where
  -- The defect of OP_OR: it sets rd to rs, whatever rt holds.
  pub or_ignores_rt :
      execute page_size num_phys_pages handler fpu op_or i k pc_after
      ≡ some (completed (set_reg k i.rd (k.int_registers i.rs)) 0 0 pc_after)
  unfolding execute
  or_ignores_rt =
      ap (λ w. some (completed (set_reg k i.rd w) 0 0 pc_after))
        (bit_or-self_below (k.int_registers i.rs) (k.int_registers i.rs) (omega arith))

  -- The defect of OP_SRL: for a word with the sign bit and a shift by at least one bit, it sets rd to a
  -- word that has the sign bit, which no quotient of that word by a power of two from 2 on has.
  pub srl_keeps_sign :
      1 ≤ i.extra
      → 2 ^ 31 ≤ k.int_registers i.rt
      → k.int_registers i.rt < 2 ^ 32
      → (w : ℕ) × (execute page_size num_phys_pages handler fpu op_srl i k pc_after
          ≡ some (completed (set_reg k i.rd w) 0 0 pc_after))
        × (2 ^ 31 ≤ w)
        × (k.int_registers i.rt / 2 ^ i.extra < 2 ^ 31)
  unfolding execute
  srl_keeps_sign h lo fits =
      let (signed, unsigned) = shift_right-sign i.extra (k.int_registers i.rt) h lo fits in
      (_, refl, signed, unsigned)

  -- The defect of LWL and LWR: at an address that is no multiple of 4, for which they are meant, the
  -- ASSERT of Translate stops the whole system.
  pub unaligned_aborts :
      (add32 (k.int_registers i.rs) i.extra % 4) ≢ 0
      → (execute page_size num_phys_pages handler fpu op_lwl i k pc_after ≡ none)
        × (execute page_size num_phys_pages handler fpu op_lwr i k pc_after ≡ none)
  unfolding execute execute_branch execute_memory after_read read_mem translate_twice translate
  unaligned_aborts h = rw (ne→== _ _ h) (refl, refl)
