-- ===== src/Mips/Overflow.antt =====
-- nachos/machine/mipssim.cc: the overflow of ADD, ADDI and SUB.
use Prim.Native.Nat.{bit_xor}
use sgptp.Prelude.{
  ℕ, ◌+◌, ◌*◌, ◌%◌, ◌^◌, ◌≤◌, ◌<◌, ◌≡◌, ◌⊎◌, inl, inr, Bool, true, false, not, ltb, Option, some,
  if◌then◌else◌, arith, if_true, if_false,
}
use sgptp.Prelude.Bits.{bit_and-pow_zero}
use sgptp.Prelude.Masks.{test_bit-top, test_bit-bit_xor}
use sgptp.Mmu.{Cpu, ExceptionType, overflow_exception}
use sgptp.Mips.{Executed, completed, trapped, raise_exception, set_reg}
use sgptp.Mips.Words.{add32, sub32, has_sign}
use sgptp.Mips.Opcodes.{OpCode, op_add, op_addi, op_sub}
use sgptp.Mips.Decode.{Instruction}
use sgptp.Mips.Float.{FloatUnit}
use sgptp.Mips.Multiplication.{IsWord}
use sgptp.Mips.Integer.{execute, add_overflows, addi_overflows, sub_overflows}

-- The integer of a word, plus 2 ^ 31.
abbrev pub biased : ℕ → ℕ
biased w = (w + 2 ^ 31) % 2 ^ 32

-- The sum, and the difference, of two integers is an `int` of 32 bits.
abbrev pub SumFits : ℕ → ℕ → Type 0
SumFits a b = (2 ^ 31 ≤ biased a + biased b) × (biased a + biased b < 3 * 2 ^ 31)

abbrev pub DifferenceFits : ℕ → ℕ → Type 0
DifferenceFits a b = (biased b ≤ biased a + 2 ^ 31) × (biased a < biased b + 2 ^ 31)

-- Words of unequal signs.
bit_xor-sign :
    (a b : ℕ)
    → IsWord a
    → IsWord b
    → has_sign (bit_xor a b) ≡ (if ltb a (2 ^ 31) then not (ltb b (2 ^ 31)) else ltb b (2 ^ 31))
bit_xor-sign a b p q = ground (
  arith,
  bit_and-pow_zero (bit_xor a b) 31,
  test_bit-bit_xor 31 a b,
  test_bit-top 31 a p,
  test_bit-top 31 b q,
)

add_overflows_lem :
    (a b : ℕ)
    → IsWord a
    → IsWord b
    → (SumFits a b
        × (add_overflows a b ≡ false)
        × (biased (add32 a b) + 2 ^ 31 ≡ biased a + biased b))
      ⊎ ((¬ SumFits a b) × (add_overflows a b ≡ true))
add_overflows_lem a b p q =
    ground (arith, bit_xor-sign a b p q, bit_xor-sign a (add32 a b) p (omega arith))

addi_overflows_lem :
    (a b : ℕ)
    → IsWord a
    → IsWord b
    → (SumFits a b
        × (addi_overflows a b ≡ false)
        × (biased (add32 a b) + 2 ^ 31 ≡ biased a + biased b))
      ⊎ ((¬ SumFits a b) × (addi_overflows a b ≡ true))
addi_overflows_lem a b p q =
    ground (arith, bit_xor-sign a b p q, bit_xor-sign b (add32 a b) q (omega arith))

sub_overflows_lem :
    (a b : ℕ)
    → IsWord a
    → IsWord b
    → (DifferenceFits a b
        × (sub_overflows a b ≡ false)
        × (biased (sub32 a b) + biased b ≡ biased a + 2 ^ 31))
      ⊎ ((¬ DifferenceFits a b) × (sub_overflows a b ≡ true))
sub_overflows_lem a b p q =
    ground (arith, bit_xor-sign a b p q, bit_xor-sign a (sub32 a b) p (omega arith))

module _ (page_size num_phys_pages : ℕ) (handler : ExceptionType → ℕ → Cpu → Cpu)
    (fpu : FloatUnit) where
  -- Either the result fits and register r is set to a word `s` that stands for it, or it does not
  -- and the only effect is the exception.
  abbrev pub Checked : Type 0 → (ℕ → Type 0) → Option Executed → ℕ → Cpu → ℕ → Type 0
  Checked Fits IsResult run r k pc_after =
      (Fits × (s : ℕ) × IsResult s × (run ≡ some (completed (set_reg k r s) 0 0 pc_after)))
      ⊎ ((¬ Fits) × (run ≡ some (trapped (raise_exception handler overflow_exception 0 k))))

  -- An instruction that sets r to s unless the test says that it overflows.
  checked :
      {Fits : Type 0} {IsResult : ℕ → Type 0} (overflows : Bool) (s r pc_after : ℕ) (k : Cpu)
      → (Fits × (overflows ≡ false) × IsResult s) ⊎ ((¬ Fits) × (overflows ≡ true))
      → Checked Fits IsResult
          (if overflows
            then some (trapped (raise_exception handler overflow_exception 0 k))
            else some (completed (set_reg k r s) 0 0 pc_after))
          r
          k
          pc_after
  checked overflows s r pc_after k (inl (fits, passed, exact)) =
      inl (fits, s, exact, if_false _ _ passed)
  checked overflows s r pc_after k (inr (not_fits, failed)) = inr (not_fits, if_true _ _ failed)

  module _ (i : Instruction) (k : Cpu) (pc_after : ℕ) where
    abbrev pub run : OpCode → Option Executed
    unfolding execute
    run op = execute page_size num_phys_pages handler fpu op i k pc_after

    -- On words, each of ADD, ADDI and SUB raises the overflow exception, changing nothing before,
    -- exactly when the sum or the difference of the two integers is no `int`; else it completes and
    -- sets its register to the word of that integer.
    pub execute-Checked :
        IsWord (k.int_registers i.rs)
        → IsWord (k.int_registers i.rt)
        → IsWord i.extra
        → (let a = k.int_registers i.rs in
            let b = k.int_registers i.rt in
            Checked
              (SumFits a b)
              (λ s. biased s + 2 ^ 31 ≡ biased a + biased b)
              (run op_add)
              i.rd
              k
              pc_after
            × Checked
                (SumFits a i.extra)
                (λ s. biased s + 2 ^ 31 ≡ biased a + biased i.extra)
                (run op_addi)
                i.rt
                k
                pc_after
            × Checked
                (DifferenceFits a b)
                (λ s. biased s + biased b ≡ biased a + 2 ^ 31)
                (run op_sub)
                i.rd
                k
                pc_after)
    unfolding execute
    execute-Checked p q r = (
      checked _ _ i.rd pc_after k (add_overflows_lem _ _ p q),
      checked _ _ i.rt pc_after k (addi_overflows_lem _ _ p r),
      checked _ _ i.rd pc_after k (sub_overflows_lem _ _ p q),
    )
