-- ===== src/Mips/Float.antt =====
-- nachos/machine/mipssim.cc: the floating point part of the switch of OneInstruction, with the
-- reserved and the unimplemented instructions at its end.
use sgptp.Prelude.{
  ℕ, ◌+◌, ◌*◌, ◌/◌, ◌%◌, ◌^◌, Bool, false, not, Option, none, some, ltb, if◌then◌else◌, ◌==◌, ◌>>=◌,
  ◌>>◌, assert, update,
}
use sgptp.Mmu.{
  Cpu, ExceptionType, overflow_exception, addresserror_exception, illegalinstr_exception, read_mem,
  write_mem,
}
use sgptp.Mips.{Executed, completed, trapped, set_reg, raise_exception, nextpc_reg, pc_reg}
use sgptp.Mips.Words.{add32, shift_left}
use sgptp.Mips.Opcodes.{
  OpCode, op_abs_d, op_abs_s, op_add_d, op_add_s, op_bc1f, op_bc1fl, op_bc1t, op_bc1tl, op_c_eq_d,
  op_c_eq_s, op_c_f_d, op_c_f_s, op_c_le_d, op_c_le_s, op_c_lt_d, op_c_lt_s, op_c_nge_d, op_c_nge_s,
  op_c_ngl_d, op_c_ngl_s, op_c_ngle_d, op_c_ngle_s, op_c_ngt_d, op_c_ngt_s, op_c_ole_d, op_c_ole_s,
  op_c_olt_d, op_c_olt_s, op_c_seq_d, op_c_seq_s, op_c_sf_d, op_c_sf_s, op_c_ueq_d, op_c_ueq_s,
  op_c_ule_d, op_c_ule_s, op_c_ult_d, op_c_ult_s, op_c_un_d, op_c_un_s, op_ceil_w_d, op_ceil_w_s,
  op_cfc1, op_ctc1, op_cvt_d_s, op_cvt_d_w, op_cvt_s_d, op_cvt_s_w, op_cvt_w_d, op_cvt_w_s,
  op_div_d, op_div_s, op_floor_w_d, op_floor_w_s, op_ldc1, op_lwc1, op_mfc1, op_mov_d, op_mov_s,
  op_mtc1, op_mul_d, op_mul_s, op_neg_d, op_neg_s, op_res, op_round_w_d, op_round_w_s, op_sdc1,
  op_sqrt_d, op_sqrt_s, op_sub_d, op_sub_s, op_swc1, op_trunc_w_d, op_trunc_w_s, op_unimp,
}
use sgptp.Mips.Decode.{Instruction}

-- What the code does with `float` and `double`, on their patterns.
pub record FloatUnit : Type 0 where
  pub abs_s : ℕ → ℕ
  pub neg_s : ℕ → ℕ
  pub sqrt_s : ℕ → ℕ
  pub cvt_s_w : ℕ → ℕ
  pub cvt_w_s : ℕ → ℕ
  pub cvt_d_s : ℕ → ℕ
  pub abs_d : ℕ → ℕ
  pub neg_d : ℕ → ℕ
  pub sqrt_d : ℕ → ℕ
  pub cvt_d_w : ℕ → ℕ
  pub cvt_w_d : ℕ → ℕ
  pub cvt_s_d : ℕ → ℕ
  pub add_s : ℕ → ℕ → ℕ
  pub sub_s : ℕ → ℕ → ℕ
  pub mul_s : ℕ → ℕ → ℕ
  pub div_s : ℕ → ℕ → ℕ
  pub add_d : ℕ → ℕ → ℕ
  pub sub_d : ℕ → ℕ → ℕ
  pub mul_d : ℕ → ℕ → ℕ
  pub div_d : ℕ → ℕ → ℕ
  pub eq_s : ℕ → ℕ → Bool
  pub lt_s : ℕ → ℕ → Bool
  pub le_s : ℕ → ℕ → Bool
  pub eq_d : ℕ → ℕ → Bool
  pub lt_d : ℕ → ℕ → Bool
  pub le_d : ℕ → ℕ → Bool
  pub zero_s : ℕ
  pub zero_d : ℕ

-- `float_registers[r] = v`, and get_double and set_double.
abbrev pub set_float : Cpu → ℕ → ℕ → Cpu
set_float k r v = record k { float_registers = update k.float_registers r v }

abbrev pub get_double : ℕ → Cpu → Option ℕ
get_double r k = do
  assert (ltb (r + 1) 32)
  some (k.float_registers r + 2 ^ 32 * k.float_registers (r + 1))

abbrev pub set_double : ℕ → ℕ → Cpu → Option Cpu
set_double r v k = do
  assert (ltb (r + 1) 32)
  some (set_float (set_float k r (v % 2 ^ 32)) (r + 1) (v / 2 ^ 32))

module _ (page_size num_phys_pages : ℕ) (handler : ExceptionType → ℕ → Cpu → Cpu)
    (fpu : FloatUnit) where
  abbrev raise : ExceptionType → ℕ → Cpu → Cpu
  raise = raise_exception handler

  -- An access to memory and what follows it if it succeeds.
  unfoldable pub after_read : ℕ → ℕ → Cpu → (ℕ → Cpu → Option Executed) → Option Executed
  after_read addr size k rest = do
    (ok, value, k') ← read_mem page_size num_phys_pages raise addr size k
    if ok then rest value k' else some (trapped k')

  unfoldable pub after_write : ℕ → ℕ → ℕ → Cpu → (Cpu → Option Executed) → Option Executed
  after_write addr size value k rest = do
    (ok, k') ← write_mem page_size num_phys_pages raise addr size value k
    if ok then rest k' else some (trapped k')

  abbrev done : ℕ → Cpu → Option Executed
  done pc_after k = some (completed k 0 0 pc_after)

  -- Operations on one and on two registers, in single and in double precision.
  abbrev single_1 : (ℕ → ℕ) → Instruction → Cpu → ℕ → Option Executed
  single_1 op i k pc_after = done pc_after (set_float k i.fd (op (k.float_registers i.fs)))

  abbrev single_2 : (ℕ → ℕ → ℕ) → Instruction → Cpu → ℕ → Option Executed
  single_2 op i k pc_after =
      done pc_after (set_float k i.fd (op (k.float_registers i.fs) (k.float_registers i.ft)))

  abbrev double_1 : (ℕ → ℕ) → Instruction → Cpu → ℕ → Option Executed
  double_1 op i k pc_after = do
    d1 ← get_double i.fs k
    k' ← set_double i.fd (op d1) k
    done pc_after k'

  abbrev double_2 : (ℕ → ℕ → ℕ) → Instruction → Cpu → ℕ → Option Executed
  double_2 op i k pc_after = do
    d1 ← get_double i.fs k
    d2 ← get_double i.ft k
    k' ← set_double i.fd (op d1 d2) k
    done pc_after k'

  abbrev compare_single : (ℕ → ℕ → Bool) → Instruction → Cpu → ℕ → Option Executed
  compare_single test i k pc_after =
      done pc_after (record k { cc = test (k.float_registers i.fs) (k.float_registers i.ft) })

  abbrev compare_double : (ℕ → ℕ → Bool) → Instruction → Cpu → ℕ → Option Executed
  compare_double test i k pc_after = do
    d1 ← get_double i.fs k
    d2 ← get_double i.ft k
    done pc_after (record k { cc = test d1 d2 })

  abbrev branch_if : Bool → Instruction → Cpu → ℕ → Option Executed
  branch_if taken i k pc_after =
      done (if taken then add32 (k.int_registers nextpc_reg) (shift_left i.extra 2) else pc_after) k

  -- The instructions without an implementation, and the default of the switch.
  unfoldable pub execute_reserved : OpCode → Instruction → Cpu → ℕ → Option Executed
  execute_reserved op i k pc_after =
      let reserved = some (trapped (raise illegalinstr_exception (k.int_registers pc_reg) k)) in
      elim op [
        | op_c_un_s ↦ reserved
        | op_c_un_d ↦ reserved
        | op_c_ngle_s ↦ reserved
        | op_c_ngle_d ↦ reserved
        | op_bc1fl ↦ reserved
        | op_bc1tl ↦ reserved
        | op_ceil_w_s ↦ reserved
        | op_ceil_w_d ↦ reserved
        | op_floor_w_s ↦ reserved
        | op_floor_w_d ↦ reserved
        | op_round_w_s ↦ reserved
        | op_round_w_d ↦ reserved
        | op_trunc_w_s ↦ reserved
        | op_trunc_w_d ↦ reserved
        | op_unimp ↦ reserved
        | op_res ↦ reserved
        | _ ↦ none
      ]

  -- Comparisons and the branches on their result.
  unfoldable pub execute_compare : OpCode → Instruction → Cpu → ℕ → Option Executed
  execute_compare op i k pc_after = elim op [
    | op_c_sf_s ↦ done pc_after (record k { cc = false })
    | op_c_f_s ↦ done pc_after (record k { cc = false })
    | op_c_f_d ↦ done pc_after (record k { cc = false })
    | op_c_sf_d ↦ done pc_after (record k { cc = false })
    | op_c_eq_s ↦ compare_single fpu.eq_s i k pc_after
    | op_c_ueq_s ↦ compare_single fpu.eq_s i k pc_after
    | op_c_seq_s ↦ compare_single fpu.eq_s i k pc_after
    | op_c_ngl_s ↦ compare_single fpu.eq_s i k pc_after
    | op_c_olt_s ↦ compare_single fpu.lt_s i k pc_after
    | op_c_ult_s ↦ compare_single fpu.lt_s i k pc_after
    | op_c_lt_s ↦ compare_single fpu.lt_s i k pc_after
    | op_c_nge_s ↦ compare_single fpu.lt_s i k pc_after
    | op_c_ole_s ↦ compare_single fpu.le_s i k pc_after
    | op_c_ule_s ↦ compare_single fpu.le_s i k pc_after
    | op_c_le_s ↦ compare_single fpu.le_s i k pc_after
    | op_c_ngt_s ↦ compare_single fpu.le_s i k pc_after
    | op_c_eq_d ↦ compare_double fpu.eq_d i k pc_after
    | op_c_ueq_d ↦ compare_double fpu.eq_d i k pc_after
    | op_c_seq_d ↦ compare_double fpu.eq_d i k pc_after
    | op_c_ngl_d ↦ compare_double fpu.eq_d i k pc_after
    | op_c_olt_d ↦ compare_double fpu.lt_d i k pc_after
    | op_c_ult_d ↦ compare_double fpu.lt_d i k pc_after
    | op_c_lt_d ↦ compare_double fpu.lt_d i k pc_after
    | op_c_nge_d ↦ compare_double fpu.lt_d i k pc_after
    | op_c_ole_d ↦ compare_double fpu.le_d i k pc_after
    | op_c_ule_d ↦ compare_double fpu.le_d i k pc_after
    | op_c_le_d ↦ compare_double fpu.le_d i k pc_after
    | op_c_ngt_d ↦ compare_double fpu.le_d i k pc_after
    | op_bc1f ↦ branch_if (not k.cc) i k pc_after
    | op_bc1t ↦ branch_if k.cc i k pc_after
    | other ↦ execute_reserved other i k pc_after
  ]

  unfoldable pub execute_float : OpCode → Instruction → Cpu → ℕ → Option Executed
  execute_float op i k pc_after = elim op [
    | op_abs_s ↦ single_1 fpu.abs_s i k pc_after
    | op_abs_d ↦ double_1 fpu.abs_d i k pc_after
    | op_add_s ↦ single_2 fpu.add_s i k pc_after
    | op_add_d ↦ double_2 fpu.add_d i k pc_after
    | op_div_s ↦ single_2 fpu.div_s i k pc_after
    | op_div_d ↦ double_2 fpu.div_d i k pc_after
    | op_mul_s ↦ single_2 fpu.mul_s i k pc_after
    | op_mul_d ↦ double_2 fpu.mul_d i k pc_after
    | op_neg_s ↦ single_1 fpu.neg_s i k pc_after
    | op_neg_d ↦ double_1 fpu.neg_d i k pc_after
    | op_sub_s ↦ single_2 fpu.sub_s i k pc_after
    | op_sub_d ↦ double_2 fpu.sub_d i k pc_after
    | op_sqrt_s ↦
        if fpu.lt_s (k.float_registers i.fs) fpu.zero_s
        then some (trapped (raise overflow_exception 0 k))
        else single_1 fpu.sqrt_s i k pc_after
    | op_sqrt_d ↦ (do
      d1 ← get_double i.fs k
      if fpu.lt_d d1 fpu.zero_d
          then some (trapped (raise overflow_exception 0 k))
          else double_1 fpu.sqrt_d i k pc_after)
    | op_cvt_s_d ↦ (do d1 ← get_double i.fs k; done pc_after (set_float k i.fd (fpu.cvt_s_d d1)))
    | op_cvt_d_s ↦ (do
      k' ← set_double i.fd (fpu.cvt_d_s (k.float_registers i.fs)) k
      done pc_after k')
    | op_cvt_s_w ↦ single_1 fpu.cvt_s_w i k pc_after
    | op_cvt_w_s ↦ single_1 fpu.cvt_w_s i k pc_after
    | op_cvt_d_w ↦ (do
      k' ← set_double i.fd (fpu.cvt_d_w (k.float_registers i.fs)) k
      done pc_after k')
    | op_cvt_w_d ↦ (do d1 ← get_double i.fs k; done pc_after (set_float k i.fd (fpu.cvt_w_d d1)))
    | other ↦ execute_compare other i k pc_after
  ]

  -- Loads, stores and moves of the floating point registers; there are 32 of them.
  unfoldable pub execute_move : OpCode → Instruction → Cpu → ℕ → Option Executed
  execute_move op i k pc_after =
      let addr = add32 (k.int_registers i.rs) i.extra in
      elim op [
        | op_lwc1 ↦
            if addr % 4 == 0
            then after_read addr 4 k (λ value k'. done pc_after (set_float k' i.ft value))
            else some (trapped (raise addresserror_exception addr k))
        | op_ldc1 ↦
            if addr % 8 == 0
            then after_read addr 4 k (λ low k1.
              after_read (add32 addr 4) 4 (set_float k1 i.ft low) (λ high k2. do
                assert (ltb (i.ft + 1) 32)
                done pc_after (set_float k2 (i.ft + 1) high)))
            else some (trapped (raise addresserror_exception addr k))
        | op_swc1 ↦ after_write addr 4 (k.float_registers i.ft) k (done pc_after)
        | op_sdc1 ↦ after_write addr 4 (k.float_registers i.ft) k (λ k1. do
          assert (ltb (i.ft + 1) 32)
          after_write (add32 (add32 (k1.int_registers i.rs) i.extra) 4) 4
              (k1.float_registers (i.ft + 1)) k1 (done pc_after))
        | op_mov_s ↦ single_1 (λ w. w) i k pc_after
        | op_mov_d ↦ (do
          assert (ltb (i.fd + 1) 32)
          assert (ltb (i.fs + 1) 32)
          let k' = set_float k i.fd (k.float_registers i.fs)
          done pc_after (set_float k' (i.fd + 1) (k'.float_registers (i.fs + 1))))
        | op_mfc1 ↦ done pc_after (set_reg k i.rt (k.float_registers i.fs))
        | op_cfc1 ↦ done pc_after (set_reg k i.rt (k.float_registers i.fs))
        | op_mtc1 ↦ done pc_after (set_float k i.fs (k.int_registers i.rt))
        | op_ctc1 ↦ done pc_after (set_float k i.fs (k.int_registers i.rt))
        | other ↦ execute_float other i k pc_after
      ]
