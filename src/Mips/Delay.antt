-- ===== src/Mips/Delay.antt =====
-- nachos/machine/mipssim.cc: the delay slots of loads and branches, and register 0.
use sgptp.Prelude.{
  ℕ, ◌<◌, ◌≡◌, refl, sym, ap, Bool, true, false, not, Option, none, some, ◌==◌, if◌then◌else◌,
  ◌>>=◌, >>=-eq-some, arith,
}
use sgptp.Mmu.{Cpu, ExceptionType, read_mem}
use sgptp.Mips.{
  Executed, completed, trapped, raise_exception, delayed_load, pc_reg, nextpc_reg, load_reg,
  loadvalue_reg,
}
use sgptp.Mips.Words.{add32, shift_left}
use sgptp.Mips.Opcodes.{op_beq, op_bne}
use sgptp.Mips.Decode.{Instruction}
use sgptp.Mips.Float.{FloatUnit}
use sgptp.Mips.Branch.{execute_branch}
use sgptp.Mips.Integer.{execute}
use sgptp.Mips.Step.{advance, finish, one_instruction, user_tick}

-- The value that a load of an instruction brings reaches its register r at the end of the next
-- instruction, if that leaves the load pending: `k` is the processor at the end of the load's
-- execution, `k2` at the end of the next one's. Before it, r has its old value, or that of a load that
-- was pending for r.
pub load_delay :
    (k k2 : Cpu) (r v pc r2 v2 pc2 : ℕ)
    → 0 < r
    → r < 32
    → k2.int_registers load_reg ≡ r
    → k2.int_registers loadvalue_reg ≡ v
    → (let k1 = advance k r v pc in
        (k1.int_registers load_reg ≡ r)
        × (k1.int_registers loadvalue_reg ≡ v)
        × (k1.int_registers r ≡ (
            if k.int_registers load_reg == r
            then k.int_registers loadvalue_reg
            else k.int_registers r))
        × ((advance k2 r2 v2 pc2).int_registers r ≡ v))
unfolding advance delayed_load
load_delay k k2 r v pc r2 v2 pc2 lo hi p q = (refl, refl, ground arith, ground (arith, p, q))

finish-zero : (e : Executed) (k' : Cpu) → finish e ≡ (user_tick, k') → k'.int_registers 0 ≡ 0
unfolding advance delayed_load
finish-zero (completed k r v pc) k' h =
    let same : advance k r v pc ≡ k' = ap (λ x. x.1) h in ap (λ m. m.int_registers 0) (sym same)
finish-zero (trapped k) k' h = absurd (omega (arith, ap (λ x. x.0) h))

if_not : (b : Bool) (x y : ℕ) → (if not b then x else y) ≡ (if b then y else x)
if_not true x y = refl
if_not false x y = refl

-- The two ways out of an instruction, by whether it was fetched.
fetched-zero :
    (ok : Bool) (m : Option Executed) (k1 k' : Cpu)
    → (if ok then m >>= (λ outcome. some (finish outcome)) else some (0, k1)) ≡ some (user_tick, k')
    → k'.int_registers 0 ≡ 0
fetched-zero true m k1 k' h = let (e, ran, ended) = >>=-eq-some m _ h in finish-zero e k' (cc)
fetched-zero false m k1 k' h =
    absurd (omega (arith, ap {B = ℕ} (λ x. (elim x [ none ↦ 0 | some r ↦ r.0 ])) h))

-- The branch on a test: whatever it says, the instruction after the branch is next.
delay_slot :
    (k : Cpu) (t : ℕ)
    → k.int_registers load_reg < 32
    → ((advance k 0 0 t).int_registers pc_reg ≡ k.int_registers nextpc_reg)
      × ((advance k 0 0 t).int_registers nextpc_reg ≡ t)
unfolding advance delayed_load
delay_slot k t h = (ground arith, refl)

module _ (page_size num_phys_pages : ℕ) (handler : ExceptionType → ℕ → Cpu → Cpu)
    (fpu : FloatUnit) where
  -- After every instruction that takes its time, and so completes, register 0 holds 0.
  pub one_instruction-zero :
      (k k' : Cpu)
      → one_instruction page_size num_phys_pages handler fpu k ≡ some (user_tick, k')
      → k'.int_registers 0 ≡ 0
  unfolding one_instruction
  one_instruction-zero k k' h =
      let m =
        read_mem page_size num_phys_pages (raise_exception handler) (k.int_registers pc_reg) 4 k in
      let ((ok, raw, k1), fetched, rest) = >>=-eq-some m _ h in fetched-zero ok _ k1 k' rest

  -- BEQ and BNE complete, and the instruction that follows them is executed next, whatever the test;
  -- the one after it is at the target if the registers are the same for BEQ, not the same for BNE, and
  -- where it would be without a branch otherwise. A pending load is one of a general register.
  pub branch_delay :
      (i : Instruction) (k : Cpu) (pc_after : ℕ)
      → k.int_registers load_reg < 32
      → (let same = (k.int_registers i.rs == k.int_registers i.rt) in
          let next = k.int_registers nextpc_reg in
          let target = add32 next (shift_left i.extra 2) in
          let beq = if same then target else pc_after in
          let bne = if same then pc_after else target in
          (execute page_size num_phys_pages handler fpu op_beq i k pc_after
            ≡ some (completed k 0 0 beq))
          × ((advance k 0 0 beq).int_registers pc_reg ≡ next)
          × ((advance k 0 0 beq).int_registers nextpc_reg ≡ beq)
          × (execute page_size num_phys_pages handler fpu op_bne i k pc_after
              ≡ some (completed k 0 0 bne))
          × ((advance k 0 0 bne).int_registers pc_reg ≡ next)
          × ((advance k 0 0 bne).int_registers nextpc_reg ≡ bne))
  unfolding execute execute_branch
  branch_delay i k pc_after h =
      let (beq_pc, beq_next) = delay_slot k _ h in
      let (bne_pc, bne_next) = delay_slot k _ h in
      let swapped = if_not (k.int_registers i.rs == k.int_registers i.rt) _ pc_after in
      (refl, beq_pc, beq_next, ap (λ t. some (completed k 0 0 t)) swapped, bne_pc, bne_next)
