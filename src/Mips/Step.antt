-- ===== src/Mips/Step.antt =====
-- nachos/machine/mipssim.cc: Machine::OneInstruction.
use sgptp.Prelude.{ℕ, Option, some, ◌>>=◌, if◌then◌else◌}
use sgptp.Mmu.{Cpu, ExceptionType, read_mem}
use sgptp.Mips.{
  Executed, completed, trapped, set_reg, raise_exception, delayed_load, pc_reg, nextpc_reg,
  prevpc_reg,
}
use sgptp.Mips.Words.{add32}
use sgptp.Mips.Decode.{decode}
use sgptp.Mips.Float.{FloatUnit}
use sgptp.Mips.Integer.{execute}

abbrev pub user_tick : ℕ
user_tick = 1

-- The end of OneInstruction: the delayed load and the program counters.
unfoldable pub advance : Cpu → ℕ → ℕ → ℕ → Cpu
advance k next_load_reg next_load_value pc_after =
    let k1 = delayed_load next_load_reg next_load_value k in
    let k2 = set_reg k1 prevpc_reg (k1.int_registers pc_reg) in
    let k3 = set_reg k2 pc_reg (k2.int_registers nextpc_reg) in set_reg k3 nextpc_reg pc_after

-- The time of the instruction, 0 after an exception, and the processor.
abbrev pub finish : Executed → ℕ × Cpu
finish (completed k next_load_reg next_load_value pc_after) =
    (user_tick, advance k next_load_reg next_load_value pc_after)
finish (trapped k) = (0, k)

module _ (page_size num_phys_pages : ℕ) (handler : ExceptionType → ℕ → Cpu → Cpu)
    (fpu : FloatUnit) where
  unfoldable pub one_instruction : Cpu → Option (ℕ × Cpu)
  one_instruction k = do
    (ok, raw, k') ←
        read_mem page_size num_phys_pages (raise_exception handler) (k.int_registers pc_reg) 4 k
    let instr = decode raw
    let pc_after = add32 (k'.int_registers nextpc_reg) 4
    if ok
        then (do
          outcome ← execute page_size num_phys_pages handler fpu instr.op_code instr k' pc_after
          some (finish outcome))
        else some (0, k')
