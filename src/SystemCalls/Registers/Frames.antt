-- ===== src/SystemCalls/Registers/Frames.antt =====
-- What system calls keep of the registers, for the single steps.
use sgptp.Prelude.{ℕ, ◌≡◌, ◌≢◌, List, arith}
use sgptp.Directory.{ErrorCode}
use sgptp.SystemCalls.Preserving.{
  Preserves, Ensures, preserving, bind-Preserves, test-Preserves, option-Preserves,
}
use sgptp.SystemCalls.State.{
  State, read_int_register, write_int_register, set_msg, add_object, search_object, remove_object,
}
use sgptp.Mips.{pc_reg, nextpc_reg, prevpc_reg, badvaddr_reg}
use sgptp.Mips.Words.{add32}

-- Every register but r2 and BADVADDR_REG holds what it holds in `old`. A page fault inside a system
-- call, in ReadMem or WriteMem, goes through RaiseException, which sets BADVADDR_REG; its DelayedLoad
-- finds no load pending, since the RaiseException of the call has finished it.
pub record Frame (old : ℕ → ℕ) {W : Type 0} (s : State W) : Type 0 where
  pub same : (r : ℕ) → r ≢ 2 → r ≢ badvaddr_reg → s.int_registers r ≡ old r

-- The program counters are one instruction on from `old`, and every other register but r2 and
-- BADVADDR_REG is as in it.
pub record Advanced (old : ℕ → ℕ) {W : Type 0} (s : State W) : Type 0 where
  pub prevpc : s.int_registers prevpc_reg ≡ old pc_reg
  pub pc : s.int_registers pc_reg ≡ old nextpc_reg
  pub nextpc : s.int_registers nextpc_reg ≡ add32 (old nextpc_reg) 4
  pub others :
      (r : ℕ)
      → r ≢ 2
      → r ≢ badvaddr_reg
      → r ≢ prevpc_reg
      → r ≢ pc_reg
      → r ≢ nextpc_reg
      → s.int_registers r ≡ old r

module _ {W : Type 0} {old : ℕ → ℕ} where
  pub read_int_register-Frame : (r : ℕ) → Preserves (Frame old {W = W}) (read_int_register r)
  unfolding read_int_register
  read_int_register-Frame r = search preserving

  pub write_result-Frame : (v : ℕ) → Preserves (Frame old {W = W}) (write_int_register 2 v)
  unfolding write_int_register
  write_result-Frame v = record {
    from = λ s h. record { same = λ r ne nb. ground (arith, h.same r ne nb, ne) };
  }

  pub set_msg-Frame :
      (about : List ℕ) (num : ErrorCode) → Preserves (Frame old {W = W}) (set_msg about num)
  unfolding set_msg
  set_msg-Frame about num = record { from = λ s h. record { same = h.same } }

  pub add_object-Frame : (ptr : ℕ) → Preserves (Frame old {W = W}) (add_object ptr)
  unfolding add_object
  add_object-Frame ptr = record { from = λ s h. record { same = h.same } }

  pub search_object-Frame : (id : ℕ) → Preserves (Frame old {W = W}) (search_object id)
  unfolding search_object
  search_object-Frame id = search preserving

  pub remove_object-Frame : (id : ℕ) → Preserves (Frame old {W = W}) (remove_object id)
  unfolding remove_object
  remove_object-Frame id = record { from = λ s h. record { same = h.same } }

pub ruleset frame_rules = (
  preserving, read_int_register-Frame, write_result-Frame, set_msg-Frame, add_object-Frame,
  search_object-Frame, remove_object-Frame,
)
