-- ===== src/SystemCalls/Registers.antt =====
-- nachos/kernel/exception.cc: the registers after a system call.
pub mod Frames
mod Texts
mod Threads
mod Sync
mod Files
use sgptp.Prelude.{
  ℕ, zero, suc, ◌≡◌, ◌≢◌, refl, ap, Bool, true, false, Option, none, some, List, [], ◌∷◌, update,
  ◌==◌, if◌then◌else◌, arith,
}
use sgptp.Directory.{ErrorCode, no_error}
use sgptp.SystemCalls.Exec.{
  Outcome, returned, halted, finished, aborted, continue, Exec, pure, halt, abort, gets, modify,
  ◌>>=◌, ◌>>◌,
}
use sgptp.SystemCalls.Preserving.{
  Preserves, Ensures, preserving, bind-Preserves, test-Preserves, option-Preserves,
}
use sgptp.SystemCalls.Parts.{PreservesServices}
use sgptp.SystemCalls.State.{
  State, Services, ObjectType, read_int_register, write_int_register, set_msg, add_object,
  search_object, remove_object,
}
use sgptp.SystemCalls.Arguments.{
  scan_string, get_length_param, copy_string, get_string_param, write_bytes, read_bytes, read_text,
}
use sgptp.SystemCalls.Threads.{
  is_object, with_object, assert_thread, start_process, sc_halt, sc_sys_time, sc_exit, sc_exec,
  sc_new_thread, sc_join, sc_yield, sc_p_error,
}
use sgptp.SystemCalls.Files.{
  give_file, report, report_name, bad_file, hand_over, without_acia, mapped, sc_create, sc_open,
  sc_read, sc_write, sc_seek, sc_close, sc_remove, sc_mkdir, sc_rmdir, sc_fs_list, sc_tty_send,
  sc_tty_receive, sc_mmap,
}
use sgptp.SystemCalls.Sync.{
  call_object, create_object, sc_p, sc_v, sc_sem_create, sc_sem_destroy, sc_lock_create,
  sc_lock_destroy, sc_lock_acquire, sc_lock_release, sc_cond_create, sc_cond_destroy, sc_cond_wait,
  sc_cond_signal, sc_cond_broadcast,
}
use sgptp.SystemCalls.Handler.{
  sync_call, file_call, system_call, next_instruction, exception_handler,
}
use sgptp.Mmu.{ExceptionType}
use sgptp.Mips.{pc_reg, nextpc_reg, prevpc_reg}
use sgptp.Mips.Words.{add32}
use sgptp.Prelude.Int.{ℤ, pos, negsuc}
use sgptp.SystemCalls.Registers.Frames.{
  Frame, Advanced, frame_rules, read_int_register-Frame, write_result-Frame, set_msg-Frame,
  search_object-Frame,
}
use sgptp.SystemCalls.Registers.Threads.{
  sc_halt-Frame, sc_sys_time-Frame, sc_exit-Frame, sc_exec-Frame, sc_new_thread-Frame,
  sc_join-Frame, sc_yield-Frame, sc_p_error-Frame,
}
use sgptp.SystemCalls.Registers.Files.{file_call-Frame}

module _ {W : Type 0} {old : ℕ → ℕ} (sv : Services W)
    (keep : PreservesServices (Frame old) sv) where
  -- Every system call that returns leaves all registers but r2 and BADVADDR_REG as they were.
  system_call-Frame :
      (fuel page_size type : ℕ) → Preserves (Frame old {W = W}) (system_call sv fuel page_size type)
  unfolding system_call
  system_call-Frame fuel page_size type =
      search
        (
          frame_rules, file_call-Frame, sc_halt-Frame, sc_exit-Frame, sc_exec-Frame, sc_join-Frame,
          sc_new_thread-Frame, sc_yield-Frame, sc_p_error-Frame, sc_sys_time-Frame,
        )
        depth 12

  next_instruction-Advanced :
      (fuel page_size : ℕ) (s : State W)
      → Frame old s
      → Ensures (Advanced old) (next_instruction sv fuel page_size s)
  unfolding next_instruction read_int_register write_int_register ◌>>=◌
  next_instruction-Advanced fuel page_size s h = record {
    prevpc = h.same pc_reg (λ e. ground (arith, e)) (λ e. ground (arith, e));
    pc = h.same nextpc_reg (λ e. ground (arith, e)) (λ e. ground (arith, e));
    nextpc =
        ap (λ x. add32 x 4) (h.same nextpc_reg (λ e. ground (arith, e)) (λ e. ground (arith, e)));
    others = λ r a n b c d. ground (arith, h.same r a n, b, c, d);
  }

  -- A system call that returns has moved the program counters on by one instruction, after a branch in a
  -- delay slot too, and left every other register but r2 and BADVADDR_REG as it was, if every part of
  -- the kernel that it calls leaves the registers as they were but for these two.
  pub exception_handler-Advanced :
      (fuel page_size vaddr : ℕ) (s : State W)
      → Frame old s
      → Ensures
          (Advanced old)
          (exception_handler sv fuel page_size ExceptionType.syscall_exception vaddr s)
  unfolding exception_handler read_int_register ◌>>=◌
  exception_handler-Advanced fuel page_size vaddr s h =
      go (system_call sv fuel page_size (s.int_registers 2) s)
        ((system_call-Frame fuel page_size (s.int_registers 2)).from s h)
    where
      go :
          (r : Outcome (State W) (Unit {0}))
          → Ensures (Frame old) r
          → Ensures (Advanced old) (continue r (λ u. next_instruction sv fuel page_size))
      go (returned u s') f = next_instruction-Advanced fuel page_size s' f
      go (halted status) f = tt
      go (finished s') f = tt
      go aborted f = tt
