-- ===== src/SystemCalls/Handler.antt =====
-- nachos/kernel/exception.cc: ExceptionHandler.
use sgptp.Prelude.{ℕ, ◌/◌, ◌==◌, if◌then◌else◌}
use sgptp.Mmu.{ExceptionType}
use sgptp.Mips.{pc_reg, nextpc_reg, prevpc_reg}
use sgptp.Mips.Words.{add32}
use sgptp.SystemCalls.Exec.{Exec, pure, halt, ◌>>=◌, ◌>>◌}
use sgptp.SystemCalls.State.{State, Services, minus_one, read_int_register, write_int_register}
use sgptp.SystemCalls.Threads.{
  sc_halt, sc_sys_time, sc_exit, sc_exec, sc_new_thread, sc_join, sc_yield, sc_p_error,
}
use sgptp.SystemCalls.Files.{
  sc_create, sc_open, sc_read, sc_write, sc_seek, sc_close, sc_remove, sc_mkdir, sc_rmdir,
  sc_fs_list, sc_tty_send, sc_tty_receive, sc_mmap,
}
use sgptp.SystemCalls.Sync.{
  sc_p, sc_v, sc_sem_create, sc_sem_destroy, sc_lock_create, sc_lock_destroy, sc_lock_acquire,
  sc_lock_release, sc_cond_create, sc_cond_destroy, sc_cond_wait, sc_cond_signal, sc_cond_broadcast,
}

module _ {W : Type 0} (sv : Services W) (fuel page_size : ℕ) where
  -- The switch over the numbers of userlib/syscall.h, in parts; each hands on what is not its own.
  unfoldable pub sync_call : ℕ → Exec (State W) (Unit {0})
  sync_call type =
      if type == 13
      then sc_p sv fuel
      else if type == 14
      then sc_v sv fuel
      else if type == 15
      then sc_sem_create sv fuel
      else if type == 16
      then sc_sem_destroy sv fuel
      else if type == 17
      then sc_lock_create sv fuel
      else if type == 18
      then sc_lock_destroy sv fuel
      else if type == 19
      then sc_lock_acquire sv fuel
      else if type == 20
      then sc_lock_release sv fuel
      else if type == 21
      then sc_cond_create sv fuel
      else if type == 22
      then sc_cond_destroy sv fuel
      else if type == 23
      then sc_cond_wait sv fuel
      else if type == 24
      then sc_cond_signal sv fuel
      else if type == 25
      then sc_cond_broadcast sv fuel
      else halt minus_one

  unfoldable pub file_call : ℕ → Exec (State W) (Unit {0})
  file_call type =
      if type == 4
      then sc_create sv fuel
      else if type == 5
      then sc_open sv fuel
      else if type == 6
      then sc_read sv fuel
      else if type == 7
      then sc_write sv fuel
      else if type == 8
      then sc_seek sv fuel
      else if type == 9
      then sc_close sv fuel
      else if type == 26
      then sc_tty_send sv fuel
      else if type == 27
      then sc_tty_receive sv fuel
      else if type == 28
      then sc_mkdir sv fuel
      else if type == 29
      then sc_rmdir sv fuel
      else if type == 32
      then sc_remove sv fuel
      else if type == 33
      then sc_fs_list sv fuel
      else if type == 35
      then sc_mmap sv fuel
      else sync_call type

  unfoldable pub system_call : ℕ → Exec (State W) (Unit {0})
  system_call type =
      if type == 0
      then sc_halt sv fuel
      else if type == 1
      then sc_exit sv fuel
      else if type == 2
      then sc_exec sv fuel
      else if type == 3
      then sc_join sv fuel
      else if type == 10
      then sc_new_thread sv fuel
      else if type == 11
      then sc_yield sv fuel
      else if type == 12
      then sc_p_error sv fuel
      else if type == 34
      then sc_sys_time sv fuel
      else file_call type

  -- The program counters after a system call.
  unfoldable pub next_instruction : Exec (State W) (Unit {0})
  next_instruction = do
    pc ← read_int_register pc_reg
    write_int_register prevpc_reg pc
    nextpc ← read_int_register nextpc_reg
    write_int_register pc_reg nextpc
    after ← read_int_register nextpc_reg
    write_int_register nextpc_reg (add32 after 4)

  unfoldable pub exception_handler : ExceptionType → ℕ → Exec (State W) (Unit {0})
  exception_handler exception vaddr = do
    type ← read_int_register 2
    elim exception [
      | ExceptionType.no_exception ↦ halt 0
      | ExceptionType.syscall_exception ↦ (do system_call type; next_instruction)
      | ExceptionType.pagefault_exception ↦ (do
        failed ← sv.page_fault (vaddr / page_size)
        if failed then halt minus_one else pure tt)
      | _ ↦ halt minus_one
    ]
