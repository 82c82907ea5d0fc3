-- ===== src/SystemCalls/Parts.antt =====
-- The services of the kernel, as far as they keep a property of the state.
use sgptp.Prelude.{ℕ, List}
use sgptp.SystemCalls.State.{State, Services}
use sgptp.SystemCalls.Preserving.{Preserves}

-- Every part of the kernel that the system calls call keeps P.
pub record PreservesServices {W : Type 0} (P : State W → Type 0) (sv : Services W) : Type 0 where
  pub delete : (a : ℕ) → Preserves P (sv.delete a)
  pub read_byte : (a : ℕ) → Preserves P (sv.read_byte a)
  pub write_mem : (a : ℕ) (b : ℕ) (c : ℕ) → Preserves P (sv.write_mem a b c)
  pub new_process : (a : List ℕ) → Preserves P (sv.new_process a)
  pub new_thread : (a : List ℕ) → Preserves P (sv.new_thread a)
  pub start : (a : ℕ) (b : ℕ) (c : ℕ) (d : ℕ) → Preserves P (sv.start a b c d)
  pub join : (a : ℕ) → Preserves P (sv.join a)
  pub yield : Preserves P sv.yield
  pub print_last_msg : (a : List ℕ) → Preserves P (sv.print_last_msg a)
  pub console_put : (a : List ℕ) → Preserves P (sv.console_put a)
  pub console_get : (a : ℕ) → Preserves P (sv.console_get a)
  pub fs_create : (a : List ℕ) (b : ℕ) → Preserves P (sv.fs_create a b)
  pub fs_mkdir : (a : List ℕ) → Preserves P (sv.fs_mkdir a)
  pub fs_rmdir : (a : List ℕ) → Preserves P (sv.fs_rmdir a)
  pub fs_list : Preserves P sv.fs_list
  pub table_open : (a : List ℕ) → Preserves P (sv.table_open a)
  pub table_close : (a : List ℕ) → Preserves P (sv.table_close a)
  pub table_remove : (a : List ℕ) → Preserves P (sv.table_remove a)
  pub file_read : (a : ℕ) (b : ℕ) → Preserves P (sv.file_read a b)
  pub file_write : (a : ℕ) (b : List ℕ) → Preserves P (sv.file_write a b)
  pub file_seek : (a : ℕ) (b : ℕ) → Preserves P (sv.file_seek a b)
  pub tty_send : (a : List ℕ) → Preserves P (sv.tty_send a)
  pub tty_receive : (a : ℕ) → Preserves P (sv.tty_receive a)
  pub new_semaphore : (a : List ℕ) (b : ℕ) → Preserves P (sv.new_semaphore a b)
  pub p : (a : ℕ) → Preserves P (sv.p a)
  pub v : (a : ℕ) → Preserves P (sv.v a)
  pub new_lock : (a : List ℕ) → Preserves P (sv.new_lock a)
  pub acquire : (a : ℕ) → Preserves P (sv.acquire a)
  pub release : (a : ℕ) → Preserves P (sv.release a)
  pub new_condition : (a : List ℕ) → Preserves P (sv.new_condition a)
  pub wait : (a : ℕ) → Preserves P (sv.wait a)
  pub signal : (a : ℕ) → Preserves P (sv.signal a)
  pub broadcast : (a : ℕ) → Preserves P (sv.broadcast a)
  pub mmap : (a : ℕ) (b : ℕ) (c : ℕ) → Preserves P (sv.mmap a b c)
  pub page_fault : (a : ℕ) → Preserves P (sv.page_fault a)
