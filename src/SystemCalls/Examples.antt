-- ===== src/SystemCalls/Examples.antt =====
-- A kernel of which every part does nothing, one whose parts fault and work, and system calls in them.
use sgptp.Mips.{badvaddr_reg, pc_reg}
use sgptp.Prelude.{
  ℕ, suc, update, ◌≡◌, refl, true, false, none, some, [], ◌==◌, if◌then◌else◌, arith,
}
use sgptp.Prelude.Int.{pos}
use sgptp.Mmu.{ExceptionType}
use sgptp.Directory.{no_error}
use sgptp.SystemCalls.Exec.{Exec, returned, pure}
use sgptp.SystemCalls.State.{State, Services, semaphore_type}
use sgptp.SystemCalls.Handler.{system_call, exception_handler}
use sgptp.SystemCalls.Preserving.{Ensures, Preserves, pure-Preserves}
use sgptp.SystemCalls.Parts.{PreservesServices}
use sgptp.SystemCalls.Registers.Frames.{Frame, Advanced}
use sgptp.SystemCalls.Registers.{exception_handler-Advanced}
use sgptp.SystemCalls.Objects.{
  call_lock_acquire, delete_semaphore, refusal, NamesAfter, system_call-missing,
  system_call-deleted,
}

-- The text "f" stands at address 100.
abbrev idle_kernel : Services ℕ
idle_kernel = record {
  type_id = λ ptr s. semaphore_type;
  delete = λ a. pure tt;
  read_byte = λ addr. pure (if addr == 100 then b'f' else 0);
  write_mem = λ a b c. pure tt;
  total_seconds = λ a. 0;
  total_nanos = λ a. 0;
  decimal = λ a. [];
  thread_name_of = λ a. [];
  new_process = λ a. pure (no_error, 0);
  code_start_address = λ a b. 0;
  new_thread = λ a. pure 0;
  start = λ a b c d. pure no_error;
  current_thread = λ a. 0;
  process_owner = λ a. 0;
  join = λ a. pure tt;
  yield = pure tt;
  print_last_msg = λ a. pure tt;
  console_put = λ a. pure tt;
  console_get = λ a. pure [];
  fs_create = λ a b. pure no_error;
  fs_mkdir = λ a. pure no_error;
  fs_rmdir = λ a. pure no_error;
  fs_list = pure tt;
  table_open = λ a. pure none;
  table_close = λ a. pure tt;
  table_remove = λ a. pure no_error;
  file_name = λ a b. [];
  file_read = λ a b. pure [];
  file_write = λ a b. pure 0;
  file_seek = λ a b. pure tt;
  has_acia = true;
  tty_send = λ a. pure 0;
  tty_receive = λ a. pure (0, []);
  new_semaphore = λ a b. pure 0;
  p = λ a. pure tt;
  v = λ a. pure tt;
  new_lock = λ a. pure 0;
  acquire = λ a. pure tt;
  release = λ a. pure tt;
  new_condition = λ a. pure 0;
  wait = λ a. pure tt;
  signal = λ a. pure tt;
  broadcast = λ a. pure tt;
  mmap = λ a b c. pure (pos 0);
  page_fault = λ a. pure false;
}

-- Register 2 holds the number of SC_V and register 4 the identifier of object 7.
abbrev calling : State ℕ
calling = record {
  int_registers = λ r. if r == 2 then 14 else if r == 4 then 3 else 0;
  last_id = 4;
  ids = λ id. if id == 3 then some 7 else none;
  last_error = no_error;
  error_about = [];
  world = 0;
}

-- SC_MKDIR of the text at address 100.
abbrev making : State ℕ
making = record calling {
  int_registers =
      λ r. if r == 2 then 28 else if r == 4 then 100 else if r == pc_reg then 400 else 404;
}

-- An access to a page that is not in memory: RaiseException sets BADVADDR_REG, and the world changes.
abbrev faults : {A : Type 0} → ℕ → A → Exec (State ℕ) A
faults addr a s =
    returned a
      (record s { int_registers = update s.int_registers badvaddr_reg addr; world = suc s.world })

abbrev works : {A : Type 0} → A → Exec (State ℕ) A
works a s = returned a (record s { world = suc s.world })

faults-Preserves :
    {A : Type 0} {old : ℕ → ℕ} (addr : ℕ) (a : A) → Preserves (Frame old) (faults addr a)
faults-Preserves addr a = record {
  from = λ s h. record { same = λ r n2 nb. ground (arith, h.same r n2 nb, nb) };
}

works-Preserves : {A : Type 0} {old : ℕ → ℕ} (a : A) → Preserves (Frame old) (works a)
works-Preserves a = record { from = λ s h. record { same = h.same } }

abbrev busy_kernel : Services ℕ
busy_kernel = record idle_kernel {
  read_byte = λ addr. faults addr (if addr == 100 then b'f' else 0);
  write_mem = λ a b c. faults a tt;
  new_process = λ name. works (no_error, 9);
  start = λ a b c d. works no_error;
  fs_mkdir = λ name. works no_error;
  yield = works tt;
}

busy_preserves : PreservesServices (Frame making.int_registers) busy_kernel
busy_preserves = record {
  delete = λ a. pure-Preserves _;
  read_byte = λ a. faults-Preserves a _;
  write_mem = λ a b c. faults-Preserves a _;
  new_process = λ a. works-Preserves _;
  new_thread = λ a. pure-Preserves _;
  start = λ a b c d. works-Preserves _;
  join = λ a. pure-Preserves _;
  yield = works-Preserves _;
  print_last_msg = λ a. pure-Preserves _;
  console_put = λ a. pure-Preserves _;
  console_get = λ a. pure-Preserves _;
  fs_create = λ a b. pure-Preserves _;
  fs_mkdir = λ a. works-Preserves _;
  fs_rmdir = λ a. pure-Preserves _;
  fs_list = pure-Preserves _;
  table_open = λ a. pure-Preserves _;
  table_close = λ a. pure-Preserves _;
  table_remove = λ a. pure-Preserves _;
  file_read = λ a b. pure-Preserves _;
  file_write = λ a b. pure-Preserves _;
  file_seek = λ a b. pure-Preserves _;
  tty_send = λ a. pure-Preserves _;
  tty_receive = λ a. pure-Preserves _;
  new_semaphore = λ a b. pure-Preserves _;
  p = λ a. pure-Preserves _;
  v = λ a. pure-Preserves _;
  new_lock = λ a. pure-Preserves _;
  acquire = λ a. pure-Preserves _;
  release = λ a. pure-Preserves _;
  new_condition = λ a. pure-Preserves _;
  wait = λ a. pure-Preserves _;
  signal = λ a. pure-Preserves _;
  broadcast = λ a. pure-Preserves _;
  mmap = λ a b c. pure-Preserves _;
  page_fault = λ a. pure-Preserves _;
}

exception_handler-Advanced_example :
    Ensures
      (Advanced making.int_registers)
      (exception_handler busy_kernel 10 128 ExceptionType.syscall_exception 0 making)
exception_handler-Advanced_example =
    exception_handler-Advanced busy_kernel busy_preserves 10 128 0 making
      (record { same = λ r n2 nb. refl })

-- Object 7 is a semaphore and no lock.
system_call-missing_example :
    system_call idle_kernel 10 128 19 calling
    ≡ returned tt (refusal idle_kernel 10 calling call_lock_acquire)
system_call-missing_example =
    system_call-missing idle_kernel 10 calling 128 call_lock_acquire (λ ptr h. refl)

system_call-deleted_example :
    NamesAfter idle_kernel 10 calling (system_call idle_kernel 10 128 16 calling) (some 7)
unfolding pure
system_call-deleted_example =
    system_call-deleted idle_kernel 10 calling 128 delete_semaphore 7 refl refl
      (calling, refl, refl)
