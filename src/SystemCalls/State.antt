-- ===== src/SystemCalls/State.antt =====
-- What the system calls read and write, and the parts of the kernel that they call.
use sgptp.Prelude.{ℕ, ◌+◌, ◌^◌, ◌-◌, Bool, true, false, Option, none, some, List, update, ltb, ◌&&◌}
use sgptp.Prelude.Int.{ℤ}
use sgptp.Directory.{ErrorCode}
use sgptp.SystemCalls.Exec.{Exec, returned, modify, gets}

-- The field `typeId` of an object.
pub data ObjectType : Type 0 where
  semaphore_type : ObjectType
  lock_type : ObjectType
  condition_type : ObjectType
  file_type : ObjectType
  thread_type : ObjectType
  invalid_type : ObjectType

abbrev pub same_type : ObjectType → ObjectType → Bool
same_type semaphore_type semaphore_type = true
same_type lock_type lock_type = true
same_type condition_type condition_type = true
same_type file_type file_type = true
same_type thread_type thread_type = true
same_type invalid_type invalid_type = true
same_type _ _ = false

-- `int_registers` are those of the running thread, which a switch to another thread saves. `last_id`
-- and `ids` are ObjId, a pointer a number and `none` NULL. `last_error` and `error_about` are
-- SyscallError. The world is all else.
pub record State (W : Type 0) : Type 0 where
  pub int_registers : ℕ → ℕ
  pub last_id : ℕ
  pub ids : ℕ → Option ℕ
  pub last_error : ErrorCode
  pub error_about : List ℕ
  pub world : W

module _ {W : Type 0} where
  unfoldable pub read_int_register : ℕ → Exec (State W) ℕ
  unfolding gets
  read_int_register num = gets (λ s. s.int_registers num)

  unfoldable pub write_int_register : ℕ → ℕ → Exec (State W) (Unit {0})
  unfolding modify
  write_int_register num value =
      modify (λ s. record s { int_registers = update s.int_registers num value })

  -- SetMsg with the number of a message that exists.
  unfoldable pub set_msg : List ℕ → ErrorCode → Exec (State W) (Unit {0})
  unfolding modify
  set_msg about num = modify (λ s. record s { last_error = num; error_about = about })

  unfoldable pub add_object : ℕ → Exec (State W) ℕ
  add_object ptr s =
      returned s.last_id
        (record s { last_id = s.last_id + 1; ids = update s.ids s.last_id (some ptr) })

  -- `ids[id]` of a key that is not there makes an entry of NULL, which is the same function.
  unfoldable pub search_object : ℕ → Exec (State W) (Option ℕ)
  unfolding gets
  search_object id = gets (λ s. s.ids id)

  unfoldable pub remove_object : ℕ → Exec (State W) (Unit {0})
  unfolding modify
  remove_object id = modify (λ s. record s { ids = update s.ids id none })

-- The register value -1, and `value > k` for an `int`.
abbrev pub minus_one : ℕ
minus_one = 2 ^ 32 - 1

abbrev pub is_above : ℕ → ℕ → Bool
is_above value k = ltb k value && ltb value (2 ^ 31)

-- What the system calls call. A call that blocks is all that happens until it returns. ReadMem is that
-- of one byte, with what it leaves in `c`; an access that the user program may not make stops the
-- machine. An error of `new Process` or Start is a code; Mmap returns an `int`.
pub record Services (W : Type 0) : Type 0 where
  pub type_id : ℕ → State W → ObjectType
  pub delete : ℕ → Exec (State W) (Unit {0})
  pub read_byte : ℕ → Exec (State W) ℕ
  pub write_mem : ℕ → ℕ → ℕ → Exec (State W) (Unit {0})
  pub total_seconds : State W → ℕ
  pub total_nanos : State W → ℕ
  pub decimal : ℕ → List ℕ
  pub thread_name_of : List ℕ → List ℕ
  pub new_process : List ℕ → Exec (State W) (ErrorCode × ℕ)
  pub code_start_address : ℕ → State W → ℕ
  pub new_thread : List ℕ → Exec (State W) ℕ
  pub start : ℕ → ℕ → ℕ → ℕ → Exec (State W) ErrorCode
  pub current_thread : State W → ℕ
  pub process_owner : State W → ℕ
  pub join : ℕ → Exec (State W) (Unit {0})
  pub yield : Exec (State W) (Unit {0})
  pub print_last_msg : List ℕ → Exec (State W) (Unit {0})
  pub console_put : List ℕ → Exec (State W) (Unit {0})
  pub console_get : ℕ → Exec (State W) (List ℕ)
  pub fs_create : List ℕ → ℕ → Exec (State W) ErrorCode
  pub fs_mkdir : List ℕ → Exec (State W) ErrorCode
  pub fs_rmdir : List ℕ → Exec (State W) ErrorCode
  pub fs_list : Exec (State W) (Unit {0})
  pub table_open : List ℕ → Exec (State W) (Option ℕ)
  pub table_close : List ℕ → Exec (State W) (Unit {0})
  pub table_remove : List ℕ → Exec (State W) ErrorCode
  pub file_name : ℕ → State W → List ℕ
  pub file_read : ℕ → ℕ → Exec (State W) (List ℕ)
  pub file_write : ℕ → List ℕ → Exec (State W) ℕ
  pub file_seek : ℕ → ℕ → Exec (State W) (Unit {0})
  pub has_acia : Bool
  pub tty_send : List ℕ → Exec (State W) ℕ
  pub tty_receive : ℕ → Exec (State W) (ℕ × List ℕ)
  pub new_semaphore : List ℕ → ℕ → Exec (State W) ℕ
  pub p : ℕ → Exec (State W) (Unit {0})
  pub v : ℕ → Exec (State W) (Unit {0})
  pub new_lock : List ℕ → Exec (State W) ℕ
  pub acquire : ℕ → Exec (State W) (Unit {0})
  pub release : ℕ → Exec (State W) (Unit {0})
  pub new_condition : List ℕ → Exec (State W) ℕ
  pub wait : ℕ → Exec (State W) (Unit {0})
  pub signal : ℕ → Exec (State W) (Unit {0})
  pub broadcast : ℕ → Exec (State W) (Unit {0})
  pub mmap : ℕ → ℕ → ℕ → Exec (State W) ℤ
  pub page_fault : ℕ → Exec (State W) Bool
