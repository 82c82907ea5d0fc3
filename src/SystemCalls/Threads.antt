-- ===== src/SystemCalls/Threads.antt =====
-- nachos/kernel/exception.cc: the system calls on processes and threads, the time and the last error.
use sgptp.Prelude.{ℕ, Bool, true, false, Option, none, some, List, [], if◌then◌else◌}
use sgptp.Directory.{ErrorCode, no_error, out_of_memory}
use sgptp.FileSystem.{is_no_error}
use sgptp.Mips.Words.{add32}
use sgptp.SystemCalls.Exec.{Exec, finished, pure, halt, abort, gets, ◌>>=◌, ◌>>◌}
use sgptp.SystemCalls.State.{
  State, Services, ObjectType, thread_type, same_type, minus_one, read_int_register,
  write_int_register, set_msg, add_object, search_object,
}
use sgptp.SystemCalls.Arguments.{text_at}

abbrev pub is_out_of_memory : ErrorCode → Bool
is_out_of_memory out_of_memory = true
is_out_of_memory _ = false

module _ {W : Type 0} (sv : Services W) (fuel : ℕ) where
  unfoldable pub sc_halt : Exec (State W) (Unit {0})
  sc_halt = halt 0

  unfoldable pub sc_sys_time : Exec (State W) (Unit {0})
  sc_sys_time = do
    addr ← read_int_register 4
    seconds ← gets sv.total_seconds
    nanos ← gets sv.total_nanos
    sv.write_mem addr 4 seconds
    sv.write_mem (add32 addr 4) 4 nanos
    set_msg [] no_error

  -- `ASSERT(g_current_thread->typeId == THREAD_TYPE_ID)`.
  unfoldable pub assert_thread : Exec (State W) (Unit {0})
  assert_thread = do
    ok ← gets (λ s. same_type (sv.type_id (sv.current_thread s) s) thread_type)
    if ok then pure tt else abort

  -- Finish does not return.
  unfoldable pub sc_exit : Exec (State W) (Unit {0})
  sc_exit = do assert_thread; λ s. finished s

  -- The end of SC_EXEC once the process is there.
  unfoldable pub start_process : ℕ → List ℕ → Exec (State W) (Unit {0})
  start_process process name = do
    thread ← sv.new_thread name
    tid ← add_object thread
    address ← gets (sv.code_start_address process)
    error ← sv.start thread process address minus_one
    if is_no_error error then (do set_msg [] no_error; write_int_register 2 tid) else (do
      write_int_register 2 minus_one
      set_msg (if is_out_of_memory error then [] else name) error)

  unfoldable pub sc_exec : Exec (State W) (Unit {0})
  sc_exec = do
    addr ← read_int_register 4
    ch ← text_at sv fuel addr
    (error, process) ← sv.new_process ch
    if is_no_error error then start_process process (sv.thread_name_of ch) else (do
      write_int_register 2 minus_one
      set_msg (if is_out_of_memory error then [] else ch) error)

  unfoldable pub sc_new_thread : Exec (State W) (Unit {0})
  sc_new_thread = do
    name_addr ← read_int_register 4
    fun ← read_int_register 5
    arg ← read_int_register 6
    thr_name ← text_at sv fuel name_addr
    thread ← sv.new_thread thr_name
    tid ← add_object thread
    process ← gets sv.process_owner
    err ← sv.start thread process fun arg
    if is_no_error err
        then (do write_int_register 2 tid; set_msg [] no_error)
        else (do write_int_register 2 minus_one; set_msg [] err)

  -- `ptr && ptr->typeId == type`.
  unfoldable pub is_object : Option ℕ → ObjectType → Exec (State W) Bool
  is_object none type = pure false
  is_object (some ptr) type = gets (λ s. same_type (sv.type_id ptr s) type)

  -- The branch with an object of the type that the identifier names, and the other one.
  unfoldable pub with_object :
      ObjectType
      → ℕ
      → (ℕ → Exec (State W) (Unit {0}))
      → Exec (State W) (Unit {0})
      → Exec (State W) (Unit {0})
  with_object type id found missing = do
    object ← search_object id
    ok ← is_object object type
    if ok then elim object [ none ↦ missing | some ptr ↦ found ptr ] else missing

  unfoldable pub sc_join : Exec (State W) (Unit {0})
  sc_join = do
    tid ← read_int_register 4
    with_object thread_type tid
        (λ thread. do sv.join thread; set_msg [] no_error; write_int_register 2 0)
        (do set_msg [] no_error; write_int_register 2 0)

  unfoldable pub sc_yield : Exec (State W) (Unit {0})
  sc_yield = do assert_thread; sv.yield; set_msg [] no_error

  unfoldable pub sc_p_error : Exec (State W) (Unit {0})
  sc_p_error = do addr ← read_int_register 4; ch ← text_at sv fuel addr; sv.print_last_msg ch
