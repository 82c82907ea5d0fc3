-- ===== src/SystemCalls/Sync.antt =====
-- nachos/kernel/exception.cc: the system calls on semaphores, locks and conditions.
use sgptp.Prelude.{ℕ, List, [], ◌∷◌}
use sgptp.Directory.{no_error}
use sgptp.SystemCalls.Exec.{Exec, ◌>>=◌, ◌>>◌}
use sgptp.SystemCalls.State.{
  State, Services, ObjectType, semaphore_type, lock_type, condition_type, minus_one,
  read_int_register, write_int_register, set_msg, add_object,
}
use sgptp.SystemCalls.Arguments.{text_at}
use sgptp.SystemCalls.Threads.{with_object}

-- The text "Error".
abbrev pub error_text : List ℕ
error_text = b'E' ∷ b'r' ∷ b'r' ∷ b'o' ∷ b'r' ∷ []

module _ {W : Type 0} (sv : Services W) (fuel : ℕ) where
  -- The body of all calls on an object that is there, but SC_P.
  unfoldable pub call_object :
      ObjectType → (ℕ → Exec (State W) (Unit {0})) → Exec (State W) (Unit {0})
  call_object type call = do
    sid ← read_int_register 4
    with_object sv fuel type sid (λ ptr. do call ptr; set_msg [] no_error; write_int_register 2 0)
        (do set_msg error_text no_error; write_int_register 2 minus_one)

  unfoldable pub sc_p : Exec (State W) (Unit {0})
  sc_p = do
    sid ← read_int_register 4
    with_object sv fuel semaphore_type sid
        (λ ptr. do sv.p ptr; set_msg [] no_error; write_int_register 2 0)
        (write_int_register 2 minus_one)

  unfoldable pub sc_v : Exec (State W) (Unit {0})
  sc_v = call_object semaphore_type sv.v

  unfoldable pub sc_sem_create : Exec (State W) (Unit {0})
  sc_sem_create = do
    addr ← read_int_register 4
    initial_value ← read_int_register 5
    debug_name ← text_at sv fuel addr
    sem ← sv.new_semaphore debug_name initial_value
    fid ← add_object sem
    write_int_register 2 fid

  unfoldable pub sc_sem_destroy : Exec (State W) (Unit {0})
  sc_sem_destroy = call_object semaphore_type sv.delete

  -- SC_LOCK_CREATE and SC_COND_CREATE.
  unfoldable pub create_object : (List ℕ → Exec (State W) ℕ) → Exec (State W) (Unit {0})
  create_object new_object = do
    addr ← read_int_register 4
    debug_name ← text_at sv fuel addr
    object ← new_object debug_name
    set_msg [] no_error
    fid ← add_object object
    write_int_register 2 fid

  unfoldable pub sc_lock_create : Exec (State W) (Unit {0})
  sc_lock_create = create_object sv.new_lock

  unfoldable pub sc_lock_destroy : Exec (State W) (Unit {0})
  sc_lock_destroy = call_object lock_type sv.delete

  unfoldable pub sc_lock_acquire : Exec (State W) (Unit {0})
  sc_lock_acquire = call_object lock_type sv.acquire

  unfoldable pub sc_lock_release : Exec (State W) (Unit {0})
  sc_lock_release = call_object lock_type sv.release

  unfoldable pub sc_cond_create : Exec (State W) (Unit {0})
  sc_cond_create = create_object sv.new_condition

  unfoldable pub sc_cond_destroy : Exec (State W) (Unit {0})
  sc_cond_destroy = call_object condition_type sv.delete

  unfoldable pub sc_cond_wait : Exec (State W) (Unit {0})
  sc_cond_wait = call_object condition_type sv.wait

  unfoldable pub sc_cond_signal : Exec (State W) (Unit {0})
  sc_cond_signal = call_object condition_type sv.signal

  unfoldable pub sc_cond_broadcast : Exec (State W) (Unit {0})
  sc_cond_broadcast = call_object condition_type sv.broadcast
