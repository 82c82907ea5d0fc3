-- ===== src/SystemCalls/Objects.antt =====
-- nachos/kernel/exception.cc: identifiers that name no object, and objects that were deleted.
use sgptp.Prelude.{
  ℕ, ◌≡◌, refl, ap, ◌∙◌, true, false, Option, none, some, [], update, if◌then◌else◌, arith,
}
use sgptp.Directory.{no_error}
use sgptp.SystemCalls.Exec.{Exec, Outcome, returned, ◌>>=◌, continue}
use sgptp.SystemCalls.State.{
  State, Services, ObjectType, semaphore_type, lock_type, condition_type, file_type, same_type,
  minus_one, read_int_register, write_int_register, set_msg, search_object, remove_object,
}
use sgptp.SystemCalls.Threads.{is_object, with_object}
use sgptp.SystemCalls.Files.{sc_close}
use sgptp.SystemCalls.Handler.{sync_call, file_call, system_call}
use sgptp.SystemCalls.Sync.{
  error_text, call_object, sc_p, sc_v, sc_sem_destroy, sc_lock_destroy, sc_lock_acquire,
  sc_lock_release, sc_cond_destroy, sc_cond_wait, sc_cond_signal, sc_cond_broadcast,
}

-- The calls on an object that is there, with the numbers of userlib/syscall.h and the type.
pub data ObjectCall : Type 0 where
  call_p : ObjectCall
  call_v : ObjectCall
  call_sem_destroy : ObjectCall
  call_lock_destroy : ObjectCall
  call_lock_acquire : ObjectCall
  call_lock_release : ObjectCall
  call_cond_destroy : ObjectCall
  call_cond_wait : ObjectCall
  call_cond_signal : ObjectCall
  call_cond_broadcast : ObjectCall

abbrev pub number : ObjectCall → ℕ
number call_p = 13
number call_v = 14
number call_sem_destroy = 16
number call_lock_destroy = 18
number call_lock_acquire = 19
number call_lock_release = 20
number call_cond_destroy = 22
number call_cond_wait = 23
number call_cond_signal = 24
number call_cond_broadcast = 25

abbrev pub object_type : ObjectCall → ObjectType
object_type call_p = semaphore_type
object_type call_v = semaphore_type
object_type call_sem_destroy = semaphore_type
object_type call_lock_destroy = lock_type
object_type call_lock_acquire = lock_type
object_type call_lock_release = lock_type
object_type call_cond_destroy = condition_type
object_type call_cond_wait = condition_type
object_type call_cond_signal = condition_type
object_type call_cond_broadcast = condition_type

-- The calls that delete an object, and what its identifier names afterwards.
pub data Deletion : Type 0 where
  delete_semaphore : Deletion
  delete_lock : Deletion
  delete_condition : Deletion
  delete_file : Deletion

abbrev pub deletion_number : Deletion → ℕ
deletion_number delete_semaphore = 16
deletion_number delete_lock = 18
deletion_number delete_condition = 22
deletion_number delete_file = 9

abbrev pub deleted_type : Deletion → ObjectType
deleted_type delete_semaphore = semaphore_type
deleted_type delete_lock = lock_type
deleted_type delete_condition = condition_type
deleted_type delete_file = file_type

abbrev pub named_after : Deletion → ℕ → Option ℕ
named_after delete_file ptr = none
named_after _ ptr = some ptr

module _ {W : Type 0} (sv : Services W) (fuel : ℕ) (s : State W) where
  -- The identifier in r4 names no object of the type.
  abbrev pub NamesNo : ObjectType → Type 0
  NamesNo type =
      (ptr : ℕ) → s.ids (s.int_registers 4) ≡ some ptr → same_type (sv.type_id ptr s) type ≡ false

  -- The state after a refusal: -1 in r2.
  abbrev pub refused : State W
  refused = record s { int_registers = update s.int_registers 2 minus_one }

  with_object-missing :
      (type : ObjectType) (found : ℕ → Exec (State W) (Unit {0}))
      (missing : Exec (State W) (Unit {0}))
      → NamesNo type
      → with_object sv fuel type (s.int_registers 4) found missing s ≡ missing s
  unfolding with_object search_object is_object ◌>>=◌
  with_object-missing type found missing h = go (s.ids (s.int_registers 4)) h
    where
      go :
          (o : Option ℕ)
          → ((ptr : ℕ) → o ≡ some ptr → same_type (sv.type_id ptr s) type ≡ false)
          → continue (is_object sv fuel o type s) (λ ok.
            if ok
            then elim o as (λ x. Exec (State W) (Unit {0})) [
              | none ↦ missing
              | some ptr ↦ found ptr
            ]
            else missing)
            ≡ missing s
      go none h = refl
      go (some ptr) h = rw (h ptr refl) refl

  call_object-missing :
      (type : ObjectType) (call : ℕ → Exec (State W) (Unit {0}))
      → NamesNo type
      → call_object sv fuel type call s
        ≡ returned tt (record refused { last_error = no_error; error_about = error_text })
  unfolding call_object read_int_register write_int_register set_msg ◌>>=◌
  call_object-missing type call h = with_object-missing type _ _ h

  with_object-found :
      (type : ObjectType) (ptr : ℕ) (found : ℕ → Exec (State W) (Unit {0}))
      (missing : Exec (State W) (Unit {0}))
      → s.ids (s.int_registers 4) ≡ some ptr
      → same_type (sv.type_id ptr s) type ≡ true
      → with_object sv fuel type (s.int_registers 4) found missing s ≡ found ptr s
  unfolding with_object search_object is_object ◌>>=◌
  with_object-found type ptr found missing named typed = rw (named, typed) refl

  -- The state after the refusal of a call.
  abbrev pub refusal : ObjectCall → State W
  refusal call_p = refused
  refusal _ = record refused { last_error = no_error; error_about = error_text }

  -- A system call on a semaphore, lock or condition whose identifier names no object of that type puts
  -- -1 into r2 and does nothing else but this: all calls but SC_P set the last error to NoError, with
  -- the text "Error"; SC_P leaves the error of an earlier call.
  pub system_call-missing :
      (page_size : ℕ) (call : ObjectCall)
      → NamesNo (object_type call)
      → system_call sv fuel page_size (number call) s ≡ returned tt (refusal call)
  unfolding system_call file_call sync_call sc_p sc_v sc_sem_destroy sc_lock_acquire sc_lock_release
      sc_lock_destroy sc_cond_wait sc_cond_signal sc_cond_broadcast sc_cond_destroy
      read_int_register write_int_register ◌>>=◌
  system_call-missing page_size call_p h = with_object-missing semaphore_type _ _ h
  system_call-missing page_size call_v h = call_object-missing semaphore_type sv.v h
  system_call-missing page_size call_sem_destroy h = call_object-missing semaphore_type sv.delete h
  system_call-missing page_size call_lock_acquire h = call_object-missing lock_type sv.acquire h
  system_call-missing page_size call_lock_release h = call_object-missing lock_type sv.release h
  system_call-missing page_size call_lock_destroy h = call_object-missing lock_type sv.delete h
  system_call-missing page_size call_cond_wait h = call_object-missing condition_type sv.wait h
  system_call-missing page_size call_cond_signal h = call_object-missing condition_type sv.signal h
  system_call-missing page_size call_cond_broadcast h =
      call_object-missing condition_type sv.broadcast h
  system_call-missing page_size call_cond_destroy h = call_object-missing condition_type sv.delete h

  -- What the identifier in r4 names after a call that returns.
  abbrev pub NamesAfter : Outcome (State W) (Unit {0}) → Option ℕ → Type 0
  NamesAfter r o =
      (s' : State W) × (r ≡ returned tt s')
      × (s'.int_registers 2 ≡ 0)
      × (s'.ids (s.int_registers 4) ≡ o)

  call_object-deleted :
      (type : ObjectType) (ptr : ℕ) (s1 : State W)
      → s.ids (s.int_registers 4) ≡ some ptr
      → same_type (sv.type_id ptr s) type ≡ true
      → sv.delete ptr s ≡ returned tt s1
      → s1.ids ≡ s.ids
      → NamesAfter (call_object sv fuel type sv.delete s) (some ptr)
  unfolding call_object read_int_register write_int_register set_msg ◌>>=◌
  call_object-deleted type ptr s1 named typed gone kept = (
    record s1 {
      int_registers = update s1.int_registers 2 0;
      last_error = no_error;
      error_about = [];
    },
    with_object-found type ptr _ _ named typed ∙ rw gone refl,
    refl,
    ap (λ f. f (s.int_registers 4)) kept ∙ named,
  )

  -- In the call, `delete` returns, and before it Close for a file; neither changes the table of
  -- identifiers.
  abbrev pub Deletes : Deletion → ℕ → Type 0
  Deletes delete_file ptr =
      (s1 : State W) × (sv.table_close (sv.file_name ptr s) s ≡ returned tt s1)
      × (s1.ids ≡ s.ids)
      × ((s2 : State W) × (sv.delete ptr
              (record s1 { ids = update s1.ids (s.int_registers 4) none })
            ≡ returned tt s2)
          × (s2.ids ≡ update s1.ids (s.int_registers 4) none))
  Deletes _ ptr = (s1 : State W) × (sv.delete ptr s ≡ returned tt s1) × (s1.ids ≡ s.ids)

  closed :
      (ptr : ℕ)
      → s.ids (s.int_registers 4) ≡ some ptr
      → same_type (sv.type_id ptr s) file_type ≡ true
      → Deletes delete_file ptr
      → NamesAfter (sc_close sv fuel s) none
  unfolding sc_close read_int_register write_int_register set_msg remove_object ◌>>=◌
  closed ptr named typed (s1, shut, kept, (s2, gone, kept')) = (
    record s2 {
      int_registers = update s2.int_registers 2 0;
      last_error = no_error;
      error_about = [];
    },
    with_object-found file_type ptr _ _ named typed ∙ rw (shut, gone) refl,
    refl,
    ap (λ f. f (s.int_registers 4)) kept' ∙ ground arith,
  )

  -- The defect of SC_SEM_DESTROY, SC_LOCK_DESTROY and SC_COND_DESTROY, in calls in which `delete`
  -- returns and does not change the table of identifiers: after the call, which returns 0, the
  -- identifier still stands for the object that it deleted. SC_CLOSE, if Close returns too and does not
  -- change that table, leaves an identifier that stands for nothing.
  pub system_call-deleted :
      (page_size : ℕ) (d : Deletion) (ptr : ℕ)
      → s.ids (s.int_registers 4) ≡ some ptr
      → same_type (sv.type_id ptr s) (deleted_type d) ≡ true
      → Deletes d ptr
      → NamesAfter (system_call sv fuel page_size (deletion_number d) s) (named_after d ptr)
  unfolding system_call file_call sync_call sc_sem_destroy sc_lock_destroy sc_cond_destroy
  system_call-deleted page_size delete_semaphore ptr named typed (s1, gone, kept) =
      call_object-deleted semaphore_type ptr s1 named typed gone kept
  system_call-deleted page_size delete_lock ptr named typed (s1, gone, kept) =
      call_object-deleted lock_type ptr s1 named typed gone kept
  system_call-deleted page_size delete_condition ptr named typed (s1, gone, kept) =
      call_object-deleted condition_type ptr s1 named typed gone kept
  system_call-deleted page_size delete_file ptr named typed deletes = closed ptr named typed deletes
