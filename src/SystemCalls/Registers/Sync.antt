-- ===== src/SystemCalls/Registers/Sync.antt =====
-- What the system calls of Sync.antt keep of the registers.
use sgptp.Prelude.{ℕ, List}
use sgptp.SystemCalls.Exec.{Exec}
use sgptp.SystemCalls.Preserving.{Preserves}
use sgptp.SystemCalls.Parts.{PreservesServices}
use sgptp.SystemCalls.State.{State, Services, ObjectType}
use sgptp.SystemCalls.Sync.{
  call_object, create_object, sc_p, sc_v, sc_sem_create, sc_sem_destroy, sc_lock_create,
  sc_lock_destroy, sc_lock_acquire, sc_lock_release, sc_cond_create, sc_cond_destroy, sc_cond_wait,
  sc_cond_signal, sc_cond_broadcast,
}
use sgptp.SystemCalls.Handler.{sync_call}
use sgptp.SystemCalls.Registers.Frames.{Frame, frame_rules}
use sgptp.SystemCalls.Registers.Texts.{
  get_length_param-Frame, get_string_param-Frame, with_object-Frame,
}

module _ {W : Type 0} {old : ℕ → ℕ} (sv : Services W)
    (keep : PreservesServices (Frame old) sv) where
  pub sc_p-Frame : (fuel : ℕ) → Preserves (Frame old {W = W}) (sc_p sv fuel)
  unfolding sc_p
  sc_p-Frame fuel = search (frame_rules, with_object-Frame, keep.p) depth 12

  pub call_object-Frame :
      (fuel : ℕ) (type : ObjectType) (call : ℕ → Exec (State W) (Unit {0}))
      → ((ptr : ℕ) → Preserves (Frame old) (call ptr))
      → Preserves (Frame old) (call_object sv fuel type call)
  unfolding call_object
  call_object-Frame fuel type call kc = search (frame_rules, with_object-Frame, kc) depth 12

  pub create_object-Frame :
      (fuel : ℕ) (new_object : List ℕ → Exec (State W) ℕ)
      → ((text : List ℕ) → Preserves (Frame old) (new_object text))
      → Preserves (Frame old) (create_object sv fuel new_object)
  unfolding create_object
  create_object-Frame fuel new_object kn =
      search (frame_rules, get_length_param-Frame, get_string_param-Frame, kn) depth 12

  pub sync_call-Frame :
      (fuel page_size type : ℕ) → Preserves (Frame old {W = W}) (sync_call sv fuel page_size type)
  unfolding sync_call sc_v sc_sem_create sc_sem_destroy sc_lock_create sc_lock_destroy
      sc_lock_acquire sc_lock_release sc_cond_create sc_cond_destroy sc_cond_wait sc_cond_signal
      sc_cond_broadcast
  sync_call-Frame fuel page_size type =
      search
        (
          frame_rules, sc_p-Frame, call_object-Frame, create_object-Frame, get_length_param-Frame,
          get_string_param-Frame, keep.v, keep.delete, keep.acquire, keep.release, keep.wait,
          keep.signal, keep.broadcast, keep.new_semaphore, keep.new_lock, keep.new_condition,
        )
        depth 24
