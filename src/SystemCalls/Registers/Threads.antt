-- ===== src/SystemCalls/Registers/Threads.antt =====
-- What the system calls of Threads.antt keep of the registers.
use sgptp.Prelude.{ℕ, List, []}
use sgptp.Directory.{no_error}
use sgptp.SystemCalls.Preserving.{Preserves, bind-Preserves}
use sgptp.SystemCalls.Parts.{PreservesServices}
use sgptp.SystemCalls.State.{Services}
use sgptp.SystemCalls.Threads.{
  assert_thread, start_process, sc_halt, sc_sys_time, sc_exit, sc_exec, sc_new_thread, sc_join,
  sc_yield, sc_p_error,
}
use sgptp.SystemCalls.Registers.Frames.{Frame, frame_rules, set_msg-Frame}
use sgptp.SystemCalls.Registers.Texts.{
  get_length_param-Frame, get_string_param-Frame, with_object-Frame,
}

module _ {W : Type 0} {old : ℕ → ℕ} (sv : Services W)
    (keep : PreservesServices (Frame old) sv) where
  pub sc_halt-Frame : (fuel : ℕ) → Preserves (Frame old {W = W}) (sc_halt sv fuel)
  unfolding sc_halt
  sc_halt-Frame fuel = search (frame_rules) depth 12

  pub sc_sys_time-Frame : (fuel : ℕ) → Preserves (Frame old {W = W}) (sc_sys_time sv fuel)
  unfolding sc_sys_time
  sc_sys_time-Frame fuel = search (frame_rules, keep.write_mem) depth 12

  pub assert_thread-Frame : (fuel : ℕ) → Preserves (Frame old {W = W}) (assert_thread sv fuel)
  unfolding assert_thread
  assert_thread-Frame fuel = search (frame_rules) depth 12

  pub sc_exit-Frame : (fuel : ℕ) → Preserves (Frame old {W = W}) (sc_exit sv fuel)
  unfolding sc_exit
  sc_exit-Frame fuel =
      bind-Preserves (assert_thread sv fuel) _ (assert_thread-Frame fuel)
        (λ u. record { from = λ s h. tt })

  pub start_process-Frame :
      (fuel : ℕ) (process : ℕ) (name : List ℕ)
      → Preserves (Frame old {W = W}) (start_process sv fuel process name)
  unfolding start_process
  start_process-Frame fuel process name = search (frame_rules, keep.new_thread, keep.start) depth 12

  pub sc_exec-Frame : (fuel : ℕ) → Preserves (Frame old {W = W}) (sc_exec sv fuel)
  unfolding sc_exec
  sc_exec-Frame fuel =
      search
        (
          frame_rules, get_length_param-Frame, get_string_param-Frame, start_process-Frame,
          keep.new_process,
        )
        depth 12

  pub sc_new_thread-Frame : (fuel : ℕ) → Preserves (Frame old {W = W}) (sc_new_thread sv fuel)
  unfolding sc_new_thread
  sc_new_thread-Frame fuel =
      search
        (frame_rules, get_length_param-Frame, get_string_param-Frame, keep.new_thread, keep.start)
        depth 12

  pub sc_join-Frame : (fuel : ℕ) → Preserves (Frame old {W = W}) (sc_join sv fuel)
  unfolding sc_join
  sc_join-Frame fuel = search (frame_rules, with_object-Frame, keep.join) depth 12

  pub sc_yield-Frame : (fuel : ℕ) → Preserves (Frame old {W = W}) (sc_yield sv fuel)
  unfolding sc_yield
  sc_yield-Frame fuel =
      bind-Preserves (assert_thread sv fuel) _ (assert_thread-Frame fuel)
        (λ u. bind-Preserves sv.yield _ keep.yield (λ w. set_msg-Frame [] no_error))

  pub sc_p_error-Frame : (fuel : ℕ) → Preserves (Frame old {W = W}) (sc_p_error sv fuel)
  unfolding sc_p_error
  sc_p_error-Frame fuel =
      search (frame_rules, get_length_param-Frame, get_string_param-Frame, keep.print_last_msg)
        depth 12
