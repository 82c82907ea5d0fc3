-- ===== src/Kernel/Examples.antt =====
-- Runs of the kernel: two threads that share a lock, a semaphore and a condition.
use sgptp.Prelude.{ℕ, ◌+◌, ◌≡◌, refl, ◌⊎◌, Option, none, some, [], ◌∷◌, ◌≢◌}
use sgptp.Prelude.Int.{pos, negsuc, add_ℕ}
use sgptp.Kernel.{Kernel, p, v, acquire, release, wait, signal, yield, start_thread}
use sgptp.Kernel.Invariant.{Owns}
use sgptp.Kernel.Reach.{
  boot, Reach, here, later, do_start, do_yield, do_acquire, do_p, do_wait, do_signal,
  lock_exclusion,
}
use sgptp.Kernel.Absence.{Lost}
use sgptp.Kernel.Conditions.{wait-Lost_forever}
use sgptp.Kernel.Locks.{Passed, release-Passed}
use sgptp.Kernel.Semaphores.{Reach-IsCounted}
use sgptp.Kernel.Overtaking.{v_wakes_first, p_overtakes}

abbrev no_units : ℕ → ℕ
no_units s = 0

abbrev begun : Kernel
begun = boot no_units 1

abbrev or_same : Option Kernel → Kernel → Kernel
or_same none k = k
or_same (some j) k = j

-- Thread 1 has started thread 2.
abbrev two_threads : Kernel
two_threads = or_same (start_thread 2 begun) begun

started : start_thread 2 begun ≡ some two_threads
unfolding start_thread boot
started = refl

two_threads-Reach : Reach no_units 1 two_threads
unfolding boot
two_threads-Reach = later here (do_start 2 (unfold boot in refl) started)

-- Thread 2 waits for a unit of semaphore 0; thread 1 runs again.
abbrev one_waits : Kernel
one_waits = p 0 (yield two_threads)

one_waits-Reach : Reach no_units 1 one_waits
unfolding start_thread boot yield p
one_waits-Reach = later (later two_threads-Reach (do_yield refl)) (do_p 0 refl)

one_waits_runs :
    (one_waits.current ≡ 1) × (one_waits.ready ≡ []) × ((one_waits.sems 0).queue ≡ 2 ∷ [])
unfolding start_thread boot yield p
one_waits_runs = (refl, refl, refl)

Reach-IsCounted_example :
    (add_ℕ (one_waits.sems 0).value (one_waits.passed 0) ≡ pos (no_units 0 + one_waits.posted 0))
    × (n : ℕ) × (add_ℕ (one_waits.sems 0).value (one_waits.waited 0) ≡ pos n)
Reach-IsCounted_example = Reach-IsCounted no_units 1 one_waits-Reach 0

v_wakes_first_example : (v 0 one_waits).ready ≡ 2 ∷ []
unfolding start_thread boot yield p
v_wakes_first_example = (v_wakes_first one_waits 0 2 [] refl).1

p_overtakes_example : ((yield (p 0 (v 0 one_waits))).sems 0).value ≡ negsuc 0
unfolding start_thread boot yield p
p_overtakes_example = (p_overtakes one_waits 0 2 [] refl refl refl refl).4

-- Thread 1 holds lock 3.
abbrev holding : Kernel
holding = acquire 3 two_threads

holding-Reach : Reach no_units 1 holding
unfolding start_thread boot
holding-Reach = later two_threads-Reach (do_acquire 3 refl)

lock_exclusion_example : (◌≡◌ {A = ℕ} 1 1) × Owns holding 3 1
unfolding start_thread boot acquire
lock_exclusion_example = lock_exclusion no_units 1 holding-Reach 3 1 1 refl refl

release-Passed_example :
    ((holding.current ≢ (holding.locks 3).owner) × (release 3 holding ≡ none))
    ⊎ ((holding.current ≡ (holding.locks 3).owner)
        × (j : Kernel) × (release 3 holding ≡ some j)
        × Passed holding 3 (holding.locks 3).sleepqueue j)
release-Passed_example = release-Passed holding 3

-- Thread 1 calls Wait on condition 5, and thread 2 signals it.
waiting-Reach : Reach no_units 1 (wait 5 two_threads)
unfolding start_thread boot
waiting-Reach = later two_threads-Reach (do_wait 5 refl)

wait-Lost_forever_example : Lost 1 (signal 5 (wait 5 two_threads))
unfolding start_thread boot wait
wait-Lost_forever_example =
    wait-Lost_forever no_units 1 two_threads (signal 5 (wait 5 two_threads)) 5 two_threads-Reach
      refl (later here (do_signal 5 refl))
