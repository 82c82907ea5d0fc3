-- ===== src/Kernel/Semaphores.antt =====
-- What P and V count, in which order they wake, and how a P can overtake a waiting one.
use mathlib.Core.Path.{subst}
use sgptp.Prelude.{
  update, ℕ, zero, suc, ◌+◌, ◌≡◌, refl, ap, sym, ◌∙◌, ◌≢◌, ◌==◌, ℕ_discrete, inl, inr, true, false,
  some, List, [], ◌∷◌, ◌++◌, arith, if_rule, Bool-cases,
}
use sgptp.Prelude.Int.{ℤ, pos, negsuc, suc_ℤ, pred_ℤ, is_positive, add_ℕ}
use sgptp.Kernel.{
  Resume, nothing, after_p, after_acquire, Kernel, ready_to_run, resume, switch_to, sleep_on, sleep,
  yield_to, p, v, wake_semaphore, acquire, release, hand_over, wait, yield, finish, start_thread,
  interrupt, is_held_by_current_thread, take_one, p_returns, note_return, set_pending,
}
use sgptp.Kernel.Invariant.{IsGood}
use sgptp.Kernel.Waking.{signal-same, broadcast-same}
use sgptp.Kernel.Reach.{
  Step, do_p, do_v, do_acquire, do_release, do_wait, do_signal, do_broadcast, do_yield, do_finish,
  do_start, do_interrupt, here, later, Reach, Steps-IsGood, boot, boot-IsGood,
}

-- For a semaphore with this initial value, value, number of P that have returned, of those among them
-- that had slept, and of V: the value is the initial value plus the V minus the P that have returned,
-- and it is negative by no more than the P that had slept.
abbrev Balance : ℕ → ℤ → ℕ → ℕ → ℕ → Type 0
Balance initial value passed waited posted =
    (add_ℕ value passed ≡ pos (initial + posted)) × (n : ℕ) × (add_ℕ value waited ≡ pos n)

abbrev pub IsCounted : (ℕ → ℕ) → Kernel → Type 0
IsCounted initial k =
    (s : ℕ) → Balance (initial s) (k.sems s).value (k.passed s) (k.waited s) (k.posted s)

add_ℕ-pred : (z : ℤ) (n : ℕ) → add_ℕ (pred_ℤ z) (suc n) ≡ add_ℕ z n
add_ℕ-pred (pos zero) zero = refl
add_ℕ-pred (pos (suc m)) zero = refl
add_ℕ-pred (negsuc m) zero = refl
add_ℕ-pred z (suc n) = ap suc_ℤ (add_ℕ-pred z n)

add_ℕ-suc : (z : ℤ) (n : ℕ) → add_ℕ (suc_ℤ z) n ≡ suc_ℤ (add_ℕ z n)
add_ℕ-suc z zero = refl
add_ℕ-suc z (suc n) = ap suc_ℤ (add_ℕ-suc z n)

test_self : (n : ℕ) → (n == n) ≡ true
test_self n = ground arith

add_ℕ-pos : (m n : ℕ) → add_ℕ (pos m) n ≡ pos (m + n)
add_ℕ-pos m zero = ap pos (omega arith)
add_ℕ-pos m (suc n) = ap suc_ℤ (add_ℕ-pos m n) ∙ ap pos (omega arith)

unit_taken-Balance :
    (i : ℕ) (z : ℤ) (p w v : ℕ)
    → is_positive z ≡ true
    → Balance i z p w v
    → Balance i (pred_ℤ z) (suc p) w v
unit_taken-Balance i (pos zero) p w v h (b, n, d) = cc
unit_taken-Balance i (pos (suc m)) p w v h (b, n, d) =
    (add_ℕ-pred (pos (suc m)) p ∙ b, m + w, add_ℕ-pos m w)
unit_taken-Balance i (negsuc m) p w v h (b, n, d) = cc

woken-Balance :
    (i : ℕ) (z : ℤ) (p w v : ℕ) → Balance i z p w v → Balance i (pred_ℤ z) (suc p) (suc w) v
woken-Balance i z p w v (b, n, d) = (add_ℕ-pred z p ∙ b, n, add_ℕ-pred z w ∙ d)

posted-Balance : (i : ℕ) (z : ℤ) (p w v : ℕ) → Balance i z p w v → Balance i (suc_ℤ z) p w (suc v)
posted-Balance i z p w v (b, n, d) =
    (add_ℕ-suc z p ∙ ap suc_ℤ b ∙ ap pos (omega arith), suc n, add_ℕ-suc z w ∙ ap suc_ℤ d)

module _ (initial : ℕ → ℕ) where
  -- A kernel whose counts are those of another but at semaphore n.
  one_changed :
      (k k' : Kernel) (n : ℕ)
      → IsCounted initial k
      → Balance (initial n) (k'.sems n).value (k'.passed n) (k'.waited n) (k'.posted n)
      → ((s : ℕ)
          → n ≢ s
          → ((k'.sems s).value ≡ (k.sems s).value)
            × (k'.passed s ≡ k.passed s)
            × (k'.waited s ≡ k.waited s)
            × (k'.posted s ≡ k.posted s))
      → IsCounted initial k'
  one_changed k k' n c at_n elsewhere s = elim (ℕ_discrete n s) [
    | yes eq ↦
        subst (λ s. Balance (initial s) (k'.sems s).value (k'.passed s) (k'.waited s) (k'.posted s))
          eq at_n
    | no ne ↦
        let (value, passed, waited, posted) = elsewhere s ne in
        rw (value, passed, waited, posted) (c s)
  ]

  unit_taken-IsCounted :
      (k : Kernel) (n : ℕ)
      → is_positive (k.sems n).value ≡ true
      → IsCounted initial k
      → IsCounted initial (p_returns (take_one k n) n)
  unit_taken-IsCounted k n unit c =
      one_changed k (p_returns (take_one k n) n) n c
        (rw (test_self n) (
          unit_taken-Balance (initial n) (k.sems n).value (k.passed n) (k.waited n) (k.posted n)
            unit (c n)))
        (λ s ne. ground arith)

  -- A thread goes on with what it has left to do.
  resumed-IsCounted :
      (k : Kernel) (t : ℕ) (r : Resume)
      → IsCounted initial k
      → IsCounted initial
          (resume (record (note_return k r) { current = t; idle = false; to_be_destroyed = 0 }) t r)
  unfolding resume
  resumed-IsCounted k t nothing c = c
  resumed-IsCounted k t (after_p n) c =
      one_changed k (take_one (note_return k (after_p n)) n) n c
        (rw (test_self n)
          (woken-Balance (initial n) (k.sems n).value (k.passed n) (k.waited n) (k.posted n) (c n)))
        (λ s ne. ground arith)
  resumed-IsCounted k t (after_acquire n) c = c

  switch_to-IsCounted :
      (k : Kernel) (t : ℕ) → IsCounted initial k → IsCounted initial (switch_to k t)
  unfolding switch_to
  switch_to-IsCounted k t c = resumed-IsCounted k t (k.pending t) c

  sleep_on-IsCounted :
      (k : Kernel) (rs : List ℕ) → IsCounted initial k → IsCounted initial (sleep_on k rs)
  unfolding sleep_on
  sleep_on-IsCounted k [] c = c
  sleep_on-IsCounted k (t ∷ rest) c = switch_to-IsCounted (record k { ready = rest }) t c

  sleep-IsCounted : (k : Kernel) → IsCounted initial k → IsCounted initial (sleep k)
  unfolding sleep
  sleep-IsCounted k c = sleep_on-IsCounted k k.ready c

  p-IsCounted : (k : Kernel) (n : ℕ) → IsCounted initial k → IsCounted initial (p n k)
  unfolding p
  p-IsCounted k n c =
      if_rule (IsCounted initial) (is_positive (k.sems n).value)
        (λ unit. unit_taken-IsCounted k n unit c)
        (λ empty.
          sleep-IsCounted
            (record (set_pending k (after_p n)) {
              sems =
                  update k.sems n
                    (record (k.sems n) { queue = (k.sems n).queue ++ k.current ∷ [] });
            })
            (λ s. ground (arith, c s, c n)))

  acquire-IsCounted : (k : Kernel) (l : ℕ) → IsCounted initial k → IsCounted initial (acquire l k)
  unfolding acquire
  acquire-IsCounted k l c =
      if_rule (IsCounted initial) (k.locks l).free (λ free. c)
        (λ taken.
          sleep-IsCounted
            (record (set_pending k (after_acquire l)) {
              locks =
                  update k.locks l
                    (record (k.locks l) { sleepqueue = (k.locks l).sleepqueue ++ k.current ∷ [] });
            })
            c)

  wake_semaphore-IsCounted :
      (k : Kernel) (n : ℕ) (ts : List ℕ)
      → IsCounted initial k
      → IsCounted initial (wake_semaphore k n ts)
  unfolding wake_semaphore ready_to_run
  wake_semaphore-IsCounted k n [] c = c
  wake_semaphore-IsCounted k n (t ∷ rest) c =
      one_changed k
        (ready_to_run (record k { sems = update k.sems n (record (k.sems n) { queue = rest }) }) t)
        n c (rw (test_self n) (c n)) (λ s ne. ground arith)

  v-IsCounted : (k : Kernel) (n : ℕ) → IsCounted initial k → IsCounted initial (v n k)
  unfolding v
  v-IsCounted k n c =
      let up = record k {
        sems = update k.sems n (record (k.sems n) { value = suc_ℤ (k.sems n).value });
        posted = update k.posted n (suc (k.posted n));
      } in
      wake_semaphore-IsCounted up n (k.sems n).queue (
        one_changed k up n c
          (rw (test_self n) (
            posted-Balance (initial n) (k.sems n).value (k.passed n) (k.waited n) (k.posted n)
              (c n)))
          (λ s ne. ground arith))

  yield_to-IsCounted :
      (k : Kernel) (rs : List ℕ) → IsCounted initial k → IsCounted initial (yield_to k rs)
  unfolding yield_to ready_to_run
  yield_to-IsCounted k [] c = c
  yield_to-IsCounted k (t ∷ rest) c =
      switch_to-IsCounted (record k { ready = rest ++ k.current ∷ [] }) t c

  hand_over-IsCounted :
      (k : Kernel) (l : ℕ) (ts : List ℕ)
      → IsCounted initial k
      → IsCounted initial (hand_over k l ts)
  unfolding hand_over ready_to_run
  hand_over-IsCounted k l [] c = c
  hand_over-IsCounted k l (t ∷ rest) c = c

  release-IsCounted :
      (k k' : Kernel) (l : ℕ) → IsCounted initial k → release l k ≡ some k' → IsCounted initial k'
  unfolding release
  release-IsCounted k k' l c e = elim (Bool-cases (is_held_by_current_thread k l)) [
    | inl held ↦
        let done : some (hand_over left l (k.locks l).sleepqueue) ≡ some k' = (rw held at e) in
        let same : hand_over left l (k.locks l).sleepqueue ≡ k' = cc done in
        subst (IsCounted initial) same (hand_over-IsCounted left l (k.locks l).sleepqueue c)
    | inr other ↦ absurd (ground arith)
  ]
    where
      left : Kernel
      left = record k { inside = update k.inside l (update (k.inside l) k.current false) }

  start_thread-IsCounted :
      (k k' : Kernel) (t : ℕ)
      → IsCounted initial k
      → start_thread t k ≡ some k'
      → IsCounted initial k'
  unfolding start_thread ready_to_run
  start_thread-IsCounted k k' t c e = elim (Bool-cases (k.has_process t)) [
    | inl old ↦ absurd (ground arith)
    | inr new ↦
        let begun = record k { has_process = update k.has_process t true } in
        let done : some (ready_to_run begun t) ≡ some k' = (rw new at e) in
        let same : ready_to_run begun t ≡ k' = cc done in subst (IsCounted initial) same c
  ]

  Step-IsCounted :
      {k k' : Kernel} → Step k k' → IsGood k → IsCounted initial k → IsCounted initial k'
  Step-IsCounted {k} (do_p s b) g c = p-IsCounted k s c
  Step-IsCounted {k} (do_v s b) g c = v-IsCounted k s c
  Step-IsCounted {k} (do_acquire l b) g c = acquire-IsCounted k l c
  Step-IsCounted {k} {k'} (do_release l b e) g c = release-IsCounted k k' l c e
  Step-IsCounted {k} (do_wait n b) g c = unfold wait in sleep-IsCounted k c
  Step-IsCounted {k} (do_signal n b) (pl, i) c =
      subst (IsCounted initial) (sym (signal-same pl k n i.queues)) c
  Step-IsCounted {k} (do_broadcast n b) (pl, i) c =
      subst (IsCounted initial) (sym (broadcast-same pl k n i.queues)) c
  Step-IsCounted {k} (do_yield b) g c = unfold yield in yield_to-IsCounted k k.ready c
  Step-IsCounted {k} (do_finish b) g c =
      unfold finish in sleep-IsCounted (record k { to_be_destroyed = k.current }) c
  Step-IsCounted {k} {k'} (do_start t b e) g c = start_thread-IsCounted k k' t c e
  Step-IsCounted {k} (do_interrupt s) g c =
      unfold interrupt in
      if_rule (IsCounted initial) k.idle (λ h. sleep-IsCounted (v s k) (v-IsCounted k s c))
        (λ h. v-IsCounted k s c)

  -- In every reachable kernel the value of each semaphore plus the number of its P that have returned
  -- is its initial value plus the number of V; and the value plus the number of P that had to sleep
  -- and have returned is not negative, so that no P that did not sleep has taken a unit that was not
  -- there.
  pub Reach-IsCounted : (m : ℕ) {k : Kernel} → Reach initial m k → IsCounted initial k
  Reach-IsCounted m here = unfold boot in λ s. (ap pos (omega arith), initial s, refl)
  Reach-IsCounted m (later r st) =
      Step-IsCounted st (Steps-IsGood (boot-IsGood initial m) r) (Reach-IsCounted m r)
