-- ===== src/Kernel/Conditions.antt =====
-- Condition::Wait sleeps without entering the waitqueue, so a thread that calls it is lost.
use mathlib.Core.Path.{subst}
use sgptp.Prelude.{
  update, ℕ, suc, ◌≡◌, ◌≢◌, refl, ap, sym, inl, inr, true, false, some, List, [], ◌∷◌, arith,
  if_rule, Bool-cases,
}
use sgptp.Prelude.Int.{suc_ℤ}
use sgptp.Kernel.{
  Kernel, ready_to_run, wake_semaphore, v, release, hand_over, wait, yield, start_thread, interrupt,
  is_held_by_current_thread,
}
use sgptp.Kernel.Invariant.{IsGood}
use sgptp.Kernel.Blocking.{
  current_not_ready, current_not_at_sem, current_not_at_lock, current_known,
}
use sgptp.Kernel.Waking.{signal-same, broadcast-same}
use sgptp.Kernel.Reach.{
  Step, do_p, do_v, do_acquire, do_release, do_wait, do_signal, do_broadcast, do_yield, do_finish,
  do_start, do_interrupt, Steps, here, later, Reach, Reach-IsGood, Steps-IsGood, Step-IsGood,
}
use sgptp.Kernel.Absence.{
  Absent, Lost, sleep-Lost, ready_to_run-Absent, p-Lost, acquire-Lost, finish-Lost, yield_to-Lost,
  wake_semaphore-Absent, hand_over-Absent,
}

module _ (w : ℕ) (k : Kernel) (a : Absent w k) where
  v-Absent : (s : ℕ) → Absent w (v s k)
  unfolding v
  v-Absent n =
      wake_semaphore-Absent w
        (record k {
          sems = update k.sems n (record (k.sems n) { value = suc_ℤ (k.sems n).value });
          posted = update k.posted n (suc (k.posted n));
        })
        (record {
          known = a.known;
          not_ready = a.not_ready;
          not_at_sem = λ s. ground (arith, a.not_at_sem s, a.not_at_sem n);
          not_at_lock = a.not_at_lock;
        })
        n (k.sems n).queue (ground arith)

  v-Lost : (s : ℕ) → (k.idle ≡ false → k.current ≢ w) → Lost w (v s k)
  unfolding v
  v-Lost s d = record { absent = v-Absent s; not_running = kept (k.sems s).queue }
    where
      counted : Kernel
      counted = record k {
        sems = update k.sems s (record (k.sems s) { value = suc_ℤ (k.sems s).value });
        posted = update k.posted s (suc (k.posted s));
      }

      kept :
          (ts : List ℕ)
          → (wake_semaphore counted s ts).idle ≡ false
          → (wake_semaphore counted s ts).current ≢ w
      kept [] = unfold wake_semaphore in d
      kept (t ∷ rest) = unfold wake_semaphore ready_to_run in d

  interrupt-Lost : (s : ℕ) → (k.idle ≡ false → k.current ≢ w) → Lost w (interrupt s k)
  unfolding interrupt
  interrupt-Lost s d =
      if_rule (Lost w) k.idle (λ idle. sleep-Lost w (v s k) (v-Absent s)) (λ busy. v-Lost s d)

  release-Lost : (l : ℕ) (k' : Kernel) → k.current ≢ w → release l k ≡ some k' → Lost w k'
  unfolding release
  release-Lost l k' d e = elim (Bool-cases (is_held_by_current_thread k l)) [
    | inl held ↦
        let done : some (hand_over left l (k.locks l).sleepqueue) ≡ some k' = (rw held at e) in
        let same : hand_over left l (k.locks l).sleepqueue ≡ k' = cc done in
        subst (Lost w) same (record {
          absent = hand_over-Absent w left gone l (k.locks l).sleepqueue refl;
          not_running = λ h. kept (k.locks l).sleepqueue;
        })
    | inr other ↦ absurd (ground arith)
  ]
    where
      left : Kernel
      left = record k { inside = update k.inside l (update (k.inside l) k.current false) }

      gone : Absent w left
      gone = record {
        known = a.known;
        not_ready = a.not_ready;
        not_at_sem = a.not_at_sem;
        not_at_lock = a.not_at_lock;
      }

      kept : (ts : List ℕ) → (hand_over left l ts).current ≢ w
      kept [] = unfold hand_over in d
      kept (t ∷ rest) = unfold hand_over ready_to_run in d

  start_thread-Lost : (t : ℕ) (k' : Kernel) → k.current ≢ w → start_thread t k ≡ some k' → Lost w k'
  unfolding start_thread
  start_thread-Lost t k' d e = elim (Bool-cases (k.has_process t)) [
    | inl old ↦ absurd (ground arith)
    | inr new ↦
        let done : some (ready_to_run begun t) ≡ some k' = (rw new at e) in
        let same : ready_to_run begun t ≡ k' = cc done in
        subst (Lost w) same (record {
          absent =
              ready_to_run-Absent w begun t joined
                (λ s. ground (arith, ap k.has_process s, a.known));
          not_running = λ h. unfold ready_to_run in d;
        })
  ]
    where
      begun : Kernel
      begun = record k { has_process = update k.has_process t true }

      joined : Absent w begun
      joined = record {
        known = ground (arith, a.known);
        not_ready = a.not_ready;
        not_at_sem = a.not_at_sem;
        not_at_lock = a.not_at_lock;
      }

Step-Lost : (w : ℕ) {k k' : Kernel} → Step k k' → IsGood k → Lost w k → Lost w k'
Step-Lost w {k} (do_p s b) g h = p-Lost w k h.absent s (h.not_running b)
Step-Lost w {k} (do_v s b) g h = v-Lost w k h.absent s h.not_running
Step-Lost w {k} (do_acquire l b) g h = acquire-Lost w k h.absent l (h.not_running b)
Step-Lost w {k} {k'} (do_release l b e) g h = release-Lost w k h.absent l k' (h.not_running b) e
Step-Lost w {k} (do_wait c b) g h = unfold wait in sleep-Lost w k h.absent
Step-Lost w {k} (do_signal c b) (pl, i) h = subst (Lost w) (sym (signal-same pl k c i.queues)) h
Step-Lost w {k} (do_broadcast c b) (pl, i) h =
    subst (Lost w) (sym (broadcast-same pl k c i.queues)) h
Step-Lost w {k} (do_yield b) g h =
    unfold yield in yield_to-Lost w k h.absent k.ready refl (h.not_running b)
Step-Lost w {k} (do_finish b) g h = finish-Lost w k h.absent
Step-Lost w {k} {k'} (do_start t b e) g h = start_thread-Lost w k h.absent t k' (h.not_running b) e
Step-Lost w {k} (do_interrupt s) g h = interrupt-Lost w k h.absent s h.not_running

Steps-Lost : (w : ℕ) {k j : Kernel} → IsGood k → Lost w k → Steps k j → Lost w j
Steps-Lost w g h here = h
Steps-Lost w g h (later r st) = Step-Lost w st (Steps-IsGood g r) (Steps-Lost w g h r)

wait-Lost : (k : Kernel) (c : ℕ) → IsGood k → k.idle ≡ false → Lost k.current (wait c k)
unfolding wait
wait-Lost k c (pl, i) busy = sleep-Lost k.current k (record {
  known = current_known i busy;
  not_ready = current_not_ready i busy;
  not_at_sem = current_not_at_sem i busy;
  not_at_lock = current_not_at_lock i busy;
})

-- The defect of Condition::Wait: in a reachable kernel, the running thread that calls it is from
-- then on in no queue of a semaphore or lock, not in the ready list and never dispatched again, whatever steps follow, Signal and Broadcast of
-- the same condition among them.
pub wait-Lost_forever :
    (initial : ℕ → ℕ) (m : ℕ) (k j : Kernel) (c : ℕ)
    → Reach initial m k
    → k.idle ≡ false
    → Steps (wait c k) j
    → Lost k.current j
wait-Lost_forever initial m k j c r busy after =
    let g = Reach-IsGood initial m r in
    Steps-Lost k.current (Step-IsGood (do_wait c busy) g) (wait-Lost k c g busy) after
