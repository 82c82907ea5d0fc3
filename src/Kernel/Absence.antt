-- ===== src/Kernel/Absence.antt =====
-- A started thread that stands in no queue: the operations of other threads do not bring it back.
use sgptp.Prelude.{
  update, ℕ, ◌≡◌, ◌≢◌, refl, true, false, List, [], ◌∷◌, ◌++◌, arith, contains, contains-snoc,
  if_rule,
}
use sgptp.Prelude.Int.{is_positive}
use sgptp.Kernel.{
  Semaphore, Lock, Resume, nothing, after_p, after_acquire, Kernel, ready_to_run, note_return,
  resume, switch_to, sleep_on, sleep, yield_to, p, wake_semaphore, acquire, hand_over, finish,
  take_one, p_returns, set_pending,
}

-- Thread `w` has been started and stands in no queue of the kernel.
pub record Absent (w : ℕ) (k : Kernel) : Type 0 where
  pub known : k.has_process w ≡ true
  pub not_ready : contains k.ready w ≡ false
  pub not_at_sem : (s : ℕ) → contains (k.sems s).queue w ≡ false
  pub not_at_lock : (l : ℕ) → contains (k.locks l).sleepqueue w ≡ false

-- Nor does it run.
pub record Lost (w : ℕ) (k : Kernel) : Type 0 where
  pub absent : Absent w k
  pub not_running : k.idle ≡ false → k.current ≢ w

module _ (w : ℕ) where
  resume-Lost :
      (k : Kernel) (t : ℕ) (r : Resume) → Absent w k → k.current ≢ w → Lost w (resume k t r)
  unfolding resume
  resume-Lost k t nothing a d = record { absent = a; not_running = λ h. d }
  resume-Lost k t (after_p n) a d = record {
    absent = record {
      known = a.known;
      not_ready = a.not_ready;
      not_at_sem = λ s. ground (arith, a.not_at_sem s, a.not_at_sem n);
      not_at_lock = a.not_at_lock;
    };
    not_running = λ h. d;
  }
  resume-Lost k t (after_acquire n) a d = record {
    absent = record {
      known = a.known;
      not_ready = a.not_ready;
      not_at_sem = a.not_at_sem;
      not_at_lock = a.not_at_lock;
    };
    not_running = λ h. d;
  }

  switch_to-Lost : (k : Kernel) (t : ℕ) → Absent w k → t ≢ w → Lost w (switch_to k t)
  unfolding switch_to
  switch_to-Lost k t a d =
      resume-Lost
        (record (note_return k (k.pending t)) { current = t; idle = false; to_be_destroyed = 0 }) t
        (k.pending t)
        (record {
          known = a.known;
          not_ready = a.not_ready;
          not_at_sem = a.not_at_sem;
          not_at_lock = a.not_at_lock;
        })
        d

  sleep_on-Lost : (k : Kernel) (rs : List ℕ) → k.ready ≡ rs → Absent w k → Lost w (sleep_on k rs)
  unfolding sleep_on
  sleep_on-Lost k [] e a = record {
    absent = record {
      known = a.known;
      not_ready = a.not_ready;
      not_at_sem = a.not_at_sem;
      not_at_lock = a.not_at_lock;
    };
    not_running = λ h. cc;
  }
  sleep_on-Lost k (t ∷ rest) e a =
      switch_to-Lost (record k { ready = rest }) t
        (record {
          known = a.known;
          not_ready = ground (arith, a.not_ready);
          not_at_sem = a.not_at_sem;
          not_at_lock = a.not_at_lock;
        })
        (λ same. ground (arith, a.not_ready))

  pub sleep-Lost : (k : Kernel) → Absent w k → Lost w (sleep k)
  unfolding sleep
  sleep-Lost k a = sleep_on-Lost k k.ready refl a

  pub ready_to_run-Absent : (k : Kernel) (t : ℕ) → Absent w k → t ≢ w → Absent w (ready_to_run k t)
  unfolding ready_to_run
  ready_to_run-Absent k t a d = record {
    known = a.known;
    not_ready = ground (arith, a.not_ready, contains-snoc k.ready t w);
    not_at_sem = a.not_at_sem;
    not_at_lock = a.not_at_lock;
  }

  -- The queue of one semaphore, or of one lock, changes without letting `w` in.
  sem-Absent :
      (k : Kernel) (n : ℕ) (x : Semaphore)
      → Absent w k
      → contains x.queue w ≡ false
      → Absent w (record k { sems = update k.sems n x })
  sem-Absent k n x a out = record {
    known = a.known;
    not_ready = a.not_ready;
    not_at_sem = λ s. ground (arith, a.not_at_sem s);
    not_at_lock = a.not_at_lock;
  }

  lock-Absent :
      (k : Kernel) (n : ℕ) (x : Lock)
      → Absent w k
      → contains x.sleepqueue w ≡ false
      → Absent w (record k { locks = update k.locks n x })
  lock-Absent k n x a out = record {
    known = a.known;
    not_ready = a.not_ready;
    not_at_sem = a.not_at_sem;
    not_at_lock = λ l. ground (arith, a.not_at_lock l);
  }

-- Every operation of the running thread, which is not `w`, leaves `w` where it is.
module _ (w : ℕ) (k : Kernel) (a : Absent w k) where
  set_pending-Absent : (r : Resume) → Absent w (set_pending k r)
  set_pending-Absent r = record {
    known = a.known;
    not_ready = a.not_ready;
    not_at_sem = a.not_at_sem;
    not_at_lock = a.not_at_lock;
  }

  unit_taken-Absent : (s : ℕ) → Absent w (p_returns (take_one k s) s)
  unit_taken-Absent n = record {
    known = a.known;
    not_ready = a.not_ready;
    not_at_sem = λ s. ground (arith, a.not_at_sem s, a.not_at_sem n);
    not_at_lock = a.not_at_lock;
  }

  pub p-Lost : (s : ℕ) → k.current ≢ w → Lost w (p s k)
  unfolding p
  p-Lost s d =
      if_rule (Lost w) (is_positive (k.sems s).value)
        (λ unit. record { absent = unit_taken-Absent s; not_running = λ h. d })
        (λ empty. sleep-Lost w _ (
          sem-Absent w (set_pending k (after_p s)) s
            (record (k.sems s) { queue = (k.sems s).queue ++ k.current ∷ [] })
            (set_pending-Absent (after_p s))
            (ground (arith, a.not_at_sem s, contains-snoc (k.sems s).queue k.current w))))

  pub acquire-Lost : (l : ℕ) → k.current ≢ w → Lost w (acquire l k)
  unfolding acquire
  acquire-Lost n d =
      if_rule (Lost w) (k.locks n).free
        (λ free. record {
          absent = record {
            known = a.known;
            not_ready = a.not_ready;
            not_at_sem = a.not_at_sem;
            not_at_lock = λ l. ground (arith, a.not_at_lock l, a.not_at_lock n);
          };
          not_running = λ h. d;
        })
        (λ taken. sleep-Lost w _ (
          lock-Absent w (set_pending k (after_acquire n)) n
            (record (k.locks n) { sleepqueue = (k.locks n).sleepqueue ++ k.current ∷ [] })
            (set_pending-Absent (after_acquire n))
            (ground (arith, a.not_at_lock n, contains-snoc (k.locks n).sleepqueue k.current w))))

  pub finish-Lost : Lost w (finish k)
  unfolding finish
  finish-Lost =
      sleep-Lost w (record k { to_be_destroyed = k.current })
        (record {
          known = a.known;
          not_ready = a.not_ready;
          not_at_sem = a.not_at_sem;
          not_at_lock = a.not_at_lock;
        })

  pub yield_to-Lost : (rs : List ℕ) → k.ready ≡ rs → k.current ≢ w → Lost w (yield_to k rs)
  unfolding yield_to
  yield_to-Lost [] e d = record { absent = a; not_running = λ h. d }
  yield_to-Lost (t ∷ rest) e d =
      switch_to-Lost w _ t
        (ready_to_run-Absent w (record k { ready = rest }) k.current
          (record {
            known = a.known;
            not_ready = ground (arith, a.not_ready);
            not_at_sem = a.not_at_sem;
            not_at_lock = a.not_at_lock;
          })
          d)
        (λ same. ground (arith, a.not_ready))

  pub wake_semaphore-Absent :
      (s : ℕ) (ts : List ℕ) → (k.sems s).queue ≡ ts → Absent w (wake_semaphore k s ts)
  unfolding wake_semaphore
  wake_semaphore-Absent s [] e = a
  wake_semaphore-Absent s (t ∷ rest) e =
      ready_to_run-Absent w _ t
        (sem-Absent w k s (record (k.sems s) { queue = rest }) a (ground (arith, a.not_at_sem s)))
        (λ same. ground (arith, a.not_at_sem s))

  pub hand_over-Absent :
      (l : ℕ) (ts : List ℕ) → (k.locks l).sleepqueue ≡ ts → Absent w (hand_over k l ts)
  unfolding hand_over
  hand_over-Absent l [] e =
      lock-Absent w k l (record (k.locks l) { free = true; owner = 0 }) a (a.not_at_lock l)
  hand_over-Absent l (t ∷ rest) e =
      let b = ready_to_run-Absent w k t a (λ same. ground (arith, a.not_at_lock l)) in
      let b' =
        lock-Absent w k l (record (k.locks l) { sleepqueue = rest; owner = t }) a
          (ground (arith, a.not_at_lock l)) in
      record {
        known = a.known;
        not_ready = b.not_ready;
        not_at_sem = unfold ready_to_run in a.not_at_sem;
        not_at_lock = unfold ready_to_run in b'.not_at_lock;
      }
