-- ===== src/Kernel/Waking.antt =====
-- The operations that make other threads ready keep the invariant.
use sgptp.Prelude.{
  update, ℕ, suc, ◌≡◌, refl, inl, inr, Bool, true, false, List, [], ◌∷◌, arith, Bool-cases,
  contains, Distinct, if_rule,
}
use sgptp.Prelude.Int.{suc_ℤ}
use sgptp.Kernel.{
  Semaphore, after_p, Kernel, ready_to_run, wake_semaphore, v, signal_first, signal, broadcast_all,
  broadcast, interrupt,
}
use sgptp.Kernel.Invariant.{
  Place, running, in_ready, at_sem, Queues, Inv, IsGood, update-cases, sleep-IsGood,
  ready_to_run-Queues,
}

-- The first thread of a semaphore's queue leaves it.
module _ (pl : ℕ → Place) (k : Kernel) (n t : ℕ) (rest : List ℕ) (q : Queues pl k)
    (e : (k.sems n).queue ≡ t ∷ rest) where
  popped : Kernel
  popped = record k { sems = update k.sems n (record (k.sems n) { queue = rest }) }

  popped-Queues : Queues pl popped
  unfolding popped
  popped-Queues = record {
    in_line = q.in_line;
    once = q.once;
    at_sems = λ s u h. ground (arith, q.at_sems s u, q.at_sems n u);
    sems_once = λ s.
        update-cases (λ (x : Semaphore). Distinct x.queue) k.sems n _ s (rw e at (q.sems_once n)).1
          (q.sems_once s);
    at_locks = q.at_locks;
    locks_once = q.locks_once;
    handed = q.handed;
    holds = q.holds;
    no_waiters = q.no_waiters;
    strangers = q.strangers;
  }

  first_waits : (pl t ≡ at_sem n) × (k.pending t ≡ after_p n)
  first_waits = q.at_sems n t (rw e (ground arith))

  woken_sem-Queues : Queues (update pl t in_ready) (ready_to_run popped t)
  unfolding popped
  woken_sem-Queues =
      ready_to_run-Queues pl popped t popped-Queues
        (no_if (contains k.ready t) (λ h. ground (arith, q.in_line t h, first_waits)))
        (λ s. gone_from s)
        (λ l.
          no_if (contains (k.locks l).sleepqueue t)
            (λ h. ground (arith, q.at_locks l t h, first_waits)))
        (λ l g. ground (arith, first_waits)) known
    where
      known : k.has_process t ≡ true
      known = elim (Bool-cases (k.has_process t)) [
        | inl h ↦ h
        | inr h ↦ ground (arith, q.strangers t h, first_waits)
      ]

      no_if : (b : Bool) → (b ≡ true → ⊥) → b ≡ false
      no_if true h = absurd (h refl)
      no_if false h = refl

      gone_from : (s : ℕ) → contains (popped.sems s).queue t ≡ false
      gone_from s =
          no_if (contains (popped.sems s).queue t)
            (λ h. ground (arith, q.at_sems s t, first_waits, (rw e at (q.sems_once n)).0))

counted : Kernel → ℕ → Kernel
counted k s = record k {
  sems = update k.sems s (record (k.sems s) { value = suc_ℤ (k.sems s).value });
  posted = update k.posted s (suc (k.posted s));
}

counted-Queues : (pl : ℕ → Place) (k : Kernel) (n : ℕ) → Queues pl k → Queues pl (counted k n)
unfolding counted
counted-Queues pl k n q = record {
  in_line = q.in_line;
  once = q.once;
  at_sems = λ s u h. ground (arith, q.at_sems s u);
  sems_once = λ s.
      update-cases (λ (x : Semaphore). Distinct x.queue) k.sems n _ s (q.sems_once n)
        (q.sems_once s);
  at_locks = q.at_locks;
  locks_once = q.locks_once;
  handed = q.handed;
  holds = q.holds;
  no_waiters = q.no_waiters;
  strangers = q.strangers;
}

-- A change that wakes at most a waiting thread: the queues stay in order, and the processor stays
-- with the thread that has it.
record Wakes (pl : ℕ → Place) (k k' : Kernel) : Type 0 where
  places : ℕ → Place
  queues : Queues places k'
  same_current : k'.current ≡ k.current
  same_idle : k'.idle ≡ k.idle
  same_pending : k'.pending ≡ k.pending
  keeps : pl k.current ≡ running → places k.current ≡ running

Wakes-IsGood : (pl : ℕ → Place) (k k' : Kernel) → Inv pl k → Wakes pl k k' → IsGood k'
Wakes-IsGood pl k k' i w = (
  w.places,
  record {
    queues = w.queues;
    runs = λ h. rw w.same_current (w.keeps (i.runs (ground (arith, w.same_idle))));
    fresh = λ h. rw (w.same_current, w.same_pending) (i.fresh (ground (arith, w.same_idle)));
  },
)

wake_semaphore-Wakes :
    (pl : ℕ → Place) (k : Kernel) (s : ℕ) (ts : List ℕ)
    → Queues pl k
    → (k.sems s).queue ≡ ts
    → Wakes pl k (wake_semaphore k s ts)
unfolding wake_semaphore popped
wake_semaphore-Wakes pl k s [] q e = record {
  places = pl;
  queues = q;
  same_current = refl;
  same_idle = refl;
  same_pending = refl;
  keeps = λ h. h;
}
wake_semaphore-Wakes pl k s (t ∷ rest) q e = record {
  places = update pl t in_ready;
  queues = woken_sem-Queues pl k s t rest q e;
  same_current = unfold ready_to_run in refl;
  same_idle = unfold ready_to_run in refl;
  same_pending = unfold ready_to_run in refl;
  keeps = λ h. ground (arith, first_waits pl k s t rest q e);
}

v-Wakes : (pl : ℕ → Place) (k : Kernel) (s : ℕ) → Queues pl k → Wakes pl k (v s k)
unfolding v counted
v-Wakes pl k s q =
    let w =
      wake_semaphore-Wakes pl (counted k s) s (k.sems s).queue (counted-Queues pl k s q)
        (ground arith) in
    record {
      places = w.places;
      queues = w.queues;
      same_current = w.same_current;
      same_idle = w.same_idle;
      same_pending = w.same_pending;
      keeps = w.keeps;
    }

pub v-IsGood : (pl : ℕ → Place) (k : Kernel) (s : ℕ) → Inv pl k → IsGood (v s k)
v-IsGood pl k s i = Wakes-IsGood pl k (v s k) i (v-Wakes pl k s i.queues)

pub interrupt-IsGood : (pl : ℕ → Place) (k : Kernel) (s : ℕ) → Inv pl k → IsGood (interrupt s k)
unfolding interrupt
interrupt-IsGood pl k s i =
    let w = v-Wakes pl k s i.queues in
    if_rule IsGood k.idle (λ h. sleep-IsGood w.places (v s k) w.queues) (λ h. v-IsGood pl k s i)

-- With no thread in any waitqueue there is nothing to wake.
pub signal-same : (pl : ℕ → Place) (k : Kernel) (c : ℕ) → Queues pl k → signal c k ≡ k
unfolding signal signal_first
signal-same pl k c q = rw (q.no_waiters c, signal_first)

pub broadcast-same : (pl : ℕ → Place) (k : Kernel) (c : ℕ) → Queues pl k → broadcast c k ≡ k
unfolding broadcast broadcast_all
broadcast-same pl k c q = rw (q.no_waiters c, broadcast_all)
