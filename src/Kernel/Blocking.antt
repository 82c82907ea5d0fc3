-- ===== src/Kernel/Blocking.antt =====
-- The operations in which the running thread may lose the processor keep the invariant.
use sgptp.Prelude.{
  update, ℕ, ◌≡◌, refl, inl, inr, true, false, List, [], ◌∷◌, ◌++◌, arith, Bool-cases, contains,
  Distinct, contains-snoc, Distinct-snoc, if_rule,
}
use sgptp.Prelude.Int.{is_positive}
use sgptp.Kernel.{
  Semaphore, Lock, after_p, after_acquire, Kernel, take_one, p_returns, ready_to_run, set_pending,
  p, acquire, wait, finish, yield, yield_to,
}
use sgptp.Kernel.Invariant.{
  Place, in_ready, gone, at_sem, at_lock, Queues, Inv, Chosen, IsGood, update-cases,
  switch_to-IsGood, dequeue-Queues, dequeue-Chosen, sleep-IsGood, ready_to_run-Queues,
}

-- What the invariant says of the running thread.
module _ {pl : ℕ → Place} {k : Kernel} (i : Inv pl k) (busy : k.idle ≡ false) where
  pub current_not_ready : contains k.ready k.current ≡ false
  current_not_ready = elim (Bool-cases (contains k.ready k.current)) [
    | inl h ↦ ground (arith, i.queues.in_line k.current h, i.runs busy)
    | inr h ↦ h
  ]

  pub current_not_at_sem : (s : ℕ) → contains (k.sems s).queue k.current ≡ false
  current_not_at_sem s = elim (Bool-cases (contains (k.sems s).queue k.current)) [
    | inl h ↦ ground (arith, i.queues.at_sems s k.current h, i.runs busy)
    | inr h ↦ h
  ]

  pub current_not_at_lock : (l : ℕ) → contains (k.locks l).sleepqueue k.current ≡ false
  current_not_at_lock l = elim (Bool-cases (contains (k.locks l).sleepqueue k.current)) [
    | inl h ↦ ground (arith, i.queues.at_locks l k.current h, i.runs busy)
    | inr h ↦ h
  ]

  pub current_known : k.has_process k.current ≡ true
  current_known = elim (Bool-cases (k.has_process k.current)) [
    | inl h ↦ h
    | inr h ↦ ground (arith, i.queues.strangers k.current h, i.runs busy)
  ]

-- The running thread stands at the end of a semaphore's queue.
module _ (pl : ℕ → Place) (k : Kernel) (i : Inv pl k) (busy : k.idle ≡ false) where
  open k use {current}

  wait_at_sem : ℕ → Kernel
  wait_at_sem s = record (set_pending k (after_p s)) {
    sems = update k.sems s (record (k.sems s) { queue = (k.sems s).queue ++ k.current ∷ [] });
  }

  wait_at_sem-Queues : (s : ℕ) → Queues (update pl current (at_sem s)) (wait_at_sem s)
  unfolding wait_at_sem
  wait_at_sem-Queues n = record {
    in_line = λ u h. ground (arith, i.queues.in_line u, i.runs busy);
    once = i.queues.once;
    at_sems = λ s u h. ground (
      arith,
      i.queues.at_sems s u,
      i.queues.at_sems n u,
      current_not_at_sem i busy s,
      contains-snoc (k.sems n).queue current u,
    );
    sems_once = λ s.
        update-cases (λ (x : Semaphore). Distinct x.queue) k.sems n _ s
          (Distinct-snoc (k.sems n).queue current (i.queues.sems_once n)
            (current_not_at_sem i busy n))
          (i.queues.sems_once s);
    at_locks = λ l u h. ground (arith, i.queues.at_locks l u, current_not_at_lock i busy l);
    locks_once = i.queues.locks_once;
    handed = λ l u h g. ground (arith, i.queues.handed l u, current_not_ready i busy);
    holds = i.queues.holds;
    no_waiters = i.queues.no_waiters;
    strangers = λ u h. ground (arith, i.queues.strangers u h, i.runs busy);
  }

  -- A P that finds a unit only changes the count.
  unit_taken-Inv : (s : ℕ) → Inv pl (p_returns (take_one k s) s)
  unit_taken-Inv n = record {
    queues = record {
      in_line = i.queues.in_line;
      once = i.queues.once;
      at_sems = λ s u h. ground (arith, i.queues.at_sems s u);
      sems_once = λ s.
          update-cases (λ (x : Semaphore). Distinct x.queue) k.sems n _ s (i.queues.sems_once n)
            (i.queues.sems_once s);
      at_locks = i.queues.at_locks;
      locks_once = i.queues.locks_once;
      handed = i.queues.handed;
      holds = i.queues.holds;
      no_waiters = i.queues.no_waiters;
      strangers = λ u h. ground (arith, i.queues.strangers u h, i.runs busy);
    };
    runs = i.runs;
    fresh = i.fresh;
  }

  pub p-IsGood : (s : ℕ) → IsGood (p s k)
  unfolding p wait_at_sem
  p-IsGood s =
      if_rule IsGood (is_positive (k.sems s).value) (λ unit. (pl, unit_taken-Inv s))
        (λ empty.
          sleep-IsGood (update pl current (at_sem s)) (wait_at_sem s) (wait_at_sem-Queues s))

  wait_at_lock : ℕ → Kernel
  wait_at_lock l = record (set_pending k (after_acquire l)) {
    locks =
        update k.locks l
          (record (k.locks l) { sleepqueue = (k.locks l).sleepqueue ++ k.current ∷ [] });
  }

  wait_at_lock-Queues :
      (l : ℕ) → (k.locks l).free ≡ false → Queues (update pl current (at_lock l)) (wait_at_lock l)
  unfolding wait_at_lock
  wait_at_lock-Queues n taken = record {
    in_line = λ u h. ground (arith, i.queues.in_line u, i.runs busy);
    once = i.queues.once;
    at_sems = λ s u h. ground (arith, i.queues.at_sems s u, current_not_at_sem i busy s);
    sems_once = i.queues.sems_once;
    at_locks = λ l u h. ground (
      arith,
      i.queues.at_locks l u,
      i.queues.at_locks n u,
      current_not_at_lock i busy l,
      contains-snoc (k.locks n).sleepqueue current u,
    );
    locks_once = λ l.
        update-cases (λ (x : Lock). Distinct x.sleepqueue) k.locks n _ l
          (Distinct-snoc (k.locks n).sleepqueue current (i.queues.locks_once n)
            (current_not_at_lock i busy n))
          (i.queues.locks_once l);
    handed = λ l u h g. ground (arith, i.queues.handed l u, current_not_ready i busy);
    holds = λ l u h. ground (arith, i.queues.holds l u);
    no_waiters = i.queues.no_waiters;
    strangers = λ u h. ground (arith, i.queues.strangers u h, i.runs busy);
  }

  take_lock : ℕ → Kernel
  take_lock l = record k {
    locks = update k.locks l (record (k.locks l) { owner = k.current; free = false });
    inside = update k.inside l (update (k.inside l) k.current true);
  }

  take_lock-Inv : (l : ℕ) → (k.locks l).free ≡ true → Inv pl (take_lock l)
  unfolding take_lock
  take_lock-Inv n free = record {
    queues = record {
      in_line = i.queues.in_line;
      once = i.queues.once;
      at_sems = i.queues.at_sems;
      sems_once = i.queues.sems_once;
      at_locks = λ l u h. ground (arith, i.queues.at_locks l u);
      locks_once = λ l.
          update-cases (λ (x : Lock). Distinct x.sleepqueue) k.locks n _ l (i.queues.locks_once n)
            (i.queues.locks_once l);
      handed = λ l u h g. ground (arith, i.queues.handed l u);
      holds = λ l u h. ground (arith, i.queues.holds l u);
      no_waiters = i.queues.no_waiters;
      strangers = λ u h. ground (arith, i.queues.strangers u h, i.runs busy);
    };
    runs = i.runs;
    fresh = i.fresh;
  }

  pub acquire-IsGood : (l : ℕ) → IsGood (acquire l k)
  unfolding acquire wait_at_lock take_lock
  acquire-IsGood l =
      if_rule IsGood (k.locks l).free (λ free. (pl, take_lock-Inv l free))
        (λ taken.
          sleep-IsGood (update pl current (at_lock l)) (wait_at_lock l)
            (wait_at_lock-Queues l taken))

  -- A thread that sleeps in no queue: Wait, and Finish.
  leave-Queues : Queues (update pl current gone) k
  leave-Queues = record {
    in_line = λ u h. ground (arith, i.queues.in_line u, i.runs busy);
    once = i.queues.once;
    at_sems = λ s u h. ground (arith, i.queues.at_sems s u, current_not_at_sem i busy s);
    sems_once = i.queues.sems_once;
    at_locks = λ l u h. ground (arith, i.queues.at_locks l u, current_not_at_lock i busy l);
    locks_once = i.queues.locks_once;
    handed = i.queues.handed;
    holds = i.queues.holds;
    no_waiters = i.queues.no_waiters;
    strangers = λ u h. ground (arith, i.queues.strangers u h, i.runs busy);
  }

  pub wait-IsGood : (c : ℕ) → IsGood (wait c k)
  unfolding wait
  wait-IsGood c = sleep-IsGood (update pl current gone) k leave-Queues

  pub finish-IsGood : IsGood (finish k)
  unfolding finish
  finish-IsGood =
      let q = leave-Queues in
      sleep-IsGood (update pl current gone) (record k { to_be_destroyed = current })
        (record {
          in_line = q.in_line;
          once = q.once;
          at_sems = q.at_sems;
          sems_once = q.sems_once;
          at_locks = q.at_locks;
          locks_once = q.locks_once;
          handed = q.handed;
          holds = q.holds;
          no_waiters = q.no_waiters;
          strangers = q.strangers;
        })

  -- Yield takes the next thread off the ready list before it puts itself there.
  yielded-Queues :
      (t : ℕ) (rest : List ℕ)
      → k.ready ≡ t ∷ rest
      → Queues (update pl current in_ready) (ready_to_run (record k { ready = rest }) current)
  yielded-Queues t rest e =
      ready_to_run-Queues pl (record k { ready = rest }) current
        (dequeue-Queues pl k t rest e i.queues) (ground (arith, current_not_ready i busy))
        (current_not_at_sem i busy) (current_not_at_lock i busy)
        (λ l g. ground (arith, i.fresh busy)) (current_known i busy)

  yielded-Chosen :
      (t : ℕ) (rest : List ℕ)
      → k.ready ≡ t ∷ rest
      → Chosen (update pl current in_ready) (ready_to_run (record k { ready = rest }) current) t
  unfolding ready_to_run
  yielded-Chosen t rest e =
      let c = dequeue-Chosen pl k t rest e i.queues in
      record {
        place = ground (arith, c.place);
        out = ground (arith, c.place, c.out, i.runs busy, contains-snoc rest current t);
        owns = c.owns;
      }

  yield_to-IsGood : (rs : List ℕ) → k.ready ≡ rs → IsGood (yield_to k rs)
  unfolding yield_to
  yield_to-IsGood [] e = (pl, i)
  yield_to-IsGood (t ∷ rest) e =
      switch_to-IsGood (update pl current in_ready)
        (ready_to_run (record k { ready = rest }) current) t (yielded-Queues t rest e)
        (yielded-Chosen t rest e)

  pub yield-IsGood : IsGood (yield k)
  unfolding yield
  yield-IsGood = yield_to-IsGood k.ready refl
