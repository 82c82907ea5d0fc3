-- ===== src/Kernel/Invariant.antt =====
-- Where each thread is: what holds of the kernel between two steps.
use sgptp.Prelude.{
  update, ℕ, ◌≡◌, refl, inl, inr, true, false, List, [], ◌∷◌, ◌==◌, arith, Bool-cases, contains,
  Distinct, contains-snoc, Distinct-snoc,
}
use sgptp.Kernel.{
  Semaphore, Resume, nothing, after_p, after_acquire, Kernel, ready_to_run, note_return, resume,
  switch_to, sleep_on, sleep,
}

pub data Place : Type 0 where
  running in_ready gone : Place
  at_sem at_lock : ℕ → Place

-- The owner of lock `l` is `t`.
abbrev pub Owns : Kernel → ℕ → ℕ → Type 0
Owns k l t = ((k.locks l).free ≡ false) × ((k.locks l).owner ≡ t)

-- Each queue holds the threads that `p` places there, each once, and they wait for what the queue
-- is for; a ready thread that comes back from Acquire owns the lock; so does a thread inside.
pub record Queues (p : ℕ → Place) (k : Kernel) : Type 0 where
  pub in_line : (t : ℕ) → contains k.ready t ≡ true → p t ≡ in_ready
  pub once : Distinct k.ready
  pub at_sems :
      (s t : ℕ) → contains (k.sems s).queue t ≡ true → (p t ≡ at_sem s) × (k.pending t ≡ after_p s)
  pub sems_once : (s : ℕ) → Distinct (k.sems s).queue
  pub at_locks :
      (l t : ℕ)
      → contains (k.locks l).sleepqueue t ≡ true
      → (p t ≡ at_lock l) × (k.pending t ≡ after_acquire l) × ((k.locks l).free ≡ false)
  pub locks_once : (l : ℕ) → Distinct (k.locks l).sleepqueue
  pub handed : (l t : ℕ) → contains k.ready t ≡ true → k.pending t ≡ after_acquire l → Owns k l t
  pub holds : (l t : ℕ) → k.inside l t ≡ true → Owns k l t
  pub no_waiters : (c : ℕ) → (k.conds c).waitqueue ≡ []
  pub strangers : (t : ℕ) → k.has_process t ≡ false → (p t ≡ gone) × (k.pending t ≡ nothing)

-- The running thread is in no queue, and has nothing left to do from a call before.
pub record Inv (p : ℕ → Place) (k : Kernel) : Type 0 where
  pub queues : Queues p k
  pub runs : k.idle ≡ false → p k.current ≡ running
  pub fresh : k.idle ≡ false → k.pending k.current ≡ nothing

-- A thread that has left the ready list and is in no other queue.
pub record Chosen (p : ℕ → Place) (k : Kernel) (t : ℕ) : Type 0 where
  pub place : p t ≡ in_ready
  pub out : contains k.ready t ≡ false
  pub owns : (l : ℕ) → k.pending t ≡ after_acquire l → Owns k l t

-- A property of the new value and of the old ones holds after an update.
pub update-cases {ℓ κ} :
    {A : Type ℓ} (P : A → Type κ) (f : ℕ → A) (i : ℕ) (a : A) (j : ℕ)
    → P a
    → P (f j)
    → P (update f i a j)
update-cases P f i a j new old = elim (Bool-cases (i == j)) [
  | inl here ↦ rw here new
  | inr there ↦ rw there old
]

module _ (p : ℕ → Place) (k : Kernel) (t : ℕ) (q : Queues p k) (c : Chosen p k t) where
  abbrev dispatched : Kernel
  dispatched = record (note_return k (k.pending t)) {
    current = t;
    idle = false;
    to_be_destroyed = 0;
  }

  resume-Queues :
      (r : Resume) → k.pending t ≡ r → Queues (update p t running) (resume dispatched t r)
  unfolding resume
  resume-Queues nothing e = record {
    in_line = λ u h. ground (arith, q.in_line u, c.out);
    once = q.once;
    at_sems = λ s u h. ground (arith, q.at_sems s u, c.place);
    sems_once = q.sems_once;
    at_locks = λ l u h. ground (arith, q.at_locks l u, c.place);
    locks_once = q.locks_once;
    handed = λ l u h g. ground (arith, q.handed l u);
    holds = λ l u h. ground (arith, q.holds l u);
    no_waiters = q.no_waiters;
    strangers = λ u h. ground (arith, q.strangers u h, c.place);
  }
  resume-Queues (after_p n) e = record {
    in_line = λ u h. ground (arith, q.in_line u, c.out);
    once = q.once;
    at_sems = λ s u h. ground (arith, q.at_sems s u, c.place);
    sems_once = λ s.
        update-cases (λ (x : Semaphore). Distinct x.queue) k.sems n _ s (q.sems_once n)
          (q.sems_once s);
    at_locks = λ l u h. ground (arith, q.at_locks l u, c.place);
    locks_once = q.locks_once;
    handed = λ l u h g. ground (arith, q.handed l u);
    holds = λ l u h. ground (arith, q.holds l u);
    no_waiters = q.no_waiters;
    strangers = λ u h. ground (arith, q.strangers u h, c.place);
  }
  resume-Queues (after_acquire n) e = record {
    in_line = λ u h. ground (arith, q.in_line u, c.out);
    once = q.once;
    at_sems = λ s u h. ground (arith, q.at_sems s u, c.place);
    sems_once = q.sems_once;
    at_locks = λ l u h. ground (arith, q.at_locks l u, c.place);
    locks_once = q.locks_once;
    handed = λ l u h g. ground (arith, q.handed l u);
    holds = λ l u h. ground (arith, q.holds l u, c.owns n e);
    no_waiters = q.no_waiters;
    strangers = λ u h. ground (arith, q.strangers u h, c.place);
  }

-- The invariant with the places that show it.
abbrev pub IsGood : Kernel → Type 0
IsGood k = (p : ℕ → Place) × Inv p k

pub switch_to-IsGood :
    (p : ℕ → Place) (k : Kernel) (t : ℕ) → Queues p k → Chosen p k t → IsGood (switch_to k t)
unfolding switch_to
switch_to-IsGood p k t q c = (
  update p t running,
  record {
    queues = resume-Queues p k t q c (k.pending t) refl;
    runs = λ _. resumed_runs (k.pending t);
    fresh = λ _. resumed_fresh (k.pending t) refl;
  },
)
  where
    now : Kernel
    now = record (note_return k (k.pending t)) { current = t; idle = false; to_be_destroyed = 0 }

    resumed_runs : (r : Resume) → update p t running (resume now t r).current ≡ running
    resumed_runs nothing = unfold resume in ground arith
    resumed_runs (after_p s) = unfold resume in ground arith
    resumed_runs (after_acquire l) = unfold resume in ground arith

    resumed_fresh :
        (r : Resume) → k.pending t ≡ r → (resume now t r).pending (resume now t r).current ≡ nothing
    resumed_fresh nothing e = unfold resume in e
    resumed_fresh (after_p s) e = unfold resume in ground arith
    resumed_fresh (after_acquire l) e = unfold resume in ground arith

-- The first thread of the ready list is taken off it.
module _ (p : ℕ → Place) (k : Kernel) (t : ℕ) (rest : List ℕ) (e : k.ready ≡ t ∷ rest)
    (q : Queues p k) where
  pub dequeue-Queues : Queues p (record k { ready = rest })
  dequeue-Queues = record {
    in_line = λ u h. ground (arith, q.in_line u);
    once = (rw e at q.once).1;
    at_sems = q.at_sems;
    sems_once = q.sems_once;
    at_locks = q.at_locks;
    locks_once = q.locks_once;
    handed = λ l u h g. ground (arith, q.handed l u);
    holds = q.holds;
    no_waiters = q.no_waiters;
    strangers = q.strangers;
  }

  pub dequeue-Chosen : Chosen p (record k { ready = rest }) t
  dequeue-Chosen = record {
    place = ground (arith, q.in_line t);
    out = (rw e at q.once).0;
    owns = λ l g. ground (arith, q.handed l t);
  }

sleep_on-IsGood :
    (p : ℕ → Place) (k : Kernel) (rs : List ℕ) → k.ready ≡ rs → Queues p k → IsGood (sleep_on k rs)
unfolding sleep_on
sleep_on-IsGood p k [] e q = (
  p,
  record {
    queues = record {
      in_line = q.in_line;
      once = q.once;
      at_sems = q.at_sems;
      sems_once = q.sems_once;
      at_locks = q.at_locks;
      locks_once = q.locks_once;
      handed = q.handed;
      holds = q.holds;
      no_waiters = q.no_waiters;
      strangers = q.strangers;
    };
    runs = λ h. cc;
    fresh = λ h. cc;
  },
)
sleep_on-IsGood p k (t ∷ rest) e q =
    switch_to-IsGood p (record k { ready = rest }) t (dequeue-Queues p k t rest e q)
      (dequeue-Chosen p k t rest e q)

-- However a thread goes to sleep, the next one is dispatched in good order.
pub sleep-IsGood : (p : ℕ → Place) (k : Kernel) → Queues p k → IsGood (sleep k)
unfolding sleep
sleep-IsGood p k q = sleep_on-IsGood p k k.ready refl q

-- A thread that is in no queue joins the ready list.
pub ready_to_run-Queues :
    (p : ℕ → Place) (k : Kernel) (t : ℕ)
    → Queues p k
    → contains k.ready t ≡ false
    → ((s : ℕ) → contains (k.sems s).queue t ≡ false)
    → ((l : ℕ) → contains (k.locks l).sleepqueue t ≡ false)
    → ((l : ℕ) → k.pending t ≡ after_acquire l → Owns k l t)
    → k.has_process t ≡ true
    → Queues (update p t in_ready) (ready_to_run k t)
unfolding ready_to_run
ready_to_run-Queues p k t q out no_sem no_lock owns known = record {
  in_line = λ u h. ground (arith, q.in_line u, contains-snoc k.ready t u);
  once = Distinct-snoc k.ready t q.once out;
  at_sems = λ s u h. ground (arith, q.at_sems s u, no_sem s);
  sems_once = q.sems_once;
  at_locks = λ l u h. ground (arith, q.at_locks l u, no_lock l);
  locks_once = q.locks_once;
  handed = λ l u h g. ground (arith, q.handed l u, contains-snoc k.ready t u, owns l);
  holds = q.holds;
  no_waiters = q.no_waiters;
  strangers = λ u h. ground (arith, q.strangers u h, known);
}
