-- ===== src/Kernel/Passing.antt =====
-- Release, which passes a lock on to the first thread that waits for it, keeps the invariant.
use sgptp.Prelude.{
  update, ℕ, ◌≡◌, refl, ap, sym, ◌∙◌, inl, inr, true, false, some, List, [], ◌∷◌, ◌==◌, arith,
  Bool-cases, contains, Distinct, contains-snoc, Distinct-snoc, ==_iff,
}
use mathlib.Core.Path.{subst}
use sgptp.Kernel.{Lock, after_acquire, Kernel, ready_to_run, hand_over, release}
use sgptp.Kernel.Invariant.{Place, in_ready, at_lock, Owns, Queues, Inv, IsGood, update-cases}
use sgptp.Kernel.Blocking.{current_not_ready}

-- Release by the owner.
module _ (pl : ℕ → Place) (k : Kernel) (n : ℕ) (i : Inv pl k) (busy : k.idle ≡ false)
    (held : k.current ≡ (k.locks n).owner) where
  left : Kernel
  left = record k { inside = update k.inside n (update (k.inside n) k.current false) }

  -- Nobody but the running thread owns the lock.
  no_other : (u : ℕ) → Owns k n u → contains k.ready u ≡ true → ⊥
  no_other u o h =
      let same : u ≡ k.current = sym (held ∙ o.1) in
      ground (arith, current_not_ready i busy, same, ap (contains k.ready) same)

  freed : Kernel
  freed = record left { locks = update k.locks n (record (k.locks n) { free = true; owner = 0 }) }

  freed-Queues : (k.locks n).sleepqueue ≡ [] → Queues pl freed
  unfolding freed left
  freed-Queues e = record {
    in_line = i.queues.in_line;
    once = i.queues.once;
    at_sems = i.queues.at_sems;
    sems_once = i.queues.sems_once;
    at_locks = λ l u h. ground (arith, i.queues.at_locks l u);
    locks_once = λ l.
        update-cases (λ (x : Lock). Distinct x.sleepqueue) k.locks n _ l (i.queues.locks_once n)
          (i.queues.locks_once l);
    handed = λ l u h g. ground (arith, i.queues.handed l u h g, no_other u, held);
    holds = λ l u h. ground (arith, i.queues.holds l u, held);
    no_waiters = i.queues.no_waiters;
    strangers = i.queues.strangers;
  }

  given : ℕ → List ℕ → Kernel
  given t rest = record (ready_to_run left t) {
    locks = update k.locks n (record (k.locks n) { sleepqueue = rest; owner = t });
  }

  given-Queues :
      (t : ℕ) (rest : List ℕ)
      → (k.locks n).sleepqueue ≡ t ∷ rest
      → Queues (update pl t in_ready) (given t rest)
  unfolding given left ready_to_run
  given-Queues t rest e =
      let w : (pl t ≡ at_lock n) × (k.pending t ≡ after_acquire n) × ((k.locks n).free ≡ false) =
        i.queues.at_locks n t (rw e (ground arith)) in
      record {
        in_line = λ u h. ground (arith, i.queues.in_line u, contains-snoc k.ready t u);
        once = Distinct-snoc k.ready t i.queues.once (ground (arith, i.queues.in_line t));
        at_sems = λ s u h. ground (arith, i.queues.at_sems s u);
        sems_once = i.queues.sems_once;
        at_locks = λ l u h. ground (
          arith,
          i.queues.at_locks l u,
          i.queues.at_locks n u,
          (rw e at (i.queues.locks_once n)).0,
        );
        locks_once = λ l.
            update-cases (λ (x : Lock). Distinct x.sleepqueue) k.locks n _ l
              (rw e at (i.queues.locks_once n)).1 (i.queues.locks_once l);
        handed = λ l u h g.
            ground (arith, i.queues.handed l u, contains-snoc k.ready t u, no_other u, held);
        holds = λ l u h. ground (arith, i.queues.holds l u, held);
        no_waiters = i.queues.no_waiters;
        strangers = λ u h. ground (arith, i.queues.strangers u h, w);
      }

  hand_over-IsGood : (ts : List ℕ) → (k.locks n).sleepqueue ≡ ts → IsGood (hand_over left n ts)
  unfolding hand_over freed given left ready_to_run
  hand_over-IsGood [] e = (pl, record { queues = freed-Queues e; runs = i.runs; fresh = i.fresh })
  hand_over-IsGood (t ∷ rest) e =
      let w = i.queues.at_locks n t (rw e (ground arith)) in
      (
        update pl t in_ready,
        record {
          queues = given-Queues t rest e;
          runs = λ h. ground (arith, w, i.runs h);
          fresh = i.fresh;
        },
      )

pub release-IsGood :
    (pl : ℕ → Place) (k k' : Kernel) (l : ℕ)
    → Inv pl k
    → k.idle ≡ false
    → release l k ≡ some k'
    → IsGood k'
unfolding release left
release-IsGood pl k k' l i busy e = elim (Bool-cases (k.current == (k.locks l).owner)) [
  | inl held ↦
      let done : some (hand_over (left pl k l i busy (owner_of held)) l (k.locks l).sleepqueue)
          ≡ some k' =
        (rw held at e) in
      let same : hand_over (left pl k l i busy (owner_of held)) l (k.locks l).sleepqueue ≡ k' =
        cc done in
      subst IsGood same (hand_over-IsGood pl k l i busy (owner_of held) (k.locks l).sleepqueue refl)
  | inr other ↦ absurd (ground arith)
]
  where
    owner_of : (k.current == (k.locks l).owner) ≡ true → k.current ≡ (k.locks l).owner
    owner_of h = (==_iff _ _).0 h
