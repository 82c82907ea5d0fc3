-- ===== src/Kernel/Locks.antt =====
-- Lock::Release, branch by branch.
use sgptp.Prelude.{
  update, ℕ, ◌≡◌, ◌≢◌, refl, ◌⊎◌, inl, inr, true, false, none, some, List, [], ◌∷◌, ◌++◌, ◌==◌,
  arith, ==_iff, Bool-cases,
}
use sgptp.Kernel.{Kernel, null, ready_to_run, hand_over, release, is_held_by_current_thread}

-- The kernel after a release of lock `l`, by what stands in its queue: an empty queue frees the lock;
-- otherwise the first of the queue becomes the owner and ready, and the lock is not free in
-- between. The running thread goes on, and is no longer inside.
abbrev pub Passed : Kernel → ℕ → List ℕ → Kernel → Type 0
Passed k l [] j =
    ((j.locks l).free ≡ true)
    × ((j.locks l).owner ≡ null)
    × (j.ready ≡ k.ready)
    × (j.current ≡ k.current)
    × (j.inside l k.current ≡ false)
Passed k l (t ∷ rest) j =
    ((j.locks l).free ≡ (k.locks l).free)
    × ((j.locks l).owner ≡ t)
    × ((j.locks l).sleepqueue ≡ rest)
    × (j.ready ≡ k.ready ++ t ∷ [])
    × (j.current ≡ k.current)
    × (j.inside l k.current ≡ false)

hand_over-Passed :
    (k : Kernel) (l : ℕ) (ts : List ℕ)
    → Passed k l ts (
        hand_over
          (record k { inside = update k.inside l (update (k.inside l) k.current false) })
          l
          ts)
unfolding hand_over ready_to_run
hand_over-Passed k l [] = (ground arith, ground arith, refl, refl, ground arith)
hand_over-Passed k l (t ∷ rest) =
    (ground arith, ground arith, ground arith, refl, refl, ground arith)

-- Release aborts exactly when the running thread is not the owner; otherwise it passes the lock on,
-- as `Passed` says of the lock's queue.
pub release-Passed :
    (k : Kernel) (l : ℕ)
    → ((k.current ≢ (k.locks l).owner) × (release l k ≡ none))
      ⊎ ((k.current ≡ (k.locks l).owner)
          × (j : Kernel) × (release l k ≡ some j)
          × Passed k l (k.locks l).sleepqueue j)
unfolding release is_held_by_current_thread
release-Passed k l = elim (Bool-cases (k.current == (k.locks l).owner)) [
  | inl held ↦ inr (
    (==_iff _ _).0 held,
    hand_over (record k { inside = update k.inside l (update (k.inside l) k.current false) }) l
        (k.locks l).sleepqueue,
    rw held,
    hand_over-Passed k l (k.locks l).sleepqueue,
  )
  | inr other ↦ inl (ground arith, rw other)
]
