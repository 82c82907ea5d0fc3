-- ===== src/Kernel/Overtaking.antt =====
-- The code of P and V in a given state, and how a P can overtake one that waits.
use sgptp.Prelude.{update, ℕ, suc, ◌≡◌, refl, ap, ◌∙◌, true, false, List, [], ◌∷◌, ◌++◌, arith}
use sgptp.Prelude.Int.{pos, negsuc, suc_ℤ, is_positive}
use sgptp.Kernel.{
  Resume, nothing, after_p, Kernel, ready_to_run, resume, switch_to, yield_to, p, v, wake_semaphore,
  yield, take_one, p_returns, note_return,
}

-- P returns at once where there is a unit.
p_unit :
    (k : Kernel) (s : ℕ) → is_positive (k.sems s).value ≡ true → p s k ≡ p_returns (take_one k s) s
unfolding p
p_unit k s e = rw e

yield_next :
    (k : Kernel) (t : ℕ) (rest : List ℕ)
    → k.ready ≡ t ∷ rest
    → yield k ≡ switch_to (record k { ready = rest ++ k.current ∷ [] }) t
unfolding yield yield_to ready_to_run
yield_next k t rest e = ap (yield_to k) e

back_in_p :
    (k : Kernel) (s t : ℕ)
    → k.pending t ≡ after_p s
    → switch_to k t ≡ record (take_one (note_return k (after_p s)) s) {
      current = t;
      idle = false;
      to_be_destroyed = 0;
      pending = update k.pending t nothing;
    }
unfolding switch_to resume
back_in_p k s t e =
    ap
      (λ r.
        resume (record (note_return k r) { current = t; idle = false; to_be_destroyed = 0 }) t r)
      e

-- V in a kernel where a thread waits: one more unit, the longest waiting thread goes to the end of
-- the ready list, the others keep their order, and the running thread goes on.
pub v_wakes_first :
    (k : Kernel) (s t : ℕ) (rest : List ℕ)
    → (k.sems s).queue ≡ t ∷ rest
    → ((v s k).current ≡ k.current)
      × ((v s k).ready ≡ k.ready ++ t ∷ [])
      × ((v s k).pending ≡ k.pending)
      × ((v s k).posted s ≡ suc (k.posted s))
      × ((v s k).passed ≡ k.passed)
      × (((v s k).sems s).value ≡ suc_ℤ (k.sems s).value)
      × (((v s k).sems s).queue ≡ rest)
unfolding v wake_semaphore ready_to_run
v_wakes_first k s t rest first =
    rw first (refl, refl, refl, ground arith, refl, ground arith, ground arith)

-- What the running thread's P does to a kernel where the value of the semaphore is positive, and
-- what its Yield does afterwards when `t` is the only ready thread and comes back from a P.
module _ (k : Kernel) (s t : ℕ) (unit : (k.sems s).value ≡ pos 1) (next : k.ready ≡ t ∷ [])
    (back : k.pending t ≡ after_p s) where
  both_pass :
      let j = p s k in
      let k' = yield j in
      (j.current ≡ k.current)
      × (k'.current ≡ t)
      × (k'.posted ≡ k.posted)
      × (k'.passed s ≡ suc (suc (k.passed s)))
      × ((k'.sems s).value ≡ negsuc 0)
  both_pass =
      rw
        (
          p_unit k s (rw unit),
          yield_next (p_returns (take_one k s) s) t [] next,
          back_in_p (record (p_returns (take_one k s) s) { ready = k.current ∷ [] }) s t back,
        )
        (refl, refl, refl, ground arith, ground arith)

-- The defect of Semaphore::P: in a kernel where the value of semaphore `s` is 0, thread `t` is the
-- first that waits for it, and no thread is ready, let the running thread do V, P and then yield.
-- Its P returns at once, and `t` is dispatched and returns from its own P all the same: for one V
-- two P have gone through, and the value is -1.
pub p_overtakes :
    (k : Kernel) (s t : ℕ) (rest : List ℕ)
    → k.ready ≡ []
    → (k.sems s).value ≡ pos 0
    → (k.sems s).queue ≡ t ∷ rest
    → k.pending t ≡ after_p s
    → let j = p s (v s k) in
      let k' = yield j in
      (j.current ≡ k.current)
      × (k'.current ≡ t)
      × (k'.posted s ≡ suc (k.posted s))
      × (k'.passed s ≡ suc (suc (k.passed s)))
      × ((k'.sems s).value ≡ negsuc 0)
p_overtakes k s t rest alone empty first back =
    let (cur, rdy, pend, post, pass, val, _) = v_wakes_first k s t rest first in
    let (same, next, posts, passes, value) =
      both_pass (v s k) s t (val ∙ ap suc_ℤ empty) (rdy ∙ ap (λ (l : List ℕ). l ++ t ∷ []) alone)
        (ap (λ (f : ℕ → Resume). f t) pend ∙ back) in
    (
      same ∙ cur,
      next,
      ap (λ (f : ℕ → ℕ). f s) posts ∙ post,
      passes ∙ ap (λ (f : ℕ → ℕ). suc (suc (f s))) pass,
      value,
    )
