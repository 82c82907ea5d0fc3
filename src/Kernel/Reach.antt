-- ===== src/Kernel/Reach.antt =====
-- The kernel as a transition system: the operations of the running thread and the interrupts, in
-- any order. What holds of every kernel that the initial one can reach.
use mathlib.Core.Path.{subst}
use sgptp.Prelude.{
  update, ℕ, ◌≡◌, refl, sym, ◌∙◌, Bool, true, false, some, [], arith, contains, ◌==◌, if◌then◌else◌,
  Bool-cases, inl, inr,
}
use sgptp.Prelude.Int.{pos}
use sgptp.Kernel.{
  nothing, Kernel, null, ready_to_run, p, v, acquire, release, wait, signal, broadcast, yield,
  finish, start_thread, interrupt,
}
use sgptp.Kernel.Invariant.{
  Place, running, in_ready, gone, Owns, Queues, Inv, IsGood, ready_to_run-Queues,
}
use sgptp.Kernel.Blocking.{p-IsGood, acquire-IsGood, wait-IsGood, finish-IsGood, yield-IsGood}
use sgptp.Kernel.Waking.{v-IsGood, interrupt-IsGood, signal-same, broadcast-same}
use sgptp.Kernel.Passing.{release-IsGood}

pub data Step (k : Kernel) : Kernel → Type 0 where
  do_p : (s : ℕ) → k.idle ≡ false → Step k (p s k)
  do_v : (s : ℕ) → k.idle ≡ false → Step k (v s k)
  do_acquire : (l : ℕ) → k.idle ≡ false → Step k (acquire l k)
  do_release : {k' : Kernel} (l : ℕ) → k.idle ≡ false → release l k ≡ some k' → Step k k'
  do_wait : (c : ℕ) → k.idle ≡ false → Step k (wait c k)
  do_signal : (c : ℕ) → k.idle ≡ false → Step k (signal c k)
  do_broadcast : (c : ℕ) → k.idle ≡ false → Step k (broadcast c k)
  do_yield : k.idle ≡ false → Step k (yield k)
  do_finish : k.idle ≡ false → Step k (finish k)
  do_start : {k' : Kernel} (t : ℕ) → k.idle ≡ false → start_thread t k ≡ some k' → Step k k'
  do_interrupt : (s : ℕ) → Step k (interrupt s k)

-- The kernel when thread `t` runs alone, with the initial values of the semaphores.
unfoldable pub boot : (ℕ → ℕ) → ℕ → Kernel
boot initial t = record {
  current = t;
  idle = false;
  ready = [];
  to_be_destroyed = null;
  pending = λ _. nothing;
  has_process = λ u. u == t;
  sems = λ s. record { value = pos (initial s); queue = [] };
  locks = λ _. record { free = true; owner = null; sleepqueue = [] };
  conds = λ _. record { waitqueue = [] };
  inside = λ _ _. false;
  passed = λ _. 0;
  waited = λ _. 0;
  posted = λ _. 0;
}

-- Any number of steps.
pub data Steps (k : Kernel) : Kernel → Type 0 where
  here : Steps k k
  later : {j j' : Kernel} → Steps k j → Step j j' → Steps k j'

abbrev pub Reach : (ℕ → ℕ) → ℕ → Kernel → Type 0
Reach initial t k = Steps (boot initial t) k

pub boot-IsGood : (initial : ℕ → ℕ) (t : ℕ) → IsGood (boot initial t)
unfolding boot
boot-IsGood initial t = (
  (λ u. if u == t then running else gone),
  record {
    queues = record {
      in_line = λ u h. cc;
      once = tt;
      at_sems = λ s u h. cc;
      sems_once = λ s. tt;
      at_locks = λ l u h. cc;
      locks_once = λ l. tt;
      handed = λ l u h g. cc;
      holds = λ l u h. cc;
      no_waiters = λ c. refl;
      strangers = λ u h. ground arith;
    };
    runs = λ h. ground arith;
    fresh = λ h. refl;
  },
)

-- A thread without a process is nowhere.
module _ (pl : ℕ → Place) (k : Kernel) (t : ℕ) (i : Inv pl k) (new : k.has_process t ≡ false) where
  begun : Kernel
  begun = record k { has_process = update k.has_process t true }

  begun-Queues : Queues pl begun
  unfolding begun
  begun-Queues = record {
    in_line = i.queues.in_line;
    once = i.queues.once;
    at_sems = i.queues.at_sems;
    sems_once = i.queues.sems_once;
    at_locks = i.queues.at_locks;
    locks_once = i.queues.locks_once;
    handed = i.queues.handed;
    holds = i.queues.holds;
    no_waiters = i.queues.no_waiters;
    strangers = λ u h. ground (arith, i.queues.strangers u);
  }

  nowhere : (b : Bool) → (b ≡ true → ⊥) → b ≡ false
  nowhere true h = absurd (h refl)
  nowhere false h = refl

  started-IsGood : IsGood (ready_to_run begun t)
  unfolding begun
  started-IsGood =
      let s = i.queues.strangers t new in
      (
        update pl t in_ready,
        record {
          queues =
              ready_to_run-Queues pl begun t begun-Queues
                (nowhere (contains k.ready t) (λ h. ground (arith, i.queues.in_line t h, s)))
                (λ n.
                  nowhere (contains (k.sems n).queue t)
                    (λ h. ground (arith, i.queues.at_sems n t h, s)))
                (λ n.
                  nowhere (contains (k.locks n).sleepqueue t)
                    (λ h. ground (arith, i.queues.at_locks n t h, s)))
                (λ l g. ground (arith, s)) (ground arith);
          runs = λ h. unfold ready_to_run in ground (arith, i.runs h, s);
          fresh = λ h. unfold ready_to_run in i.fresh h;
        },
      )

start_thread-IsGood :
    (pl : ℕ → Place) (k k' : Kernel) (t : ℕ) → Inv pl k → start_thread t k ≡ some k' → IsGood k'
unfolding start_thread begun
start_thread-IsGood pl k k' t i e = elim (Bool-cases (k.has_process t)) [
  | inl old ↦ absurd (ground arith)
  | inr new ↦
      let done : some (ready_to_run (begun pl k t i new) t) ≡ some k' = (rw new at e) in
      let same : ready_to_run (begun pl k t i new) t ≡ k' = cc done in
      subst IsGood same (started-IsGood pl k t i new)
]

-- Every step keeps the invariant.
pub Step-IsGood : {k k' : Kernel} → Step k k' → IsGood k → IsGood k'
Step-IsGood {k} (do_p s b) (pl, i) = p-IsGood pl k i b s
Step-IsGood {k} (do_v s b) (pl, i) = v-IsGood pl k s i
Step-IsGood {k} (do_acquire l b) (pl, i) = acquire-IsGood pl k i b l
Step-IsGood {k} {k'} (do_release l b e) (pl, i) = release-IsGood pl k k' l i b e
Step-IsGood {k} (do_wait c b) (pl, i) = wait-IsGood pl k i b c
Step-IsGood {k} (do_signal c b) (pl, i) = subst IsGood (sym (signal-same pl k c i.queues)) (pl, i)
Step-IsGood {k} (do_broadcast c b) (pl, i) =
    subst IsGood (sym (broadcast-same pl k c i.queues)) (pl, i)
Step-IsGood {k} (do_yield b) (pl, i) = yield-IsGood pl k i b
Step-IsGood {k} (do_finish b) (pl, i) = finish-IsGood pl k i b
Step-IsGood {k} {k'} (do_start t b e) (pl, i) = start_thread-IsGood pl k k' t i e
Step-IsGood {k} (do_interrupt s) (pl, i) = interrupt-IsGood pl k s i

pub Steps-IsGood : {k j : Kernel} → IsGood k → Steps k j → IsGood j
Steps-IsGood g here = g
Steps-IsGood g (later r st) = Step-IsGood st (Steps-IsGood g r)

pub Reach-IsGood : (initial : ℕ → ℕ) (m : ℕ) {k : Kernel} → Reach initial m k → IsGood k
Reach-IsGood initial t r = Steps-IsGood (boot-IsGood initial t) r

-- Mutual exclusion: in every reachable kernel at most one thread has returned from Acquire of a
-- lock and not yet called Release, and the lock is taken and names that thread as its owner.
pub lock_exclusion :
    (initial : ℕ → ℕ) (m : ℕ) {k : Kernel}
    → Reach initial m k
    → (l t u : ℕ) → k.inside l t ≡ true
    → k.inside l u ≡ true
    → (t ≡ u) × Owns k l t
lock_exclusion initial m r l t u ht hu =
    let (pl, i) = Reach-IsGood initial m r in
    (sym (i.queues.holds l t ht).1 ∙ (i.queues.holds l u hu).1, i.queues.holds l t ht)

-- In every reachable kernel the waitqueue of every condition is empty, so Signal and Broadcast
-- change nothing, whichever threads called Wait.
pub signal_wakes_nobody :
    (initial : ℕ → ℕ) (m : ℕ) {k : Kernel}
    → Reach initial m k
    → (c : ℕ) → ((k.conds c).waitqueue ≡ []) × (signal c k ≡ k) × (broadcast c k ≡ k)
signal_wakes_nobody initial m {k = k} r c =
    let (pl, i) = Reach-IsGood initial m r in
    (i.queues.no_waiters c, signal-same pl k c i.queues, broadcast-same pl k c i.queues)
