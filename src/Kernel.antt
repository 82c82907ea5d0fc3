-- ===== src/Kernel.antt =====
-- nachos/kernel: scheduler.cc, the parts of thread.cc that give up the processor, and synch.cc.
--
-- Every operation turns interrupts off for its whole length, so each is one step; between two
-- steps the timer may make the running thread yield, which is the operation `yield`. A call that
-- gives up the processor returns when its thread is dispatched again: what is left of it to do
-- then stands in `pending`. While no thread is ready, `Sleep` loops in `Interrupt::Idle`, which
-- is `idle`, and only an interrupt handler runs. Thread numbers stand for `Thread *`, with
-- NULL as 0; the `int` of a semaphore is an integer that does not wrap. The fields `inside`,
-- `passed`, `waited` and `posted` record history and are read by no operation: the locks whose Acquire
-- a thread has returned from and not released, how many P have returned, how many of these had slept,
-- and how many V were called. Left out are
-- the list `g_alive`, the number of threads of a process, and registers and stacks.
pub mod Invariant
pub mod Blocking
pub mod Waking
pub mod Passing
pub mod Reach
pub mod Absence
pub mod Conditions
pub mod Locks
pub mod Semaphores
pub mod Overtaking
mod Examples
use sgptp.Prelude.{
  update, not, ℕ, suc, Bool, true, false, not, Option, some, List, [], ◌∷◌, ◌++◌, ◌==◌,
  if◌then◌else◌, ◌>>◌, assert,
}
use sgptp.Prelude.Int.{ℤ, suc_ℤ, pred_ℤ, is_positive}

pub record Semaphore : Type 0 where
  pub value : ℤ
  pub queue : List ℕ

pub record Lock : Type 0 where
  pub free : Bool
  pub owner : ℕ
  pub sleepqueue : List ℕ

pub record Condition : Type 0 where
  pub waitqueue : List ℕ

-- What a thread has left to do when the call of Sleep or Yield that it stands in returns.
pub data Resume : Type 0 where
  nothing : Resume
  after_p : ℕ → Resume
  after_acquire : ℕ → Resume

pub record Kernel : Type 0 where
  pub current : ℕ
  pub idle : Bool
  pub ready : List ℕ
  pub to_be_destroyed : ℕ
  pub pending : ℕ → Resume
  pub has_process : ℕ → Bool
  pub sems : ℕ → Semaphore
  pub locks : ℕ → Lock
  pub conds : ℕ → Condition
  pub inside : ℕ → ℕ → Bool
  pub passed : ℕ → ℕ
  pub waited : ℕ → ℕ
  pub posted : ℕ → ℕ

abbrev pub null : ℕ
null = 0

-- Scheduler::ReadyToRun.
unfoldable pub ready_to_run : Kernel → ℕ → Kernel
ready_to_run k t = record k { ready = k.ready ++ t ∷ [] }

-- `value--` of Semaphore::P.
abbrev pub take_one : Kernel → ℕ → Kernel
take_one k s = record k {
  sems = update k.sems s (record (k.sems s) { value = pred_ℤ (k.sems s).value });
}

-- History: a P returns at once; and, of a thread that is dispatched with `r` left to do, whether a P
-- returns that has slept.
abbrev pub p_returns : Kernel → ℕ → Kernel
p_returns k s = record k { passed = update k.passed s (suc (k.passed s)) }

abbrev pub count_return : (ℕ → ℕ) → Resume → ℕ → ℕ
count_return count nothing = count
count_return count (after_p s) = update count s (suc (count s))
count_return count (after_acquire l) = count

abbrev pub note_return : Kernel → Resume → Kernel
note_return k r = record k { passed = count_return k.passed r; waited = count_return k.waited r }

-- The dispatched thread goes on behind its call of Sleep or Yield.
unfoldable pub resume : Kernel → ℕ → Resume → Kernel
resume k t nothing = k
resume k t (after_p s) = record (take_one k s) { pending = update k.pending t nothing }
resume k t (after_acquire l) = record k {
  pending = update k.pending t nothing;
  inside = update k.inside l (update (k.inside l) t true);
}

-- Scheduler::SwitchTo, up to the point where the new thread leaves its own call of it. The thread
-- that finished is deleted there.
unfoldable pub switch_to : Kernel → ℕ → Kernel
unfolding resume
switch_to k t =
    resume
      (record (note_return k (k.pending t)) { current = t; idle = false; to_be_destroyed = null }) t
      (k.pending t)

-- Scheduler::FindNextToRun and what Thread::Sleep does with its result.
unfoldable pub sleep_on : Kernel → List ℕ → Kernel
unfolding switch_to
sleep_on k [] = record k { idle = true }
sleep_on k (t ∷ rest) = switch_to (record k { ready = rest }) t

unfoldable pub sleep : Kernel → Kernel
unfolding sleep_on
sleep k = sleep_on k k.ready

-- Thread::Yield.
unfoldable pub yield_to : Kernel → List ℕ → Kernel
unfolding switch_to ready_to_run
yield_to k [] = k
yield_to k (t ∷ rest) = switch_to (ready_to_run (record k { ready = rest }) k.current) t

unfoldable pub yield : Kernel → Kernel
unfolding yield_to
yield k = yield_to k k.ready

abbrev pub set_pending : Kernel → Resume → Kernel
set_pending k r = record k { pending = update k.pending k.current r }

-- Semaphore::P.
unfoldable pub p : ℕ → Kernel → Kernel
unfolding sleep
p s k =
    if is_positive (k.sems s).value
    then p_returns (take_one k s) s
    else sleep (record (set_pending k (after_p s)) {
      sems = update k.sems s (record (k.sems s) { queue = (k.sems s).queue ++ k.current ∷ [] });
    })

-- Semaphore::V.
unfoldable pub wake_semaphore : Kernel → ℕ → List ℕ → Kernel
unfolding ready_to_run
wake_semaphore k s [] = k
wake_semaphore k s (t ∷ rest) =
    ready_to_run (record k { sems = update k.sems s (record (k.sems s) { queue = rest }) }) t

unfoldable pub v : ℕ → Kernel → Kernel
unfolding wake_semaphore
v s k =
    wake_semaphore
      (record k {
        sems = update k.sems s (record (k.sems s) { value = suc_ℤ (k.sems s).value });
        posted = update k.posted s (suc (k.posted s));
      })
      s (k.sems s).queue

-- Lock::Acquire.
unfoldable pub acquire : ℕ → Kernel → Kernel
unfolding sleep
acquire l k =
    if (k.locks l).free
    then record k {
      locks = update k.locks l (record (k.locks l) { owner = k.current; free = false });
      inside = update k.inside l (update (k.inside l) k.current true);
    }
    else sleep (record (set_pending k (after_acquire l)) {
      locks =
          update k.locks l
            (record (k.locks l) { sleepqueue = (k.locks l).sleepqueue ++ k.current ∷ [] });
    })

-- Lock::isHeldByCurrentThread.
unfoldable pub is_held_by_current_thread : Kernel → ℕ → Bool
is_held_by_current_thread k l = k.current == (k.locks l).owner

-- Lock::Release.
unfoldable pub hand_over : Kernel → ℕ → List ℕ → Kernel
unfolding ready_to_run
hand_over k l [] = record k {
  locks = update k.locks l (record (k.locks l) { free = true; owner = null });
}
hand_over k l (t ∷ rest) = record (ready_to_run k t) {
  locks = update k.locks l (record (k.locks l) { sleepqueue = rest; owner = t });
}

unfoldable pub release : ℕ → Kernel → Option Kernel
unfolding hand_over is_held_by_current_thread
release l k = do
  assert (is_held_by_current_thread k l)
  some (
      hand_over (record k { inside = update k.inside l (update (k.inside l) k.current false) }) l
        (k.locks l).sleepqueue)

-- Condition::Wait.
unfoldable pub wait : ℕ → Kernel → Kernel
unfolding sleep
wait c k = sleep k

-- Condition::Signal.
unfoldable pub signal_first : Kernel → ℕ → List ℕ → Kernel
unfolding ready_to_run
signal_first k c [] = k
signal_first k c (t ∷ rest) =
    ready_to_run (record k { conds = update k.conds c (record { waitqueue = rest }) }) t

unfoldable pub signal : ℕ → Kernel → Kernel
unfolding signal_first
signal c k = signal_first k c (k.conds c).waitqueue

-- Condition::Broadcast, whose loop ends with the queue.
unfoldable pub broadcast_all : Kernel → ℕ → List ℕ → Kernel
unfolding signal_first
broadcast_all k c [] = k
broadcast_all k c (t ∷ rest) = broadcast_all (signal_first k c (t ∷ rest)) c rest

unfoldable pub broadcast : ℕ → Kernel → Kernel
unfolding broadcast_all
broadcast c k = broadcast_all k c (k.conds c).waitqueue

-- Thread::Finish.
unfoldable pub finish : Kernel → Kernel
unfolding sleep
finish k = sleep (record k { to_be_destroyed = k.current })

-- Thread::Start, whose ASSERT is that the thread has no process yet.
unfoldable pub start_thread : ℕ → Kernel → Option Kernel
unfolding ready_to_run
start_thread t k = do
  assert (not (k.has_process t))
  some (ready_to_run (record k { has_process = update k.has_process t true }) t)

-- An interrupt handler runs V, as DriverDisk::RequestDone does; afterwards an idle Sleep looks again
-- for a thread to run.
unfoldable pub interrupt : ℕ → Kernel → Kernel
unfolding v sleep
interrupt s k = if k.idle then sleep (v s k) else v s k
