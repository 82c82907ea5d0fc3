-- ===== src/Interrupt/Clock.antt =====
-- OneTick and the loop over CheckIfDue.
use sgptp.Prelude.{
  ℕ, zero, suc, ◌+◌, ◌<◌, ◌≡◌, refl, sym, ◌∙◌, ap, Bool, true, false, some, List, [], ◌∷◌, All,
  if◌then◌else◌, arith, length, inl, inr, ◌>>◌, ◌>>=◌, assert,
}
use mathlib.Core.Path.{subst}
use sgptp.LinkedList.{Element}
use sgptp.LinkedList.Sorted.{IsSorted}
use sgptp.Interrupt.{
  Machine, Effect, PendingInterrupt, interrupts_on, interrupts_off, MachineStatus, idle_mode,
  system_mode, user_mode, is_on, is_idle, fire_all, advance, one_tick,
}
use sgptp.Interrupt.Agenda.{
  Holds, due_count, due_count_le, IsFuture, IsFuture-due_count, due_list, due_list-IsFuture,
  due_list-All, IsAllocated,
}
use sgptp.Interrupt.Rounds.{IsPositive, IsRunning, Drained, head_due, fire_due, rest_round}

-- Counting cycles moves the clock alone.
advance_lem :
    {D : Type 0} (st : MachineStatus) (n : ℕ) (m : Machine D)
    → ((advance st n m).status ≡ m.status)
      × ((advance st n m).pending ≡ m.pending)
      × ((advance st n m).total_ticks ≡ m.total_ticks + n)
      × ((advance st n m).objects ≡ m.objects)
      × ((advance st n m).next_object ≡ m.next_object)
      × ((advance st n m).devices ≡ m.devices)
      × ((advance st n m).yield_on_return ≡ m.yield_on_return)
unfolding advance
advance_lem idle_mode n m = (refl, refl, refl, refl, refl, refl, refl)
advance_lem system_mode n m = (refl, refl, refl, refl, refl, refl, refl)
advance_lem user_mode n m = (refl, refl, refl, refl, refl, refl, refl)

module _ {D : Type 0} (handle : PendingInterrupt → ℕ → D → Effect D)
    (positive : IsPositive handle) where
  -- The handlers of a list of interrupts, called one after the other at the same time: the devices after
  -- them, and whether the running thread is to yield.
  unfoldable pub run_all : (ℕ → PendingInterrupt) → ℕ → List Element → D × Bool → D × Bool
  run_all objects now [] d = d
  run_all objects now (e ∷ l) d =
      let effect = handle (objects e.item) now d.0 in
      run_all objects now l (effect.devices, if effect.yields then true else d.1)

  run_all_congr :
      (objects objects' : ℕ → PendingInterrupt) (now n : ℕ) (l : List Element) (d : D × Bool)
      → All (λ e. e.item < n) l
      → ((i : ℕ) → i < n → objects' i ≡ objects i)
      → run_all objects' now l d ≡ run_all objects now l d
  unfolding run_all
  run_all_congr objects objects' now n [] d below same = refl
  run_all_congr objects objects' now n (e ∷ l) d below same =
      rw (same e.item below.0) (run_all_congr objects objects' now n l _ below.1 same)

  -- The handlers of the rest, after that of the first.
  next_round :
      (objects objects' : ℕ → PendingInterrupt) (now now' n : ℕ) (e : Element)
      (l l' all : List Element) (d d' : D) (y y' : Bool)
      → now' ≡ now
      → l' ≡ l
      → all ≡ e ∷ l
      → All (λ f. f.item < n) l
      → ((i : ℕ) → i < n → objects' i ≡ objects i)
      → d' ≡ (handle (objects e.item) now d).devices
      → y' ≡ (if (handle (objects e.item) now d).yields then true else y)
      → run_all objects' now' l' (d', y') ≡ run_all objects now all (d, y)
  unfolding run_all
  next_round objects objects' now now' n e l l' all d d' y y' same_now same_l first below same hd
        hy =
      rw (same_now, same_l, first, hd, hy) (run_all_congr objects objects' now n l _ below same)

  -- For handlers that schedule in the future only and a machine that runs a thread with interrupts
  -- off: the loop over CheckIfDue ends, with more fuel than interrupts are due. Afterwards none is
  -- due, the agenda is sorted and still holds every interrupt that was not due, and clock and status
  -- are as they were. If the interrupts of the agenda are objects that were made, the handlers of those
  -- that were due have been called, in the order of the agenda, and no other.
  pub fire_all-Drained :
      (fuel : ℕ) (m : Machine D)
      → IsRunning m
      → due_count m.total_ticks m.pending < fuel
      → (m' : Machine D) × (fire_all handle fuel m ≡ some m')
        × Drained m m'
        × (IsAllocated m
            → (m'.devices, m'.yield_on_return)
              ≡ run_all m.objects m.total_ticks
                  (due_list m.total_ticks m.pending)
                  (m.devices, m.yield_on_return))
  unfolding fire_all run_all
  fire_all-Drained zero m run enough = elim enough [ ]
  fire_all-Drained (suc fuel) m run enough = elim (head_due m.total_ticks m.pending run.sorted) [
    | inl none_due ↦
        let (m', r, d, same_devices, same_yield) = rest_round handle positive m run none_due in
        let later = IsFuture-due_count m.total_ticks m.pending none_due in
        (
          m',
          rw r refl,
          d,
          λ a. rw (same_devices, same_yield, due_list-IsFuture m.total_ticks m.pending later) refl,
        )
    | inr (e, rest, at, due) ↦
        let (m', r, run', less, ticks, status, kept, next, handled, objects, allocated) =
          fire_due handle positive e rest m run at due in
        let fewer : due_count m'.total_ticks m'.pending < fuel =
          subst (λ t. due_count t m'.pending < fuel) (sym ticks) (omega (arith, less, enough)) in
        let (m'', r', d, handlers) = fire_all-Drained fuel m' run' fewer in
        (
          m'',
          rw (r, r') refl,
          record {
            running = d.running;
            future = subst (λ t. IsFuture t m''.pending) ticks d.future;
            kept =
                λ f later h. d.kept f (subst (λ t. t < f.key) (sym ticks) later) (kept f later h);
            ticks = d.ticks ∙ ticks;
            status = d.status ∙ status;
            allocated = λ a. d.allocated (allocated a);
          },
          λ a.
              let all = due_list-All (λ f. f.item < m.next_object) m.total_ticks m.pending a in
              let rest = subst (λ l. All (λ f. f.item < m.next_object) l) next all in
              handlers (allocated a)
              ∙ next_round m.objects m'.objects m.total_ticks m'.total_ticks m.next_object e
                  (due_list m.total_ticks m'.pending) (due_list m'.total_ticks m'.pending)
                  (due_list m.total_ticks m.pending) m.devices m'.devices m.yield_on_return
                  m'.yield_on_return ticks (ap (λ t. due_list t m'.pending) ticks) next rest.1
                  objects handled.0 handled.1,
        )
  ]

  -- For handlers that schedule in the future only, interrupts on, a machine that is not idle and a
  -- sorted agenda of objects that were made: OneTick ends, with more fuel than the agenda is long. It
  -- moves the clock by its cycles and calls the handlers of the interrupts that are due then, and of no
  -- other, in the order of the agenda: the devices, and the yield at the end, are what these handlers
  -- make of them. It leaves interrupts on, no request to yield and a sorted agenda of objects that were
  -- made, which lies in the future and still holds every interrupt that was not due.
  pub one_tick-Ticked :
      (fuel nbcycles : ℕ) (m : Machine D)
      → m.level ≡ interrupts_on
      → is_idle m.status ≡ false
      → IsSorted m.pending
      → IsAllocated m
      → length m.pending < fuel
      → (yields : Bool) × (m' : Machine D) × (one_tick handle fuel nbcycles m ≡ some (yields, m'))
        × ((m'.devices, yields)
            ≡ run_all m.objects
                (m.total_ticks + nbcycles)
                (due_list (m.total_ticks + nbcycles) m.pending)
                (m.devices, m.yield_on_return))
        × (m'.level ≡ interrupts_on)
        × (m'.yield_on_return ≡ false)
        × (m'.total_ticks ≡ m.total_ticks + nbcycles)
        × (m'.status ≡ m.status)
        × IsSorted m'.pending
        × IsAllocated m'
        × IsFuture m'.total_ticks m'.pending
        × ((f : Element)
            → m.total_ticks + nbcycles < f.key
            → Holds f m.pending
            → Holds f m'.pending)
  unfolding one_tick
  one_tick-Ticked fuel n m on busy sorted made enough =
      let (same, pend, ticks, objs, next, devs, yld) = advance_lem m.status n m in
      let start = record (advance m.status n m) { level = interrupts_off } in
      let (m', r, d, handlers) =
        fire_all-Drained fuel start
          (record {
            sorted = subst IsSorted (sym pend) sorted;
            off = refl;
            busy = ap is_idle same ∙ busy;
          })
          (subst (λ l. due_count start.total_ticks l < fuel) (sym pend)
            (omega (arith, due_count_le start.total_ticks m.pending, enough))) in
      (
        m'.yield_on_return,
        record m' { level = interrupts_on; yield_on_return = false },
        ap
              (λ lv.
                assert (is_on lv)
                >> (fire_all handle fuel start >>= λ k. some (
                  k.yield_on_return,
                  record k { level = interrupts_on; yield_on_return = false },
                )))
              on
            ∙ ap
                (λ o. o >>= λ k.
                  some (
                    k.yield_on_return,
                    record k { level = interrupts_on; yield_on_return = false },
                  ))
                r,
        handlers (rw (pend, next) made) ∙ rw (objs, pend, ticks, devs, yld) refl,
        refl,
        refl,
        d.ticks ∙ ticks,
        d.status ∙ same,
        d.running.sorted,
        d.allocated (rw (pend, next) made),
        subst (λ t. IsFuture t m'.pending) (sym d.ticks) d.future,
        λ f later h.
            d.kept f (subst (λ t. t < f.key) (sym ticks) later) (subst (Holds f) (sym pend) h),
      )
