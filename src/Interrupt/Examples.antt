-- ===== src/Interrupt/Examples.antt =====
-- A machine with a periodic timer and a disk request; the device state counts the handlers' calls.
use sgptp.Prelude.{
  ℕ, suc, ◌<◌, ◌≡◌, refl, Bool, true, false, some, [], ◌∷◌, if◌then◌else◌, ltb, arith, if_rule, All,
  update,
}
use sgptp.LinkedList.{Element, element, sorted_insert, sorted_remove}
use sgptp.LinkedList.Sorted.{IsSorted}
use sgptp.Interrupt.{
  Machine, Effect, PendingInterrupt, timer_int, disk_int, interrupts_on, interrupts_off, user_mode,
  system_mode, is_timer, one_tick,
}
use sgptp.Interrupt.Agenda.{Holds, IsFuture, due_list, IsAllocated}
use sgptp.Interrupt.Rounds.{IsPositive}
use sgptp.Interrupt.Clock.{run_all, one_tick-Ticked}

-- The timer schedules itself again and asks for a context switch; the disk is done.
abbrev count_calls : PendingInterrupt → ℕ → ℕ → Effect ℕ
count_calls i now calls =
    if is_timer i.type
    then record {
      devices = suc calls;
      requests = record { handler = 1; arg = 0; from_now = 100; type = timer_int } ∷ [];
      yields = true;
    }
    else record { devices = suc calls; requests = []; yields = false }

count_calls-IsPositive : IsPositive count_calls
count_calls-IsPositive i now calls =
    if_rule (λ (f : Effect ℕ). All (λ r. 0 < r.from_now) f.requests) (is_timer i.type)
      (λ h. (omega arith, tt)) (λ h. tt)

abbrev two_pending : Machine ℕ
two_pending = record {
  level = interrupts_on;
  pending = element 1 100 ∷ element 2 130 ∷ [];
  in_handler = false;
  yield_on_return = false;
  objects = λ n.
      if ltb n 2
      then record { handler = 1; arg = 0; when = 100; type = timer_int }
      else record { handler = 2; arg = 0; when = 130; type = disk_int };
  next_object = 3;
  status = user_mode;
  total_ticks = 99;
  idle_ticks = 0;
  system_ticks = 10;
  user_ticks = 89;
  devices = 0;
}

two_pending-IsSorted : IsSorted two_pending.pending
two_pending-IsSorted = ((omega arith, tt), (tt, tt))

-- The tick to 100 fires the timer alone.
one_tick_test :
    one_tick count_calls 3 1 two_pending
    ≡ some (
      true,
      record two_pending {
        pending = element 2 130 ∷ element 3 200 ∷ [];
        objects =
            update two_pending.objects 3
              (record { handler = 1; arg = 0; when = 200; type = timer_int });
        next_object = 4;
        total_ticks = 100;
        user_ticks = 90;
        devices = 1;
      },
    )
unfolding one_tick sorted_insert sorted_remove
one_tick_test = refl

one_tick-Ticked_example :
    (yields : Bool) × (m' : Machine ℕ) × (one_tick count_calls 3 1 two_pending ≡ some (yields, m'))
    × ((m'.devices, yields)
        ≡ run_all count_calls count_calls-IsPositive two_pending.objects 100
            (due_list 100 two_pending.pending)
            (0, false))
    × (m'.level ≡ interrupts_on)
    × (m'.yield_on_return ≡ false)
    × (m'.total_ticks ≡ 100)
    × (m'.status ≡ user_mode)
    × IsSorted m'.pending
    × IsAllocated m'
    × IsFuture m'.total_ticks m'.pending
    × ((f : Element) → 100 < f.key → Holds f two_pending.pending → Holds f m'.pending)
one_tick-Ticked_example =
    one_tick-Ticked count_calls count_calls-IsPositive 3 1 two_pending refl refl
      two_pending-IsSorted (omega arith, (omega arith, tt)) (omega arith)

abbrev stopped : Machine ℕ
stopped = record two_pending { level = interrupts_off; status = system_mode; total_ticks = 500 }

abbrev waiting : Machine ℕ
waiting = record two_pending { level = interrupts_off; status = system_mode }
