-- ===== src/Interrupt/Rounds.antt =====
-- One round of the loop over CheckIfDue on a machine that runs a thread.
use sgptp.Prelude.{
  arith, ℕ, suc, ◌<◌, ◌≡◌, refl, sym, ◌∙◌, ap, true, false, some, List, [], ◌∷◌, ltb, if◌then◌else◌,
  All, lt→ltb, ltb→lt, Bool-cases, if_true, if_false, ◌⊎◌, inl, inr, ◌&&◌, ◌>>◌, assert,
}
use mathlib.Core.Path.{subst}
use sgptp.LinkedList.{Element, sorted_insert, sorted_remove, is_empty}
use sgptp.LinkedList.Sorted.{IsSorted, sorted_insert-IsSorted, All-lt_of_le}
use sgptp.Interrupt.{
  Machine, Effect, PendingInterrupt, interrupts_off, system_mode, is_off, is_idle, is_timer,
  run_handler, fire, check_removed, check_if_due,
}
use sgptp.Interrupt.Agenda.{
  Holds, Holds-sorted_insert, Holds-sorted_insert_old, due_count, IsFuture, due_count-IsFuture,
  IsFuture-due_count, due_count-sorted_insert, due_list, IsAllocated, sorted_insert-All, Scheduled,
  schedule_all-Scheduled,
}

-- Handlers schedule in the future only, as the ASSERT of Schedule demands.
abbrev pub IsPositive : {D : Type 0} → (PendingInterrupt → ℕ → D → Effect D) → Type 0
IsPositive {D} handle =
    (i : PendingInterrupt) (now : ℕ) (d : D) → All (λ r. 0 < r.from_now) (handle i now d).requests

-- A machine that runs a thread, interrupts off, its agenda in order.
pub record IsRunning {D : Type 0} (m : Machine D) : Type 0 where
  pub sorted : IsSorted m.pending
  pub off : m.level ≡ interrupts_off
  pub busy : is_idle m.status ≡ false

-- What the loop leaves: nothing due, the clock and the mode as they were.
pub record Drained {D : Type 0} (m m' : Machine D) : Type 0 where
  pub running : IsRunning m'
  pub future : IsFuture m.total_ticks m'.pending
  pub kept : (e : Element) → m.total_ticks < e.key → Holds e m.pending → Holds e m'.pending
  pub ticks : m'.total_ticks ≡ m.total_ticks
  pub status : m'.status ≡ m.status
  pub allocated : IsAllocated m → IsAllocated m'

pub first : (l : List Element) → (l ≡ []) ⊎ ((e : Element) × (rest : List Element) × (l ≡ e ∷ rest))
first [] = inl refl
first (e ∷ rest) = inr (e, rest, refl)

-- In a sorted agenda the head is due if anything is.
pub head_due :
    (now : ℕ) (l : List Element)
    → IsSorted l
    → (due_count now l ≡ 0)
      ⊎ ((e : Element) × (rest : List Element) × (l ≡ e ∷ rest) × (ltb now e.key ≡ false))
unfolding due_count
head_due now [] s = inl refl
head_due now (e ∷ rest) s = elim (Bool-cases (ltb now e.key)) [
  | inl later ↦ inl (
      due_count-IsFuture now (e ∷ rest)
        (ltb→lt now e.key later, All-lt_of_le now e.key rest (ltb→lt now e.key later) s.0))
  | inr due ↦ inr (e, rest, refl, due)
]

module _ {D : Type 0} (handle : PendingInterrupt → ℕ → D → Effect D)
    (positive : IsPositive handle) where
  -- What the handler of the interrupt did to its device, and to the wish to yield.
  abbrev pub Handled : Element → Machine D → Machine D → Type 0
  Handled e m m' =
      let effect = handle (m.objects e.item) m.total_ticks m.devices in
      (m'.devices ≡ effect.devices)
      × (m'.yield_on_return ≡ (if effect.yields then true else m.yield_on_return))

  -- A handler runs to its end and leaves what it found, its new interrupts in the future.
  pub run_handler-Scheduled :
      (e : Element) (m : Machine D)
      → IsSorted m.pending
      → (m' : Machine D) × (run_handler handle e m ≡ some (true, m'))
        × Scheduled m m'
        × Handled e m m'
  unfolding run_handler
  run_handler-Scheduled e m s =
      let effect = handle (m.objects e.item) m.total_ticks m.devices in
      let (after, done, o, same_devices, same_yield) =
        schedule_all-Scheduled effect.requests
          (record m {
            in_handler = true;
            status = system_mode;
            devices = effect.devices;
            yield_on_return = if effect.yields then true else m.yield_on_return;
          })
          s (positive (m.objects e.item) m.total_ticks m.devices) in
      (
        record after { status = m.status; in_handler = false },
        rw done refl,
        record {
          sorted = o.sorted;
          due = o.due;
          kept = o.kept;
          ticks = o.ticks;
          level = o.level;
          status = refl;
          due_same = o.due_same;
          made = o.made;
          objects = o.objects;
          allocated = o.allocated;
        },
        (same_devices, same_yield),
      )

  pub check_if_due_lem :
      (m : Machine D) (l : List Element)
      → m.level ≡ interrupts_off
      → m.pending ≡ l
      → check_if_due handle false m ≡ check_removed handle false (sorted_remove l) m
  unfolding check_if_due
  check_if_due_lem m l off at =
      ap (λ lv. assert (is_off lv) >> check_removed handle false (sorted_remove m.pending) m) off
      ∙ ap (λ p. check_removed handle false (sorted_remove p) m) at

  fire_lem :
      (e : Element) (m : Machine D)
      → is_idle m.status ≡ false
      → fire handle e m ≡ run_handler handle e m
  unfolding fire
  fire_lem e m busy =
      ap
        (λ b.
          if (b && is_timer (m.objects e.item).type) && is_empty m.pending
          then some (false, record m { pending = sorted_insert m.pending e.item e.key })
          else run_handler handle e m)
        busy

  -- One round with a due interrupt at the head of the agenda.
  pub fire_due :
      (e : Element) (rest : List Element) (m : Machine D)
      → IsRunning m
      → m.pending ≡ e ∷ rest
      → ltb m.total_ticks e.key ≡ false
      → (m' : Machine D) × (check_if_due handle false m ≡ some (true, m'))
        × IsRunning m'
        × (suc (due_count m.total_ticks m'.pending) ≡ due_count m.total_ticks m.pending)
        × (m'.total_ticks ≡ m.total_ticks)
        × (m'.status ≡ m.status)
        × ((f : Element) → m.total_ticks < f.key → Holds f m.pending → Holds f m'.pending)
        × (due_list m.total_ticks m.pending ≡ e ∷ due_list m.total_ticks m'.pending)
        × Handled e m m'
        × ((i : ℕ) → i < m.next_object → m'.objects i ≡ m.objects i)
        × (IsAllocated m → IsAllocated m')
  unfolding check_removed sorted_remove due_count due_list
  fire_due e rest m run at due =
      let left = record m { pending = rest } in
      let (m', done, o, handled) = run_handler-Scheduled e left (subst IsSorted at run.sorted).1 in
      (
        m',
        check_if_due_lem m (e ∷ rest) run.off at
            ∙ if_false _ _ due
            ∙ fire_lem e left run.busy
            ∙ done,
        record {
          sorted = o.sorted;
          off = o.level ∙ run.off;
          busy = ap is_idle o.status ∙ run.busy;
        },
        ap suc o.due ∙ sym (ap (due_count m.total_ticks) at ∙ if_false _ _ due),
        o.ticks,
        o.status,
        λ f later h. elim (subst (Holds f) at h) [
          | inl same ↦ absurd (ground (arith, later, due, ap (λ (x : Element). x.key) same))
          | inr further ↦ o.kept f further
        ],
        ap (due_list m.total_ticks) at ∙ if_false _ _ due ∙ ap (λ l. e ∷ l) (sym o.due_same),
        handled,
        o.objects,
        λ a. o.allocated (subst (λ l. All (λ f. f.item < m.next_object) l) at a).1,
      )

  -- A round with nothing due ends the loop.
  pub rest_round :
      (m : Machine D)
      → IsRunning m
      → due_count m.total_ticks m.pending ≡ 0
      → (m' : Machine D) × (check_if_due handle false m ≡ some (false, m'))
        × Drained m m'
        × (m'.devices ≡ m.devices)
        × (m'.yield_on_return ≡ m.yield_on_return)
  unfolding check_removed sorted_remove
  rest_round m run none_due = elim (first m.pending) [
    | inl nil ↦ (
      m,
      check_if_due_lem m [] run.off nil,
      record {
        running = run;
        future = IsFuture-due_count m.total_ticks m.pending none_due;
        kept = λ f _ h. h;
        ticks = refl;
        status = refl;
        allocated = λ a. a;
      },
      refl,
      refl,
    )
    | inr (e, rest, at) ↦
        let now = m.total_ticks in
        let later = IsFuture-due_count now (e ∷ rest) (sym (ap (due_count now) at) ∙ none_due) in
        let rest_due = due_count-IsFuture now rest later.1 in
        let back = sorted_insert rest e.item e.key in
        (
          record m { pending = back },
          check_if_due_lem m (e ∷ rest) run.off at ∙ if_true _ _ (lt→ltb now e.key later.0),
          record {
            running = record {
              sorted = sorted_insert-IsSorted rest e.item e.key (subst IsSorted at run.sorted).1;
              off = run.off;
              busy = run.busy;
            };
            future =
                IsFuture-due_count now back
                  (due_count-sorted_insert now rest e.item e.key later.0 ∙ rest_due);
            kept = λ f _ h. elim (subst (Holds f) at h) [
              | inl same ↦
                  subst (λ x. Holds x back) (sym same) (Holds-sorted_insert rest e.item e.key)
              | inr further ↦ Holds-sorted_insert_old rest e.item e.key f further
            ];
            ticks = refl;
            status = refl;
            allocated = λ a.
                let old = subst (λ l. All (λ f. f.item < m.next_object) l) at a in
                sorted_insert-All _ rest e.item e.key old.0 old.1;
          },
          refl,
          refl,
        )
  ]
