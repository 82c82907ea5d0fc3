-- ===== src/Interrupt/Idle.antt =====
-- Idle: when the machine stops, and what it wakes up to.
use sgptp.Prelude.{
  ℕ, zero, suc, ◌+◌, ◌-◌, ◌≤◌, ◌<◌, ◌≡◌, refl, sym, ◌∙◌, ap, Bool, true, false, some, List, [], ◌∷◌,
  ltb, if◌then◌else◌, arith, length, Bool-cases, if_true, if_false, ◌⊎◌, inl, inr, ◌&&◌, ◌>>◌,
  assert,
}
use mathlib.Core.Path.{subst}
use sgptp.LinkedList.{Element, sorted_insert, sorted_remove, is_empty}
use sgptp.LinkedList.Sorted.{IsSorted}
use sgptp.Interrupt.{
  Machine, Effect, PendingInterrupt, interrupts_off, idle_mode, system_mode, is_off, is_idle,
  is_timer, fire, check_removed, check_if_due, fire_all, idle,
}
use sgptp.Interrupt.Agenda.{due_count, due_count_le}
use sgptp.Interrupt.Rounds.{IsPositive, first, run_handler-Scheduled, check_if_due_lem}

-- The test of `fire`: on an idle machine, the timer's interrupt with nothing else on the list.
abbrev pub is_last_timer : {D : Type 0} → Machine D → Element → List Element → Bool
is_last_timer m e rest = (is_idle m.status && is_timer (m.objects e.item).type) && is_empty rest

module _ {D : Type 0} (handle : PendingInterrupt → ℕ → D → Effect D)
    (positive : IsPositive handle) where
  -- The loop ends in every mode, the clock stopped.
  pub fire_all_ends :
      (fuel : ℕ) (m : Machine D)
      → m.level ≡ interrupts_off
      → IsSorted m.pending
      → due_count m.total_ticks m.pending < fuel
      → (m' : Machine D) × (fire_all handle fuel m ≡ some m') × (m'.total_ticks ≡ m.total_ticks)
  unfolding fire_all check_removed sorted_remove fire due_count
  fire_all_ends zero m off s enough = elim enough [ ]
  fire_all_ends (suc fuel) m off s enough = elim (first m.pending) [
    | inl nil ↦ (m, rw (check_if_due_lem handle positive m [] off nil) refl, refl)
    | inr (e, rest, at) ↦
        let step = check_if_due_lem handle positive m (e ∷ rest) off at in
        let left = record m { pending = rest } in
        elim (Bool-cases (ltb m.total_ticks e.key)) [
          | inl later ↦ (
            record m { pending = sorted_insert rest e.item e.key },
            rw (step ∙ if_true _ _ later) refl,
            refl,
          )
          | inr due ↦ elim (Bool-cases (is_last_timer left e rest)) [
            | inl last ↦ (
              record m { pending = sorted_insert rest e.item e.key },
              rw (step ∙ if_false _ _ due ∙ if_true _ _ last) refl,
              refl,
            )
            | inr fired ↦
                let (m', done, o, handled) =
                  run_handler-Scheduled handle positive e left (subst IsSorted at s).1 in
                let here = ap (due_count m.total_ticks) at ∙ if_false _ _ due in
                let fewer : due_count m'.total_ticks m'.pending < fuel =
                  subst (λ t. due_count t m'.pending < fuel) (sym o.ticks)
                    (omega (arith, o.due, here, enough)) in
                let (m'', r, ticks) = fire_all_ends fuel m' (o.level ∙ off) o.sorted fewer in
                (
                  m'',
                  rw (step ∙ if_false _ _ due ∙ if_false _ _ fired ∙ done, r) refl,
                  ticks ∙ o.ticks,
                )
          ]
        ]
  ]

  -- The idle machine without the head `e` of its agenda, at the time of `e` if that is to come.
  abbrev woken : Bool → Machine D → Element → List Element → Machine D
  woken true m e rest = record m {
    pending = rest;
    status = idle_mode;
    idle_ticks = m.idle_ticks + (e.key - m.total_ticks);
    total_ticks = e.key;
  }
  woken false m e rest = record m { pending = rest; status = idle_mode }

  woken_lem :
      (later : Bool) (m : Machine D) (e : Element) (rest : List Element)
      → ((woken later m e rest).total_ticks ≡ (if later then e.key else m.total_ticks))
        × ((woken later m e rest).pending ≡ rest)
        × ((woken later m e rest).level ≡ m.level)
        × ((woken later m e rest).status ≡ idle_mode)
        × ((woken later m e rest).objects ≡ m.objects)
  woken_lem true m e rest = (refl, refl, refl, refl, refl)
  woken_lem false m e rest = (refl, refl, refl, refl, refl)

  woken_test :
      (later : Bool) (m : Machine D) (e : Element) (rest : List Element)
      → is_last_timer (woken later m e rest) e (woken later m e rest).pending
        ≡ (is_timer (m.objects e.item).type && is_empty rest)
  woken_test true m e rest = refl
  woken_test false m e rest = refl

  either_way :
      (later : Bool) (m : Machine D) (e : Element) (rest : List Element)
      → (if later
          then fire handle e (woken true m e rest)
          else fire handle e (woken false m e rest))
        ≡ fire handle e (woken later m e rest)
  either_way true m e rest = refl
  either_way false m e rest = refl

  check_idle :
      (m : Machine D) (e : Element) (rest : List Element)
      → m.level ≡ interrupts_off
      → m.pending ≡ e ∷ rest
      → check_if_due handle true (record m { status = idle_mode })
        ≡ fire handle e (woken (ltb m.total_ticks e.key) m e rest)
  unfolding check_if_due check_removed sorted_remove
  check_idle m e rest off at =
      let resting = record m { status = idle_mode } in
      ap (λ lv. assert (is_off lv) >> check_removed handle true (sorted_remove m.pending) resting)
        off
      ∙ ap (λ p. check_removed handle true (sorted_remove p) resting) at
      ∙ either_way (ltb m.total_ticks e.key) m e rest

  check_nothing :
      (m : Machine D)
      → m.level ≡ interrupts_off
      → m.pending ≡ []
      → check_if_due handle true (record m { status = idle_mode })
        ≡ some (false, record m { status = idle_mode })
  unfolding check_if_due check_removed sorted_remove
  check_nothing m off nil =
      let resting = record m { status = idle_mode } in
      ap (λ lv. assert (is_off lv) >> check_removed handle true (sorted_remove m.pending) resting)
        off
      ∙ ap (λ p. check_removed handle true (sorted_remove p) resting) nil

  only_timer :
      (m : Machine D) (e : Element) (rest : List Element)
      → m.pending ≡ e ∷ rest
      → (is_timer (m.objects e.item).type && is_empty rest) ≡ true
      → (f : Element) × (m.pending ≡ f ∷ []) × (is_timer (m.objects f.item).type ≡ true)
  unfolding is_empty
  only_timer m e [] at last = (e, at, ground (arith, last))
  only_timer m e (f ∷ rest) at last = ground (arith, last)

  -- For handlers that schedule in the future only, interrupts off and a sorted agenda, with more fuel
  -- than the agenda is long: Idle ends in Halt exactly when nothing is pending, or nothing but an
  -- interrupt of the timer. Otherwise it returns in system mode without a request to yield, its clock at the time of the
  -- first pending interrupt, or where it was if that time is past.
  pub idle-Woken :
      (fuel : ℕ) (m : Machine D)
      → m.level ≡ interrupts_off
      → IsSorted m.pending
      → length m.pending < fuel
      → (((m.pending ≡ [])
            ⊎ ((e : Element) × (m.pending ≡ e ∷ []) × (is_timer (m.objects e.item).type ≡ true)))
          × (m' : Machine D) × (idle handle fuel m ≡ some (true, m')))
        ⊎ ((e : Element) × (rest : List Element) × (m.pending ≡ e ∷ rest)
            × ((is_timer (m.objects e.item).type && is_empty rest) ≡ false)
            × (m' : Machine D) × (idle handle fuel m ≡ some (false, m'))
            × (m'.status ≡ system_mode)
            × (m'.yield_on_return ≡ false)
            × (m'.total_ticks ≡ (if ltb m.total_ticks e.key then e.key else m.total_ticks)))
  unfolding idle fire
  idle-Woken fuel m off s enough = elim (first m.pending) [
    | inl nil ↦ inl (inl nil, record m { status = idle_mode }, rw (check_nothing m off nil) refl)
    | inr (e, rest, at) ↦
        let w = woken (ltb m.total_ticks e.key) m e rest in
        let (ticks, pend, lv, st, objs) = woken_lem (ltb m.total_ticks e.key) m e rest in
        let step = check_idle m e rest off at in
        let test = woken_test (ltb m.total_ticks e.key) m e rest in
        elim (Bool-cases (is_timer (m.objects e.item).type && is_empty rest)) [
          | inl last ↦ inl (
            inr (only_timer m e rest at last),
            record w { pending = sorted_insert w.pending e.item e.key },
            rw (step ∙ if_true _ _ (test ∙ last)) refl,
          )
          | inr more ↦
              let (m', done, o, handled) =
                run_handler-Scheduled handle positive e w
                  (subst IsSorted (sym pend) (subst IsSorted at s).1) in
              let few : due_count m'.total_ticks m'.pending ≤ length rest =
                subst (λ t. due_count t m'.pending ≤ length rest) (sym o.ticks)
                  (subst (λ n. n ≤ length rest) (sym (o.due ∙ ap (due_count w.total_ticks) pend))
                    (due_count_le w.total_ticks rest)) in
              let fewer : due_count m'.total_ticks m'.pending < fuel =
                omega (arith, few, enough, ap (λ (l : List Element). length l) at) in
              let (m'', r, still) = fire_all_ends fuel m' (o.level ∙ lv ∙ off) o.sorted fewer in
              inr (
                e,
                rest,
                at,
                more,
                record m'' { yield_on_return = false; status = system_mode },
                rw (step ∙ if_false _ _ (test ∙ more) ∙ done, r) refl,
                refl,
                refl,
                still ∙ o.ticks ∙ ticks,
              )
        ]
  ]
