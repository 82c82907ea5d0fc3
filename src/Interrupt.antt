-- ===== src/Interrupt.antt =====
-- nachos/machine/interrupt.h and interrupt.cc: the interrupts that are to occur, the simulated clock,
-- and the calls of the devices' handlers.
--
-- A PendingInterrupt is an object that the sorted list holds by its number. What a handler does to
-- its device, the interrupts that it schedules and whether it calls YieldOnReturn are the argument
-- `handle`; a handler runs with interrupts off and the clock stopped. The counters of the process
-- and of the machine that OneTick and CheckIfDue advance are fields; `Time` does not wrap.
pub mod Agenda
pub mod Rounds
pub mod Clock
pub mod Idle
mod Examples
use sgptp.Prelude.{
  ℕ, zero, suc, ◌+◌, ◌-◌, Bool, true, false, Option, none, some, List, [], ◌∷◌, ltb, if◌then◌else◌,
  ◌&&◌, ◌>>=◌, ◌>>◌, assert, update,
}
use sgptp.LinkedList.{Element, is_empty, sorted_remove, sorted_insert}

pub data IntStatus : Type 0 where
  interrupts_off : IntStatus
  interrupts_on : IntStatus

pub data IntType : Type 0 where
  timer_int : IntType
  disk_int : IntType
  console_write_int : IntType
  console_read_int : IntType
  acia_receive_int : IntType
  acia_send_int : IntType

pub data MachineStatus : Type 0 where
  idle_mode : MachineStatus
  system_mode : MachineStatus
  user_mode : MachineStatus

pub record PendingInterrupt : Type 0 where
  pub handler : ℕ
  pub arg : ℕ
  pub when : ℕ
  pub type : IntType

-- The arguments of a call of Schedule.
pub record Request : Type 0 where
  pub handler : ℕ
  pub arg : ℕ
  pub from_now : ℕ
  pub type : IntType

-- What a handler did.
pub record Effect (D : Type 0) : Type 0 where
  pub devices : D
  pub requests : List Request
  pub yields : Bool

pub record Machine (D : Type 0) : Type 0 where
  pub level : IntStatus
  pub pending : List Element
  pub in_handler : Bool
  pub yield_on_return : Bool
  pub objects : ℕ → PendingInterrupt
  pub next_object : ℕ
  pub status : MachineStatus
  pub total_ticks : ℕ
  pub idle_ticks : ℕ
  pub system_ticks : ℕ
  pub user_ticks : ℕ
  pub devices : D

abbrev pub is_off : IntStatus → Bool
is_off interrupts_off = true
is_off interrupts_on = false

abbrev pub is_on : IntStatus → Bool
is_on interrupts_off = false
is_on interrupts_on = true

abbrev pub is_timer : IntType → Bool
is_timer timer_int = true
is_timer _ = false

abbrev pub is_idle : MachineStatus → Bool
is_idle idle_mode = true
is_idle _ = false

module _ {D : Type 0} where
  -- `pending->SortedInsert(toOccur, when)` for the new object.
  abbrev pub scheduled : Request → Machine D → Machine D
  scheduled r m =
      let when = m.total_ticks + r.from_now in
      record m {
        objects =
            update m.objects m.next_object
              (record { handler = r.handler; arg = r.arg; when = when; type = r.type });
        next_object = m.next_object + 1;
        pending = sorted_insert m.pending m.next_object when;
      }

  unfoldable pub schedule : Request → Machine D → Option (Machine D)
  schedule r m = do assert (ltb 0 r.from_now); some (scheduled r m)

  unfoldable pub schedule_all : List Request → Machine D → Option (Machine D)
  unfolding schedule
  schedule_all [] m = some m
  schedule_all (r ∷ rs) m = do m' ← schedule r m; schedule_all rs m'

  -- The part of OneTick that counts cycles, by the status of the machine.
  unfoldable pub advance : MachineStatus → ℕ → Machine D → Machine D
  advance system_mode nbcycles m = record m {
    system_ticks = m.system_ticks + nbcycles;
    total_ticks = m.total_ticks + nbcycles;
  }
  advance _ nbcycles m = record m {
    user_ticks = m.user_ticks + nbcycles;
    total_ticks = m.total_ticks + nbcycles;
  }

module _ {D : Type 0} (handle : PendingInterrupt → ℕ → D → Effect D) where
  -- `inHandler = true; ...; (*(toOccur->handler))(toOccur->arg); ...; inHandler = false`.
  unfoldable pub run_handler : Element → Machine D → Option (Bool × Machine D)
  unfolding schedule_all
  run_handler e m = do
    let effect = handle (m.objects e.item) m.total_ticks m.devices
    after ← schedule_all effect.requests (record m {
      in_handler = true;
      status = system_mode;
      devices = effect.devices;
      yield_on_return = if effect.yields then true else m.yield_on_return;
    })
    some (true, record after { status = m.status; in_handler = false })

  -- CheckIfDue once the interrupt is off the list and due. A timer alone on an idle machine is put
  -- back.
  unfoldable pub fire : Element → Machine D → Option (Bool × Machine D)
  unfolding run_handler
  fire e m =
      if (is_idle m.status && is_timer (m.objects e.item).type) && is_empty m.pending
      then some (false, record m { pending = sorted_insert m.pending e.item e.key })
      else run_handler e m

  unfoldable pub check_removed :
      Bool → Option Element × List Element → Machine D → Option (Bool × Machine D)
  unfolding fire
  check_removed advance_clock (none, rest) m = some (false, m)
  check_removed advance_clock (some e, rest) m =
      if ltb m.total_ticks e.key
      then (if advance_clock
          then fire e (record m {
            pending = rest;
            idle_ticks = m.idle_ticks + (e.key - m.total_ticks);
            total_ticks = e.key;
          })
          else some (false, record m { pending = sorted_insert rest e.item e.key }))
      else fire e (record m { pending = rest })

  unfoldable pub check_if_due : Bool → Machine D → Option (Bool × Machine D)
  unfolding check_removed
  check_if_due advance_clock m = do
    assert (is_off m.level)
    check_removed advance_clock (sorted_remove m.pending) m

  -- `while (CheckIfDue(false));`, on fuel.
  unfoldable pub fire_all : ℕ → Machine D → Option (Machine D)
  unfolding check_if_due
  fire_all zero m = none
  fire_all (suc fuel) m = do
    (fired, m') ← check_if_due false m
    let rest = fire_all fuel m'
    if fired then rest else some m'

  -- OneTick, with whether it ends in a Yield of the running thread.
  unfoldable pub one_tick : ℕ → ℕ → Machine D → Option (Bool × Machine D)
  unfolding fire_all advance
  one_tick fuel nbcycles m = do
    assert (is_on m.level)
    m' ← fire_all fuel (record (advance m.status nbcycles m) { level = interrupts_off })
    some (m'.yield_on_return, record m' { level = interrupts_on; yield_on_return = false })

  -- Idle, with whether it ends in Halt.
  unfoldable pub idle : ℕ → Machine D → Option (Bool × Machine D)
  unfolding fire_all check_if_due
  idle fuel m = do
    (fired, m') ← check_if_due true (record m { status = idle_mode })
    let woken =
        (fire_all fuel m' >>= λ m''.
        some (false, record m'' { yield_on_return = false; status = system_mode }))
    if fired then woken else some (true, m')
