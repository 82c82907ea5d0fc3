-- ===== src/Interrupt/Agenda.antt =====
-- The list of pending interrupts as an agenda: how many are due, and what scheduling adds.
use sgptp.Prelude.{
  ◌⊎◌, inl, inr, if_rule, ℕ, suc, ◌+◌, ◌≤◌, ◌<◌, ◌≡◌, refl, ◌∙◌, some, List, [], ◌∷◌, ltb,
  if◌then◌else◌, All, arith, length, lt→ltb,
}
use sgptp.LinkedList.{Element, element, sorted_insert}
use sgptp.LinkedList.Sorted.{IsSorted, sorted_insert-IsSorted}
use sgptp.Interrupt.{Machine, Request, scheduled, schedule, schedule_all}

-- The number of interrupts due at time `now`.
unfoldable pub due_count : ℕ → List Element → ℕ
due_count now [] = 0
due_count now (e ∷ l) = let rest = due_count now l in if ltb now e.key then rest else suc rest

-- The interrupts due at time `now`, in the order of the agenda.
unfoldable pub due_list : ℕ → List Element → List Element
due_list now [] = []
due_list now (e ∷ l) = let rest = due_list now l in if ltb now e.key then rest else e ∷ rest

-- Every interrupt of the agenda is an object that was made.
abbrev pub IsAllocated : {D : Type 0} → Machine D → Type 0
IsAllocated m = All (λ e. e.item < m.next_object) m.pending

-- All interrupts are in the future of `now`.
abbrev pub IsFuture : ℕ → List Element → Type 0
IsFuture now l = All (λ e. now < e.key) l

pub due_count_le : (now : ℕ) (l : List Element) → due_count now l ≤ length l
unfolding due_count
due_count_le now [] = omega arith
due_count_le now (e ∷ l) = ground (arith, due_count_le now l)

pub due_count-IsFuture : (now : ℕ) (l : List Element) → IsFuture now l → due_count now l ≡ 0
unfolding due_count
due_count-IsFuture now [] h = refl
due_count-IsFuture now (e ∷ l) h = ground (arith, due_count-IsFuture now l h.1, h.0)

pub IsFuture-due_count : (now : ℕ) (l : List Element) → due_count now l ≡ 0 → IsFuture now l
unfolding due_count
IsFuture-due_count now [] h = tt
IsFuture-due_count now (e ∷ l) h = (ground (arith, h), IsFuture-due_count now l (ground (arith, h)))

-- A new interrupt in the future is not due.
pub due_count-sorted_insert :
    (now : ℕ) (l : List Element) (item k : ℕ)
    → now < k
    → due_count now (sorted_insert l item k) ≡ due_count now l
unfolding due_count sorted_insert
due_count-sorted_insert now [] item k h = ground arith
due_count-sorted_insert now (e ∷ l) item k h =
    ground (arith, due_count-sorted_insert now l item k h)

pub due_list-sorted_insert :
    (now : ℕ) (l : List Element) (item k : ℕ)
    → now < k
    → due_list now (sorted_insert l item k) ≡ due_list now l
unfolding due_list sorted_insert
due_list-sorted_insert now [] item k h = ground arith
due_list-sorted_insert now (e ∷ l) item k h = ground (arith, due_list-sorted_insert now l item k h)

pub due_list-IsFuture : (now : ℕ) (l : List Element) → IsFuture now l → due_list now l ≡ []
unfolding due_list
due_list-IsFuture now [] h = refl
due_list-IsFuture now (e ∷ l) h = ground (arith, due_list-IsFuture now l h.1, h.0)

pub due_list-All :
    (P : Element → Type 0) (now : ℕ) (l : List Element) → All P l → All P (due_list now l)
unfolding due_list
due_list-All P now [] h = tt
due_list-All P now (e ∷ l) h =
    if_rule (All P) (ltb now e.key) (λ later. due_list-All P now l h.1)
      (λ due. (h.0, due_list-All P now l h.1))

pub sorted_insert-All :
    (P : Element → Type 0) (l : List Element) (item k : ℕ)
    → P (element item k)
    → All P l
    → All P (sorted_insert l item k)
unfolding sorted_insert
sorted_insert-All P [] item k new h = (new, tt)
sorted_insert-All P (f ∷ l) item k new h =
    if_rule (All P) (ltb k f.key) (λ front. (new, h))
      (λ later. (h.0, sorted_insert-All P l item k new h.1))

All-below :
    (l : List Element) (n n' : ℕ) → n ≤ n' → All (λ e. e.item < n) l → All (λ e. e.item < n') l
All-below [] n n' le h = tt
All-below (e ∷ l) n n' le h = (omega (arith, h.0), All-below l n n' le h.1)

-- The interrupt is on the agenda.
abbrev pub Holds : Element → List Element → Type 0
Holds e [] = ⊥
Holds e (f ∷ l) = (e ≡ f) ⊎ Holds e l

pub Holds-sorted_insert :
    (l : List Element) (item k : ℕ) → Holds (element item k) (sorted_insert l item k)
unfolding sorted_insert
Holds-sorted_insert [] item k = inl refl
Holds-sorted_insert (f ∷ l) item k =
    if_rule (Holds (element item k)) (ltb k f.key) (λ h. inl refl)
      (λ h. inr (Holds-sorted_insert l item k))

pub Holds-sorted_insert_old :
    (l : List Element) (item k : ℕ) (e : Element) → Holds e l → Holds e (sorted_insert l item k)
unfolding sorted_insert
Holds-sorted_insert_old [] item k e h = elim h [ ]
Holds-sorted_insert_old (f ∷ l) item k e h =
    if_rule (Holds e) (ltb k f.key) (λ front. inr h)
      (λ later. elim h [
        | inl same ↦ inl same
        | inr further ↦ inr (Holds-sorted_insert_old l item k e further)
      ])

-- What running a handler's calls of Schedule leaves alone, and what it keeps.
pub record Scheduled {D : Type 0} (m m' : Machine D) : Type 0 where
  pub sorted : IsSorted m'.pending
  pub due : due_count m.total_ticks m'.pending ≡ due_count m.total_ticks m.pending
  pub kept : (e : Element) → Holds e m.pending → Holds e m'.pending
  pub ticks : m'.total_ticks ≡ m.total_ticks
  pub level : m'.level ≡ m.level
  pub status : m'.status ≡ m.status
  pub due_same : due_list m.total_ticks m'.pending ≡ due_list m.total_ticks m.pending
  pub made : m.next_object ≤ m'.next_object
  pub objects : (i : ℕ) → i < m.next_object → m'.objects i ≡ m.objects i
  pub allocated : IsAllocated m → IsAllocated m'

pub schedule_all-Scheduled :
    {D : Type 0} (rs : List Request) (m : Machine D)
    → IsSorted m.pending
    → All (λ r. 0 < r.from_now) rs
    → (m' : Machine D) × (schedule_all rs m ≡ some m')
      × Scheduled m m'
      × (m'.devices ≡ m.devices)
      × (m'.yield_on_return ≡ m.yield_on_return)
unfolding schedule_all schedule
schedule_all-Scheduled [] m s h = (
  m,
  refl,
  record {
    sorted = s;
    due = refl;
    kept = λ e h. h;
    ticks = refl;
    level = refl;
    status = refl;
    due_same = refl;
    made = omega arith;
    objects = λ i h. refl;
    allocated = λ h. h;
  },
  refl,
  refl,
)
schedule_all-Scheduled (r ∷ rs) m s h =
    let when = m.total_ticks + r.from_now in
    let (m', done, o, same_devices, same_yield) =
      schedule_all-Scheduled rs (scheduled r m)
        (sorted_insert-IsSorted m.pending m.next_object when s) h.1 in
    (
      m',
      rw (lt→ltb 0 r.from_now h.0) done,
      record {
        sorted = o.sorted;
        due =
            o.due
            ∙ due_count-sorted_insert m.total_ticks m.pending m.next_object when
                (omega (arith, h.0));
        kept = λ e h. o.kept e (Holds-sorted_insert_old m.pending m.next_object when e h);
        ticks = o.ticks;
        level = o.level;
        status = o.status;
        due_same =
            o.due_same
            ∙ due_list-sorted_insert m.total_ticks m.pending m.next_object when
                (omega (arith, h.0));
        made = omega (arith, o.made);
        objects = λ i old. o.objects i (omega arith) ∙ ground (arith, old);
        allocated = λ a. o.allocated (
            sorted_insert-All _ m.pending m.next_object when (omega arith)
              (All-below m.pending m.next_object (m.next_object + 1) (omega arith) a));
      },
      same_devices,
      same_yield,
    )
