-- ===== src/PhysicalMem/Clock.antt =====
-- nachos/vm/physMem.cc: the rounds of the clock of EvictPage.
use native.Mathlib.Nat as Nat
use sgptp.Prelude.{
  ℕ, zero, suc, ◌+◌, ◌%◌, ◌<◌, ◌≡◌, ◌≢◌, refl, sym, ap, ◌∙◌, ◌⊎◌, inl, inr, true, false, none, some,
  get_elem?, get_elem?-set-some, get_elem?-set_ne, set, ltb, ◌==◌, update, >>=-eq-some, assert,
  assert-eq-some, arith, Bool-cases, if_true, if_false,
}
use sgptp.TranslationTable.{PageTableEntry, TranslationTable, entry, modify, get_bit_u, clear_bit_u}
use sgptp.PhysicalMem.{Tpr, PhysicalMem, find_victim}

-- Page p is held, not locked, by a virtual page that its owner's table has an entry for.
pub record IsMapped (m : PhysicalMem) (p : ℕ) : Type 0 where
  pub f : Tpr
  pub here : get_elem? m.tpr p ≡ some f
  pub unlocked : f.locked ≡ false
  pub owner : ℕ
  pub owned : f.owner ≡ some owner
  pub table : TranslationTable
  pub has_table : m.tables owner ≡ some table
  pub e : PageTableEntry
  pub mapped : entry table f.virtual_page ≡ some e

-- The table after clearBitU, and its entries.
unused : TranslationTable → ℕ → PageTableEntry → TranslationTable
unused t v e = record t { page_table = set t.page_table v (record e { u = false }) }

clear_bit_u_lem :
    (t : TranslationTable) (v : ℕ) (e : PageTableEntry)
    → entry t v ≡ some e
    → clear_bit_u t v ≡ some (unused t v e)
unfolding clear_bit_u modify unused
clear_bit_u_lem t v e h = rw h refl

entry_parts :
    (t : TranslationTable) (v : ℕ) (e : PageTableEntry)
    → entry t v ≡ some e
    → (ltb v t.max_num_pages ≡ true) × (get_elem? t.page_table v ≡ some e)
unfolding entry
entry_parts t v e h =
    let (u, inside, at) = >>=-eq-some (assert (ltb v t.max_num_pages)) _ h in
    (assert-eq-some (ltb v t.max_num_pages) inside, at)

-- The entry of v' after clearBitU of v.
entry-unused :
    (t : TranslationTable) (v v' : ℕ) (e e' : PageTableEntry)
    → entry t v ≡ some e
    → entry t v' ≡ some e'
    → (e2 : PageTableEntry) × (entry (unused t v e) v' ≡ some e2)
      × (((e'.u ≡ false) ⊎ (v ≡ v')) → e2.u ≡ false)
unfolding entry unused
entry-unused t v v' e e' h h' =
    let (inside, at) = entry_parts t v e h in
    let (inside', at') = entry_parts t v' e' h' in
    elim (Bool-cases (v == v')) [
      | inl same ↦
          let eq : v ≡ v' = ground arith in
          (
            record e { u = false },
            rw inside' (
                ap (get_elem? (set t.page_table v (record e { u = false }))) (sym eq)
                ∙ get_elem?-set-some t.page_table v (record e { u = false }) e at),
            λ q. refl,
          )
      | inr other ↦
          let ne : v ≢ v' = λ x. ground (arith, x) in
          (
            e',
            rw inside' (get_elem?-set_ne t.page_table v v' _ ne ∙ at'),
            λ q. elim q [ inl unset ↦ unset | inr x ↦ absurd (ne x) ],
          )
    ]

-- The state after the clock has passed page q.
passed : (m : PhysicalMem) (q : ℕ) → IsMapped m q → PhysicalMem
passed m q s = record m {
  tables = update m.tables s.owner (some (unused s.table s.f.virtual_page s.e));
}

value : {A : Type 0} {a b : A} → some a ≡ some b → a ≡ b
value {a = a} h = ap (λ o. (elim o [ none ↦ a | some x ↦ x ])) h

same_entry : (m : PhysicalMem) (q p : ℕ) (s : IsMapped m q) (r : IsMapped m p) → q ≡ p → s.f ≡ r.f
same_entry m q p s r at = value (sym s.here ∙ ap (get_elem? m.tpr) at ∙ r.here)

-- Passing q keeps every page p mapped and its U bit clear, and clears that of q.
passed-IsMapped :
    (m : PhysicalMem) (q p : ℕ) (s : IsMapped m q) (r : IsMapped m p)
    → (r' : IsMapped (passed m q s) p) × (((r.e.u ≡ false) ⊎ (q ≡ p)) → r'.e.u ≡ false)
unfolding passed
passed-IsMapped m q p s r = elim (Bool-cases (s.owner == r.owner)) [
  | inl same ↦
      let eq : s.owner ≡ r.owner = ground arith in
      let tables : s.table ≡ r.table = value (sym s.has_table ∙ ap m.tables eq ∙ r.has_table) in
      let (e, mapped, clear) =
        entry-unused s.table s.f.virtual_page r.f.virtual_page s.e r.e s.mapped
          (ap (λ t. entry t r.f.virtual_page) tables ∙ r.mapped) in
      (
        record {
          f = r.f;
          here = r.here;
          unlocked = r.unlocked;
          owner = r.owner;
          owned = r.owned;
          table = unused s.table s.f.virtual_page s.e;
          has_table = if_true _ _ same;
          e = e;
          mapped = mapped;
        },
        λ h. clear (elim h [
          | inl unset ↦ inl unset
          | inr at ↦ inr (ap (λ (f : Tpr). f.virtual_page) (same_entry m q p s r at))
        ]),
      )
  | inr other ↦ (
    record {
      f = r.f;
      here = r.here;
      unlocked = r.unlocked;
      owner = r.owner;
      owned = r.owned;
      table = r.table;
      has_table = if_false _ _ other ∙ r.has_table;
      e = r.e;
      mapped = r.mapped;
    },
    λ h. elim h [
      | inl unset ↦ unset
      | inr at ↦
          let owners : s.owner ≡ r.owner =
            value (sym s.owned ∙ ap (λ (f : Tpr). f.owner) (same_entry m q p s r at) ∙ r.owned) in
          absurd (ground (arith, owners, other))
    ],
  )
]

-- One turn of the search, at a mapped page.
module _ (num_pages : ℕ) (yield : ℕ → PhysicalMem → PhysicalMem) where
  stop :
      (fuel clock i : ℕ) (m : PhysicalMem) (s : IsMapped m clock)
      → s.e.u ≡ false
      → find_victim num_pages yield (suc fuel) clock i m ≡ some (clock, m)
  unfolding find_victim get_bit_u
  stop fuel clock i m s unset = rw (s.here, s.owned, s.has_table, s.mapped, unset, s.unlocked) refl

  pass :
      (fuel clock i : ℕ) (m : PhysicalMem) (s : IsMapped m clock)
      → s.e.u ≡ true
      → i < num_pages
      → find_victim num_pages yield (suc fuel) clock i m
        ≡ find_victim num_pages yield fuel ((clock + 1) % num_pages) (i + 1) (passed m clock s)
  unfolding find_victim get_bit_u passed unused
  pass fuel clock i m s set_ few =
      let no_yield : ltb num_pages (i + 1) ≡ false = ground arith in
      rw
        (
          s.here,
          s.owned,
          s.has_table,
          s.mapped,
          set_,
          clear_bit_u_lem s.table s.f.virtual_page s.e s.mapped,
          no_yield,
        )
        refl

  still :
      (s i clock : ℕ) (m : PhysicalMem)
      → 0 < num_pages
      → clock ≡ (s + i) % num_pages
      → (r : IsMapped m clock) → ((p : ℕ) → p < num_pages → IsMapped m p)
      → ((p d : ℕ) → d < i → p ≡ (s + d) % num_pages → (q : IsMapped m p) × (q.e.u ≡ false))
      → (p d : ℕ) → d < i + 1
      → p ≡ (s + d) % num_pages
      → (q : IsMapped (passed m clock r) p) × (q.e.u ≡ false)
  still s i clock m some_page at r all cleared p d d_lt p_at = elim (Bool-cases (ltb d i)) [
    | inl before ↦
        let (q, unset) = cleared p d (ground arith) p_at in
        let (q', clear) = passed-IsMapped m clock p r q in (q', clear (inl unset))
    | inr after ↦
        let last : i ≡ d = ground (arith, after, d_lt) in
        let same : clock ≡ p = at ∙ ap (λ x. (s + x) % num_pages) last ∙ sym p_at in
        let (q', clear) =
          passed-IsMapped m clock p r (all p (rw p_at (Nat.mod-lt (s + d) some_page))) in
        (q', clear (inr same))
  ]

  -- The pages that the clock has passed, i from page s on, have their U bit clear.
  search :
      (s k i clock : ℕ) (m : PhysicalMem)
      → s < num_pages
      → i + k ≡ num_pages
      → clock ≡ (s + i) % num_pages
      → ((p : ℕ) → p < num_pages → IsMapped m p)
      → ((p d : ℕ) → d < i → p ≡ (s + d) % num_pages → (r : IsMapped m p) × (r.e.u ≡ false))
      → (page : ℕ) × (m' : PhysicalMem) × (find_victim num_pages yield (suc k) clock i m
          ≡ some (page, m'))
        × page < num_pages
  search s zero i clock m inside full at all cleared =
      let round : i ≡ num_pages = omega arith in
      let same : s ≡ s + 0 = omega arith in
      let back : clock ≡ (s + 0) % num_pages =
        at
        ∙ ap (λ x. (s + x) % num_pages) round
        ∙ Nat.add-mod_right s num_pages
        ∙ ap (λ x. x % num_pages) same in
      let (r, unset) = cleared clock 0 (omega arith) back in
      (clock, m, stop 0 clock i m r unset, rw at (Nat.mod-lt (s + i) (omega arith)))
  search s (suc k) i clock m inside full at all cleared =
      let clock_lt : clock < num_pages = rw at (Nat.mod-lt (s + i) (omega arith)) in
      let r = all clock clock_lt in
      elim (Bool-cases r.e.u) [
        | inr unset ↦ (clock, m, stop (suc k) clock i m r unset, clock_lt)
        | inl used ↦
            let more : s + i + 1 ≡ s + (i + 1) = omega arith in
            let next : (clock + 1) % num_pages ≡ (s + (i + 1)) % num_pages =
              ap (λ x. (x + 1) % num_pages) at
              ∙ Nat.mod-add-mod (s + i) num_pages 1
              ∙ ap (λ x. x % num_pages) more in
            let (page, m', found, lt) =
              search s k (i + 1) ((clock + 1) % num_pages) (passed m clock r) inside (omega arith)
                next (λ p p_lt. (passed-IsMapped m clock p r (all p p_lt)).0)
                (λ p d d_lt p_at. still s i clock m (omega arith) at r all cleared p d d_lt p_at) in
            (page, m', pass (suc k) clock i m r used (omega arith) ∙ found, lt)
      ]

  -- If every physical page is mapped and none is locked, the search of EvictPage stops at a page of the
  -- memory after at most one turn more than there are pages, whatever the clock and the U bits are, and
  -- without Yield: the other threads, any function, do not count.
  pub find_victim-Found :
      (clock : ℕ) (m : PhysicalMem)
      → clock < num_pages
      → ((p : ℕ) → p < num_pages → IsMapped m p)
      → (page : ℕ) × (m' : PhysicalMem) × (find_victim num_pages yield (suc num_pages) clock 0 m
          ≡ some (page, m'))
        × page < num_pages
  find_victim-Found clock m inside all =
      let same : clock ≡ clock + 0 = omega arith in
      search clock num_pages 0 clock m inside (omega arith)
        (sym (Nat.mod-eq_of_lt inside) ∙ ap (λ x. x % num_pages) same) all
        (λ p d d_lt p_at. absurd (omega arith))
