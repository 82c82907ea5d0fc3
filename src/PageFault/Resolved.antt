-- ===== src/PageFault/Resolved.antt =====
-- A page fault that nothing keeps waiting is resolved.
use sgptp.Prelude.{
  ℕ, zero, suc, ◌+◌, ◌*◌, ◌≤◌, ◌<◌, ◌≡◌, refl, ap, ◌∙◌, true, false, ◌&&◌, Option, some, List, [],
  ◌∷◌, length, get_elem?, set, get_elem?-set-some, length-replicate, replicate, update, arith,
  lt→ltb, Option-cases, Bool-cases, inl, inr,
}
use sgptp.Prelude.Int.{ℤ, pos}
use sgptp.TranslationTable.{
  PageTableEntry, TranslationTable, entry, get_bit_io, get_bit_valid, get_bit_swap, get_addr_disk,
  set_bit_io, set_physical_page, clear_bit_io, clear_bit_m, set_bit_u, set_bit_valid,
}
use sgptp.OpenFile.Copies.{bcopy-Copied}
use sgptp.PhysicalMem.{Tpr, unlock_page}
use sgptp.PhysicalMem.FreeList.{IsConsistent, is_free, add_mapping-Mapped}
use sgptp.AddrSpace.{find_in}
use sgptp.AddrSpace.Pages.{Has, Makes, modify-Makes, modify-then-Makes}
use sgptp.PageFault.{
  State, Devices, is_minus_one, resolve, on_table, wait_io, wait_swap, fetch, bring_in, page_fault,
}

-- The page is in the table of its address space, a physical page is free, and each has its frame in
-- memory.
pub record Ready (page_size owner virtual_page : ℕ) (s : State) : Type 0 where
  pub table : TranslationTable
  pub here : s.manager.tables owner ≡ some table
  pub at_page : PageTableEntry
  pub has : Has table virtual_page at_page
  pub free_page : ℕ
  pub some_free : is_free s.manager.tpr free_page ≡ true
  pub consistent : IsConsistent s.manager
  pub frames :
      (page : ℕ) → page < length s.manager.tpr → page * page_size + page_size ≤ length s.main_memory

-- The entry of a page whose fault is resolved.
abbrev pub resolved_entry : ℕ → PageTableEntry → PageTableEntry
resolved_entry page e = record e {
  valid = true;
  u = true;
  m = false;
  io = false;
  physical_page = pos page;
}

-- The page is in memory: its entry is valid and says in which frame, the physical page belongs to it
-- and is not locked, and the frame holds the buffer.
pub record Resolved (page_size owner virtual_page : ℕ) (buffer : List ℕ) (s : State) : Type 0 where
  pub page : ℕ
  pub table : TranslationTable
  pub here : s.manager.tables owner ≡ some table
  pub at_page : PageTableEntry
  pub has : get_elem? table.page_table virtual_page ≡ some (resolved_entry page at_page)
  pub mapping :
      get_elem? s.manager.tpr page
      ≡ some
          (record { free = false; locked = false; virtual_page = virtual_page; owner = some owner })
  pub contents :
      (k : ℕ) → k < page_size → get_elem? s.main_memory (page * page_size + k) ≡ get_elem? buffer k

resolve-Makes :
    (t : TranslationTable) (virtual_page page : ℕ) (e : PageTableEntry)
    → Has t virtual_page e
    → Makes t virtual_page (resolved_entry page e) (resolve t virtual_page page)
unfolding resolve set_physical_page clear_bit_io clear_bit_m set_bit_u set_bit_valid
resolve-Makes t v page e h = modify-then-Makes _ t v h λ t1 h1. modify-then-Makes _ t1 v h1 λ t2 h2.
    modify-then-Makes _ t2 v h2
      λ t3 h3. modify-then-Makes _ t3 v h3 λ t4 h4. modify-Makes _ t4 v _ h4

is_free-lt : (tpr : List Tpr) (page : ℕ) → is_free tpr page ≡ true → page < length tpr
is_free-lt [] page h = absurd (ground (arith, h))
is_free-lt (f ∷ tpr) zero h = omega arith
is_free-lt (f ∷ tpr) (suc page) h = omega (arith, is_free-lt tpr page h)

some-lt : (tpr : List Tpr) (page : ℕ) (f : Tpr) → get_elem? tpr page ≡ some f → page < length tpr
some-lt [] page f h = absurd (ground (arith, h))
some-lt (g ∷ tpr) zero f h = omega arith
some-lt (g ∷ tpr) (suc page) f h = omega (arith, some-lt tpr page f h)

update_self :
    (f : ℕ → Option TranslationTable) (i : ℕ) (o : Option TranslationTable) → update f i o i ≡ o
update_self f i o = ground arith

from_zero : (xs : List ℕ) (k : ℕ) → get_elem? xs (0 + k) ≡ get_elem? xs k
from_zero xs k = ap (get_elem? xs) (omega arith)

-- What is asked of the reads, with the threads that run meanwhile: a page is read whole, and a state
-- that is ready for the page stays so.
pub record Careful (page_size owner virtual_page : ℕ) (dev : Devices) : Type 0 where
  pub reads :
      (f : ℕ) (ad : ℤ) (s : State)
      → Ready page_size owner virtual_page s
      → (length (dev.read_at f ad s).0 ≡ page_size)
        × Ready page_size owner virtual_page (dev.read_at f ad s).1
  pub swaps :
      (sector : ℤ) (s : State)
      → Ready page_size owner virtual_page s
      → (length (dev.get_page_swap sector s).0 ≡ page_size)
        × Ready page_size owner virtual_page (dev.get_page_swap sector s).1

-- The page is not on its way to the swap disk.
abbrev pub Settled : PageTableEntry → Type 0
Settled e = e.swap && is_minus_one e.addr_disk ≡ false

module _ (dev : Devices) (page_size owner exec_file virtual_page : ℕ) where
  -- The page that was read is given a frame.
  bring_in-Resolved :
      (fuel : ℕ) (s s1 s2 : State) (buffer : List ℕ)
      → on_table dev page_size owner exec_file virtual_page (λ t. set_bit_io t virtual_page) s
        ≡ some s1
      → fetch dev page_size owner exec_file virtual_page fuel s1 ≡ some (buffer, s2)
      → length buffer ≡ page_size
      → Ready page_size owner virtual_page s2
      → (s' : State) × (bring_in dev page_size owner exec_file virtual_page fuel s ≡ some s')
        × Resolved page_size owner virtual_page buffer s'
  unfolding bring_in unlock_page
  bring_in-Resolved fuel s s1 s2 buffer begun fetched full r =
      let (page, m, mapped, is) =
        add_mapping-Mapped dev.evict s2.manager owner virtual_page r.free_page r.consistent
          r.some_free in
      let frame = r.frames page (is_free-lt _ page is.was_free) in
      let (memory, copied, c) =
        bcopy-Copied page_size buffer 0 s2.main_memory (page * page_size) (omega (arith, full))
          frame in
      let (t, made, max, len, here, others) =
        resolve-Makes r.table virtual_page page r.at_page r.has in
      let table : m.tables owner ≡ some r.table = ap (λ f. f owner) is.same_tables ∙ r.here in
      let inside : page < length m.tpr = some-lt m.tpr page _ is.mapping in
      let owned : Tpr = record {
        free = false;
        locked = false;
        virtual_page = virtual_page;
        owner = some owner;
      } in
      (
        record {
          manager = record {
            tpr = set m.tpr page owned;
            free_page_list = m.free_page_list;
            tables = update m.tables owner (some t);
          };
          main_memory = memory;
          mapped_files = s2.mapped_files;
        },
        rw (begun, fetched, mapped, copied, table, made, lt→ltb _ _ inside, is.mapping) refl,
        record {
          page = page;
          table = t;
          here = update_self m.tables owner (some t);
          at_page = r.at_page;
          has = here;
          mapping = get_elem?-set-some m.tpr page _ _ is.mapping;
          contents = λ k h. c.inside k h ∙ from_zero buffer k;
        },
      )

  -- The contents of a page that is settled are fetched.
  fetch-Ready :
      (fuel : ℕ) (s : State)
      → Careful page_size owner virtual_page dev
      → (r : Ready page_size owner virtual_page s) → Settled r.at_page
      → (buffer : List ℕ) × (s' : State) × (fetch dev page_size owner exec_file virtual_page
            (suc fuel)
            s
          ≡ some (buffer, s'))
        × (length buffer ≡ page_size)
        × Ready page_size owner virtual_page s'
  unfolding fetch wait_swap get_addr_disk get_bit_swap entry
  fetch-Ready fuel s careful r settled =
      elim (Option-cases (find_in page_size s.mapped_files (virtual_page * page_size))) [
        | inr (f, mapped) ↦
            let (full, ready) = careful.reads f r.at_page.addr_disk s r in
            (
              (dev.read_at f r.at_page.addr_disk s).0,
              (dev.read_at f r.at_page.addr_disk s).1,
              rw (r.here, lt→ltb _ _ r.has.0, r.has.1, mapped) refl,
              full,
              ready,
            )
        | inl unmapped ↦ elim (Bool-cases r.at_page.swap) [
          | inl swapped ↦
              let there : is_minus_one r.at_page.addr_disk ≡ false =
                ground (arith, settled, swapped) in
              let (full, ready) = careful.swaps r.at_page.addr_disk s r in
              (
                (dev.get_page_swap r.at_page.addr_disk s).0,
                (dev.get_page_swap r.at_page.addr_disk s).1,
                rw
                    (
                      r.here,
                      lt→ltb _ _ r.has.0,
                      r.has.1,
                      unmapped,
                      swapped,
                      r.here,
                      lt→ltb _ _ r.has.0,
                      r.has.1,
                      there,
                    )
                    refl,
                full,
                ready,
              )
          | inr unswapped ↦ elim (Bool-cases (is_minus_one r.at_page.addr_disk)) [
            | inl anonymous ↦ (
              replicate page_size 0,
              s,
              rw (r.here, lt→ltb _ _ r.has.0, r.has.1, unmapped, unswapped, anonymous) refl,
              length-replicate page_size 0,
              r,
            )
            | inr in_program ↦
                let (full, ready) = careful.reads exec_file r.at_page.addr_disk s r in
                (
                  (dev.read_at exec_file r.at_page.addr_disk s).0,
                  (dev.read_at exec_file r.at_page.addr_disk s).1,
                  rw (r.here, lt→ltb _ _ r.has.0, r.has.1, unmapped, unswapped, in_program) refl,
                  full,
                  ready,
                )
          ]
        ]
      ]

  -- The bit that says that the page is being read is set.
  set_io-Ready :
      (s : State) (r : Ready page_size owner virtual_page s)
      → (s1 : State) × (on_table dev page_size owner exec_file virtual_page
            (λ t. set_bit_io t virtual_page)
            s
          ≡ some s1)
        × ((r1 : Ready page_size owner virtual_page s1) × (r1.at_page
              ≡ record r.at_page { io = true }))
  unfolding set_bit_io
  set_io-Ready s r =
      let (t, made, max, len, here, others) =
        modify-Makes (λ e. record e { io = true }) r.table virtual_page r.at_page r.has in
      (
        record s { manager = record s.manager { tables = update s.manager.tables owner (some t) } },
        rw (r.here, made) refl,
        (
          record {
            table = t;
            here = update_self s.manager.tables owner (some t);
            at_page = record r.at_page { io = true };
            has = (omega (arith, max, r.has.0), here);
            free_page = r.free_page;
            some_free = r.some_free;
            consistent = record { agrees = r.consistent.agrees; distinct = r.consistent.distinct };
            frames = r.frames;
          },
          refl,
        ),
      )

  page_fault-bring_in :
      (fuel : ℕ) (s s' : State) (t : TranslationTable) (e : PageTableEntry)
      → s.manager.tables owner ≡ some t
      → Has t virtual_page e
      → e.valid ≡ false
      → e.io ≡ false
      → bring_in dev page_size owner exec_file virtual_page (suc fuel) s ≡ some s'
      → page_fault dev page_size owner exec_file virtual_page (suc fuel) s ≡ some s'
  unfolding page_fault wait_io get_bit_io get_bit_valid entry
  page_fault-bring_in fuel s s' t e here has invalid idle loaded =
      rw (here, lt→ltb _ _ has.0, has.1, idle, here, lt→ltb _ _ has.0, has.1, invalid) loaded

  -- With a physical page free, a frame in memory for each, and reads that read whole pages and keep
  -- this so: a fault on a page that is not valid, not being read or written, and not on its way to the
  -- swap disk, returns without waiting. Then the entry of the page is valid, used and not modified, and
  -- says in which frame it is; the physical page is in use, not locked, and that of the page; and the
  -- frame holds what was fetched from the mapped file, the program, the swap disk, or zeros.
  pub page_fault-Resolved :
      (fuel : ℕ) (s : State)
      → Careful page_size owner virtual_page dev
      → (r : Ready page_size owner virtual_page s) → r.at_page.valid ≡ false
      → r.at_page.io ≡ false
      → Settled r.at_page
      → (s1 s2 s' : State) × (buffer : List ℕ) × (on_table dev page_size owner exec_file
            virtual_page
            (λ t. set_bit_io t virtual_page)
            s
          ≡ some s1)
        × (fetch dev page_size owner exec_file virtual_page (suc fuel) s1 ≡ some (buffer, s2))
        × (page_fault dev page_size owner exec_file virtual_page (suc fuel) s ≡ some s')
        × Resolved page_size owner virtual_page buffer s'
  page_fault-Resolved fuel s careful r invalid idle settled =
      let (s1, begun, (r1, same)) = set_io-Ready s r in
      let (buffer, s2, fetched, full, r2) = fetch-Ready fuel s1 careful r1 (rw (same) settled) in
      let (s', loaded, resolved) =
        bring_in-Resolved (suc fuel) s s1 s2 buffer begun fetched full r2 in
      (
        s1,
        s2,
        s',
        buffer,
        begun,
        fetched,
        page_fault-bring_in fuel s s' r.table r.at_page r.here r.has invalid idle loaded,
        resolved,
      )
