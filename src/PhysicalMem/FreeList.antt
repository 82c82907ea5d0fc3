-- ===== src/PhysicalMem/FreeList.antt =====
-- nachos/vm/physMem.cc: the free list holds the free pages, each of them once.
use sgptp.Prelude.{
  ℕ, zero, suc, ◌≡◌, refl, sym, ap, ◌∙◌, ◌⊎◌, inl, inr, Bool, true, false, not, ◌&&◌, Option, none,
  some, List, [], ◌∷◌, get_elem?, get_elem?-set-some, set, ◌==◌, if◌then◌else◌, contains, Distinct,
  arith, Bool-cases, if_true, if_false,
}
use sgptp.LinkedList.{Element, is_empty, prepend, remove}
use sgptp.TranslationTable.{TranslationTable}
use sgptp.PhysicalMem.{Tpr, PhysicalMem, find_free_page, set_tpr, add_mapping}

abbrev pub items : List Element → List ℕ
items [] = []
items (e ∷ l) = e.item ∷ items l

abbrev pub is_free : List Tpr → ℕ → Bool
is_free [] page = false
is_free (f ∷ tpr) zero = f.free
is_free (f ∷ tpr) (suc page) = is_free tpr page

pub record IsConsistent (m : PhysicalMem) : Type 0 where
  pub agrees : (page : ℕ) → contains (items m.free_page_list) page ≡ is_free m.tpr page
  pub distinct : Distinct (items m.free_page_list)

is_free-entry :
    (tpr : List Tpr) (page : ℕ)
    → is_free tpr page ≡ true
    → (f : Tpr) × (get_elem? tpr page ≡ some f) × (f.free ≡ true)
is_free-entry [] page h = absurd (ground (arith, h))
is_free-entry (f ∷ tpr) zero h = (f, refl, h)
is_free-entry (f ∷ tpr) (suc page) h = is_free-entry tpr page h

entry-is_free :
    (tpr : List Tpr) (page : ℕ) (f : Tpr) → get_elem? tpr page ≡ some f → is_free tpr page ≡ f.free
entry-is_free [] page f h = cc
entry-is_free (g ∷ tpr) zero f h = ap (λ o. (elim o [ none ↦ false | some x ↦ x.free ])) h
entry-is_free (g ∷ tpr) (suc page) f h = entry-is_free tpr page f h

is_free-set :
    (tpr : List Tpr) (i j : ℕ) (f g : Tpr)
    → get_elem? tpr i ≡ some g
    → is_free (set tpr i f) j ≡ (if i == j then f.free else is_free tpr j)
is_free-set [] i j f g h = cc
is_free-set (x ∷ tpr) zero zero f g h = refl
is_free-set (x ∷ tpr) zero (suc j) f g h = ground arith
is_free-set (x ∷ tpr) (suc i) zero f g h = ground arith
is_free-set (x ∷ tpr) (suc i) (suc j) f g h = is_free-set tpr i j f g h ∙ ground arith

-- What FindFreePage does: the list is empty, no page is free and nothing changes, or it returns a page
-- that was free, which is then in use, all others staying as they were.
pub record Taken (m : PhysicalMem) (page : ℕ) (m' : PhysicalMem) : Type 0 where
  pub was_free : is_free m.tpr page ≡ true
  pub consistent : IsConsistent m'
  pub others : (p : ℕ) → is_free m'.tpr p ≡ (is_free m.tpr p && not (page == p))
  pub same_tables : m'.tables ≡ m.tables
  pub entry : Tpr
  pub in_use : entry.free ≡ false
  pub here : get_elem? m'.tpr page ≡ some entry

taken :
    (tpr : List Tpr) (tables : ℕ → Option TranslationTable) (e : Element) (l : List Element)
    (f : Tpr)
    → IsConsistent (record { tpr = tpr; free_page_list = e ∷ l; tables = tables })
    → get_elem? tpr e.item ≡ some f
    → f.free ≡ true
    → Taken
        (record { tpr = tpr; free_page_list = e ∷ l; tables = tables })
        e.item
        (record {
          tpr = set tpr e.item (record f { free = false });
          free_page_list = l;
          tables = tables;
        })
taken tpr tables e l f c here is_so =
    let after = (λ (p : ℕ). is_free-set tpr e.item p (record f { free = false }) f here) in
    record {
      was_free = entry-is_free tpr e.item f here ∙ is_so;
      consistent = record {
        agrees = λ p. ground (arith, after p, c.agrees p, c.distinct.0);
        distinct = c.distinct.1;
      };
      others = λ p. ground (arith, after p);
      same_tables = refl;
      entry = record f { free = false };
      in_use = refl;
      here = get_elem?-set-some tpr e.item _ f here;
    }

abbrev pub manager : List Tpr → List Element → (ℕ → Option TranslationTable) → PhysicalMem
manager tpr l tables = record { tpr = tpr; free_page_list = l; tables = tables }

-- What FindFreePage returns: -1, or a page.
abbrev pub Found : PhysicalMem → Option (Option ℕ × PhysicalMem) → Type 0
Found m r =
    ((r ≡ some (none, m)) × ((p : ℕ) → is_free m.tpr p ≡ false))
    ⊎ ((page : ℕ) × (m' : PhysicalMem) × (r ≡ some (some page, m')) × Taken m page m')

found :
    (tpr : List Tpr) (l : List Element) (tables : ℕ → Option TranslationTable)
    → IsConsistent (manager tpr l tables)
    → Found (manager tpr l tables) (find_free_page (manager tpr l tables))
unfolding find_free_page is_empty remove
found tpr [] tables c = inl (refl, λ p. sym (c.agrees p))
found tpr (e ∷ l) tables c =
    let (f, here, is_so) = is_free-entry tpr e.item (sym (c.agrees e.item) ∙ ground arith) in
    inr (e.item, _, rw (here, is_so) refl, taken tpr tables e l f c here is_so)

-- On a consistent manager FindFreePage does not fail its ASSERT. It returns -1 and changes nothing if
-- no page is free; else a page that was free, which is then in use, every other page and every
-- translation table staying as it was, and the manager is consistent.
pub find_free_page-Found : (m : PhysicalMem) → IsConsistent m → Found m (find_free_page m)
find_free_page-Found m c = found m.tpr m.free_page_list m.tables c

-- A change of an entry that is no change of `free`.
same_free :
    (tpr : List Tpr) (i j : ℕ) (f g : Tpr)
    → get_elem? tpr i ≡ some f
    → g.free ≡ f.free
    → is_free (set tpr i g) j ≡ is_free tpr j
same_free tpr i j f g here same = is_free-set tpr i j g f here ∙ (elim (Bool-cases (i == j)) [
  | inl at ↦
      let eq : i ≡ j = ground arith in
      if_true _ _ at ∙ same ∙ sym (entry-is_free tpr i f here) ∙ ap (is_free tpr) eq
  | inr away ↦ if_false _ _ away
])

pub set_tpr-IsConsistent :
    (m : PhysicalMem) (page : ℕ) (f g : Tpr)
    → IsConsistent m
    → get_elem? m.tpr page ≡ some f
    → g.free ≡ f.free
    → IsConsistent (set_tpr m page g)
set_tpr-IsConsistent m page f g c here same = record {
  agrees = λ p. c.agrees p ∙ sym (same_free m.tpr page p f g here same);
  distinct = c.distinct;
}

-- A page that is given back.
pub released-IsConsistent :
    (m : PhysicalMem) (page : ℕ) (f g : Tpr) (tables : ℕ → Option TranslationTable)
    → IsConsistent m
    → get_elem? m.tpr page ≡ some f
    → f.free ≡ false
    → g.free ≡ true
    → IsConsistent (manager (set m.tpr page g) (prepend m.free_page_list page) tables)
unfolding prepend
released-IsConsistent m page f g tables c here used free_now = record {
  agrees = λ p. ground (arith, is_free-set m.tpr page p g f here, c.agrees p);
  distinct = (c.agrees page ∙ entry-is_free m.tpr page f here ∙ used, c.distinct);
}

-- A page that was free, locked for a virtual page of an address space.
pub record Mapped (m : PhysicalMem) (owner virtual_page page : ℕ) (m' : PhysicalMem) : Type 0 where
  pub was_free : is_free m.tpr page ≡ true
  pub mapping :
      get_elem? m'.tpr page
      ≡ some
          (record { free = false; locked = true; virtual_page = virtual_page; owner = some owner })
  pub consistent : IsConsistent m'
  pub others : (p : ℕ) → is_free m'.tpr p ≡ (is_free m.tpr p && not (page == p))
  pub same_tables : m'.tables ≡ m.tables

module _ (evict : PhysicalMem → Option (ℕ × PhysicalMem)) where
  -- On a consistent manager with a free page, AddPhysicalToVirtualMapping evicts none. It returns a page
  -- that was free, which then is in use, locked, and held by the virtual page of the address space;
  -- which other pages are free stays as it was, and the manager is consistent.
  pub add_mapping-Mapped :
      (m : PhysicalMem) (owner virtual_page p : ℕ)
      → IsConsistent m
      → is_free m.tpr p ≡ true
      → (page : ℕ) × (m' : PhysicalMem) × (add_mapping evict m owner virtual_page ≡ some (page, m'))
        × Mapped m owner virtual_page page m'
  unfolding add_mapping
  add_mapping-Mapped m owner virtual_page p c some_free = elim (find_free_page-Found m c) [
    | inl (r, full) ↦ absurd (ground (arith, full p, some_free))
    | inr (page, m1, r, t) ↦
        let f : Tpr = record {
          free = t.entry.free;
          locked = true;
          virtual_page = virtual_page;
          owner = some owner;
        } in
        (
          page,
          set_tpr m1 page f,
          rw (r, t.here) refl,
          record {
            was_free = t.was_free;
            mapping = get_elem?-set-some m1.tpr page f t.entry t.here ∙ rw t.in_use refl;
            consistent = set_tpr-IsConsistent m1 page t.entry f t.consistent t.here refl;
            others = λ q. same_free m1.tpr page q t.entry f t.here refl ∙ t.others q;
            same_tables = t.same_tables;
          },
        )
  ]
