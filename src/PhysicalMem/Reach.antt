-- ===== src/PhysicalMem/Reach.antt =====
-- nachos/vm/physMem.cc: the managers that the operations reach from a new one.
use sgptp.Prelude.{
  ℕ, zero, suc, ◌+◌, ◌≡◌, refl, sym, ap, ◌∙◌, inl, inr, true, false, not, Option, none, some, List,
  [], ◌∷◌, ◌++◌, length, get_elem?, replicate, ltb, >>=-eq-some, assert, assert-eq-some, contains,
  contains-snoc, Distinct, Distinct-snoc, arith,
}
use mathlib.Core.Path.{subst}
use sgptp.LinkedList.{Element, append}
use sgptp.TranslationTable.{TranslationTable}
use sgptp.PhysicalMem.{
  Tpr, PhysicalMem, append_pages, new_manager, find_free_page, remove_mapping, invalidate,
  unlock_page, change_owner, add_mapping,
}
use sgptp.Prelude.Int.{ℤ}
use sgptp.PhysicalMem.Evict.{Others, evict_page}
use sgptp.PhysicalMem.Kept.{AreSafe, add_mapping-Ends}
use sgptp.PhysicalMem.FreeList.{
  items, is_free, IsConsistent, find_free_page-Found, set_tpr-IsConsistent, released-IsConsistent,
}

-- One operation that does not abort, a change of the translation tables by others, or several of these.
-- While AddPhysicalToVirtualMapping evicts a page, the other threads do such steps too.
pub data Step : PhysicalMem → PhysicalMem → Type 0 where
  do_nothing : {m : PhysicalMem} → Step m m
  do_both : {m m1 m2 : PhysicalMem} → Step m m1 → Step m1 m2 → Step m m2
  do_add_mapping :
      {m m' : PhysicalMem} (o : Others) (num_pages current fuel i_clock owner virtual_page page : ℕ)
      → ((clock : ℕ) (j : PhysicalMem) → Step j (o.yield clock j))
      → ((vpn : ℕ) (ad : ℤ) (p : ℕ) (j j' : PhysicalMem)
          → o.write_at vpn ad p j ≡ some j'
          → Step j j')
      → ((ad sector : ℤ) (p : ℕ) (j j' : PhysicalMem)
          → o.put_page_swap ad p j ≡ some (sector, j')
          → Step j j')
      → add_mapping (evict_page o num_pages current fuel i_clock) m owner virtual_page
        ≡ some (page, m')
      → Step m m'
  do_find : {m m' : PhysicalMem} (page : Option ℕ) → find_free_page m ≡ some (page, m') → Step m m'
  do_remove : {m m' : PhysicalMem} (page : ℕ) → remove_mapping m page ≡ some m' → Step m m'
  do_unlock : {m m' : PhysicalMem} (page : ℕ) → unlock_page m page ≡ some m' → Step m m'
  do_change_owner :
      {m m' : PhysicalMem} (page owner : ℕ) → change_owner m page owner ≡ some m' → Step m m'
  do_tables :
      (m : PhysicalMem) (tables : ℕ → Option TranslationTable)
      → Step m (record m { tables = tables })

pub data Reach (n garbage : ℕ) (tables : ℕ → Option TranslationTable) : PhysicalMem → Type 0 where
  start : Reach n garbage tables (new_manager n garbage tables)
  later : {m m' : PhysicalMem} → Reach n garbage tables m → Step m m' → Reach n garbage tables m'

abbrev payload : {A : Type 0} (d : A) → Option A → A
payload d none = d
payload d (some a) = a

remove_mapping-IsConsistent :
    (m m' : PhysicalMem) (page : ℕ)
    → IsConsistent m
    → remove_mapping m page ≡ some m'
    → IsConsistent m'
unfolding remove_mapping
remove_mapping-IsConsistent m m' page c h =
    let (f, here, h1) = >>=-eq-some (get_elem? m.tpr page) _ h in
    let (u, used, h2) = >>=-eq-some (assert (not f.free)) _ h1 in
    let (owner, owned, h3) = >>=-eq-some f.owner _ h2 in
    let (tables, valid, h4) = >>=-eq-some (invalidate m.tables owner f.virtual_page) _ h3 in
    subst IsConsistent (ap (payload m') h4) (
      released-IsConsistent m page f (record f { free = true; locked = false }) tables c here
        (ground (arith, assert-eq-some (not f.free) used)) refl)

unlock_page-IsConsistent :
    (m m' : PhysicalMem) (page : ℕ)
    → IsConsistent m
    → unlock_page m page ≡ some m'
    → IsConsistent m'
unfolding unlock_page
unlock_page-IsConsistent m m' page c h =
    let (u, inside, h1) = >>=-eq-some (assert (ltb page (length m.tpr))) _ h in
    let (f, here, h2) = >>=-eq-some (get_elem? m.tpr page) _ h1 in
    let (v, is_locked, h3) = >>=-eq-some (assert f.locked) _ h2 in
    let (w, used, h4) = >>=-eq-some (assert (not f.free)) _ h3 in
    subst IsConsistent (ap (payload m') h4)
      (set_tpr-IsConsistent m page f (record f { locked = false }) c here refl)

change_owner-IsConsistent :
    (m m' : PhysicalMem) (page owner : ℕ)
    → IsConsistent m
    → change_owner m page owner ≡ some m'
    → IsConsistent m'
unfolding change_owner
change_owner-IsConsistent m m' page owner c h =
    let (f, here, h1) = >>=-eq-some (get_elem? m.tpr page) _ h in
    subst IsConsistent (ap (payload m') h1)
      (set_tpr-IsConsistent m page f (record f { owner = some owner }) c here refl)

find_free_page-IsConsistent :
    (m m' : PhysicalMem) (page : Option ℕ)
    → IsConsistent m
    → find_free_page m ≡ some (page, m')
    → IsConsistent m'
find_free_page-IsConsistent m m' page c h = elim (find_free_page-Found m c) [
  | inl (r, full) ↦
      subst IsConsistent
        (ap (λ o. (payload {A = Option ℕ × PhysicalMem} (page, m') o).1) (sym r ∙ h)) c
  | inr (p, m1, r, t) ↦
      subst IsConsistent
        (ap (λ o. (payload {A = Option ℕ × PhysicalMem} (page, m') o).1) (sym r ∙ h)) t.consistent
]

items-append : (l : List Element) (i : ℕ) → items (append l i) ≡ items l ++ i ∷ []
unfolding append
items-append [] i = refl
items-append (e ∷ l) i = ap (λ xs. e.item ∷ xs) (items-append l i)

-- The list of a new manager.
append_pages-items :
    (n i : ℕ) (l : List Element)
    → ((p : ℕ) → contains (items l) p ≡ ltb p i)
    → Distinct (items l)
    → ((p : ℕ) → contains (items (append_pages n i l)) p ≡ ltb p (i + n))
      × Distinct (items (append_pages n i l))
unfolding append_pages
append_pages-items zero i l held d = (λ p. held p ∙ ground arith, d)
append_pages-items (suc n) i l held d =
    let at_end = items-append l i in
    let held' : (p : ℕ) → contains (items (append l i)) p ≡ ltb p (i + 1) =
      λ p. ap (λ xs. contains xs p) at_end ∙ ground (arith, contains-snoc (items l) i p, held p) in
    let d' : Distinct (items (append l i)) =
      subst Distinct (sym at_end) (Distinct-snoc (items l) i d (ground (arith, held i))) in
    let (all, apart) = append_pages-items n (i + 1) (append l i) held' d' in
    (λ p. all p ∙ ground arith, apart)

is_free-replicate :
    (n page : ℕ) (f : Tpr) → f.free ≡ true → is_free (replicate n f) page ≡ ltb page n
is_free-replicate zero page f h = ground arith
is_free-replicate (suc n) zero f h = h ∙ ground arith
is_free-replicate (suc n) (suc page) f h = is_free-replicate n page f h ∙ ground arith

new_manager-IsConsistent :
    (n garbage : ℕ) (tables : ℕ → Option TranslationTable)
    → IsConsistent (new_manager n garbage tables)
unfolding new_manager
new_manager-IsConsistent n garbage tables =
    let (all, apart) = append_pages-items n 0 [] (λ p. ground arith) tt in
    record {
      agrees = λ p.
          let same : ltb p (0 + n) ≡ ltb p n = ground arith in
          all p ∙ same ∙ sym (is_free-replicate n p _ refl);
      distinct = apart;
    }

Step-IsConsistent : {m m' : PhysicalMem} → IsConsistent m → Step m m' → IsConsistent m'
Step-IsConsistent c do_nothing = c
Step-IsConsistent c (do_both first next) = Step-IsConsistent (Step-IsConsistent c first) next
Step-IsConsistent {m = m} c
      (do_add_mapping o num_pages current fuel i_clock owner virtual_page page yields writes puts
        h) =
    let safe : AreSafe o = record {
      yield = λ clock j cj. Step-IsConsistent cj (yields clock j);
      write_at =
          λ vpn ad p j cj. record { from = λ j' e. Step-IsConsistent cj (writes vpn ad p j j' e) };
      put_page_swap =
          λ ad p j cj. record { from = λ r e. Step-IsConsistent cj (puts ad r.0 p j r.1 e) };
    } in
    (add_mapping-Ends o safe num_pages current fuel i_clock owner virtual_page m c).from _ h
Step-IsConsistent c (do_find page h) = find_free_page-IsConsistent _ _ page c h
Step-IsConsistent c (do_remove page h) = remove_mapping-IsConsistent _ _ page c h
Step-IsConsistent c (do_unlock page h) = unlock_page-IsConsistent _ _ page c h
Step-IsConsistent c (do_change_owner page owner h) = change_owner-IsConsistent _ _ page owner c h
Step-IsConsistent c (do_tables m tables) = record { agrees = c.agrees; distinct = c.distinct }

-- In every manager that FindFreePage, AddPhysicalToVirtualMapping with EvictPage, UnlockPage,
-- ChangeOwner and RemovePhysicalToVirtualMapping reach from a new one, whatever such calls other
-- threads make during an EvictPage, the free list holds exactly the pages whose entry is free, each of
-- them once.
pub Reach-IsConsistent :
    {n garbage : ℕ} {tables : ℕ → Option TranslationTable} {m : PhysicalMem}
    → Reach n garbage tables m
    → IsConsistent m
Reach-IsConsistent {n = n} {garbage = garbage} {tables = tables} start =
    new_manager-IsConsistent n garbage tables
Reach-IsConsistent (later r s) = Step-IsConsistent (Reach-IsConsistent r) s
