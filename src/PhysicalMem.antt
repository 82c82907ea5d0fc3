-- ===== src/PhysicalMem.antt =====
-- nachos/vm/physMem.h and physMem.cc: which physical pages are free, and which virtual page of which
-- address space each of the others holds.
--
-- An address space is a number; `tables` are the translation tables of the address spaces, `none` for
-- NULL. `evict` is EvictPage, which the module Evict defines. A page number is from 0 on.
pub mod FreeList
pub mod Reach
pub mod Clock
pub mod Evict
pub mod Kept
mod Examples
use sgptp.Prelude.{
  ℕ, zero, suc, ◌+◌, ◌%◌, ◌||◌, Bool, true, false, not, Option, none, some, List, [], ◌∷◌, length,
  get_elem?, set, replicate, update, ltb, if◌then◌else◌, ◌>>=◌, ◌>>◌, assert,
}
use sgptp.LinkedList.{Element, is_empty, append, prepend, remove}
use sgptp.TranslationTable.{TranslationTable, clear_bit_valid, get_bit_u, clear_bit_u}

-- An entry of the table of physical pages.
pub record Tpr : Type 0 where
  pub free : Bool
  pub locked : Bool
  pub virtual_page : ℕ
  pub owner : Option ℕ

pub record PhysicalMem : Type 0 where
  pub tpr : List Tpr
  pub free_page_list : List Element
  pub tables : ℕ → Option TranslationTable

-- The loop of the constructor: pages i to i + n.
unfoldable pub append_pages : ℕ → ℕ → List Element → List Element
append_pages zero i l = l
append_pages (suc n) i l = append_pages n (i + 1) (append l i)

-- A new manager of n pages; `garbage` is the virtual page that its memory holds.
unfoldable pub new_manager : ℕ → ℕ → (ℕ → Option TranslationTable) → PhysicalMem
new_manager n garbage tables = record {
  tpr = replicate n (record { free = true; locked = false; virtual_page = garbage; owner = none });
  free_page_list = append_pages n 0 [];
  tables = tables;
}

-- `tpr[page] = ...`, by a change of the entry.
abbrev pub set_tpr : PhysicalMem → ℕ → Tpr → PhysicalMem
set_tpr m page f = record m { tpr = set m.tpr page f }

-- `none` is the page -1.
unfoldable pub find_free_page : PhysicalMem → Option (Option ℕ × PhysicalMem)
find_free_page m = if is_empty m.free_page_list then some (none, m) else (do
  let (page, rest) = remove m.free_page_list
  f ← get_elem? m.tpr page
  assert f.free
  some (some page, set_tpr (record m { free_page_list = rest }) page (record f { free = false })))

-- `clearBitValid` of the owner's table, if it has one.
abbrev pub invalidate : (ℕ → Option TranslationTable) → ℕ → ℕ → Option (ℕ → Option TranslationTable)
invalidate tables owner virtual_page = elim (tables owner) [
  | none ↦ some tables
  | some t ↦ (do t' ← clear_bit_valid t virtual_page; some (update tables owner (some t')))
]

unfoldable pub remove_mapping : PhysicalMem → ℕ → Option PhysicalMem
remove_mapping m num_page = do
  f ← get_elem? m.tpr num_page
  assert (not f.free)
  owner ← f.owner
  tables ← invalidate m.tables owner f.virtual_page
  let released = set_tpr m num_page (record f { free = true; locked = false })
  some (record released { tables = tables; free_page_list = prepend m.free_page_list num_page })

unfoldable pub unlock_page : PhysicalMem → ℕ → Option PhysicalMem
unlock_page m num_page = do
  assert (ltb num_page (length m.tpr))
  f ← get_elem? m.tpr num_page
  assert f.locked
  assert (not f.free)
  some (set_tpr m num_page (record f { locked = false }))

unfoldable pub change_owner : PhysicalMem → ℕ → ℕ → Option PhysicalMem
change_owner m num_page owner = do
  f ← get_elem? m.tpr num_page
  some (set_tpr m num_page (record f { owner = some owner }))

module _ (evict : PhysicalMem → Option (ℕ × PhysicalMem)) where
  unfoldable pub add_mapping : PhysicalMem → ℕ → ℕ → Option (ℕ × PhysicalMem)
  add_mapping m owner virtual_page = do
    (found, m1) ← find_free_page m
    (page, m2) ← elim found [ some page ↦ some (page, m1) | none ↦ evict m1 ]
    f ← get_elem? m2.tpr page
    some (
      page,
      set_tpr m2 page (record f { virtual_page = virtual_page; owner = some owner; locked = true }),
    )

-- The search of EvictPage, on fuel: the clock is at `clock`, and `i` pages were passed. `yield clock` is
-- what the other threads do during Yield with `i_clock` set. The result is the page that the clock
-- stops at.
module _ (num_pages : ℕ) (yield : ℕ → PhysicalMem → PhysicalMem) where
  unfoldable pub find_victim : ℕ → ℕ → ℕ → PhysicalMem → Option (ℕ × PhysicalMem)
  find_victim zero clock i m = none
  find_victim (suc fuel) clock i m = do
    f ← get_elem? m.tpr clock
    owner ← f.owner
    t ← m.tables owner
    used ← get_bit_u t f.virtual_page
    if used || f.locked
        then (do
          t' ← clear_bit_u t f.virtual_page
          let passed = record m { tables = update m.tables owner (some t') }
          let again = if ltb num_pages (i + 1) then yield clock passed else passed
          find_victim fuel ((clock + 1) % num_pages) (i + 1) again)
        else some (clock, m)
