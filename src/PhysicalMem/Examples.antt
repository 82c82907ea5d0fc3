-- ===== src/PhysicalMem/Examples.antt =====
-- A manager of one page that is given to one address space and taken for another.
use sgptp.Prelude.{
  ℕ, ◌≡◌, refl, ap, true, false, Option, none, some, [], ◌∷◌, zero, suc, ◌<◌, arith,
}
use mathlib.Core.Path.{subst}
use mathlib.Core.Option.{some-injective}
use sgptp.Prelude.Int.{ℤ, pos, negsuc}
use sgptp.LinkedList.{append, is_empty, remove}
use sgptp.TranslationTable.{
  PageTableEntry, TranslationTable, entry, modify, clear_bit_valid, get_bit_io, get_bit_u,
  get_bit_m, get_bit_swap, set_bit_io, set_bit_swap, clear_bit_io, set_addr_disk,
}
use sgptp.PhysicalMem.{
  Tpr, PhysicalMem, append_pages, new_manager, find_free_page, find_victim, add_mapping,
  unlock_page, change_owner,
}
use sgptp.PhysicalMem.Evict.{Others, on_owner, wait_owner_io, save_first, write_out, evict_page}
use sgptp.PhysicalMem.FreeList.{IsConsistent}
use sgptp.PhysicalMem.Clock.{IsMapped, find_victim-Found}
use sgptp.PhysicalMem.Reach.{
  Reach, Step, start, later, do_nothing, do_add_mapping, do_unlock, Reach-IsConsistent,
}

-- A page table of one page that was not used lately.
abbrev idle_entry : PageTableEntry
idle_entry = record {
  valid = true;
  u = false;
  m = true;
  read_allowed = true;
  write_allowed = true;
  physical_page = pos 0;
  swap = false;
  addr_disk = negsuc 0;
  io = false;
}

abbrev idle_tables : ℕ → Option TranslationTable
idle_tables owner = some (record { max_num_pages = 1; page_table = idle_entry ∷ [] })

-- The swap disk gives sector 3; nothing else happens meanwhile.
abbrev alone : Others
alone = record {
  yield = λ clock m. m;
  is_mapped = λ vpn m. false;
  write_at = λ vpn ad page m. none;
  put_page_swap = λ ad page m. some (pos 3, m);
}

abbrev managed : Option (ℕ × PhysicalMem) → PhysicalMem
managed (some (page, m)) = m
managed none = new_manager 1 9 idle_tables

abbrev unlocked : Option PhysicalMem → PhysicalMem
unlocked (some m) = m
unlocked none = new_manager 1 9 idle_tables

-- The one page is given to address space 5 and unlocked, and then taken from it for address space 6.
abbrev given : PhysicalMem
given = managed (add_mapping (evict_page alone 1 5 2 0) (new_manager 1 9 idle_tables) 5 0)

abbrev in_use : PhysicalMem
in_use = unlocked (unlock_page given 0)

abbrev taken : PhysicalMem
taken = managed (add_mapping (evict_page alone 1 6 2 0) in_use 6 0)

put_alone :
    (ad sector : ℤ) (p : ℕ) (j j' : PhysicalMem)
    → alone.put_page_swap ad p j ≡ some (sector, j')
    → Step j j'
put_alone ad sector p j j' e =
    subst (λ m. Step j m) (ap (λ r. r.1) (some-injective _ _ e)) do_nothing

adds :
    {m m' : PhysicalMem} (current owner page : ℕ)
    → add_mapping (evict_page alone 1 current 2 0) m owner 0 ≡ some (page, m')
    → Step m m'
adds current owner page h =
    do_add_mapping alone 1 current 2 0 owner 0 page (λ clock j. do_nothing) (λ vpn ad p j j' e. cc)
      put_alone h

taken-Reach : Reach 1 9 idle_tables taken
unfolding new_manager append_pages append add_mapping find_free_page is_empty remove unlock_page
    evict_page find_victim wait_owner_io write_out save_first on_owner change_owner clear_bit_valid
    get_bit_io get_bit_u get_bit_m get_bit_swap set_bit_io set_bit_swap clear_bit_io set_addr_disk
    modify entry
taken-Reach =
    later (later (later start (adds {m' = given} 5 5 0 refl)) (do_unlock 0 refl))
      (adds {m' = taken} 6 6 0 refl)

taken_test :
    (taken.tpr ≡ record { free = false; locked = true; virtual_page = 0; owner = some 6 } ∷ [])
    × (taken.free_page_list ≡ [])
unfolding new_manager append_pages append add_mapping find_free_page is_empty remove unlock_page
    evict_page find_victim wait_owner_io write_out save_first on_owner change_owner clear_bit_valid
    get_bit_io get_bit_u get_bit_m get_bit_swap set_bit_io set_bit_swap clear_bit_io set_addr_disk
    modify entry
taken_test = (refl, refl)

Reach-IsConsistent_example : IsConsistent taken
Reach-IsConsistent_example = Reach-IsConsistent taken-Reach

-- Two pages, both used lately: virtual pages 0 and 1 of address space 5.
abbrev used_entry : PageTableEntry
used_entry = record {
  valid = true;
  u = true;
  m = false;
  read_allowed = true;
  write_allowed = true;
  physical_page = pos 0;
  swap = false;
  addr_disk = negsuc 0;
  io = false;
}

abbrev used_table : TranslationTable
used_table = record { max_num_pages = 2; page_table = used_entry ∷ used_entry ∷ [] }

abbrev held_by : ℕ → Tpr
held_by v = record { free = false; locked = false; virtual_page = v; owner = some 5 }

abbrev one_table : ℕ → Option TranslationTable
one_table owner = some used_table

abbrev full : PhysicalMem
full = record { tpr = held_by 0 ∷ held_by 1 ∷ []; free_page_list = []; tables = one_table }

full-IsMapped : (p : ℕ) → p < 2 → IsMapped full p
unfolding entry
full-IsMapped zero lt = record {
  f = held_by 0;
  here = refl;
  unlocked = refl;
  owner = 5;
  owned = refl;
  table = used_table;
  has_table = refl;
  e = used_entry;
  mapped = refl;
}
full-IsMapped (suc zero) lt = record {
  f = held_by 1;
  here = refl;
  unlocked = refl;
  owner = 5;
  owned = refl;
  table = used_table;
  has_table = refl;
  e = used_entry;
  mapped = refl;
}
full-IsMapped (suc (suc p)) lt = absurd (omega arith)

abbrev no_change : ℕ → PhysicalMem → PhysicalMem
no_change clock m = m

find_victim-Found_example :
    (page : ℕ) × (m' : PhysicalMem) × (find_victim 2 no_change 3 1 0 full ≡ some (page, m'))
    × page < 2
find_victim-Found_example = find_victim-Found 2 no_change 1 full (omega arith) full-IsMapped
