-- ===== src/Mmu/Resident.antt =====
-- A page in memory: its translation, which the use and modified bits do not disturb.
use sgptp.Prelude.{
  ==_iff, ℕ, ◌<◌, ◌≡◌, refl, ◌∙◌, Bool, true, false, not, some, length, get_elem?, set, leb, arith,
  lt→ltb, length-set, get_elem?-set_self, ◌&&◌, ◌||◌,
}
use sgptp.Prelude.Int.{pos}
use sgptp.TranslationTable.{
  PageTableEntry, TranslationTable, entry, modify, get_physical_page, get_bit_valid,
  get_bit_read_allowed, get_bit_write_allowed, set_bit_u, set_bit_m,
}
use sgptp.Mmu.{
  page_of, place, translate_twice, Cpu, ExceptionType, physical, set_used, translate, fault_in,
  is_aligned,
}

-- Virtual page `vpn` is in frame `n`, and may be written if `writing`.
pub record IsResident (writing : Bool) (t : TranslationTable) (vpn n : ℕ) : Type 0 where
  pub in_table : vpn < t.max_num_pages
  pub sized : length t.page_table ≡ t.max_num_pages
  pub e : PageTableEntry
  pub here : get_elem? t.page_table vpn ≡ some e
  pub valid : e.valid ≡ true
  pub may : (e.read_allowed || e.write_allowed) ≡ true
  pub may_write : writing ≡ true → e.write_allowed ≡ true
  pub page : e.physical_page ≡ pos n

pub entry_lem :
    {w : Bool} {t : TranslationTable} {vpn n : ℕ} (r : IsResident w t vpn n)
    → entry t vpn ≡ some r.e
unfolding entry
entry_lem {t = t} {vpn = vpn} r = rw (lt→ltb vpn t.max_num_pages r.in_table) r.here

-- Setting the bits of use keeps the page where it is.
set_bit_u-IsResident :
    {w : Bool} {t : TranslationTable} {vpn n : ℕ}
    → IsResident w t vpn n
    → (t' : TranslationTable) × (set_bit_u t vpn ≡ some t') × IsResident w t' vpn n
unfolding set_bit_u modify
set_bit_u-IsResident {t = t} {vpn = vpn} r =
    let e = record r.e { u = true } in
    (
      record t { page_table = set t.page_table vpn e },
      rw (entry_lem r) refl,
      record {
        in_table = r.in_table;
        sized = length-set t.page_table vpn e ∙ r.sized;
        e = e;
        here = get_elem?-set_self t.page_table vpn e (omega (arith, r.in_table, r.sized));
        valid = r.valid;
        may = r.may;
        may_write = r.may_write;
        page = r.page;
      },
    )

set_bit_m-IsResident :
    {w : Bool} {t : TranslationTable} {vpn n : ℕ}
    → IsResident w t vpn n
    → (t' : TranslationTable) × (set_bit_m t vpn ≡ some t') × IsResident w t' vpn n
unfolding set_bit_m modify
set_bit_m-IsResident {t = t} {vpn = vpn} r =
    let e = record r.e { m = true } in
    (
      record t { page_table = set t.page_table vpn e },
      rw (entry_lem r) refl,
      record {
        in_table = r.in_table;
        sized = length-set t.page_table vpn e ∙ r.sized;
        e = e;
        here = get_elem?-set_self t.page_table vpn e (omega (arith, r.in_table, r.sized));
        valid = r.valid;
        may = r.may;
        may_write = r.may_write;
        page = r.page;
      },
    )

set_used-IsResident :
    (writing : Bool) {w : Bool} {t : TranslationTable} {vpn n : ℕ}
    → IsResident w t vpn n
    → (t' : TranslationTable) × (set_used t vpn writing ≡ some t') × IsResident w t' vpn n
set_used-IsResident true r =
    let (t1, eq1, r1) = set_bit_m-IsResident r in
    let (t2, eq2, r2) = set_bit_u-IsResident r1 in (t2, rw (eq1, eq2) refl, r2)
set_used-IsResident false r = set_bit_u-IsResident r

-- A page that may be written may be read.
pub IsResident-read :
    {t : TranslationTable} {vpn n : ℕ} → IsResident true t vpn n → IsResident false t vpn n
IsResident-read r = record {
  in_table = r.in_table;
  sized = r.sized;
  e = r.e;
  here = r.here;
  valid = r.valid;
  may = r.may;
  may_write = λ h. ground (arith, h);
  page = r.page;
}

module _ (page_size num_phys_pages : ℕ) (raise : ExceptionType → ℕ → Cpu → Cpu) where
  pub translate-Resident :
      (a size vpn n p : ℕ) (writing : Bool) (k : Cpu)
      → is_aligned a size ≡ true
      → page_of page_size a ≡ some vpn
      → place page_size n a ≡ some p
      → n < num_phys_pages
      → IsResident writing k.table vpn n
      → (t' : TranslationTable) × (translate page_size num_phys_pages raise a size writing k
          ≡ some (physical p, record k { table = t' }))
        × IsResident writing t' vpn n
  unfolding translate fault_in get_bit_read_allowed get_bit_write_allowed get_bit_valid
      get_physical_page
  translate-Resident a size vpn n p writing k al at there fits r =
      let (t', used, r') = set_used-IsResident writing r in
      let inside : leb k.table.max_num_pages vpn ≡ false = ground (arith, r.in_table) in
      let mapped : (not r.e.read_allowed && not r.e.write_allowed) ≡ false =
        ground (arith, r.may) in
      let granted : (writing && not r.e.write_allowed) ≡ false = ground (arith, r.may_write) in
      let frame : leb num_phys_pages n ≡ false = ground (arith, fits) in
      (
        t',
        rw
            (
              al,
              at,
              inside,
              lt→ltb _ _ r.in_table,
              r.here,
              mapped,
              granted,
              r.valid,
              lt→ltb _ _ r.in_table,
              r.here,
              r.page,
              frame,
              used,
              there,
            )
            refl,
        r',
      )

  -- The two translations of an access to a page in memory agree.
  pub translate_twice-Resident :
      (a size vpn n p : ℕ) (writing : Bool) (k : Cpu)
      → is_aligned a size ≡ true
      → page_of page_size a ≡ some vpn
      → place page_size n a ≡ some p
      → n < num_phys_pages
      → IsResident writing k.table vpn n
      → (t' : TranslationTable) × (translate_twice page_size num_phys_pages raise a size writing k
          ≡ some (physical p, record k { table = t' }))
        × IsResident writing t' vpn n
  unfolding translate_twice
  translate_twice-Resident a size vpn n p writing k al at there fits r =
      let (t1, one, r1) = translate-Resident a size vpn n p writing k al at there fits r in
      let (t2, two, r2) =
        translate-Resident a size vpn n p writing (record k { table = t1 }) al at there fits r1 in
      (t2, rw (one, two, (==_iff p p).1 refl) refl, r2)
