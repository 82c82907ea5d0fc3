-- ===== src/AddrSpace/Pages.antt =====
-- The loops of StackAllocate and Mmap over the pages of a new area.
use sgptp.Prelude.{
  ℕ, zero, suc, ◌+◌, ◌*◌, ◌≤◌, ◌<◌, ◌≡◌, refl, sym, ◌∙◌, ◌⊎◌, inl, inr, ◌≢◌, true, false, Option,
  some, length, get_elem?, get_elem?-set-some, set, get_elem?-set_ne, get_elem?-lt, ℕ_discrete,
  length-set, arith, lt→ltb, ◌>>=◌,
}
use sgptp.Prelude.Int.{pos, negsuc}
use sgptp.TranslationTable.{
  PageTableEntry, TranslationTable, entry, modify, set_addr_disk, clear_bit_valid, clear_bit_swap,
  clear_bit_io, clear_bit_u, clear_bit_m, set_bit_read_allowed, set_bit_write_allowed,
}
use sgptp.AddrSpace.{stack_page, stack_pages, map_page, map_pages}

-- The table holds this entry for the page.
abbrev pub Has : TranslationTable → ℕ → PageTableEntry → Type 0
Has t page e = (page < t.max_num_pages) × (get_elem? t.page_table page ≡ some e)

-- t' is t but for the pages from `low` up to, but without, `high`, and those have an entry that is as
-- `Want` says.
pub record Prepared (Want : ℕ → PageTableEntry → Type 0) (low high : ℕ) (t t' : TranslationTable)
    : Type 0 where
  pub same_max : t'.max_num_pages ≡ t.max_num_pages
  pub same_length : length t'.page_table ≡ length t.page_table
  pub inside :
      (j : ℕ)
      → low ≤ j
      → j < high
      → (e : PageTableEntry) × (get_elem? t'.page_table j ≡ some e) × Want j e
  pub outside :
      (j : ℕ) → (j < low) ⊎ (high ≤ j) → get_elem? t'.page_table j ≡ get_elem? t.page_table j

-- The method has a result, in which the page has this entry and no other one changed.
abbrev pub Makes : TranslationTable → ℕ → PageTableEntry → Option TranslationTable → Type 0
Makes t page e r =
    (t' : TranslationTable) × (r ≡ some t')
    × (t'.max_num_pages ≡ t.max_num_pages)
    × (length t'.page_table ≡ length t.page_table)
    × (get_elem? t'.page_table page ≡ some e)
    × ((j : ℕ) → page ≢ j → get_elem? t'.page_table j ≡ get_elem? t.page_table j)

pub modify-Makes :
    (change : PageTableEntry → PageTableEntry) (t : TranslationTable) (page : ℕ)
    (e : PageTableEntry)
    → Has t page e
    → Makes t page (change e) (modify change t page)
unfolding modify entry
modify-Makes change t page e (inside, here) = (
  record t { page_table = set t.page_table page (change e) },
  rw (lt→ltb _ _ inside, here) refl,
  refl,
  length-set t.page_table page (change e),
  get_elem?-set-some t.page_table page (change e) e here,
  λ j ne. get_elem?-set_ne t.page_table page j (change e) ne,
)

pub modify-then-Makes :
    (change : PageTableEntry → PageTableEntry) (t : TranslationTable) (page : ℕ)
    {e last : PageTableEntry} {next : TranslationTable → Option TranslationTable}
    → Has t page e
    → ((t' : TranslationTable) → Has t' page (change e) → Makes t' page last (next t'))
    → Makes t page last (modify change t page >>= next)
modify-then-Makes change t page {e} {last} {next} h after =
    let (t1, made, max1, len1, here1, else1) = modify-Makes change t page e h in
    let inside1 : page < t1.max_num_pages = rw (max1) h.0 in
    let (t2, made2, max2, len2, here2, else2) = after t1 (inside1, here1) in
    (t2, rw (made) made2, max2 ∙ max1, len2 ∙ len1, here2, λ j ne. else2 j ne ∙ else1 j ne)

-- The entry of a page of a new stack.
abbrev pub stack_entry : PageTableEntry → PageTableEntry
stack_entry e = record e {
  valid = false;
  addr_disk = negsuc 0;
  swap = false;
  read_allowed = true;
  write_allowed = true;
  io = false;
}

stack_page-Makes :
    (t : TranslationTable) (i : ℕ) (e : PageTableEntry)
    → Has t i e
    → Makes t i (stack_entry e) (stack_page t i)
unfolding stack_page clear_bit_valid set_addr_disk clear_bit_swap set_bit_read_allowed
    set_bit_write_allowed clear_bit_io
stack_page-Makes t i e h = modify-then-Makes _ t i h λ t1 h1. modify-then-Makes _ t1 i h1 λ t2 h2.
    modify-then-Makes _ t2 i h2 λ t3 h3.
      modify-then-Makes _ t3 i h3
        λ t4 h4. modify-then-Makes _ t4 i h4 λ t5 h5. modify-Makes _ t5 i _ h5

-- The entry of a page of a mapped file: its contents are in the file from `offset` on.
abbrev pub file_entry : ℕ → PageTableEntry → PageTableEntry
file_entry offset e = record e {
  valid = false;
  u = false;
  m = false;
  read_allowed = true;
  write_allowed = true;
  swap = false;
  addr_disk = pos offset;
  io = false;
}

map_page-Makes :
    (t : TranslationTable) (page offset : ℕ) (e : PageTableEntry)
    → Has t page e
    → Makes t page (file_entry offset e) (map_page t page offset)
unfolding map_page set_addr_disk clear_bit_io clear_bit_valid clear_bit_swap set_bit_read_allowed
    set_bit_write_allowed clear_bit_u clear_bit_m
map_page-Makes t page offset e h = modify-then-Makes _ t page h λ t1 h1.
    modify-then-Makes _ t1 page h1 λ t2 h2. modify-then-Makes _ t2 page h2 λ t3 h3.
      modify-then-Makes _ t3 page h3 λ t4 h4. modify-then-Makes _ t4 page h4 λ t5 h5.
        modify-then-Makes _ t5 page h5
          λ t6 h6. modify-then-Makes _ t6 page h6 λ t7 h7. modify-Makes _ t7 page _ h7

add_zero : (a : ℕ) → a + 0 ≡ a
add_zero a = omega arith

-- The first page of an area is set, and then the rest of it.
Prepared-step :
    {Want : ℕ → PageTableEntry → Type 0} {low high low' high' : ℕ} {t t2 : TranslationTable}
    {e : PageTableEntry} {r : Option TranslationTable}
    → low < high
    → Want low e
    → (made : Makes t low e r) → low' ≡ low + 1
    → high' ≡ high
    → Prepared Want low' high' made.0 t2
    → Prepared Want low high t t2
Prepared-step {Want} {low} {high} {low'} {high'} {t} {t2} {e} {r} some_page want
      (t', made, max, len, here, elsewhere) eq_low eq_high p =
    record {
      same_max = p.same_max ∙ max;
      same_length = p.same_length ∙ len;
      inside = λ j above below. elim (ℕ_discrete low j) [
        | yes eq ↦ (e, rw (sym eq) (p.outside low (inl (omega arith)) ∙ here), rw (sym eq) want)
        | no ne ↦ p.inside j (omega arith) (omega arith)
      ];
      outside = λ j out. elim out [
        | inl under ↦ p.outside j (inl (omega arith)) ∙ elsewhere j (λ eq. absurd (omega arith))
        | inr over ↦ p.outside j (inr (omega arith)) ∙ elsewhere j (λ eq. absurd (omega arith))
      ];
    }

Prepared-none :
    (Want : ℕ → PageTableEntry → Type 0) (low : ℕ) (t : TranslationTable)
    → Prepared Want low low t t
Prepared-none Want low t = record {
  same_max = refl;
  same_length = refl;
  inside = λ j above below. absurd (omega arith);
  outside = λ j out. refl;
}

-- The entry of page `low` of a table with at least `high` entries.
entry_of :
    (t : TranslationTable) (low high : ℕ)
    → low < high
    → high ≤ t.max_num_pages
    → t.max_num_pages ≤ length t.page_table
    → (e : PageTableEntry) × Has t low e
entry_of t low high some_page fits full =
    let (e, here) = get_elem?-lt t.page_table low (omega arith) in (e, (omega arith, here))

abbrev pub StackPage : ℕ → PageTableEntry → Type 0
StackPage j e = e ≡ stack_entry e

pub stack_pages-Prepared :
    (n i : ℕ) (t : TranslationTable)
    → i + n ≤ t.max_num_pages
    → t.max_num_pages ≤ length t.page_table
    → (t' : TranslationTable) × (stack_pages n i t ≡ some t') × Prepared StackPage i (i + n) t t'
unfolding stack_pages
stack_pages-Prepared zero i t fits full = (t, refl, rw (add_zero i) (Prepared-none StackPage i t))
stack_pages-Prepared (suc n) i t fits full =
    let (e, h) = entry_of t i (i + suc n) (omega arith) fits full in
    let made = stack_page-Makes t i e h in
    let (t1, done, max, len, here, other) = made in
    let (t2, all, p) =
      stack_pages-Prepared n (i + 1) t1 (omega (arith, max)) (omega (arith, max, len)) in
    (t2, rw (done) all, Prepared-step (omega arith) refl made refl (omega arith) p)

-- Page `base + k` has the contents of the file from `k` pages on.
abbrev pub FilePage : ℕ → ℕ → ℕ → PageTableEntry → Type 0
FilePage page_size base j e = (k : ℕ) × (j ≡ base + k) × (e ≡ file_entry (k * page_size) e)

map_pages-Prepared :
    (page_size n i base : ℕ) (t : TranslationTable)
    → base + i + n ≤ t.max_num_pages
    → t.max_num_pages ≤ length t.page_table
    → (t' : TranslationTable) × (map_pages page_size n i (some base) t ≡ some t')
      × Prepared (FilePage page_size base) (base + i) (base + i + n) t t'
unfolding map_pages
map_pages-Prepared page_size zero i base t fits full =
    (t, refl, rw (add_zero (base + i)) (Prepared-none (FilePage page_size base) (base + i) t))
map_pages-Prepared page_size (suc n) i base t fits full =
    let (e, h) = entry_of t (base + i) (base + i + suc n) (omega arith) fits full in
    let made = map_page-Makes t (base + i) (i * page_size) e h in
    let (t1, done, max, len, here, other) = made in
    let (t2, all, p) =
      map_pages-Prepared page_size n (i + 1) base t1 (omega (arith, max))
        (omega (arith, max, len)) in
    (
      t2,
      rw (done) all,
      Prepared-step (omega arith) (i, refl, refl) made (omega arith) (omega arith) p,
    )

-- The same bounds, written another way.
from :
    {Want : ℕ → PageTableEntry → Type 0} {low high low' high' : ℕ} {t t' : TranslationTable}
    → low ≡ low'
    → high ≡ high'
    → Prepared Want low high t t'
    → Prepared Want low' high' t t'
from eq_low eq_high p = record {
  same_max = p.same_max;
  same_length = p.same_length;
  inside = λ j above below. p.inside j (omega arith) (omega arith);
  outside = λ j out. p.outside j (ground (arith, out));
}

-- The whole loop of Mmap.
pub map_all :
    (page_size n base : ℕ) (t : TranslationTable)
    → base + n ≤ t.max_num_pages
    → t.max_num_pages ≤ length t.page_table
    → (t' : TranslationTable) × (map_pages page_size n 0 (some base) t ≡ some t')
      × Prepared (FilePage page_size base) base (base + n) t t'
map_all page_size n base t fits full =
    let (t', done, p) = map_pages-Prepared page_size n 0 base t (omega arith) full in
    (t', done, from (omega arith) (omega arith) p)
