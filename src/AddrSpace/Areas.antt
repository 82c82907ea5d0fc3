-- ===== src/AddrSpace/Areas.antt =====
-- StackAllocate and Mmap: what they return, and where the areas stand.
use sgptp.Prelude.{
  ℕ, zero, suc, ◌+◌, ◌*◌, ◌≤◌, ◌<◌, ◌≡◌, refl, ◌⊎◌, inl, inr, false, Option, none, some, [], ◌∷◌,
  ◌++◌, length, leb, ltb, arith, dec_lt, lt→ltb, not-lt→ltb, le→leb, ◌>>=◌,
}
use sgptp.Prelude.Int.{ℤ, pos}
use native.Mathlib.Nat.{mul-pos}
use sgptp.BitMap.{div_round_up}
use sgptp.TranslationTable.{TranslationTable}
use sgptp.AddrSpace.{
  AddrSpace, max_mapped_files, stack_blank_len, minus, alloc, stack_allocate, mmap, is_null,
  map_pages, stack_pages,
}
use sgptp.AddrSpace.Pages.{Prepared, StackPage, FilePage, stack_pages-Prepared, map_all}

-- An area of n pages fits behind the areas given out.
abbrev pub Room : AddrSpace → ℕ → Type 0
Room s n = s.free_page_id + n < s.translation_table.max_num_pages

abbrev pub Full : AddrSpace → ℕ → Type 0
Full s n = s.translation_table.max_num_pages ≤ s.free_page_id + n

-- The table has an entry for each page that it may be asked for.
abbrev pub HasEntries : AddrSpace → Type 0
HasEntries s = s.translation_table.max_num_pages ≤ length s.translation_table.page_table

alloc-Room :
    (s : AddrSpace) (n : ℕ)
    → Room s n
    → alloc s n ≡ (some s.free_page_id, record s { free_page_id = s.free_page_id + n })
unfolding alloc
alloc-Room s n room =
    let beyond : leb s.translation_table.max_num_pages (s.free_page_id + n) ≡ false =
      ground (arith, room) in
    rw (beyond) refl

alloc-Full : (s : AddrSpace) (n : ℕ) → Full s n → alloc s n ≡ (none, s)
unfolding alloc
alloc-Full s n full = rw (le→leb _ _ full) refl

-- Where the stack is to stand: behind a blank area, or without one where that does not fit.
abbrev pub IsBase : AddrSpace → ℕ → Type 0
IsBase s base =
    (base ≡ s.free_page_id + stack_blank_len) × Room s stack_blank_len
    ⊎ (base ≡ s.free_page_id) × Full s stack_blank_len

-- A stack of n pages stands on page `base`, or it does not fit there and an ASSERT fails.
abbrev pub Stack : ℕ → ℕ → ℕ → AddrSpace → Option (ℤ × AddrSpace) → Type 0
Stack page_size n base s r =
    (base + n < s.translation_table.max_num_pages)
      × ((t' : TranslationTable) × (r
            ≡ some (
              minus ((base + n) * page_size) 16,
              record s { translation_table = t'; free_page_id = base + n },
            ))
          × Prepared StackPage base (base + n) s.translation_table t')
    ⊎ (s.translation_table.max_num_pages ≤ base + n) × (r ≡ none)

module _ (page_size user_stack_size : ℕ) where
  stack_on :
      (s : AddrSpace)
      → HasEntries s
      → let n = div_round_up user_stack_size page_size in
        let stack = alloc s n in
        Stack page_size n s.free_page_id s (do
          base ← stack.0
          t ← stack_pages n base stack.1.translation_table
          some (minus ((base + n) * page_size) 16, record stack.1 { translation_table = t }))
  stack_on s entries =
      let n = div_round_up user_stack_size page_size in
      elim (dec_lt (s.free_page_id + n) s.translation_table.max_num_pages) [
        | yes room ↦
            let (t, done, prepared) =
              stack_pages-Prepared n s.free_page_id s.translation_table (omega arith) entries in
            inl (room, (t, rw (alloc-Room s n room, done) refl, prepared))
        | no beyond ↦ let full : Full s n = omega arith in inr (full, rw (alloc-Full s n full) refl)
      ]

  -- With an entry for each page of the table, StackAllocate either fails its ASSERT, since the stack
  -- does not fit, or returns the address 16 bytes below the end of a new area of the stack's size,
  -- whose pages are invalid, anonymous and may be read and written, and no other page has changed.
  -- The area stands behind a blank one, or at once where no blank one fits.
  pub stack_allocate-Stack :
      (s : AddrSpace)
      → HasEntries s
      → (base : ℕ) × IsBase s base
        × Stack page_size
            (div_round_up user_stack_size page_size)
            base
            s
            (stack_allocate page_size user_stack_size s)
  unfolding stack_allocate
  stack_allocate-Stack s entries =
      elim (dec_lt (s.free_page_id + stack_blank_len) s.translation_table.max_num_pages) [
        | yes room ↦ (
          s.free_page_id + stack_blank_len,
          inl (refl, room),
          rw (alloc-Room s stack_blank_len room)
              (stack_on (record s { free_page_id = s.free_page_id + stack_blank_len }) entries),
        )
        | no beyond ↦
            let full : Full s stack_blank_len = omega arith in
            (
              s.free_page_id,
              inr (refl, full),
              rw (alloc-Full s stack_blank_len full) (stack_on s entries),
            )
      ]

-- A file of n pages is mapped behind the other areas; or no area or no place in the array is left, and
-- the call ends the run.
abbrev pub Mapping : ℕ → ℕ → ℕ → AddrSpace → Option (ℤ × AddrSpace) → Type 0
Mapping page_size n f s r =
    Room s n
      × (length s.mapped_files < max_mapped_files)
      × ((t' : TranslationTable) × (r
            ≡ some (
              pos (s.free_page_id * page_size),
              record {
                translation_table = t';
                free_page_id = s.free_page_id + n;
                mapped_files =
                    s.mapped_files
                    ++ record {
                      first_address = pos (s.free_page_id * page_size);
                      size = n;
                      file = f;
                    }
                      ∷ [];
              },
            ))
          × Prepared (FilePage page_size s.free_page_id) s.free_page_id (s.free_page_id + n)
              s.translation_table t')
    ⊎ (Full s n ⊎ (max_mapped_files ≤ length s.mapped_files)) × (r ≡ none)

not_null : (address : ℕ) → 0 < address → is_null (pos address) ≡ false
not_null zero h = absurd (omega arith)
not_null (suc n) h = refl

-- Pages from -1 on: the first ASSERT fails.
map_pages-none :
    (page_size n : ℕ) (t : TranslationTable) → 0 < n → map_pages page_size n 0 none t ≡ none
unfolding map_pages
map_pages-none page_size zero t h = absurd (omega arith)
map_pages-none page_size (suc n) t h = refl

-- The address of the page -1 is not the one that is tested for.
unmapped : (page_size : ℕ) → 0 < page_size → is_null (minus 0 page_size) ≡ false
unmapped page_size h = rw (lt→ltb 0 page_size h) refl

module _ (page_size : ℕ) where
  -- For a size and a page size above 0, a next free page that is not page 0 and an entry for each page
  -- of the table: Mmap maps the file in a new area behind the others, whose address it returns, and
  -- page k of the area is invalid, may be read and written, and stands in the file from k pages on,
  -- where no other page has changed; or the call ends the run, and then the table has no room for the
  -- area or MAX_MAPPED_FILES files are mapped.
  pub mmap-Mapping :
      (s : AddrSpace) (f size : ℕ)
      → 0 < page_size
      → 0 < s.free_page_id
      → 0 < div_round_up size page_size
      → HasEntries s
      → Mapping page_size (div_round_up size page_size) f s (mmap page_size s f size)
  unfolding mmap
  mmap-Mapping s f size one_byte some_page some_size entries =
      let n = div_round_up size page_size in
      let nonzero : is_null (pos (s.free_page_id * page_size)) ≡ false =
        not_null _ (mul-pos some_page one_byte) in
      elim (dec_lt (length s.mapped_files) max_mapped_files) [
        | no no_place ↦
            let closed : ltb (length s.mapped_files) max_mapped_files ≡ false =
              not-lt→ltb _ _ no_place in
            inr (
              inr (omega arith),
              elim (dec_lt (s.free_page_id + n) s.translation_table.max_num_pages) [
                | yes room ↦ rw (alloc-Room s n room, nonzero, closed) refl
                | no beyond ↦
                    rw (alloc-Full s n (omega arith), unmapped page_size one_byte, closed) refl
              ],
            )
        | yes place ↦ elim (dec_lt (s.free_page_id + n) s.translation_table.max_num_pages) [
          | yes room ↦
              let (t, done, prepared) =
                map_all page_size n s.free_page_id s.translation_table (omega arith) entries in
              inl (
                room,
                place,
                (t, rw (alloc-Room s n room, nonzero, lt→ltb _ _ place, done) refl, prepared),
              )
          | no beyond ↦
              let full : Full s n = omega arith in
              inr (
                inl full,
                rw
                    (
                      alloc-Full s n full,
                      unmapped page_size one_byte,
                      lt→ltb _ _ place,
                      map_pages-none page_size n s.translation_table some_size,
                    )
                    refl,
              )
        ]
      ]
