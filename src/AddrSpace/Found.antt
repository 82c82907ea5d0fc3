-- ===== src/AddrSpace/Found.antt =====
-- Where the mapped files stand in an address space, and what findMappedFile finds there.
use sgptp.Prelude.{
  ℕ, ◌+◌, ◌*◌, ◌≤◌, ◌<◌, ◌≡◌, refl, sym, ap, ◌∙◌, inl, inr, true, false, none, some, List, [], ◌∷◌,
  ◌++◌, arith,
}
use mathlib.Core.Option.{some-injective}
use native.Mathlib.Nat.{mul-le-mul_right, add-mul}
use sgptp.Prelude.Int.{ℤ, pos}
use sgptp.BitMap.{div_round_up}
use sgptp.AddrSpace.{AddrSpace, MappedFile, stack_allocate, mmap, covers, find_in, find_mapped_file}
use sgptp.AddrSpace.Areas.{HasEntries, stack_allocate-Stack, mmap-Mapping}

-- The files stand on page `low` or behind it in the order of the array, no two share a page, and all
-- end before page `high`.
abbrev pub Ordered : ℕ → ℕ → List MappedFile → ℕ → Type 0
Ordered page_size low [] high = low ≤ high
Ordered page_size low (mf ∷ rest) high =
    (page : ℕ) × (mf.first_address ≡ pos (page * page_size))
    × (low ≤ page)
    × Ordered page_size (page + mf.size) rest high

pub record WellPlaced (page_size : ℕ) (s : AddrSpace) : Type 0 where
  pub entries : HasEntries s
  pub some_page : 0 < s.free_page_id
  pub ordered : Ordered page_size 1 s.mapped_files s.free_page_id

-- One call that gives out an area.
pub data Grows (page_size : ℕ) : AddrSpace → AddrSpace → Type 0 where
  stack :
      {s s' : AddrSpace} {pointer : ℤ} (size : ℕ)
      → stack_allocate page_size size s ≡ some (pointer, s')
      → Grows page_size s s'
  mapping :
      {s s' : AddrSpace} {address : ℤ} (f size : ℕ)
      → 0 < div_round_up size page_size
      → mmap page_size s f size ≡ some (address, s')
      → Grows page_size s s'

pos-injective : {m n : ℕ} → pos m ≡ pos n → m ≡ n
pos-injective eq = cc

module _ (page_size : ℕ) where
  Ordered-above :
      (files : List MappedFile) (low high high' : ℕ)
      → high ≤ high'
      → Ordered page_size low files high
      → Ordered page_size low files high'
  Ordered-above [] low high high' above o = omega arith
  Ordered-above (mf ∷ rest) low high high' above (page, at, behind, o) =
      (page, at, behind, Ordered-above rest (page + mf.size) high high' above o)

  Ordered-append :
      (files : List MappedFile) (low high n f : ℕ)
      → Ordered page_size low files high
      → Ordered page_size low
          (files ++ record { first_address = pos (high * page_size); size = n; file = f } ∷ [])
          (high + n)
  Ordered-append [] low high n f o = (high, refl, o, omega arith)
  Ordered-append (mf ∷ rest) low high n f (page, at, behind, o) =
      (page, at, behind, Ordered-append rest (page + mf.size) high n f o)

  Ordered-le :
      (files : List MappedFile) (low high : ℕ) → Ordered page_size low files high → low ≤ high
  Ordered-le [] low high o = o
  Ordered-le (mf ∷ rest) low high (page, at, behind, o) =
      omega (arith, Ordered-le rest (page + mf.size) high o)

  -- Where the code takes the end of a file to be.
  covered_end :
      (page size : ℕ) → page * page_size + (size + 1) * page_size ≡ (page + (size + 1)) * page_size
  covered_end page size = sym (add-mul page (size + 1) page_size)

  covers-above :
      (page size high addr : ℕ)
      → page + size ≤ high
      → (high + 1) * page_size ≤ addr
      → covers page_size addr (pos (page * page_size)) size ≡ false
  covers-above page size high addr below above =
      let end : (page + (size + 1)) * page_size ≤ (high + 1) * page_size =
        mul-le-mul_right page_size (omega arith) in
      ground (arith, covered_end page size)

  -- A page behind all areas, and one more, is in no file.
  find_in-above :
      (files : List MappedFile) (low high addr : ℕ)
      → Ordered page_size low files high
      → (high + 1) * page_size ≤ addr
      → find_in page_size files addr ≡ none
  unfolding find_in
  find_in-above [] low high addr o above = refl
  find_in-above (mf ∷ rest) low high addr (page, at, behind, o) above =
      rw
        (
          at,
          covers-above page mf.size high addr (Ordered-le rest (page + mf.size) high o) above,
          find_in-above rest (page + mf.size) high addr o above,
        )
        refl

  find_in-append :
      (files : List MappedFile) (last : MappedFile) (addr : ℕ)
      → find_in page_size files addr ≡ none
      → find_in page_size (files ++ last ∷ []) addr ≡ find_in page_size (last ∷ []) addr
  unfolding find_in
  find_in-append [] last addr missing = refl
  find_in-append (mf ∷ rest) last addr missing =
      ground (arith, find_in-append rest last addr, missing)

  find_in-found :
      (files : List MappedFile) (last : MappedFile) (addr f : ℕ)
      → find_in page_size files addr ≡ some f
      → find_in page_size (files ++ last ∷ []) addr ≡ some f
  unfolding find_in
  find_in-found [] last addr f found = cc
  find_in-found (mf ∷ rest) last addr f found =
      ground (arith, find_in-found rest last addr f, found)

  -- The last file, from its second page on, and one page behind its end.
  find_in-last :
      (files : List MappedFile) (high n f addr : ℕ)
      → Ordered page_size 1 files high
      → high * page_size + page_size ≤ addr
      → addr < high * page_size + (n + 1) * page_size
      → find_in page_size
          (files ++ record { first_address = pos (high * page_size); size = n; file = f } ∷ [])
          addr
        ≡ some f
  unfolding find_in
  find_in-last files high n f addr o behind inside =
      let above : (high + 1) * page_size ≤ addr = omega (arith, add-mul high 1 page_size) in
      let covered : covers page_size addr (pos (high * page_size)) n ≡ true = ground arith in
      find_in-append files _ addr (find_in-above files 1 high addr o above) ∙ rw (covered) refl

  mapping-Placed :
      (s s' : AddrSpace) (address : ℤ) (f size : ℕ)
      → 0 < page_size
      → WellPlaced page_size s
      → 0 < div_round_up size page_size
      → mmap page_size s f size ≡ some (address, s')
      → (address ≡ pos (s.free_page_id * page_size))
        × (s'.free_page_id ≡ s.free_page_id + div_round_up size page_size)
        × (s'.mapped_files
            ≡ s.mapped_files
              ++ record {
                first_address = pos (s.free_page_id * page_size);
                size = div_round_up size page_size;
                file = f;
              }
                ∷ [])
        × HasEntries s'
  mapping-Placed s s' address f size one_byte w some_size done =
      elim (mmap-Mapping page_size s f size one_byte w.some_page some_size w.entries) [
        | inl (room, place, (t, made, prepared)) ↦
            let both = some-injective _ _ (sym done ∙ made) in
            let table : s'.translation_table ≡ t = ap (λ p. p.1.translation_table) both in
            (
              ap (λ p. p.0) both,
              ap (λ p. p.1.free_page_id) both,
              ap (λ p. p.1.mapped_files) both,
              rw (table) (omega (arith, prepared.same_max, prepared.same_length, w.entries)),
            )
        | inr (why, failed) ↦ cc
      ]

  -- After each call of StackAllocate, and of Mmap with a size above 0, that returns, the mapped files
  -- share no page and end before the next free page, if they did so before, and the table still has
  -- an entry for each of its pages.
  pub Grows-WellPlaced :
      (s s' : AddrSpace)
      → 0 < page_size
      → WellPlaced page_size s
      → Grows page_size s s'
      → WellPlaced page_size s'
  Grows-WellPlaced s s' one_byte w (mapping {address} f size some_size done) =
      let (at, free, files, entries) =
        mapping-Placed s s' address f size one_byte w some_size done in
      record {
        entries = entries;
        some_page = omega (arith, w.some_page);
        ordered =
            rw (free, files)
              (Ordered-append s.mapped_files 1 s.free_page_id (div_round_up size page_size) f
                w.ordered);
      }
  Grows-WellPlaced s s' one_byte w (stack {pointer} size done) =
      let (base, where_to, stands) = stack_allocate-Stack page_size size s w.entries in
      elim stands [
        | inr (why, failed) ↦ cc
        | inl (room, (t, made, prepared)) ↦
            let both = some-injective _ _ (sym done ∙ made) in
            let table : s'.translation_table ≡ t = ap (λ p. p.1.translation_table) both in
            let files : s'.mapped_files ≡ s.mapped_files = ap (λ p. p.1.mapped_files) both in
            let free : s'.free_page_id ≡ base + div_round_up size page_size =
              ap (λ p. p.1.free_page_id) both in
            let above : s.free_page_id ≤ base = ground (arith, where_to) in
            record {
              entries =
                  rw (table) (omega (arith, prepared.same_max, prepared.same_length, w.entries));
              some_page = omega (arith, w.some_page);
              ordered = rw (files) (
                  Ordered-above s.mapped_files 1 s.free_page_id s'.free_page_id (omega arith)
                    w.ordered);
            }
      ]

  -- An address in a file that was just mapped, a page or more behind its first one, is found to be in
  -- that file, whatever was mapped before.
  pub find_mapped_file-mmap :
      (s s' : AddrSpace) (f size start addr : ℕ)
      → 0 < page_size
      → WellPlaced page_size s
      → 0 < div_round_up size page_size
      → mmap page_size s f size ≡ some (pos start, s')
      → start + page_size ≤ addr
      → addr < start + div_round_up size page_size * page_size
      → find_mapped_file page_size s' addr ≡ some f
  unfolding find_mapped_file find_in
  find_mapped_file-mmap s s' f size start addr one_byte w some_size done behind inside =
      let (at, free, files, entries) = mapping-Placed s s' _ f size one_byte w some_size done in
      let n = div_round_up size page_size in
      let here : start ≡ s.free_page_id * page_size = pos-injective at in
      rw (files) (
        find_in-last s.mapped_files s.free_page_id n f addr w.ordered (omega arith)
          (omega (arith, add-mul n 1 page_size)))

  -- Of two files mapped one after the other, the address that the second call returns is found to be
  -- in the first file: a file's end is taken to be one page behind its last one.
  pub find_mapped_file-mmap_next :
      (s s1 s2 : AddrSpace) (f size g size' first second : ℕ)
      → 0 < page_size
      → WellPlaced page_size s
      → 0 < div_round_up size page_size
      → 0 < div_round_up size' page_size
      → mmap page_size s f size ≡ some (pos first, s1)
      → mmap page_size s1 g size' ≡ some (pos second, s2)
      → find_mapped_file page_size s2 second ≡ some f
  unfolding find_mapped_file find_in
  find_mapped_file-mmap_next s s1 s2 f size g size' first second one_byte w some_size some_size'
        done done' =
      let (at, free, files, entries) = mapping-Placed s s1 _ f size one_byte w some_size done in
      let w1 = Grows-WellPlaced s s1 one_byte w (mapping f size some_size done) in
      let (at', free', files', entries') =
        mapping-Placed s1 s2 _ g size' one_byte w1 some_size' done' in
      let n = div_round_up size page_size in
      let next : second ≡ (s.free_page_id + n) * page_size = rw (sym free) (pos-injective at') in
      let one_page : 1 * page_size ≤ n * page_size = mul-le-mul_right page_size some_size in
      let first_file : find_in page_size s1.mapped_files second ≡ some f = rw (files) (
        find_in-last s.mapped_files s.free_page_id n f second w.ordered
          (omega (arith, add-mul s.free_page_id n page_size))
          (omega (arith, add-mul s.free_page_id n page_size, add-mul n 1 page_size))) in
      rw (files') (find_in-found s1.mapped_files _ second f first_file)
