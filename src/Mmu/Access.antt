-- ===== src/Mmu/Access.antt =====
-- ReadMem and WriteMem on a page in memory: what is written is read back, inside of its frame.
use native.Mathlib.Nat.{mod-mod_of_dvd, dvd_of_mod-eq-zero, mul-le-mul_right}
use sgptp.Prelude.{
  ◌^◌, if_true, lt→ltb, ℕ, ◌+◌, ◌*◌, ◌/◌, ◌%◌, ◌≤◌, ◌<◌, ◌≡◌, refl, true, false, some, length,
  arith,
}
use sgptp.Mmu.{Cpu, ExceptionType, is_aligned, page_of, place, is_size, as_int, read_mem, write_mem}
use sgptp.Mmu.Bytes.{low_bytes, Stored, store-Stored}
use sgptp.Mmu.Resident.{IsResident, IsResident-read, translate_twice-Resident}

-- An aligned access does not cross the end of its page.
within_page :
    (page_size a size : ℕ)
    → 0 < page_size
    → page_size % 4 ≡ 0
    → is_size size ≡ true
    → is_aligned a size ≡ true
    → a % page_size + size ≤ page_size
within_page page_size a size some_bytes fours sz al =
    let by_4 = mod-mod_of_dvd 4 a (dvd_of_mod-eq-zero 4 fours) in
    let twos : page_size % 2 ≡ 0 = omega (arith, fours) in
    let by_2 = mod-mod_of_dvd 2 a (dvd_of_mod-eq-zero 2 twos) in
    let inside : a % page_size < page_size = omega arith in
    ground (arith, by_4, by_2, twos, fours, inside, sz, al)

-- Frames below `num` lie in the first `num * page_size` bytes.
within_memory : (page_size n num : ℕ) → n < num → n * page_size + page_size ≤ num * page_size
within_memory page_size n num h = omega (arith, mul-le-mul_right page_size h)

pub page_of_lem : (page_size a : ℕ) → a < 2 ^ 31 → page_of page_size a ≡ some (a / page_size)
page_of_lem page_size a lo = if_true _ _ (lt→ltb a (2 ^ 31) lo)

pub place_lem :
    (page_size n a : ℕ) → a < 2 ^ 31 → place page_size n a ≡ some (n * page_size + a % page_size)
place_lem page_size n a lo = if_true _ _ (lt→ltb a (2 ^ 31) lo)

module _ (page_size num_phys_pages : ℕ) (raise : ExceptionType → ℕ → Cpu → Cpu) where
  -- For an aligned access of 1, 2 or 4 bytes at an address from 0 on, to a page that is in a frame of the memory and may be
  -- written, pages being a multiple of 4 bytes: WriteMem succeeds and changes those bytes of the
  -- frame alone and no general register, and ReadMem at the same address then succeeds with the low
  -- bytes of the value, as an `int`, and changes no byte.
  pub read_mem-write_mem :
      (a size value n : ℕ) (k : Cpu)
      → is_size size ≡ true
      → is_aligned a size ≡ true
      → a < 2 ^ 31
      → 0 < page_size
      → page_size % 4 ≡ 0
      → num_phys_pages * page_size ≤ length k.main_memory
      → n < num_phys_pages
      → IsResident true k.table (a / page_size) n
      → (k' k'' : Cpu) × (write_mem page_size num_phys_pages raise a size value k ≡ some (true, k'))
        × (read_mem page_size num_phys_pages raise a size k'
            ≡ some (true, as_int size (low_bytes size value), k''))
        × (k''.main_memory ≡ k'.main_memory)
        × (k'.int_registers ≡ k.int_registers)
        × (a % page_size + size ≤ page_size)
        × Stored k.main_memory (n * page_size + a % page_size) size value k'.main_memory
  unfolding write_mem read_mem
  read_mem-write_mem a size value n k sz al lo some_bytes fours enough fits r =
      let p = n * page_size + a % page_size in
      let at = page_of_lem page_size a lo in
      let there = place_lem page_size n a lo in
      let inside = within_page page_size a size some_bytes fours sz al in
      let (t1, one, r1) =
        translate_twice-Resident page_size num_phys_pages raise a size (a / page_size) n p true k al
          at there fits r in
      let (mem, done, o) =
        store-Stored k.main_memory p size value
          (omega (arith, inside, enough, within_memory page_size n num_phys_pages fits)) in
      let k' : Cpu = record k { table = t1; main_memory = mem } in
      let (t2, two, r2) =
        translate_twice-Resident page_size num_phys_pages raise a size (a / page_size) n p false k'
          al at there fits (IsResident-read r1) in
      (
        k',
        record k { table = t2; main_memory = mem },
        rw (one, sz, done) refl,
        rw (two, sz, o.there) refl,
        refl,
        refl,
        inside,
        o,
      )
