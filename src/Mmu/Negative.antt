-- ===== src/Mmu/Negative.antt =====
-- An address just below zero reaches memory in front of the frame of page 0.
use native.Mathlib.Nat.{mul-le-mul_right, mod-eq_of_lt}
use sgptp.Prelude.{
  ℕ, ◌+◌, ◌-◌, ◌*◌, ◌%◌, ◌^◌, ◌≤◌, ◌<◌, ◌≡◌, refl, ap, ◌∙◌, true, some, length, arith, if_true,
  if_false, lt→ltb, le→leb, not-lt→ltb,
}
use sgptp.Mmu.{Cpu, ExceptionType, is_aligned, is_size, page_of, place, write_mem}
use sgptp.Mmu.Bytes.{Stored, store-Stored}
use sgptp.Mmu.Resident.{IsResident, translate_twice-Resident}

abbrev pub below_zero : ℕ → ℕ
below_zero d = 2 ^ 32 - d

page_of-below_zero :
    (page_size d : ℕ)
    → 0 < d
    → d < page_size
    → d < 2 ^ 31
    → page_of page_size (below_zero d) ≡ some 0
page_of-below_zero page_size d some_way near small =
    let same : 2 ^ 32 - below_zero d ≡ d = omega arith in
    if_false _ _ (not-lt→ltb (below_zero d) (2 ^ 31) (omega arith))
    ∙ if_true _ _ (lt→ltb (2 ^ 32 - below_zero d) page_size (omega (arith, same)))

place-below_zero :
    (page_size n d : ℕ)
    → 0 < d
    → d < page_size
    → d < 2 ^ 31
    → d ≤ n * page_size
    → place page_size n (below_zero d) ≡ some (n * page_size - d)
place-below_zero page_size n d some_way near small room =
    let way : 2 ^ 32 - below_zero d ≡ d = omega arith in
    let same = ap (λ x. x % page_size) way ∙ mod-eq_of_lt near in
    if_false _ _ (not-lt→ltb (below_zero d) (2 ^ 31) (omega arith))
    ∙ if_true _ _
        (le→leb ((2 ^ 32 - below_zero d) % page_size) (n * page_size) (omega (arith, same)))
    ∙ ap some (omega (arith, same))

module _ (page_size num_phys_pages : ℕ) (raise : ExceptionType → ℕ → Cpu → Cpu) where
  -- The defect of Translate: let page 0 be in frame `n` with the right to write, and `d` be less than
  -- a page and no more than n pages. An aligned WriteMem at the address -d succeeds, and writes at `n * PageSize - d`, which
  -- lies in front of the frame.
  pub write_mem_before_frame :
      (d size value n : ℕ) (k : Cpu)
      → is_size size ≡ true
      → is_aligned (below_zero d) size ≡ true
      → 0 < d
      → d < page_size
      → d < 2 ^ 31
      → d ≤ n * page_size
      → num_phys_pages * page_size ≤ length k.main_memory
      → n < num_phys_pages
      → IsResident true k.table 0 n
      → (k' : Cpu) × (write_mem page_size num_phys_pages raise (below_zero d) size value k
          ≡ some (true, k'))
        × Stored k.main_memory (n * page_size - d) size value k'.main_memory
        × (n * page_size - d + size ≤ n * page_size)
  unfolding write_mem
  write_mem_before_frame d size value n k sz al some_way near small room enough fits r =
      let a = below_zero d in
      let p = n * page_size - d in
      let (t1, one, r1) =
        translate_twice-Resident page_size num_phys_pages raise a size 0 n p true k al
          (page_of-below_zero page_size d some_way near small)
          (place-below_zero page_size n d some_way near small room) fits r in
      let before : p + size ≤ n * page_size = ground (arith, sz, al) in
      let (mem, done, o) =
        store-Stored k.main_memory p size value
          (omega (arith, before, enough, mul-le-mul_right page_size fits)) in
      (record k { table = t1; main_memory = mem }, rw (one, sz, done) refl, o, before)
