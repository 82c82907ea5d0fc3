-- ===== src/Mmu/Bytes.antt =====
-- Loads and stores of one, two or four bytes.
use sgptp.Prelude.{
  ℕ, zero, suc, ◌+◌, ◌*◌, ◌/◌, ◌%◌, ◌≤◌, ◌<◌, ◌≡◌, refl, ◌∙◌, some, List, length, get_elem?, set,
  arith, lt→ltb, length-set, get_elem?-set_self, get_elem?-set_ne,
}
use sgptp.Mmu.{load, store}

-- The number that the `n` low bytes of `value` make.
abbrev pub low_bytes : ℕ → ℕ → ℕ
low_bytes zero value = 0
low_bytes (suc n) value = value % 256 + 256 * low_bytes n (value / 256)

-- `memory'` has the low bytes of `value` at `p`, and is else as `memory` was.
pub record Stored (memory : List ℕ) (p n value : ℕ) (memory' : List ℕ) : Type 0 where
  pub size : length memory' ≡ length memory
  pub there : load memory' p n ≡ some (low_bytes n value)
  pub below : (j : ℕ) → j < p → get_elem? memory' j ≡ get_elem? memory j
  pub above : (j : ℕ) → p + n ≤ j → get_elem? memory' j ≡ get_elem? memory j

pub store-Stored :
    (memory : List ℕ) (p n value : ℕ)
    → p + n ≤ length memory
    → (memory' : List ℕ) × (store memory p n value ≡ some memory') × Stored memory p n value memory'
unfolding store load
store-Stored memory p zero value h =
    (memory, refl, record { size = refl; there = refl; below = λ j lt. refl; above = λ j le. refl })
store-Stored memory p (suc n) value h =
    let b = value % 256 in
    let once = set memory p b in
    let same = length-set memory p b in
    let (memory', r, o) = store-Stored once (p + 1) n (value / 256) (omega (arith, same)) in
    let first = o.below p (omega arith) ∙ get_elem?-set_self memory p b (omega arith) in
    (
      memory',
      rw (lt→ltb p (length memory) (omega arith)) r,
      record {
        size = o.size ∙ same;
        there = rw (first, o.there) refl;
        below =
            λ j lt. o.below j (omega arith) ∙ get_elem?-set_ne memory p j b (λ e. omega (arith, e));
        above =
            λ j le. o.above j (omega arith) ∙ get_elem?-set_ne memory p j b (λ e. omega (arith, e));
      },
    )
