-- ===== src/BitMap/Search.antt =====
-- The loops of bitmap.cc: the constructor, Find and NumClear.
use sgptp.Prelude.{
  ℕ, zero, suc, ◌+◌, ◌≤◌, ◌<◌, ◌≡◌, refl, ◌∙◌, ◌⊎◌, inl, inr, true, false, Option, none, some, List,
  length, All, ◌==◌, if◌then◌else◌, arith, Bool-cases, dec_lt, ◌^◌,
}
use native.Mathlib.Numerals.{add-one}
use sgptp.BitMap.{
  BitMap, div_round_up, marked, cleared, clear_from, init, find_from, find, count_from, num_clear,
}
use sgptp.BitMap.Words.{bit, IsValid, mark_lem, clear_lem, test_lem}
use sgptp.BitMap.Allocation.{
  Writes, marked-Writes, cleared-Writes, count_clear, FullBelow, count_clear-Full, count_clear-set,
}

count_clear_next :
    (n : ℕ) (b : BitMap) → count_clear (n + 1) b ≡ count_clear n b + (if bit b n then 0 else 1)
unfolding count_clear
count_clear_next n b = rw add-one

count_from_lem :
    (n i count end : ℕ) (b : BitMap)
    → end ≤ b.num_bits
    → i + n ≡ end
    → count ≡ count_clear i b
    → count_from n i count b ≡ some (count_clear end b)
unfolding count_from
count_from_lem zero i count end b h e c = let e' : i ≡ end = omega arith in rw (← e', c)
count_from_lem (suc n) i count end b h e c = rw (test_lem b i (omega arith)) (
    count_from_lem n (i + 1) (if bit b i then count else count + 1) end b h (omega arith)
      (ground (arith, count_clear_next i b)))

-- `NumClear` returns the number of clear bits of the map; it never aborts.
pub num_clear-count_clear : (b : BitMap) → num_clear b ≡ some (count_clear b.num_bits b)
unfolding num_clear
num_clear-count_clear b =
    count_from_lem b.num_bits 0 0 b.num_bits b (omega arith) (omega arith)
      (unfold count_clear in refl)

-- What `Find` may return.
abbrev FoundBelow : ℕ → BitMap → Option (Option ℕ × BitMap) → Type 0
FoundBelow end b r =
    ((r ≡ some (none, b)) × FullBelow end b)
    ⊎ ((i : ℕ) × (r ≡ some (some i, marked b i)) × (i < end) × (bit b i ≡ false) × FullBelow i b)

abbrev pub Found : BitMap → Option (Option ℕ × BitMap) → Type 0
Found b r = FoundBelow b.num_bits b r

FullBelow-next : (i : ℕ) (b : BitMap) → FullBelow i b → bit b i ≡ true → FullBelow (i + 1) b
FullBelow-next i b full t j h = elim (dec_lt j i) [
  | yes below ↦ full j below
  | no last ↦ let e : j ≡ i = omega arith in rw e t
]

find_from-Found :
    (n i end : ℕ) (b : BitMap)
    → end ≤ b.num_bits
    → i + n ≡ end
    → FullBelow i b
    → FoundBelow end b (find_from n i b)
unfolding find_from
find_from-Found zero i end b h e full = let e' : i ≡ end = omega arith in inl (refl, rw (← e') full)
find_from-Found (suc n) i end b h e full = elim (Bool-cases (bit b i)) [
  | inl taken ↦
      rw (test_lem b i (omega arith), taken)
        (find_from-Found n (i + 1) end b h (omega arith) (FullBelow-next i b full taken))
  | inr free ↦
      rw (test_lem b i (omega arith), free, mark_lem b i (omega arith))
        (inr (i, refl, omega arith, free, full))
]

-- `Find` never aborts. Either every bit of the map is set, and it returns -1 and leaves the map as
-- it was; or it returns the first clear bit and marks it.
pub find-Found : (b : BitMap) → Found b (find b)
unfolding find
find-Found b =
    find_from-Found b.num_bits 0 b.num_bits b (omega arith) (omega arith) (λ j h. elim h [ ])

-- While a bit is clear, `Find` takes one: the count of clear bits falls by one.
pub find-count_clear :
    (b : BitMap) (free : ℕ)
    → IsValid b
    → count_clear b.num_bits b ≡ free + 1
    → (i : ℕ) × (find b ≡ some (some i, marked b i))
      × (i < b.num_bits)
      × (bit b i ≡ false)
      × Writes b (marked b i) i true
      × (count_clear b.num_bits (marked b i) ≡ free)
find-count_clear b free v c = elim (find-Found b) [
  | inl (r, full) ↦ absurd (omega (arith, count_clear-Full b.num_bits b full))
  | inr (i, r, lt, clr, full) ↦
      let w = marked-Writes b i v lt in
      (i, r, lt, clr, w, omega (arith, count_clear-set b.num_bits i b (marked b i) w lt clr))
]

-- Every bit below `n` is clear.
abbrev pub ClearBelow : ℕ → BitMap → Type 0
ClearBelow n b = (j : ℕ) → j < n → bit b j ≡ false

clear_from-Clear :
    (n i end : ℕ) (b : BitMap)
    → IsValid b
    → end ≤ b.num_bits
    → i + n ≡ end
    → ClearBelow i b
    → (b' : BitMap) × (clear_from n i b ≡ some b')
      × IsValid b'
      × (b'.num_bits ≡ b.num_bits)
      × ClearBelow end b'
unfolding clear_from
clear_from-Clear zero i end b v h e clr =
    let e' : i ≡ end = omega arith in (b, refl, v, refl, rw (← e') clr)
clear_from-Clear (suc n) i end b v h e clr =
    let w = cleared-Writes b i v (omega arith) in
    rw (clear_lem b i (omega arith)) (
      clear_from-Clear n (i + 1) end (cleared b i) w.valid h (omega arith)
        (λ j lt. w.bits j ∙ below j lt (Bool-cases (i == j))))
  where
    below :
        (j : ℕ)
        → j < i + 1
        → ((i == j) ≡ true) ⊎ ((i == j) ≡ false)
        → (if i == j then false else bit b j) ≡ false
    below j lt (inl same) = rw same
    below j lt (inr other) = rw other (clr j (ground arith))

-- The constructor gives a well-formed map of `nitems` bits, all clear, whatever the memory that it
-- was given held.
pub init-Clear :
    (memory : List ℕ) (nitems : ℕ)
    → length memory ≡ div_round_up nitems 32
    → All (λ w. w < 2 ^ 32) memory
    → (b : BitMap) × (init memory nitems ≡ some b)
      × IsValid b
      × (b.num_bits ≡ nitems)
      × ClearBelow nitems b
unfolding init
init-Clear memory nitems sized fits =
    clear_from-Clear nitems 0 nitems _ (record { sized = refl; filled = sized; fits = fits })
      (omega arith) (omega arith) (λ j h. elim h [ ])
