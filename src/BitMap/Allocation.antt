-- ===== src/BitMap/Allocation.antt =====
-- BitMap as a set of bits: what each operation of bitmap.cc returns, aborts included, and how the
-- count of clear bits moves. Its clients (FileHeader, SwapManager, FileSystem) use these laws.
use sgptp.Prelude.{
  ℕ, zero, suc, ◌+◌, ◌≤◌, ◌<◌, ◌≡◌, refl, ◌⊎◌, inl, inr, Bool, true, false, none, some, ◌==◌,
  if◌then◌else◌, arith, dec_lt,
}
use sgptp.BitMap.{BitMap, marked, cleared, mark, clear}
use sgptp.BitMap.Words.{
  bit, IsValid, word_in_map, bit-marked, bit-cleared, marked-IsValid, cleared-IsValid, mark_lem,
  clear_lem,
}

-- The two maps agree but for bit `i`, which is `v` in the second.
pub record Writes (b b' : BitMap) (i : ℕ) (v : Bool) : Type 0 where
  pub valid : IsValid b'
  pub size : b'.num_bits ≡ b.num_bits
  pub bits : (j : ℕ) → bit b' j ≡ (if i == j then v else bit b j)

pub marked-Writes : (b : BitMap) (i : ℕ) → IsValid b → i < b.num_bits → Writes b (marked b i) i true
marked-Writes b i v h = record {
  valid = marked-IsValid b i v;
  size = refl;
  bits = λ j. bit-marked b i j (word_in_map b i v h);
}

pub cleared-Writes :
    (b : BitMap) (i : ℕ) → IsValid b → i < b.num_bits → Writes b (cleared b i) i false
cleared-Writes b i v h = record {
  valid = cleared-IsValid b i v;
  size = refl;
  bits = λ j. bit-cleared b i j (word_in_map b i v h);
}

-- On a well-formed map `Mark` aborts exactly at a bit number out of range, and otherwise sets
-- that bit, leaves every other bit as it was and keeps the map well formed.
pub mark-Writes :
    (b : BitMap) (i : ℕ)
    → IsValid b
    → ((b.num_bits ≤ i) × (mark b i ≡ none))
      ⊎ ((i < b.num_bits) × (mark b i ≡ some (marked b i)) × Writes b (marked b i) i true)
unfolding mark
mark-Writes b i v = elim (dec_lt i b.num_bits) [
  | yes h ↦ inr (h, mark_lem b i h, marked-Writes b i v h)
  | no h ↦ inl (omega arith, ground arith)
]

-- On a well-formed map `Clear` aborts exactly at a bit number out of range, and otherwise clears
-- that bit, leaves every other bit as it was and keeps the map well formed.
pub clear-Writes :
    (b : BitMap) (i : ℕ)
    → IsValid b
    → ((b.num_bits ≤ i) × (clear b i ≡ none))
      ⊎ ((i < b.num_bits) × (clear b i ≡ some (cleared b i)) × Writes b (cleared b i) i false)
unfolding clear
clear-Writes b i v = elim (dec_lt i b.num_bits) [
  | yes h ↦ inr (h, clear_lem b i h, cleared-Writes b i v h)
  | no h ↦ inl (omega arith, ground arith)
]

-- How many of the bits below `n` are clear.
unfoldable pub count_clear : ℕ → BitMap → ℕ
count_clear zero b = 0
count_clear (suc n) b = count_clear n b + (if bit b n then 0 else 1)

-- All bits below `n` are set.
abbrev pub FullBelow : ℕ → BitMap → Type 0
FullBelow n b = (j : ℕ) → j < n → bit b j ≡ true

pub count_clear-Full : (n : ℕ) (b : BitMap) → FullBelow n b → count_clear n b ≡ 0
unfolding count_clear
count_clear-Full zero b full = refl
count_clear-Full (suc n) b full =
    ground (arith, full n (omega arith), count_clear-Full n b (λ j h. full j (omega arith)))

count_clear-unchanged :
    (n i : ℕ) (v : Bool) (b b' : BitMap)
    → Writes b b' i v
    → n ≤ i
    → count_clear n b' ≡ count_clear n b
unfolding count_clear
count_clear-unchanged zero i v b b' w h = refl
count_clear-unchanged (suc n) i v b b' w h =
    ground (arith, w.bits n, count_clear-unchanged n i v b b' w)

-- Setting a clear bit lowers the count by one.
pub count_clear-set :
    (n i : ℕ) (b b' : BitMap)
    → Writes b b' i true
    → i < n
    → bit b i ≡ false
    → count_clear n b' + 1 ≡ count_clear n b
unfolding count_clear
count_clear-set zero i b b' w h c = elim h [ ]
count_clear-set (suc n) i b b' w h c = elim (dec_lt i n) [
  | yes below ↦ ground (arith, w.bits n, count_clear-set n i b b' w below c)
  | no last ↦
      let e : i ≡ n = omega arith in
      ground (arith, w.bits n, e, count_clear-unchanged n i true b b' w (omega arith))
]

-- Clearing a set bit raises it by one.
pub count_clear-clear :
    (n i : ℕ) (b b' : BitMap)
    → Writes b b' i false
    → i < n
    → bit b i ≡ true
    → count_clear n b' ≡ count_clear n b + 1
unfolding count_clear
count_clear-clear zero i b b' w h c = elim h [ ]
count_clear-clear (suc n) i b b' w h c = elim (dec_lt i n) [
  | yes below ↦ ground (arith, w.bits n, count_clear-clear n i b b' w below c)
  | no last ↦
      let e : i ≡ n = omega arith in
      ground (arith, w.bits n, e, count_clear-unchanged n i false b b' w (omega arith))
]
