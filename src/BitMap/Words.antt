-- ===== src/BitMap/Words.antt =====
-- What the word operations of bitmap.cc do to the bits that the words stand for.
use Prim.Native.Nat.{bit_and, bit_or}
use native.Mathlib.Nat.{pow-suc}
use sgptp.Prelude.{
  ℕ, zero, suc, ◌-◌, ◌/◌, ◌%◌, ◌^◌, ◌<◌, ◌≡◌, ◌≢◌, refl, ◌∙◌, Bool, true, false, not, some, List,
  [], ◌∷◌, length, get_or, set, All, ◌==◌, if◌then◌else◌, arith, lt→ltb, length-set,
  get_or-set_self, get_or-set_ne, dec_lt, ℕ_discrete,
}
use sgptp.Prelude.Bits.{
  test_bit, test_bit-bit_or, test_bit-bit_and, test_bit-pow, test_bit-complement, bit_and-pow_zero,
  bit_or-lt, bit_and-lt,
}
use sgptp.BitMap.{BitMap, div_round_up, mask, word, marked, cleared, mark, clear, test}

-- Bit `j` of the map, read off its word.
unfoldable pub bit : BitMap → ℕ → Bool
unfolding test_bit
bit b j = test_bit (word b j) (j % 32)

-- The array has the words that the constructor asked for, and each of them is a word.
pub record IsValid (b : BitMap) : Type 0 where
  pub sized : b.num_words ≡ div_round_up b.num_bits 32
  pub filled : length b.map ≡ b.num_words
  pub fits : All (λ w. w < 2 ^ 32) b.map

pub word_in_map : (b : BitMap) (i : ℕ) → IsValid b → i < b.num_bits → i / 32 < length b.map
unfolding div_round_up
word_in_map b i v h = ground arith

pow-lt_of_lt : (n k : ℕ) → k < n → 2 ^ k < 2 ^ n
pow-lt_of_lt zero k h = elim h [ ]
pow-lt_of_lt (suc n) k h = elim (dec_lt k n) [
  | yes below ↦ omega (arith, pow-suc 2 n, pow-lt_of_lt n k below)
  | no last ↦ let e : k ≡ n = omega arith in rw e (omega (arith, pow-suc 2 n, pow_pos n))
]
  where
    pow_pos : (m : ℕ) → 0 < 2 ^ m
    pow_pos zero = omega arith
    pow_pos (suc m) = omega (arith, pow-suc 2 m, pow_pos m)

pub mask-lt : (i : ℕ) → mask i < 2 ^ 32
mask-lt i = pow-lt_of_lt 32 (i % 32) (omega arith)

same_place : (i j : ℕ) → i / 32 ≡ j / 32 → (i % 32 == j % 32) ≡ (i == j)
same_place i j h = ground arith

other_place : (i j : ℕ) → i / 32 ≢ j / 32 → (i == j) ≡ false
other_place i j h = ground arith

-- `Mark` sets its bit and no other.
pub bit-marked :
    (b : BitMap) (i j : ℕ)
    → i / 32 < length b.map
    → bit (marked b i) j ≡ (if i == j then true else bit b j)
unfolding bit
bit-marked b i j h = elim (ℕ_discrete (i / 32) (j / 32)) [
  | yes e ↦
      rw
        (
          ← e,
          get_or-set_self b.map (i / 32) (bit_or (get_or b.map (i / 32) 0) (mask i)) 0 h,
          test_bit-bit_or (get_or b.map (i / 32) 0) (mask i) (j % 32),
          test_bit-pow (i % 32) (j % 32),
          same_place i j e,
        )
        (ground arith)
  | no d ↦ rw (
    get_or-set_ne b.map (i / 32) (j / 32) (bit_or (get_or b.map (i / 32) 0) (mask i)) 0 d,
    other_place i j d,
  )
]

-- `Clear` clears its bit and no other.
pub bit-cleared :
    (b : BitMap) (i j : ℕ)
    → i / 32 < length b.map
    → bit (cleared b i) j ≡ (if i == j then false else bit b j)
unfolding bit
bit-cleared b i j h = elim (ℕ_discrete (i / 32) (j / 32)) [
  | yes e ↦
      rw
        (
          ← e,
          get_or-set_self b.map (i / 32) (bit_and (get_or b.map (i / 32) 0) (2 ^ 32 - 1 - mask i)) 0
              h,
          test_bit-bit_and (get_or b.map (i / 32) 0) (2 ^ 32 - 1 - mask i) (j % 32),
          test_bit-complement 32 (mask i) (j % 32) (mask-lt i) (omega arith),
          test_bit-pow (i % 32) (j % 32),
          same_place i j e,
        )
        (ground arith)
  | no d ↦ rw (
    get_or-set_ne b.map (i / 32) (j / 32) (bit_and (get_or b.map (i / 32) 0) (2 ^ 32 - 1 - mask i))
        0 d,
    other_place i j d,
  )
]

pub All-set :
    (xs : List ℕ) (i v n : ℕ) → All (λ w. w < n) xs → v < n → All (λ w. w < n) (set xs i v)
All-set [] i v n h lt = tt
All-set (x ∷ xs) zero v n h lt = (lt, h.1)
All-set (x ∷ xs) (suc i) v n h lt = (h.0, All-set xs i v n h.1 lt)

get_or-lt : (xs : List ℕ) (i n : ℕ) → 0 < n → All (λ w. w < n) xs → get_or xs i 0 < n
get_or-lt [] i n pos h = pos
get_or-lt (x ∷ xs) zero n pos h = h.0
get_or-lt (x ∷ xs) (suc i) n pos h = get_or-lt xs i n pos h.1

word-lt : (b : BitMap) (i : ℕ) → IsValid b → word b i < 2 ^ 32
word-lt b i v = get_or-lt b.map (i / 32) (2 ^ 32) (omega arith) v.fits

pub marked-IsValid : (b : BitMap) (i : ℕ) → IsValid b → IsValid (marked b i)
marked-IsValid b i v = record {
  sized = v.sized;
  filled = length-set b.map _ _ ∙ v.filled;
  fits =
      All-set b.map _ _ (2 ^ 32) v.fits
        (bit_or-lt 32 (word b i) (mask i) (word-lt b i v) (mask-lt i));
}

pub cleared-IsValid : (b : BitMap) (i : ℕ) → IsValid b → IsValid (cleared b i)
cleared-IsValid b i v = record {
  sized = v.sized;
  filled = length-set b.map _ _ ∙ v.filled;
  fits =
      All-set b.map _ _ (2 ^ 32) v.fits
        (bit_and-lt 32 (word b i) (2 ^ 32 - 1 - mask i) (word-lt b i v));
}

-- In range the three operations do not abort.
pub mark_lem : (b : BitMap) (i : ℕ) → i < b.num_bits → mark b i ≡ some (marked b i)
unfolding mark
mark_lem b i h = ground arith

pub clear_lem : (b : BitMap) (i : ℕ) → i < b.num_bits → clear b i ≡ some (cleared b i)
unfolding clear
clear_lem b i h = ground arith

pub test_lem : (b : BitMap) (i : ℕ) → i < b.num_bits → test b i ≡ some (bit b i)
unfolding test bit
test_lem b i h = rw (lt→ltb i b.num_bits h, bit_and-pow_zero (word b i) (i % 32)) (twice (bit' i))
  where
    bit' : ℕ → Bool
    bit' k = test_bit (word b k) (k % 32)

    twice : (x : Bool) → some (if not x then false else true) ≡ some x
    twice true = refl
    twice false = refl
