-- ===== src/BitMap.antt =====
-- nachos/utility/bitmap.h and bitmap.cc: an array of bits held in 32-bit words. A bit number is
-- an `int`; every caller has ruled the negative ones out, so it is a natural number here, and the
-- upper half of each `ASSERT` is kept. `-1` as a result is `none`.
pub mod Words
pub mod Allocation
pub mod Search
mod Examples
use Prim.Native.Nat.{bit_and, bit_or}
use sgptp.Prelude.{
  ℕ, zero, suc, ◌+◌, ◌-◌, ◌/◌, ◌%◌, ◌^◌, Bool, true, false, Option, none, some, List, get_or, set,
  ltb, ◌==◌, if◌then◌else◌, ◌>>=◌, ◌>>◌, assert,
}

abbrev pub bits_in_word : ℕ
bits_in_word = 32

pub record BitMap : Type 0 where
  pub num_bits : ℕ
  pub num_words : ℕ
  pub map : List ℕ

-- The macro `divRoundUp` of utility.h.
unfoldable pub div_round_up : ℕ → ℕ → ℕ
div_round_up n s = n / s + (if ltb 0 (n % s) then 1 else 0)

-- `1 << (which % BITS_IN_WORD)`.
abbrev pub mask : ℕ → ℕ
mask which = 2 ^ (which % bits_in_word)

-- `map[which / BITS_IN_WORD]`.
abbrev pub word : BitMap → ℕ → ℕ
word b which = get_or b.map (which / bits_in_word) 0

abbrev pub marked : BitMap → ℕ → BitMap
marked b which = record b {
  map = set b.map (which / bits_in_word) (bit_or (word b which) (mask which));
}

abbrev pub cleared : BitMap → ℕ → BitMap
cleared b which = record b {
  map = set b.map (which / bits_in_word) (bit_and (word b which) (2 ^ 32 - 1 - mask which));
}

unfoldable pub mark : BitMap → ℕ → Option BitMap
mark b which = do assert (ltb which b.num_bits); some (marked b which)

unfoldable pub clear : BitMap → ℕ → Option BitMap
clear b which = do assert (ltb which b.num_bits); some (cleared b which)

unfoldable pub test : BitMap → ℕ → Option Bool
test b which = do
  assert (ltb which b.num_bits)
  some (if bit_and (word b which) (mask which) == 0 then false else true)

-- `for (i = 0; i < numBits; i++) Clear(i)`, by the rounds that are left.
pub clear_from : ℕ → ℕ → BitMap → Option BitMap
clear_from zero i b = some b
clear_from (suc n) i b = do b' ← clear b i; clear_from n (i + 1) b'

-- The constructor. `memory` is what `new unsigned int[numWords]` returns, which nothing has set.
unfoldable pub init : List ℕ → ℕ → Option BitMap
unfolding clear_from clear div_round_up
init memory nitems =
    clear_from nitems 0
      (record { num_bits = nitems; num_words = div_round_up nitems bits_in_word; map = memory })

unfoldable pub find_from : ℕ → ℕ → BitMap → Option (Option ℕ × BitMap)
find_from zero i b = some (none, b)
find_from (suc n) i b = do
  taken ← test b i
  let rest = find_from n (i + 1) b
  if taken then rest else (mark b i >>= λ b'. some (some i, b'))

unfoldable pub find : BitMap → Option (Option ℕ × BitMap)
unfolding find_from test mark
find b = find_from b.num_bits 0 b

unfoldable pub count_from : ℕ → ℕ → ℕ → BitMap → Option ℕ
count_from zero i count b = some count
count_from (suc n) i count b = do
  taken ← test b i
  count_from n (i + 1) (if taken then count else count + 1) b

unfoldable pub num_clear : BitMap → Option ℕ
unfolding count_from test
num_clear b = count_from b.num_bits 0 0 b
