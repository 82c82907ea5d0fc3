-- ===== src/BitMap/Examples.antt =====
-- A map of 40 bits whose first word is full, and runs of its operations.
use sgptp.Prelude.{◌-◌, ◌^◌, ◌≡◌, refl, some, [], ◌∷◌, arith}
use sgptp.BitMap.{BitMap, div_round_up, marked, find, num_clear}
use sgptp.BitMap.Words.{IsValid}
use sgptp.BitMap.Search.{Found, find-Found}

abbrev nearly_full : BitMap
nearly_full = record { num_bits = 40; num_words = 2; map = (2 ^ 32 - 1) ∷ 3 ∷ [] }

nearly_full-IsValid : IsValid nearly_full
unfolding div_round_up
nearly_full-IsValid = record { sized = refl; filled = refl; fits = omega arith }

find_runs : find nearly_full ≡ some (some 34, marked nearly_full 34)
unfolding find
find_runs = refl

num_clear_runs : num_clear nearly_full ≡ some 6
unfolding num_clear
num_clear_runs = refl

find-Found_example : Found nearly_full (find nearly_full)
find-Found_example = find-Found nearly_full
