-- ===== src/SwapManager/Examples.antt =====
-- A swap area of 4 sectors of 8 bytes, of which sector 0 is taken.
use sgptp.Prelude.{ℕ, ◌+◌, ◌≡◌, refl, some, [], ◌∷◌, replicate, arith}
use sgptp.Prelude.Int.{pos, negsuc}
use sgptp.BitMap.{BitMap, div_round_up}
use sgptp.BitMap.Words.{bit, IsValid}
use sgptp.BitMap.Allocation.{count_clear}
use sgptp.SwapManager.{SwapManager, put_page_swap}
use sgptp.SwapManager.Pages.{Swapped, put_page_swap-Swapped}

abbrev flags : BitMap
flags = record { num_bits = 4; num_words = 1; map = 1 ∷ [] }

flags-IsValid : IsValid flags
unfolding div_round_up
flags-IsValid = record { sized = refl; filled = refl; fits = omega arith }

three_free : count_clear 4 flags ≡ 2 + 1
three_free = unfold count_clear bit in refl

abbrev area : SwapManager
area = record { page_flags = flags; swap_disk = replicate 32 0 }

put_page_swap-Swapped_example :
    (s : ℕ) × (m' : SwapManager) × (put_page_swap 8 4 area (negsuc 0) (replicate 8 5)
      ≡ some (pos s, m'))
    × Swapped 8 4 area (replicate 8 5) (replicate 8 0) s m'
put_page_swap-Swapped_example =
    put_page_swap-Swapped 8 4 area (replicate 8 5) (replicate 8 0) 2 flags-IsValid refl three_free
      refl refl refl
