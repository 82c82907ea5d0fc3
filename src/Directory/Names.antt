-- ===== src/Directory/Names.antt =====
-- Directory names as `strncmp` and `strncpy` see them: equality of the first characters.
use sgptp.Prelude.{ℕ, zero, suc, ◌≡◌, refl, true, List, [], ◌∷◌, arith}
use sgptp.Directory.{strncpy, same_prefix}

pub same_prefix_refl : (n : ℕ) (a : List ℕ) → same_prefix n a a ≡ true
unfolding same_prefix
same_prefix_refl zero a = refl
same_prefix_refl (suc n) [] = refl
same_prefix_refl (suc n) (c ∷ a) = ground (arith, same_prefix_refl n a)

pub same_prefix_comm : (n : ℕ) (a b : List ℕ) → same_prefix n a b ≡ same_prefix n b a
unfolding same_prefix
same_prefix_comm zero a b = refl
same_prefix_comm (suc n) [] [] = refl
same_prefix_comm (suc n) [] (d ∷ b) = refl
same_prefix_comm (suc n) (c ∷ a) [] = refl
same_prefix_comm (suc n) (c ∷ a) (d ∷ b) = ground (arith, same_prefix_comm n a b)

-- Names with the same first characters compare alike with every third name.
pub same_prefix_congr :
    (n : ℕ) (a b c : List ℕ) → same_prefix n a b ≡ true → same_prefix n a c ≡ same_prefix n b c
unfolding same_prefix
same_prefix_congr zero a b c h = refl
same_prefix_congr (suc n) [] [] c h = refl
same_prefix_congr (suc n) [] (y ∷ b) c h = ground arith
same_prefix_congr (suc n) (x ∷ a) [] c h = ground arith
same_prefix_congr (suc n) (x ∷ a) (y ∷ b) [] h = refl
same_prefix_congr (suc n) (x ∷ a) (y ∷ b) (z ∷ c) h = ground (arith, same_prefix_congr n a b c)

-- What `strncpy` stores compares as its source does.
pub same_prefix-strncpy : (n : ℕ) (a b : List ℕ) → same_prefix n (strncpy n a) b ≡ same_prefix n a b
unfolding same_prefix strncpy
same_prefix-strncpy zero a b = refl
same_prefix-strncpy (suc n) [] b = refl
same_prefix-strncpy (suc n) (x ∷ a) [] = refl
same_prefix-strncpy (suc n) (x ∷ a) (y ∷ b) = ground (arith, same_prefix-strncpy n a b)
