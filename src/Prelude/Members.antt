-- ===== src/Prelude/Members.antt =====
-- Which numbers a list holds, and lists that hold none twice.
use Prim.Native.Nat.{ℕ}
use mathlib.Core.Path.{◌≡◌, refl}
use mathlib.Core.Bool.{Bool, false, ◌||◌}
use mathlib.Core.List.{List, [], ◌∷◌, ◌++◌}
use native.Mathlib.Omega.{arith}
use sgptp.Prelude.Tests.{◌==◌}

abbrev pub contains : List ℕ → ℕ → Bool
contains [] j = false
contains (x ∷ xs) j = x == j || contains xs j

abbrev pub Distinct : List ℕ → Type 0
Distinct [] = Unit
Distinct (x ∷ xs) = (contains xs x ≡ false) × Distinct xs

pub contains-append :
    (xs ys : List ℕ) (j : ℕ) → contains (xs ++ ys) j ≡ (contains xs j || contains ys j)
contains-append [] ys j = refl
contains-append (x ∷ xs) ys j = ground (arith, contains-append xs ys j)

-- A new element at the end.
pub contains-snoc : (xs : List ℕ) (x j : ℕ) → contains (xs ++ x ∷ []) j ≡ (contains xs j || x == j)
contains-snoc xs x j = ground (arith, contains-append xs (x ∷ []) j)

pub Distinct-snoc :
    (xs : List ℕ) (x : ℕ) → Distinct xs → contains xs x ≡ false → Distinct (xs ++ x ∷ [])
Distinct-snoc [] x d h = (refl, tt)
Distinct-snoc (y ∷ xs) x d h =
    (ground (arith, contains-snoc xs x y), Distinct-snoc xs x d.1 (ground arith))
