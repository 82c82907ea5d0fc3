-- ===== src/OpenFile/Copies.antt =====
-- nachos/filesys/openfile.cc: what `bcopy` copies.
use sgptp.Prelude.{
  ℕ, zero, suc, ◌+◌, ◌≤◌, ◌<◌, ◌≡◌, refl, sym, ◌∙◌, some, List, length, get_elem?, get_elem?-lt,
  set, arith, lt→ltb, length-set, get_elem?-set_self, get_elem?-set_ne,
}
use sgptp.OpenFile.{bcopy}

-- `dst'` has the n bytes of `src` from i on at its place j, and is `dst` elsewhere.
pub record Copied (n : ℕ) (src : List ℕ) (i : ℕ) (dst : List ℕ) (j : ℕ) (dst' : List ℕ)
    : Type 0 where
  pub size : length dst' ≡ length dst
  pub inside : (k : ℕ) → k < n → get_elem? dst' (j + k) ≡ get_elem? src (i + k)
  pub below : (k : ℕ) → k < j → get_elem? dst' k ≡ get_elem? dst k
  pub above : (k : ℕ) → j + n ≤ k → get_elem? dst' k ≡ get_elem? dst k

add-zero : (a : ℕ) → a + 0 ≡ a
add-zero a = omega arith

add-one : (a k : ℕ) → a + suc k ≡ a + 1 + k
add-one a k = omega arith

pub bcopy-Copied :
    (n : ℕ) (src : List ℕ) (i : ℕ) (dst : List ℕ) (j : ℕ)
    → i + n ≤ length src
    → j + n ≤ length dst
    → (dst' : List ℕ) × (bcopy n src i dst j ≡ some dst') × Copied n src i dst j dst'
unfolding bcopy
bcopy-Copied zero src i dst j p q = (
  dst,
  refl,
  record {
    size = refl;
    inside = λ k h. absurd (omega arith);
    below = λ k h. refl;
    above = λ k h. refl;
  },
)
bcopy-Copied (suc n) src i dst j p q =
    let (b, here) = get_elem?-lt src i (omega arith) in
    let one = set dst j b in
    let long = length-set dst j b in
    let (dst', rest, c) =
      bcopy-Copied n src (i + 1) one (j + 1) (omega arith) (omega (arith, long)) in
    (
      dst',
      rw (here, lt→ltb j (length dst) (omega arith)) rest,
      record {
        size = c.size ∙ long;
        inside = λ k. elim k as (λ k. k < suc n → get_elem? dst' (j + k) ≡ get_elem? src (i + k)) [
          | zero ↦ λ h.
              rw (add-zero j, add-zero i)
                (c.below j (omega arith) ∙ get_elem?-set_self dst j b (omega arith) ∙ sym here)
          | suc k ↦ λ h. rw (add-one j k, add-one i k) (c.inside k (omega arith))
        ];
        below = λ k h. c.below k (omega arith) ∙ get_elem?-set_ne dst j k b (λ e. omega (arith, e));
        above = λ k h. c.above k (omega arith) ∙ get_elem?-set_ne dst j k b (λ e. omega (arith, e));
      },
    )
