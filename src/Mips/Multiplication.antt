-- ===== src/Mips/Multiplication.antt =====
-- nachos/machine/mipssim.cc: what Mult computes.
use Prim.Native.Nat.{bit_and}
use native.Mathlib.Nat.{pow-suc}
use sgptp.Prelude.{
  ℕ, zero, suc, ◌+◌, ◌-◌, ◌*◌, ◌/◌, ◌%◌, ◌^◌, ◌≤◌, ◌<◌, ◌≡◌, refl, ap, ◌∙◌, Bool, true, false, not,
  ltb, ◌==◌, if◌then◌else◌, ◌&&◌, arith, if_true, Bool-cases, inl, inr,
}
use sgptp.Prelude.Bits.{bit_and-pow_zero, bit_and_step}
use sgptp.Prelude.Masks.{test_bit-top, bit_and-ones, bit_or-even_one, bit_and-one}
use sgptp.Mips.Words.{add32, has_sign, shift_left, shift_right, carry, double_hi, mult_rounds}

-- The sign bit is set exactly in the patterns from 2 ^ 31 on.
pub has_sign_lem : (a : ℕ) → a < 2 ^ 32 → has_sign a ≡ not (ltb a (2 ^ 31))
has_sign_lem a h = ground (arith, bit_and-pow_zero a 31, test_bit-top 31 a h)

abbrev pub double_word : ℕ × ℕ → ℕ
double_word (hi, lo) = hi * 2 ^ 32 + lo

wide_add :
    (bl bh lo hi : ℕ)
    → bl < 2 ^ 32
    → bh < 2 ^ 32
    → lo < 2 ^ 32
    → hi < 2 ^ 32
    → double_word (add32 (carry (add32 lo bl) bl hi) bh, add32 lo bl)
      ≡ (hi * 2 ^ 32 + lo + (bh * 2 ^ 32 + bl)) % 2 ^ 64
wide_add bl bh lo hi p q r s = ground arith

wide_double :
    (bl bh : ℕ)
    → bl < 2 ^ 32
    → bh < 2 ^ 32
    → double_word (double_hi bl bh, shift_left bl 1) ≡ 2 * (bh * 2 ^ 32 + bl) % 2 ^ 64
wide_double bl bh p q =
    ground (arith, has_sign_lem bl p, bit_or-even_one (shift_left bh 1) (omega arith))

-- The last n bits of a number, from the first of them on.
unfoldable pub low : ℕ → ℕ → ℕ
low zero a = 0
low (suc n) a = a % 2 + 2 * low n (a / 2)

pub low-all : (n a : ℕ) → a < 2 ^ n → low n a ≡ a
unfolding low
low-all zero a h = omega arith
low-all (suc n) a h = omega (arith, pow-suc 2 n, low-all n (a / 2) (omega (arith, pow-suc 2 n)))

low-add_pow : (n k a : ℕ) → n ≤ k → low n (a + 2 ^ k) ≡ low n a
unfolding low
low-add_pow zero k a h = refl
low-add_pow (suc n) zero a h = absurd (omega arith)
low-add_pow (suc n) (suc k) a h =
    let half : (a + 2 ^ suc k) / 2 ≡ a / 2 + 2 ^ k = omega (arith, pow-suc 2 k) in
    let rest : low n ((a + 2 ^ suc k) / 2) ≡ low n (a / 2) =
      ap (low n) half ∙ low-add_pow n k (a / 2) (omega arith) in
    omega (arith, pow-suc 2 k, rest)

low-zero : (n a : ℕ) → a ≡ 0 → low n a ≡ 0
unfolding low
low-zero zero a h = refl
low-zero (suc n) a h = omega (arith, low-zero n (a / 2) (omega arith))

low-shift_right : (n a : ℕ) → n ≤ 31 → a < 2 ^ 32 → low n (shift_right a 1) ≡ low n (a / 2)
low-shift_right n a h fits = elim (Bool-cases (ltb a (2 ^ 31))) [
  | inl small ↦ ap (low n) (if_true _ _ small)
  | inr large ↦
      let shifted : shift_right a 1 ≡ a / 2 + 2 ^ 31 = ground arith in
      ap (low n) shifted ∙ low-add_pow n 31 (a / 2) h
]

mod_times : (m x y : ℕ) → (x % 2 ^ 64 + m * (y % 2 ^ 64)) % 2 ^ 64 ≡ (x + m * y) % 2 ^ 64
mod_times zero x y = omega arith
mod_times (suc m) x y = omega (arith, mod_times m x y)

-- The words that the loop starts a round with are of 32 bits, and are so again in the next one.
abbrev pub IsWord : ℕ → Type 0
IsWord a = a < 2 ^ 32

double_hi-IsWord : (bl bh : ℕ) → IsWord bl → IsWord bh → IsWord (double_hi bl bh)
double_hi-IsWord bl bh p q =
    ground (arith, has_sign_lem bl p, bit_or-even_one (shift_left bh 1) (omega arith))

shift_right-IsWord : (a : ℕ) → IsWord a → IsWord (shift_right a 1)
shift_right-IsWord a p = ground arith

-- The loop ends with a remaining 1.
last_round :
    (n a : ℕ) → IsWord a → a % 2 ≡ 1 → (bit_and a (2 ^ 32 - 2) == 0) ≡ true → low n (a / 2) ≡ 0
last_round n a fits odd none_left =
    low-zero n (a / 2)
      (ground (arith, bit_and_step a (2 ^ 32 - 2), bit_and-ones 31 (a / 2) (omega arith)))

-- One round, by its tests `odd` and `last`, before the rounds that follow.
module _ (n a bl bh : ℕ) (le : suc n ≤ 32) (fits : IsWord a) (p : IsWord bl) (q : IsWord bh) where
  abbrev later : ℕ → ℕ → ℕ × ℕ
  unfolding mult_rounds
  later = mult_rounds n (shift_right a 1) (shift_left bl 1) (double_hi bl bh)

  abbrev LaterAdds : Type 0
  unfolding mult_rounds low
  LaterAdds =
      (lo hi : ℕ)
      → IsWord lo
      → IsWord hi
      → double_word (later lo hi)
        ≡ (hi * 2 ^ 32
            + lo
            + low n (shift_right a 1) * double_word (double_hi bl bh, shift_left bl 1))
          % 2 ^ 64

  later-double_word :
      (lo hi : ℕ)
      → LaterAdds
      → IsWord lo
      → IsWord hi
      → double_word (later lo hi)
        ≡ (hi * 2 ^ 32 + lo + low n (a / 2) * (2 * (bh * 2 ^ 32 + bl))) % 2 ^ 64
  unfolding mult_rounds low
  later-double_word lo hi adds s t =
      let b = bh * 2 ^ 32 + bl in
      let product : low n (shift_right a 1) * double_word (double_hi bl bh, shift_left bl 1)
          ≡ low n (a / 2) * (2 * b % 2 ^ 64) =
        ap (λ m. m * double_word (double_hi bl bh, shift_left bl 1))
          (low-shift_right n a (omega arith) fits)
        ∙ ap (λ w. low n (a / 2) * w) (wide_double bl bh p q) in
      omega (arith, adds lo hi s t, product, mod_times (low n (a / 2)) (hi * 2 ^ 32 + lo) (2 * b))

  round-double_word :
      (lo hi : ℕ) (odd last : Bool)
      → IsWord lo
      → IsWord hi
      → LaterAdds
      → (not (bit_and a 1 == 0)) ≡ odd
      → (bit_and a (2 ^ 32 - 2) == 0) ≡ last
      → (let lo' = if odd then add32 lo bl else lo in
          let hi' = if odd then add32 (carry lo' bl hi) bh else hi in
          double_word (if odd && last then (hi', lo') else later lo' hi'))
        ≡ (hi * 2 ^ 32 + lo + low (suc n) a * (bh * 2 ^ 32 + bl)) % 2 ^ 64
  unfolding mult_rounds low
  round-double_word lo hi false last s t adds o l =
      let parity : a % 2 ≡ 0 = ground (arith, bit_and-one a) in
      rw parity (omega (arith, later-double_word lo hi adds s t))
  round-double_word lo hi true true s t adds o l =
      let parity : a % 2 ≡ 1 = ground (arith, bit_and-one a) in
      rw (parity, last_round n a fits parity l) (wide_add bl bh lo hi p q s t ∙ omega arith)
  round-double_word lo hi true false s t adds o l =
      let parity : a % 2 ≡ 1 = ground (arith, bit_and-one a) in
      let lo' = add32 lo bl in
      let hi' = add32 (carry lo' bl hi) bh in
      rw parity (
        omega (
          arith,
          later-double_word lo' hi' adds (omega arith) (omega arith),
          wide_add bl bh lo hi p q s t,
        ))

-- What the rounds that are left add to hi and lo.
pub mult_rounds-double_word :
    (n a bl bh lo hi : ℕ)
    → n ≤ 32
    → IsWord a
    → IsWord bl
    → IsWord bh
    → IsWord lo
    → IsWord hi
    → double_word (mult_rounds n a bl bh lo hi)
      ≡ (hi * 2 ^ 32 + lo + low n a * (bh * 2 ^ 32 + bl)) % 2 ^ 64
unfolding mult_rounds low
mult_rounds-double_word zero a bl bh lo hi le p q r s t = omega arith
mult_rounds-double_word (suc n) a bl bh lo hi le p q r s t =
    round-double_word n a bl bh le p q r lo hi _ _ s t
      (λ lo' hi' s' t'.
        mult_rounds-double_word n (shift_right a 1) (shift_left bl 1) (double_hi bl bh) lo' hi'
          (omega arith) (shift_right-IsWord a p) (omega arith) (double_hi-IsWord bl bh q r) s' t')
      refl refl

abbrev pub AreWords : ℕ × ℕ → Type 0
AreWords (hi, lo) = IsWord hi × IsWord lo

AreWords-if : (b : Bool) (x y : ℕ × ℕ) → AreWords x → AreWords y → AreWords (if b then x else y)
AreWords-if true x y p q = p
AreWords-if false x y p q = q

pub mult_rounds-AreWords :
    (n a bl bh lo hi : ℕ) → IsWord lo → IsWord hi → AreWords (mult_rounds n a bl bh lo hi)
unfolding mult_rounds
mult_rounds-AreWords zero a bl bh lo hi s t = (t, s)
mult_rounds-AreWords (suc n) a bl bh lo hi s t =
    let odd = not (bit_and a 1 == 0) in
    let lo' = if odd then add32 lo bl else lo in
    let hi' = if odd then add32 (carry lo' bl hi) bh else hi in
    let s' : IsWord lo' = ground arith in
    let t' : IsWord hi' = ground arith in
    AreWords-if (odd && (bit_and a (2 ^ 32 - 2) == 0)) (hi', lo') _ (t', s')
      (mult_rounds-AreWords n (shift_right a 1) (shift_left bl 1) (double_hi bl bh) lo' hi' s' t')
