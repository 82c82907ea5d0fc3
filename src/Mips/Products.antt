-- ===== src/Mips/Products.antt =====
-- nachos/machine/mipssim.cc: Mult returns the product of its operands, as numbers and as integers.
use native.Mathlib.Nat as Nat
use sgptp.Prelude.{
  ℕ, zero, suc, ◌+◌, ◌-◌, ◌*◌, ◌%◌, ◌^◌, ◌≤◌, ◌<◌, ◌≡◌, refl, sym, ap, ◌∙◌, Bool, true, false, ltb,
  ◌==◌, if◌then◌else◌, arith, Bool-cases, inl, inr,
}
use sgptp.Mips.Words.{neg32, mult_rounds, negate_pair, mult}
use sgptp.Mips.Multiplication.{
  double_word, low, low-all, AreWords, mult_rounds-double_word, mult_rounds-AreWords,
}

product-double_word :
    (a b : ℕ) → a < 2 ^ 32 → b < 2 ^ 32 → double_word (mult_rounds 32 a b 0 0 0) ≡ a * b % 2 ^ 64
product-double_word a b p q =
    let rounds =
      mult_rounds-double_word 32 a b 0 0 0 (omega arith) p q (omega arith) (omega arith)
        (omega arith) in
    let factor : low 32 a * b ≡ a * b = ap (λ m. m * b) (low-all 32 a p) in
    omega (arith, rounds, factor)

product-lt : (a b : ℕ) → a < 2 ^ 32 → b < 2 ^ 32 → a * b < 2 ^ 64
product-lt a b p q =
    let bound : a * b ≤ (2 ^ 32 - 1) * (2 ^ 32 - 1) =
      Nat.mul-le-mul {n₂ = 2 ^ 32 - 1} {m₂ = 2 ^ 32 - 1} (omega arith) (omega arith) in
    omega (arith, bound)

negate_pair-double_word :
    (x : ℕ × ℕ) → AreWords x → double_word (negate_pair x) ≡ (2 ^ 64 - double_word x) % 2 ^ 64
negate_pair-double_word (hi, lo) (p, q) = ground arith

-- The number whose 64-bit pattern extends the sign of a word.
abbrev pub sign_extend64 : ℕ → ℕ
sign_extend64 a = if ltb a (2 ^ 31) then a else a + (2 ^ 64 - 2 ^ 32)

negative_times :
    (y x : ℕ) → x ≤ 2 ^ 64 → (2 ^ 64 - x) * y % 2 ^ 64 ≡ (2 ^ 64 - x * y % 2 ^ 64) % 2 ^ 64
negative_times zero x h = omega arith
negative_times (suc y) x h = omega (arith, negative_times y x h)

negatives_times :
    (x y : ℕ) → x ≤ 2 ^ 64 → y ≤ 2 ^ 64 → (2 ^ 64 - x) * (2 ^ 64 - y) % 2 ^ 64 ≡ x * y % 2 ^ 64
negatives_times x y p q = omega (arith, negative_times (2 ^ 64 - y) x p, negative_times x y q)

module _ (a b : ℕ) (p : a < 2 ^ 32) (q : b < 2 ^ 32) where
  -- MULTU: the words hold the product.
  mult-unsigned : double_word (mult a b false) ≡ a * b
  unfolding mult
  mult-unsigned = elim (Bool-cases (a == 0)) [
    | inl z ↦ rw z (ground arith)
    | inr nz ↦ elim (Bool-cases (b == 0)) [
      | inl z ↦ rw (nz, z) (ground arith)
      | inr nz' ↦ rw (nz, nz') (product-double_word a b p q ∙ omega (arith, product-lt a b p q))
    ]
  ]

  extended_negative :
      (c : ℕ) → ltb c (2 ^ 31) ≡ false → c < 2 ^ 32 → c + (2 ^ 64 - 2 ^ 32) ≡ 2 ^ 64 - neg32 c
  extended_negative c h fits = ground arith

  negated :
      (x y : ℕ)
      → x < 2 ^ 32
      → y < 2 ^ 32
      → double_word (negate_pair (mult_rounds 32 x y 0 0 0)) ≡ (2 ^ 64 - x * y % 2 ^ 64) % 2 ^ 64
  negated x y h k =
      negate_pair-double_word _ (mult_rounds-AreWords 32 x y 0 0 0 (omega arith) (omega arith))
      ∙ ap (λ w. (2 ^ 64 - w) % 2 ^ 64) (product-double_word x y h k)

  signs :
      (sa sb : Bool)
      → (a == 0) ≡ false
      → (b == 0) ≡ false
      → ltb a (2 ^ 31) ≡ sa
      → ltb b (2 ^ 31) ≡ sb
      → double_word (mult a b true) ≡ sign_extend64 a * sign_extend64 b % 2 ^ 64
  unfolding mult
  signs true true nz nz' ea eb = rw (nz, nz', ea, eb) (product-double_word a b p q)
  signs true false nz nz' ea eb =
      let product : (b + (2 ^ 64 - 2 ^ 32)) * a ≡ (2 ^ 64 - neg32 b) * a =
        ap (λ s. s * a) (extended_negative b eb q) in
      rw (nz, nz', ea, eb)
        (negated a (neg32 b) p (omega arith)
          ∙ omega (arith, negative_times a (neg32 b) (omega arith), product))
  signs false true nz nz' ea eb =
      let product : (a + (2 ^ 64 - 2 ^ 32)) * b ≡ (2 ^ 64 - neg32 a) * b =
        ap (λ s. s * b) (extended_negative a ea p) in
      rw (nz, nz', ea, eb)
        (negated (neg32 a) b (omega arith) q
          ∙ omega (arith, negative_times b (neg32 a) (omega arith), product))
  signs false false nz nz' ea eb =
      let product : (a + (2 ^ 64 - 2 ^ 32)) * (b + (2 ^ 64 - 2 ^ 32))
          ≡ (2 ^ 64 - neg32 a) * (2 ^ 64 - neg32 b) =
        ap (λ s. s * (b + (2 ^ 64 - 2 ^ 32))) (extended_negative a ea p)
        ∙ ap (λ s. (2 ^ 64 - neg32 a) * s) (extended_negative b eb q) in
      rw (nz, nz', ea, eb)
        (product-double_word (neg32 a) (neg32 b) (omega arith) (omega arith)
          ∙ sym (
              ap (λ s. s % 2 ^ 64) product
              ∙ negatives_times (neg32 a) (neg32 b) (omega arith) (omega arith)))

  -- MULT: the words hold the product of the two integers, modulo 2 ^ 64.
  mult-signed : double_word (mult a b true) ≡ sign_extend64 a * sign_extend64 b % 2 ^ 64
  unfolding mult
  mult-signed = elim (Bool-cases (a == 0)) [
    | inl z ↦ let a' : a ≡ 0 = ground arith in rw z (rw a' (omega arith))
    | inr nz ↦ elim (Bool-cases (b == 0)) [
      | inl z ↦ let b' : b ≡ 0 = ground arith in rw (nz, z) (rw b' (omega arith))
      | inr nz' ↦ signs _ _ nz nz' refl refl
    ]
  ]

  -- On words, what Mult leaves in hi and lo is the whole product of the two numbers without
  -- signedArith, and with it the product, modulo 2 ^ 64, of the numbers with their signs extended.
  pub mult-Product :
      (double_word (mult a b false) ≡ a * b)
      × (double_word (mult a b true) ≡ sign_extend64 a * sign_extend64 b % 2 ^ 64)
  mult-Product = (mult-unsigned, mult-signed)
