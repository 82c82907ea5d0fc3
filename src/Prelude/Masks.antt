-- ===== src/Prelude/Masks.antt =====
-- Masks of several bits, the exclusive or, and the sign bit of a machine word.
use Prim.Native.Nat.{
  ℕ, zero, suc, ◌+◌, ◌-◌, ◌*◌, ◌/◌, ◌%◌, ◌^◌, ◌≤◌, ◌<◌, bit_and, bit_or, bit_xor, differ,
  bit_xor-bitwise, bit_or-bitwise,
}
use native.Mathlib.Nat.{pow-suc}
use mathlib.Core.Path.{◌≡◌, refl, ◌∙◌, ap}
use mathlib.Core.Bool.{not}
use native.Mathlib.Omega.{arith}
use sgptp.Prelude.Tests.{ltb, if◌then◌else◌}
use sgptp.Prelude.Bits.{test_bit, digits_enough, bit_and_step, bit_or_step, bit_and-zero}

pow-positive : (n : ℕ) → 1 ≤ 2 ^ n
pow-positive zero = omega arith
pow-positive (suc n) = omega (arith, pow-suc 2 n, pow-positive n)

-- `w & (2 ^ n - 1)` for a word of n bits.
pub bit_and-ones : (n w : ℕ) → w < 2 ^ n → bit_and w (2 ^ n - 1) ≡ w
bit_and-ones zero w h = let w' : w ≡ 0 = omega arith in rw w' (bit_and-zero 0)
bit_and-ones (suc n) w h =
    let half : (2 ^ suc n - 1) / 2 ≡ 2 ^ n - 1 = omega (arith, pow-suc 2 n) in
    let rest : bit_and (w / 2) ((2 ^ suc n - 1) / 2) ≡ w / 2 =
      rw half (bit_and-ones n (w / 2) (omega (arith, pow-suc 2 n))) in
    omega (arith, bit_and_step w (2 ^ suc n - 1), rest, pow-suc 2 n, pow-positive n)

-- The top bit of a word.
pub test_bit-top : (n w : ℕ) → w < 2 ^ suc n → test_bit w n ≡ not (ltb w (2 ^ n))
unfolding test_bit
test_bit-top zero w h = ground arith
test_bit-top (suc n) w h = ground (
  arith,
  pow-suc 2 n,
  pow-suc 2 (suc n),
  test_bit-top n (w / 2) (omega (arith, pow-suc 2 (suc n))),
)

differ-zero : (b : ℕ) → differ 0 b ≡ b
differ-zero b = refl

bit_xor_step : (a b : ℕ) → bit_xor a b ≡ bit_xor (a / 2) (b / 2) * 2 + differ (a % 2) (b % 2)
bit_xor_step zero b =
    omega (arith, bit_xor-bitwise 0 b, bit_xor-bitwise 0 (b / 2), differ-zero (b % 2))
bit_xor_step (suc a) b = omega (
  arith,
  bit_xor-bitwise (suc a) b,
  bit_xor-bitwise (suc a / 2) (b / 2),
  digits_enough (λ r. r) differ a (suc a / 2) (suc a / 2) (b / 2) (omega arith) (omega arith),
)

differ-parity : (a b : ℕ) → a < 2 → b < 2 → differ a b ≡ (a + b) % 2
differ-parity zero b p q = omega (arith, differ-zero b)
differ-parity (suc zero) zero p q = refl
differ-parity (suc zero) (suc zero) p q = refl
differ-parity (suc zero) (suc (suc b)) p q = absurd (omega arith)
differ-parity (suc (suc a)) b p q = absurd (omega arith)

-- Every bit of `a ^ b`, true where the bits of `a` and `b` are not the same.
pub test_bit-bit_xor :
    (k a b : ℕ)
    → test_bit (bit_xor a b) k ≡ (if test_bit a k then not (test_bit b k) else test_bit b k)
unfolding test_bit
test_bit-bit_xor zero a b =
    ground (arith, bit_xor_step a b, differ-parity (a % 2) (b % 2) (omega arith) (omega arith))
test_bit-bit_xor (suc k) a b =
    let half : bit_xor a b / 2 ≡ bit_xor (a / 2) (b / 2) =
      omega (arith, bit_xor_step a b, differ-parity (a % 2) (b % 2) (omega arith) (omega arith)) in
    rw half (test_bit-bit_xor k (a / 2) (b / 2))

pub bit_or-zero_below : (n a : ℕ) → a ≤ n → bit_or a 0 ≡ a
bit_or-zero_below n zero h = refl
bit_or-zero_below zero (suc a) h = absurd (omega arith)
bit_or-zero_below (suc n) (suc a) h =
    omega (arith, bit_or_step (suc a) 0, bit_or-zero_below n (suc a / 2) (omega arith))

-- `a | 1` for an even a.
pub bit_or-even_one : (a : ℕ) → a % 2 ≡ 0 → bit_or a 1 ≡ a + 1
bit_or-even_one a h =
    omega (arith, bit_or_step a 1, bit_or-zero_below (a / 2) (a / 2) (omega arith))

pub bit_and-one : (a : ℕ) → bit_and a 1 ≡ a % 2
bit_and-one a = omega (arith, bit_and_step a 1, bit_and-zero (a / 2))

-- `|` of a word of n bits and one that has no bit below n.
pub bit_or-disjoint : (n a b : ℕ) → a < 2 ^ n → bit_or a (b * 2 ^ n) ≡ a + b * 2 ^ n
bit_or-disjoint zero a b h =
    let a' : a ≡ 0 = omega arith in rw a' (omega (arith, bit_or-bitwise 0 (b * 2 ^ 0)))
bit_or-disjoint (suc n) a b h =
    let twice : b * 2 ^ suc n ≡ b * 2 ^ n * 2 = omega (arith, ap (λ p. b * p) (pow-suc 2 n)) in
    let half : b * 2 ^ suc n / 2 ≡ b * 2 ^ n = omega (arith, twice) in
    let rest : bit_or (a / 2) (b * 2 ^ suc n / 2) ≡ a / 2 + b * 2 ^ n =
      ap (bit_or (a / 2)) half ∙ bit_or-disjoint n (a / 2) b (omega (arith, pow-suc 2 n)) in
    omega (arith, bit_or_step a (b * 2 ^ suc n), rest, twice)
