-- ===== src/Mips/Words.antt =====
-- Arithmetic of C on the 32-bit patterns of `int` and `unsigned int`, as mipssim.cc uses it.
use Prim.Native.Nat.{bit_and, bit_or}
use sgptp.Prelude.{
  ℕ, zero, suc, ◌+◌, ◌-◌, ◌*◌, ◌/◌, ◌%◌, ◌^◌, Bool, true, false, not, Option, none, some, ltb, ◌==◌,
  if◌then◌else◌, ◌&&◌,
}

abbrev pub add32 : ℕ → ℕ → ℕ
add32 a b = (a + b) % 2 ^ 32

abbrev pub sub32 : ℕ → ℕ → ℕ
sub32 a b = (a + 2 ^ 32 - b) % 2 ^ 32

abbrev pub neg32 : ℕ → ℕ
neg32 a = (2 ^ 32 - a) % 2 ^ 32

-- `~a`.
abbrev pub not32 : ℕ → ℕ
not32 a = 2 ^ 32 - 1 - a

-- `a & SIGN_BIT`, as a test.
abbrev pub has_sign : ℕ → Bool
has_sign a = not (bit_and a (2 ^ 31) == 0)

-- `a < b` on `int`.
abbrev pub less_int : ℕ → ℕ → Bool
less_int a b =
    if ltb a (2 ^ 31)
    then (if ltb b (2 ^ 31) then ltb a b else false)
    else if ltb b (2 ^ 31)
    then true
    else ltb a b

-- `a << n` for n < 32, and `a >> n` on `int`, which keeps the sign.
abbrev pub shift_left : ℕ → ℕ → ℕ
shift_left a n = a * 2 ^ n % 2 ^ 32

abbrev pub shift_right : ℕ → ℕ → ℕ
shift_right a n = if ltb a (2 ^ 31) then a / 2 ^ n else 2 ^ 32 - 1 - (2 ^ 32 - 1 - a) / 2 ^ n

-- The absolute value of an `int`, as a number.
abbrev pub magnitude : ℕ → ℕ
magnitude a = if ltb a (2 ^ 31) then a else 2 ^ 32 - a

-- The pattern of a number with a sign.
abbrev pub with_sign : Bool → ℕ → ℕ
with_sign true n = neg32 n
with_sign false n = n

-- `a / b` and `a % b` on `int` for b other than 0, towards zero. The quotient of INT_MIN by -1 is no
-- `int`, and the division is a fault.
abbrev pub divide_int : ℕ → ℕ → Option (ℕ × ℕ)
divide_int a b =
    let negative = ltb a (2 ^ 31) in
    let same = if negative then ltb b (2 ^ 31) else not (ltb b (2 ^ 31)) in
    if (a == 2 ^ 31) && (b == 2 ^ 32 - 1)
    then none
    else some (
      with_sign (not same) (magnitude a / magnitude b),
      with_sign (not negative) (magnitude a % magnitude b),
    )

-- Inside the loop of Mult: `hi` after the sum of the low words, and `bHi` after a shift.
abbrev pub carry : ℕ → ℕ → ℕ → ℕ
carry lo b_lo hi = if ltb lo b_lo then add32 hi 1 else hi

abbrev pub double_hi : ℕ → ℕ → ℕ
double_hi b_lo b_hi =
    if bit_and b_lo (2 ^ 31) == 0 then shift_left b_hi 1 else bit_or (shift_left b_hi 1) 1

-- The loop of Mult, by the rounds that are left; it is left early when no bit of `a` remains. The
-- result is hi and lo.
unfoldable pub mult_rounds : ℕ → ℕ → ℕ → ℕ → ℕ → ℕ → ℕ × ℕ
mult_rounds zero a b_lo b_hi lo hi = (hi, lo)
mult_rounds (suc n) a b_lo b_hi lo hi =
    let odd = not (bit_and a 1 == 0) in
    let lo' = if odd then add32 lo b_lo else lo in
    let hi' = if odd then add32 (carry lo' b_lo hi) b_hi else hi in
    let rest = mult_rounds n (shift_right a 1) (shift_left b_lo 1) (double_hi b_lo b_hi) lo' hi' in
    if odd && (bit_and a (2 ^ 32 - 2) == 0) then (hi', lo') else rest

-- The two's complement of hi and lo.
abbrev pub negate_pair : ℕ × ℕ → ℕ × ℕ
negate_pair (hi, lo) =
    let lo' = add32 (not32 lo) 1 in (if lo' == 0 then add32 (not32 hi) 1 else not32 hi, lo')

-- Mult: the words for *hiPtr and *loPtr.
unfoldable pub mult : ℕ → ℕ → Bool → ℕ × ℕ
mult a b signed_arith =
    let negative_a = signed_arith && not (ltb a (2 ^ 31)) in
    let negative_b = signed_arith && not (ltb b (2 ^ 31)) in
    let a' = if negative_a then neg32 a else a in
    let b' = if negative_b then neg32 b else b in
    let product = mult_rounds 32 a' b' 0 0 0 in
    let negative = if negative_a then not negative_b else negative_b in
    if a == 0
    then (0, 0)
    else if b == 0
    then (0, 0)
    else if negative
    then negate_pair product
    else product
