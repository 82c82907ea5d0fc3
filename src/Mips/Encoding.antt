-- ===== src/Mips/Encoding.antt =====
-- nachos/machine/mipssim.cc: Decode takes apart what the format of the instruction puts together.
use sgptp.Prelude.{
  ℕ, ◌+◌, ◌-◌, ◌*◌, ◌/◌, ◌%◌, ◌^◌, ◌<◌, ◌≡◌, refl, ap, ◌∙◌, ltb, if◌then◌else◌, get_or, arith,
}
use sgptp.Prelude.Bits.{bit_and-pow_zero}
use sgptp.Prelude.Masks.{test_bit-top, bit_or-disjoint}
use sgptp.Mips.Opcodes.{OpInfo, ifmt, op_unimp, op_table, special_table}
use sgptp.Mips.Decode.{decode, refine_code, extra_of, field}

-- The word with the fields of an instruction with an immediate, and of one with three registers.
abbrev pub encode_i : ℕ → ℕ → ℕ → ℕ → ℕ
encode_i op rs rt immediate = ((op * 2 ^ 5 + rs) * 2 ^ 5 + rt) * 2 ^ 16 + immediate

abbrev pub encode_r : ℕ → ℕ → ℕ → ℕ → ℕ → ℕ
encode_r rs rt rd shift funct = (((rs * 2 ^ 5 + rt) * 2 ^ 5 + rd) * 2 ^ 5 + shift) * 2 ^ 6 + funct

abbrev pub entry_of : ℕ → OpInfo
entry_of op = get_or op_table op (record { op_code = op_unimp; format = ifmt })

-- The immediate as a word, its sign extended.
abbrev pub extended : ℕ → ℕ
extended immediate = if ltb immediate (2 ^ 15) then immediate else immediate + (2 ^ 32 - 2 ^ 16)

extra_of-extended : (w : ℕ) → extra_of ifmt w ≡ extended (w % 2 ^ 16)
extra_of-extended w = ground (
  arith,
  bit_and-pow_zero (w % 2 ^ 16) 15,
  test_bit-top 15 (w % 2 ^ 16) (omega arith),
  bit_or-disjoint 16 (w % 2 ^ 16) 0xffff (omega arith),
)

-- From the word of an instruction with an immediate, whose fields are in their range and whose code
-- has that format, Decode takes the registers and the immediate, as a word with its sign extended, and
-- the code that the table has, or the second look at the word.
pub decode-encode_i :
    (op rs rt immediate : ℕ)
    → op < 64
    → rs < 32
    → rt < 32
    → immediate < 2 ^ 16
    → (entry_of op).format ≡ ifmt
    → (let w = encode_i op rs rt immediate in
        let i = decode w in
        (i.rs ≡ rs)
        × (i.rt ≡ rt)
        × (i.extra ≡ extended immediate)
        × (i.op_code ≡ refine_code (entry_of op).op_code w))
unfolding decode
decode-encode_i op rs rt immediate a b c d format =
    let w = encode_i op rs rt immediate in
    let code : w / 2 ^ 26 % 2 ^ 6 ≡ op = omega arith in
    let low : w % 2 ^ 16 ≡ immediate = omega arith in
    (
      omega arith,
      omega arith,
      ap (λ n. extra_of (entry_of n).format w) code
          ∙ ap (λ f. extra_of f w) format
          ∙ extra_of-extended w
          ∙ ap extended low,
      ap (λ n. refine_code (entry_of n).op_code w) code,
    )

-- From the word of an instruction of code SPECIAL, whose fields are in their range, Decode takes all
-- the fields, and the code from specialTable.
pub decode-encode_r :
    (rs rt rd shift funct : ℕ)
    → rs < 32
    → rt < 32
    → rd < 32
    → shift < 32
    → funct < 64
    → decode (encode_r rs rt rd shift funct) ≡ record {
      op_code = get_or special_table funct op_unimp;
      rs = rs;
      rt = rt;
      rd = rd;
      fs = rd;
      ft = rt;
      fd = shift;
      extra = shift;
    }
unfolding decode
decode-encode_r rs rt rd shift funct a b c d e =
    let w = encode_r rs rt rd shift funct in
    let code : w / 2 ^ 26 % 2 ^ 6 ≡ 0 = omega arith in
    let rs' : field w 21 ≡ rs = omega arith in
    let rt' : field w 16 ≡ rt = omega arith in
    let rd' : field w 11 ≡ rd = omega arith in
    let shift' : field w 6 ≡ shift = omega arith in
    let funct' : w % 2 ^ 6 ≡ funct = omega arith in rw (code, rs', rt', rd', shift', funct') refl
