-- ===== src/Mips/Decode.antt =====
-- nachos/machine/mipssim.cc: Instruction::Decode.
use Prim.Native.Nat.{bit_and, bit_or}
use sgptp.Prelude.{ℕ, ◌/◌, ◌%◌, ◌^◌, get_or, ◌==◌, if◌then◌else◌, ◌&&◌}
use sgptp.Mips.Opcodes.{
  OpCode, Format, ifmt, jfmt, rfmt, special, bcond, cop1, op_table, special_table, cop1s_table,
  cop1d_table, op_unimp, op_bltz, op_bgez, op_bltzal, op_bgezal, op_bc1f, op_bc1t, op_mfc1, op_cfc1,
  op_mtc1, op_ctc1, op_cvt_s_w, op_cvt_d_w,
}

pub record Instruction : Type 0 where
  pub op_code : OpCode
  pub rs : ℕ
  pub rt : ℕ
  pub rd : ℕ
  pub fs : ℕ
  pub ft : ℕ
  pub fd : ℕ
  pub extra : ℕ

-- `(value >> n) & 0x1f`.
abbrev pub field : ℕ → ℕ → ℕ
field value n = value / 2 ^ n % 2 ^ 5

abbrev pub extra_of : Format → ℕ → ℕ
extra_of ifmt value =
    let low = value % 2 ^ 16 in if bit_and low 0x8000 == 0 then low else bit_or low 0xffff_0000
extra_of rfmt value = field value 6
extra_of jfmt value = value % 2 ^ 26

abbrev branch_code : ℕ → OpCode
branch_code i =
    if i == 0
    then op_bltz
    else if i == 0x10000
    then op_bgez
    else if i == 0x100000
    then op_bltzal
    else if i == 0x110000
    then op_bgezal
    else op_unimp

abbrev cop1_code : ℕ → ℕ → ℕ → OpCode
cop1_code rs rt funct =
    if rs == 0x10
    then get_or cop1s_table funct op_unimp
    else if rs == 0x11
    then get_or cop1d_table funct op_unimp
    else if (rs == 0x08) && (rt == 0x00)
    then op_bc1f
    else if (rs == 0x08) && (rt == 0x01)
    then op_bc1t
    else if rs == 0x00
    then op_mfc1
    else if rs == 0x02
    then op_cfc1
    else if rs == 0x04
    then op_mtc1
    else if rs == 0x06
    then op_ctc1
    else if rs == 0x14
    then (if funct == 0x20 then op_cvt_s_w else if funct == 0x21 then op_cvt_d_w else op_unimp)
    else op_unimp

-- The second look at the code, for those that only opTable holds.
abbrev pub refine_code : OpCode → ℕ → OpCode
refine_code special value = get_or special_table (value % 2 ^ 6) op_unimp
refine_code bcond value = branch_code (bit_and value 0x1f0000)
refine_code cop1 value = cop1_code (field value 21) (field value 16) (value % 2 ^ 6)
refine_code op_code value = op_code

unfoldable pub decode : ℕ → Instruction
decode value =
    let entry =
      get_or op_table (value / 2 ^ 26 % 2 ^ 6) (record { op_code = op_unimp; format = ifmt }) in
    record {
      op_code = refine_code entry.op_code value;
      rs = field value 21;
      rt = field value 16;
      rd = field value 11;
      fs = field value 11;
      ft = field value 16;
      fd = field value 6;
      extra = extra_of entry.format value;
    }
