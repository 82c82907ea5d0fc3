-- ===== src/Mips/Opcodes.antt =====
-- nachos/machine/mipssim.h: the codes of the instructions and the tables of the decoder.
use sgptp.Prelude.{List, [], ◌∷◌}

-- The macros OP_ADD to OP_RES, and the codes SPECIAL, BCOND and COP1 that only opTable holds.
pub data OpCode : Type 0 where
  op_add op_addi op_addiu op_addu op_and op_andi op_beq : OpCode
  op_bgez op_bgezal op_bgtz op_blez op_bltz op_bltzal op_bne : OpCode
  op_div op_divu op_j op_jal op_jalr op_jr op_lb : OpCode
  op_lbu op_lh op_lhu op_lui op_lw op_lwl op_lwr : OpCode
  op_mfhi op_mflo op_mthi op_mtlo op_mult op_multu op_nor : OpCode
  op_or op_ori op_rfe op_sb op_sh op_sll op_sllv : OpCode
  op_slt op_slti op_sltiu op_sltu op_sra op_srav op_srl : OpCode
  op_srlv op_sub op_subu op_sw op_swl op_swr op_xor : OpCode
  op_xori op_syscall op_lwc1 op_ldc1 op_swc1 op_sdc1 op_abs_s : OpCode
  op_abs_d op_add_s op_add_d op_div_s op_div_d op_mul_s op_mul_d : OpCode
  op_neg_s op_neg_d op_sub_s op_sub_d op_cvt_s_d op_cvt_s_w op_cvt_w_s : OpCode
  op_cvt_w_d op_cvt_d_s op_cvt_d_w op_ceil_w_s op_ceil_w_d op_floor_w_s op_floor_w_d : OpCode
  op_round_w_s op_round_w_d op_trunc_w_s op_trunc_w_d op_mov_s op_mov_d op_bc1f : OpCode
  op_bc1t op_bc1fl op_bc1tl op_sqrt_s op_sqrt_d op_c_f_s op_c_un_s : OpCode
  op_c_eq_s op_c_ueq_s op_c_olt_s op_c_ult_s op_c_ole_s op_c_ule_s op_c_sf_s : OpCode
  op_c_ngle_s op_c_seq_s op_c_ngl_s op_c_lt_s op_c_nge_s op_c_le_s op_c_ngt_s : OpCode
  op_c_f_d op_c_un_d op_c_eq_d op_c_ueq_d op_c_olt_d op_c_ult_d op_c_ole_d : OpCode
  op_c_ule_d op_c_sf_d op_c_ngle_d op_c_seq_d op_c_ngl_d op_c_lt_d op_c_nge_d : OpCode
  op_c_le_d op_c_ngt_d op_mfc1 op_cfc1 op_mtc1 op_ctc1 op_unimp : OpCode
  op_res special bcond cop1 : OpCode

pub data Format : Type 0 where
  ifmt jfmt rfmt : Format

pub record OpInfo : Type 0 where
  pub op_code : OpCode
  pub format : Format

abbrev info : OpCode → Format → OpInfo
info op_code format = record { op_code = op_code; format = format }

abbrev pub op_table : List OpInfo
op_table =
    info special rfmt
    ∷ info bcond ifmt
    ∷ info op_j jfmt
    ∷ info op_jal jfmt
    ∷ info op_beq ifmt
    ∷ info op_bne ifmt
    ∷ info op_blez ifmt
    ∷ info op_bgtz ifmt
    ∷ info op_addi ifmt
    ∷ info op_addiu ifmt
    ∷ info op_slti ifmt
    ∷ info op_sltiu ifmt
    ∷ info op_andi ifmt
    ∷ info op_ori ifmt
    ∷ info op_xori ifmt
    ∷ info op_lui ifmt
    ∷ info op_unimp ifmt
    ∷ info cop1 ifmt
    ∷ info op_unimp ifmt
    ∷ info op_unimp ifmt
    ∷ info op_res ifmt
    ∷ info op_res ifmt
    ∷ info op_res ifmt
    ∷ info op_res ifmt
    ∷ info op_res ifmt
    ∷ info op_res ifmt
    ∷ info op_res ifmt
    ∷ info op_res ifmt
    ∷ info op_res ifmt
    ∷ info op_res ifmt
    ∷ info op_res ifmt
    ∷ info op_res ifmt
    ∷ info op_lb ifmt
    ∷ info op_lh ifmt
    ∷ info op_lwl ifmt
    ∷ info op_lw ifmt
    ∷ info op_lbu ifmt
    ∷ info op_lhu ifmt
    ∷ info op_lwr ifmt
    ∷ info op_res ifmt
    ∷ info op_sb ifmt
    ∷ info op_sh ifmt
    ∷ info op_swl ifmt
    ∷ info op_sw ifmt
    ∷ info op_res ifmt
    ∷ info op_res ifmt
    ∷ info op_swr ifmt
    ∷ info op_res ifmt
    ∷ info op_unimp ifmt
    ∷ info op_lwc1 ifmt
    ∷ info op_unimp ifmt
    ∷ info op_unimp ifmt
    ∷ info op_res ifmt
    ∷ info op_ldc1 ifmt
    ∷ info op_res ifmt
    ∷ info op_res ifmt
    ∷ info op_unimp ifmt
    ∷ info op_swc1 ifmt
    ∷ info op_unimp ifmt
    ∷ info op_unimp ifmt
    ∷ info op_res ifmt
    ∷ info op_sdc1 ifmt
    ∷ info op_res ifmt
    ∷ info op_res ifmt
    ∷ []

abbrev pub special_table : List OpCode
special_table =
    op_sll ∷ op_res ∷ op_srl ∷ op_sra ∷ op_sllv ∷ op_res ∷ op_srlv ∷ op_srav ∷ op_jr ∷ op_jalr
    ∷ op_res ∷ op_res ∷ op_syscall ∷ op_unimp ∷ op_res ∷ op_res ∷ op_mfhi ∷ op_mthi ∷ op_mflo
    ∷ op_mtlo ∷ op_res ∷ op_res ∷ op_res ∷ op_res ∷ op_mult ∷ op_multu ∷ op_div ∷ op_divu ∷ op_res
    ∷ op_res ∷ op_res ∷ op_res ∷ op_add ∷ op_addu ∷ op_sub ∷ op_subu ∷ op_and ∷ op_or ∷ op_xor
    ∷ op_nor ∷ op_res ∷ op_res ∷ op_slt ∷ op_sltu ∷ op_res ∷ op_res ∷ op_res ∷ op_res ∷ op_res
    ∷ op_res ∷ op_res ∷ op_res ∷ op_res ∷ op_res ∷ op_res ∷ op_res ∷ op_res ∷ op_res ∷ op_res
    ∷ op_res ∷ op_res ∷ op_res ∷ op_res ∷ op_res ∷ []

-- COP1 functions on single precision.
abbrev pub cop1s_table : List OpCode
cop1s_table =
    op_add_s ∷ op_sub_s ∷ op_mul_s ∷ op_div_s ∷ op_sqrt_s ∷ op_abs_s ∷ op_mov_s ∷ op_neg_s ∷ op_res
    ∷ op_res ∷ op_res ∷ op_res ∷ op_round_w_s ∷ op_trunc_w_s ∷ op_ceil_w_s ∷ op_floor_w_s ∷ op_res
    ∷ op_unimp ∷ op_unimp ∷ op_unimp ∷ op_res ∷ op_res ∷ op_res ∷ op_res ∷ op_res ∷ op_res ∷ op_res
    ∷ op_res ∷ op_res ∷ op_res ∷ op_res ∷ op_res ∷ op_res ∷ op_cvt_d_s ∷ op_res ∷ op_res
    ∷ op_cvt_w_s ∷ op_res ∷ op_res ∷ op_res ∷ op_res ∷ op_res ∷ op_res ∷ op_res ∷ op_res ∷ op_res
    ∷ op_res ∷ op_res ∷ op_c_f_s ∷ op_c_un_s ∷ op_c_eq_s ∷ op_c_ueq_s ∷ op_c_olt_s ∷ op_c_ult_s
    ∷ op_c_ole_s ∷ op_c_ule_s ∷ op_c_sf_s ∷ op_c_ngle_s ∷ op_c_seq_s ∷ op_c_ngl_s ∷ op_c_lt_s
    ∷ op_c_nge_s ∷ op_c_le_s ∷ op_c_ngt_s ∷ []

-- COP1 functions on double precision.
abbrev pub cop1d_table : List OpCode
cop1d_table =
    op_add_d ∷ op_sub_d ∷ op_mul_d ∷ op_div_d ∷ op_sqrt_d ∷ op_abs_d ∷ op_mov_d ∷ op_neg_d ∷ op_res
    ∷ op_res ∷ op_res ∷ op_res ∷ op_round_w_d ∷ op_trunc_w_d ∷ op_ceil_w_d ∷ op_floor_w_d ∷ op_res
    ∷ op_unimp ∷ op_unimp ∷ op_unimp ∷ op_res ∷ op_res ∷ op_res ∷ op_res ∷ op_res ∷ op_res ∷ op_res
    ∷ op_res ∷ op_res ∷ op_res ∷ op_res ∷ op_res ∷ op_cvt_s_d ∷ op_res ∷ op_res ∷ op_res
    ∷ op_cvt_w_d ∷ op_res ∷ op_res ∷ op_res ∷ op_res ∷ op_res ∷ op_res ∷ op_res ∷ op_res ∷ op_res
    ∷ op_res ∷ op_res ∷ op_c_f_d ∷ op_c_un_d ∷ op_c_eq_d ∷ op_c_ueq_d ∷ op_c_olt_d ∷ op_c_ult_d
    ∷ op_c_ole_d ∷ op_c_ule_d ∷ op_c_sf_d ∷ op_c_ngle_d ∷ op_c_seq_d ∷ op_c_ngl_d ∷ op_c_lt_d
    ∷ op_c_nge_d ∷ op_c_le_d ∷ op_c_ngt_d ∷ []
