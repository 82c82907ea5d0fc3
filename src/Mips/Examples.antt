-- ===== src/Mips/Examples.antt =====
-- A processor with two pages of 16 bytes, of which page 0 may be written and holds an instruction.
use sgptp.Prelude.{
  ℕ, ◌+◌, ◌-◌, ◌*◌, ◌%◌, ◌^◌, ◌≡◌, refl, true, false, none, some, [], ◌∷◌, ◌++◌, replicate, update,
  arith,
}
use sgptp.Prelude.Int.{pos, negsuc}
use sgptp.TranslationTable.{
  PageTableEntry, entry, modify, get_physical_page, get_bit_valid, get_bit_read_allowed,
  get_bit_write_allowed, set_bit_u, set_bit_m,
}
use sgptp.Mmu.{Cpu, ExceptionType, read_mem, translate_twice, translate, fault_in, load}
use sgptp.Mmu.Resident.{IsResident}
use sgptp.Mips.{completed, raise_exception, delayed_load, nextpc_reg}
use sgptp.Mips.Words.{mult}
use sgptp.Mips.Opcodes.{op_sw, op_lw, op_addi, op_add, op_sub, op_addiu}
use sgptp.Mips.Decode.{Instruction, decode}
use sgptp.Mips.Float.{FloatUnit}
use sgptp.Mips.Integer.{execute}
use sgptp.Mips.Step.{advance, one_instruction}
use sgptp.Mips.Multiplication.{double_word}
use sgptp.Mips.Products.{sign_extend64, mult-Product}
use sgptp.Mips.Overflow.{Checked, SumFits, DifferenceFits, biased, run, execute-Checked}
use sgptp.Mips.Encoding.{encode_i, extended, decode-encode_i}
use sgptp.Mips.StoreLoad.{execute-store_load}

abbrev data_page : PageTableEntry
data_page = record {
  valid = true;
  u = false;
  m = false;
  read_allowed = true;
  write_allowed = true;
  physical_page = pos 1;
  swap = false;
  addr_disk = negsuc 0;
  io = false;
}

-- Registers 1 and 2 hold 2 ^ 31 - 1 and -2 ^ 31, register 3 holds 5; the instruction at 0 is an ADDIU
-- that sets register 0 to 7.
abbrev small : Cpu
small = record {
  int_registers =
      update (update (update (update (λ r. 0) 1 (2 ^ 31 - 1)) 2 (2 ^ 31)) 3 5) nextpc_reg 4;
  float_registers = λ r. 0;
  cc = false;
  table = record { max_num_pages = 1; page_table = data_page ∷ [] };
  main_memory = replicate 16 0 ++ 7 ∷ 0 ∷ 0 ∷ 0x24 ∷ replicate 12 0;
}

abbrev ignore : ExceptionType → ℕ → Cpu → Cpu
ignore x a k = k

-- A floating point unit for instructions that do not use it.
abbrev no_floats : FloatUnit
no_floats = record {
  abs_s = λ x. x;
  neg_s = λ x. x;
  sqrt_s = λ x. x;
  cvt_s_w = λ x. x;
  cvt_w_s = λ x. x;
  cvt_d_s = λ x. x;
  abs_d = λ x. x;
  neg_d = λ x. x;
  sqrt_d = λ x. x;
  cvt_d_w = λ x. x;
  cvt_w_d = λ x. x;
  cvt_s_d = λ x. x;
  add_s = λ x y. x;
  sub_s = λ x y. x;
  mul_s = λ x y. x;
  div_s = λ x y. x;
  add_d = λ x y. x;
  sub_d = λ x y. x;
  mul_d = λ x y. x;
  div_d = λ x y. x;
  eq_s = λ x y. false;
  lt_s = λ x y. false;
  le_s = λ x y. false;
  eq_d = λ x y. false;
  lt_d = λ x y. false;
  le_d = λ x y. false;
  zero_s = 0;
  zero_d = 0;
}

abbrev registers : ℕ → ℕ → ℕ → ℕ → Instruction
registers rs rt rd extra = record {
  op_code = op_add;
  rs = rs;
  rt = rt;
  rd = rd;
  fs = rd;
  ft = rt;
  fd = 0;
  extra = extra;
}

mult-Product_example :
    (double_word (mult (2 ^ 32 - 3) (2 ^ 31) false) ≡ (2 ^ 32 - 3) * 2 ^ 31)
    × (double_word (mult (2 ^ 32 - 3) (2 ^ 31) true)
        ≡ sign_extend64 (2 ^ 32 - 3) * sign_extend64 (2 ^ 31) % 2 ^ 64)
mult-Product_example = mult-Product (2 ^ 32 - 3) (2 ^ 31) (omega arith) (omega arith)

-- 2 ^ 31 - 1 plus -2 ^ 31 is -1; 2 ^ 31 - 1 plus 5 overflows, as does 2 ^ 31 - 1 minus -2 ^ 31.
execute-Checked_example :
    Checked 16 2 ignore no_floats
      (SumFits (2 ^ 31 - 1) (2 ^ 31))
      (λ s. biased s + 2 ^ 31 ≡ biased (2 ^ 31 - 1) + biased (2 ^ 31))
      (run 16 2 ignore no_floats (registers 1 2 4 5) small 8 op_add)
      4
      small
      8
    × Checked 16 2 ignore no_floats
        (SumFits (2 ^ 31 - 1) 5)
        (λ s. biased s + 2 ^ 31 ≡ biased (2 ^ 31 - 1) + biased 5)
        (run 16 2 ignore no_floats (registers 1 2 4 5) small 8 op_addi)
        2
        small
        8
    × Checked 16 2 ignore no_floats
        (DifferenceFits (2 ^ 31 - 1) (2 ^ 31))
        (λ s. biased s + biased (2 ^ 31) ≡ biased (2 ^ 31 - 1) + 2 ^ 31)
        (run 16 2 ignore no_floats (registers 1 2 4 5) small 8 op_sub)
        4
        small
        8
execute-Checked_example =
    execute-Checked 16 2 ignore no_floats (registers 1 2 4 5) small 8 (omega arith) (omega arith)
      (omega arith)

decode-encode_i_example :
    ((decode (encode_i 9 3 4 65535)).rs ≡ 3)
    × ((decode (encode_i 9 3 4 65535)).rt ≡ 4)
    × ((decode (encode_i 9 3 4 65535)).extra ≡ extended 65535)
    × ((decode (encode_i 9 3 4 65535)).op_code ≡ op_addiu)
decode-encode_i_example =
    decode-encode_i 9 3 4 65535 (omega arith) (omega arith) (omega arith) (omega arith) refl

abbrev after_addiu : Cpu
unfolding one_instruction read_mem translate_twice translate fault_in load entry modify
    get_physical_page get_bit_valid get_bit_read_allowed get_bit_write_allowed set_bit_u set_bit_m
    raise_exception delayed_load decode execute advance
after_addiu = elim (one_instruction 16 2 ignore no_floats small) [
  | none ↦ small
  | some result ↦ result.1
]

data_page-IsResident : IsResident true small.table 0 1
data_page-IsResident = record {
  in_table = omega arith;
  sized = refl;
  e = data_page;
  here = refl;
  valid = refl;
  may = refl;
  may_write = λ h. refl;
  page = refl;
}

execute-store_load_example :
    (k1 k2 : Cpu) × (execute 16 2 ignore no_floats op_sw (registers 0 3 0 4) small 8
      ≡ some (completed k1 0 0 8))
    × (execute 16 2 ignore no_floats op_lw (registers 0 3 0 4) k1 12 ≡ some (completed k2 3 5 12))
execute-store_load_example =
    execute-store_load 16 2 ignore no_floats (registers 0 3 0 4) small 8 12 1 refl (omega arith)
      (omega arith) (omega arith) refl (omega arith) (omega arith) data_page-IsResident
