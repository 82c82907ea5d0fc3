-- ===== src/Mips.antt =====
-- nachos/machine/mipssim.cc and mipssim.h, with RaiseException of machine.cc: the simulated MIPS.
--
-- A register holds the 32-bit pattern of an `int`; the number of a register is its index in
-- `int_registers`. What the kernel does with an exception is the argument `handler`; the arithmetic
-- of floating point is the argument `fpu`, on patterns of 32 and 64 bits. The host is little-endian.
-- Counters and the printing of instructions are left out.
pub mod Opcodes
pub mod Words
pub mod Decode
pub mod Float
pub mod LoadStore
pub mod Branch
pub mod Integer
pub mod Step
pub mod Multiplication
pub mod Products
pub mod Overflow
pub mod Defects
pub mod Delay
pub mod Encoding
pub mod StoreLoad
mod Examples
use sgptp.Prelude.{ℕ, ◌+◌, ◌<◌, ◌^◌, ◌%◌, Bool, true, false, Option, none, some, update}
use sgptp.Mmu.{Cpu, ExceptionType}

-- The registers of machine.h behind the 32 general ones, and R31.
abbrev pub r31 : ℕ
r31 = 31

abbrev pub hi_reg : ℕ
hi_reg = 32

abbrev pub lo_reg : ℕ
lo_reg = 33

abbrev pub pc_reg : ℕ
pc_reg = 34

abbrev pub nextpc_reg : ℕ
nextpc_reg = 35

abbrev pub prevpc_reg : ℕ
prevpc_reg = 36

abbrev pub load_reg : ℕ
load_reg = 37

abbrev pub loadvalue_reg : ℕ
loadvalue_reg = 38

abbrev pub badvaddr_reg : ℕ
badvaddr_reg = 39

-- `int_registers[r] = v`.
abbrev pub set_reg : Cpu → ℕ → ℕ → Cpu
set_reg k r v = record k { int_registers = update k.int_registers r v }

unfoldable pub delayed_load : ℕ → ℕ → Cpu → Cpu
delayed_load next_reg next_value k =
    let loaded = set_reg k (k.int_registers load_reg) (k.int_registers loadvalue_reg) in
    set_reg (set_reg (set_reg loaded load_reg next_reg) loadvalue_reg next_value) 0 0

unfoldable pub raise_exception : (ExceptionType → ℕ → Cpu → Cpu) → ExceptionType → ℕ → Cpu → Cpu
raise_exception handler which bad_vaddr k =
    handler which bad_vaddr (delayed_load 0 0 (set_reg k badvaddr_reg bad_vaddr))

-- The end of the switch of OneInstruction: `break` with nextLoadReg, nextLoadValue and pcAfter, or
-- `return 0` after an exception.
pub data Executed : Type 0 where
  completed : Cpu → ℕ → ℕ → ℕ → Executed
  trapped : Cpu → Executed
