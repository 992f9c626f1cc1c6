-- ===== src/X86.antt =====
-- src/decoder.h: operands and instructions as the decoder hands them to the encoder.
pub mod Instr
pub mod Reg
pub mod OpType
pub mod Prefix
use byte_shatter.Base.{ℕ, ◌|||◌, Bool, ◌/◌, ◌%◌, ◌^◌, ◌==◌, bit}

-- `type` is a set of OpType flags, `imm` an int64_t.
pub record Operand : Type 0 where
  pub type : ℕ
  pub reg : ℕ
  pub idx : ℕ
  pub scale : ℕ
  pub imm : ℕ

-- `type` is one of the InstrTypes, `size` the operand size in bits.
pub record Instruction : Type 0 where
  pub type : ℕ
  pub size : ℕ
  pub prefix : ℕ
  pub reverse : ℕ
  pub a : Operand
  pub b : Operand

-- op->type = t and op->type |= t
abbrev pub set_type : ℕ → Operand → Operand
set_type t op = record op { type = t }

abbrev pub add_type : ℕ → Operand → Operand
add_type t op = record op { type = op.type ||| t }

-- op->type |= IMM; op->imm = v
abbrev pub add_imm : ℕ → Operand → Operand
add_imm v op = record op { type = op.type ||| OpType.imm; imm = v }

-- op->type = REG; op->reg = r
abbrev pub to_reg : ℕ → Operand → Operand
to_reg r op = record op { type = OpType.reg; reg = r }

-- op->type = IMM; op->imm = v
abbrev pub to_imm : ℕ → Operand → Operand
to_imm v op = record op { type = OpType.imm; imm = v }

-- Statements on one of the two operands of `buf`, on its type and on its size.
abbrev pub on_a : (Operand → Operand) → Instruction → Instruction
on_a f buf = record buf { a = f buf.a }

abbrev pub on_b : (Operand → Operand) → Instruction → Instruction
on_b f buf = record buf { b = f buf.b }

abbrev pub as_type : ℕ → Instruction → Instruction
as_type t buf = record buf { type = t }

abbrev pub as_size : ℕ → Instruction → Instruction
as_size n buf = record buf { size = n }

abbrev pub as_reverse : ℕ → Instruction → Instruction
as_reverse r buf = record buf { reverse = r }

-- t & MEM, t & IDX, t & REG, t & IMM, t & XMM
abbrev pub has_reg : ℕ → Bool
has_reg t = bit t 0

abbrev pub has_mem : ℕ → Bool
has_mem t = bit t 1

abbrev pub has_idx : ℕ → Bool
has_idx t = bit t 2

abbrev pub has_imm : ℕ → Bool
has_imm t = bit t 3

abbrev pub has_xmm : ℕ → Bool
has_xmm t = bit t 4
