-- ===== src/Encoder/Byte.antt =====
-- `encode8bit` of src/encoder.c: the 8-bit instructions.
use byte_shatter.Base.{
  ℕ, Bool, ◌&&◌, ◌==◌, if◌then◌else◌, ◌<<<◌, ◌|||◌, M, fail, ◌>>◌, unhandled,
  unknown_8bit_instruction,
}
use byte_shatter.X86.OpType
use byte_shatter.X86.Reg
use byte_shatter.X86.Instr
use byte_shatter.X86.{Instruction, has_mem}
use byte_shatter.Jit.{Jit, emit32}
use byte_shatter.Encoder.Op
use byte_shatter.Encoder.Emit.{x64_regs, sc1r, sc2r, construct_r_r_imm, construct_r_r_r, emit_imm}
use byte_shatter.Encoder.Address.{emit_address_decode}

abbrev pub is_reg : ℕ → Bool
is_reg t = t == OpType.reg

abbrev pub is_imm : ℕ → Bool
is_imm t = t == OpType.imm

-- The low byte of register `r`, to the host register `rd`.
abbrev pub low_byte : ℕ → ℕ → ℕ
low_byte r rd = 0x12001c00 ||| x64_regs r <<< 5 ||| rd

unfoldable pub encode8_mov : Instruction → M Jit (Unit {0})
encode8_mov buf =
    if has_mem buf.a.type
    then (do
      emit_address_decode buf.a sc1r buf.prefix
      if is_reg buf.b.type then emit32 (construct_r_r_imm Op.strb_reg buf.b.reg Reg.sc1 0) else (do
        emit_imm buf.b.imm sc2r
        emit32 (construct_r_r_imm Op.strb_reg Reg.sc2 Reg.sc1 0)))
    else fail (unhandled buf.type)

unfoldable pub encode8_test : Instruction → M Jit (Unit {0})
encode8_test buf =
    if is_reg buf.a.type && is_reg buf.b.type
    then (if buf.a.reg == buf.b.reg
        then (do
          emit32 (low_byte buf.a.reg sc1r)
          emit32 (construct_r_r_r Op.ands_reg Reg.xzr Reg.sc1 Reg.sc1))
        else (do
          emit32 (low_byte buf.a.reg sc1r)
          emit32 (low_byte buf.b.reg sc2r)
          emit32 (construct_r_r_r Op.ands_reg Reg.xzr Reg.sc1 Reg.sc2)))
    else if is_reg buf.a.type && is_imm buf.b.type
    then (do
      emit32 (low_byte buf.a.reg sc1r)
      emit_imm buf.b.imm sc2r
      emit32 (construct_r_r_r Op.ands_reg Reg.xzr Reg.sc1 Reg.sc2))
    else fail (unhandled buf.type)

unfoldable pub encode8_cmp : Instruction → M Jit (Unit {0})
encode8_cmp buf =
    let compare_imm = construct_r_r_imm (Op.sub_imm ||| Op.s) Reg.xzr Reg.sc1 buf.b.imm in
    if is_reg buf.a.type
    then (do emit32 (low_byte buf.a.reg sc1r); emit32 compare_imm)
    else if has_mem buf.a.type
    then (do
      emit_address_decode buf.a sc1r buf.prefix
      emit32 (construct_r_r_imm Op.ldrb_reg Reg.sc1 Reg.sc1 0)
      emit32 compare_imm)
    else fail (unhandled buf.type)

-- The CSET of a condition into a register.
unfoldable pub encode8_set : ℕ → Instruction → M Jit (Unit {0})
encode8_set cset buf =
    if is_reg buf.a.type then emit32 (cset ||| x64_regs buf.a.reg) else fail (unhandled buf.type)

unfoldable pub encode8bit : Instruction → M Jit (Unit {0})
encode8bit buf =
    if buf.type == Instr.mov
    then encode8_mov buf
    else if buf.type == Instr.test
    then encode8_test buf
    else if buf.type == Instr.cmp
    then encode8_cmp buf
    else if buf.type == Instr.setne
    then encode8_set Op.csetne buf
    else if buf.type == Instr.setae
    then encode8_set Op.cseths buf
    else if buf.type == Instr.sete
    then encode8_set Op.cseteq buf
    else if buf.type == Instr.setb
    then encode8_set Op.csetlo buf
    else fail (unknown_8bit_instruction buf.type)
