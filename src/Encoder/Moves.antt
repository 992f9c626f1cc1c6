-- ===== src/Encoder/Moves.antt =====
-- The moves of `encode` in src/encoder.c.
use byte_shatter.Base.{
  ℕ, true, ◌&&◌, not, ◌==◌, if◌then◌else◌, ◌<<<◌, ◌|||◌, some, u32, M, pure, fail, when, modify,
  ◌>>=◌, ◌>>◌, unhandled,
}
use byte_shatter.X86.Reg
use byte_shatter.X86.{Instruction, has_mem}
use byte_shatter.Jit.{Jit, emit32}
use byte_shatter.Encoder.Op
use byte_shatter.Encoder.Emit.{x64_regs, sc1r, sc2r, construct_r_r_imm, construct_r_r_r, emit_imm}
use byte_shatter.Encoder.Address.{emit_address_decode, emit_load, emit_store}
use byte_shatter.Encoder.Byte.{is_reg, is_imm}

unfoldable pub encode_movsx : Instruction → M Jit (Unit {0})
encode_movsx buf =
    if is_reg buf.a.type && is_reg buf.b.type
    then emit32 (0x93407c00 ||| x64_regs buf.b.reg <<< 5 ||| x64_regs buf.a.reg)
    else fail (unhandled buf.type)

-- MOVZWL, MOVSWL, MOVZBL and MOVSBL differ in the load only.
unfoldable pub encode_widening : ℕ → ℕ → Instruction → M Jit (Unit {0})
encode_widening load sf buf =
    if is_reg buf.a.type && is_reg buf.b.type
    then emit32 (sf ||| Op.add_imm ||| x64_regs buf.a.reg ||| x64_regs buf.b.reg <<< 5)
    else if is_reg buf.a.type && is_imm buf.b.type
    then emit_imm buf.b.imm (x64_regs buf.a.reg)
    else if has_mem buf.b.type
    then (do
      emit_address_decode buf.b sc1r buf.prefix
      emit32 (construct_r_r_imm load buf.a.reg Reg.sc1 0))
    else fail (unhandled buf.type)

-- prev_mov_rax_instr = context->host + context->hp; prev_rax = buf->b.imm;
abbrev pub note_rax : ℕ → M Jit (Unit {0})
note_rax imm = modify (λ s. record s { prev_mov_rax_instr = some s.context.hp; prev_rax = u32 imm })

-- The register that a store takes: XZR for zero, SC2 for another immediate.
abbrev pub stored_reg : Instruction → ℕ
stored_reg buf =
    if is_imm buf.b.type then (if buf.b.imm == 0 then Reg.xzr else Reg.sc2) else buf.b.reg

unfoldable pub encode_mov : ℕ → Instruction → M Jit (Unit {0})
encode_mov sf buf =
    if is_reg buf.a.type && is_reg buf.b.type
    then emit32 (sf ||| Op.add_imm ||| x64_regs buf.a.reg ||| x64_regs buf.b.reg <<< 5)
    else if is_reg buf.a.type && is_imm buf.b.type
    then (do
      when (buf.a.reg == Reg.rax) (note_rax buf.b.imm)
      emit_imm buf.b.imm (x64_regs buf.a.reg))
    else if has_mem buf.b.type
    then (do short ← emit_load (x64_regs buf.a.reg) buf.b sf buf.prefix; pure tt)
    else if has_mem buf.a.type
    then (do
      when (is_imm buf.b.type && not (buf.b.imm == 0)) (emit_imm buf.b.imm sc2r)
      short ← emit_store (x64_regs (stored_reg buf)) buf.a sf buf.prefix true
      pure tt)
    else fail (unhandled buf.type)

unfoldable pub encode_lea : Instruction → M Jit (Unit {0})
encode_lea buf =
    if has_mem buf.b.type
    then emit_address_decode buf.b (x64_regs buf.a.reg) buf.prefix
    else fail (unhandled buf.type)

-- CMOVA and CMOVS.
unfoldable pub encode_cmov : ℕ → ℕ → Instruction → M Jit (Unit {0})
encode_cmov csel sf buf =
    if is_reg buf.a.type && is_reg buf.b.type
    then emit32 (construct_r_r_r (sf ||| csel) buf.a.reg buf.b.reg buf.a.reg)
    else fail (unhandled buf.type)

-- SXTW of RAX's home, and the sign of it into RDX's.
abbrev pub sxtw_rax : ℕ
sxtw_rax = Op.sxtw_reg ||| x64_regs Reg.rax <<< 5 ||| x64_regs Reg.rax

unfoldable pub encode_cltq : M Jit (Unit {0})
encode_cltq = emit32 sxtw_rax

unfoldable pub encode_cltd : M Jit (Unit {0})
encode_cltd = do emit32 sxtw_rax; emit32 (0x937ffc02 ||| x64_regs Reg.rax <<< 5)
