-- ===== src/Encoder/Vector.antt =====
-- The scalar floating-point cases of `encode` in src/encoder.c.
use byte_shatter.Base.{
  ℕ, Bool, ◌&&◌, ◌==◌, if◌then◌else◌, ◌<<<◌, ◌|||◌, M, pure, fail, when, ◌>>=◌, ◌>>◌, unhandled,
}
use byte_shatter.X86.OpType
use byte_shatter.X86.Prefix
use byte_shatter.X86.{Instruction, has_mem, has_xmm}
use byte_shatter.Jit.{Jit, emit32}
use byte_shatter.Encoder.Op
use byte_shatter.Encoder.Emit.{x64_regs, sc1r, flag_if}
use byte_shatter.Encoder.Address.{emit_address_decode, emit_load}
use byte_shatter.Encoder.Byte.{is_reg}

abbrev pub is_xmm : ℕ → Bool
is_xmm t = t == (OpType.reg ||| OpType.xmm)

-- The words of a load and a store of the SIMD register `r` at SC1.
abbrev pub neon_load : ℕ → ℕ → ℕ
neon_load msf r = msf ||| Op.ldr_neon ||| sc1r <<< 5 ||| r

abbrev pub neon_store : ℕ → ℕ → ℕ
neon_store msf r = msf ||| Op.str_neon ||| sc1r <<< 5 ||| r

unfoldable pub emit_neon : ℕ → Instruction → M Jit (Unit {0})
emit_neon opcode buf = do
  let osf : ℕ = flag_if (buf.prefix == Prefix.repn) Op.ft
  let msf : ℕ = flag_if (buf.prefix == Prefix.repn) Op.mft
  if has_mem buf.a.type
      then (do emit_address_decode buf.a sc1r buf.prefix; emit32 (neon_load msf 16))
      else if has_mem buf.b.type
      then (do emit_address_decode buf.b sc1r buf.prefix; emit32 (neon_load msf 16))
      else pure tt
  let r0 : ℕ = if has_mem buf.a.type then 16 else buf.a.reg
  let r1 : ℕ =
      if has_mem buf.a.type then buf.b.reg else if has_mem buf.b.type then 16 else buf.b.reg
  emit32 (osf ||| opcode ||| r0 ||| r0 <<< 5 ||| r1 <<< 16)
  when (has_mem buf.a.type) (emit32 (neon_store msf 16))

unfoldable pub encode_movs : Instruction → M Jit (Unit {0})
encode_movs buf =
    let msf = flag_if (buf.prefix == Prefix.repn) Op.mft in
    if has_mem buf.a.type
    then (do emit_address_decode buf.a sc1r buf.prefix; emit32 (neon_store msf buf.b.reg))
    else if has_mem buf.b.type
    then (do emit_address_decode buf.b sc1r buf.prefix; emit32 (neon_load msf buf.a.reg))
    else fail (unhandled buf.type)

unfoldable pub encode_pxor : Instruction → M Jit (Unit {0})
encode_pxor buf =
    if is_xmm buf.a.type && is_xmm buf.b.type
    then emit32 (Op.eor_neon ||| buf.a.reg ||| buf.a.reg <<< 5 ||| buf.b.reg <<< 16)
    else fail (unhandled buf.type)

unfoldable pub encode_cvtsd2si : Instruction → M Jit (Unit {0})
encode_cvtsd2si buf =
    if is_reg buf.a.type && is_xmm buf.b.type
    then emit32 (Op.fcvtzs_neon ||| x64_regs buf.a.reg ||| buf.b.reg <<< 5)
    else fail (unhandled buf.type)

unfoldable pub encode_cvtsi2s : Instruction → M Jit (Unit {0})
encode_cvtsi2s buf =
    let instr = if buf.prefix == Prefix.repn then Op.scvtd_neon else Op.scvtf_neon in
    if has_mem buf.b.type
    then (do short ← emit_load sc1r buf.b 0 buf.prefix; emit32 (instr ||| buf.a.reg ||| sc1r <<< 5))
    else if is_reg buf.b.type
    then emit32 (instr ||| buf.a.reg ||| x64_regs buf.b.reg <<< 5)
    else fail (unhandled buf.type)

unfoldable pub encode_cvtsd2ss : Instruction → M Jit (Unit {0})
encode_cvtsd2ss buf =
    if is_xmm buf.a.type && is_xmm buf.b.type
    then emit32 (Op.fcvt_neon ||| buf.a.reg ||| buf.b.reg <<< 5)
    else fail (unhandled buf.type)

unfoldable pub encode_cvtss2sd : Instruction → M Jit (Unit {0})
encode_cvtss2sd buf =
    if is_xmm buf.a.type && is_xmm buf.b.type
    then emit32 (Op.fcvtu_neon ||| buf.a.reg ||| buf.b.reg <<< 5)
    else if has_mem buf.b.type
    then (do
      emit_address_decode buf.b sc1r buf.prefix
      emit32 (Op.ldr_neon ||| 16 ||| sc1r <<< 5)
      emit32 (Op.fcvtu_neon ||| buf.a.reg ||| 16 <<< 5))
    else fail (unhandled buf.type)

unfoldable pub encode_movq : Instruction → M Jit (Unit {0})
encode_movq buf =
    if has_xmm buf.b.type
    then emit32 (Op.fmov_neon ||| x64_regs buf.a.reg ||| buf.b.reg <<< 5)
    else emit32 (Op.fmovr_neon ||| buf.a.reg ||| x64_regs buf.b.reg <<< 5)

unfoldable pub encode_movapd : ℕ → Instruction → M Jit (Unit {0})
encode_movapd sf buf =
    emit32 (sf ||| Op.mov_neon ||| buf.a.reg ||| buf.b.reg <<< 5 ||| buf.b.reg <<< 16)
