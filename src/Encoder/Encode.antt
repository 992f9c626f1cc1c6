-- ===== src/Encoder/Encode.antt =====
-- `encode` of src/encoder.c: the switch on the type of the instruction.
use byte_shatter.Base.{
  ℕ, Bool, ◌&&◌, ◌||◌, not, ◌==◌, if◌then◌else◌, M, pure, fail, when, ◌>>◌, unknown_instruction,
}
use byte_shatter.X86.Instr
use byte_shatter.X86.{Instruction}
use byte_shatter.Jit.{Jit}
use byte_shatter.Encoder.Op
use byte_shatter.Encoder.Emit.{flag_if, emit_ret}
use byte_shatter.Encoder.Byte.{encode8bit}
use byte_shatter.Encoder.Alu.{
  encode_sub, encode_add, encode_cmp, encode_shl, encode_shr, encode_sar, encode_test, encode_xor,
  encode_and, encode_or, encode_idiv, encode_imul,
}
use byte_shatter.Encoder.Moves.{
  encode_movsx, encode_widening, encode_mov, encode_lea, encode_cmov, encode_cltq, encode_cltd,
}
use byte_shatter.Encoder.Stack.{encode_pop, encode_push, encode_leave, forget}
use byte_shatter.Encoder.Flow.{encode_jcc, emit_branch, encode_syscall}
use byte_shatter.Encoder.Vector.{
  emit_neon, encode_movs, encode_pxor, encode_cvtsd2si, encode_cvtsi2s, encode_cvtsd2ss,
  encode_cvtss2sd, encode_movq, encode_movapd,
}

-- The conditional jumps that the encoder knows.
abbrev pub is_jcc : ℕ → Bool
is_jcc t =
    t == Instr.jg
    || t == Instr.jge
    || t == Instr.jl
    || t == Instr.jle
    || t == Instr.jne
    || t == Instr.jbe
    || t == Instr.jae
    || t == Instr.je

-- The integer half of the switch.
unfoldable pub encode_integer : ℕ → Instruction → M Jit (Unit {0}) → M Jit (Unit {0})
encode_integer sf buf otherwise =
    if buf.type == Instr.sub
    then encode_sub sf buf
    else if buf.type == Instr.add
    then encode_add sf buf
    else if buf.type == Instr.shl
    then encode_shl sf buf
    else if buf.type == Instr.shr
    then encode_shr sf buf
    else if buf.type == Instr.sar
    then encode_sar sf buf
    else if buf.type == Instr.movsx
    then encode_movsx buf
    else if buf.type == Instr.movzwl
    then encode_widening Op.ldrh_reg sf buf
    else if buf.type == Instr.movswl
    then encode_widening Op.ldrsh_reg sf buf
    else if buf.type == Instr.movzbl
    then encode_widening Op.ldrb_reg sf buf
    else if buf.type == Instr.movsbl
    then encode_widening Op.ldrsb_reg sf buf
    else if buf.type == Instr.mov
    then encode_mov sf buf
    else if buf.type == Instr.lea
    then encode_lea buf
    else if buf.type == Instr.test
    then encode_test sf buf
    else if buf.type == Instr.cmp
    then encode_cmp sf buf
    else if buf.type == Instr.xor
    then encode_xor sf buf
    else if buf.type == Instr.and
    then encode_and sf buf
    else if buf.type == Instr.or
    then encode_or sf buf
    else if buf.type == Instr.pop
    then encode_pop buf
    else if buf.type == Instr.push
    then encode_push sf buf
    else if buf.type == Instr.leave
    then encode_leave
    else if buf.type == Instr.cltq
    then encode_cltq
    else if buf.type == Instr.cltd
    then encode_cltd
    else if buf.type == Instr.idiv
    then encode_idiv buf
    else if buf.type == Instr.imul
    then encode_imul sf buf
    else otherwise

-- Control flow and the floating-point half.
unfoldable pub encode_other : ℕ → Instruction → M Jit (Unit {0})
encode_other sf buf =
    if is_jcc buf.type
    then encode_jcc buf
    else if buf.type == Instr.jmp
    then emit_branch Op.br_reg Instr.jmp buf
    else if buf.type == Instr.call
    then emit_branch Op.blr_reg Instr.call buf
    else if buf.type == Instr.ret
    then emit_ret
    else if buf.type == Instr.ebr || buf.type == Instr.nop
    then pure tt
    else if buf.type == Instr.movs
    then encode_movs buf
    else if buf.type == Instr.cmova
    then encode_cmov Op.cselhi sf buf
    else if buf.type == Instr.cmovs
    then encode_cmov Op.cselmi sf buf
    else if buf.type == Instr.muls
    then emit_neon Op.mul_neon buf
    else if buf.type == Instr.divs
    then emit_neon Op.div_neon buf
    else if buf.type == Instr.adds
    then emit_neon Op.add_neon buf
    else if buf.type == Instr.subs
    then emit_neon Op.sub_neon buf
    else if buf.type == Instr.comis
    then emit_neon Op.cmp_neon buf
    else if buf.type == Instr.pxor
    then encode_pxor buf
    else if buf.type == Instr.cvtsd2si
    then encode_cvtsd2si buf
    else if buf.type == Instr.cvtsi2s
    then encode_cvtsi2s buf
    else if buf.type == Instr.cvtsd2ss
    then encode_cvtsd2ss buf
    else if buf.type == Instr.cvtss2sd
    then encode_cvtss2sd buf
    else if buf.type == Instr.movq
    then encode_movq buf
    else if buf.type == Instr.movapd
    then encode_movapd sf buf
    else if buf.type == Instr.syscall
    then encode_syscall
    else fail (unknown_instruction buf.type)

unfoldable pub encode : Instruction → M Jit (Unit {0})
encode buf = if buf.size == 8 then encode8bit buf else do
  when (not (buf.type == Instr.push) && not (buf.type == Instr.pop)) forget
  encode_integer (flag_if (buf.size == 64) Op.sf) buf
      (encode_other (flag_if (buf.size == 64) Op.sf) buf)
