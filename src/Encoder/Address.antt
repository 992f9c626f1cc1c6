-- ===== src/Encoder/Address.antt =====
-- `emit_address_decode`, `emit_load` and `emit_store` of src/encoder.c: memory operands.
pub mod Effective
pub mod Lea
use byte_shatter.Base.{
  ℕ, ◌+◌, ◌-◌, ◌*◌, ◌/◌, ◌^◌, Bool, ◌&&◌, not, ltb, ◌==◌, if◌then◌else◌, ◌<<<◌, ◌>>>◌, ◌|||◌,
  low_bits, negative, asr64, u64, M, pure, fail, when, get, ◌>>=◌, ◌>>◌, too_large_distance,
}
use byte_shatter.X86.OpType
use byte_shatter.X86.Prefix
use byte_shatter.X86.{Operand, has_reg, has_idx, has_imm}
use byte_shatter.Jit.{Jit, emit32}
use byte_shatter.Encoder.Op
use byte_shatter.Encoder.Emit.{x64_regs, sc1r, emit_add_signed}

-- full & ~0xFFF
abbrev pub page : ℕ → ℕ
page p = p / 2 ^ 12 * 2 ^ 12

-- context->guest + context->gp + op->imm, and the address of the next host word
abbrev pub full_address : Jit → ℕ → ℕ
full_address s imm = u64 (s.context.guest + s.context.gp + imm)

abbrev pub host_address : Jit → ℕ
host_address s = u64 (s.context.host + s.context.hp * 4)

-- (target - current) >> 12, an int64_t
abbrev pub page_delta : Jit → ℕ → ℕ
page_delta s imm = asr64 (u64 (page (full_address s imm) + 2 ^ 64 - page (host_address s))) 12

-- delta < -4294967296 || delta > 4294967296
abbrev pub too_far : ℕ → Bool
too_far delta = if negative delta then ltb delta (2 ^ 64 - 4294967296) else ltb 4294967296 delta

-- An address relative to the guest's instruction pointer, by ADRP and ADD.
unfoldable pub emit_rip_address : ℕ → ℕ → M Jit (Unit {0})
emit_rip_address imm reg = do
  s ← get
  let full : ℕ = full_address s imm
  let delta : ℕ = page_delta s imm
  if too_far delta then fail too_large_distance else (do
    emit32 (0x90000000 ||| low_bits delta 2 <<< 29 ||| low_bits (delta >>> 2) 19 <<< 5 ||| reg)
    emit32 (0x91000000 ||| low_bits full 12 <<< 10 ||| reg <<< 5 ||| reg))

-- An index, scaled, with a base and a displacement if there are any.
unfoldable pub emit_idx_address : Operand → ℕ → M Jit (Unit {0})
emit_idx_address op reg = do
  if op.scale == 0
      then emit32 (Op.sf ||| Op.add_imm ||| reg ||| x64_regs op.idx <<< 5)
      else emit32 (
          0xD3400000
          ||| low_bits (256 - op.scale) 6 <<< 16
          ||| low_bits (63 + 256 - op.scale) 6 <<< 10
          ||| x64_regs op.idx <<< 5
          ||| reg)
  when (has_reg op.type)
      (emit32 (Op.sf ||| Op.add_reg ||| reg ||| reg <<< 5 ||| x64_regs op.reg <<< 16))
  when (has_imm op.type && not (op.imm == 0)) (emit_add_signed reg reg op.imm)

unfoldable pub emit_address_decode : Operand → ℕ → ℕ → M Jit (Unit {0})
emit_address_decode op reg prefix =
    if prefix == Prefix.fs
    then (do emit32 (Op.get_fs ||| reg); emit_add_signed reg reg op.imm)
    else if op.type == (OpType.mem ||| OpType.imm)
    then emit_rip_address op.imm reg
    else if has_idx op.type
    then emit_idx_address op reg
    else if has_imm op.type
    then emit_add_signed reg (x64_regs op.reg) op.imm
    else emit32 (Op.sf ||| Op.add_imm ||| reg ||| x64_regs op.reg <<< 5)

-- op->imm > -256 && op->imm < 255
abbrev pub is_near : ℕ → Bool
is_near imm = if negative imm then ltb (2 ^ 64 - 256) imm else ltb imm 255

-- The word with a 9-bit signed offset, and the word without.
abbrev pub near_word : ℕ → ℕ → Operand → ℕ → ℕ
near_word sf op_code op rd =
    sf ||| op_code ||| low_bits op.imm 9 <<< 12 ||| x64_regs op.reg <<< 5 ||| rd

abbrev pub plain_word : ℕ → ℕ → ℕ → ℕ → ℕ
plain_word sf op_code rn rd = sf ||| op_code ||| rn <<< 5 ||| rd

abbrev pub is_near_operand : Operand → Bool
is_near_operand op = op.type == (OpType.mem ||| OpType.reg ||| OpType.imm) && is_near op.imm

-- Both return whether the address stood in the instruction itself; no caller reads that.
unfoldable pub emit_load : ℕ → Operand → ℕ → ℕ → M Jit ℕ
emit_load rd op sf prefix =
    if is_near_operand op
    then (do emit32 (near_word (sf >>> 1) Op.ldur op rd); pure 1)
    else if op.type == (OpType.mem ||| OpType.reg)
    then (do emit32 (plain_word (sf >>> 1) Op.ldr32_reg (x64_regs op.reg) rd); pure 1)
    else do
      emit_address_decode op sc1r prefix
      emit32 (plain_word (sf >>> 1) Op.ldr32_reg sc1r rd)
      pure 0

unfoldable pub emit_store : ℕ → Operand → ℕ → ℕ → Bool → M Jit ℕ
emit_store rd op sf prefix address =
    if is_near_operand op
    then (do emit32 (near_word (sf >>> 1) Op.stur op rd); pure 1)
    else if op.type == (OpType.mem ||| OpType.reg)
    then (do emit32 (plain_word (sf >>> 1) Op.str32_reg (x64_regs op.reg) rd); pure 1)
    else do
      when address (emit_address_decode op sc1r prefix)
      emit32 (plain_word (sf >>> 1) Op.str32_reg sc1r rd)
      pure 0
