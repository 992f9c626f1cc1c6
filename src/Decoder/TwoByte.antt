-- ===== src/Decoder/TwoByte.antt =====
-- `decode_0F` of src/decoder_0F.c: the opcodes behind an 0x0F byte.
use byte_shatter.Base.{
  ℕ, ◌+◌, ◌-◌, Bool, ◌||◌, within, ◌==◌, if◌then◌else◌, sx32, M, pure, fail, ◌>>=◌,
  unknown_0f_symbol,
}
use byte_shatter.X86.OpType
use byte_shatter.X86.Instr
use byte_shatter.X86.Prefix
use byte_shatter.X86.{
  Operand, Instruction, set_type, add_type, to_imm, on_a, on_b, as_size, as_type, has_imm,
}
use byte_shatter.Memory.{Context, fetch8, fetch32}
use byte_shatter.Decoder.ModRm.{decode_rm, decode_r_rm, decode_rm_r}

-- if (op->type == REG) op->type |= XMM
abbrev pub xmm_if_reg : Operand → Operand
xmm_if_reg op = if op.type == OpType.reg then add_type OpType.xmm op else op

abbrev pub as_prefix : ℕ → Instruction → Instruction
as_prefix p buf = record buf { prefix = p }

-- The opcodes that share the code at the label `set`.
abbrev pub is_set : ℕ → Bool
is_set byte =
    byte == 0x10
    || byte == 0x28
    || byte == 0x2f
    || byte == 0x57
    || byte == 0x58
    || byte == 0x59
    || byte == 0x5a
    || byte == 0x5C
    || byte == 0x5E
    || byte == 0xEF

-- What those opcodes do before the jump to `set`.
unfoldable pub before_set : ℕ → Instruction → Instruction
before_set byte buf =
    if byte == 0x10
    then as_type Instr.movs buf
    else if byte == 0x28
    then as_type Instr.movapd buf
    else if byte == 0x2f
    then as_type Instr.comis
        (as_prefix (if buf.prefix == Prefix.os then Prefix.repn else Prefix.repe) buf)
    else if byte == 0x58
    then as_type Instr.adds buf
    else if byte == 0x59
    then as_type Instr.muls buf
    else if byte == 0x5a
    then as_type (if buf.prefix == Prefix.repe then Instr.cvtss2sd else Instr.cvtsd2ss) buf
    else if byte == 0x5C
    then as_type Instr.subs buf
    else if byte == 0x5E
    then as_type Instr.divs buf
    else as_type Instr.pxor buf

module _ (mem : ℕ → ℕ) where
  unfoldable pub at_set : Instruction → M Context Instruction
  at_set buf = do
    read ← decode_r_rm mem buf
    pure (on_b xmm_if_reg (on_a (add_type OpType.xmm) read))

  -- SYSCALL, ENDBR and the long NOP; the last two skip one byte.
  unfoldable pub decode_0f_plain : ℕ → Instruction → M Context Instruction
  decode_0f_plain byte buf =
      let bare = λ (t : ℕ). on_a (set_type OpType.none) (as_type t (as_prefix 0 buf)) in
      if byte == 0x05
      then pure (bare Instr.syscall)
      else if byte == 0x1E
      then (do fetch8 mem >>= λ _. pure (bare Instr.ebr))
      else do fetch8 mem >>= λ _. pure (bare Instr.nop)

  -- The moves and conversions between the register files.
  unfoldable pub decode_0f_xmm : ℕ → Instruction → M Context Instruction
  decode_0f_xmm byte buf =
      if byte == 0x11
      then (do
        read ← decode_rm_r mem (as_type Instr.movs buf)
        pure (on_b (add_type OpType.xmm) (on_a xmm_if_reg read)))
      else if byte == 0x2A
      then (do
        read ← decode_r_rm mem (as_type Instr.cvtsi2s buf)
        pure (on_a (add_type OpType.xmm) read))
      else if byte == 0x2C
      then (do
        read ← decode_rm_r mem (as_type Instr.cvtsd2si buf)
        pure (on_b (add_type OpType.xmm) read))
      else if byte == 0x7e
      then (do
        read ← decode_rm_r mem (as_type Instr.movq buf)
        pure (on_b (add_type OpType.xmm) read))
      else do
        read ← decode_r_rm mem (as_type Instr.movq buf)
        pure (on_a (add_type OpType.xmm) read)

  -- CMOVcc, Jcc and SETcc: the condition is the low half of the opcode.
  unfoldable pub decode_0f_cond : ℕ → Instruction → M Context Instruction
  decode_0f_cond byte buf =
      if within 0x40 0x4F byte
      then decode_r_rm mem (as_type (byte - 0x40 + Instr.cmovo) buf)
      else if within 0x80 0x8F byte
      then (do
        let named : Instruction = as_type (byte - 0x80 + Instr.jo) buf
        imm ← fetch32 mem
        pure (on_b (set_type OpType.none) (on_a (to_imm (sx32 imm)) named)))
      else do
        let named : Instruction = as_type (byte - 0x90 + Instr.seto) (as_size 8 buf)
        modrm ← fetch8 mem
        a ← decode_rm mem modrm named.a
        pure (on_b (set_type OpType.none) (record named { a = a }))

  -- IMUL and the widening moves.
  unfoldable pub decode_0f_wide : ℕ → Instruction → M Context Instruction
  decode_0f_wide byte buf =
      if byte == 0xAF
      then (do
        read ← decode_r_rm mem (as_type Instr.imul buf)
        let factor : Operand = if has_imm read.b.type then read.b else record (read.b) { imm = 0 }
        pure (record read { b = factor }))
      else if byte == 0xB6
      then decode_r_rm mem (as_type Instr.movzbl buf)
      else if byte == 0xB7
      then decode_r_rm mem (as_type Instr.movzwl buf)
      else if byte == 0xBE
      then decode_r_rm mem (as_type Instr.movsbl buf)
      else decode_r_rm mem (as_type Instr.movswl buf)

  -- The switch of decode_0F.
  unfoldable pub decode_0f_byte : ℕ → Instruction → M Context Instruction
  decode_0f_byte byte buf =
      if byte == 0x05 || byte == 0x1E || byte == 0x1F
      then decode_0f_plain byte buf
      else if byte == 0x11 || byte == 0x2A || byte == 0x2C || byte == 0x7e || byte == 0x6e
      then decode_0f_xmm byte buf
      else if is_set byte
      then at_set (before_set byte buf)
      else if within 0x40 0x4F byte || within 0x80 0x8F byte || within 0x90 0x9F byte
      then decode_0f_cond byte buf
      else if byte == 0xAF || byte == 0xB6 || byte == 0xB7 || byte == 0xBE || byte == 0xBF
      then decode_0f_wide byte buf
      else fail (unknown_0f_symbol byte)

  unfoldable pub decode_0f : Instruction → M Context Instruction
  decode_0f buf = do byte ← fetch8 mem; decode_0f_byte byte buf
