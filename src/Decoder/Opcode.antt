-- ===== src/Decoder/Opcode.antt =====
-- `decode_instr` of src/decoder.c: the prefixes, the switch on the opcode, and the REX bits.
-- The log line at its end prints the instruction and changes nothing.
pub mod TwoOperands
pub mod Rex
pub mod Instructions
use byte_shatter.Base.{
  ℕ, ◌+◌, ◌-◌, Bool, true, false, ◌||◌, ltb, within, ◌==◌, if◌then◌else◌, ◌>>>◌, low_bits, bit, sx8,
  sx32, M, pure, fail, ◌>>=◌, unknown_symbol, unhandled_f7,
}
use byte_shatter.X86.OpType
use byte_shatter.X86.Reg
use byte_shatter.X86.Instr
use byte_shatter.X86.Prefix
use byte_shatter.X86.{
  Instruction, set_type, to_reg, to_imm, on_a, on_b, as_size, as_type, as_reverse,
}
use byte_shatter.Memory.{Context, fetch8, fetch16, fetch32, fetch64}
use byte_shatter.Decoder.ModRm.{decode_rm, decode_r_rm, decode_rm_r, decode_rex}
use byte_shatter.Decoder.Group.{fetch_imm, decode_grp0, decode_grp3}
use byte_shatter.Decoder.TwoByte.{decode_0f, as_prefix}

-- buf->type = t; buf->a.type = NONE
abbrev pub bare : ℕ → Instruction → Instruction
bare t buf = on_a (set_type OpType.none) (as_type t buf)

-- The decoded instruction, and whether it ends the block.
abbrev pub Decoded : Type 0
Decoded = Instruction × Bool

abbrev pub goes_on : Instruction → M Context Decoded
goes_on buf = pure (buf, false)

abbrev pub ends : Instruction → M Context Decoded
ends buf = pure (buf, true)

-- The bytes before the opcode: FS ... OS and REPN ... REPE, then a REX byte.
abbrev pub is_prefix : ℕ → Bool
is_prefix byte = within Prefix.fs Prefix.os byte || within Prefix.repn Prefix.repe byte

abbrev pub is_rex : ℕ → Bool
is_rex byte = byte >>> 4 == 4

module _ (mem : ℕ → ℕ) where
  -- buf->a is an immediate, buf->b is nothing
  abbrev one_imm : Bool → Instruction → M Context Instruction
  one_imm byte_sized buf = do
    imm ← fetch_imm mem byte_sized
    pure (on_b (set_type OpType.none) (on_a (to_imm imm) buf))

  -- buf->b is an immediate
  abbrev then_imm : Bool → Instruction → M Context Instruction
  then_imm byte_sized buf = do imm ← fetch_imm mem byte_sized; pure (on_b (to_imm imm) buf)

  -- decode_rm(context, &buf->a, modrm)
  abbrev rm_of_a : ℕ → Instruction → M Context Instruction
  rm_of_a modrm buf = do a ← decode_rm mem modrm buf.a; pure (record buf { a = a })

  -- 0x50 ... 0x5F
  unfoldable pub decode_push_pop : ℕ → Instruction → M Context Instruction
  decode_push_pop byte buf =
      let kind = if within 0x50 0x57 byte then Instr.push else Instr.pop in
      pure (
        on_b (set_type OpType.none)
          (on_a (to_reg (low_bits byte 3)) (as_type kind (as_reverse 1 (as_size 64 buf)))))

  -- 0x63, 0x68, 0x69, 0x6A, 0x70 ... 0x7F
  unfoldable pub decode_60s : ℕ → Instruction → M Context Instruction
  decode_60s byte buf =
      if byte == 0x63
      then decode_r_rm mem (as_type Instr.movsx buf)
      else if byte == 0x68
      then one_imm false (as_type Instr.push buf)
      else if byte == 0x69
      then (do
        read ← decode_r_rm mem (as_type Instr.imul buf)
        imm ← fetch32 mem
        pure (on_b (λ op. record op { imm = sx32 imm }) read))
      else if byte == 0x6A
      then one_imm true (as_type Instr.push buf)
      else one_imm true (as_type (Instr.jo + byte - 0x70) buf)

  -- 0x80, 0x81, 0x83
  unfoldable pub decode_alu_imm : ℕ → Instruction → M Context Instruction
  decode_alu_imm byte buf = do
    let sized : Instruction = if byte == 0x80 then as_size 8 buf else buf
    modrm ← fetch8 mem
    let named : Instruction = as_type (Instr.add + low_bits (modrm >>> 3) 3) (as_reverse 1 sized)
    read ← rm_of_a modrm named
    let immediate : Instruction = on_b (set_type OpType.imm) read
    imm ← fetch_imm mem (if byte == 0x81 then false else true)
    pure (on_b (λ op. record op { imm = imm }) immediate)

  -- 0x84, 0x85, 0x88 ... 0x8B, 0x8D, 0x8F
  unfoldable pub decode_80s : ℕ → Instruction → M Context Instruction
  decode_80s byte buf =
      if byte == 0x84
      then decode_rm_r mem (as_type Instr.test (as_size 8 buf))
      else if byte == 0x85
      then decode_rm_r mem (as_type Instr.test buf)
      else if within 0x88 0x8B byte
      then decode_grp0 mem byte (as_type Instr.mov buf)
      else if byte == 0x8D
      then decode_r_rm mem (as_type Instr.lea buf)
      else do
        modrm ← fetch8 mem
        read ← rm_of_a modrm (as_type Instr.pop (as_reverse 1 (as_size 64 buf)))
        pure (on_b (set_type OpType.none) read)

  -- 0xB0 ... 0xBF
  unfoldable pub decode_mov_imm : ℕ → ℕ → Instruction → M Context Instruction
  decode_mov_imm rex byte buf =
      let named : Instruction =
        on_b (set_type OpType.imm)
          (on_a (to_reg (low_bits byte 3)) (as_type Instr.mov (as_reverse 1 buf))) in
      if ltb byte 0xB8
      then (do imm ← fetch8 mem; pure (on_b (λ op. record op { imm = sx8 imm }) (as_size 8 named)))
      else if bit rex 3
      then (do imm ← fetch64 mem; pure (on_b (λ op. record op { imm = imm }) named))
      else do imm ← fetch32 mem; pure (on_b (λ op. record op { imm = sx32 imm }) named)

  -- 0xC0, 0xC1, 0xD0 ... 0xD3
  unfoldable pub decode_shift : ℕ → Instruction → M Context Instruction
  decode_shift byte buf = do
    let sized : Instruction = if bit byte 0 then buf else as_size 8 buf
    modrm ← fetch8 mem
    let named : Instruction = as_type (Instr.rol + low_bits (modrm >>> 3) 3) (as_reverse 1 sized)
    read ← rm_of_a modrm named
    if ltb byte 0xD2
        then (if ltb 0xC1 byte
            then pure (on_b (to_imm 1) read)
            else (do imm ← fetch8 mem; pure (on_b (to_imm (sx8 imm)) read)))
        else pure (on_b (to_reg Reg.rcx) read)

  -- 0xC6, 0xC7
  unfoldable pub decode_mov_rm_imm : ℕ → Instruction → M Context Instruction
  decode_mov_rm_imm byte buf = do
    let sized : Instruction = if byte == 0xC6 then as_size 8 buf else buf
    modrm ← fetch8 mem
    read ← rm_of_a modrm (as_type Instr.mov (as_reverse 1 sized))
    let named : Instruction = on_b (set_type OpType.imm) read
    if byte == 0xC6
        then (do imm ← fetch8 mem; pure (on_b (λ op. record op { imm = sx8 imm }) named))
        else if named.prefix == Prefix.os
        then (do
          imm ← fetch16 mem
          pure (as_size 16 (on_b (λ op. record op { imm = sx32 imm }) named)))
        else do imm ← fetch32 mem; pure (on_b (λ op. record op { imm = sx32 imm }) named)

  -- 0xE8, 0xE9, 0xEB
  unfoldable pub decode_branch : ℕ → Instruction → M Context Decoded
  decode_branch byte buf =
      if byte == 0xEB then (do read ← one_imm true (as_type Instr.jmp buf); ends read) else do
        read ← one_imm false (as_type (Instr.call + (byte - 0xE8)) buf)
        pure (read, read.type == Instr.jmp)

  -- 0xF7
  unfoldable pub decode_f7 : Instruction → M Context Instruction
  decode_f7 buf = do
    modrm ← fetch8 mem
    let code : ℕ = low_bits (modrm >>> 3) 3
    let kind : ℕ = if code == 7 then Instr.idiv else Instr.imul
    let named : Instruction = on_a (to_reg Reg.rax) (as_type kind buf)
    if code == 7 || code == 5
        then (do b ← decode_rm mem modrm named.b; pure (record named { b = b }))
        else fail unhandled_f7

  -- 0xFE, 0xFF
  unfoldable pub decode_grp5 : ℕ → Instruction → M Context Decoded
  decode_grp5 byte buf = do
    let sized : Instruction = if byte == 0xFE then as_size 8 buf else buf
    modrm ← fetch8 mem
    let code : ℕ = low_bits (modrm >>> 3) 3
    read ← rm_of_a modrm (as_reverse 1 sized)
    named ← decode_grp3 code read
    pure (named, named.type == Instr.jmp)

  -- The opcodes of the switch that do not touch control flow.
  unfoldable pub decode_straight : ℕ → ℕ → Instruction → M Context Instruction
  decode_straight rex byte buf =
      if ltb byte 0x40
      then (if byte == 0x0F
          then decode_0f mem buf
          else decode_grp0 mem byte (as_type (Instr.add + low_bits (byte >>> 3) 3) buf))
      else if within 0x50 0x5F byte
      then decode_push_pop byte buf
      else if byte == 0x63 || byte == 0x68 || byte == 0x69 || byte == 0x6A || within 0x70 0x7F byte
      then decode_60s byte buf
      else if byte == 0x80 || byte == 0x81 || byte == 0x83
      then decode_alu_imm byte buf
      else if byte == 0x84 || byte == 0x85 || within 0x88 0x8B byte || byte == 0x8D || byte == 0x8F
      then decode_80s byte buf
      else if byte == 0x90
      then pure (bare Instr.nop buf)
      else if byte == 0x98
      then pure (bare Instr.cltq buf)
      else if byte == 0x99
      then pure (bare Instr.cltd buf)
      else if within 0xB0 0xBF byte
      then decode_mov_imm rex byte buf
      else if byte == 0xC0 || byte == 0xC1 || within 0xD0 0xD3 byte
      then decode_shift byte buf
      else if byte == 0xC6 || byte == 0xC7
      then decode_mov_rm_imm byte buf
      else if byte == 0xC9
      then pure (bare Instr.leave buf)
      else if byte == 0xF7
      then decode_f7 buf
      else fail (unknown_symbol byte)

  -- The switch of decode_instr, for the opcode behind the prefixes.
  unfoldable pub decode_opcode : ℕ → ℕ → Instruction → M Context Decoded
  decode_opcode rex byte buf =
      if byte == 0xF4 || byte == 0xC3
      then ends (bare Instr.ret buf)
      else if byte == 0xE8 || byte == 0xE9 || byte == 0xEB
      then decode_branch byte buf
      else if byte == 0xFE || byte == 0xFF
      then decode_grp5 byte buf
      else do read ← decode_straight rex byte buf; goes_on read

  unfoldable pub decode_instr : Instruction → M Context Decoded
  decode_instr buf = do
    let clean : Instruction = as_size 32 (as_prefix 0 buf)
    first ← fetch8 mem
    let prefixed : Instruction = if is_prefix first then as_prefix first clean else clean
    second ← if is_prefix first then fetch8 mem else pure first
    let rex : ℕ = if is_rex second then low_bits second 4 else 0
    byte ← if is_rex second then fetch8 mem else pure second
    decoded ← decode_opcode rex byte prefixed
    let (read, ret) = decoded
    pure (if rex == 0 then read else decode_rex rex read, ret)
