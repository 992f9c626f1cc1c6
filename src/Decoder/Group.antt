-- ===== src/Decoder/Group.antt =====
-- `decode_GRP0` and `decode_GRP3` of src/decoder.c.
use byte_shatter.Base.{
  ℕ, Bool, ltb, ◌==◌, if◌then◌else◌, low_bits, bit, sx8, sx32, M, pure, fail, ◌>>=◌,
}
use byte_shatter.Base.{unknown_grp3}
use byte_shatter.X86.OpType
use byte_shatter.X86.Reg
use byte_shatter.X86.Instr
use byte_shatter.X86.{
  Instruction, set_type, to_reg, to_imm, on_a, on_b, as_size, as_type, as_reverse,
}
use byte_shatter.Memory.{Context, fetch8, fetch32}
use byte_shatter.Decoder.ModRm.{decode_r_rm, decode_rm_r}

module _ (mem : ℕ → ℕ) where
  -- buf->b.imm = an int8_t, or an int32_t unless `byte_sized`
  unfoldable pub fetch_imm : Bool → M Context ℕ
  fetch_imm byte_sized =
      if byte_sized
      then (do imm ← fetch8 mem; pure (sx8 imm))
      else do imm ← fetch32 mem; pure (sx32 imm)

  unfoldable pub decode_grp0 : ℕ → Instruction → M Context Instruction
  decode_grp0 byte buf =
      let sized : Instruction = if bit byte 0 then buf else as_size 8 buf in
      let grp = low_bits byte 3 in
      if ltb grp 2 then decode_rm_r mem sized else if ltb grp 4 then decode_r_rm mem sized else do
        let wide : Instruction = on_a (to_reg Reg.rax) (as_reverse 0 sized)
        imm ← fetch_imm (sized.size == 8)
        pure (on_b (to_imm imm) wide)

-- The table of decode_GRP3, for the code in the middle of the ModRM byte.
unfoldable pub decode_grp3 : ℕ → Instruction → M Context Instruction
decode_grp3 code buf =
    let far : Instruction =
      if ltb 1 code then on_b (set_type OpType.none) (as_size 64 buf) else buf in
    if code == 0
    then pure (on_b (to_imm 1) (as_type Instr.add far))
    else if code == 1
    then pure (on_b (to_imm 1) (as_type Instr.sub far))
    else if code == 2
    then pure (as_type Instr.call far)
    else if code == 4
    then pure (as_type Instr.jmp far)
    else if code == 6
    then pure (as_type Instr.push far)
    else fail (unknown_grp3 code)
