-- ===== src/Decoder/ModRm.antt =====
-- `decode_rm`, `decode_r_rm`, `decode_rm_r` and `decode_rex` of src/decoder.c.
pub mod Encoding
use byte_shatter.Base.{
  ℕ, ◌+◌, Bool, ◌&&◌, ltb, ◌==◌, if◌then◌else◌, ◌>>>◌, ◌|||◌, low_bits, bit, sx8, sx32, u8, M, pure,
  ◌>>=◌,
}
use byte_shatter.X86.OpType
use byte_shatter.X86.{
  Operand, Instruction, set_type, add_type, add_imm, to_reg, on_a, on_b, as_size, as_reverse,
}
use byte_shatter.Memory.{Context, fetch8, fetch32}

module _ (mem : ℕ → ℕ) where
  -- The SIB byte: its three fields, then a displacement without a base or a base.
  unfoldable pub decode_sib : ℕ → Operand → M Context Operand
  decode_sib mode op = do
    sib ← fetch8 mem
    let fields : Operand = record op {
      reg = low_bits sib 3;
      idx = low_bits (sib >>> 3) 3;
      scale = sib >>> 6;
    }
    let indexed : Operand = if fields.idx == 4 then fields else add_type OpType.idx fields
    if fields.reg == 5 && mode == 0
        then (do imm ← fetch32 mem; pure (add_imm (sx32 imm) indexed))
        else pure (add_type OpType.reg indexed)

  -- The base, for `mod` below 3.
  unfoldable pub decode_base : ℕ → ℕ → Operand → M Context Operand
  unfolding decode_sib
  decode_base mode rm op =
      if rm == 4
      then decode_sib mode op
      else if mode == 0 && rm == 5
      then (do imm ← fetch32 mem; pure (add_imm (sx32 imm) op))
      else pure (record op { type = op.type ||| OpType.reg; reg = rm })

  -- The displacement of `mod` 1 and 2.
  unfoldable pub decode_disp : ℕ → Operand → M Context Operand
  decode_disp mode op =
      if mode == 1
      then (do imm ← fetch8 mem; pure (add_imm (sx8 imm) op))
      else if mode == 2
      then (do imm ← fetch32 mem; pure (add_imm (sx32 imm) op))
      else pure op

  -- `mod` is a reserved word here, hence `mode`.
  unfoldable pub decode_rm : ℕ → Operand → M Context Operand
  decode_rm modrm op =
      let mode = modrm >>> 6 in
      let rm = low_bits modrm 3 in
      if ltb mode 3
      then (do based ← decode_base mode rm (set_type OpType.mem op); decode_disp mode based)
      else pure (to_reg rm op)

  unfoldable pub decode_r_rm : Instruction → M Context Instruction
  decode_r_rm buf = do
    byte ← fetch8 mem
    let named : Instruction = on_a (to_reg (low_bits (byte >>> 3) 3)) (as_reverse 0 buf)
    b ← decode_rm byte named.b
    pure (record named { b = b })

  unfoldable pub decode_rm_r : Instruction → M Context Instruction
  decode_rm_r buf = do
    byte ← fetch8 mem
    let named : Instruction = on_b (to_reg (low_bits (byte >>> 3) 3)) (as_reverse 1 buf)
    a ← decode_rm byte named.a
    pure (record named { a = a })

-- op->reg += 8 and op->idx += 8, if the bit of the REX prefix is set
abbrev pub high_reg : Bool → Operand → Operand
high_reg b op = if b then record op { reg = u8 (op.reg + 8) } else op

abbrev pub high_idx : Bool → Operand → Operand
high_idx b op = if b then record op { idx = u8 (op.idx + 8) } else op

unfoldable pub decode_rex : ℕ → Instruction → Instruction
decode_rex rex buf =
    let sized : Instruction = if bit rex 3 then as_size 64 buf else buf in
    if buf.reverse == 0
    then on_b (λ op. high_reg (bit rex 0) (high_idx (bit rex 1) op))
        (on_a (high_reg (bit rex 2)) sized)
    else on_a (λ op. high_reg (bit rex 0) (high_idx (bit rex 1) op))
        (on_b (high_reg (bit rex 2)) sized)
