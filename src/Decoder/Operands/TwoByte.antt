-- ===== src/Decoder/Operands/TwoByte.antt =====
-- The opcodes of src/decoder_0F.c, and what they leave in the operands.
use byte_shatter.Base.{ℕ, Post-mono, ◌==◌, ◌||◌, within, sx32, refl, M, inl, inr}
use byte_shatter.X86.{Operand, Instruction, add_type, on_a, on_b, has_imm}
use byte_shatter.X86.OpType
use byte_shatter.Memory.{Context}
use byte_shatter.Decoder.TwoByte.{
  at_set, decode_0f_plain, decode_0f_xmm, decode_0f_cond, decode_0f_wide, decode_0f_byte, decode_0f,
  xmm_if_reg, is_set,
}
use byte_shatter.Decoder.Operands.{
  IsOperand, AreOperands, IsReadable, Gives, Gives-pure, Gives-fail, Gives-if, IsOperand-if,
  IsOperand-to_imm, IsOperand-none, IsOperand-xmm, IsOperand-value,
}
use byte_shatter.Decoder.Operands.Parts.{
  then8, then32, then_rm, then_r_rm, then_rm_r, Gives-decode_r_rm,
}

IsOperand-xmm_if_reg : (op : Operand) → IsOperand 8 op → IsOperand 8 (xmm_if_reg op)
IsOperand-xmm_if_reg op p = IsOperand-if (op.type == OpType.reg) _ _ (IsOperand-xmm 8 op p) p

xmm_a : (r : Instruction) → AreOperands 8 r → AreOperands 8 (on_a (add_type OpType.xmm) r)
xmm_a r p = record { of_a = IsOperand-xmm 8 r.a p.of_a; of_b = p.of_b }

xmm_b : (r : Instruction) → AreOperands 8 r → AreOperands 8 (on_b (add_type OpType.xmm) r)
xmm_b r p = record { of_a = p.of_a; of_b = IsOperand-xmm 8 r.b p.of_b }

module _ (mem : ℕ → ℕ) where
  Gives-at_set : (buf : Instruction) → Gives (AreOperands 8) (at_set mem buf)
  unfolding at_set
  Gives-at_set buf = then_r_rm mem buf _ λ r p.
      Gives-pure _
        record { of_a = IsOperand-xmm 8 r.a p.of_a; of_b = IsOperand-xmm_if_reg r.b p.of_b }

  Gives-decode_0f_plain :
      (n : ℕ) (buf : Instruction) → Gives (IsReadable 8) (decode_0f_plain mem n buf)
  unfolding decode_0f_plain
  Gives-decode_0f_plain n buf = Gives-if (n == 0x05) _ _ (Gives-pure _ (inl refl)) (
      Gives-if (n == 0x1E) _ _ (then8 mem _ λ b _. Gives-pure _ (inl refl))
        (then8 mem _ λ b _. Gives-pure _ (inl refl)))

  Gives-decode_0f_xmm :
      (n : ℕ) (buf : Instruction) → Gives (AreOperands 8) (decode_0f_xmm mem n buf)
  unfolding decode_0f_xmm
  Gives-decode_0f_xmm n buf =
      Gives-if (n == 0x11) _ _
        (then_rm_r mem _ _ λ r p.
          Gives-pure _
            record { of_a = IsOperand-xmm_if_reg r.a p.of_a; of_b = IsOperand-xmm 8 r.b p.of_b })
        (Gives-if (n == 0x2A) _ _ (then_r_rm mem _ _ λ r p. Gives-pure _ (xmm_a r p)) (
          Gives-if (n == 0x2C) _ _ (then_rm_r mem _ _ λ r p. Gives-pure _ (xmm_b r p)) (
            Gives-if (n == 0x7e) _ _ (then_rm_r mem _ _ λ r p. Gives-pure _ (xmm_b r p))
              (then_r_rm mem _ _ λ r p. Gives-pure _ (xmm_a r p)))))

  Gives-decode_0f_cond :
      (n : ℕ) (buf : Instruction) → Gives (AreOperands 8) (decode_0f_cond mem n buf)
  unfolding decode_0f_cond
  Gives-decode_0f_cond n buf = Gives-if (within 0x40 0x4F n) _ _ (Gives-decode_r_rm mem _) (
      Gives-if (within 0x80 0x8F n) _ _
        (then32 mem _ λ imm.
          Gives-pure _
            record { of_a = IsOperand-to_imm 8 (sx32 imm) buf.a; of_b = IsOperand-none 8 buf.b })
        (then8 mem _ λ modrm _.
          then_rm mem modrm _ _
            λ a p. Gives-pure _ record { of_a = p; of_b = IsOperand-none 8 buf.b }))

  Gives-decode_0f_wide :
      (n : ℕ) (buf : Instruction) → Gives (AreOperands 8) (decode_0f_wide mem n buf)
  unfolding decode_0f_wide
  Gives-decode_0f_wide n buf =
      Gives-if (n == 0xAF) _ _
        (then_r_rm mem _ _ λ r p. Gives-pure _ record {
          of_a = p.of_a;
          of_b = IsOperand-if (has_imm r.b.type) _ _ p.of_b (IsOperand-value 8 r.b p.of_b 0);
        })
        (Gives-if (n == 0xB6) _ _ (Gives-decode_r_rm mem _) (
          Gives-if (n == 0xB7) _ _ (Gives-decode_r_rm mem _)
            (Gives-if (n == 0xBE) _ _ (Gives-decode_r_rm mem _) (Gives-decode_r_rm mem _))))

  -- Both operands, as a case of what can be read.
  pub readable : {m : M Context Instruction} → Gives (AreOperands 8) m → Gives (IsReadable 8) m
  readable p = record { after = λ c. Post-mono (λ r h. inr h) (p.after c) }

  pub Gives-decode_0f : (buf : Instruction) → Gives (IsReadable 8) (decode_0f mem buf)
  unfolding decode_0f decode_0f_byte
  Gives-decode_0f buf = then8 mem _ λ n _.
      Gives-if (n == 0x05 || n == 0x1E || n == 0x1F) _ _ (Gives-decode_0f_plain n buf) (
        Gives-if (n == 0x11 || n == 0x2A || n == 0x2C || n == 0x7e || n == 0x6e) _ _
          (readable (Gives-decode_0f_xmm n buf))
          (Gives-if (is_set n) _ _ (readable (Gives-at_set _)) (
            Gives-if (within 0x40 0x4F n || within 0x80 0x8F n || within 0x90 0x9F n) _ _
              (readable (Gives-decode_0f_cond n buf))
              (Gives-if (n == 0xAF || n == 0xB6 || n == 0xB7 || n == 0xBE || n == 0xBF) _ _
                (readable (Gives-decode_0f_wide n buf)) (Gives-fail _)))))
