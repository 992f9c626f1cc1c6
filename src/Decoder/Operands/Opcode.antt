-- ===== src/Decoder/Operands/Opcode.antt =====
-- The opcodes of src/decoder.c that do not touch control flow, and what they leave in the operands.
use byte_shatter.Base.{
  ℕ, true, false, ◌+◌, ◌-◌, arith, ◌==◌, ◌||◌, low_bits, bit, within, sx8, sx32, ltb, refl, M, pure,
  ◌>>=◌, inl,
}
use byte_shatter.X86.{Instruction, set_type, as_type, on_a, on_b, to_imm, to_reg}
use byte_shatter.X86.OpType
use byte_shatter.X86.Instr
use byte_shatter.X86.Prefix
use byte_shatter.Memory.{Context, fetch16, fetch64}
use byte_shatter.Decoder.ModRm.{decode_rm}
use byte_shatter.Decoder.Opcode.{
  decode_push_pop, decode_60s, decode_alu_imm, decode_80s, decode_mov_imm, decode_shift,
  decode_mov_rm_imm, decode_f7, decode_straight,
}
use byte_shatter.Decoder.Operands.{
  IsOperand, AreOperands, IsReadable, Anything, Gives, Gives-pure, Gives-fail, Gives-if, Gives-bind,
  Gives-fetch16, Gives-fetch64, IsOperand-to_reg, IsOperand-to_imm, IsOperand-none, IsOperand-value,
}
use byte_shatter.Decoder.Operands.Parts.{
  then8, then32, then_rm, then_r_rm, then_imm, Gives-decode_r_rm, Gives-decode_rm_r,
  Gives-decode_grp0,
}
use byte_shatter.Decoder.Operands.TwoByte.{readable, Gives-decode_0f}

-- An immediate as the second operand.
with_imm : (r : Instruction) (v : ℕ) → IsOperand 8 r.a → AreOperands 8 (on_b (to_imm v) r)
with_imm r v p = record { of_a = p; of_b = IsOperand-to_imm 8 v r.b }

pub imm_only :
    (r : Instruction) (v : ℕ) → AreOperands 8 (on_b (set_type OpType.none) (on_a (to_imm v) r))
imm_only r v = record { of_a = IsOperand-to_imm 8 v r.a; of_b = IsOperand-none 8 r.b }

module _ (mem : ℕ → ℕ) where
  pub then_rm_of_a :
      {B : Type 0} {Q : B → Type 0} (modrm : ℕ) (buf : Instruction) (f : Instruction → M Context B)
      → ((r : Instruction) → IsOperand 8 r.a → Gives Q (f r))
      → Gives Q ((decode_rm mem modrm buf.a >>= λ a. pure (record buf { a = a })) >>= f)
  then_rm_of_a modrm buf f k =
      Gives-bind (λ (r : Instruction). IsOperand 8 r.a) _ f
        (then_rm mem modrm buf.a _ λ a p. Gives-pure _ p) k

  Gives-decode_push_pop :
      (n : ℕ) (buf : Instruction) → Gives (AreOperands 8) (decode_push_pop mem n buf)
  unfolding decode_push_pop
  Gives-decode_push_pop n buf = Gives-pure _ record {
    of_a = IsOperand-to_reg 8 (low_bits n 3) buf.a (omega arith);
    of_b = IsOperand-none 8 buf.b;
  }

  Gives-decode_60s : (n : ℕ) (buf : Instruction) → Gives (AreOperands 8) (decode_60s mem n buf)
  unfolding decode_60s
  Gives-decode_60s n buf = Gives-if (n == 0x63) _ _ (Gives-decode_r_rm mem _) (
      Gives-if (n == 0x68) _ _
        (then_imm mem false _ λ v. Gives-pure _ (imm_only (as_type Instr.push buf) v))
        (Gives-if (n == 0x69) _ _
          (then_r_rm mem _ _ λ r p. then32 mem _ λ v.
            Gives-pure _ record { of_a = p.of_a; of_b = IsOperand-value 8 r.b p.of_b (sx32 v) })
          (Gives-if (n == 0x6A) _ _
            (then_imm mem true _ λ v. Gives-pure _ (imm_only (as_type Instr.push buf) v))
            (then_imm mem true _
              λ v. Gives-pure _ (imm_only (as_type (Instr.jo + n - 0x70) buf) v)))))

  Gives-decode_alu_imm :
      (n : ℕ) (buf : Instruction) → Gives (AreOperands 8) (decode_alu_imm mem n buf)
  unfolding decode_alu_imm
  Gives-decode_alu_imm n buf =
      then8 mem _
        λ modrm _. then_rm_of_a modrm _ _ λ r p. then_imm mem _ _ λ v. Gives-pure _ (with_imm r v p)

  Gives-decode_80s : (n : ℕ) (buf : Instruction) → Gives (AreOperands 8) (decode_80s mem n buf)
  unfolding decode_80s
  Gives-decode_80s n buf = Gives-if (n == 0x84) _ _ (Gives-decode_rm_r mem _) (
      Gives-if (n == 0x85) _ _ (Gives-decode_rm_r mem _) (
        Gives-if (within 0x88 0x8B n) _ _ (Gives-decode_grp0 mem n _) (
          Gives-if (n == 0x8D) _ _ (Gives-decode_r_rm mem _) (
            then8 mem _ λ modrm _.
              then_rm_of_a modrm _ _
                λ r p. Gives-pure _ record { of_a = p; of_b = IsOperand-none 8 r.b }))))

  Gives-decode_mov_imm :
      (rex n : ℕ) (buf : Instruction) → Gives (AreOperands 8) (decode_mov_imm mem rex n buf)
  unfolding decode_mov_imm
  Gives-decode_mov_imm rex n buf =
      let moved : (v : ℕ) → AreOperands 8 (on_b (to_imm v) (on_a (to_reg (low_bits n 3)) buf)) =
        λ v.
          with_imm (on_a (to_reg (low_bits n 3)) buf) v
            (IsOperand-to_reg 8 (low_bits n 3) buf.a (omega arith)) in
      Gives-if (ltb n 0xB8) _ _
        (then8 mem _
          λ v _. Gives-pure _ record { of_a = (moved (sx8 v)).of_a; of_b = (moved (sx8 v)).of_b })
        (Gives-if (bit rex 3) _ _
          (Gives-bind Anything (fetch64 mem) _ (Gives-fetch64 mem)
            λ v _. Gives-pure _ record { of_a = (moved v).of_a; of_b = (moved v).of_b })
          (then32 mem _ λ v.
            Gives-pure _ record { of_a = (moved (sx32 v)).of_a; of_b = (moved (sx32 v)).of_b }))

  Gives-decode_shift : (n : ℕ) (buf : Instruction) → Gives (AreOperands 8) (decode_shift mem n buf)
  unfolding decode_shift
  Gives-decode_shift n buf = then8 mem _ λ modrm _. then_rm_of_a modrm _ _ λ r p.
      Gives-if (ltb n 0xD2) _ _
        (Gives-if (ltb 0xC1 n) _ _ (Gives-pure _ (with_imm r 1 p))
          (then8 mem _ λ v _. Gives-pure _ (with_imm r (sx8 v) p)))
        (Gives-pure _ record { of_a = p; of_b = IsOperand-to_reg 8 1 r.b (omega arith) })

  Gives-decode_mov_rm_imm :
      (n : ℕ) (buf : Instruction) → Gives (AreOperands 8) (decode_mov_rm_imm mem n buf)
  unfolding decode_mov_rm_imm
  Gives-decode_mov_rm_imm n buf = then8 mem _ λ modrm _. then_rm_of_a modrm _ _ λ r p.
      Gives-if (n == 0xC6) _ _ (then8 mem _ λ v _. Gives-pure _ (with_imm r (sx8 v) p)) (
        Gives-if (r.prefix == Prefix.os) _ _
          (Gives-bind Anything (fetch16 mem) _ (Gives-fetch16 mem)
            λ v _. Gives-pure _ record { of_a = p; of_b = IsOperand-to_imm 8 (sx32 v) r.b })
          (then32 mem _ λ v. Gives-pure _ (with_imm r (sx32 v) p)))

  Gives-decode_f7 : (buf : Instruction) → Gives (AreOperands 8) (decode_f7 mem buf)
  unfolding decode_f7
  Gives-decode_f7 buf = then8 mem _ λ modrm _.
      Gives-if _ _ _
        (then_rm mem modrm buf.b _
          λ b p. Gives-pure _ record { of_a = IsOperand-to_reg 8 0 buf.a (omega arith); of_b = p })
        (Gives-fail _)

  pub Gives-decode_straight :
      (rex n : ℕ) (buf : Instruction) → Gives (IsReadable 8) (decode_straight mem rex n buf)
  unfolding decode_straight
  Gives-decode_straight rex n buf =
      Gives-if (ltb n 0x40) _ _
        (Gives-if (n == 0x0F) _ _ (Gives-decode_0f mem buf)
          (readable mem (Gives-decode_grp0 mem n _)))
        (Gives-if (within 0x50 0x5F n) _ _ (readable mem (Gives-decode_push_pop n buf)) (
          Gives-if (n == 0x63 || n == 0x68 || n == 0x69 || n == 0x6A || within 0x70 0x7F n) _ _
            (readable mem (Gives-decode_60s n buf))
            (Gives-if (n == 0x80 || n == 0x81 || n == 0x83) _ _
              (readable mem (Gives-decode_alu_imm n buf))
              (Gives-if (n == 0x84 || n == 0x85 || within 0x88 0x8B n || n == 0x8D || n == 0x8F) _ _
                (readable mem (Gives-decode_80s n buf))
                (Gives-if (n == 0x90) _ _ (Gives-pure _ (inl refl)) (
                  Gives-if (n == 0x98) _ _ (Gives-pure _ (inl refl)) (
                    Gives-if (n == 0x99) _ _ (Gives-pure _ (inl refl)) (
                      Gives-if (within 0xB0 0xBF n) _ _
                        (readable mem (Gives-decode_mov_imm rex n buf))
                        (Gives-if (n == 0xC0 || n == 0xC1 || within 0xD0 0xD3 n) _ _
                          (readable mem (Gives-decode_shift n buf))
                          (Gives-if (n == 0xC6 || n == 0xC7) _ _
                            (readable mem (Gives-decode_mov_rm_imm n buf))
                            (Gives-if (n == 0xC9) _ _ (Gives-pure _ (inl refl)) (
                              Gives-if (n == 0xF7) _ _ (readable mem (Gives-decode_f7 buf))
                                (Gives-fail _)))))))))))))
