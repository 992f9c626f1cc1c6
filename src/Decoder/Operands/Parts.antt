-- ===== src/Decoder/Operands/Parts.antt =====
-- The decoder of src/decoder.c and src/decoder_0F.c names registers that exist.
use byte_shatter.Base.{
  M, ◌>>=◌, bit, sx8, ℕ, Bool, true, false, ◌<◌, arith, ◌==◌, ◌&&◌, ◌>>>◌, ◌|||◌, low_bits, sx32,
  if◌then◌else◌, ltb,
}
use byte_shatter.X86.{Operand, Instruction, set_type, add_type, as_size}
use byte_shatter.X86.OpType
use byte_shatter.Memory.{Context, fetch8, fetch32}
use byte_shatter.Decoder.ModRm.{
  decode_sib, decode_base, decode_disp, decode_rm, decode_r_rm, decode_rm_r,
}
use byte_shatter.Decoder.Group.{fetch_imm, decode_grp0}
use byte_shatter.Decoder.Operands.{
  IsOperand, AreOperands, Anything, Gives, Gives-pure, Gives-if, Gives-bind, Gives-fetch8,
  Gives-fetch32, IsOperand-set_mem, IsOperand-to_reg, IsOperand-to_imm, IsOperand-imm,
  IsOperand-base,
}

-- What a SIB byte sets, whatever the type becomes.
record Low (op : Operand) : Type 0 where
  reg_low : op.reg < 8
  idx_low : op.idx < 8
  scale_low : op.scale < 4

Low-IsOperand : (op : Operand) (t v : ℕ) → Low op → IsOperand 8 (record op { type = t; imm = v })
Low-IsOperand op t v p = record {
  reg_below = λ h. p.reg_low;
  idx_below = λ h. p.idx_low;
  scale_below = λ h. p.scale_low;
}

Low-if : (b : Bool) (x y : Operand) → Low x → Low y → Low (if b then x else y)
Low-if true x y p q = p
Low-if false x y p q = q

abbrev sib_fields : ℕ → Operand → Operand
sib_fields sib op = record op {
  reg = low_bits sib 3;
  idx = low_bits (sib >>> 3) 3;
  scale = sib >>> 6;
}

abbrev sib_indexed : ℕ → Operand → Operand
sib_indexed sib op =
    let fields = sib_fields sib op in if fields.idx == 4 then fields else add_type OpType.idx fields

sib_indexed-Low : (sib : ℕ) (op : Operand) → sib < 256 → Low (sib_indexed sib op)
sib_indexed-Low sib op fits =
    let low : (t : ℕ) → Low (record (sib_fields sib op) { type = t }) =
      λ t. record { reg_low = omega arith; idx_low = omega arith; scale_low = omega arith } in
    Low-if (low_bits (sib >>> 3) 3 == 4) _ _ (low op.type) (low (op.type ||| OpType.idx))

module _ (mem : ℕ → ℕ) where
  pub then8 :
      {B : Type 0} {Q : B → Type 0} (f : ℕ → M Context B)
      → ((b : ℕ) → b < 256 → Gives Q (f b))
      → Gives Q (fetch8 mem >>= f)
  then8 f k = Gives-bind (λ b. b < 256) (fetch8 mem) f (Gives-fetch8 mem) k

  pub then32 :
      {B : Type 0} {Q : B → Type 0} (f : ℕ → M Context B)
      → ((b : ℕ) → Gives Q (f b))
      → Gives Q (fetch32 mem >>= f)
  then32 f k = Gives-bind Anything (fetch32 mem) f (Gives-fetch32 mem) λ b _. k b

  Gives-decode_sib : (n : ℕ) (op : Operand) → Gives (IsOperand 8) (decode_sib mem n op)
  unfolding decode_sib
  Gives-decode_sib n op = then8 _ λ sib fits.
      let indexed = sib_indexed sib op in
      let low = sib_indexed-Low sib op fits in
      Gives-if (low_bits sib 3 == 5 && n == 0) _ _
        (then32 _ λ imm. Gives-pure _ (Low-IsOperand indexed _ _ low))
        (Gives-pure _ (Low-IsOperand indexed _ _ low))

  Gives-decode_base :
      (n1 n2 : ℕ) (op : Operand)
      → n2 < 8
      → IsOperand 8 op
      → Gives (IsOperand 8) (decode_base mem n1 n2 op)
  unfolding decode_base
  Gives-decode_base n1 n2 op fits p = Gives-if (n2 == 4) _ _ (Gives-decode_sib n1 op) (
      Gives-if (n1 == 0 && n2 == 5) _ _
        (then32 _ λ imm. Gives-pure _ (IsOperand-imm 8 op p (sx32 imm)))
        (Gives-pure _ (IsOperand-base 8 op p n2 fits)))

  Gives-decode_disp :
      (n : ℕ) (op : Operand) → IsOperand 8 op → Gives (IsOperand 8) (decode_disp mem n op)
  unfolding decode_disp
  Gives-decode_disp n op p =
      Gives-if (n == 1) _ _ (then8 _ λ imm _. Gives-pure _ (IsOperand-imm 8 op p (sx8 imm))) (
        Gives-if (n == 2) _ _ (then32 _ λ imm. Gives-pure _ (IsOperand-imm 8 op p (sx32 imm)))
          (Gives-pure _ p))

  Gives-decode_rm : (n : ℕ) (op : Operand) → Gives (IsOperand 8) (decode_rm mem n op)
  unfolding decode_rm
  Gives-decode_rm n op =
      let rm = low_bits n 3 in
      let memory = set_type OpType.mem op in
      Gives-if (ltb (n >>> 6) 3) _ _
        (Gives-bind (IsOperand 8) (decode_base mem (n >>> 6) rm memory) _
          (Gives-decode_base (n >>> 6) rm memory (omega arith) (IsOperand-set_mem 8 op))
          (λ based p. Gives-decode_disp (n >>> 6) based p))
        (Gives-pure _ (IsOperand-to_reg 8 rm op (omega arith)))

  pub then_rm :
      {B : Type 0} {Q : B → Type 0} (n : ℕ) (op : Operand) (f : Operand → M Context B)
      → ((r : Operand) → IsOperand 8 r → Gives Q (f r))
      → Gives Q (decode_rm mem n op >>= f)
  then_rm n op f k = Gives-bind (IsOperand 8) (decode_rm mem n op) f (Gives-decode_rm n op) k

  pub Gives-decode_r_rm : (buf : Instruction) → Gives (AreOperands 8) (decode_r_rm mem buf)
  unfolding decode_r_rm
  Gives-decode_r_rm buf = then8 _ λ byte _.
      then_rm byte buf.b _
        λ b p. Gives-pure _ record { of_a = IsOperand-to_reg 8 _ buf.a (omega arith); of_b = p }

  pub Gives-decode_rm_r : (buf : Instruction) → Gives (AreOperands 8) (decode_rm_r mem buf)
  unfolding decode_rm_r
  Gives-decode_rm_r buf = then8 _ λ byte _.
      then_rm byte buf.a _
        λ a p. Gives-pure _ record { of_a = p; of_b = IsOperand-to_reg 8 _ buf.b (omega arith) }

  pub then_r_rm :
      {B : Type 0} {Q : B → Type 0} (buf : Instruction) (f : Instruction → M Context B)
      → ((r : Instruction) → AreOperands 8 r → Gives Q (f r))
      → Gives Q (decode_r_rm mem buf >>= f)
  then_r_rm buf f k = Gives-bind (AreOperands 8) (decode_r_rm mem buf) f (Gives-decode_r_rm buf) k

  pub then_rm_r :
      {B : Type 0} {Q : B → Type 0} (buf : Instruction) (f : Instruction → M Context B)
      → ((r : Instruction) → AreOperands 8 r → Gives Q (f r))
      → Gives Q (decode_rm_r mem buf >>= f)
  then_rm_r buf f k = Gives-bind (AreOperands 8) (decode_rm_r mem buf) f (Gives-decode_rm_r buf) k

  pub then_imm :
      {B : Type 0} {Q : B → Type 0} (byte_sized : Bool) (f : ℕ → M Context B)
      → ((b : ℕ) → Gives Q (f b))
      → Gives Q (fetch_imm mem byte_sized >>= f)
  unfolding fetch_imm
  then_imm byte_sized f k =
      Gives-bind Anything (fetch_imm mem byte_sized) f
        (Gives-if byte_sized _ _ (then8 _ λ b _. Gives-pure _ record {})
          (then32 _ λ b. Gives-pure _ record {}))
        (λ b _. k b)

  pub Gives-decode_grp0 :
      (n : ℕ) (buf : Instruction) → Gives (AreOperands 8) (decode_grp0 mem n buf)
  unfolding decode_grp0
  Gives-decode_grp0 n buf =
      let sized : Instruction = if bit n 0 then buf else as_size 8 buf in
      Gives-if (ltb (low_bits n 3) 2) _ _ (Gives-decode_rm_r sized) (
        Gives-if (ltb (low_bits n 3) 4) _ _ (Gives-decode_r_rm sized) (
          then_imm (sized.size == 8) _ λ imm. Gives-pure _ record {
            of_a = IsOperand-to_reg 8 0 sized.a (omega arith);
            of_b = IsOperand-to_imm 8 imm sized.b;
          }))
