-- ===== src/Decoder/Operands/Whole.antt =====
-- decode_instr of src/decoder.c names registers that exist: the branches, and the bits of the REX prefix.
use byte_shatter.Base.{
  ℕ, Bool, true, false, ◌+◌, ◌-◌, ◌≡◌, ◌∙◌, ◌<◌, Post, Post-mono, if_cases, arith, ◌==◌, ◌||◌,
  low_bits, bit, if◌then◌else◌, ltb, refl, M, pure, inl, inr,
}
use byte_shatter.X86.{Operand, Instruction, set_type, as_size, as_type, on_a, on_b, to_imm}
use byte_shatter.X86.OpType
use byte_shatter.X86.Instr
use byte_shatter.Memory.{Context, fetch8}
use byte_shatter.Decoder.ModRm.{decode_rex, high_reg, high_idx}
use byte_shatter.Decoder.Group.{decode_grp3}
use byte_shatter.Decoder.Opcode.{
  decode_branch, decode_grp5, decode_opcode, decode_instr, Decoded, is_prefix, is_rex,
}
use byte_shatter.Decoder.Operands.{
  IsOperand, AreOperands, IsReadable, Anything, Gives, Gives-pure, Gives-fail, Gives-if, Gives-bind,
  Gives-fetch8, IsOperand-to_imm, IsOperand-none,
}
use byte_shatter.Decoder.Operands.Parts.{then8, then_imm}
use byte_shatter.Decoder.Operands.Opcode.{imm_only, then_rm_of_a, Gives-decode_straight}

abbrev far : ℕ → Instruction → Instruction
far code buf = if ltb 1 code then on_b (set_type OpType.none) (as_size 64 buf) else buf

far-of_a : (code : ℕ) (buf : Instruction) → IsOperand 8 buf.a → IsOperand 8 (far code buf).a
far-of_a code buf p = if_cases (λ (i : Instruction). IsOperand 8 i.a) (ltb 1 code) (λ _. p) (λ _. p)

far-AreOperands :
    (code : ℕ) (buf : Instruction)
    → IsOperand 8 buf.a
    → 1 < code
    → (t : ℕ) → AreOperands 8 (as_type t (far code buf))
far-AreOperands code buf p high t =
    if_cases (λ (i : Instruction). AreOperands 8 (as_type t i)) (ltb 1 code)
      (λ _. record { of_a = p; of_b = IsOperand-none 8 buf.b }) (λ e. ground arith)

Gives-when :
    {A : Type 0} {P : A → Type 0} (b : Bool) (m n : M Context A)
    → (b ≡ true → Gives P m)
    → Gives P n
    → Gives P (if b then m else n)
Gives-when true m n p q = p refl
Gives-when false m n p q = q

Gives-decode_grp3 :
    (code : ℕ) (buf : Instruction)
    → IsOperand 8 buf.a
    → Gives (AreOperands 8) (decode_grp3 code buf)
unfolding decode_grp3
Gives-decode_grp3 code buf p =
    let one = λ (t : ℕ). AreOperands 8 (on_b (to_imm 1) (as_type t (far code buf))) in
    let with_one : (t : ℕ) → one t =
      λ t. record { of_a = far-of_a code buf p; of_b = IsOperand-to_imm 8 1 (far code buf).b } in
    Gives-if (code == 0) _ _ (Gives-pure _ (with_one Instr.add)) (
      Gives-if (code == 1) _ _ (Gives-pure _ (with_one Instr.sub)) (
        Gives-when (code == 2) _ _ (λ e. Gives-pure _ (far-AreOperands code buf p (ground arith) _))
          (Gives-when (code == 4) _ _
            (λ e. Gives-pure _ (far-AreOperands code buf p (ground arith) _))
            (Gives-when (code == 6) _ _
              (λ e. Gives-pure _ (far-AreOperands code buf p (ground arith) _)) (Gives-fail _)))))

-- The two high bits of a register and of an index.
high-IsOperand :
    (b c : Bool) (op : Operand) → IsOperand 8 op → IsOperand 16 (high_reg b (high_idx c op))
high-IsOperand true true op p = record {
  reg_below = λ h. omega (arith, p.reg_below h);
  idx_below = λ h. omega (arith, p.idx_below h);
  scale_below = p.scale_below;
}
high-IsOperand true false op p = record {
  reg_below = λ h. omega (arith, p.reg_below h);
  idx_below = λ h. omega (arith, p.idx_below h);
  scale_below = p.scale_below;
}
high-IsOperand false true op p = record {
  reg_below = λ h. omega (arith, p.reg_below h);
  idx_below = λ h. omega (arith, p.idx_below h);
  scale_below = p.scale_below;
}
high-IsOperand false false op p = record {
  reg_below = λ h. omega (arith, p.reg_below h);
  idx_below = λ h. omega (arith, p.idx_below h);
  scale_below = p.scale_below;
}

high-type : (b c : Bool) (op : Operand) → (high_reg b (high_idx c op)).type ≡ op.type
high-type true true op = refl
high-type true false op = refl
high-type false true op = refl
high-type false false op = refl

abbrev wide_if : Bool → Instruction → Instruction
wide_if w buf = if w then as_size 64 buf else buf

wide-IsReadable : (w : Bool) (buf : Instruction) → IsReadable 8 buf → IsReadable 8 (wide_if w buf)
wide-IsReadable true buf (inl h) = inl h
wide-IsReadable true buf (inr p) = inr record { of_a = p.of_a; of_b = p.of_b }
wide-IsReadable false buf p = p

raised-IsReadable :
    (b c d : Bool) (rev : Bool) (buf : Instruction)
    → IsReadable 8 buf
    → IsReadable 16 (
        if rev
        then on_b (λ op. high_reg b (high_idx c op)) (on_a (high_reg d) buf)
        else on_a (λ op. high_reg b (high_idx c op)) (on_b (high_reg d) buf))
raised-IsReadable b c d true buf (inl h) = inl (high-type d false buf.a ∙ h)
raised-IsReadable b c d false buf (inl h) = inl (high-type b c buf.a ∙ h)
raised-IsReadable b c d true buf (inr p) =
    inr
      record { of_a = high-IsOperand d false buf.a p.of_a; of_b = high-IsOperand b c buf.b p.of_b }
raised-IsReadable b c d false buf (inr p) =
    inr
      record { of_a = high-IsOperand b c buf.a p.of_a; of_b = high-IsOperand d false buf.b p.of_b }

decode_rex-IsReadable :
    (rex : ℕ) (buf : Instruction) → IsReadable 8 buf → IsReadable 16 (decode_rex rex buf)
unfolding decode_rex
decode_rex-IsReadable rex buf p =
    raised-IsReadable (bit rex 0) (bit rex 1) (bit rex 2) (buf.reverse == 0)
      (wide_if (bit rex 3) buf) (wide-IsReadable (bit rex 3) buf p)

same-IsReadable : (buf : Instruction) → IsReadable 8 buf → IsReadable 16 buf
same-IsReadable buf (inl h) = inl h
same-IsReadable buf (inr p) = inr record {
  of_a = high-IsOperand false false buf.a p.of_a;
  of_b = high-IsOperand false false buf.b p.of_b;
}

module _ (mem : ℕ → ℕ) where
  Gives-decode_branch :
      (n : ℕ) (buf : Instruction) → Gives (λ r. IsReadable 8 r.0) (decode_branch mem n buf)
  unfolding decode_branch
  Gives-decode_branch n buf =
      Gives-if (n == 0xEB) _ _
        (Gives-bind (AreOperands 8) _ _
          (then_imm mem true _ λ v. Gives-pure _ (imm_only (as_type Instr.jmp buf) v))
          (λ r p. Gives-pure _ (inr p)))
        (Gives-bind (AreOperands 8) _ _
          (then_imm mem false _
            λ v. Gives-pure _ (imm_only (as_type (Instr.call + (n - 0xE8)) buf) v))
          (λ r p. Gives-pure _ (inr p)))

  Gives-decode_grp5 :
      (n : ℕ) (buf : Instruction) → Gives (λ r. IsReadable 8 r.0) (decode_grp5 mem n buf)
  unfolding decode_grp5
  Gives-decode_grp5 n buf = then8 mem _ λ modrm _.
      then_rm_of_a mem modrm _ _ λ r p.
        Gives-bind (AreOperands 8) _ _ (Gives-decode_grp3 _ r p) (λ i q. Gives-pure _ (inr q))

  Gives-decode_opcode :
      (rex n : ℕ) (buf : Instruction) → Gives (λ r. IsReadable 8 r.0) (decode_opcode mem rex n buf)
  unfolding decode_opcode
  Gives-decode_opcode rex n buf = Gives-if (n == 0xF4 || n == 0xC3) _ _ (Gives-pure _ (inl refl)) (
      Gives-if (n == 0xE8 || n == 0xE9 || n == 0xEB) _ _ (Gives-decode_branch n buf) (
        Gives-if (n == 0xFE || n == 0xFF) _ _ (Gives-decode_grp5 n buf) (
          Gives-bind (IsReadable 8) _ _ (Gives-decode_straight mem rex n buf)
            (λ r p. Gives-pure _ p))))

  -- A byte that is read, or one that was read before.
  Gives-next : (b : Bool) (x : ℕ) → Gives Anything (if b then fetch8 mem else pure x)
  Gives-next b x =
      Gives-if b _ _
        record { after = λ c. Post-mono (λ r _. record {}) ((Gives-fetch8 mem).after c) }
        (Gives-pure x record {})

  pub Gives-decode_instr :
      (buf : Instruction) → Gives (λ r. IsReadable 16 r.0) (decode_instr mem buf)
  unfolding decode_instr
  Gives-decode_instr buf = then8 mem _ λ first _.
      Gives-bind Anything _ _ (Gives-next (is_prefix first) first) λ second _.
        Gives-bind Anything _ _ (Gives-next (is_rex second) second) λ byte _.
          let rex : ℕ = if is_rex second then low_bits second 4 else 0 in
          Gives-bind (λ (r : Decoded). IsReadable 8 r.0) _ _ (Gives-decode_opcode rex byte _)
            λ r p. Gives-pure _ (
              if_cases (IsReadable 16) (rex == 0) (λ _. same-IsReadable r.0 p)
                (λ _. decode_rex-IsReadable rex r.0 p))

  -- decode_instr, if it returns, has put no type into the first operand, or every register that an operand
  -- names is one of the sixteen and its scale is one of four, whatever the code and the buffer.
  pub decode_instr-IsReadable :
      (buf : Instruction) (c : Context)
      → Post {A = Decoded × Context} (λ r. IsReadable 16 r.0.0) (decode_instr mem buf c)
  decode_instr-IsReadable buf c = (Gives-decode_instr buf).after c
