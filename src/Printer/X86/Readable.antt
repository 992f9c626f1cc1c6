-- ===== src/Printer/X86/Readable.antt =====
-- sprint_op (src/printer_x86.c) on what the decoder returns.
use Prim.Native.String.{String}
use byte_shatter.Base.{
  ℕ, zero, suc, ◌|||◌, Bool, true, false, ◌≡◌, ◌<◌, ◌==◌, if◌then◌else◌, Post, Post-mono, List, [],
  ◌∷◌, length, ok, negative, positive, arith, ◌⊎◌, inl, inr, refl,
}
use byte_shatter.X86.{Operand, Instruction, has_reg, has_idx, has_imm}
use byte_shatter.X86.OpType
use byte_shatter.X86.Prefix
use byte_shatter.Memory.{Context}
use byte_shatter.Decoder.Opcode.{decode_instr, Decoded}
use byte_shatter.Decoder.Operands.{IsOperand, IsReadable}
use byte_shatter.Decoder.Operands.Whole.{decode_instr-IsReadable}
use byte_shatter.Printer.X86.{
  Printed, ◌>+>◌, say, silent, entry, sprint_reg, sprint_imm, sprint_disp, sprint_mem, sprint_op,
}
use byte_shatter.Printer.X86.Tables.{regs64, regs32, regs16, regs8, scale}
use byte_shatter.Printer.{Piece}

-- Every table that was read has the entry.
pub data IsPrinted : Printed → Type 0 where
  printed : {out : List Piece} → IsPrinted (ok out)

said : (s : String) → IsPrinted (say s)
said s = printed

IsPrinted-append : {x y : Printed} → IsPrinted x → IsPrinted y → IsPrinted (x >+> y)
IsPrinted-append printed printed = printed

IsPrinted-entry : (table : List String) (i : ℕ) → i < length table → IsPrinted (entry table i)
IsPrinted-entry [] i h = elim h [ ]
IsPrinted-entry (s ∷ table) zero h = printed
IsPrinted-entry (s ∷ table) (suc i) h = IsPrinted-entry table i (omega arith)

IsPrinted-if :
    (b : Bool) (x y : Printed)
    → (b ≡ true → IsPrinted x)
    → IsPrinted y
    → IsPrinted (if b then x else y)
IsPrinted-if true x y p q = p refl
IsPrinted-if false x y p q = q

IsPrinted-sprint_reg : (size reg : ℕ) → reg < 16 → IsPrinted (sprint_reg size reg)
unfolding sprint_reg
IsPrinted-sprint_reg size reg h =
    IsPrinted-append
      (IsPrinted-if (size == 64) _ _ (λ _. IsPrinted-entry regs64 reg h)
        (IsPrinted-if (size == 32) _ _ (λ _. IsPrinted-entry regs32 reg h)
          (IsPrinted-if (size == 16) _ _ (λ _. IsPrinted-entry regs16 reg h)
            (IsPrinted-entry regs8 reg h))))
      printed

IsPrinted-sprint_imm : (imm : ℕ) → IsPrinted (sprint_imm imm)
unfolding sprint_imm
IsPrinted-sprint_imm imm =
    IsPrinted-append (IsPrinted-if (negative imm) _ _ (λ _. printed) printed) printed

IsPrinted-sprint_disp : (prefix : ℕ) (op : Operand) → IsPrinted (sprint_disp prefix op)
unfolding sprint_disp
IsPrinted-sprint_disp prefix op =
    IsPrinted-append
      (IsPrinted-append
        (IsPrinted-if (op.type == (OpType.mem ||| OpType.imm)) _ _
          (λ _. IsPrinted-if (prefix == Prefix.fs) _ _ (λ _. printed) printed) printed)
        (IsPrinted-if (negative op.imm) _ _ (λ _. printed) printed))
      (IsPrinted-if (positive op.imm) _ _ (λ _. printed) printed)

-- The index of an operand in memory, or the segment register in its place.
abbrev sprint_idx : ℕ → Operand → Printed
sprint_idx prefix op = if prefix == Prefix.fs then say "fs " else entry regs64 op.idx >+> say " "

IsPrinted-sprint_idx : (prefix : ℕ) (op : Operand) → op.idx < 16 → IsPrinted (sprint_idx prefix op)
IsPrinted-sprint_idx prefix op h =
    IsPrinted-if (prefix == Prefix.fs) _ _ (λ _. printed)
      (IsPrinted-append (IsPrinted-entry regs64 op.idx h) (said " "))

IsPrinted-sprint_mem :
    (prefix : ℕ) (op : Operand) → IsOperand 16 op → IsPrinted (sprint_mem prefix op)
unfolding sprint_mem
IsPrinted-sprint_mem prefix op p =
    IsPrinted-append
      (IsPrinted-append
        (IsPrinted-append
          (IsPrinted-append (said "[ ") (
            IsPrinted-if (has_reg op.type) _ silent
              (λ h.
                IsPrinted-append
                  (IsPrinted-append (IsPrinted-entry regs64 op.reg (p.reg_below h)) (said " "))
                  (IsPrinted-if (has_idx op.type) (say "+ ") silent (λ _. printed) printed))
              printed))
          (IsPrinted-if (has_idx op.type) (sprint_idx prefix op >+> entry scale op.scale) silent
            (λ h.
              IsPrinted-append (IsPrinted-sprint_idx prefix op (p.idx_below h))
                (IsPrinted-entry scale op.scale (p.scale_below h)))
            printed))
        (IsPrinted-if (has_imm op.type) (sprint_disp prefix op) silent
          (λ _. IsPrinted-sprint_disp prefix op) printed))
      (said "] ")

IsPrinted-sprint_op :
    (buf : Instruction) (op : Operand) → IsOperand 16 op → IsPrinted (sprint_op buf op)
unfolding sprint_op
IsPrinted-sprint_op buf op p =
    IsPrinted-if (op.type == OpType.reg) _ _
      (λ h. IsPrinted-sprint_reg buf.size op.reg (p.reg_below (ground arith)))
      (IsPrinted-if (op.type == OpType.imm) _ _ (λ _. IsPrinted-sprint_imm op.imm)
        (IsPrinted-if (op.type == (OpType.reg ||| OpType.xmm)) _ _ (λ _. printed)
          (IsPrinted-sprint_mem buf.prefix op p)))

-- Both operands are printed, or the first has no type and neither is.
abbrev pub ArePrinted : Instruction → Type 0
ArePrinted buf =
    (buf.a.type ≡ 0) ⊎ (IsPrinted (sprint_op buf buf.a) × IsPrinted (sprint_op buf buf.b))

ArePrinted-readable : (buf : Instruction) → IsReadable 16 buf → ArePrinted buf
ArePrinted-readable buf (inl h) = inl h
ArePrinted-readable buf (inr p) =
    inr (IsPrinted-sprint_op buf buf.a p.of_a, IsPrinted-sprint_op buf buf.b p.of_b)

-- Whatever the code and the buffer: if decode_instr returns, then its first operand has no type, or sprint_op
-- of either operand reads its tables of registers and scales only where they have an entry.
pub decode_instr-ArePrinted :
    (mem : ℕ → ℕ) (buf : Instruction) (c : Context)
    → Post {A = Decoded × Context} (λ r. ArePrinted r.0.0) (decode_instr mem buf c)
decode_instr-ArePrinted mem buf c =
    Post-mono (λ r h. ArePrinted-readable r.0.0 h) (decode_instr-IsReadable mem buf c)
