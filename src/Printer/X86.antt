-- ===== src/Printer/X86.antt =====
-- src/printer_x86.c: an instruction as text. A table is read by index; past its end the program reads
-- undefined memory, an error here.
pub mod Tables
pub mod Readable
use Prim.Native.String.{String}
use byte_shatter.Base.{
  ℕ, ◌+◌, ◌==◌, ◌|||◌, if◌then◌else◌, negative, positive, neg64, List, [], ◌∷◌, ◌++◌, Option, none,
  some, get_elem?, Result, ok, err, out_of_bounds,
}
use byte_shatter.X86.{Operand, Instruction, has_reg, has_idx, has_imm}
use byte_shatter.X86.OpType
use byte_shatter.X86.Prefix
use byte_shatter.Printer.{Piece, text, decimal, hexadecimal, colour}
use byte_shatter.Printer.X86.Tables.{instr_types, regs64, regs32, regs16, regs8, scale}

abbrev pub Printed : Type 0
Printed = Result (List Piece)

-- Two sprintf in a row.
infixl 60 ◌>+>◌
abbrev pub ◌>+>◌ : Printed → Printed → Printed
ok out >+> ok more = ok (out ++ more)
ok out >+> err e = err e
err e >+> more = err e

abbrev pub say : String → Printed
say s = ok (text s ∷ [])

abbrev pub silent : Printed
silent = ok []

abbrev pub found : Option String → Printed
found none = err out_of_bounds
found (some s) = say s

abbrev pub entry : List String → ℕ → Printed
entry table i = found (get_elem? table i)

-- -op->imm, and op->imm, as %lx
abbrev pub hex : ℕ → Printed
hex n = ok (hexadecimal n ∷ [])

-- An operand in a register, by the size of the instruction.
unfoldable pub sprint_reg : ℕ → ℕ → Printed
sprint_reg size reg =
    (if size == 64
      then entry regs64 reg
      else if size == 32
      then entry regs32 reg
      else if size == 16
      then entry regs16 reg
      else entry regs8 reg)
    >+> say " "

-- An immediate, with its sign.
unfoldable pub sprint_imm : ℕ → Printed
sprint_imm imm = (if negative imm then say "-" >+> hex (neg64 imm) else hex imm) >+> say " "

-- The displacement of an operand in memory.
unfoldable pub sprint_disp : ℕ → Operand → Printed
sprint_disp prefix op =
    (if op.type == (OpType.mem ||| OpType.imm)
      then if prefix == Prefix.fs then say "fs " else say "rip "
      else silent)
    >+> (if negative op.imm then say "- " >+> hex (neg64 op.imm) >+> say " " else silent)
    >+> (if positive op.imm then say "+ " >+> hex op.imm >+> say " " else silent)

unfoldable pub sprint_mem : ℕ → Operand → Printed
unfolding sprint_disp
sprint_mem prefix op =
    say "[ "
    >+> (if has_reg op.type
        then entry regs64 op.reg >+> say " " >+> (if has_idx op.type then say "+ " else silent)
        else silent)
    >+> (if has_idx op.type
        then (if prefix == Prefix.fs then say "fs " else entry regs64 op.idx >+> say " ")
          >+> entry scale op.scale
        else silent)
    >+> (if has_imm op.type then sprint_disp prefix op else silent)
    >+> say "] "

unfoldable pub sprint_op : Instruction → Operand → Printed
unfolding sprint_reg sprint_imm sprint_mem
sprint_op buf op =
    if op.type == OpType.reg
    then sprint_reg buf.size op.reg
    else if op.type == OpType.imm
    then sprint_imm op.imm
    else if op.type == (OpType.reg ||| OpType.xmm)
    then say "xmm" >+> ok (decimal op.reg ∷ text " " ∷ [])
    else sprint_mem buf.prefix op

unfoldable pub sprint_x86_64 : Instruction → Printed
unfolding sprint_op
sprint_x86_64 buf =
    ok (colour 34 ∷ [])
    >+> entry instr_types buf.type
    >+> ok (text " " ∷ colour 32 ∷ [])
    >+> (if buf.a.type == 0
        then silent
        else sprint_op buf buf.a >+> (if buf.b.type == 0 then silent else sprint_op buf buf.b))
    >+> ok (colour 0 ∷ [])
