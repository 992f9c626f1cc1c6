-- ===== src/Encoder/Stack.antt =====
-- PUSH, POP and LEAVE of `encode` in src/encoder.c. Two pushes, or two pops, in a row become one
-- store or load of a pair: the static variables `prev_instruction` and `prev_register` remember
-- the first, and the second takes its three words back.
pub mod Words
pub mod Fusion
use byte_shatter.Base.{
  ℕ, ◌&&◌, not, ◌==◌, if◌then◌else◌, ◌<<<◌, ◌|||◌, M, pure, fail, when, get, modify, ◌>>=◌, ◌>>◌,
  unhandled,
}
use byte_shatter.X86.Reg
use byte_shatter.X86.Instr
use byte_shatter.X86.{Instruction, has_mem}
use byte_shatter.Jit.{Jit, emit32, patch}
use byte_shatter.Encoder.Op
use byte_shatter.Encoder.Emit.{
  x64_regs, sc1r, sc2r, emit_imm, emit_add_imm, emit_add_signed, emit_sub_signed,
}
use byte_shatter.Encoder.Address.{emit_load}
use byte_shatter.Encoder.Byte.{is_reg, is_imm}

-- add rd, sp, #0 and add sp, rn, #0
abbrev pub from_sp : ℕ → ℕ
from_sp rd = Op.sf ||| Op.add_imm ||| 31 <<< 5 ||| rd

abbrev pub to_sp : ℕ → ℕ
to_sp rn = Op.sf ||| Op.add_imm ||| 31 ||| rn <<< 5

abbrev pub remember : ℕ → ℕ → M Jit (Unit {0})
remember instruction register =
    modify (λ s. record s { prev_instruction = instruction; prev_register = register })

abbrev pub forget : M Jit (Unit {0})
forget = modify (λ s. record s { prev_instruction = Instr.nop })

-- The second pop: `prev` is the register of the first.
unfoldable pub pop_pair : ℕ → ℕ → M Jit (Unit {0})
pop_pair prev r = do
  forget
  patch 3
  emit32 (from_sp sc2r)
  emit32 (Op.ldp ||| x64_regs r <<< 10 ||| sc2r <<< 5 ||| prev)
  emit_add_signed 31 sc2r 16

unfoldable pub pop_one : ℕ → M Jit (Unit {0})
pop_one r = do
  remember Instr.pop (x64_regs r)
  emit32 (from_sp sc2r)
  emit32 (Op.mft ||| Op.ldr32_reg ||| sc2r <<< 5 ||| x64_regs r)
  emit_add_signed 31 sc2r 8

unfoldable pub encode_pop : Instruction → M Jit (Unit {0})
unfolding pop_pair pop_one
encode_pop buf =
    if is_reg buf.a.type
    then (if buf.a.reg == Reg.rbp then emit32 (Op.popp ||| 29 <<< 10 ||| 30) else do
      when (buf.a.reg == Reg.rsp) (emit32 (from_sp sc1r))
      let r0 : ℕ = if buf.a.reg == Reg.rsp then Reg.sc1 else buf.a.reg
      s ← get
      if s.prev_instruction == Instr.pop then pop_pair s.prev_register r0 else pop_one r0)
    else fail (unhandled buf.type)

-- The second push: `prev` is the register of the first.
unfoldable pub push_pair : ℕ → ℕ → M Jit (Unit {0})
push_pair prev r = do
  forget
  emit_sub_signed sc2r 31 16
  emit32 (Op.stp ||| prev <<< 10 ||| sc2r <<< 5 ||| x64_regs r)
  emit32 (to_sp sc2r)

unfoldable pub push_one : ℕ → M Jit (Unit {0})
push_one r = do
  remember Instr.push (x64_regs r)
  emit_sub_signed sc2r 31 8
  emit32 (Op.mft ||| Op.str32_reg ||| sc2r <<< 5 ||| x64_regs r)
  emit32 (to_sp sc2r)

-- An operand that is no plain register goes to SC1.
unfoldable pub push_operand : ℕ → Instruction → M Jit ℕ
push_operand sf buf =
    if is_imm buf.a.type
    then (do emit_imm buf.a.imm sc1r; pure Reg.sc1)
    else if has_mem buf.a.type
    then (do short ← emit_load sc1r buf.a sf buf.prefix; pure Reg.sc1)
    else if buf.a.reg == Reg.rsp
    then (do emit32 (from_sp sc1r); pure Reg.sc1)
    else pure buf.a.reg

unfoldable pub encode_push : ℕ → Instruction → M Jit (Unit {0})
unfolding push_operand push_pair push_one
encode_push sf buf = do
  s ← get
  when (s.prev_instruction == Instr.push) (patch 3)
  if not (is_imm buf.a.type) && not (has_mem buf.a.type) && buf.a.reg == Reg.rbp
      then emit32 (Op.pushp ||| 29 <<< 10 ||| 30)
      else (do
        r0 ← push_operand sf buf
        t ← get
        if t.prev_instruction == Instr.push then push_pair t.prev_register r0 else push_one r0)

unfoldable pub encode_leave : M Jit (Unit {0})
encode_leave = do emit_add_imm Reg.rsp Reg.rbp 0; emit32 (Op.popp ||| 29 <<< 10 ||| 30)
