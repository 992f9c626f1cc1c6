-- ===== src/Encoder/Alu.antt =====
-- The arithmetic, logic and compare cases of `encode` in src/encoder.c. `sf` is SF for a 64-bit
-- instruction and 0 otherwise.
use byte_shatter.Base.{
  ℕ, Bool, false, ◌&&◌, ◌||◌, ◌==◌, if◌then◌else◌, ◌<<<◌, ◌|||◌, M, pure, fail, when, ◌>>=◌, ◌>>◌,
  unhandled,
}
use byte_shatter.X86.Reg
use byte_shatter.X86.{Instruction, has_mem, has_imm}
use byte_shatter.Jit.{Jit, emit32}
use byte_shatter.Encoder.Op
use byte_shatter.Encoder.Emit.{
  x64_regs, sc1r, sc2r, construct_r_r_r, emit_imm, emit_add_imm, emit_add_signed, emit_sub_signed,
  emit_lsl_imm, emit_lsr_imm, emit_asr_imm,
}
use byte_shatter.Encoder.Address.{emit_load, emit_store}
use byte_shatter.Encoder.Byte.{is_reg, is_imm}

-- An operand in memory is loaded into SC2, which takes the operand's place.
unfoldable pub load_memory : ℕ → Instruction → M Jit (Unit {0})
load_memory sf buf =
    if has_mem buf.b.type
    then (do short ← emit_load sc2r buf.b sf buf.prefix; pure tt)
    else if has_mem buf.a.type
    then (do short ← emit_load sc2r buf.a sf buf.prefix; pure tt)
    else pure tt

-- r0, r1 and t1 after that.
abbrev pub first_reg : Instruction → ℕ
first_reg buf =
    if has_mem buf.b.type then buf.a.reg else if has_mem buf.a.type then Reg.sc2 else buf.a.reg

abbrev pub second_reg : Instruction → ℕ
second_reg buf = if has_mem buf.b.type then Reg.sc2 else buf.b.reg

abbrev pub second_is_reg : Instruction → Bool
second_is_reg buf = has_mem buf.b.type || is_reg buf.b.type

unfoldable pub store_back : ℕ → Instruction → M Jit (Unit {0})
store_back sf buf =
    when (has_mem buf.a.type) (do short ← emit_store sc2r buf.a sf buf.prefix false; pure tt)

unfoldable pub encode_sub : ℕ → Instruction → M Jit (Unit {0})
unfolding load_memory store_back
encode_sub sf buf = do
  load_memory sf buf
  let r0 : ℕ = first_reg buf
  if second_is_reg buf
      then emit32 (sf ||| construct_r_r_r (Op.sub_reg ||| Op.s) r0 r0 (second_reg buf))
      else emit_sub_signed (x64_regs r0) (x64_regs r0) buf.b.imm
  store_back sf buf

unfoldable pub encode_add : ℕ → Instruction → M Jit (Unit {0})
unfolding load_memory store_back
encode_add sf buf = do
  load_memory sf buf
  let r0 : ℕ = x64_regs (first_reg buf)
  if second_is_reg buf
      then emit32
          (sf ||| Op.add_reg ||| Op.s ||| r0 ||| r0 <<< 5 ||| x64_regs (second_reg buf) <<< 16)
      else emit_add_signed r0 r0 buf.b.imm
  store_back sf buf

unfoldable pub encode_cmp : ℕ → Instruction → M Jit (Unit {0})
unfolding load_memory
encode_cmp sf buf = do
  load_memory sf buf
  let r0 : ℕ = first_reg buf
  if second_is_reg buf
      then emit32 (sf ||| construct_r_r_r (Op.sub_reg ||| Op.s) Reg.xzr r0 (second_reg buf))
      else (do
        emit_imm buf.b.imm sc1r
        emit32 (sf ||| construct_r_r_r (Op.sub_reg ||| Op.s) Reg.xzr r0 Reg.sc1))

unfoldable pub encode_shl : ℕ → Instruction → M Jit (Unit {0})
encode_shl sf buf =
    if is_reg buf.a.type && is_imm buf.b.type
    then emit_lsl_imm buf.a.reg buf.a.reg buf.b.imm
    else if is_reg buf.a.type && is_reg buf.b.type
    then emit32 (construct_r_r_r (sf ||| Op.lsl_reg) buf.a.reg buf.a.reg buf.b.reg)
    else fail (unhandled buf.type)

unfoldable pub encode_shr : ℕ → Instruction → M Jit (Unit {0})
encode_shr sf buf =
    if is_reg buf.a.type && is_imm buf.b.type
    then emit_lsr_imm buf.a.reg buf.a.reg buf.b.imm
    else fail (unhandled buf.type)

unfoldable pub encode_sar : ℕ → Instruction → M Jit (Unit {0})
encode_sar sf buf =
    if is_reg buf.a.type && is_imm buf.b.type
    then emit_asr_imm buf.a.reg buf.a.reg buf.b.imm
    else if is_reg buf.a.type && is_reg buf.b.type
    then emit32 (construct_r_r_r (sf ||| Op.asr_reg) buf.a.reg buf.a.reg buf.b.reg)
    else fail (unhandled buf.type)

unfoldable pub encode_test : ℕ → Instruction → M Jit (Unit {0})
encode_test sf buf =
    if is_reg buf.a.type && is_reg buf.b.type
    then emit32 (sf ||| construct_r_r_r Op.ands_reg Reg.xzr buf.a.reg buf.b.reg)
    else fail (unhandled buf.type)

-- XOR, AND and OR: an immediate goes to SC2 first.
unfoldable pub logic_imm : Instruction → M Jit (Unit {0})
logic_imm buf = when (is_imm buf.b.type) (emit_imm buf.b.imm sc2r)

abbrev pub logic_reg : Instruction → ℕ
logic_reg buf = if is_imm buf.b.type then Reg.sc2 else buf.b.reg

abbrev pub is_logic : Instruction → Bool
is_logic buf = is_reg buf.a.type && (is_imm buf.b.type || is_reg buf.b.type)

unfoldable pub encode_xor : ℕ → Instruction → M Jit (Unit {0})
unfolding logic_imm
encode_xor sf buf = do
  logic_imm buf
  if is_logic buf
      then emit32 (sf ||| construct_r_r_r Op.eor_reg buf.a.reg buf.a.reg (logic_reg buf))
      else fail (unhandled buf.type)

unfoldable pub encode_and : ℕ → Instruction → M Jit (Unit {0})
unfolding logic_imm
encode_and sf buf = do
  logic_imm buf
  if is_logic buf
      then (if buf.a.reg == Reg.rsp
          then (do
            emit32 (Op.sf ||| Op.add_imm ||| sc1r ||| 31 <<< 5)
            emit32 (sf ||| construct_r_r_r Op.and_reg Reg.sc1 Reg.sc1 (logic_reg buf))
            emit32 (Op.sf ||| Op.add_imm ||| 31 ||| sc1r <<< 5))
          else emit32 (sf ||| construct_r_r_r Op.and_reg buf.a.reg buf.a.reg (logic_reg buf)))
      else fail (unhandled buf.type)

unfoldable pub encode_or : ℕ → Instruction → M Jit (Unit {0})
unfolding logic_imm
encode_or sf buf = do
  logic_imm buf
  if is_logic buf
      then emit32 (sf ||| construct_r_r_r Op.orr_reg buf.a.reg buf.a.reg (logic_reg buf))
      else fail (unhandled buf.type)

-- emit_add_imm takes registers of x86-64, so SC1R names R12 there, and x64_regs[r0] what it is.
unfoldable pub encode_idiv : Instruction → M Jit (Unit {0})
encode_idiv buf =
    let r0 = x64_regs buf.a.reg in
    let r1 = x64_regs buf.b.reg in
    if is_reg buf.a.type && is_reg buf.b.type
    then (do
      emit_add_imm sc1r r0 0
      emit32 (0x9ac00d80 ||| r1 <<< 16 ||| r0)
      emit32 (0x9b00b002 ||| r1 <<< 16 ||| r0 <<< 5))
    else fail (unhandled buf.type)

unfoldable pub encode_imul : ℕ → Instruction → M Jit (Unit {0})
encode_imul sf buf =
    let r0 = x64_regs buf.a.reg in
    let r1 = x64_regs buf.b.reg in
    if is_reg buf.a.type && is_reg buf.b.type
    then (if buf.b.imm == 0
        then emit32 (Op.smul_reg ||| r1 <<< 16 ||| r0 <<< 5 ||| r0)
        else (do emit_imm buf.b.imm sc1r; emit32 (Op.smul_reg ||| sc1r <<< 16 ||| r1 <<< 5 ||| r0)))
    else if has_imm buf.b.type
    then (do
      short ← emit_load sc2r buf.b sf buf.prefix
      emit32 (Op.smul_reg ||| sc2r <<< 16 ||| r0 <<< 5 ||| r0))
    else fail (unhandled buf.type)
