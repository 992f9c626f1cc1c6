-- ===== src/Encoder/Address/Lea.antt =====
-- LEA, from the instruction to the register: `encode` of src/encoder.c.
use byte_shatter.Base.{ℕ, ◌+◌, ◌^◌, ◌<◌, ◌≡◌, ◌≢◌, ◌∙◌, refl, List, ok}
use byte_shatter.X86.Instr
use byte_shatter.X86.OpType
use byte_shatter.X86.Prefix
use byte_shatter.X86.{Instruction}
use byte_shatter.Jit.{Jit}
use byte_shatter.Arm.{Cpu, write_x}
use byte_shatter.Encoder.Emit.{x64_regs}
use byte_shatter.Encoder.Immediate.{Runs}
use byte_shatter.Encoder.Moves.{encode_lea}
use byte_shatter.Encoder.Encode.{encode, encode_integer}
use byte_shatter.Encoder.Registers.{x64_regs-IsHome}
use byte_shatter.Encoder.Address.{emit_address_decode}
use byte_shatter.Encoder.Address.Effective.{
  Address, based, displaced, indexed, indexed_displaced, scaled, operand_at, effective, IsReachable,
  emit_address_decode-effective,
}

-- LEA of 64 bits into register `r`, whatever else the buffer held.
abbrev pub lea_of : ℕ → Address → Instruction → Instruction
lea_of r ad buf = record buf {
  type = Instr.lea;
  size = 64;
  a = record (buf.a) { type = OpType.reg; reg = r };
  b = operand_at ad buf.b;
}

abbrev pub forgotten : Jit → Jit
forgotten s = record s { prev_instruction = Instr.nop }

encode-lea_of :
    (r : ℕ) (ad : Address) (buf : Instruction) (s : Jit)
    → encode (lea_of r ad buf) s
      ≡ emit_address_decode (operand_at ad buf.b) (x64_regs r) buf.prefix (forgotten s)
unfolding encode encode_integer encode_lea
encode-lea_of r (based b) buf s = refl
encode-lea_of r (displaced b d) buf s = refl
encode-lea_of r (indexed b i k) buf s = refl
encode-lea_of r (indexed_displaced b d i k) buf s = refl
encode-lea_of r (scaled d i k) buf s = refl

-- A LEA of 64 bits without the FS prefix into a register other than RSP, with an operand that
-- has a base or an index register, registers other than RSP and a displacement of at most twelve bits and a sign, is
-- translated, to words that leave the effective address in the register's home and change nothing else
-- of the processor. With an index, the base must be another register than the destination.
pub encode-lea :
    (r : ℕ) (ad : Address) (buf : Instruction) (s : Jit) (c : Cpu)
    → r < 16
    → r ≢ 4
    → buf.prefix ≢ Prefix.fs
    → IsReachable c (x64_regs r) ad
    → s.context.hp + 3 < 2 ^ 32
    → (t : Jit) × (ws : List ℕ) × (encode (lea_of r ad buf) s ≡ ok (tt, t))
      × Runs (forgotten s) t ws c (write_x (x64_regs r) (effective c ad) c)
encode-lea r ad buf s c small n p reach room =
    let (t, ws, e, runs) =
      emit_address_decode-effective ad buf.b (x64_regs r) buf.prefix (forgotten s) c p
        (x64_regs-IsHome r small n).general reach room in
    (t, ws, encode-lea_of r ad buf s ∙ e, runs)
