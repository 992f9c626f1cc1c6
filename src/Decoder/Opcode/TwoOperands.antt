-- ===== src/Decoder/Opcode/TwoOperands.antt =====
-- `decode_instr` of src/decoder.c on the instructions with a register and a ModRM operand.
use byte_shatter.Base.{
  ℕ, ◌+◌, ◌*◌, ◌^◌, ◌<◌, ◌≡◌, ◌∙◌, refl, ap, Bool, true, false, ◌∷◌, ok, arith, length,
  if◌then◌else◌, low_bits, ◌>>>◌, bind-ok,
}
use byte_shatter.X86.Instr
use byte_shatter.X86.{Instruction, to_reg, as_type}
use byte_shatter.Memory.{Context, fetch8}
use byte_shatter.Memory.Reads.{at, Holds, fetch8-at}
use byte_shatter.Decoder.ModRm.{decode_rm, decode_r_rm, decode_rm_r}
use byte_shatter.Decoder.Group.{decode_grp0}
use byte_shatter.Decoder.Opcode.{decode_60s, decode_80s, decode_straight}
use byte_shatter.Decoder.ModRm.Encoding.{
  RmForm, direct, base_disp, rip_disp, sib_disp, sib_abs, no_disp, disp8, disp32, IsEncodable,
  modrm_byte, rest_bytes, operand_of, decode_rm-operand_of,
}

-- With the register as the first operand, and as the second.
abbrev pub loaded : ℕ → RmForm → Instruction → Instruction
loaded r form buf = record buf { reverse = 0; a = to_reg r buf.a; b = operand_of form buf.b }

abbrev pub stored : ℕ → RmForm → Instruction → Instruction
stored r form buf = record buf { reverse = 1; a = operand_of form buf.a; b = to_reg r buf.b }

reg_of-modrm_byte :
    (r : ℕ) (form : RmForm) → r < 8 → IsEncodable form → low_bits (modrm_byte r form >>> 3) 3 ≡ r
reg_of-modrm_byte r (direct b) small f = omega arith
reg_of-modrm_byte r (base_disp b no_disp) small f = omega arith
reg_of-modrm_byte r (base_disp b (disp8 d)) small f = omega arith
reg_of-modrm_byte r (base_disp b (disp32 d)) small f = omega arith
reg_of-modrm_byte r (rip_disp d) small f = omega arith
reg_of-modrm_byte r (sib_disp b i s no_disp) small f = omega arith
reg_of-modrm_byte r (sib_disp b i s (disp8 d)) small f = omega arith
reg_of-modrm_byte r (sib_disp b i s (disp32 d)) small f = omega arith
reg_of-modrm_byte r (sib_abs i s d) small f = omega arith

module _ (mem : ℕ → ℕ) (c : Context) (r : ℕ) (form : RmForm) (n m : ℕ) (small : r < 8)
    (f : IsEncodable form) (h : Holds mem (c.guest + c.gp) n (modrm_byte r form ∷ rest_bytes form))
    (e : n + 1 + length (rest_bytes form) ≡ m) (room : c.gp + m < 2 ^ 32) where
  fetch-modrm : fetch8 mem (at n c) ≡ ok (modrm_byte r form, at (n + 1) c)
  fetch-modrm = fetch8-at mem c n (n + 1) (modrm_byte r form) refl (omega arith) h.0 h.1

  pub decode_r_rm-loaded :
      (buf : Instruction) → decode_r_rm mem buf (at n c) ≡ ok (loaded r form buf, at m c)
  unfolding decode_r_rm
  decode_r_rm-loaded buf =
      bind-ok (fetch8 mem) _ (at n c) fetch-modrm
      ∙ bind-ok (decode_rm mem (modrm_byte r form) buf.b) _ (at (n + 1) c)
          (decode_rm-operand_of mem c r form buf.b (n + 1) m small f h.2 e room)
      ∙ ap (λ (q : ℕ). ok (loaded q form buf, at m c)) (reg_of-modrm_byte r form small f)

  pub decode_rm_r-stored :
      (buf : Instruction) → decode_rm_r mem buf (at n c) ≡ ok (stored r form buf, at m c)
  unfolding decode_rm_r
  decode_rm_r-stored buf =
      bind-ok (fetch8 mem) _ (at n c) fetch-modrm
      ∙ bind-ok (decode_rm mem (modrm_byte r form) buf.a) _ (at (n + 1) c)
          (decode_rm-operand_of mem c r form buf.a (n + 1) m small f h.2 e room)
      ∙ ap (λ (q : ℕ). ok (stored q form buf, at m c)) (reg_of-modrm_byte r form small f)

-- The instructions that take a register and a ModRM operand of 32 or 64 bits. The eight of the group
-- ADD, OR, ADC, SBB, AND, SUB, XOR and CMP are given by their number.
pub data Pair : Type 0 where
  alu_load alu_store : ℕ → Pair
  mov_load mov_store lea_load test_store movsx_load : Pair

abbrev pub IsPair : Pair → Type 0
IsPair (alu_load k) = k < 8
IsPair (alu_store k) = k < 8
IsPair _ = Unit

abbrev pub opcode_of : Pair → ℕ
opcode_of (alu_load k) = k * 8 + 3
opcode_of (alu_store k) = k * 8 + 1
opcode_of mov_load = 0x8B
opcode_of mov_store = 0x89
opcode_of lea_load = 0x8D
opcode_of test_store = 0x85
opcode_of movsx_load = 0x63

abbrev pub type_of : Pair → ℕ
type_of (alu_load k) = k
type_of (alu_store k) = k
type_of mov_load = Instr.mov
type_of mov_store = Instr.mov
type_of lea_load = Instr.lea
type_of test_store = Instr.test
type_of movsx_load = Instr.movsx

-- Whether the register is the first operand.
abbrev pub is_load : Pair → Bool
is_load (alu_load k) = true
is_load mov_load = true
is_load lea_load = true
is_load movsx_load = true
is_load _ = false

module _ (mem : ℕ → ℕ) (rex : ℕ) (buf : Instruction) (c : Context) where
  pub decode_straight-pair :
      (p : Pair)
      → IsPair p
      → decode_straight mem rex (opcode_of p) buf c ≡ (
          if is_load p
          then decode_r_rm mem (as_type (type_of p) buf) c
          else decode_rm_r mem (as_type (type_of p) buf) c)
  unfolding decode_straight decode_grp0 decode_60s decode_80s
  decode_straight-pair (alu_load k) small = ground arith
  decode_straight-pair (alu_store k) small = ground arith
  decode_straight-pair mov_load small = refl
  decode_straight-pair mov_store small = refl
  decode_straight-pair lea_load small = refl
  decode_straight-pair test_store small = refl
  decode_straight-pair movsx_load small = refl
