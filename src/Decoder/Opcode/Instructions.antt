-- ===== src/Decoder/Opcode/Instructions.antt =====
-- Whole instructions with a register and a ModRM operand, with and without a REX prefix, through
-- `decode_instr` of src/decoder.c.
use byte_shatter.Base.{
  ℕ, ◌+◌, ◌*◌, ◌^◌, ◌<◌, ◌≡◌, ◌∙◌, refl, ap, sym, false, List, ◌∷◌, ◌++◌, ok, arith, length, ◌==◌,
  if◌then◌else◌, ◌>>=◌, bind-ok, IsU8, if_cases, Bool-cases, inl, inr,
}
use byte_shatter.X86.{Instruction, as_type, as_size}
use byte_shatter.Memory.{Context, fetch8}
use byte_shatter.Memory.Reads.{at, Holds, fetch8-at}
use byte_shatter.Decoder.ModRm.{decode_rex}
use byte_shatter.Decoder.TwoByte.{as_prefix}
use byte_shatter.Decoder.Opcode.{
  goes_on, decode_straight, decode_opcode, is_prefix, is_rex, decode_instr,
}
use byte_shatter.Decoder.ModRm.Encoding.{RmForm, IsEncodable, modrm_byte, rest_bytes}
use byte_shatter.Decoder.Opcode.TwoOperands.{
  Pair, alu_load, alu_store, mov_load, mov_store, lea_load, test_store, movsx_load, IsPair,
  opcode_of, type_of, is_load, decode_straight-pair, decode_r_rm-loaded, decode_rm_r-stored,
}
use byte_shatter.Decoder.Opcode.Rex.{
  Rex, no_rex, rex, rex_bytes, extended, RexFits, shaped, bits, decode_rex-shaped, decode_rex-zero,
  rex_byte-free,
}

abbrev pub instruction : Pair → ℕ → ℕ → RmForm → Instruction → Instruction
instruction p = shaped (is_load p) (type_of p)

-- The instruction that the bytes stand for.
abbrev pub meant : Pair → Rex → ℕ → RmForm → Instruction → Instruction
meant p no_rex reg form buf = instruction p 32 reg form buf
meant p (rex w r x b) reg form buf =
    instruction p (if w == 0 then 32 else 64) (reg + r * 8) (extended x b form) buf

-- The opcode's own switch, on the ModRM operand behind it.
decode_opcode-straight :
    (mem : ℕ → ℕ) (number : ℕ) (p : Pair) (buf : Instruction) (c : Context)
    → IsPair p
    → decode_opcode mem number (opcode_of p) buf c
      ≡ (decode_straight mem number (opcode_of p) buf >>= goes_on) c
unfolding decode_opcode
decode_opcode-straight mem number (alu_load k) buf c small = ground arith
decode_opcode-straight mem number (alu_store k) buf c small = ground arith
decode_opcode-straight mem number mov_load buf c small = refl
decode_opcode-straight mem number mov_store buf c small = refl
decode_opcode-straight mem number lea_load buf c small = refl
decode_opcode-straight mem number test_store buf c small = refl
decode_opcode-straight mem number movsx_load buf c small = refl

-- The buffer that decode_instr hands to its switch, without a prefix of the first kind.
abbrev cleaned : Instruction → Instruction
cleaned buf = as_size 32 (as_prefix 0 buf)

module _ (mem : ℕ → ℕ) (c : Context) (p : Pair) (r : ℕ) (form : RmForm) (buf : Instruction)
    (known : IsPair p) (small : r < 8) (f : IsEncodable form) where
  decode_opcode-pair :
      (number n m : ℕ)
      → Holds mem (c.guest + c.gp) n (modrm_byte r form ∷ rest_bytes form)
      → n + 1 + length (rest_bytes form) ≡ m
      → c.gp + m < 2 ^ 32
      → decode_opcode mem number (opcode_of p) (cleaned buf) (at n c)
        ≡ ok ((instruction p 32 r form buf, false), at m c)
  decode_opcode-pair number n m h e room =
      decode_opcode-straight mem number p (cleaned buf) (at n c) known
      ∙ bind-ok (decode_straight mem number (opcode_of p) (cleaned buf)) goes_on (at n c) (
          decode_straight-pair mem number (cleaned buf) (at n c) p known
          ∙ elim (Bool-cases (is_load p)) [
            | inl load ↦ rw load (
                decode_r_rm-loaded mem c r form n m small f h e room
                  (as_type (type_of p) (cleaned buf)))
            | inr store ↦ rw store (
                decode_rm_r-stored mem c r form n m small f h e room
                  (as_type (type_of p) (cleaned buf)))
          ])

-- A byte that decode_instr takes for the opcode.
abbrev IsOpcode : ℕ → Type 0
IsOpcode byte = (is_prefix byte ≡ false) × (is_rex byte ≡ false) × IsU8 byte

opcode_of-IsOpcode : (p : Pair) → IsPair p → IsOpcode (opcode_of p)
opcode_of-IsOpcode (alu_load k) small = (ground arith, ground arith, omega arith)
opcode_of-IsOpcode (alu_store k) small = (ground arith, ground arith, omega arith)
opcode_of-IsOpcode mov_load small = (refl, refl, omega arith)
opcode_of-IsOpcode mov_store small = (refl, refl, omega arith)
opcode_of-IsOpcode lea_load small = (refl, refl, omega arith)
opcode_of-IsOpcode test_store small = (refl, refl, omega arith)
opcode_of-IsOpcode movsx_load small = (refl, refl, omega arith)

module _ (mem : ℕ → ℕ) (c : Context) (p : Pair) (r : ℕ) (form : RmForm) (buf : Instruction)
    (known : IsPair p) (small : r < 8) (f : IsEncodable form) where
  decode_instr-no_rex :
      (m : ℕ)
      → Holds mem (c.guest + c.gp) 0 (opcode_of p ∷ modrm_byte r form ∷ rest_bytes form)
      → 2 + length (rest_bytes form) ≡ m
      → c.gp + m < 2 ^ 32
      → decode_instr mem buf (at 0 c) ≡ ok ((meant p no_rex r form buf, false), at m c)
  unfolding decode_instr
  decode_instr-no_rex m h e room =
      bind-ok (fetch8 mem) _ (at 0 c) (fetch8-at mem c 0 1 (opcode_of p) refl (omega arith) h.0 h.1)
      ∙ rw ((opcode_of-IsOpcode p known).0, (opcode_of-IsOpcode p known).1)
          (bind-ok (decode_opcode mem 0 (opcode_of p) (cleaned buf)) _ (at 1 c)
            (decode_opcode-pair mem c p r form buf known small f 0 1 m h.2 (omega arith) room))

  -- The code leaves decode_rex out for number 0.
  read_rex :
      (w q x b : ℕ)
      → RexFits (rex w q x b) form
      → (if bits w q x b == 0
          then instruction p 32 r form buf
          else decode_rex (bits w q x b) (instruction p 32 r form buf))
        ≡ meant p (rex w q x b) r form buf
  read_rex w q x b fits =
      if_cases (λ i. i ≡ meant p (rex w q x b) r form buf) (bits w q x b == 0)
        (λ h.
          sym (decode_rex-zero (bits w q x b) (instruction p 32 r form buf) (ground arith)) ∙ rexed)
        λ h. rexed
    where
      rexed :
          decode_rex (bits w q x b) (instruction p 32 r form buf) ≡ meant p (rex w q x b) r form buf
      rexed = decode_rex-shaped (is_load p) (type_of p) w q x b r form buf small f fits

  decode_instr-rex :
      (w q x b m : ℕ)
      → RexFits (rex w q x b) form
      → Holds mem
          (c.guest + c.gp)
          0
          ((0x40 + w * 8 + q * 4 + x * 2 + b) ∷ opcode_of p ∷ modrm_byte r form ∷ rest_bytes form)
      → 3 + length (rest_bytes form) ≡ m
      → c.gp + m < 2 ^ 32
      → decode_instr mem buf (at 0 c) ≡ ok ((meant p (rex w q x b) r form buf, false), at m c)
  unfolding decode_instr
  decode_instr-rex w q x b m fits h e room =
      let (k, l, n, o, _) = fits in
      let (e1, e2, e3) = rex_byte-free w q x b k l n o in
      bind-ok (fetch8 mem) _ (at 0 c)
        (fetch8-at mem c 0 1 (0x40 + w * 8 + q * 4 + x * 2 + b) refl (omega arith) h.0 h.1)
      ∙ rw (e1, e2)
          (bind-ok (fetch8 mem) _ (at 1 c)
              (fetch8-at mem c 1 2 (opcode_of p) refl (omega arith) h.2.0 h.2.1)
            ∙ rw e3 (
                bind-ok (decode_opcode mem (bits w q x b) (opcode_of p) (cleaned buf)) _ (at 2 c) (
                  decode_opcode-pair mem c p r form buf known small f (bits w q x b) 2 m h.2.2
                    (omega arith) room)
                ∙ ap (λ (i : Instruction). ok ((i, false), at m c)) (read_rex w q x b fits)))

-- The bytes of the instruction.
abbrev pub bytes_of : Pair → Rex → ℕ → RmForm → List ℕ
bytes_of p prefix r form = rex_bytes prefix ++ opcode_of p ∷ modrm_byte r form ∷ rest_bytes form

-- The instructions ADD, OR, ADC, SBB, AND, SUB, XOR, CMP and MOV with a register and a ModRM operand in
-- either order, LEA, TEST and MOVSXD, with any operand form of the architecture, with and without a REX
-- prefix: decode_instr on their bytes returns the instruction, with its size and all its registers, says
-- that the block goes on, and stands behind the last byte. The bits of the prefix that the form has no
-- use for are 0, and X is 0 on index 4; the guest position does not wrap.
pub decode_instr-meant :
    (mem : ℕ → ℕ) (c : Context) (p : Pair) (prefix : Rex) (r : ℕ) (form : RmForm)
    (buf : Instruction)
    → IsPair p
    → r < 8
    → IsEncodable form
    → RexFits prefix form
    → Holds mem (c.guest + c.gp) 0 (bytes_of p prefix r form)
    → c.gp + length (bytes_of p prefix r form) < 2 ^ 32
    → decode_instr mem buf c
      ≡ ok ((meant p prefix r form buf, false), at (length (bytes_of p prefix r form)) c)
decode_instr-meant mem c p no_rex r form buf known small f fits h room =
    ap (decode_instr mem buf) (ground arith)
    ∙ decode_instr-no_rex mem c p r form buf known small f _ h (omega arith) room
decode_instr-meant mem c p (rex w q x b) r form buf known small f fits h room =
    ap (decode_instr mem buf) (ground arith)
    ∙ decode_instr-rex mem c p r form buf known small f w q x b _ fits h (omega arith) room
