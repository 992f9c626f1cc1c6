-- ===== src/Decoder/Opcode/Rex.antt =====
-- The bits of a REX prefix, and `decode_rex` of src/decoder.c on the operands of each form.
use byte_shatter.Base.{
  ℕ, ◌+◌, ◌*◌, ◌<◌, ◌≡◌, refl, Bool, true, false, not, List, [], ◌∷◌, arith, ◌==◌, if◌then◌else◌,
  low_bits, bit, Bool-cases, inl, inr,
}
use byte_shatter.X86.{Operand, Instruction, to_reg}
use byte_shatter.Decoder.ModRm.{decode_rex, high_reg, high_idx}
use byte_shatter.Decoder.Opcode.{is_prefix, is_rex}
use byte_shatter.Decoder.ModRm.Encoding.{
  RmForm, direct, base_disp, rip_disp, sib_disp, sib_abs, no_disp, disp8, disp32, IsEncodable,
  operand_of,
}

-- The bits W, R, X and B of a REX prefix.
pub data Rex : Type 0 where
  no_rex : Rex
  rex : ℕ → ℕ → ℕ → ℕ → Rex

abbrev pub rex_bytes : Rex → List ℕ
rex_bytes no_rex = []
rex_bytes (rex w r x b) = (0x40 + w * 8 + r * 4 + x * 2 + b) ∷ []

-- The registers of the form, with the bits X and B on top.
abbrev pub extended : ℕ → ℕ → RmForm → RmForm
extended x b (direct r) = direct (r + b * 8)
extended x b (base_disp r d) = base_disp (r + b * 8) d
extended x b (rip_disp d) = rip_disp d
extended x b (sib_disp r i s d) = sib_disp (r + b * 8) (i + x * 8) s d
extended x b (sib_abs i s d) = sib_abs (i + x * 8) s d

-- A bit of which the form makes no use is 0, and so is X on index 4, "no index".
abbrev pub FormFits : ℕ → ℕ → RmForm → Type 0
FormFits x b (direct r) = x ≡ 0
FormFits x b (base_disp r d) = x ≡ 0
FormFits x b (rip_disp d) = (x ≡ 0) × (b ≡ 0)
FormFits x b (sib_disp r i s d) = i ≡ 4 → x ≡ 0
FormFits x b (sib_abs i s d) = (b ≡ 0) × (i ≡ 4 → x ≡ 0)

abbrev pub RexFits : Rex → RmForm → Type 0
RexFits no_rex form = Unit
RexFits (rex w r x b) form = (w < 2) × (r < 2) × (x < 2) × (b < 2) × FormFits x b form

-- An instruction with the register first, or with the ModRM operand first. What it does not say is as
-- `buf` had it.
abbrev pub shaped : Bool → ℕ → ℕ → ℕ → RmForm → Instruction → Instruction
shaped true kind size r form buf = record {
  type = kind;
  size = size;
  prefix = 0;
  reverse = 0;
  a = to_reg r buf.a;
  b = operand_of form buf.b;
}
shaped false kind size r form buf = record {
  type = kind;
  size = size;
  prefix = 0;
  reverse = 1;
  a = operand_of form buf.a;
  b = to_reg r buf.b;
}

abbrev pub bits : ℕ → ℕ → ℕ → ℕ → ℕ
bits w r x b = w * 8 + r * 4 + x * 2 + b

-- The bits of the number.
pub rex_bits :
    (w r x b : ℕ)
    → w < 2
    → r < 2
    → x < 2
    → b < 2
    → (bit (bits w r x b) 3 ≡ not (w == 0))
      × (bit (bits w r x b) 2 ≡ not (r == 0))
      × (bit (bits w r x b) 1 ≡ not (x == 0))
      × (bit (bits w r x b) 0 ≡ not (b == 0))
rex_bits w r x b p q t u = (ground arith, ground arith, ground arith, ground arith)

-- The bits X and B, added to the operand of a form.
operand_of-extended :
    (x b : ℕ) (form : RmForm) (op : Operand)
    → x < 2
    → b < 2
    → IsEncodable form
    → FormFits x b form
    → high_reg (not (b == 0)) (high_idx (not (x == 0)) (operand_of form op))
      ≡ operand_of (extended x b form) op
operand_of-extended x b (direct r) op p q f fits = ground arith
operand_of-extended x b (base_disp r no_disp) op p q f fits = ground arith
operand_of-extended x b (base_disp r (disp8 d)) op p q f fits = ground arith
operand_of-extended x b (base_disp r (disp32 d)) op p q f fits = ground arith
operand_of-extended x b (rip_disp d) op p q f fits = ground arith
operand_of-extended x b (sib_disp r i s no_disp) op p q f fits = ground arith
operand_of-extended x b (sib_disp r i s (disp8 d)) op p q f fits = ground arith
operand_of-extended x b (sib_disp r i s (disp32 d)) op p q f fits = ground arith
operand_of-extended x b (sib_abs i s d) op p q f fits = ground arith

reg-extended :
    (r reg : ℕ) (op : Operand)
    → r < 2
    → reg < 8
    → high_reg (not (r == 0)) (to_reg reg op) ≡ to_reg (reg + r * 8) op
reg-extended r reg op p q = ground arith

-- decode_rex on each form.
pub decode_rex-shaped :
    (load : Bool) (kind w r x b reg : ℕ) (form : RmForm) (buf : Instruction)
    → reg < 8
    → IsEncodable form
    → RexFits (rex w r x b) form
    → decode_rex (bits w r x b) (shaped load kind 32 reg form buf)
      ≡ shaped load kind (if w == 0 then 32 else 64) (reg + r * 8) (extended x b form) buf
unfolding decode_rex
decode_rex-shaped true kind w r x b reg form buf small f (k, l, m, n, fits) =
    let (e3, e2, e1, e0) = rex_bits w r x b k l m n in
    rw
      (
        e3,
        e2,
        e1,
        e0,
        ← reg-extended r reg buf.a l small,
        ← operand_of-extended x b form buf.b m n f fits,
      )
      (elim (Bool-cases (w == 0)) [ inl h ↦ rw h refl | inr h ↦ rw h refl ])
decode_rex-shaped false kind w r x b reg form buf small f (k, l, m, n, fits) =
    let (e3, e2, e1, e0) = rex_bits w r x b k l m n in
    rw
      (
        e3,
        e2,
        e1,
        e0,
        ← reg-extended r reg buf.b l small,
        ← operand_of-extended x b form buf.a m n f fits,
      )
      (elim (Bool-cases (w == 0)) [ inl h ↦ rw h refl | inr h ↦ rw h refl ])

pub decode_rex-zero : (number : ℕ) (i : Instruction) → number ≡ 0 → decode_rex number i ≡ i
unfolding decode_rex
decode_rex-zero number i e =
    rw e (elim (Bool-cases (i.reverse == 0)) [ inl h ↦ rw h refl | inr h ↦ rw h refl ])

pub rex_byte-free :
    (w r x b : ℕ)
    → w < 2
    → r < 2
    → x < 2
    → b < 2
    → (is_prefix (0x40 + w * 8 + r * 4 + x * 2 + b) ≡ false)
      × (is_rex (0x40 + w * 8 + r * 4 + x * 2 + b) ≡ true)
      × (low_bits (0x40 + w * 8 + r * 4 + x * 2 + b) 4 ≡ bits w r x b)
rex_byte-free w r x b k l m n = (ground arith, ground arith, ground arith)
