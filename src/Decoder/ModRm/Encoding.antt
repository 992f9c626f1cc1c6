-- ===== src/Decoder/ModRm/Encoding.antt =====
-- The operand encodings of the x86-64 architecture, written down independently of src/decoder.c,
-- and what `decode_rm` makes of them.
use byte_shatter.Base.{
  ℕ, ◌+◌, ◌*◌, ◌/◌, ◌%◌, ◌^◌, ◌<◌, ◌≡◌, ◌≢◌, List, [], ◌∷◌, arith, ok, IsU8, IsU32, length, sx8,
  sx32, if◌then◌else◌, ◌==◌,
}
use byte_shatter.X86.{Operand}
use byte_shatter.Memory.{Context}
use byte_shatter.Memory.Reads.{at, Holds, fetch8-at, fetch32-at}
use byte_shatter.Decoder.ModRm.{decode_base, decode_disp, decode_rm}

pub data Disp : Type 0 where
  no_disp : Disp
  disp8 disp32 : ℕ → Disp

pub data RmForm : Type 0 where
  -- a register
  direct : ℕ → RmForm
  -- [base + disp]
  base_disp : ℕ → Disp → RmForm
  -- [rip + disp32]
  rip_disp : ℕ → RmForm
  -- base, index and scale of a SIB byte, and a displacement; index 4 is "no index"
  sib_disp : ℕ → ℕ → ℕ → Disp → RmForm
  -- index, scale and a displacement of 32 bits, no base
  sib_abs : ℕ → ℕ → ℕ → RmForm

abbrev le32 : ℕ → List ℕ
le32 d = d % 256 ∷ d / 2 ^ 8 % 256 ∷ d / 2 ^ 16 % 256 ∷ d / 2 ^ 24 ∷ []

abbrev disp_bytes : Disp → List ℕ
disp_bytes no_disp = []
disp_bytes (disp8 d) = d ∷ []
disp_bytes (disp32 d) = le32 d

abbrev disp_mode : Disp → ℕ
disp_mode no_disp = 0
disp_mode (disp8 d) = 1
disp_mode (disp32 d) = 2

abbrev DispFits : Disp → Type 0
DispFits no_disp = Unit
DispFits (disp8 d) = IsU8 d
DispFits (disp32 d) = IsU32 d

-- Base 5 with mode 0 is taken by the forms without a base, base 4 of ModRM by the SIB byte.
abbrev BaseFits : ℕ → Disp → Type 0
BaseFits b no_disp = (b < 8) × (b ≢ 5)
BaseFits b _ = b < 8

abbrev pub IsEncodable : RmForm → Type 0
IsEncodable (direct r) = r < 8
IsEncodable (base_disp b d) = BaseFits b d × (b ≢ 4) × DispFits d
IsEncodable (rip_disp d) = IsU32 d
IsEncodable (sib_disp b i s d) = BaseFits b d × (i < 8) × (s < 4) × DispFits d
IsEncodable (sib_abs i s d) = (i < 8) × (s < 4) × IsU32 d

-- The ModRM byte with `r` in its middle field, and the bytes behind it.
abbrev pub modrm_byte : ℕ → RmForm → ℕ
modrm_byte r (direct b) = 192 + r * 8 + b
modrm_byte r (base_disp b d) = disp_mode d * 64 + r * 8 + b
modrm_byte r (rip_disp d) = r * 8 + 5
modrm_byte r (sib_disp b i s d) = disp_mode d * 64 + r * 8 + 4
modrm_byte r (sib_abs i s d) = r * 8 + 4

abbrev pub rest_bytes : RmForm → List ℕ
rest_bytes (direct b) = []
rest_bytes (base_disp b d) = disp_bytes d
rest_bytes (rip_disp d) = le32 d
rest_bytes (sib_disp b i s d) = (s * 64 + i * 8 + b) ∷ disp_bytes d
rest_bytes (sib_abs i s d) = (s * 64 + i * 8 + 5) ∷ le32 d

-- The operand, field by field: MEM is 2, REG 1, IDX 4 and IMM 8. A field that the form lacks
-- keeps what the caller's buffer held.
abbrev idx_flag : ℕ → ℕ
idx_flag i = if i == 4 then 0 else 4

abbrev disp_flag : Disp → ℕ
disp_flag no_disp = 0
disp_flag _ = 8

abbrev disp_value : Disp → ℕ → ℕ
disp_value no_disp old = old
disp_value (disp8 d) old = sx8 d
disp_value (disp32 d) old = sx32 d

abbrev pub operand_of : RmForm → Operand → Operand
operand_of (direct r) op = record op { type = 1; reg = r }
operand_of (base_disp b d) op = record op {
  type = 3 + disp_flag d;
  reg = b;
  imm = disp_value d op.imm;
}
operand_of (rip_disp d) op = record op { type = 10; imm = sx32 d }
operand_of (sib_disp b i s d) op = record {
  type = 3 + idx_flag i + disp_flag d;
  reg = b;
  idx = i;
  scale = s;
  imm = disp_value d op.imm;
}
operand_of (sib_abs i s d) op = record {
  type = 10 + idx_flag i;
  reg = 5;
  idx = i;
  scale = s;
  imm = sx32 d;
}

module _ (mem : ℕ → ℕ) (c : Context) where
  abbrev Stands : ℕ → List ℕ → Type 0
  Stands n bs = Holds mem (c.guest + c.gp) n bs

  -- For every operand form of the architecture, decode_rm on the ModRM byte and the bytes behind it
  -- returns exactly that operand and stands behind the last byte, when the guest position does not wrap.
  pub decode_rm-operand_of :
      (r : ℕ) (form : RmForm) (op : Operand) (n m : ℕ)
      → r < 8
      → IsEncodable form
      → Stands n (rest_bytes form)
      → n + length (rest_bytes form) ≡ m
      → c.gp + m < 2 ^ 32
      → decode_rm mem (modrm_byte r form) op (at n c) ≡ ok (operand_of form op, at m c)
  unfolding decode_rm
  decode_rm-operand_of r (direct b) op n m small f h e s = ground arith
  decode_rm-operand_of r (base_disp b no_disp) op n m small f h e s =
      unfold decode_base decode_disp in ground arith
  decode_rm-operand_of r (base_disp b (disp8 d)) op n m small f h e s =
      unfold decode_base decode_disp in ground (arith, fetch8-at mem c n m d)
  decode_rm-operand_of r (base_disp b (disp32 d)) op n m small f h e s =
      unfold decode_base decode_disp in ground (arith, fetch32-at mem c n m d)
  decode_rm-operand_of r (rip_disp d) op n m small f h e s =
      unfold decode_base decode_disp in ground (arith, fetch32-at mem c n m d)
  decode_rm-operand_of r (sib_disp b i s no_disp) op n m small f h e t =
      unfold decode_base decode_disp in ground (arith, fetch8-at mem c n m (s * 64 + i * 8 + b))
  decode_rm-operand_of r (sib_disp b i s (disp8 d)) op n m small f h e t =
      unfold decode_base decode_disp in
      ground (arith, fetch8-at mem c n (n + 1) (s * 64 + i * 8 + b), fetch8-at mem c (n + 1) m d)
  decode_rm-operand_of r (sib_disp b i s (disp32 d)) op n m small f h e t =
      unfold decode_base decode_disp in
      ground (arith, fetch8-at mem c n (n + 1) (s * 64 + i * 8 + b), fetch32-at mem c (n + 1) m d)
  decode_rm-operand_of r (sib_abs i s d) op n m small f h e t =
      unfold decode_base decode_disp in
      ground (arith, fetch8-at mem c n (n + 1) (s * 64 + i * 8 + 5), fetch32-at mem c (n + 1) m d)
