-- ===== src/Encoder/Frame/Arithmetic.antt =====
-- The 8-bit instructions and the arithmetic of src/encoder.c, each in its frame.
use byte_shatter.Base.{ℕ}
use byte_shatter.X86.{Instruction}
use byte_shatter.Encoder.Byte.{encode8_mov, encode8_test, encode8_cmp, encode8_set}
use byte_shatter.Encoder.Alu.{
  encode_sub, encode_add, encode_cmp, encode_shl, encode_shr, encode_sar, encode_test, encode_xor,
  encode_and, encode_or, encode_idiv, encode_imul,
}
use byte_shatter.Encoder.Frame.{Frames}
use byte_shatter.Encoder.Frame.Parts.{part_rules}

pub Frames-encode8_mov : (buf : Instruction) → Frames (encode8_mov buf)
unfolding encode8_mov
Frames-encode8_mov buf = search part_rules depth 14

pub Frames-encode8_test : (buf : Instruction) → Frames (encode8_test buf)
unfolding encode8_test
Frames-encode8_test buf = search part_rules depth 14

pub Frames-encode8_cmp : (buf : Instruction) → Frames (encode8_cmp buf)
unfolding encode8_cmp
Frames-encode8_cmp buf = search part_rules depth 14

pub Frames-encode8_set : (n : ℕ) (buf : Instruction) → Frames (encode8_set n buf)
unfolding encode8_set
Frames-encode8_set n buf = search part_rules depth 14

pub Frames-encode_sub : (n : ℕ) (buf : Instruction) → Frames (encode_sub n buf)
unfolding encode_sub
Frames-encode_sub n buf = search part_rules depth 14

pub Frames-encode_add : (n : ℕ) (buf : Instruction) → Frames (encode_add n buf)
unfolding encode_add
Frames-encode_add n buf = search part_rules depth 14

pub Frames-encode_cmp : (n : ℕ) (buf : Instruction) → Frames (encode_cmp n buf)
unfolding encode_cmp
Frames-encode_cmp n buf = search part_rules depth 14

pub Frames-encode_shl : (n : ℕ) (buf : Instruction) → Frames (encode_shl n buf)
unfolding encode_shl
Frames-encode_shl n buf = search part_rules depth 14

pub Frames-encode_shr : (n : ℕ) (buf : Instruction) → Frames (encode_shr n buf)
unfolding encode_shr
Frames-encode_shr n buf = search part_rules depth 14

pub Frames-encode_sar : (n : ℕ) (buf : Instruction) → Frames (encode_sar n buf)
unfolding encode_sar
Frames-encode_sar n buf = search part_rules depth 14

pub Frames-encode_test : (n : ℕ) (buf : Instruction) → Frames (encode_test n buf)
unfolding encode_test
Frames-encode_test n buf = search part_rules depth 14

pub Frames-encode_xor : (n : ℕ) (buf : Instruction) → Frames (encode_xor n buf)
unfolding encode_xor
Frames-encode_xor n buf = search part_rules depth 14

pub Frames-encode_and : (n : ℕ) (buf : Instruction) → Frames (encode_and n buf)
unfolding encode_and
Frames-encode_and n buf = search part_rules depth 14

pub Frames-encode_or : (n : ℕ) (buf : Instruction) → Frames (encode_or n buf)
unfolding encode_or
Frames-encode_or n buf = search part_rules depth 14

pub Frames-encode_idiv : (buf : Instruction) → Frames (encode_idiv buf)
unfolding encode_idiv
Frames-encode_idiv buf = search part_rules depth 14

pub Frames-encode_imul : (n : ℕ) (buf : Instruction) → Frames (encode_imul n buf)
unfolding encode_imul
Frames-encode_imul n buf = search part_rules depth 14

pub ruleset arithmetic_rules = (
  part_rules, Frames-encode8_mov, Frames-encode8_test, Frames-encode8_cmp, Frames-encode8_set,
  Frames-encode_sub, Frames-encode_add, Frames-encode_cmp, Frames-encode_shl, Frames-encode_shr,
  Frames-encode_sar, Frames-encode_test, Frames-encode_xor, Frames-encode_and, Frames-encode_or,
  Frames-encode_idiv, Frames-encode_imul,
)
