-- ===== src/Encoder/Words.antt =====
-- The words of src/encoder.c, read as AArch64 instructions: one lemma for each shape of word.
use byte_shatter.Base.{ℕ, ◌+◌, ◌*◌, ◌^◌, ◌<◌, ◌≡◌, some, arith, u32, ◌|||◌, ◌<<<◌, ◌>>>◌, low_bits}
use byte_shatter.Base.Bits.{bit_or_below, bit_or_insert}
use byte_shatter.Arm.{add_imm, sub_imm, movz, movn, movk, sxtw, insn_of}
use byte_shatter.Encoder.Op
use byte_shatter.Encoder.Emit
use byte_shatter.Encoder.Emit.{add_sub_imm}

-- Two registers and an immediate, behind an opcode `h` of ten bits.
pub three_fields :
    (h rd rn imm : ℕ)
    → rd < 32
    → rn < 32
    → imm < 2 ^ 12
    → (h * 2 ^ 22 ||| rd ||| rn <<< 5 ||| imm <<< 10) ≡ h * 2 ^ 22 + imm * 2 ^ 10 + rn * 2 ^ 5 + rd
three_fields h rd rn imm a b c = ground (
  arith,
  bit_or_below 5 (h * 2 ^ 17) rd a,
  bit_or_insert 5 5 (h * 2 ^ 12) rn rd a b,
  bit_or_insert 12 10 h imm (rn * 2 ^ 5 + rd) (omega arith) c,
)

pub add_imm-reads :
    (rd rn imm : ℕ)
    → rd < 32
    → rn < 32
    → imm < 2 ^ 12
    → insn_of (u32 (add_sub_imm Op.add_imm rd rn imm)) ≡ some (add_imm rd rn imm)
unfolding insn_of
add_imm-reads rd rn imm a b c = ground (arith, three_fields 0x244 rd rn imm a b c)

pub sub_imm-reads :
    (rd rn imm : ℕ)
    → rd < 32
    → rn < 32
    → imm < 2 ^ 12
    → insn_of (u32 (add_sub_imm Op.sub_imm rd rn imm)) ≡ some (sub_imm rd rn imm)
unfolding insn_of
sub_imm-reads rd rn imm a b c = ground (arith, three_fields 0x344 rd rn imm a b c)

-- An opcode `h` of eleven bits, a 16-bit immediate and a register.
wide_fields :
    (h imm rd : ℕ)
    → imm < 2 ^ 16
    → rd < 32
    → (h * 2 ^ 21 ||| imm <<< 5 ||| rd) ≡ h * 2 ^ 21 + imm * 2 ^ 5 + rd
wide_fields h imm rd a b =
    ground
      (arith, bit_or_insert 16 5 h imm 0 (omega arith) a, bit_or_below 5 (h * 2 ^ 16 + imm) rd b)

pub movz-reads :
    (imm rd : ℕ)
    → imm < 2 ^ 16
    → rd < 32
    → insn_of (u32 (Op.movz_imm ||| imm <<< 5 ||| rd)) ≡ some (movz 0 imm rd)
unfolding insn_of
movz-reads imm rd a b = ground (arith, wide_fields 0x294 imm rd a b)

pub movn-reads :
    (imm rd : ℕ)
    → imm < 2 ^ 16
    → rd < 32
    → insn_of (u32 (0x92800000 ||| imm <<< 5 ||| rd)) ≡ some (movn 0 imm rd)
unfolding insn_of
movn-reads imm rd a b = ground (arith, wide_fields 0x494 imm rd a b)

pub movk1-reads :
    (imm rd : ℕ)
    → rd < 32
    → insn_of (u32 (Emit.movk 1 imm rd)) ≡ some (movk 1 (low_bits (imm >>> 16) 16) rd)
unfolding insn_of
movk1-reads imm rd b =
    ground (arith, wide_fields 0x795 (low_bits (imm >>> 16) 16) rd (omega arith) b)

pub movk2-reads :
    (imm rd : ℕ)
    → rd < 32
    → insn_of (u32 (Emit.movk 2 imm rd)) ≡ some (movk 2 (low_bits (imm >>> 32) 16) rd)
unfolding insn_of
movk2-reads imm rd b =
    ground (arith, wide_fields 0x796 (low_bits (imm >>> 32) 16) rd (omega arith) b)

pub movk3-reads :
    (imm rd : ℕ)
    → rd < 32
    → insn_of (u32 (Emit.movk 3 imm rd)) ≡ some (movk 3 (low_bits (imm >>> 48) 16) rd)
unfolding insn_of
movk3-reads imm rd b =
    ground (arith, wide_fields 0x797 (low_bits (imm >>> 48) 16) rd (omega arith) b)

pub sxtw-reads :
    (rd : ℕ) → rd < 32 → insn_of (u32 (Op.sxtw_reg ||| rd <<< 5 ||| rd)) ≡ some (sxtw rd rd)
unfolding insn_of
sxtw-reads rd b = ground (
  arith,
  bit_or_insert 5 5 0x24D01F rd 0 (omega arith) b,
  bit_or_below 5 (0x24D01F * 2 ^ 5 + rd) rd b,
)
