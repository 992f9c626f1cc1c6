-- ===== src/Encoder/Emit.antt =====
-- The register table and the macros of src/arm64emitter.h, and the small emitters of src/encoder.c.
--
-- A word is put together by `|` of values that C widens as far as int64_t; `emit32` keeps its low
-- 32 bits, so the 64-bit pattern of a negative immediate gives the same word here.
use byte_shatter.Base.{
  ℕ, ◌+◌, ◌-◌, ◌*◌, ◌^◌, Bool, ◌&&◌, ◌||◌, not, List, [], ◌∷◌, ltb, leb, if◌then◌else◌, get_or,
  ◌<<<◌, ◌>>>◌, ◌|||◌, low_bits, negative, positive, neg64, not64, M, ◌>>◌, when,
}
use byte_shatter.Jit.{Jit, emit32}
use byte_shatter.Encoder.Op

-- The home of each x86-64 register, then of SC1, SC2, X30, AR7, AR8 and XZR. An index past the
-- table, which no value of `enum Registers` is, reads as 0.
abbrev register_table : List ℕ
register_table =
    8 ∷ 3 ∷ 2 ∷ 14 ∷ 31 ∷ 29 ∷ 1 ∷ 0 ∷ 4 ∷ 5 ∷ 10 ∷ 11 ∷ 16 ∷ 17 ∷ 18 ∷ 19 ∷ 12 ∷ 13 ∷ 30 ∷ 6 ∷ 7
    ∷ 31 ∷ []

unfoldable pub x64_regs : ℕ → ℕ
x64_regs r = get_or register_table r 0

-- SC1R and SC2R: the host numbers of the two scratch registers.
abbrev pub sc1r : ℕ
sc1r = 12

abbrev pub sc2r : ℕ
sc2r = 13

-- (buf->size == 64) * SF, and the like
abbrev pub flag_if : Bool → ℕ → ℕ
flag_if b f = if b then f else 0

abbrev pub construct_r_r_imm : ℕ → ℕ → ℕ → ℕ → ℕ
construct_r_r_imm op rd rn imm = op ||| imm <<< 10 ||| x64_regs rn <<< 5 ||| x64_regs rd

abbrev pub construct_r_r_r : ℕ → ℕ → ℕ → ℕ → ℕ
construct_r_r_r op rd rn rm = op ||| x64_regs rm <<< 16 ||| x64_regs rn <<< 5 ||| x64_regs rd

-- ADD or SUB of an immediate, on host registers.
abbrev pub add_sub_imm : ℕ → ℕ → ℕ → ℕ → ℕ
add_sub_imm op r0 r1 imm = Op.sf ||| op ||| r0 ||| r1 <<< 5 ||| imm <<< 10

unfoldable pub emit_lsl_imm : ℕ → ℕ → ℕ → M Jit (Unit {0})
emit_lsl_imm rd rn shift = emit32 (
    0xD3400000
    ||| low_bits (neg64 shift) 6 <<< 16
    ||| low_bits (63 + 2 ^ 64 - shift) 6 <<< 10
    ||| x64_regs rn <<< 5
    ||| x64_regs rd)

unfoldable pub emit_lsr_imm : ℕ → ℕ → ℕ → M Jit (Unit {0})
emit_lsr_imm rd rn shift =
    emit32
      (0xD3600000 ||| low_bits shift 6 <<< 16 ||| 63 <<< 10 ||| x64_regs rn <<< 5 ||| x64_regs rd)

unfoldable pub emit_asr_imm : ℕ → ℕ → ℕ → M Jit (Unit {0})
emit_asr_imm rd rn shift =
    emit32
      (Op.asr_imm ||| low_bits shift 6 <<< 16 ||| 63 <<< 10 ||| x64_regs rn <<< 5 ||| x64_regs rd)

unfoldable pub emit_add_imm : ℕ → ℕ → ℕ → M Jit (Unit {0})
emit_add_imm rd rn imm = emit32 (construct_r_r_imm 0x91000000 rd rn imm)

unfoldable pub emit_brk : ℕ → M Jit (Unit {0})
emit_brk imm16 = emit32 (0xD4200000 ||| imm16 <<< 5)

unfoldable pub emit_ret : M Jit (Unit {0})
emit_ret = emit32 0xD65F03C0

unfoldable pub emit_add_signed : ℕ → ℕ → ℕ → M Jit (Unit {0})
emit_add_signed r0 r1 imm =
    if positive imm
    then emit32 (add_sub_imm Op.add_imm r0 r1 imm)
    else emit32 (add_sub_imm Op.sub_imm r0 r1 (neg64 imm))

unfoldable pub emit_sub_signed : ℕ → ℕ → ℕ → M Jit (Unit {0})
emit_sub_signed r0 r1 imm =
    if positive imm
    then emit32 (add_sub_imm Op.sub_imm r0 r1 imm)
    else emit32 (add_sub_imm Op.add_imm r0 r1 (neg64 imm))

-- The 16-bit piece `k` of an immediate, put where MOVZ and MOVK take it.
abbrev pub movz : ℕ → ℕ → ℕ
movz imm rd = Op.movz_imm ||| low_bits imm 16 <<< 5 ||| rd

abbrev pub movk : ℕ → ℕ → ℕ → ℕ
movk k imm rd = Op.movk_imm ||| k <<< 21 ||| low_bits (imm >>> (16 * k)) 16 <<< 5 ||| rd

unfoldable pub emit_imm : ℕ → ℕ → M Jit (Unit {0})
emit_imm imm rd =
    if not (negative imm) && ltb imm (2 ^ 15)
    then emit32 (Op.movz_imm ||| imm <<< 5 ||| rd)
    else if negative imm && ltb (not64 imm) (2 ^ 15)
    then emit32 (0x92800000 ||| not64 imm <<< 5 ||| rd)
    else if leb (2 ^ 64 - 2 ^ 31) imm || ltb imm (2 ^ 31)
    then (do
      emit32 (movz imm rd)
      emit32 (movk 1 imm rd)
      when (negative imm) (emit32 (Op.sxtw_reg ||| rd <<< 5 ||| rd)))
    else (do
      emit32 (movz imm rd)
      emit32 (movk 1 imm rd)
      emit32 (movk 2 imm rd)
      emit32 (movk 3 imm rd))
