-- ===== src/Arm.antt =====
-- The host: what the AArch64 instructions that the emitter writes do, after the architecture's
-- manual and independently of the source. The statements about emitted words are read through it.
pub mod Code
pub mod Branch
use byte_shatter.Base.{
  ℕ, zero, suc, ◌+◌, ◌-◌, ◌*◌, ◌/◌, ◌%◌, ◌^◌, Bool, true, false, not, ◌&&◌, ◌||◌, Option, none,
  some, ltb, leb, ◌==◌, if◌then◌else◌, update, u32, u64, sx32, List, [], ◌∷◌,
}

-- `mem` is the memory by bytes, and a register holds a number below 2 ^ 64.
pub record Cpu : Type 0 where
  pub x : ℕ → ℕ
  pub sp : ℕ
  pub mem : ℕ → ℕ

-- Register 31 is the zero register, or the stack pointer where an instruction says so.
abbrev pub read_x : Cpu → ℕ → ℕ
read_x c r = if r == 31 then 0 else c.x r

abbrev pub read_sp : Cpu → ℕ → ℕ
read_sp c r = if r == 31 then c.sp else c.x r

abbrev pub write_x : ℕ → ℕ → Cpu → Cpu
write_x r v c = if r == 31 then c else record c { x = update c.x r v }

abbrev pub write_sp : ℕ → ℕ → Cpu → Cpu
write_sp r v c = if r == 31 then record c { sp = v } else record c { x = update c.x r v }

-- Byte `k` of a word, and a store of its eight bytes.
unfoldable pub byte_of : ℕ → ℕ → ℕ
byte_of v k = v / 2 ^ (8 * k) % 256

unfoldable pub store64 : ℕ → ℕ → (ℕ → ℕ) → ℕ → ℕ
store64 a v m p = if leb a p && ltb p (a + 8) then byte_of v (p - a) else m p

unfoldable pub load_bytes : (ℕ → ℕ) → ℕ → ℕ → ℕ
load_bytes m a zero = 0
load_bytes m a (suc n) = m a % 256 + load_bytes m (a + 1) n * 256

unfoldable pub load64 : (ℕ → ℕ) → ℕ → ℕ
load64 m a = load_bytes m a 8

pub data Insn : Type 0 where
  -- ADD and SUB of an immediate, 64 bits: rd, rn, imm12
  add_imm sub_imm : ℕ → ℕ → ℕ → Insn
  -- MOVZ of 32 bits, MOVN and MOVK of 64 bits: hw, imm16, rd
  movz movn movk : ℕ → ℕ → ℕ → Insn
  -- rd, rn
  sxtw : ℕ → ℕ → Insn
  -- ADD of registers, 64 bits: rd, rn, rm
  add_reg : ℕ → ℕ → ℕ → Insn
  -- UBFM, 64 bits: rd, rn, immr, imms
  ubfm : ℕ → ℕ → ℕ → ℕ → Insn
  -- LDR and STR of 64 bits: rt, rn, imm12 in units of 8
  ldr str : ℕ → ℕ → ℕ → Insn
  -- LDP and STP of 64 bits: rt, rt2, rn, with offset 0; LDP to one register twice is unpredictable
  ldp stp : ℕ → ℕ → ℕ → Insn

-- The fields of a word.
abbrev pub rd_of : ℕ → ℕ
rd_of w = w % 32

abbrev pub rn_of : ℕ → ℕ
rn_of w = w / 2 ^ 5 % 32

abbrev pub rt2_of : ℕ → ℕ
rt2_of w = w / 2 ^ 10 % 32

abbrev pub rm_of : ℕ → ℕ
rm_of w = w / 2 ^ 16 % 32

abbrev pub imm12_of : ℕ → ℕ
imm12_of w = w / 2 ^ 10 % 2 ^ 12

abbrev pub imm16_of : ℕ → ℕ
imm16_of w = w / 2 ^ 5 % 2 ^ 16

unfoldable pub insn_of : ℕ → Option Insn
insn_of w =
    if w / 2 ^ 22 == 0x244
    then some (add_imm (rd_of w) (rn_of w) (imm12_of w))
    else if w / 2 ^ 22 == 0x344
    then some (sub_imm (rd_of w) (rn_of w) (imm12_of w))
    else if w / 2 ^ 22 == 0x14A && w / 2 ^ 21 % 2 == 0
    then some (movz 0 (imm16_of w) (rd_of w))
    else if w / 2 ^ 23 == 0x125
    then some (movn (w / 2 ^ 21 % 4) (imm16_of w) (rd_of w))
    else if w / 2 ^ 23 == 0x1E5
    then some (movk (w / 2 ^ 21 % 4) (imm16_of w) (rd_of w))
    else if w / 2 ^ 10 == 0x24D01F
    then some (sxtw (rd_of w) (rn_of w))
    else if w / 2 ^ 21 == 0x458 && w / 2 ^ 10 % 2 ^ 6 == 0
    then some (add_reg (rd_of w) (rn_of w) (rm_of w))
    else if w / 2 ^ 22 == 0x34D
    then some (ubfm (rd_of w) (rn_of w) (w / 2 ^ 16 % 2 ^ 6) (w / 2 ^ 10 % 2 ^ 6))
    else if w / 2 ^ 22 == 0x3E5
    then some (ldr (rd_of w) (rn_of w) (imm12_of w))
    else if w / 2 ^ 22 == 0x3E4
    then some (str (rd_of w) (rn_of w) (imm12_of w))
    else if w / 2 ^ 15 == 0x15280 && not (rd_of w == rt2_of w)
    then some (ldp (rd_of w) (rt2_of w) (rn_of w))
    else if w / 2 ^ 15 == 0x15200
    then some (stp (rd_of w) (rt2_of w) (rn_of w))
    else none

-- The value `v` with its 16-bit piece `hw` replaced.
abbrev pub with_piece : ℕ → ℕ → ℕ → ℕ
with_piece hw imm v =
    v / 2 ^ (16 * hw + 16) * 2 ^ (16 * hw + 16) + imm * 2 ^ (16 * hw) + v % 2 ^ (16 * hw)

-- Bits immr ... imms of `v` moved down to bit 0, or bits 0 ... imms moved up to bit 64 - immr.
abbrev pub bit_field : ℕ → ℕ → ℕ → ℕ
bit_field immr imms v =
    if leb immr imms
    then v / 2 ^ immr % 2 ^ (imms - immr + 1)
    else v % 2 ^ (imms + 1) * 2 ^ (64 - immr)

unfoldable pub exec : Insn → Cpu → Cpu
exec (add_imm rd rn imm) c = write_sp rd (u64 (read_sp c rn + imm)) c
exec (sub_imm rd rn imm) c = write_sp rd (u64 (read_sp c rn + 2 ^ 64 - imm)) c
exec (movz hw imm rd) c = write_x rd (imm * 2 ^ (16 * hw)) c
exec (movn hw imm rd) c = write_x rd (2 ^ 64 - 1 - imm * 2 ^ (16 * hw)) c
exec (movk hw imm rd) c = write_x rd (with_piece hw imm (read_x c rd)) c
exec (sxtw rd rn) c = write_x rd (sx32 (u32 (read_x c rn))) c
exec (add_reg rd rn rm) c = write_x rd (u64 (read_x c rn + read_x c rm)) c
exec (ubfm rd rn immr imms) c = write_x rd (bit_field immr imms (read_x c rn)) c
exec (ldr rt rn imm) c = write_x rt (load64 c.mem (read_sp c rn + imm * 8)) c
exec (str rt rn imm) c = record c { mem = store64 (read_sp c rn + imm * 8) (read_x c rt) c.mem }
exec (ldp rt rt2 rn) c =
    write_x rt2 (load64 c.mem (read_sp c rn + 8)) (write_x rt (load64 c.mem (read_sp c rn)) c)
exec (stp rt rt2 rn) c = record c {
  mem = store64 (read_sp c rn + 8) (read_x c rt2) (store64 (read_sp c rn) (read_x c rt) c.mem);
}

-- A word that the model does not know stops the run.
abbrev pub exec_known : Option Insn → Cpu → Option Cpu
exec_known none c = none
exec_known (some i) c = some (exec i c)

abbrev pub and_then : Option Cpu → (Cpu → Option Cpu) → Option Cpu
and_then none k = none
and_then (some c) k = k c

unfoldable pub step : ℕ → Cpu → Option Cpu
step w = exec_known (insn_of w)

unfoldable pub run_words : List ℕ → Cpu → Option Cpu
run_words [] c = some c
run_words (w ∷ ws) c = and_then (step (u32 w) c) (run_words ws)

-- `n` words of the buffer `code`, from index `i` on.
unfoldable pub run_code : (ℕ → ℕ) → ℕ → ℕ → Cpu → Option Cpu
run_code code i zero c = some c
run_code code i (suc n) c = and_then (step (code i) c) (run_code code (i + 1) n)
