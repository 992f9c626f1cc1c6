-- ===== src/X86/OpType.antt =====
-- `enum OpType` of src/decoder.h: flags that describe an operand, joined by `|`.
use Prim.Native.Nat.{ℕ}

abbrev pub none : ℕ
none = 0

abbrev pub reg : ℕ
reg = 1

abbrev pub mem : ℕ
mem = 2

abbrev pub idx : ℕ
idx = 4

abbrev pub imm : ℕ
imm = 8

abbrev pub xmm : ℕ
xmm = 16
