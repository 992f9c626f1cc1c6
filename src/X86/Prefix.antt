-- ===== src/X86/Prefix.antt =====
-- `enum Prefixes` of src/decoder.h.
use Prim.Native.Nat.{ℕ}

abbrev pub fs : ℕ
fs = 0x64

abbrev pub gs : ℕ
gs = 0x65

abbrev pub os : ℕ
os = 0x66

abbrev pub repn : ℕ
repn = 0xF2

abbrev pub repe : ℕ
repe = 0xF3
