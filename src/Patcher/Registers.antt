-- ===== src/Patcher/Registers.antt =====
-- The signal context that src/patcher.c keeps in `sc`, and get_reg. What print_cpu prints is left out.
use byte_shatter.Base.{ℕ, ◌+◌, Bool, if◌then◌else◌, List, [], ◌∷◌, bit}
use byte_shatter.Memory.Strings.{same}
use byte_shatter.Encoder.Emit.{x64_regs}

-- sigcontext
pub record SigContext : Type 0 where
  pub regs : ℕ → ℕ
  pub sp : ℕ
  pub pc : ℕ
  pub pstate : ℕ

-- N, Z, C and V
unfoldable pub flags_of : ℕ → List Bool
flags_of pstate = bit pstate 31 ∷ bit pstate 30 ∷ bit pstate 29 ∷ bit pstate 28 ∷ []

-- The loop of get_reg over regs64, with the names from number `i` on.
unfoldable pub find_reg : List ℕ → List (List ℕ) → ℕ → SigContext → ℕ
find_reg name [] i sc = 0
find_reg name (reg ∷ rest) i sc =
    let later = find_reg name rest (i + 1) sc in
    if same name reg then sc.regs (x64_regs i) else later

-- "rsp"
abbrev pub rsp_name : List ℕ
rsp_name = 114 ∷ 115 ∷ 112 ∷ []

unfoldable pub get_reg : List (List ℕ) → List ℕ → SigContext → ℕ
unfolding find_reg
get_reg regs64 name sc = if same name rsp_name then sc.sp else find_reg name regs64 0 sc
