-- ===== src/Encoder/Flow.antt =====
-- Jumps, calls, RET and SYSCALL of `encode` in src/encoder.c, and the table of src/overrides.c.
use byte_shatter.Base.{
  ℕ, if◌then◌else◌, ◌<<<◌, ◌|||◌, List, [], ◌∷◌, none, some, get_elem?, update, u32, M, ok, err,
  ◌>>=◌, ◌>>◌, null_pointer, out_of_bounds,
}
use byte_shatter.X86.Reg
use byte_shatter.X86.{Instruction}
use byte_shatter.Jit.{Jit, emit32}
use byte_shatter.Cache.Jumps.{cache_patch_point}
use byte_shatter.Encoder.Op
use byte_shatter.Encoder.Emit.{x64_regs, sc1r, emit_brk}
use byte_shatter.Encoder.Address.{emit_address_decode}
use byte_shatter.Encoder.Byte.{is_reg, is_imm}

-- A jump whose target is not translated yet: BRK with the number of the patch.
unfoldable pub encode_jcc : Instruction → M Jit (Unit {0})
encode_jcc buf = do id ← cache_patch_point buf.type buf.a.imm; emit_brk id

unfoldable pub emit_branch : ℕ → ℕ → Instruction → M Jit (Unit {0})
emit_branch code type buf =
    if is_reg buf.a.type
    then emit32 (code ||| x64_regs buf.a.reg <<< 5)
    else if is_imm buf.a.type
    then (do id ← cache_patch_point type buf.a.imm; emit32 (0xD4200000 ||| id <<< 5))
    else do
      emit_address_decode buf.a sc1r 0
      emit32 (Op.ldr64_reg ||| sc1r <<< 5 ||| sc1r)
      emit32 (code ||| sc1r <<< 5)

-- The entries that the initialiser leaves out are 0.
abbrev pub syscall_override : List ℕ
syscall_override = 63 ∷ 64 ∷ 0 ∷ 0 ∷ 0 ∷ 0 ∷ 0 ∷ 0 ∷ 0 ∷ 222 ∷ 0 ∷ 215 ∷ []

-- The MOV into RAX is rewritten to load the number that the host's kernel takes. The pointer to it
-- may be null, and the table may be read past its end.
unfoldable pub rewrite_mov_rax : M Jit (Unit {0})
rewrite_mov_rax s = elim s.prev_mov_rax_instr [
  | none ↦ err null_pointer
  | some at ↦ elim (get_elem? syscall_override s.prev_rax) [
    | none ↦ err out_of_bounds
    | some num ↦ ok (
      tt,
      record s { code = update s.code at (u32 (Op.movz_imm ||| num <<< 5 ||| x64_regs Reg.rax)) },
    )
  ]
]

unfoldable pub encode_syscall : M Jit (Unit {0})
unfolding rewrite_mov_rax
encode_syscall = do rewrite_mov_rax; emit32 0xd4000001
