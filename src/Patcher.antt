-- ===== src/Patcher.antt =====
-- `brk_handler` of src/patcher.c: the BRK of a jump whose target was not translated is replaced by
-- the branch, once the target is.
pub mod Branches
pub mod Sound
pub mod Registers
pub mod Faults
use byte_shatter.Base.{
  List, ℕ, ◌+◌, ◌-◌, ◌*◌, ◌^◌, none, some, ◌==◌, if◌then◌else◌, ◌<<<◌, ◌>>>◌, ◌|||◌, low_bits,
  update, u32, Result, M, ok, err, pure, ◌>>=◌, unknown_patch,
}
use byte_shatter.X86.{Instruction}
use byte_shatter.X86.Instr
use byte_shatter.Cache.Jumps.{cache_get_patch}
use byte_shatter.Cache.Search.{cache_search}
use byte_shatter.Jit.{Anchor}
use byte_shatter.Translate.{Shatter}
use byte_shatter.Debugger.State.{Debugger, word_index, decode, Waited, resumed, Numbers}
use byte_shatter.Debugger.Printing.{Faulting}
use byte_shatter.Debugger.{Line, debug_wait}

abbrev pub cond_word : ℕ → ℕ → ℕ
cond_word base offset = base ||| low_bits offset 19 <<< 5

abbrev pub jump_word : ℕ → ℕ → ℕ
jump_word base offset = base ||| low_bits offset 26

-- The switch on patch.type: the branch over `offset` words.
unfoldable pub patched_word : ℕ → ℕ → Result ℕ
patched_word type offset =
    if type == Instr.jl
    then ok (cond_word 0x5400000B offset)
    else if type == Instr.jle
    then ok (cond_word 0x5400000D offset)
    else if type == Instr.je
    then ok (cond_word 0x54000000 offset)
    else if type == Instr.jae
    then ok (cond_word 0x54000002 offset)
    else if type == Instr.jne
    then ok (cond_word 0x54000001 offset)
    else if type == Instr.jg
    then ok (cond_word 0x5400000C offset)
    else if type == Instr.jge
    then ok (cond_word 0x5400000A offset)
    else if type == Instr.jbe
    then ok (cond_word 0x54000009 offset)
    else if type == Instr.jmp
    then ok (jump_word 0x14000000 offset)
    else if type == Instr.call
    then ok (jump_word 0x94000000 offset)
    else err unknown_patch

-- (instruction >> 5) & 0xFFFF
abbrev pub brk_number : ℕ → ℕ
brk_number word = low_bits (word >>> 5) 16

-- block - pc, an int32_t
abbrev pub word_offset : ℕ → ℕ → ℕ
word_offset block pc = u32 (block + 2 ^ 32 - pc)

unfoldable pub write_branch : ℕ → ℕ → ℕ → M Shatter (Unit {0})
write_branch type block pc s = elim (patched_word type (word_offset block pc)) [
  | err e ↦ err e
  | ok word ↦ ok (tt, record s { jit = record (s.jit) { code = update s.jit.code pc (u32 word) } })
]

abbrev pub with_anchor : Anchor → Shatter → Shatter
with_anchor anchor s = record s { jit = record (s.jit) { anchor = anchor } }

-- A step of the translation's part of the state.
abbrev pub put_shatter : {A : Type 0} → Debugger → Result (A × Shatter) → Result (A × Debugger)
put_shatter d (ok (a, t)) = ok (a, record d { shatter = t })
put_shatter d (err e) = err e

abbrev pub on_shatter : {A : Type 0} → M Shatter A → M Debugger A
on_shatter m d = put_shatter d (m d.shatter)

-- `buffers` are the instructions that decode finds on the stack, and `buffer` what debug_wait finds there.
module _ (mem : ℕ → ℕ) (buffers : ℕ → Instruction) (buffer : Instruction) where
  -- The host word of the target, translated if the cache does not have it.
  unfoldable pub target_block : ℕ → ℕ → M Debugger ℕ
  unfolding decode
  target_block fuel addr d = elim (cache_search d.shatter.jit.anchor addr) [
    | some block ↦ ok (block, d)
    | none ↦ (do decode mem buffers fuel addr >>= λ _. pure d.shatter.jit.anchor.host_p) d
  ]

  unfoldable pub patch_brk : ℕ → ℕ → ℕ → M Debugger (Unit {0})
  unfolding target_block write_branch
  patch_brk fuel pc id d = elim (cache_get_patch id d.shatter.jit.anchor) [
    | err e ↦ err e
    | ok (unit, anchor) ↦
        (do
          block ← target_block fuel (anchor.gp_hi * 2 ^ 32 + unit.guest_off)
          on_shatter (write_branch unit.type block pc))
          (record d { shatter = with_anchor anchor d.shatter })
  ]

  abbrev pub patched : Result (Unit {0} × Debugger) → Result Waited
  patched (ok (_, d)) = ok (resumed d)
  patched (err e) = err e

  -- `sc` is the context of the BRK. Number 0 is a break point of the debugger.
  unfoldable pub brk_handler :
      Numbers → Faulting → List Line → List ℕ → ℕ → Debugger → Result Waited
  unfolding patch_brk debug_wait
  brk_handler n f lines word fuel d =
      let pc = word_index d d.sc.pc in
      let id = brk_number (d.shatter.jit.code pc) in
      let waited = debug_wait mem buffer n f lines word d in
      let jumped = patched (patch_brk fuel pc id d) in if id == 0 then waited else jumped
