-- ===== src/Debugger/State.antt =====
-- The state of the running program with its debugger: the static variables of src/debugger.c and
-- src/patcher.c, break points, which replace a word by a BRK, and decode of src/decoder.c, which ends with a
-- look for one. UINT32_MAX and UINT64_MAX are written out.
use byte_shatter.Base.{
  ℕ, ◌+◌, ◌-◌, ◌/◌, ◌^◌, Bool, true, false, if◌then◌else◌, List, Option, none, some, update, u64,
  Result, M, ok, err,
}
use byte_shatter.X86.{Instruction}
use byte_shatter.Jit.{CacheUnit}
use byte_shatter.Cache.Search.{cache_search, cache_get_block}
use byte_shatter.Translate.{Shatter, decode_block}
use byte_shatter.Patcher.Registers.{SigContext}
use byte_shatter.Log.{Log}

abbrev pub uint32_max : ℕ
uint32_max = 2 ^ 32 - 1

abbrev pub uint64_max : ℕ
uint64_max = 2 ^ 64 - 1

-- The static variables of src/debugger.c and of src/patcher.c, beside the translation and the log.
pub record Debugger : Type 0 where
  pub enabled : Bool
  pub prev_instr : ℕ
  pub prev_instrp : Option ℕ
  pub current_block : ℕ
  pub break_block : ℕ
  pub break_pc : ℕ
  pub base : ℕ
  pub shatter : Shatter
  pub log : Log
  pub sc : SigContext
  pub memory_check : Bool

unfoldable pub debug_enable : ℕ → Debugger → Debugger
debug_enable base s = record s { enabled = true; break_block = 0; base = base }

-- The words of memory, counted from the start of the host's code, modulo 2^64 bytes.
abbrev pub word_index : Debugger → ℕ → ℕ
word_index s address = u64 (address + 2 ^ 64 - s.shatter.jit.anchor.host) / 4

-- *p = v, of a word.
abbrev pub set_word : ℕ → ℕ → Shatter → Shatter
set_word p v s = record s { jit = record (s.jit) { code = update s.jit.code p v } }

abbrev pub brk_0 : ℕ
brk_0 = 0xD4200000

unfoldable pub set_bp : ℕ → Debugger → Debugger
set_bp instr s = record s {
  prev_instr = s.shatter.jit.code instr;
  prev_instrp = some instr;
  shatter = set_word instr brk_0 s.shatter;
  break_block = uint32_max;
  break_pc = uint64_max;
}

abbrev pub set_bp_if : Option ℕ → Debugger → Debugger
set_bp_if none s = s
set_bp_if (some instr) s = set_bp instr s

-- anchor->host + cache->hp
abbrev pub block_word : Option CacheUnit → Option ℕ
block_word none = none
block_word (some unit) = some unit.hp

unfoldable pub debug_check_break : Debugger → Debugger
unfolding set_bp
debug_check_break s =
    let anchor = s.shatter.jit.anchor in
    let t = set_bp_if (block_word (cache_get_block anchor s.break_block)) s in
    set_bp_if (cache_search anchor t.break_pc) t

unfoldable pub memory_check_mode : Debugger → Debugger
memory_check_mode s = record s { memory_check = true }

-- Whether the access since memory_check_mode has faulted, with the new state.
unfoldable pub memory_fail : Debugger → Bool × Debugger
memory_fail s = if s.memory_check then (false, record s { memory_check = false }) else (true, s)

-- What segv_handler does under the memory check: the load is skipped.
abbrev pub skip_load : Debugger → Debugger
skip_load s = record s { sc = record (s.sc) { pc = u64 (s.sc.pc + 4) }; memory_check = false }

-- How debug_wait and the handlers of signals end.
pub data Waited : Type 0 where
  resumed : Debugger → Waited
  exited : Waited

-- What strtol gives, in base 10 and 16.
pub record Numbers : Type 0 where
  pub strtol_10 : List ℕ → ℕ
  pub strtol_16 : List ℕ → ℕ

abbrev pub check_if_enabled : Debugger → Debugger
check_if_enabled s = if s.enabled then debug_check_break s else s

-- After a translation, the debugger looks for its break point.
abbrev pub then_check : Debugger → Result (Unit {0} × Shatter) → Result (Unit {0} × Debugger)
then_check s (ok (_, t)) = ok (tt, check_if_enabled (record s { shatter = t }))
then_check s (err e) = err e

unfoldable pub decode : (ℕ → ℕ) → (ℕ → Instruction) → ℕ → ℕ → M Debugger (Unit {0})
unfolding debug_check_break
decode mem buffers fuel gp s = then_check s (decode_block mem buffers fuel gp s.shatter)
