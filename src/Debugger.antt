-- ===== src/Debugger.antt =====
-- debug_wait of src/debugger.c, and its commands. The lines that the user types are a list, split in words.
pub mod State
pub mod Planted
pub mod Prints
pub mod Waiting
pub mod Printing
pub mod Registers
use byte_shatter.Base.{
  ℕ, zero, suc, ◌+◌, ◌-◌, ◌*◌, ◌/◌, ◌^◌, ◌==◌, Bool, true, false, if◌then◌else◌, List, [], ◌∷◌,
  Option, none, some, get_or, u32, u64, Result, ok, err, null_pointer, out_of_fuel,
}
use byte_shatter.X86.{Instruction}
use byte_shatter.Memory.Strings.{same}
use byte_shatter.Memory.{Context}
use byte_shatter.Jit.{CacheUnit}
use byte_shatter.Contexts.{context_pull, context_free, put_context}
use byte_shatter.Cache.Search.{cache_search_block, cache_get_block}
use byte_shatter.Decoder.Opcode.{decode_instr, Decoded}
use byte_shatter.Log.{Outcome, goes_on, exits, set_log_level}
use byte_shatter.Debugger.State.{
  uint32_max, Debugger, word_index, set_word, set_bp, debug_check_break, Waited, resumed, exited,
  Numbers,
}
use byte_shatter.Debugger.Printing.{Faulting, Shown, handle_print}

-- The words of a line, as sscanf splits it.
pub data Line : Type 0 where
  blank : Line
  one : List ℕ → Line
  two : List ℕ → List ℕ → Line

-- The commands, as characters.
abbrev pub brb_command : List ℕ
brb_command = 98 ∷ 114 ∷ 98 ∷ []

abbrev pub brk_command : List ℕ
brk_command = 98 ∷ 114 ∷ 107 ∷ []

abbrev pub log_command : List ℕ
log_command = 108 ∷ 111 ∷ 103 ∷ []

abbrev pub si_command : List ℕ
si_command = 115 ∷ 105 ∷ []

abbrev pub sb_command : List ℕ
sb_command = 115 ∷ 98 ∷ []

abbrev pub run_command : List ℕ
run_command = 114 ∷ 117 ∷ 110 ∷ []

abbrev pub exit_command : List ℕ
exit_command = 101 ∷ 120 ∷ 105 ∷ 116 ∷ []

-- "print"
abbrev pub print_command : List ℕ
print_command = 112 ∷ 114 ∷ 105 ∷ 110 ∷ 116 ∷ []

-- What is printed is left out.
abbrev pub after_print : Result (Shown × Debugger) → Result (Option Debugger)
after_print (ok (_, s)) = ok (some s)
after_print (err e) = err e

abbrev pub relogged : Debugger → Outcome → Option Debugger
relogged s (goes_on log) = some (record s { log = log })
relogged s (exits log) = none

abbrev pub show_freed : ℕ → List Context → Debugger → Result (Decoded × Context) → Result Debugger
show_freed i pool s (ok (_, c)) =
    ok (record s { shatter = record (s.shatter) { pool = context_free i (put_context i c pool) } })
show_freed i pool s (err e) = err e

abbrev pub then_debug : (Debugger → Result Debugger) → Result Debugger → Result Debugger
then_debug k (ok s) = k s
then_debug k (err e) = err e

-- set_bp((uint32_t* )(get_pc() + 4))
abbrev pub stepped : Debugger → Result Debugger
stepped s = ok (set_bp (word_index s (u64 (s.sc.pc + 4))) s)

abbrev pub resume : Result Debugger → Result Waited
resume (ok s) = ok (resumed (debug_check_break s))
resume (err e) = err e

abbrev pub go_on : (Debugger → Result Waited) → Result (Option Debugger) → Result Waited
go_on rest (ok none) = ok exited
go_on rest (ok (some s)) = rest s
go_on rest (err e) = err e

-- The word at the break point comes back.
abbrev pub restored : Option ℕ → Debugger → Debugger
restored none s = s
restored (some p) s = record s { shatter = set_word p s.prev_instr s.shatter; prev_instrp = none }

abbrev pub block_number : Option ℕ → ℕ
block_number none = uint32_max
block_number (some i) = i

module _ (mem : ℕ → ℕ) (buffer : Instruction) where
  abbrev pub show_pulled : Debugger → Result (ℕ × Context × List Context) → Result Debugger
  show_pulled s (ok (i, c, pool)) = show_freed i pool s (decode_instr mem buffer c)
  show_pulled s (err e) = err e

  -- The guest instruction is decoded for the log, in a context that goes back to the pool.
  unfoldable pub show_instr : ℕ → Debugger → Result Debugger
  show_instr gp s = show_pulled s (context_pull s.shatter.jit.anchor gp s.shatter.pool)

  -- The loop of `si` over the points of the block, with `n` left from number `x` on.
  unfoldable pub show_points : CacheUnit → ℕ → ℕ → Debugger → Result Debugger
  unfolding show_instr
  show_points unit zero x s = ok s
  show_points unit (suc n) x s =
      let anchor = s.shatter.jit.anchor in
      let point = anchor.offsets (unit.offsets + x) in
      let shown = show_instr (u64 (anchor.gp_hi * 2 ^ 32 + u32 (unit.gp_lo + point.goff))) s in
      then_debug (show_points unit n (x + 1))
        (if word_index s s.sc.pc == u32 (unit.hp + point.hoff) then shown else ok s)

  -- `si` follows the block without a test.
  abbrev pub step_in : Debugger → Option CacheUnit → Result Debugger
  step_in s none = err null_pointer
  step_in s (some unit) = then_debug stepped (show_points unit unit.offsetssz 0 s)

  unfoldable pub step_instr : Debugger → Result Debugger
  unfolding show_points set_bp
  step_instr s = step_in s (cache_get_block s.shatter.jit.anchor s.current_block)

  -- A line of one word, or of none: `word` keeps the word of the line before. `rest` reads the next line.
  unfoldable pub command_one : List ℕ → (Debugger → Result Waited) → Debugger → Result Waited
  unfolding step_instr debug_check_break
  command_one word rest s =
      if same word si_command
      then resume (step_instr s)
      else if same word sb_command
      then resume (ok (record s { break_block = u32 (s.current_block + 1) }))
      else if same word run_command
      then resume (ok s)
      else if same word exit_command
      then ok exited
      else rest s

  -- A command with an argument: the state to go on with, or none if the process exits. What is no command
  -- prints the help.
  unfoldable pub command_two :
      Numbers → Faulting → (word arg : List ℕ) → Debugger → Result (Option Debugger)
  unfolding set_log_level handle_print
  command_two n f word arg s =
      let print = after_print (handle_print mem buffer n f arg s) in
      if same word brb_command
      then ok (some (record s { break_block = u32 (n.strtol_10 arg) }))
      else if same word brk_command
      then ok (some (record s { break_pc = u64 (s.base + n.strtol_16 arg) }))
      else if same word print_command
      then print
      else if same word log_command
      then ok (relogged s (set_log_level (get_or arg 0 0) s.log))
      else ok (some s)

  -- The loop; at the end of the input fgets leaves the last line, and the loop goes on for ever.
  unfoldable pub read_commands : Numbers → Faulting → List Line → List ℕ → Debugger → Result Waited
  unfolding command_two command_one
  read_commands n f [] word s = err out_of_fuel
  read_commands n f (blank ∷ lines) word s = command_one word (read_commands n f lines word) s
  read_commands n f (one w ∷ lines) word s = command_one w (read_commands n f lines w) s
  read_commands n f (two w arg ∷ lines) word s =
      go_on (read_commands n f lines w) (command_two n f w arg s)

  -- `word` is what the stack holds where the word of a line goes.
  unfoldable pub debug_wait : Numbers → Faulting → List Line → List ℕ → Debugger → Result Waited
  unfolding read_commands
  debug_wait n f lines word s =
      let t = restored s.prev_instrp s in
      let u : Debugger = record t {
        current_block = block_number (cache_search_block t.shatter.jit.anchor t.sc.pc);
      } in
      if s.enabled then read_commands n f lines word u else ok (resumed s)
