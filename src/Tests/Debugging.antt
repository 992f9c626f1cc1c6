-- ===== src/Tests/Debugging.antt =====
-- The command line, the debugger, the printers, and the handler of a BRK, run on small inputs.
use byte_shatter.Base.{
  ◌+◌, ◌^◌, ◌≡◌, refl, true, false, List, [], ◌∷◌, ◌++◌, length, some, update, arith, Post, ℕ,
}
use byte_shatter.Log.{Log}
use byte_shatter.Main.{Flags, program, read_argv}
use byte_shatter.Main.Options.{Choice, level, warnings, all_written, all_chosen, read_argv-chosen}
use byte_shatter.Debugger.State.{Debugger, Numbers, brk_0, uint32_max, uint64_max}
use byte_shatter.Debugger.Printing.{Faulting}
use byte_shatter.Patcher.{brk_handler}
use byte_shatter.Patcher.Sound.{Patched, brk_handler-IsCache}
use byte_shatter.Printer.{codes}
use byte_shatter.Printer.X86.Readable.{ArePrinted, decode_instr-ArePrinted}
use byte_shatter.Memory.{Context}
use byte_shatter.Decoder.Opcode.{Decoded, decode_instr}
use byte_shatter.Tests.{context}
use byte_shatter.Printer.Arm.{comp}
use byte_shatter.Printer.Arm.Matches.{matches, comp-eq-matches}
use byte_shatter.Tests.{buffer, shatter}
use byte_shatter.Tests.Caching.{filled}
use byte_shatter.Tests.Running.{guest_code, waiting, filled-IsCache}

abbrev quiet : Log
quiet = record { log_level = 0; lines = [] }

abbrev flags : Flags
flags = record { debug = false; log = quiet }

-- -lW -d, and then ls
abbrev choices : List Choice
choices = level warnings [] ∷ Choice.debug [] ∷ []

read_argv-chosen_example :
    read_argv ((115 ∷ []) ∷ all_written choices ++ (108 ∷ 115 ∷ []) ∷ []) flags
    ≡ program (1 + length choices) (all_chosen choices flags)
read_argv-chosen_example =
    read_argv-chosen choices (115 ∷ []) (108 ∷ 115 ∷ []) [] flags (λ e. omega arith)

-- A break point is set at word 40.
abbrev pub stopped : Debugger
stopped = record {
  enabled = true;
  prev_instr = 7;
  prev_instrp = some 40;
  current_block = 0;
  break_block = uint32_max;
  break_pc = uint64_max;
  base = 2 ^ 32;
  shatter = record shatter {
    jit = record (shatter.jit) { anchor = filled; code = update (λ _. 7) 40 brk_0 };
  };
  log = quiet;
  sc = record { regs = λ _. 0; sp = 2 ^ 30; pc = filled.host + 160; pstate = 0 };
  memory_check = false;
}

-- All memory can be read.
abbrev pub mapped : Faulting
mapped = record {
  readable = λ _. true;
  blocked = false;
  nested = record { regs = λ _. 0; sp = 2 ^ 20; pc = 2 ^ 16; pstate = 0 };
  stale = λ _. [];
}

abbrev pub numbers : Numbers
numbers = record { strtol_10 = λ s. 1; strtol_16 = λ s. 64 }

-- A BRK of the jump in slot 2.
abbrev at_brk : Debugger
at_brk = record stopped { shatter = waiting }

brk_handler-IsCache_example :
    Post Patched (brk_handler guest_code (λ _. buffer) buffer numbers mapped [] [] 8 at_brk)
brk_handler-IsCache_example =
    brk_handler-IsCache guest_code (λ _. buffer) buffer numbers mapped [] [] 8 at_brk (omega arith)
      filled-IsCache

-- The pattern of EOR; a word that has it, and one that does not (RET).
abbrev eor_pattern : List ℕ
eor_pattern = codes "-1-01010------------------------"

comp-eq-matches_example : comp eor_pattern 0x4A020020 ≡ matches eor_pattern 0x4A020020
comp-eq-matches_example = comp-eq-matches eor_pattern 0x4A020020 refl

eor_matches : matches eor_pattern 0x4A020020 ≡ true
eor_matches = refl

ret_differs : matches eor_pattern 0xD65F03C0 ≡ false
ret_differs = refl

decode_instr-ArePrinted_example :
    Post {A = Decoded × Context} (λ r. ArePrinted r.0.0) (decode_instr guest_code buffer context)
decode_instr-ArePrinted_example = decode_instr-ArePrinted guest_code buffer context
