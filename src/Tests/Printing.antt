-- ===== src/Tests/Printing.antt =====
-- The print command of the debugger, and cache_print, run on small inputs.
use byte_shatter.Base.{
  ◌+◌, ◌^◌, ◌≡◌, refl, true, false, [], get_or, ok, err, killed, arith, List, ◌∷◌,
}
use byte_shatter.Memory.{load64}
use byte_shatter.Patcher.Registers.{get_reg, find_reg}
use byte_shatter.Debugger.State.{memory_check_mode, memory_fail}
use byte_shatter.Printer.{codes}
use byte_shatter.Debugger.Printing.{
  names64, Faulting, has_access, handle_print, word, register, read_place, print_state,
}
use byte_shatter.Debugger.Registers.{home_value, get_reg-home_value}
use byte_shatter.Encoder.Emit.{x64_regs}
use byte_shatter.Memory.{Context}
use byte_shatter.Tests.{buffer, context}
use byte_shatter.Tests.Running.{guest_code}
use byte_shatter.Tests.Debugging.{numbers, stopped, mapped}

get_reg-home_value_example :
    get_reg names64 (get_or names64 9 []) stopped.sc ≡ home_value stopped.sc 9
get_reg-home_value_example = get_reg-home_value 9 stopped.sc (omega arith)

bracket_printed :
    handle_print guest_code buffer numbers mapped (codes "[rsp+40]") stopped
    ≡ ok (
      word (codes "[rsp+40]") (load64 guest_code (stopped.sc.sp + 64)),
      record stopped { memory_check = false },
    )
unfolding handle_print has_access memory_check_mode memory_fail get_reg find_reg read_place
bracket_printed = refl

-- Nothing can be read: the context is that of the load, behind it.
abbrev unmapped : Faulting
unmapped = record mapped { readable = λ _. false }

context_replaced :
    has_access unmapped 64 stopped
    ≡ ok (
      false,
      record stopped { sc = record (mapped.nested) { pc = 2 ^ 16 + 4 }; memory_check = false },
    )
unfolding has_access memory_check_mode memory_fail
context_replaced = refl

process_killed : has_access (record unmapped { blocked = true }) 64 stopped ≡ err killed
unfolding has_access memory_check_mode memory_fail
process_killed = refl

short_name :
    handle_print guest_code buffer numbers mapped (codes "r9") stopped
    ≡ ok (register (codes "r9") (stopped.sc.regs (x64_regs 9)), stopped)
unfolding handle_print print_state get_reg find_reg
short_name = refl

-- One context is free.
abbrev one_free : List Context
one_free = record context { in_use = false } ∷ []
