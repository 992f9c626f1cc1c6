-- ===== src/Debugger/Printing.antt =====
-- The print command of src/debugger.c: which memory, register or state is shown. What `sprintf` makes of
-- it, and the numbers of `print usage`, are left out.
use byte_shatter.Base.{
  ℕ, zero, suc, ◌+◌, ◌-◌, ◌^◌, ◌==◌, ◌||◌, ◌≡◌, refl, Bool, true, false, if◌then◌else◌, List, [],
  ◌∷◌, ◌++◌, length, map, u64, Result, ok, err, out_of_bounds, killed,
}
use byte_shatter.X86.{Instruction}
use byte_shatter.Memory.{load64}
use byte_shatter.Memory.Strings.{same}
use byte_shatter.Memory.{Context}
use byte_shatter.Cache.Print.{Line, cache_print}
use byte_shatter.Patcher.Registers.{SigContext, flags_of, get_reg}
use byte_shatter.Printer.{codes}
use byte_shatter.Printer.X86.Tables.{regs64}
use byte_shatter.Debugger.State.{Debugger, memory_check_mode, memory_fail, skip_load, Numbers}

-- What is printed: the word at an address, that there is no access to one, a register, or a state.
pub data Shown : Type 0 where
  word : List ℕ → ℕ → Shown
  no_access : Shown
  register : List ℕ → ℕ → Shown
  flags : List Bool → Shown
  cache : List Line → Shown
  cpu native_cpu usage : Shown

-- The names of the registers.
abbrev pub names64 : List (List ℕ)
names64 = map codes regs64

-- The characters ( [ ] + and -
abbrev pub round : ℕ
round = 40

abbrev pub square : ℕ
square = 91

abbrev close : ℕ
close = 93

abbrev plus : ℕ
plus = 43

abbrev minus : ℕ
minus = 45

-- What stands in brackets: a register, a sign, and what is behind it.
pub record Place : Type 0 where
  pub name : List ℕ
  pub sign : ℕ
  pub rest : List ℕ

abbrev pub with_char : ℕ → Result Place → Result Place
with_char c (ok p) = ok (record p { name = c ∷ p.name })
with_char c (err e) = err e

-- The loop over the register: `n` of the three characters of `reg` are free. The program does not stop
-- there, and writes past the array.
unfoldable pub read_place : ℕ → List ℕ → Result Place
read_place n [] = err out_of_bounds
read_place zero (c ∷ cs) =
    if c == minus || c == plus || c == close
    then ok (record { name = []; sign = c; rest = cs })
    else err out_of_bounds
read_place (suc n) (c ∷ cs) =
    let rest = read_place n cs in
    if c == minus || c == plus || c == close
    then ok (record { name = []; sign = c; rest = cs })
    else with_char c rest

-- base += imm, and base -= imm
abbrev pub displaced : ℕ → ℕ → ℕ → ℕ
displaced sign base imm =
    if sign == plus
    then u64 (base + imm)
    else if sign == minus
    then u64 (base + (2 ^ 64 - imm))
    else base

-- What a load by the debugger finds: which addresses are mapped, whether the handler that waits has blocked
-- SIGSEGV and SIGBUS (segv_handler does), the context of a load that faults, and what the array of
-- handle_print holds behind a name of fewer than three characters.
pub record Faulting : Type 0 where
  pub readable : ℕ → Bool
  pub blocked : Bool
  pub nested : SigContext
  pub stale : ℕ → List ℕ

-- The state after the load. Its fault calls segv_handler, which takes the branch of the memory check, unless
-- the signal is blocked: then the process is killed.
abbrev pub after_load : Faulting → ℕ → Debugger → Result Debugger
after_load f ptr s =
    if f.readable ptr
    then ok s
    else if f.blocked
    then err killed
    else ok (skip_load (record s { sc = f.nested }))

abbrev pub negated : Result Debugger → Result (Bool × Debugger)
negated (ok s) = (let (failed, t) = memory_fail s in ok (if failed then false else true, t))
negated (err e) = err e

unfoldable pub has_access : Faulting → ℕ → Debugger → Result (Bool × Debugger)
unfolding memory_check_mode memory_fail
has_access f ptr s = negated (after_load f ptr (memory_check_mode s))

abbrev pub shown_lines : Debugger → Result (List Line × List Context) → Result (Shown × Debugger)
shown_lines s (ok (lines, pool)) =
    ok (cache lines, record s { shatter = record (s.shatter) { pool = pool } })
shown_lines s (err e) = err e

module _ (mem : ℕ → ℕ) (buffer : Instruction) where
  abbrev pub shown_word : List ℕ → ℕ → Result (Bool × Debugger) → Result (Shown × Debugger)
  shown_word arg ptr (ok (true, s)) = ok (word arg (load64 mem ptr), s)
  shown_word arg ptr (ok (false, s)) = ok (no_access, s)
  shown_word arg ptr (err e) = err e

  abbrev pub show_place :
      Numbers → Faulting → List ℕ → Debugger → Result Place → Result (Shown × Debugger)
  show_place n f arg s (ok p) =
      let imm = if p.sign == close then 0 else n.strtol_16 p.rest in
      let ptr = displaced p.sign (get_reg names64 (p.name ++ f.stale (length p.name)) s.sc) imm in
      shown_word arg ptr (has_access f ptr s)
  show_place n f arg s (err e) = err e

  unfoldable pub print_state : List ℕ → Debugger → Result (Shown × Debugger)
  unfolding get_reg flags_of cache_print
  print_state arg s =
      let lines =
        cache_print mem buffer s.shatter.jit.anchor s.shatter.jit.code s.sc.pc s.current_block
          s.shatter.pool in
      if same arg (codes "x64regs")
      then ok (cpu, s)
      else if same arg (codes "regs")
      then ok (native_cpu, s)
      else if same arg (codes "cache")
      then shown_lines s lines
      else if same arg (codes "flags")
      then ok (flags (flags_of s.sc.pstate), s)
      else if same arg (codes "usage")
      then ok (usage, s)
      else ok (register arg (get_reg names64 arg s.sc), s)

  unfoldable pub handle_print : Numbers → Faulting → List ℕ → Debugger → Result (Shown × Debugger)
  unfolding has_access read_place print_state get_reg
  handle_print n f [] s = print_state [] s
  handle_print n f (c ∷ cs) s =
      let ptr = n.strtol_16 cs in
      let at_ptr = shown_word (c ∷ cs) ptr (has_access f ptr s) in
      let at_place = show_place n f (c ∷ cs) s (read_place 3 cs) in
      let state = print_state (c ∷ cs) s in
      if c == round then at_ptr else if c == square then at_place else state

-- has_access of an address that can be read returns 1, and ends the memory check.
pub has_access-readable :
    (f : Faulting) (ptr : ℕ) (s : Debugger)
    → f.readable ptr ≡ true
    → has_access f ptr s ≡ ok (true, record s { memory_check = false })
unfolding has_access memory_check_mode memory_fail
has_access-readable f ptr s h = rw h refl
