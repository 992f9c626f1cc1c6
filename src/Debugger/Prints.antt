-- ===== src/Debugger/Prints.antt =====
-- handle_print (src/debugger.c) of memory that can be read: it changes the memory check and the pool.
use byte_shatter.Base.{
  ℕ, ◌≡◌, sym, subst, Bool, true, List, [], ◌∷◌, ◌==◌, Result, ok, err, Post, returns, raises,
  if_cases,
}
use byte_shatter.X86.{Instruction}
use byte_shatter.Memory.{Context}
use byte_shatter.Memory.Strings.{same}
use byte_shatter.Jit.{Anchor}
use byte_shatter.Cache.Print.{Line}
use byte_shatter.Patcher.Registers.{SigContext}
use byte_shatter.Printer.{codes}
use byte_shatter.Debugger.State.{Debugger, Numbers}
use byte_shatter.Debugger.Planted.{IsClear}
use byte_shatter.Debugger.Printing.{
  Faulting, Shown, Place, has_access, has_access-readable, shown_word, shown_lines, show_place,
  print_state, read_place, handle_print, round, square,
}

module _ (orig : ℕ → ℕ) (anchor : Anchor) (ctx : SigContext) (mem : ℕ → ℕ)
    (buffer : Instruction) where
  -- If it returns, no break point is set.
  abbrev Clears : Result (Shown × Debugger) → Type 0
  Clears r = Post (λ (x : Shown × Debugger). IsClear orig anchor ctx x.1) r

  shown_lines-Clears :
      (s : Debugger) (r : Result (List Line × List Context))
      → IsClear orig anchor ctx s
      → Clears (shown_lines s r)
  shown_lines-Clears s (ok (lines, pool)) h =
      returns record { clear = h.clear; code = h.code; cache = h.cache; program = h.program }
  shown_lines-Clears s (err e) h = raises

  print_state-Clears :
      (arg : List ℕ) (s : Debugger)
      → IsClear orig anchor ctx s
      → Clears (print_state mem buffer arg s)
  unfolding print_state
  print_state-Clears arg s h =
      if_cases Clears (same arg (codes "x64regs")) (λ _. returns h)
        λ _.
          if_cases Clears (same arg (codes "regs")) (λ _. returns h)
            λ _.
              if_cases Clears (same arg (codes "cache")) (λ _. shown_lines-Clears s _ h)
                λ _.
                  if_cases Clears (same arg (codes "flags")) (λ _. returns h)
                    λ _. if_cases Clears (same arg (codes "usage")) (λ _. returns h) λ _. returns h

  module _ (f : Faulting) (readable : (p : ℕ) → f.readable p ≡ true) where
    shown_word-Clears :
        (arg : List ℕ) (ptr : ℕ) (s : Debugger)
        → IsClear orig anchor ctx s
        → Clears (shown_word mem buffer arg ptr (has_access f ptr s))
    shown_word-Clears arg ptr s h =
        subst (λ (r : Result (Bool × Debugger)). Clears (shown_word mem buffer arg ptr r))
          (sym (has_access-readable f ptr s (readable ptr)))
          (returns record { clear = h.clear; code = h.code; cache = h.cache; program = h.program })

    show_place-Clears :
        (n : Numbers) (arg : List ℕ) (s : Debugger) (r : Result Place)
        → IsClear orig anchor ctx s
        → Clears (show_place mem buffer n f arg s r)
    show_place-Clears n arg s (ok p) h = shown_word-Clears arg _ s h
    show_place-Clears n arg s (err e) h = raises

    pub handle_print-Clears :
        (n : Numbers) (arg : List ℕ) (s : Debugger)
        → IsClear orig anchor ctx s
        → Clears (handle_print mem buffer n f arg s)
    unfolding handle_print
    handle_print-Clears n [] s h = print_state-Clears [] s h
    handle_print-Clears n (c ∷ cs) s h =
        if_cases Clears (c == round) (λ _. shown_word-Clears (c ∷ cs) (n.strtol_16 cs) s h)
          λ _.
            if_cases Clears (c == square) (λ _. show_place-Clears n (c ∷ cs) s (read_place 3 cs) h)
              λ _. print_state-Clears (c ∷ cs) s h
