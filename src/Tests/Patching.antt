-- ===== src/Tests/Patching.antt =====
-- The patcher, run on jumps.
use byte_shatter.Base.{ℕ, ◌^◌, ◌-◌, ◌≡◌, ok, some, arith}
use byte_shatter.X86.Instr
use byte_shatter.Patcher.{write_branch}
use byte_shatter.Patcher.Branches.{
  less, jcc_type, taken, written, InReach, write_branch-conditional, write_branch-unconditional,
}
use byte_shatter.Arm.Branch.{branch_of, conditional, always, linked, holds, subs_flags}
use byte_shatter.Tests.{shatter}

backwards : InReach 18 24 40
backwards = record {
  index = omega arith;
  from = omega arith;
  ahead = omega arith;
  behind = omega arith;
}

backwards_far : InReach 25 24 40
backwards_far = record {
  index = omega arith;
  from = omega arith;
  ahead = omega arith;
  behind = omega arith;
}

write_branch-conditional_example :
    (w cond : ℕ) × (write_branch (jcc_type less) 24 40 shatter ≡ ok (tt, written 40 w shatter))
    × (branch_of 40 w ≡ some (conditional cond 24))
    × (holds cond (subs_flags (2 ^ 31) (2 ^ 32 - 5) 7) ≡ taken less (2 ^ 31) (2 ^ 32 - 5) 7)
write_branch-conditional_example =
    write_branch-conditional less 24 40 shatter (2 ^ 31) (2 ^ 32 - 5) 7 backwards (omega arith)
      (omega arith) (omega arith)

write_branch-unconditional_example :
    ((w : ℕ) × (write_branch Instr.jmp 24 40 shatter ≡ ok (tt, written 40 w shatter))
      × (branch_of 40 w ≡ some (always 24)))
    × ((w : ℕ) × (write_branch Instr.call 24 40 shatter ≡ ok (tt, written 40 w shatter))
        × (branch_of 40 w ≡ some (linked 24)))
write_branch-unconditional_example = write_branch-unconditional 24 40 shatter backwards_far
