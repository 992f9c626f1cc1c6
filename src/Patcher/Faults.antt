-- ===== src/Patcher/Faults.antt =====
-- The handlers of SIGSEGV, SIGBUS, SIGILL and SIGINT in src/patcher.c. `sc` of the state is the context of
-- the fault.
use byte_shatter.Base.{
  ℕ, ◌+◌, ◌*◌, ◌%◌, ◌==◌, ◌||◌, Bool, not, if◌then◌else◌, List, Option, none, some, u64, Result, ok,
  err, segfault,
}
use byte_shatter.X86.{Instruction}
use byte_shatter.Cache.Search.{cache_search}
use byte_shatter.Debugger.State.{Debugger, skip_load, decode, Waited, resumed, exited, Numbers}
use byte_shatter.Debugger.Printing.{Faulting}
use byte_shatter.Debugger.{Line, debug_wait}

-- (uint64_t)(anchor->host + i)
abbrev pub host_address : Debugger → ℕ → ℕ
host_address d i = u64 (d.shatter.jit.anchor.host + 4 * i)

-- The words from `target` on run next.
abbrev pub jump_to : ℕ → Result (Unit {0} × Debugger) → Result Waited
jump_to target (ok (_, d)) = ok (resumed (record d { sc = record (d.sc) { pc = target } }))
jump_to target (err e) = err e

-- Behind debug_wait come print_cpu and a panic.
abbrev pub then_panic : Result Waited → Result Waited
then_panic (ok (resumed d)) = err segfault
then_panic (ok exited) = ok exited
then_panic (err e) = err e

module _ (mem : ℕ → ℕ) (buffers : ℕ → Instruction) (buffer : Instruction) where
  -- A jump to guest code: its translation is looked up, or made.
  abbrev pub jump_known : ℕ → Debugger → Option ℕ → Result Waited
  jump_known fuel d (some i) = jump_to (host_address d i) (ok (tt, d))
  jump_known fuel d none =
      jump_to (host_address d d.shatter.jit.anchor.host_p) (decode mem buffers fuel d.sc.pc d)

  unfoldable pub guest_jump : ℕ → Debugger → Result Waited
  unfolding decode
  guest_jump fuel d = jump_known fuel d (cache_search d.shatter.jit.anchor d.sc.pc)

  -- `accerr` is info->si_code == SEGV_ACCERR.
  unfoldable pub segv_handler :
      Numbers → Faulting → List Line → List ℕ → ℕ → Bool → Debugger → Result Waited
  unfolding guest_jump debug_wait
  segv_handler n f lines word fuel accerr d =
      let jumped = guest_jump fuel d in
      let asked = then_panic (debug_wait mem buffer n f lines word d) in
      if d.memory_check
      then ok (resumed (skip_load d))
      else if accerr || not (d.sc.pc % 4 == 0)
      then jumped
      else if d.enabled
      then asked
      else err segfault

  unfoldable pub segi_handler : Numbers → Faulting → List Line → List ℕ → Debugger → Result Waited
  unfolding debug_wait
  segi_handler n f lines word d =
      let asked = debug_wait mem buffer n f lines word d in if d.enabled then asked else ok exited
