-- ===== src/Debugger/Waiting.antt =====
-- debug_wait (src/debugger.c) over any commands.
use byte_shatter.Base.{ℕ, Result, ok, err, Error}
use byte_shatter.Jit.{Anchor}
use byte_shatter.Patcher.Registers.{SigContext}
use byte_shatter.Debugger.State.{Debugger, Waited, resumed, exited}
use byte_shatter.Debugger.Planted.{IsPlanted}

module _ (orig : ℕ → ℕ) (anchor : Anchor) (ctx : SigContext) where
  -- If the process goes on, the code is kept.
  pub data Kept : Result Waited → Type 0 where
    resumes : {s : Debugger} → IsPlanted orig anchor ctx s → Kept (ok (resumed s))
    leaves : Kept (ok exited)
    fails : {e : Error} → Kept (err e)
