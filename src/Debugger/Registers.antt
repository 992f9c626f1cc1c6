-- ===== src/Debugger/Registers.antt =====
-- The registers that get_reg (src/patcher.c) finds by the names of src/printer_x86.c.
use byte_shatter.Base.{ℕ, zero, suc, ◌<◌, ◌≡◌, refl, ◌==◌, if◌then◌else◌, [], length, get_or, arith}
use byte_shatter.Encoder.Emit.{x64_regs}
use byte_shatter.Patcher.Registers.{SigContext, get_reg, find_reg}
use byte_shatter.Debugger.Printing.{names64}

-- A property of the first `n` numbers.
abbrev AtAll : (ℕ → Type 0) → ℕ → Type 0
AtAll P zero = Unit {0}
AtAll P (suc n) = P 0 × AtAll (λ k. P (suc k)) n

AtAll-at : (P : ℕ → Type 0) (n : ℕ) → AtAll P n → (i : ℕ) → i < n → P i
AtAll-at P zero all i h = elim h [ ]
AtAll-at P (suc n) all zero h = all.0
AtAll-at P (suc n) all (suc i) h = AtAll-at (λ k. P (suc k)) n all.1 i (omega arith)

-- Where a register of the guest is in the signal context.
abbrev pub home_value : SigContext → ℕ → ℕ
home_value sc i = if i == 4 then sc.sp else sc.regs (x64_regs i)

-- For each of the sixteen registers: get_reg of its name, as the printer writes it, is the stack pointer for
-- rsp, and for another the host register in which the translation keeps it.
pub get_reg-home_value :
    (i : ℕ) (sc : SigContext)
    → i < length names64
    → get_reg names64 (get_or names64 i []) sc ≡ home_value sc i
unfolding get_reg find_reg
get_reg-home_value i sc h =
    AtAll-at (λ k. get_reg names64 (get_or names64 k []) sc ≡ home_value sc k) 16
      (
        refl,
        (
          refl,
          (
            refl,
            (
              refl,
              (
                refl,
                (
                  refl,
                  (
                    refl,
                    (refl, (refl, (refl, (refl, (refl, (refl, (refl, (refl, (refl, tt))))))))),
                  ),
                ),
              ),
            ),
          ),
        ),
      )
      i h
