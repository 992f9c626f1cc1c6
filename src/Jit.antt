-- ===== src/Jit.antt =====
-- The state of a translation: the context and the anchor that every function reaches through
-- pointers, the words of the host buffer, and the static variables of src/encoder.c.
--
-- A pointer into the host buffer is an index into its words; `host` in the context and the anchor
-- is the address of word 0. The arrays of the anchor are functions from indices, with the count
-- and the capacity that src/cache.h keeps beside each.
use byte_shatter.Base.{ℕ, ◌+◌, ◌-◌, ◌^◌, Option, Result, M, ok, err, modify, u32, update}
use byte_shatter.Memory.{Context}

pub record OffsetUnit : Type 0 where
  pub hoff : ℕ
  pub goff : ℕ

pub record PatchUnit : Type 0 where
  pub guest_off : ℕ
  pub type : ℕ

pub record CacheUnit : Type 0 where
  pub gp_lo : ℕ
  pub hp : ℕ
  pub offsets : ℕ
  pub offsetssz : ℕ
  pub end : ℕ

pub record Anchor : Type 0 where
  pub gp_hi : ℕ
  pub offsets : ℕ → OffsetUnit
  pub offsets_p : ℕ
  pub offsets_c : ℕ
  pub blocks : ℕ → CacheUnit
  pub blocks_p : ℕ
  pub blocks_c : ℕ
  pub host : ℕ
  pub host_p : ℕ
  pub host_c : ℕ
  pub jumps : ℕ → PatchUnit
  pub jumps_p : ℕ
  pub jumps_c : ℕ
  pub jumps_reuse : ℕ → ℕ
  pub jumps_reuse_p : ℕ
  pub jumps_reuse_c : ℕ

pub record Jit : Type 0 where
  pub context : Context
  pub anchor : Anchor
  pub code : ℕ → ℕ
  pub prev_instruction : ℕ
  pub prev_register : ℕ
  pub prev_mov_rax_instr : Option ℕ
  pub prev_rax : ℕ

-- A function on the context alone, such as the decoder, run on the whole state.
abbrev pub with_context : {A : Type 0} → Jit → Result (A × Context) → Result (A × Jit)
with_context s (ok (a, c)) = ok (a, record s { context = c })
with_context s (err e) = err e

abbrev pub on_context : {A : Type 0} → M Context A → M Jit A
on_context m s = with_context s (m s.context)

abbrev pub set_context : Context → M Jit (Unit {0})
set_context c = modify (λ s. record s { context = c })

abbrev pub set_anchor : Anchor → M Jit (Unit {0})
set_anchor a = modify (λ s. record s { anchor = a })

-- The argument is converted to uint32_t.
unfoldable pub emit32 : ℕ → M Jit (Unit {0})
emit32 word s = ok (
  tt,
  record s {
    context = record (s.context) { hp = u32 (s.context.hp + 1) };
    code = update s.code s.context.hp (u32 word);
  },
)

-- Takes the last `n` words back.
unfoldable pub patch : ℕ → M Jit (Unit {0})
patch n s =
    ok (tt, record s { context = record (s.context) { hp = u32 (s.context.hp + 2 ^ 32 - n) } })
