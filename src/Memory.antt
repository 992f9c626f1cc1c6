-- ===== src/Memory.antt =====
-- src/memory.h: the context of a translation, and the reads of guest code through it.
--
-- A pointer is an address, and `block`, which points into the cache's array of blocks, is an index
-- into it. Guest memory is a function from addresses to bytes; the decoder only reads it.

pub mod Reads
pub mod Stores
pub mod Strings
use byte_shatter.Base.{ℕ, ◌+◌, ◌*◌, ◌^◌, Bool, Option, u8, u32, M, ok}

pub record Context : Type 0 where
  pub block : Option ℕ
  pub offsets : ℕ
  pub guest : ℕ
  pub host : ℕ
  pub gp : ℕ
  pub hp : ℕ
  pub loffp : ℕ
  pub in_use : Bool

-- context->gp += n
abbrev pub advance : ℕ → Context → Context
advance n c = record c { gp = u32 (c.gp + n) }

module _ (mem : ℕ → ℕ) where
  -- Loads of the host: bytes, in little-endian order.
  abbrev pub load8 : ℕ → ℕ
  load8 p = u8 (mem p)

  abbrev pub load16 : ℕ → ℕ
  load16 p = load8 p + load8 (p + 1) * 2 ^ 8

  abbrev pub load32 : ℕ → ℕ
  load32 p = load16 p + load16 (p + 2) * 2 ^ 16

  abbrev pub load64 : ℕ → ℕ
  load64 p = load32 p + load32 (p + 4) * 2 ^ 32

  unfoldable pub fetch8 : M Context ℕ
  fetch8 c = ok (load8 (c.guest + c.gp), advance 1 c)

  unfoldable pub fetch16 : M Context ℕ
  fetch16 c = ok (load16 (c.guest + c.gp), advance 2 c)

  unfoldable pub fetch32 : M Context ℕ
  fetch32 c = ok (load32 (c.guest + c.gp), advance 4 c)

  unfoldable pub fetch64 : M Context ℕ
  fetch64 c = ok (load64 (c.guest + c.gp), advance 8 c)
