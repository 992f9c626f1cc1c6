-- ===== src/Memory/Reads.antt =====
-- What the fetches of src/memory.h read, at an offset from where the decoder stands.
use byte_shatter.Base.{ℕ, ◌+◌, ◌/◌, ◌%◌, ◌^◌, ◌<◌, ◌≡◌, List, [], ◌∷◌, arith, ok, IsU8, IsU32}
use byte_shatter.Memory.{Context, fetch8, fetch32}

-- The context `n` bytes further on, when the 32-bit pointer does not wrap.
abbrev pub at : ℕ → Context → Context
at n c = record c { gp = c.gp + n }

-- The bytes `bs` stand in memory from offset `n` of `p` on.
abbrev pub Holds : (ℕ → ℕ) → ℕ → ℕ → List ℕ → Type 0
Holds mem p n [] = Unit
Holds mem p n (b ∷ bs) = (mem (p + n) ≡ b) × IsU8 b × Holds mem p (n + 1) bs

module _ (mem : ℕ → ℕ) (c : Context) where
  pub fetch8-at :
      (n m b : ℕ)
      → n + 1 ≡ m
      → c.gp + m < 2 ^ 32
      → mem (c.guest + c.gp + n) ≡ b
      → IsU8 b
      → fetch8 mem (at n c) ≡ ok (b, at m c)
  unfolding fetch8
  fetch8-at n m b e small holds fits = ground arith

  pub fetch32-at :
      (n m d : ℕ)
      → n + 4 ≡ m
      → c.gp + m < 2 ^ 32
      → IsU32 d
      → mem (c.guest + c.gp + n) ≡ d % 256
      → mem (c.guest + c.gp + (n + 1)) ≡ d / 2 ^ 8 % 256
      → mem (c.guest + c.gp + (n + 2)) ≡ d / 2 ^ 16 % 256
      → mem (c.guest + c.gp + (n + 3)) ≡ d / 2 ^ 24
      → fetch32 mem (at n c) ≡ ok (d, at m c)
  unfolding fetch32
  fetch32-at n m d e small fits h0 h1 h2 h3 = ground arith
