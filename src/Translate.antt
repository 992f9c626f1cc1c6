-- ===== src/Translate.antt =====
-- `decode` of src/decoder.c without the debugger: one run of translated code, from a guest address to the first
-- instruction that ends a block, or to code that is in the cache already.
pub mod Sound
pub mod Joining
use byte_shatter.Base.{
  ℕ, zero, suc, ◌+◌, ◌-◌, ◌^◌, Bool, true, false, List, none, some, if◌then◌else◌, ◌|||◌, low_bits,
  u64, Result, M, ok, err, pure, ◌>>=◌, ◌>>◌, out_of_fuel,
}
use byte_shatter.X86.{Instruction}
use byte_shatter.Memory.{Context}
use byte_shatter.Jit.{Jit, on_context, emit32}
use byte_shatter.Contexts.{context_pull, context_free, put_context}
use byte_shatter.Decoder.Opcode.{decode_instr}
use byte_shatter.Encoder.Encode.{encode}
use byte_shatter.Cache.Blocks.{cache_block_start, cache_block_point, cache_block_end}
use byte_shatter.Cache.Search.{cache_search}

-- The pool, and the state of the translation that runs.
pub record Shatter : Type 0 where
  pub pool : List Context
  pub jit : Jit

-- A branch to the word at index `target`, put at index `hp`.
abbrev pub branch_word : ℕ → ℕ → ℕ
branch_word target hp = 0x14000000 ||| low_bits (target + 2 ^ 32 - hp) 26

-- (uint64_t)context->guest + context->gp
abbrev pub guest_address : Jit → ℕ
guest_address s = u64 (s.context.guest + s.context.gp)

-- After an instruction: does the cache know the next one? If so, jump there.
unfoldable pub join_cached : M Jit Bool
join_cached s = elim (cache_search s.anchor (guest_address s)) [
  | none ↦ ok (false, s)
  | some target ↦ (do cache_block_point; emit32 (branch_word target s.context.hp); pure true) s
]

-- `if (jump) break;` and the next round.
abbrev pub after_round : M Jit (Unit {0}) → Result (Bool × Jit) → Result (Unit {0} × Jit)
after_round rest (err e) = err e
after_round rest (ok (true, t)) = ok (tt, t)
after_round rest (ok (false, t)) = rest t

-- `buffers` are the contents that the uninitialised `Instruction buf` has in each round.
module _ (mem : ℕ → ℕ) (buffers : ℕ → Instruction) where
  -- The body of the loop; the result tells whether the loop ends.
  unfoldable pub decode_round : Instruction → M Jit Bool
  unfolding join_cached
  decode_round buf = do
    cache_block_point
    decoded ← on_context (decode_instr mem buf)
    let (read, jump) = decoded
    encode read
    if jump then pure true else join_cached

  unfoldable pub decode_loop : ℕ → M Jit (Unit {0})
  decode_loop zero s = err out_of_fuel
  decode_loop (suc fuel) s = after_round (decode_loop fuel) (decode_round (buffers fuel) s)

  unfoldable pub translate : ℕ → M Jit (Unit {0})
  translate fuel = do cache_block_start; decode_loop fuel; cache_block_end

  -- decode, up to the debugger.
  unfoldable pub decode_block : ℕ → ℕ → M Shatter (Unit {0})
  decode_block fuel gp s = elim (context_pull s.jit.anchor gp s.pool) [
    | err e ↦ err e
    | ok (i, c, pool) ↦ elim (translate fuel (record (s.jit) { context = c })) [
      | err e ↦ err e
      | ok (_, t) ↦
          ok (tt, record { pool = context_free i (put_context i t.context pool); jit = t })
    ]
  ]
