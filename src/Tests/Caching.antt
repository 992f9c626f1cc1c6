-- ===== src/Tests/Caching.antt =====
-- The cache and the pool of contexts, run on small tables.
use byte_shatter.Base.{
  ℕ, ◌+◌, ◌*◌, ◌<◌, ◌≤◌, ◌≡◌, ◌⊎◌, List, [], ◌∷◌, ok, err, arith, false, u32, blocks_overflow,
  reuse_overflow, no_free_context,
}
use byte_shatter.Memory.{Context}
use byte_shatter.Jit.{Anchor, Jit}
use byte_shatter.Cache.Blocks.{cache_block_start}
use byte_shatter.Cache.Blocks.Order.{IsSorted, Opened, cache_block_start-IsSorted}
use byte_shatter.Cache.Search.{cache_search}
use byte_shatter.Cache.Search.Loops.{ArePoints}
use byte_shatter.Cache.Search.Answers.{points, Answers, cache_search-Answers}
use byte_shatter.Cache.Jumps.{cache_patch_point, cache_get_patch}
use byte_shatter.Cache.Jumps.Pool.{IsPool, IsWaiting}
use byte_shatter.Cache.Jumps.Numbers.{
  Issued, Freed, jump_of, next_slot, cache_patch_point-Issued, cache_get_patch-Freed,
}
use byte_shatter.Contexts.{context_pull}
use byte_shatter.Contexts.Ownership.{AllBusy, Claimed, IsReady, context_pull-Claimed}
use byte_shatter.Tests.{context, anchor, jit}

-- Three blocks, at guest addresses 0, 16 and 32, with two points each, and three jumps, of which the one
-- in slot 1 is free.
abbrev pub filled : Anchor
filled = record anchor {
  blocks =
      λ i. record { gp_lo = i * 16; hp = i * 32; offsets = 1 + i * 2; offsetssz = 2; end = 32 };
  blocks_p = 3;
  jumps_p = 3;
  jumps_reuse = λ _. 1;
  jumps_reuse_p = 1;
}

abbrev running : Jit
running = record jit { anchor = filled }

pub filled-IsSorted : IsSorted filled.blocks filled.blocks_p
filled-IsSorted = record { ordered = λ i j le lt. omega arith }

filled-ArePoints :
    (i : ℕ)
    → i < filled.blocks_p
    → ArePoints (points filled (filled.blocks i)) (filled.blocks i).offsetssz
filled-ArePoints i lt = record { ordered = λ k l le small. omega arith }

filled-IsPool : IsPool filled
filled-IsPool = record {
  slots = λ i lt. omega arith;
  distinct = λ i j lt small. absurd (omega arith);
  room = omega arith;
  reuse_room = omega arith;
}

filled-IsWaiting : IsWaiting filled 2
filled-IsWaiting = record { known = omega arith; not_free = λ i lt. omega arith }

cache_block_start-IsSorted_example :
    ((running.anchor.blocks_p + 1 < running.anchor.blocks_c)
      × (t : Jit) × (pos : ℕ) × (cache_block_start running ≡ ok (tt, t))
      × Opened running t pos)
    ⊎ ((running.anchor.blocks_c ≤ running.anchor.blocks_p + 1)
        × (cache_block_start running ≡ err blocks_overflow))
cache_block_start-IsSorted_example = cache_block_start-IsSorted running filled-IsSorted

-- 17 is a point of the second block.
cache_search-Answers_example : Answers filled (u32 17) (cache_search filled 17)
cache_search-Answers_example = cache_search-Answers filled 17 filled-IsSorted filled-ArePoints

cache_patch_point-Issued_example :
    (b : Anchor) × (cache_patch_point 28 5 running
      ≡ ok (next_slot running + 1, record running { anchor = b }))
    × Issued filled (next_slot running) (jump_of 28 5 running) b
cache_patch_point-Issued_example = cache_patch_point-Issued 28 5 running filled-IsPool (omega arith)

cache_get_patch-Freed_example :
    ((b : Anchor) × (cache_get_patch (2 + 1) filled ≡ ok (filled.jumps 2, b)) × Freed filled 2 b)
    ⊎ ((filled.jumps_reuse_p + 1 ≡ filled.jumps_reuse_c)
        × (cache_get_patch (2 + 1) filled ≡ err reuse_overflow))
cache_get_patch-Freed_example =
    cache_get_patch-Freed filled 2 filled-IsPool filled-IsWaiting (omega arith)

-- The first of the two contexts is in use.
abbrev two_contexts : List Context
two_contexts = context ∷ record context { in_use = false } ∷ []

context_pull-Claimed_example :
    (AllBusy two_contexts × (context_pull anchor 0x100 two_contexts ≡ err no_free_context))
    ⊎ ((i : ℕ) × (c d : Context) × (after : List Context) × (context_pull anchor 0x100 two_contexts
          ≡ ok (i, c, after))
        × Claimed two_contexts i d c after
        × IsReady anchor 0x100 c)
context_pull-Claimed_example = context_pull-Claimed anchor 0x100 two_contexts
