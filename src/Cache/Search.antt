-- ===== src/Cache/Search.antt =====
-- The lookups of src/cache.c. Each `while (left <= right)` keeps an inclusive `right` that can be
-- -1; here `hi` is `right + 1`. The fuel is the width of the range, which each round narrows.
pub mod Loops
pub mod Answers
use byte_shatter.Base.{
  ℕ, zero, suc, ◌+◌, ◌-◌, ◌/◌, ◌^◌, ◌&&◌, Option, none, some, ltb, leb, ◌==◌, if◌then◌else◌, u32,
  u64,
}
use byte_shatter.Jit.{OffsetUnit, CacheUnit, Anchor}

-- The loop of block_cache_search: the index whose `goff` is `gp`.
unfoldable pub offset_loop : (ℕ → OffsetUnit) → ℕ → ℕ → ℕ → ℕ → Option ℕ
offset_loop offsets gp zero left hi = none
offset_loop offsets gp (suc fuel) left hi =
    let mid = (left + (hi - 1)) / 2 in
    let right_half = offset_loop offsets gp fuel (mid + 1) hi in
    let left_half = offset_loop offsets gp fuel left mid in
    if ltb left hi
    then (if (offsets mid).goff == gp
        then some mid
        else if ltb (offsets mid).goff gp
        then right_half
        else left_half)
    else none

-- cache->hp + offsets[mid].hoff, or 0
unfoldable pub block_cache_search : Anchor → ℕ → CacheUnit → ℕ
block_cache_search a gp cache =
    elim (offset_loop (λ i. a.offsets (cache.offsets + i)) (u32 (gp + 2 ^ 32 - cache.gp_lo))
      cache.offsetssz 0 cache.offsetssz) [
        | some mid ↦ u32 (cache.hp + (a.offsets (cache.offsets + mid)).hoff)
        | none ↦ 0
      ]

-- How the loop of cache_search ends: at a block that starts at `gp`, or with `right + 1`.
pub data Probe : Type 0 where
  exact between : ℕ → Probe

unfoldable pub block_loop : (ℕ → CacheUnit) → ℕ → ℕ → ℕ → ℕ → Probe
block_loop blocks gp zero left hi = between hi
block_loop blocks gp (suc fuel) left hi =
    let mid = (left + (hi - 1)) / 2 in
    let right_half = block_loop blocks gp fuel (mid + 1) hi in
    let left_half = block_loop blocks gp fuel left mid in
    if ltb left hi
    then (if gp == (blocks mid).gp_lo
        then exact mid
        else if ltb (blocks mid).gp_lo gp
        then right_half
        else left_half)
    else between hi

-- A pointer into the host buffer is its index, and NULL is `none`.
abbrev pub unless_zero : ℕ → Option ℕ
unless_zero loff = if loff == 0 then none else some loff

unfoldable pub search_inside : Anchor → ℕ → ℕ → Option ℕ
search_inside a gp zero = none
search_inside a gp (suc right) =
    if (a.blocks right).offsets == 0
    then none
    else unless_zero (block_cache_search a gp (a.blocks right))

unfoldable pub cache_search : Anchor → ℕ → Option ℕ
unfolding search_inside
cache_search a gp =
    if a.blocks_p == 0 then none else elim (block_loop a.blocks (u32 gp) a.blocks_p 0 a.blocks_p) [
      | exact i ↦ some (a.blocks i).hp
      | between hi ↦ search_inside a (u32 gp) hi
    ]

-- The loop of cache_search_block, with `n` rounds left at index `i`; UINT32_MAX is `none`.
unfoldable pub covering_block : (ℕ → CacheUnit) → ℕ → ℕ → ℕ → Option ℕ
covering_block blocks hp zero i = none
covering_block blocks hp (suc n) i =
    let rest = covering_block blocks hp n (i + 1) in
    if leb (blocks i).hp hp && ltb hp (u32 ((blocks i).hp + (blocks i).end)) then some i else rest

unfoldable pub cache_search_block : Anchor → ℕ → Option ℕ
cache_search_block a hp = covering_block a.blocks (u64 (hp + 2 ^ 64 - a.host) / 4) a.blocks_p 0

unfoldable pub cache_get_block : Anchor → ℕ → Option CacheUnit
cache_get_block a block_id = if leb a.blocks_p block_id then none else some (a.blocks block_id)
