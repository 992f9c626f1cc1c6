-- ===== src/Cache/Search/Answers.antt =====
-- What `cache_search` of src/cache.c answers, on sorted blocks.
use byte_shatter.Base.{
  ℕ, zero, suc, ◌+◌, ◌-◌, ◌^◌, ◌<◌, ◌≤◌, ◌≡◌, ◌≢◌, subst, Option, none, some, arith, ◌==◌, if_cases,
  u32,
}
use byte_shatter.Jit.{OffsetUnit, CacheUnit, Anchor}
use byte_shatter.Cache.Blocks.Order.{IsSorted}
use byte_shatter.Cache.Search.{
  block_loop, exact, between, Probe, block_cache_search, search_inside, cache_search, unless_zero,
}
use byte_shatter.Cache.Search.Loops.{
  Located, at, missed, block_loop-Located, ArePoints, Pointed, point, no_point, offset_loop-Pointed,
}

-- The points of a block, and the host word of one of them.
abbrev pub points : Anchor → CacheUnit → ℕ → OffsetUnit
points a block i = a.offsets (block.offsets + i)

abbrev pub point_word : Anchor → CacheUnit → ℕ → ℕ
point_word a block i = u32 (block.hp + (points a block i).hoff)

-- The guest offset of `gp` in a block, a uint32_t.
abbrev pub offset_in : CacheUnit → ℕ → ℕ
offset_in block gp = u32 (gp + 2 ^ 32 - block.gp_lo)

-- Block `i` is the last one that starts below `gp`.
pub record IsLastBelow (a : Anchor) (gp i : ℕ) : Type 0 where
  pub known : i < a.blocks_p
  pub below : (a.blocks i).gp_lo < gp
  pub rest_above : (j : ℕ) → i < j → j < a.blocks_p → gp < (a.blocks j).gp_lo

-- No point of the block has the guest offset of `gp`, or the block counts as open, or the point is the
-- first word of the host buffer, which stands for "none".
pub data IsSilent (a : Anchor) (gp : ℕ) (block : CacheUnit) : Type 0 where
  first_slot : block.offsets ≡ 0 → IsSilent a gp block
  no_such_point :
      ((i : ℕ) → i < block.offsetssz → (points a block i).goff ≢ offset_in block gp)
      → IsSilent a gp block
  zero_word :
      {i : ℕ}
      → i < block.offsetssz
      → (points a block i).goff ≡ offset_in block gp
      → point_word a block i ≡ 0
      → IsSilent a gp block

-- What the search may answer for the low half `gp` of an address.
pub data Answers (a : Anchor) (gp : ℕ) : Option ℕ → Type 0 where
  -- the first word of a block that starts there
  start : {i : ℕ} → i < a.blocks_p → (a.blocks i).gp_lo ≡ gp → Answers a gp (some (a.blocks i).hp)
  -- the word of the point there, in the last block that starts below
  inside :
      {i k : ℕ}
      → IsLastBelow a gp i
      → (a.blocks i).offsets ≢ 0
      → k < (a.blocks i).offsetssz
      → (points a (a.blocks i) k).goff ≡ offset_in (a.blocks i) gp
      → Answers a gp (some (point_word a (a.blocks i) k))
  -- nothing, when no block starts there and the last block below has no point there
  unknown :
      ((i : ℕ) → i < a.blocks_p → (a.blocks i).gp_lo ≢ gp)
      → ((i : ℕ) → IsLastBelow a gp i → IsSilent a gp (a.blocks i))
      → Answers a gp none

module _ (a : Anchor) (gp : ℕ)
    (none_starts : (i : ℕ) → i < a.blocks_p → (a.blocks i).gp_lo ≢ gp) where
  IsLastBelow-unique : {i j : ℕ} → IsLastBelow a gp i → IsLastBelow a gp j → i ≡ j
  IsLastBelow-unique {i = i} {j = j} p q = ground (arith, p.rest_above j, q.rest_above i)

  -- A silent block is the reason for the answer "none".
  silent : {i : ℕ} → IsLastBelow a gp i → IsSilent a gp (a.blocks i) → Answers a gp none
  silent last h =
      unknown none_starts
        λ j other. subst (λ k. IsSilent a gp (a.blocks k)) (IsLastBelow-unique last other) h

  pointed :
      (i : ℕ) (found : Option ℕ)
      → IsLastBelow a gp i
      → (a.blocks i).offsets ≢ 0
      → Pointed (points a (a.blocks i)) (offset_in (a.blocks i) gp) (a.blocks i).offsetssz found
      → Answers a gp
          (unless_zero (elim found [ some mid ↦ point_word a (a.blocks i) mid | none ↦ 0 ]))
  pointed i none last closed (no_point h) = silent last (no_such_point h)
  pointed i (some k) last closed (point small e) =
      if_cases (Answers a gp) (point_word a (a.blocks i) k == 0)
        (λ h. silent last (zero_word small e (ground arith))) λ h. inside last closed small e

  search_inside-Answers :
      (h : ℕ)
      → ((i : ℕ) → i < a.blocks_p → ArePoints (points a (a.blocks i)) (a.blocks i).offsetssz)
      → h ≤ a.blocks_p
      → ((i : ℕ) → i < h → (a.blocks i).gp_lo < gp)
      → ((i : ℕ) → h ≤ i → i < a.blocks_p → gp < (a.blocks i).gp_lo)
      → Answers a gp (search_inside a gp h)
  unfolding search_inside block_cache_search
  search_inside-Answers zero sorted small below above =
      unknown none_starts
        λ i last. absurd (omega (arith, last.known, last.below, above i (omega arith) last.known))
  search_inside-Answers (suc right) sorted small below above =
      if_cases (Answers a gp) ((a.blocks right).offsets == 0)
        (λ h. silent last (first_slot (ground arith)))
        λ h. pointed right _ last (ground arith) (
          offset_loop-Pointed (points a (a.blocks right)) (offset_in (a.blocks right) gp)
            (a.blocks right).offsetssz (sorted right small))
    where
      last : IsLastBelow a gp right
      last = record {
        known = small;
        below = below right (omega arith);
        rest_above = λ j h k. above j h k;
      }

-- On sorted blocks whose points are sorted, cache_search finds the block that starts at the address, or
-- else the point there in the last block that starts below, and answers NULL only if there is neither,
-- or that block's points begin at the first slot of the array, or the word found is word 0.
pub cache_search-Answers :
    (a : Anchor) (gp : ℕ)
    → IsSorted a.blocks a.blocks_p
    → ((i : ℕ) → i < a.blocks_p → ArePoints (points a (a.blocks i)) (a.blocks i).offsetssz)
    → Answers a (u32 gp) (cache_search a gp)
unfolding cache_search
cache_search-Answers a gp sorted ordered =
    if_cases (Answers a (u32 gp)) (a.blocks_p == 0)
      (λ h. unknown (λ i k. absurd (ground arith)) λ i last. absurd (ground (arith, last.known)))
      λ h.
        probed (block_loop a.blocks (u32 gp) a.blocks_p 0 a.blocks_p)
          (block_loop-Located a.blocks (u32 gp) a.blocks_p sorted)
  where
    probed :
        (p : Probe)
        → Located a.blocks (u32 gp) a.blocks_p p
        → Answers a
            (u32 gp)
            (elim p [ exact i ↦ some (a.blocks i).hp | between hi ↦ search_inside a (u32 gp) hi ])
    probed (exact i) (at small e) = start small e
    probed (between h) (missed small below above) =
        search_inside-Answers a (u32 gp) (λ i k. ground (arith, below i, above i)) h ordered small
          below above
