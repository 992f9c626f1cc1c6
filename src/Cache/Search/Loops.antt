-- ===== src/Cache/Search/Loops.antt =====
-- The two binary searches of src/cache.c, on sorted arrays.
use byte_shatter.Base.{
  Option, none, some, ◌≢◌, ℕ, zero, suc, ◌+◌, ◌-◌, ◌/◌, ◌<◌, ◌≤◌, ◌≡◌, arith, ltb, ◌==◌, if_cases,
}
use byte_shatter.Jit.{CacheUnit, OffsetUnit}
use byte_shatter.Cache.Blocks.Order.{IsSorted}
use byte_shatter.Cache.Search.{offset_loop, Probe, exact, between, block_loop}

-- How the search for `gp` among the first `n` blocks may end: at a block that starts there, or between
-- the blocks that start below and those that start above.
pub data Located (blocks : ℕ → CacheUnit) (gp n : ℕ) : Probe → Type 0 where
  at : {i : ℕ} → i < n → (blocks i).gp_lo ≡ gp → Located blocks gp n (exact i)
  missed :
      {h : ℕ}
      → h ≤ n
      → ((i : ℕ) → i < h → (blocks i).gp_lo < gp)
      → ((i : ℕ) → h ≤ i → i < n → gp < (blocks i).gp_lo)
      → Located blocks gp n (between h)

module _ (blocks : ℕ → CacheUnit) (gp n : ℕ) (sorted : IsSorted blocks n) where
  block_loop-narrows :
      (fuel left hi : ℕ)
      → hi ≤ left + fuel
      → left ≤ hi
      → hi ≤ n
      → ((i : ℕ) → i < left → (blocks i).gp_lo < gp)
      → ((i : ℕ) → hi ≤ i → i < n → gp < (blocks i).gp_lo)
      → Located blocks gp n (block_loop blocks gp fuel left hi)
  unfolding block_loop
  block_loop-narrows zero left hi enough le small below above =
      missed small (λ i h. below i (omega arith)) above
  block_loop-narrows (suc fuel) left hi enough le small below above =
      if_cases (Located blocks gp n) (ltb left hi)
        (λ lt.
          if_cases (Located blocks gp n) (gp == (blocks mid).gp_lo)
            (λ e. at (ground arith) (ground arith))
            λ ne.
              if_cases (Located blocks gp n) (ltb (blocks mid).gp_lo gp)
                (λ h.
                  block_loop-narrows fuel (mid + 1) hi (ground arith) (ground arith) small
                    (λ i k. ground (arith, sorted.ordered i mid)) above)
                λ h.
                  block_loop-narrows fuel left mid (ground arith) (ground arith) (ground arith)
                    below λ i k l. ground (arith, sorted.ordered mid i))
        λ h. missed small (λ i k. below i (ground arith)) above
    where
      mid : ℕ
      mid = (left + (hi - 1)) / 2

  -- The fuel, the number of blocks, is enough.
  pub block_loop-Located : Located blocks gp n (block_loop blocks gp n 0 n)
  block_loop-Located =
      block_loop-narrows n 0 n (omega arith) (omega arith) (omega arith)
        (λ i h. absurd (omega arith)) λ i h k. absurd (omega arith)

-- The points of a block, sorted by guest offset.
pub record ArePoints (offsets : ℕ → OffsetUnit) (n : ℕ) : Type 0 where
  pub ordered : (i j : ℕ) → i ≤ j → j < n → (offsets i).goff ≤ (offsets j).goff

-- How the search for the offset `gp` among the first `n` points may end.
pub data Pointed (offsets : ℕ → OffsetUnit) (gp n : ℕ) : Option ℕ → Type 0 where
  point : {i : ℕ} → i < n → (offsets i).goff ≡ gp → Pointed offsets gp n (some i)
  no_point : ((i : ℕ) → i < n → (offsets i).goff ≢ gp) → Pointed offsets gp n none

module _ (offsets : ℕ → OffsetUnit) (gp n : ℕ) (sorted : ArePoints offsets n) where
  offset_loop-narrows :
      (fuel left hi : ℕ)
      → hi ≤ left + fuel
      → left ≤ hi
      → hi ≤ n
      → ((i : ℕ) → i < left → (offsets i).goff < gp)
      → ((i : ℕ) → hi ≤ i → i < n → gp < (offsets i).goff)
      → Pointed offsets gp n (offset_loop offsets gp fuel left hi)
  unfolding offset_loop
  offset_loop-narrows zero left hi enough le small below above =
      no_point λ i k. ground (arith, below i, above i)
  offset_loop-narrows (suc fuel) left hi enough le small below above =
      if_cases (Pointed offsets gp n) (ltb left hi)
        (λ lt.
          if_cases (Pointed offsets gp n) ((offsets mid).goff == gp)
            (λ e. point (ground arith) (ground arith))
            λ ne.
              if_cases (Pointed offsets gp n) (ltb (offsets mid).goff gp)
                (λ h.
                  offset_loop-narrows fuel (mid + 1) hi (ground arith) (ground arith) small
                    (λ i k. ground (arith, sorted.ordered i mid)) above)
                λ h.
                  offset_loop-narrows fuel left mid (ground arith) (ground arith) (ground arith)
                    below λ i k l. ground (arith, sorted.ordered mid i))
        λ h. no_point λ i k. ground (arith, below i, above i)
    where
      mid : ℕ
      mid = (left + (hi - 1)) / 2

  pub offset_loop-Pointed : Pointed offsets gp n (offset_loop offsets gp n 0 n)
  offset_loop-Pointed =
      offset_loop-narrows n 0 n (omega arith) (omega arith) (omega arith)
        (λ i h. absurd (omega arith)) λ i h k. absurd (omega arith)
