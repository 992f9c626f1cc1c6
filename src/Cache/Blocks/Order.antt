-- ===== src/Cache/Blocks/Order.antt =====
-- cache_block_start of src/cache.c keeps the blocks in the order of their guest addresses.
use byte_shatter.Base.{
  ℕ, zero, suc, ◌+◌, ◌-◌, ◌<◌, ◌≤◌, ◌≡◌, refl, ◌∙◌, some, arith, ltb, leb, if◌then◌else◌, update,
  ok, ◌⊎◌, inl, inr, if_cases, Bool-cases, err, blocks_overflow, ◌==◌,
}
use byte_shatter.Jit.{CacheUnit, Jit}
use byte_shatter.Cache.Blocks.{insert_pos, shift_up, fresh_block, insert_block, cache_block_start}

-- The blocks below `n` are sorted by the guest address that they start at.
pub record IsSorted (blocks : ℕ → CacheUnit) (n : ℕ) : Type 0 where
  pub ordered : (i j : ℕ) → i ≤ j → j < n → (blocks i).gp_lo ≤ (blocks j).gp_lo

-- What the while loop finds: the first index whose block does not start below `gp`.
pub record IsFirst (blocks : ℕ → CacheUnit) (gp n pos : ℕ) : Type 0 where
  pub inside : pos ≤ n
  pub below : (i : ℕ) → i < pos → (blocks i).gp_lo < gp
  pub stops : pos < n → gp ≤ (blocks pos).gp_lo

insert_pos-IsFirst :
    (blocks : ℕ → CacheUnit) (gp n i m : ℕ)
    → i + n ≡ m
    → ((k : ℕ) → k < i → (blocks k).gp_lo < gp)
    → IsFirst blocks gp m (insert_pos blocks gp n i)
unfolding insert_pos
insert_pos-IsFirst blocks gp zero i m e lower = record {
  inside = omega arith;
  below = lower;
  stops = λ h. absurd (omega arith);
}
insert_pos-IsFirst blocks gp (suc n) i m e lower =
    if_cases (IsFirst blocks gp m) (ltb (blocks i).gp_lo gp)
      (λ h.
        insert_pos-IsFirst blocks gp n (i + 1) m (omega arith) (λ k lt. ground (arith, lower k)))
      λ h. record { inside = omega arith; below = lower; stops = λ _. ground arith }

-- The for loop moves the blocks from `pos` on up by one, and leaves the others.
shift_up_lem :
    (blocks : ℕ → CacheUnit) (pos n j : ℕ)
    → shift_up blocks pos n j ≡ (
        if leb (suc pos) j
        then (if leb j (pos + n) then blocks (j - 1) else blocks j)
        else blocks j)
unfolding shift_up
shift_up_lem blocks pos zero j = ground arith
shift_up_lem blocks pos (suc n) j =
    ground (arith, shift_up_lem (update blocks (pos + suc n) (blocks (pos + n))) pos n j)

-- The blocks around an index at which a block was put.
inserted : (blocks : ℕ → CacheUnit) (pos n : ℕ) (block : CacheUnit) → ℕ → CacheUnit
inserted blocks pos n block = update (shift_up blocks pos (n - pos)) pos block

module _ (blocks : ℕ → CacheUnit) (pos n : ℕ) (block : CacheUnit) (inside : pos ≤ n) where
  inserted_lem :
      (i : ℕ)
      → i ≤ n
      → inserted blocks pos n block i
        ≡ (if ltb i pos then blocks i else if pos == i then block else blocks (i - 1))
  unfolding inserted
  inserted_lem i h = ground (arith, shift_up_lem blocks pos (n - pos) i)

  -- With the index that the while loop finds, the order is kept.
  inserted-IsSorted :
      IsSorted blocks n
      → IsFirst blocks block.gp_lo n pos
      → IsSorted (inserted blocks pos n block) (n + 1)
  inserted-IsSorted sorted first = record {
    ordered = λ i j le lt.
        rw (inserted_lem i (omega arith), inserted_lem j (omega arith)) ground
          (
            arith,
            sorted.ordered i j,
            sorted.ordered i (j - 1),
            sorted.ordered (i - 1) (j - 1),
            sorted.ordered pos (j - 1),
            first.below i,
            first.stops,
          );
  }

-- `t` is `s` with a block opened at the context's position. Every block that was there still is, in
-- its place or one further up.
pub record Opened (s t : Jit) (pos : ℕ) : Type 0 where
  pub current : t.context.block ≡ some pos
  pub inside : pos ≤ s.anchor.blocks_p
  pub counted : t.anchor.blocks_p ≡ s.anchor.blocks_p + 1
  pub opened : t.anchor.blocks pos ≡ fresh_block s.context
  pub kept : (i : ℕ) → i < pos → t.anchor.blocks i ≡ s.anchor.blocks i
  pub moved :
      (i : ℕ) → pos ≤ i → i < s.anchor.blocks_p → t.anchor.blocks (i + 1) ≡ s.anchor.blocks i
  pub sorted : IsSorted t.anchor.blocks t.anchor.blocks_p

abbrev pub start_pos : Jit → ℕ
start_pos s = insert_pos s.anchor.blocks s.context.gp s.anchor.blocks_p 0

abbrev pub started : Jit → Jit
started s = record s {
  context = record (s.context) { block = some (start_pos s) };
  anchor = insert_block (start_pos s) (fresh_block s.context) s.anchor;
}

pub started-Opened :
    (s : Jit) → IsSorted s.anchor.blocks s.anchor.blocks_p → Opened s (started s) (start_pos s)
unfolding inserted
started-Opened s sorted = record {
  current = refl;
  inside = first.inside;
  counted = refl;
  opened = at (start_pos s) first.inside ∙ ground arith;
  kept = λ i h. at i (omega (arith, first.inside)) ∙ ground arith;
  moved = λ i h lt. at (i + 1) (omega arith) ∙ ground arith;
  sorted =
      inserted-IsSorted s.anchor.blocks (start_pos s) s.anchor.blocks_p (fresh_block s.context)
        first.inside sorted first;
}
  where
    first : IsFirst s.anchor.blocks s.context.gp s.anchor.blocks_p (start_pos s)
    first =
        insert_pos-IsFirst s.anchor.blocks s.context.gp s.anchor.blocks_p 0 s.anchor.blocks_p
          (omega arith) λ k lt. absurd (omega arith)

    at :
        (i : ℕ)
        → i ≤ s.anchor.blocks_p
        → (started s).anchor.blocks i ≡ (
            if ltb i (start_pos s)
            then s.anchor.blocks i
            else if start_pos s == i
            then fresh_block s.context
            else s.anchor.blocks (i - 1))
    at =
        inserted_lem s.anchor.blocks (start_pos s) s.anchor.blocks_p (fresh_block s.context)
          first.inside

-- Sorted blocks, and room for more than one: cache_block_start opens a block at the context's
-- position, which becomes the current one, keeps every other block, and leaves the blocks sorted.
-- Without the room it ends in an error.
pub cache_block_start-IsSorted :
    (s : Jit)
    → IsSorted s.anchor.blocks s.anchor.blocks_p
    → ((s.anchor.blocks_p + 1 < s.anchor.blocks_c)
        × (t : Jit) × (pos : ℕ) × (cache_block_start s ≡ ok (tt, t))
        × Opened s t pos)
      ⊎ ((s.anchor.blocks_c ≤ s.anchor.blocks_p + 1) × (cache_block_start s ≡ err blocks_overflow))
unfolding cache_block_start
cache_block_start-IsSorted s sorted =
    elim (Bool-cases (leb s.anchor.blocks_c (s.anchor.blocks_p + 1))) [
      | inl full ↦ inr (ground arith, rw full refl)
      | inr room ↦ inl (ground arith, started s, start_pos s, rw room refl, started-Opened s sorted)
    ]
