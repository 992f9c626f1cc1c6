-- ===== src/Cache/Jumps/Pool.antt =====
-- The pool of jumps of src/cache.c: a slot is handed out once until it is given back.
use byte_shatter.Base.{ℕ, ◌+◌, ◌-◌, ◌<◌, ◌≤◌, ◌≡◌, ◌≢◌, ◌^◌, refl, sym, arith, ltb, if_cases}
use byte_shatter.Jit.{Anchor}
use byte_shatter.Cache.Jumps.{take_slot}

-- The slots on the stack are slots of the pool, no two the same, and both arrays have room for one more.
pub record IsPool (a : Anchor) : Type 0 where
  pub slots : (i : ℕ) → i < a.jumps_reuse_p → a.jumps_reuse i < a.jumps_p
  pub distinct : (i j : ℕ) → i < j → j < a.jumps_reuse_p → a.jumps_reuse i ≢ a.jumps_reuse j
  pub room : a.jumps_p < a.jumps_c
  pub reuse_room : a.jumps_reuse_p < a.jumps_reuse_c

-- A jump waits in slot `k`.
pub record IsWaiting (a : Anchor) (k : ℕ) : Type 0 where
  pub known : k < a.jumps_p
  pub not_free : (i : ℕ) → i < a.jumps_reuse_p → a.jumps_reuse i ≢ k

-- `b` is `a` with slot `k`, where nothing waited, taken.
pub record Taken (a : Anchor) (k : ℕ) (b : Anchor) : Type 0 where
  pub pool : IsPool b
  pub waits : IsWaiting b k
  pub known : k ≤ a.jumps_p
  pub others : (j : ℕ) → j ≢ k → IsWaiting a j → IsWaiting b j
  pub no_others : (j : ℕ) → j ≢ k → IsWaiting b j → IsWaiting a j
  pub was_free : (j : ℕ) → IsWaiting a j → j ≢ k
  pub same_jumps : b.jumps ≡ a.jumps

module _ (a : Anchor) (pool : IsPool a) where
  -- The slot on top of the stack.
  reused-Taken :
      0 < a.jumps_reuse_p
      → Taken a
          (a.jumps_reuse (a.jumps_reuse_p - 1))
          (record a { jumps_reuse_p = a.jumps_reuse_p - 1 })
  reused-Taken h = record {
    pool = record {
      slots = λ i k. pool.slots i (omega arith);
      distinct = λ i j lt k. pool.distinct i j lt (omega arith);
      room = pool.room;
      reuse_room = omega (arith, pool.reuse_room);
    };
    waits = record {
      known = pool.slots (a.jumps_reuse_p - 1) (omega arith);
      not_free = λ i k. pool.distinct i (a.jumps_reuse_p - 1) k (omega arith);
    };
    known = omega (arith, pool.slots (a.jumps_reuse_p - 1));
    others = λ j n w. record { known = w.known; not_free = λ i k. w.not_free i (omega arith) };
    no_others =
        λ j n w. record { known = w.known; not_free = λ i k. ground (arith, w.not_free i, n) };
    was_free = λ j w e. w.not_free (a.jumps_reuse_p - 1) (omega arith) (sym e);
    same_jumps = refl;
  }

  -- A new slot, with an empty stack.
  fresh-Taken :
      (c : ℕ)
      → a.jumps_reuse_p ≡ 0
      → a.jumps_p + 1 < c
      → Taken a a.jumps_p (record a { jumps_p = a.jumps_p + 1; jumps_c = c })
  fresh-Taken c e h = record {
    pool = record {
      slots = λ i k. absurd (omega arith);
      distinct = λ i j lt k. absurd (omega arith);
      room = h;
      reuse_room = pool.reuse_room;
    };
    waits = record { known = omega arith; not_free = λ i k. absurd (omega arith) };
    known = omega arith;
    others = λ j n w. record { known = omega (arith, w.known); not_free = w.not_free };
    no_others = λ j n w. record { known = omega (arith, w.known, n); not_free = w.not_free };
    was_free = λ j w same. absurd (omega (arith, w.known));
    same_jumps = refl;
  }

  pub take_slot-Taken : a.jumps_p + 1 < 2 ^ 31 → Taken a (take_slot a).0 (take_slot a).1
  unfolding take_slot
  take_slot-Taken small =
      if_cases {A = ℕ × Anchor} (λ r. Taken a r.0 r.1) (ltb 0 a.jumps_reuse_p)
        (λ h. reused-Taken (ground arith))
        λ h. fresh-Taken _ (ground arith) (ground (arith, pool.room))
