-- ===== src/Cache/Jumps/Numbers.antt =====
-- The numbers that `cache_patch_point` of src/cache.c hands out, and `cache_get_patch` takes back.
use byte_shatter.Base.{
  ℕ, ◌+◌, ◌-◌, ◌^◌, ◌<◌, ◌≡◌, ◌≢◌, ◌∙◌, refl, sym, ap, arith, ◌==◌, update, update_self, update_ne,
  u8, u32, ok, err, reuse_overflow, ◌⊎◌, inl, inr, Bool-cases,
}
use byte_shatter.Jit.{PatchUnit, Anchor, Jit}
use byte_shatter.Cache.Jumps.{take_slot, cache_patch_point, cache_get_patch}
use byte_shatter.Cache.Jumps.Pool.{IsPool, IsWaiting, Taken, take_slot-Taken}

-- The jump that waits: where it goes, and its kind.
abbrev pub jump_of : ℕ → ℕ → Jit → PatchUnit
jump_of type offset s = record { guest_off = u32 (s.context.gp + offset); type = u8 type }

-- `b` is `a` with `jump` put in slot `k`, where nothing waited. Whatever waited still does.
pub record Issued (a : Anchor) (k : ℕ) (jump : PatchUnit) (b : Anchor) : Type 0 where
  pub pool : IsPool b
  pub waits : IsWaiting b k
  pub stored : b.jumps k ≡ jump
  pub was_free : (j : ℕ) → IsWaiting a j → j ≢ k
  pub others : (j : ℕ) → IsWaiting a j → IsWaiting b j × (b.jumps j ≡ a.jumps j)
  pub no_others : (j : ℕ) → j ≢ k → IsWaiting b j → IsWaiting a j

-- `b` is `a` with slot `k` given back. Whatever else waited still does.
pub record Freed (a : Anchor) (k : ℕ) (b : Anchor) : Type 0 where
  pub pool : IsPool b
  pub gone : (j : ℕ) → IsWaiting b j → j ≢ k
  pub others : (j : ℕ) → j ≢ k → IsWaiting a j → IsWaiting b j × (b.jumps j ≡ a.jumps j)
  pub no_others : (j : ℕ) → IsWaiting b j → IsWaiting a j

-- The slot of the next jump, and the anchor behind it.
abbrev pub next_slot : Jit → ℕ
next_slot s = (take_slot s.anchor).0

abbrev with_jump : ℕ → PatchUnit → Anchor → Anchor
with_jump k jump a = record a { jumps = update a.jumps k jump }

Taken-Issued :
    (a b : Anchor) (k : ℕ) (jump : PatchUnit) → Taken a k b → Issued a k jump (with_jump k jump b)
Taken-Issued a b k jump t = record {
  pool = record {
    slots = t.pool.slots;
    distinct = t.pool.distinct;
    room = t.pool.room;
    reuse_room = t.pool.reuse_room;
  };
  waits = record { known = t.waits.known; not_free = t.waits.not_free };
  stored = update_self b.jumps k jump;
  was_free = t.was_free;
  others = λ j w. (
    record {
      known = (t.others j (t.was_free j w) w).known;
      not_free = (t.others j (t.was_free j w) w).not_free;
    },
    update_ne b.jumps k j jump (λ e. t.was_free j w (sym e)) ∙ ap (λ f. f j) t.same_jumps,
  );
  no_others = λ j n w. t.no_others j n record { known = w.known; not_free = w.not_free };
}

-- From a well-formed pool of fewer than 2^31 - 1 slots, cache_patch_point returns a slot's number, counted
-- from 1. Nothing waited in that slot, the jump waits there now, and the other slots are as they were.
pub cache_patch_point-Issued :
    (type offset : ℕ) (s : Jit)
    → IsPool s.anchor
    → s.anchor.jumps_p + 1 < 2 ^ 31
    → (b : Anchor) × (cache_patch_point type offset s
        ≡ ok (next_slot s + 1, record s { anchor = b }))
      × Issued s.anchor (next_slot s) (jump_of type offset s) b
unfolding cache_patch_point
cache_patch_point-Issued type offset s pool small = (
  with_jump (next_slot s) (jump_of type offset s) (take_slot s.anchor).1,
  ap
      (λ (id : ℕ). ok (
        id,
        record s {
          anchor = with_jump (next_slot s) (jump_of type offset s) (take_slot s.anchor).1;
        },
      ))
      (omega (arith, (take_slot-Taken s.anchor pool small).known)),
  Taken-Issued s.anchor (take_slot s.anchor).1 (next_slot s) (jump_of type offset s)
      (take_slot-Taken s.anchor pool small),
)

freed : ℕ → Anchor → Anchor
freed k a = record a {
  jumps_reuse = update a.jumps_reuse a.jumps_reuse_p k;
  jumps_reuse_p = a.jumps_reuse_p + 1;
}

-- Numbers count from 1, slots from 0.
back : (k : ℕ) → k + 1 < 2 ^ 32 → u32 (k + 1 + 2 ^ 32 - 1) ≡ k
back k small = omega arith

freed-Freed :
    (a : Anchor) (k : ℕ)
    → IsPool a
    → IsWaiting a k
    → a.jumps_reuse_p + 1 < a.jumps_reuse_c
    → Freed a k (freed k a)
unfolding freed
freed-Freed a k pool w room = record {
  pool = record {
    slots = λ i h. ground (arith, pool.slots i, w.known);
    distinct = λ i j lt h. ground (arith, pool.distinct i j lt, w.not_free i);
    room = pool.room;
    reuse_room = room;
  };
  gone = λ j v e.
      v.not_free a.jumps_reuse_p (omega arith)
        (update_self a.jumps_reuse a.jumps_reuse_p k ∙ sym e);
  others = λ j n v.
      (record { known = v.known; not_free = λ i h. ground (arith, v.not_free i, n) }, refl);
  no_others = λ j v. record {
    known = v.known;
    not_free = λ i h. ground (arith, v.not_free i (omega arith));
  };
}

-- The number of a slot where a jump waits, given to cache_get_patch, returns that jump and frees the slot
-- and no other, unless the stack of free slots is full: then the run ends in an error.
pub cache_get_patch-Freed :
    (a : Anchor) (k : ℕ)
    → IsPool a
    → IsWaiting a k
    → k + 1 < 2 ^ 32
    → ((b : Anchor) × (cache_get_patch (k + 1) a ≡ ok (a.jumps k, b)) × Freed a k b)
      ⊎ ((a.jumps_reuse_p + 1 ≡ a.jumps_reuse_c) × (cache_get_patch (k + 1) a ≡ err reuse_overflow))
unfolding cache_get_patch freed
cache_get_patch-Freed a k pool w small =
    elim (Bool-cases (a.jumps_reuse_p + 1 == a.jumps_reuse_c)) [
      | inl full ↦ inr (ground arith, rw full refl)
      | inr room ↦ inl (
        freed k a,
        rw room (rw (back k small) refl),
        freed-Freed a k pool w (ground (arith, pool.reuse_room)),
      )
    ]
