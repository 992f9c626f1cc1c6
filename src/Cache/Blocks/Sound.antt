-- ===== src/Cache/Blocks/Sound.antt =====
-- The cache of src/cache.c while a block is open: an invariant of its operations.
use byte_shatter.Base.{
  null_pointer, ℕ, ◌+◌, ◌<◌, ◌≡◌, refl, none, some, Option, arith, leb, if◌then◌else◌, if_cases, u8,
  ok, err, M, pure, get, when, ◌>>=◌, Post, returns, raises, Post-bind, Bool, true, false,
}
use byte_shatter.Jit.{Jit}
use byte_shatter.Cache.Blocks.{
  cache_block_start, close_block, cache_block_end, cache_block_point, current_block, store_offset,
}
use byte_shatter.Cache.Blocks.Order.{IsSorted, started-Opened}

-- The blocks are sorted, and the next point has a slot in the array.
pub record IsTidy (s : Jit) : Type 0 where
  pub sorted : IsSorted s.anchor.blocks s.anchor.blocks_p
  pub points_room : s.anchor.offsets_p + s.context.loffp < s.anchor.offsets_c

-- What current_block is needed for: one of the blocks is open, and there is room for the next.
pub record IsOpen (s : Jit) : Type 0 where
  pub tidy : IsTidy s
  pub room : s.anchor.blocks_p < s.anchor.blocks_c
  pub index : ℕ
  pub current : s.context.block ≡ some index
  pub known : index < s.anchor.blocks_p

-- A computation that keeps it, if it returns.
pub record Keeps {A : Type 0} (m : M Jit A) : Type 0 where
  pub after : (s : Jit) → IsOpen s → Post (λ (r : A × Jit). IsOpen r.1) (m s)

pub Keeps-bind :
    {A B : Type 0} (m : M Jit A) (f : A → M Jit B)
    → Keeps m
    → ((a : A) → Keeps (f a))
    → Keeps (m >>= f)
Keeps-bind m f p q = record {
  after = λ s h. Post-bind m f s (p.after s h) λ a t k. (q a).after t k;
}

pub Keeps-pure : {A : Type 0} (a : A) → Keeps (pure a)
Keeps-pure a = record { after = λ s h. returns h }

pub Keeps-get : Keeps get
Keeps-get = record { after = λ s h. returns h }

pub Keeps-if :
    {A : Type 0} (b : Bool) (m n : M Jit A) → Keeps m → Keeps n → Keeps (if b then m else n)
Keeps-if true m n p q = p
Keeps-if false m n p q = q

pub Keeps-when : (b : Bool) (m : M Jit (Unit {0})) → Keeps m → Keeps (when b m)
Keeps-when true m p = p
Keeps-when false m p = Keeps-pure tt

-- A new block may be opened in a tidy cache, and is open then.
pub cache_block_start-IsOpen :
    (s : Jit) → IsTidy s → Post {A = Unit {0} × Jit} (λ r. IsOpen r.1) (cache_block_start s)
unfolding cache_block_start
cache_block_start-IsOpen s tidy =
    if_cases (Post {A = Unit {0} × Jit} (λ r. IsOpen r.1))
      (leb s.anchor.blocks_c (s.anchor.blocks_p + 1)) (λ h. raises)
      λ h. returns record {
        tidy = record {
          sorted = (started-Opened s tidy.sorted).sorted;
          points_room = tidy.points_room;
        };
        room = ground arith;
        index = _;
        current = refl;
        known = omega (arith, (started-Opened s tidy.sorted).inside);
      }

indexed :
    (s : Jit) (o : Option ℕ)
    → IsOpen s
    → Post {A = ℕ × Jit} (λ r. IsOpen r.1) (elim o [ none ↦ err null_pointer | some i ↦ ok (i, s) ])
indexed s none h = raises
indexed s (some i) h = returns h

Keeps-current_block : Keeps current_block
Keeps-current_block = record { after = λ s h. indexed s s.context.block h }

Keeps-close_block : (i : ℕ) → Keeps (close_block i)
unfolding close_block
Keeps-close_block i = record {
  after = λ s h.
      if_cases (Post {A = Unit {0} × Jit} (λ r. IsOpen r.1)) (leb s.anchor.host_c s.context.hp)
        (λ full. raises)
        λ fits. returns record {
          tidy = record {
            sorted = record { ordered = λ j k le lt. ground (arith, h.tidy.sorted.ordered j k) };
            points_room = omega (arith, h.tidy.points_room);
          };
          room = h.room;
          index = h.index;
          current = h.current;
          known = h.known;
        };
}

Keeps-store_offset : (goff hogg : ℕ) → Keeps (store_offset goff hogg)
unfolding store_offset
Keeps-store_offset goff hogg = record {
  after = λ s h.
      if_cases (Post {A = Unit {0} × Jit} (λ r. IsOpen r.1))
        (leb s.anchor.offsets_c (s.anchor.offsets_p + u8 (s.context.loffp + 1))) (λ full. raises)
        λ fits. returns record {
          tidy = record { sorted = h.tidy.sorted; points_room = ground arith };
          room = h.room;
          index = h.index;
          current = h.current;
          known = h.known;
        };
}

Keeps-cache_block_start : Keeps cache_block_start
Keeps-cache_block_start = record { after = λ s h. cache_block_start-IsOpen s h.tidy }

ruleset block_rules = (
  Keeps-bind, Keeps-pure, Keeps-get, Keeps-if, Keeps-when, Keeps-current_block, Keeps-close_block,
  Keeps-store_offset, Keeps-cache_block_start,
)

pub Keeps-cache_block_end : Keeps cache_block_end
unfolding cache_block_end
Keeps-cache_block_end = search block_rules depth 10

pub Keeps-cache_block_point : Keeps cache_block_point
unfolding cache_block_point
Keeps-cache_block_point = search (block_rules, Keeps-cache_block_end) depth 16
