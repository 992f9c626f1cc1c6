-- ===== src/Cache/Blocks.antt =====
-- `cahce_init`, `cache_clear`, and the blocks of src/cache.c: start, point and end.
pub mod Order
pub mod Sound
use byte_shatter.Base.{
  ℕ, zero, suc, ◌+◌, ◌-◌, ◌/◌, ◌^◌, ◌||◌, none, some, ltb, leb, ◌==◌, if◌then◌else◌, update, u8,
  u16, u32, M, ok, err, pure, get, when, ◌>>=◌, ◌>>◌, blocks_overflow, offset_overflow,
  host_overflow, null_pointer,
}
use byte_shatter.Memory.{Context}
use byte_shatter.Jit.{OffsetUnit, PatchUnit, CacheUnit, Anchor, Jit}

abbrev pub max_blocks : ℕ
max_blocks = 512

abbrev pub max_jumps : ℕ
max_jumps = 256

abbrev pub max_offsets : ℕ
max_offsets = 24576

-- The four arrays come from malloc, with arbitrary contents.
unfoldable pub cahce_init :
    (guest host size : ℕ) → (ℕ → OffsetUnit) → (ℕ → CacheUnit) → (ℕ → PatchUnit) → (ℕ → ℕ) → Anchor
cahce_init guest host size offsets blocks jumps reuse = record {
  gp_hi = guest / 2 ^ 32;
  offsets = offsets;
  offsets_p = 0;
  offsets_c = max_offsets;
  blocks = blocks;
  blocks_p = 0;
  blocks_c = max_blocks;
  host = host;
  host_p = 0;
  host_c = size;
  jumps = jumps;
  jumps_p = 0;
  jumps_c = max_jumps;
  jumps_reuse = reuse;
  jumps_reuse_p = 0;
  jumps_reuse_c = max_jumps;
}

unfoldable pub cache_clear : Anchor → Anchor
cache_clear a = record a { offsets_p = 0; blocks_p = 0; host_p = 0; jumps_p = 0; jumps_reuse_p = 0 }

-- The `while` loop of cache_block_start, with `n` rounds left at index `i`.
unfoldable pub insert_pos : (ℕ → CacheUnit) → ℕ → ℕ → ℕ → ℕ
insert_pos blocks gp zero i = i
insert_pos blocks gp (suc n) i =
    let rest = insert_pos blocks gp n (i + 1) in if ltb (blocks i).gp_lo gp then rest else i

-- Its `for` loop, with `n` rounds left: blocks[pos + n] = blocks[pos + n - 1], downwards.
unfoldable pub shift_up : (ℕ → CacheUnit) → ℕ → ℕ → ℕ → CacheUnit
shift_up blocks pos zero = blocks
shift_up blocks pos (suc n) = shift_up (update blocks (pos + suc n) (blocks (pos + n))) pos n

abbrev pub fresh_block : Context → CacheUnit
fresh_block c = record { gp_lo = c.gp; hp = c.hp; offsets = 0; offsetssz = 0; end = 1 }

abbrev pub insert_block : ℕ → CacheUnit → Anchor → Anchor
insert_block pos block a = record a {
  blocks = update (shift_up a.blocks pos (a.blocks_p - pos)) pos block;
  blocks_p = a.blocks_p + 1;
}

unfoldable pub cache_block_start : M Jit (Unit {0})
cache_block_start s =
    let pos = insert_pos s.anchor.blocks s.context.gp s.anchor.blocks_p 0 in
    if leb s.anchor.blocks_c (s.anchor.blocks_p + 1)
    then err blocks_overflow
    else ok (
      tt,
      record s {
        context = record (s.context) { block = some pos };
        anchor = insert_block pos (fresh_block s.context) s.anchor;
      },
    )

-- *context->block
abbrev pub current_block : M Jit ℕ
current_block s = elim s.context.block [ none ↦ err null_pointer | some i ↦ ok (i, s) ]

-- The block closed at the context's position.
abbrev pub closed_block : Jit → CacheUnit → CacheUnit
closed_block s block = record block {
  end = u8 (s.context.hp + 2 ^ 32 - block.hp);
  offsets = s.anchor.offsets_p;
  offsetssz = s.context.loffp;
}

unfoldable pub close_block : ℕ → M Jit (Unit {0})
close_block i s =
    let closed = record s {
      anchor = record (s.anchor) {
        blocks = update s.anchor.blocks i (closed_block s (s.anchor.blocks i));
        offsets_p = s.anchor.offsets_p + s.context.loffp;
        host_p = s.context.hp;
      };
      context = record (s.context) { loffp = 0 };
    } in
    if leb s.anchor.host_c s.context.hp then err host_overflow else ok (tt, closed)

unfoldable pub cache_block_end : M Jit (Unit {0})
unfolding close_block
cache_block_end = do i ← current_block; close_block i

-- context->gp - context->block->gp_lo and context->hp - context->block->hp, as uint16_t
abbrev pub guest_offset : Jit → ℕ → ℕ
guest_offset s i = u16 (u32 (s.context.gp + 2 ^ 32 - (s.anchor.blocks i).gp_lo))

abbrev pub host_offset : Jit → ℕ → ℕ
host_offset s i = u16 (u32 (s.context.hp + 2 ^ 32 - (s.anchor.blocks i).hp))

-- offset->goff = goff; offset->hoff = hogg; context->loffp++
unfoldable pub store_offset : ℕ → ℕ → M Jit (Unit {0})
store_offset goff hogg s =
    let slot = s.anchor.offsets_p + s.context.loffp in
    let unit : OffsetUnit = record { hoff = u8 hogg; goff = u8 goff } in
    let stored : Jit = record s {
      anchor = record (s.anchor) { offsets = update s.anchor.offsets slot unit };
      context = record (s.context) { loffp = u8 (s.context.loffp + 1) };
    } in
    if leb s.anchor.offsets_c (s.anchor.offsets_p + u8 (s.context.loffp + 1))
    then err offset_overflow
    else ok (tt, stored)

-- cache_block_end(context); cache_block_start(context);
abbrev pub restart_block : M Jit (Unit {0})
restart_block = cache_block_end >> cache_block_start

unfoldable pub cache_block_point : M Jit (Unit {0})
unfolding store_offset
cache_block_point = do
  i ← current_block
  s ← get
  if guest_offset s i == 0 then pure tt else (do
    when (ltb 255 (guest_offset s i) || ltb 255 (host_offset s i)) restart_block
    j ← current_block
    t ← get
    store_offset (guest_offset t j) (host_offset t j)
    u ← get
    when (u.context.loffp == 255) restart_block)
