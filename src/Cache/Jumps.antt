-- ===== src/Cache/Jumps.antt =====
-- `cache_patch_point` and `cache_get_patch` of src/cache.c: a pool of jumps that wait for their
-- target, with a stack of the slots to use again.
pub mod Pool
pub mod Numbers
use byte_shatter.Base.{
  ℕ, ◌+◌, ◌-◌, ◌*◌, ◌^◌, ltb, leb, ◌==◌, if◌then◌else◌, update, u8, u32, M, ok, err, reuse_overflow,
}
use byte_shatter.Jit.{PatchUnit, Anchor, Jit}

-- The slot that is taken, and the anchor behind it; realloc keeps the contents.
unfoldable pub take_slot : Anchor → ℕ × Anchor
take_slot a =
    if ltb 0 a.jumps_reuse_p
    then (a.jumps_reuse (a.jumps_reuse_p - 1), record a { jumps_reuse_p = a.jumps_reuse_p - 1 })
    else (
      a.jumps_p,
      record a {
        jumps_p = a.jumps_p + 1;
        jumps_c = if leb a.jumps_c (a.jumps_p + 1) then u32 (a.jumps_c * 2) else a.jumps_c;
      },
    )

-- `offset` is an int, and `type` a uint8_t.
unfoldable pub cache_patch_point : ℕ → ℕ → M Jit ℕ
cache_patch_point type offset s =
    let (slot, a) = take_slot s.anchor in
    let jump : PatchUnit = record { guest_off = u32 (s.context.gp + offset); type = u8 type } in
    ok (u32 (slot + 1), record s { anchor = record a { jumps = update a.jumps slot jump } })

unfoldable pub cache_get_patch : ℕ → M Anchor PatchUnit
cache_get_patch patch_id a =
    let slot = u32 (patch_id + 2 ^ 32 - 1) in
    let freed : Anchor = record a {
      jumps_reuse = update a.jumps_reuse a.jumps_reuse_p slot;
      jumps_reuse_p = a.jumps_reuse_p + 1;
    } in
    if a.jumps_reuse_p + 1 == a.jumps_reuse_c then err reuse_overflow else ok (a.jumps slot, freed)
