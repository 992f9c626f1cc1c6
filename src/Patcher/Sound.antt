-- ===== src/Patcher/Sound.antt =====
-- From one run of the program to the next: `decode` of src/decoder.c and the jumps of `brk_handler` of
-- src/patcher.c keep the cache in order.
use byte_shatter.Base.{
  ◌≡◌, ◌≢◌, ◌∙◌, refl, sym, subst, ==_iff, ℕ, ◌+◌, ◌*◌, ◌^◌, ◌<◌, none, some, Option, List, arith,
  ◌==◌, if_cases, update, u32, ok, err, pure, Result, ◌>>=◌, Post, returns, raises, Post-bind, inl,
  inr,
}
use byte_shatter.X86.{Instruction}
use byte_shatter.Memory.{Context}
use byte_shatter.Jit.{Anchor, PatchUnit, Jit}
use byte_shatter.Cache.Blocks.Order.{IsSorted}
use byte_shatter.Cache.Blocks.Sound.{IsOpen}
use byte_shatter.Cache.Jumps.{cache_get_patch}
use byte_shatter.Cache.Search.{cache_search, cache_get_block}
use byte_shatter.Contexts.{context_free, put_context}
use byte_shatter.Contexts.Ownership.{context_pull-Claimed}
use byte_shatter.Translate.{Shatter, translate, decode_block}
use byte_shatter.Translate.Sound.{translate-IsOpen}
use byte_shatter.Debugger.State.{
  Debugger, word_index, set_bp, set_bp_if, block_word, debug_check_break, then_check, decode,
  Waited, resumed, Numbers,
}
use byte_shatter.Debugger.Printing.{Faulting}
use byte_shatter.Debugger.{Line}
use byte_shatter.Patcher.{
  patched_word, word_offset, brk_number, write_branch, with_anchor, put_shatter, on_shatter,
  target_block, patch_brk, patched, brk_handler,
}

-- The cache between two translations.
pub record IsCache (a : Anchor) : Type 0 where
  pub sorted : IsSorted a.blocks a.blocks_p
  pub points_room : a.offsets_p < a.offsets_c

abbrev pub Keeping : {A : Type 0} → Result (A × Debugger) → Type 0
Keeping {A} r = Post {A = A × Debugger} (λ x. IsCache x.1.shatter.jit.anchor) r

abbrev KeepingBlock : {A : Type 0} → Result (A × Shatter) → Type 0
KeepingBlock {A} r = Post {A = A × Shatter} (λ x. IsCache x.1.jit.anchor) r

IsOpen-IsCache : {s : Jit} → IsOpen s → IsCache s.anchor
IsOpen-IsCache h = record {
  sorted = h.tidy.sorted;
  points_room = omega (arith, h.tidy.points_room);
}

closed :
    (i : ℕ) (pool : List Context) (r : Result (Unit {0} × Jit))
    → Post {A = Unit {0} × Jit} (λ x. IsOpen x.1) r
    → KeepingBlock {A = Unit {0}} (elim r [
      | err e ↦ err e
      | ok (_, t) ↦
          ok (tt, record { pool = context_free i (put_context i t.context pool); jit = t })
    ])
closed i pool (ok (_, t)) (returns h) = returns (IsOpen-IsCache h)
closed i pool (err e) raises = raises

-- The debugger's look for a break point changes host words and nothing of the cache.
set_bp_if-anchor :
    (o : Option ℕ) (d : Debugger) → (set_bp_if o d).shatter.jit.anchor ≡ d.shatter.jit.anchor
unfolding set_bp
set_bp_if-anchor none d = refl
set_bp_if-anchor (some i) d = refl

debug_check_break-anchor :
    (d : Debugger) → (debug_check_break d).shatter.jit.anchor ≡ d.shatter.jit.anchor
unfolding debug_check_break
debug_check_break-anchor d =
    let first = set_bp_if (block_word (cache_get_block d.shatter.jit.anchor d.break_block)) d in
    set_bp_if-anchor (cache_search d.shatter.jit.anchor first.break_pc) first
    ∙ set_bp_if-anchor (block_word (cache_get_block d.shatter.jit.anchor d.break_block)) d

then_check-Keeping :
    (d : Debugger) (r : Result (Unit {0} × Shatter))
    → KeepingBlock {A = Unit {0}} r
    → Keeping {A = Unit {0}} (then_check d r)
then_check-Keeping d (ok (_, t)) (returns h) = returns (
    if_cases (λ (e : Debugger). IsCache e.shatter.jit.anchor) d.enabled
      (λ _. subst IsCache (sym (debug_check_break-anchor (record d { shatter = t }))) h) λ _. h)
then_check-Keeping d (err e) raises = raises

put_shatter-Keeping :
    {A : Type 0} (d : Debugger) (r : Result (A × Shatter))
    → KeepingBlock {A = A} r
    → Keeping {A = A} (put_shatter d r)
put_shatter-Keeping d (ok (a, t)) (returns h) = returns h
put_shatter-Keeping d (err e) raises = raises

-- The process goes on, with the cache in order.
pub data Patched : Waited → Type 0 where
  goes_on : {d : Debugger} → IsCache d.shatter.jit.anchor → Patched (resumed d)

patched-Post :
    (mem : ℕ → ℕ) (buffers : ℕ → Instruction) (buffer : Instruction)
    (r : Result (Unit {0} × Debugger))
    → Keeping {A = Unit {0}} r
    → Post Patched (patched mem buffers buffer r)
patched-Post mem buffers buffer (ok (_, d)) (returns h) = returns (goes_on h)
patched-Post mem buffers buffer (err e) raises = raises

module _ (mem : ℕ → ℕ) (buffers : ℕ → Instruction) (buffer : Instruction) where
  -- A translation that returns leaves the blocks sorted, and room for another point.
  decode_block-IsCache :
      (fuel gp : ℕ) (s : Shatter)
      → IsCache s.jit.anchor
      → KeepingBlock (decode_block mem buffers fuel gp s)
  unfolding decode_block
  decode_block-IsCache fuel gp s h = elim (context_pull-Claimed s.jit.anchor gp s.pool) [
    | inl (_, e) ↦ rw (e, decode_block) raises
    | inr (i, c, d, after, e, _, ready) ↦
        rw (e, decode_block)
          (closed i after (translate mem buffers fuel (record (s.jit) { context = c })) (
            translate-IsOpen mem buffers fuel (record (s.jit) { context = c })
              record {
                sorted = h.sorted;
                points_room = omega (arith, h.points_room, ready.no_points);
              }))
  ]

  pub decode-IsCache :
      (fuel gp : ℕ) (d : Debugger)
      → IsCache d.shatter.jit.anchor
      → Keeping (decode mem buffers fuel gp d)
  unfolding decode
  decode-IsCache fuel gp d h =
      then_check-Keeping d (decode_block mem buffers fuel gp d.shatter)
        (decode_block-IsCache fuel gp d.shatter h)

  targeted :
      (fuel addr : ℕ) (d : Debugger) (o : Option ℕ)
      → IsCache d.shatter.jit.anchor
      → Keeping {A = ℕ} (elim o [
        | some block ↦ ok (block, d)
        | none ↦ (do decode mem buffers fuel addr >>= λ _. pure d.shatter.jit.anchor.host_p) d
      ])
  targeted fuel addr d none h =
      Post-bind (decode mem buffers fuel addr) (λ _. pure d.shatter.jit.anchor.host_p) d
        (decode-IsCache fuel addr d h) λ _ t k. returns k
  targeted fuel addr d (some block) h = returns h

  branched :
      (pc : ℕ) (s : Shatter) (r : Result ℕ)
      → IsCache s.jit.anchor
      → KeepingBlock {A = Unit {0}} (elim r [
        | err e ↦ err e
        | ok word ↦
            ok (tt, record s { jit = record (s.jit) { code = update s.jit.code pc (u32 word) } })
      ])
  branched pc s (ok word) h = returns h
  branched pc s (err e) h = raises

  write_branch-IsCache :
      (type block pc : ℕ) (d : Debugger)
      → IsCache d.shatter.jit.anchor
      → Keeping (on_shatter (write_branch type block pc) d)
  unfolding write_branch
  write_branch-IsCache type block pc d h =
      put_shatter-Keeping d (write_branch type block pc d.shatter)
        (branched pc d.shatter (patched_word type (word_offset block pc)) h)

  target_block-IsCache :
      (fuel addr : ℕ) (d : Debugger)
      → IsCache d.shatter.jit.anchor
      → Keeping (target_block mem buffers buffer fuel addr d)
  unfolding target_block
  target_block-IsCache fuel addr d h =
      targeted fuel addr d (cache_search d.shatter.jit.anchor addr) h

  -- What patch_brk does with the jump that it is to patch.
  abbrev patch_with : ℕ → ℕ → Debugger → Result (PatchUnit × Anchor) → Result (Unit {0} × Debugger)
  patch_with fuel pc d (err e) = err e
  patch_with fuel pc d (ok (unit, anchor)) =
      (target_block mem buffers buffer fuel (anchor.gp_hi * 2 ^ 32 + unit.guest_off) >>= λ block.
      on_shatter (write_branch unit.type block pc))
        (record d { shatter = with_anchor anchor d.shatter })

  patch_with-IsCache :
      (fuel pc : ℕ) (d : Debugger) (r : Result (PatchUnit × Anchor))
      → Post {A = PatchUnit × Anchor} (λ x. IsCache x.1) r
      → Keeping (patch_with fuel pc d r)
  patch_with-IsCache fuel pc d (ok (unit, anchor)) (returns h) =
      Post-bind (target_block mem buffers buffer fuel (anchor.gp_hi * 2 ^ 32 + unit.guest_off))
        (λ block. on_shatter (write_branch unit.type block pc))
        (record d { shatter = with_anchor anchor d.shatter })
        (target_block-IsCache fuel (anchor.gp_hi * 2 ^ 32 + unit.guest_off) _ h)
        λ block t k. write_branch-IsCache unit.type block pc t k
  patch_with-IsCache fuel pc d (err e) raises = raises

  cache_get_patch-IsCache :
      (id : ℕ) (a : Anchor)
      → IsCache a
      → Post {A = PatchUnit × Anchor} (λ x. IsCache x.1) (cache_get_patch id a)
  unfolding cache_get_patch
  cache_get_patch-IsCache id a h =
      if_cases (Post {A = PatchUnit × Anchor} (λ x. IsCache x.1))
        (a.jumps_reuse_p + 1 == a.jumps_reuse_c) (λ full. raises)
        λ room. returns record { sorted = h.sorted; points_room = h.points_room }

  -- A BRK of a jump, that is, not one of number 0: whatever code the guest has at its target, and whether
  -- the debugger is enabled or not, if brk_handler returns, with all the translation that it causes, the
  -- process goes on, the blocks are sorted and there is room for another point, given that this was so
  -- before.
  pub brk_handler-IsCache :
      (n : Numbers) (f : Faulting) (lines : List Line) (word : List ℕ) (fuel : ℕ) (d : Debugger)
      → brk_number (d.shatter.jit.code (word_index d d.sc.pc)) ≢ 0
      → IsCache d.shatter.jit.anchor
      → Post Patched (brk_handler mem buffers buffer n f lines word fuel d)
  unfolding brk_handler patch_brk
  brk_handler-IsCache n f lines word fuel d jump h =
      let pc = word_index d d.sc.pc in
      let id = brk_number (d.shatter.jit.code pc) in
      if_cases (Post Patched) (id == 0) (λ zero. absurd (jump ((==_iff _ _).0 zero)))
        λ _. patched-Post mem buffers buffer _ (
          patch_with-IsCache fuel pc d (cache_get_patch id d.shatter.jit.anchor)
            (cache_get_patch-IsCache id d.shatter.jit.anchor h))
