-- ===== src/Translate/Sound.antt =====
-- The loop of `decode` in src/decoder.c keeps the cache in order.
use byte_shatter.Base.{
  ℕ, zero, suc, ◌∙◌, sym, ap, subst, none, some, Option, Bool, true, false, arith, ok, err, M, pure,
  Result, ◌>>◌, Post, returns, raises, Post-bind, Post-mono,
}
use byte_shatter.X86.{Instruction}
use byte_shatter.Memory.{Context}
use byte_shatter.Jit.{Anchor, Jit, with_context, on_context, emit32}
use byte_shatter.Cache.Blocks.Order.{IsSorted}
use byte_shatter.Cache.Blocks.Sound.{
  IsTidy, IsOpen, Keeps, Keeps-bind, Keeps-pure, Keeps-if, cache_block_start-IsOpen,
  Keeps-cache_block_end, Keeps-cache_block_point,
}
use byte_shatter.Cache.Blocks.{cache_block_start, cache_block_point, cache_block_end}
use byte_shatter.Cache.Search.{cache_search}
use byte_shatter.Decoder.Opcode.{decode_instr}
use byte_shatter.Decoder.Frame.{OnlyGp}
use byte_shatter.Decoder.Frame.Parts.{decode_instr-OnlyGp}
use byte_shatter.Encoder.Encode.{encode}
use byte_shatter.Encoder.Frame.{Framed, Frames-emit32}
use byte_shatter.Encoder.Frame.Whole.{encode-Framed}
use byte_shatter.Translate.{
  after_round, branch_word, guest_address, join_cached, decode_round, decode_loop, translate,
}

-- The invariant is about nothing that the encoder and the decoder change.
IsOpen-Framed : {s t : Jit} → IsOpen s → Framed s t → IsOpen t
IsOpen-Framed {s} {t} h f = record {
  tidy = record {
    sorted = subst (λ (a : Anchor). IsSorted a.blocks a.blocks_p) (sym f.tables) h.tidy.sorted;
    points_room = omega (
      arith,
      h.tidy.points_room,
      ap (λ (a : Anchor). a.offsets_p) f.tables,
      ap (λ (a : Anchor). a.offsets_c) f.tables,
      ap (λ (c : Context). c.loffp) f.position,
    );
  };
  room = omega (
    arith,
    h.room,
    ap (λ (a : Anchor). a.blocks_p) f.tables,
    ap (λ (a : Anchor). a.blocks_c) f.tables,
  );
  index = h.index;
  current = ap (λ (c : Context). c.block) f.position ∙ h.current;
  known = omega (arith, h.known, ap (λ (a : Anchor). a.blocks_p) f.tables);
}

IsOpen-OnlyGp :
    (s : Jit) (d : Context) → IsOpen s → OnlyGp s.context d → IsOpen (record s { context = d })
IsOpen-OnlyGp s d h g = record {
  tidy = record {
    sorted = h.tidy.sorted;
    points_room = omega (arith, h.tidy.points_room, ap (λ (c : Context). c.loffp) g.rest);
  };
  room = h.room;
  index = h.index;
  current = ap (λ (c : Context). c.block) g.rest ∙ h.current;
  known = h.known;
}

Keeps-encode : (buf : Instruction) → Keeps (encode buf)
Keeps-encode buf = record {
  after = λ s h. Post-mono (λ r f. IsOpen-Framed h f) (encode-Framed buf s);
}

Keeps-emit32 : (w : ℕ) → Keeps (emit32 w)
Keeps-emit32 w = record {
  after = λ s h. Post-mono (λ r f. IsOpen-Framed h f) ((Frames-emit32 w).after s);
}

-- The decoder, run on the context.
with_context-IsOpen :
    {A : Type 0} (s : Jit) (r : Result (A × Context))
    → IsOpen s
    → Post (λ (x : A × Context). OnlyGp s.context x.1) r
    → Post (λ (x : A × Jit). IsOpen x.1) (with_context s r)
with_context-IsOpen s (ok (a, c)) h (returns g) = returns (IsOpen-OnlyGp s c h g)
with_context-IsOpen s (err e) h raises = raises

module _ (mem : ℕ → ℕ) where
  Keeps-decode_instr : (buf : Instruction) → Keeps (on_context (decode_instr mem buf))
  Keeps-decode_instr buf = record {
    after = λ s h.
        with_context-IsOpen s (decode_instr mem buf s.context) h
          (decode_instr-OnlyGp mem buf s.context);
  }

ruleset round_rules = (
  Keeps-bind, Keeps-pure, Keeps-if, Keeps-cache_block_point, Keeps-encode, Keeps-emit32,
  Keeps-decode_instr,
)

joined :
    (target hp : ℕ) → Keeps (cache_block_point >> (emit32 (branch_word target hp) >> pure true))
joined target hp = search round_rules depth 10

found :
    (s : Jit) (o : Option ℕ)
    → IsOpen s
    → Post {A = Bool × Jit}
        (λ r. IsOpen r.1)
        (elim o [
          | none ↦ ok (false, s)
          | some target ↦
              (do cache_block_point; emit32 (branch_word target s.context.hp); pure true) s
        ])
found s none h = returns h
found s (some target) h = (joined target s.context.hp).after s h

Keeps-join_cached : Keeps join_cached
unfolding join_cached
Keeps-join_cached = record { after = λ s h. found s (cache_search s.anchor (guest_address s)) h }

module _ (mem : ℕ → ℕ) (buffers : ℕ → Instruction) where
  Keeps-decode_round : (buf : Instruction) → Keeps (decode_round mem buffers buf)
  unfolding decode_round
  Keeps-decode_round buf = search (round_rules, Keeps-join_cached) depth 16

  rounds :
      (rest : M Jit (Unit {0})) (r : Result (Bool × Jit))
      → Keeps rest
      → Post {A = Bool × Jit} (λ x. IsOpen x.1) r
      → Post {A = Unit {0} × Jit} (λ x. IsOpen x.1) (after_round rest r)
  rounds rest (ok (true, t)) k (returns h) = returns h
  rounds rest (ok (false, t)) k (returns h) = k.after t h
  rounds rest (err e) k raises = raises

  Keeps-decode_loop : (fuel : ℕ) → Keeps (decode_loop mem buffers fuel)
  unfolding decode_loop
  Keeps-decode_loop zero = record { after = λ s h. raises }
  Keeps-decode_loop (suc fuel) = record {
    after = λ s h.
        rounds (decode_loop mem buffers fuel) (decode_round mem buffers (buffers fuel) s)
          (Keeps-decode_loop fuel) ((Keeps-decode_round (buffers fuel)).after s h);
  }

  -- A translation, whatever the guest's code and however long it runs, that starts from sorted blocks
  -- with a free slot for a point and returns: the blocks are sorted, there is room for another block and
  -- another point, and the block that it closed is one of the blocks.
  pub translate-IsOpen :
      (fuel : ℕ) (s : Jit)
      → IsTidy s
      → Post {A = Unit {0} × Jit} (λ r. IsOpen r.1) (translate mem buffers fuel s)
  unfolding translate
  translate-IsOpen fuel s tidy =
      Post-bind cache_block_start (λ _. decode_loop mem buffers fuel >> cache_block_end) s
        (cache_block_start-IsOpen s tidy)
        λ _ t h.
          (Keeps-bind (decode_loop mem buffers fuel) (λ _. cache_block_end) (Keeps-decode_loop fuel)
              (λ _. Keeps-cache_block_end)).after
            t h
