-- ===== src/Cache/Print.antt =====
-- cache_print of src/cache.c: the host words of a block, from point to point.
use byte_shatter.Base.{
  ℕ, zero, suc, ◌+◌, ◌-◌, ◌*◌, ◌≤◌, ◌≡◌, ◌<◌, length, get_elem?, some, Bool, List, [], ◌∷◌, ◌++◌, M,
  pure, ◌>>=◌, Result, ok, err, ◌^◌, ◌==◌, u64,
}
use byte_shatter.X86.{Instruction}
use byte_shatter.Memory.{Context}
use byte_shatter.Jit.{CacheUnit, Anchor}
use byte_shatter.Contexts.{context_pull, context_free, put_context}
use byte_shatter.Decoder.Opcode.{decode_instr}
use byte_shatter.Printer.{Piece}
use byte_shatter.Printer.Arm.{sprint_arm}

-- A line: the word, its text, and whether the program stands there.
pub record Line : Type 0 where
  pub host_word : ℕ
  pub out : List Piece
  pub here : Bool

-- `code` is the host's code, `pc` what get_pc returns, and `buf` the buffer, which is not initialised.
module _ (mem : ℕ → ℕ) (buf : Instruction) (a : Anchor) (code : ℕ → ℕ) (pc : ℕ) where
  abbrev pub line_at : CacheUnit → ℕ → Line
  line_at unit y = record {
    host_word = code (unit.hp + y);
    out = sprint_arm (code (unit.hp + y));
    here = u64 (a.host + 4 * (unit.hp + y)) == pc;
  }

  -- The loop over the words of a block, `n` of them from `y` on.
  unfoldable pub print_words : CacheUnit → ℕ → ℕ → List Line
  print_words unit zero y = []
  print_words unit (suc n) y = line_at unit y ∷ print_words unit n (y + 1)

  -- offsets[x].hoff
  abbrev pub point_end : CacheUnit → ℕ → ℕ
  point_end unit x = (a.offsets (unit.offsets + x)).hoff

  -- The loop over the points of a block, with `n` of them from `x` on, and then the words behind the last.
  unfoldable pub print_points : CacheUnit → ℕ → ℕ → ℕ → M Context (List Line)
  unfolding print_words
  print_points unit zero x start = do
    decode_instr mem buf >>= λ _. pure (print_words unit (unit.end - start) start)
  print_points unit (suc n) x start = do
    decode_instr mem buf >>= λ _. do
      rest ← print_points unit n (x + 1) (point_end unit x)
      pure (print_words unit (point_end unit x - start) start ++ rest)

  abbrev freed : ℕ → List Context → Result (List Line × Context) → Result (List Line × List Context)
  freed i pool (ok (lines, c)) = ok (lines, context_free i (put_context i c pool))
  freed i pool (err e) = err e

  abbrev print_in :
      CacheUnit → Result (ℕ × Context × List Context) → Result (List Line × List Context)
  print_in unit (ok (i, c, pool)) = freed i pool (print_points unit unit.offsetssz 0 0 c)
  print_in unit (err e) = err e

  unfoldable pub cache_print : ℕ → List Context → Result (List Line × List Context)
  unfolding print_points context_pull context_free
  cache_print block pool =
      let unit = a.blocks block in
      print_in unit (context_pull a (a.gp_hi * 2 ^ 32 + unit.gp_lo) pool)

  -- The points of a block stand one behind the other, and before its end.
  abbrev pub AreRising : CacheUnit → ℕ → ℕ → ℕ → Type 0
  AreRising unit zero x start = start ≤ unit.end
  AreRising unit (suc n) x start =
      (start ≤ (a.offsets (unit.offsets + x)).hoff)
      × AreRising unit n (x + 1) (a.offsets (unit.offsets + x)).hoff

  -- The lines of the words of a block.
  pub record IsListing (unit : CacheUnit) (lines : List Line) : Type 0 where
    pub count : length lines ≡ unit.end
    pub at :
        (k : ℕ)
        → k < unit.end
        → get_elem? lines k
          ≡ some record {
            host_word = code (unit.hp + k);
            out = sprint_arm (code (unit.hp + k));
            here = u64 (a.host + 4 * (unit.hp + k)) == pc;
          }
