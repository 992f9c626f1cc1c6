-- ===== src/Debugger/Planted.antt =====
-- That src/debugger.c never loses a word of the host's code to a break point.
use mathlib.Core.Path.{fun_ext}
use byte_shatter.Base.{ℕ, ◌≡◌, ◌∙◌, sym, refl, ap, subst, Option, none, some, update, arith}
use byte_shatter.Jit.{Anchor, CacheUnit}
use byte_shatter.Cache.Search.{cache_search, cache_get_block}
use byte_shatter.Patcher.Registers.{SigContext}
use byte_shatter.Debugger.State.{
  uint32_max, uint64_max, Debugger, brk_0, set_bp, set_bp_if, block_word, debug_check_break,
}
use byte_shatter.Debugger.{restored}

-- The code is `orig`, but for the break point that is set, whose word is kept; then none is waited for.
abbrev pub PlantedAt : Option ℕ → (ℕ → ℕ) → Debugger → Type 0
PlantedAt none orig s = s.shatter.jit.code ≡ orig
PlantedAt (some p) orig s =
    (s.shatter.jit.code ≡ update orig p brk_0)
    × (s.prev_instr ≡ orig p)
    × (s.break_block ≡ uint32_max)
    × (s.break_pc ≡ uint64_max)

pub record IsPlanted (orig : ℕ → ℕ) (anchor : Anchor) (ctx : SigContext) (s : Debugger)
    : Type 0 where
  pub planted : PlantedAt s.prev_instrp orig s
  pub cache : s.shatter.jit.anchor ≡ anchor
  pub program : s.sc ≡ ctx

-- No break point is set.
pub record IsClear (orig : ℕ → ℕ) (anchor : Anchor) (ctx : SigContext) (s : Debugger) : Type 0 where
  pub clear : s.prev_instrp ≡ none
  pub code : s.shatter.jit.code ≡ orig
  pub cache : s.shatter.jit.anchor ≡ anchor
  pub program : s.sc ≡ ctx

-- The numbers that stand for "no break point" are no block and no address of the cache.
abbrev pub Unused : Anchor → Type 0
Unused a = (cache_get_block a uint32_max ≡ none) × (cache_search a uint64_max ≡ none)

module _ (orig : ℕ → ℕ) (anchor : Anchor) (ctx : SigContext) where
  pub IsClear-IsPlanted : (s : Debugger) → IsClear orig anchor ctx s → IsPlanted orig anchor ctx s
  IsClear-IsPlanted s h = record {
    planted = subst (λ (o : Option ℕ). PlantedAt o orig s) (sym h.clear) h.code;
    cache = h.cache;
    program = h.program;
  }

  pub set_bp-IsPlanted :
      (p : ℕ) (s : Debugger) → IsClear orig anchor ctx s → IsPlanted orig anchor ctx (set_bp p s)
  unfolding set_bp
  set_bp-IsPlanted p s h = record {
    planted =
        (ap (λ (c : ℕ → ℕ). update c p brk_0) h.code, ap (λ (c : ℕ → ℕ). c p) h.code, refl, refl);
    cache = h.cache;
    program = h.program;
  }

  set_bp_if-IsPlanted :
      (o : Option ℕ) (s : Debugger)
      → IsClear orig anchor ctx s
      → IsPlanted orig anchor ctx (set_bp_if o s)
  set_bp_if-IsPlanted none s h = IsClear-IsPlanted s h
  set_bp_if-IsPlanted (some p) s h = set_bp-IsPlanted p s h

  update_back : (f : ℕ → ℕ) (p v : ℕ) → update (update f p v) p (f p) ≡ f
  update_back f p v = fun_ext λ i. ground arith

  pub restored-IsClear :
      (o : Option ℕ) (s : Debugger)
      → s.prev_instrp ≡ o
      → IsPlanted orig anchor ctx s
      → IsClear orig anchor ctx (restored o s)
  restored-IsClear none s e h = record {
    clear = e;
    code = subst (λ (o : Option ℕ). PlantedAt o orig s) e h.planted;
    cache = h.cache;
    program = h.program;
  }
  restored-IsClear (some p) s e h =
      let (code, word, block, pc) = subst (λ (o : Option ℕ). PlantedAt o orig s) e h.planted in
      record {
        clear = refl;
        code =
            ap (λ (c : ℕ → ℕ). update c p s.prev_instr) code
            ∙ ap (λ (v : ℕ). update (update orig p brk_0) p v) word
            ∙ update_back orig p brk_0;
        cache = h.cache;
        program = h.program;
      }

  no_search :
      (s : Debugger) (pc : ℕ)
      → Unused anchor
      → s.shatter.jit.anchor ≡ anchor
      → pc ≡ uint64_max
      → cache_search s.shatter.jit.anchor pc ≡ none
  no_search s pc unused e h =
      ap (λ (a : Anchor). cache_search a pc) e ∙ ap (cache_search anchor) h ∙ unused.1

  checked_first :
      (o : Option ℕ) (s : Debugger)
      → Unused anchor
      → IsClear orig anchor ctx s
      → IsPlanted orig anchor ctx
          (set_bp_if (cache_search s.shatter.jit.anchor (set_bp_if o s).break_pc) (set_bp_if o s))
  unfolding set_bp
  checked_first none s unused h =
      set_bp_if-IsPlanted (cache_search s.shatter.jit.anchor s.break_pc) s h
  checked_first (some p) s unused h =
      subst (λ (o : Option ℕ). IsPlanted orig anchor ctx (set_bp_if o (set_bp p s)))
        (sym (no_search s uint64_max unused h.cache refl)) (set_bp-IsPlanted p s h)

  -- With a break point set, no other is looked for.
  checked_once :
      (o : Option ℕ) (s : Debugger)
      → Unused anchor
      → s.prev_instrp ≡ o
      → IsPlanted orig anchor ctx s
      → IsPlanted orig anchor ctx (debug_check_break s)
  unfolding debug_check_break
  checked_once none s unused e h =
      checked_first (block_word (cache_get_block s.shatter.jit.anchor s.break_block)) s unused
        record {
          clear = e;
          code = subst (λ (o : Option ℕ). PlantedAt o orig s) e h.planted;
          cache = h.cache;
          program = h.program;
        }
  checked_once (some p) s unused e h =
      let (code, word, block, pc) = subst (λ (o : Option ℕ). PlantedAt o orig s) e h.planted in
      let no_block : cache_get_block s.shatter.jit.anchor s.break_block ≡ none =
        ap (λ (a : Anchor). cache_get_block a s.break_block) h.cache
        ∙ ap (cache_get_block anchor) block
        ∙ unused.0 in
      subst
        (λ (o : Option CacheUnit). IsPlanted orig anchor ctx (
          set_bp_if (cache_search s.shatter.jit.anchor (set_bp_if (block_word o) s).break_pc)
            (set_bp_if (block_word o) s)))
        (sym no_block)
        (subst (λ (o : Option ℕ). IsPlanted orig anchor ctx (set_bp_if o s))
          (sym (no_search s s.break_pc unused h.cache pc)) h)

  -- Looking for a break point keeps the code.
  pub debug_check_break-IsPlanted :
      (s : Debugger)
      → Unused anchor
      → IsPlanted orig anchor ctx s
      → IsPlanted orig anchor ctx (debug_check_break s)
  debug_check_break-IsPlanted s unused h = checked_once s.prev_instrp s unused refl h
