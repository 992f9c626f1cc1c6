-- ===== src/Arm/Code.antt =====
-- Runs of emitted code: the words that a sequence of `emit32` leaves in the host buffer.
use byte_shatter.Base.{
  ℕ, ◌+◌, ◌^◌, ◌<◌, ◌≡◌, refl, ap, Option, none, some, List, [], ◌∷◌, length, arith, u32, update,
  ok, ◌∙◌,
}
use byte_shatter.Jit.{Jit, emit32}
use byte_shatter.Arm.{Cpu, Insn, insn_of, exec, step, and_then, run_words, run_code}

-- The state after one word, and after several.
abbrev pub emit_one : ℕ → Jit → Jit
emit_one w s = record s {
  context = record (s.context) { hp = u32 (s.context.hp + 1) };
  code = update s.code s.context.hp (u32 w);
}

unfoldable pub emitted : List ℕ → Jit → Jit
emitted [] s = s
emitted (w ∷ ws) s = emitted ws (emit_one w s)

pub emit32_lem : (w : ℕ) (s : Jit) → emit32 w s ≡ ok (tt, emit_one w s)
unfolding emit32
emit32_lem w s = refl

pub emitted-hp :
    (ws : List ℕ) (s : Jit)
    → s.context.hp + length ws < 2 ^ 32
    → (emitted ws s).context.hp ≡ s.context.hp + length ws
unfolding emitted
emitted-hp [] s h = omega arith
emitted-hp (w ∷ ws) s h = omega (arith, emitted-hp ws (emit_one w s) (omega arith))

emitted-code :
    (ws : List ℕ) (s : Jit) (j : ℕ)
    → s.context.hp + length ws < 2 ^ 32
    → j < s.context.hp
    → (emitted ws s).code j ≡ s.code j
unfolding emitted
emitted-code [] s j h lt = refl
emitted-code (w ∷ ws) s j h lt =
    ground (arith, emitted-code ws (emit_one w s) j (omega arith) (omega arith))

run_code-congr : (f : ℕ → ℕ) (n i j : ℕ) (c : Cpu) → i ≡ j → run_code f i n c ≡ run_code f j n c
run_code-congr f n i j c e = ap (λ k. run_code f k n c) e

and_then-congr :
    (o : Option Cpu) {f g : Cpu → Option Cpu}
    → ((c : Cpu) → f c ≡ g c)
    → and_then o f ≡ and_then o g
and_then-congr none h = refl
and_then-congr (some c) h = h c

emitted-first :
    (w : ℕ) (ws : List ℕ) (s : Jit)
    → s.context.hp + length (w ∷ ws) < 2 ^ 32
    → (emitted (w ∷ ws) s).code s.context.hp ≡ u32 w
unfolding emitted
emitted-first w ws s h =
    ground (arith, emitted-code ws (emit_one w s) s.context.hp (omega arith) (omega arith))

-- Running the buffer from where the emission began runs the words emitted.
pub run_code-emitted :
    (ws : List ℕ) (s : Jit) (c : Cpu)
    → s.context.hp + length ws < 2 ^ 32
    → run_code (emitted ws s).code s.context.hp (length ws) c ≡ run_words ws c
unfolding run_code run_words emitted
run_code-emitted [] s c h = refl
run_code-emitted (w ∷ ws) s c h = rw (emitted-first w ws s h) (
    and_then-congr (step (u32 w) c) (λ d.
      run_code-congr (emitted ws (emit_one w s)).code (length ws) (s.context.hp + 1)
        (emit_one w s).context.hp d (omega arith)
      ∙ run_code-emitted ws (emit_one w s) d (omega arith)))

-- A word that reads as an instruction runs as that instruction.
pub run_words-cons :
    (w : ℕ) (ws : List ℕ) (i : Insn) (c : Cpu)
    → insn_of (u32 w) ≡ some i
    → run_words (w ∷ ws) c ≡ run_words ws (exec i c)
unfolding run_words step
run_words-cons w ws i c e = rw e

-- The last word of a run.
pub run_words-last :
    (w : ℕ) (i : Insn) (c : Cpu) → insn_of (u32 w) ≡ some i → run_words (w ∷ []) c ≡ some (exec i c)
unfolding run_words step
run_words-last w i c e = rw e
