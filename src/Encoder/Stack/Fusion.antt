-- ===== src/Encoder/Stack/Fusion.antt =====
-- PUSH after PUSH and POP after POP, as `encode` of src/encoder.c fuses them.
use byte_shatter.Base.{
  ℕ, ◌+◌, ◌-◌, ◌^◌, ◌<◌, ◌≤◌, ◌≡◌, ◌≢◌, ◌∙◌, refl, [], ◌∷◌, some, ok, arith, u32, ◌==◌, bind-ok,
  ne→==-false, eq→==, ◌>>◌,
}
use byte_shatter.X86.Instr
use byte_shatter.X86.OpType
use byte_shatter.X86.{Instruction}
use byte_shatter.Jit.{Jit, emit32, patch}
use byte_shatter.Arm.{Cpu, run_code, run_words}
use byte_shatter.Arm.Code.{emitted, emitted-hp, run_code-emitted}
use byte_shatter.Encoder.Op
use byte_shatter.Encoder.Emit.{x64_regs, flag_if, emit_sub_signed, emit_add_signed}
use byte_shatter.Encoder.Stack.{encode_push, encode_pop}
use byte_shatter.Encoder.Stack.Words.{
  pushed, popped, scratched, push_one_words, push_pair_words, pop_one_words, pop_pair_words,
  run-push_pair, run-pop_pair,
}
use byte_shatter.Encoder.Registers.{IsHome, x64_regs-IsHome, x64_regs-injective}
use byte_shatter.Encoder.Encode.{encode, encode_integer}

-- A PUSH or POP of register `r`, whatever the buffer held.
abbrev pub of_reg : ℕ → ℕ → Instruction → Instruction
of_reg kind r buf = record buf { type = kind; a = record (buf.a) { type = OpType.reg; reg = r } }

-- One of the sixteen registers, but neither RSP nor RBP.
pub record IsPlain (r : ℕ) : Type 0 where
  pub known : r < 16
  pub not_rsp : r ≢ 4
  pub not_rbp : r ≢ 5

abbrev noted : ℕ → ℕ → Jit → Jit
noted kind h s = record s { prev_instruction = kind; prev_register = h }

abbrev taken_back : Jit → Jit
taken_back s = record s {
  context = record (s.context) { hp = u32 (s.context.hp + 2 ^ 32 - 3) };
  prev_instruction = Instr.nop;
}

module _ (r : ℕ) (buf : Instruction) (s : Jit) (wide : buf.size ≢ 8) where
  to_push :
      encode (of_reg Instr.push r buf) s
      ≡ encode_push (flag_if (buf.size == 64) Op.sf) (of_reg Instr.push r buf) s
  unfolding encode encode_integer
  to_push = ground arith

  to_pop : encode (of_reg Instr.pop r buf) s ≡ encode_pop (of_reg Instr.pop r buf) s
  unfolding encode encode_integer
  to_pop = ground arith

module _ (sf r : ℕ) (buf : Instruction) (s : Jit) (plain : IsPlain r) where
  encode_push-one :
      s.prev_instruction ≢ Instr.push
      → encode_push sf (of_reg Instr.push r buf) s
        ≡ ok (tt, emitted (push_one_words (x64_regs r)) (noted Instr.push (x64_regs r) s))
  unfolding encode_push emit_sub_signed emit32 emitted
  encode_push-one other =
      rw (ne→==-false _ _ other, ne→==-false _ _ plain.not_rbp, ne→==-false _ _ plain.not_rsp)
        (rw (ne→==-false _ _ other))

  encode_push-pair :
      s.prev_instruction ≡ Instr.push
      → encode_push sf (of_reg Instr.push r buf) s
        ≡ ok (tt, emitted (push_pair_words s.prev_register (x64_regs r)) (taken_back s))
  unfolding encode_push emit_sub_signed emit32 emitted patch
  encode_push-pair same =
      rw (eq→== _ _ same, ne→==-false _ _ plain.not_rbp, ne→==-false _ _ plain.not_rsp)
        (rw (eq→== _ _ same))

  encode_pop-one :
      s.prev_instruction ≢ Instr.pop
      → encode_pop (of_reg Instr.pop r buf) s
        ≡ ok (tt, emitted (pop_one_words (x64_regs r)) (noted Instr.pop (x64_regs r) s))
  unfolding encode_pop emit_add_signed emit32 emitted
  encode_pop-one other =
      rw (ne→==-false _ _ plain.not_rbp, ne→==-false _ _ plain.not_rsp) (rw (ne→==-false _ _ other))

  encode_pop-pair :
      s.prev_instruction ≡ Instr.pop
      → encode_pop (of_reg Instr.pop r buf) s
        ≡ ok (tt, emitted (pop_pair_words s.prev_register (x64_regs r)) (taken_back s))
  unfolding encode_pop emit_add_signed emit32 emitted patch
  encode_pop-pair same =
      rw (ne→==-false _ _ plain.not_rbp, ne→==-false _ _ plain.not_rsp) (rw (eq→== _ _ same))

-- What both pushes, and both pops, leave behind: the state of the translation is `t`, and the words
-- from the first one on are `ws`, which take the processor from `c` to `d`.
pub record Fused (s t : Jit) (c d : Cpu) : Type 0 where
  pub three_words : t.context.hp ≡ s.context.hp + 3
  pub forgets : t.prev_instruction ≡ Instr.nop
  pub runs : run_code t.code s.context.hp 3 c ≡ some d

fused :
    (s u : Jit) (w₁ w₂ w₃ : ℕ) (c d : Cpu)
    → u.context.hp ≡ s.context.hp
    → u.prev_instruction ≡ Instr.nop
    → s.context.hp + 3 < 2 ^ 32
    → run_words (w₁ ∷ w₂ ∷ w₃ ∷ []) c ≡ some d
    → Fused s (emitted (w₁ ∷ w₂ ∷ w₃ ∷ []) u) c d
fused s u w₁ w₂ w₃ c d same nop room runs = record {
  three_words = omega (arith, emitted-hp (w₁ ∷ w₂ ∷ w₃ ∷ []) u (omega arith));
  forgets = unfold emitted in nop;
  runs = rw (← same) (run_code-emitted (w₁ ∷ w₂ ∷ w₃ ∷ []) u c (omega arith) ∙ runs);
}

IsPlain-IsHome : {r : ℕ} → IsPlain r → IsHome (x64_regs r)
IsPlain-IsHome {r} p = x64_regs-IsHome r p.known p.not_rsp

module _ (a b : ℕ) (first second : Instruction) (s : Jit) (pa : IsPlain a) (pb : IsPlain b)
    (wide₁ : first.size ≢ 8) (wide₂ : second.size ≢ 8) (room : s.context.hp + 3 < 2 ^ 32) where
  -- The state between the two.
  abbrev after_push : Jit
  after_push = emitted (push_one_words (x64_regs a)) (noted Instr.push (x64_regs a) s)

  pushs-emitted :
      s.prev_instruction ≢ Instr.push
      → (encode (of_reg Instr.push a first) >> encode (of_reg Instr.push b second)) s
        ≡ ok (tt, emitted (push_pair_words (x64_regs a) (x64_regs b)) (taken_back after_push))
  unfolding emitted
  pushs-emitted other =
      bind-ok (encode (of_reg Instr.push a first)) (λ _. encode (of_reg Instr.push b second)) s
        (to_push a first s wide₁
          ∙ encode_push-one (flag_if (first.size == 64) Op.sf) a first s pa other)
      ∙ to_push b second after_push wide₂
      ∙ encode_push-pair (flag_if (second.size == 64) Op.sf) b second after_push pb refl

  -- Two pushes of registers other than RSP and RBP in a row, neither of 8 bits and not after a push, are
  -- translated, to three words that push the first register and then the second, at the addresses where
  -- single pushes put them. The stack pointer is a number of 64 bits and at least 16, and the host
  -- position has 32 bits to the end.
  pub push-push :
      (c : Cpu)
      → s.prev_instruction ≢ Instr.push
      → c.sp < 2 ^ 64
      → 16 ≤ c.sp
      → (t : Jit) × ((encode (of_reg Instr.push a first) >> encode (of_reg Instr.push b second)) s
          ≡ ok (tt, t))
        × Fused s t c
            (scratched (c.sp - 16) (pushed (c.x (x64_regs b)) (pushed (c.x (x64_regs a)) c)))
  push-push c other big deep = (
    _,
    pushs-emitted other,
    fused s (taken_back after_push) _ _ _ c _
        (omega
          (arith, emitted-hp (push_one_words (x64_regs a)) (noted Instr.push (x64_regs a) s) room))
        refl room
        (run-push_pair c big (x64_regs a) (x64_regs b) (IsPlain-IsHome pa) (IsPlain-IsHome pb)
          (omega arith)),
  )

module _ (a b : ℕ) (first second : Instruction) (s : Jit) (pa : IsPlain a) (pb : IsPlain b)
    (wide₁ : first.size ≢ 8) (wide₂ : second.size ≢ 8) (room : s.context.hp + 3 < 2 ^ 32) where
  -- The state between the two.
  abbrev after_pop : Jit
  after_pop = emitted (pop_one_words (x64_regs a)) (noted Instr.pop (x64_regs a) s)

  pops-emitted :
      s.prev_instruction ≢ Instr.pop
      → (encode (of_reg Instr.pop a first) >> encode (of_reg Instr.pop b second)) s
        ≡ ok (tt, emitted (pop_pair_words (x64_regs a) (x64_regs b)) (taken_back after_pop))
  unfolding emitted
  pops-emitted other =
      bind-ok (encode (of_reg Instr.pop a first)) (λ _. encode (of_reg Instr.pop b second)) s
        (to_pop a first s wide₁ ∙ encode_pop-one 0 a first s pa other)
      ∙ to_pop b second after_pop wide₂
      ∙ encode_pop-pair 0 b second after_pop pb refl

  -- Two pops into different registers other than RSP and RBP in a row, neither of 8 bits and not after a
  -- pop, are translated, to three words that pop the first register and then the second. The stack
  -- pointer stays below 2 ^ 64, and the host position has 32 bits to the end.
  pub pop-pop :
      (c : Cpu)
      → s.prev_instruction ≢ Instr.pop
      → c.sp < 2 ^ 64
      → a ≢ b
      → c.sp + 16 < 2 ^ 64
      → (t : Jit) × ((encode (of_reg Instr.pop a first) >> encode (of_reg Instr.pop b second)) s
          ≡ ok (tt, t))
        × Fused s t c (popped (x64_regs b) (popped (x64_regs a) (scratched c.sp c)))
  pop-pop c other big apart deep = (
    _,
    pops-emitted other,
    fused s (taken_back after_pop) _ _ _ c _
        (omega
          (arith, emitted-hp (pop_one_words (x64_regs a)) (noted Instr.pop (x64_regs a) s) room))
        refl room
        (run-pop_pair c big (x64_regs a) (x64_regs b) (IsPlain-IsHome pa) (IsPlain-IsHome pb)
          (λ e. apart (x64_regs-injective a b pa.known pb.known e)) (omega arith)),
  )
