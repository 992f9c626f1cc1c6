-- ===== src/Encoder/Frame/Others.antt =====
-- The moves, the stack, the jumps and the vector instructions of src/encoder.c, each in its frame.
use byte_shatter.Base.{
  Option, none, some, Post, returns, raises, ok, err, refl, null_pointer, out_of_bounds, update,
  u32, ◌|||◌, ◌<<<◌, get_elem?, ℕ,
}
use byte_shatter.X86.{Instruction}
use byte_shatter.X86.Reg
use byte_shatter.Encoder.Op
use byte_shatter.Encoder.Emit.{x64_regs}
use byte_shatter.Jit.{Jit}
use byte_shatter.Encoder.Moves.{
  note_rax, encode_movsx, encode_widening, encode_mov, encode_lea, encode_cmov, encode_cltq,
  encode_cltd,
}
use byte_shatter.Encoder.Stack.{
  remember, forget, pop_pair, pop_one, encode_pop, push_pair, push_one, push_operand, encode_push,
  encode_leave,
}
use byte_shatter.Encoder.Flow.{
  syscall_override, encode_jcc, emit_branch, rewrite_mov_rax, encode_syscall,
}
use byte_shatter.Encoder.Vector.{
  emit_neon, encode_movs, encode_pxor, encode_cvtsd2si, encode_cvtsi2s, encode_cvtsd2ss,
  encode_cvtss2sd, encode_movq, encode_movapd,
}
use byte_shatter.Encoder.Frame.{Frames, Framed}
use byte_shatter.Encoder.Frame.Parts.{part_rules}

Frames-note_rax : (imm : ℕ) → Frames (note_rax imm)
Frames-note_rax imm = record { after = λ s. returns record { position = refl; tables = refl } }

Frames-remember : (instruction register : ℕ) → Frames (remember instruction register)
Frames-remember instruction register = record {
  after = λ s. returns record { position = refl; tables = refl };
}

pub Frames-forget : Frames forget
Frames-forget = record { after = λ s. returns record { position = refl; tables = refl } }

ruleset static_rules = (part_rules, Frames-note_rax, Frames-remember, Frames-forget)

rewritten :
    (s : Jit) (at num : Option ℕ)
    → Post {A = Unit {0} × Jit}
        (λ r. Framed s r.1)
        (elim at [
          | none ↦ err null_pointer
          | some hp ↦ elim num [
            | none ↦ err out_of_bounds
            | some n ↦ ok (
              tt,
              record s {
                code = update s.code hp (u32 (Op.movz_imm ||| n <<< 5 ||| x64_regs Reg.rax));
              },
            )
          ]
        ])
rewritten s none num = raises
rewritten s (some hp) none = raises
rewritten s (some hp) (some n) = returns record { position = refl; tables = refl }

pub Frames-encode_movsx : (buf : Instruction) → Frames (encode_movsx buf)
unfolding encode_movsx
Frames-encode_movsx buf = search static_rules depth 14

pub Frames-encode_widening :
    (n1 : ℕ) (n2 : ℕ) (buf : Instruction) → Frames (encode_widening n1 n2 buf)
unfolding encode_widening
Frames-encode_widening n1 n2 buf = search static_rules depth 14

pub Frames-encode_mov : (n : ℕ) (buf : Instruction) → Frames (encode_mov n buf)
unfolding encode_mov
Frames-encode_mov n buf = search static_rules depth 14

pub Frames-encode_lea : (buf : Instruction) → Frames (encode_lea buf)
unfolding encode_lea
Frames-encode_lea buf = search static_rules depth 14

pub Frames-encode_cmov : (n1 : ℕ) (n2 : ℕ) (buf : Instruction) → Frames (encode_cmov n1 n2 buf)
unfolding encode_cmov
Frames-encode_cmov n1 n2 buf = search static_rules depth 14

pub Frames-encode_cltq : Frames encode_cltq
unfolding encode_cltq
Frames-encode_cltq = search static_rules depth 14

pub Frames-encode_cltd : Frames encode_cltd
unfolding encode_cltd
Frames-encode_cltd = search static_rules depth 14

pub Frames-pop_pair : (n1 : ℕ) (n2 : ℕ) → Frames (pop_pair n1 n2)
unfolding pop_pair
Frames-pop_pair n1 n2 = search static_rules depth 14

pub Frames-pop_one : (n : ℕ) → Frames (pop_one n)
unfolding pop_one
Frames-pop_one n = search static_rules depth 14

pub Frames-encode_pop : (buf : Instruction) → Frames (encode_pop buf)
unfolding encode_pop
Frames-encode_pop buf = search (static_rules, Frames-pop_pair, Frames-pop_one) depth 14

pub Frames-push_pair : (n1 : ℕ) (n2 : ℕ) → Frames (push_pair n1 n2)
unfolding push_pair
Frames-push_pair n1 n2 = search static_rules depth 14

pub Frames-push_one : (n : ℕ) → Frames (push_one n)
unfolding push_one
Frames-push_one n = search static_rules depth 14

pub Frames-push_operand : (n : ℕ) (buf : Instruction) → Frames (push_operand n buf)
unfolding push_operand
Frames-push_operand n buf = search static_rules depth 14

pub Frames-encode_push : (n : ℕ) (buf : Instruction) → Frames (encode_push n buf)
unfolding encode_push
Frames-encode_push n buf =
    search (static_rules, Frames-push_pair, Frames-push_one, Frames-push_operand) depth 14

pub Frames-encode_leave : Frames encode_leave
unfolding encode_leave
Frames-encode_leave = search static_rules depth 14

pub Frames-encode_jcc : (buf : Instruction) → Frames (encode_jcc buf)
unfolding encode_jcc
Frames-encode_jcc buf = search static_rules depth 14

pub Frames-emit_branch : (n1 : ℕ) (n2 : ℕ) (buf : Instruction) → Frames (emit_branch n1 n2 buf)
unfolding emit_branch
Frames-emit_branch n1 n2 buf = search static_rules depth 14

pub Frames-rewrite_mov_rax : Frames rewrite_mov_rax
unfolding rewrite_mov_rax
Frames-rewrite_mov_rax = record {
  after = λ s. rewritten s s.prev_mov_rax_instr (get_elem? syscall_override s.prev_rax);
}

pub Frames-encode_syscall : Frames encode_syscall
unfolding encode_syscall
Frames-encode_syscall = search (static_rules, Frames-rewrite_mov_rax) depth 14

pub Frames-emit_neon : (n : ℕ) (buf : Instruction) → Frames (emit_neon n buf)
unfolding emit_neon
Frames-emit_neon n buf = search static_rules depth 14

pub Frames-encode_movs : (buf : Instruction) → Frames (encode_movs buf)
unfolding encode_movs
Frames-encode_movs buf = search static_rules depth 14

pub Frames-encode_pxor : (buf : Instruction) → Frames (encode_pxor buf)
unfolding encode_pxor
Frames-encode_pxor buf = search static_rules depth 14

pub Frames-encode_cvtsd2si : (buf : Instruction) → Frames (encode_cvtsd2si buf)
unfolding encode_cvtsd2si
Frames-encode_cvtsd2si buf = search static_rules depth 14

pub Frames-encode_cvtsi2s : (buf : Instruction) → Frames (encode_cvtsi2s buf)
unfolding encode_cvtsi2s
Frames-encode_cvtsi2s buf = search static_rules depth 14

pub Frames-encode_cvtsd2ss : (buf : Instruction) → Frames (encode_cvtsd2ss buf)
unfolding encode_cvtsd2ss
Frames-encode_cvtsd2ss buf = search static_rules depth 14

pub Frames-encode_cvtss2sd : (buf : Instruction) → Frames (encode_cvtss2sd buf)
unfolding encode_cvtss2sd
Frames-encode_cvtss2sd buf = search static_rules depth 14

pub Frames-encode_movq : (buf : Instruction) → Frames (encode_movq buf)
unfolding encode_movq
Frames-encode_movq buf = search static_rules depth 14

pub Frames-encode_movapd : (n : ℕ) (buf : Instruction) → Frames (encode_movapd n buf)
unfolding encode_movapd
Frames-encode_movapd n buf = search static_rules depth 14

pub ruleset other_rules = (
  part_rules, Frames-encode_movsx, Frames-encode_widening, Frames-encode_mov, Frames-encode_lea,
  Frames-encode_cmov, Frames-encode_cltq, Frames-encode_cltd, Frames-encode_pop, Frames-encode_push,
  Frames-encode_leave, Frames-encode_jcc, Frames-emit_branch, Frames-encode_syscall,
  Frames-emit_neon, Frames-encode_movs, Frames-encode_pxor, Frames-encode_cvtsd2si,
  Frames-encode_cvtsi2s, Frames-encode_cvtsd2ss, Frames-encode_cvtss2sd, Frames-encode_movq,
  Frames-encode_movapd,
)
