-- ===== src/Tests/Encoding.antt =====
-- The encoder, run on instructions.
use byte_shatter.Base.{Post, ℕ, ◌+◌, ◌-◌, ◌^◌, ◌≡◌, ◌≢◌, ok, inr, arith, inl, u64, ◌>>◌, List}
use byte_shatter.X86.Instr
use byte_shatter.Jit.{Jit}
use byte_shatter.Arm.{read_sp, write_x, write_sp}
use byte_shatter.Encoder.Emit.{x64_regs, sc1r, sc2r, emit_imm, emit_add_signed, emit_sub_signed}
use byte_shatter.Encoder.Address.Lea.{lea_of, forgotten, encode-lea}
use byte_shatter.Encoder.Encode.{encode}
use byte_shatter.Encoder.Frame.{Framed}
use byte_shatter.Encoder.Frame.Whole.{encode-Framed}
use byte_shatter.Encoder.Immediate.{Runs, emit_imm-loads, emit_signed-adds}
use byte_shatter.Encoder.Registers.{x64_regs-apart}
use byte_shatter.Encoder.Stack.Words.{pushed, popped, scratched}
use byte_shatter.Encoder.Stack.Fusion.{of_reg, IsPlain, Fused, push-push, pop-pop}
use byte_shatter.Encoder.Address.{emit_address_decode}
use byte_shatter.Encoder.Address.Effective.{
  Address, indexed_displaced, IsUsable, operand_at, effective, emit_address_decode-effective,
}
use byte_shatter.Tests.{operand, buffer, jit, cpu}

rax-IsPlain : IsPlain 0
rax-IsPlain = record { known = omega arith; not_rsp = omega arith; not_rbp = omega arith }

rbx-IsPlain : IsPlain 3
rbx-IsPlain = record { known = omega arith; not_rsp = omega arith; not_rbp = omega arith }

push-push_example :
    (t : Jit) × ((encode (of_reg Instr.push 0 buffer) >> encode (of_reg Instr.push 3 buffer)) jit
      ≡ ok (tt, t))
    × Fused jit t cpu
        (scratched (cpu.sp - 16) (pushed (cpu.x (x64_regs 3)) (pushed (cpu.x (x64_regs 0)) cpu)))
push-push_example =
    push-push 0 3 buffer buffer jit rax-IsPlain rbx-IsPlain (omega arith) (omega arith)
      (omega arith) cpu (omega arith) (omega arith) (omega arith)

pop-pop_example :
    (t : Jit) × ((encode (of_reg Instr.pop 3 buffer) >> encode (of_reg Instr.pop 0 buffer)) jit
      ≡ ok (tt, t))
    × Fused jit t cpu (popped (x64_regs 0) (popped (x64_regs 3) (scratched cpu.sp cpu)))
pop-pop_example =
    pop-pop 3 0 buffer buffer jit rbx-IsPlain rax-IsPlain (omega arith) (omega arith) (omega arith)
      cpu (omega arith) (omega arith) (omega arith) (omega arith)

-- -70000 into x3
emit_imm-loads_example :
    (t : Jit) × (ws : List ℕ) × (emit_imm (2 ^ 64 - 70000) 3 jit ≡ ok (tt, t))
    × Runs jit t ws cpu (write_x 3 (2 ^ 64 - 70000) cpu)
emit_imm-loads_example =
    emit_imm-loads (2 ^ 64 - 70000) 3 jit cpu (omega arith) (omega arith) (omega arith)

-- sp + 24 and sp - 24
emit_signed-adds_example :
    ((t : Jit) × (ws : List ℕ) × (emit_add_signed 31 31 24 jit ≡ ok (tt, t))
      × Runs jit t ws cpu (write_sp 31 (u64 (read_sp cpu 31 + 24)) cpu))
    × ((t : Jit) × (ws : List ℕ) × (emit_sub_signed 31 31 24 jit ≡ ok (tt, t))
        × Runs jit t ws cpu (write_sp 31 (u64 (read_sp cpu 31 + 2 ^ 64 - 24)) cpu))
emit_signed-adds_example =
    emit_signed-adds 31 31 24 cpu (omega arith) (omega arith) (inl (omega arith)) (omega arith) jit
      (omega arith)

-- RBX and R14
x64_regs-apart_example :
    (x64_regs 3 ≢ x64_regs 14) × (x64_regs 3 ≢ sc1r) × (x64_regs 3 ≢ sc2r) × (x64_regs 3 ≢ 30)
x64_regs-apart_example = x64_regs-apart 3 14 (omega arith) (omega arith) (omega arith)

-- [rcx + rdx * 4 - 8] into x12
abbrev address : Address
address = indexed_displaced 1 (2 ^ 64 - 8) 2 2

rcx-IsUsable : IsUsable cpu 1
rcx-IsUsable = record {
  known = omega arith;
  not_rsp = omega arith;
  fits = unfold x64_regs in omega arith;
}

rdx-IsUsable : IsUsable cpu 2
rdx-IsUsable = record {
  known = omega arith;
  not_rsp = omega arith;
  fits = unfold x64_regs in omega arith;
}

emit_address_decode-effective_example :
    (t : Jit) × (ws : List ℕ) × (emit_address_decode (operand_at address operand) 12 0 jit
      ≡ ok (tt, t))
    × Runs jit t ws cpu (write_x 12 (effective cpu address) cpu)
emit_address_decode-effective_example =
    emit_address_decode-effective address operand 12 0 jit cpu (omega arith) (omega arith)
      (
        rcx-IsUsable,
        rdx-IsUsable,
        omega arith,
        unfold x64_regs in omega arith,
        inr (omega arith, omega arith),
      )
      (omega arith)

-- A conditional jump, which takes a slot of the pool.
encode-Framed_example :
    Post {A = Unit {0} × Jit}
      (λ r. Framed jit r.1)
      (encode (record buffer { type = Instr.jne; a = record operand { type = 8; imm = 5 } }) jit)
encode-Framed_example =
    encode-Framed (record buffer { type = Instr.jne; a = record operand { type = 8; imm = 5 } }) jit

-- lea rbx, [rcx + rdx * 4 - 8]
encode-lea_example :
    (t : Jit) × (ws : List ℕ) × (encode (lea_of 3 address buffer) jit ≡ ok (tt, t))
    × Runs (forgotten jit) t ws cpu (write_x (x64_regs 3) (effective cpu address) cpu)
encode-lea_example =
    encode-lea 3 address buffer jit cpu (omega arith) (omega arith) (omega arith)
      (
        rcx-IsUsable,
        rdx-IsUsable,
        omega arith,
        unfold x64_regs in omega arith,
        inr (omega arith, omega arith),
      )
      (omega arith)
