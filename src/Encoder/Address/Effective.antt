-- ===== src/Encoder/Address/Effective.antt =====
-- `emit_address_decode` of src/encoder.c: the address that the emitted words compute.
use byte_shatter.Base.{
  ℕ, zero, suc, ◌+◌, ◌-◌, ◌*◌, ◌/◌, ◌^◌, ◌<◌, ◌≤◌, ◌≡◌, ◌≢◌, ◌∙◌, ap, List, [], ◌∷◌, some, ok,
  arith, length, u32, u64, ◌==◌, if◌then◌else◌, ◌|||◌, ◌<<<◌, low_bits, IsU64, if_cases,
  update-update,
}
use byte_shatter.Base.Bits.{bit_or_below, bit_or_insert}
use byte_shatter.X86.Prefix
use byte_shatter.X86.{Operand}
use byte_shatter.Jit.{Jit, emit32}
use byte_shatter.Arm.{Cpu, add_imm, add_reg, ubfm, insn_of, exec, run_words, bit_field, write_x}
use byte_shatter.Arm.Code.{emitted, run_words-cons}
use byte_shatter.Encoder.Op
use byte_shatter.Encoder.Emit.{x64_regs, emit_add_signed}
use byte_shatter.Encoder.Immediate.{IsSmall, Runs, Runs-emitted, add_signed_words, run-add_signed}
use byte_shatter.Encoder.Registers.{IsHome, x64_regs-IsHome}
use byte_shatter.Encoder.Address.{emit_address_decode, emit_idx_address}

-- The memory operands of x86-64 with a base or an index register, by what they name: base, displacement, index and scale, in that order.
pub data Address : Type 0 where
  based : ℕ → Address
  displaced : ℕ → ℕ → Address
  indexed : ℕ → ℕ → ℕ → Address
  indexed_displaced : ℕ → ℕ → ℕ → ℕ → Address
  scaled : ℕ → ℕ → ℕ → Address

-- The operand, as the decoder writes it over what stood there.
abbrev pub operand_at : Address → Operand → Operand
operand_at (based b) op = record op { type = 3; reg = b }
operand_at (displaced b d) op = record op { type = 11; reg = b; imm = d }
operand_at (indexed b i s) op = record op { type = 7; reg = b; idx = i; scale = s }
operand_at (indexed_displaced b d i s) op = record {
  type = 15;
  reg = b;
  idx = i;
  scale = s;
  imm = d;
}
operand_at (scaled d i s) op = record op { type = 14; idx = i; scale = s; imm = d }

-- The effective address of the architecture.
abbrev pub guest_reg : Cpu → ℕ → ℕ
guest_reg c r = c.x (x64_regs r)

abbrev pub effective : Cpu → Address → ℕ
effective c (based b) = guest_reg c b
effective c (displaced b d) = u64 (guest_reg c b + d)
effective c (indexed b i s) = u64 (guest_reg c b + guest_reg c i * 2 ^ s)
effective c (indexed_displaced b d i s) = u64 (guest_reg c b + guest_reg c i * 2 ^ s + d)
effective c (scaled d i s) = u64 (guest_reg c i * 2 ^ s + d)

-- One of the sixteen registers but RSP, which holds a number of 64 bits.
pub record IsUsable (c : Cpu) (r : ℕ) : Type 0 where
  pub known : r < 16
  pub not_rsp : r ≢ 4
  pub fits : IsU64 (guest_reg c r)

-- With an index, the base may not live in the register `rd` that takes the address.
abbrev pub IsReachable : Cpu → ℕ → Address → Type 0
IsReachable c rd (based b) = IsUsable c b
IsReachable c rd (displaced b d) = IsUsable c b × IsSmall d
IsReachable c rd (indexed b i s) = IsUsable c b × IsUsable c i × (s < 4) × (x64_regs b ≢ rd)
IsReachable c rd (indexed_displaced b d i s) =
    IsUsable c b × IsUsable c i × (s < 4) × (x64_regs b ≢ rd) × IsSmall d
IsReachable c rd (scaled d i s) = IsUsable c i × (s < 4) × IsSmall d

IsUsable-IsHome : {c : Cpu} {r : ℕ} → IsUsable c r → IsHome (x64_regs r)
IsUsable-IsHome {c} {r} u = x64_regs-IsHome r u.known u.not_rsp

-- The words, and what each does.
abbrev idx_word : ℕ → ℕ → ℕ → ℕ
idx_word rd i s =
    if s == 0
    then Op.sf ||| Op.add_imm ||| rd ||| i <<< 5
    else 0xD3400000
      ||| low_bits (256 - s) 6 <<< 16
      ||| low_bits (63 + 256 - s) 6 <<< 10
      ||| i <<< 5
      ||| rd

abbrev base_word : ℕ → ℕ → ℕ
base_word rd b = Op.sf ||| Op.add_reg ||| rd ||| rd <<< 5 ||| b <<< 16

-- The displacement behind an index, if there is one.
abbrev some_disp : ℕ → ℕ → List ℕ
some_disp rd d = if d == 0 then [] else add_signed_words rd rd d ∷ []

base_word-reads :
    (rd b : ℕ) → rd < 32 → b < 32 → insn_of (u32 (base_word rd b)) ≡ some (add_reg rd rd b)
unfolding insn_of
base_word-reads rd b p q = ground (
  arith,
  bit_or_below 5 (0x8B000000 / 32) rd p,
  bit_or_insert 5 5 (0x8B000000 / 2 ^ 10) rd rd p p,
  bit_or_insert 5 16 0x458 b (rd * 2 ^ 5 + rd) (omega arith) q,
)

shift_fields :
    (immr imms rd i : ℕ)
    → immr < 2 ^ 6
    → imms < 2 ^ 6
    → rd < 32
    → i < 32
    → (0x34D * 2 ^ 22 ||| immr <<< 16 ||| imms <<< 10 ||| i <<< 5 ||| rd)
      ≡ 0x34D * 2 ^ 22 + immr * 2 ^ 16 + imms * 2 ^ 10 + i * 2 ^ 5 + rd
shift_fields immr imms rd i a b p q = ground (
  arith,
  bit_or_insert 6 16 0x34D immr 0 (omega arith) a,
  bit_or_insert 6 10 (0x34D * 2 ^ 6 + immr) imms 0 (omega arith) b,
  bit_or_insert 5 5 ((0x34D * 2 ^ 6 + immr) * 2 ^ 6 + imms) i 0 (omega arith) q,
  bit_or_below 5 (((0x34D * 2 ^ 6 + immr) * 2 ^ 6 + imms) * 2 ^ 5 + i) rd p,
)

shift_word-reads :
    (rd i s : ℕ)
    → rd < 32
    → i < 32
    → suc s < 4
    → insn_of (u32 (idx_word rd i (suc s))) ≡ some (ubfm rd i (64 - suc s) (63 - suc s))
unfolding insn_of
shift_word-reads rd i zero p q t =
    ground (arith, shift_fields 63 62 rd i (omega arith) (omega arith) p q)
shift_word-reads rd i (suc zero) p q t =
    ground (arith, shift_fields 62 61 rd i (omega arith) (omega arith) p q)
shift_word-reads rd i (suc (suc zero)) p q t =
    ground (arith, shift_fields 61 60 rd i (omega arith) (omega arith) p q)
shift_word-reads rd i (suc (suc (suc s))) p q t = absurd (omega arith)

copy_word-reads :
    (rd i : ℕ) → rd < 32 → i < 32 → insn_of (u32 (idx_word rd i 0)) ≡ some (add_imm rd i 0)
unfolding insn_of
copy_word-reads rd i p q =
    ground (
      arith,
      bit_or_below 5 (0x91000000 / 32) rd p,
      bit_or_insert 5 5 (0x91000000 / 2 ^ 10) i rd p q,
    )

module _ (c : Cpu) (rd i : ℕ) (p : rd < 31) (q : i < 31) (fits : IsU64 (c.x i)) where
  exec-copy : exec (add_imm rd i 0) c ≡ write_x rd (c.x i) c
  unfolding exec
  exec-copy = ground arith

  shifted :
      (s : ℕ) → suc s < 4 → bit_field (64 - suc s) (63 - suc s) (c.x i) ≡ u64 (c.x i * 2 ^ suc s)
  shifted zero t = omega arith
  shifted (suc zero) t = omega arith
  shifted (suc (suc zero)) t = omega arith
  shifted (suc (suc (suc s))) t = absurd (omega arith)

  exec-shift :
      (s : ℕ)
      → suc s < 4
      → exec (ubfm rd i (64 - suc s) (63 - suc s)) c ≡ write_x rd (u64 (c.x i * 2 ^ suc s)) c
  unfolding exec
  exec-shift s t =
      ap (λ v. write_x rd (bit_field (64 - suc s) (63 - suc s) v) c) (ground arith)
      ∙ ap (λ v. write_x rd v c) (shifted s t)

  -- The index, scaled, whatever words follow.
  run-idx :
      (s : ℕ) (ws : List ℕ)
      → s < 4
      → run_words (idx_word rd i s ∷ ws) c ≡ run_words ws (write_x rd (u64 (c.x i * 2 ^ s)) c)
  run-idx zero ws t =
      run_words-cons _ ws (add_imm rd i 0) c (copy_word-reads rd i (omega arith) (omega arith))
      ∙ ap (run_words ws) (exec-copy ∙ ap (λ v. write_x rd v c) (omega arith))
  run-idx (suc s) ws t =
      run_words-cons _ ws (ubfm rd i (64 - suc s) (63 - suc s)) c
        (shift_word-reads rd i s (omega arith) (omega arith) t)
      ∙ ap (run_words ws) (exec-shift s t)

-- A base and a displacement, added to what is in the register.
module _ (c : Cpu) (rd v : ℕ) (p : rd < 31) where
  run-base :
      (b : ℕ) (ws : List ℕ)
      → b < 31
      → b ≢ rd
      → run_words (base_word rd b ∷ ws) (write_x rd v c)
        ≡ run_words ws (write_x rd (u64 (v + c.x b)) c)
  run-base b ws q apart =
      run_words-cons _ ws (add_reg rd rd b) _ (base_word-reads rd b (omega arith) (omega arith))
      ∙ ap (run_words ws) (unfold exec in ground (arith, update-update c.x rd v (u64 (v + c.x b))))

  run-disp :
      (d : ℕ)
      → IsSmall d
      → IsU64 v
      → run_words (add_signed_words rd rd d ∷ []) (write_x rd v c)
        ≡ some (write_x rd (u64 (v + d)) c)
  run-disp d small fits =
      run-add_signed rd rd d (write_x rd v c) (omega arith) (omega arith) small (ground arith)
      ∙ ap some (ground (arith, update-update c.x rd v (u64 (v + d))))

  run-some_disp :
      (d : ℕ)
      → IsSmall d
      → IsU64 v
      → run_words (some_disp rd d) (write_x rd v c) ≡ some (write_x rd (u64 (v + d)) c)
  run-some_disp d small fits =
      if_cases (λ ws. run_words ws (write_x rd v c) ≡ some (write_x rd (u64 (v + d)) c)) (d == 0)
        (λ h. unfold run_words in ap (λ w. some (write_x rd w c)) (ground arith))
        λ h. run-disp d small fits

address_words : ℕ → Address → List ℕ
address_words rd (based b) = idx_word rd (x64_regs b) 0 ∷ []
address_words rd (displaced b d) = add_signed_words rd (x64_regs b) d ∷ []
address_words rd (indexed b i s) = idx_word rd (x64_regs i) s ∷ base_word rd (x64_regs b) ∷ []
address_words rd (indexed_displaced b d i s) =
    idx_word rd (x64_regs i) s ∷ base_word rd (x64_regs b) ∷ some_disp rd d
address_words rd (scaled d i s) = idx_word rd (x64_regs i) s ∷ some_disp rd d

length-address_words : (rd : ℕ) (ad : Address) → length (address_words rd ad) ≤ 3
unfolding address_words
length-address_words rd (based b) = omega arith
length-address_words rd (displaced b d) = omega arith
length-address_words rd (indexed b i s) = omega arith
length-address_words rd (indexed_displaced b d i s) = ground arith
length-address_words rd (scaled d i s) = ground arith

emit_address_decode-emitted :
    (ad : Address) (op : Operand) (rd prefix : ℕ) (s : Jit)
    → prefix ≢ Prefix.fs
    → emit_address_decode (operand_at ad op) rd prefix s ≡ ok (tt, emitted (address_words rd ad) s)
unfolding emit_address_decode emit_idx_address emit_add_signed emit32 emitted address_words
emit_address_decode-emitted (based b) op rd prefix s n = ground arith
emit_address_decode-emitted (displaced b d) op rd prefix s n = ground arith
emit_address_decode-emitted (indexed b i k) op rd prefix s n = ground arith
emit_address_decode-emitted (indexed_displaced b d i k) op rd prefix s n = ground arith
emit_address_decode-emitted (scaled d i k) op rd prefix s n = ground arith

-- The words leave the effective address in `rd`.
run-address_words :
    (ad : Address) (rd : ℕ) (c : Cpu)
    → rd < 31
    → IsReachable c rd ad
    → run_words (address_words rd ad) c ≡ some (write_x rd (effective c ad) c)
unfolding address_words
run-address_words (based b) rd c p u =
    run-idx c rd (x64_regs b) p (IsUsable-IsHome u).general u.fits 0 [] (omega arith)
    ∙ unfold run_words in ap (λ v. some (write_x rd v c)) (ground (arith, u.fits))
run-address_words (displaced b d) rd c p (u, small) =
    run-add_signed rd (x64_regs b) d c (omega arith) (omega (arith, (IsUsable-IsHome u).general))
      small (ground (arith, u.fits, (IsUsable-IsHome u).general))
    ∙ ap some (ground (arith, (IsUsable-IsHome u).general))
run-address_words (indexed b i s) rd c p (u, v, t, apart) =
    run-idx c rd (x64_regs i) p (IsUsable-IsHome v).general v.fits s _ t
    ∙ run-base c rd _ p (x64_regs b) [] (IsUsable-IsHome u).general apart
    ∙ unfold run_words in ap (λ w. some (write_x rd w c)) (omega arith)
run-address_words (indexed_displaced b d i s) rd c p (u, v, t, apart, small) =
    run-idx c rd (x64_regs i) p (IsUsable-IsHome v).general v.fits s _ t
    ∙ run-base c rd _ p (x64_regs b) _ (IsUsable-IsHome u).general apart
    ∙ run-some_disp c rd _ p d small (omega arith)
    ∙ ap (λ w. some (write_x rd w c)) (omega arith)
run-address_words (scaled d i s) rd c p (v, t, small) =
    run-idx c rd (x64_regs i) p (IsUsable-IsHome v).general v.fits s _ t
    ∙ run-some_disp c rd _ p d small (omega arith)
    ∙ ap (λ w. some (write_x rd w c)) (omega arith)

-- For a memory operand with a base or an index register, without the FS prefix, whose registers are not RSP and whose displacement has at most twelve bits and a sign:
-- emit_address_decode returns, and its words leave the effective address in `rd`, modulo 2 ^ 64, and
-- change nothing else of the processor. With an index, the base must not live in `rd`.
pub emit_address_decode-effective :
    (ad : Address) (op : Operand) (rd prefix : ℕ) (s : Jit) (c : Cpu)
    → prefix ≢ Prefix.fs
    → rd < 31
    → IsReachable c rd ad
    → s.context.hp + 3 < 2 ^ 32
    → (t : Jit) × (ws : List ℕ) × (emit_address_decode (operand_at ad op) rd prefix s ≡ ok (tt, t))
      × Runs s t ws c (write_x rd (effective c ad) c)
emit_address_decode-effective ad op rd prefix s c n p reach room = (
  emitted (address_words rd ad) s,
  address_words rd ad,
  emit_address_decode-emitted ad op rd prefix s n,
  Runs-emitted (address_words rd ad) s c _ (omega (arith, length-address_words rd ad))
      (run-address_words ad rd c p reach),
)
