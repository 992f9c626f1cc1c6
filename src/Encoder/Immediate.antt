-- ===== src/Encoder/Immediate.antt =====
-- `emit_imm`, `emit_add_signed` and `emit_sub_signed` of src/encoder.c: what the words do.
use byte_shatter.Base.{
  ℕ, ◌+◌, ◌-◌, ◌^◌, ◌<◌, ◌≤◌, ◌≡◌, ◌∙◌, ◌⊎◌, refl, ap, ◌&&◌, ◌||◌, not, List, [], ◌∷◌, some, ok,
  arith, length, u32, u64, ltb, leb, if◌then◌else◌, ◌|||◌, ◌<<<◌, ◌>>>◌, low_bits, negative,
  positive, neg64, not64, IsU64, update-update, Bool-cases, if_cases, inl, inr, sx32,
}
use byte_shatter.Jit.{Jit, emit32}
use byte_shatter.Arm.{
  Cpu, add_imm, sub_imm, movz, movn, movk, sxtw, exec, run_words, run_code, read_sp, write_x,
  write_sp, with_piece,
}
use byte_shatter.Arm.Code.{emitted, emitted-hp, run_code-emitted, run_words-cons, run_words-last}
use byte_shatter.Encoder.Op
use byte_shatter.Encoder.Emit
use byte_shatter.Encoder.Emit.{emit_imm, emit_add_signed, emit_sub_signed, add_sub_imm}
use byte_shatter.Encoder.Words.{
  add_imm-reads, sub_imm-reads, movz-reads, movn-reads, movk1-reads, movk2-reads, movk3-reads,
  sxtw-reads,
}

-- The computation emits words, and these take the processor from `c` to `d`.
pub record Runs (s t : Jit) (ws : List ℕ) (c d : Cpu) : Type 0 where
  pub emits : t ≡ emitted ws s
  pub moves : t.context.hp ≡ s.context.hp + length ws
  pub runs : run_code t.code s.context.hp (length ws) c ≡ some d

pub Runs-emitted :
    (ws : List ℕ) (s : Jit) (c d : Cpu)
    → s.context.hp + length ws < 2 ^ 32
    → run_words ws c ≡ some d
    → Runs s (emitted ws s) ws c d
Runs-emitted ws s c d h e = record {
  emits = refl;
  moves = emitted-hp ws s h;
  runs = run_code-emitted ws s c h ∙ e;
}

-- A later write to the same register.
write-write : (rd v w : ℕ) (c : Cpu) → rd < 31 → write_x rd w (write_x rd v c) ≡ write_x rd w c
write-write rd v w c h = ground (arith, update-update c.x rd v w)

movk-write :
    (hw imm rd v : ℕ) (c : Cpu)
    → rd < 31
    → exec (movk hw imm rd) (write_x rd v c) ≡ write_x rd (with_piece hw imm v) c
unfolding exec
movk-write hw imm rd v c h = ground (arith, update-update c.x rd v (with_piece hw imm v))

sxtw-write :
    (rd v : ℕ) (c : Cpu)
    → rd < 31
    → exec (sxtw rd rd) (write_x rd v c) ≡ write_x rd (sx32 (u32 v)) c
unfolding exec
sxtw-write rd v c h = ground (arith, update-update c.x rd v (sx32 (u32 v)))

-- The words of emit_imm, by its four cases.
abbrev imm_words : ℕ → ℕ → List ℕ
imm_words imm rd =
    if not (negative imm) && ltb imm (2 ^ 15)
    then (Op.movz_imm ||| imm <<< 5 ||| rd) ∷ []
    else if negative imm && ltb (not64 imm) (2 ^ 15)
    then (0x92800000 ||| not64 imm <<< 5 ||| rd) ∷ []
    else if leb (2 ^ 64 - 2 ^ 31) imm || ltb imm (2 ^ 31)
    then Emit.movz imm rd
      ∷ Emit.movk 1 imm rd
      ∷ (if negative imm then (Op.sxtw_reg ||| rd <<< 5 ||| rd) ∷ [] else [])
    else Emit.movz imm rd ∷ Emit.movk 1 imm rd ∷ Emit.movk 2 imm rd ∷ Emit.movk 3 imm rd ∷ []

emit_imm-emitted :
    (imm rd : ℕ) (s : Jit) → emit_imm imm rd s ≡ ok (tt, emitted (imm_words imm rd) s)
unfolding emit_imm emitted emit32
emit_imm-emitted imm rd s = ground arith

length-imm_words : (imm rd : ℕ) → length (imm_words imm rd) ≤ 4
length-imm_words imm rd = ground arith

-- Each case of emit_imm, run.
module _ (imm rd : ℕ) (c : Cpu) (fits : IsU64 imm) (small : rd < 31) where
  run-movz :
      imm < 2 ^ 15 → run_words ((Op.movz_imm ||| imm <<< 5 ||| rd) ∷ []) c ≡ some (write_x rd imm c)
  run-movz h =
      run_words-last _ (movz 0 imm rd) c (movz-reads imm rd (omega arith) (omega arith))
      ∙ unfold exec in ground arith

  run-movn :
      not64 imm < 2 ^ 15
      → run_words ((0x92800000 ||| not64 imm <<< 5 ||| rd) ∷ []) c ≡ some (write_x rd imm c)
  run-movn h =
      run_words-last _ (movn 0 (not64 imm) rd) c
        (movn-reads (not64 imm) rd (omega arith) (omega arith))
      ∙ unfold exec in ground arith

  -- The first two words of the longer cases.
  abbrev low32 : ℕ
  low32 = with_piece 1 (low_bits (imm >>> 16) 16) (low_bits imm 16)

  run-low :
      (ws : List ℕ)
      → run_words (Emit.movz imm rd ∷ Emit.movk 1 imm rd ∷ ws) c ≡ run_words ws (write_x rd low32 c)
  run-low ws =
      run_words-cons _ _ (movz 0 (low_bits imm 16) rd) c
        (movz-reads (low_bits imm 16) rd (omega arith) (omega arith))
      ∙ run_words-cons _ ws (movk 1 (low_bits (imm >>> 16) 16) rd) _
          (movk1-reads imm rd (omega arith))
      ∙ ap (run_words ws)
          (start ∙ movk-write 1 (low_bits (imm >>> 16) 16) rd (low_bits imm 16) c small)
    where
      start :
          exec (movk 1 (low_bits (imm >>> 16) 16) rd) (exec (movz 0 (low_bits imm 16) rd) c)
          ≡ exec (movk 1 (low_bits (imm >>> 16) 16) rd) (write_x rd (low_bits imm 16) c)
      start = unfold exec in ground arith

  run-int32 :
      (imm < 2 ^ 31) ⊎ (2 ^ 64 - 2 ^ 31 ≤ imm)
      → run_words
          (Emit.movz imm rd
            ∷ Emit.movk 1 imm rd
            ∷ (if negative imm then (Op.sxtw_reg ||| rd <<< 5 ||| rd) ∷ [] else []))
          c
        ≡ some (write_x rd imm c)
  run-int32 h = elim (Bool-cases (negative imm)) [
    | inl neg ↦ rw neg (
        run-low ((Op.sxtw_reg ||| rd <<< 5 ||| rd) ∷ [])
        ∙ run_words-last _ (sxtw rd rd) _ (sxtw-reads rd (omega arith))
        ∙ ap some (sxtw-write rd low32 c small)
        ∙ ap (λ v. some (write_x rd v c)) (ground arith))
    | inr nonneg ↦
        rw nonneg (run-low [] ∙ unfold run_words in ap (λ v. some (write_x rd v c)) (ground arith))
  ]

  run-int64 :
      run_words
        (Emit.movz imm rd ∷ Emit.movk 1 imm rd ∷ Emit.movk 2 imm rd ∷ Emit.movk 3 imm rd ∷ [])
        c
      ≡ some (write_x rd imm c)
  run-int64 =
      run-low (Emit.movk 2 imm rd ∷ Emit.movk 3 imm rd ∷ [])
      ∙ run_words-cons _ _ (movk 2 (low_bits (imm >>> 32) 16) rd) _
          (movk2-reads imm rd (omega arith))
      ∙ ap (run_words (Emit.movk 3 imm rd ∷ []))
          (movk-write 2 (low_bits (imm >>> 32) 16) rd low32 c small)
      ∙ run_words-last _ (movk 3 (low_bits (imm >>> 48) 16) rd) _ (movk3-reads imm rd (omega arith))
      ∙ ap some (movk-write 3 (low_bits (imm >>> 48) 16) rd _ c small)
      ∙ ap (λ v. some (write_x rd v c)) (omega arith)

run-imm_words :
    (imm rd : ℕ) (c : Cpu)
    → IsU64 imm
    → rd < 31
    → run_words (imm_words imm rd) c ≡ some (write_x rd imm c)
run-imm_words imm rd c fits small =
    if_cases Loads (not (negative imm) && ltb imm (2 ^ 15))
      (λ h. run-movz imm rd c fits small (ground arith))
      λ _.
        if_cases Loads (negative imm && ltb (not64 imm) (2 ^ 15))
          (λ h. run-movn imm rd c fits small (ground arith))
          λ _.
            if_cases Loads (leb (2 ^ 64 - 2 ^ 31) imm || ltb imm (2 ^ 31))
              (λ h. run-int32 imm rd c fits small (ground arith)) λ _. run-int64 imm rd c fits small
  where
    Loads : List ℕ → Type 0
    Loads ws = run_words ws c ≡ some (write_x rd imm c)

-- Every int64_t is loaded into any register but 31, when the host position does not wrap: `emit_imm`
-- returns, and the words that it wrote leave exactly `imm` in the register and change nothing else of
-- the processor.
pub emit_imm-loads :
    (imm rd : ℕ) (s : Jit) (c : Cpu)
    → IsU64 imm
    → rd < 31
    → s.context.hp + 4 < 2 ^ 32
    → (t : Jit) × (ws : List ℕ) × (emit_imm imm rd s ≡ ok (tt, t))
      × Runs s t ws c (write_x rd imm c)
emit_imm-loads imm rd s c fits small room = (
  emitted (imm_words imm rd) s,
  imm_words imm rd,
  emit_imm-emitted imm rd s,
  Runs-emitted (imm_words imm rd) s c (write_x rd imm c) (omega (arith, length-imm_words imm rd))
      (run-imm_words imm rd c fits small),
)

-- imm as a signed number between -4095 and 4095
abbrev pub IsSmall : ℕ → Type 0
IsSmall imm = (imm < 2 ^ 12) ⊎ ((2 ^ 64 - 2 ^ 12 < imm) × (imm < 2 ^ 64))

abbrev pub add_signed_words : ℕ → ℕ → ℕ → ℕ
add_signed_words r0 r1 imm =
    if positive imm
    then add_sub_imm Op.add_imm r0 r1 imm
    else add_sub_imm Op.sub_imm r0 r1 (neg64 imm)

sub_signed_words : ℕ → ℕ → ℕ → ℕ
sub_signed_words r0 r1 imm =
    if positive imm
    then add_sub_imm Op.sub_imm r0 r1 imm
    else add_sub_imm Op.add_imm r0 r1 (neg64 imm)

module _ (r0 r1 imm : ℕ) (c : Cpu) (a : r0 < 32) (b : r1 < 32) (small : IsSmall imm)
    (fits : IsU64 (read_sp c r1)) where
  pub run-add_signed :
      run_words (add_signed_words r0 r1 imm ∷ []) c
      ≡ some (write_sp r0 (u64 (read_sp c r1 + imm)) c)
  run-add_signed = elim (Bool-cases (positive imm)) [
    | inl p ↦ rw p (
        run_words-last _ (add_imm r0 r1 imm) c (add_imm-reads r0 r1 imm a b (ground arith))
        ∙ unfold exec in refl)
    | inr p ↦ rw p (
        run_words-last _ (sub_imm r0 r1 (neg64 imm)) c
          (sub_imm-reads r0 r1 (neg64 imm) a b (ground arith))
        ∙ unfold exec in ap (λ v. some (write_sp r0 v c)) (ground arith))
  ]

  run-sub_signed :
      run_words (sub_signed_words r0 r1 imm ∷ []) c
      ≡ some (write_sp r0 (u64 (read_sp c r1 + 2 ^ 64 - imm)) c)
  unfolding sub_signed_words
  run-sub_signed = elim (Bool-cases (positive imm)) [
    | inl p ↦ rw p (
        run_words-last _ (sub_imm r0 r1 imm) c (sub_imm-reads r0 r1 imm a b (ground arith))
        ∙ unfold exec in refl)
    | inr p ↦ rw p (
        run_words-last _ (add_imm r0 r1 (neg64 imm)) c
          (add_imm-reads r0 r1 (neg64 imm) a b (ground arith))
        ∙ unfold exec in ap (λ v. some (write_sp r0 v c)) (ground arith))
  ]

  -- For an immediate of at most twelve bits, of either sign, `emit_add_signed` adds it and
  -- `emit_sub_signed` subtracts it, modulo 2 ^ 64; register 31 is the stack pointer on both sides.
  pub emit_signed-adds :
      (s : Jit)
      → s.context.hp + 1 < 2 ^ 32
      → ((t : Jit) × (ws : List ℕ) × (emit_add_signed r0 r1 imm s ≡ ok (tt, t))
          × Runs s t ws c (write_sp r0 (u64 (read_sp c r1 + imm)) c))
        × ((t : Jit) × (ws : List ℕ) × (emit_sub_signed r0 r1 imm s ≡ ok (tt, t))
            × Runs s t ws c (write_sp r0 (u64 (read_sp c r1 + 2 ^ 64 - imm)) c))
  emit_signed-adds s room = (
    (
      emitted (add_signed_words r0 r1 imm ∷ []) s,
      add_signed_words r0 r1 imm ∷ [],
      unfold emit_add_signed emitted emit32 in ground arith,
      Runs-emitted _ s c _ (omega arith) run-add_signed,
    ),
    (
      emitted (sub_signed_words r0 r1 imm ∷ []) s,
      sub_signed_words r0 r1 imm ∷ [],
      unfold emit_sub_signed sub_signed_words emitted emit32 in ground arith,
      Runs-emitted _ s c _ (omega arith) run-sub_signed,
    ),
  )
