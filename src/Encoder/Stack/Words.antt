-- ===== src/Encoder/Stack/Words.antt =====
-- What `push_one`, `push_pair`, `pop_one` and `pop_pair` of PUSH and POP do on the host.
use mathlib.Core.Path.{fun_ext}
use byte_shatter.Base.{
  ℕ, ◌+◌, ◌-◌, ◌*◌, ◌/◌, ◌^◌, ◌<◌, ◌≤◌, ◌≡◌, ◌≢◌, ◌∙◌, refl, List, [], ◌∷◌, some, arith, u32, ◌|||◌,
  ◌<<<◌,
}
use byte_shatter.Base.Bits.{bit_or_below, bit_or_insert}
use byte_shatter.Arm.{
  Cpu, add_imm, sub_imm, ldr, str, ldp, stp, insn_of, exec, run_words, write_x, store64, load64,
}
use byte_shatter.Arm.Code.{run_words-cons, run_words-last}
use byte_shatter.Encoder.Op
use byte_shatter.Encoder.Emit.{sc2r, add_sub_imm}
use byte_shatter.Encoder.Stack.{from_sp, to_sp}
use byte_shatter.Encoder.Registers.{IsHome}

-- PUSH and POP of the x86-64 architecture.
abbrev pub pushed : ℕ → Cpu → Cpu
pushed v c = record c { sp = c.sp - 8; mem = store64 (c.sp - 8) v c.mem }

abbrev pub popped : ℕ → Cpu → Cpu
popped r c = record (write_x r (load64 c.mem c.sp) c) { sp = c.sp + 8 }

-- The scratch register SC2 is overwritten on the way.
abbrev pub scratched : ℕ → Cpu → Cpu
scratched v = write_x 13 v

abbrev pub store_word : ℕ → ℕ
store_word h = Op.mft ||| Op.str32_reg ||| sc2r <<< 5 ||| h

abbrev pub load_word : ℕ → ℕ
load_word h = Op.mft ||| Op.ldr32_reg ||| sc2r <<< 5 ||| h

abbrev pub pair_word : ℕ → ℕ → ℕ → ℕ
pair_word op second first = op ||| second <<< 10 ||| sc2r <<< 5 ||| first

abbrev pub sub_sp : ℕ → ℕ
sub_sp n = add_sub_imm Op.sub_imm sc2r 31 n

abbrev pub add_to_sp : ℕ → ℕ
add_to_sp n = add_sub_imm Op.add_imm 31 sc2r n

store_word-reads : (h : ℕ) → h < 32 → insn_of (u32 (store_word h)) ≡ some (str h 13 0)
unfolding insn_of
store_word-reads h small = ground (arith, bit_or_below 5 (0xF9000000 / 32 + 13) h small)

load_word-reads : (h : ℕ) → h < 32 → insn_of (u32 (load_word h)) ≡ some (ldr h 13 0)
unfolding insn_of
load_word-reads h small = ground (arith, bit_or_below 5 (0xF9400000 / 32 + 13) h small)

pair_fields :
    (op second first : ℕ)
    → second < 32
    → first < 32
    → pair_word (op * 2 ^ 15) second first ≡ op * 2 ^ 15 + second * 2 ^ 10 + 13 * 2 ^ 5 + first
pair_fields op second first a b = ground (
  arith,
  bit_or_insert 5 10 op second 0 (omega arith) a,
  bit_or_insert 5 5 (op * 2 ^ 5 + second) 13 0 (omega arith) (omega arith),
  bit_or_below 5 ((op * 2 ^ 5 + second) * 2 ^ 5 + 13) first b,
)

stp_word-reads :
    (second first : ℕ)
    → second < 32
    → first < 32
    → insn_of (u32 (pair_word Op.stp second first)) ≡ some (stp first second 13)
unfolding insn_of
stp_word-reads second first a b = ground (arith, pair_fields 0x15200 second first a b)

ldp_word-reads :
    (second first : ℕ)
    → second < 32
    → first < 32
    → first ≢ second
    → insn_of (u32 (pair_word Op.ldp second first)) ≡ some (ldp first second 13)
unfolding insn_of
ldp_word-reads second first a b apart = ground (arith, pair_fields 0x15280 second first a b)

-- Stores to ranges that do not meet can be swapped.
store64_comm :
    (a b v w : ℕ) (m : ℕ → ℕ)
    → a + 8 ≤ b
    → store64 b w (store64 a v m) ≡ store64 a v (store64 b w m)
unfolding store64
store64_comm a b v w m apart = fun_ext λ p. ground arith

abbrev pub push_one_words : ℕ → List ℕ
push_one_words h = sub_sp 8 ∷ store_word h ∷ to_sp sc2r ∷ []

abbrev pub push_pair_words : ℕ → ℕ → List ℕ
push_pair_words prev h = sub_sp 16 ∷ pair_word Op.stp prev h ∷ to_sp sc2r ∷ []

abbrev pub pop_one_words : ℕ → List ℕ
pop_one_words h = from_sp sc2r ∷ load_word h ∷ add_to_sp 8 ∷ []

abbrev pub pop_pair_words : ℕ → ℕ → List ℕ
pop_pair_words prev h = from_sp sc2r ∷ pair_word Op.ldp h prev ∷ add_to_sp 16 ∷ []

module _ (c : Cpu) (big : c.sp < 2 ^ 64) where
  pub run-push_one :
      (h : ℕ)
      → IsHome h
      → 8 ≤ c.sp
      → run_words (push_one_words h) c ≡ some (scratched (c.sp - 8) (pushed (c.x h) c))
  unfolding insn_of exec
  run-push_one h home deep =
      run_words-cons _ _ (sub_imm 13 31 8) c refl
      ∙ run_words-cons _ _ (str h 13 0) _ (store_word-reads h (omega arith))
      ∙ run_words-last _ (add_imm 31 13 0) _ refl
      ∙ ground arith

  pub run-push_pair :
      (prev h : ℕ)
      → IsHome prev
      → IsHome h
      → 16 ≤ c.sp
      → run_words (push_pair_words prev h) c
        ≡ some (scratched (c.sp - 16) (pushed (c.x h) (pushed (c.x prev) c)))
  unfolding insn_of exec
  run-push_pair prev h home₁ home₂ deep =
      run_words-cons _ _ (sub_imm 13 31 16) c refl
      ∙ run_words-cons _ _ (stp h prev 13) _ (stp_word-reads prev h (omega arith) (omega arith))
      ∙ run_words-last _ (add_imm 31 13 0) _ refl
      ∙ ground (arith, store64_comm (c.sp - 16) (c.sp - 8) (c.x h) (c.x prev) c.mem)

  pub run-pop_one :
      (h : ℕ)
      → IsHome h
      → c.sp + 8 < 2 ^ 64
      → run_words (pop_one_words h) c ≡ some (popped h (scratched c.sp c))
  unfolding insn_of exec
  run-pop_one h home deep =
      run_words-cons _ _ (add_imm 13 31 0) c refl
      ∙ run_words-cons _ _ (ldr h 13 0) _ (load_word-reads h (omega arith))
      ∙ run_words-last _ (add_imm 31 13 8) _ refl
      ∙ ground arith

  pub run-pop_pair :
      (prev h : ℕ)
      → IsHome prev
      → IsHome h
      → prev ≢ h
      → c.sp + 16 < 2 ^ 64
      → run_words (pop_pair_words prev h) c ≡ some (popped h (popped prev (scratched c.sp c)))
  unfolding insn_of exec
  run-pop_pair prev h home₁ home₂ apart deep =
      run_words-cons _ _ (add_imm 13 31 0) c refl
      ∙ run_words-cons _ _ (ldp prev h 13) _
          (ldp_word-reads h prev (omega arith) (omega arith) apart)
      ∙ run_words-last _ (add_imm 31 13 16) _ refl
      ∙ ground arith
