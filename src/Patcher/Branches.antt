-- ===== src/Patcher/Branches.antt =====
-- The words that `brk_handler` of src/patcher.c writes: where they branch to, and when.
use byte_shatter.Base.{
  ℕ, ◌+◌, ◌-◌, ◌*◌, ◌^◌, ◌<◌, ◌≤◌, ◌≡◌, ◌∙◌, refl, ap, Bool, not, some, ok, arith, ltb, leb, ◌==◌,
  if◌then◌else◌, u32, update, low_bits,
}
use byte_shatter.Base.Bits.{bit_or_below, bit_or_insert}
use byte_shatter.X86.Instr
use byte_shatter.Translate.{Shatter}
use byte_shatter.Patcher.{cond_word, jump_word, patched_word, word_offset, write_branch}
use byte_shatter.Arm.Branch.{conditional, always, linked, branch_of, moved, subs_flags, holds}

-- The order of signed numbers of which `h` is the sign bit.
abbrev pub flip : ℕ → ℕ → ℕ
flip h a = if ltb a h then a + h else a - h

abbrev pub slt : ℕ → ℕ → ℕ → Bool
slt h a b = ltb (flip h a) (flip h b)

-- The conditional jumps of x86-64 that the encoder knows, each with what it means after CMP a, b,
-- and with the host's name of that condition.
pub data Jcc : Type 0 where
  less less_eq equal above_eq not_equal greater greater_eq below_eq : Jcc

abbrev pub jcc_type : Jcc → ℕ
jcc_type less = Instr.jl
jcc_type less_eq = Instr.jle
jcc_type equal = Instr.je
jcc_type above_eq = Instr.jae
jcc_type not_equal = Instr.jne
jcc_type greater = Instr.jg
jcc_type greater_eq = Instr.jge
jcc_type below_eq = Instr.jbe

abbrev pub taken : Jcc → ℕ → ℕ → ℕ → Bool
taken less h a b = slt h a b
taken less_eq h a b = not (slt h b a)
taken equal h a b = a == b
taken above_eq h a b = leb b a
taken not_equal h a b = not (a == b)
taken greater h a b = slt h b a
taken greater_eq h a b = not (slt h a b)
taken below_eq h a b = leb a b

abbrev host_cond : Jcc → ℕ
host_cond less = 11
host_cond less_eq = 13
host_cond equal = 0
host_cond above_eq = 2
host_cond not_equal = 1
host_cond greater = 12
host_cond greater_eq = 10
host_cond below_eq = 9

-- The condition, tested on the flags of the subtraction, is the comparison.
host_cond-taken :
    (j : Jcc) (h a b : ℕ)
    → 0 < h
    → a < 2 * h
    → b < 2 * h
    → holds (host_cond j) (subs_flags h a b) ≡ taken j h a b
unfolding holds subs_flags
host_cond-taken less h a b p q r = ground arith
host_cond-taken less_eq h a b p q r = ground arith
host_cond-taken equal h a b p q r = ground arith
host_cond-taken above_eq h a b p q r = ground arith
host_cond-taken not_equal h a b p q r = ground arith
host_cond-taken greater h a b p q r = ground arith
host_cond-taken greater_eq h a b p q r = ground arith
host_cond-taken below_eq h a b p q r = ground arith

-- `block` is fewer than 2 ^ k words away from `pc`.
pub record InReach (k block pc : ℕ) : Type 0 where
  pub index : block < 2 ^ 32
  pub from : pc < 2 ^ 32
  pub ahead : block < pc + 2 ^ k
  pub behind : pc ≤ block + 2 ^ k

branch_of-conditional :
    (cond off pc : ℕ)
    → cond < 16
    → off < 2 ^ 19
    → branch_of pc (0x54000000 + off * 2 ^ 5 + cond) ≡ some (conditional cond (moved 19 pc off))
unfolding branch_of
branch_of-conditional cond off pc a b = ground arith

pub branch_of-always :
    (off pc : ℕ) → off < 2 ^ 26 → branch_of pc (0x14000000 + off) ≡ some (always (moved 26 pc off))
unfolding branch_of
branch_of-always off pc b = ground arith

branch_of-linked :
    (off pc : ℕ) → off < 2 ^ 26 → branch_of pc (0x94000000 + off) ≡ some (linked (moved 26 pc off))
unfolding branch_of
branch_of-linked off pc b = ground arith

-- The low bits of the difference lead back to the block.
moved-19 :
    (block pc : ℕ) → InReach 18 block pc → moved 19 pc (low_bits (word_offset block pc) 19) ≡ block
moved-19 block pc reach = ground arith

pub moved-26 :
    (block pc : ℕ) → InReach 25 block pc → moved 26 pc (low_bits (word_offset block pc) 26) ≡ block
moved-26 block pc reach = ground arith

cond_word-sum :
    (cond off : ℕ)
    → cond < 16
    → u32 (cond_word (0x54000000 + cond) off) ≡ 0x54000000 + low_bits off 19 * 2 ^ 5 + cond
cond_word-sum cond off small =
    ground (arith, bit_or_insert 19 5 0x54 (low_bits off 19) cond (omega arith) (omega arith))

pub jump_word-sum :
    (h off : ℕ) → h < 2 ^ 6 → u32 (jump_word (h * 2 ^ 26) off) ≡ h * 2 ^ 26 + low_bits off 26
jump_word-sum h off small = ground (arith, bit_or_below 26 h (low_bits off 26) (omega arith))

cond_word-branches :
    (cond block pc : ℕ)
    → cond < 16
    → InReach 18 block pc
    → branch_of pc (u32 (cond_word (0x54000000 + cond) (word_offset block pc)))
      ≡ some (conditional cond block)
cond_word-branches cond block pc small reach =
    rw (cond_word-sum cond (word_offset block pc) small) (
      branch_of-conditional cond (low_bits (word_offset block pc) 19) pc small (omega arith)
      ∙ ap (λ t. some (conditional cond t)) (moved-19 block pc reach))

-- Every conditional jump becomes the branch with its condition.
patched_word-conditional :
    (j : Jcc) (off : ℕ)
    → patched_word (jcc_type j) off ≡ ok (cond_word (0x54000000 + host_cond j) off)
unfolding patched_word
patched_word-conditional less off = refl
patched_word-conditional less_eq off = refl
patched_word-conditional equal off = refl
patched_word-conditional above_eq off = refl
patched_word-conditional not_equal off = refl
patched_word-conditional greater off = refl
patched_word-conditional greater_eq off = refl
patched_word-conditional below_eq off = refl

host_cond-lt : (j : Jcc) → host_cond j < 16
host_cond-lt less = omega arith
host_cond-lt _ = omega arith

-- The BRK at `pc` is replaced by `w`, and nothing else changes.
abbrev pub written : ℕ → ℕ → Shatter → Shatter
written pc w s = record s { jit = record (s.jit) { code = update s.jit.code pc w } }

write_branch-eq :
    (type block pc word : ℕ) (s : Shatter)
    → patched_word type (word_offset block pc) ≡ ok word
    → write_branch type block pc s ≡ ok (tt, written pc (u32 word) s)
unfolding write_branch
write_branch-eq type block pc word s e = rw (e, write_branch)

-- For each conditional jump that the encoder knows and a block within 2 ^ 18 words, the BRK at `pc`
-- is replaced by a branch to the block, on a condition that holds of the flags of a subtraction of
-- numbers below 2 * h exactly when the x86-64 jump is taken after CMP of them (2 * h is 2 ^ 32 or
-- 2 ^ 64 there, and h the sign bit). Nothing else changes.
pub write_branch-conditional :
    (j : Jcc) (block pc : ℕ) (s : Shatter) (h a b : ℕ)
    → InReach 18 block pc
    → 0 < h
    → a < 2 * h
    → b < 2 * h
    → (w cond : ℕ) × (write_branch (jcc_type j) block pc s ≡ ok (tt, written pc w s))
      × (branch_of pc w ≡ some (conditional cond block))
      × (holds cond (subs_flags h a b) ≡ taken j h a b)
write_branch-conditional j block pc s h a b reach p q r = (
  _,
  host_cond j,
  write_branch-eq (jcc_type j) block pc _ s (patched_word-conditional j (word_offset block pc)),
  cond_word-branches (host_cond j) block pc (host_cond-lt j) reach,
  host_cond-taken j h a b p q r,
)

-- A patched JMP is a branch to the block and a patched CALL a linked branch to it, for a block
-- within 2 ^ 25 words.
pub write_branch-unconditional :
    (block pc : ℕ) (s : Shatter)
    → InReach 25 block pc
    → ((w : ℕ) × (write_branch Instr.jmp block pc s ≡ ok (tt, written pc w s))
        × (branch_of pc w ≡ some (always block)))
      × ((w : ℕ) × (write_branch Instr.call block pc s ≡ ok (tt, written pc w s))
          × (branch_of pc w ≡ some (linked block)))
unfolding patched_word
write_branch-unconditional block pc s reach = (
  (
    _,
    write_branch-eq Instr.jmp block pc _ s refl,
    rw (jump_word-sum 5 (word_offset block pc) (omega arith)) (
        branch_of-always (low_bits (word_offset block pc) 26) pc (omega arith)
        ∙ ap (λ t. some (always t)) (moved-26 block pc reach)),
  ),
  (
    _,
    write_branch-eq Instr.call block pc _ s refl,
    rw (jump_word-sum 0x25 (word_offset block pc) (omega arith)) (
        branch_of-linked (low_bits (word_offset block pc) 26) pc (omega arith)
        ∙ ap (λ t. some (linked t)) (moved-26 block pc reach)),
  ),
)
