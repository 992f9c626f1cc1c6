-- ===== src/Decoder/Operands.antt =====
-- The registers that the decoder of src/decoder.c and src/decoder_0F.c names in an operand.
pub mod Parts
pub mod TwoByte
pub mod Opcode
pub mod Whole
use byte_shatter.Base.{
  ℕ, ◌+◌, ◌*◌, ◌/◌, ◌%◌, ◌^◌, ◌<◌, ◌≤◌, ◌≡◌, ◌∙◌, refl, ap, Bool, true, false, M, pure, fail, Error,
  if◌then◌else◌, ◌>>=◌, ◌==◌, ◌|||◌, bit, Post, ◌⊎◌, inl, inr, arith, sym, returns, raises,
  Post-bind, Post-mono, low_bits,
}
use byte_shatter.Base.Masks.{bit_or-bit}
use byte_shatter.X86.{
  Operand, Instruction, has_reg, has_idx, set_type, add_type, add_imm, to_reg, to_imm, on_a, on_b,
}
use byte_shatter.X86.OpType
use byte_shatter.Memory.{Context, fetch8, fetch16, fetch32, fetch64}

-- Every register that an operand names is below `n`, and its scale is at most 3.
pub record IsOperand (n : ℕ) (op : Operand) : Type 0 where
  pub reg_below : has_reg op.type ≡ true → op.reg < n
  pub idx_below : has_idx op.type ≡ true → op.idx < n
  pub scale_below : has_idx op.type ≡ true → op.scale < 4

-- Of both operands, or of none if the first has no type.
pub record AreOperands (n : ℕ) (buf : Instruction) : Type 0 where
  pub of_a : IsOperand n buf.a
  pub of_b : IsOperand n buf.b

abbrev pub IsReadable : ℕ → Instruction → Type 0
IsReadable n buf = (buf.a.type ≡ 0) ⊎ AreOperands n buf

-- A computation that returns what `P` says, if it returns.
pub record Gives {A : Type 0} (P : A → Type 0) (m : M Context A) : Type 0 where
  pub after : (c : Context) → Post (λ (r : A × Context). P r.0) (m c)

module _ {A : Type 0} {P : A → Type 0} where
  pub Gives-pure : (a : A) → P a → Gives P (pure a)
  Gives-pure a p = record { after = λ c. returns p }

  pub Gives-fail : (e : Error) → Gives P (fail {A = A} e)
  Gives-fail e = record { after = λ c. raises }

  pub Gives-if :
      (b : Bool) (m n : M Context A) → Gives P m → Gives P n → Gives P (if b then m else n)
  Gives-if true m n p q = p
  Gives-if false m n p q = q

pub Gives-bind :
    {A B : Type 0} (P : A → Type 0) {Q : B → Type 0} (m : M Context A) (f : A → M Context B)
    → Gives P m
    → ((a : A) → P a → Gives Q (f a))
    → Gives Q (m >>= f)
Gives-bind P m f p q = record { after = λ c. Post-bind m f c (p.after c) λ a d h. (q a h).after d }

-- Whatever is read.
pub record Anything (n : ℕ) : Type 0 where

module _ (mem : ℕ → ℕ) where
  pub Gives-fetch8 : Gives (λ b. b < 256) (fetch8 mem)
  unfolding fetch8
  Gives-fetch8 = record { after = λ c. returns (omega arith) }

  pub Gives-fetch16 : Gives Anything (fetch16 mem)
  unfolding fetch16
  Gives-fetch16 = record { after = λ c. returns record {} }

  pub Gives-fetch32 : Gives Anything (fetch32 mem)
  unfolding fetch32
  Gives-fetch32 = record { after = λ c. returns record {} }

  pub Gives-fetch64 : Gives Anything (fetch64 mem)
  unfolding fetch64
  Gives-fetch64 = record { after = λ c. returns record {} }

-- A flag that is not added stays as it was.
bit-kept : (t u k : ℕ) → u / 2 ^ k % 2 ≡ 0 → bit (t ||| u) k ≡ bit t k
bit-kept t u k off = ap (λ (x : ℕ). x == 1) (omega (arith, bit_or-bit t u k))

pub IsOperand-if :
    {n : ℕ} (b : Bool) (x y : Operand)
    → IsOperand n x
    → IsOperand n y
    → IsOperand n (if b then x else y)
IsOperand-if true x y p q = p
IsOperand-if false x y p q = q

pub IsOperand-none : (n : ℕ) (op : Operand) → IsOperand n (set_type OpType.none op)
IsOperand-none n op = record {
  reg_below = λ h. ground arith;
  idx_below = λ h. ground arith;
  scale_below = λ h. ground arith;
}

pub IsOperand-set_imm : (n : ℕ) (op : Operand) → IsOperand n (set_type OpType.imm op)
IsOperand-set_imm n op = record {
  reg_below = λ h. ground arith;
  idx_below = λ h. ground arith;
  scale_below = λ h. ground arith;
}

pub IsOperand-set_mem : (n : ℕ) (op : Operand) → IsOperand n (set_type OpType.mem op)
IsOperand-set_mem n op = record {
  reg_below = λ h. ground arith;
  idx_below = λ h. ground arith;
  scale_below = λ h. ground arith;
}

pub IsOperand-to_imm : (n v : ℕ) (op : Operand) → IsOperand n (to_imm v op)
IsOperand-to_imm n v op = record {
  reg_below = λ h. ground arith;
  idx_below = λ h. ground arith;
  scale_below = λ h. ground arith;
}

pub IsOperand-to_reg : (n r : ℕ) (op : Operand) → r < n → IsOperand n (to_reg r op)
IsOperand-to_reg n r op fits = record {
  reg_below = λ h. fits;
  idx_below = λ h. ground arith;
  scale_below = λ h. ground arith;
}

-- A register in three bits of a byte.
pub low-below : (x : ℕ) → low_bits x 3 < 8
low-below x = omega arith

module _ (n : ℕ) (op : Operand) (p : IsOperand n op) where
  pub IsOperand-xmm : IsOperand n (add_type OpType.xmm op)
  IsOperand-xmm = record {
    reg_below = λ h. p.reg_below (sym (bit-kept op.type OpType.xmm 0 refl) ∙ h);
    idx_below = λ h. p.idx_below (sym (bit-kept op.type OpType.xmm 2 refl) ∙ h);
    scale_below = λ h. p.scale_below (sym (bit-kept op.type OpType.xmm 2 refl) ∙ h);
  }

  pub IsOperand-imm : (v : ℕ) → IsOperand n (add_imm v op)
  IsOperand-imm v = record {
    reg_below = λ h. p.reg_below (sym (bit-kept op.type OpType.imm 0 refl) ∙ h);
    idx_below = λ h. p.idx_below (sym (bit-kept op.type OpType.imm 2 refl) ∙ h);
    scale_below = λ h. p.scale_below (sym (bit-kept op.type OpType.imm 2 refl) ∙ h);
  }

  pub IsOperand-value : (v : ℕ) → IsOperand n (record op { imm = v })
  IsOperand-value v = record {
    reg_below = p.reg_below;
    idx_below = p.idx_below;
    scale_below = p.scale_below;
  }

  pub IsOperand-base :
      (r : ℕ) → r < n → IsOperand n (record op { type = op.type ||| OpType.reg; reg = r })
  IsOperand-base r fits = record {
    reg_below = λ h. fits;
    idx_below = λ h. p.idx_below (sym (bit-kept op.type OpType.reg 2 refl) ∙ h);
    scale_below = λ h. p.scale_below (sym (bit-kept op.type OpType.reg 2 refl) ∙ h);
  }

pub AreOperands-both :
    (n : ℕ) (buf : Instruction) → IsOperand n buf.a → IsOperand n buf.b → AreOperands n buf
AreOperands-both n buf p q = record { of_a = p; of_b = q }

pub ruleset give_rules = (
  Gives-pure, Gives-fail, Gives-if, Gives-bind, Gives-fetch8, Gives-fetch16, Gives-fetch32,
  Gives-fetch64,
)

pub ruleset operand_rules = (
  IsOperand-if, IsOperand-none, IsOperand-set_imm, IsOperand-to_imm, IsOperand-to_reg, low-below,
  IsOperand-xmm, IsOperand-imm, IsOperand-value, AreOperands-both,
)
