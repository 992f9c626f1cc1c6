-- ===== src/Decoder/Frame.antt =====
-- What the decoder leaves alone: everything in the context but the guest position.
pub mod Parts
use byte_shatter.Base.{
  ℕ, ◌≡◌, ◌∙◌, refl, ap, Bool, true, false, M, pure, fail, Error, if◌then◌else◌, ◌>>=◌, Post,
  returns, raises, Post-bind, Post-mono,
}
use byte_shatter.Memory.{Context, fetch8, fetch16, fetch32, fetch64}

-- `d` is `c` at some guest position.
pub record OnlyGp (c d : Context) : Type 0 where
  pub rest : d ≡ record c { gp = d.gp }

OnlyGp-trans : {c d e : Context} → OnlyGp c d → OnlyGp d e → OnlyGp c e
OnlyGp-trans {e} p q = record {
  rest = q.rest ∙ ap (λ (x : Context). record x { gp = e.gp }) p.rest;
}

-- A computation that reads guest code.
pub record Reads {A : Type 0} (m : M Context A) : Type 0 where
  pub after : (c : Context) → Post (λ (r : A × Context). OnlyGp c r.1) (m c)

module _ {A : Type 0} where
  pub Reads-pure : (a : A) → Reads (pure a)
  Reads-pure a = record { after = λ c. returns record { rest = refl } }

  pub Reads-fail : (e : Error) → Reads (fail {A = A} e)
  Reads-fail e = record { after = λ c. raises }

  pub Reads-if : (b : Bool) (m n : M Context A) → Reads m → Reads n → Reads (if b then m else n)
  Reads-if true m n p q = p
  Reads-if false m n p q = q

pub Reads-bind :
    {A B : Type 0} (m : M Context A) (f : A → M Context B)
    → Reads m
    → ((a : A) → Reads (f a))
    → Reads (m >>= f)
Reads-bind m f p q = record {
  after =
      λ c. Post-bind m f c (p.after c) λ a d h. Post-mono (λ r k. OnlyGp-trans h k) ((q a).after d);
}

module _ (mem : ℕ → ℕ) where
  pub Reads-fetch8 : Reads (fetch8 mem)
  unfolding fetch8
  Reads-fetch8 = record { after = λ c. returns record { rest = refl } }

  pub Reads-fetch16 : Reads (fetch16 mem)
  unfolding fetch16
  Reads-fetch16 = record { after = λ c. returns record { rest = refl } }

  pub Reads-fetch32 : Reads (fetch32 mem)
  unfolding fetch32
  Reads-fetch32 = record { after = λ c. returns record { rest = refl } }

  pub Reads-fetch64 : Reads (fetch64 mem)
  unfolding fetch64
  Reads-fetch64 = record { after = λ c. returns record { rest = refl } }

pub ruleset read_rules = (
  Reads-pure, Reads-fail, Reads-if, Reads-bind, Reads-fetch8, Reads-fetch16, Reads-fetch32,
  Reads-fetch64,
)
