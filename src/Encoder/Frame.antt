-- ===== src/Encoder/Frame.antt =====
-- What `encode` of src/encoder.c leaves alone: the guest's position, the blocks and their points.
pub mod Parts
pub mod Arithmetic
pub mod Others
pub mod Whole
use byte_shatter.Base.{
  ℕ, ◌≡◌, ◌∙◌, refl, ap, Bool, true, false, M, pure, fail, get, modify, when, Error, if◌then◌else◌,
  ◌>>=◌, ◌>>◌, Result, ok, err, Post, returns, raises, Post-bind, Post-mono, update, if_cases, ltb,
}
use byte_shatter.Memory.{Context}
use byte_shatter.Jit.{Anchor, Jit, emit32, patch}
use byte_shatter.Cache.Jumps.Numbers.{jump_of}
use byte_shatter.Cache.Jumps.{take_slot, cache_patch_point}

-- `t` differs from `s` in the host position, the host words, the pool of jumps and the static variables
-- of the encoder at most.
pub record Framed (s t : Jit) : Type 0 where
  pub position : t.context ≡ record (s.context) { hp = t.context.hp }
  pub tables : t.anchor ≡ record (s.anchor) {
    jumps = t.anchor.jumps;
    jumps_p = t.anchor.jumps_p;
    jumps_c = t.anchor.jumps_c;
    jumps_reuse_p = t.anchor.jumps_reuse_p;
  }

Framed-refl : (s : Jit) → Framed s s
Framed-refl s = record { position = refl; tables = refl }

Framed-trans : {s t u : Jit} → Framed s t → Framed t u → Framed s u
Framed-trans {s} {t} {u} p q = record {
  position = q.position ∙ ap (λ (c : Context). record c { hp = u.context.hp }) p.position;
  tables =
      q.tables
      ∙ ap
          (λ (a : Anchor). record a {
            jumps = u.anchor.jumps;
            jumps_p = u.anchor.jumps_p;
            jumps_c = u.anchor.jumps_c;
            jumps_reuse_p = u.anchor.jumps_reuse_p;
          })
          p.tables;
}

-- A computation after which that is so, if it returns.
pub record Frames {A : Type 0} (m : M Jit A) : Type 0 where
  pub after : (s : Jit) → Post (λ (r : A × Jit). Framed s r.1) (m s)

module _ {A : Type 0} where
  pub Frames-pure : (a : A) → Frames (pure a)
  Frames-pure a = record { after = λ s. returns (Framed-refl s) }

  pub Frames-fail : (e : Error) → Frames (fail {A = A} e)
  Frames-fail e = record { after = λ s. raises }

  pub Frames-if : (b : Bool) (m n : M Jit A) → Frames m → Frames n → Frames (if b then m else n)
  Frames-if true m n p q = p
  Frames-if false m n p q = q

pub Frames-get : Frames get
Frames-get = record { after = λ s. returns (Framed-refl s) }

pub Frames-when : (b : Bool) (m : M Jit (Unit {0})) → Frames m → Frames (when b m)
Frames-when true m p = p
Frames-when false m p = Frames-pure tt

pub Frames-bind :
    {A B : Type 0} (m : M Jit A) (f : A → M Jit B)
    → Frames m
    → ((a : A) → Frames (f a))
    → Frames (m >>= f)
Frames-bind m f p q = record {
  after =
      λ s. Post-bind m f s (p.after s) λ a t h. Post-mono (λ r k. Framed-trans h k) ((q a).after t);
}

pub Frames-emit32 : (w : ℕ) → Frames (emit32 w)
unfolding emit32
Frames-emit32 w = record { after = λ s. returns record { position = refl; tables = refl } }

pub Frames-patch : (n : ℕ) → Frames (patch n)
unfolding patch
Frames-patch n = record { after = λ s. returns record { position = refl; tables = refl } }

take_slot-tables :
    (a : Anchor)
    → (take_slot a).1 ≡ record a {
      jumps_p = (take_slot a).1.jumps_p;
      jumps_c = (take_slot a).1.jumps_c;
      jumps_reuse_p = (take_slot a).1.jumps_reuse_p;
    }
unfolding take_slot
take_slot-tables a =
    if_cases {A = ℕ × Anchor}
      (λ r. r.1 ≡ record a {
        jumps_p = r.1.jumps_p;
        jumps_c = r.1.jumps_c;
        jumps_reuse_p = r.1.jumps_reuse_p;
      })
      (ltb 0 a.jumps_reuse_p) (λ h. refl) λ h. refl

pub Frames-cache_patch_point : (type offset : ℕ) → Frames (cache_patch_point type offset)
unfolding cache_patch_point
Frames-cache_patch_point type offset = record {
  after = λ s. returns record {
    position = refl;
    tables =
        ap
          (λ (a : Anchor). record a {
            jumps =
                update (take_slot s.anchor).1.jumps (take_slot s.anchor).0 (jump_of type offset s);
          })
          (take_slot-tables s.anchor);
  };
}

pub ruleset frame_rules = (
  Frames-pure, Frames-fail, Frames-if, Frames-get, Frames-when, Frames-bind, Frames-emit32,
  Frames-patch, Frames-cache_patch_point,
)
