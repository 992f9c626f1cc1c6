-- ===== src/Translate/Joining.antt =====
-- `decode` of src/decoder.c reaches code that the cache knows: the branch to it.
use byte_shatter.Base.{
  ◌*◌, ◌|||◌, low_bits, ◌≢◌, ℕ, ◌+◌, ◌^◌, ◌≡◌, ◌∙◌, refl, ap, none, some, Option, Bool, true, false,
  arith, leb, if◌then◌else◌, if_cases, update, u8, u32, ok, err, M, pure, get, when, null_pointer,
  ◌>>=◌, ◌>>◌, Post, returns, raises, Post-bind, Post-mono,
}
use byte_shatter.Jit.{Jit, emit32}
use byte_shatter.Arm.Branch.{branch_of, always}
use byte_shatter.Cache.Blocks.{
  cache_block_start, close_block, cache_block_end, cache_block_point, current_block, store_offset,
}
use byte_shatter.Cache.Search.{cache_search}
use byte_shatter.Patcher.{word_offset, jump_word}
use byte_shatter.Patcher.Branches.{InReach, moved-26, jump_word-sum, branch_of-always}
use byte_shatter.Translate.{branch_word, guest_address, join_cached}

-- `t` has the host words of `s`, up to the same position.
pub record IsSteady (s t : Jit) : Type 0 where
  pub same_hp : t.context.hp ≡ s.context.hp
  pub same_code : t.code ≡ s.code

pub record Steady {A : Type 0} (m : M Jit A) : Type 0 where
  pub after : (s : Jit) → Post (λ (r : A × Jit). IsSteady s r.1) (m s)

stays : (s : Jit) → IsSteady s s
stays s = record { same_hp = refl; same_code = refl }

Steady-bind :
    {A B : Type 0} (m : M Jit A) (f : A → M Jit B)
    → Steady m
    → ((a : A) → Steady (f a))
    → Steady (m >>= f)
Steady-bind m f p q = record {
  after = λ s. Post-bind m f s (p.after s) λ a t h.
      Post-mono
        (λ r k. record { same_hp = k.same_hp ∙ h.same_hp; same_code = k.same_code ∙ h.same_code })
        ((q a).after t);
}

Steady-pure : {A : Type 0} (a : A) → Steady (pure a)
Steady-pure a = record { after = λ s. returns (stays s) }

Steady-get : Steady get
Steady-get = record { after = λ s. returns (stays s) }

Steady-if :
    {A : Type 0} (b : Bool) (m n : M Jit A) → Steady m → Steady n → Steady (if b then m else n)
Steady-if true m n p q = p
Steady-if false m n p q = q

Steady-when : (b : Bool) (m : M Jit (Unit {0})) → Steady m → Steady (when b m)
Steady-when true m p = p
Steady-when false m p = Steady-pure tt

indexed :
    (s : Jit) (o : Option ℕ)
    → Post {A = ℕ × Jit}
        (λ r. IsSteady s r.1)
        (elim o [ none ↦ err null_pointer | some i ↦ ok (i, s) ])
indexed s none = raises
indexed s (some i) = returns (stays s)

Steady-current_block : Steady current_block
Steady-current_block = record { after = λ s. indexed s s.context.block }

Steady-cache_block_start : Steady cache_block_start
unfolding cache_block_start
Steady-cache_block_start = record {
  after = λ s.
      if_cases (Post {A = Unit {0} × Jit} (λ r. IsSteady s r.1))
        (leb s.anchor.blocks_c (s.anchor.blocks_p + 1)) (λ full. raises)
        λ room. returns record { same_hp = refl; same_code = refl };
}

Steady-close_block : (i : ℕ) → Steady (close_block i)
unfolding close_block
Steady-close_block i = record {
  after = λ s.
      if_cases (Post {A = Unit {0} × Jit} (λ r. IsSteady s r.1)) (leb s.anchor.host_c s.context.hp)
        (λ full. raises) λ room. returns record { same_hp = refl; same_code = refl };
}

Steady-store_offset : (goff hogg : ℕ) → Steady (store_offset goff hogg)
unfolding store_offset
Steady-store_offset goff hogg = record {
  after = λ s.
      if_cases (Post {A = Unit {0} × Jit} (λ r. IsSteady s r.1))
        (leb s.anchor.offsets_c (s.anchor.offsets_p + u8 (s.context.loffp + 1))) (λ full. raises)
        λ room. returns record { same_hp = refl; same_code = refl };
}

ruleset steady_rules = (
  Steady-bind, Steady-pure, Steady-get, Steady-if, Steady-when, Steady-current_block,
  Steady-cache_block_start, Steady-close_block, Steady-store_offset,
)

Steady-cache_block_end : Steady cache_block_end
unfolding cache_block_end
Steady-cache_block_end = search steady_rules depth 10

Steady-cache_block_point : Steady cache_block_point
unfolding cache_block_point
Steady-cache_block_point = search (steady_rules, Steady-cache_block_end) depth 16

branch_word-branches :
    (target hp : ℕ)
    → InReach 25 target hp
    → branch_of hp (u32 (branch_word target hp)) ≡ some (always target)
branch_word-branches target hp reach =
    ap (λ (w : ℕ). branch_of hp (u32 w)) wrapped
    ∙ ap (branch_of hp) (jump_word-sum 5 (word_offset target hp) (omega arith))
    ∙ branch_of-always (low_bits (word_offset target hp) 26) hp (omega arith)
    ∙ ap (λ t. some (always t)) (moved-26 target hp reach)
  where
    wrapped : branch_word target hp ≡ jump_word (5 * 2 ^ 26) (word_offset target hp)
    wrapped = ap (λ (o : ℕ). 0x14000000 ||| o) (omega arith)

-- The word at the host position of `s` is a branch to `target` in `t`, which stands behind it.
pub record Joined (s : Jit) (target : ℕ) (t : Jit) : Type 0 where
  pub branches : branch_of s.context.hp (t.code s.context.hp) ≡ some (always target)
  pub others : (j : ℕ) → j ≢ s.context.hp → t.code j ≡ s.code j
  pub one_word : t.context.hp ≡ u32 (s.context.hp + 1)

emitted-Joined :
    (s t : Jit) (target : ℕ)
    → InReach 25 target s.context.hp
    → IsSteady s t
    → Post {A = Bool × Jit}
        (λ r. (r.0 ≡ true) × Joined s target r.1)
        ((emit32 (branch_word target s.context.hp) >> pure true) t)
unfolding emit32
emitted-Joined s t target reach same = returns (
  refl,
  record {
    branches = ap (branch_of s.context.hp) there ∙ branch_word-branches target s.context.hp reach;
    others = λ j n. ground (arith, ap (λ (f : ℕ → ℕ). f j) same.same_code);
    one_word = ap (λ (h : ℕ). u32 (h + 1)) same.same_hp;
  },
)
  where
    there :
        update t.code t.context.hp (u32 (branch_word target s.context.hp)) s.context.hp
        ≡ u32 (branch_word target s.context.hp)
    there = ground arith

-- When the cache knows the next guest address and its host word is within 2 ^ 25 words: if join_cached
-- returns, it ends the loop, and has put one branch to that word at the host position and changed no
-- other host word.
pub join_cached-Joined :
    (s : Jit) (target : ℕ)
    → cache_search s.anchor (guest_address s) ≡ some target
    → InReach 25 target s.context.hp
    → Post {A = Bool × Jit} (λ r. (r.0 ≡ true) × Joined s target r.1) (join_cached s)
unfolding join_cached
join_cached-Joined s target found reach =
    rw (found, join_cached)
      (Post-bind cache_block_point (λ _. emit32 (branch_word target s.context.hp) >> pure true) s
        (Steady-cache_block_point.after s) λ _ t same. emitted-Joined s t target reach same)
