-- ===== src/Contexts/Ownership.antt =====
-- Who holds a context of the pool of src/memory.c.
use byte_shatter.Base.{
  ℕ, zero, suc, ◌+◌, ◌<◌, ◌≡◌, ◌≢◌, ◌∙◌, refl, ap, subst, sym, if_cases, Bool, true, false, List,
  [], ◌∷◌, Option, none, some, arith, get_elem?, ok, err, no_free_context, ◌⊎◌, inl, inr,
}
use byte_shatter.Memory.{Context}
use byte_shatter.Jit.{Anchor}
use byte_shatter.Contexts.{
  context_search, context_pull, context_free, pulled, pull_found, put_context,
}

abbrev busy : Context → Context
busy c = record c { in_use = true }

-- Every context is in use.
abbrev pub AllBusy : List Context → Type 0
AllBusy pool = (j : ℕ) (d : Context) → get_elem? pool j ≡ some d → d.in_use ≡ true

-- `after` is `pool` with context `c` at index `i`, where `d` was the first free one.
pub record Claimed (pool : List Context) (i : ℕ) (d c : Context) (after : List Context)
    : Type 0 where
  pub there : get_elem? pool i ≡ some d
  pub was_free : d.in_use ≡ false
  pub first : (j : ℕ) (e : Context) → j < i → get_elem? pool j ≡ some e → e.in_use ≡ true
  pub taken : get_elem? after i ≡ some c
  pub others : (j : ℕ) → j ≢ i → get_elem? after j ≡ get_elem? pool j
  pub returned :
      (e : Context)
      → context_free i (put_context i e after) ≡ put_context i (record e { in_use = false }) pool

-- The outcome of a search that counts from `k`.
pub data Searched (k : ℕ) (pool : List Context) : Option (ℕ × Context × List Context) → Type 0 where
  none_free : AllBusy pool → Searched k pool none
  claimed :
      {i : ℕ} {d : Context} {after : List Context}
      → Claimed pool i d (busy d) after
      → Searched k pool (some (k + i, busy d, after))

-- The contexts of an optional one are in use.
abbrev is_used : Option Context → Bool
is_used none = true
is_used (some c) = c.in_use

AllBusy-nil : AllBusy []
AllBusy-nil j d h = absurd (ground arith)

AllBusy-cons : (c : Context) (cs : List Context) → c.in_use ≡ true → AllBusy cs → AllBusy (c ∷ cs)
AllBusy-cons c cs used rest zero d h = sym (ap is_used h) ∙ used
AllBusy-cons c cs used rest (suc j) d h = rest j d h

module _ (c : Context) (cs : List Context) where
  -- The first context is in use.
  Claimed-later :
      (i : ℕ) (d : Context) (after : List Context)
      → c.in_use ≡ true
      → Claimed cs i d (busy d) after
      → Claimed (c ∷ cs) (suc i) d (busy d) (c ∷ after)
  unfolding context_free
  Claimed-later i d after used k = record {
    there = k.there;
    was_free = k.was_free;
    first = first;
    taken = k.taken;
    others = others;
    returned = λ e. ap (λ l. c ∷ l) (k.returned e);
  }
    where
      first : (j : ℕ) (e : Context) → j < suc i → get_elem? (c ∷ cs) j ≡ some e → e.in_use ≡ true
      first zero e lt h = sym (ap is_used h) ∙ used
      first (suc j) e lt h = k.first j e (omega arith) h

      others : (j : ℕ) → j ≢ suc i → get_elem? (c ∷ after) j ≡ get_elem? (c ∷ cs) j
      others zero n = refl
      others (suc j) n = k.others j (λ e. n (ap suc e))

  -- The first context is free.
  Claimed-now : c.in_use ≡ false → Claimed (c ∷ cs) 0 c (busy c) (busy c ∷ cs)
  unfolding context_free
  Claimed-now idle = record {
    there = refl;
    was_free = idle;
    first = λ j e lt h. absurd (omega arith);
    taken = refl;
    others = others;
    returned = λ e. refl;
  }
    where
      others : (j : ℕ) → j ≢ 0 → get_elem? (busy c ∷ cs) j ≡ get_elem? (c ∷ cs) j
      others zero n = absurd (n refl)
      others (suc j) n = refl

  -- The first context is in use, and the rest is searched.
  Searched-later :
      (k : ℕ) (rest : Option (ℕ × Context × List Context))
      → c.in_use ≡ true
      → Searched (k + 1) cs rest
      → Searched k (c ∷ cs) (elim rest [ none ↦ none | some (j, d, ds) ↦ some (j, d, c ∷ ds) ])
  Searched-later k none used (none_free all) = none_free (AllBusy-cons c cs used all)
  Searched-later k (some _) used (claimed {i} {d} {after} claim) =
      subst (λ n. Searched k (c ∷ cs) (some (n, busy d, c ∷ after))) (omega arith)
        (claimed (Claimed-later i d after used claim))

context_search-Searched : (k : ℕ) (pool : List Context) → Searched k pool (context_search k pool)
unfolding context_search
context_search-Searched k [] = none_free AllBusy-nil
context_search-Searched k (c ∷ cs) =
    if_cases (Searched k (c ∷ cs)) c.in_use
      (λ used.
        Searched-later c cs k (context_search (k + 1) cs) used (context_search-Searched (k + 1) cs))
      λ idle.
        subst (λ n. Searched k (c ∷ cs) (some (n, busy c, busy c ∷ cs))) (omega arith)
          (claimed (Claimed-now c cs idle))

-- A context that is ready to translate from guest address `gp`, with the rest of the anchor free.
pub record IsReady (a : Anchor) (gp : ℕ) (c : Context) : Type 0 where
  pub address : c.guest + c.gp ≡ gp
  pub position : c.hp ≡ a.host_p
  pub no_block : c.block ≡ none
  pub no_points : c.loffp ≡ 0
  pub held : c.in_use ≡ true

put_context-there :
    (i : ℕ) (c d : Context) (pool : List Context)
    → get_elem? pool i ≡ some d
    → get_elem? (put_context i c pool) i ≡ some c
put_context-there i c d [] h = absurd (ground arith)
put_context-there zero c d (e ∷ pool) h = refl
put_context-there (suc i) c d (e ∷ pool) h = put_context-there i c d pool h

put_context-others :
    (i j : ℕ) (c : Context) (pool : List Context)
    → j ≢ i
    → get_elem? (put_context i c pool) j ≡ get_elem? pool j
put_context-others i j c [] n = refl
put_context-others zero zero c (e ∷ pool) n = absurd (n refl)
put_context-others zero (suc j) c (e ∷ pool) n = refl
put_context-others (suc i) zero c (e ∷ pool) n = refl
put_context-others (suc i) (suc j) c (e ∷ pool) n =
    put_context-others i j c pool (λ h. n (ap suc h))

put_context_twice :
    (i : ℕ) (c d : Context) (pool : List Context)
    → put_context i c (put_context i d pool) ≡ put_context i c pool
put_context_twice i c d [] = refl
put_context_twice zero c d (e ∷ pool) = refl
put_context_twice (suc i) c d (e ∷ pool) = ap (λ l. e ∷ l) (put_context_twice i c d pool)

-- The context that was found is filled in.
Claimed-put :
    {pool : List Context} {i : ℕ} {d b : Context} {after : List Context} (c : Context)
    → Claimed pool i d b after
    → Claimed pool i d c (put_context i c after)
Claimed-put {i} {b} {after} c k = record {
  there = k.there;
  was_free = k.was_free;
  first = k.first;
  taken = put_context-there i c b after k.taken;
  others = λ j n. put_context-others i j c after n ∙ k.others j n;
  returned = λ e. ap (context_free i) (put_context_twice i e c after) ∙ k.returned e;
}

-- Either every context is in use, and context_pull ends in an error; or it takes the first free one, which
-- is then in use and ready for `gp`, and touches no other. Whatever its holder makes of that context,
-- context_free gives back the pool as it was but for that one, which is free.
pub context_pull-Claimed :
    (a : Anchor) (gp : ℕ) (pool : List Context)
    → (AllBusy pool × (context_pull a gp pool ≡ err no_free_context))
      ⊎ ((i : ℕ) × (c d : Context) × (after : List Context) × (context_pull a gp pool
            ≡ ok (i, c, after))
          × Claimed pool i d c after
          × IsReady a gp c)
unfolding context_pull
context_pull-Claimed a gp pool = cases (context_search 0 pool) (context_search-Searched 0 pool)
  where
    cases :
        (r : Option (ℕ × Context × List Context))
        → Searched 0 pool r
        → (AllBusy pool × (pull_found a gp r ≡ err no_free_context))
          ⊎ ((i : ℕ) × (c d : Context) × (after : List Context) × (pull_found a gp r
                ≡ ok (i, c, after))
              × Claimed pool i d c after
              × IsReady a gp c)
    cases none (none_free all) = inl (all, refl)
    cases (some _) (claimed {i} {d} {after} claim) = inr (
      0 + i,
      pulled a gp (busy d),
      d,
      put_context (0 + i) (pulled a gp (busy d)) after,
      refl,
      Claimed-put (pulled a gp (busy d))
          (subst (λ n. Claimed pool n d (busy d) after) (omega arith) claim),
      record {
        address = omega arith;
        position = refl;
        no_block = refl;
        no_points = refl;
        held = refl;
      },
    )
