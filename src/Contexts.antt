-- ===== src/Contexts.antt =====
-- The pool of contexts of src/memory.c: `context_init`, `context_search`, `context_pull` and
-- `context_free`. The pool is the array `contexts`; a pointer to a context is its index.
pub mod Ownership
use byte_shatter.Base.{
  ℕ, zero, suc, ◌+◌, ◌*◌, ◌/◌, ◌^◌, true, false, List, [], ◌∷◌, Option, none, some, ◌==◌,
  if◌then◌else◌, u32, Result, ok, err, no_free_context,
}
use byte_shatter.Memory.{Context}
use byte_shatter.Jit.{Anchor}

-- `n` entries of the array, from entry `i` on.
unfoldable pub take_fresh : (ℕ → Context) → ℕ → ℕ → List Context
take_fresh fresh zero i = []
take_fresh fresh (suc n) i = fresh i ∷ take_fresh fresh n (i + 1)

-- sysconf reports how many processors are online; the array comes from malloc.
unfoldable pub context_init : ℕ → (ℕ → Context) → List Context
unfolding take_fresh
context_init online fresh = take_fresh fresh (if online == 0 then 1 else online) 0

-- The first context that is free, counted from `i`, is marked and returned.
unfoldable pub context_search : ℕ → List Context → Option (ℕ × Context × List Context)
context_search i [] = none
context_search i (c ∷ cs) =
    let rest = context_search (i + 1) cs in
    if c.in_use
    then (elim rest [ none ↦ none | some (j, d, ds) ↦ some (j, d, c ∷ ds) ])
    else (let taken = record c { in_use = true } in some (i, taken, taken ∷ cs))

-- The fields that context_pull sets.
abbrev pub pulled : Anchor → ℕ → Context → Context
pulled a gp c = record {
  block = none;
  offsets = a.offsets_p;
  guest = gp / 2 ^ 32 * 2 ^ 32;
  host = a.host;
  gp = u32 gp;
  hp = a.host_p;
  loffp = 0;
  in_use = c.in_use;
}

-- A store to the context at index `i`. A context that is held is passed on by value, and what its holder
-- has made of it is stored when it is freed.
abbrev pub put_context : ℕ → Context → List Context → List Context
put_context i c [] = []
put_context zero c (d ∷ cs) = c ∷ cs
put_context (suc i) c (d ∷ cs) = d ∷ put_context i c cs

-- What context_pull makes of the outcome of the search.
abbrev pub pull_found :
    Anchor → ℕ → Option (ℕ × Context × List Context) → Result (ℕ × Context × List Context)
pull_found a gp none = err no_free_context
pull_found a gp (some (i, c, pool)) =
    let taken = pulled a gp c in ok (i, taken, put_context i taken pool)

unfoldable pub context_pull : Anchor → ℕ → List Context → Result (ℕ × Context × List Context)
context_pull a gp pool = pull_found a gp (context_search 0 pool)

-- atomic_store(&context->in_use, 0), for the context at index `i`
unfoldable pub context_free : ℕ → List Context → List Context
context_free i [] = []
context_free zero (c ∷ cs) = record c { in_use = false } ∷ cs
context_free (suc i) (c ∷ cs) = c ∷ context_free i cs
