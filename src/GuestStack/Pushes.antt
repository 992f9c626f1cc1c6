-- ===== src/GuestStack/Pushes.antt =====
-- What each part of the filling of the stack (src/stack.c) adds to it: the environment, the
-- auxiliary vector, the arguments, and their count.
use mathlib.Core.List.{reverse, append_assoc, map-append, reverse-cons}
use byte_shatter.Base.{
  ℕ, ◌+◌, ◌-◌, ◌*◌, ◌%◌, ◌<◌, ◌^◌, ◌≡◌, ap, refl, subst, some, List, [], ◌∷◌, ◌++◌, map, length,
  u64, u32, arith, ◌==◌, if_cases, ==_iff,
}
use byte_shatter.GuestStack.{
  GuestStack, stack_size, push_word, put_string, realign, push_argc, push_arg, push_envp, push_envs,
  push_args, AuxEntry, set_auxv,
}
use byte_shatter.GuestStack.Words.{IsStack, push_word-IsStack, push_string-IsStack, realign-IsStack}

-- The room that strings take: their characters, the zero, and a pointer.
abbrev pub needed : List (List ℕ) → ℕ
needed [] = 0
needed (str ∷ rest) = needed rest + (length str + 9)

-- A pointer with the string at it.
abbrev pub Placed : Type 0
Placed = List (ℕ × List ℕ)

abbrev pub pointers : Placed → List ℕ
pointers = map (λ (e : ℕ × List ℕ). e.0)

abbrev pub texts : Placed → List (List ℕ)
texts = map (λ (e : ℕ × List ℕ). e.1)

abbrev pub aux_words : List AuxEntry → List ℕ
aux_words [] = []
aux_words (a ∷ rest) = u64 a.a_type ∷ u64 a.a_val ∷ aux_words rest

abbrev pub SameVars : GuestStack → GuestStack → Type 0
SameVars s t = (t.stack ≡ s.stack) × (t.argc ≡ s.argc)

pub set_auxv-IsStack :
    (entries : List AuxEntry) (s : GuestStack) (end spare : ℕ) (ws : List ℕ) (strs : Placed)
    → IsStack s end (spare + 16 * length entries) ws strs
    → IsStack (set_auxv entries s) end spare (aux_words entries ++ ws) strs
unfolding set_auxv
set_auxv-IsStack [] s end spare ws strs h =
    subst (λ (n : ℕ). IsStack s end n ws strs) (omega arith) h
set_auxv-IsStack (a ∷ entries) s end spare ws strs h =
    push_word-IsStack a.a_type _ end spare _ strs (
      push_word-IsStack a.a_val _ end (spare + 8) _ strs (
        set_auxv-IsStack entries s end (spare + 8 + 8) ws strs
          (subst (λ (n : ℕ). IsStack s end n ws strs) (omega arith) h)))

pub set_auxv-SameVars : (entries : List AuxEntry) (s : GuestStack) → SameVars s (set_auxv entries s)
unfolding set_auxv push_word
set_auxv-SameVars [] s = (refl, refl)
set_auxv-SameVars (a ∷ entries) s = set_auxv-SameVars entries s

pub push_envs-SameVars : (envp : List (List ℕ)) (s : GuestStack) → SameVars s (push_envs envp s)
unfolding push_envs push_envp push_word put_string
push_envs-SameVars [] s = (refl, refl)
push_envs-SameVars (env ∷ rest) s = push_envs-SameVars rest (push_envp (some env) s)

-- Strings `xs` were pushed on `ws`, the last one at the higher address.
abbrev pub Grown : GuestStack → ℕ → ℕ → List ℕ → Placed → List (List ℕ) → Type 0
Grown t end spare ws strs xs =
    (new : Placed) × (texts new ≡ xs) × IsStack t end spare (pointers new ++ ws) (new ++ strs)

pub Grown-snoc :
    (t : GuestStack) (end spare p : ℕ) (str : List ℕ) (ws : List ℕ) (strs : Placed)
    (xs : List (List ℕ))
    → Grown t end spare (p ∷ ws) ((p, str) ∷ strs) xs
    → Grown t end spare ws strs (xs ++ str ∷ [])
Grown-snoc t end spare p str ws strs xs (new, same, h) =
    (new ++ (p, str) ∷ [], rw (map-append, same) refl, simp (map-append, append_assoc) h)

-- The environment is pushed from its first string to its last.
pub push_envs-IsStack :
    (envp : List (List ℕ)) (s : GuestStack) (end spare : ℕ) (ws : List ℕ) (strs : Placed)
    → IsStack s end (spare + needed envp) ws strs
    → Grown (push_envs envp s) end spare ws strs (reverse envp)
unfolding push_envs push_envp
push_envs-IsStack [] s end spare ws strs h =
    ([], refl, subst (λ (n : ℕ). IsStack s end n ws strs) (omega arith) h)
push_envs-IsStack (env ∷ rest) s end spare ws strs h = rw (reverse-cons env rest) (
    Grown-snoc _ end spare s.dp env ws strs (reverse rest) (
      push_envs-IsStack rest (put_string env (push_word s.dp s)) end spare (s.dp ∷ ws)
        ((s.dp, env) ∷ strs)
        (push_string-IsStack env s end (spare + needed rest) ws strs
          (subst (λ (n : ℕ). IsStack s end n ws strs) (omega arith) h))))

pub recount-IsStack :
    (s : GuestStack) (n end spare : ℕ) (ws : List ℕ) (strs : Placed)
    → IsStack s end spare ws strs
    → IsStack (record s { argc = n }) end spare ws strs
recount-IsStack s n end spare ws strs h = record {
  words = h.words;
  strings = h.strings;
  counted = h.counted;
  room = h.room;
  bounded = h.bounded;
}

pub Grown-cons :
    (t u : GuestStack) (end spare : ℕ) (str : List ℕ) (ws : List ℕ) (strs : Placed)
    (xs : List (List ℕ))
    → Grown t end (spare + (length str + 9)) ws strs xs
    → u ≡ put_string str (push_word t.dp t)
    → Grown (record u { argc = u32 (u.argc + 1) }) end spare ws strs (str ∷ xs)
Grown-cons t u end spare str ws strs xs (new, same, h) e = (
  (t.dp, str) ∷ new,
  ap (λ (l : List (List ℕ)). str ∷ l) same,
  recount-IsStack u (u32 (u.argc + 1)) end spare (t.dp ∷ pointers new ++ ws)
      ((t.dp, str) ∷ new ++ strs)
      (rw e (push_string-IsStack str t end spare (pointers new ++ ws) (new ++ strs) h)),
)

-- The arguments are pushed from the last to the first.
pub push_args-IsStack :
    (args : List (List ℕ)) (s : GuestStack) (end spare : ℕ) (ws : List ℕ) (strs : Placed)
    → IsStack s end (spare + needed args) ws strs
    → Grown (push_args args s) end spare ws strs args
unfolding push_args push_arg
push_args-IsStack [] s end spare ws strs h =
    ([], refl, subst (λ (n : ℕ). IsStack s end n ws strs) (omega arith) h)
push_args-IsStack (arg ∷ rest) s end spare ws strs h =
    Grown-cons (push_args rest s) _ end spare arg ws strs rest
      (push_args-IsStack rest s end (spare + (length arg + 9)) ws strs
        (subst (λ (n : ℕ). IsStack s end n ws strs) (omega arith) h))
      refl

pub push_args-vars :
    (args : List (List ℕ)) (s : GuestStack)
    → s.argc + length args < 2 ^ 32
    → ((push_args args s).stack ≡ s.stack) × ((push_args args s).argc ≡ s.argc + length args)
unfolding push_args push_arg push_word put_string
push_args-vars [] s small = (refl, omega arith)
push_args-vars (arg ∷ rest) s small =
    let below : ((push_args rest s).stack ≡ s.stack)
        × ((push_args rest s).argc ≡ s.argc + length rest) =
      push_args-vars rest s (omega arith) in
    (below.0, omega (arith, below.1))

abbrev pub Counted : GuestStack → ℕ → ℕ → List ℕ → Placed → Type 0
Counted t argc spare ws strs = (end : ℕ) × (t.sp % 16 ≡ 0) × IsStack t end spare (argc ∷ ws) strs

-- On a stack pointer that is 8 beyond a multiple of 16.
pub push_word-Counted :
    (t : GuestStack) (argc end spare : ℕ) (ws : List ℕ) (strs : Placed)
    → argc < 2 ^ 32
    → t.sp % 16 ≡ 8
    → IsStack t end (spare + 8) ws strs
    → Counted (push_word argc t) argc spare ws strs
unfolding push_word
push_word-Counted t argc end spare ws strs few odd h =
    let same : u64 argc ≡ argc = omega arith in
    (
      end,
      omega (arith, h),
      subst (λ (v : ℕ). IsStack (push_word argc t) end spare (v ∷ ws) strs) same
          (push_word-IsStack argc t end spare ws strs h),
    )

-- The count comes on top, and the stack pointer ends at a multiple of 16.
pub push_argc-Counted :
    (s : GuestStack) (spare : ℕ) (ws : List ℕ) (strs : Placed)
    → s.stack % 16 ≡ 0
    → s.argc < 2 ^ 32
    → IsStack s (s.stack + stack_size) (spare + 8 + 8) ws strs
    → Counted (push_argc s) s.argc spare ws strs
unfolding push_argc
push_argc-Counted s spare ws strs page few h =
    if_cases (λ (t : GuestStack). Counted (push_word s.argc t) s.argc spare ws strs)
      (s.sp % 16 == 0)
      (λ even.
        push_word-Counted (realign s) s.argc (s.stack + stack_size - 8) spare ws strs few
          (unfold realign in omega (arith, h, (==_iff _ _).0 even))
          (realign-IsStack s (s.stack + stack_size) (spare + 8) ws strs refl h))
      λ odd.
        push_word-Counted s s.argc (s.stack + stack_size) spare ws strs few
          (ground (arith, odd, h.counted)) (roomy (s.stack + stack_size) (spare + 8) h)
  where
    roomy : (end n : ℕ) → IsStack s end (n + 8) ws strs → IsStack s end n ws strs
    roomy end n k = record {
      words = k.words;
      strings = k.strings;
      counted = k.counted;
      room = omega (arith, k);
      bounded = k.bounded;
    }
