-- ===== src/GuestStack/Layout.antt =====
-- Where the stack of src/stack.c ends up: what stands on it when main hands over to the guest.
use mathlib.Core.List.{reverse, append-nil}
use byte_shatter.Base.{
  ℕ, ◌+◌, ◌*◌, ◌%◌, ◌≤◌, ◌<◌, ◌^◌, ◌≡◌, sym, refl, subst, some, none, List, [], ◌∷◌, ◌++◌, length,
  arith, ok,
}
use byte_shatter.GuestStack.{
  GuestStack, stack_size, push_word, push_argc, push_arg, push_envp, push_envs, set_envp, push_args,
  Process, Image, auxv_of, finish_stack, fill_stack, start_stack,
}
use byte_shatter.GuestStack.Words.{IsStack, HoldsWords, HoldsStrings, push_word-IsStack}
use byte_shatter.GuestStack.Pushes.{
  needed, Placed, pointers, texts, aux_words, SameVars, set_auxv-IsStack, set_auxv-SameVars,
  push_envs-SameVars, push_envs-IsStack, push_args-IsStack, push_args-vars, Counted,
  push_argc-Counted,
}

-- What the guest finds: from the stack pointer on, the count of its arguments, the pointers to them,
-- a null, the auxiliary vector, the pointers to the environment's strings in reverse, and a null.
abbrev pub guest_words : List (List ℕ) → Process → Image → Placed → Placed → List ℕ
guest_words args host elf argv env =
    length args ∷ (pointers argv ++ (0 ∷ aux_words (auxv_of host elf) ++ pointers env ++ 0 ∷ []))

opened-IsStack :
    (s : GuestStack) (p : ℕ) (spare : ℕ)
    → p + stack_size < 2 ^ 64
    → spare ≤ stack_size
    → IsStack (record s { stack = p; dp = p; sp = p + stack_size }) (p + stack_size) spare [] []
opened-IsStack s p spare high fits = record {
  words = λ i k. absurd (omega arith);
  strings = tt;
  counted = omega arith;
  room = omega arith;
  bounded = high;
}

length-le-needed : (strs : List (List ℕ)) → 9 * length strs ≤ needed strs
length-le-needed [] = omega arith
length-le-needed (str ∷ rest) = omega (arith, length-le-needed rest)

-- The words of the environment and the auxiliary vector, down to the null below the arguments.
enved :
    (envp : List (List ℕ)) (host : Process) (elf : Image) (s : GuestStack) (end spare : ℕ)
    → IsStack s end (spare + 320 + needed envp) [] []
    → (env : Placed) × (texts env ≡ reverse envp)
      × IsStack
          (push_arg none (finish_stack host elf (set_envp envp s)))
          end
          spare
          (0 ∷ aux_words (auxv_of host elf) ++ pointers env ++ 0 ∷ [])
          env
unfolding set_envp finish_stack push_arg push_envp auxv_of
enved envp host elf s end spare h =
    let (env, same, k) = push_envs-IsStack envp (push_word 0 s) end (spare + 312) (0 ∷ []) [] (
      push_word-IsStack 0 s end (spare + 312 + needed envp) [] []
        (subst (λ (n : ℕ). IsStack s end n [] []) (omega arith) h)) in
    (
      env,
      same,
      push_word-IsStack 0 _ end spare (aux_words (auxv_of host elf) ++ pointers env ++ 0 ∷ []) env (
          set_auxv-IsStack (auxv_of host elf) (push_envs envp (push_word 0 s)) end (spare + 8)
            (pointers env ++ 0 ∷ []) env
            (subst
              (λ (n : ℕ).
                IsStack (push_envs envp (push_word 0 s)) end n (pointers env ++ 0 ∷ []) env)
              (omega arith)
              (subst
                (λ (l : Placed).
                  IsStack (push_envs envp (push_word 0 s)) end (spare + 312)
                    (pointers env ++ 0 ∷ []) l)
                (append-nil env) k))),
    )

enved-SameVars :
    (envp : List (List ℕ)) (host : Process) (elf : Image) (s : GuestStack)
    → SameVars s (push_arg none (finish_stack host elf (set_envp envp s)))
unfolding set_envp finish_stack push_arg push_envp push_word
enved-SameVars envp host elf s = grind (arith, set_auxv-SameVars, push_envs-SameVars)

-- What `filled` says of the end, of a stack that is filled and counted.
abbrev pub Handed : GuestStack → List (List ℕ) → Process → Image → List (List ℕ) → Type 0
Handed t envp host elf args =
    (argv env : Placed) × (texts argv ≡ args)
    × (texts env ≡ reverse envp)
    × (t.sp % 16 ≡ 0)
    × HoldsWords t.mem t.sp (guest_words args host elf argv env)
    × HoldsStrings t.mem t.dp (argv ++ env)

-- The arguments and their count, on words and strings that are there.
numbered :
    (args : List (List ℕ)) (s : GuestStack) (ws : List ℕ) (strs : Placed)
    → s.stack % 16 ≡ 0
    → s.argc ≡ 0
    → length args < 2 ^ 32
    → IsStack s (s.stack + stack_size) (16 + needed args) ws strs
    → (argv : Placed) × (texts argv ≡ args)
      × Counted (push_argc (push_args args s)) (length args) 0 (pointers argv ++ ws) (argv ++ strs)
numbered args s ws strs page fresh few h =
    let (argv, listed, l) = push_args-IsStack args s (s.stack + stack_size) 16 ws strs h in
    let vars : ((push_args args s).stack ≡ s.stack)
        × ((push_args args s).argc ≡ s.argc + length args) =
      push_args-vars args s (omega arith) in
    let count : (push_args args s).argc ≡ length args = omega (arith, vars.1) in
    (
      argv,
      listed,
      subst
          (λ (n : ℕ).
            Counted (push_argc (push_args args s)) n 0 (pointers argv ++ ws) (argv ++ strs))
          count
          (push_argc-Counted (push_args args s) 0 (pointers argv ++ ws) (argv ++ strs)
            (omega (arith, vars.0)) (omega (arith, count))
            (subst
              (λ (p : ℕ).
                IsStack (push_args args s) (p + stack_size) 16 (pointers argv ++ ws) (argv ++ strs))
              (sym vars.0) l)),
    )

filled :
    (envp : List (List ℕ)) (host : Process) (elf : Image) (args : List (List ℕ)) (s : GuestStack)
    → s.stack % 16 ≡ 0
    → s.argc ≡ 0
    → length args < 2 ^ 32
    → IsStack s (s.stack + stack_size) (16 + needed args + 320 + needed envp) [] []
    → Handed (fill_stack envp host elf args s) envp host elf args
unfolding fill_stack
filled envp host elf args s page fresh few h =
    let vars : SameVars s (push_arg none (finish_stack host elf (set_envp envp s))) =
      enved-SameVars envp host elf s in
    let (env, same, k) = enved envp host elf s (s.stack + stack_size) (16 + needed args) h in
    let (argv, listed, (end, aligned, c)) =
      numbered args (push_arg none (finish_stack host elf (set_envp envp s)))
        (0 ∷ aux_words (auxv_of host elf) ++ pointers env ++ 0 ∷ []) env (omega (arith, vars))
        (omega (arith, vars)) few
        (subst
          (λ (p : ℕ).
            IsStack (push_arg none (finish_stack host elf (set_envp envp s))) (p + stack_size)
              (16 + needed args) (0 ∷ aux_words (auxv_of host elf) ++ pointers env ++ 0 ∷ []) env)
          (sym vars.0) k) in
    (argv, env, listed, same, aligned, c.words, c.strings)

-- A mapping of the stack at a multiple of 16, room in it for the strings, their pointers, and 336
-- bytes more, and no argument counted before: start_stack returns, with the stack pointer at a
-- multiple of 16, and from it on there stand the number of the arguments, a pointer to each, a null,
-- the auxiliary vector, a pointer to each string of the environment from the last to the first, and a
-- null; every string stands, with its zero, where its pointer says.
pub start_stack-Handed :
    (p : ℕ) (envp : List (List ℕ)) (host : Process) (elf : Image) (args : List (List ℕ))
    (s : GuestStack)
    → p % 16 ≡ 0
    → p + stack_size < 2 ^ 64
    → s.argc ≡ 0
    → needed args + needed envp + 336 ≤ stack_size
    → (t : GuestStack) × (start_stack (some p) envp host elf args s ≡ ok (tt, t))
      × Handed t envp host elf args
unfolding start_stack
start_stack-Handed p envp host elf args s page high fresh room = (
  fill_stack envp host elf args (record s { stack = p; dp = p; sp = p + stack_size }),
  refl,
  filled envp host elf args (record s { stack = p; dp = p; sp = p + stack_size }) page fresh
      (omega (arith, length-le-needed args))
      (opened-IsStack s p (16 + needed args + 320 + needed envp) high (omega arith)),
)
