-- ===== src/GuestStack.antt =====
-- src/stack.c: the stack that the guest program starts on. `sp` goes down from the top of the mapping,
-- one word for each push, and `dp` goes up from its bottom, where the strings are copied to. The
-- command line and the environment are lists of strings without their final NULL, and so is the
-- NULL argument of push_arg and push_envp `none`.
pub mod Words
pub mod Pushes
pub mod Layout
use byte_shatter.Base.{
  ℕ, ◌+◌, ◌-◌, ◌*◌, ◌%◌, ◌^◌, Option, none, some, List, [], ◌∷◌, ◌==◌, if◌then◌else◌, length, u32,
  u64, M, ok, err, map_failed, ◌>>=◌, ◌>>◌, modify,
}
use byte_shatter.Memory.Stores.{store64, copy_bytes, copy_string}

abbrev pub stack_size : ℕ
stack_size = 2 * 1024 * 1024

-- The static variables, and the memory.
pub record GuestStack : Type 0 where
  pub stack : ℕ
  pub dp : ℕ
  pub sp : ℕ
  pub argc : ℕ
  pub mem : ℕ → ℕ

-- `mapped` is what mmap returns, none for MAP_FAILED.
unfoldable pub stack_init : Option ℕ → M GuestStack (Unit {0})
stack_init none s = err map_failed
stack_init (some p) s = ok (tt, record s { stack = p; dp = p; sp = p + stack_size })

-- sp - 1 of a pointer to words.
abbrev pub word_below : ℕ → ℕ
word_below sp = u64 (sp + (2 ^ 64 - 8))

-- *(--sp) = v
unfoldable pub push_word : ℕ → GuestStack → GuestStack
push_word v s = record s { sp = word_below s.sp; mem = store64 s.mem (word_below s.sp) (u64 v) }

-- strcpy(dp, str); dp += strlen(str) + 1;
unfoldable pub put_string : List ℕ → GuestStack → GuestStack
put_string str s = record s { dp = s.dp + (length str + 1); mem = copy_string s.mem s.dp str }

-- The words from `sp` to the top move down by one.
unfoldable pub realign : GuestStack → GuestStack
realign s = record s {
  sp = word_below s.sp;
  mem =
      copy_bytes s.mem (word_below s.sp) (λ i. s.mem (s.sp + i))
        (u64 (s.stack + stack_size + 2 ^ 64 - s.sp));
}

unfoldable pub push_argc : GuestStack → GuestStack
unfolding realign push_word
push_argc s = let aligned = if s.sp % 16 == 0 then realign s else s in push_word s.argc aligned

unfoldable pub push_envp : Option (List ℕ) → GuestStack → GuestStack
unfolding push_word put_string
push_envp none s = push_word 0 s
push_envp (some env) s = put_string env (push_word s.dp s)

unfoldable pub push_arg : Option (List ℕ) → GuestStack → GuestStack
unfolding push_word put_string
push_arg none s = push_word 0 s
push_arg (some arg) s =
    let t = put_string arg (push_word s.dp s) in record t { argc = u32 (t.argc + 1) }

pub record AuxEntry : Type 0 where
  pub a_type : ℕ
  pub a_val : ℕ

-- From the last entry to the first: its value, and below it its type.
unfoldable pub set_auxv : List AuxEntry → GuestStack → GuestStack
unfolding push_word
set_auxv [] s = s
set_auxv (a ∷ rest) s = push_word a.a_type (push_word a.a_val (set_auxv rest s))

unfoldable pub push_envs : List (List ℕ) → GuestStack → GuestStack
unfolding push_envp
push_envs [] s = s
push_envs (env ∷ rest) s = push_envs rest (push_envp (some env) s)

unfoldable pub set_envp : List (List ℕ) → GuestStack → GuestStack
unfolding push_envs push_envp
set_envp envp s = push_envs envp (push_envp none s)

-- What finish_stack asks of the host, and the fields of the ELF header that it passes on.
pub record Process : Type 0 where
  pub page_size : ℕ
  pub clock_ticks : ℕ
  pub uid : ℕ
  pub euid : ℕ
  pub gid : ℕ
  pub egid : ℕ
  pub random : ℕ

pub record Image : Type 0 where
  pub base : ℕ
  pub e_phoff : ℕ
  pub e_phentsize : ℕ
  pub e_phnum : ℕ
  pub e_entry : ℕ

abbrev aux : ℕ → ℕ → AuxEntry
aux t v = record { a_type = t; a_val = v }

-- The constants are those of <elf.h>: AT_SYSINFO_EHDR 33, AT_MINSIGSTKSZ 51, AT_HWCAP 16, AT_PAGESZ 6,
-- AT_CLKTCK 17, AT_PHDR 3, AT_PHENT 4, AT_PHNUM 5, AT_BASE 7, AT_FLAGS 8, AT_ENTRY 9, AT_UID 11,
-- AT_EUID 12, AT_GID 13, AT_EGID 14, AT_SECURE 23, AT_RANDOM 25, AT_HWCAP2 26, AT_NULL 0.
unfoldable pub auxv_of : Process → Image → List AuxEntry
auxv_of host elf =
    aux 33 0
    ∷ aux 51 0x5f0
    ∷ aux 16 0x26
    ∷ aux 6 host.page_size
    ∷ aux 17 host.clock_ticks
    ∷ aux 3 (u64 (elf.base + elf.e_phoff))
    ∷ aux 4 elf.e_phentsize
    ∷ aux 5 elf.e_phnum
    ∷ aux 7 0
    ∷ aux 8 0
    ∷ aux 9 (u64 (elf.base + elf.e_entry))
    ∷ aux 11 host.uid
    ∷ aux 12 host.euid
    ∷ aux 13 host.gid
    ∷ aux 14 host.egid
    ∷ aux 23 0
    ∷ aux 25 host.random
    ∷ aux 26 2
    ∷ aux 0 0
    ∷ []

unfoldable pub finish_stack : Process → Image → GuestStack → GuestStack
unfolding set_auxv auxv_of
finish_stack host elf s = set_auxv (auxv_of host elf) s

-- The loop of main, from the last argument to the first.
unfoldable pub push_args : List (List ℕ) → GuestStack → GuestStack
unfolding push_arg
push_args [] s = s
push_args (arg ∷ rest) s = push_arg (some arg) (push_args rest s)

-- What main does with the stack: the environment, the auxiliary vector, the arguments and their
-- count. What main does in between leaves the stack alone, as far as the host's code goes.
unfoldable pub fill_stack :
    List (List ℕ) → Process → Image → List (List ℕ) → GuestStack → GuestStack
unfolding set_envp finish_stack push_arg push_args push_argc
fill_stack envp host elf args s =
    push_argc (push_args args (push_arg none (finish_stack host elf (set_envp envp s))))

unfoldable pub start_stack :
    Option ℕ → List (List ℕ) → Process → Image → List (List ℕ) → M GuestStack (Unit {0})
unfolding stack_init fill_stack
start_stack mapped envp host elf args = do stack_init mapped; modify (fill_stack envp host elf args)
