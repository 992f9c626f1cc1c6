-- ===== src/Main.antt =====
-- src/main.c: the command line, and the start of the program. An argument is the list of its
-- characters; the zero behind them is read as 0.
pub mod Options
use byte_shatter.Base.{
  ℕ, zero, suc, ◌+◌, ◌-◌, ◌==◌, Bool, true, false, if◌then◌else◌, List, [], ◌∷◌, get_or, Option,
  none, some, Result, M, ok, err, pure, ◌>>=◌, ◌>>◌, u64, null_pointer, unknown_log_level,
}
use byte_shatter.Jit.{OffsetUnit, PatchUnit, CacheUnit, Anchor}
use byte_shatter.Memory.{Context}
use byte_shatter.Log.{Log, Outcome, goes_on, exits, set_log_level}
use byte_shatter.GuestStack.{
  GuestStack, Process, Image, stack_init, set_envp, finish_stack, push_arg, push_args, push_argc,
}
use byte_shatter.Contexts.{context_init}
use byte_shatter.Libraries.{Libs}
use byte_shatter.Elf.{Elf, Loader}
use byte_shatter.Elf.Segments.{elf_load}
use byte_shatter.Elf.Dynamic.{Linker, Linked, Running, elf_read_dynamic, elf_init}

pub record Flags : Type 0 where
  pub debug : Bool
  pub log : Log

-- What read_argv comes to: the index of the program, or the end of the process after the usage, or by a
-- panic.
pub data Parsed : Type 0 where
  program : ℕ → Flags → Parsed
  usage : Parsed
  panicked : Parsed

abbrev pub after_level : (Flags → Parsed) → Flags → Outcome → Parsed
after_level rest s (goes_on log) = rest (record s { log = log })
after_level rest s (exits log) = panicked

-- The loop over argv, from index `i` on; '-' is 45, 'd' 100 and 'l' 108.
unfoldable pub read_args : List (List ℕ) → ℕ → Flags → Parsed
unfolding set_log_level
read_args [] i s = usage
read_args (arg ∷ args) i s =
    let debugged = read_args args (i + 1) (record s { debug = true }) in
    let levelled = after_level (read_args args (i + 1)) s (set_log_level (get_or arg 2 0) s.log) in
    if get_or arg 0 0 == 45
    then if get_or arg 1 0 == 100
      then debugged
      else if get_or arg 1 0 == 108
      then levelled
      else usage
    else program i s

-- argv[0] is the name of the program itself.
unfoldable pub read_argv : List (List ℕ) → Flags → Parsed
unfolding read_args
read_argv [] s = usage
read_argv (name ∷ args) s = read_args args 1 s

abbrev pub drop : ℕ → List (List ℕ) → List (List ℕ)
drop n [] = []
drop zero (x ∷ xs) = x ∷ xs
drop (suc n) (x ∷ xs) = drop n xs

-- argv[n]
abbrev pub name_at : ℕ → List (List ℕ) → List ℕ
name_at n argv = get_or argv n []

-- A file that can be opened: its bytes and its length.
pub record File : Type 0 where
  pub bytes : ℕ → ℕ
  pub length : ℕ

-- The world that the program starts in: the mappings that mmap gives for the stack and the image, the files,
-- the processors that are online, the contents of fresh memory, the loader of the host, and the guest
-- code that the constructors run.
pub record World : Type 0 where
  pub stack_mapping : Option ℕ
  pub image_mapping : ℕ → Option ℕ
  pub fopen : List ℕ → Option File
  pub online : ℕ
  pub contexts : ℕ → Context
  pub offsets : ℕ → OffsetUnit
  pub blocks : ℕ → CacheUnit
  pub jumps : ℕ → PatchUnit
  pub reuse : ℕ → ℕ
  pub linker : Linker
  pub libs : Libs
  pub process : Process
  pub execute_with_save : ℕ → Running → Result Running

-- elf_load gives NULL for a file that cannot be opened, which main follows.
unfoldable pub load_program : World → List ℕ → (ℕ → ℕ) → Result Loader
unfolding elf_load
load_program w name mem = elim (w.fopen name) [
  | none ↦ err null_pointer
  | some f ↦ elf_load f.bytes f.length w.offsets w.blocks w.jumps w.reuse w.image_mapping mem
]

-- The guest, ready to run: its stack, the address of its first instruction, the cache, the contexts.
pub record Started : Type 0 where
  pub stack : GuestStack
  pub entry : ℕ
  pub anchor : Anchor
  pub pool : List Context
  pub debugged : Bool

abbrev pub image_of : Elf → Image
image_of elf = record {
  base = elf.base;
  e_phoff = elf.head.e_phoff;
  e_phentsize = elf.head.e_phentsize;
  e_phnum = elf.head.e_phnum;
  e_entry = elf.head.e_entry;
}

-- From finish_stack to push_argc.
abbrev pub arguments : World → Elf → List (List ℕ) → GuestStack → GuestStack
arguments w elf args s =
    push_argc (push_args args (push_arg none (finish_stack w.process (image_of elf) s)))

abbrev pub inited :
    World → Flags → List (List ℕ) → GuestStack → Elf → Result Running → Result Started
inited w flags args s elf (err e) = err e
inited w flags args s elf (ok r) = ok (record {
  stack = arguments w elf args (record s { mem = r.mem });
  entry = u64 (elf.base + elf.head.e_entry);
  anchor = r.anchor;
  pool = context_init w.online w.contexts;
  debugged = flags.debug;
})

abbrev pub linked_program :
    World → Flags → List (List ℕ) → GuestStack → Loader → Result Linked → Result Started
linked_program w flags args s l (err e) = err e
linked_program w flags args s l (ok k) =
    inited w flags args s l.elf
      (elf_init w.execute_with_save k.dynamic (record { mem = k.mem; anchor = l.anchor }))

abbrev pub loaded_program :
    World → Flags → List (List ℕ) → GuestStack → Result Loader → Result Started
loaded_program w flags args s (err e) = err e
loaded_program w flags args s (ok l) =
    linked_program w flags args s l (elf_read_dynamic w.linker l.elf.pheads l.elf.base w.libs l.mem)

-- What main comes to: the guest starts, or the process ends before.
pub data Ending : Type 0 where
  starts : Result Started → Ending
  ends : Ending

abbrev pub run_parsed : World → List (List ℕ) → GuestStack → Parsed → Ending
run_parsed w argv s usage = ends
run_parsed w argv s panicked = ends
run_parsed w argv s (program end flags) =
    starts (loaded_program w flags (drop end argv) s (load_program w (name_at end argv) s.mem))

abbrev pub with_stack :
    World → List (List ℕ) → List (List ℕ) → Flags → Result (Unit {0} × GuestStack) → Ending
with_stack w argv envp flags (err e) = starts (err e)
with_stack w argv envp flags (ok (_, s)) =
    run_parsed w argv (set_envp envp s) (read_argv argv flags)

unfoldable pub main : World → List (List ℕ) → List (List ℕ) → Flags → GuestStack → Ending
unfolding stack_init set_envp read_argv load_program elf_read_dynamic elf_init
main w argv envp flags s = with_stack w argv envp flags (stack_init w.stack_mapping s)
