-- ===== src/Main/Options.antt =====
-- That read_argv (src/main.c) reads the options up to the program.
use byte_shatter.Base.{
  ℕ, ◌+◌, ◌≡◌, ◌≢◌, ◌∙◌, refl, true, List, [], ◌∷◌, ◌++◌, length, get_or, arith, ap, ne→==-false,
}
use byte_shatter.Log.{Log, goes_on, set_log_level}
use byte_shatter.Main.{Flags, program, read_args, read_argv, after_level}

-- The levels of the log, with their letters and numbers.
pub data Level : Type 0 where
  all warnings errors : Level

abbrev pub letter : Level → ℕ
letter all = 65
letter warnings = 87
letter errors = 69

abbrev pub level_of : Level → ℕ
level_of all = 3
level_of warnings = 1
level_of errors = 0

-- An option: `-d` or `-l` with a level, and whatever characters stand behind.
pub data Choice : Type 0 where
  debug : List ℕ → Choice
  level : Level → List ℕ → Choice

abbrev pub written : Choice → List ℕ
written (debug more) = 45 ∷ 100 ∷ more
written (level l more) = 45 ∷ 108 ∷ letter l ∷ more

abbrev pub all_written : List Choice → List (List ℕ)
all_written [] = []
all_written (c ∷ cs) = written c ∷ all_written cs

abbrev pub chosen : Choice → Flags → Flags
chosen (debug more) s = record s { debug = true }
chosen (level l more) s = record s { log = record (s.log) { log_level = level_of l } }

abbrev pub all_chosen : List Choice → Flags → Flags
all_chosen [] s = s
all_chosen (c ∷ cs) s = all_chosen cs (chosen c s)

set_log_level-letter :
    (l : Level) (s : Log)
    → set_log_level (letter l) s ≡ goes_on (record s { log_level = level_of l })
unfolding set_log_level
set_log_level-letter all s = refl
set_log_level-letter warnings s = refl
set_log_level-letter errors s = refl

read_args-chosen :
    (cs : List Choice) (file : List ℕ) (rest : List (List ℕ)) (i j : ℕ) (s : Flags)
    → get_or file 0 0 ≢ 45
    → i + length cs ≡ j
    → read_args (all_written cs ++ file ∷ rest) i s ≡ program j (all_chosen cs s)
unfolding read_args
read_args-chosen [] file rest i j s h e =
    let same : i ≡ j = omega arith in rw (ne→==-false (get_or file 0 0) 45 h, same) refl
read_args-chosen (debug more ∷ cs) file rest i j s h e =
    read_args-chosen cs file rest (i + 1) j (record s { debug = true }) h (omega arith)
read_args-chosen (level l more ∷ cs) file rest i j s h e =
    ap (after_level (read_args (all_written cs ++ file ∷ rest) (i + 1)) s)
      (set_log_level-letter l s.log)
    ∙ read_args-chosen cs file rest (i + 1) j (chosen (level l more) s) h (omega arith)

-- For options `-d` and `-l` with the level A, W or E, whatever stands behind their letters, and then an
-- argument that does not begin with `-`: read_argv returns the index of that argument, with debugging
-- on if it was on or one of the options is `-d`, and with the level of the last `-l`, or as it was if
-- there is none.
pub read_argv-chosen :
    (cs : List Choice) (name file : List ℕ) (rest : List (List ℕ)) (s : Flags)
    → get_or file 0 0 ≢ 45
    → read_argv (name ∷ all_written cs ++ file ∷ rest) s ≡ program (1 + length cs) (all_chosen cs s)
unfolding read_argv
read_argv-chosen cs name file rest s h = read_args-chosen cs file rest 1 (1 + length cs) s h refl
