-- ===== src/Log.antt =====
-- src/core.c: the level of the log, and what is printed at it. A line is its level with its text, the
-- newest first; the colours and the formatting by printf are left out.
use byte_shatter.Base.{ℕ, ltb, ◌==◌, if◌then◌else◌, List, [], ◌∷◌}

-- enum LogLevel
abbrev pub log_panic : ℕ
log_panic = 0

abbrev pub log_warning : ℕ
log_warning = 1

abbrev pub log_success : ℕ
log_success = 2

abbrev pub log_print : ℕ
log_print = 3

pub record Log : Type 0 where
  pub log_level : ℕ
  pub lines : List (ℕ × List ℕ)

-- Does the process go on?
pub data Outcome : Type 0 where
  goes_on : Log → Outcome
  exits : Log → Outcome

unfoldable pub log_message : ℕ → List ℕ → Log → Outcome
log_message level text s =
    if ltb s.log_level level
    then goes_on s
    else (let printed : Log = record s { lines = (level, text) ∷ s.lines } in
        if level == log_panic then exits printed else goes_on printed)

-- "CORE::UNKNOWN_LOG_LEVEL"
abbrev pub unknown_level : List ℕ
unknown_level =
    67 ∷ 79 ∷ 82 ∷ 69 ∷ 58 ∷ 58 ∷ 85 ∷ 78 ∷ 75 ∷ 78 ∷ 79 ∷ 87 ∷ 78 ∷ 95 ∷ 76 ∷ 79 ∷ 71 ∷ 95 ∷ 76
    ∷ 69 ∷ 86 ∷ 69 ∷ 76 ∷ []

-- 'A', 'W' and 'E'
unfoldable pub set_log_level : ℕ → Log → Outcome
unfolding log_message
set_log_level level s =
    if level == 65
    then goes_on (record s { log_level = 3 })
    else if level == 87
    then goes_on (record s { log_level = 1 })
    else if level == 69
    then goes_on (record s { log_level = 0 })
    else log_message log_panic unknown_level s
