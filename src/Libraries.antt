-- ===== src/Libraries.antt =====
-- src/elf_manager.c and the names that src/overrides.c overrides: the list of wrapper libraries, and the
-- lookup of symbols. dlopen, dlsym and the loaded objects are the host's loader, so parameters. Names
-- are lists of characters.
pub mod Opened
pub mod Got
pub mod Slots
pub mod Redirected
use byte_shatter.Base.{
  ℕ, ◌+◌, ◌==◌, Bool, true, false, if◌then◌else◌, leb, List, [], ◌∷◌, ◌++◌, length, Result, ok, err,
  wrapper_not_found,
}
use byte_shatter.Memory.Strings.{same, snprintf}

pub record Lib : Type 0 where
  pub wrapper : ℕ
  pub name : List ℕ

-- lib_count is the length of the list.
pub record Libs : Type 0 where
  pub libs : List Lib
  pub lib_capacity : ℕ

-- "./lib/my_" and "my_"
abbrev pub wrapper_prefix : List ℕ
wrapper_prefix = 46 ∷ 47 ∷ 108 ∷ 105 ∷ 98 ∷ 47 ∷ 109 ∷ 121 ∷ 95 ∷ []

abbrev pub symbol_prefix : List ℕ
symbol_prefix = 109 ∷ 121 ∷ 95 ∷ []

-- "syscall"
abbrev pub syscall_name : List ℕ
syscall_name = 115 ∷ 121 ∷ 115 ∷ 99 ∷ 97 ∷ 108 ∷ 108 ∷ []

-- The loop over the libraries that are open.
unfoldable pub is_open : List ℕ → List Lib → Bool
is_open filename [] = false
is_open filename (lib ∷ rest) =
    let later = is_open filename rest in if same lib.name filename then true else later

abbrev pub grow : Libs → Libs
grow s =
    if leb s.lib_capacity (length s.libs) then record s { lib_capacity = s.lib_capacity + 4 } else s

abbrev pub add_wrapper : ℕ → List ℕ → Libs → Result Libs
add_wrapper wrapper filename s =
    if wrapper == 0
    then err wrapper_not_found
    else ok (record s { libs = s.libs ++ record { wrapper = wrapper; name = filename } ∷ [] })

unfoldable pub open_library : (List ℕ → ℕ) → List ℕ → Libs → Result Libs
unfolding is_open
open_library dlopen filename s =
    if is_open filename s.libs
    then ok s
    else add_wrapper (dlopen (snprintf 511 wrapper_prefix filename)) filename (grow s)

-- The host's loader: `dlsym` of a handle and a name, 0 for NULL. RTLD_DEFAULT is handle 0.
unfoldable pub get_symbol : (ℕ → List ℕ → ℕ) → List ℕ → ℕ
get_symbol dlsym symbol = dlsym 0 symbol

unfoldable pub search_wrappers : (ℕ → List ℕ → ℕ) → List ℕ → List Lib → ℕ
search_wrappers dlsym my_symbol [] = 0
search_wrappers dlsym my_symbol (lib ∷ rest) =
    let later = search_wrappers dlsym my_symbol rest in
    let sym = dlsym lib.wrapper my_symbol in if sym == 0 then later else sym

unfoldable pub get_symbol_wrapped : (ℕ → List ℕ → ℕ) → List Lib → List ℕ → ℕ
unfolding search_wrappers
get_symbol_wrapped dlsym libs symbol =
    search_wrappers dlsym (snprintf 511 symbol_prefix symbol) libs

-- `my_syscall` is the address of that function.
unfoldable pub sym_override : ℕ → List ℕ → ℕ
sym_override my_syscall symname = if same symname syscall_name then my_syscall else 0
