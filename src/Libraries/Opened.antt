-- ===== src/Libraries/Opened.antt =====
-- That open_library (src/elf_manager.c) keeps the list of libraries in order.
use mathlib.Core.List.{append-nil}
use byte_shatter.Base.{
  ℕ, ◌+◌, ◌≤◌, ◌≡◌, ◌≢◌, ◌⊎◌, inl, inr, refl, ap, sym, ◌∙◌, true, false, ◌==◌, if◌then◌else◌, List,
  [], ◌∷◌, ◌++◌, length, ok, err, arith, Bool-cases, ==_iff, wrapper_not_found, subst,
}
use byte_shatter.Memory.Strings.{same, snprintf}
use byte_shatter.Libraries.{Lib, Libs, is_open, grow, open_library, wrapper_prefix}

same_self : (xs : List ℕ) → same xs xs ≡ true
same_self [] = refl
same_self (x ∷ xs) = ground (arith, same_self xs)

same_comm : (xs ys : List ℕ) → same xs ys ≡ same ys xs
same_comm [] [] = refl
same_comm [] (y ∷ ys) = refl
same_comm (x ∷ xs) [] = refl
same_comm (x ∷ xs) (y ∷ ys) = ground (arith, same_comm xs ys)

-- No name is open twice.
abbrev pub IsDistinct : List Lib → Type 0
IsDistinct [] = Unit
IsDistinct (lib ∷ rest) = (is_open lib.name rest ≡ false) × IsDistinct rest

abbrev pub AllWrapped : List Lib → Type 0
AllWrapped [] = Unit
AllWrapped (lib ∷ rest) = (lib.wrapper ≢ 0) × AllWrapped rest

pub record IsLibs (s : Libs) : Type 0 where
  pub distinct : IsDistinct s.libs
  pub wrapped : AllWrapped s.libs
  pub room : length s.libs ≤ s.lib_capacity

is_open-snoc :
    (name : List ℕ) (libs : List Lib) (lib : Lib)
    → is_open name (libs ++ lib ∷ []) ≡ (if is_open name libs then true else same lib.name name)
unfolding is_open
is_open-snoc name [] lib = ground arith
is_open-snoc name (l ∷ libs) lib = ground (arith, is_open-snoc name libs lib)

IsDistinct-snoc :
    (libs : List Lib) (lib : Lib)
    → is_open lib.name libs ≡ false
    → IsDistinct libs
    → IsDistinct (libs ++ lib ∷ [])
unfolding is_open
IsDistinct-snoc [] lib new h = (refl, tt)
IsDistinct-snoc (l ∷ libs) lib new h = (
  is_open-snoc l.name libs lib ∙ ground (arith, same_comm lib.name l.name),
  IsDistinct-snoc libs lib (ground arith) h.1,
)

AllWrapped-snoc :
    (libs : List Lib) (lib : Lib)
    → lib.wrapper ≢ 0
    → AllWrapped libs
    → AllWrapped (libs ++ lib ∷ [])
AllWrapped-snoc [] lib new h = (new, tt)
AllWrapped-snoc (l ∷ libs) lib new h = (h.0, AllWrapped-snoc libs lib new h.1)

length-snoc : (libs : List Lib) (lib : Lib) → length (libs ++ lib ∷ []) ≡ length libs + 1
length-snoc [] lib = refl
length-snoc (l ∷ libs) lib = omega (arith, length-snoc libs lib)

-- The handle that dlopen gives for the wrapper of a library.
abbrev pub wrapper_of : (List ℕ → ℕ) → List ℕ → ℕ
wrapper_of dlopen filename = dlopen (snprintf 511 wrapper_prefix filename)

-- The state with the library at the end.
abbrev opened : (List ℕ → ℕ) → List ℕ → Libs → Libs
opened dlopen filename s = record (grow s) {
  libs = (grow s).libs ++ record { wrapper = wrapper_of dlopen filename; name = filename } ∷ [];
}

grow-libs : (s : Libs) → (grow s).libs ≡ s.libs
grow-libs s = ground arith

opened-libs :
    (dlopen : List ℕ → ℕ) (filename : List ℕ) (s : Libs)
    → (opened dlopen filename s).libs
      ≡ s.libs ++ record { wrapper = wrapper_of dlopen filename; name = filename } ∷ []
opened-libs dlopen filename s =
    ap
      (λ (l : List Lib). l ++ record { wrapper = wrapper_of dlopen filename; name = filename } ∷ [])
      (grow-libs s)

grow-room : (s : Libs) → length s.libs ≤ s.lib_capacity → length s.libs + 1 ≤ (grow s).lib_capacity
grow-room s h = ground arith

opened-IsLibs :
    (dlopen : List ℕ → ℕ) (filename : List ℕ) (s : Libs)
    → IsLibs s
    → is_open filename s.libs ≡ false
    → wrapper_of dlopen filename ≢ 0
    → IsLibs (opened dlopen filename s)
opened-IsLibs dlopen filename s h new found = record {
  distinct =
      subst IsDistinct (sym (opened-libs dlopen filename s))
        (IsDistinct-snoc s.libs _ new h.distinct);
  wrapped =
      subst AllWrapped (sym (opened-libs dlopen filename s))
        (AllWrapped-snoc s.libs _ found h.wrapped);
  room = rw (opened-libs dlopen filename s) (
      omega (
        arith,
        length-snoc s.libs (record { wrapper = wrapper_of dlopen filename; name = filename }),
        grow-room s h.room,
      ));
}

opened-is_open :
    (dlopen : List ℕ → ℕ) (filename : List ℕ) (s : Libs)
    → is_open filename (opened dlopen filename s).libs ≡ true
opened-is_open dlopen filename s =
    is_open-snoc filename (grow s).libs _ ∙ ground (arith, same_self filename)

-- On a list of libraries with different names and handles that are not NULL, within its capacity:
-- open_library returns such a list, in which the library is open and all those before stand where they
-- were, or ends in an error, exactly if the library was not open and dlopen finds no wrapper.
pub open_library-IsLibs :
    (dlopen : List ℕ → ℕ) (filename : List ℕ) (s : Libs)
    → IsLibs s
    → ((t : Libs) × (open_library dlopen filename s ≡ ok t)
        × IsLibs t
        × (is_open filename t.libs ≡ true)
        × ((new : List Lib) × (t.libs ≡ s.libs ++ new)))
      ⊎ ((open_library dlopen filename s ≡ err wrapper_not_found)
          × (is_open filename s.libs ≡ false)
          × (wrapper_of dlopen filename ≡ 0))
unfolding open_library
open_library-IsLibs dlopen filename s h = elim (Bool-cases (is_open filename s.libs)) [
  | inl old ↦ inl (s, rw old refl, h, old, ([], sym (append-nil s.libs)))
  | inr new ↦ elim (Bool-cases (wrapper_of dlopen filename == 0)) [
    | inl missing ↦ inr (rw (new, missing) refl, new, (==_iff _ _).0 missing)
    | inr found ↦ inl (
      opened dlopen filename s,
      rw (new, found) refl,
      opened-IsLibs dlopen filename s h new (λ e. ground (arith, found)),
      opened-is_open dlopen filename s,
      (
        record { wrapper = wrapper_of dlopen filename; name = filename } ∷ [],
        opened-libs dlopen filename s,
      ),
    )
  ]
]
