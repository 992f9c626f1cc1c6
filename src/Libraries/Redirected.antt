-- ===== src/Libraries/Redirected.antt =====
-- What patch_library_got (src/elf_manager.c) does to the slots of a symbol, object by object.
use byte_shatter.Base.{
  ℕ, zero, suc, ◌+◌, ◌/◌, ◌==◌, ◌≡◌, ◌≢◌, ◌∙◌, ◌⊎◌, refl, sym, ap, subst, true, false,
  if◌then◌else◌, if_cases, List, [], ◌∷◌, Option, none, some, Result, ok, err, Error, null_pointer,
  u64, ==_iff, arith,
}
use byte_shatter.Memory.{load64}
use byte_shatter.Elf.{Phdr}
use byte_shatter.Libraries.Got.{
  Object, find_dynamic, Tables, read_tables, patch_slots, has_tables, patch_tables, no_tables,
  patch_library, then_patch, patch_library_got,
}
use byte_shatter.Libraries.Slots.{
  First, find_dynamic-First, First-find_dynamic, noted, note_table-eq-noted, both, Slots,
  patch_slots-Slots, Slots-patch_slots,
}

-- A dynamic section of fewer than so many entries at `dyn`, which ends at DT_NULL, leaves `u` of `t`.
pub data Tabled (m : ℕ → ℕ) (base : ℕ) (u : Tables) : ℕ → ℕ → Tables → Type 0 where
  done : {n dyn : ℕ} {t : Tables} → load64 m dyn ≡ 0 → t ≡ u → Tabled m base u (suc n) dyn t
  entry :
      {n dyn : ℕ} {t : Tables}
      → load64 m dyn ≢ 0
      → Tabled m base u n (dyn + 16) (noted base (load64 m dyn) (load64 m (dyn + 8)) t)
      → Tabled m base u (suc n) dyn t

module _ (m : ℕ → ℕ) (base : ℕ) where
  read_tables-Tabled :
      (n dyn : ℕ) (t u : Tables) → read_tables m n base dyn t ≡ ok u → Tabled m base u n dyn t
  unfolding read_tables
  read_tables-Tabled zero dyn t u h = absurd (err_ok h)
    where
      err_ok : {e : Error} {v : Tables} → err e ≡ ok v → ⊥
      err_ok e = cc
  read_tables-Tabled (suc n) dyn t u h =
      if_cases (λ (r : Result Tables). r ≡ ok u → Tabled m base u (suc n) dyn t) (load64 m dyn == 0)
        (λ e same. done ((==_iff _ _).0 e) cc)
        (λ no rest.
          entry (λ e. ground (arith, no, e))
            (read_tables-Tabled n (dyn + 16) (noted base (load64 m dyn) (load64 m (dyn + 8)) t) u (
              ap (read_tables m n base (dyn + 16))
                (sym (note_table-eq-noted base (load64 m dyn) (load64 m (dyn + 8)) t))
              ∙ rest)))
        h

  Tabled-read_tables :
      (n dyn : ℕ) (t u : Tables) → Tabled m base u n dyn t → read_tables m n base dyn t ≡ ok u
  unfolding read_tables
  Tabled-read_tables zero dyn t u h = elim h [ ]
  Tabled-read_tables (suc n) dyn t u (done e equal) =
      if_cases (λ (r : Result Tables). r ≡ ok u) (load64 m dyn == 0) (λ _. ap ok equal)
        λ other. absurd (both ((==_iff _ _).1 e) other)
  Tabled-read_tables (suc n) dyn t u (entry more rest) =
      if_cases (λ (r : Result Tables). r ≡ ok u) (load64 m dyn == 0)
        (λ e. absurd (more ((==_iff _ _).0 e)))
        λ _.
          ap (read_tables m n base (dyn + 16))
            (note_table-eq-noted base (load64 m dyn) (load64 m (dyn + 8)) t)
          ∙ Tabled-read_tables n (dyn + 16) (noted base (load64 m dyn) (load64 m (dyn + 8)) t) u
              rest

abbrev nothing_noted : Tables
nothing_noted = record { strtab = 0; symtab = 0; rela = 0; rela_size = 0 }

module _ (symbol : List ℕ) (got base : ℕ) where
  -- With all three tables every relocation is looked at, and else none.
  pub data Patched (t : Tables) (m n : ℕ → ℕ) : Type 0 where
    all_slots :
        t.strtab ≢ 0
        → t.symtab ≢ 0
        → t.rela ≢ 0
        → Slots symbol got base t (t.rela_size / 24) t.rela m n
        → Patched t m n
    no_slots : (t.strtab ≡ 0) ⊎ (t.symtab ≡ 0) ⊎ (t.rela ≡ 0) → n ≡ m → Patched t m n

  -- The three tests of has_tables.
  has_tables-all :
      (t : Tables) → has_tables t ≡ true → (t.strtab ≢ 0) × (t.symtab ≢ 0) × (t.rela ≢ 0)
  has_tables-all t h = ground arith

  has_tables-none :
      (t : Tables) → has_tables t ≡ false → (t.strtab ≡ 0) ⊎ (t.symtab ≡ 0) ⊎ (t.rela ≡ 0)
  has_tables-none t h = ground arith

  unfoldable patched_memory : Tables → (ℕ → ℕ) → ℕ → ℕ
  patched_memory t m =
      if has_tables t then patch_slots symbol got base t (t.rela_size / 24) t.rela m else m

  patched_memory-Patched : (t : Tables) (m : ℕ → ℕ) → Patched t m (patched_memory t m)
  unfolding patched_memory
  patched_memory-Patched t m =
      if_cases (Patched t m) (has_tables t)
        (λ h.
          let (a, b, c) = has_tables-all t h in
          all_slots a b c (patch_slots-Slots symbol got base t (t.rela_size / 24) t.rela m))
        λ h. no_slots (has_tables-none t h) refl

  Patched-patched_memory : (t : Tables) (m n : ℕ → ℕ) → Patched t m n → n ≡ patched_memory t m
  unfolding patched_memory
  Patched-patched_memory t m n (all_slots a b c slots) =
      if_cases (λ (r : ℕ → ℕ). n ≡ r) (has_tables t)
        (λ _. Slots-patch_slots symbol got base t (t.rela_size / 24) t.rela m n slots)
        λ h. absurd (none_missing t a b c (has_tables-none t h))
    where
      none_missing :
          (t : Tables)
          → t.strtab ≢ 0
          → t.symtab ≢ 0
          → t.rela ≢ 0
          → (t.strtab ≡ 0) ⊎ (t.symtab ≡ 0) ⊎ (t.rela ≡ 0)
          → ⊥
      none_missing t a b c h = ground arith
  Patched-patched_memory t m n (no_slots missing e) =
      if_cases (λ (r : ℕ → ℕ). n ≡ r) (has_tables t)
        (λ h. let (a, b, c) = has_tables-all t h in ground (arith, missing, a, b, c)) λ _. e

-- One object, with fewer than `fuel` entries in its dynamic section.
pub record InObject (fuel : ℕ) (symbol : List ℕ) (got : ℕ) (o : Object) (m n : ℕ → ℕ) : Type 0 where
  pub header : Phdr
  pub tables : Tables
  pub first : First header o.dlpi_phdr
  pub tabled : Tabled m o.dlpi_addr tables fuel (u64 (o.dlpi_addr + header.p_vaddr)) nothing_noted
  pub patched : Patched symbol got o.dlpi_addr tables m n

-- One object after the other.
abbrev pub InObjects : ℕ → List ℕ → ℕ → List Object → (ℕ → ℕ) → (ℕ → ℕ) → Type 0
InObjects fuel symbol got [] m n = m ≡ n
InObjects fuel symbol got (o ∷ os) m n =
    (k : ℕ → ℕ) × InObject fuel symbol got o m k × InObjects fuel symbol got os k n

module _ (fuel : ℕ) (symbol : List ℕ) (got : ℕ) where
  patch_library-InObject :
      (o : Object) (m n : ℕ → ℕ)
      → patch_library fuel symbol got o m ≡ ok n
      → InObject fuel symbol got o m n
  unfolding patch_library patched_memory
  patch_library-InObject o m n h = found (find_dynamic o.dlpi_phdr) refl h
    where
      err_ok : {A : Type 0} {e : Error} {v : A} → err e ≡ ok v → ⊥
      err_ok e = cc

      read :
          (p : Phdr) (r : Result Tables)
          → find_dynamic o.dlpi_phdr ≡ some p
          → read_tables m fuel o.dlpi_addr (u64 (o.dlpi_addr + p.p_vaddr)) no_tables ≡ r
          → patch_tables symbol got o.dlpi_addr m r ≡ ok n
          → InObject fuel symbol got o m n
      read p (err e) there table h = absurd (err_ok h)
      read p (ok t) there table h =
          let equal : patched_memory symbol got o.dlpi_addr t m ≡ n = cc in
          record {
            header = p;
            tables = t;
            first = find_dynamic-First p o.dlpi_phdr there;
            tabled = read_tables-Tabled m o.dlpi_addr fuel _ nothing_noted t table;
            patched =
                subst (Patched symbol got o.dlpi_addr t m) equal
                  (patched_memory-Patched symbol got o.dlpi_addr t m);
          }

      found :
          (d : Option Phdr)
          → find_dynamic o.dlpi_phdr ≡ d
          → elim d [
            | none ↦ err null_pointer
            | some p ↦
                patch_tables symbol got o.dlpi_addr m
                  (read_tables m fuel o.dlpi_addr (u64 (o.dlpi_addr + p.p_vaddr)) no_tables)
          ]
            ≡ ok n
          → InObject fuel symbol got o m n
      found none there h = absurd (err_ok h)
      found (some p) there h = read p _ there refl h

  InObject-patch_library :
      (o : Object) (m n : ℕ → ℕ)
      → InObject fuel symbol got o m n
      → patch_library fuel symbol got o m ≡ ok n
  unfolding patch_library patched_memory
  InObject-patch_library o m n h =
      ap
        (λ (d : Option Phdr). elim d [
          | none ↦ err null_pointer
          | some p ↦
              patch_tables symbol got o.dlpi_addr m
                (read_tables m fuel o.dlpi_addr (u64 (o.dlpi_addr + p.p_vaddr)) no_tables)
        ])
        (First-find_dynamic h.header o.dlpi_phdr h.first)
      ∙ ap (patch_tables symbol got o.dlpi_addr m) (
          Tabled-read_tables m o.dlpi_addr fuel (u64 (o.dlpi_addr + h.header.p_vaddr)) nothing_noted
            h.tables h.tabled)
      ∙ ap ok (sym (Patched-patched_memory symbol got o.dlpi_addr h.tables m n h.patched))

  then_patch-InObjects :
      (os : List Object) (o : Object) (m n : ℕ → ℕ) (r : Result (ℕ → ℕ))
      → patch_library fuel symbol got o m ≡ r
      → ((k : ℕ → ℕ)
          → patch_library_got fuel os symbol got k ≡ ok n
          → InObjects fuel symbol got os k n)
      → then_patch (patch_library_got fuel os symbol got) r ≡ ok n
      → InObjects fuel symbol got (o ∷ os) m n
  then_patch-InObjects os o m n (ok k) first rest h =
      (k, patch_library-InObject o m k first, rest k h)
  then_patch-InObjects os o m n (err e) first rest h = cc

  pub patch_library_got-InObjects :
      (os : List Object) (m n : ℕ → ℕ)
      → patch_library_got fuel os symbol got m ≡ ok n
      → InObjects fuel symbol got os m n
  unfolding patch_library_got
  patch_library_got-InObjects [] m n h = cc
  patch_library_got-InObjects (o ∷ os) m n h =
      then_patch-InObjects os o m n (patch_library fuel symbol got o m) refl
        (λ k. patch_library_got-InObjects os k n) h

  pub InObjects-patch_library_got :
      (os : List Object) (m n : ℕ → ℕ)
      → InObjects fuel symbol got os m n
      → patch_library_got fuel os symbol got m ≡ ok n
  unfolding patch_library_got
  InObjects-patch_library_got [] m n h = ap ok h
  InObjects-patch_library_got (o ∷ os) m n (k, first, rest) =
      ap (then_patch (patch_library_got fuel os symbol got)) (InObject-patch_library o m k first)
      ∙ InObjects-patch_library_got os k n rest
