-- ===== src/Elf/Rela/Applied.antt =====
-- What reloc_rela (src/elf_loader.c) does when it returns, relocation by relocation.
use byte_shatter.Base.{
  ℕ, zero, suc, ◌+◌, ◌==◌, ◌≡◌, ◌≢◌, ◌⊎◌, ◌||◌, refl, true, Result, ok, err, u64, arith, if_cases,
  ==_iff, subst,
}
use byte_shatter.Memory.Stores.{store64, copy_bytes}
use byte_shatter.Libraries.{get_symbol, get_symbol_wrapped, sym_override}
use byte_shatter.Libraries.Redirected.{
  InObjects, patch_library_got-InObjects, InObjects-patch_library_got,
}
use byte_shatter.Elf.Rela.{
  Host, Symbols, Rela, Symbol, read_rela, read_symbol, resolve, is_weak, Relocated, failed,
  bind_symbol, copy_symbol, with_memory, apply_rela, otherwise,
}

-- The address that a symbol is bound to.
pub data Binds (host : Host) (sym : Symbol) (v : ℕ) : Type 0 where
  by_wrapper : v ≢ 0 → get_symbol_wrapped host.dlsym host.libs sym.symname ≡ v → Binds host sym v
  by_override :
      v ≢ 0
      → get_symbol_wrapped host.dlsym host.libs sym.symname ≡ 0
      → sym_override host.my_syscall sym.symname ≡ v
      → Binds host sym v
  by_host :
      v ≢ 0
      → get_symbol_wrapped host.dlsym host.libs sym.symname ≡ 0
      → sym_override host.my_syscall sym.symname ≡ 0
      → get_symbol host.dlsym sym.symname ≡ v
      → Binds host sym v
  weak :
      v ≡ 0
      → get_symbol_wrapped host.dlsym host.libs sym.symname ≡ 0
      → sym_override host.my_syscall sym.symname ≡ 0
      → get_symbol host.dlsym sym.symname ≡ 0
      → is_weak sym.st_info ≡ true
      → Binds host sym v

abbrev pub patch_of : Symbols → Rela → ℕ
patch_of tables rel = u64 (tables.base + rel.r_offset)

abbrev pub symbol_of : Symbols → Rela → (ℕ → ℕ) → Symbol
symbol_of tables rel mem = read_symbol mem tables rel.sym_idx

-- What a relocation means, from one memory to the next.
pub data Applied (host : Host) (tables : Symbols) (rel : Rela) (m n : ℕ → ℕ) : Type 0 where
  nothing : rel.type ≡ 0 → n ≡ m → Applied host tables rel m n
  absolute :
      rel.type ≡ 1
      → n ≡ store64 m (patch_of tables rel) (u64 ((symbol_of tables rel m).st_value + rel.r_addend))
      → Applied host tables rel m n
  relative :
      rel.type ≡ 8
      → n ≡ store64 m (patch_of tables rel) (u64 (tables.base + rel.r_addend))
      → Applied host tables rel m n
  bound :
      (rel.type ≡ 7) ⊎ (rel.type ≡ 6)
      → (v : ℕ) → Binds host (symbol_of tables rel m) v
      → n ≡ store64 m (patch_of tables rel) v
      → Applied host tables rel m n
  copied :
      rel.type ≡ 5
      → get_symbol host.dlsym (symbol_of tables rel m).symname ≢ 0
      → (symbol_of tables rel m).st_size ≢ 0
      → InObjects host.scan
          (symbol_of tables rel m).symname
          (patch_of tables rel)
          host.objects
          (copy_bytes m
            (patch_of tables rel)
            (λ i. m (get_symbol host.dlsym (symbol_of tables rel m).symname + i))
            (symbol_of tables rel m).st_size)
          n
      → Applied host tables rel m n

-- So many relocations, one after the other, each read from the memory that the one before leaves.
abbrev pub AppliedAll : Host → Symbols → ℕ → ℕ → (ℕ → ℕ) → (ℕ → ℕ) → Type 0
AppliedAll host tables zero rel m n = m ≡ n
AppliedAll host tables (suc count) rel m n =
    (k : ℕ → ℕ) × Applied host tables (read_rela m rel) m k
    × AppliedAll host tables count (rel + 24) k n

otherwise-cases : (a b : ℕ) (P : ℕ → Type 0) → (a ≢ 0 → P a) → (a ≡ 0 → P b) → P (otherwise a b)
otherwise-cases a b P there missing =
    if_cases P (a == 0) (λ e. missing ((==_iff _ _).0 e)) λ e. there (λ z. ground (arith, e, z))

otherwise-zero : (a b : ℕ) → otherwise a b ≡ 0 → (a ≡ 0) × (b ≡ 0)
otherwise-zero a b h = ground arith

otherwise_eq : (a b : ℕ) → a ≡ 0 → otherwise a b ≡ b
otherwise_eq a b h = ground arith

module _ (host : Host) (sym : Symbol) where
  open host use {dlsym, libs, my_syscall}

  Binds-resolve : resolve host sym.symname ≢ 0 → Binds host sym (resolve host sym.symname)
  unfolding resolve
  Binds-resolve =
      otherwise-cases
        (otherwise (get_symbol_wrapped dlsym libs sym.symname)
          (sym_override my_syscall sym.symname))
        (get_symbol dlsym sym.symname) (λ v. v ≢ 0 → Binds host sym v)
        (otherwise-cases (get_symbol_wrapped dlsym libs sym.symname)
          (sym_override my_syscall sym.symname) (λ v. v ≢ 0 → v ≢ 0 → Binds host sym v)
          (λ w _ h. by_wrapper h refl) λ w _ h. by_override h w refl)
        λ none h. let (w, o) = otherwise-zero _ _ none in by_host h w o refl

  Binds-weak : resolve host sym.symname ≡ 0 → is_weak sym.st_info ≡ true → Binds host sym 0
  unfolding resolve
  Binds-weak h k =
      let (outer, native) = otherwise-zero _ _ h in
      let (w, o) = otherwise-zero _ _ outer in weak refl w o native k

  resolve-Binds : (v : ℕ) → Binds host sym v → resolve host sym.symname ≡ v
  unfolding resolve
  resolve-Binds v (by_wrapper h w) = ground (arith, w)
  resolve-Binds v (by_override h w o) = ground (arith, w, o)
  resolve-Binds v (by_host h w o n) = ground (arith, w, o, n)
  resolve-Binds v (weak z w o n k) = ground (arith, w, o, n)

module _ (host : Host) (tables : Symbols) (rel : Rela) (s : Relocated) where
  -- If `r` is a result with all right, it was so before, and the relocation was applied.
  abbrev pub Sound : Result Relocated → Type 0
  Sound r =
      (t : Relocated)
      → r ≡ ok t
      → t.allright ≡ true
      → (s.allright ≡ true) × Applied host tables rel s.mem t.mem

  Sound-ok :
      (u : Relocated)
      → (u.allright ≡ true → (s.allright ≡ true) × Applied host tables rel s.mem u.mem)
      → Sound (ok u)
  Sound-ok u k t e right =
      let same : u ≡ t = cc in
      subst
        (λ (v : Relocated).
          v.allright ≡ true → (s.allright ≡ true) × Applied host tables rel s.mem v.mem)
        same k right

  bind_symbol-Sound :
      (rel.type ≡ 7) ⊎ (rel.type ≡ 6)
      → Sound (ok (bind_symbol host (patch_of tables rel) (symbol_of tables rel s.mem) s))
  bind_symbol-Sound e =
      let sym = symbol_of tables rel s.mem in
      if_cases (λ u. Sound (ok u)) (resolve host sym.symname == 0)
        (λ z.
          if_cases (λ u. Sound (ok u)) (is_weak sym.st_info)
            (λ w. Sound-ok _ λ r. (r, bound e 0 (Binds-weak host sym ((==_iff _ _).0 z) w) refl))
            λ _. Sound-ok _ λ r. cc)
        λ z. Sound-ok _ λ r. (
          r,
          bound e (resolve host sym.symname) (Binds-resolve host sym (λ h. ground (arith, z, h)))
              refl,
        )

  with_memory-Sound :
      (r : Result (ℕ → ℕ))
      → ((n : ℕ → ℕ) → r ≡ ok n → Applied host tables rel s.mem n)
      → Sound (with_memory s r)
  with_memory-Sound (ok n) k = Sound-ok _ λ r. (r, k n refl)
  with_memory-Sound (err e) k = λ t h. cc

  copy_symbol-Sound :
      rel.type ≡ 5 → Sound (copy_symbol host (patch_of tables rel) (symbol_of tables rel s.mem) s)
  copy_symbol-Sound e =
      let sym = symbol_of tables rel s.mem in
      if_cases Sound (get_symbol host.dlsym sym.symname == 0) (λ _. Sound-ok (failed s) λ r. cc)
        λ a.
          if_cases Sound (sym.st_size == 0) (λ _. Sound-ok (failed s) λ r. cc)
            λ b. with_memory-Sound _ λ n h.
              copied e (λ z. ground (arith, a, z)) (λ z. ground (arith, b, z))
                (patch_library_got-InObjects host.scan sym.symname (patch_of tables rel)
                  host.objects _ n h)

  pub apply_rela-Sound : Sound (apply_rela host tables rel s)
  unfolding apply_rela
  apply_rela-Sound =
      if_cases Sound (rel.type == 0) (λ e. Sound-ok s λ r. (r, nothing ((==_iff _ _).0 e) refl))
        λ _.
          if_cases Sound (rel.type == 1)
            (λ e. Sound-ok _ λ r. (r, absolute ((==_iff _ _).0 e) refl))
            λ _.
              if_cases Sound (rel.type == 8)
                (λ e. Sound-ok _ λ r. (r, relative ((==_iff _ _).0 e) refl))
                λ _.
                  if_cases Sound (rel.type == 7 || rel.type == 6)
                    (λ e. bind_symbol-Sound (ground (arith, e)))
                    λ _.
                      if_cases Sound (rel.type == 5) (λ e. copy_symbol-Sound ((==_iff _ _).0 e))
                        λ _. Sound-ok (failed s) λ r. cc

pub apply_rela-Complete :
    (host : Host) (tables : Symbols) (rel : Rela) (m n : ℕ → ℕ)
    → Applied host tables rel m n
    → apply_rela host tables rel (record { mem = m; allright = true })
      ≡ ok (record { mem = n; allright = true })
unfolding apply_rela
apply_rela-Complete host tables rel m n (nothing e h) = ground (arith, h)
apply_rela-Complete host tables rel m n (absolute e h) = ground (arith, h)
apply_rela-Complete host tables rel m n (relative e h) = ground (arith, h)
apply_rela-Complete host tables rel m n (bound e v b h) =
    ground (arith, h, resolve-Binds host (symbol_of tables rel m) v b)
apply_rela-Complete host tables rel m n (copied e a b h) = ground (
  arith,
  InObjects-patch_library_got host.scan (symbol_of tables rel m).symname (patch_of tables rel)
      host.objects _ n h,
)
