-- ===== src/Elf/Rela/Chain.antt =====
-- reloc_rela (src/elf_loader.c) over a whole table.
use byte_shatter.Base.{
  ℕ, zero, suc, ◌+◌, ◌/◌, ◌^◌, ◌<◌, arith, ◌≡◌, inl, inr, refl, true, Result, ok, err, Bool-cases,
  subst, ap, ◌∙◌, ◌↔◌, Error,
}
use byte_shatter.Elf.Rela.{
  Host, Symbols, read_rela, Relocated, apply_rela, then_rela, apply_relas, unless_failed,
  rela_count, reloc_rela,
}
use byte_shatter.Elf.Rela.Applied.{AppliedAll, Sound, apply_rela-Sound, apply_rela-Complete}

module _ (host : Host) (tables : Symbols) where
  abbrev ChainSound : ℕ → ℕ → Relocated → Result Relocated → Type 0
  ChainSound count rel s r =
      (t : Relocated)
      → r ≡ ok t
      → t.allright ≡ true
      → (s.allright ≡ true) × AppliedAll host tables count rel s.mem t.mem

  then_rela-Sound :
      (count rel : ℕ) (s : Relocated) (r : Result Relocated)
      → Sound host tables (read_rela s.mem rel) s r
      → ((u : Relocated)
          → ChainSound count (rel + 24) u (apply_relas host tables count (rel + 24) u))
      → ChainSound (suc count) rel s (then_rela (apply_relas host tables count (rel + 24)) r)
  then_rela-Sound count rel s (ok u) first later t e right =
      let (before, rest) = later u t e right in
      let (start, applied) = first u refl before in (start, (u.mem, applied, rest))
  then_rela-Sound count rel s (err x) first later t e right = cc

  apply_relas-Sound :
      (count rel : ℕ) (s : Relocated) → ChainSound count rel s (apply_relas host tables count rel s)
  unfolding apply_relas
  apply_relas-Sound zero rel s t e right =
      let equal : s ≡ t = cc in
      (ap (λ (u : Relocated). u.allright) equal ∙ right, ap (λ (u : Relocated). u.mem) equal)
  apply_relas-Sound (suc count) rel s t e right =
      then_rela-Sound count rel s (apply_rela host tables (read_rela s.mem rel) s)
        (apply_rela-Sound host tables (read_rela s.mem rel) s) (apply_relas-Sound count (rel + 24))
        t e right

  apply_relas-Complete :
      (count rel : ℕ) (m n : ℕ → ℕ)
      → AppliedAll host tables count rel m n
      → apply_relas host tables count rel (record { mem = m; allright = true })
        ≡ ok (record { mem = n; allright = true })
  unfolding apply_relas
  apply_relas-Complete zero rel m n h =
      ap (λ (k : ℕ → ℕ). ok (record { mem = k; allright = true })) h
  apply_relas-Complete (suc count) rel m n (k, first, later) =
      ap (then_rela (apply_relas host tables count (rel + 24)))
        (apply_rela-Complete host tables (read_rela m rel) m k first)
      ∙ apply_relas-Complete count (rel + 24) k n later

  unless_failed-Sound :
      (count rel : ℕ) (m n : ℕ → ℕ) (r : Result Relocated)
      → ChainSound count rel (record { mem = m; allright = true }) r
      → unless_failed r ≡ ok n
      → AppliedAll host tables count rel m n
  unless_failed-Sound count rel m n (err e) k h = cc
  unless_failed-Sound count rel m n (ok t) k h = elim (Bool-cases t.allright) [
    | inl right ↦
        subst (AppliedAll host tables count rel m) (mem_of (rw right at h)) (k t refl right).1
    | inr wrong ↦ absurd (not_ok (rw wrong at h))
  ]
    where
      mem_of : ok t.mem ≡ ok n → t.mem ≡ n
      mem_of e = cc

      not_ok : {e : Error} {n : ℕ → ℕ} → err e ≡ ok n → ⊥
      not_ok e = cc

  reloc_rela-counted :
      (rela relasz : ℕ) (m n : ℕ → ℕ)
      → (reloc_rela host tables rela relasz m ≡ ok n)
        ↔ AppliedAll host tables (rela_count relasz) rela m n
  unfolding reloc_rela
  reloc_rela-counted rela relasz m n = (
    unless_failed-Sound (rela_count relasz) rela m n _
        (apply_relas-Sound (rela_count relasz) rela (record { mem = m; allright = true })),
    λ h. ap unless_failed (apply_relas-Complete (rela_count relasz) rela m n h),
  )

  small_count : (relasz : ℕ) → relasz < 2 ^ 31 → rela_count relasz ≡ relasz / 24
  small_count relasz small = ground (arith, small)

  -- For a table of less than 2 GiB: reloc_rela returns exactly if each of its relasz / 24 relocations, read
  -- from the memory that the one before leaves, can be applied as the code means its type: nothing; the
  -- symbol's value without the base, and the addend; the base and the addend; the address of the wrapper,
  -- else the override, else the host's symbol, or 0 for a weak symbol without any; or a copy of the host's
  -- object, and then in each object of the host, with the tables of its dynamic section, every slot of that
  -- name gets the address of the copy. Memory is then what the last one leaves.
  pub reloc_rela-AppliedAll :
      (rela relasz : ℕ) (m n : ℕ → ℕ)
      → relasz < 2 ^ 31
      → (reloc_rela host tables rela relasz m ≡ ok n)
        ↔ AppliedAll host tables (relasz / 24) rela m n
  reloc_rela-AppliedAll rela relasz m n small =
      subst
        (λ (count : ℕ).
          (reloc_rela host tables rela relasz m ≡ ok n) ↔ AppliedAll host tables count rela m n)
        (small_count relasz small) (reloc_rela-counted rela relasz m n)
