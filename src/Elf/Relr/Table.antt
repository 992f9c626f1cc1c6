-- ===== src/Elf/Relr/Table.antt =====
-- reloc_relr (src/elf_loader.c) on a table in memory.
use byte_shatter.Base.{
  ℕ, ◌+◌, ◌*◌, ◌^◌, ◌≤◌, ◌<◌, ◌≡◌, ◌⊎◌, ◌∙◌, refl, ap, sym, true, false, if◌then◌else◌, bit, u64,
  List, [], ◌∷◌, ◌++◌, length, arith, subst,
}
use byte_shatter.Memory.{load64}
use byte_shatter.Memory.Stores.{load64-store64_off, load64-IsU64}
use byte_shatter.Elf.Relr.{add_base, Relr, reloc_entry, reloc_entries, relr_count, reloc_relr}
use byte_shatter.Elf.Relr.Packed.{
  marked, relr_words, relocated, reloc_bits-eq, entered, reloc_entry-eq,
}

-- The table at `table`, read from memory.
abbrev pub HoldsTable : (ℕ → ℕ) → ℕ → ℕ → List ℕ → Type 0
HoldsTable mem table i [] = Unit
HoldsTable mem table i (e ∷ es) =
    (load64 mem (u64 (table + 8 * i)) ≡ e) × HoldsTable mem table (i + 1) es

-- No word that is relocated overlaps the table, which has `n` entries.
abbrev pub AllOff : ℕ → ℕ → List ℕ → Type 0
AllOff low high [] = Unit
AllOff low high (p ∷ ps) = ((p + 8 ≤ low) ⊎ (high ≤ p)) × AllOff low high ps

AllOff-append :
    (low high : ℕ) (ps qs : List ℕ)
    → AllOff low high (ps ++ qs)
    → AllOff low high ps × AllOff low high qs
AllOff-append low high [] qs h = (tt, h)
AllOff-append low high (p ∷ ps) qs h =
    let (a, b) = AllOff-append low high ps qs h.1 in ((h.0, a), b)

relocated-off :
    (base low high q : ℕ) (ps : List ℕ) (mem : ℕ → ℕ)
    → low ≤ q
    → q + 8 ≤ high
    → AllOff low high ps
    → load64 (relocated base ps mem) q ≡ load64 mem q
unfolding add_base
relocated-off base low high q [] mem a b h = refl
relocated-off base low high q (p ∷ ps) mem a b h =
    relocated-off base low high q ps (add_base base p mem) a b h.1
    ∙ load64-store64_off mem p (u64 (load64 mem p + base)) q (ground (arith, h.0))

HoldsTable-relocated :
    (base table low high i : ℕ) (ps es : List ℕ) (mem : ℕ → ℕ)
    → low ≤ table + 8 * i
    → table + 8 * (i + length es) ≤ high
    → high < 2 ^ 64
    → AllOff low high ps
    → HoldsTable mem table i es
    → HoldsTable (relocated base ps mem) table i es
HoldsTable-relocated base table low high i ps [] mem a b c off h = tt
HoldsTable-relocated base table low high i ps (e ∷ es) mem a b c off h = (
  relocated-off base low high (u64 (table + 8 * i)) ps mem (omega arith) (omega arith) off ∙ h.0,
  HoldsTable-relocated base table low high (i + 1) ps es mem (omega arith) (omega arith) c off h.1,
)

-- The words of one entry are off the table, and so are those of the entries after it.
reloc_entry-off :
    (base low high e : ℕ) (es : List ℕ) (s : Relr)
    → e < 2 ^ 64
    → AllOff low high (relr_words base s.place (e ∷ es))
    → (ws : List ℕ) × ((reloc_entry base e s).mem ≡ relocated base ws s.mem)
      × AllOff low high ws
      × AllOff low high (relr_words base (reloc_entry base e s).place es)
unfolding reloc_entry
reloc_entry-off base low high e es s small =
    elim (bit e 0)
      as (λ b.
        AllOff low high (
          if b
          then marked 63 0 s.place e ++ relr_words base (u64 (s.place + 8 * 63)) es
          else u64 (base + e) ∷ relr_words base (u64 (u64 (base + e) + 8)) es)
        → (ws : List ℕ) × ((entered b base e s).mem ≡ relocated base ws s.mem)
          × AllOff low high ws
          × AllOff low high (relr_words base (entered b base e s).place es)) [
            | true ↦ λ off. (
              marked 63 0 s.place e,
              reloc_bits-eq 63 base s.place 0 e e s.mem (omega arith) small,
              (AllOff-append low high (marked 63 0 s.place e)
                  (relr_words base (u64 (s.place + 8 * 63)) es) off).0,
              (AllOff-append low high (marked 63 0 s.place e)
                  (relr_words base (u64 (s.place + 8 * 63)) es) off).1,
            )
            | false ↦ λ off. (u64 (base + e) ∷ [], refl, (off.0, tt), off.1)
          ]

reloc_entries-eq :
    (base table low high : ℕ) (es : List ℕ) (i : ℕ) (s : Relr)
    → low ≤ table + 8 * i
    → table + 8 * (i + length es) ≤ high
    → high < 2 ^ 64
    → AllOff low high (relr_words base s.place es)
    → HoldsTable s.mem table i es
    → (reloc_entries base table (length es) i s).mem
      ≡ relocated base (relr_words base s.place es) s.mem
unfolding reloc_entries
reloc_entries-eq base table low high [] i s a b c off h = refl
reloc_entries-eq base table low high (e ∷ es) i s a b c off h =
    let small : e < 2 ^ 64 = omega (arith, h.0, load64-IsU64 s.mem (u64 (table + 8 * i))) in
    let (ws, written, here, later) = reloc_entry-off base low high e es s small off in
    ap (λ (t : ℕ). (reloc_entries base table (length es) (i + 1) (reloc_entry base t s)).mem) h.0
    ∙ reloc_entries-eq base table low high es (i + 1) (reloc_entry base e s) (omega arith)
        (omega arith) c later
        (subst (λ (m : ℕ → ℕ). HoldsTable m table (i + 1) es) (sym written)
          (HoldsTable-relocated base table low high (i + 1) ws es s.mem (omega arith) (omega arith)
            c here h.1))
    ∙ reloc_entry-eq base e es s small

-- For a table of fewer than 2^28 entries that no relocated word overlaps: reloc_relr adds the base to
-- the words that the packed format lists, in this order, and does nothing else to memory.
pub reloc_relr-eq-relocated :
    (base table : ℕ) (es : List ℕ) (mem : ℕ → ℕ)
    → length es < 2 ^ 28
    → table + 8 * length es < 2 ^ 64
    → HoldsTable mem table 0 es
    → AllOff table (table + 8 * length es) (relr_words base 0 es)
    → reloc_relr base table (8 * length es) mem ≡ relocated base (relr_words base 0 es) mem
unfolding reloc_relr
reloc_relr-eq-relocated base table es mem few high h off =
    let count : relr_count (8 * length es) ≡ length es = ground arith in
    ap (λ (n : ℕ). (reloc_entries base table n 0 (record { place = 0; mem = mem })).mem) count
    ∙ reloc_entries-eq base table table (table + 8 * length es) es 0
        (record { place = 0; mem = mem }) (omega arith) (omega arith) high off h
