-- ===== src/Elf/Dynamic/Last.antt =====
-- What elf_read_dynamic (src/elf_loader.c) reads: of each tag the last entry before DT_NULL.
use byte_shatter.Base.{
  ℕ, zero, suc, ◌+◌, ◌≡◌, ◌≢◌, ◌<◌, ◌∙◌, refl, ap, ◌==◌, if◌then◌else◌, List, [], ◌∷◌, length, ok,
  u64, arith, ne→==-false,
}
use byte_shatter.Memory.{load64}
use byte_shatter.Elf.Dynamic.{Dynamic, note, read_dynamic}

-- The entries at `dyn`, with DT_NULL behind them.
abbrev pub HoldsDynamic : (ℕ → ℕ) → ℕ → List (ℕ × ℕ) → Type 0
HoldsDynamic mem dyn [] = load64 mem dyn ≡ 0
HoldsDynamic mem dyn ((tag, value) ∷ rest) =
    (load64 mem dyn ≡ tag)
    × (tag ≢ 0)
    × (load64 mem (dyn + 8) ≡ value)
    × HoldsDynamic mem (dyn + 16) rest

-- The value of the last entry with the tag, or `d` if there is none.
abbrev pub last_value : ℕ → List (ℕ × ℕ) → ℕ → ℕ
last_value tag [] d = d
last_value tag ((t, value) ∷ rest) d = last_value tag rest (if t == tag then value else d)

-- The same for a value that is an offset from the base.
abbrev pub last_address : ℕ → ℕ → List (ℕ × ℕ) → ℕ → ℕ
last_address base tag [] d = d
last_address base tag ((t, value) ∷ rest) d =
    last_address base tag rest (if t == tag then u64 (base + value) else d)

abbrev pub last_entries : ℕ → List (ℕ × ℕ) → Dynamic → Dynamic
last_entries base es d = record {
  strtab = last_address base 5 es d.strtab;
  symtab = last_address base 6 es d.symtab;
  rela = last_address base 7 es d.rela;
  relasz = last_value 8 es d.relasz;
  init = last_address base 12 es d.init;
  jmprel = last_address base 23 es d.jmprel;
  jmprelsz = last_value 2 es d.jmprelsz;
  init_array = last_address base 25 es d.init_array;
  init_arraysz = last_value 27 es d.init_arraysz;
  relr = last_address base 36 es d.relr;
  relrsz = last_value 35 es d.relrsz;
}

note-eq :
    (base tag value : ℕ) (d : Dynamic)
    → note base tag value d ≡ last_entries base ((tag, value) ∷ []) d
unfolding note
note-eq base tag value d = ground arith

-- For entries in memory that end with DT_NULL, and more rounds than entries: the loop ends, and every
-- field is that of the last entry with its tag, or as it was if there is none.
pub read_dynamic-last :
    (mem : ℕ → ℕ) (fuel base dyn : ℕ) (es : List (ℕ × ℕ)) (d : Dynamic)
    → length es < fuel
    → HoldsDynamic mem dyn es
    → read_dynamic mem fuel base dyn d ≡ ok (last_entries base es d)
unfolding read_dynamic
read_dynamic-last mem (suc n) base dyn [] d enough h = rw h refl
read_dynamic-last mem zero base dyn es d enough h = absurd (omega arith)
read_dynamic-last mem (suc n) base dyn ((tag, value) ∷ es) d enough (t, nonzero, v, h) =
    rw (t, v, ne→==-false tag 0 nonzero)
      (read_dynamic-last mem n base (dyn + 16) es (note base tag value d) (omega arith) h
        ∙ ap (λ (x : Dynamic). ok (last_entries base es x)) (note-eq base tag value d))
