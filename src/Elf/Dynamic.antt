-- ===== src/Elf/Dynamic.antt =====
-- elf_read_dynamic and elf_init of src/elf_loader.c: the dynamic section is read, the libraries that it
-- names are opened, the relocations are applied, and the program's constructors run.
pub mod Last
use byte_shatter.Base.{
  ℕ, zero, suc, ◌+◌, ◌*◌, ◌/◌, ◌==◌, if◌then◌else◌, List, [], ◌∷◌, Option, none, some, Result, ok,
  err, u64, no_dynamic_section, out_of_fuel,
}
use byte_shatter.Memory.{load64}
use byte_shatter.Memory.Strings.{c_string}
use byte_shatter.Jit.{Anchor}
use byte_shatter.Cache.Blocks.{cache_clear}
use byte_shatter.Libraries.{Libs, open_library}
use byte_shatter.Libraries.Got.{Object, find_dynamic}
use byte_shatter.Elf.{Phdr, Elf}
use byte_shatter.Elf.Relr.{reloc_relr}
use byte_shatter.Elf.Rela.{Host, Symbols, reloc_rela}

-- The fields of the program and the local variables that the dynamic section sets.
pub record Dynamic : Type 0 where
  pub strtab : ℕ
  pub symtab : ℕ
  pub rela : ℕ
  pub relasz : ℕ
  pub init : ℕ
  pub jmprel : ℕ
  pub jmprelsz : ℕ
  pub init_array : ℕ
  pub init_arraysz : ℕ
  pub relr : ℕ
  pub relrsz : ℕ

-- The switch on d_tag: DT_PLTRELSZ 2, DT_STRTAB 5, DT_SYMTAB 6, DT_RELA 7, DT_RELASZ 8, DT_INIT 12, DT_JMPREL
-- 23, DT_INIT_ARRAY 25, DT_INIT_ARRAYSZ 27, DT_RELRSZ 35, DT_RELR 36.
unfoldable pub note : (base tag value : ℕ) → Dynamic → Dynamic
note base tag value d =
    if tag == 2
    then record d { jmprelsz = value }
    else if tag == 5
    then record d { strtab = u64 (base + value) }
    else if tag == 6
    then record d { symtab = u64 (base + value) }
    else if tag == 7
    then record d { rela = u64 (base + value) }
    else if tag == 8
    then record d { relasz = value }
    else if tag == 12
    then record d { init = u64 (base + value) }
    else if tag == 23
    then record d { jmprel = u64 (base + value) }
    else if tag == 25
    then record d { init_array = u64 (base + value) }
    else if tag == 27
    then record d { init_arraysz = value }
    else if tag == 35
    then record d { relrsz = value }
    else if tag == 36
    then record d { relr = u64 (base + value) }
    else d

module _ (mem : ℕ → ℕ) where
  -- The first loop over the entries at `dyn`, up to DT_NULL, of at most so many entries.
  unfoldable pub read_dynamic : ℕ → ℕ → ℕ → Dynamic → Result Dynamic
  unfolding note
  read_dynamic zero base dyn d = err out_of_fuel
  read_dynamic (suc n) base dyn d =
      let rest =
        read_dynamic n base (dyn + 16) (note base (load64 mem dyn) (load64 mem (dyn + 8)) d) in
      if load64 mem dyn == 0 then ok d else rest

  abbrev pub then_libs : (Libs → Result Libs) → Result Libs → Result Libs
  then_libs k (ok libs) = k libs
  then_libs k (err e) = err e

  -- One round of the second loop: DT_NEEDED 1 names a library.
  unfoldable pub open_if_needed : (List ℕ → ℕ) → (strtab tag value : ℕ) → Libs → Result Libs
  unfolding c_string open_library
  open_if_needed dlopen strtab tag value libs =
      if tag == 1 then open_library dlopen (c_string mem (u64 (strtab + value))) libs else ok libs

  unfoldable pub open_needed : (List ℕ → ℕ) → ℕ → ℕ → ℕ → Libs → Result Libs
  unfolding open_if_needed
  open_needed dlopen zero strtab dyn libs = err out_of_fuel
  open_needed dlopen (suc n) strtab dyn libs =
      let rest =
        then_libs (open_needed dlopen n strtab (dyn + 16))
          (open_if_needed dlopen strtab (load64 mem dyn) (load64 mem (dyn + 8)) libs) in
      if load64 mem dyn == 0 then ok libs else rest

abbrev pub then_memory : ((ℕ → ℕ) → Result (ℕ → ℕ)) → Result (ℕ → ℕ) → Result (ℕ → ℕ)
then_memory k (ok mem) = k mem
then_memory k (err e) = err e

abbrev pub tables_of : ℕ → Dynamic → Symbols
tables_of base d = record { base = base; symtab = d.symtab; strtab = d.strtab }

-- `if (relr) ...; if (rela) ...; if (jmprel) ...;`
unfoldable pub relocate : Host → ℕ → Dynamic → (ℕ → ℕ) → Result (ℕ → ℕ)
unfolding reloc_relr reloc_rela
relocate host base d mem =
    let unpacked = if d.relr == 0 then mem else reloc_relr base d.relr d.relrsz mem in
    let addends =
      if d.rela == 0
      then ok unpacked
      else reloc_rela host (tables_of base d) d.rela d.relasz unpacked in
    then_memory
      (λ m.
        if d.jmprel == 0 then ok m else reloc_rela host (tables_of base d) d.jmprel d.jmprelsz m)
      addends

-- The program, linked: its memory, its libraries, and what the dynamic section says.
pub record Linked : Type 0 where
  pub mem : ℕ → ℕ
  pub libs : Libs
  pub dynamic : Dynamic

-- What the structure of the program holds before, and the local variables.
abbrev pub no_dynamic : Dynamic
no_dynamic = record {
  strtab = 0;
  symtab = 0;
  rela = 0;
  relasz = 0;
  init = 0;
  jmprel = 0;
  jmprelsz = 0;
  init_array = 0;
  init_arraysz = 0;
  relr = 0;
  relrsz = 0;
}

-- The host's loader, and the bound on the length of a dynamic section.
pub record Linker : Type 0 where
  pub dlopen : List ℕ → ℕ
  pub dlsym : ℕ → List ℕ → ℕ
  pub objects : List Object
  pub my_syscall : ℕ
  pub scan : ℕ

abbrev pub host_of : Linker → Libs → Host
host_of l libs = record {
  dlsym = l.dlsym;
  objects = l.objects;
  libs = libs.libs;
  my_syscall = l.my_syscall;
  scan = l.scan;
}

abbrev pub linked : Libs → Dynamic → Result (ℕ → ℕ) → Result Linked
linked libs d (ok mem) = ok (record { mem = mem; libs = libs; dynamic = d })
linked libs d (err e) = err e

abbrev pub with_libs : Linker → ℕ → Dynamic → (ℕ → ℕ) → Result Libs → Result Linked
with_libs l base d mem (ok libs) = linked libs d (relocate (host_of l libs) base d mem)
with_libs l base d mem (err e) = err e

abbrev pub with_dynamic : Linker → ℕ → ℕ → (ℕ → ℕ) → Libs → Result Dynamic → Result Linked
with_dynamic l base dyn mem libs (ok d) =
    with_libs l base d mem (open_needed mem l.dlopen l.scan d.strtab dyn libs)
with_dynamic l base dyn mem libs (err e) = err e

unfoldable pub elf_read_dynamic : Linker → List Phdr → ℕ → Libs → (ℕ → ℕ) → Result Linked
unfolding find_dynamic read_dynamic open_needed relocate
elf_read_dynamic l pheads base libs mem = elim (find_dynamic pheads) [
  | none ↦ err no_dynamic_section
  | some p ↦
      let dyn = u64 (base + p.p_vaddr) in
      with_dynamic l base dyn mem libs (read_dynamic mem l.scan base dyn no_dynamic)
]

-- Guest code runs on memory and the cache; `execute_with_save` of an address is a parameter.
pub record Running : Type 0 where
  pub mem : ℕ → ℕ
  pub anchor : Anchor

abbrev pub then_run : (Running → Result Running) → Result Running → Result Running
then_run k (ok s) = k s
then_run k (err e) = err e

module _ (execute_with_save : ℕ → Running → Result Running) where
  -- The loop over init_array, with `n` entries left from address `p` on.
  unfoldable pub run_array : ℕ → ℕ → Running → Result Running
  run_array zero p s = ok s
  run_array (suc n) p s = then_run (run_array n (p + 8)) (execute_with_save (load64 s.mem p) s)

  abbrev pub cleared : Result Running → Result Running
  cleared (ok s) = ok (record s { anchor = cache_clear s.anchor })
  cleared (err e) = err e

  unfoldable pub elf_init : Dynamic → Running → Result Running
  unfolding run_array cache_clear
  elf_init d s =
      let inited = if d.init == 0 then ok s else execute_with_save d.init s in
      cleared (
        then_run
          (λ t. if d.init_array == 0 then ok t else run_array (d.init_arraysz / 8) d.init_array t)
          inited)
