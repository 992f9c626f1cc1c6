-- ===== src/Elf/Rela.antt =====
-- reloc_rela of src/elf_loader.c: the relocations with addends. The tables of relocations and symbols and
-- the names are read from memory, which the relocations write to.
pub mod Applied
pub mod Chain
use byte_shatter.Base.{
  ℕ, zero, suc, ◌+◌, ◌*◌, ◌/◌, ◌^◌, ◌==◌, ◌||◌, Bool, true, false, if◌then◌else◌, List, Option,
  none, some, Result, ok, err, u32, u64, sx32, low_bits, relocation_failed,
}
use byte_shatter.Memory.{load8, load32, load64}
use byte_shatter.Memory.Stores.{store64, copy_bytes}
use byte_shatter.Memory.Strings.{c_string}
use byte_shatter.Libraries.{Lib, get_symbol, get_symbol_wrapped, sym_override}
use byte_shatter.Libraries.Got.{Object, patch_library_got}

-- The host that the symbols are looked up in: its loader, its objects, the wrapper libraries, and the
-- address of my_syscall. `scan` bounds the length of a dynamic section.
pub record Host : Type 0 where
  pub dlsym : ℕ → List ℕ → ℕ
  pub objects : List Object
  pub libs : List Lib
  pub my_syscall : ℕ
  pub scan : ℕ

-- Where the tables of the program stand.
pub record Symbols : Type 0 where
  pub base : ℕ
  pub symtab : ℕ
  pub strtab : ℕ

-- Elf64_Rela: the type is the low half of r_info, and the symbol, an int, its high half.
pub record Rela : Type 0 where
  pub r_offset : ℕ
  pub type : ℕ
  pub sym_idx : ℕ
  pub r_addend : ℕ

unfoldable pub read_rela : (ℕ → ℕ) → ℕ → Rela
read_rela mem rel = record {
  r_offset = load64 mem rel;
  type = low_bits (load64 mem (rel + 8)) 32;
  sym_idx = load64 mem (rel + 8) / 2 ^ 32;
  r_addend = load64 mem (rel + 16);
}

-- Elf64_Sym, with its name.
pub record Symbol : Type 0 where
  pub symname : List ℕ
  pub st_info : ℕ
  pub st_value : ℕ
  pub st_size : ℕ

unfoldable pub read_symbol : (ℕ → ℕ) → Symbols → ℕ → Symbol
unfolding c_string
read_symbol mem tables sym_idx =
    let sym = u64 (tables.symtab + 24 * sx32 sym_idx) in
    record {
      symname = c_string mem (u64 (tables.strtab + load32 mem sym));
      st_info = load8 mem (sym + 4);
      st_value = load64 mem (sym + 8);
      st_size = load64 mem (sym + 16);
    }

abbrev pub otherwise : ℕ → ℕ → ℕ
otherwise a b = if a == 0 then b else a

-- The wrapper's symbol, or else the override, or else the host's.
unfoldable pub resolve : Host → List ℕ → ℕ
resolve host symname =
    otherwise
      (otherwise (get_symbol_wrapped host.dlsym host.libs symname)
        (sym_override host.my_syscall symname))
      (get_symbol host.dlsym symname)

-- ELF64_ST_BIND(info) == STB_WEAK
abbrev pub is_weak : ℕ → Bool
is_weak st_info = st_info / 2 ^ 4 == 2

-- Memory, and whether all relocations so far could be carried out.
pub record Relocated : Type 0 where
  pub mem : ℕ → ℕ
  pub allright : Bool

abbrev pub written : Relocated → ℕ → ℕ → Relocated
written s patch v = record s { mem = store64 s.mem patch v }

abbrev pub failed : Relocated → Relocated
failed s = record s { allright = false }

-- R_X86_64_JUMP_SLOT and R_X86_64_GLOB_DAT
abbrev pub bind_symbol : Host → ℕ → Symbol → Relocated → Relocated
bind_symbol host patch sym s =
    let sym_addr = resolve host sym.symname in
    if sym_addr == 0
    then if is_weak sym.st_info then written s patch 0 else failed s
    else written s patch sym_addr

abbrev pub with_memory : Relocated → Result (ℕ → ℕ) → Result Relocated
with_memory s (ok mem) = ok (record s { mem = mem })
with_memory s (err e) = err e

-- R_X86_64_COPY
abbrev pub copy_symbol : Host → ℕ → Symbol → Relocated → Result Relocated
copy_symbol host patch sym s =
    let sym_addr = get_symbol host.dlsym sym.symname in
    if sym_addr == 0
    then ok (failed s)
    else if sym.st_size == 0
    then ok (failed s)
    else with_memory s (
        patch_library_got host.scan host.objects sym.symname patch
          (copy_bytes s.mem patch (λ i. s.mem (sym_addr + i)) sym.st_size))

-- The switch: R_X86_64_NONE 0, 64 1, COPY 5, GLOB_DAT 6, JUMP_SLOT 7, RELATIVE 8.
unfoldable pub apply_rela : Host → Symbols → Rela → Relocated → Result Relocated
apply_rela host tables rel s =
    let patch = u64 (tables.base + rel.r_offset) in
    let sym = read_symbol s.mem tables rel.sym_idx in
    if rel.type == 0
    then ok s
    else if rel.type == 1
    then ok (written s patch (u64 (sym.st_value + rel.r_addend)))
    else if rel.type == 8
    then ok (written s patch (u64 (tables.base + rel.r_addend)))
    else if rel.type == 7 || rel.type == 6
    then ok (bind_symbol host patch sym s)
    else if rel.type == 5
    then copy_symbol host patch sym s
    else ok (failed s)

abbrev pub then_rela : (Relocated → Result Relocated) → Result Relocated → Result Relocated
then_rela k (ok s) = k s
then_rela k (err e) = err e

-- The loop, with `n` relocations left from address `rel` on.
unfoldable pub apply_relas : Host → Symbols → ℕ → ℕ → Relocated → Result Relocated
unfolding apply_rela read_rela
apply_relas host tables zero rel s = ok s
apply_relas host tables (suc n) rel s =
    then_rela (apply_relas host tables n (rel + 24))
      (apply_rela host tables (read_rela s.mem rel) s)

abbrev pub unless_failed : Result Relocated → Result (ℕ → ℕ)
unless_failed (ok s) = if s.allright then ok s.mem else err relocation_failed
unless_failed (err e) = err e

-- relasz is an int, and sizeof a size_t.
abbrev pub rela_count : ℕ → ℕ
rela_count relasz = sx32 (u32 relasz) / 24

unfoldable pub reloc_rela : Host → Symbols → ℕ → ℕ → (ℕ → ℕ) → Result (ℕ → ℕ)
unfolding apply_relas
reloc_rela host tables rela relasz mem =
    unless_failed
      (apply_relas host tables (rela_count relasz) rela (record { mem = mem; allright = true }))
