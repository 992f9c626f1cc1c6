-- ===== src/Libraries/Got.antt =====
-- patch_library and patch_library_got of src/elf_manager.c: in every object that the host has loaded,
-- the slots of one symbol are redirected.
use byte_shatter.Base.{
  ℕ, zero, suc, ◌+◌, ◌*◌, ◌/◌, ◌^◌, ◌==◌, ◌||◌, Bool, true, false, if◌then◌else◌, ltb, List, [],
  ◌∷◌, Option, none, some, Result, ok, err, u64, low_bits, null_pointer, out_of_fuel,
}
use byte_shatter.Memory.{load32, load64}
use byte_shatter.Memory.Stores.{store64}
use byte_shatter.Memory.Strings.{c_string, same}
use byte_shatter.Elf.{Phdr, pt_dynamic}

-- dl_phdr_info
pub record Object : Type 0 where
  pub dlpi_addr : ℕ
  pub dlpi_phdr : List Phdr

unfoldable pub get_ptr : ℕ → ℕ → ℕ
get_ptr base link = if ltb link base then u64 (base + link) else link

-- The first program header of type PT_DYNAMIC.
unfoldable pub find_dynamic : List Phdr → Option Phdr
find_dynamic [] = none
find_dynamic (p ∷ ps) =
    let later = find_dynamic ps in if p.p_type == pt_dynamic then some p else later

pub record Tables : Type 0 where
  pub strtab : ℕ
  pub symtab : ℕ
  pub rela : ℕ
  pub rela_size : ℕ

-- The switch on d_tag: DT_STRTAB 5, DT_SYMTAB 6, DT_RELA 7, DT_RELASZ 8.
abbrev pub note_table : (base tag value : ℕ) → Tables → Tables
note_table base tag value t =
    if tag == 5
    then record t { strtab = get_ptr base value }
    else if tag == 6
    then record t { symtab = get_ptr base value }
    else if tag == 7
    then record t { rela = get_ptr base value }
    else if tag == 8
    then record t { rela_size = value }
    else t

module _ (mem : ℕ → ℕ) where
  -- The loop over the dynamic section at `dyn`, of at most so many entries.
  unfoldable pub read_tables : ℕ → ℕ → ℕ → Tables → Result Tables
  unfolding get_ptr
  read_tables zero base dyn t = err out_of_fuel
  read_tables (suc n) base dyn t =
      let rest =
        read_tables n base (dyn + 16) (note_table base (load64 mem dyn) (load64 mem (dyn + 8)) t) in
      if load64 mem dyn == 0 then ok t else rest

-- The relocations that hold a symbol's address: R_X86_64_JUMP_SLOT 7, R_X86_64_GLOB_DAT 6,
-- R_AARCH64_JUMP_SLOT 1026, R_AARCH64_GLOB_DAT 1025.
abbrev pub is_slot : ℕ → Bool
is_slot type = type == 7 || type == 6 || type == 1026 || type == 1025

-- One relocation, at `rela`: Elf64_Rela has r_offset, r_info, r_addend, and Elf64_Sym begins with
-- st_name and has 24 bytes.
unfoldable pub patch_slot : List ℕ → ℕ → ℕ → Tables → ℕ → (ℕ → ℕ) → ℕ → ℕ
unfolding c_string
patch_slot symbol new_got base t rela mem =
    let info = load64 mem (rela + 8) in
    let idx = info / 2 ^ 32 in
    let name = u64 (t.strtab + load32 mem (t.symtab + 24 * idx)) in
    if is_slot (low_bits info 32)
    then if same (c_string mem name) symbol
      then store64 mem (u64 (base + load64 mem rela)) new_got
      else mem
    else mem

unfoldable pub patch_slots : List ℕ → ℕ → ℕ → Tables → ℕ → ℕ → (ℕ → ℕ) → ℕ → ℕ
unfolding patch_slot
patch_slots symbol new_got base t zero rela mem = mem
patch_slots symbol new_got base t (suc n) rela mem =
    patch_slots symbol new_got base t n (rela + 24) (patch_slot symbol new_got base t rela mem)

-- Are all three tables there?
abbrev pub has_tables : Tables → Bool
has_tables t =
    if t.strtab == 0
    then false
    else if t.symtab == 0
    then false
    else if t.rela == 0
    then false
    else true

abbrev pub patch_tables : List ℕ → ℕ → ℕ → (ℕ → ℕ) → Result Tables → Result (ℕ → ℕ)
patch_tables symbol new_got base mem (err e) = err e
patch_tables symbol new_got base mem (ok t) =
    ok (
      if has_tables t then patch_slots symbol new_got base t (t.rela_size / 24) t.rela mem else mem)

abbrev pub no_tables : Tables
no_tables = record { strtab = 0; symtab = 0; rela = 0; rela_size = 0 }

-- Without a dynamic section `dyn` stays NULL and is followed.
unfoldable pub patch_library : ℕ → List ℕ → ℕ → Object → (ℕ → ℕ) → Result (ℕ → ℕ)
unfolding find_dynamic read_tables patch_slots
patch_library fuel symbol new_got info mem = elim (find_dynamic info.dlpi_phdr) [
  | none ↦ err null_pointer
  | some p ↦
      patch_tables symbol new_got info.dlpi_addr mem
        (read_tables mem fuel info.dlpi_addr (u64 (info.dlpi_addr + p.p_vaddr)) no_tables)
]

-- dl_iterate_phdr calls patch_library for every object, since it always returns 0.
abbrev pub then_patch : ((ℕ → ℕ) → Result (ℕ → ℕ)) → Result (ℕ → ℕ) → Result (ℕ → ℕ)
then_patch k (err e) = err e
then_patch k (ok mem) = k mem

unfoldable pub patch_library_got : ℕ → List Object → List ℕ → ℕ → (ℕ → ℕ) → Result (ℕ → ℕ)
unfolding patch_library
patch_library_got fuel [] symbol new_got mem = ok mem
patch_library_got fuel (o ∷ os) symbol new_got mem =
    then_patch (patch_library_got fuel os symbol new_got) (patch_library fuel symbol new_got o mem)
