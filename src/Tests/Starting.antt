-- ===== src/Tests/Starting.antt =====
-- The program start, run on a small program.
use byte_shatter.Base.{
  ◌/◌, ℕ, ◌+◌, ◌^◌, ◌≡◌, ◌==◌, refl, if◌then◌else◌, List, [], ◌∷◌, ◌++◌, some, none, Option, inl,
  inr, ok, ◌⊎◌, ◌↔◌, arith, true, false, err, wrapper_not_found,
}
use byte_shatter.Memory.Stores.{store64}
use byte_shatter.GuestStack.{GuestStack, Process, Image, start_stack}
use byte_shatter.GuestStack.Layout.{Handed, start_stack-Handed}
use byte_shatter.Elf.{Phdr, Loader, read_ehdr, read_pheads}
use byte_shatter.Elf.Segments.{Mapping, page_range, mmap_base, elf_load}
use byte_shatter.Elf.Segments.Bounds.{EveryLoad, Inside, span, mmap_base-Inside}
use byte_shatter.Elf.Segments.Whole.{IsLoadable, IsLoaded, elf_load-IsLoaded}
use byte_shatter.Elf.Relr.{reloc_relr}
use byte_shatter.Elf.Relr.Packed.{relocated, relr_words}
use byte_shatter.Elf.Relr.Table.{reloc_relr-eq-relocated}
use byte_shatter.Elf.Rela.{Host, Symbols, reloc_rela}
use byte_shatter.Elf.Rela.Applied.{AppliedAll}
use byte_shatter.Elf.Rela.Chain.{reloc_rela-AppliedAll}
use byte_shatter.Elf.Dynamic.{no_dynamic, read_dynamic}
use byte_shatter.Elf.Dynamic.Last.{last_entries, read_dynamic-last}
use byte_shatter.Libraries.{Lib, Libs, is_open, open_library}
use byte_shatter.Libraries.Opened.{IsLibs, wrapper_of, open_library-IsLibs}

-- The bytes that are not zero.
abbrev bytes : List (ℕ × ℕ) → ℕ → ℕ
bytes [] q = 0
bytes ((p, b) ∷ rest) q = let later = bytes rest q in if p == q then b else later

abbrev before : GuestStack
before = record { stack = 0; dp = 0; sp = 0; argc = 0; mem = λ _. 7 }

abbrev host : Process
host = record {
  page_size = 4096;
  clock_ticks = 100;
  uid = 1000;
  euid = 1000;
  gid = 1000;
  egid = 1000;
  random = 2 ^ 40;
}

abbrev image : Image
image = record { base = 2 ^ 32; e_phoff = 64; e_phentsize = 56; e_phnum = 2; e_entry = 4096 }

-- A=1, and ls -l
abbrev envp : List (List ℕ)
envp = (65 ∷ 61 ∷ 49 ∷ []) ∷ []

abbrev args : List (List ℕ)
args = (108 ∷ 115 ∷ []) ∷ (45 ∷ 108 ∷ []) ∷ []

start_stack-Handed_example :
    (t : GuestStack) × (start_stack (some (2 ^ 20)) envp host image args before ≡ ok (tt, t))
    × Handed t envp host image args
start_stack-Handed_example =
    start_stack-Handed (2 ^ 20) envp host image args before refl (omega arith) refl (omega arith)

-- Two segments: four bytes in eight at 0, and two at 4112.
abbrev file : ℕ → ℕ
file = bytes (
    (32, 64)
    ∷ (54, 56)
    ∷ (56, 2)
    ∷ (64, 1)
    ∷ (72, 200)
    ∷ (96, 4)
    ∷ (104, 8)
    ∷ (120, 1)
    ∷ (128, 204)
    ∷ (136, 16)
    ∷ (137, 16)
    ∷ (152, 2)
    ∷ (160, 2)
    ∷ (200, 11)
    ∷ (201, 12)
    ∷ (202, 13)
    ∷ (203, 14)
    ∷ (204, 15)
    ∷ (205, 16)
    ∷ [])

abbrev mmap : ℕ → Option ℕ
mmap n = if n == 16384 then some (2 ^ 32) else none

abbrev loads : List Phdr
loads =
    record { p_type = 1; p_offset = 200; p_vaddr = 0; p_filesz = 4; p_memsz = 8 }
    ∷ record { p_type = 1; p_offset = 204; p_vaddr = 4112; p_filesz = 2; p_memsz = 2 }
    ∷ []

headers-loads : read_pheads file (read_ehdr file).e_phnum (read_ehdr file).e_phoff ≡ loads
unfolding read_pheads read_ehdr
headers-loads = refl

mmap_base-Inside_example :
    (m : Mapping) × (mmap_base mmap loads ≡ ok m)
    × (m.size ≡ span (page_range loads))
    × (m.host ≡ 2 ^ 32 + m.size)
    × EveryLoad (Inside (page_range loads) m (2 ^ 32)) loads
unfolding page_range
mmap_base-Inside_example =
    mmap_base-Inside mmap loads (2 ^ 32) (λ _. omega arith, (λ _. omega arith, tt)) (omega arith)
      (omega arith) refl (omega arith)

loadable :
    IsLoadable file 206
      (λ _. record { hoff = 0; goff = 0 })
      (λ _. record { gp_lo = 0; hp = 0; offsets = 0; offsetssz = 0; end = 0 })
      (λ _. record { guest_off = 0; type = 0 })
      (λ _. 0)
      mmap
      (2 ^ 32)
unfolding page_range read_pheads read_ehdr
loadable = record {
  no_wrap = (λ _. omega arith, (λ _. omega arith, tt));
  whole = (λ _. omega arith, (λ _. omega arith, tt));
  apart = (λ _. (λ _. inl (omega arith), tt), (λ _. tt, tt));
  some_load = omega arith;
  small = omega arith;
  given = refl;
  high = omega arith;
}

elf_load-IsLoaded_example :
    (l : Loader) × (elf_load file 206
        (λ _. record { hoff = 0; goff = 0 })
        (λ _. record { gp_lo = 0; hp = 0; offsets = 0; offsetssz = 0; end = 0 })
        (λ _. record { guest_off = 0; type = 0 })
        (λ _. 0)
        mmap
        (λ _. 7)
      ≡ ok l)
    × IsLoaded file 206
        (λ _. record { hoff = 0; goff = 0 })
        (λ _. record { gp_lo = 0; hp = 0; offsets = 0; offsetssz = 0; end = 0 })
        (λ _. record { guest_off = 0; type = 0 })
        (λ _. 0)
        (λ _. 7)
        (2 ^ 32)
        l
elf_load-IsLoaded_example =
    elf_load-IsLoaded file 206 (λ _. record { hoff = 0; goff = 0 })
      (λ _. record { gp_lo = 0; hp = 0; offsets = 0; offsetssz = 0; end = 0 })
      (λ _. record { guest_off = 0; type = 0 }) (λ _. 0) mmap (λ _. 7) (2 ^ 32) loadable

-- An address, and a bitmap of the two words after it.
abbrev packed : ℕ → ℕ
packed = bytes ((0x1001, 2) ∷ (0x1008, 7) ∷ [])

reloc_relr-eq-relocated_example :
    reloc_relr 0x10000 0x1000 16 packed
    ≡ relocated 0x10000 (relr_words 0x10000 0 (0x200 ∷ 7 ∷ [])) packed
reloc_relr-eq-relocated_example =
    reloc_relr-eq-relocated 0x10000 0x1000 (0x200 ∷ 7 ∷ []) packed (omega arith) (omega arith)
      (refl, (refl, tt)) (inr (omega arith), (inr (omega arith), (inr (omega arith), tt)))

abbrev no_host : Host
no_host = record { dlsym = λ _ _. 0; objects = []; libs = []; my_syscall = 2 ^ 40; scan = 100 }

abbrev tables : Symbols
tables = record { base = 0x10000; symtab = 0x11000; strtab = 0x12000 }

-- One R_X86_64_RELATIVE.
abbrev relative : ℕ → ℕ
relative = bytes ((0x1001, 3) ∷ (0x1008, 8) ∷ (0x1010, 5) ∷ [])

reloc_rela-AppliedAll_example :
    (reloc_rela no_host tables 0x1000 24 relative ≡ ok (store64 relative 0x10300 0x10005))
    ↔ AppliedAll no_host tables (24 / 24) 0x1000 relative (store64 relative 0x10300 0x10005)
reloc_rela-AppliedAll_example =
    reloc_rela-AppliedAll no_host tables 0x1000 24 relative (store64 relative 0x10300 0x10005)
      (omega arith)

relative_applied :
    reloc_rela no_host tables 0x1000 24 relative ≡ ok (store64 relative 0x10300 0x10005)
unfolding reloc_rela
relative_applied = refl

abbrev section : ℕ → ℕ
section = bytes ((0x1000, 5) ∷ (0x1009, 3) ∷ [])

read_dynamic-last_example :
    read_dynamic section 100 0x10000 0x1000 no_dynamic
    ≡ ok (last_entries 0x10000 ((5, 0x300) ∷ []) no_dynamic)
read_dynamic-last_example =
    read_dynamic-last section 100 0x10000 0x1000 ((5, 0x300) ∷ []) no_dynamic (omega arith)
      (refl, (λ e. omega arith), refl, refl)

abbrev dlopen : List ℕ → ℕ
dlopen name = 2 ^ 41

abbrev libs : Libs
libs = record { libs = record { wrapper = 2 ^ 40; name = 99 ∷ [] } ∷ []; lib_capacity = 4 }

libs-IsLibs : IsLibs libs
libs-IsLibs = record {
  distinct = (unfold is_open in refl, tt);
  wrapped = ((λ e. omega arith), tt);
  room = omega arith;
}

open_library-IsLibs_example :
    ((t : Libs) × (open_library dlopen (109 ∷ []) libs ≡ ok t)
      × IsLibs t
      × (is_open (109 ∷ []) t.libs ≡ true)
      × ((new : List Lib) × (t.libs ≡ libs.libs ++ new)))
    ⊎ ((open_library dlopen (109 ∷ []) libs ≡ err wrapper_not_found)
        × (is_open (109 ∷ []) libs.libs ≡ false)
        × (wrapper_of dlopen (109 ∷ []) ≡ 0))
open_library-IsLibs_example = open_library-IsLibs dlopen (109 ∷ []) libs libs-IsLibs
