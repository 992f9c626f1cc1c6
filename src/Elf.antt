-- ===== src/Elf.antt =====
-- src/elf_loader.h, the structures of <elf.h> that src/elf_loader.c reads, and the state of the
-- loader. A file is a function from offsets to bytes, with its length beside it; what lies behind
-- its end is the arbitrary content of a buffer that fread does not fill.
pub mod Segments
pub mod Relr
pub mod Rela
pub mod Dynamic
use byte_shatter.Base.{ℕ, zero, suc, ◌+◌, ◌*◌, List, [], ◌∷◌}
use byte_shatter.Memory.{load8, load16, load32, load64}
use byte_shatter.Jit.{Anchor}

abbrev pub pt_load : ℕ
pt_load = 1

abbrev pub pt_dynamic : ℕ
pt_dynamic = 2

-- Elf64_Phdr
pub record Phdr : Type 0 where
  pub p_type : ℕ
  pub p_offset : ℕ
  pub p_vaddr : ℕ
  pub p_filesz : ℕ
  pub p_memsz : ℕ

-- The fields of Elf64_Ehdr that are read.
pub record Ehdr : Type 0 where
  pub e_entry : ℕ
  pub e_phoff : ℕ
  pub e_phentsize : ℕ
  pub e_phnum : ℕ

-- The section headers are read from the file and never used.
pub record Elf : Type 0 where
  pub head : Ehdr
  pub pheads : List Phdr
  pub symtab : ℕ
  pub strtab : ℕ
  pub base : ℕ
  pub init : ℕ
  pub init_array : ℕ
  pub init_arraysz : ℕ

-- Memory, the program and the cache.
pub record Loader : Type 0 where
  pub mem : ℕ → ℕ
  pub elf : Elf
  pub anchor : Anchor

module _ (file : ℕ → ℕ) where
  unfoldable pub read_ehdr : Ehdr
  read_ehdr = record {
    e_entry = load64 file 24;
    e_phoff = load64 file 32;
    e_phentsize = load16 file 54;
    e_phnum = load16 file 56;
  }

  unfoldable pub read_phdr : ℕ → Phdr
  read_phdr off = record {
    p_type = load32 file off;
    p_offset = load64 file (off + 8);
    p_vaddr = load64 file (off + 16);
    p_filesz = load64 file (off + 32);
    p_memsz = load64 file (off + 40);
  }

  unfoldable pub read_pheads : ℕ → ℕ → List Phdr
  unfolding read_phdr
  read_pheads zero off = []
  read_pheads (suc n) off = read_phdr off ∷ read_pheads n (off + 56)
