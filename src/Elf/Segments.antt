-- ===== src/Elf/Segments.antt =====
-- mmap_guest of src/memory.c, and mmap_base and elf_load of src/elf_loader.c: the PT_LOAD segments of
-- the file are laid out in one mapping, with as much space behind them for the translated code.
pub mod Bounds
pub mod Loaded
pub mod Whole
use byte_shatter.Base.{
  ℕ, ◌+◌, ◌-◌, ◌*◌, ◌%◌, ◌^◌, Option, none, some, List, [], ◌∷◌, ltb, ◌==◌, if◌then◌else◌, u32, u64,
  Result, M, ok, err, map_failed,
}
use byte_shatter.Memory.Stores.{copy_bytes}
use byte_shatter.Jit.{OffsetUnit, PatchUnit, CacheUnit, Anchor}
use byte_shatter.Cache.Blocks.{cahce_init}
use byte_shatter.Elf.{pt_load, Phdr, Ehdr, Elf, Loader, read_ehdr, read_pheads}

-- `mmap` of so many bytes gives an address, or none for MAP_FAILED.
abbrev pub unless_failed : Option ℕ → Result ℕ
unless_failed none = err map_failed
unless_failed (some guest) = ok guest

unfoldable pub mmap_guest : (ℕ → Option ℕ) → ℕ → Result ℕ
mmap_guest mmap guest_size = unless_failed (mmap (u32 guest_size))

pub record Range : Type 0 where
  pub min : ℕ
  pub max : ℕ

unfoldable pub widen : Phdr → Range → Range
widen p r =
    let end = u64 (p.p_vaddr + p.p_memsz) in
    if p.p_type == pt_load
    then record {
      min = if ltb p.p_vaddr r.min then p.p_vaddr else r.min;
      max = if ltb r.max end then end else r.max;
    }
    else r

unfoldable pub segment_range : List Phdr → Range → Range
unfolding widen
segment_range [] r = r
segment_range (p ∷ ps) r = segment_range ps (widen p r)

-- x & ~(PAGE_SIZE - 1), and the same of x + PAGE_SIZE - 1
abbrev pub page_down : ℕ → ℕ
page_down x = x - x % 0x1000

abbrev pub page_up : ℕ → ℕ
page_up x = page_down (u64 (x + 0xFFF))

-- min and max after the loop, rounded to pages.
unfoldable pub page_range : List Phdr → Range
unfolding segment_range
page_range pheads =
    let r = segment_range pheads (record { min = 2 ^ 64 - 1; max = 0 }) in
    record { min = page_down r.min; max = page_up r.max }

-- uint32_t size = max - min;
abbrev pub image_size : Range → ℕ
image_size r = u32 (u64 (r.max + 2 ^ 64 - r.min))

-- What mmap_base computes: elf->base, and the buffer for the host's code.
pub record Mapping : Type 0 where
  pub base : ℕ
  pub host : ℕ
  pub size : ℕ

abbrev pub mapping_at : Range → ℕ → Mapping
mapping_at r guest = record {
  base = u64 (guest + 2 ^ 64 - r.min);
  host = u64 (guest + image_size r);
  size = image_size r;
}

abbrev pub mapped : Range → Result ℕ → Result Mapping
mapped r (ok guest) = ok (mapping_at r guest)
mapped r (err e) = err e

unfoldable pub mmap_base : (ℕ → Option ℕ) → List Phdr → Result Mapping
unfolding mmap_guest
mmap_base mmap pheads =
    let r = page_range pheads in mapped r (mmap_guest mmap (image_size r + image_size r))

-- fread(dst, 1, n, fp) reads no further than the end of the file.
abbrev pub available : (length offset n : ℕ) → ℕ
available length offset n = if ltb (length - offset) n then length - offset else n

module _ (file : ℕ → ℕ) (length : ℕ) where
  unfoldable pub load_segment : ℕ → Phdr → (ℕ → ℕ) → ℕ → ℕ
  load_segment base p mem =
      let dst = u64 (base + p.p_vaddr) in
      let read =
        copy_bytes mem dst (λ i. file (p.p_offset + i)) (available length p.p_offset p.p_filesz) in
      if p.p_type == pt_load
      then if p.p_filesz == p.p_memsz
        then read
        else copy_bytes read (u64 (dst + p.p_filesz)) (λ _. 0)
            (u64 (p.p_memsz + 2 ^ 64 - p.p_filesz))
      else mem

  unfoldable pub load_segments : ℕ → List Phdr → (ℕ → ℕ) → ℕ → ℕ
  unfolding load_segment
  load_segments base [] mem = mem
  load_segments base (p ∷ ps) mem = load_segments base ps (load_segment base p mem)

  -- calloc zeroes the structure.
  abbrev pub loaded_elf : List Phdr → ℕ → Elf
  loaded_elf pheads base = record {
    head = read_ehdr file;
    pheads = pheads;
    symtab = 0;
    strtab = 0;
    base = base;
    init = 0;
    init_array = 0;
    init_arraysz = 0;
  }

  module _ (offsets : ℕ → OffsetUnit) (blocks : ℕ → CacheUnit) (jumps : ℕ → PatchUnit)
      (reuse : ℕ → ℕ) where
    abbrev pub loader_at : List Phdr → (ℕ → ℕ) → Mapping → Loader
    loader_at pheads mem m = record {
      mem = load_segments m.base pheads mem;
      elf = loaded_elf pheads m.base;
      anchor = cahce_init m.base m.host m.size offsets blocks jumps reuse;
    }

    abbrev pub load_mapped : List Phdr → (ℕ → ℕ) → Result Mapping → Result Loader
    load_mapped pheads mem (ok m) = ok (loader_at pheads mem m)
    load_mapped pheads mem (err e) = err e

    -- elf_load of a file that could be opened.
    unfoldable pub elf_load : (ℕ → Option ℕ) → (ℕ → ℕ) → Result Loader
    unfolding read_ehdr read_pheads mmap_base load_segments cahce_init
    elf_load mmap mem =
        let head = read_ehdr file in
        let pheads = read_pheads file head.e_phnum head.e_phoff in
        load_mapped pheads mem (mmap_base mmap pheads)
