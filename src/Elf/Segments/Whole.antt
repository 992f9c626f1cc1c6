-- ===== src/Elf/Segments/Whole.antt =====
-- elf_load (src/elf_loader.c) from the file to memory.
use byte_shatter.Cache.Blocks.{cahce_init}
use byte_shatter.Base.{
  ℕ, ◌+◌, ◌-◌, ◌*◌, ◌^◌, ◌≤◌, ◌<◌, ◌≡◌, ap, ◌∙◌, Option, some, List, [], ◌∷◌, ok, u64, arith,
}
use byte_shatter.Jit.{OffsetUnit, PatchUnit, CacheUnit}
use byte_shatter.Elf.{Phdr, Loader, read_ehdr, read_pheads}
use byte_shatter.Elf.Segments.{Range, Mapping, page_range, load_mapped, elf_load, loader_at}
use byte_shatter.Elf.Segments.Bounds.{
  EveryLoad, EveryLoad-mono, NoWrap, Inside, span, mmap_base-Inside,
}
use byte_shatter.Elf.Segments.Loaded.{
  Whole, AllApart, Copied, Away, Loadable, load_segments-off, load_segments-Copied,
}

EveryLoad-both :
    (P Q : Phdr → Type 0) (ps : List Phdr)
    → EveryLoad P ps
    → EveryLoad Q ps
    → EveryLoad (λ p. P p × Q p) ps
EveryLoad-both P Q [] h k = tt
EveryLoad-both P Q (p ∷ ps) h k = (λ e. (h.0 e, k.0 e), EveryLoad-both P Q ps h.1 k.1)

module _ (file : ℕ → ℕ) (length : ℕ) (offsets : ℕ → OffsetUnit) (blocks : ℕ → CacheUnit)
    (jumps : ℕ → PatchUnit) (reuse : ℕ → ℕ) where
  -- The program headers, as elf_load reads them.
  abbrev pub headers : List Phdr
  headers = read_pheads file (read_ehdr file).e_phnum (read_ehdr file).e_phoff

  -- What is asked of the file, and of mmap.
  pub record IsLoadable (mmap : ℕ → Option ℕ) (guest : ℕ) : Type 0 where
    pub no_wrap : EveryLoad NoWrap headers
    pub whole : EveryLoad (Whole file length) headers
    pub apart : AllApart headers
    pub some_load : (page_range headers).min ≤ (page_range headers).max
    pub small : span (page_range headers) < 2 ^ 31
    pub given : mmap (2 * span (page_range headers)) ≡ some guest
    pub high : guest + 2 * span (page_range headers) < 2 ^ 64

  -- What elf_load leaves: the host's buffer behind the image, each segment in its place with the bytes of
  -- the file and zeros behind them, and all other memory as it was.
  pub record IsLoaded (mem : ℕ → ℕ) (guest : ℕ) (l : Loader) : Type 0 where
    pub host : l.anchor.host ≡ guest + span (page_range headers)
    pub placed :
        EveryLoad
          (λ p. u64 (l.elf.base + p.p_vaddr) ≡ guest + (p.p_vaddr - (page_range headers).min))
          headers
    pub below_host :
        EveryLoad (λ p. u64 (l.elf.base + p.p_vaddr) + p.p_memsz ≤ l.anchor.host) headers
    pub copied : EveryLoad (λ p. Copied file length l.mem (u64 (l.elf.base + p.p_vaddr)) p) headers
    pub elsewhere : (q : ℕ) → EveryLoad (Away file length l.elf.base q) headers → l.mem q ≡ mem q

  Inside-Loadable :
      (r : Range) (m : Mapping) (guest : ℕ) (p : Phdr)
      → m.host < 2 ^ 64
      → Whole file length p × Inside r m guest p
      → Loadable file length m.base r.min guest p
  Inside-Loadable r m guest p high (whole, (low, at, fits)) = (whole, (low, at, omega arith))

  -- For a file whose program headers have PT_LOAD segments that do not overlap, whose bytes the file has,
  -- and whose pages span less than 2 GiB: when mmap maps twice that span, elf_load returns. Then each
  -- segment stands as far from the start of the mapping as its address is from that of the first page,
  -- below the buffer of the host's code, with the bytes of the file and, up to its size in memory, zeros;
  -- no other byte of memory has changed.
  pub elf_load-IsLoaded :
      (mmap : ℕ → Option ℕ) (mem : ℕ → ℕ) (guest : ℕ)
      → IsLoadable mmap guest
      → (l : Loader) × (elf_load file length offsets blocks jumps reuse mmap mem ≡ ok l)
        × IsLoaded mem guest l
  unfolding elf_load cahce_init
  elf_load-IsLoaded mmap mem guest h =
      let (m, returned, size, host, inside) =
        mmap_base-Inside mmap headers guest h.no_wrap h.some_load h.small h.given h.high in
      let high : m.host < 2 ^ 64 = omega (arith, h.high, size, host) in
      let loadable : EveryLoad (Loadable file length m.base (page_range headers).min guest)
          headers =
        EveryLoad-mono (λ p. Whole file length p × Inside (page_range headers) m guest p)
          (Loadable file length m.base (page_range headers).min guest) headers
          (λ p k. Inside-Loadable (page_range headers) m guest p high k)
          (EveryLoad-both (Whole file length) (Inside (page_range headers) m guest) headers h.whole
            inside) in
      (
        loader_at file length offsets blocks jumps reuse headers mem m,
        ap (load_mapped file length offsets blocks jumps reuse headers mem) returned,
        record {
          host = host ∙ ap (λ (n : ℕ). guest + n) size;
          placed =
              EveryLoad-mono (Inside (page_range headers) m guest) _ headers (λ p k. k.1) inside;
          below_host =
              EveryLoad-mono (Inside (page_range headers) m guest)
                (λ p. u64 (m.base + p.p_vaddr) + p.p_memsz ≤ m.host) headers
                (λ p k. omega (arith, k)) inside;
          copied =
              load_segments-Copied file length m.base (page_range headers).min guest headers mem
                loadable h.apart;
          elsewhere = λ q away.
              load_segments-off file length m.base (page_range headers).min guest headers mem q
                loadable away;
        },
      )
