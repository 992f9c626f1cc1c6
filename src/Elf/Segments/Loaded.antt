-- ===== src/Elf/Segments/Loaded.antt =====
-- What elf_load (src/elf_loader.c) leaves in memory: the bytes of the file in each PT_LOAD segment, and
-- zeros behind them.
use byte_shatter.Base.{ℕ, ◌+◌, ◌-◌, ◌^◌, ◌≤◌, ◌<◌, ◌≡◌, ◌⊎◌, ◌∙◌, refl, List, [], ◌∷◌, u64, arith}
use byte_shatter.Memory.Stores.{copy_bytes}
use byte_shatter.Elf.{pt_load, Phdr}
use byte_shatter.Elf.Segments.{load_segment, load_segments}
use byte_shatter.Elf.Segments.Bounds.{EveryLoad}

-- The segments do not overlap.
abbrev pub Apart : Phdr → Phdr → Type 0
Apart p q = (p.p_vaddr + p.p_memsz ≤ q.p_vaddr) ⊎ (q.p_vaddr + q.p_memsz ≤ p.p_vaddr)

abbrev pub AllApart : List Phdr → Type 0
AllApart [] = Unit
AllApart (p ∷ ps) = (p.p_type ≡ pt_load → EveryLoad (Apart p) ps) × AllApart ps

module _ (file : ℕ → ℕ) (length : ℕ) where
  -- The file has all the bytes of the segment, and the segment room for them.
  abbrev pub Whole : Phdr → Type 0
  Whole p = (p.p_offset + p.p_filesz ≤ length) × (p.p_filesz ≤ p.p_memsz)

  -- The segment as it should stand at `dst`.
  abbrev pub Copied : (ℕ → ℕ) → ℕ → Phdr → Type 0
  Copied mem dst p =
      ((i : ℕ) → i < p.p_filesz → mem (dst + i) ≡ file (p.p_offset + i))
      × ((i : ℕ) → p.p_filesz ≤ i → i < p.p_memsz → mem (dst + i) ≡ 0)

  load_segment-off :
      (base : ℕ) (p : Phdr) (mem : ℕ → ℕ) (q : ℕ)
      → (p.p_type ≡ pt_load → Whole p × (u64 (base + p.p_vaddr) + p.p_memsz < 2 ^ 64))
      → (p.p_type ≡ pt_load
          → (q < u64 (base + p.p_vaddr)) ⊎ (u64 (base + p.p_vaddr) + p.p_memsz ≤ q))
      → load_segment file length base p mem q ≡ mem q
  unfolding load_segment copy_bytes
  load_segment-off base p mem q whole away = ground arith

  load_segment-Copied :
      (base : ℕ) (p : Phdr) (mem : ℕ → ℕ)
      → p.p_type ≡ pt_load
      → Whole p
      → u64 (base + p.p_vaddr) + p.p_memsz < 2 ^ 64
      → Copied (load_segment file length base p mem) (u64 (base + p.p_vaddr)) p
  unfolding load_segment copy_bytes
  load_segment-Copied base p mem e whole high = (λ i k. ground arith, λ i k l. ground arith)

  -- The segment's place in memory, when the image is mapped at `guest`.
  abbrev pub Placed : ℕ → ℕ → ℕ → Phdr → Type 0
  Placed base low guest p =
      (low ≤ p.p_vaddr)
      × (u64 (base + p.p_vaddr) ≡ guest + (p.p_vaddr - low))
      × (guest + (p.p_vaddr - low) + p.p_memsz < 2 ^ 64)

  abbrev pub Loadable : ℕ → ℕ → ℕ → Phdr → Type 0
  Loadable base low guest p = Whole p × Placed base low guest p

  abbrev pub Away : ℕ → ℕ → Phdr → Type 0
  Away base q p = (q < u64 (base + p.p_vaddr)) ⊎ (u64 (base + p.p_vaddr) + p.p_memsz ≤ q)

  module _ (base low guest : ℕ) where
    pub load_segments-off :
        (ps : List Phdr) (mem : ℕ → ℕ) (q : ℕ)
        → EveryLoad (Loadable base low guest) ps
        → EveryLoad (Away base q) ps
        → load_segments file length base ps mem q ≡ mem q
    unfolding load_segments
    load_segments-off [] mem q h away = refl
    load_segments-off (p ∷ ps) mem q h away =
        load_segments-off ps (load_segment file length base p mem) q h.1 away.1
        ∙ load_segment-off base p mem q (λ e. ((h.0 e).0, omega (arith, h.0 e))) away.0

    Apart-Away :
        (p : Phdr) (ps : List Phdr) (i : ℕ)
        → i < p.p_memsz
        → Loadable base low guest p
        → EveryLoad (Loadable base low guest) ps
        → EveryLoad (Apart p) ps
        → EveryLoad (Away base (u64 (base + p.p_vaddr) + i)) ps
    Apart-Away p [] i k l h a = tt
    Apart-Away p (q ∷ ps) i k l h a =
        (λ e. ground (arith, h.0 e, a.0 e), Apart-Away p ps i k l h.1 a.1)

    kept :
        (p : Phdr) (ps : List Phdr) (mem : ℕ → ℕ)
        → Loadable base low guest p
        → EveryLoad (Loadable base low guest) ps
        → EveryLoad (Apart p) ps
        → Copied mem (u64 (base + p.p_vaddr)) p
        → Copied (load_segments file length base ps mem) (u64 (base + p.p_vaddr)) p
    kept p ps mem l h a c = (
      λ i k.
          load_segments-off ps mem (u64 (base + p.p_vaddr) + i) h
            (Apart-Away p ps i (omega (arith, l)) l h a)
          ∙ c.0 i k,
      λ i j k.
          load_segments-off ps mem (u64 (base + p.p_vaddr) + i) h (Apart-Away p ps i k l h a)
          ∙ c.1 i j k,
    )

    pub load_segments-Copied :
        (ps : List Phdr) (mem : ℕ → ℕ)
        → EveryLoad (Loadable base low guest) ps
        → AllApart ps
        → EveryLoad
            (λ p. Copied (load_segments file length base ps mem) (u64 (base + p.p_vaddr)) p)
            ps
    unfolding load_segments
    load_segments-Copied [] mem h a = tt
    load_segments-Copied (p ∷ ps) mem h a = (
      λ e.
          kept p ps (load_segment file length base p mem) (h.0 e) h.1 (a.0 e)
            (load_segment-Copied base p mem e (h.0 e).0 (omega (arith, h.0 e))),
      load_segments-Copied ps (load_segment file length base p mem) h.1 a.1,
    )
