-- ===== src/Elf/Segments/Bounds.antt =====
-- That the mapping of src/elf_loader.c is large enough for every PT_LOAD segment.
use byte_shatter.Base.{
  ℕ, ◌+◌, ◌-◌, ◌*◌, ◌^◌, ◌≤◌, ◌<◌, ◌≡◌, Option, some, List, [], ◌∷◌, ok, u64, u32, arith, ap, ◌∙◌,
}
use byte_shatter.Elf.{pt_load, Phdr}
use byte_shatter.Elf.Segments.{
  Range, Mapping, widen, segment_range, page_range, image_size, mapping_at, mmap_base, mmap_guest,
  mapped, unless_failed,
}

-- `P` holds of every PT_LOAD segment.
abbrev pub EveryLoad : (Phdr → Type 0) → List Phdr → Type 0
EveryLoad P [] = Unit
EveryLoad P (p ∷ ps) = (p.p_type ≡ pt_load → P p) × EveryLoad P ps

pub EveryLoad-mono :
    (P Q : Phdr → Type 0) (ps : List Phdr)
    → ((p : Phdr) → P p → Q p)
    → EveryLoad P ps
    → EveryLoad Q ps
EveryLoad-mono P Q [] k h = tt
EveryLoad-mono P Q (p ∷ ps) k h = (λ e. k p (h.0 e), EveryLoad-mono P Q ps k h.1)

-- The segment's end, rounded up to a page, is an address.
abbrev pub NoWrap : Phdr → Type 0
NoWrap p = p.p_vaddr + p.p_memsz + 0x1000 ≤ 2 ^ 64

abbrev pub Within : Range → Phdr → Type 0
Within r p = (r.min ≤ p.p_vaddr) × (p.p_vaddr + p.p_memsz ≤ r.max)

abbrev Wider : Range → Range → Type 0
Wider r s = (s.min ≤ r.min) × (r.max ≤ s.max)

widen-Wider : (p : Phdr) (r : Range) → Wider r (widen p r)
unfolding widen
widen-Wider p r = ground arith

segment_range-Wider : (ps : List Phdr) (r : Range) → Wider r (segment_range ps r)
unfolding segment_range
segment_range-Wider [] r = omega arith
segment_range-Wider (p ∷ ps) r = omega (arith, widen-Wider p r, segment_range-Wider ps (widen p r))

widen-Within : (p : Phdr) (r : Range) → p.p_type ≡ pt_load → NoWrap p → Within (widen p r) p
unfolding widen
widen-Within p r e h = ground arith

segment_range-Within :
    (ps : List Phdr) (r : Range) → EveryLoad NoWrap ps → EveryLoad (Within (segment_range ps r)) ps
unfolding segment_range
segment_range-Within [] r h = tt
segment_range-Within (p ∷ ps) r h = (
  λ e. omega (arith, widen-Within p r e (h.0 e), segment_range-Wider ps (widen p r)),
  segment_range-Within ps (widen p r) h.1,
)

segment_range-bounded :
    (ps : List Phdr) (r : Range)
    → EveryLoad NoWrap ps
    → r.max + 0x1000 ≤ 2 ^ 64
    → (segment_range ps r).max + 0x1000 ≤ 2 ^ 64
unfolding segment_range
segment_range-bounded [] r h b = b
segment_range-bounded (p ∷ ps) r h b = segment_range-bounded ps (widen p r) h.1 (widened p r h.0 b)
  where
    widened :
        (p : Phdr) (r : Range)
        → (p.p_type ≡ pt_load → NoWrap p)
        → r.max + 0x1000 ≤ 2 ^ 64
        → (widen p r).max + 0x1000 ≤ 2 ^ 64
    widened p r h b = unfold widen in ground arith

abbrev empty : Range
empty = record { min = 2 ^ 64 - 1; max = 0 }

page_range-Within : (ps : List Phdr) → EveryLoad NoWrap ps → EveryLoad (Within (page_range ps)) ps
unfolding page_range
page_range-Within ps h =
    EveryLoad-mono (Within (segment_range ps empty)) (Within (page_range ps)) ps
      (λ p w. omega (arith, w, segment_range-bounded ps empty h (omega arith)))
      (segment_range-Within ps empty h)

-- The pages of the image, twice, are counted by 32 bits, and there is a segment.
abbrev pub IsSmall : Range → Type 0
IsSmall r = (r.min ≤ r.max) × (r.max < r.min + 2 ^ 31) × (r.max < 2 ^ 64)

-- The segment lies in the first half of the mapping at `guest`, as far from its start as its address
-- is from that of the first page.
abbrev pub Inside : Range → Mapping → ℕ → Phdr → Type 0
Inside r m guest p =
    (r.min ≤ p.p_vaddr)
    × (u64 (m.base + p.p_vaddr) ≡ guest + (p.p_vaddr - r.min))
    × (guest + (p.p_vaddr - r.min) + p.p_memsz ≤ m.host)

abbrev pub span : Range → ℕ
span r = r.max - r.min

image_size-span : (r : Range) → IsSmall r → image_size r ≡ span r
image_size-span r h = omega (arith, h)

mapping-Inside :
    (r : Range) (guest : ℕ) (p : Phdr)
    → IsSmall r
    → guest + 2 * span r < 2 ^ 64
    → Within r p
    → Inside r (mapping_at r guest) guest p
mapping-Inside r guest p small high w =
    let size : image_size r ≡ span r = image_size-span r small in
    (w.0, omega (arith, w, small), omega (arith, w, small, size))

page_range-max : (ps : List Phdr) → (page_range ps).max < 2 ^ 64
unfolding page_range
page_range-max ps = omega arith

mmap_guest-ok :
    (mmap : ℕ → Option ℕ) (n m guest : ℕ)
    → m ≡ n
    → n < 2 ^ 32
    → mmap n ≡ some guest
    → mmap_guest mmap m ≡ ok guest
unfolding mmap_guest
mmap_guest-ok mmap n m guest e small given =
    let whole : u32 m ≡ n = omega arith in ap unless_failed (ap mmap whole ∙ given)

-- For program headers whose PT_LOAD segments end below the last page of the address space and, rounded
-- to pages, span less than 2 GiB: when mmap maps twice that span at `guest`, below the end of the
-- address space, mmap_base returns; the first half of the mapping is the image and the second the
-- buffer of the host's code, and every PT_LOAD segment lies in the first half, as far from its start
-- as its address is from that of the first page.
pub mmap_base-Inside :
    (mmap : ℕ → Option ℕ) (ps : List Phdr) (guest : ℕ)
    → EveryLoad NoWrap ps
    → (page_range ps).min ≤ (page_range ps).max
    → span (page_range ps) < 2 ^ 31
    → mmap (2 * span (page_range ps)) ≡ some guest
    → guest + 2 * span (page_range ps) < 2 ^ 64
    → (m : Mapping) × (mmap_base mmap ps ≡ ok m)
      × (m.size ≡ span (page_range ps))
      × (m.host ≡ guest + m.size)
      × EveryLoad (Inside (page_range ps) m guest) ps
unfolding mmap_base
mmap_base-Inside mmap ps guest whole some_load small given high =
    let fits : IsSmall (page_range ps) = omega (arith, page_range-max ps) in
    let size : image_size (page_range ps) ≡ span (page_range ps) =
      image_size-span (page_range ps) fits in
    (
      mapping_at (page_range ps) guest,
      ap (mapped (page_range ps)) (
          mmap_guest-ok mmap (2 * span (page_range ps)) _ guest (omega (arith, size)) (omega arith)
            given),
      size,
      omega (arith, size),
      EveryLoad-mono (Within (page_range ps))
          (Inside (page_range ps) (mapping_at (page_range ps) guest) guest) ps
          (λ p w. mapping-Inside (page_range ps) guest p fits high w) (page_range-Within ps whole),
    )
