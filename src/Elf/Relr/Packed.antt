-- ===== src/Elf/Relr/Packed.antt =====
-- Which words reloc_relr (src/elf_loader.c) relocates, after the description of the packed format.
use native.Mathlib.Numerals.{add-one}
use native.Mathlib.Nat.{pow-suc, div-div-eq-div-mul}
use byte_shatter.Base.{
  ℕ, zero, suc, ◌+◌, ◌*◌, ◌/◌, ◌%◌, ◌^◌, ◌<◌, ◌≡◌, ◌∙◌, inl, inr, refl, ap, sym, ◌==◌, true, false,
  if◌then◌else◌, bit, u64, List, [], ◌∷◌, ◌++◌, arith, Bool-cases, ==_iff, eq→==, Bool,
}
use byte_shatter.Elf.Relr.{add_base, slot, reloc_bits, Relr, reloc_entry}

-- The words of a bitmap: bit k + 1 of the entry stands for word k after `place`.
abbrev pub marked : ℕ → ℕ → ℕ → ℕ → List ℕ
marked zero k place entry = []
marked (suc n) k place entry =
    let rest = marked n (suc k) place entry in
    if bit entry (suc k) then slot place k ∷ rest else rest

-- An even entry is the address of a word to relocate, and an odd one a bitmap of the 63 words after the
-- last one that the entries before it covered.
abbrev pub relr_words : ℕ → ℕ → List ℕ → List ℕ
relr_words base place [] = []
relr_words base place (e ∷ es) =
    if bit e 0
    then marked 63 0 place e ++ relr_words base (u64 (place + 8 * 63)) es
    else u64 (base + e) ∷ relr_words base (u64 (u64 (base + e) + 8)) es

-- The base is added to each of the words.
abbrev pub relocated : ℕ → List ℕ → (ℕ → ℕ) → ℕ → ℕ
relocated base [] mem = mem
relocated base (p ∷ ps) mem = relocated base ps (add_base base p mem)

pub relocated-append :
    (base : ℕ) (ps qs : List ℕ) (mem : ℕ → ℕ)
    → relocated base (ps ++ qs) mem ≡ relocated base qs (relocated base ps mem)
relocated-append base [] qs mem = refl
relocated-append base (p ∷ ps) qs mem = relocated-append base ps qs (add_base base p mem)

-- A bit above the entry is not set.
quotient : (entry k : ℕ) → entry / 2 ^ suc k ≡ entry / 2 ^ k / 2
quotient entry k =
    ap (λ (d : ℕ). entry / d) (pow-suc 2 k) ∙ sym (div-div-eq-div-mul entry (2 ^ k) 2)

marked-none : (n k place entry : ℕ) → entry / 2 ^ suc k ≡ 0 → marked n k place entry ≡ []
marked-none zero k place entry h = refl
marked-none (suc n) k place entry h =
    ground (arith, quotient entry (suc k), marked-none n (suc k) place entry)

reloc_bits-done :
    (n base place k w : ℕ) (mem : ℕ → ℕ) → w / 2 ≡ 0 → reloc_bits (suc n) base place k w mem ≡ mem
unfolding reloc_bits
reloc_bits-done n base place k w mem h = rw (eq→== _ _ h) refl

reloc_bits-more :
    (n base place k w : ℕ) (mem : ℕ → ℕ)
    → (w / 2 == 0) ≡ false
    → reloc_bits (suc n) base place k w mem
      ≡ reloc_bits n base place
          (suc k)
          (w / 2)
          (if bit (w / 2) 0 then add_base base (slot place k) mem else mem)
unfolding reloc_bits
reloc_bits-more n base place k w mem h = rw h (
    ap
      (λ (j : ℕ).
        reloc_bits n base place j (w / 2)
          (if bit (w / 2) 0 then add_base base (slot place k) mem else mem))
      (add-one k))

-- The word that the bit stands for is relocated first.
relocated-if :
    (b : Bool) (base p : ℕ) (rest : List ℕ) (mem : ℕ → ℕ)
    → relocated base rest (if b then add_base base p mem else mem)
      ≡ relocated base (if b then p ∷ rest else rest) mem
relocated-if true base p rest mem = refl
relocated-if false base p rest mem = refl

marked-step :
    (n base place k v entry : ℕ) (mem : ℕ → ℕ)
    → v ≡ entry / 2 ^ suc k
    → relocated base
        (marked n (suc k) place entry)
        (if bit v 0 then add_base base (slot place k) mem else mem)
      ≡ relocated base (marked (suc n) k place entry) mem
marked-step n base place k v entry mem e =
    let whole : v / 1 ≡ v = omega arith in
    let same : bit v 0 ≡ bit entry (suc k) = ap (λ (t : ℕ). t % 2 == 1) (whole ∙ e) in
    ap
      (λ (b : Bool).
        relocated base (marked n (suc k) place entry)
          (if b then add_base base (slot place k) mem else mem))
      same
    ∙ relocated-if (bit entry (suc k)) base (slot place k) (marked n (suc k) place entry) mem

pub reloc_bits-eq :
    (n base place k w entry : ℕ) (mem : ℕ → ℕ)
    → w ≡ entry / 2 ^ k
    → w < 2 ^ suc n
    → reloc_bits (suc n) base place k w mem ≡ relocated base (marked n k place entry) mem
reloc_bits-eq zero base place k w entry mem e small =
    reloc_bits-done zero base place k w mem (omega arith)
reloc_bits-eq (suc n) base place k w entry mem e small = elim (Bool-cases (w / 2 == 0)) [
  | inl done ↦
      reloc_bits-done (suc n) base place k w mem ((==_iff _ _).0 done)
      ∙ ap (λ (l : List ℕ). relocated base l mem)
          (sym (
            marked-none (suc n) k place entry
              (quotient entry k ∙ ap (λ (v : ℕ). v / 2) (sym e) ∙ (==_iff _ _).0 done)))
  | inr more ↦
      reloc_bits-more (suc n) base place k w mem more
      ∙ reloc_bits-eq n base place (suc k) (w / 2) entry _
          (ap (λ (v : ℕ). v / 2) e ∙ sym (quotient entry k)) (omega (arith, pow-suc 2 (suc n)))
      ∙ marked-step n base place k (w / 2) entry mem
          (ap (λ (v : ℕ). v / 2) e ∙ sym (quotient entry k))
]

abbrev pub entered : Bool → ℕ → ℕ → Relr → Relr
entered b base e s =
    if b
    then record { place = u64 (s.place + 8 * 63); mem = reloc_bits 64 base s.place 0 e s.mem }
    else record { place = u64 (u64 (base + e) + 8); mem = add_base base (u64 (base + e)) s.mem }

-- What one entry does to the place, and to memory.
pub reloc_entry-eq :
    (base e : ℕ) (es : List ℕ) (s : Relr)
    → e < 2 ^ 64
    → relocated base (relr_words base (reloc_entry base e s).place es) (reloc_entry base e s).mem
      ≡ relocated base (relr_words base s.place (e ∷ es)) s.mem
unfolding reloc_entry
reloc_entry-eq base e es s small =
    elim (bit e 0)
      as (λ b.
        relocated base (relr_words base (entered b base e s).place es) (entered b base e s).mem
        ≡ relocated base
            (if b
              then marked 63 0 s.place e ++ relr_words base (u64 (s.place + 8 * 63)) es
              else u64 (base + e) ∷ relr_words base (u64 (u64 (base + e) + 8)) es)
            s.mem) [
              | true ↦
                  ap (relocated base (relr_words base (u64 (s.place + 8 * 63)) es))
                    (reloc_bits-eq 63 base s.place 0 e e s.mem (omega arith) small)
                  ∙ sym (
                      relocated-append base (marked 63 0 s.place e)
                        (relr_words base (u64 (s.place + 8 * 63)) es) s.mem)
              | false ↦ refl
            ]
