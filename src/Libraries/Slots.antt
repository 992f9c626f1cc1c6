-- ===== src/Libraries/Slots.antt =====
-- What patch_library_got (src/elf_manager.c) does to the slots of a symbol, in one object.
use byte_shatter.Base.{
  ℕ, zero, suc, ◌+◌, ◌*◌, ◌/◌, ◌%◌, ◌^◌, ◌==◌, ◌≡◌, ◌≢◌, ◌∙◌, ◌⊎◌, inl, inr, refl, sym, ap, subst,
  Bool, true, false, if◌then◌else◌, if_cases, ltb, List, [], ◌∷◌, Option, some, u64, low_bits,
  ==_iff, arith,
}
use byte_shatter.Memory.{load32, load64}
use byte_shatter.Memory.Stores.{store64}
use byte_shatter.Memory.Strings.{c_string, same}
use byte_shatter.Elf.{Phdr}
use byte_shatter.Libraries.Got.{
  find_dynamic, Tables, note_table, get_ptr, is_slot, patch_slot, patch_slots,
}

-- The first PT_DYNAMIC of an object's program headers.
pub data First (p : Phdr) : List Phdr → Type 0 where
  here : {ps : List Phdr} → p.p_type ≡ 2 → First p (p ∷ ps)
  later : {q : Phdr} {ps : List Phdr} → q.p_type ≢ 2 → First p ps → First p (q ∷ ps)

pub find_dynamic-First : (p : Phdr) (ps : List Phdr) → find_dynamic ps ≡ some p → First p ps
unfolding find_dynamic
find_dynamic-First p [] h = absurd (ground arith)
find_dynamic-First p (q ∷ ps) h =
    if_cases (λ (o : Option Phdr). o ≡ some p → First p (q ∷ ps)) (q.p_type == 2)
      (λ e found.
        let equal : q ≡ p = cc in
        subst (λ (r : Phdr). First r (q ∷ ps)) equal (here ((==_iff _ _).0 e)))
      (λ no found. later (λ e. ground (arith, no, e)) (find_dynamic-First p ps found)) h

pub First-find_dynamic : (p : Phdr) (ps : List Phdr) → First p ps → find_dynamic ps ≡ some p
unfolding find_dynamic
First-find_dynamic p [] h = elim h [ ]
First-find_dynamic p (q ∷ ps) (here e) = ground (arith, e)
First-find_dynamic p (q ∷ ps) (later e h) = ground (arith, e, First-find_dynamic p ps h)

-- A pointer of the dynamic section, which is relative if it is below the base.
abbrev pub resolved : ℕ → ℕ → ℕ
resolved base link = if ltb link base then u64 (base + link) else link

-- The tables with one entry of the dynamic section more: the strings, the symbols, the relocations and
-- their size have the tags 5 to 8.
abbrev pub noted : ℕ → ℕ → ℕ → Tables → Tables
noted base tag value t = record {
  strtab = if tag == 5 then resolved base value else t.strtab;
  symtab = if tag == 6 then resolved base value else t.symtab;
  rela = if tag == 7 then resolved base value else t.rela;
  rela_size = if tag == 8 then value else t.rela_size;
}

pub note_table-eq-noted :
    (base tag value : ℕ) (t : Tables) → note_table base tag value t ≡ noted base tag value t
unfolding get_ptr
note_table-eq-noted base tag value t =
    if_cases (λ r. r ≡ noted base tag value t) (tag == 5)
      (λ e.
        subst (λ v. record t { strtab = resolved base value } ≡ noted base v value t)
          (sym ((==_iff _ _).0 e)) refl)
      λ n5.
        if_cases (λ r. r ≡ noted base tag value t) (tag == 6)
          (λ e.
            subst (λ v. record t { symtab = resolved base value } ≡ noted base v value t)
              (sym ((==_iff _ _).0 e)) refl)
          λ n6.
            if_cases (λ r. r ≡ noted base tag value t) (tag == 7)
              (λ e.
                subst (λ v. record t { rela = resolved base value } ≡ noted base v value t)
                  (sym ((==_iff _ _).0 e)) refl)
              λ n7.
                if_cases (λ r. r ≡ noted base tag value t) (tag == 8)
                  (λ e.
                    subst (λ v. record t { rela_size = value } ≡ noted base v value t)
                      (sym ((==_iff _ _).0 e)) refl)
                  λ n8. rw (n5, n6, n7, n8) refl

-- The types of relocations that hold a symbol's address, of x86-64 and of AArch64.
abbrev pub IsSlotType : ℕ → Type 0
IsSlotType type = (type ≡ 7) ⊎ (type ≡ 6) ⊎ (type ≡ 1026) ⊎ (type ≡ 1025)

is_slot-IsSlotType : (x : ℕ) → is_slot x ≡ true → IsSlotType x
is_slot-IsSlotType x h = ground arith

IsSlotType-is_slot : (x : ℕ) → IsSlotType x → is_slot x ≡ true
IsSlotType-is_slot x h = ground arith

pub both : {b : Bool} → b ≡ true → b ≡ false → ⊥
both e f = cc

module _ (symbol : List ℕ) (got base : ℕ) where
  -- The name of the symbol of the relocation at `rela`.
  abbrev pub name_of : Tables → ℕ → (ℕ → ℕ) → List ℕ
  name_of t rela m =
      c_string m (u64 (t.strtab + load32 m (t.symtab + 24 * (load64 m (rela + 8) / 2 ^ 32))))

  -- One relocation: a slot of the symbol is redirected, anything else is kept.
  pub data Slot (t : Tables) (rela : ℕ) (m n : ℕ → ℕ) : Type 0 where
    redirected :
        IsSlotType (load64 m (rela + 8) % 2 ^ 32)
        → same (name_of t rela m) symbol ≡ true
        → n ≡ store64 m (u64 (base + load64 m rela)) got
        → Slot t rela m n
    kept :
        (¬ IsSlotType (load64 m (rela + 8) % 2 ^ 32)) ⊎ (same (name_of t rela m) symbol ≡ false)
        → n ≡ m
        → Slot t rela m n

  patch_slot-Slot :
      (t : Tables) (rela : ℕ) (m : ℕ → ℕ) → Slot t rela m (patch_slot symbol got base t rela m)
  unfolding patch_slot
  patch_slot-Slot t rela m =
      if_cases (Slot t rela m) (is_slot (low_bits (load64 m (rela + 8)) 32))
        (λ slot.
          if_cases (Slot t rela m) (same (name_of t rela m) symbol)
            (λ equal. redirected (is_slot-IsSlotType _ slot) equal refl)
            λ other. kept (inr other) refl)
        λ other. kept (inl (λ slot. both (IsSlotType-is_slot _ slot) other)) refl

  when_redirected :
      (t : Tables) (rela : ℕ) (m n : ℕ → ℕ)
      → is_slot (load64 m (rela + 8) % 2 ^ 32) ≡ true
      → same (name_of t rela m) symbol ≡ true
      → Slot t rela m n
      → n ≡ store64 m (u64 (base + load64 m rela)) got
  when_redirected t rela m n slot equal (redirected _ _ e) = e
  when_redirected t rela m n slot equal (kept (inl other) e) =
      absurd (other (is_slot-IsSlotType _ slot))
  when_redirected t rela m n slot equal (kept (inr other) e) = absurd (both equal other)

  when_renamed :
      (t : Tables) (rela : ℕ) (m n : ℕ → ℕ)
      → same (name_of t rela m) symbol ≡ false
      → Slot t rela m n
      → n ≡ m
  when_renamed t rela m n other (redirected _ equal e) = absurd (both equal other)
  when_renamed t rela m n other (kept _ e) = e

  when_other :
      (t : Tables) (rela : ℕ) (m n : ℕ → ℕ)
      → is_slot (load64 m (rela + 8) % 2 ^ 32) ≡ false
      → Slot t rela m n
      → n ≡ m
  when_other t rela m n other (redirected slot _ e) =
      absurd (both (IsSlotType-is_slot _ slot) other)
  when_other t rela m n other (kept _ e) = e

  Slot-patch_slot :
      (t : Tables) (rela : ℕ) (m n : ℕ → ℕ)
      → Slot t rela m n
      → n ≡ patch_slot symbol got base t rela m
  unfolding patch_slot
  Slot-patch_slot t rela m n h =
      let type = low_bits (load64 m (rela + 8)) 32 in
      if_cases (λ (r : ℕ → ℕ). n ≡ r) (is_slot type)
        (λ slot.
          if_cases (λ (r : ℕ → ℕ). n ≡ r) (same (name_of t rela m) symbol)
            (λ equal. when_redirected t rela m n slot equal h)
            λ other. when_renamed t rela m n other h)
        λ other. when_other t rela m n other h

  -- So many relocations from `rela` on.
  abbrev pub Slots : Tables → ℕ → ℕ → (ℕ → ℕ) → (ℕ → ℕ) → Type 0
  Slots t zero rela m n = n ≡ m
  Slots t (suc count) rela m n = (k : ℕ → ℕ) × Slot t rela m k × Slots t count (rela + 24) k n

  pub patch_slots-Slots :
      (t : Tables) (count rela : ℕ) (m : ℕ → ℕ)
      → Slots t count rela m (patch_slots symbol got base t count rela m)
  unfolding patch_slots
  patch_slots-Slots t zero rela m = refl
  patch_slots-Slots t (suc count) rela m = (
    patch_slot symbol got base t rela m,
    patch_slot-Slot t rela m,
    patch_slots-Slots t count (rela + 24) (patch_slot symbol got base t rela m),
  )

  pub Slots-patch_slots :
      (t : Tables) (count rela : ℕ) (m n : ℕ → ℕ)
      → Slots t count rela m n
      → n ≡ patch_slots symbol got base t count rela m
  unfolding patch_slots
  Slots-patch_slots t zero rela m n h = h
  Slots-patch_slots t (suc count) rela m n (k, first, rest) =
      Slots-patch_slots t count (rela + 24) k n rest
      ∙ ap (patch_slots symbol got base t count (rela + 24)) (Slot-patch_slot t rela m k first)
