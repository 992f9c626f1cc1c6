-- ===== src/Encoder/Registers.antt =====
-- The register table of src/arm64emitter.h: every x86-64 register has a home of its own.
use byte_shatter.Base.{
  ℕ, zero, suc, ◌<◌, ◌≡◌, ◌≢◌, ◌∙◌, refl, sym, ap, List, [], ◌∷◌, arith, get_or, length, ◌≤◌,
}
use byte_shatter.Encoder.Emit.{x64_regs, sc1r, sc2r}

-- The register that lives in a host register; 99 stands for none.
abbrev guests : List ℕ
guests =
    7 ∷ 6 ∷ 2 ∷ 1 ∷ 8 ∷ 9 ∷ 99 ∷ 99 ∷ 0 ∷ 99 ∷ 10 ∷ 11 ∷ 99 ∷ 99 ∷ 3 ∷ 99 ∷ 12 ∷ 13 ∷ 14 ∷ 15 ∷ 99
    ∷ 99 ∷ 99 ∷ 99 ∷ 99 ∷ 99 ∷ 99 ∷ 99 ∷ 99 ∷ 5 ∷ 99 ∷ 4 ∷ []

guest_of : ℕ → ℕ
guest_of h = get_or guests h 99

guest_of-x64_regs : (r : ℕ) → r < 16 → guest_of (x64_regs r) ≡ r
unfolding guest_of x64_regs
guest_of-x64_regs zero h = refl
guest_of-x64_regs (suc zero) h = refl
guest_of-x64_regs (suc (suc zero)) h = refl
guest_of-x64_regs (suc (suc (suc zero))) h = refl
guest_of-x64_regs (suc (suc (suc (suc zero)))) h = refl
guest_of-x64_regs (suc (suc (suc (suc (suc zero))))) h = refl
guest_of-x64_regs (suc (suc (suc (suc (suc (suc zero)))))) h = refl
guest_of-x64_regs (suc (suc (suc (suc (suc (suc (suc zero))))))) h = refl
guest_of-x64_regs (suc (suc (suc (suc (suc (suc (suc (suc zero)))))))) h = refl
guest_of-x64_regs (suc (suc (suc (suc (suc (suc (suc (suc (suc zero))))))))) h = refl
guest_of-x64_regs (suc (suc (suc (suc (suc (suc (suc (suc (suc (suc zero)))))))))) h = refl
guest_of-x64_regs (suc (suc (suc (suc (suc (suc (suc (suc (suc (suc (suc zero))))))))))) h = refl
guest_of-x64_regs (suc (suc (suc (suc (suc (suc (suc (suc (suc (suc (suc (suc zero)))))))))))) h =
    refl
guest_of-x64_regs (suc (suc (suc (suc (suc (suc (suc (suc (suc (suc (suc (suc (suc zero)))))))))))))
      h =
    refl
guest_of-x64_regs
      (suc (suc (suc (suc (suc (suc (suc (suc (suc (suc (suc (suc (suc (suc zero)))))))))))))) h =
    refl
guest_of-x64_regs
      (suc (suc (suc (suc (suc (suc (suc (suc (suc (suc (suc (suc (suc (suc (suc zero)))))))))))))))
      h =
    refl
guest_of-x64_regs
      (suc
        (suc (suc (suc (suc (suc (suc (suc (suc (suc (suc (suc (suc (suc (suc (suc r))))))))))))))))
      h =
    absurd (omega arith)

-- No two of the sixteen registers share a home.
pub x64_regs-injective : (a b : ℕ) → a < 16 → b < 16 → x64_regs a ≡ x64_regs b → a ≡ b
x64_regs-injective a b ha hb e =
    sym (guest_of-x64_regs a ha) ∙ ap guest_of e ∙ guest_of-x64_regs b hb

-- A host register without a guest is no home.
x64_regs-other : (r h : ℕ) → r < 16 → guest_of h ≡ 99 → x64_regs r ≢ h
x64_regs-other r h small none e =
    absurd (omega (arith, sym (guest_of-x64_regs r small) ∙ ap guest_of e ∙ none))

-- Different registers have different homes, and none lives in a register that the translated code
-- uses for itself: the scratch registers and the link register.
pub x64_regs-apart :
    (a b : ℕ)
    → a < 16
    → b < 16
    → a ≢ b
    → (x64_regs a ≢ x64_regs b) × (x64_regs a ≢ sc1r) × (x64_regs a ≢ sc2r) × (x64_regs a ≢ 30)
unfolding guest_of
x64_regs-apart a b ha hb n = (
  λ e. n (x64_regs-injective a b ha hb e),
  x64_regs-other a 12 ha refl,
  x64_regs-other a 13 ha refl,
  x64_regs-other a 30 ha refl,
)

-- Past the end of a table.
get_or_past : (xs : List ℕ) (i d : ℕ) → length xs ≤ i → get_or xs i d ≡ d
get_or_past [] i d h = refl
get_or_past (x ∷ xs) zero d h = absurd (omega arith)
get_or_past (x ∷ xs) (suc i) d h = get_or_past xs i d (omega arith)

x64_regs-lt : (r : ℕ) → r < 16 → x64_regs r < 32
unfolding guest_of
x64_regs-lt r small = ground (arith, guest_of-x64_regs r small, get_or_past guests (x64_regs r) 99)

-- The registers other than RSP and RBP live in general registers that are no scratch register.
pub record IsHome (h : ℕ) : Type 0 where
  pub general : h < 31
  pub not_sc1 : h ≢ 12
  pub not_sc2 : h ≢ 13

pub x64_regs-IsHome : (r : ℕ) → r < 16 → r ≢ 4 → IsHome (x64_regs r)
unfolding guest_of
x64_regs-IsHome r small n = record {
  general = omega (arith, x64_regs-lt r small, not_sp);
  not_sc1 = x64_regs-other r 12 small refl;
  not_sc2 = x64_regs-other r 13 small refl;
}
  where
    not_sp : x64_regs r ≢ 31
    not_sp e = n (sym (guest_of-x64_regs r small) ∙ ap guest_of e)
