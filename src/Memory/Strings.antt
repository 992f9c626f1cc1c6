-- ===== src/Memory/Strings.antt =====
-- Strings of C in memory: the characters up to the first zero, and strcmp and snprintf on them.
use byte_shatter.Base.{
  ℕ, zero, suc, ◌+◌, ◌^◌, ◌&&◌, ◌==◌, Bool, true, false, if◌then◌else◌, List, [], ◌∷◌, ◌++◌,
}
use byte_shatter.Memory.{load8}

unfoldable pub c_string_up_to : ℕ → (ℕ → ℕ) → ℕ → List ℕ
c_string_up_to zero mem p = []
c_string_up_to (suc n) mem p =
    let rest = load8 mem p ∷ c_string_up_to n mem (p + 1) in if load8 mem p == 0 then [] else rest

-- A string cannot be longer than the address space.
unfoldable pub c_string : (ℕ → ℕ) → ℕ → List ℕ
unfolding c_string_up_to
c_string mem p = c_string_up_to (2 ^ 64) mem p

-- strcmp(a, b) == 0
abbrev pub same : List ℕ → List ℕ → Bool
same [] [] = true
same [] (y ∷ ys) = false
same (x ∷ xs) [] = false
same (x ∷ xs) (y ∷ ys) = x == y && same xs ys

-- What snprintf into a buffer of `n` bytes keeps, with the zero that ends it.
abbrev pub take : ℕ → List ℕ → List ℕ
take zero xs = []
take (suc n) [] = []
take (suc n) (x ∷ xs) = x ∷ take n xs

abbrev pub snprintf : ℕ → List ℕ → List ℕ → List ℕ
snprintf n prefix str = take n (prefix ++ str)
