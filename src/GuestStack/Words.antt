-- ===== src/GuestStack/Words.antt =====
-- What stands on the stack of src/stack.c, and that each push adds to it.
use byte_shatter.Base.{
  ℕ, zero, suc, ◌+◌, ◌-◌, ◌*◌, ◌^◌, ◌≤◌, ◌<◌, ◌≡◌, inl, inr, List, [], ◌∷◌, length, get_or, IsU64,
  u64, arith, ◌∙◌, sym, subst,
}
use byte_shatter.Memory.{load64}
use byte_shatter.Memory.Stores.{
  store64, store64_off, load64-store64, load64-store64_off, copy_string, copy_bytes_at,
  copy_bytes_off, load64-copy_bytes_off, load64-eq, copy_bytes,
}
use byte_shatter.GuestStack.{GuestStack, stack_size, push_word, put_string, word_below, realign}

-- The words `ws` stand at `p`, one after the other.
abbrev pub HoldsWords : (ℕ → ℕ) → ℕ → List ℕ → Type 0
HoldsWords mem p ws = (i : ℕ) → i < length ws → load64 mem (p + 8 * i) ≡ get_or ws i 0

-- The string stands at `p`, with the zero that ends it.
abbrev pub HoldsString : (ℕ → ℕ) → ℕ → List ℕ → Type 0
HoldsString mem p str = (i : ℕ) → i < length str + 1 → mem (p + i) ≡ get_or str i 0

-- The strings stand where the pointers beside them say, below `top`.
abbrev pub HoldsStrings : (ℕ → ℕ) → ℕ → List (ℕ × List ℕ) → Type 0
HoldsStrings mem top [] = Unit
HoldsStrings mem top ((p, str) ∷ rest) =
    HoldsString mem p str × (p + (length str + 1) ≤ top) × HoldsStrings mem top rest

-- The words reach up to `end`, and `spare` bytes are free between the strings and them.
pub record IsStack (s : GuestStack) (end spare : ℕ) (ws : List ℕ) (strs : List (ℕ × List ℕ))
    : Type 0 where
  pub words : HoldsWords s.mem s.sp ws
  pub strings : HoldsStrings s.mem s.dp strs
  pub counted : s.sp + 8 * length ws ≡ end
  pub room : s.dp + spare ≤ s.sp
  pub bounded : end < 2 ^ 64

pub HoldsStrings-mono :
    (m n : ℕ → ℕ) (t u : ℕ) (strs : List (ℕ × List ℕ))
    → ((q : ℕ) → q < t → n q ≡ m q)
    → t ≤ u
    → HoldsStrings m t strs
    → HoldsStrings n u strs
HoldsStrings-mono m n t u [] same le h = tt
HoldsStrings-mono m n t u ((p, str) ∷ rest) same le h = (
  λ i k. ground (arith, same (p + i), h.0 i),
  omega (arith, h.1),
  HoldsStrings-mono m n t u rest same le h.2,
)

HoldsWords-push :
    (mem : ℕ → ℕ) (p q v : ℕ) (ws : List ℕ)
    → q ≡ p + 8
    → IsU64 v
    → HoldsWords mem q ws
    → HoldsWords (store64 mem p v) p (v ∷ ws)
HoldsWords-push mem p q v ws e fits h zero k = ground (arith, load64-store64 mem p v fits)
HoldsWords-push mem p q v ws e fits h (suc i) k =
    ground (arith, load64-store64_off mem p v (q + 8 * i) (inr (omega arith)), h i (omega arith))

-- A word is pushed.
pub push_word-IsStack :
    (v : ℕ) (s : GuestStack) (end spare : ℕ) (ws : List ℕ) (strs : List (ℕ × List ℕ))
    → IsStack s end (spare + 8) ws strs
    → IsStack (push_word v s) end spare (u64 v ∷ ws) strs
unfolding push_word
push_word-IsStack v s end spare ws strs h =
    let below : word_below s.sp + 8 ≡ s.sp = omega (arith, h) in
    record {
      words =
          HoldsWords-push s.mem (word_below s.sp) s.sp (u64 v) ws (sym below) (omega arith) h.words;
      strings =
          HoldsStrings-mono s.mem (store64 s.mem (word_below s.sp) (u64 v)) s.dp s.dp strs
            (λ q k. store64_off s.mem (word_below s.sp) (u64 v) q (inl (omega (arith, h, below))))
            (omega arith) h.strings;
      counted = omega (arith, h, below);
      room = omega (arith, h, below);
      bounded = h.bounded;
    }

-- A string is copied to the bottom.
pub put_string-IsStack :
    (str : List ℕ) (s : GuestStack) (end spare : ℕ) (ws : List ℕ) (strs : List (ℕ × List ℕ))
    → IsStack s end (spare + (length str + 1)) ws strs
    → IsStack (put_string str s) end spare ws ((s.dp, str) ∷ strs)
unfolding put_string copy_string
put_string-IsStack str s end spare ws strs h = record {
  words = λ i k.
      load64-copy_bytes_off s.mem s.dp (λ j. get_or str j 0) (length str + 1) (s.sp + 8 * i)
        (inr (omega (arith, h)))
      ∙ h.words i k;
  strings = (
    copy_bytes_at s.mem s.dp (λ j. get_or str j 0) (length str + 1),
    omega arith,
    HoldsStrings-mono s.mem (copy_string s.mem s.dp str) s.dp (s.dp + (length str + 1)) strs
        (λ q k. copy_bytes_off s.mem s.dp (λ j. get_or str j 0) (length str + 1) q (inl k))
        (omega arith) h.strings,
  );
  counted = h.counted;
  room = omega (arith, h);
  bounded = h.bounded;
}

-- A pointer to a string is pushed, and the string copied there.
pub push_string-IsStack :
    (str : List ℕ) (s : GuestStack) (end spare : ℕ) (ws : List ℕ) (strs : List (ℕ × List ℕ))
    → IsStack s end (spare + (length str + 9)) ws strs
    → IsStack (put_string str (push_word s.dp s)) end spare (s.dp ∷ ws) ((s.dp, str) ∷ strs)
push_string-IsStack str s end spare ws strs h =
    let pushed : IsStack (push_word s.dp s) end (spare + (length str + 1)) (s.dp ∷ ws) strs =
      subst (λ (v : ℕ). IsStack (push_word s.dp s) end (spare + (length str + 1)) (v ∷ ws) strs)
        (omega (arith, h))
        (push_word-IsStack s.dp s end (spare + (length str + 1)) ws strs
          (subst (λ (n : ℕ). IsStack s end n ws strs) (omega arith) h)) in
    unfold push_word in put_string-IsStack str (push_word s.dp s) end spare (s.dp ∷ ws) strs pushed

-- The words move down by one, and the strings stay.
pub realign-IsStack :
    (s : GuestStack) (end spare : ℕ) (ws : List ℕ) (strs : List (ℕ × List ℕ))
    → end ≡ s.stack + stack_size
    → IsStack s end (spare + 8) ws strs
    → IsStack (realign s) (end - 8) spare ws strs
unfolding realign
realign-IsStack s end spare ws strs top h =
    let below : word_below s.sp + 8 ≡ s.sp = omega (arith, h) in
    let whole : u64 (s.stack + stack_size + 2 ^ 64 - s.sp) ≡ 8 * length ws = omega (arith, h) in
    rw whole record {
      words = λ i k.
          load64-eq (copy_bytes s.mem (word_below s.sp) (λ j. s.mem (s.sp + j)) (8 * length ws))
            s.mem (word_below s.sp + 8 * i) (s.sp + 8 * i) (λ j l. moved (word_below s.sp) i j k l)
          ∙ h.words i k;
      strings =
          HoldsStrings-mono s.mem
            (copy_bytes s.mem (word_below s.sp) (λ j. s.mem (s.sp + j)) (8 * length ws)) s.dp s.dp
            strs
            (λ q k.
              copy_bytes_off s.mem (word_below s.sp) (λ j. s.mem (s.sp + j)) (8 * length ws) q
                (inl (omega (arith, h, below))))
            (omega arith) h.strings;
      counted = omega (arith, h, below);
      room = omega (arith, h, below);
      bounded = omega (arith, h);
    }
  where
    moved :
        (p i j : ℕ)
        → i < length ws
        → j < 8
        → copy_bytes s.mem p (λ j. s.mem (s.sp + j)) (8 * length ws) (p + 8 * i + j)
          ≡ s.mem (s.sp + 8 * i + j)
    moved p i j k l =
        ground (arith, copy_bytes_at s.mem p (λ j. s.mem (s.sp + j)) (8 * length ws) (8 * i + j))
