-- ===== src/Printer/Arm/Matches.antt =====
-- The test of a word against a pattern (comp, src/printer_arm.c), bit by bit.
use native.Mathlib.Nat.{pow-suc}
use byte_shatter.Base.{
  not, ℕ, zero, suc, ◌+◌, ◌-◌, ◌*◌, ◌/◌, ◌%◌, ◌^◌, ◌<◌, ◌≡◌, ◌∙◌, refl, ap, ◌==◌, ◌&&◌, ◌|||◌,
  bit_and, bit, Bool, true, false, if◌then◌else◌, List, [], ◌∷◌, length, arith, subst,
}
use byte_shatter.Base.Bits.{bit_or_insert}
use byte_shatter.Base.Masks.{bit_and-above, bit_and_le}
use byte_shatter.Printer.Arm.{dash, one, Masks, masks, comp}

-- The pattern read bit by bit; its first character stands for the highest bit.
abbrev pub matches : List ℕ → ℕ → Bool
matches [] opcode = true
matches (c ∷ cs) opcode =
    let rest = matches cs opcode in
    if c == dash
    then rest
    else if c == one
    then bit opcode (length cs) && rest
    else not (bit opcode (length cs)) && rest

-- The mask and the value of the pattern on its own.
abbrev mask_of : List ℕ → ℕ
mask_of [] = 0
mask_of (c ∷ cs) = let rest = mask_of cs in if c == dash then rest else 2 ^ length cs + rest

abbrev check_of : List ℕ → ℕ
check_of [] = 0
check_of (c ∷ cs) =
    let rest = check_of cs in
    if c == dash then rest else if c == one then 2 ^ length cs + rest else rest

abbrev masks_at : ℕ → ℕ → Masks
masks_at m c = record { mask = m; check = c }

masks_eq : {m m' c c' : ℕ} → m ≡ m' → c ≡ c' → masks_at m c ≡ masks_at m' c'
masks_eq hm hc = λ i. masks_at (hm i) (hc i)

power_pos : (k : ℕ) → 0 < 2 ^ k
power_pos zero = omega arith
power_pos (suc k) = omega (arith, pow-suc 2 k, power_pos k)

mask_of_below : (cs : List ℕ) → mask_of cs < 2 ^ length cs
mask_of_below [] = omega arith
mask_of_below (c ∷ cs) = ground (arith, mask_of_below cs, pow-suc 2 (length cs))

check_of_below : (cs : List ℕ) → check_of cs < 2 ^ length cs
check_of_below [] = omega arith
check_of_below (c ∷ cs) = ground (arith, check_of_below cs, pow-suc 2 (length cs))

-- What the loop has read so far, in front of `k` characters.
abbrev read_so_far : ℕ → ℕ → ℕ → Masks
read_so_far k p q = record { mask = p * 2 ^ k; check = q * 2 ^ k }

abbrev next_mask : Bool → ℕ → ℕ
next_mask d p = if d then p * 2 else p * 2 + 1

abbrev next_check : Bool → Bool → ℕ → ℕ
next_check d o q = if d then q * 2 else if o then q * 2 + 1 else q * 2

moved : (p k : ℕ) → p * 2 ^ suc k ≡ p * 2 * 2 ^ k
moved p k = omega (arith, ap (λ (t : ℕ). p * t) (pow-suc 2 k))

set_bit : (p k : ℕ) → (p * 2 ^ suc k ||| 2 ^ k) ≡ (p * 2 + 1) * 2 ^ k
set_bit p k = ground (arith, moved p k, bit_or_insert 1 k p 1 0 (power_pos k) (omega arith))

one_step :
    (d o : Bool) (p q k : ℕ)
    → (if d then read_so_far (suc k) p q else record {
      mask = p * 2 ^ suc k ||| 2 ^ k;
      check = if o then q * 2 ^ suc k ||| 2 ^ k else q * 2 ^ suc k;
    })
      ≡ read_so_far k (next_mask d p) (next_check d o q)
one_step true o p q k = masks_eq (moved p k) (moved q k)
one_step false true p q k = masks_eq (set_bit p k) (set_bit q k)
one_step false false p q k = masks_eq (set_bit p k) (moved q k)

all_steps :
    (d o : Bool) (p q k m c : ℕ)
    → masks_at (next_mask d p * 2 ^ k + m) (next_check d o q * 2 ^ k + c)
      ≡ masks_at
          (p * 2 ^ suc k + (if d then m else 2 ^ k + m))
          (q * 2 ^ suc k + (if d then c else if o then 2 ^ k + c else c))
all_steps true o p q k m c = masks_eq (omega (arith, moved p k)) (omega (arith, moved q k))
all_steps false true p q k m c = masks_eq (omega (arith, moved p k)) (omega (arith, moved q k))
all_steps false false p q k m c = masks_eq (omega (arith, moved p k)) (omega (arith, moved q k))

masks_lem :
    (cs : List ℕ) (p q : ℕ)
    → masks cs (length cs - 1) (read_so_far (length cs) p q)
      ≡ masks_at (p * 2 ^ length cs + mask_of cs) (q * 2 ^ length cs + check_of cs)
unfolding masks
masks_lem [] p q = masks_eq (omega arith) (omega arith)
masks_lem (c ∷ cs) p q =
    let k = length cs in
    let d = c == dash in
    let o = c == one in
    subst
      (λ (n : ℕ).
        masks cs (n - 1) (
          if d then read_so_far (suc k) p q else record {
            mask = p * 2 ^ suc k ||| 2 ^ n;
            check = if o then q * 2 ^ suc k ||| 2 ^ n else q * 2 ^ suc k;
          })
        ≡ masks_at (p * 2 ^ suc k + mask_of (c ∷ cs)) (q * 2 ^ suc k + check_of (c ∷ cs)))
      (omega arith)
      (ap (λ (s : Masks). masks cs (k - 1) s) (one_step d o p q k)
        ∙ masks_lem cs (next_mask d p) (next_check d o q)
        ∙ all_steps d o p q k (mask_of cs) (check_of cs))

-- A comparison of two numbers by their top digit and the rest.
top_set : (t y c P : ℕ) → t < 2 → y < P → c < P → (t * P + y == P + c) ≡ ((t == 1) && (y == c))
top_set zero y c P ht hy hc = ground arith
top_set (suc zero) y c P ht hy hc = ground arith
top_set (suc (suc t)) y c P ht hy hc = ground arith

top_clear : (t y c P : ℕ) → t < 2 → y < P → c < P → (t * P + y == c) ≡ (not (t == 1) && (y == c))
top_clear zero y c P ht hy hc = ground arith
top_clear (suc zero) y c P ht hy hc = ground arith
top_clear (suc (suc t)) y c P ht hy hc = ground arith

head_lem :
    (d o : Bool) (k a m c : ℕ)
    → m < 2 ^ k
    → c < 2 ^ k
    → (bit_and a (if d then m else 2 ^ k + m) == (if d then c else if o then 2 ^ k + c else c)) ≡ (
        if d
        then bit_and a m == c
        else if o
        then bit a k && (bit_and a m == c)
        else not (bit a k) && (bit_and a m == c))
head_lem true o k a m c fm fc = refl
head_lem false true k a m c fm fc = rw (bit_and-above k a m fm) (
    top_set (a / 2 ^ k % 2) (bit_and a m) c (2 ^ k) (omega arith) (omega (arith, bit_and_le a m))
      fc)
head_lem false false k a m c fm fc = rw (bit_and-above k a m fm) (
    top_clear (a / 2 ^ k % 2) (bit_and a m) c (2 ^ k) (omega arith) (omega (arith, bit_and_le a m))
      fc)

matches_lem :
    (cs : List ℕ) (opcode : ℕ) → (bit_and opcode (mask_of cs) == check_of cs) ≡ matches cs opcode
matches_lem [] opcode = ground (arith, bit_and_le opcode 0)
matches_lem (c ∷ cs) opcode =
    let d = c == dash in
    let o = c == one in
    head_lem d o (length cs) opcode (mask_of cs) (check_of cs) (mask_of_below cs)
      (check_of_below cs)
    ∙ ap
        (λ (b : Bool).
          if d
          then b
          else if o
          then bit opcode (length cs) && b
          else not (bit opcode (length cs)) && b)
        (matches_lem cs opcode)

masks-all :
    (cs : List ℕ)
    → length cs ≡ 32
    → masks cs 31 (masks_at 0 0) ≡ masks_at (mask_of cs) (check_of cs)
masks-all cs full =
    ap (λ (n : ℕ). masks cs n (masks_at 0 0)) (omega arith)
    ∙ ap (λ (s : Masks). masks cs (length cs - 1) s) (masks_eq (omega arith) (omega arith))
    ∙ masks_lem cs 0 0
    ∙ masks_eq (omega arith) (omega arith)

-- comp tests a word against a pattern of 32 characters bit by bit: where the pattern has '1' the word's
-- bit is set, where it has '-' the bit does not matter, and elsewhere it is clear.
pub comp-eq-matches :
    (cond : List ℕ) (opcode : ℕ) → length cond ≡ 32 → comp cond opcode ≡ matches cond opcode
unfolding comp
comp-eq-matches cond opcode full =
    ap (λ (m : Masks). bit_and opcode m.mask == m.check) (masks-all cond full)
    ∙ matches_lem cond opcode
