-- ===== src/Base/Bits.antt =====
-- `|` of bit fields that do not overlap is their sum: the emitter packs every instruction so.
use Prim.Native.Nat.{
  ℕ, zero, suc, ◌+◌, ◌*◌, ◌/◌, ◌^◌, ◌<◌, ◌≤◌, max, digits, bit_or, bit_or-bitwise,
}
use mathlib.Core.Path.{◌≡◌, refl, ap, ◌∙◌}
use native.Mathlib.Nat.{pow-suc}
use native.Mathlib.Omega.{arith}

-- A field that is moved by one more bit.
double : (q k : ℕ) → q * 2 ^ suc k ≡ q * 2 ^ k * 2
double q k = omega (arith, ap (λ (t : ℕ). q * t) (pow-suc 2 k))

-- The digit recursion behind `bit_or`, with any count of digits that is enough: `b` is a field `f` of
-- width `w` at bit `k`, and `a` is zero there.
digits-insert :
    (count a b w k h f l : ℕ)
    → a ≤ count
    → a ≡ h * 2 ^ w * 2 ^ k + l
    → b ≡ f * 2 ^ k
    → l < 2 ^ k
    → f < 2 ^ w
    → digits (λ d. d) max count a b ≡ (h * 2 ^ w + f) * 2 ^ k + l
digits-insert zero a b w k h f l few ea eb fits small = omega arith
digits-insert (suc count) zero b w k h f l few ea eb fits small = omega arith
digits-insert (suc count) (suc a) b zero zero h f l few ea eb fits small = omega (
  arith,
  digits-insert count (suc a / 2) (b / 2) 0 0 (suc a / 2) 0 0 (omega arith) (omega arith)
      (omega arith) (omega arith) (omega arith),
)
digits-insert (suc count) (suc a) b (suc w) zero h f l few ea eb fits small = omega (
  arith,
  double h w,
  double 1 w,
  digits-insert count (suc a / 2) (b / 2) w 0 h (f / 2) 0 (omega arith) (omega (arith, double h w))
      (omega arith) (omega arith) (omega (arith, double 1 w)),
)
digits-insert (suc count) (suc a) b w (suc k) h f l few ea eb fits small = omega (
  arith,
  double (h * 2 ^ w) k,
  double f k,
  double 1 k,
  digits-insert count (suc a / 2) (b / 2) w k h f (l / 2) (omega arith)
      (omega (arith, double (h * 2 ^ w) k)) (omega (arith, double f k)) (omega (arith, double 1 k))
      small,
)

-- A field of width `w` put at bit `k` of a word that is zero there.
pub bit_or_insert :
    (w k h f l : ℕ)
    → l < 2 ^ k
    → f < 2 ^ w
    → bit_or (h * 2 ^ w * 2 ^ k + l) (f * 2 ^ k) ≡ (h * 2 ^ w + f) * 2 ^ k + l
bit_or_insert w k h f l fits small =
    bit_or-bitwise _ _ ∙ digits-insert _ _ _ w k h f l (omega arith) refl refl fits small

below_power : (q : ℕ) → q < 2 ^ q
below_power zero = omega arith
below_power (suc q) = omega (arith, double 1 q, below_power q)

-- A field put above the low bits.
pub bit_or_above : (k q r : ℕ) → r < 2 ^ k → bit_or r (q * 2 ^ k) ≡ q * 2 ^ k + r
bit_or_above k q r fits = ground (arith, bit_or_insert q k 0 q r fits (below_power q))

-- A field put below the high bits.
pub bit_or_below : (k q r : ℕ) → r < 2 ^ k → bit_or (q * 2 ^ k) r ≡ q * 2 ^ k + r
bit_or_below k q r fits = ground (arith, bit_or_insert k 0 q r 0 (omega arith) fits)
