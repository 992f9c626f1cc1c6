-- ===== src/Base/Masks.antt =====
-- `&` with a mask that is built from its highest bit down, and the bits of `|`.
use Prim.Native.Nat.{
  ℕ, zero, suc, ◌+◌, ◌*◌, ◌/◌, ◌%◌, ◌^◌, ◌<◌, ◌≤◌, min, digits, bit_and, bit_and-bitwise, bit_or,
  bit_or-bitwise, max,
}
use mathlib.Core.Path.{◌≡◌, sym, ap, ◌∙◌}
use native.Mathlib.Nat.{pow-suc, div-div-eq-div-mul, div-one, zero-div}
use native.Mathlib.Omega.{arith}

-- The digit recursion behind `bit_and`.
abbrev meet : ℕ → ℕ → ℕ → ℕ
meet count a b = digits (λ _. 0) min count a b

-- A place one higher, for a number and for its half.
twice : (q k : ℕ) → q * 2 ^ suc k ≡ q * 2 ^ k * 2
twice q k = omega (arith, ap (λ (t : ℕ). q * t) (pow-suc 2 k))

halved : (a k : ℕ) → a / 2 ^ suc k ≡ a / 2 / 2 ^ k
halved a k =
    ap (λ (t : ℕ). a / t) (omega (arith, pow-suc 2 k)) ∙ sym (div-div-eq-div-mul a 2 (2 ^ k))

meet_le : (count a b : ℕ) → meet count a b ≤ b
meet_le zero a b = omega arith
meet_le (suc count) zero b = omega arith
meet_le (suc count) (suc a) b = ground (arith, meet_le count (suc a / 2) (b / 2))

half_above : (k m : ℕ) → (2 ^ suc k + m) / 2 ≡ 2 ^ k + m / 2
half_above k m = omega (arith, twice 1 k)

meet-above :
    (count a k m : ℕ)
    → a ≤ count
    → m < 2 ^ k
    → meet count a (2 ^ k + m) ≡ a / 2 ^ k % 2 * 2 ^ k + meet count a m
meet-above zero (suc a) k m few fits = omega arith
meet-above zero zero k m few fits = rw (zero-div (2 ^ k)) (omega arith)
meet-above (suc count) zero k m few fits = rw (zero-div (2 ^ k)) (omega arith)
meet-above (suc count) (suc a) zero (suc m) few fits = omega arith
meet-above (suc count) (suc a) zero zero few fits =
    omega (arith, meet_le count (suc a / 2) 0, div-one (suc a))
meet-above (suc count) (suc a) (suc k) m few fits = omega (
  arith,
  meet-above count (suc a / 2) k (m / 2) (omega arith) (omega (arith, twice 1 k)),
  twice (suc a / 2 / 2 ^ k % 2) k,
  twice 1 k,
  ap (λ (t : ℕ). t % 2 * 2 ^ suc k) (halved (suc a) k),
  ap (λ (t : ℕ). meet count (suc a / 2) t) (half_above k m),
)

pub bit_and-above :
    (k a m : ℕ) → m < 2 ^ k → bit_and a (2 ^ k + m) ≡ a / 2 ^ k % 2 * 2 ^ k + bit_and a m
bit_and-above k a m fits = omega (
  arith,
  bit_and-bitwise a (2 ^ k + m),
  bit_and-bitwise a m,
  meet-above a a k m (omega arith) fits,
)

pub bit_and_le : (a b : ℕ) → bit_and a b ≤ b
bit_and_le a b = ground (arith, bit_and-bitwise a b, meet_le a a b)

-- The digit recursion behind `bit_or`.
abbrev join : ℕ → ℕ → ℕ → ℕ
join count a b = digits (λ d. d) max count a b

join-half : (count a b : ℕ) → join (suc count) (suc a) b / 2 ≡ join count (suc a / 2) (b / 2)
join-half count a b = omega arith

join-bit :
    (count a b k : ℕ) → a ≤ count → join count a b / 2 ^ k % 2 ≡ max (a / 2 ^ k % 2) (b / 2 ^ k % 2)
join-bit zero (suc a) b k few = omega arith
join-bit zero zero b k few = rw (zero-div (2 ^ k)) (omega arith)
join-bit (suc count) zero b k few = rw (zero-div (2 ^ k)) (omega arith)
join-bit (suc count) (suc a) b zero few =
    omega (arith, div-one b, div-one (suc a), div-one (join (suc count) (suc a) b))
join-bit (suc count) (suc a) b (suc k) few = omega (
  arith,
  join-bit count (suc a / 2) (b / 2) k (omega arith),
  halved (suc a) k,
  halved b k,
  halved (join (suc count) (suc a) b) k,
  ap (λ (t : ℕ). t / 2 ^ k) (join-half count a b),
)

pub bit_or-bit : (a b k : ℕ) → bit_or a b / 2 ^ k % 2 ≡ max (a / 2 ^ k % 2) (b / 2 ^ k % 2)
bit_or-bit a b k =
    ap (λ (t : ℕ). t / 2 ^ k % 2) (bit_or-bitwise a b) ∙ join-bit a a b k (omega arith)
