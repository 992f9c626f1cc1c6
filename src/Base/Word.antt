-- ===== src/Base/Word.antt =====
-- The integer types of C. An unsigned value is a number below its modulus; a signed one is its bit
-- pattern in two's complement, so `int64_t` is a number below 2 ^ 64 too. A cast is a remainder, a
-- shift is a product or a quotient, and a mask of low bits is a remainder.
use Prim.Native.Nat.{ℕ, ◌+◌, ◌-◌, ◌*◌, ◌/◌, ◌%◌, ◌^◌, ◌<◌, bit_or}
use mathlib.Core.Bool.{Bool, ◌&&◌, ◌||◌}
use native.Mathlib.Omega.{arith}
use byte_shatter.Base.Tests.{ltb, leb, ◌==◌, if◌then◌else◌}

abbrev pub u8 : ℕ → ℕ
u8 n = n % 2 ^ 8

abbrev pub u16 : ℕ → ℕ
u16 n = n % 2 ^ 16

abbrev pub u32 : ℕ → ℕ
u32 n = n % 2 ^ 32

abbrev pub u64 : ℕ → ℕ
u64 n = n % 2 ^ 64

infixl 75 ◌<<<◌ ◌>>>◌
abbrev pub ◌<<<◌ : ℕ → ℕ → ℕ
x <<< k = x * 2 ^ k

abbrev pub ◌>>>◌ : ℕ → ℕ → ℕ
x >>> k = x / 2 ^ k

-- x & (2 ^ k - 1)
abbrev pub low_bits : ℕ → ℕ → ℕ
low_bits x k = x % 2 ^ k

-- Is bit `k` set: x & (1 << k).
abbrev pub bit : ℕ → ℕ → Bool
bit x k = x / 2 ^ k % 2 == 1

infixl 45 ◌|||◌
abbrev pub ◌|||◌ : ℕ → ℕ → ℕ
x ||| y = bit_or x y

-- (int64_t)(int8_t) and (int64_t)(int32_t): sign extension to 64 bits.
abbrev pub sx8 : ℕ → ℕ
sx8 b = if ltb b (2 ^ 7) then b else b + (2 ^ 64 - 2 ^ 8)

abbrev pub sx32 : ℕ → ℕ
sx32 w = if ltb w (2 ^ 31) then w else w + (2 ^ 64 - 2 ^ 32)

-- The sign of an `int64_t`, `x > 0`, and `-x`.
abbrev pub negative : ℕ → Bool
negative x = leb (2 ^ 63) x

abbrev pub positive : ℕ → Bool
positive x = ltb 0 x && ltb x (2 ^ 63)

abbrev pub neg64 : ℕ → ℕ
neg64 x = u64 (2 ^ 64 - x)

-- `~x`
abbrev pub not64 : ℕ → ℕ
not64 x = 2 ^ 64 - 1 - x

-- x >> k of an `int64_t`, which copies the sign.
abbrev pub asr64 : ℕ → ℕ → ℕ
asr64 x k = if negative x then x / 2 ^ k + (2 ^ 64 - 2 ^ (64 - k)) else x / 2 ^ k

-- -k <= x of an `int64_t`, for a positive number k.
abbrev pub at_least_minus : ℕ → ℕ → Bool
at_least_minus k x = ltb x (2 ^ 63) || leb (2 ^ 64 - k) x

-- x < k and x <= k of an `int64_t`, for a number k.
abbrev pub below_pos : ℕ → ℕ → Bool
below_pos x k = negative x || ltb x k

abbrev pub IsU8 : ℕ → Type 0
IsU8 n = n < 2 ^ 8

abbrev pub IsU32 : ℕ → Type 0
IsU32 n = n < 2 ^ 32

abbrev pub IsU64 : ℕ → Type 0
IsU64 n = n < 2 ^ 64

pub sx8-IsU64 : (b : ℕ) → IsU8 b → IsU64 (sx8 b)
sx8-IsU64 b h = ground arith

pub sx32-IsU64 : (w : ℕ) → IsU32 w → IsU64 (sx32 w)
sx32-IsU64 w h = ground arith
