-- ===== src/Memory/Stores.antt =====
-- The stores of C into the guest's memory, a function from addresses to bytes: a 64-bit word in
-- little-endian order, and memcpy, memset and strcpy; and what a load reads after them.
use byte_shatter.Base.{
  ℕ, ◌+◌, ◌-◌, ◌*◌, ◌/◌, ◌%◌, ◌^◌, ◌≤◌, ◌<◌, ◌≡◌, ◌⊎◌, ◌&&◌, List, ltb, leb, if◌then◌else◌, length,
  get_or, IsU64, arith, lt→ltb,
}
use byte_shatter.Memory.{load64}

-- *(uint64_t*)p = v
unfoldable pub store64 : (ℕ → ℕ) → ℕ → ℕ → ℕ → ℕ
store64 mem p v q = if leb p q && ltb q (p + 8) then v / 2 ^ (8 * (q - p)) % 2 ^ 8 else mem q

-- memcpy(p, bytes, n), and memmove too: the bytes are read before any is written.
unfoldable pub copy_bytes : (ℕ → ℕ) → ℕ → (ℕ → ℕ) → ℕ → ℕ → ℕ
copy_bytes mem p bytes n q = if leb p q && ltb q (p + n) then bytes (q - p) else mem q

-- strcpy(p, str): the characters and the zero behind them.
unfoldable pub copy_string : (ℕ → ℕ) → ℕ → List ℕ → ℕ → ℕ
unfolding copy_bytes
copy_string mem p str = copy_bytes mem p (λ i. get_or str i 0) (length str + 1)

pub store64_at :
    (mem : ℕ → ℕ) (p v i : ℕ) → i < 8 → store64 mem p v (p + i) ≡ v / 2 ^ (8 * i) % 2 ^ 8
unfolding store64
store64_at mem p v i h =
    let e : p + i - p ≡ i = omega arith in
    rw (lt→ltb (p + i) (p + 8) (omega arith)) (rw e (ground arith))

pub store64_off : (mem : ℕ → ℕ) (p v q : ℕ) → (q < p) ⊎ (p + 8 ≤ q) → store64 mem p v q ≡ mem q
unfolding store64
store64_off mem p v q h = ground arith

-- What a 64-bit load reads, byte by byte.
load64_of :
    (mem : ℕ → ℕ) (p v : ℕ)
    → ((i : ℕ) → i < 8 → mem (p + i) ≡ v / 2 ^ (8 * i) % 2 ^ 8)
    → IsU64 v
    → load64 mem p ≡ v
load64_of mem p v at h = ground (
  arith,
  at 0 (omega arith),
  at 1 (omega arith),
  at 2 (omega arith),
  at 3 (omega arith),
  at 4 (omega arith),
  at 5 (omega arith),
  at 6 (omega arith),
  at 7 (omega arith),
)

-- A word that was stored is read back.
pub load64-store64 : (mem : ℕ → ℕ) (p v : ℕ) → IsU64 v → load64 (store64 mem p v) p ≡ v
load64-store64 mem p v h = load64_of (store64 mem p v) p v (store64_at mem p v) h

-- Two memories that hold the same eight bytes.
pub load64-eq :
    (m n : ℕ → ℕ) (p q : ℕ) → ((i : ℕ) → i < 8 → m (p + i) ≡ n (q + i)) → load64 m p ≡ load64 n q
load64-eq m n p q at = ground (
  arith,
  at 0 (omega arith),
  at 1 (omega arith),
  at 2 (omega arith),
  at 3 (omega arith),
  at 4 (omega arith),
  at 5 (omega arith),
  at 6 (omega arith),
  at 7 (omega arith),
)

-- A store elsewhere.
pub load64-store64_off :
    (mem : ℕ → ℕ) (p v q : ℕ)
    → (q + 8 ≤ p) ⊎ (p + 8 ≤ q)
    → load64 (store64 mem p v) q ≡ load64 mem q
load64-store64_off mem p v q h =
    load64-eq (store64 mem p v) mem q q λ i k. store64_off mem p v (q + i) (ground arith)

pub load64-IsU64 : (mem : ℕ → ℕ) (p : ℕ) → IsU64 (load64 mem p)
load64-IsU64 mem p = omega arith

pub copy_bytes_at :
    (mem : ℕ → ℕ) (p : ℕ) (bytes : ℕ → ℕ) (n i : ℕ)
    → i < n
    → copy_bytes mem p bytes n (p + i) ≡ bytes i
unfolding copy_bytes
copy_bytes_at mem p bytes n i h =
    let e : p + i - p ≡ i = omega arith in
    rw (lt→ltb (p + i) (p + n) (omega arith)) (rw e (ground arith))

pub copy_bytes_off :
    (mem : ℕ → ℕ) (p : ℕ) (bytes : ℕ → ℕ) (n q : ℕ)
    → (q < p) ⊎ (p + n ≤ q)
    → copy_bytes mem p bytes n q ≡ mem q
unfolding copy_bytes
copy_bytes_off mem p bytes n q h = ground arith

pub load64-copy_bytes_off :
    (mem : ℕ → ℕ) (p : ℕ) (bytes : ℕ → ℕ) (n q : ℕ)
    → (q + 8 ≤ p) ⊎ (p + n ≤ q)
    → load64 (copy_bytes mem p bytes n) q ≡ load64 mem q
load64-copy_bytes_off mem p bytes n q h =
    load64-eq (copy_bytes mem p bytes n) mem q q
      λ i k. copy_bytes_off mem p bytes n (q + i) (ground arith)
