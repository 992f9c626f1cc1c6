-- ===== src/Arm/Branch.antt =====
-- The host's branches, after the architecture's manual: their targets, in words, and the conditions
-- on the flags that a subtraction sets.
use byte_shatter.Base.{
  ℕ, ◌+◌, ◌-◌, ◌*◌, ◌/◌, ◌%◌, ◌^◌, Bool, true, false, ◌&&◌, ◌||◌, not, Option, none, some, ltb, leb,
  ◌==◌, if◌then◌else◌, u32,
}

pub data Branch : Type 0 where
  -- B.cond: the condition and the target
  conditional : ℕ → ℕ → Branch
  -- B and BL: the target
  always linked : ℕ → Branch

-- A signed offset of `k` bits, added to an index of 32 bits.
abbrev pub moved : ℕ → ℕ → ℕ → ℕ
moved k pc imm = if ltb imm (2 ^ (k - 1)) then u32 (pc + imm) else u32 (pc + imm + 2 ^ 32 - 2 ^ k)

-- What the word `w` at index `pc` branches to.
unfoldable pub branch_of : ℕ → ℕ → Option Branch
branch_of pc w =
    if w / 2 ^ 24 == 0x54 && w / 2 ^ 4 % 2 == 0
    then some (conditional (w % 16) (moved 19 pc (w / 2 ^ 5 % 2 ^ 19)))
    else if w / 2 ^ 26 == 5
    then some (always (moved 26 pc (w % 2 ^ 26)))
    else if w / 2 ^ 26 == 0x25
    then some (linked (moved 26 pc (w % 2 ^ 26)))
    else none

pub record Flags : Type 0 where
  pub n : Bool
  pub z : Bool
  pub c : Bool
  pub v : Bool

abbrev pub same : Bool → Bool → Bool
same true b = b
same false b = not b

-- The flags of SUBS on numbers below 2 * h, where 2 * h is 2 ^ 32 or 2 ^ 64.
abbrev pub difference : ℕ → ℕ → ℕ → ℕ
difference h a b = if leb b a then a - b else a + 2 * h - b

unfoldable pub subs_flags : ℕ → ℕ → ℕ → Flags
subs_flags h a b = record {
  n = leb h (difference h a b);
  z = difference h a b == 0;
  c = leb b a;
  v =
      (ltb a h && leb h b && leb h (difference h a b))
      || (leb h a && ltb b h && ltb (difference h a b) h);
}

-- The condition field of B.cond, CSEL and CSET.
unfoldable pub holds : ℕ → Flags → Bool
holds cond f =
    if cond == 0
    then f.z
    else if cond == 1
    then not f.z
    else if cond == 2
    then f.c
    else if cond == 3
    then not f.c
    else if cond == 4
    then f.n
    else if cond == 8
    then f.c && not f.z
    else if cond == 9
    then not f.c || f.z
    else if cond == 10
    then same f.n f.v
    else if cond == 11
    then not (same f.n f.v)
    else if cond == 12
    then not f.z && same f.n f.v
    else if cond == 13
    then f.z || not (same f.n f.v)
    else true
