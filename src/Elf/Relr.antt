-- ===== src/Elf/Relr.antt =====
-- reloc_relr of src/elf_loader.c: relative relocations in the packed form of DT_RELR. The table is
-- read from memory, which the relocations write to.
pub mod Packed
pub mod Table
use byte_shatter.Base.{ℕ, zero, suc, ◌+◌, ◌*◌, ◌/◌, ◌%◌, ◌==◌, if◌then◌else◌, bit, u32, u64, sx32}
use byte_shatter.Memory.{load64}
use byte_shatter.Memory.Stores.{store64}

-- *p += (Elf64_Addr)elf->base
unfoldable pub add_base : ℕ → ℕ → (ℕ → ℕ) → ℕ → ℕ
add_base base p mem = store64 mem p (u64 (load64 mem p + base))

-- &where[i]
abbrev pub slot : ℕ → ℕ → ℕ
slot place i = u64 (place + 8 * i)

-- The inner loop: the entry is shifted until nothing is left of it. `n` rounds are left.
unfoldable pub reloc_bits : ℕ → ℕ → ℕ → ℕ → ℕ → (ℕ → ℕ) → ℕ → ℕ
unfolding add_base
reloc_bits zero base place i entry mem = mem
reloc_bits (suc n) base place i entry mem =
    let next = entry / 2 in
    let rest =
      reloc_bits n base place (i + 1) next
        (if bit next 0 then add_base base (slot place i) mem else mem) in
    if next == 0 then mem else rest

pub record Relr : Type 0 where
  pub place : ℕ
  pub mem : ℕ → ℕ

-- One entry: an address, or a bitmap of the 63 words from `place` on.
unfoldable pub reloc_entry : ℕ → ℕ → Relr → Relr
unfolding add_base reloc_bits
reloc_entry base entry s =
    if bit entry 0
    then record { place = u64 (s.place + 8 * 63); mem = reloc_bits 64 base s.place 0 entry s.mem }
    else record {
      place = u64 (u64 (base + entry) + 8);
      mem = add_base base (u64 (base + entry)) s.mem;
    }

-- The outer loop, with `n` entries left from index `i` on.
unfoldable pub reloc_entries : ℕ → ℕ → ℕ → ℕ → Relr → Relr
unfolding reloc_entry
reloc_entries base table zero i s = s
reloc_entries base table (suc n) i s =
    reloc_entries base table n (i + 1) (reloc_entry base (load64 s.mem (u64 (table + 8 * i))) s)

-- relrsz is an int, and sizeof a size_t.
abbrev pub relr_count : ℕ → ℕ
relr_count relrsz = sx32 (u32 relrsz) / 8

unfoldable pub reloc_relr : ℕ → ℕ → ℕ → (ℕ → ℕ) → ℕ → ℕ
unfolding reloc_entries
reloc_relr base table relrsz mem =
    (reloc_entries base table (relr_count relrsz) 0 (record { place = 0; mem = mem })).mem
