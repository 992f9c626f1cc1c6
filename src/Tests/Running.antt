-- ===== src/Tests/Running.antt =====
-- Whole runs: the decoder's frame, a translation, and the handler of a BRK.
use byte_shatter.Base.{◌≡◌, refl, some, Bool, true, ℕ, ◌+◌, ◌-◌, ◌^◌, [], ◌∷◌, get_or, arith, Post}
use byte_shatter.Memory.{Context}
use byte_shatter.Jit.{Jit}
use byte_shatter.Decoder.Opcode.{Decoded, decode_instr}
use byte_shatter.Decoder.Frame.{OnlyGp}
use byte_shatter.Decoder.Frame.Parts.{decode_instr-OnlyGp}
use byte_shatter.Decoder.Operands.{IsReadable}
use byte_shatter.Decoder.Operands.Whole.{decode_instr-IsReadable}
use byte_shatter.Cache.Blocks.Sound.{IsTidy, IsOpen}
use byte_shatter.Cache.Search.{cache_search, block_loop}
use byte_shatter.Translate.{Shatter, translate, guest_address, join_cached}
use byte_shatter.Translate.Joining.{Joined, join_cached-Joined}
use byte_shatter.Translate.Sound.{translate-IsOpen}
use byte_shatter.Patcher.Sound.{IsCache}
use byte_shatter.Tests.{buffer, context, jit, shatter}
use byte_shatter.Tests.Caching.{filled, filled-IsSorted}

-- push rax; ret
abbrev pub guest_code : ℕ → ℕ
guest_code p = get_or (0x50 ∷ 0xC3 ∷ []) (p - (2 ^ 32 + 0x100)) 0

decode_instr-OnlyGp_example :
    Post {A = Decoded × Context} (λ r. OnlyGp context r.1) (decode_instr guest_code buffer context)
decode_instr-OnlyGp_example = decode_instr-OnlyGp guest_code buffer context

decode_instr-IsReadable_example :
    Post {A = Decoded × Context} (λ r. IsReadable 16 r.0.0) (decode_instr guest_code buffer context)
decode_instr-IsReadable_example = decode_instr-IsReadable guest_code buffer context

jit-IsTidy : IsTidy jit
jit-IsTidy = record {
  sorted = record { ordered = λ i j le lt. absurd (omega arith) };
  points_room = omega arith;
}

translate-IsOpen_example :
    Post {A = Unit {0} × Jit} (λ r. IsOpen r.1) (translate guest_code (λ _. buffer) 8 jit)
translate-IsOpen_example = translate-IsOpen guest_code (λ _. buffer) 8 jit jit-IsTidy

-- A jump waits in slot 2, and its BRK stands at word 40.
abbrev pub waiting : Shatter
waiting = record shatter { jit = record jit { anchor = filled; code = λ _. 0xD4200060 } }

pub filled-IsCache : IsCache filled
filled-IsCache = record { sorted = filled-IsSorted; points_room = omega arith }

-- The next guest instruction is the first of the second block.
abbrev joining : Jit
joining = record jit { anchor = filled; context = record context { gp = 16; hp = 100 } }

second_block : cache_search filled (guest_address joining) ≡ some 32
unfolding cache_search block_loop
second_block = refl

join_cached-Joined_example :
    Post {A = Bool × Jit} (λ r. (r.0 ≡ true) × Joined joining 32 r.1) (join_cached joining)
join_cached-Joined_example =
    join_cached-Joined joining 32 second_block
      record { index = omega arith; from = omega arith; ahead = omega arith; behind = omega arith }
