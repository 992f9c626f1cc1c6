-- ===== src/Tests.antt =====
-- The data of the tests, and the tests, by the part of the program that they run.
pub mod Caching
pub mod Decoding
pub mod Encoding
pub mod Patching
pub mod Running
pub mod Starting
pub mod Debugging
pub mod Printing
use byte_shatter.Base.{ℕ, ◌+◌, ◌^◌, ◌*◌, none, true, [], ◌∷◌}
use byte_shatter.X86.{Operand, Instruction}
use byte_shatter.Memory.{Context}
use byte_shatter.Jit.{OffsetUnit, PatchUnit, CacheUnit, Anchor, Jit}
use byte_shatter.Translate.{Shatter}
use byte_shatter.Arm.{Cpu}

abbrev pub operand : Operand
operand = record { type = 0; reg = 0; idx = 0; scale = 0; imm = 0 }

abbrev pub buffer : Instruction
buffer = record { type = 0; size = 64; prefix = 0; reverse = 0; a = operand; b = operand }

abbrev pub context : Context
context = record {
  block = none;
  offsets = 0;
  guest = 2 ^ 32;
  host = 2 ^ 33;
  gp = 0x100;
  hp = 16;
  loffp = 0;
  in_use = true;
}

abbrev pub anchor : Anchor
anchor = record {
  gp_hi = 1;
  offsets = λ i. record { hoff = i; goff = i };
  offsets_p = 0;
  offsets_c = 24576;
  blocks = λ i. record { gp_lo = i * 16; hp = i * 32; offsets = 1; offsetssz = 0; end = 32 };
  blocks_p = 0;
  blocks_c = 512;
  host = 2 ^ 33;
  host_p = 16;
  host_c = 4096;
  jumps = λ _. record { guest_off = 0; type = 0 };
  jumps_p = 0;
  jumps_c = 256;
  jumps_reuse = λ _. 0;
  jumps_reuse_p = 0;
  jumps_reuse_c = 256;
}

abbrev pub jit : Jit
jit = record {
  context = context;
  anchor = anchor;
  code = λ _. 0;
  prev_instruction = 0;
  prev_register = 0;
  prev_mov_rax_instr = none;
  prev_rax = 0;
}

abbrev pub shatter : Shatter
shatter = record { pool = context ∷ []; jit = jit }

-- Register `r` holds `r`, and memory is zero.
abbrev pub cpu : Cpu
cpu = record { x = λ r. r; sp = 0x1000; mem = λ _. 0 }
