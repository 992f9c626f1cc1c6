-- ===== src/Decoder.antt =====
-- src/decoder.c and src/decoder_0F.c: from x86-64 code to one `Instruction`. The caller's buffer
-- is not initialised in C, so each function takes the buffer with whatever it holds, and returns
-- the new one; a pointer to the context is the state of `M Context`.
pub mod Frame
pub mod Operands
pub mod ModRm
pub mod Group
pub mod TwoByte
pub mod Opcode
