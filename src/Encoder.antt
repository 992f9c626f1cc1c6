-- ===== src/Encoder.antt =====
-- src/encoder.c and src/arm64emitter.h: from one decoded instruction to AArch64 words.
pub mod Frame
pub mod Op
pub mod Emit
pub mod Address
pub mod Byte
pub mod Alu
pub mod Moves
pub mod Stack
pub mod Flow
pub mod Vector
pub mod Encode
pub mod Words
pub mod Immediate
pub mod Registers
