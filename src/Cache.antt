-- ===== src/Cache.antt =====
-- src/cache.c: the index of translated code, from guest to host positions, and the jumps that wait
-- to be patched.
pub mod Blocks
pub mod Jumps
pub mod Search
pub mod Print
