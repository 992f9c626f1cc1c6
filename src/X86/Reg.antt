-- ===== src/X86/Reg.antt =====
-- `enum Registers` of src/decoder.h: the x86-64 registers, and the technical ones of the encoder.
use Prim.Native.Nat.{ℕ}

abbrev pub rax : ℕ
rax = 0

abbrev pub rcx : ℕ
rcx = 1

abbrev pub rdx : ℕ
rdx = 2

abbrev pub rbx : ℕ
rbx = 3

abbrev pub rsp : ℕ
rsp = 4

abbrev pub rbp : ℕ
rbp = 5

abbrev pub rsi : ℕ
rsi = 6

abbrev pub rdi : ℕ
rdi = 7

abbrev pub r8 : ℕ
r8 = 8

abbrev pub r9 : ℕ
r9 = 9

abbrev pub r10 : ℕ
r10 = 10

abbrev pub r11 : ℕ
r11 = 11

abbrev pub r12 : ℕ
r12 = 12

abbrev pub r13 : ℕ
r13 = 13

abbrev pub r14 : ℕ
r14 = 14

abbrev pub r15 : ℕ
r15 = 15

abbrev pub sc1 : ℕ
sc1 = 16

abbrev pub sc2 : ℕ
sc2 = 17

abbrev pub x30 : ℕ
x30 = 18

abbrev pub ar7 : ℕ
ar7 = 19

abbrev pub ar8 : ℕ
ar8 = 20

abbrev pub xzr : ℕ
xzr = 21
