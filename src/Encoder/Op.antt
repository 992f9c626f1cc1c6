-- ===== src/Encoder/Op.antt =====
-- The opcodes of src/arm64emitter.h, under the names that they have there.
use Prim.Native.Nat.{ℕ, ◌^◌}

abbrev pub sf : ℕ
sf = 2 ^ 31

abbrev pub s : ℕ
s = 2 ^ 29

abbrev pub add_imm : ℕ
add_imm = 0x11000000

abbrev pub add_reg : ℕ
add_reg = 0x0B000000

abbrev pub sub_imm : ℕ
sub_imm = 0x51000000

abbrev pub sub_reg : ℕ
sub_reg = 0x4B000000

abbrev pub eor_reg : ℕ
eor_reg = 0x4A000000

abbrev pub and_reg : ℕ
and_reg = 0x0A000000

abbrev pub ands_reg : ℕ
ands_reg = 0x6A000000

abbrev pub orr_reg : ℕ
orr_reg = 0xaa000000

abbrev pub smul_reg : ℕ
smul_reg = 0x9b207c00

abbrev pub movz_imm : ℕ
movz_imm = 0x52800000

abbrev pub movk_imm : ℕ
movk_imm = 0xF2800000

abbrev pub br_imm : ℕ
br_imm = 0x14000000

abbrev pub br_reg : ℕ
br_reg = 0xD61F0000

abbrev pub blr_imm : ℕ
blr_imm = 0x94000000

abbrev pub blr_reg : ℕ
blr_reg = 0xD63F0000

abbrev pub blt_imm : ℕ
blt_imm = 0x5400000B

abbrev pub sxtw_reg : ℕ
sxtw_reg = 0x93407C00

abbrev pub ldrb_reg : ℕ
ldrb_reg = 0x39400000

abbrev pub ldrsb_reg : ℕ
ldrsb_reg = 0x39800000

abbrev pub ldrh_reg : ℕ
ldrh_reg = 0x79400000

abbrev pub ldrsh_reg : ℕ
ldrsh_reg = 0x79800000

abbrev pub ldr32_reg : ℕ
ldr32_reg = 0xB9400000

abbrev pub ldr64_reg : ℕ
ldr64_reg = 0xF9400000

abbrev pub strb_reg : ℕ
strb_reg = 0x39000000

abbrev pub strh_reg : ℕ
strh_reg = 0x79000000

abbrev pub str32_reg : ℕ
str32_reg = 0xB9000000

abbrev pub str64_reg : ℕ
str64_reg = 0xF9000000

abbrev pub stur : ℕ
stur = 0xB8000000

abbrev pub ldur : ℕ
ldur = 0xB8400000

abbrev pub get_fs : ℕ
get_fs = 0xD53BD040

abbrev pub asr_reg : ℕ
asr_reg = 0x1ac02800

abbrev pub asr_imm : ℕ
asr_imm = 0x93400000

abbrev pub lsl_reg : ℕ
lsl_reg = 0x1ac12000

abbrev pub lsl_imm : ℕ
lsl_imm = 0xD370F800

abbrev pub cselhi : ℕ
cselhi = 0x1A808000

abbrev pub cselmi : ℕ
cselmi = 0x1A804000

abbrev pub csetne : ℕ
csetne = 0x1a9f07e0

abbrev pub csetlo : ℕ
csetlo = 0x1a9f27e0

abbrev pub cseteq : ℕ
cseteq = 0x1a9f17e0

abbrev pub cseths : ℕ
cseths = 0x1a9f37e0

abbrev pub ft : ℕ
ft = 2 ^ 22

abbrev pub mft : ℕ
mft = 2 ^ 30

abbrev pub mul_neon : ℕ
mul_neon = 0x1E200800

abbrev pub div_neon : ℕ
div_neon = 0x1E201800

abbrev pub add_neon : ℕ
add_neon = 0x1E202800

abbrev pub sub_neon : ℕ
sub_neon = 0x1E203800

abbrev pub cmp_neon : ℕ
cmp_neon = 0x1E202000

abbrev pub ldr_neon : ℕ
ldr_neon = 0xBD400000

abbrev pub str_neon : ℕ
str_neon = 0xBD000000

abbrev pub eor_neon : ℕ
eor_neon = 0x6E201C00

abbrev pub fcvtu_neon : ℕ
fcvtu_neon = 0x1E22C000

abbrev pub fcvt_neon : ℕ
fcvt_neon = 0x1e624000

abbrev pub fcvtzs_neon : ℕ
fcvtzs_neon = 0x1e780000

abbrev pub scvtd_neon : ℕ
scvtd_neon = 0x9E620000

abbrev pub scvtf_neon : ℕ
scvtf_neon = 0x1E220000

abbrev pub fmov_neon : ℕ
fmov_neon = 0x9E660000

abbrev pub fmovr_neon : ℕ
fmovr_neon = 0x9E670000

abbrev pub mov_neon : ℕ
mov_neon = 0x4EA01C00

abbrev pub stp : ℕ
stp = 0xa9000000

abbrev pub ldp : ℕ
ldp = 0xa9400000

abbrev pub pushp : ℕ
pushp = 0xa9bf03e0

abbrev pub popp : ℕ
popp = 0xa8c103e0

abbrev pub pushr : ℕ
pushr = 0xf81f8fe0

abbrev pub popr : ℕ
popr = 0xf84087e0
