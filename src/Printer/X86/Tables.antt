-- ===== src/Printer/X86/Tables.antt =====
-- The tables of src/printer_x86.c.
use Prim.Native.String.{String}
use byte_shatter.Base.{List, [], ◌∷◌}

abbrev pub instr_types : List String
instr_types =
    "add" ∷ "or" ∷ "adc" ∷ "sbb" ∷ "and" ∷ "sub" ∷ "xor" ∷ "cmp" ∷ "rol" ∷ "ror" ∷ "rcl" ∷ "rcr"
    ∷ "shl" ∷ "shr" ∷ "sal" ∷ "sar" ∷ "push" ∷ "pop" ∷ "movsx" ∷ "mov" ∷ "jo" ∷ "jno" ∷ "jb" ∷ "jae"
    ∷ "je" ∷ "jne" ∷ "jbe" ∷ "ja" ∷ "js" ∷ "jns" ∷ "jp" ∷ "jpo" ∷ "jl" ∷ "jge" ∷ "jle" ∷ "jg"
    ∷ "cmovo" ∷ "cmovno" ∷ "cmovb" ∷ "cmovae" ∷ "cmove" ∷ "cmovne" ∷ "cmovbe" ∷ "cmova" ∷ "cmovs"
    ∷ "cmovns" ∷ "cmovp" ∷ "cmovpo" ∷ "cmovl" ∷ "cmovge" ∷ "cmovle" ∷ "cmovg" ∷ "seto" ∷ "setno"
    ∷ "setb" ∷ "setae" ∷ "sete" ∷ "setne" ∷ "setbe" ∷ "seta" ∷ "sets" ∷ "setns" ∷ "setp" ∷ "setpo"
    ∷ "setl" ∷ "setge" ∷ "setle" ∷ "setg" ∷ "test" ∷ "lea" ∷ "nop" ∷ "ebr64" ∷ "ret" ∷ "leave"
    ∷ "call" ∷ "jmp" ∷ "pxor" ∷ "adds" ∷ "muls" ∷ "cvtss2sd" ∷ "cvtsd2ss" ∷ "subs" ∷ "divs"
    ∷ "comis" ∷ "movs" ∷ "movq" ∷ "movapd" ∷ "cvtsd2si" ∷ "cvtsi2s" ∷ "idiv" ∷ "imul" ∷ "cltq"
    ∷ "cltd" ∷ "syscall" ∷ "movsbl" ∷ "movzbl" ∷ "movswl" ∷ "movzwl" ∷ []

abbrev pub regs64 : List String
regs64 =
    "rax" ∷ "rcx" ∷ "rdx" ∷ "rbx" ∷ "rsp" ∷ "rbp" ∷ "rsi" ∷ "rdi" ∷ "r8" ∷ "r9" ∷ "r10" ∷ "r11"
    ∷ "r12" ∷ "r13" ∷ "r14" ∷ "r15" ∷ []

abbrev pub regs32 : List String
regs32 =
    "eax" ∷ "ecx" ∷ "edx" ∷ "ebx" ∷ "esp" ∷ "ebp" ∷ "esi" ∷ "edi" ∷ "r8d" ∷ "r9d" ∷ "r10d" ∷ "r11d"
    ∷ "r12d" ∷ "r13d" ∷ "r14d" ∷ "r15d" ∷ []

abbrev pub regs16 : List String
regs16 =
    "ax" ∷ "cx" ∷ "dx" ∷ "bx" ∷ "sp" ∷ "bp" ∷ "si" ∷ "di" ∷ "r8w" ∷ "r9w" ∷ "r10w" ∷ "r11w" ∷ "r12w"
    ∷ "r13w" ∷ "r14w" ∷ "r15w" ∷ []

abbrev pub regs8 : List String
regs8 =
    "al" ∷ "cl" ∷ "dl" ∷ "bl" ∷ "ah" ∷ "ch" ∷ "dh" ∷ "bh" ∷ "r8b" ∷ "r9b" ∷ "r10b" ∷ "r11b" ∷ "r12b"
    ∷ "r13b" ∷ "r14b" ∷ "r15b" ∷ []

abbrev pub scale : List String
scale = "" ∷ "* 2 " ∷ "* 4 " ∷ "* 8 " ∷ []
