-- ===== src/X86/Instr.antt =====
-- `enum InstrTypes` of src/decoder.h. The decoder computes with these numbers (`ADD + ...`, `JO + ...`),
-- so they are numbers here too.
use Prim.Native.Nat.{ℕ}

abbrev pub add : ℕ
add = 0

abbrev pub or : ℕ
or = 1

abbrev pub adc : ℕ
adc = 2

abbrev pub sbb : ℕ
sbb = 3

abbrev pub and : ℕ
and = 4

abbrev pub sub : ℕ
sub = 5

abbrev pub xor : ℕ
xor = 6

abbrev pub cmp : ℕ
cmp = 7

abbrev pub rol : ℕ
rol = 8

abbrev pub ror : ℕ
ror = 9

abbrev pub rcl : ℕ
rcl = 10

abbrev pub rcr : ℕ
rcr = 11

abbrev pub shl : ℕ
shl = 12

abbrev pub shr : ℕ
shr = 13

abbrev pub sal : ℕ
sal = 14

abbrev pub sar : ℕ
sar = 15

abbrev pub push : ℕ
push = 16

abbrev pub pop : ℕ
pop = 17

abbrev pub movsx : ℕ
movsx = 18

abbrev pub mov : ℕ
mov = 19

abbrev pub jo : ℕ
jo = 20

abbrev pub jno : ℕ
jno = 21

abbrev pub jb : ℕ
jb = 22

abbrev pub jae : ℕ
jae = 23

abbrev pub je : ℕ
je = 24

abbrev pub jne : ℕ
jne = 25

abbrev pub jbe : ℕ
jbe = 26

abbrev pub ja : ℕ
ja = 27

abbrev pub js : ℕ
js = 28

abbrev pub jns : ℕ
jns = 29

abbrev pub jp : ℕ
jp = 30

abbrev pub jpo : ℕ
jpo = 31

abbrev pub jl : ℕ
jl = 32

abbrev pub jge : ℕ
jge = 33

abbrev pub jle : ℕ
jle = 34

abbrev pub jg : ℕ
jg = 35

abbrev pub cmovo : ℕ
cmovo = 36

abbrev pub cmovno : ℕ
cmovno = 37

abbrev pub cmovb : ℕ
cmovb = 38

abbrev pub cmovae : ℕ
cmovae = 39

abbrev pub cmove : ℕ
cmove = 40

abbrev pub cmovne : ℕ
cmovne = 41

abbrev pub cmovbe : ℕ
cmovbe = 42

abbrev pub cmova : ℕ
cmova = 43

abbrev pub cmovs : ℕ
cmovs = 44

abbrev pub cmovns : ℕ
cmovns = 45

abbrev pub cmovp : ℕ
cmovp = 46

abbrev pub cmovpo : ℕ
cmovpo = 47

abbrev pub cmovl : ℕ
cmovl = 48

abbrev pub cmovge : ℕ
cmovge = 49

abbrev pub cmovle : ℕ
cmovle = 50

abbrev pub cmovg : ℕ
cmovg = 51

abbrev pub seto : ℕ
seto = 52

abbrev pub setno : ℕ
setno = 53

abbrev pub setb : ℕ
setb = 54

abbrev pub setae : ℕ
setae = 55

abbrev pub sete : ℕ
sete = 56

abbrev pub setne : ℕ
setne = 57

abbrev pub setbe : ℕ
setbe = 58

abbrev pub seta : ℕ
seta = 59

abbrev pub sets : ℕ
sets = 60

abbrev pub setns : ℕ
setns = 61

abbrev pub setp : ℕ
setp = 62

abbrev pub setpo : ℕ
setpo = 63

abbrev pub setl : ℕ
setl = 64

abbrev pub setge : ℕ
setge = 65

abbrev pub setle : ℕ
setle = 66

abbrev pub setg : ℕ
setg = 67

abbrev pub test : ℕ
test = 68

abbrev pub lea : ℕ
lea = 69

abbrev pub nop : ℕ
nop = 70

abbrev pub ebr : ℕ
ebr = 71

abbrev pub ret : ℕ
ret = 72

abbrev pub leave : ℕ
leave = 73

abbrev pub call : ℕ
call = 74

abbrev pub jmp : ℕ
jmp = 75

abbrev pub pxor : ℕ
pxor = 76

abbrev pub adds : ℕ
adds = 77

abbrev pub muls : ℕ
muls = 78

abbrev pub cvtss2sd : ℕ
cvtss2sd = 79

abbrev pub cvtsd2ss : ℕ
cvtsd2ss = 80

abbrev pub subs : ℕ
subs = 81

abbrev pub divs : ℕ
divs = 82

abbrev pub comis : ℕ
comis = 83

abbrev pub movs : ℕ
movs = 84

abbrev pub movq : ℕ
movq = 85

abbrev pub movapd : ℕ
movapd = 86

abbrev pub cvtsd2si : ℕ
cvtsd2si = 87

abbrev pub cvtsi2s : ℕ
cvtsi2s = 88

abbrev pub idiv : ℕ
idiv = 89

abbrev pub imul : ℕ
imul = 90

abbrev pub cltq : ℕ
cltq = 91

abbrev pub cltd : ℕ
cltd = 92

abbrev pub syscall : ℕ
syscall = 93

abbrev pub movsbl : ℕ
movsbl = 94

abbrev pub movzbl : ℕ
movzbl = 95

abbrev pub movswl : ℕ
movswl = 96

abbrev pub movzwl : ℕ
movzwl = 97
