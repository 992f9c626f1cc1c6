-- ===== src/Lib.antt =====
-- Verification library of ByteShatter, a dynamic recompiler: it translates x86-64 machine code, block
-- by block, to AArch64 machine code that runs in the same process.
--
-- How the parts interact. A translation (`decode`, src/decoder.c) pulls a context from the pool
-- (src/memory.c), opens a block in the cache (src/cache.c), and then, instruction by instruction, decodes
-- guest bytes (`decode_instr`) and emits host words (`encode`, src/encoder.c). A jump whose target is not
-- translated is emitted as a BRK with the number of a slot in the cache's pool of jumps; when it is
-- reached, the signal handler (src/patcher.c) translates the target and replaces the BRK by a branch.
--
-- Which file models which part:
--   Base         C's comparisons, fixed-width integers and arrays; results and the state monad
--   X86          src/decoder.h: operands, instructions, and the enumerations as numbers
--   Memory       src/memory.h: the context and the fetches from guest memory
--   Decoder      src/decoder.c (ModRm, Group, Opcode) and src/decoder_0F.c (TwoByte)
--   Jit          the whole state: context, anchor (src/cache.h), host buffer, and the static variables
--                of src/encoder.c; emit32 and patch of src/memory.h
--   Cache        src/cache.c: Blocks, Jumps (the slots of pending jumps), Search, and Print (cache_print)
--   Encoder      src/arm64emitter.h (Op, Emit) and src/encoder.c: Address (operands in memory), Byte
--                (encode8bit), Alu, Moves, Stack, Flow, Vector, and Encode (the switch)
--   Contexts     src/memory.c: the pool of contexts
--   Translate    decode of src/decoder.c, up to the debugger
--   Patcher      src/patcher.c: brk_handler, Faults (the other handlers), and Registers (get_reg)
--   GuestStack   src/stack.c: the guest's stack
--   Elf          src/elf_loader.c: Segments (mmap_base, elf_load), Relr and Rela (the relocations), Dynamic
--                (elf_read_dynamic, elf_init)
--   Libraries    src/elf_manager.c: the wrapper libraries, and Got (patch_library; Slots and Redirected say
--                what it does); sym_override of src/overrides.c
--   Log, Main    src/core.c and src/main.c
--   Debugger     src/debugger.c: State (all that the handlers and the debugger change, break points, and
--                decode of src/decoder.c with its look for one), Printing (the print command), and the commands
--   Printer      src/printer_x86.c and src/printer_arm.c: an instruction as the pieces that sprintf appends
--   Arm          no code of the repository: the AArch64 instructions, written after the architecture's
--                manual, by which the statements about emitted words are read
--                Under these, the modules named for what they prove: Frame (what a part leaves alone), Sound
--                and Order (invariants), Answers, Numbers and Pool (the cache's tables), Encoding and
--                Instructions (the architecture's encodings), Immediate, Address/Effective, Stack/Fusion,
--                Patcher/Branches and Translate/Joining (what the emitted words do)
--   Tests        test data, and each theorem with a hypothesis applied to concrete arguments
--
-- Conventions. A number is a natural number below 2 ^ w, a negative one is its two's complement, and
-- wrap-around is written out. A pointer into the host buffer or an array of the anchor is an index, and
-- NULL is `none`. `panic` ends the process, so it is an error result. The log lines are left out, and so
-- is the flush of the instruction cache. Guest memory is a function from addresses to bytes, which the
-- translation only reads. The contents of memory that C leaves uninitialised (the Instruction of each
-- round, the arrays of malloc) are parameters. One translation runs at a time.
--
-- Fuel. The binary searches get the width of their range, which every round narrows. The loop of decode
-- runs until an instruction ends the block, and its fuel is an argument, with an error of its own.
--
-- The program start. main maps the guest's stack and puts the environment on it (src/stack.c), reads the
-- command line, loads the ELF file (src/elf_loader.c) into one mapping with the buffer of the host's code
-- behind it, opens the wrapper libraries that it names (src/elf_manager.c), applies its relocations, runs its
-- constructors, and completes the stack. The file, mmap, the host's loader (dlopen, dlsym, the objects
-- that it has loaded) and guest code that runs are parameters. There, memory is written, and stores are
-- those of Memory.Stores; a string is the list of its characters. A dynamic section ends at DT_NULL, and the
-- number of entries up to which it is read is a parameter, with an error of its own.
--
-- The debugger. A print of memory that cannot be read calls segv_handler inside of debug_wait, which gets a
-- context of its own, and that one replaces the context of the program; if the signal is blocked, the
-- process is killed. Which memory can be read and whether the signal is blocked are parameters. A context
-- of the pool that is held is passed on by value, and stored when it is freed.
--
-- Not modelled: the text of help and the numbers of print usage in the debugger, cache_usage, the assembly
-- of src/main.c, src/overrides.c and src/patcher.c, and custom/, whose functions are assembly that calls
-- the host's library.
pub mod Base
pub mod X86
pub mod Memory
pub mod Decoder
pub mod Jit
pub mod Cache
pub mod GuestStack
pub mod Elf
pub mod Libraries
pub mod Log
pub mod Main
pub mod Debugger
pub mod Printer
pub mod Encoder
pub mod Contexts
pub mod Translate
pub mod Patcher
pub mod Arm
pub mod Tests
