-- ===== src/Decoder/Frame/Parts.antt =====
-- The decoder of src/decoder.c and src/decoder_0F.c moves the guest position, and nothing else.
use byte_shatter.Base.{ℕ, Bool, Post}
use byte_shatter.X86.{Operand, Instruction}
use byte_shatter.Memory.{Context}
use byte_shatter.Decoder.ModRm.{
  decode_sib, decode_base, decode_disp, decode_rm, decode_r_rm, decode_rm_r,
}
use byte_shatter.Decoder.Group.{fetch_imm, decode_grp0, decode_grp3}
use byte_shatter.Decoder.TwoByte.{
  at_set, decode_0f_plain, decode_0f_xmm, decode_0f_cond, decode_0f_wide, decode_0f_byte, decode_0f,
}
use byte_shatter.Decoder.Opcode.{
  decode_push_pop, decode_60s, decode_alu_imm, decode_80s, decode_mov_imm, decode_shift,
  decode_mov_rm_imm, decode_branch, decode_f7, decode_grp5, decode_straight, decode_opcode,
  decode_instr, Decoded,
}
use byte_shatter.Decoder.Frame.{Reads, OnlyGp, read_rules}

Reads-decode_grp3 : (code : ℕ) (buf : Instruction) → Reads (decode_grp3 code buf)
unfolding decode_grp3
Reads-decode_grp3 code buf = search read_rules depth 14

module _ (mem : ℕ → ℕ) where
  Reads-decode_sib : (n : ℕ) (op : Operand) → Reads (decode_sib mem n op)
  unfolding decode_sib
  Reads-decode_sib n op = search read_rules depth 24

  Reads-decode_base : (n1 : ℕ) (n2 : ℕ) (op : Operand) → Reads (decode_base mem n1 n2 op)
  unfolding decode_base
  Reads-decode_base n1 n2 op = search (read_rules, Reads-decode_sib) depth 24

  Reads-decode_disp : (n : ℕ) (op : Operand) → Reads (decode_disp mem n op)
  unfolding decode_disp
  Reads-decode_disp n op = search read_rules depth 24

  Reads-decode_rm : (n : ℕ) (op : Operand) → Reads (decode_rm mem n op)
  unfolding decode_rm
  Reads-decode_rm n op = search (read_rules, Reads-decode_base, Reads-decode_disp) depth 24

  Reads-decode_r_rm : (buf : Instruction) → Reads (decode_r_rm mem buf)
  unfolding decode_r_rm
  Reads-decode_r_rm buf = search (read_rules, Reads-decode_rm) depth 24

  Reads-decode_rm_r : (buf : Instruction) → Reads (decode_rm_r mem buf)
  unfolding decode_rm_r
  Reads-decode_rm_r buf = search (read_rules, Reads-decode_rm) depth 24

  Reads-fetch_imm : (b : Bool) → Reads (fetch_imm mem b)
  unfolding fetch_imm
  Reads-fetch_imm b = search read_rules depth 24

  Reads-decode_grp0 : (n : ℕ) (buf : Instruction) → Reads (decode_grp0 mem n buf)
  unfolding decode_grp0
  Reads-decode_grp0 n buf =
      search (read_rules, Reads-decode_r_rm, Reads-decode_rm_r, Reads-fetch_imm) depth 24

  Reads-at_set : (buf : Instruction) → Reads (at_set mem buf)
  unfolding at_set
  Reads-at_set buf = search (read_rules, Reads-decode_r_rm) depth 24

  Reads-decode_0f_plain : (n : ℕ) (buf : Instruction) → Reads (decode_0f_plain mem n buf)
  unfolding decode_0f_plain
  Reads-decode_0f_plain n buf = search read_rules depth 24

  Reads-decode_0f_xmm : (n : ℕ) (buf : Instruction) → Reads (decode_0f_xmm mem n buf)
  unfolding decode_0f_xmm
  Reads-decode_0f_xmm n buf = search (read_rules, Reads-decode_r_rm, Reads-decode_rm_r) depth 24

  Reads-decode_0f_cond : (n : ℕ) (buf : Instruction) → Reads (decode_0f_cond mem n buf)
  unfolding decode_0f_cond
  Reads-decode_0f_cond n buf = search (read_rules, Reads-decode_rm, Reads-decode_r_rm) depth 24

  Reads-decode_0f_wide : (n : ℕ) (buf : Instruction) → Reads (decode_0f_wide mem n buf)
  unfolding decode_0f_wide
  Reads-decode_0f_wide n buf = search (read_rules, Reads-decode_r_rm) depth 24

  Reads-decode_0f_byte : (n : ℕ) (buf : Instruction) → Reads (decode_0f_byte mem n buf)
  unfolding decode_0f_byte
  Reads-decode_0f_byte n buf =
      search
        (
          read_rules, Reads-at_set, Reads-decode_0f_plain, Reads-decode_0f_xmm,
          Reads-decode_0f_cond, Reads-decode_0f_wide,
        )
        depth 24

  Reads-decode_0f : (buf : Instruction) → Reads (decode_0f mem buf)
  unfolding decode_0f
  Reads-decode_0f buf = search (read_rules, Reads-decode_0f_byte) depth 24

  Reads-decode_push_pop : (n : ℕ) (buf : Instruction) → Reads (decode_push_pop mem n buf)
  unfolding decode_push_pop
  Reads-decode_push_pop n buf = search read_rules depth 24

  Reads-decode_60s : (n : ℕ) (buf : Instruction) → Reads (decode_60s mem n buf)
  unfolding decode_60s
  Reads-decode_60s n buf = search (read_rules, Reads-decode_r_rm, Reads-fetch_imm) depth 24

  Reads-decode_alu_imm : (n : ℕ) (buf : Instruction) → Reads (decode_alu_imm mem n buf)
  unfolding decode_alu_imm
  Reads-decode_alu_imm n buf = search (read_rules, Reads-decode_rm, Reads-fetch_imm) depth 24

  Reads-decode_80s : (n : ℕ) (buf : Instruction) → Reads (decode_80s mem n buf)
  unfolding decode_80s
  Reads-decode_80s n buf =
      search (read_rules, Reads-decode_rm, Reads-decode_r_rm, Reads-decode_rm_r, Reads-decode_grp0)
        depth 24

  Reads-decode_mov_imm :
      (n1 : ℕ) (n2 : ℕ) (buf : Instruction) → Reads (decode_mov_imm mem n1 n2 buf)
  unfolding decode_mov_imm
  Reads-decode_mov_imm n1 n2 buf = search read_rules depth 24

  Reads-decode_shift : (n : ℕ) (buf : Instruction) → Reads (decode_shift mem n buf)
  unfolding decode_shift
  Reads-decode_shift n buf = search (read_rules, Reads-decode_rm) depth 24

  Reads-decode_mov_rm_imm : (n : ℕ) (buf : Instruction) → Reads (decode_mov_rm_imm mem n buf)
  unfolding decode_mov_rm_imm
  Reads-decode_mov_rm_imm n buf = search (read_rules, Reads-decode_rm) depth 24

  Reads-decode_branch : (n : ℕ) (buf : Instruction) → Reads (decode_branch mem n buf)
  unfolding decode_branch
  Reads-decode_branch n buf = search (read_rules, Reads-fetch_imm) depth 24

  Reads-decode_f7 : (buf : Instruction) → Reads (decode_f7 mem buf)
  unfolding decode_f7
  Reads-decode_f7 buf = search (read_rules, Reads-decode_rm) depth 24

  Reads-decode_grp5 : (n : ℕ) (buf : Instruction) → Reads (decode_grp5 mem n buf)
  unfolding decode_grp5
  Reads-decode_grp5 n buf = search (read_rules, Reads-decode_grp3, Reads-decode_rm) depth 24

  Reads-decode_straight :
      (n1 : ℕ) (n2 : ℕ) (buf : Instruction) → Reads (decode_straight mem n1 n2 buf)
  unfolding decode_straight
  Reads-decode_straight n1 n2 buf =
      search
        (
          read_rules, Reads-decode_grp0, Reads-decode_0f, Reads-decode_push_pop, Reads-decode_60s,
          Reads-decode_alu_imm, Reads-decode_80s, Reads-decode_mov_imm, Reads-decode_shift,
          Reads-decode_mov_rm_imm, Reads-decode_f7,
        )
        depth 24

  Reads-decode_opcode : (n1 : ℕ) (n2 : ℕ) (buf : Instruction) → Reads (decode_opcode mem n1 n2 buf)
  unfolding decode_opcode
  Reads-decode_opcode n1 n2 buf =
      search (read_rules, Reads-decode_branch, Reads-decode_grp5, Reads-decode_straight) depth 24

  Reads-decode_instr : (buf : Instruction) → Reads (decode_instr mem buf)
  unfolding decode_instr
  Reads-decode_instr buf = search (read_rules, Reads-decode_opcode) depth 24

  -- decode_instr, if it returns, has moved the guest position of the context and left the rest of it
  -- alone, whatever the code and the buffer.
  pub decode_instr-OnlyGp :
      (buf : Instruction) (c : Context)
      → Post {A = Decoded × Context} (λ r. OnlyGp c r.1) (decode_instr mem buf c)
  decode_instr-OnlyGp buf c = (Reads-decode_instr buf).after c
