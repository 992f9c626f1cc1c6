-- ===== src/Encoder/Frame/Parts.antt =====
-- The parts of src/encoder.c that the instructions share, each in its frame.
use byte_shatter.Base.{ℕ, Bool}
use byte_shatter.X86.{Operand}
use byte_shatter.Encoder.Emit.{
  emit_add_signed, emit_sub_signed, emit_imm, emit_add_imm, emit_lsl_imm, emit_lsr_imm,
  emit_asr_imm, emit_brk, emit_ret,
}
use byte_shatter.Encoder.Address.{
  emit_rip_address, emit_idx_address, emit_address_decode, emit_load, emit_store,
}
use byte_shatter.Encoder.Frame.{Frames, frame_rules}

pub Frames-emit_add_signed : (n1 : ℕ) (n2 : ℕ) (n3 : ℕ) → Frames (emit_add_signed n1 n2 n3)
unfolding emit_add_signed
Frames-emit_add_signed n1 n2 n3 = search frame_rules depth 14

pub Frames-emit_sub_signed : (n1 : ℕ) (n2 : ℕ) (n3 : ℕ) → Frames (emit_sub_signed n1 n2 n3)
unfolding emit_sub_signed
Frames-emit_sub_signed n1 n2 n3 = search frame_rules depth 14

pub Frames-emit_imm : (n1 : ℕ) (n2 : ℕ) → Frames (emit_imm n1 n2)
unfolding emit_imm
Frames-emit_imm n1 n2 = search frame_rules depth 14

pub Frames-emit_add_imm : (n1 : ℕ) (n2 : ℕ) (n3 : ℕ) → Frames (emit_add_imm n1 n2 n3)
unfolding emit_add_imm
Frames-emit_add_imm n1 n2 n3 = search frame_rules depth 14

pub Frames-emit_lsl_imm : (n1 : ℕ) (n2 : ℕ) (n3 : ℕ) → Frames (emit_lsl_imm n1 n2 n3)
unfolding emit_lsl_imm
Frames-emit_lsl_imm n1 n2 n3 = search frame_rules depth 14

pub Frames-emit_lsr_imm : (n1 : ℕ) (n2 : ℕ) (n3 : ℕ) → Frames (emit_lsr_imm n1 n2 n3)
unfolding emit_lsr_imm
Frames-emit_lsr_imm n1 n2 n3 = search frame_rules depth 14

pub Frames-emit_asr_imm : (n1 : ℕ) (n2 : ℕ) (n3 : ℕ) → Frames (emit_asr_imm n1 n2 n3)
unfolding emit_asr_imm
Frames-emit_asr_imm n1 n2 n3 = search frame_rules depth 14

pub Frames-emit_brk : (n : ℕ) → Frames (emit_brk n)
unfolding emit_brk
Frames-emit_brk n = search frame_rules depth 14

pub Frames-emit_ret : Frames emit_ret
unfolding emit_ret
Frames-emit_ret = search frame_rules depth 14

pub Frames-emit_rip_address : (n1 : ℕ) (n2 : ℕ) → Frames (emit_rip_address n1 n2)
unfolding emit_rip_address
Frames-emit_rip_address n1 n2 = search frame_rules depth 14

pub Frames-emit_idx_address : (op : Operand) (n : ℕ) → Frames (emit_idx_address op n)
unfolding emit_idx_address
Frames-emit_idx_address op n = search (frame_rules, Frames-emit_add_signed) depth 14

pub Frames-emit_address_decode :
    (op : Operand) (n1 : ℕ) (n2 : ℕ) → Frames (emit_address_decode op n1 n2)
unfolding emit_address_decode
Frames-emit_address_decode op n1 n2 =
    search (frame_rules, Frames-emit_add_signed, Frames-emit_rip_address, Frames-emit_idx_address)
      depth 14

pub Frames-emit_load : (n1 : ℕ) (op : Operand) (n2 : ℕ) (n3 : ℕ) → Frames (emit_load n1 op n2 n3)
unfolding emit_load
Frames-emit_load n1 op n2 n3 = search (frame_rules, Frames-emit_address_decode) depth 14

pub Frames-emit_store :
    (n1 : ℕ) (op : Operand) (n2 : ℕ) (n3 : ℕ) (b : Bool) → Frames (emit_store n1 op n2 n3 b)
unfolding emit_store
Frames-emit_store n1 op n2 n3 b = search (frame_rules, Frames-emit_address_decode) depth 14

pub ruleset part_rules = (
  frame_rules, Frames-emit_add_signed, Frames-emit_sub_signed, Frames-emit_imm, Frames-emit_add_imm,
  Frames-emit_lsl_imm, Frames-emit_lsr_imm, Frames-emit_asr_imm, Frames-emit_brk, Frames-emit_ret,
  Frames-emit_rip_address, Frames-emit_idx_address, Frames-emit_address_decode, Frames-emit_load,
  Frames-emit_store,
)
