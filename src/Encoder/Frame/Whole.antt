-- ===== src/Encoder/Frame/Whole.antt =====
-- The switch of `encode` in src/encoder.c, in its frame.
use byte_shatter.Base.{ℕ, Post, M}
use byte_shatter.X86.{Instruction}
use byte_shatter.Jit.{Jit}
use byte_shatter.Encoder.Byte.{encode8bit}
use byte_shatter.Encoder.Encode.{encode_integer, encode_other, encode}
use byte_shatter.Encoder.Frame.{Frames, Framed, frame_rules}
use byte_shatter.Encoder.Frame.Arithmetic.{arithmetic_rules}
use byte_shatter.Encoder.Frame.Others.{other_rules, Frames-forget}

Frames-encode8bit : (buf : Instruction) → Frames (encode8bit buf)
unfolding encode8bit
Frames-encode8bit buf = search arithmetic_rules depth 30

Frames-encode_integer :
    (sf : ℕ) (buf : Instruction) (rest : M Jit (Unit {0}))
    → Frames rest
    → Frames (encode_integer sf buf rest)
unfolding encode_integer
Frames-encode_integer sf buf rest h = search (arithmetic_rules, other_rules) depth 60

Frames-encode_other : (sf : ℕ) (buf : Instruction) → Frames (encode_other sf buf)
unfolding encode_other
Frames-encode_other sf buf = search (arithmetic_rules, other_rules) depth 60

Frames-encode : (buf : Instruction) → Frames (encode buf)
unfolding encode
Frames-encode buf =
    search
      (frame_rules, Frames-forget, Frames-encode8bit, Frames-encode_integer, Frames-encode_other)
      depth 12

-- Whatever the instruction, if `encode` returns, it has changed nothing but the host position, the host
-- words, the pool of pending jumps and the static variables of the encoder: the guest position, the
-- current block, the blocks, their points and all counts and capacities of the cache but those of the
-- jumps are as they were.
pub encode-Framed :
    (buf : Instruction) (s : Jit) → Post {A = Unit {0} × Jit} (λ r. Framed s r.1) (encode buf s)
encode-Framed buf s = (Frames-encode buf).after s
