-- ===== src/Tests/Decoding.antt =====
-- The decoder, run on bytes.
use byte_shatter.Base.{false, length, ℕ, ◌+◌, ◌-◌, ◌^◌, ◌≡◌, refl, [], ◌∷◌, get_or, ok, arith}
use byte_shatter.Memory.Reads.{at}
use byte_shatter.Decoder.ModRm.{decode_rm}
use byte_shatter.Decoder.ModRm.Encoding.{
  RmForm, sib_disp, disp8, modrm_byte, operand_of, decode_rm-operand_of,
}
use byte_shatter.Decoder.Opcode.{decode_instr}
use byte_shatter.Decoder.Opcode.TwoOperands.{mov_load}
use byte_shatter.Decoder.Opcode.Rex.{Rex, rex}
use byte_shatter.Decoder.Opcode.Instructions.{meant, bytes_of, decode_instr-meant}
use byte_shatter.Tests.{operand, context, buffer}

-- [rax + rcx * 4 - 8], the SIB byte and the displacement
abbrev form : RmForm
form = sib_disp 0 1 2 (disp8 0xF8)

abbrev memory : ℕ → ℕ
memory p = get_or (0x88 ∷ 0xF8 ∷ []) (p - (2 ^ 32 + 0x100)) 0

decode_rm-operand_of_example :
    decode_rm memory (modrm_byte 3 form) operand (at 0 context)
    ≡ ok (operand_of form operand, at 2 context)
decode_rm-operand_of_example =
    decode_rm-operand_of memory context 3 form operand 0 2 (omega arith)
      (omega arith, omega arith, omega arith, omega arith)
      (refl, omega arith, (refl, omega arith, tt)) refl (omega arith)

-- mov r10, [r8 + r9 * 4 - 8]
abbrev code : ℕ → ℕ
code p = get_or (0x4F ∷ 0x8B ∷ 0x54 ∷ 0x88 ∷ 0xF8 ∷ []) (p - (2 ^ 32 + 0x100)) 0

abbrev wide : Rex
wide = rex 1 1 1 1

decode_instr-meant_example :
    decode_instr code buffer context
    ≡ ok (
      (meant mov_load wide 2 form buffer, false),
      at (length (bytes_of mov_load wide 2 form)) context,
    )
decode_instr-meant_example =
    decode_instr-meant code context mov_load wide 2 form buffer tt (omega arith)
      (omega arith, omega arith, omega arith, omega arith)
      (omega arith, omega arith, omega arith, omega arith, λ h. absurd (omega arith))
      (
        refl,
        omega arith,
        (refl, omega arith, (refl, omega arith, (refl, omega arith, (refl, omega arith, tt)))),
      )
      (omega arith)
