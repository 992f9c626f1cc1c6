-- ===== src/Printer/Arm.antt =====
-- src/printer_arm.c: a host word as text.
pub mod Matches
use Prim.Native.String.{String}
use byte_shatter.Base.{
  ℕ, zero, suc, ◌+◌, ◌-◌, ◌*◌, ◌^◌, ◌==◌, ◌&&◌, ◌|||◌, ◌<<<◌, ◌>>>◌, bit_and, low_bits, bit, Bool,
  true, false, not, if◌then◌else◌, List, [], ◌∷◌, ◌++◌,
}
use byte_shatter.Printer.{Piece, text, decimal, hexadecimal, colour, codes}

-- '-' and '1'
abbrev pub dash : ℕ
dash = 45

abbrev pub one : ℕ
one = 49

pub record Masks : Type 0 where
  pub mask : ℕ
  pub check : ℕ

-- The loop of comp over the pattern; `n` characters follow the first, so its bit is `n`.
unfoldable pub masks : List ℕ → ℕ → Masks → Masks
masks [] n s = s
masks (c ∷ cs) n s = masks cs (n - 1) (
    if c == dash then s else record {
      mask = s.mask ||| 2 ^ n;
      check = if c == one then s.check ||| 2 ^ n else s.check;
    })

unfoldable pub comp : List ℕ → ℕ → Bool
unfolding masks
comp cond opcode =
    let m = masks cond 31 (record { mask = 0; check = 0 }) in bit_and opcode m.mask == m.check

-- The letter of the register size, and the S of the flags.
abbrev pub size_letter : Bool → Piece
size_letter wide = if wide then text "X" else text "W"

abbrev pub sign_letter : ℕ → Piece
sign_letter buf = if bit buf 29 then text "S " else text "  "

abbrev pub shift_piece : ℕ → List Piece
shift_piece shift = if shift == 0 then [] else text "{" ∷ decimal shift ∷ text "}" ∷ []

abbrev pub reg_piece : Bool → ℕ → List Piece
reg_piece wide r = size_letter wide ∷ decimal r ∷ []

unfoldable pub sprint_x_x_x : String → ℕ → List Piece
sprint_x_x_x name buf =
    let wide = bit buf 31 in
    text name ∷ sign_letter buf ∷ reg_piece wide (low_bits buf 5)
    ++ text ", " ∷ reg_piece wide (low_bits (buf >>> 5) 5)
    ++ text ", " ∷ reg_piece wide (low_bits (buf >>> 16) 5)
    ++ shift_piece (low_bits (buf >>> 10) 2)

unfoldable pub sprint_x_x_imm : String → ℕ → List Piece
sprint_x_x_imm name buf =
    let wide = bit buf 31 in
    text name ∷ sign_letter buf ∷ reg_piece wide (low_bits buf 5)
    ++ text ", " ∷ reg_piece wide (low_bits (buf >>> 5) 5)
    ++ text ", #" ∷ hexadecimal (low_bits (buf >>> 10) 12) ∷ []
    ++ shift_piece (low_bits (buf >>> 22) 2)

-- A signed offset of 9 bits, by its bit pattern.
abbrev pub offset_piece : ℕ → List Piece
offset_piece imm = if bit imm 8 then text "-" ∷ decimal (512 - imm) ∷ [] else decimal imm ∷ []

unfoldable pub sprint_x_mem : String → ℕ → List Piece
sprint_x_mem name buf =
    let imm = low_bits (buf >>> 12) 9 in
    let head =
      text name ∷ text " " ∷ reg_piece (bit buf 30) (low_bits buf 5)
      ++ text ", [X" ∷ decimal (low_bits (buf >>> 5) 5) ∷ [] in
    head
    ++ (if bit buf 11
        then if bit buf 10 then text ", #" ∷ offset_piece imm ++ text "]!" ∷ [] else text "]" ∷ []
        else if not (bit buf 24)
        then text ", #" ∷ offset_piece imm ++ text "]" ∷ []
        else if bit buf 10 && not (imm == 0)
        then text "]" ∷ text ", #" ∷ offset_piece imm
        else text "]" ∷ [])

unfoldable pub sprint_x_imm : String → ℕ → List Piece
sprint_x_imm name buf =
    text name ∷ text " " ∷ reg_piece (bit buf 31) (low_bits buf 5)
    ++ text ", #" ∷ decimal (low_bits (buf >>> 5) 16) ∷ shift_piece (low_bits (buf >>> 21) 2)

-- The address of ADR and ADRP: immlo, and immhi above it.
abbrev pub adr_imm : ℕ → ℕ
adr_imm buf = low_bits (buf >>> 29) 2 ||| (low_bits (buf >>> 5) 19 <<< 2)

unfoldable pub sprint_adr : String → ℕ → List Piece
sprint_adr name buf =
    text name ∷ text " X" ∷ decimal (low_bits buf 5) ∷ text ", #" ∷ hexadecimal (adr_imm buf) ∷ []

-- The chain of tests of sprint_arm.
unfoldable pub sprint_word : ℕ → List Piece
unfolding comp sprint_x_x_x sprint_x_x_imm sprint_x_mem sprint_x_imm sprint_adr
sprint_word buf =
    if comp (codes "-0-01011------------------------") buf
    then sprint_x_x_x "add" buf
    else if comp (codes "-1-01011------------------------") buf
    then sprint_x_x_x "sub" buf
    else if comp (codes "-0-10001------------------------") buf
    then sprint_x_x_imm "add" buf
    else if comp (codes "-1-10001------------------------") buf
    then sprint_x_x_imm "sub" buf
    else if comp (codes "-1-01010------------------------") buf
    then sprint_x_x_x "eor" buf
    else if comp (codes "1-11100-01----------------------") buf
    then sprint_x_mem "ldr" buf
    else if comp (codes "1-11100-00----------------------") buf
    then sprint_x_mem "str" buf
    else if comp (codes "0-11100-00----------------------") buf
    then sprint_x_mem "strb" buf
    else if comp (codes "-101001010----------------------") buf
    then sprint_x_imm "movz" buf
    else if comp (codes "11010100001---------------------") buf
    then text "brk " ∷ hexadecimal (low_bits (buf >>> 5) 16) ∷ []
    else if comp (codes "1101011001011111----------------") buf
    then text "ret X" ∷ decimal (low_bits (buf >>> 5) 5) ∷ []
    else if comp (codes "1101011000111111000000-----00000") buf
    then text "blr X" ∷ decimal (low_bits (buf >>> 5) 5) ∷ []
    else if comp (codes "0--10000------------------------") buf
    then sprint_adr "adr" buf
    else if comp (codes "1--10000------------------------") buf
    then sprint_adr "adrp" buf
    else text "und" ∷ []

unfoldable pub sprint_arm : ℕ → List Piece
unfolding sprint_word
sprint_arm buf = colour 35 ∷ sprint_word buf ++ colour 0 ∷ []
