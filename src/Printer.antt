-- ===== src/Printer.antt =====
-- The output of src/printer_x86.c and src/printer_arm.c: what sprintf appends, piece by piece.
pub mod X86
pub mod Arm
use Prim.Native.String.{String}
use Prim.Native.Char.{code}
use byte_shatter.Base.{ℕ, List, [], ◌∷◌}

-- `colour n` is the escape sequence ESC [ n m.
pub data Piece : Type 0 where
  text : String → Piece
  decimal : ℕ → Piece
  hexadecimal : ℕ → Piece
  colour : ℕ → Piece

-- The characters of a text.
abbrev pub codes : String → List ℕ
codes String.[] = []
codes (String.◌∷◌ c s) = code c ∷ codes s
