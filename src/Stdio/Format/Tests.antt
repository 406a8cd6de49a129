-- ===== src/Stdio/Format/Tests.antt =====
-- Runs of the formatted output, and instances of its theorems.
use lord.Prelude.{◌≡◌, refl, List, [], ◌∷◌, arith, All}
use lord.Stdio.Format.{text, Arg, num, str, kprintf, serial_kprintf, framebuffer, serial}
use lord.Stdio.Format.Template.{Piece, plain, field, IsPiece, encode, run_pieces, kprintf-encode}

-- `"cpu {xn} is {s}"`
abbrev pieces : List Piece
pieces = plain (text "cpu ") ∷ field (text "xn") ∷ plain (text " is ") ∷ field (text "s") ∷ []

abbrev cpu_args : List Arg
cpu_args = num 26 ∷ str (text "up") ∷ []

encode_runs : encode pieces ≡ text "cpu {xn} is {s}"
unfolding encode
encode_runs = refl

All-pieces : All IsPiece pieces
All-pieces = (
  (ground arith, (ground arith, (ground arith, (ground arith, tt)))),
  (
    (ground arith, (ground arith, tt)),
    ((ground arith, (ground arith, (ground arith, (ground arith, tt)))), ((ground arith, tt), tt)),
  ),
)

kprintf-encode_example :
    (kprintf (encode pieces) cpu_args ≡ run_pieces framebuffer pieces cpu_args)
    × (serial_kprintf (encode pieces) cpu_args ≡ run_pieces serial pieces cpu_args)
kprintf-encode_example = kprintf-encode pieces cpu_args All-pieces
