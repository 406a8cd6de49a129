-- ===== src/Stdio/Tests.antt =====
-- Runs of the number printers, and instances of their theorems.
use lord.Prelude.{arith}
use lord.Stdio.{print_int, print_hex, print_bin}
use lord.Stdio.Number.{Prints, print-Prints}

print-Prints_example :
    Prints 10 255 (print_int 255) × Prints 16 255 (print_hex 255) × Prints 2 255 (print_bin 255)
print-Prints_example = print-Prints 255 (omega arith) (ground arith)
