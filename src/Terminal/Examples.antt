-- ===== src/Terminal/Examples.antt =====
-- The terminal with its cursor on the last cell, and one tick before the cursor turns over.
use text_os.Common.{◌≡◌, arith, [], ◌∷◌, codes, some, true, List, ℕ, length}
use text_os.Format.{num}
use text_os.Format.Meaning.{IsSupplied, Means, nothing, plain, number, takes_hexadecimal}
use text_os.Terminal.{Terminal, terminal_putchar, printf}
use text_os.Terminal.Screen.{typed, Shows, terminal_putchar_lem}
use text_os.Terminal.Output.{Types, printf_lem}

abbrev corner : Terminal
corner = record {
  terminal_row = 24;
  terminal_column = 79;
  terminal_color = 7;
  terminal_buffer = λ i. 0x720;
  cursor_visible = true;
  cursor_blink_counter = 24;
  ports = [];
}

terminal_putchar_lem_example :
    Shows corner (terminal_putchar b'x' corner) (typed b'x' 7 1999 (λ i. 0x720))
terminal_putchar_lem_example = terminal_putchar_lem b'x' corner (omega arith, omega arith)

port-IsSupplied : IsSupplied (codes "port %x") (num 0x1f0 ∷ [])
port-IsSupplied = plain (omega arith) (
    plain (omega arith) (
      plain (omega arith) (
        plain (omega arith)
          (plain (omega arith) (number (takes_hexadecimal (omega arith)) nothing)))))

printf_lem_example :
    (cs : List ℕ) × (r : Terminal) × Means (codes "port %x") (num 0x1f0 ∷ []) cs
    × (printf (codes "port %x") (num 0x1f0 ∷ []) corner ≡ some (r, length cs))
    × Types cs corner (some r)
printf_lem_example =
    printf_lem (codes "port %x") (num 0x1f0 ∷ []) corner (omega arith, omega arith) port-IsSupplied
