-- ===== src/Scrollback/Examples.antt =====
-- The output object with 30 lines in the scrollback and its cursor at the end of the screen.
use text_os.Common.{ℕ, ◌≡◌, arith, List, [], ◌∷◌, some, true}
use text_os.Format.{put_all}
use text_os.Format.Numbers.{Spells}
use text_os.Scrollback.{TerminalOutput, put_char, show_scrollback_page, put_unsigned_int}
use text_os.Scrollback.Typing.{struck, Prints, put_char_lem}
use text_os.Scrollback.Pages.{IsPage, show_scrollback_page-IsPage}
use text_os.Scrollback.Printing.{put_unsigned_int_lem}

abbrev output : TerminalOutput
output = record {
  scrollback_buffer = λ i. i;
  scrollback_lines = 30;
  use_hex_format = true;
  first_scrollback = true;
  screen_backup = λ i. 0;
  terminal = record {
    terminal_row = 24;
    terminal_column = 75;
    terminal_color = 7;
    terminal_buffer = λ i. 0x720;
    cursor_visible = true;
    cursor_blink_counter = 0;
    ports = [];
  };
}

put_char_lem_example :
    Prints output
      (put_char 9 output)
      (struck 9 7 1995 (λ i. 0x720)).0
      (struck 9 7 1995 (λ i. 0x720)).1
put_char_lem_example = put_char_lem 9 output ((omega arith, omega arith), omega arith)

show_scrollback_page-IsPage_example :
    ((show_scrollback_page 0 output).0 ≡ true) × IsPage 0 output (show_scrollback_page 0 output).1
show_scrollback_page-IsPage_example =
    show_scrollback_page-IsPage 0 output (omega arith) (omega arith)

put_unsigned_int_lem_example :
    (t : List ℕ) × Spells 16 48879 t
    × (put_unsigned_int 20 (λ a. 0) 800 48879 output
        ≡ some (put_all put_char (b'0' ∷ b'x' ∷ t) output))
put_unsigned_int_lem_example =
    put_unsigned_int_lem 20 800 48879 (λ a. 0) output (omega arith) (omega arith)
