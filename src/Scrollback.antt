-- ===== src/Scrollback.antt =====
-- `TerminalOutput` of iostream_wrapper.cpp: the terminal with a scrollback of 1000 lines behind the
-- screen. The state holds the globals of the terminal, the members of the object and the two static
-- variables of `show_scrollback_page`.
pub mod Lines
pub mod Typing
pub mod Pages
pub mod Printing
mod Examples
use text_os.Common.{
  ℕ, zero, suc, ◌+◌, ◌-◌, ◌*◌, ◌/◌, ◌^◌, Bool, true, false, not, ◌&&◌, Option, none, some, List, [],
  ◌∷◌, ltb, leb, ◌==◌, if◌then◌else◌, u32, bit_and, is_negative, codes,
}
use text_os.Memory.{Memory, store, memset}
use text_os.CString.{strlen}
use text_os.Format.{Arg, num, sprintf}
use text_os.Terminal.{
  Cells, Terminal, vga_width, vga_height, make_vgaentry, blank_row, copy_row, copy_rows, backspace,
  terminal_putentryat, update_hardware_cursor, newline_char, backspace_char,
}

abbrev pub scrollback_buffer_height : ℕ
scrollback_buffer_height = 1000

pub record TerminalOutput : Type 0 where
  pub scrollback_buffer : Cells
  pub scrollback_lines : ℕ
  pub use_hex_format : Bool
  pub first_scrollback : Bool
  pub screen_backup : Cells
  pub terminal : Terminal

-- `for (x = …; …) scrollback_buffer[line * VGA_WIDTH + x] = terminal_buffer[x]`
unfoldable pub save_line : ℕ → ℕ → ℕ → Cells → Cells → Cells
save_line zero x line screen b = b
save_line (suc rounds) x line screen b =
    save_line rounds (x + 1) line screen (store b (line * vga_width + x) (screen x))

-- The top line goes to the scrollback, which drops its oldest line when it is full.
unfoldable pub save_top : TerminalOutput → TerminalOutput
save_top o =
    let screen = o.terminal.terminal_buffer in
    if ltb o.scrollback_lines scrollback_buffer_height
    then record o {
      scrollback_buffer = save_line vga_width 0 o.scrollback_lines screen o.scrollback_buffer;
      scrollback_lines = o.scrollback_lines + 1;
    }
    else record o {
      scrollback_buffer =
          save_line vga_width 0 (scrollback_buffer_height - 1) screen
            (copy_rows (scrollback_buffer_height - 1) 0 o.scrollback_buffer);
    }

-- `TerminalOutput::TerminalOutput()`: the buffer is cleared, and the numbers are decimal.
unfoldable pub terminal_output : Cells → Cells → Terminal → TerminalOutput
terminal_output buffer backup t = record {
  scrollback_buffer = λ i. if ltb i (scrollback_buffer_height * vga_width) then 0 else buffer i;
  scrollback_lines = 0;
  use_hex_format = false;
  first_scrollback = true;
  screen_backup = backup;
  terminal = t;
}

unfoldable pub hex : TerminalOutput → TerminalOutput
hex o = record o { use_hex_format = true }

unfoldable pub dec : TerminalOutput → TerminalOutput
dec o = record o { use_hex_format = false }

abbrev pub with_terminal : TerminalOutput → Terminal → TerminalOutput
with_terminal o t = record o { terminal = t }

unfoldable pub scroll_screen_internal : TerminalOutput → TerminalOutput
scroll_screen_internal o =
    let saved = save_top o in
    let t = o.terminal in
    with_terminal saved (record t {
      terminal_buffer =
          blank_row vga_width 0 (vga_height - 1) (make_vgaentry b' ' t.terminal_color)
            (copy_rows (vga_height - 1) 0 t.terminal_buffer);
    })

-- `terminal_column = 0; if (++terminal_row == VGA_HEIGHT) { scroll_screen_internal(); … }`
unfoldable pub next_line : TerminalOutput → TerminalOutput
next_line o =
    let t = o.terminal in
    let t' = record t { terminal_column = 0; terminal_row = u32 (t.terminal_row + 1) } in
    let o' = with_terminal o t' in
    if u32 (t.terminal_row + 1) == vga_height
    then (let s = scroll_screen_internal o' in
        with_terminal s (record (s.terminal) { terminal_row = vga_height - 1 }))
    else o'

-- The case '\t': `(terminal_column + 8) & ~7`, and the next line from column 80 on.
unfoldable pub tab : TerminalOutput → TerminalOutput
tab o =
    let t = o.terminal in
    let column = bit_and (u32 (t.terminal_column + 8)) (2 ^ 32 - 8) in
    if leb vga_width column
    then next_line o
    else with_terminal o (record t { terminal_column = column })

-- The case of any other character.
unfoldable pub put_entry : ℕ → TerminalOutput → TerminalOutput
put_entry c o =
    let t = o.terminal in
    let t' = terminal_putentryat c t.terminal_color t.terminal_column t.terminal_row t in
    if u32 (t.terminal_column + 1) == vga_width
    then next_line (with_terminal o t')
    else with_terminal o (record t' { terminal_column = u32 (t.terminal_column + 1) })

abbrev pub return_char : ℕ
return_char = 13

abbrev pub tab_char : ℕ
tab_char = 9

-- `put_char` before it moves the hardware cursor.
unfoldable pub put_plain : ℕ → TerminalOutput → TerminalOutput
put_plain c o =
    if c == newline_char
    then next_line o
    else if c == backspace_char
    then with_terminal o (backspace o.terminal)
    else if c == return_char
    then with_terminal o (record (o.terminal) { terminal_column = 0 })
    else if c == tab_char
    then tab o
    else put_entry c o

unfoldable pub put_char : ℕ → TerminalOutput → TerminalOutput
put_char c o =
    let s = put_plain c o in
    with_terminal s
      (update_hardware_cursor s.terminal.terminal_column s.terminal.terminal_row s.terminal)

-- One cell of a page. A line behind the scrollback comes from the backup of the screen, or is blank.
unfoldable pub page_cell : TerminalOutput → ℕ → ℕ → ℕ → ℕ
page_cell o start_line y x =
    let backup_line = u32 (y + (2 ^ 32 - u32 (o.scrollback_lines + (2 ^ 32 - start_line)))) in
    if ltb (u32 (start_line + y)) o.scrollback_lines
    then o.scrollback_buffer (u32 (start_line + y) * vga_width + x)
    else if not (is_negative backup_line) && ltb backup_line vga_height
    then o.screen_backup (backup_line * vga_width + x)
    else make_vgaentry b' ' o.terminal.terminal_color

unfoldable pub page_row : ℕ → ℕ → ℕ → (ℕ → ℕ) → Cells → Cells
page_row zero x y cell b = b
page_row (suc rounds) x y cell b =
    page_row rounds (x + 1) y cell (store b (y * vga_width + x) (cell x))

unfoldable pub page_rows : ℕ → ℕ → (ℕ → ℕ → ℕ) → Cells → Cells
page_rows zero y cell b = b
page_rows (suc rounds) y cell b = page_rows rounds (y + 1) cell (page_row vga_width 0 y (cell y) b)

-- The screen is kept at the first page that is ever shown.
unfoldable pub back_up : TerminalOutput → TerminalOutput
back_up o =
    if o.first_scrollback
    then record o {
      screen_backup =
          page_rows vga_height 0 (λ y x. o.terminal.terminal_buffer (y * vga_width + x))
            o.screen_backup;
      first_scrollback = false;
    }
    else o

unfoldable pub show_scrollback_page : ℕ → TerminalOutput → Bool × TerminalOutput
show_scrollback_page page o =
    if is_negative page
    then (false, o)
    else if leb (o.scrollback_lines / vga_height) page
    then (false, o)
    else (let line = u32 (o.scrollback_lines + (2 ^ 32 - u32 ((page + 1) * vga_height))) in
        let start_line = if is_negative line then 0 else line in
        let kept = back_up o in
        let t = o.terminal in
        (
          true,
          with_terminal kept (
              update_hardware_cursor 0 (vga_height - 1) (record t {
                terminal_buffer =
                    page_rows vga_height 0 (page_cell kept start_line) t.terminal_buffer;
              })),
        ))

unfoldable pub restore_screen : TerminalOutput → TerminalOutput
restore_screen o =
    with_terminal o
      (update_hardware_cursor o.terminal.terminal_column o.terminal.terminal_row o.terminal)

unfoldable pub get_scrollback_pages : TerminalOutput → ℕ
get_scrollback_pages o = (o.scrollback_lines + vga_height - 1) / vga_height

-- `operator<<(const char*)`
unfoldable pub put_chars : ℕ → ℕ → Memory → ℕ → TerminalOutput → TerminalOutput
put_chars zero i m s o = o
put_chars (suc rounds) i m s o = put_chars rounds (i + 1) m s (put_char (m (s + i)) o)

unfoldable pub put_string : ℕ → Memory → ℕ → TerminalOutput → Option TerminalOutput
put_string fuel m s o = elim (strlen fuel m s) [
  | none ↦ none
  | some len ↦ some (put_chars len 0 m s o)
]

-- `operator<<(int)`, `operator<<(unsigned int)` and `operator<<(void*)`, which print into the local
-- buffer at the address `buffer` first.
unfoldable pub put_format : ℕ → Memory → ℕ → List ℕ → ℕ → TerminalOutput → Option TerminalOutput
put_format fuel m buffer fmt n o = elim (sprintf m buffer fmt (num n ∷ [])) [
  | none ↦ none
  | some (m', count) ↦ put_string fuel m' buffer o
]

unfoldable pub put_int : ℕ → Memory → ℕ → ℕ → TerminalOutput → Option TerminalOutput
put_int fuel m buffer n o =
    put_format fuel m buffer (if o.use_hex_format then codes "0x%x" else codes "%d") n o

unfoldable pub put_unsigned_int : ℕ → Memory → ℕ → ℕ → TerminalOutput → Option TerminalOutput
put_unsigned_int fuel m buffer n o =
    put_format fuel m buffer (if o.use_hex_format then codes "0x%x" else codes "%u") n o

unfoldable pub put_pointer : ℕ → Memory → ℕ → ℕ → TerminalOutput → Option TerminalOutput
put_pointer fuel m buffer n o = put_format fuel m buffer (codes "0x%x") n o
