-- ===== src/Terminal.antt =====
-- The VGA text terminal of terminal_hooks.cpp over a state of its global variables. The text memory
-- maps a cell to its 16 bits, and the state keeps the writes to I/O ports, the latest in front. What a
-- port answers is hardware, so `inb` is a parameter: it may look at all writes so far. A character is
-- its byte.
pub mod Cells
pub mod Screen
pub mod Cursor
pub mod Output
mod Examples
use text_os.Common.{
  ℕ, zero, suc, ◌+◌, ◌-◌, ◌*◌, ◌/◌, ◌^◌, Bool, true, false, not, Option, none, some, List, [], ◌∷◌,
  ltb, leb, ◌==◌, if◌then◌else◌, u8, u16, u32, bit_and, bit_or,
}
use text_os.Memory.{Memory, store}
use text_os.CString.{strlen}
use text_os.Format.{Arg, format}

abbrev pub vga_width : ℕ
vga_width = 80

abbrev pub vga_height : ℕ
vga_height = 25

-- Cells of the text memory, by index.
abbrev pub Cells : Type 0
Cells = ℕ → ℕ

-- Writes of a byte to a port, the latest first.
abbrev pub Ports : Type 0
Ports = List (ℕ × ℕ)

pub record Terminal : Type 0 where
  pub terminal_row : ℕ
  pub terminal_column : ℕ
  pub terminal_color : ℕ
  pub terminal_buffer : Cells
  pub cursor_visible : Bool
  pub cursor_blink_counter : ℕ
  pub ports : Ports

-- `fg | bg << 4`
unfoldable pub make_color : ℕ → ℕ → ℕ
make_color fg bg = u8 (bit_or fg (bg * 2 ^ 4))

-- `static_cast<uint16_t>(c)` for a signed `char`.
abbrev pub widen_char : ℕ → ℕ
widen_char c = if ltb c (2 ^ 7) then c else u16 (c + (2 ^ 16 - 2 ^ 8))

unfoldable pub make_vgaentry : ℕ → ℕ → ℕ
make_vgaentry c color = u16 (bit_or (widen_char c) (color * 2 ^ 8))

abbrev pub outb : ℕ → ℕ → Terminal → Terminal
outb port value t = record t { ports = (port, value) ∷ t.ports }

unfoldable pub update_hardware_cursor : ℕ → ℕ → Terminal → Terminal
update_hardware_cursor x y t =
    let pos = u16 (y * vga_width + x) in
    outb 0x3D5 (u8 (bit_and (pos / 2 ^ 8) 0xFF))
      (outb 0x3D4 0x0E (outb 0x3D5 (u8 (bit_and pos 0xFF)) (outb 0x3D4 0x0F t)))

-- The stores of a row loop from column `x` on, `rounds` columns long.
unfoldable pub blank_row : ℕ → ℕ → ℕ → ℕ → Cells → Cells
blank_row zero x y entry b = b
blank_row (suc rounds) x y entry b =
    blank_row rounds (x + 1) y entry (store b (y * vga_width + x) entry)

unfoldable pub blank_rows : ℕ → ℕ → ℕ → Cells → Cells
blank_rows zero y entry b = b
blank_rows (suc rounds) y entry b =
    blank_rows rounds (y + 1) entry (blank_row vga_width 0 y entry b)

unfoldable pub clear_screen : Terminal → Terminal
clear_screen t = update_hardware_cursor 0 0 (record t {
  terminal_buffer = blank_rows vga_height 0 (make_vgaentry b' ' t.terminal_color) t.terminal_buffer;
  terminal_row = 0;
  terminal_column = 0;
})

abbrev pub terminal_setcolor : ℕ → Terminal → Terminal
terminal_setcolor color t = record t { terminal_color = color }

abbrev pub terminal_putentryat : ℕ → ℕ → ℕ → ℕ → Terminal → Terminal
terminal_putentryat c color x y t = record t {
  terminal_buffer = store t.terminal_buffer (y * vga_width + x) (make_vgaentry c color);
}

-- The inner loop of `scroll_screen`: each cell of row `y` becomes the one below it.
unfoldable pub copy_row : ℕ → ℕ → ℕ → Cells → Cells
copy_row zero x y b = b
copy_row (suc rounds) x y b =
    copy_row rounds (x + 1) y (store b (y * vga_width + x) (b ((y + 1) * vga_width + x)))

unfoldable pub copy_rows : ℕ → ℕ → Cells → Cells
copy_rows zero y b = b
copy_rows (suc rounds) y b = copy_rows rounds (y + 1) (copy_row vga_width 0 y b)

unfoldable pub scroll_screen : Terminal → Terminal
scroll_screen t = record t {
  terminal_buffer =
      blank_row vga_width 0 (vga_height - 1) (make_vgaentry b' ' t.terminal_color)
        (copy_rows (vga_height - 1) 0 t.terminal_buffer);
}

-- `terminal_column = 0; if (++terminal_row == VGA_HEIGHT) { scroll_screen(); … }`
unfoldable pub next_row : Terminal → Terminal
next_row t =
    let t' = record t { terminal_column = 0; terminal_row = u32 (t.terminal_row + 1) } in
    if u32 (t.terminal_row + 1) == vga_height
    then record (scroll_screen t') { terminal_row = vga_height - 1 }
    else t'

-- The case '\b': one cell back, through the left edge to the row above, and blank that cell.
unfoldable pub backspace : Terminal → Terminal
backspace t =
    if ltb 0 t.terminal_column
    then terminal_putentryat b' ' t.terminal_color (t.terminal_column - 1) t.terminal_row
        (record t { terminal_column = t.terminal_column - 1 })
    else if ltb 0 t.terminal_row
    then terminal_putentryat b' ' t.terminal_color (vga_width - 1) (t.terminal_row - 1)
        (record t { terminal_row = t.terminal_row - 1; terminal_column = vga_width - 1 })
    else t

-- The case of any other character.
unfoldable pub put_here : ℕ → Terminal → Terminal
put_here c t =
    let t' = terminal_putentryat c t.terminal_color t.terminal_column t.terminal_row t in
    if u32 (t.terminal_column + 1) == vga_width
    then next_row t'
    else record t' { terminal_column = u32 (t.terminal_column + 1) }

abbrev pub newline_char : ℕ
newline_char = 10

abbrev pub backspace_char : ℕ
backspace_char = 8

-- What `terminal_putchar` does before it moves the hardware cursor.
unfoldable pub put_cell : ℕ → Terminal → Terminal
put_cell c t =
    if c == newline_char
    then next_row t
    else if c == backspace_char
    then backspace t
    else put_here c t

unfoldable pub terminal_putchar : ℕ → Terminal → Terminal
terminal_putchar c t =
    let t' = put_cell c t in update_hardware_cursor t'.terminal_column t'.terminal_row t'

-- `for (i = i0; i < i0 + rounds; i++) terminal_putchar(data[i])`
unfoldable pub put_range : ℕ → ℕ → Memory → ℕ → Terminal → Terminal
put_range zero i m string t = t
put_range (suc rounds) i m string t =
    put_range rounds (i + 1) m string (terminal_putchar (m (string + i)) t)

unfoldable pub terminal_writestring : ℕ → Memory → ℕ → Terminal → Option Terminal
terminal_writestring fuel m string t = elim (strlen fuel m string) [
  | none ↦ none
  | some datalen ↦ some (put_range datalen 0 m string t)
]

-- `terminal_putchar(c); chars_written++;`
abbrev pub put_screen : ℕ → Terminal × ℕ → Terminal × ℕ
put_screen c (t, n) = (terminal_putchar c t, n + 1)

-- `printf` is the format loop over `terminal_putchar`: the terminal and the returned count.
unfoldable pub printf : List ℕ → List Arg → Terminal → Option (Terminal × ℕ)
printf fmt args t = format put_screen fmt args (t, 0)

unfoldable pub disable_hardware_cursor : Terminal → Terminal
disable_hardware_cursor t = outb 0x3D5 0x20 (outb 0x3D4 0x0A t)

module _ (inb : Ports → ℕ → ℕ) where
  -- The two shape registers of the CRT controller keep the upper bits they have.
  unfoldable pub enable_hardware_cursor : ℕ → ℕ → Terminal → Terminal
  enable_hardware_cursor cursor_start cursor_end t =
      let t1 = outb 0x3D4 0x0A t in
      let t2 = outb 0x3D5 (u8 (bit_or (bit_and (inb t1.ports 0x3D5) 0xC0) cursor_start)) t1 in
      let t3 = outb 0x3D4 0x0B t2 in
      outb 0x3D5 (u8 (bit_or (bit_and (inb t3.ports 0x3D5) 0xE0) cursor_end)) t3

  unfoldable pub terminal_initialize : Terminal → Terminal
  terminal_initialize t =
      let color = make_color 7 0 in
      update_hardware_cursor 0 0 (
        enable_hardware_cursor 14 15 (record t {
          terminal_row = 0;
          terminal_column = 0;
          terminal_color = color;
          terminal_buffer = blank_rows vga_height 0 (make_vgaentry b' ' color) t.terminal_buffer;
        }))

  -- The blinking of the cursor, once per timer tick.
  unfoldable pub update_cursor_state : Terminal → Terminal
  update_cursor_state t =
      let counter = u32 (t.cursor_blink_counter + 1) in
      let shown = record t { cursor_blink_counter = 0; cursor_visible = not t.cursor_visible } in
      if leb 25 counter
      then update_hardware_cursor t.terminal_column t.terminal_row (
          if not t.cursor_visible
          then enable_hardware_cursor 14 15 shown
          else disable_hardware_cursor shown)
      else record t { cursor_blink_counter = counter }
