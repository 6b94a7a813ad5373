-- ===== src/Input/Line.antt =====
-- `clear_input_line`: the row of the cursor is blank and the cursor at its start.
use text_os.Common.{
  ℕ, zero, suc, ◌+◌, ◌-◌, ◌*◌, ◌≤◌, ◌≡◌, refl, ◌∙◌, ap, ◌&&◌, ltb, leb, if◌then◌else◌, arith,
}
use text_os.Terminal.{
  Terminal, make_vgaentry, terminal_putchar, backspace_char, update_hardware_cursor, blank_row,
}
use text_os.Terminal.Cells.{blank_row_at}
use text_os.Terminal.Screen.{IsOnScreen, position, typed, terminal_putchar_lem}
use text_os.Terminal.Cursor.{shown_position, update_hardware_cursor_lem}
use text_os.Input.{rub_out, clear_input_line}

-- The terminal `r` is `t` with the `n` cells before the cursor blank, and the cursor on the first.
pub record RubbedOut (n : ℕ) (t r : Terminal) : Type 0 where
  pub on_screen : IsOnScreen r
  pub at : position r + n ≡ position t
  pub cells :
      (i : ℕ)
      → r.terminal_buffer i ≡ (
          if leb (position r) i && ltb i (position t)
          then make_vgaentry b' ' t.terminal_color
          else t.terminal_buffer i)
  pub color : r.terminal_color ≡ t.terminal_color

rub_out-RubbedOut :
    (n : ℕ) (t : Terminal) → IsOnScreen t → n ≤ position t → RubbedOut n t (rub_out n t)
unfolding rub_out typed
rub_out-RubbedOut zero t on h = record {
  on_screen = on;
  at = omega arith;
  cells = λ i. ground arith;
  color = refl;
}
rub_out-RubbedOut (suc n) t on h =
    let one = terminal_putchar_lem backspace_char t on in
    let at1 : position (terminal_putchar backspace_char t) ≡ position t - 1 = one.at in
    let rest =
      rub_out-RubbedOut n (terminal_putchar backspace_char t) one.on_screen (omega arith) in
    record {
      on_screen = rest.on_screen;
      at = omega (arith, rest.at, at1);
      cells =
          λ i. ground (arith, rest.cells i, one.cells i, rest.at, at1, one.color, blank one.color);
      color = rest.color ∙ one.color;
    }
  where
    blank :
        (terminal_putchar backspace_char t).terminal_color ≡ t.terminal_color
        → make_vgaentry b' ' (terminal_putchar backspace_char t).terminal_color
          ≡ make_vgaentry b' ' t.terminal_color
    blank e = ap (make_vgaentry b' ') e

-- The terminal `r` is `t` with the row of the cursor blank, the cursor at the start of that row, and
-- the hardware cursor there.
pub record IsCleared (t r : Terminal) : Type 0 where
  pub row : r.terminal_row ≡ t.terminal_row
  pub column : r.terminal_column ≡ 0
  pub cells :
      (i : ℕ)
      → r.terminal_buffer i ≡ (
          if leb (t.terminal_row * 80) i && ltb i (t.terminal_row * 80 + 80)
          then make_vgaentry b' ' t.terminal_color
          else t.terminal_buffer i)
  pub shown : shown_position r.ports ≡ t.terminal_row * 80

-- From a cursor on the screen, `clear_input_line` clears exactly the row of the cursor.
pub clear_input_line-IsCleared : (t : Terminal) → IsOnScreen t → IsCleared t (clear_input_line t)
unfolding clear_input_line update_hardware_cursor
clear_input_line-IsCleared t on =
    let r = rub_out t.terminal_column t in
    let out = rub_out-RubbedOut t.terminal_column t on (omega arith) in
    let same : r.terminal_row ≡ t.terminal_row = row_of r out in
    record {
      row = same;
      column = refl;
      cells = λ i. ground (
        arith,
        blank_row_at 80 0 r.terminal_row (make_vgaentry b' ' r.terminal_color) r.terminal_buffer i,
        out.cells i,
        out.at,
        same,
        ap (make_vgaentry b' ') out.color,
      );
      shown =
          (update_hardware_cursor_lem 0 r.terminal_row
            (record r {
              terminal_buffer =
                  blank_row 80 0 r.terminal_row (make_vgaentry b' ' r.terminal_color)
                    r.terminal_buffer;
              terminal_column = 0;
            })
            (omega arith) (out.on_screen.0)).0
          ∙ omega (arith, same);
    }
  where
    row_of : (r : Terminal) → RubbedOut t.terminal_column t r → r.terminal_row ≡ t.terminal_row
    row_of r out = omega (arith, out.at, out.on_screen, on)
