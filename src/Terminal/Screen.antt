-- ===== src/Terminal/Screen.antt =====
-- `terminal_putchar` and `clear_screen` against a typewriter over one array of 2000 cells, which knows
-- no rows: a position, a step, and a roll of 80 cells at the end.
use text_os.Common.{
  ℕ, ◌+◌, ◌-◌, ◌*◌, ◌/◌, ◌<◌, ◌≡◌, ◌≢◌, refl, ◌∙◌, ap, ltb, leb, ◌==◌, if◌then◌else◌, arith, u32,
  inl, inr, Bool-cases, eq→==, ne→==, le→leb, lt→leb, ℕ_discrete,
}
use text_os.Memory.{store}
use text_os.Terminal.{
  Cells, Terminal, make_vgaentry, put_cell, terminal_putchar, clear_screen, terminal_putentryat,
  next_row, backspace, put_here, scroll_screen, update_hardware_cursor, newline_char,
  backspace_char,
}
use text_os.Terminal.Cells.{scrolled, scrolled_at, blank_rows_at}

-- The cursor is on the screen.
abbrev pub IsOnScreen : Terminal → Type 0
IsOnScreen t = (t.terminal_row < 25) × (t.terminal_column < 80)

-- The cell that the cursor is on.
abbrev pub position : Terminal → ℕ
position t = t.terminal_row * 80 + t.terminal_column

-- A position beyond the last cell rolls the paper by 80 cells.
unfoldable pub rolled : ℕ → ℕ → Cells → ℕ × Cells
rolled blank p b = if leb 2000 p then (p - 80, scrolled blank b) else (p, b)

-- The typewriter: a newline goes to the next multiple of 80, a backspace blanks the cell before.
unfoldable pub typed : ℕ → ℕ → ℕ → Cells → ℕ × Cells
typed c color p b =
    if c == newline_char
    then rolled (make_vgaentry b' ' color) ((p / 80 + 1) * 80) b
    else if c == backspace_char
    then (p - 1, if p == 0 then b else store b (p - 1) (make_vgaentry b' ' color))
    else rolled (make_vgaentry b' ' color) (p + 1) (store b p (make_vgaentry c color))

-- The terminal `t` shows `view` and has the settings of `s`.
pub record Shows (s t : Terminal) (view : ℕ × Cells) : Type 0 where
  pub on_screen : IsOnScreen t
  pub at : position t ≡ view.0
  pub cells : (i : ℕ) → t.terminal_buffer i ≡ view.1 i
  pub color : t.terminal_color ≡ s.terminal_color
  pub visible : t.cursor_visible ≡ s.cursor_visible
  pub counter : t.cursor_blink_counter ≡ s.cursor_blink_counter

next_row-Shows :
    (t : Terminal) (p : ℕ)
    → t.terminal_row < 25
    → p ≡ t.terminal_row * 80 + 80
    → Shows t (next_row t) (rolled (make_vgaentry b' ' t.terminal_color) p t.terminal_buffer)
unfolding next_row rolled scroll_screen
next_row-Shows t p row e = elim (ℕ_discrete t.terminal_row 24) [
  | yes last ↦
      rw (eq→== (u32 (t.terminal_row + 1)) 25 (omega arith), le→leb 2000 p (omega arith))
        (record {
          on_screen = (omega arith, omega arith);
          at = omega arith;
          cells = scrolled_at (make_vgaentry b' ' t.terminal_color) t.terminal_buffer;
          color = refl;
          visible = refl;
          counter = refl;
        })
  | no inner ↦
      rw (ne→== (u32 (t.terminal_row + 1)) 25 (omega arith), lt→leb 2000 p (omega arith))
        (record {
          on_screen = (omega arith, omega arith);
          at = omega arith;
          cells = λ i. refl;
          color = refl;
          visible = refl;
          counter = refl;
        })
]

pub backspace-Shows :
    (t : Terminal)
    → IsOnScreen t
    → Shows t (backspace t) (
      position t - 1,
      if position t == 0
          then t.terminal_buffer
          else store t.terminal_buffer (position t - 1) (make_vgaentry b' ' t.terminal_color),
    )
unfolding backspace
backspace-Shows t on = record {
  on_screen = ground (arith, on);
  at = ground arith;
  cells = λ i. ground arith;
  color = ground arith;
  visible = ground arith;
  counter = ground arith;
}

put_here-Shows :
    (c : ℕ) (t : Terminal)
    → IsOnScreen t
    → Shows t (put_here c t) (
        rolled
          (make_vgaentry b' ' t.terminal_color)
          (position t + 1)
          (store t.terminal_buffer (position t) (make_vgaentry c t.terminal_color)))
unfolding put_here rolled
put_here-Shows c t (row, column) = elim (ℕ_discrete t.terminal_column 79) [
  | yes last ↦
      let t' = terminal_putentryat c t.terminal_color t.terminal_column t.terminal_row t in
      let s = next_row-Shows t' (position t + 1) row (omega arith) in
      rw (eq→== (u32 (t.terminal_column + 1)) 80 (omega arith)) (record {
        on_screen = s.on_screen;
        at = s.at;
        cells = s.cells;
        color = s.color;
        visible = s.visible;
        counter = s.counter;
      })
  | no inner ↦
      rw
        (
          ne→== (u32 (t.terminal_column + 1)) 80 (omega arith),
          lt→leb 2000 (position t + 1) (omega arith),
        )
        (record {
          on_screen = (row, omega arith);
          at = omega arith;
          cells = λ i. refl;
          color = refl;
          visible = refl;
          counter = refl;
        })
]

put_cell-Shows :
    (c : ℕ) (t : Terminal)
    → IsOnScreen t
    → Shows t (put_cell c t) (typed c t.terminal_color (position t) t.terminal_buffer)
unfolding put_cell typed
put_cell-Shows c t on = elim (Bool-cases (c == newline_char)) [
  | inl newline ↦ rw newline (next_row-Shows t ((position t / 80 + 1) * 80) (on.0) (omega arith))
  | inr other ↦ rw other (elim (Bool-cases (c == backspace_char)) [
    | inl back ↦ rw back (backspace-Shows t on)
    | inr plain ↦ rw plain (put_here-Shows c t on)
  ])
]

-- From a cursor on the screen, `terminal_putchar` keeps it there and does what the typewriter does:
-- the position, every cell of the text memory and the settings agree, for every character. So no
-- cell beyond the 2000 of the screen changes.
pub terminal_putchar_lem :
    (c : ℕ) (t : Terminal)
    → IsOnScreen t
    → Shows t (terminal_putchar c t) (typed c t.terminal_color (position t) t.terminal_buffer)
unfolding terminal_putchar update_hardware_cursor
terminal_putchar_lem c t on =
    let s = put_cell-Shows c t on in
    record {
      on_screen = s.on_screen;
      at = s.at;
      cells = s.cells;
      color = s.color;
      visible = s.visible;
      counter = s.counter;
    }

typed-plain :
    (c color p : ℕ) (b : Cells)
    → c ≢ newline_char
    → c ≢ backspace_char
    → p < 1999
    → typed c color p b ≡ (p + 1, store b p (make_vgaentry c color))
unfolding typed rolled
typed-plain c color p b nl bs lt =
    rw (ne→== c 10 nl, ne→== c 8 bs, lt→leb 2000 (p + 1) (omega arith))

-- A character that is neither a newline nor a backspace, put before the last cell, is taken back by a
-- backspace: the cursor is where it was, its cell is blank, and the other cells are as before.
pub putchar-backspace :
    (c : ℕ) (t : Terminal)
    → IsOnScreen t
    → c ≢ newline_char
    → c ≢ backspace_char
    → position t < 1999
    → Shows t
        (terminal_putchar backspace_char (terminal_putchar c t))
        (position t, store t.terminal_buffer (position t) (make_vgaentry b' ' t.terminal_color))
unfolding typed
putchar-backspace c t on nl bs lt =
    let s1 = terminal_putchar_lem c t on in
    let view1 = typed-plain c t.terminal_color (position t) t.terminal_buffer nl bs lt in
    let s2 = terminal_putchar_lem backspace_char (terminal_putchar c t) s1.on_screen in
    let at1 : position (terminal_putchar c t) ≡ position t + 1 = s1.at ∙ ap (λ v. v.0) view1 in
    let cells1 = λ (i : ℕ). s1.cells i ∙ ap (λ v. v.1 i) view1 in
    record {
      on_screen = s2.on_screen;
      at = s2.at ∙ rw at1 (omega arith);
      cells = λ i. s2.cells i ∙ rw (at1, s1.color) (ground (arith, cells1 i));
      color = s2.color ∙ s1.color;
      visible = s2.visible ∙ s1.visible;
      counter = s2.counter ∙ s1.counter;
    }

-- `clear_screen` blanks the 2000 cells of the screen and no other, and puts the cursor first.
pub clear_screen_lem :
    (t : Terminal)
    → Shows t
        (clear_screen t)
        (0, λ i. if ltb i 2000 then make_vgaentry b' ' t.terminal_color else t.terminal_buffer i)
unfolding clear_screen update_hardware_cursor
clear_screen_lem t = record {
  on_screen = (omega arith, omega arith);
  at = refl;
  cells = λ i.
      ground (arith, blank_rows_at 25 0 (make_vgaentry b' ' t.terminal_color) t.terminal_buffer i);
  color = refl;
  visible = refl;
  counter = refl;
}
