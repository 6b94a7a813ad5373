-- ===== src/Scrollback/Typing.antt =====
-- `put_char` against a typewriter over one array of 2000 cells with a tabulator every 8 cells, and
-- with the lines that roll off kept in the history.
use text_os.Common.{
  ℕ, ◌+◌, ◌-◌, ◌*◌, ◌/◌, ◌^◌, ◌≤◌, ◌<◌, ◌≡◌, refl, true, leb, ◌==◌, ==_iff, if◌then◌else◌, arith,
  u32, bit_and, inl, inr, Bool-cases, eq→==, ne→==, le→leb, lt→leb, dec_lt, ℕ_discrete,
}
use text_os.Common.Bits.{every_below, every_below_sound}
use text_os.Memory.{store}
use text_os.Terminal.{
  Cells, Terminal, make_vgaentry, backspace, newline_char, backspace_char, terminal_putentryat,
  update_hardware_cursor,
}
use text_os.Terminal.Cells.{scrolled, scrolled_at}
use text_os.Terminal.Screen.{IsOnScreen, position, backspace-Shows}
use text_os.Scrollback.{
  TerminalOutput, next_line, tab, put_entry, put_plain, put_char, scroll_screen_internal,
  return_char, tab_char, with_terminal,
}
use text_os.Scrollback.Lines.{Pushed, save_top_lem, save_top-hex}

-- The cursor is on the screen and the scrollback within its buffer.
abbrev pub IsValid : TerminalOutput → Type 0
IsValid o = IsOnScreen o.terminal × (o.scrollback_lines ≤ 1000)

-- The position and the cells before the paper rolls.
unfoldable pub struck : ℕ → ℕ → ℕ → Cells → ℕ × Cells
struck c color p b =
    if c == newline_char
    then ((p / 80 + 1) * 80, b)
    else if c == backspace_char
    then (p - 1, if p == 0 then b else store b (p - 1) (make_vgaentry b' ' color))
    else if c == return_char
    then (p / 80 * 80, b)
    else if c == tab_char
    then (p / 8 * 8 + 8, b)
    else (p + 1, store b p (make_vgaentry c color))

-- The line that rolls off with the position `p` is the latest of the history; without a roll the
-- history is as before.
abbrev pub Recorded : ℕ → Cells → TerminalOutput → TerminalOutput → Type 0
Recorded p b o o' =
    (2000 ≤ p → Pushed b o o')
    × (p < 2000
        → (o'.scrollback_buffer ≡ o.scrollback_buffer) × (o'.scrollback_lines ≡ o.scrollback_lines))

-- The state `o'` shows `p` and the cells `b` after the roll that they need.
pub record Prints (o o' : TerminalOutput) (p : ℕ) (b : Cells) : Type 0 where
  pub valid : IsValid o'
  pub at : position o'.terminal ≡ (if leb 2000 p then p - 80 else p)
  pub cells :
      (i : ℕ)
      → o'.terminal.terminal_buffer i
        ≡ (if leb 2000 p then scrolled (make_vgaentry b' ' o.terminal.terminal_color) b i else b i)
  pub recorded : Recorded p b o o'
  pub color : o'.terminal.terminal_color ≡ o.terminal.terminal_color
  pub hex : o'.use_hex_format ≡ o.use_hex_format

next_line-Prints :
    (o : TerminalOutput) (p : ℕ)
    → IsValid o
    → p ≡ o.terminal.terminal_row * 80 + 80
    → Prints o (next_line o) p o.terminal.terminal_buffer
unfolding next_line scroll_screen_internal
next_line-Prints o p (on, lines) e = elim (ℕ_discrete o.terminal.terminal_row 24) [
  | yes last ↦
      let moved = with_terminal o (record (o.terminal) {
        terminal_column = 0;
        terminal_row = u32 (o.terminal.terminal_row + 1);
      }) in
      let saved = save_top_lem moved lines in
      rw (eq→== (u32 (o.terminal.terminal_row + 1)) 25 (omega arith)) (record {
        valid = ((omega arith, omega arith), omega (arith, saved.lines));
        at = rw (le→leb 2000 p (omega arith)) (omega arith);
        cells = λ i. rw (le→leb 2000 p (omega arith)) (
            scrolled_at (make_vgaentry b' ' o.terminal.terminal_color) o.terminal.terminal_buffer
              i);
        recorded = (
          λ le. record { lines = saved.lines; newest = saved.newest; older = saved.older },
          λ lt. absurd (omega arith),
        );
        color = refl;
        hex = save_top-hex moved;
      })
  | no inner ↦ rw (ne→== (u32 (o.terminal.terminal_row + 1)) 25 (omega arith)) (record {
    valid = ((omega arith, omega arith), lines);
    at = ground arith;
    cells = λ i. ground arith;
    recorded = (λ le. absurd (omega arith), λ lt. (refl, refl));
    color = refl;
    hex = refl;
  })
]

-- A change of the terminal alone that stays on the screen.
kept-Prints :
    (o : TerminalOutput) (t : Terminal) (p : ℕ) (b : Cells)
    → IsValid o
    → IsOnScreen t
    → position t ≡ p
    → ((i : ℕ) → t.terminal_buffer i ≡ b i)
    → t.terminal_color ≡ o.terminal.terminal_color
    → Prints o (with_terminal o t) p b
kept-Prints o t p b (on, lines) on' at cells color =
    let small : p < 2000 = omega arith in
    record {
      valid = (on', lines);
      at = rw (lt→leb 2000 p small) at;
      cells = λ i. rw (lt→leb 2000 p small) (cells i);
      recorded = (λ le. absurd (omega arith), λ lt. (refl, refl));
      color = color;
      hex = refl;
    }

tab_table : every_below 88 (λ x. bit_and x (2 ^ 32 - 8) == x / 8 * 8) ≡ true
unfolding every_below
tab_table = refl

tab_stop : (x : ℕ) → x < 80 → bit_and (u32 (x + 8)) (2 ^ 32 - 8) ≡ x / 8 * 8 + 8
tab_stop x h =
    let same : u32 (x + 8) ≡ x + 8 = omega arith in
    rw same (omega (arith, (==_iff _ _).0 (every_below_sound 88 _ (x + 8) tab_table (omega arith))))

tab-Prints :
    (o : TerminalOutput)
    → IsValid o
    → Prints o (tab o) (position o.terminal / 8 * 8 + 8) o.terminal.terminal_buffer
unfolding tab
tab-Prints o (on, lines) = elim (dec_lt (o.terminal.terminal_column / 8 * 8 + 8) 80) [
  | yes inner ↦
      rw
        (
          tab_stop o.terminal.terminal_column (on.1),
          lt→leb 80 (o.terminal.terminal_column / 8 * 8 + 8) inner,
        )
        (kept-Prints o
          (record (o.terminal) { terminal_column = o.terminal.terminal_column / 8 * 8 + 8 }) _ _
          (on, lines) (on.0, inner) (omega arith) (λ i. refl) refl)
  | no last ↦
      rw
        (
          tab_stop o.terminal.terminal_column (on.1),
          le→leb 80 (o.terminal.terminal_column / 8 * 8 + 8) (omega arith),
        )
        (next_line-Prints o _ (on, lines) (omega arith))
]

put_entry-Prints :
    (c : ℕ) (o : TerminalOutput)
    → IsValid o
    → Prints o (put_entry c o) (position o.terminal + 1) (
        store o.terminal.terminal_buffer
          (position o.terminal)
          (make_vgaentry c o.terminal.terminal_color))
unfolding put_entry
put_entry-Prints c o (on, lines) = elim (ℕ_discrete o.terminal.terminal_column 79) [
  | yes last ↦
      let t = o.terminal in
      let t' = terminal_putentryat c t.terminal_color t.terminal_column t.terminal_row t in
      let s = next_line-Prints (with_terminal o t') (position t + 1) (on, lines) (omega arith) in
      rw (eq→== (u32 (t.terminal_column + 1)) 80 (omega arith)) (record {
        valid = s.valid;
        at = s.at;
        cells = s.cells;
        recorded = (
          λ le.
              let pushed = s.recorded.0 le in
              record { lines = pushed.lines; newest = pushed.newest; older = pushed.older },
          s.recorded.1,
        );
        color = s.color;
        hex = s.hex;
      })
  | no inner ↦
      let t = o.terminal in
      let t' = terminal_putentryat c t.terminal_color t.terminal_column t.terminal_row t in
      rw (ne→== (u32 (t.terminal_column + 1)) 80 (omega arith)) (
        kept-Prints o (record t' { terminal_column = u32 (t.terminal_column + 1) }) _ _ (on, lines)
          (on.0, omega arith) (omega arith) (λ i. refl) refl)
]

put_plain-Prints :
    (c : ℕ) (o : TerminalOutput)
    → IsValid o
    → Prints o
        (put_plain c o)
        (struck c o.terminal.terminal_color (position o.terminal) o.terminal.terminal_buffer).0
        (struck c o.terminal.terminal_color (position o.terminal) o.terminal.terminal_buffer).1
unfolding put_plain struck
put_plain-Prints c o v = elim (Bool-cases (c == newline_char)) [
  | inl newline ↦ rw newline (next_line-Prints o _ v (omega arith))
  | inr other ↦ rw other (elim (Bool-cases (c == backspace_char)) [
    | inl back ↦
        let s = backspace-Shows o.terminal (v.0) in
        rw back (kept-Prints o (backspace o.terminal) _ _ v s.on_screen s.at s.cells s.color)
    | inr other ↦ rw other (elim (Bool-cases (c == return_char)) [
      | inl return ↦ rw return (
          kept-Prints o (record (o.terminal) { terminal_column = 0 }) _ _ v (v.0.0, omega arith)
            (omega arith) (λ i. refl) refl)
      | inr other ↦ rw other (elim (Bool-cases (c == tab_char)) [
        | inl tabulate ↦ rw tabulate (tab-Prints o v)
        | inr plain ↦ rw plain (put_entry-Prints c o v)
      ])
    ])
  ])
]

-- `put_char` does what the typewriter does, for every character: position and cells agree after the
-- roll, a line that rolls off is recorded as the latest of the history and nothing else changes
-- that, and the cursor stays on the screen and the scrollback within its 1000 lines.
pub put_char_lem :
    (c : ℕ) (o : TerminalOutput)
    → IsValid o
    → Prints o
        (put_char c o)
        (struck c o.terminal.terminal_color (position o.terminal) o.terminal.terminal_buffer).0
        (struck c o.terminal.terminal_color (position o.terminal) o.terminal.terminal_buffer).1
unfolding put_char update_hardware_cursor
put_char_lem c o v =
    let s = put_plain-Prints c o v in
    record {
      valid = s.valid;
      at = s.at;
      cells = s.cells;
      recorded = (
        λ le.
            let pushed = s.recorded.0 le in
            record { lines = pushed.lines; newest = pushed.newest; older = pushed.older },
        s.recorded.1,
      );
      color = s.color;
      hex = s.hex;
    }
