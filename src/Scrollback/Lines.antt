-- ===== src/Scrollback/Lines.antt =====
-- The scrollback as a history of lines, the most recent first: a scroll puts the top line of the
-- screen in front, whether or not the buffer was full.
use text_os.Common.{
  ℕ, zero, suc, ◌+◌, ◌-◌, ◌*◌, ◌≤◌, ◌<◌, ◌≡◌, ap, ◌&&◌, ltb, leb, if◌then◌else◌, arith, min, dec_lt,
  lt→ltb, le→ltb,
}
use text_os.Memory.{store}
use text_os.Terminal.{Cells, copy_rows}
use text_os.Terminal.Cells.{copy_rows_at}
use text_os.Scrollback.{TerminalOutput, save_line, save_top}

-- Column `x` of the line that scrolled off `k` lines before the latest.
abbrev pub recent : TerminalOutput → ℕ → ℕ → ℕ
recent o k x = o.scrollback_buffer ((o.scrollback_lines - 1 - k) * 80 + x)

save_line_at :
    (rounds x line : ℕ) (screen b : Cells) (i : ℕ)
    → save_line rounds x line screen b i ≡ (
        if leb (line * 80 + x) i && ltb i (line * 80 + x + rounds)
        then screen (i - line * 80)
        else b i)
unfolding save_line
save_line_at zero x line screen b i = ground arith
save_line_at (suc rounds) x line screen b i =
    ground (arith, save_line_at rounds (x + 1) line screen (store b (line * 80 + x) (screen x)) i)

-- The history `o'` is that of `o` with the line `top` in front, cut to 1000 lines.
pub record Pushed (top : Cells) (o o' : TerminalOutput) : Type 0 where
  pub lines : o'.scrollback_lines ≡ min 1000 (o.scrollback_lines + 1)
  pub newest : (x : ℕ) → x < 80 → recent o' 0 x ≡ top x
  pub older : (k x : ℕ) → x < 80 → k + 1 < o'.scrollback_lines → recent o' (k + 1) x ≡ recent o k x

-- Saving the top line pushes it on the history.
pub save_top_lem :
    (o : TerminalOutput)
    → o.scrollback_lines ≤ 1000
    → Pushed o.terminal.terminal_buffer o (save_top o)
unfolding save_top
save_top_lem o h = elim (dec_lt o.scrollback_lines 1000) [
  | yes room ↦ rw (lt→ltb o.scrollback_lines 1000 room) (record {
    lines = omega arith;
    newest = λ x lt. ground (
      arith,
      save_line_at 80 0 o.scrollback_lines o.terminal.terminal_buffer o.scrollback_buffer
          ((o.scrollback_lines + 1 - 1 - 0) * 80 + x),
    );
    older = λ k x lt old. ground (
      arith,
      save_line_at 80 0 o.scrollback_lines o.terminal.terminal_buffer o.scrollback_buffer
          ((o.scrollback_lines + 1 - 1 - (k + 1)) * 80 + x),
    );
  })
  | no full ↦ rw (le→ltb o.scrollback_lines 1000 (omega arith)) (record {
    lines = omega arith;
    newest = λ x lt. ground (arith, shifted ((o.scrollback_lines - 1 - 0) * 80 + x));
    older = λ k x lt old. ground (
      arith,
      shifted ((o.scrollback_lines - 1 - (k + 1)) * 80 + x),
      copy_rows_at 999 0 o.scrollback_buffer ((o.scrollback_lines - 1 - (k + 1)) * 80 + x),
      one_up (o.scrollback_lines - 1 - k) (o.scrollback_lines - 1 - (k + 1)) x (omega arith),
    );
  })
]
  where
    shifted :
        (i : ℕ)
        → save_line 80 0 999 o.terminal.terminal_buffer (copy_rows 999 0 o.scrollback_buffer) i ≡ (
            if leb (999 * 80 + 0) i && ltb i (999 * 80 + 0 + 80)
            then o.terminal.terminal_buffer (i - 999 * 80)
            else copy_rows 999 0 o.scrollback_buffer i)
    shifted = save_line_at 80 0 999 o.terminal.terminal_buffer (copy_rows 999 0 o.scrollback_buffer)

    one_up :
        (a b x : ℕ)
        → a ≡ b + 1
        → o.scrollback_buffer (b * 80 + x + 80) ≡ o.scrollback_buffer (a * 80 + x)
    one_up a b x e = ap o.scrollback_buffer (omega arith)

pub save_top-hex : (o : TerminalOutput) → (save_top o).use_hex_format ≡ o.use_hex_format
unfolding save_top
save_top-hex o = ground arith
