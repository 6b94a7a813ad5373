-- ===== src/Scrollback/Pages.antt =====
-- The pages of the scrollback: which lines `show_scrollback_page` puts on the screen.
use text_os.Common.{
  ℕ, zero, suc, ◌+◌, ◌-◌, ◌*◌, ◌/◌, ◌^◌, ◌≤◌, ◌<◌, ◌≡◌, refl, sym, ◌∙◌, ap, true, false, ◌&&◌, ltb,
  leb, if◌then◌else◌, arith, u32, le→leb, lt→leb, lt→ltb, Bool-cases, inl, inr, ◌⊎◌, ◌%◌, ◌≢◌,
  ℕ_discrete,
}
use text_os.Memory.{store}
use text_os.Terminal.{Cells, update_hardware_cursor}
use text_os.Scrollback.{
  TerminalOutput, page_cell, page_row, page_rows, back_up, show_scrollback_page,
  get_scrollback_pages,
}
use text_os.Terminal.Cursor.{shown_position, update_hardware_cursor_lem}
use text_os.Scrollback.Lines.{recent}

page_row_at :
    (rounds x y : ℕ) (cell : ℕ → ℕ) (b : Cells) (i : ℕ)
    → page_row rounds x y cell b i
      ≡ (if leb (y * 80 + x) i && ltb i (y * 80 + x + rounds) then cell (i - y * 80) else b i)
unfolding page_row
page_row_at zero x y cell b i = ground arith
page_row_at (suc rounds) x y cell b i =
    ground (arith, page_row_at rounds (x + 1) y cell (store b (y * 80 + x) (cell x)) i)

page_rows_outside :
    (rows y : ℕ) (cell : ℕ → ℕ → ℕ) (b : Cells) (i : ℕ)
    → (i < y * 80) ⊎ ((y + rows) * 80 ≤ i)
    → page_rows rows y cell b i ≡ b i
unfolding page_rows
page_rows_outside zero y cell b i h = refl
page_rows_outside (suc rows) y cell b i (inl h) = ground (
  arith,
  page_rows_outside rows (y + 1) cell (page_row 80 0 y (cell y) b) i (inl (omega arith)),
  page_row_at 80 0 y (cell y) b i,
)
page_rows_outside (suc rows) y cell b i (inr h) = ground (
  arith,
  page_rows_outside rows (y + 1) cell (page_row 80 0 y (cell y) b) i (inr (omega arith)),
  page_row_at 80 0 y (cell y) b i,
)

-- A cell of the rows that were written.
page_rows_inside :
    (rows y : ℕ) (cell : ℕ → ℕ → ℕ) (b : Cells) (r x : ℕ)
    → y ≤ r
    → r < y + rows
    → x < 80
    → page_rows rows y cell b (r * 80 + x) ≡ cell r x
unfolding page_rows
page_rows_inside zero y cell b r x lo hi lt = absurd (omega arith)
page_rows_inside (suc rows) y cell b r x lo hi lt = elim (ℕ_discrete y r) [
  | yes here ↦
      let rest =
        page_rows_outside rows (y + 1) cell (page_row 80 0 y (cell y) b) (r * 80 + x)
          (inl (omega arith)) in
      let column : r * 80 + x - y * 80 ≡ x = omega arith in
      rest
      ∙ page_row_at 80 0 y (cell y) b (r * 80 + x)
      ∙ rw (
        le→leb (y * 80 + 0) (r * 80 + x) (omega arith),
        lt→ltb (r * 80 + x) (y * 80 + 0 + 80) (omega arith),
        column,
        here,
      )
  | no later ↦
      page_rows_inside rows (y + 1) cell (page_row 80 0 y (cell y) b) r x (omega arith)
        (omega arith) lt
]

-- A page that is on the screen: line `y` of page `page` is the one that scrolled off
-- `page * 25 + 24 - y` lines before the latest. The row and the column of the terminal, the cells behind the screen and the
-- history are as before, and the hardware cursor is on the first cell of the last row.
pub record IsPage (page : ℕ) (o o' : TerminalOutput) : Type 0 where
  pub lines :
      (y x : ℕ)
      → y < 25
      → x < 80
      → o'.terminal.terminal_buffer (y * 80 + x) ≡ recent o (page * 25 + (24 - y)) x
  pub behind : (i : ℕ) → 2000 ≤ i → o'.terminal.terminal_buffer i ≡ o.terminal.terminal_buffer i
  pub history : o'.scrollback_buffer ≡ o.scrollback_buffer
  pub count : o'.scrollback_lines ≡ o.scrollback_lines
  pub row : o'.terminal.terminal_row ≡ o.terminal.terminal_row
  pub column : o'.terminal.terminal_column ≡ o.terminal.terminal_column
  pub hardware_cursor : shown_position o'.terminal.ports ≡ 24 * 80

page_cell-recent :
    (o : TerminalOutput) (page y x : ℕ)
    → o.scrollback_lines ≤ 1000
    → page < o.scrollback_lines / 25
    → y < 25
    → page_cell o (o.scrollback_lines - (page + 1) * 25) y x ≡ recent o (page * 25 + (24 - y)) x
unfolding page_cell
page_cell-recent o page y x h lt hy =
    let line : u32 (o.scrollback_lines - (page + 1) * 25 + y)
        ≡ o.scrollback_lines - 1 - (page * 25 + (24 - y)) =
      omega arith in
    rw (
      line,
      lt→ltb (o.scrollback_lines - 1 - (page * 25 + (24 - y))) o.scrollback_lines (omega arith),
    )

back_up-keeps :
    (o : TerminalOutput)
    → ((back_up o).scrollback_buffer ≡ o.scrollback_buffer)
      × ((back_up o).scrollback_lines ≡ o.scrollback_lines)
unfolding back_up
back_up-keeps o = elim (Bool-cases o.first_scrollback) [
  | inl first ↦ rw first (refl, refl)
  | inr later ↦ rw later (refl, refl)
]

-- With at most 1000 lines, a page number below the number of full pages shows that page, puts the
-- hardware cursor on the first cell of the last row, and changes neither the row and the column of the
-- terminal nor the history.
pub show_scrollback_page-IsPage :
    (page : ℕ) (o : TerminalOutput)
    → o.scrollback_lines ≤ 1000
    → page < o.scrollback_lines / 25
    → ((show_scrollback_page page o).0 ≡ true) × IsPage page o (show_scrollback_page page o).1
unfolding show_scrollback_page update_hardware_cursor
show_scrollback_page-IsPage page o h lt =
    let line : u32 (o.scrollback_lines + (2 ^ 32 - u32 ((page + 1) * 25)))
        ≡ o.scrollback_lines - (page + 1) * 25 =
      omega arith in
    let start = o.scrollback_lines - (page + 1) * 25 in
    let (buffer, count) = back_up-keeps o in
    rw
      (
        lt→leb (2 ^ 31) page (omega arith),
        lt→leb (o.scrollback_lines / 25) page lt,
        line,
        lt→leb (2 ^ 31) start (omega arith),
      )
      (
        refl,
        record {
          lines = λ y x hy hx.
              page_rows_inside 25 0 (page_cell (back_up o) start) o.terminal.terminal_buffer y x
                (omega arith) (omega arith) hx
              ∙ shown_cell buffer count y x hy;
          behind = λ i le.
              page_rows_outside 25 0 (page_cell (back_up o) start) o.terminal.terminal_buffer i
                (inr (omega arith));
          history = buffer;
          count = count;
          row = refl;
          column = refl;
          hardware_cursor =
              (update_hardware_cursor_lem 0 24 o.terminal (omega arith) (omega arith)).0;
        },
      )
  where
    shown_cell :
        (back_up o).scrollback_buffer ≡ o.scrollback_buffer
        → (back_up o).scrollback_lines ≡ o.scrollback_lines
        → (y x : ℕ) → y < 25
        → page_cell (back_up o) (o.scrollback_lines - (page + 1) * 25) y x
          ≡ recent o (page * 25 + (24 - y)) x
    shown_cell buffer count y x hy =
        ap (λ n. page_cell (back_up o) (n - (page + 1) * 25) y x) (sym count)
        ∙ page_cell-recent (back_up o) page y x (rw count h) (rw count lt) hy
        ∙ rw (buffer, count)

-- A page number from the number of full pages on, so a negative one too, is refused and changes nothing.
pub page_refused :
    (page : ℕ) (o : TerminalOutput)
    → o.scrollback_lines / 25 ≤ page
    → show_scrollback_page page o ≡ (false, o)
unfolding show_scrollback_page
page_refused page o le = ground arith

-- The number of pages is rounded up: unless the lines fill whole pages, the last page that
-- `get_scrollback_pages` counts is refused by `show_scrollback_page`.
pub last_page_refused :
    (o : TerminalOutput)
    → o.scrollback_lines % 25 ≢ 0
    → show_scrollback_page (get_scrollback_pages o - 1) o ≡ (false, o)
unfolding get_scrollback_pages
last_page_refused o ne = page_refused (get_scrollback_pages o - 1) o (omega arith)
