-- ===== src/Terminal/Output.antt =====
-- Whole strings on the terminal: `terminal_writestring` and `printf` of a started terminal.
use text_os.Common.{
  ℕ, ◌+◌, ◌/◌, ◌%◌, ◌^◌, ◌<◌, ◌≡◌, refl, ◌∙◌, ap, sym, fun_ext, List, [], ◌∷◌, length, some, none,
  Option, arith, ltb, if◌then◌else◌,
}
use mathlib.Core.Path.{subst}
use text_os.Memory.{Memory}
use text_os.CString.Strings.{IsString, strlen_lem}
use text_os.Format.{Arg, put_all}
use text_os.Format.Meaning.{IsSupplied, Means, text-Means}
use text_os.Format.Text.{sent, format-sent}
use text_os.Terminal.{
  Cells, Ports, Terminal, make_color, make_vgaentry, terminal_putchar, put_screen, put_range,
  terminal_writestring, printf, blank_rows, terminal_initialize, enable_hardware_cursor,
  update_hardware_cursor,
}
use text_os.Terminal.Cells.{blank_rows_at}
use text_os.Terminal.Screen.{IsOnScreen, position, typed, Shows, terminal_putchar_lem}
use text_os.Terminal.Cursor.{shown_position, is_off, enable_lem, update_hardware_cursor_lem}

-- The typewriter over a list of characters.
unfoldable pub typed_all : List ℕ → ℕ → ℕ × Cells → ℕ × Cells
typed_all [] color view = view
typed_all (c ∷ cs) color view = typed_all cs color (typed c color view.0 view.1)

put_all-Shows :
    (cs : List ℕ) (t : Terminal)
    → IsOnScreen t
    → Shows t
        (put_all terminal_putchar cs t)
        (typed_all cs t.terminal_color (position t, t.terminal_buffer))
unfolding typed_all
put_all-Shows [] t on = record {
  on_screen = on;
  at = refl;
  cells = λ i. refl;
  color = refl;
  visible = refl;
  counter = refl;
}
put_all-Shows (c ∷ cs) t on =
    let one = terminal_putchar_lem c t on in
    let rest = put_all-Shows cs (terminal_putchar c t) one.on_screen in
    let same : typed_all cs (terminal_putchar c t).terminal_color
          (position (terminal_putchar c t), (terminal_putchar c t).terminal_buffer)
        ≡ typed_all cs t.terminal_color (typed c t.terminal_color (position t) t.terminal_buffer) =
      rw (one.color, one.at, fun_ext one.cells) in
    record {
      on_screen = rest.on_screen;
      at = rest.at ∙ ap (λ v. v.0) same;
      cells = λ i. rest.cells i ∙ ap (λ v. v.1 i) same;
      color = rest.color ∙ one.color;
      visible = rest.visible ∙ one.visible;
      counter = rest.counter ∙ one.counter;
    }

put_range-put_all :
    (cs : List ℕ) (i s : ℕ) (m : Memory) (t : Terminal)
    → IsString m (s + i) cs
    → put_range (length cs) i m s t ≡ put_all terminal_putchar cs t
unfolding put_range
put_range-put_all [] i s m t h = refl
put_range-put_all (c ∷ cs) i s m t (e, ne, h) =
    let next : s + i + 1 ≡ s + (i + 1) = omega arith in
    rw (put_range, e)
      (put_range-put_all cs (i + 1) s m (terminal_putchar c t)
        (subst (λ a. IsString m a cs) next h))

-- The terminal `r` is what the typewriter leaves of the characters `cs`, with the cursor on the screen.
abbrev pub Types : List ℕ → Terminal → Option Terminal → Type 0
Types cs t none = ⊥
Types cs t (some r) = Shows t r (typed_all cs t.terminal_color (position t, t.terminal_buffer))

Types-put_all :
    (cs : List ℕ) (t : Terminal) (o : Option Terminal)
    → IsOnScreen t
    → o ≡ some (put_all terminal_putchar cs t)
    → Types cs t o
Types-put_all cs t o on e = subst (Types cs t) (sym e) (put_all-Shows cs t on)

-- From a cursor on the screen, `terminal_writestring` with fuel above the length of the string types
-- the characters of the string at its address, and keeps the cursor on the screen.
pub terminal_writestring_lem :
    (fuel s : ℕ) (m : Memory) (cs : List ℕ) (t : Terminal)
    → IsOnScreen t
    → IsString m s cs
    → length cs < fuel
    → Types cs t (terminal_writestring fuel m s t)
unfolding terminal_writestring
terminal_writestring_lem fuel s m cs t on h lt =
    let here : s ≡ s + 0 = omega arith in
    Types-put_all cs t (terminal_writestring fuel m s t) on (
      rw (terminal_writestring, strlen_lem fuel s m cs h lt)
        (ap some (put_range-put_all cs 0 s m t (subst (λ a. IsString m a cs) here h))))

put_screen-put_all :
    (cs : List ℕ) (t : Terminal) (n : ℕ)
    → put_all put_screen cs (t, n) ≡ (put_all terminal_putchar cs t, n + length cs)
put_screen-put_all [] t n = ap (λ k. (t, k)) (omega arith)
put_screen-put_all (c ∷ cs) t n =
    put_screen-put_all cs (terminal_putchar c t) (n + 1)
    ∙ ap (λ k. (put_all terminal_putchar cs (terminal_putchar c t), k)) (omega arith)

-- From a cursor on the screen, where each directive of a format finds an argument of its kind, none of
-- them the least `int` for a signed number, `printf` types the text that the format means, keeps the
-- cursor on the screen and returns the number of characters of the text: plain characters as they
-- are, strings and characters as given, and for each number digits in decimal or hexadecimal that
-- read back as it, without a zero in front, a sign before a negative one and `0x` before a pointer.
pub printf_lem :
    (fmt : List ℕ) (args : List Arg) (t : Terminal)
    → IsOnScreen t
    → IsSupplied fmt args
    → (cs : List ℕ) × (r : Terminal) × Means fmt args cs
      × (printf fmt args t ≡ some (r, length cs))
      × Types cs t (some r)
unfolding printf
printf_lem fmt args t on supplied =
    let (cs, e, means) = text-Means fmt args supplied in
    (
      cs,
      put_all terminal_putchar cs t,
      means,
      format-sent put_screen fmt args (t, 0)
          ∙ ap (sent put_screen (t, 0)) e
          ∙ ap some (
              put_screen-put_all cs t 0
              ∙ ap (λ k. (put_all terminal_putchar cs t, k)) (omega arith)),
      put_all-Shows cs t on,
    )

-- The state after the start: a screen of blanks in light grey on black, and the cursor first.
pub record Started (t r : Terminal) : Type 0 where
  pub on_screen : IsOnScreen r
  pub at : position r ≡ 0
  pub cells : (i : ℕ) → r.terminal_buffer i ≡ (if ltb i 2000 then 0x720 else t.terminal_buffer i)
  pub shown : shown_position r.ports ≡ 0
  pub turned_on : is_off r.ports ≡ 0

-- If the data port answers bytes, `terminal_initialize` leaves the terminal started: the cells of the
-- screen blank and no other changed, both cursors on the first cell, and the hardware cursor on.
pub terminal_initialize_lem :
    (inb : Ports → ℕ → ℕ) (t : Terminal)
    → ((ps : Ports) (port : ℕ) → inb ps port < 2 ^ 8)
    → Started t (terminal_initialize inb t)
unfolding terminal_initialize enable_hardware_cursor update_hardware_cursor make_color make_vgaentry
terminal_initialize_lem inb t bytes =
    let cleared = record t {
      terminal_row = 0;
      terminal_column = 0;
      terminal_color = 7;
      terminal_buffer = blank_rows 25 0 0x720 t.terminal_buffer;
    } in
    let on = enable_hardware_cursor inb 14 15 cleared in
    let moved = update_hardware_cursor_lem 0 0 on (omega arith) (omega arith) in
    record {
      on_screen = (omega arith, omega arith);
      at = refl;
      cells = λ i. ground (arith, blank_rows_at 25 0 0x720 t.terminal_buffer i);
      shown = moved.0;
      turned_on =
          ap (λ r. r / 2 ^ 5 % 2) (moved.1 0x0A (omega arith) (omega arith))
          ∙ enable_lem inb bytes cleared;
    }
