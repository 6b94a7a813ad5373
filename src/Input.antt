-- ===== src/Input.antt =====
-- `TerminalInput` of iostream_wrapper.cpp: the command that was entered and the history of 20 commands.
-- A character array is the string it holds, which is faithful while the strings are shorter than the
-- arrays, 256 bytes. The index -1 of `history_index` is `none`.
pub mod History
pub mod Line
mod Examples
use text_os.Common.{
  ℕ, zero, suc, ◌+◌, ◌-◌, Bool, true, false, Option, none, some, List, [], ◌∷◌, length, ltb, ◌==◌,
  if◌then◌else◌,
}
use text_os.Format.{put_all}
use text_os.Terminal.{
  Terminal, vga_width, make_vgaentry, blank_row, terminal_putchar, update_hardware_cursor,
  backspace_char,
}

abbrev pub history_size : ℕ
history_size = 20

-- The entries by their number.
abbrev pub History : Type 0
History = ℕ → List ℕ

pub record TerminalInput : Type 0 where
  pub input_buffer : List ℕ
  pub input_ready : Bool
  pub input_length : ℕ
  pub command_history : History
  pub history_count : ℕ
  pub history_index : Option ℕ

-- `strcpy(command_history[i], s)`
abbrev pub set_entry : History → ℕ → List ℕ → History
set_entry h i s j = if j == i then s else h j

-- `for (i = …; i > 0; i--) strcpy(command_history[i], command_history[i-1])`
unfoldable pub shift_down : ℕ → History → History
shift_down zero h = h
shift_down (suc i) h = shift_down i (set_entry h (suc i) (h i))

unfoldable pub set_input_ready : List ℕ → TerminalInput → TerminalInput
set_input_ready buffer t =
    let kept =
      if ltb 0 (length buffer)
      then record t {
        command_history = set_entry (shift_down (history_size - 1) t.command_history) 0 buffer;
        history_count =
            if ltb t.history_count history_size then t.history_count + 1 else t.history_count;
      }
      else t in
    record kept { input_buffer = buffer; history_index = none; input_ready = true }

-- `while (current_col > 0) { terminal_putchar('\b'); current_col--; }`
unfoldable pub rub_out : ℕ → Terminal → Terminal
rub_out zero t = t
rub_out (suc current_col) t = rub_out current_col (terminal_putchar backspace_char t)

unfoldable pub clear_input_line : Terminal → Terminal
clear_input_line t =
    let r = rub_out t.terminal_column t in
    let blank =
      blank_row vga_width 0 r.terminal_row (make_vgaentry b' ' r.terminal_color)
        r.terminal_buffer in
    update_hardware_cursor 0 r.terminal_row
      (record r { terminal_buffer = blank; terminal_column = 0 })

-- The number behind `history_index`.
abbrev pub above_index : Option ℕ → ℕ
above_index none = 0
above_index (some i) = suc i

-- The two directions of `navigateHistory`, over the input and the terminal.
unfoldable pub history_up : TerminalInput → Terminal → TerminalInput × Terminal
history_up t s =
    let i = above_index t.history_index in
    if ltb i t.history_count
    then (
      record t {
        history_index = some i;
        input_buffer = t.command_history i;
        input_length = length (t.command_history i);
      },
      put_all terminal_putchar (t.command_history i) (clear_input_line s),
    )
    else (t, s)

unfoldable pub history_down : TerminalInput → Terminal → TerminalInput × Terminal
history_down t s = elim (t.history_index) [
  | none ↦ (t, s)
  | some zero ↦
      (record t { history_index = none; input_buffer = []; input_length = 0 }, clear_input_line s)
  | some (suc i) ↦ (
    record t {
      history_index = some i;
      input_buffer = t.command_history i;
      input_length = length (t.command_history i);
    },
    put_all terminal_putchar (t.command_history i) (clear_input_line s),
  )
]

unfoldable pub navigate_history : Bool → TerminalInput → Terminal → TerminalInput × Terminal
navigate_history up t s = if up then history_up t s else history_down t s
