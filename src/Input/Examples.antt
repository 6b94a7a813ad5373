-- ===== src/Input/Examples.antt =====
-- The input object with two commands in its history, and a line on the screen.
use text_os.Common.{zero, suc, ◌≡◌, arith, [], codes, some, true, false}
use text_os.Terminal.{Terminal}
use text_os.Input.{TerminalInput, History, set_input_ready, navigate_history}
use text_os.Input.History.{IsPushed, set_input_ready-IsPushed, navigate_history_back}

abbrev entries : History
entries zero = codes "mount"
entries (suc zero) = codes "ls"
entries (suc (suc i)) = []

abbrev input : TerminalInput
input = record {
  input_buffer = codes "ls";
  input_ready = false;
  input_length = 0;
  command_history = entries;
  history_count = 2;
  history_index = some 0;
}

abbrev screen : Terminal
screen = record {
  terminal_row = 4;
  terminal_column = 7;
  terminal_color = 7;
  terminal_buffer = λ i. 0x741;
  cursor_visible = true;
  cursor_blink_counter = 0;
  ports = [];
}

set_input_ready-IsPushed_example :
    IsPushed (codes "cat") input (set_input_ready (codes "cat") input)
set_input_ready-IsPushed_example =
    set_input_ready-IsPushed (codes "cat") input (omega arith) (omega arith)

navigate_history_back_example :
    ((navigate_history false
        (navigate_history true input screen).0
        (navigate_history true input screen).1).0.history_index
      ≡ some 0)
    × ((navigate_history false
          (navigate_history true input screen).0
          (navigate_history true input screen).1).0.input_buffer
        ≡ codes "mount")
navigate_history_back_example = navigate_history_back input screen (omega arith)
