-- ===== src/Interrupts/Examples.antt =====
-- The console with "ls" typed, and with a line that fills the buffer.
use text_os.Common.{◌≡◌, refl, arith, [], ◌∷◌, codes, none, true, false, get_or}
use text_os.CString.Copying.{write_string}
use text_os.Terminal.{Ports}
use text_os.Interrupts.{Console, keyboard_handler, timer_handler, scancode_to_ascii}
use text_os.Interrupts.Editor.{
  Edits, edited, received, keyboard_handler-Edits, handlers_acknowledge,
}

abbrev typing : Console
typing = record {
  extended_key = false;
  input_buffer = write_string (λ a. 0) 0 (codes "ls");
  input_length = 2;
  cin = record {
    input_buffer = [];
    input_ready = false;
    input_length = 0;
    command_history = λ i. [];
    history_count = 0;
    history_index = none;
  };
  terminal = record {
    terminal_row = 4;
    terminal_column = 7;
    terminal_color = 7;
    terminal_buffer = λ i. 0x720;
    cursor_visible = true;
    cursor_blink_counter = 0;
    ports = [];
  };
}

abbrev full : Console
full = record typing { input_length = 80 }

-- The enter key has the scancode 28.
keyboard_handler-Edits_example :
    Edits
      (edited (get_or scancode_to_ascii 28 0) (codes "ls"))
      (received (get_or scancode_to_ascii 28 0) (codes "ls") typing.cin)
      (keyboard_handler 28 typing)
keyboard_handler-Edits_example =
    keyboard_handler-Edits 28 (codes "ls") typing (omega arith) refl (omega arith)
      ((refl, omega arith, (refl, omega arith, tt)), refl)

handlers_acknowledge_example :
    ((ps : Ports) × ((keyboard_handler 0xE0 typing).terminal.ports ≡ (0x20, 0x20) ∷ ps))
    × ((ps : Ports) × ((timer_handler (λ ps port. 255) typing).terminal.ports ≡ (0x20, 0x20) ∷ ps))
handlers_acknowledge_example = handlers_acknowledge 0xE0 (λ ps port. 255) typing
