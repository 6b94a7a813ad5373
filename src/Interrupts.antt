-- ===== src/Interrupts.antt =====
-- interrupts.cpp: the keyboard and timer handlers, the descriptor tables, and the programming of the
-- interrupt controllers and the timer. The handlers run over the globals that they share with the
-- terminal and the input object. The scancode that the keyboard port answers is an argument. Loading a
-- table and enabling interrupts are machine instructions and are not modelled.
pub mod Editor
pub mod Descriptors
mod Examples
use text_os.Common.{
  ℕ, zero, suc, ◌+◌, ◌-◌, ◌*◌, ◌/◌, ◌%◌, ◌^◌, Bool, true, false, not, ◌&&◌, List, [], ◌∷◌, ◌++◌,
  get_or, replicate, codes, ltb, leb, ◌==◌, if◌then◌else◌, u8, u16, u32, bit_and, bit_or,
}
use text_os.Memory.{Memory, store}
use text_os.Terminal.{
  Ports, Terminal, outb, terminal_putchar, update_cursor_state, newline_char, backspace_char,
}
use text_os.Input.{TerminalInput, set_input_ready}

-- `scancode_to_ascii`: the entries that are written out, and zeros up to 128.
abbrev pub scancode_to_ascii : List ℕ
scancode_to_ascii =
    0
    ∷ 0
    ∷ (codes "1234567890-="
        ++ (8
            ∷ 9
            ∷ (codes "qwertyuiop[]"
                ++ (10
                    ∷ 0
                    ∷ (codes "asdfghjkl;'`"
                        ++ (0
                            ∷ 92
                            ∷ (codes "zxcvbnm,./"
                                ++ (0
                                    ∷ b'*'
                                    ∷ 0
                                    ∷ b' '
                                    ∷ (replicate 17 0
                                        ++ (b'-' ∷ 0 ∷ 0 ∷ 0 ∷ b'+' ∷ replicate 48 0))))))))))

-- The size that the handler tests, as iostream_wrapper.h redefines it.
abbrev pub max_command_length : ℕ
max_command_length = 256

-- The globals of the keyboard, the object `cin` and the terminal.
pub record Console : Type 0 where
  pub extended_key : Bool
  pub input_buffer : Memory
  pub input_length : ℕ
  pub cin : TerminalInput
  pub terminal : Terminal

abbrev pub on_terminal : (Terminal → Terminal) → Console → Console
on_terminal f k = record k { terminal = f k.terminal }

-- `outb(0x20, 0x20)`
abbrev pub end_of_interrupt : Console → Console
end_of_interrupt k = on_terminal (outb 0x20 0x20) k

-- The string from index `i` on, which ends at a zero at index `i + rounds` or before.
unfoldable pub read_string : ℕ → ℕ → Memory → List ℕ
read_string zero i m = []
read_string (suc rounds) i m =
    let rest = read_string rounds (i + 1) m in if m i == 0 then [] else m i ∷ rest

-- The case '\n': the line goes to `cin`, up to the zero that is stored behind it.
unfoldable pub enter_key : Console → Console
enter_key k =
    let buffer = store k.input_buffer k.input_length 0 in
    record k {
      input_buffer = buffer;
      cin = set_input_ready (read_string k.input_length 0 buffer) k.cin;
      input_length = 0;
      terminal = terminal_putchar newline_char k.terminal;
    }

-- `if (key != 0) { … }`
unfoldable pub normal_key : ℕ → Console → Console
normal_key key k =
    if key == 0
    then k
    else if key == newline_char
    then enter_key k
    else if key == backspace_char
    then (if ltb 0 k.input_length
        then record k {
          input_length = k.input_length - 1;
          terminal = terminal_putchar key k.terminal;
        }
        else k)
    else if ltb k.input_length (max_command_length - 1)
    then record k {
      input_buffer = store k.input_buffer k.input_length key;
      input_length = k.input_length + 1;
      terminal = terminal_putchar key k.terminal;
    }
    else k

unfoldable pub keyboard_handler : ℕ → Console → Console
keyboard_handler scancode k =
    if scancode == 0xE0
    then end_of_interrupt (record k { extended_key = true })
    else if not (bit_and scancode 0x80 == 0)
    then end_of_interrupt (record k { extended_key = false })
    else if k.extended_key
    then end_of_interrupt (record k { extended_key = false })
    else end_of_interrupt (normal_key (get_or scancode_to_ascii scancode 0) k)

unfoldable pub timer_handler : (Ports → ℕ → ℕ) → Console → Console
timer_handler inb k = end_of_interrupt (on_terminal (update_cursor_state inb) k)

pub record GdtEntry : Type 0 where
  pub limit_low : ℕ
  pub base_low : ℕ
  pub base_middle : ℕ
  pub access : ℕ
  pub granularity : ℕ
  pub base_high : ℕ

-- The entry that `gdt_set_gate` writes.
unfoldable pub gdt_set_gate : ℕ → ℕ → ℕ → ℕ → GdtEntry
gdt_set_gate base limit access gran = record {
  base_low = u16 (bit_and base 0xFFFF);
  base_middle = u8 (bit_and (base / 2 ^ 16) 0xFF);
  base_high = u8 (bit_and (base / 2 ^ 24) 0xFF);
  limit_low = u16 (bit_and limit 0xFFFF);
  granularity = u8 (bit_or (bit_and (limit / 2 ^ 16) 0x0F) (bit_and gran 0xF0));
  access = access;
}

pub record IdtEntry : Type 0 where
  pub base_lo : ℕ
  pub sel : ℕ
  pub always0 : ℕ
  pub flags : ℕ
  pub base_hi : ℕ

-- The entry that `idt_set_gate` writes.
unfoldable pub idt_set_gate : ℕ → ℕ → ℕ → IdtEntry
idt_set_gate base sel flags = record {
  base_lo = u16 (bit_and base 0xFFFF);
  base_hi = u16 (bit_and (base / 2 ^ 16) 0xFFFF);
  sel = sel;
  always0 = 0;
  flags = flags;
}

unfoldable pub init_pic : Terminal → Terminal
init_pic t = outb 0xA1 0xFF (
    outb 0x21 0xFC (
      outb 0xA1 0x01 (
        outb 0x21 0x01 (
          outb 0xA1 0x02 (
            outb 0x21 0x04
              (outb 0xA1 0x28 (outb 0x21 0x20 (outb 0xA0 0x11 (outb 0x20 0x11 t)))))))))

unfoldable pub init_pit : Terminal → Terminal
init_pit t =
    let divisor = 1193180 / 100 in
    outb 0x40 (u8 (bit_and (divisor / 2 ^ 8) 0xFF))
      (outb 0x40 (u8 (bit_and divisor 0xFF)) (outb 0x43 0x36 t))
