-- ===== src/Interrupts/Editor.antt =====
-- The keyboard handler as a line editor over a list of characters.
use text_os.Common.{
  ℕ, zero, suc, ◌+◌, ◌-◌, ◌≤◌, ◌<◌, ◌≡◌, ◌≢◌, refl, ◌∙◌, ap, Bool, true, false, not, List, [], ◌∷◌,
  ◌++◌, length, take, get_or, length-append, length-take, ltb, ◌==◌, if◌then◌else◌, arith, bit_and,
  inl, inr, Bool-cases, ne→==, lt→ltb, le→ltb, dec_lt, ℕ_discrete,
}
use text_os.Common.Bits.{every_below, every_below_sound}
use text_os.Memory.{Memory, store}
use text_os.Terminal.{Ports, newline_char, backspace_char}
use text_os.Input.{TerminalInput, set_input_ready}
use text_os.Interrupts.{
  Console, end_of_interrupt, read_string, enter_key, normal_key, keyboard_handler, timer_handler,
  scancode_to_ascii,
}

-- The characters `line`, none of them zero, stand in the buffer from index `i` on.
abbrev pub Holds : Memory → ℕ → List ℕ → Type 0
Holds m i [] = Unit {0}
Holds m i (c ∷ cs) = (m i ≡ c) × (c ≢ 0) × Holds m (i + 1) cs

-- The line that is being typed.
abbrev pub IsLine : List ℕ → Console → Type 0
IsLine line k = Holds k.input_buffer 0 line × (k.input_length ≡ length line)

-- The editor: a newline starts over, a backspace drops the last character, and any other character
-- is appended while there are fewer than 255.
abbrev pub edited : ℕ → List ℕ → List ℕ
edited key line =
    if key == 0
    then line
    else if key == newline_char
    then []
    else if key == backspace_char
    then take (length line - 1) line
    else if ltb (length line) 255
    then line ++ (key ∷ [])
    else line

-- The input object receives the line with a newline, and is left alone by every other key.
abbrev pub received : ℕ → List ℕ → TerminalInput → TerminalInput
received key line cin = if key == newline_char then set_input_ready line cin else cin

Holds-store :
    (m : Memory) (i a v : ℕ) (cs : List ℕ)
    → i + length cs ≤ a
    → Holds m i cs
    → Holds (store m a v) i cs
Holds-store m i a v [] le h = tt
Holds-store m i a v (c ∷ cs) le (e, ne, h) =
    (ground arith, ne, Holds-store m (i + 1) a v cs (omega arith) h)

Holds-append :
    (m : Memory) (i a : ℕ) (cs : List ℕ) (c : ℕ)
    → a ≡ i + length cs
    → Holds m i cs
    → m a ≡ c
    → c ≢ 0
    → Holds m i (cs ++ (c ∷ []))
Holds-append m i a [] c e h at ne = (rw (← at) (ap m (omega arith)), ne, tt)
Holds-append m i a (b ∷ cs) c e (eb, nb, h) at ne =
    (eb, nb, Holds-append m (i + 1) a cs c (omega arith) h at ne)

Holds-take : (m : Memory) (i n : ℕ) (cs : List ℕ) → Holds m i cs → Holds m i (take n cs)
Holds-take m i zero cs h = tt
Holds-take m i (suc n) [] h = tt
Holds-take m i (suc n) (c ∷ cs) (e, ne, h) = (e, ne, Holds-take m (i + 1) n cs h)

read_string-Holds :
    (m : Memory) (i : ℕ) (cs : List ℕ) → Holds m i cs → read_string (length cs) i m ≡ cs
unfolding read_string
read_string-Holds m i [] h = refl
read_string-Holds m i (c ∷ cs) (e, ne, h) =
    rw (read_string, e, ne→== c 0 ne) (ap (λ t. c ∷ t) (read_string-Holds m (i + 1) cs h))

-- The console `k'` holds the line, and its input object is `cin`.
pub record Edits (line : List ℕ) (cin : TerminalInput) (k' : Console) : Type 0 where
  pub held : IsLine line k'
  pub passed : k'.cin ≡ cin

normal_key-Edits :
    (key : ℕ) (line : List ℕ) (k : Console)
    → IsLine line k
    → Edits (edited key line) (received key line k.cin) (normal_key key k)
unfolding normal_key enter_key
normal_key-Edits key line k (h, l) = elim (ℕ_discrete key 0) [
  | yes none ↦ rw none (record { held = (h, l); passed = refl })
  | no some ↦ rw (ne→== key 0 some) (elim (Bool-cases (key == newline_char)) [
    | inl newline ↦
        rw newline (record { held = (tt, refl); passed = ap (λ s. set_input_ready s k.cin) whole })
    | inr other ↦ rw other (elim (Bool-cases (key == backspace_char)) [
      | inl back ↦ rw back (elim (dec_lt 0 k.input_length) [
        | yes lt ↦ rw (lt→ltb 0 k.input_length lt) (record {
          held = (
            Holds-take k.input_buffer 0 (length line - 1) line h,
            omega (arith, length-take (length line - 1) line),
          );
          passed = refl;
        })
        | no ge ↦ rw (le→ltb 0 k.input_length (omega arith)) (record {
          held = (
            Holds-take k.input_buffer 0 (length line - 1) line h,
            omega (arith, length-take (length line - 1) line),
          );
          passed = refl;
        })
      ])
      | inr plain ↦ rw plain (elim (dec_lt k.input_length 255) [
        | yes lt ↦
            rw (lt→ltb k.input_length 255 lt, lt→ltb (length line) 255 (omega arith))
              (record {
                held = (
                  Holds-append (store k.input_buffer k.input_length key) 0 k.input_length line key
                      (omega arith)
                      (Holds-store k.input_buffer 0 k.input_length key line (omega arith) h)
                      (ground arith) some,
                  omega (arith, length-append line (key ∷ [])),
                );
                passed = refl;
              })
        | no ge ↦
            rw (le→ltb k.input_length 255 (omega arith), le→ltb (length line) 255 (omega arith))
              (record { held = (h, l); passed = refl })
      ])
    ])
  ])
]
  where
    whole : read_string k.input_length 0 (store k.input_buffer k.input_length 0) ≡ line
    whole =
        ap (λ n. read_string n 0 (store k.input_buffer k.input_length 0)) l
        ∙ read_string-Holds (store k.input_buffer k.input_length 0) 0 line
            (Holds-store k.input_buffer 0 k.input_length 0 line (omega arith) h)

high_bit_table : every_below 128 (λ s. bit_and s 0x80 == 0) ≡ true
unfolding every_below
high_bit_table = refl

-- While the line has fewer characters than the 80 bytes of the buffer, and no extended sequence is
-- open, the press of a key edits the line as the editor does, and passes exactly the line that was
-- typed to the input object with a newline.
pub keyboard_handler-Edits :
    (scancode : ℕ) (line : List ℕ) (k : Console)
    → scancode < 128
    → k.extended_key ≡ false
    → length line < 80
    → IsLine line k
    → Edits
        (edited (get_or scancode_to_ascii scancode 0) line)
        (received (get_or scancode_to_ascii scancode 0) line k.cin)
        (keyboard_handler scancode k)
unfolding keyboard_handler
keyboard_handler-Edits scancode line k small closed room held =
    let e = normal_key-Edits (get_or scancode_to_ascii scancode 0) line k held in
    simp
      (
        ne→== scancode 0xE0 (omega arith),
        every_below_sound 128 _ scancode high_bit_table small,
        closed,
      )
      (record { held = e.held; passed = e.passed })

-- Every run of a handler ends with the acknowledgement of the interrupt, whatever the scancode and
-- the state, and whatever the data port answers.
pub handlers_acknowledge :
    (scancode : ℕ) (inb : Ports → ℕ → ℕ) (k : Console)
    → ((ps : Ports) × ((keyboard_handler scancode k).terminal.ports ≡ (0x20, 0x20) ∷ ps))
      × ((ps : Ports) × ((timer_handler inb k).terminal.ports ≡ (0x20, 0x20) ∷ ps))
unfolding keyboard_handler timer_handler
handlers_acknowledge scancode inb k =
    (press (scancode == 0xE0) (not (bit_and scancode 0x80 == 0)) (k.extended_key), (_, refl))
  where
    press :
        (first released extended : Bool)
        → (ps : Ports) × ((if first
              then end_of_interrupt (record k { extended_key = true })
              else if released
              then end_of_interrupt (record k { extended_key = false })
              else if extended
              then end_of_interrupt (record k { extended_key = false })
              else end_of_interrupt
                  (normal_key (get_or scancode_to_ascii scancode 0) k)).terminal.ports
            ≡ (0x20, 0x20) ∷ ps)
    press true r e = (_, refl)
    press false true e = (_, refl)
    press false false true = (_, refl)
    press false false false = (_, refl)
