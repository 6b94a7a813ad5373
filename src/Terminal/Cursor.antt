-- ===== src/Terminal/Cursor.antt =====
-- The CRT controller behind the ports 0x3D4 (index) and 0x3D5 (data), replayed from the writes: what
-- the cursor functions of terminal_hooks.cpp leave in its registers, and the blinking.
use text_os.Common.{
  ℕ, zero, suc, ◌+◌, ◌*◌, ◌/◌, ◌%◌, ◌^◌, ◌<◌, ◌≡◌, ◌≢◌, refl, ◌∙◌, ap, true, false, not, ◌&&◌,
  dec_lt, [], ◌∷◌, ◌==◌, ==_iff, if◌then◌else◌, arith, u8, u16, u32, bit_and, bit_or, inl, inr,
  Bool-cases, le→leb, lt→leb,
}
use text_os.Common.Bits.{bit_and_mask, every_below, every_below_sound}
use text_os.Terminal.{
  Ports, Terminal, update_hardware_cursor, enable_hardware_cursor, disable_hardware_cursor,
  terminal_putchar, put_cell, update_cursor_state,
}
use text_os.Terminal.Screen.{IsOnScreen, position, terminal_putchar_lem}

-- The register that the latest write to the index port selected, and what a register holds.
unfoldable pub selected : Ports → ℕ
selected [] = 0
selected ((port, value) ∷ ps) = if port == 0x3D4 then value else selected ps

unfoldable pub register : ℕ → Ports → ℕ
register r [] = 0
register r ((port, value) ∷ ps) = if port == 0x3D5 && selected ps == r then value else register r ps

-- The cell of the hardware cursor.
abbrev pub shown_position : Ports → ℕ
shown_position ps = register 0x0E ps * 2 ^ 8 + register 0x0F ps

-- Bit 5 of the start register turns the cursor off; the low five bits are its first line.
abbrev pub is_off : Ports → ℕ
is_off ps = register 0x0A ps / 2 ^ 5 % 2

-- `update_hardware_cursor` moves the hardware cursor to the cell of its column and row, and leaves
-- every register but the two of the position.
pub update_hardware_cursor_lem :
    (x y : ℕ) (t : Terminal)
    → x < 80
    → y < 25
    → (shown_position (update_hardware_cursor x y t).ports ≡ y * 80 + x)
      × ((r : ℕ)
          → r ≢ 0x0E
          → r ≢ 0x0F
          → register r (update_hardware_cursor x y t).ports ≡ register r t.ports)
unfolding update_hardware_cursor register selected
update_hardware_cursor_lem x y t hx hy = (
  omega (arith, bit_and_mask 8 (u16 (y * 80 + x)), bit_and_mask 8 (u16 (y * 80 + x) / 2 ^ 8)),
  λ r hi lo. ground arith,
)

-- After every character the hardware cursor is on the cell of the cursor.
pub terminal_putchar-shown_position :
    (c : ℕ) (t : Terminal)
    → IsOnScreen t
    → shown_position (terminal_putchar c t).ports ≡ position (terminal_putchar c t)
unfolding terminal_putchar update_hardware_cursor
terminal_putchar-shown_position c t on =
    let next = terminal_putchar_lem c t on in
    let t' = put_cell c t in
    (update_hardware_cursor_lem t'.terminal_column t'.terminal_row t' (next.on_screen.1)
      (next.on_screen.0)).0

start_table : every_below 256 (λ v. u8 (bit_or (bit_and v 0xC0) 14) / 2 ^ 5 % 2 == 0) ≡ true
unfolding every_below
start_table = refl

module _ (inb : Ports → ℕ → ℕ) (inb_byte : (ps : Ports) (port : ℕ) → inb ps port < 2 ^ 8) where
  pub enable_lem : (t : Terminal) → is_off (enable_hardware_cursor inb 14 15 t).ports ≡ 0
  unfolding enable_hardware_cursor register selected
  enable_lem t =
      (==_iff _ _).0
        (every_below_sound 256 _ (inb ((0x3D4, 0x0A) ∷ t.ports) 0x3D5) start_table (inb_byte _ _))

  disable_lem : (t : Terminal) → is_off (disable_hardware_cursor t).ports ≡ 1
  unfolding disable_hardware_cursor register selected
  disable_lem t = refl

  -- The hardware cursor is off exactly while `cursor_visible` is false.
  abbrev pub Agrees : Terminal → Type 0
  Agrees t = is_off t.ports ≡ (if t.cursor_visible then 0 else 1)

  pub record Blinks (t t' : Terminal) : Type 0 where
    pub agrees : Agrees t'
    pub counter : t'.cursor_blink_counter < 25
    pub row : t'.terminal_row ≡ t.terminal_row
    pub column : t'.terminal_column ≡ t.terminal_column
    pub buffer : t'.terminal_buffer ≡ t.terminal_buffer

  -- A timer tick keeps the hardware in step with `cursor_visible` and the counter below 25, and
  -- changes no cell and no position.
  pub update_cursor_state_lem :
      (t : Terminal)
      → IsOnScreen t
      → t.cursor_blink_counter < 25
      → Agrees t
      → Blinks t (update_cursor_state inb t)
  unfolding update_cursor_state update_hardware_cursor enable_hardware_cursor
      disable_hardware_cursor
  update_cursor_state_lem t on low agrees = elim (dec_lt (t.cursor_blink_counter + 1) 25) [
    | yes early ↦ rw (lt→leb 25 (u32 (t.cursor_blink_counter + 1)) (omega arith)) (record {
      agrees = agrees;
      counter = omega arith;
      row = refl;
      column = refl;
      buffer = refl;
    })
    | no late ↦
        rw (le→leb 25 (u32 (t.cursor_blink_counter + 1)) (omega arith))
          (elim (Bool-cases t.cursor_visible) [
            | inl shown ↦
                let t' =
                  disable_hardware_cursor
                    (record t { cursor_blink_counter = 0; cursor_visible = false }) in
                rw shown (record {
                  agrees =
                      kept t'
                      ∙ disable_lem (record t { cursor_blink_counter = 0; cursor_visible = false });
                  counter = omega arith;
                  row = refl;
                  column = refl;
                  buffer = refl;
                })
            | inr hidden ↦
                let t' =
                  enable_hardware_cursor inb 14 15
                    (record t { cursor_blink_counter = 0; cursor_visible = true }) in
                rw hidden (record {
                  agrees =
                      kept t'
                      ∙ enable_lem (record t { cursor_blink_counter = 0; cursor_visible = true });
                  counter = omega arith;
                  row = refl;
                  column = refl;
                  buffer = refl;
                })
          ])
  ]
    where
      kept :
          (t' : Terminal)
          → is_off (update_hardware_cursor t.terminal_column t.terminal_row t').ports
            ≡ is_off t'.ports
      kept t' =
          let frame =
            update_hardware_cursor_lem t.terminal_column t.terminal_row t' (on.1) (on.0) in
          ap (λ r. r / 2 ^ 5 % 2) (frame.1 0x0A (omega arith) (omega arith))

  -- Timer ticks, one after another.
  unfoldable pub ticks : ℕ → Terminal → Terminal
  ticks zero t = t
  ticks (suc n) t = update_cursor_state inb (ticks n t)

  tick_early :
      (t : Terminal)
      → t.cursor_blink_counter + 1 < 25
      → update_cursor_state inb t ≡ record t { cursor_blink_counter = t.cursor_blink_counter + 1 }
  unfolding update_cursor_state
  tick_early t h =
      let same : u32 (t.cursor_blink_counter + 1) ≡ t.cursor_blink_counter + 1 = omega arith in
      rw (same, lt→leb 25 (t.cursor_blink_counter + 1) h)

  ticks_early :
      (n : ℕ) (t : Terminal)
      → t.cursor_blink_counter + n < 25
      → ticks n t ≡ record t { cursor_blink_counter = t.cursor_blink_counter + n }
  unfolding ticks
  ticks_early zero t h = ap (λ k. record t { cursor_blink_counter = k }) (omega arith)
  ticks_early (suc n) t h =
      ap (update_cursor_state inb) (ticks_early n t (omega arith))
      ∙ tick_early (record t { cursor_blink_counter = t.cursor_blink_counter + n }) (omega arith)
      ∙ ap (λ k. record t { cursor_blink_counter = k }) (omega arith)

  -- The cursor turns over every 25 ticks, and not before: during the first 24 ticks only the counter
  -- moves, and with the 25th `cursor_visible` is turned over and the counter starts again.
  pub blink_period :
      (t : Terminal)
      → t.cursor_blink_counter ≡ 0
      → ((n : ℕ) → n < 25 → ticks n t ≡ record t { cursor_blink_counter = n })
        × ((ticks 25 t).cursor_visible ≡ not t.cursor_visible)
        × ((ticks 25 t).cursor_blink_counter ≡ 0)
  unfolding ticks update_cursor_state update_hardware_cursor enable_hardware_cursor
      disable_hardware_cursor
  blink_period t h =
      let before : ticks 24 t ≡ record t { cursor_blink_counter = 24 } = early 24 (omega arith) in
      (
        early,
        ap (λ s. (update_cursor_state inb s).cursor_visible) before ∙ turn,
        ap (λ s. (update_cursor_state inb s).cursor_blink_counter) before ∙ restart,
      )
    where
      early : (n : ℕ) → n < 25 → ticks n t ≡ record t { cursor_blink_counter = n }
      early n lt =
          ticks_early n t (omega arith)
          ∙ ap (λ k. record t { cursor_blink_counter = k }) (omega arith)

      turn :
          (update_cursor_state inb (record t { cursor_blink_counter = 24 })).cursor_visible
          ≡ not t.cursor_visible
      turn = ground arith

      restart :
          (update_cursor_state inb (record t { cursor_blink_counter = 24 })).cursor_blink_counter
          ≡ 0
      restart = ground arith
