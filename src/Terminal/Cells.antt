-- ===== src/Terminal/Cells.antt =====
-- What the loops over the text memory of terminal_hooks.cpp leave in every cell.
use text_os.Common.{
  ℕ, zero, suc, ◌+◌, ◌-◌, ◌*◌, ◌^◌, ◌≤◌, ◌<◌, ◌≡◌, refl, ◌&&◌, ltb, leb, ◌==◌, if◌then◌else◌, arith,
  u16, true, bit_or, ==_iff,
}
use text_os.Common.Bits.{bit_or-high, bit_or-fields, every_below, every_below_sound}
use text_os.Memory.{store}
use text_os.Terminal.{Cells, blank_row, blank_rows, copy_row, copy_rows, make_vgaentry}

pub blank_row_at :
    (rounds x y entry : ℕ) (b : Cells) (i : ℕ)
    → blank_row rounds x y entry b i
      ≡ (if leb (y * 80 + x) i && ltb i (y * 80 + x + rounds) then entry else b i)
unfolding blank_row
blank_row_at zero x y entry b i = ground arith
blank_row_at (suc rounds) x y entry b i =
    ground (arith, blank_row_at rounds (x + 1) y entry (store b (y * 80 + x) entry) i)

-- The cells of `rows` rows from row `y` on are blank.
pub blank_rows_at :
    (rows y entry : ℕ) (b : Cells) (i : ℕ)
    → blank_rows rows y entry b i
      ≡ (if leb (y * 80) i && ltb i (y * 80 + rows * 80) then entry else b i)
unfolding blank_rows
blank_rows_at zero y entry b i = ground arith
blank_rows_at (suc rows) y entry b i = ground (
  arith,
  blank_rows_at rows (y + 1) entry (blank_row 80 0 y entry b) i,
  blank_row_at 80 0 y entry b i,
)

copy_row_at :
    (rounds x y : ℕ) (b : Cells) (i : ℕ)
    → x + rounds ≤ 80
    → copy_row rounds x y b i
      ≡ (if leb (y * 80 + x) i && ltb i (y * 80 + x + rounds) then b (i + 80) else b i)
unfolding copy_row
copy_row_at zero x y b i h = ground arith
copy_row_at (suc rounds) x y b i h = ground (
  arith,
  copy_row_at rounds (x + 1) y (store b (y * 80 + x) (b ((y + 1) * 80 + x))) i (omega arith),
)

pub copy_rows_at :
    (rows y : ℕ) (b : Cells) (i : ℕ)
    → copy_rows rows y b i
      ≡ (if leb (y * 80) i && ltb i (y * 80 + rows * 80) then b (i + 80) else b i)
unfolding copy_rows
copy_rows_at zero y b i = ground arith
copy_rows_at (suc rows) y b i = ground (
  arith,
  copy_rows_at rows (y + 1) (copy_row 80 0 y b) i,
  copy_row_at 80 0 y b i (omega arith),
  copy_row_at 80 0 y b (i + 80) (omega arith),
)

-- The text memory one row further up, with a blank last row and the cells behind the screen as before.
abbrev pub scrolled : ℕ → Cells → Cells
scrolled entry b i = if ltb i (24 * 80) then b (i + 80) else if ltb i (25 * 80) then entry else b i

pub scrolled_at :
    (entry : ℕ) (b : Cells) (i : ℕ)
    → blank_row 80 0 24 entry (copy_rows 24 0 b) i ≡ scrolled entry b i
scrolled_at entry b i =
    ground (arith, blank_row_at 80 0 24 entry (copy_rows 24 0 b) i, copy_rows_at 24 0 b i)

ones_table : every_below 256 (λ b. bit_or 255 b == 255) ≡ true
unfolding every_below
ones_table = refl

all_ones : (b : ℕ) → b < 2 ^ 8 → bit_or 255 b ≡ 255
all_ones b h = (==_iff _ _).0 (every_below_sound 256 _ b ones_table h)

-- A cell holds the character in its low byte and the colour in its high byte, for ASCII; any other
-- character is widened as a negative number, which turns the colour into 255.
pub make_vgaentry_lem :
    (c color : ℕ)
    → c < 2 ^ 8
    → color < 2 ^ 8
    → make_vgaentry c color ≡ c + (if ltb c (2 ^ 7) then color else 255) * 2 ^ 8
unfolding make_vgaentry
make_vgaentry_lem c color hc hk =
    ground
      (arith, bit_or-high 8 c color hc, bit_or-fields 8 255 color c hc, all_ones color hk, widened)
  where
    widened : c < 2 ^ 8 → u16 (c + (2 ^ 16 - 2 ^ 8)) ≡ 255 * 2 ^ 8 + c
    widened h = omega arith
