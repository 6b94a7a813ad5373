-- ===== src/Interrupts/Descriptors.antt =====
-- What the entries of the descriptor tables decode to.
use text_os.Common.{
  ℕ, ◌+◌, ◌*◌, ◌/◌, ◌%◌, ◌^◌, ◌<◌, ◌≡◌, refl, true, ◌==◌, ==_iff, arith, u8, bit_and, bit_or,
}
use text_os.Common.Bits.{bit_and_mask, bit_or-high, every_below, every_below_sound}
use text_os.Interrupts.{GdtEntry, IdtEntry, gdt_set_gate, idt_set_gate}

-- The fields as the processor puts them together.
abbrev pub gdt_base : GdtEntry → ℕ
gdt_base g = g.base_low + g.base_middle * 2 ^ 16 + g.base_high * 2 ^ 24

abbrev pub gdt_limit : GdtEntry → ℕ
gdt_limit g = g.limit_low + g.granularity % 2 ^ 4 * 2 ^ 16

abbrev pub idt_base : IdtEntry → ℕ
idt_base g = g.base_lo + g.base_hi * 2 ^ 16

high_nibble_table : every_below 256 (λ g. bit_and g 0xF0 == g / 2 ^ 4 * 2 ^ 4) ≡ true
unfolding every_below
high_nibble_table = refl

-- The granularity byte: four bits of the limit below the flags.
granularity_lem :
    (limit gran : ℕ)
    → gran < 2 ^ 8
    → u8 (bit_or (bit_and (limit / 2 ^ 16) 0x0F) (bit_and gran 0xF0))
      ≡ gran / 2 ^ 4 * 2 ^ 4 + limit / 2 ^ 16 % 2 ^ 4
granularity_lem limit gran lt =
    let flags : bit_and gran 0xF0 ≡ gran / 2 ^ 4 * 2 ^ 4 =
      (==_iff _ _).0 (every_below_sound 256 _ gran high_nibble_table lt) in
    rw
      (
        bit_and_mask 4 (limit / 2 ^ 16),
        flags,
        bit_or-high 4 (limit / 2 ^ 16 % 2 ^ 4) (gran / 2 ^ 4) (omega arith),
      )
      (omega arith)

-- A GDT entry for a 32-bit base and byte-sized flags decodes to that base, to the low 20 bits of the
-- limit, and to the access byte and the upper flags it was given.
pub gdt_set_gate_lem :
    (base limit access gran : ℕ)
    → base < 2 ^ 32
    → gran < 2 ^ 8
    → (gdt_base (gdt_set_gate base limit access gran) ≡ base)
      × (gdt_limit (gdt_set_gate base limit access gran) ≡ limit % 2 ^ 20)
      × ((gdt_set_gate base limit access gran).granularity / 2 ^ 4 ≡ gran / 2 ^ 4)
      × ((gdt_set_gate base limit access gran).access ≡ access)
unfolding gdt_set_gate
gdt_set_gate_lem base limit access gran hb hg = (
  omega
      (arith, bit_and_mask 16 base, bit_and_mask 8 (base / 2 ^ 16), bit_and_mask 8 (base / 2 ^ 24)),
  omega (arith, bit_and_mask 16 limit, granularity_lem limit gran hg),
  omega (arith, granularity_lem limit gran hg),
  refl,
)

-- An IDT entry decodes to the 32-bit address of its handler.
pub idt_set_gate_lem :
    (base sel flags : ℕ) → base < 2 ^ 32 → idt_base (idt_set_gate base sel flags) ≡ base
unfolding idt_set_gate
idt_set_gate_lem base sel flags h =
    omega (arith, bit_and_mask 16 base, bit_and_mask 16 (base / 2 ^ 16))
