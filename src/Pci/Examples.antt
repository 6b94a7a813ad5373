-- ===== src/Pci/Examples.antt =====
-- A host bridge that holds its registers in a function, and accesses to it.
use text_os.Common.{
  ℕ, ◌/◌, ◌%◌, ◌^◌, ◌+◌, ◌≡◌, refl, arith, ◌==◌, ◌&&◌, if◌then◌else◌, eq→==, bit_and, ◌*◌, ◌-◌,
  Bool-cases, inl, inr, sym, ap, ◌∙◌,
}
use text_os.Common.Bits.{bit_and_high, bit_and_mask}
use text_os.Pci.{Ports, pci_read_config_dword, pci_write_config_dword}
use text_os.Pci.Config.{IsHostBridge, pci_read_config_dword-pci_write_config_dword}

record Bridge : Type 0 where
  address : ℕ
  registers : ℕ → ℕ → ℕ → ℕ → ℕ

-- A write reaches the low byte of the register 15, the interrupt line, and nothing else.
abbrev set_register : Bridge → ℕ → Bridge
set_register s value = record s {
  registers = λ bus slot func reg.
      if (bus == s.address / 2 ^ 16 % 256)
        && (slot == s.address / 2 ^ 11 % 32)
        && (func == s.address / 2 ^ 8 % 8)
        && (reg == s.address / 4 % 64)
        && (reg == 15)
      then s.registers bus slot func reg / 2 ^ 8 * 2 ^ 8 + value % 2 ^ 8
      else s.registers bus slot func reg;
}

abbrev bridge_ports : Ports
bridge_ports = record {
  State = Bridge;
  direct_outl = λ s port value.
      if port == 0xCF8
      then record s { address = value }
      else if (port == 0xCFC) && (s.address / 2 ^ 31 == 1)
      then set_register s value
      else s;
  direct_inl = λ s port. (
    s.registers (s.address / 2 ^ 16 % 256) (s.address / 2 ^ 11 % 32) (s.address / 2 ^ 8 % 8)
        (s.address / 4 % 64),
    s,
  );
}

-- The interrupt line is read-write, and the other bytes of its register and the register 0 are read-only.
abbrev line_bits : ℕ → ℕ
line_bits reg = if reg == 15 then 2 ^ 8 - 1 else 0

abbrev fixed_bits : ℕ → ℕ
fixed_bits reg = if reg == 15 then (2 ^ 24 - 1) * 2 ^ 8 else if reg == 0 then 2 ^ 32 - 1 else 0

unfoldable written_register : ℕ → ℕ → ℕ → ℕ
written_register reg old value = if reg == 15 then old / 2 ^ 8 * 2 ^ 8 + value % 2 ^ 8 else old

keeps_line :
    (reg old value : ℕ)
    → bit_and (written_register reg old value) (line_bits reg) ≡ bit_and value (line_bits reg)
unfolding written_register
keeps_line reg old value = elim (Bool-cases (reg == 15)) [
  | inl line ↦ rw line (
      bit_and_mask 8 (old / 2 ^ 8 * 2 ^ 8 + value % 2 ^ 8)
      ∙ omega arith
      ∙ sym (bit_and_mask 8 value))
  | inr other ↦ rw other (bit_and_mask 0 old ∙ omega arith ∙ sym (bit_and_mask 0 value))
]

keeps_fixed :
    (reg old value : ℕ)
    → bit_and (written_register reg old value) (fixed_bits reg) ≡ bit_and old (fixed_bits reg)
unfolding written_register
keeps_fixed reg old value = elim (Bool-cases (reg == 15)) [
  | inl line ↦
      let same : (old / 2 ^ 8 * 2 ^ 8 + value % 2 ^ 8) / 2 ^ 8 ≡ old / 2 ^ 8 = omega arith in
      rw line (
        bit_and_high 8 (old / 2 ^ 8 * 2 ^ 8 + value % 2 ^ 8) (2 ^ 24 - 1)
        ∙ ap (λ n. bit_and n (2 ^ 24 - 1) * 2 ^ 8) same
        ∙ sym (bit_and_high 8 old (2 ^ 24 - 1)))
  | inr other ↦ rw other refl
]

register_lem :
    (s : Bridge) (value bus slot func reg : ℕ)
    → s.address / 2 ^ 31 ≡ 1
    → bus ≡ s.address / 2 ^ 16 % 256
    → slot ≡ s.address / 2 ^ 11 % 32
    → func ≡ s.address / 2 ^ 8 % 8
    → reg ≡ s.address / 4 % 64
    → (bridge_ports.direct_outl s 0xCFC value).registers bus slot func reg
      ≡ written_register reg (s.registers bus slot func reg) value
unfolding written_register
register_lem s value bus slot func reg high b d f r =
    rw
      (
        eq→== (s.address / 2 ^ 31) 1 high,
        eq→== bus (s.address / 2 ^ 16 % 256) b,
        eq→== slot (s.address / 2 ^ 11 % 32) d,
        eq→== func (s.address / 2 ^ 8 % 8) f,
        eq→== reg (s.address / 4 % 64) r,
      )
      refl

abbrev bridge : IsHostBridge bridge_ports
bridge = record {
  register = λ s. s.registers;
  selected = λ s. s.address;
  selected-select = λ s a. refl;
  register-select = λ s a bus slot func reg. refl;
  inl-data = λ s high. refl;
  register-inl = λ s bus slot func reg. refl;
  read_write = λ bus slot func reg. line_bits reg;
  read_only = λ bus slot func reg. fixed_bits reg;
  data-read_write = λ s value bus slot func reg high b d f r.
      ap (λ n. bit_and n (line_bits reg)) (register_lem s value bus slot func reg high b d f r)
      ∙ keeps_line reg (s.registers bus slot func reg) value;
  data-read_only = λ s value bus slot func reg high b d f r.
      ap (λ n. bit_and n (fixed_bits reg)) (register_lem s value bus slot func reg high b d f r)
      ∙ keeps_fixed reg (s.registers bus slot func reg) value;
}

abbrev at_reset : Bridge
at_reset = record { address = 0; registers = λ bus slot func reg. bus + slot + func + reg }

pci_read_config_dword-pci_write_config_dword_example :
    let w = pci_write_config_dword bridge_ports at_reset 1 2 0 0x3C 0x10B in
    let reads = (pci_read_config_dword bridge_ports w 1 2 0 0x3C).0 in
    (bit_and reads 0xFF ≡ 0x0B)
    × (bit_and reads 0xFFFFFF00
        ≡ bit_and (pci_read_config_dword bridge_ports at_reset 1 2 0 0x3C).0 0xFFFFFF00)
pci_read_config_dword-pci_write_config_dword_example =
    pci_read_config_dword-pci_write_config_dword bridge_ports bridge at_reset 1 2 0 0x3C 0x10B
      (omega arith) (omega arith) (omega arith) (omega arith)
