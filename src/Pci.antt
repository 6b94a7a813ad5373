-- ===== src/Pci.antt =====
-- The PCI configuration space of pci.cpp, over the 32-bit ports: `direct_outl` and `direct_inl` are single
-- machine instructions, and an interface here.
pub mod Config
mod Examples
use text_os.Common.{
  ℕ, zero, suc, ◌+◌, ◌*◌, ◌/◌, ◌^◌, Bool, not, List, [], ◌∷◌, ◌==◌, u8, u16, u32, bit_and, bit_or,
}

pub record Ports : Type 1 where
  pub State : Type 0
  pub direct_outl : State → ℕ → ℕ → State
  pub direct_inl : State → ℕ → ℕ × State

abbrev pub pci_config_address : ℕ
pci_config_address = 0xCF8

abbrev pub pci_config_data : ℕ
pci_config_data = 0xCFC

-- The address of a register of a function of a device.
unfoldable pub config_address : ℕ → ℕ → ℕ → ℕ → ℕ
config_address bus slot func offset = u32 (
    bit_or
      (bit_or (bit_or (bit_or (bus * 2 ^ 16) (slot * 2 ^ 11)) (func * 2 ^ 8)) (bit_and offset 0xFC))
      0x80000000)

module _ (P : Ports) where
  unfoldable pub pci_read_config_dword : P.State → ℕ → ℕ → ℕ → ℕ → ℕ × P.State
  pci_read_config_dword s bus slot func offset =
      P.direct_inl (P.direct_outl s pci_config_address (config_address bus slot func offset))
        pci_config_data

  unfoldable pub pci_write_config_dword : P.State → ℕ → ℕ → ℕ → ℕ → ℕ → P.State
  pci_write_config_dword s bus slot func offset value =
      P.direct_outl (P.direct_outl s pci_config_address (config_address bus slot func offset))
        pci_config_data value

  unfoldable pub get_pci_command : P.State → ℕ → ℕ → ℕ → ℕ × P.State
  get_pci_command s bus slot func =
      let temp = pci_read_config_dword s bus slot func 0x04 in (u16 (bit_and temp.0 0xFFFF), temp.1)

  -- `for (i = …; …; i++) dev->bar[i] = …` for `rounds` registers.
  unfoldable pub read_bars : ℕ → ℕ → P.State → ℕ → ℕ → ℕ → List ℕ × P.State
  read_bars zero i s bus slot func = ([], s)
  read_bars (suc rounds) i s bus slot func =
      let bar = pci_read_config_dword s bus slot func (u8 (0x10 + i * 4)) in
      let rest = read_bars rounds (i + 1) bar.1 bus slot func in (bar.0 ∷ rest.0, rest.1)

  unfoldable pub read_pci_bars : P.State → ℕ → ℕ → ℕ → List ℕ × P.State
  read_pci_bars s bus slot func = read_bars 6 0 s bus slot func

  unfoldable pub check_device : P.State → ℕ → ℕ → Bool × P.State
  check_device s bus device =
      let vendor_device = pci_read_config_dword s bus device 0 0 in
      (not (u16 (bit_and vendor_device.0 0xFFFF) == 0xFFFF), vendor_device.1)
