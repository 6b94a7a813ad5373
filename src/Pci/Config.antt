-- ===== src/Pci/Config.antt =====
-- The accesses of pci.cpp reach the register that their arguments name.
use text_os.Common.{
  ℕ, zero, suc, ◌+◌, ◌*◌, ◌/◌, ◌%◌, ◌^◌, ◌<◌, ◌≤◌, ◌≡◌, refl, sym, ◌∙◌, ap, List, [], ◌∷◌, arith,
  u8, bit_and, bit_or,
}
use text_os.Common.Bits.{bit_or-low, bit_or-high, bit_and_high, bit_and_mask}
use text_os.Pci.{
  Ports, config_address, pci_read_config_dword, pci_write_config_dword, read_bars, read_pci_bars,
}

-- The configuration mechanism of a PCI host bridge: a write to the address port selects a register by
-- the fields of the address, if its highest bit is set, and the data port is that register. Of the
-- bits of a register those of `read_write` hold what was written, and those of `read_only` never
-- change; a device may do with the others what it likes, and a write may reach other registers.
pub record IsHostBridge (P : Ports) : Type 0 where
  pub register : P.State → ℕ → ℕ → ℕ → ℕ → ℕ
  pub selected : P.State → ℕ
  pub selected-select : (s : P.State) (a : ℕ) → selected (P.direct_outl s 0xCF8 a) ≡ a
  pub register-select :
      (s : P.State) (a bus slot func reg : ℕ)
      → register (P.direct_outl s 0xCF8 a) bus slot func reg ≡ register s bus slot func reg
  pub inl-data :
      (s : P.State)
      → selected s / 2 ^ 31 ≡ 1
      → (P.direct_inl s 0xCFC).0
        ≡ register s
            (selected s / 2 ^ 16 % 256)
            (selected s / 2 ^ 11 % 32)
            (selected s / 2 ^ 8 % 8)
            (selected s / 4 % 64)
  pub register-inl :
      (s : P.State) (bus slot func reg : ℕ)
      → register (P.direct_inl s 0xCFC).1 bus slot func reg ≡ register s bus slot func reg
  pub read_write : ℕ → ℕ → ℕ → ℕ → ℕ
  pub read_only : ℕ → ℕ → ℕ → ℕ → ℕ
  pub data-read_write :
      (s : P.State) (value bus slot func reg : ℕ)
      → selected s / 2 ^ 31 ≡ 1
      → bus ≡ selected s / 2 ^ 16 % 256
      → slot ≡ selected s / 2 ^ 11 % 32
      → func ≡ selected s / 2 ^ 8 % 8
      → reg ≡ selected s / 4 % 64
      → bit_and
          (register (P.direct_outl s 0xCFC value) bus slot func reg)
          (read_write bus slot func reg)
        ≡ bit_and value (read_write bus slot func reg)
  pub data-read_only :
      (s : P.State) (value bus slot func reg : ℕ)
      → selected s / 2 ^ 31 ≡ 1
      → bus ≡ selected s / 2 ^ 16 % 256
      → slot ≡ selected s / 2 ^ 11 % 32
      → func ≡ selected s / 2 ^ 8 % 8
      → reg ≡ selected s / 4 % 64
      → bit_and
          (register (P.direct_outl s 0xCFC value) bus slot func reg)
          (read_only bus slot func reg)
        ≡ bit_and (register s bus slot func reg) (read_only bus slot func reg)

config_address_lem :
    (bus slot func offset : ℕ)
    → bus < 256
    → slot < 32
    → func < 8
    → offset < 256
    → config_address bus slot func offset
      ≡ 2 ^ 31 + bus * 2 ^ 16 + slot * 2 ^ 11 + func * 2 ^ 8 + offset / 4 * 4
unfolding config_address
config_address_lem bus slot func offset b s f o =
    let masked : bit_and offset 0xFC ≡ offset / 4 * 4 =
      omega (arith, bit_and_high 2 offset 63, bit_and_mask 6 (offset / 4)) in
    let one : bit_or (bus * 2 ^ 16) (slot * 2 ^ 11) ≡ (bus * 32 + slot) * 2 ^ 11 =
      bit_or-low 16 bus (slot * 2 ^ 11) (omega arith) ∙ omega arith in
    let two : bit_or ((bus * 32 + slot) * 2 ^ 11) (func * 2 ^ 8)
        ≡ ((bus * 32 + slot) * 8 + func) * 2 ^ 8 =
      bit_or-low 11 (bus * 32 + slot) (func * 2 ^ 8) (omega arith) ∙ omega arith in
    let three = bit_or-low 8 ((bus * 32 + slot) * 8 + func) (offset / 4 * 4) (omega arith) in
    let four =
      bit_or-high 31 (((bus * 32 + slot) * 8 + func) * 2 ^ 8 + offset / 4 * 4) 1 (omega arith) in
    rw (masked, one, two, three, four) (omega arith)

module _ (P : Ports) (B : IsHostBridge P) where
  -- After the address was written, the fields select the register.
  abbrev addressed : P.State → ℕ → ℕ → ℕ → ℕ → P.State
  addressed s bus slot func offset = P.direct_outl s 0xCF8 (config_address bus slot func offset)

  module _ (s : P.State) (bus slot func offset : ℕ) (b : bus < 256) (d : slot < 32) (f : func < 8)
      (o : offset < 256) where
    fields :
        (B.selected (addressed s bus slot func offset) / 2 ^ 31 ≡ 1)
        × (B.selected (addressed s bus slot func offset) / 2 ^ 16 % 256 ≡ bus)
        × (B.selected (addressed s bus slot func offset) / 2 ^ 11 % 32 ≡ slot)
        × (B.selected (addressed s bus slot func offset) / 2 ^ 8 % 8 ≡ func)
        × (B.selected (addressed s bus slot func offset) / 4 % 64 ≡ offset / 4)
    fields =
        let a =
          B.selected-select s (config_address bus slot func offset)
          ∙ config_address_lem bus slot func offset b d f o in
        (omega (arith, a), omega (arith, a), omega (arith, a), omega (arith, a), omega (arith, a))

    -- On a host bridge, for a bus below 256, a slot below 32, a function below 8 and an offset below 256,
    -- `pci_read_config_dword` returns the register that holds the offset.
    pub pci_read_config_dword_lem :
        (pci_read_config_dword P s bus slot func offset).0 ≡ B.register s bus slot func (offset / 4)
    unfolding pci_read_config_dword
    pci_read_config_dword_lem =
        B.inl-data (addressed s bus slot func offset) fields.0
        ∙ rw (fields.1, fields.2, fields.3, fields.4)
            (B.register-select s (config_address bus slot func offset) bus slot func (offset / 4))

    -- A read keeps every register.
    pub pci_read_config_dword_keeps :
        (bus' slot' func' reg : ℕ)
        → B.register (pci_read_config_dword P s bus slot func offset).1 bus' slot' func' reg
          ≡ B.register s bus' slot' func' reg
    unfolding pci_read_config_dword
    pci_read_config_dword_keeps bus' slot' func' reg =
        B.register-inl (addressed s bus slot func offset) bus' slot' func' reg
        ∙ B.register-select s (config_address bus slot func offset) bus' slot' func' reg

    abbrev after : ℕ → P.State
    after value = pci_write_config_dword P s bus slot func offset value

    pub pci_write_config_dword_read_write :
        (value : ℕ)
        → bit_and
            (B.register (after value) bus slot func (offset / 4))
            (B.read_write bus slot func (offset / 4))
          ≡ bit_and value (B.read_write bus slot func (offset / 4))
    unfolding pci_write_config_dword
    pci_write_config_dword_read_write value =
        B.data-read_write (addressed s bus slot func offset) value bus slot func (offset / 4)
          fields.0 (sym fields.1) (sym fields.2) (sym fields.3) (sym fields.4)

    pub pci_write_config_dword_read_only :
        (value : ℕ)
        → bit_and
            (B.register (after value) bus slot func (offset / 4))
            (B.read_only bus slot func (offset / 4))
          ≡ bit_and
              (B.register s bus slot func (offset / 4))
              (B.read_only bus slot func (offset / 4))
    unfolding pci_write_config_dword
    pci_write_config_dword_read_only value =
        B.data-read_only (addressed s bus slot func offset) value bus slot func (offset / 4)
          fields.0 (sym fields.1) (sym fields.2) (sym fields.3) (sym fields.4)
        ∙ ap (λ r. bit_and r (B.read_only bus slot func (offset / 4)))
            (B.register-select s (config_address bus slot func offset) bus slot func (offset / 4))

  -- On a host bridge, for a bus below 256, a slot below 32, a function below 8 and an offset below
  -- 256: behind `pci_write_config_dword`, `pci_read_config_dword` of the same place reads the bits of the
  -- value where the register there is read-write, and what it read before where it is read-only.
  pub pci_read_config_dword-pci_write_config_dword :
      (s : P.State) (bus slot func offset value : ℕ)
      → bus < 256
      → slot < 32
      → func < 8
      → offset < 256
      → let w = pci_write_config_dword P s bus slot func offset value in
        let reads = (pci_read_config_dword P w bus slot func offset).0 in
        (bit_and reads (B.read_write bus slot func (offset / 4))
          ≡ bit_and value (B.read_write bus slot func (offset / 4)))
        × (bit_and reads (B.read_only bus slot func (offset / 4))
            ≡ bit_and
                (pci_read_config_dword P s bus slot func offset).0
                (B.read_only bus slot func (offset / 4)))
  pci_read_config_dword-pci_write_config_dword s bus slot func offset value b d f o =
      let w = pci_write_config_dword P s bus slot func offset value in
      let behind = pci_read_config_dword_lem w bus slot func offset b d f o in
      let before = pci_read_config_dword_lem s bus slot func offset b d f o in
      (
        rw behind (pci_write_config_dword_read_write s bus slot func offset b d f o value),
        rw (behind, before) (pci_write_config_dword_read_only s bus slot func offset b d f o value),
      )

  -- The registers from `i` on, in their order.
  abbrev bars_from : P.State → ℕ → ℕ → ℕ → ℕ → ℕ → List ℕ
  bars_from s bus slot func zero i = []
  bars_from s bus slot func (suc rounds) i =
      B.register s bus slot func (4 + i) ∷ bars_from s bus slot func rounds (i + 1)

  read_bars_lem :
      (rounds i : ℕ) (s t : P.State) (bus slot func : ℕ)
      → bus < 256
      → slot < 32
      → func < 8
      → i + rounds ≤ 6
      → ((reg : ℕ) → B.register t bus slot func reg ≡ B.register s bus slot func reg)
      → (read_bars P rounds i t bus slot func).0 ≡ bars_from s bus slot func rounds i
  unfolding read_bars
  read_bars_lem zero i s t bus slot func b d f h same = refl
  read_bars_lem (suc rounds) i s t bus slot func b d f h same =
      let offset = u8 (0x10 + i * 4) in
      let small : offset < 256 = omega arith in
      let place : offset / 4 ≡ 4 + i = omega arith in
      let next = (pci_read_config_dword P t bus slot func offset).1 in
      let first =
        pci_read_config_dword_lem t bus slot func offset b d f small
        ∙ ap (B.register t bus slot func) place
        ∙ same (4 + i) in
      let rest = read_bars_lem rounds (i + 1) s next bus slot func b d f (omega arith) (λ reg.
        pci_read_config_dword_keeps t bus slot func offset b d f small bus slot func reg
        ∙ same reg) in
      rw (first, rest) refl

  -- On a host bridge, for a bus below 256, a slot below 32 and a function below 8, `read_pci_bars` reads
  -- the registers 4 to 9, the base addresses, in their order.
  pub read_pci_bars_lem :
      (s : P.State) (bus slot func : ℕ)
      → bus < 256
      → slot < 32
      → func < 8
      → (read_pci_bars P s bus slot func).0
        ≡ B.register s bus slot func 4
          ∷ B.register s bus slot func 5
          ∷ B.register s bus slot func 6
          ∷ B.register s bus slot func 7
          ∷ B.register s bus slot func 8
          ∷ B.register s bus slot func 9
          ∷ []
  unfolding read_pci_bars
  read_pci_bars_lem s bus slot func b d f =
      read_bars_lem 6 0 s s bus slot func b d f (omega arith) (λ reg. refl)
