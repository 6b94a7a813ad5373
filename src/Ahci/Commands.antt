-- ===== src/Ahci/Commands.antt =====
-- The command header, the command table and the register FIS that identify.h builds in memory, and
-- `read_sectors` and `write_sectors`.
use text_os.Common.{
  ℕ, ◌+◌, ◌-◌, ◌*◌, ◌/◌, ◌%◌, ◌^◌, Bool, true, not, List, [], ◌∷◌, ltb, ◌==◌, if◌then◌else◌, u8,
  u32, u64, negate, is_negative, bit_and, bit_or, codes,
}
use text_os.Memory.{Memory, store, load32, store32, fill_up}
use text_os.Printed.{text, number}
use text_os.Ahci.{
  Hba, Machine, say, write_mem32, find_free_command_slot, issue_ahci_command,
  wait_for_ahci_completion, port_clb, port_clbu, port_fb, port_fbu,
}
use text_os.Ahci.Ports.{prepare_port_for_command}

-- The addresses of the static buffers, which the linker chooses.
pub record Buffers : Type 0 where
  pub cmd_list_buffer : ℕ
  pub fis_buffer : ℕ
  pub cmd_table_buffer : ℕ
  pub data_buffer : ℕ

abbrev pub sector_size : ℕ
sector_size = 512

abbrev pub max_transfer_sectors : ℕ
max_transfer_sectors = 128

abbrev pub fis_type_reg_h2d : ℕ
fis_type_reg_h2d = 0x27

abbrev pub ata_cmd_read_dma : ℕ
ata_cmd_read_dma = 0xC8

abbrev pub ata_cmd_read_dma_ext : ℕ
ata_cmd_read_dma_ext = 0x25

abbrev pub ata_cmd_write_dma : ℕ
ata_cmd_write_dma = 0xCA

abbrev pub ata_cmd_write_dma_ext : ℕ
ata_cmd_write_dma_ext = 0x35

-- Assignments through `uint16_t*` and `uint64_t*`: the low byte comes first.
unfoldable pub store16 : Memory → ℕ → ℕ → Memory
store16 m a w = store (store m a (u8 w)) (a + 1) (u8 (w / 2 ^ 8))

unfoldable pub store64 : Memory → ℕ → ℕ → Memory
store64 m a w = store32 (store32 m a (u32 w)) (a + 4) (u32 (w / 2 ^ 32))

-- The `width` bits from bit `k` on of `old`, replaced by those of `v`.
abbrev pub merged_bits : ℕ → ℕ → ℕ → ℕ → ℕ
merged_bits old k width v =
    old / 2 ^ (k + width) * 2 ^ (k + width) + v % 2 ^ width * 2 ^ k + old % 2 ^ k

-- An assignment to a bit field in a byte, and in a word of 32 bits.
unfoldable pub set_bits : Memory → ℕ → ℕ → ℕ → ℕ → Memory
set_bits m a k width v = store m a (merged_bits (m a) k width v)

unfoldable pub set_bits32 : Memory → ℕ → ℕ → ℕ → ℕ → Memory
set_bits32 m a k width v = store32 m a (merged_bits (load32 m a) k width v)

-- The header of a command of 5 words with one region; `w` is the direction of the data.
unfoldable pub configure_header : Memory → ℕ → ℕ → ℕ → Memory
configure_header m cmd_header w cmd_table =
    store64 (store16 (set_bits (set_bits m cmd_header 0 5 5) cmd_header 6 1 w) (cmd_header + 2) 1)
      (cmd_header + 8) cmd_table

unfoldable pub configure_prdt : Memory → ℕ → ℕ → ℕ → Memory
configure_prdt m cmd_table buffer byte_count =
    set_bits32
      (set_bits32 (store64 m (cmd_table + 128) buffer) (cmd_table + 140) 0 22
        (u32 (byte_count + 2 ^ 32 - 1)))
      (cmd_table + 140) 31 1 1

-- `(uint8_t)((lba >> k) & 0xFF)`
abbrev pub byte_at : ℕ → ℕ → ℕ
byte_at lba k = u8 (lba / 2 ^ k)

-- The address fields from the device register on, with 48 and with 28 bits.
unfoldable pub set_high_lba : Memory → ℕ → ℕ → Bool → Memory
set_high_lba m cmdfis lba use_lba48 =
    if use_lba48
    then store
        (store (store (store m (cmdfis + 7) (2 ^ 6)) (cmdfis + 8) (byte_at lba 24)) (cmdfis + 9)
          (byte_at lba 32))
        (cmdfis + 10) (byte_at lba 40)
    else store
        (store
          (store (store m (cmdfis + 7) (bit_or (2 ^ 6) (u8 (bit_and (lba / 2 ^ 24) 0x0F))))
            (cmdfis + 8) 0)
          (cmdfis + 9) 0)
        (cmdfis + 10) 0

unfoldable pub configure_fis : Memory → ℕ → ℕ → ℕ → ℕ → Bool → Memory
configure_fis m cmdfis command lba count use_lba48 =
    let m1 = set_bits (store m cmdfis fis_type_reg_h2d) (cmdfis + 1) 7 1 1 in
    let m2 = store m1 (cmdfis + 2) command in
    let m3 = store m2 (cmdfis + 4) (byte_at lba 0) in
    let m4 = store m3 (cmdfis + 5) (byte_at lba 8) in
    let m5 = store m4 (cmdfis + 6) (byte_at lba 16) in
    let m6 = set_high_lba m5 cmdfis lba use_lba48 in
    let m7 = store m6 (cmdfis + 12) (byte_at count 0) in
    let m8 = store m7 (cmdfis + 13) (byte_at count 8) in
    store (store (store m8 (cmdfis + 3) 0) (cmdfis + 11) 0) (cmdfis + 15) 0

-- The command in memory: both areas are cleared, and then the header, the region and the FIS are set.
unfoldable pub set_up_command : Memory → ℕ → ℕ → ℕ → ℕ → ℕ → ℕ → Bool → ℕ → Memory
set_up_command m cmd_header w cmd_table command lba count use_lba48 buffer =
    let cleared = fill_up 144 0 cmd_table 0 (fill_up 32 0 cmd_header 0 m) in
    let headed = configure_header cleared cmd_header w cmd_table in
    configure_fis (configure_prdt headed cmd_table buffer (u32 (count * sector_size))) cmd_table
      command lba count use_lba48

abbrev pub port_address : ℕ → ℕ → ℕ
port_address ahci_base port = ahci_base + 0x100 + port * 0x80

module _ {H : Hba} where
  -- The base addresses of the command list and of the received FIS.
  unfoldable pub set_base_addresses : Buffers → Machine H → ℕ → Machine H
  set_base_addresses b m port_addr =
      let m1 = write_mem32 m (port_addr + port_clb) (u32 b.cmd_list_buffer) in
      let m2 = write_mem32 m1 (port_addr + port_clbu) (u32 (b.cmd_list_buffer / 2 ^ 32)) in
      let m3 = write_mem32 m2 (port_addr + port_fb) (u32 b.fis_buffer) in
      write_mem32 m3 (port_addr + port_fbu) (u32 (b.fis_buffer / 2 ^ 32))

  unfoldable pub issue_and_wait : Machine H → ℕ → ℕ → ℕ → ℕ → ℕ × Machine H
  issue_and_wait m port_addr slot cmd_header byte_count =
      let issued = issue_ahci_command m port_addr slot in
      let complete = wait_for_ahci_completion issued.1 port_addr slot cmd_header byte_count in
      if is_negative issued.0
      then issued
      else if is_negative complete.0
      then complete
      else (0, complete.1)

  -- What `read_sectors` and `write_sectors` do once the command is chosen; `verb` is "read" or "write".
  unfoldable pub transfer :
      Buffers → Machine H → List ℕ → ℕ → ℕ → ℕ → ℕ → ℕ → ℕ → ℕ → Bool → ℕ × Machine H
  transfer b m verb w port_addr port lba count buffer command use_lba48 =
      let prep = prepare_port_for_command m port_addr port in
      let slot = find_free_command_slot prep.1 port_addr in
      let cmd_header = b.cmd_list_buffer + slot.0 * 32 in
      let based = set_base_addresses b slot.1 port_addr in
      let set_up = record based {
        memory =
            set_up_command based.memory cmd_header w b.cmd_table_buffer command lba count use_lba48
              buffer;
      } in
      if is_negative prep.0
      then prep
      else if is_negative slot.0
      then (
        negate 5,
        say
            (text (codes "ERROR: No free command slot found for ")
              ∷ text verb
              ∷ text (codes " on port ")
              ∷ number port
              ∷ text (codes ".\n")
              ∷ [])
            slot.1,
      )
      else issue_and_wait set_up port_addr slot.0 cmd_header (u32 (count * sector_size))

  unfoldable pub read_sectors : Buffers → Machine H → ℕ → ℕ → ℕ → ℕ → ℕ → ℕ × Machine H
  read_sectors b m ahci_base port lba count buffer =
      let send =
        transfer b m (codes "read") 0 (port_address ahci_base port) port lba count buffer in
      if count == 0
      then (0, m)
      else if ltb max_transfer_sectors count
      then (
        negate 10,
        say
            (text (codes "ERROR: Read count ")
              ∷ number count
              ∷ text (codes " exceeds maximum ")
              ∷ number max_transfer_sectors
              ∷ text (codes "\n")
              ∷ [])
            m,
      )
      else if buffer == 0
      then (negate 11, say (text (codes "ERROR: Read buffer is null.\n") ∷ []) m)
      else if ltb (2 ^ 28) (u64 (lba + count))
      then (if not m.lba48_available then (negate 12, m) else send ata_cmd_read_dma_ext true)
      else send (if m.lba48_available then ata_cmd_read_dma_ext else ata_cmd_read_dma)
          m.lba48_available

  unfoldable pub write_sectors : Buffers → Machine H → ℕ → ℕ → ℕ → ℕ → ℕ → ℕ × Machine H
  write_sectors b m ahci_base port lba count buffer =
      let send =
        transfer b m (codes "write") 1 (port_address ahci_base port) port lba count buffer in
      if count == 0
      then (0, m)
      else if ltb max_transfer_sectors count
      then (
        negate 10,
        say
            (text (codes "ERROR: Write count ")
              ∷ number count
              ∷ text (codes " exceeds maximum ")
              ∷ number max_transfer_sectors
              ∷ text (codes "\n")
              ∷ [])
            m,
      )
      else if buffer == 0
      then (negate 11, say (text (codes "ERROR: Write buffer is null.\n") ∷ []) m)
      else if ltb (2 ^ 28) (u64 (lba + count))
      then (if not m.lba48_available then (negate 12, m) else send ata_cmd_write_dma_ext true)
      else send (if m.lba48_available then ata_cmd_write_dma_ext else ata_cmd_write_dma)
          m.lba48_available
