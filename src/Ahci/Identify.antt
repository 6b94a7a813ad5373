-- ===== src/Ahci/Identify.antt =====
-- `send_identify_command` of identify.h and the display of what a drive answers: 256 words in the data
-- buffer. The display sets the global `lba48_available`.
use text_os.Common.{
  ℕ, zero, suc, ◌+◌, ◌-◌, ◌*◌, ◌/◌, ◌%◌, ◌^◌, Bool, true, not, ◌&&◌, List, [], ◌∷◌, ◌++◌, ltb, ◌==◌,
  if◌then◌else◌, u8, u32, u64, negate, is_negative, bit_and, bit_or, codes,
}
use text_os.Memory.{Memory, store, fill_up}
use text_os.Printed.{Shown, text, number}
use text_os.Ahci.{
  Hba, Machine, say, find_free_command_slot, issue_ahci_command, wait_for_ahci_completion,
}
use text_os.Ahci.Ports.{prepare_port_for_command}
use text_os.Ahci.Commands.{
  Buffers, sector_size, fis_type_reg_h2d, port_address, set_bits, set_bits32, store16, store64,
  set_base_addresses,
}
use text_os.Ahci.Decode.{load16}

abbrev pub ata_cmd_identify : ℕ
ata_cmd_identify = 0xEC

-- The two characters of each of the words from `i` on, the high byte first.
unfoldable pub swapped : ℕ → (ℕ → ℕ) → ℕ → List ℕ
swapped zero words i = []
swapped (suc rounds) words i =
    u8 (words i / 2 ^ 8) ∷ u8 (bit_and (words i) 0xFF) ∷ swapped rounds words (i + 1)

abbrev pub is_blank : List ℕ → Bool
is_blank [] = true
is_blank (c ∷ cs) = (c == b' ') && is_blank cs

-- The loop from the end of the array that puts a zero over each trailing space.
unfoldable pub trim : List ℕ → List ℕ
trim [] = []
trim (c ∷ cs) = (if (c == b' ') && is_blank cs then 0 else c) ∷ trim cs

-- What `cout <<` shows of a character array: it ends at the first zero.
unfoldable pub shown_string : List ℕ → List ℕ
shown_string [] = []
shown_string (c ∷ cs) = if c == 0 then [] else c ∷ shown_string cs

unfoldable pub model_number : (ℕ → ℕ) → List ℕ
model_number words = shown_string (trim (swapped 20 words 27))

unfoldable pub serial_number : (ℕ → ℕ) → List ℕ
serial_number words = shown_string (trim (swapped 10 words 10))

abbrev has : (ℕ → ℕ) → ℕ → ℕ → Bool
has words i k = not (bit_and (words i) (2 ^ k) == 0)

unfoldable pub max_lba48 : (ℕ → ℕ) → ℕ
max_lba48 words =
    bit_or (bit_or (bit_or (words 100) (u64 (words 101 * 2 ^ 16))) (u64 (words 102 * 2 ^ 32)))
      (u64 (words 103 * 2 ^ 48))

unfoldable pub max_lba28 : (ℕ → ℕ) → ℕ
max_lba28 words = bit_or (words 60) (u32 (words 61 * 2 ^ 16))

unfoldable pub gib_capacity : ℕ → ℕ
gib_capacity sectors = u32 (u64 (sectors * sector_size) / (1024 * 1024 * 1024))

unfoldable pub mib_remainder : ℕ → ℕ
mib_remainder sectors = u32 (u64 (sectors * sector_size) % (1024 * 1024 * 1024) / (1024 * 1024))

-- The part on the size of the drive. Of the 48-bit number of sectors only the high half is shown.
unfoldable pub capacity_text : (ℕ → ℕ) → Bool → List Shown
capacity_text words lba48 =
    let lba_high = u32 (max_lba48 words / 2 ^ 32) in
    if lba48
    then text (codes "LBA48 Max Sectors: ")
      ∷ ((if ltb 0 lba_high then number lba_high ∷ text (codes " * 2^32 + ") ∷ [] else [])
          ++ text (codes "Capacity (approx): ")
            ∷ number (gib_capacity (max_lba48 words))
            ∷ text (codes " GiB\n")
            ∷ [])
    else if has words 49 9
    then text (codes "LBA28 Max Sectors: ")
      ∷ number (max_lba28 words)
      ∷ text (codes "\n")
      ∷ text (codes "Capacity (approx): ")
      ∷ number (gib_capacity (max_lba28 words))
      ∷ text (codes ".")
      ∷ number (mib_remainder (max_lba28 words) * 100 / 1024)
      ∷ text (codes " GiB\n")
      ∷ []
    else text (codes "CHS addressing only (not supported by this display logic).\n") ∷ []

-- A line for each of the bits of the words that is set.
unfoldable pub lines : (ℕ → ℕ) → List (ℕ × ℕ × List ℕ) → List Shown
lines words [] = []
lines words ((i, k, t) ∷ rest) = (if has words i k then text t ∷ [] else []) ++ lines words rest

abbrev generations : List (ℕ × ℕ × List ℕ)
generations =
    (76, 3, codes "3 (6.0 Gbps) ")
    ∷ (76, 2, codes "2 (3.0 Gbps) ")
    ∷ (76, 1, codes "1 (1.5 Gbps) ")
    ∷ []

unfoldable pub generation_text : (ℕ → ℕ) → List Shown
generation_text words =
    if not (words 76 == 0) && not (words 76 == 0xFFFF)
    then text (codes "SATA Gen Supported: ") ∷ (lines words generations ++ text (codes "\n") ∷ [])
    else []

abbrev features : List (ℕ × ℕ × List ℕ)
features =
    (82, 0, codes "  - SMART supported\n")
    ∷ (82, 1, codes "  - Security Mode supported\n")
    ∷ (82, 3, codes "  - Power Management supported\n")
    ∷ (82, 5, codes "  - Write Cache supported\n")
    ∷ (82, 6, codes "  - Look-ahead supported\n")
    ∷ (83, 10, codes "  - LBA48 supported\n")
    ∷ (83, 12, codes "  - AAM supported\n")
    ∷ (83, 13, codes "  - SET MAX security extension supported\n")
    ∷ (84, 0, codes "  - Device Configuration Overlay (DCO) supported\n")
    ∷ (84, 5, codes "  - NCQ supported\n")
    ∷ (85, 0, codes "  - General Purpose Logging (GPL) supported\n")
    ∷ (85, 4, codes "  - Write DMA Queued supported\n")
    ∷ (85, 5, codes "  - Read DMA Queued supported\n")
    ∷ (86, 13, codes "  - IDLE IMMEDIATE with UNLOAD supported\n")
    ∷ (87, 14, codes "  - World Wide Name (WWN) supported\n")
    ∷ (78, 2, codes "  - NCQ Management supported\n")
    ∷ (78, 8, codes "  - Software Settings Preservation supported\n")
    ∷ (78, 9, codes "  - Hardware Feature Control supported\n")
    ∷ (78, 10, codes "  - Device Initiated Power Management (DIPM) supported\n")
    ∷ []

unfoldable pub identify_text : (ℕ → ℕ) → Bool → List Shown
identify_text words lba48 =
    (text (codes "IDENTIFY Device Information:\n")
      ∷ text (codes "--------------------------\n")
      ∷ text (codes "Model Number:  [")
      ∷ text (model_number words)
      ∷ text (codes "]\n")
      ∷ text (codes "Serial Number: [")
      ∷ text (serial_number words)
      ∷ text (codes "]\n")
      ∷ text (codes "Supports LBA:  ")
      ∷ text (if has words 49 9 then codes "Yes" else codes "No")
      ∷ text (codes "\n")
      ∷ text (codes "Supports LBA48:")
      ∷ text (if lba48 then codes "Yes" else codes "No")
      ∷ text (codes "\n")
      ∷ [])
    ++ (capacity_text words lba48
        ++ (generation_text words ++ text (codes "Features:\n") ∷ lines words features))

-- The address, feature, count and control fields are not used.
unfoldable pub clear_fields : Memory → ℕ → Memory
clear_fields m cmdfis =
    let m1 = store (store (store m (cmdfis + 4) 0) (cmdfis + 5) 0) (cmdfis + 6) 0 in
    let m2 = store (store (store m1 (cmdfis + 8) 0) (cmdfis + 9) 0) (cmdfis + 10) 0 in
    let m3 = store (store m2 (cmdfis + 3) 0) (cmdfis + 11) 0 in
    store (store (store m3 (cmdfis + 12) 0) (cmdfis + 13) 0) (cmdfis + 15) 0

-- The command table of IDENTIFY DEVICE, with the header at `cmd_header`; the data buffer is cleared.
unfoldable pub set_up_identify : Memory → ℕ → ℕ → ℕ → Memory
set_up_identify m cmd_header cmd_table buffer =
    let m1 =
      fill_up sector_size 0 buffer 0 (fill_up 144 0 cmd_table 0 (fill_up 32 0 cmd_header 0 m)) in
    let m2 = set_bits (set_bits m1 cmd_header 0 5 5) cmd_header 5 1 0 in
    let m3 = set_bits (set_bits m2 cmd_header 6 1 0) cmd_header 7 1 1 in
    let m4 = store64 (store16 m3 (cmd_header + 2) 1) (cmd_header + 8) cmd_table in
    let m5 = store64 m4 (cmd_table + 128) buffer in
    let m6 = set_bits32 m5 (cmd_table + 140) 0 22 (sector_size - 1) in
    let m7 = set_bits32 m6 (cmd_table + 140) 31 1 1 in
    let m8 = set_bits (store m7 cmd_table fis_type_reg_h2d) (cmd_table + 1) 7 1 1 in
    let m9 = store (store m8 (cmd_table + 2) ata_cmd_identify) (cmd_table + 7) 0 in
    clear_fields m9 cmd_table

module _ {H : Hba} where
  unfoldable pub display_identify_data : Machine H → ℕ → Machine H
  display_identify_data m data_at =
      let words = λ (i : ℕ). load16 m.memory (data_at + 2 * i) in
      let lba48 = has words 83 10 in
      if data_at == 0
      then say (text (codes "ERROR: display_identify_data called with null pointer.\n") ∷ []) m
      else say (identify_text words lba48) (record m { lba48_available = lba48 })

  unfoldable pub send_identify_command : Buffers → Machine H → ℕ → ℕ → ℕ × Machine H
  send_identify_command b m ahci_base port =
      let port_addr = port_address ahci_base port in
      let prep = prepare_port_for_command m port_addr port in
      let slot = find_free_command_slot prep.1 port_addr in
      let cmd_header = b.cmd_list_buffer + slot.0 * 32 in
      let based = set_base_addresses b slot.1 port_addr in
      let set_up =
        say
          (text (codes "Issuing IDENTIFY command on slot ")
            ∷ number slot.0
            ∷ text (codes "...\n")
            ∷ [])
          (record based {
            memory = set_up_identify based.memory cmd_header b.cmd_table_buffer b.data_buffer;
          }) in
      let issued = issue_ahci_command set_up port_addr slot.0 in
      let waiting =
        say (text (codes "Command issued, waiting for completion...\n") ∷ []) issued.1 in
      let complete = wait_for_ahci_completion waiting port_addr slot.0 cmd_header sector_size in
      let told =
        say (text (codes "\nIDENTIFY command completed successfully.\n") ∷ []) complete.1 in
      if is_negative prep.0
      then prep
      else if is_negative slot.0
      then (
        negate 5,
        say
            (text (codes "ERROR: No free command slot found on port ")
              ∷ number port
              ∷ text (codes ".\n")
              ∷ [])
            slot.1,
      )
      else if is_negative issued.0
      then issued
      else if is_negative complete.0
      then complete
      else (0, display_identify_data told b.data_buffer)
