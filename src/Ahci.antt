-- ===== src/Ahci.antt =====
-- The AHCI driver of identify.h: the registers of a port, the command slots and the completion of a
-- command. The controller is hardware, and an interface here: an access to a register may change it
-- and, by a DMA transfer, the memory. An address is a number that is not wrapped; an `int` result is
-- its bit pattern.
pub mod Ports
pub mod Commands
pub mod Decode
pub mod Fis
pub mod Encoding
pub mod Building
pub mod Slots
pub mod Waiting
pub mod Controller
pub mod Preparing
pub mod Completing
pub mod Transfers
pub mod Sectors
pub mod Strings
pub mod StringRoundTrip
pub mod Identify
pub mod Names
pub mod ArrayPort
mod Examples
use text_os.Common.{
  ℕ, zero, suc, ◌+◌, ◌*◌, ◌/◌, ◌^◌, Bool, not, ◌&&◌, List, [], ◌∷◌, ◌++◌, ltb, ◌==◌, if◌then◌else◌,
  u32, negate, is_negative, bit_and, bit_or, codes,
}
use text_os.Memory.{Memory, load32}
use text_os.Printed.{Shown, text, number}

pub record Hba : Type 1 where
  pub Controller : Type 0
  pub read : ℕ → Controller × Memory → ℕ × (Controller × Memory)
  pub write : ℕ → ℕ → Controller × Memory → Controller × Memory

-- The controller, the memory, the global `lba48_available`, and what was printed.
pub record Machine (H : Hba) : Type 0 where
  pub controller : H.Controller
  pub memory : Memory
  pub lba48_available : Bool
  pub printed : List Shown

-- The offsets of the registers of a port.
abbrev pub port_clb : ℕ
port_clb = 0x00

abbrev pub port_clbu : ℕ
port_clbu = 0x04

abbrev pub port_fb : ℕ
port_fb = 0x08

abbrev pub port_fbu : ℕ
port_fbu = 0x0C

abbrev pub port_is : ℕ
port_is = 0x10

abbrev pub port_cmd : ℕ
port_cmd = 0x18

abbrev pub port_tfd : ℕ
port_tfd = 0x20

abbrev pub port_ssts : ℕ
port_ssts = 0x28

abbrev pub port_serr : ℕ
port_serr = 0x30

abbrev pub port_sact : ℕ
port_sact = 0x34

abbrev pub port_ci : ℕ
port_ci = 0x38

-- The start bit and the FIS-receive bit of PORT_CMD.
abbrev pub hba_port_cmd_st : ℕ
hba_port_cmd_st = 0x0001

abbrev pub hba_port_cmd_fre : ℕ
hba_port_cmd_fre = 0x0010

-- `for (i = …; i < 32; ++i)` over the slots from `i` on.
unfoldable pub free_slot_from : ℕ → ℕ → ℕ → ℕ
free_slot_from zero i busy_slots = negate 1
free_slot_from (suc rounds) i busy_slots =
    let rest = free_slot_from rounds (i + 1) busy_slots in
    if bit_and (busy_slots / 2 ^ i) 1 == 0 then i else rest

abbrev flag : ℕ → ℕ → List ℕ → List Shown
flag tfd mask name = if bit_and tfd mask == 0 then [] else text name ∷ []

-- The status bits of the task file by their names.
abbrev status_bits : ℕ → List Shown
status_bits tfd =
    flag tfd 0x80 (codes "BSY ")
    ++ (flag tfd 0x40 (codes "DRDY ")
        ++ (flag tfd 0x20 (codes "DF ")
            ++ (flag tfd 0x10 (codes "DSC ")
                ++ (flag tfd 0x08 (codes "DRQ ")
                    ++ (flag tfd 0x04 (codes "CORR ")
                        ++ (flag tfd 0x02 (codes "IDX ") ++ flag tfd 0x01 (codes "ERR ")))))))

module _ {H : Hba} where
  abbrev pub say : List Shown → Machine H → Machine H
  say shown m = record m { printed = m.printed ++ shown }

  unfoldable pub read_mem32 : Machine H → ℕ → ℕ × Machine H
  read_mem32 m addr =
      let r = H.read addr (m.controller, m.memory) in
      (r.0, record m { controller = r.1.0; memory = r.1.1 })

  unfoldable pub write_mem32 : Machine H → ℕ → ℕ → Machine H
  write_mem32 m addr value =
      let r = H.write addr value (m.controller, m.memory) in
      record m { controller = r.0; memory = r.1 }

  -- The loop of `wait_for_clear` with the rounds that are left. The delay after a read only counts.
  unfoldable pub wait_rounds : ℕ → Machine H → ℕ → ℕ → ℕ × Machine H
  wait_rounds zero m reg_addr mask = (negate 1, m)
  wait_rounds (suc rounds) m reg_addr mask =
      let r = read_mem32 m reg_addr in
      let rest = wait_rounds rounds r.1 reg_addr mask in
      if bit_and r.0 mask == 0 then (0, r.1) else rest

  unfoldable pub wait_for_clear : Machine H → ℕ → ℕ → ℕ → ℕ × Machine H
  wait_for_clear m reg_addr mask timeout_ms = wait_rounds (timeout_ms * 10) m reg_addr mask

  unfoldable pub find_free_command_slot : Machine H → ℕ → ℕ × Machine H
  find_free_command_slot m port_addr =
      let ci_val = read_mem32 m (port_addr + port_ci) in
      let sact_val = read_mem32 ci_val.1 (port_addr + port_sact) in
      (free_slot_from 32 0 (bit_or ci_val.0 sact_val.0), sact_val.1)

  unfoldable pub issue_ahci_command : Machine H → ℕ → ℕ → ℕ × Machine H
  issue_ahci_command m port_addr slot =
      let idle = wait_for_clear m (port_addr + port_tfd) 0x88 1000 in
      let tfd = read_mem32 idle.1 (port_addr + port_tfd) in
      if is_negative idle.0
      then (
        negate 6,
        say
            (text (codes "ERROR: Port is busy before command issue (TFD=0x")
              ∷ number tfd.0
              ∷ text (codes "). Cannot send command.\n")
              ∷ [])
            tfd.1,
      )
      else (0, write_mem32 idle.1 (port_addr + port_ci) (u32 (2 ^ slot)))

  -- The report of a failed command, which clears the bits of SERR if the ERR bit is set.
  unfoldable pub report_failure : Machine H → ℕ → ℕ → Machine H
  report_failure m port_addr tfd =
      let m' =
        say
          (text (codes "ERROR: Command failed. TFD status: ")
            ∷ (status_bits tfd
                ++ text (codes "(Raw TFD: 0x") ∷ number tfd ∷ text (codes ")\n") ∷ []))
          m in
      let serr_val = read_mem32 m' (port_addr + port_serr) in
      let shown =
        say (text (codes " SError: 0x") ∷ number serr_val.0 ∷ text (codes "\n") ∷ []) serr_val.1 in
      if bit_and tfd 0x01 == 0 then m' else write_mem32 shown (port_addr + port_serr) serr_val.0

  unfoldable pub check_transferred : Machine H → ℕ → ℕ → ℕ × Machine H
  check_transferred m expected_bytes bytes_transferred =
      if ltb 0 expected_bytes && not (bytes_transferred == expected_bytes)
      then (
        negate 9,
        say
            (text (codes "WARNING: Expected ")
              ∷ number expected_bytes
              ∷ text (codes " bytes, but received/transferred ")
              ∷ number bytes_transferred
              ∷ text (codes " bytes.\n")
              ∷ [])
            m,
      )
      else if expected_bytes == 0 && not (bytes_transferred == 0)
      then (
        0,
        say
            (text (codes "DEBUG: Command had PRDTL=0 but PRDBC=")
              ∷ number bytes_transferred
              ∷ text (codes "?\n")
              ∷ [])
            m,
      )
      else (0, m)

  unfoldable pub wait_for_ahci_completion : Machine H → ℕ → ℕ → ℕ → ℕ → ℕ × Machine H
  wait_for_ahci_completion m port_addr slot cmd_header expected_bytes =
      let served = wait_for_clear m (port_addr + port_ci) (u32 (2 ^ slot)) 5000 in
      let tfd = read_mem32 served.1 (port_addr + port_tfd) in
      if is_negative served.0
      then (
        negate 7,
        say
            (text (codes "ERROR: Command timed out waiting for CI bit ")
              ∷ number slot
              ∷ text (codes " to clear.\n")
              ∷ [])
            served.1,
      )
      else if not (bit_and tfd.0 0x21 == 0)
      then (negate 8, report_failure tfd.1 port_addr tfd.0)
      else check_transferred tfd.1 expected_bytes (load32 tfd.1.memory (cmd_header + 4))
