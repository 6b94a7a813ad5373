-- ===== src/Ahci/Ports.antt =====
-- `prepare_port_for_command` of identify.h: it starts the port if it stands still, looks for a device,
-- and clears what is pending.
use text_os.Common.{
  ℕ, ◌+◌, ◌/◌, ◌^◌, not, [], ◌∷◌, ◌==◌, if◌then◌else◌, u8, negate, bit_and, bit_or, codes,
}
use text_os.Printed.{text, number}
use text_os.Ahci.{
  Hba, Machine, say, read_mem32, write_mem32, port_is, port_cmd, port_ssts, port_serr,
  hba_port_cmd_st, hba_port_cmd_fre,
}

module _ {H : Hba} where
  unfoldable pub clear_pending : Machine H → ℕ → ℕ × Machine H
  clear_pending m port_addr =
      let serr =
        read_mem32 (write_mem32 m (port_addr + port_is) 0xFFFFFFFF) (port_addr + port_serr) in
      if serr.0 == 0 then (0, serr.1) else (0, write_mem32 serr.1 (port_addr + port_serr) serr.0)

  unfoldable pub ensure_present : Machine H → ℕ → ℕ → ℕ × Machine H
  ensure_present m port_addr port =
      let ssts = read_mem32 m (port_addr + port_ssts) in
      let det = u8 (bit_and ssts.0 0x0F) in
      let ipm = u8 (bit_and (ssts.0 / 2 ^ 8) 0x0F) in
      if not (det == 3)
      then (
        negate 4,
        say
            (text (codes "ERROR: No device detected or communication not established on port ")
              ∷ number port
              ∷ text (codes ". DET = ")
              ∷ number det
              ∷ text (codes "\n")
              ∷ [])
            ssts.1,
      )
      else clear_pending
          (if not (ipm == 1)
            then say
                (text (codes "WARNING: Port ")
                  ∷ number port
                  ∷ text (codes " is not in active state (IPM = ")
                  ∷ number ipm
                  ∷ text (codes "). May not respond.\n")
                  ∷ [])
                ssts.1
            else ssts.1)
          port_addr

  -- `cmd` is what PORT_CMD was read as last.
  unfoldable pub ensure_started : Machine H → ℕ → ℕ → ℕ → ℕ × Machine H
  ensure_started m port_addr port cmd =
      let warned =
        say
          (text (codes "WARNING: Port ")
            ∷ number port
            ∷ text (codes " Start (ST) is not set. Attempting to start.\n")
            ∷ [])
          m in
      let again =
        read_mem32 (write_mem32 warned (port_addr + port_cmd) (bit_or cmd hba_port_cmd_st))
          (port_addr + port_cmd) in
      let failed =
        say
          (text (codes "ERROR: Failed to start port ")
            ∷ number port
            ∷ text (codes " (ST bit)\n")
            ∷ [])
          again.1 in
      if bit_and cmd hba_port_cmd_st == 0
      then (if bit_and again.0 hba_port_cmd_st == 0
          then (negate 3, failed)
          else ensure_present again.1 port_addr port)
      else ensure_present m port_addr port

  unfoldable pub prepare_port_for_command : Machine H → ℕ → ℕ → ℕ × Machine H
  prepare_port_for_command m port_addr port =
      let cmd = read_mem32 m (port_addr + port_cmd) in
      let warned =
        say
          (text (codes "WARNING: Port ")
            ∷ number port
            ∷ text (codes " FIS Receive (FRE) is not enabled. Attempting to enable.\n")
            ∷ [])
          cmd.1 in
      let again =
        read_mem32 (write_mem32 warned (port_addr + port_cmd) (bit_or cmd.0 hba_port_cmd_fre))
          (port_addr + port_cmd) in
      let failed =
        say
          (text (codes "ERROR: Failed to enable FIS Receive (FRE) on port ")
            ∷ number port
            ∷ text (codes "\n")
            ∷ [])
          again.1 in
      if bit_and cmd.0 hba_port_cmd_fre == 0
      then (if bit_and again.0 hba_port_cmd_fre == 0
          then (negate 2, failed)
          else ensure_started again.1 port_addr port again.0)
      else ensure_started cmd.1 port_addr port cmd.0
