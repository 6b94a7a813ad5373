-- ===== src/Ahci/Completing.antt =====
-- On a port without faults: a command that is issued is waited for, and its end is noticed.
use text_os.Common.{ℕ, ◌+◌, ◌^◌, ◌<◌, ◌≡◌, refl, true, arith, ne→==, lt→ltb, ==_refl, u32}
use text_os.Memory.{load32}
use text_os.Ahci.{
  Hba, Machine, write_mem32, wait_for_clear, issue_ahci_command, wait_for_ahci_completion,
  check_transferred, port_tfd, port_ci,
}
use text_os.Ahci.Commands.{issue_and_wait}
use text_os.Ahci.Waiting.{clear, with_bus, wait_rounds-ClearsAfter}
use text_os.Ahci.Controller.{IsReliablePort, Served}
use text_os.Ahci.Preparing.{read_mem32-idle}

module _ {H : Hba} {port_addr : ℕ} (P : IsReliablePort H port_addr) where
  -- An idle port is not busy, so a command is issued at once.
  issue_ahci_command-idle :
      (m : Machine H) (slot : ℕ)
      → P.is_idle m.controller ≡ true
      → issue_ahci_command m port_addr slot
        ≡ (0, write_mem32 m (port_addr + port_ci) (u32 (2 ^ slot)))
  unfolding issue_ahci_command wait_for_clear
  issue_ahci_command-idle m slot idle =
      let at_once =
        wait_rounds-ClearsAfter 10000 m (port_addr + port_tfd) 0x88
          (clear (P.register m.controller port_tfd)
            (P.read-idle m.controller m.memory port_tfd idle) ((P.idle_status m.controller idle).0))
          (omega arith) in
      rw at_once refl

  wait_for_ahci_completion-Served :
      (m : Machine H) (slot cmd_header expected_bytes : ℕ)
      → (s : Served H port_addr slot (m.controller, m.memory)) → P.is_idle s.final.0 ≡ true
      → load32 s.final.1 (cmd_header + 4) ≡ expected_bytes
      → 0 < expected_bytes
      → wait_for_ahci_completion m port_addr slot cmd_header expected_bytes
        ≡ (0, with_bus m s.final)
  unfolding wait_for_ahci_completion wait_for_clear check_transferred
  wait_for_ahci_completion-Served m slot cmd_header expected_bytes s idle bytes positive =
      let served =
        wait_rounds-ClearsAfter 50000 m (port_addr + port_ci) (u32 (2 ^ slot)) s.clears s.in_time in
      rw
        (
          served,
          read_mem32-idle P (with_bus m s.final) port_tfd idle,
          (P.idle_status s.final.0 idle).1,
          bytes,
          lt→ltb 0 expected_bytes positive,
          ==_refl expected_bytes,
          ne→== expected_bytes 0 (ground arith),
        )
        refl

  pub issue_and_wait-Served :
      (m : Machine H) (slot cmd_header byte_count : ℕ)
      → P.is_idle m.controller ≡ true
      → (s : Served H port_addr slot
          (H.write (port_addr + port_ci) (u32 (2 ^ slot)) (m.controller, m.memory)))
      → P.is_idle s.final.0 ≡ true
      → load32 s.final.1 (cmd_header + 4) ≡ byte_count
      → 0 < byte_count
      → issue_and_wait m port_addr slot cmd_header byte_count ≡ (0, with_bus m s.final)
  unfolding issue_and_wait write_mem32
  issue_and_wait-Served m slot cmd_header byte_count idle s after bytes positive =
      let started = write_mem32 m (port_addr + port_ci) (u32 (2 ^ slot)) in
      rw
        (
          issue_ahci_command-idle m slot idle,
          wait_for_ahci_completion-Served started slot cmd_header byte_count s after bytes positive,
        )
        refl
