-- ===== src/Ahci/Preparing.antt =====
-- On a port without faults: the preparation of a command finds the port ready.
use text_os.Common.{
  ℕ, ◌+◌, ◌/◌, ◌^◌, ◌<◌, ◌≡◌, inl, inr, refl, ◌∙◌, true, Bool-cases, ◌==◌, arith, u8, u32, bit_and,
  List,
}
use text_os.Common.Bits.{bit_and_mask, bit_and_high}
use text_os.Printed.{Shown}
use text_os.Ahci.{
  Hba, Machine, read_mem32, write_mem32, find_free_command_slot, free_slot_from, port_clb,
  port_clbu, port_fb, port_fbu, port_is, port_cmd, port_ssts, port_serr, port_sact, port_ci,
}
use text_os.Ahci.Ports.{prepare_port_for_command, ensure_started, ensure_present, clear_pending}
use text_os.Ahci.Commands.{Buffers, set_base_addresses}
use text_os.Ahci.Controller.{IsReliablePort, is_setting}

module _ {H : Hba} {port_addr : ℕ} (P : IsReliablePort H port_addr) where
  -- The port of `m'` is idle, and it has the sectors of `m`, its memory and its global flag.
  pub record Kept (m m' : Machine H) : Type 0 where
    pub idle : P.is_idle m'.controller ≡ true
    pub sectors : P.held m'.controller ≡ P.held m.controller
    pub bytes : m'.memory ≡ m.memory
    pub flag : m'.lba48_available ≡ m.lba48_available

  pub Kept-trans : {m m' m'' : Machine H} → Kept m m' → Kept m' m'' → Kept m m''
  Kept-trans k l = record {
    idle = l.idle;
    sectors = l.sectors ∙ k.sectors;
    bytes = l.bytes ∙ k.bytes;
    flag = l.flag ∙ k.flag;
  }

  pub read_mem32-idle :
      (m : Machine H) (r : ℕ)
      → P.is_idle m.controller ≡ true
      → read_mem32 m (port_addr + r) ≡ (P.register m.controller r, m)
  unfolding read_mem32
  read_mem32-idle m r idle = rw (P.read-idle m.controller m.memory r idle) refl

  write_mem32-Kept :
      (m : Machine H) (r v : ℕ)
      → is_setting r ≡ true
      → P.is_idle m.controller ≡ true
      → Kept m (write_mem32 m (port_addr + r) v)
  unfolding write_mem32
  write_mem32-Kept m r v s idle =
      let (a, b, c, d) = P.write-setting m.controller m.memory r v idle s in
      record { idle = a; sectors = b; bytes = d; flag = refl }

  abbrev pub Ready : Machine H → ℕ × Machine H → Type 0
  Ready m r = (r.0 ≡ 0) × Kept m r.1

  said-Ready :
      {m : Machine H} {shown : List Shown} {r : ℕ × Machine H}
      → Ready (record m { printed = shown }) r
      → Ready m r
  said-Ready (e, k) =
      (e, record { idle = k.idle; sectors = k.sectors; bytes = k.bytes; flag = k.flag })

  clear_pending-Ready :
      (m : Machine H) → P.is_idle m.controller ≡ true → Ready m (clear_pending m port_addr)
  unfolding clear_pending
  clear_pending-Ready m idle =
      let m1 = write_mem32 m (port_addr + port_is) 0xFFFFFFFF in
      let k = write_mem32-Kept m port_is 0xFFFFFFFF refl idle in
      let v = P.register m1.controller port_serr in
      let l = write_mem32-Kept m1 port_serr v refl k.idle in
      rw (read_mem32-idle m1 port_serr k.idle) (elim (Bool-cases (v == 0)) [
        | inl e ↦ rw e (refl, k)
        | inr e ↦ rw e (refl, Kept-trans k l)
      ])

  ensure_present-Ready :
      (m : Machine H) (port : ℕ)
      → P.is_idle m.controller ≡ true
      → Ready m (ensure_present m port_addr port)
  unfolding ensure_present
  ensure_present-Ready m port idle =
      let v = P.register m.controller port_ssts in
      let det : u8 (bit_and v 0x0F) ≡ 3 =
        omega (arith, bit_and_mask 4 v, P.idle_present m.controller idle) in
      rw (read_mem32-idle m port_ssts idle, det)
        (elim (Bool-cases (u8 (bit_and (v / 2 ^ 8) 0x0F) == 1)) [
          | inl e ↦ rw e (clear_pending-Ready m idle)
          | inr e ↦ rw e (said-Ready (clear_pending-Ready _ idle))
        ])

  ensure_started-Ready :
      (m : Machine H) (port : ℕ)
      → P.is_idle m.controller ≡ true
      → Ready m (ensure_started m port_addr port (P.register m.controller port_cmd))
  unfolding ensure_started
  ensure_started-Ready m port idle =
      let v = P.register m.controller port_cmd in
      let on : bit_and v 1 ≡ 1 = bit_and_mask 1 v ∙ P.idle_started m.controller idle in
      rw on (ensure_present-Ready m port idle)

  -- The preparation of an idle port succeeds and keeps it.
  pub prepare_port_for_command-Ready :
      (m : Machine H) (port : ℕ)
      → P.is_idle m.controller ≡ true
      → Ready m (prepare_port_for_command m port_addr port)
  unfolding prepare_port_for_command
  prepare_port_for_command-Ready m port idle =
      let v = P.register m.controller port_cmd in
      let on : bit_and v 0x10 ≡ 0x10 = omega (
        arith,
        bit_and_high 4 v 1,
        bit_and_mask 1 (v / 2 ^ 4),
        P.idle_receives m.controller idle,
      ) in
      rw (read_mem32-idle m port_cmd idle, on) (ensure_started-Ready m port idle)

  -- The first slot is free on an idle port.
  pub find_free_command_slot-idle :
      (m : Machine H) → P.is_idle m.controller ≡ true → find_free_command_slot m port_addr ≡ (0, m)
  unfolding find_free_command_slot free_slot_from
  find_free_command_slot-idle m idle =
      let (a, b) = P.idle_free m.controller idle in
      rw (read_mem32-idle m port_ci idle, read_mem32-idle m port_sact idle, a, b) refl

  -- The base registers hold the address of the command list.
  pub set_base_addresses-Kept :
      (b : Buffers) (m : Machine H)
      → P.is_idle m.controller ≡ true
      → b.cmd_list_buffer < 2 ^ 64
      → Kept m (set_base_addresses b m port_addr)
        × (P.command_list (set_base_addresses b m port_addr).controller ≡ b.cmd_list_buffer)
  unfolding set_base_addresses write_mem32
  set_base_addresses-Kept b m idle small =
      let low = u32 b.cmd_list_buffer in
      let high = u32 (b.cmd_list_buffer / 2 ^ 32) in
      let s1 = H.write (port_addr + port_clb) low (m.controller, m.memory) in
      let (a1, b1, c1, d1) = P.write-clb m.controller m.memory low idle (omega arith) in
      let s2 = H.write (port_addr + port_clbu) high s1 in
      let (a2, b2, c2, d2) = P.write-clbu s1.0 s1.1 high a1 (omega arith) in
      let fb = u32 b.fis_buffer in
      let s3 = H.write (port_addr + port_fb) fb s2 in
      let (a3, b3, c3, d3) = P.write-setting s2.0 s2.1 port_fb fb a2 refl in
      let fbu = u32 (b.fis_buffer / 2 ^ 32) in
      let (a4, b4, c4, d4) = P.write-setting s3.0 s3.1 port_fbu fbu a3 refl in
      (
        record { idle = a4; sectors = b4 ∙ b3 ∙ b2 ∙ b1; bytes = d4 ∙ d3 ∙ d2 ∙ d1; flag = refl },
        omega (arith, c4, c3, c2, c1),
      )
