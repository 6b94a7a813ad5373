-- ===== src/Ahci/Controller.antt =====
-- What the AHCI standard promises of a port without faults.
use text_os.Common.{
  ℕ, ◌+◌, ◌*◌, ◌/◌, ◌%◌, ◌^◌, ◌≤◌, ◌<◌, ◌≡◌, ◌⊎◌, Bool, true, false, ◌||◌, ◌==◌, some, u32, bit_and,
}
use text_os.Memory.{Memory, load32}
use text_os.Drive.{written}
use text_os.Ahci.{
  Hba, port_clb, port_clbu, port_fb, port_fbu, port_is, port_cmd, port_tfd, port_ssts, port_serr,
  port_sact, port_ci,
}
use text_os.Ahci.Decode.{Request, decode}
use text_os.Ahci.Waiting.{ClearsAfter}

-- A write to one of these registers sets it, and starts nothing.
abbrev pub is_setting : ℕ → Bool
is_setting r = (r == port_fb) || (r == port_fbu) || (r == port_is) || (r == port_serr)

-- Two areas of memory.
abbrev pub Disjoint : ℕ → ℕ → ℕ → ℕ → Type 0
Disjoint a n b k = (a + n ≤ b) ⊎ (b + k ≤ a)

-- The effect of a request on the sectors that are held and on the memory, from the memory `m`.
pub record Executed (r : Request) (header : ℕ) (held : Memory) (m : Memory) (held' m' : Memory)
    : Type 0 where
  pub transferred : load32 m' (header + 4) ≡ r.bytes
  pub reads :
      r.is_write ≡ false
      → ((i : ℕ) → i < r.bytes → m' (r.address + i) ≡ held (r.lba * 512 + i)) × (held' ≡ held)
  pub writes :
      r.is_write ≡ true
      → (x : ℕ) → held' x ≡ written held (r.lba * 512) r.bytes (λ i. m (r.address + i)) x

-- The end of a command: after fewer than 50000 reads of PORT_CI its bit is clear, and the port is idle.
pub record Served (H : Hba) (port_addr slot : ℕ) (s : H.Controller × Memory) : Type 0 where
  pub polls : ℕ
  pub final : H.Controller × Memory
  pub in_time : polls < 50000
  pub clears : ClearsAfter H (port_addr + port_ci) (u32 (2 ^ slot)) polls s final

-- A port without faults. While it is idle, it is started, a device is there, no command is in flight, no
-- error is pending, and reading a register changes nothing. A write to PORT_CI serves the command of the
-- slot, if its header and its region do not overlap and its sectors are there.
pub record IsReliablePort (H : Hba) (port_addr : ℕ) : Type 0 where
  pub capacity : ℕ
  pub held : H.Controller → Memory
  pub is_idle : H.Controller → Bool
  pub register : H.Controller → ℕ → ℕ
  pub command_list : H.Controller → ℕ
  pub read-idle :
      (c : H.Controller) (m : Memory) (r : ℕ)
      → is_idle c ≡ true
      → H.read (port_addr + r) (c, m) ≡ (register c r, (c, m))
  pub idle_started : (c : H.Controller) → is_idle c ≡ true → register c port_cmd % 2 ≡ 1
  pub idle_receives : (c : H.Controller) → is_idle c ≡ true → register c port_cmd / 2 ^ 4 % 2 ≡ 1
  pub idle_present : (c : H.Controller) → is_idle c ≡ true → register c port_ssts % 2 ^ 4 ≡ 3
  pub idle_free :
      (c : H.Controller) → is_idle c ≡ true → (register c port_ci ≡ 0) × (register c port_sact ≡ 0)
  pub idle_status :
      (c : H.Controller)
      → is_idle c ≡ true
      → (bit_and (register c port_tfd) 0x88 ≡ 0) × (bit_and (register c port_tfd) 0x21 ≡ 0)
  pub write-setting :
      (c : H.Controller) (m : Memory) (r v : ℕ)
      → is_idle c ≡ true
      → is_setting r ≡ true
      → let s = H.write (port_addr + r) v (c, m) in
        (is_idle s.0 ≡ true) × (held s.0 ≡ held c) × (command_list s.0 ≡ command_list c) × (s.1 ≡ m)
  pub write-clb :
      (c : H.Controller) (m : Memory) (v : ℕ)
      → is_idle c ≡ true
      → v < 2 ^ 32
      → let s = H.write (port_addr + port_clb) v (c, m) in
        (is_idle s.0 ≡ true)
        × (held s.0 ≡ held c)
        × (command_list s.0 ≡ command_list c / 2 ^ 32 * 2 ^ 32 + v)
        × (s.1 ≡ m)
  pub write-clbu :
      (c : H.Controller) (m : Memory) (v : ℕ)
      → is_idle c ≡ true
      → v < 2 ^ 32
      → let s = H.write (port_addr + port_clbu) v (c, m) in
        (is_idle s.0 ≡ true)
        × (held s.0 ≡ held c)
        × (command_list s.0 ≡ v * 2 ^ 32 + command_list c % 2 ^ 32)
        × (s.1 ≡ m)
  pub serves :
      (c : H.Controller) (m : Memory) (list slot : ℕ) (r : Request)
      → is_idle c ≡ true
      → command_list c ≡ list
      → slot < 32
      → decode m list slot ≡ some r
      → r.bytes ≡ r.count * 512
      → r.lba + r.count ≤ capacity
      → Disjoint (list + slot * 32) 32 r.address r.bytes
      → (s : Served H port_addr slot (H.write (port_addr + port_ci) (u32 (2 ^ slot)) (c, m)))
        × (is_idle s.final.0 ≡ true)
        × Executed r (list + slot * 32) (held c) m (held s.final.0) s.final.1
