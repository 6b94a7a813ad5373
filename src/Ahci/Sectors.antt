-- ===== src/Ahci/Sectors.antt =====
-- `read_sectors` and `write_sectors`: the sectors that they transfer, and the requests that they refuse.
use text_os.Common.{
  ℕ, ◌+◌, ◌*◌, ◌^◌, ◌<◌, ◌≤◌, ◌≡◌, ◌⊎◌, inl, inr, refl, ◌∙◌, Bool, true, false, Bool-cases, arith,
  ◌==◌, ne→==, le→ltb, ltb, u64, if◌then◌else◌, codes, negate,
}
use text_os.Memory.{Memory}
use text_os.Drive.{written}
use text_os.Ahci.{Hba, Machine}
use text_os.Ahci.Commands.{Buffers, transfer, read_sectors, write_sectors, port_address}
use text_os.Ahci.Building.{AddressFits, command_of}
use text_os.Ahci.Controller.{IsReliablePort}
use text_os.Ahci.Transfers.{IsPlaced, IsUsable, Transferred, transfer-Transferred}

-- The last sector has an address of 28 bits, or of 48 bits where the device takes these.
abbrev pub IsAddressable : Bool → ℕ → ℕ → Type 0
IsAddressable true lba count = lba + count ≤ 2 ^ 48
IsAddressable false lba count = lba + count ≤ 2 ^ 28

pub written_inside :
    (m : Memory) (at n : ℕ) (f : Memory) (i : ℕ) → i < n → written m at n f (at + i) ≡ f i
written_inside m at n f i lt = ground arith

addressable_fits :
    (wide : Bool) (lba count : ℕ) → 0 < count → IsAddressable wide lba count → AddressFits wide lba
addressable_fits true lba count positive h = omega arith
addressable_fits false lba count positive h = omega arith

module _ {H : Hba} (b : Buffers) (m : Machine H) (ahci_base port lba count buffer : ℕ) where
  -- A valid request is sent with the command of the form that the device takes.
  sends :
      (wide : Bool)
      → m.lba48_available ≡ wide
      → IsAddressable wide lba count
      → 0 < count
      → count ≤ 128
      → 0 < buffer
      → (read_sectors b m ahci_base port lba count buffer
          ≡ transfer b m
              (codes "read")
              0
              (port_address ahci_base port)
              port
              lba
              count
              buffer
              (command_of false wide)
              wide)
        × (write_sectors b m ahci_base port lba count buffer
            ≡ transfer b m
                (codes "write")
                1
                (port_address ahci_base port)
                port
                lba
                count
                buffer
                (command_of true wide)
                wide)
  unfolding read_sectors write_sectors
  sends true e fits positive limit given =
      let counted = ne→== count 0 (ground arith) in
      let small = le→ltb 128 count limit in
      let buffered = ne→== buffer 0 (ground arith) in
      elim (Bool-cases (ltb (2 ^ 28) (u64 (lba + count)))) [
        | inl w ↦
            (rw (counted, small, buffered, w, e) refl, rw (counted, small, buffered, w, e) refl)
        | inr w ↦
            (rw (counted, small, buffered, w, e) refl, rw (counted, small, buffered, w, e) refl)
      ]
  sends false e fits positive limit given =
      let counted = ne→== count 0 (ground arith) in
      let small = le→ltb 128 count limit in
      let buffered = ne→== buffer 0 (ground arith) in
      let short = le→ltb (2 ^ 28) (u64 (lba + count)) (omega arith) in
      (rw (counted, small, buffered, short, e) refl, rw (counted, small, buffered, short, e) refl)

  -- A request that is refused reaches neither the controller nor the memory; the result is 0 for no
  -- sectors at all, and negative otherwise.
  abbrev pub IsUntouched : ℕ × Machine H → Type 0
  IsUntouched r =
      (r.1.controller ≡ m.controller)
      × (r.1.memory ≡ m.memory)
      × (r.0 ≡ (
          if count == 0
          then 0
          else if ltb 128 count
          then negate 10
          else if buffer == 0
          then negate 11
          else negate 12))

  abbrev pub IsRefused : Type 0
  IsRefused =
      (count ≡ 0)
      ⊎ (128 < count)
      ⊎ (buffer ≡ 0)
      ⊎ ((m.lba48_available ≡ false) × (2 ^ 28 < u64 (lba + count)))

  -- With no sectors, more than 128, no buffer, or, on a device without 48-bit addresses, an end past the
  -- sector 2 ^ 28, `read_sectors` and `write_sectors` leave the controller and the memory untouched, and
  -- return 0 for no sectors at all and otherwise -10, -11 or -12 for the first of these reasons.
  pub sectors-IsUntouched :
      IsRefused
      → IsUntouched (read_sectors b m ahci_base port lba count buffer)
        × IsUntouched (write_sectors b m ahci_base port lba count buffer)
  unfolding read_sectors write_sectors
  sectors-IsUntouched h = elim (Bool-cases (count == 0)) [
    | inl e ↦ rw e ((refl, refl, refl), (refl, refl, refl))
    | inr e ↦ elim (Bool-cases (ltb 128 count)) [
      | inl f ↦ rw (e, f) ((refl, refl, refl), (refl, refl, refl))
      | inr f ↦ elim (Bool-cases (buffer == 0)) [
        | inl g ↦ rw (e, f, g) ((refl, refl, refl), (refl, refl, refl))
        | inr g ↦
            let short : m.lba48_available ≡ false = ground arith in
            let far : ltb (2 ^ 28) (u64 (lba + count)) ≡ true = ground arith in
            rw (e, f, g, far, short) ((refl, refl, refl), (refl, refl, refl))
      ]
    ]
  ]

module _ {H : Hba} (b : Buffers) (ahci_base port : ℕ)
    (P : IsReliablePort H (port_address ahci_base port)) (placed : IsPlaced b) (m : Machine H)
    (lba count buffer : ℕ) (idle : P.is_idle m.controller ≡ true) (usable : IsUsable b buffer count)
    (positive : 0 < count) (limit : count ≤ 128) (fits : IsAddressable m.lba48_available lba count)
    (there : lba + count ≤ P.capacity) where
  -- On an idle port without faults, with the static buffers apart and a buffer apart from them, for 1 to
  -- 128 sectors that the drive has and that can be addressed: `read_sectors` returns 0, the buffer holds
  -- the bytes of these sectors, every sector is as before, and the port is idle again.
  pub read_sectors-Transferred :
      (m' : Machine H) × (read_sectors b m ahci_base port lba count buffer ≡ (0, m'))
      × Transferred P m m' false lba count buffer
  read_sectors-Transferred =
      let (m', e, t) =
        transfer-Transferred P b placed m false m.lba48_available port lba count buffer idle usable
          positive limit (addressable_fits m.lba48_available lba count positive fits) there
          (codes "read") in
      (
        m',
        (sends b m ahci_base port lba count buffer m.lba48_available refl fits positive limit
              usable.given).0
            ∙ e,
        t,
      )

  -- On an idle port without faults, with the static buffers apart and a buffer apart from them, for 1 to
  -- 128 sectors that the drive has and that can be addressed: `write_sectors` returns 0, these sectors hold the bytes of the buffer, every
  -- other sector is as before, and the port is idle again.
  pub write_sectors-Transferred :
      (m' : Machine H) × (write_sectors b m ahci_base port lba count buffer ≡ (0, m'))
      × Transferred P m m' true lba count buffer
  write_sectors-Transferred =
      let (m', e, t) =
        transfer-Transferred P b placed m true m.lba48_available port lba count buffer idle usable
          positive limit (addressable_fits m.lba48_available lba count positive fits) there
          (codes "write") in
      (
        m',
        (sends b m ahci_base port lba count buffer m.lba48_available refl fits positive limit
              usable.given).1
            ∙ e,
        t,
      )

module _ {H : Hba} (b : Buffers) (ahci_base port : ℕ)
    (P : IsReliablePort H (port_address ahci_base port)) (placed : IsPlaced b) (m : Machine H)
    (lba count buffer : ℕ) (idle : P.is_idle m.controller ≡ true) (usable : IsUsable b buffer count)
    (positive : 0 < count) (limit : count ≤ 128) (fits : IsAddressable m.lba48_available lba count)
    (there : lba + count ≤ P.capacity) where
  -- On an idle port without faults, with the static buffers apart and two buffers apart from them, for 1
  -- to 128 sectors that the drive has and that can be addressed: `write_sectors` and then `read_sectors`
  -- return 0, and the second buffer holds the bytes of the first.
  pub read_sectors-write_sectors :
      (target : ℕ)
      → IsUsable b target count
      → (m1 m2 : Machine H) × (write_sectors b m ahci_base port lba count buffer ≡ (0, m1))
        × (read_sectors b m1 ahci_base port lba count target ≡ (0, m2))
        × ((i : ℕ) → i < count * 512 → m2.memory (target + i) ≡ m.memory (buffer + i))
  read_sectors-write_sectors target usable' =
      let (m1, e1, t1) =
        write_sectors-Transferred b ahci_base port P placed m lba count buffer idle usable positive
          limit fits there in
      let fits' : IsAddressable m1.lba48_available lba count = rw t1.flag fits in
      let (m2, e2, t2) =
        read_sectors-Transferred b ahci_base port P placed m1 lba count target t1.idle usable'
          positive limit fits' there in
      (
        m1,
        m2,
        e1,
        e2,
        λ i lt.
            (t2.reads refl).0 i lt
            ∙ t1.writes refl (lba * 512 + i)
            ∙ written_inside (P.held m.controller) (lba * 512) (count * 512)
                (λ j. m.memory (buffer + j)) i lt,
      )
