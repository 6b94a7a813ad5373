-- ===== src/Ahci/Fis.antt =====
-- The register FIS that identify.h builds: its bytes, and what a drive reads in it.
use text_os.Common.{
  ℕ, ◌+◌, ◌/◌, ◌%◌, ◌^◌, ◌≤◌, ◌<◌, ◌≡◌, Bool-cases, ◌⊎◌, inl, inr, refl, Bool, true, false, arith,
}
use text_os.Common.Bits.{bit_or-low, bit_and_mask}
use text_os.Memory.{Memory}
use text_os.Ahci.Commands.{set_bits, configure_fis, set_high_lba, byte_at}
use text_os.Ahci.Decode.{load16, lba28, lba48, count28, count48, is_command_fis}

abbrev pub Outside : ℕ → ℕ → ℕ → Type 0
Outside a n x = (x < a) ⊎ (a + n ≤ x)

-- What a step leaves alone.
pub configure_fis_apart :
    (m : Memory) (t command lba count : ℕ) (wide : Bool) (x : ℕ)
    → Outside t 16 x
    → configure_fis m t command lba count wide x ≡ m x
unfolding configure_fis set_high_lba set_bits
configure_fis_apart m t command lba count true x (inl h) = ground arith
configure_fis_apart m t command lba count true x (inr h) = ground arith
configure_fis_apart m t command lba count false x (inl h) = ground arith
configure_fis_apart m t command lba count false x (inr h) = ground arith

-- The bytes of the FIS that a drive reads, where the area was cleared.
module _ (m : Memory) (t command lba count : ℕ) where
  abbrev fis : Bool → Memory
  fis wide = configure_fis m t command lba count wide

  module _ (wide : Bool) where
    fis_type : fis wide t ≡ 0x27
    unfolding configure_fis set_high_lba set_bits
    fis_type = ground (arith, Bool-cases wide)

    fis_flags : m (t + 1) ≡ 0 → fis wide (t + 1) ≡ 2 ^ 7
    unfolding configure_fis set_high_lba set_bits
    fis_flags clear = ground (arith, Bool-cases wide)

    pub fis_command : fis wide (t + 2) ≡ command
    unfolding configure_fis set_high_lba set_bits
    fis_command = ground (arith, Bool-cases wide)

    fis_lba :
        (fis wide (t + 4) ≡ byte_at lba 0)
        × (fis wide (t + 5) ≡ byte_at lba 8)
        × (fis wide (t + 6) ≡ byte_at lba 16)
    unfolding configure_fis set_high_lba set_bits
    fis_lba = (
      ground (arith, Bool-cases wide),
      ground (arith, Bool-cases wide),
      ground (arith, Bool-cases wide),
    )

    fis_count : (fis wide (t + 12) ≡ byte_at count 0) × (fis wide (t + 12 + 1) ≡ byte_at count 8)
    unfolding configure_fis set_high_lba set_bits
    fis_count = (ground (arith, Bool-cases wide), ground (arith, Bool-cases wide))

  fis_wide :
      (fis true (t + 7) ≡ 2 ^ 6)
      × (fis true (t + 8) ≡ byte_at lba 24)
      × (fis true (t + 9) ≡ byte_at lba 32)
      × (fis true (t + 10) ≡ byte_at lba 40)
  unfolding configure_fis set_high_lba set_bits
  fis_wide = (ground arith, ground arith, ground arith, ground arith)

  fis_device : fis false (t + 7) ≡ 2 ^ 6 + lba / 2 ^ 24 % 2 ^ 4
  unfolding configure_fis set_high_lba set_bits
  fis_device =
      ground
        (arith, bit_and_mask 4 (lba / 2 ^ 24), bit_or-low 6 1 (lba / 2 ^ 24 % 2 ^ 4) (omega arith))

  pub lba48-fis : lba < 2 ^ 48 → lba48 (fis true) t ≡ lba
  unfolding lba48
  lba48-fis h =
      let (a, b, c) = fis_lba true in
      let (d, e, f, g) = fis_wide in rw (a, b, c, e, f, g) (omega arith)

  pub lba28-fis : lba < 2 ^ 28 → lba28 (fis false) t ≡ lba
  unfolding lba28
  lba28-fis h = let (a, b, c) = fis_lba false in rw (a, b, c, fis_device) (omega arith)

  module _ (positive : 0 < count) (limit : count ≤ 128) where
    pub count48-fis : count48 (fis true) t ≡ count
    unfolding count48 load16
    count48-fis = let (a, b) = fis_count true in rw (a, b) (ground arith)

    pub count28-fis : count28 (fis false) t ≡ count
    unfolding count28
    count28-fis = rw ((fis_count false).0) (ground arith)

  pub is_command_fis-fis : (wide : Bool) → m (t + 1) ≡ 0 → is_command_fis (fis wide) t ≡ true
  unfolding is_command_fis
  is_command_fis-fis true clear = rw (fis_type true, fis_flags true clear, fis_wide.0) refl
  is_command_fis-fis false clear =
      rw (fis_type false, fis_flags false clear, fis_device) (ground arith)
