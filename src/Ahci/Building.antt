-- ===== src/Ahci/Building.antt =====
-- The command that the driver builds in memory decodes to the transfer that its caller asked for.
use text_os.Common.{
  ℕ, ◌+◌, ◌*◌, ◌/◌, ◌%◌, ◌^◌, ◌≤◌, ◌<◌, ◌≡◌, ◌⊎◌, inl, inr, refl, ◌∙◌, Bool, true, false, arith,
  some, u32,
}
use text_os.Memory.{Memory, load32, fill_up}
use text_os.Memory.Loops.{fill_up_at}
use text_os.Memory.Words.{load32-agree}
use text_os.Ahci.Commands.{configure_header, configure_prdt, configure_fis, set_up_command}
use text_os.Ahci.Decode.{
  load16, load64, decode, lba28, lba48, count28, count48, decode_command, is_plain_header,
  is_command_fis,
}
use text_os.Ahci.Fis.{
  Outside, configure_fis_apart, fis_command, lba48-fis, lba28-fis, count48-fis, count28-fis,
  is_command_fis-fis,
}
use text_os.Ahci.Encoding.{
  load64-agree, load16-agree, prdt_apart, prdt_length, prdt_address, header_apart, header_table,
  header_first, header_regions,
}

-- The direction bit and the command that the two functions choose.
abbrev pub direction : Bool → ℕ
direction true = 1
direction false = 0

abbrev pub command_of : Bool → Bool → ℕ
command_of false false = 0xC8
command_of false true = 0x25
command_of true false = 0xCA
command_of true true = 0x35

abbrev pub AddressFits : Bool → ℕ → Type 0
AddressFits true lba = lba < 2 ^ 48
AddressFits false lba = lba < 2 ^ 28

load32-zero : load32 (λ x. 0) 0 ≡ 0
unfolding load32
load32-zero = refl

-- The header and the command table do not overlap.
abbrev pub Apart : ℕ → ℕ → Type 0
Apart h t = (h + 32 ≤ t) ⊎ (t + 144 ≤ h)

-- A drive reads the sector address and the count in the form of the command.
abbrev read_lba : Bool → Memory → ℕ → ℕ
read_lba true m fis = lba48 m fis
read_lba false m fis = lba28 m fis

abbrev read_count : Bool → Memory → ℕ → ℕ
read_count true m fis = count48 m fis
read_count false m fis = count28 m fis

fis_lba :
    (m : Memory) (t command lba count : ℕ) (wide : Bool)
    → AddressFits wide lba
    → read_lba wide (configure_fis m t command lba count wide) t ≡ lba
fis_lba m t command lba count true fits = lba48-fis m t command lba count fits
fis_lba m t command lba count false fits = lba28-fis m t command lba count fits

fis_count :
    (m : Memory) (t command lba count : ℕ) (wide : Bool)
    → 0 < count
    → count ≤ 128
    → read_count wide (configure_fis m t command lba count wide) t ≡ count
fis_count m t command lba count true positive limit =
    count48-fis m t command lba count positive limit
fis_count m t command lba count false positive limit =
    count28-fis m t command lba count positive limit

decode_plain :
    (m : Memory) (list slot t d c : ℕ)
    → is_plain_header m (list + slot * 32) ≡ true
    → load64 m (list + slot * 32 + 8) ≡ t
    → is_command_fis m t ≡ true
    → m (list + slot * 32) / 2 ^ 6 % 2 ≡ d
    → m (t + 2) ≡ c
    → decode m list slot ≡ decode_command m d t c
unfolding decode
decode_plain m list slot t d c plain table fis dir cmd = rw (plain, table, fis, dir, cmd) refl

decode_fis :
    (m : Memory) (t lba count buffer : ℕ) (write wide : Bool)
    → read_lba wide m t ≡ lba
    → read_count wide m t ≡ count
    → load64 m (t + 128) ≡ buffer
    → load32 m (t + 140) % 2 ^ 22 + 1 ≡ count * 512
    → decode_command m (direction write) t (command_of write wide)
      ≡ some (record {
        is_write = write;
        lba = lba;
        count = count;
        address = buffer;
        bytes = count * 512;
      })
unfolding decode_command
decode_fis m t lba count buffer true true a b c d = rw (a, b, c, d) refl
decode_fis m t lba count buffer true false a b c d = rw (a, b, c, d) refl
decode_fis m t lba count buffer false true a b c d = rw (a, b, c, d) refl
decode_fis m t lba count buffer false false a b c d = rw (a, b, c, d) refl

direction_small : (write : Bool) → direction write < 2
direction_small true = omega arith
direction_small false = omega arith

module _ (m : Memory) (h t w command lba count : ℕ) (wide : Bool) (buffer : ℕ)
    (apart : Apart h t) where
  abbrev cleared : Memory
  cleared = fill_up 144 0 t 0 (fill_up 32 0 h 0 m)

  abbrev headed : Memory
  headed = configure_header cleared h w t

  abbrev regioned : Memory
  regioned = configure_prdt headed t buffer (u32 (count * 512))

  abbrev built : Memory
  built = configure_fis regioned t command lba count wide

  cleared_table : (x : ℕ) → t ≤ x → x < t + 144 → cleared x ≡ 0
  cleared_table x from to = fill_up_at 144 0 t 0 (fill_up 32 0 h 0 m) x ∙ ground arith

  cleared_header : cleared h ≡ 0
  cleared_header =
      fill_up_at 144 0 t 0 (fill_up 32 0 h 0 m) h ∙ ground (arith, fill_up_at 32 0 h 0 m h)

  headed_table : (x : ℕ) → t ≤ x → x < t + 144 → headed x ≡ 0
  headed_table x from to = header_apart cleared h w t x (ground arith) ∙ cleared_table x from to

  built_header : (x : ℕ) → h ≤ x → x < h + 16 → built x ≡ headed x
  built_header x from to =
      configure_fis_apart regioned t command lba count wide x (ground arith)
      ∙ prdt_apart headed t buffer (u32 (count * 512)) x (ground arith)

  built_region : (x : ℕ) → t + 128 ≤ x → built x ≡ regioned x
  built_region x from = configure_fis_apart regioned t command lba count wide x (inr (omega arith))

  pub regioned_flags : regioned (t + 1) ≡ 0
  regioned_flags =
      prdt_apart headed t buffer (u32 (count * 512)) (t + 1) (inl (omega arith))
      ∙ headed_table (t + 1) (omega arith) (omega arith)

  -- Everything outside the header and the command table is left alone.
  pub built_elsewhere : (x : ℕ) → Outside h 32 x → Outside t 144 x → built x ≡ m x
  built_elsewhere x oh ot =
      configure_fis_apart regioned t command lba count wide x (ground arith)
      ∙ prdt_apart headed t buffer (u32 (count * 512)) x (ground arith)
      ∙ header_apart cleared h w t x (ground arith)
      ∙ fill_up_at 144 0 t 0 (fill_up 32 0 h 0 m) x
      ∙ ground (arith, fill_up_at 32 0 h 0 m x)

  built_first : w < 2 → built h ≡ w * 2 ^ 6 + 5
  built_first small =
      built_header h (omega arith) (omega arith) ∙ header_first cleared h w t cleared_header small

  pub built_table : t < 2 ^ 64 → load64 built (h + 8) ≡ t
  built_table small =
      load64-agree built headed (h + 8)
        (λ i lt. built_header (h + 8 + i) (omega arith) (omega arith))
      ∙ header_table cleared h w t small

  built_regions : load16 built (h + 2) ≡ 1
  built_regions =
      load16-agree built headed (h + 2)
        (λ i lt. built_header (h + 2 + i) (omega arith) (omega arith))
      ∙ header_regions cleared h w t

  pub built_address : buffer < 2 ^ 64 → load64 built (t + 128) ≡ buffer
  built_address small =
      load64-agree built regioned (t + 128) (λ i lt. built_region (t + 128 + i) (omega arith))
      ∙ prdt_address headed t buffer (u32 (count * 512)) small

  pub built_length : 0 < count → count ≤ 128 → load32 built (t + 140) % 2 ^ 22 + 1 ≡ count * 512
  built_length positive limit =
      let zeros : load32 headed (t + 140) ≡ 0 =
        load32-agree headed (λ x. 0) (t + 140) 0
          (λ i lt. headed_table (t + 140 + i) (omega arith) (omega arith))
        ∙ load32-zero in
      let same : load32 built (t + 140) ≡ load32 regioned (t + 140) =
        load32-agree built regioned (t + 140) (t + 140)
          (λ i lt. built_region (t + 140 + i) (omega arith)) in
      omega (
        arith,
        same,
        prdt_length headed t buffer (u32 (count * 512)) zeros (omega arith) (omega arith),
      )

  is_plain_header-built : w < 2 → is_plain_header built h ≡ true
  unfolding is_plain_header
  is_plain_header-built small = rw (built_first small, built_regions) (ground arith)

-- For a header and a command table that do not overlap, addresses below 2 ^ 64, 1 to 128 sectors and an
-- address that the form of the command has room for: the command that `set_up_command` leaves in memory
-- decodes to the transfer of exactly these sectors to or from exactly this buffer.
pub decode-set_up_command :
    (m : Memory) (list slot t lba count buffer : ℕ) (write wide : Bool)
    → Apart (list + slot * 32) t
    → t < 2 ^ 64
    → buffer < 2 ^ 64
    → 0 < count
    → count ≤ 128
    → AddressFits wide lba
    → decode
        (set_up_command m
          (list + slot * 32)
          (direction write)
          t
          (command_of write wide)
          lba
          count
          wide
          buffer)
        list
        slot
      ≡ some (record {
        is_write = write;
        lba = lba;
        count = count;
        address = buffer;
        bytes = count * 512;
      })
unfolding set_up_command
decode-set_up_command m list slot t lba count buffer write wide apart st sb positive limit fits =
    let h = list + slot * 32 in
    let c = command_of write wide in
    let small = direction_small write in
    let first = built_first m h t (direction write) c lba count wide buffer apart small in
    let flags = regioned_flags m h t (direction write) c lba count wide buffer apart in
    let headed' = regioned m h t (direction write) c lba count wide buffer apart in
    decode_plain (built m h t (direction write) c lba count wide buffer apart) list slot t
      (direction write) c
      (is_plain_header-built m h t (direction write) c lba count wide buffer apart small)
      (built_table m h t (direction write) c lba count wide buffer apart st)
      (is_command_fis-fis headed' t c lba count wide flags) (omega (arith, first, small))
      (fis_command headed' t c lba count wide)
    ∙ decode_fis (built m h t (direction write) c lba count wide buffer apart) t lba count buffer
        write wide (fis_lba headed' t c lba count wide fits)
        (fis_count headed' t c lba count wide positive limit)
        (built_address m h t (direction write) c lba count wide buffer apart sb)
        (built_length m h t (direction write) c lba count wide buffer apart positive limit)
