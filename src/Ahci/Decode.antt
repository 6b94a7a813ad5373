-- ===== src/Ahci/Decode.antt =====
-- How a controller and a drive read a command in memory, by the layouts of the AHCI and ATA standards
-- that the comments of identify.h cite: the reference for what the driver builds.
use text_os.Common.{
  ℕ, ◌+◌, ◌*◌, ◌/◌, ◌%◌, ◌^◌, Bool, true, false, ◌&&◌, Option, none, some, ◌==◌, if◌then◌else◌,
}
use text_os.Memory.{Memory, load32}

-- A transfer of `count` sectors from `lba` on, and the region of memory that it is given.
pub record Request : Type 0 where
  pub is_write : Bool
  pub lba : ℕ
  pub count : ℕ
  pub address : ℕ
  pub bytes : ℕ

unfoldable pub load16 : Memory → ℕ → ℕ
load16 m a = m a + m (a + 1) * 2 ^ 8

unfoldable pub load64 : Memory → ℕ → ℕ
load64 m a = load32 m a + load32 m (a + 4) * 2 ^ 32

-- The sector address and the count of a register FIS, in the 28-bit and in the 48-bit form.
abbrev pub low_lba : Memory → ℕ → ℕ
low_lba m fis = m (fis + 4) + m (fis + 5) * 2 ^ 8 + m (fis + 6) * 2 ^ 16

unfoldable pub lba28 : Memory → ℕ → ℕ
lba28 m fis = low_lba m fis + m (fis + 7) % 2 ^ 4 * 2 ^ 24

unfoldable pub lba48 : Memory → ℕ → ℕ
lba48 m fis = low_lba m fis + m (fis + 8) * 2 ^ 24 + m (fis + 9) * 2 ^ 32 + m (fis + 10) * 2 ^ 40

unfoldable pub count28 : Memory → ℕ → ℕ
count28 m fis = if m (fis + 12) == 0 then 256 else m (fis + 12)

unfoldable pub count48 : Memory → ℕ → ℕ
count48 m fis = if load16 m (fis + 12) == 0 then 2 ^ 16 else load16 m (fis + 12)

-- A register FIS that carries a command, in LBA mode.
unfoldable pub is_command_fis : Memory → ℕ → Bool
is_command_fis m fis =
    (m fis == 0x27) && (m (fis + 1) / 2 ^ 7 == 1) && (m (fis + 7) / 2 ^ 6 % 2 == 1)

-- The header has a FIS of five words and one region.
unfoldable pub is_plain_header : Memory → ℕ → Bool
is_plain_header m header = (m header % 2 ^ 5 == 5) && (load16 m (header + 2) == 1)

-- READ DMA, READ DMA EXT, WRITE DMA and WRITE DMA EXT, with the direction bit of the header.
unfoldable pub decode_command : Memory → ℕ → ℕ → ℕ → Option Request
decode_command m direction fis command =
    let address = load64 m (fis + 128) in
    let bytes = load32 m (fis + 140) % 2 ^ 22 + 1 in
    let short : Bool → Option Request = λ w. some (record {
      is_write = w;
      lba = lba28 m fis;
      count = count28 m fis;
      address = address;
      bytes = bytes;
    }) in
    let long : Bool → Option Request = λ w. some (record {
      is_write = w;
      lba = lba48 m fis;
      count = count48 m fis;
      address = address;
      bytes = bytes;
    }) in
    if (direction == 0) && (command == 0xC8)
    then short false
    else if (direction == 0) && (command == 0x25)
    then long false
    else if (direction == 1) && (command == 0xCA)
    then short true
    else if (direction == 1) && (command == 0x35)
    then long true
    else none

-- The command of a slot of the command list at `list`.
unfoldable pub decode : Memory → ℕ → ℕ → Option Request
decode m list slot =
    let header = list + slot * 32 in
    let fis = load64 m (header + 8) in
    if is_plain_header m header && is_command_fis m fis
    then decode_command m (m header / 2 ^ 6 % 2) fis (m (fis + 2))
    else none
