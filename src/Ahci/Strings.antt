-- ===== src/Ahci/Strings.antt =====
-- The functions of identify.h that keep a C string in a sector. The loops of `simple_strlen` and
-- `simple_strcpy` are those of `strlen` and `strcpy`, and take fuel like them.
use text_os.Common.{
  ℕ, zero, suc, ◌+◌, ◌-◌, Option, none, some, List, [], ◌∷◌, ◌||◌, ltb, leb, ◌==◌, if◌then◌else◌,
  u32, negate, is_negative, codes,
}
use text_os.Memory.{Memory, store, copy_up, fill_up}
use text_os.CString.{strlen, strcpy}
use text_os.Printed.{text, number}
use text_os.Ahci.{Hba, Machine, say}
use text_os.Ahci.Commands.{Buffers, sector_size, read_sectors, write_sectors}

-- A null pointer has the length 0.
unfoldable pub simple_strlen : ℕ → Memory → ℕ → Option ℕ
simple_strlen fuel m str = if str == 0 then some 0 else strlen fuel m str

unfoldable pub simple_strcpy : ℕ → Memory → ℕ → ℕ → Option Memory
simple_strcpy fuel m dst src = if (dst == 0) || (src == 0) then some m else strcpy fuel m dst src

unfoldable pub clear_buffer : Memory → ℕ → ℕ → Memory
clear_buffer m buffer size = fill_up size 0 buffer 0 m

-- What `cout <<` shows of a string of a known length.
abbrev bytes_at : ℕ → Memory → ℕ → List ℕ
bytes_at zero m str = []
bytes_at (suc len) m str = m str ∷ bytes_at len m (str + 1)

-- The index of the first zero, from `i` on, or the end.
unfoldable pub find_null : ℕ → ℕ → Memory → ℕ → ℕ
find_null zero i m sector_string = i
find_null (suc rounds) i m sector_string =
    let rest = find_null rounds (i + 1) m sector_string in
    if m (sector_string + i) == 0 then i else rest

module _ {H : Hba} where
  unfoldable pub announce_write : Machine H → ℕ → ℕ → ℕ → Machine H
  announce_write m lba len str =
      say
        (text (codes "Writing string \"")
          ∷ text (bytes_at len m.memory str)
          ∷ text (codes "\" to LBA ")
          ∷ number (u32 lba)
          ∷ text (codes "...\n")
          ∷ [])
        m

  -- The write of the data buffer, which is cleared afterwards.
  unfoldable pub store_buffer : Buffers → Machine H → ℕ → ℕ → ℕ → ℕ × Machine H
  store_buffer b m ahci_base port lba =
      let result = write_sectors b m ahci_base port lba 1 b.data_buffer in
      (
        result.0,
        record result.1 { memory = clear_buffer result.1.memory b.data_buffer sector_size },
      )

  -- The part of `write_string_to_sector` behind the call of `simple_strlen`.
  unfoldable pub write_sized_string :
      ℕ → Buffers → Machine H → ℕ → ℕ → ℕ → ℕ → ℕ → Option (ℕ × Machine H)
  write_sized_string fuel b m ahci_base port lba str len =
      let too_long =
        say
          (text (codes "ERROR: String too long (")
            ∷ number (u32 len)
            ∷ text (codes " chars) to fit in one sector (")
            ∷ number sector_size
            ∷ text (codes " bytes).\n")
            ∷ [])
          m in
      if ltb sector_size (len + 1)
      then some (negate 21, too_long)
      else elim (simple_strcpy fuel (clear_buffer m.memory b.data_buffer sector_size) b.data_buffer
          str) [
            | none ↦ none
            | some memory ↦ some (
                store_buffer b (announce_write (record m { memory = memory }) lba len str) ahci_base
                  port lba)
          ]

  unfoldable pub write_string_to_sector :
      ℕ → Buffers → Machine H → ℕ → ℕ → ℕ → ℕ → Option (ℕ × Machine H)
  write_string_to_sector fuel b m ahci_base port lba str =
      if str == 0
      then some (negate 20, say (text (codes "ERROR: Cannot write null string.\n") ∷ []) m)
      else elim (simple_strlen fuel m.memory str) [
        | none ↦ none
        | some len ↦ write_sized_string fuel b m ahci_base port lba str len
      ]

  -- The copy of a string of `string_len` bytes from the data buffer, cut to the size of the output.
  unfoldable pub copy_out : Buffers → Machine H → ℕ → ℕ → ℕ → ℕ × Machine H
  copy_out b m out_buffer buffer_size string_len =
      let copy_len = if leb buffer_size string_len then buffer_size - 1 else string_len in
      let memory =
        store (copy_up copy_len 0 out_buffer b.data_buffer m.memory) (out_buffer + copy_len) 0 in
      let warned =
        if leb buffer_size string_len
        then say
            (text (codes "WARNING: String read from sector was truncated to fit buffer size ")
              ∷ number (u32 buffer_size)
              ∷ text (codes ".\n")
              ∷ [])
            m
        else m in
      (
        if leb buffer_size string_len then 1 else 0,
        record warned { memory = clear_buffer memory b.data_buffer sector_size },
      )

  -- The output and the data buffer are cleared.
  unfoldable pub announce_read : Buffers → Machine H → ℕ → ℕ → Machine H
  announce_read b m lba out_buffer =
      say (text (codes "Reading string from LBA ") ∷ number (u32 lba) ∷ text (codes "...\n") ∷ [])
        (record m { memory = clear_buffer (store m.memory out_buffer 0) b.data_buffer sector_size })

  unfoldable pub read_string_from_sector : Buffers → Machine H → ℕ → ℕ → ℕ → ℕ → ℕ → ℕ × Machine H
  read_string_from_sector b m ahci_base port lba out_buffer buffer_size =
      let cleared = announce_read b m lba out_buffer in
      let result = read_sectors b cleared ahci_base port lba 1 b.data_buffer in
      if (out_buffer == 0) || (buffer_size == 0)
      then (
        negate 22,
        say (text (codes "ERROR: Invalid output buffer for reading string.\n") ∷ []) m,
      )
      else if is_negative result.0
      then result
      else copy_out b result.1 out_buffer buffer_size
          (find_null sector_size 0 result.1.memory b.data_buffer)
