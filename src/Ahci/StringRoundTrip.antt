-- ===== src/Ahci/StringRoundTrip.antt =====
-- A string that `write_string_to_sector` puts in a sector, read back by `read_string_from_sector`.
use text_os.Common.{
  ℕ, zero, suc, ◌+◌, ◌*◌, ◌<◌, ◌≤◌, ◌≡◌, ◌⊎◌, refl, ap, ◌∙◌, true, some, List, [], ◌∷◌, length,
  arith, ne→==, le→ltb, lt→leb,
}
use text_os.Memory.{Memory, store, copy_up}
use text_os.Memory.Loops.{fill_up_at, copy_up_at}
use text_os.CString.Strings.{IsString, IsString-same, strlen_lem}
use text_os.CString.Copying.{strcpy_lem}
use text_os.Ahci.{Hba, Machine}
use text_os.Ahci.Commands.{Buffers, port_address}
use text_os.Ahci.Controller.{IsReliablePort}
use text_os.Ahci.Transfers.{IsPlaced, IsUsable}
use text_os.Ahci.Sectors.{
  IsAddressable, read_sectors-Transferred, write_sectors-Transferred, written_inside,
}
use text_os.Ahci.Strings.{
  simple_strlen, simple_strcpy, clear_buffer, find_null, write_sized_string, store_buffer,
  announce_write, announce_read, write_string_to_sector, copy_out, read_string_from_sector,
}

clear_buffer_outside :
    (m : Memory) (buffer size x : ℕ)
    → (x < buffer) ⊎ (buffer + size ≤ x)
    → clear_buffer m buffer size x ≡ m x
unfolding clear_buffer
clear_buffer_outside m buffer size x h = fill_up_at size 0 buffer 0 m x ∙ ground arith

find_null_from :
    (rounds i s d : ℕ) (m : Memory) (bs : List ℕ)
    → s ≡ d + i
    → IsString m s bs
    → length bs < rounds
    → find_null rounds i m d ≡ i + length bs
unfolding find_null
find_null_from zero i s d m bs e h lt = elim lt [ ]
find_null_from (suc rounds) i s d m [] e h lt = ground arith
find_null_from (suc rounds) i s d m (b ∷ bs) e h lt =
    ground (arith, find_null_from rounds (i + 1) (s + 1) d m bs)

-- A string that was copied byte by byte, and closed by a zero.
IsString-copied :
    (m n : Memory) (s d : ℕ) (bs : List ℕ)
    → ((i : ℕ) → i < length bs → n (d + i) ≡ m (s + i))
    → n (d + length bs) ≡ 0
    → IsString m s bs
    → IsString n d bs
IsString-copied m n s d [] same end h = ap n (omega arith) ∙ end
IsString-copied m n s d (b ∷ bs) same end (e, ne, h) = (
  ap n (omega arith) ∙ same 0 (omega arith) ∙ ap m (omega arith) ∙ e,
  ne,
  IsString-copied m n (s + 1) (d + 1) bs
      (λ i lt. ap n (omega arith) ∙ same (i + 1) (omega arith) ∙ ap m (omega arith))
      (ap n (omega arith) ∙ end) h,
)

IsString-end : (m : Memory) (s : ℕ) (bs : List ℕ) → IsString m s bs → m (s + length bs) ≡ 0
IsString-end m s [] h = ap m (omega arith) ∙ h
IsString-end m s (b ∷ bs) (e, ne, h) = ap m (omega arith) ∙ IsString-end m (s + 1) bs h

IsString-moved :
    (m n : Memory) (s d : ℕ) (bs : List ℕ)
    → ((i : ℕ) → i ≤ length bs → n (d + i) ≡ m (s + i))
    → IsString m s bs
    → IsString n d bs
IsString-moved m n s d bs same h =
    IsString-copied m n s d bs (λ i lt. same i (omega arith))
      (same (length bs) (omega arith) ∙ IsString-end m s bs h) h

-- The sector `lba` holds the string.
abbrev pub HoldsString :
    {H : Hba} {port_addr : ℕ} → IsReliablePort H port_addr → ℕ → Machine H → List ℕ → Type 0
HoldsString P lba m bs = IsString (P.held m.controller) (lba * 512) bs

module _ {H : Hba} (b : Buffers) (m : Machine H) (out buffer_size : ℕ) (bs : List ℕ)
    (fits : length bs < buffer_size)
    (apart : (out + length bs < b.data_buffer) ⊎ (b.data_buffer + 512 ≤ out)) where
  abbrev copied_bytes : Memory
  copied_bytes = copy_up (length bs) 0 out b.data_buffer m.memory

  abbrev closed : Memory
  closed = store copied_bytes (out + length bs) 0

  abbrev final : Memory
  final = clear_buffer closed b.data_buffer 512

  final_bytes :
      length bs < 512 → (i : ℕ) → i < length bs → final (out + i) ≡ m.memory (b.data_buffer + i)
  final_bytes short i lt =
      clear_buffer_outside closed b.data_buffer 512 (out + i) (ground arith)
      ∙ ground (arith, copy_up_at (length bs) 0 out b.data_buffer m.memory (out + i) (ground arith))

  final_end : length bs < 512 → final (out + length bs) ≡ 0
  final_end short =
      clear_buffer_outside closed b.data_buffer 512 (out + length bs) (ground arith) ∙ ground arith

  -- With room for the string, it is copied whole.
  copy_out-IsString :
      length bs < 512
      → IsString m.memory b.data_buffer bs
      → (m' : Machine H) × (copy_out b m out buffer_size (length bs) ≡ (0, m'))
        × IsString m'.memory out bs
  unfolding copy_out
  copy_out-IsString short h = (
    record m { memory = final },
    rw (lt→leb buffer_size (length bs) fits) refl,
    IsString-copied m.memory final b.data_buffer out bs (final_bytes short) (final_end short) h,
  )

module _ {H : Hba} (b : Buffers) (ahci_base port : ℕ)
    (P : IsReliablePort H (port_address ahci_base port)) (placed : IsPlaced b)
    (usable : IsUsable b b.data_buffer 1) (m : Machine H) (lba : ℕ)
    (idle : P.is_idle m.controller ≡ true) (fits : IsAddressable m.lba48_available lba 1)
    (there : lba + 1 ≤ P.capacity) where
  store_buffer-HoldsString :
      (bs : List ℕ)
      → IsString m.memory b.data_buffer bs
      → length bs < 512
      → (m' : Machine H) × (store_buffer b m ahci_base port lba ≡ (0, m'))
        × HoldsString P lba m' bs
        × (P.is_idle m'.controller ≡ true)
        × (m'.lba48_available ≡ m.lba48_available)
  unfolding store_buffer
  store_buffer-HoldsString bs h short =
      let (n, e, t) =
        write_sectors-Transferred b ahci_base port P placed m lba 1 b.data_buffer idle usable
          (omega arith) (omega arith) fits there in
      let same = λ (i : ℕ) (lt : i < 512).
        t.writes refl (lba * 512 + i)
        ∙ written_inside (P.held m.controller) (lba * 512) 512 (λ j. m.memory (b.data_buffer + j)) i
            lt in
      (
        record n { memory = clear_buffer n.memory b.data_buffer 512 },
        rw e refl,
        IsString-moved m.memory (P.held n.controller) b.data_buffer (lba * 512) bs
            (λ i le. same i (omega arith)) h,
        t.idle,
        t.flag,
      )

module _ {H : Hba} (b : Buffers) (ahci_base port : ℕ)
    (P : IsReliablePort H (port_address ahci_base port)) (placed : IsPlaced b)
    (usable : IsUsable b b.data_buffer 1) (m : Machine H) (lba : ℕ)
    (idle : P.is_idle m.controller ≡ true) (fits : IsAddressable m.lba48_available lba 1)
    (there : lba + 1 ≤ P.capacity) where
  pub write_string_to_sector-HoldsString :
      (fuel str : ℕ) (bs : List ℕ)
      → 0 < str
      → IsString m.memory str bs
      → length bs < 512
      → length bs < fuel
      → (str + length bs < b.data_buffer) ⊎ (b.data_buffer + 512 ≤ str)
      → (m' : Machine H) × (write_string_to_sector fuel b m ahci_base port lba str ≡ some (0, m'))
        × HoldsString P lba m' bs
        × (P.is_idle m'.controller ≡ true)
        × (m'.lba48_available ≡ m.lba48_available)
  unfolding write_string_to_sector write_sized_string simple_strlen simple_strcpy announce_write
  write_string_to_sector-HoldsString fuel str bs given h short enough apart =
      let cleared = clear_buffer m.memory b.data_buffer 512 in
      let still : IsString cleared str bs =
        IsString-same m.memory cleared str bs
          (λ x lo hi. clear_buffer_outside m.memory b.data_buffer 512 x (ground arith)) h in
      let (k, e, c) = strcpy_lem fuel b.data_buffer str cleared bs still enough (ground arith) in
      let copied = announce_write (record m { memory = k }) lba (length bs) str in
      let (n, f, holds, ready, flag) =
        store_buffer-HoldsString b ahci_base port P placed usable copied lba idle fits there bs c.0
          short in
      (
        n,
        rw
            (
              ne→== str 0 (ground arith),
              strlen_lem fuel str m.memory bs h enough,
              le→ltb 512 (length bs + 1) (omega arith),
              ne→== b.data_buffer 0 (ground (arith, usable.given)),
              ne→== str 0 (ground arith),
              e,
              f,
            )
            refl,
        holds,
        ready,
        flag,
      )

  pub read_string_from_sector-HoldsString :
      (out buffer_size : ℕ) (bs : List ℕ)
      → HoldsString P lba m bs
      → 0 < out
      → length bs < 512
      → length bs < buffer_size
      → (out + length bs < b.data_buffer) ⊎ (b.data_buffer + 512 ≤ out)
      → (m' : Machine H) × (read_string_from_sector b m ahci_base port lba out buffer_size
          ≡ (0, m'))
        × IsString m'.memory out bs
  unfolding read_string_from_sector announce_read
  read_string_from_sector-HoldsString out buffer_size bs h given short room apart =
      let cleared = announce_read b m lba out in
      let (n, e, t) =
        read_sectors-Transferred b ahci_base port P placed cleared lba 1 b.data_buffer idle usable
          (omega arith) (omega arith) fits there in
      let there_now : IsString n.memory b.data_buffer bs =
        IsString-moved (P.held m.controller) n.memory (lba * 512) b.data_buffer bs
          (λ i le. (t.reads refl).0 i (omega arith)) h in
      let length_found : find_null 512 0 n.memory b.data_buffer ≡ length bs =
        find_null_from 512 0 b.data_buffer b.data_buffer n.memory bs (omega arith) there_now short
        ∙ omega arith in
      let (m', f, g) = copy_out-IsString b n out buffer_size bs room apart short there_now in
      (
        m',
        rw (ne→== out 0 (ground arith), ne→== buffer_size 0 (ground arith), e, length_found, f)
            refl,
        g,
      )

module _ {H : Hba} (b : Buffers) (ahci_base port : ℕ)
    (P : IsReliablePort H (port_address ahci_base port)) (placed : IsPlaced b)
    (usable : IsUsable b b.data_buffer 1) (m : Machine H) (lba : ℕ)
    (idle : P.is_idle m.controller ≡ true) (fits : IsAddressable m.lba48_available lba 1)
    (there : lba + 1 ≤ P.capacity) where
  -- On an idle port without faults, with the static buffers apart, for a string of fewer than 512 bytes in
  -- memory apart from the data buffer, fuel above its length, a sector that the drive has and that can be
  -- addressed, and an output buffer apart from the data buffer with room for the string:
  -- `write_string_to_sector` and then `read_string_from_sector` return 0, and the output is the string.
  pub read_string_from_sector-write_string_to_sector :
      (fuel str out buffer_size : ℕ) (bs : List ℕ)
      → 0 < str
      → 0 < out
      → IsString m.memory str bs
      → length bs < 512
      → length bs < fuel
      → length bs < buffer_size
      → (str + length bs < b.data_buffer) ⊎ (b.data_buffer + 512 ≤ str)
      → (out + length bs < b.data_buffer) ⊎ (b.data_buffer + 512 ≤ out)
      → (m1 m2 : Machine H) × (write_string_to_sector fuel b m ahci_base port lba str
          ≡ some (0, m1))
        × (read_string_from_sector b m1 ahci_base port lba out buffer_size ≡ (0, m2))
        × IsString m2.memory out bs
  read_string_from_sector-write_string_to_sector fuel str out buffer_size bs given given' h short
        enough room apart apart' =
      let (m1, e1, holds, ready, flag) =
        write_string_to_sector-HoldsString b ahci_base port P placed usable m lba idle fits there
          fuel str bs given h short enough apart in
      let fits' : IsAddressable m1.lba48_available lba 1 = rw flag fits in
      let (m2, e2, h2) =
        read_string_from_sector-HoldsString b ahci_base port P placed usable m1 lba ready fits'
          there out buffer_size bs holds given' short room apart' in
      (m1, m2, e1, e2, h2)
