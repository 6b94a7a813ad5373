-- ===== src/Ahci/Examples.antt =====
-- Runs of the driver of identify.h on a port that is an array of 16 sectors.
use text_os.Common.{
  ℕ, ◌+◌, ◌*◌, ◌/◌, ◌%◌, ◌^◌, ◌<◌, ◌≤◌, ◌≡◌, inl, inr, refl, true, false, some, [], ◌∷◌, arith,
  ◌==◌, if◌then◌else◌, codes, leb,
}
use text_os.Ahci.{Machine, find_free_command_slot, wait_for_clear, read_mem32}
use text_os.Ahci.Commands.{Buffers, read_sectors, write_sectors, set_up_command}
use text_os.Ahci.Decode.{decode}
use text_os.Ahci.Building.{decode-set_up_command}
use text_os.Ahci.Slots.{FirstFree, find_free_command_slot-FirstFree}
use text_os.Ahci.Waiting.{Waited, wait_for_clear-Waited}
use text_os.Ahci.Transfers.{IsPlaced, IsUsable, Transferred}
use text_os.CString.Strings.{IsString}
use text_os.Ahci.Strings.{write_string_to_sector, read_string_from_sector}
use text_os.Ahci.StringRoundTrip.{read_string_from_sector-write_string_to_sector}
use text_os.Ahci.Identify.{model_number, serial_number, max_lba48, gib_capacity}
use text_os.Ahci.Names.{names_lem, gib_capacity-max_lba48}
use text_os.Ahci.Sectors.{
  IsUntouched, sectors-IsUntouched, read_sectors-Transferred, write_sectors-Transferred,
  read_sectors-write_sectors,
}
use text_os.Ahci.ArrayPort.{array_hba, array_port}

abbrev buffers : Buffers
buffers = record {
  cmd_list_buffer = 0x10000;
  fis_buffer = 0x10400;
  cmd_table_buffer = 0x10800;
  data_buffer = 0x20000;
}

buffers-IsPlaced : IsPlaced buffers
buffers-IsPlaced = record {
  list_in_space = omega arith;
  table_in_space = omega arith;
  list_apart_table = omega arith;
}

at-IsUsable : (buffer : ℕ) → 0x20000 ≤ buffer → buffer < 2 ^ 64 → IsUsable buffers buffer 2
at-IsUsable buffer from to = record {
  given = omega arith;
  in_space = to;
  apart_list = inl (omega arith);
  apart_table = inl (omega arith);
}

-- Sector `k` holds `k` in each byte, and so does the page `k` of the memory.
abbrev machine : Machine array_hba
machine = record {
  controller = record { sectors = λ x. x / 512; list = 0 };
  memory = λ x. x / 4096 % 256;
  lba48_available = false;
  printed = [];
}

read_sectors-Transferred_example :
    (m' : Machine array_hba) × (read_sectors buffers machine 0 0 5 2 0x20000 ≡ (0, m'))
    × Transferred array_port machine m' false 5 2 0x20000
read_sectors-Transferred_example =
    read_sectors-Transferred buffers 0 0 array_port buffers-IsPlaced machine 5 2 0x20000 refl
      (at-IsUsable 0x20000 (omega arith) (omega arith)) (omega arith) (omega arith) (omega arith)
      (omega arith)

write_sectors-Transferred_example :
    (m' : Machine array_hba) × (write_sectors buffers machine 0 0 5 2 0x21000 ≡ (0, m'))
    × Transferred array_port machine m' true 5 2 0x21000
write_sectors-Transferred_example =
    write_sectors-Transferred buffers 0 0 array_port buffers-IsPlaced machine 5 2 0x21000 refl
      (at-IsUsable 0x21000 (omega arith) (omega arith)) (omega arith) (omega arith) (omega arith)
      (omega arith)

read_sectors-write_sectors_example :
    (m1 m2 : Machine array_hba) × (write_sectors buffers machine 0 0 5 2 0x21000 ≡ (0, m1))
    × (read_sectors buffers m1 0 0 5 2 0x20000 ≡ (0, m2))
    × ((i : ℕ) → i < 1024 → m2.memory (0x20000 + i) ≡ machine.memory (0x21000 + i))
read_sectors-write_sectors_example =
    read_sectors-write_sectors buffers 0 0 array_port buffers-IsPlaced machine 5 2 0x21000 refl
      (at-IsUsable 0x21000 (omega arith) (omega arith)) (omega arith) (omega arith) (omega arith)
      (omega arith) 0x20000 (at-IsUsable 0x20000 (omega arith) (omega arith))

sectors-IsUntouched_example :
    IsUntouched buffers machine 0 0 0xFFFFFFF 2 0x20000
      (read_sectors buffers machine 0 0 0xFFFFFFF 2 0x20000)
    × IsUntouched buffers machine 0 0 0xFFFFFFF 2 0x20000
        (write_sectors buffers machine 0 0 0xFFFFFFF 2 0x20000)
sectors-IsUntouched_example =
    sectors-IsUntouched buffers machine 0 0 0xFFFFFFF 2 0x20000
      (inr (inr (inr (refl, omega arith))))

find_free_command_slot-FirstFree_example :
    FirstFree 0 0 (find_free_command_slot machine 0x100).0
    × ((find_free_command_slot machine 0x100).1 ≡ machine)
unfolding read_mem32
find_free_command_slot-FirstFree_example = find_free_command_slot-FirstFree machine 0x100

wait_for_clear-Waited_example : Waited machine 0x120 0x88 30 (wait_for_clear machine 0x120 0x88 3)
wait_for_clear-Waited_example = wait_for_clear-Waited machine 0x120 0x88 3

decode-set_up_command_example :
    decode (set_up_command (λ x. 7) 0x10000 1 0x10800 0x35 0x123456789A 100 true 0x20000) 0x10000 0
    ≡ some (record {
      is_write = true;
      lba = 0x123456789A;
      count = 100;
      address = 0x20000;
      bytes = 51200;
    })
decode-set_up_command_example =
    decode-set_up_command (λ x. 7) 0x10000 0 0x10800 0x123456789A 100 0x20000 true true
      (inl (omega arith)) (omega arith) (omega arith) (omega arith) (omega arith) (omega arith)

data_buffer-IsUsable : IsUsable buffers 0x20000 1
data_buffer-IsUsable = record {
  given = omega arith;
  in_space = omega arith;
  apart_list = inl (omega arith);
  apart_table = inl (omega arith);
}

-- The string "Hi" at 5000, which is in the page 1 and would be a byte 1 without it.
abbrev lettered : Machine array_hba
lettered = record machine {
  memory = λ x.
      if x == 5000
      then b'H'
      else if x == 5001
      then b'i'
      else if x == 5002
      then 0
      else machine.memory x;
}

read_string_from_sector-write_string_to_sector_example :
    (m1 m2 : Machine array_hba) × (write_string_to_sector 3 buffers lettered 0 0 7 5000
      ≡ some (0, m1))
    × (read_string_from_sector buffers m1 0 0 7 6000 10 ≡ (0, m2))
    × IsString m2.memory 6000 (b'H' ∷ b'i' ∷ [])
read_string_from_sector-write_string_to_sector_example =
    read_string_from_sector-write_string_to_sector buffers 0 0 array_port buffers-IsPlaced
      data_buffer-IsUsable lettered 7 refl (omega arith) (omega arith) 3 5000 6000 10
      (b'H' ∷ b'i' ∷ []) (omega arith) (omega arith) (omega arith) (omega arith) (omega arith)
      (omega arith) (inl (omega arith)) (inl (omega arith))

-- A drive of 2 ^ 23 sectors whose model is "QEMU" and whose serial number is "7".
abbrev identity : ℕ → ℕ
identity i =
    if i == 27
    then b'Q' * 2 ^ 8 + b'E'
    else if i == 28
    then b'M' * 2 ^ 8 + b'U'
    else if i == 10
    then b'7' * 2 ^ 8 + b' '
    else if i == 101
    then 128
    else if leb i 46
    then b' ' * 2 ^ 8 + b' '
    else 0

names_lem_example : (model_number identity ≡ codes "QEMU") × (serial_number identity ≡ codes "7")
names_lem_example =
    names_lem identity (codes "QEMU") (codes "7") 36 19 (omega arith) (omega arith) (omega arith)
      (omega arith) (omega arith) (omega arith) (omega arith) (omega arith)

identity_small : (i : ℕ) → identity i < 2 ^ 16
identity_small i = ground arith

gib_capacity-max_lba48_example : gib_capacity (max_lba48 identity) ≡ 2 ^ 23 / 2 ^ 21
gib_capacity-max_lba48_example = gib_capacity-max_lba48 identity identity_small (omega arith)
