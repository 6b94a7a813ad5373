-- ===== src/Fat32.antt =====
-- The FAT32 file system of kernel.cpp over a drive: the file allocation table, and the allocation and
-- release of clusters. The static variables are a record; messages are appended to a log. A loop along
-- a chain of clusters takes fuel and is `none` when that runs out.
pub mod Geometry
pub mod Copies
pub mod Entries
pub mod Search
pub mod Chains
pub mod Links
pub mod Release
pub mod Taking
pub mod Growth
pub mod Allocation
pub mod Data
pub mod Writing
pub mod Contents
pub mod Reading
pub mod Length
pub mod RoundTrip
pub mod Directory
pub mod Placing
pub mod Stats
pub mod Showing
pub mod Names
pub mod Dump
pub mod Display
pub mod Counting
pub mod Removal
pub mod Listed
pub mod Made
pub mod Removed
pub mod Removing
pub mod Filing
pub mod Adding
mod Examples
use text_os.Common.{
  ℕ, zero, suc, ◌+◌, ◌-◌, ◌*◌, ◌/◌, ◌%◌, ◌^◌, Bool, true, false, not, ◌&&◌, Option, none, some,
  List, [], ◌∷◌, ◌++◌, ltb, leb, ◌==◌, if◌then◌else◌, u8, u16, u32, bit_and, bit_or,
}
use text_os.Memory.{Memory, load32, store32}
use text_os.Drive.{Drive}
pub use text_os.Printed.{Shown, text, number}

abbrev pub sector_size : ℕ
sector_size = 512

abbrev pub fat_free_cluster : ℕ
fat_free_cluster = 0

abbrev pub fat_end_of_chain : ℕ
fat_end_of_chain = 0x0FFFFFFF

abbrev pub fat_bad_cluster : ℕ
fat_bad_cluster = 0x0FFFFFF7

-- The fields of `fat32_bpb_t` that the file system reads.
pub record Bpb : Type 0 where
  pub bytes_per_sec : ℕ
  pub sec_per_clus : ℕ
  pub rsvd_sec_cnt : ℕ
  pub num_fats : ℕ
  pub tot_sec32 : ℕ
  pub fat_sz32 : ℕ
  pub root_clus : ℕ

-- The drive and the static variables of the file system, with what was printed.
pub record Volume (D : Drive) : Type 0 where
  pub drive : D.State
  pub fat32_bpb : Bpb
  pub fat_start_sector : ℕ
  pub data_start_sector : ℕ
  pub current_directory_cluster : ℕ
  pub next_free_cluster : ℕ
  pub printed : List Shown

-- The entry keeps its upper four bits.
unfoldable pub merged_entry : ℕ → ℕ → ℕ
merged_entry old value = bit_or (bit_and old 0xF0000000) (bit_and value 0x0FFFFFFF)

module _ {D : Drive} where
  abbrev pub say : List Shown → Volume D → Volume D
  say shown v = record v { printed = v.printed ++ shown }

  -- A product of `uint32_t` that is widened to 64 bits only afterwards.
  unfoldable pub cluster_to_lba : Volume D → ℕ → ℕ
  cluster_to_lba v cluster =
      if ltb cluster 2
      then 0
      else u32 (v.data_start_sector + u32 ((cluster - 2) * v.fat32_bpb.sec_per_clus))

  unfoldable pub read_fat_entry : Volume D → ℕ → ℕ
  read_fat_entry v cluster =
      let fat_offset = u32 (cluster * 4) in
      if ltb cluster 2
      then fat_bad_cluster
      else elim (D.read_sectors v.drive (u32 (v.fat_start_sector + fat_offset / sector_size)) 1) [
        | none ↦ fat_bad_cluster
        | some buffer ↦ bit_and (load32 buffer (fat_offset % sector_size)) 0x0FFFFFFF
      ]

  -- The loop over the copies of the table from `fat_num` on, which ends at the first failure.
  unfoldable pub write_copies : ℕ → ℕ → ℕ → Memory → Volume D → Bool × Volume D
  write_copies zero fat_num sector buffer v = (true, v)
  write_copies (suc rounds) fat_num sector buffer v =
      let written =
        D.write_sectors v.drive (u32 (v.fat_start_sector + fat_num * v.fat32_bpb.fat_sz32 + sector))
          1 buffer in
      let rest = write_copies rounds (fat_num + 1) sector buffer (record v { drive = written.1 }) in
      if not written.0 then (false, record v { drive = written.1 }) else rest

  unfoldable pub write_fat_entry : Volume D → ℕ → ℕ → Bool × Volume D
  write_fat_entry v cluster value =
      let fat_offset = u32 (cluster * 4) in
      let entry_offset = fat_offset % sector_size in
      if ltb cluster 2
      then (false, v)
      else elim (D.read_sectors v.drive (u32 (v.fat_start_sector + fat_offset / sector_size)) 1) [
        | none ↦ (false, v)
        | some buffer ↦
            write_copies v.fat32_bpb.num_fats 0 (fat_offset / sector_size)
              (store32 buffer entry_offset (merged_entry (load32 buffer entry_offset) value)) v
      ]

  -- `for (cluster = …; …; cluster++)` over `rounds` clusters; 0 if none of them is free.
  unfoldable pub scan_free : ℕ → ℕ → Volume D → ℕ
  scan_free zero cluster v = 0
  scan_free (suc rounds) cluster v =
      let rest = scan_free rounds (cluster + 1) v in
      if read_fat_entry v cluster == fat_free_cluster then cluster else rest

  abbrev pub max_clusters : Volume D → ℕ
  max_clusters v =
      u32 (
        u32 (v.fat32_bpb.tot_sec32 + (2 ^ 32 - v.data_start_sector)) / v.fat32_bpb.sec_per_clus + 2)

  unfoldable pub find_free_cluster : Volume D → ℕ → ℕ
  find_free_cluster v start_cluster =
      let first = scan_free (max_clusters v - start_cluster) start_cluster v in
      if not (first == 0)
      then first
      else if ltb 2 start_cluster
      then scan_free (start_cluster - 2) 2 v
      else 0
