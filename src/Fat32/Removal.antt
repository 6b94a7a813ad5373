-- ===== src/Fat32/Removal.antt =====
-- The removal of a file from the directory.
use text_os.Common.{
  ℕ, zero, suc, ◌+◌, ◌*◌, ◌^◌, not, Option, none, some, List, leb, ◌==◌, if◌then◌else◌, bit_and,
  bit_or, negate,
}
use text_os.Memory.{Memory, store}
use text_os.Drive.{Drive}
use text_os.Fat32.{Volume, cluster_to_lba}
use text_os.Fat32.Chains.{free_cluster_chain}
use text_os.Fat32.Directory.{entry_size, is_deleted, same_name, to_83_format}

-- What the entries of a sector say about a name: the directory ends, the name is there, or neither.
pub data Scan : Type 0 where
  ended : Scan
  found : ℕ → Scan
  next_sector : Scan

unfoldable pub scan_entries : ℕ → ℕ → Memory → Memory → Scan
scan_entries zero e buffer target = next_sector
scan_entries (suc rounds) e buffer target =
    let entry = e * entry_size in
    let rest = scan_entries rounds (e + 1) buffer target in
    if buffer entry == 0
    then ended
    else if is_deleted (buffer entry)
    then rest
    else if not (bit_and (buffer (entry + 11)) 0x0F == 0)
    then rest
    else if same_name 11 0 buffer entry target
    then found e
    else rest

abbrev pub load16 : Memory → ℕ → ℕ
load16 m a = m a + m (a + 1) * 2 ^ 8

-- `(entry->fst_clus_hi << 16) | entry->fst_clus_lo`
unfoldable pub first_cluster_of : Memory → ℕ → ℕ
first_cluster_of buffer entry =
    bit_or (load16 buffer (entry + 20) * 2 ^ 16) (load16 buffer (entry + 26))

module _ {D : Drive} where
  -- The entry `e` of the sector is marked as deleted, and its clusters are freed.
  unfoldable pub remove_entry : ℕ → ℕ → Memory → ℕ → Volume D → Option (ℕ × Volume D)
  remove_entry fuel sector buffer e v =
      let first_cluster = first_cluster_of buffer (e * entry_size) in
      let written = D.write_sectors v.drive sector 1 (store buffer (e * entry_size) 0xE5) in
      let next = record v { drive = written.1 } in
      if not written.0
      then some (negate 2, next)
      else if leb 2 first_cluster
      then (elim (free_cluster_chain fuel next first_cluster) [
        | none ↦ none
        | some w ↦ some (0, w)
      ])
      else some (0, next)

  unfoldable pub remove_sectors : ℕ → ℕ → ℕ → ℕ → Memory → Volume D → Option (ℕ × Volume D)
  remove_sectors zero s fuel lba target v = some (negate 4, v)
  remove_sectors (suc rounds) s fuel lba target v =
      let rest = remove_sectors rounds (s + 1) fuel lba target v in
      elim (D.read_sectors v.drive (lba + s) 1) [
        | none ↦ some (negate 1, v)
        | some buffer ↦ elim (scan_entries 16 0 buffer target) [
          | ended ↦ some (negate 4, v)
          | next_sector ↦ rest
          | found e ↦ remove_entry fuel (lba + s) buffer e v
        ]
      ]

  unfoldable pub fat32_remove_file : ℕ → Volume D → List ℕ → Option (ℕ × Volume D)
  fat32_remove_file fuel v filename =
      remove_sectors v.fat32_bpb.sec_per_clus 0 fuel (cluster_to_lba v v.current_directory_cluster)
        (to_83_format filename (λ i. 0)) v
