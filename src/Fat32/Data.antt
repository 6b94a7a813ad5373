-- ===== src/Fat32/Data.antt =====
-- The contents of files: `write_data_to_clusters` and `read_data_from_clusters`, which follow a chain of
-- clusters. The loops take fuel and are `none` when that runs out. A buffer is a function from an offset
-- to a byte.
use text_os.Common.{
  ℕ, zero, suc, ◌+◌, ◌-◌, ◌*◌, ◌/◌, ◌%◌, Bool, true, false, not, ◌&&◌, Option, none, some, ltb,
  ◌==◌, if◌then◌else◌,
}
use text_os.Memory.{Memory}
use text_os.Drive.{Drive, written}
use text_os.Fat32.{Volume, cluster_to_lba, read_fat_entry, sector_size}
use text_os.Fat32.Chains.{in_chain, cluster_size}

-- `(remaining > cluster_size) ? cluster_size : remaining`
abbrev pub portion : ℕ → ℕ → ℕ
portion size remaining = if ltb size remaining then size else remaining

module _ {D : Drive} where
  -- The full sectors of a portion of `n` bytes, then the rest in a sector that is filled up with zeros.
  unfoldable pub write_cluster : Volume D → ℕ → Memory → ℕ → ℕ → Bool × Volume D
  write_cluster v current data_ptr offset n =
      let lba = cluster_to_lba v current in
      let full_sectors = n / sector_size in
      let partial_bytes = n % sector_size in
      let full =
        if ltb 0 full_sectors
        then D.write_sectors v.drive lba full_sectors (λ i. data_ptr (offset + i))
        else (true, v.drive) in
      let partial =
        if ltb 0 partial_bytes
        then D.write_sectors full.1 (lba + full_sectors) 1 (λ i.
          if ltb i partial_bytes then data_ptr (offset + full_sectors * sector_size + i) else 0)
        else (true, full.1) in
      if not full.0
      then (false, record v { drive = full.1 })
      else (partial.0, record v { drive = partial.1 })

  unfoldable pub write_data_to_clusters :
      ℕ → Volume D → ℕ → Memory → ℕ → ℕ → Option (Bool × Volume D)
  write_data_to_clusters zero v current data_ptr offset remaining = none
  write_data_to_clusters (suc fuel) v current data_ptr offset remaining =
      let n = portion (cluster_size v) remaining in
      let step = write_cluster v current data_ptr offset n in
      let rest =
        write_data_to_clusters fuel step.1 (read_fat_entry step.1 current) data_ptr
          (offset + n / sector_size * sector_size) (remaining - n) in
      if not (in_chain current && ltb 0 remaining)
      then some (remaining == 0, v)
      else if not step.0
      then some (false, step.1)
      else rest

  -- The full sectors are read to the buffer, the rest by way of a buffer for a sector.
  unfoldable pub read_cluster : Volume D → ℕ → Memory → ℕ → ℕ → Bool × Memory
  read_cluster v current data_ptr offset n =
      let lba = cluster_to_lba v current in
      let full_sectors = n / sector_size in
      let partial_bytes = n % sector_size in
      let full =
        if ltb 0 full_sectors
        then (elim (D.read_sectors v.drive lba full_sectors) [
          | none ↦ (false, data_ptr)
          | some bytes ↦ (true, written data_ptr offset (full_sectors * sector_size) bytes)
        ])
        else (true, data_ptr) in
      let partial =
        if ltb 0 partial_bytes
        then (elim (D.read_sectors v.drive (lba + full_sectors) 1) [
          | none ↦ (false, full.1)
          | some bytes ↦
              (true, written full.1 (offset + full_sectors * sector_size) partial_bytes bytes)
        ])
        else (true, full.1) in
      if not full.0 then full else partial

  unfoldable pub read_data_from_clusters :
      ℕ → Volume D → ℕ → Memory → ℕ → ℕ → Option (Bool × Memory)
  read_data_from_clusters zero v current data_ptr offset remaining = none
  read_data_from_clusters (suc fuel) v current data_ptr offset remaining =
      let n = portion (cluster_size v) remaining in
      let step = read_cluster v current data_ptr offset n in
      let rest =
        read_data_from_clusters fuel v (read_fat_entry v current) step.1
          (offset + n / sector_size * sector_size) (remaining - n) in
      if not (in_chain current && ltb 0 remaining)
      then some (remaining == 0, data_ptr)
      else if not step.0
      then some (false, step.1)
      else rest
