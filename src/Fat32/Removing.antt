-- ===== src/Fat32/Removing.antt =====
-- `fat32_remove_file` frees the clusters of the file it finds, and those only.
use text_os.Common.{ℕ, ◌+◌, ◌*◌, List}
use text_os.Memory.{Memory, store}
use text_os.Drive.{Drive, IsReliable}
use text_os.Fat32.{Volume, cluster_to_lba}
use text_os.Fat32.Geometry.{Laid, byte_at}
use text_os.Fat32.Directory.{to_83_format}
use text_os.Fat32.Removal.{first_cluster_of}
use text_os.Fat32.Filing.{HasDirectory}
use text_os.Fat32.Removed.{HasChains, Removed}

module _ {D : Drive} (R : IsReliable D) where
  module _ (fuel : ℕ) (v : Volume D) (name : List ℕ) (l : Laid R v) (dir : HasDirectory R v)
      (chains : HasChains R fuel v) where
    abbrev first_sector : ℕ
    first_sector = cluster_to_lba v v.current_directory_cluster

    abbrev target : Memory
    target = to_83_format name (λ i. 0)

    abbrev sector : ℕ → Memory
    sector s i = byte_at R v ((first_sector + s) * 512 + i)

    abbrev marked_volume : ℕ → ℕ → Volume D
    marked_volume s e = record v {
      drive = (D.write_sectors v.drive (first_sector + s) 1 (store (sector s) (e * 32) 0xE5)).1;
    }

    abbrev first_of : ℕ → ℕ → ℕ
    first_of s e = first_cluster_of (sector s) (e * 32)
