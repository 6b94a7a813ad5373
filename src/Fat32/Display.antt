-- ===== src/Fat32/Display.antt =====
-- kernel.cpp, `fat32_read_file`: the search of the directory and what is printed.
use text_os.Common.{ℕ, ◌+◌, ◌*◌, ◌<◌, ◌≢◌, List}
use text_os.Memory.{Memory, load32}
use text_os.Drive.{Drive, IsReliable}
use text_os.Fat32.{Volume, cluster_to_lba}
use text_os.Fat32.Geometry.{Laid, byte_at}
use text_os.Fat32.Directory.{to_83_format}
use text_os.Fat32.Removal.{first_cluster_of}
use text_os.Fat32.Filing.{HasDirectory}
use text_os.Fat32.Listed.{HasName}

-- An entry of a sector has the name, and is not that of a directory or a long name.
abbrev pub IsFileEntry : Memory → Memory → ℕ → Type 0
IsFileEntry = HasName 0x1F

module _ {D : Drive} (R : IsReliable D) (fuel : ℕ) (fresh : Memory) (v : Volume D) (name : List ℕ)
    (l : Laid R v) (dir : HasDirectory R v) where
  abbrev first_sector : ℕ
  first_sector = cluster_to_lba v v.current_directory_cluster

  -- A sector of the directory.
  abbrev pub sector : ℕ → Memory
  sector s i = byte_at R v ((first_sector + s) * 512 + i)

  abbrev pub target : Memory
  target = to_83_format name (λ i. 0)

  -- The entry `e` of the sector `s` is the first file of the name.
  pub record IsFirstFile (s e : ℕ) : Type 0 where
    pub sector_inside : s < v.fat32_bpb.sec_per_clus
    pub index_inside : e < 16
    pub not_before : (i j : ℕ) → i < s → j < 16 → ¬ IsFileEntry (sector i) target j
    pub not_left : (j : ℕ) → j < e → (sector s (j * 32) ≢ 0) × (¬ IsFileEntry (sector s) target j)
    pub used : sector s (e * 32) ≢ 0
    pub here : IsFileEntry (sector s) target e

  module _ (s e : ℕ) (xs : List ℕ) (bytes : Memory) where
    abbrev size : ℕ
    size = load32 (sector s) (e * 32 + 28)

    abbrev first_cluster : ℕ
    first_cluster = first_cluster_of (sector s) (e * 32)
