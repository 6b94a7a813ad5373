-- ===== src/Fat32/Removed.antt =====
-- What a removal from the directory finds and leaves.
use text_os.Common.{ℕ, ◌+◌, ◌*◌, ◌<◌, ◌≡◌, ◌≤◌, ◌==◌, if◌then◌else◌, List, length, All, negate}
use text_os.Drive.{Drive, IsReliable}
use text_os.Fat32.{Volume, max_clusters, cluster_to_lba}
use text_os.Fat32.Geometry.{entry, byte_at}
use text_os.Fat32.Directory.{to_83_format}
use text_os.Fat32.Removal.{first_cluster_of}
use text_os.Fat32.Listed.{sector, IsFirst, IsMissing}
use text_os.Fat32.Links.{IsSameLayout, Absent, IsChain}

module _ {D : Drive} (R : IsReliable D) where
  -- Each entry of the directory starts a chain of fewer than `fuel` clusters, if only an empty one.
  unfoldable pub HasChains : ℕ → Volume D → Type 0
  HasChains fuel v =
      (s e : ℕ)
      → s < v.fat32_bpb.sec_per_clus
      → e < 16
      → (xs : List ℕ) × IsChain R v
          (first_cluster_of
            (λ i. byte_at R v ((cluster_to_lba v v.current_directory_cluster + s) * 512 + i))
            (e * 32))
          xs
        × (length xs < fuel)

  -- The first entry of the name is marked as deleted, the other bytes of the data are as before, and
  -- exactly the entry's clusters were freed.
  pub record IsRemoved (v w : Volume D) (name : List ℕ) (xs : List ℕ) : Type 0 where
    pub sector_number : ℕ
    pub index : ℕ
    pub first : IsFirst R v (to_83_format name (λ i. 0)) sector_number index
    pub has_chain : IsChain R v (first_cluster_of (sector R v sector_number) (index * 32)) xs
    pub marked :
        (a : ℕ)
        → v.data_start_sector * 512 ≤ a
        → byte_at R w a ≡ (
            if a
              == (cluster_to_lba v v.current_directory_cluster + sector_number) * 512 + index * 32
            then 0xE5
            else byte_at R v a)
    pub layout : IsSameLayout v w
    pub freed : All (λ x. entry R w x ≡ 0) xs
    pub kept : (d : ℕ) → d < max_clusters v → Absent d xs → entry R w d ≡ entry R v d

  pub data Removed (v : Volume D) (name : List ℕ) : ℕ → Volume D → Type 0 where
    not_there : IsMissing R v (to_83_format name (λ i. 0)) → Removed v name (negate 4) v
    removed : {w : Volume D} (xs : List ℕ) → IsRemoved v w name xs → Removed v name 0 w
