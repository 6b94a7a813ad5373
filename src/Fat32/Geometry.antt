-- ===== src/Fat32/Geometry.antt =====
-- The layout of a volume: where the tables and the clusters lie, and what no write to a table touches.
use text_os.Common.{ℕ, ◌+◌, ◌-◌, ◌*◌, ◌/◌, ◌%◌, ◌^◌, ◌≤◌, ◌<◌, ◌≡◌, arith, u32}
use text_os.Memory.{Memory, load32}
use text_os.Drive.{Drive, IsReliable}
use text_os.Fat32.{Bpb, Volume, max_clusters, cluster_to_lba}
use native.Mathlib.Nat.{mul-le-mul_right, div-mul-le_self}

-- The copies of the table lie one after the other below the data, an entry for each cluster fits
-- into a copy, the data lie inside the drive, a cluster is moved by one command of the driver, and the numbers of the clusters are below the marks.
pub record IsLaidOut (capacity : ℕ) (b : Bpb) (fat_start data_start : ℕ) : Type 0 where
  pub has_copies : 0 < b.num_fats
  pub has_clusters : 0 < b.sec_per_clus
  pub small_clusters : b.sec_per_clus ≤ 128
  pub sectors_of_512 : b.bytes_per_sec ≡ 512
  pub tables_below : fat_start + b.num_fats * b.fat_sz32 ≤ data_start
  pub data_start_inside : data_start ≤ b.tot_sec32
  pub inside : b.tot_sec32 ≤ capacity
  pub word_sized : b.tot_sec32 < 2 ^ 32
  pub entries_fit : ((b.tot_sec32 - data_start) / b.sec_per_clus + 2) * 4 ≤ b.fat_sz32 * 512
  pub numbered : (b.tot_sec32 - data_start) / b.sec_per_clus + 2 ≤ 0x0FFFFFF7

module _ {D : Drive} where
  -- The address of the first byte of a cluster.
  unfoldable pub cluster_start : Volume D → ℕ → ℕ
  cluster_start v c = (v.data_start_sector + (c - 2) * v.fat32_bpb.sec_per_clus) * 512

module _ {D : Drive} (R : IsReliable D) where
  abbrev pub Laid : Volume D → Type 0
  Laid v = IsLaidOut R.capacity v.fat32_bpb v.fat_start_sector v.data_start_sector

  -- The byte that the volume holds at an address.
  abbrev pub byte_at : Volume D → Memory
  byte_at v = R.held v.drive

  -- The entry of a cluster in the first copy of the table.
  unfoldable pub entry : Volume D → ℕ → ℕ
  entry v c = load32 (byte_at v) (v.fat_start_sector * 512 + c * 4) % 2 ^ 28

  pub max_clusters_lem :
      (v : Volume D)
      → Laid v
      → max_clusters v
        ≡ (v.fat32_bpb.tot_sec32 - v.data_start_sector) / v.fat32_bpb.sec_per_clus + 2
  max_clusters_lem v l =
      let tot = v.fat32_bpb.tot_sec32 in
      let ds = v.data_start_sector in
      let difference : u32 (tot + (2 ^ 32 - ds)) ≡ tot - ds =
        omega (arith, l.data_start_inside, l.word_sized) in
      let small : (tot - ds) / v.fat32_bpb.sec_per_clus + 2 < 2 ^ 32 = omega (arith, l.numbered) in
      rw (difference) (omega (arith, small))

  -- A cluster lies between the start of the data and the end of the drive.
  pub cluster-inside :
      (v : Volume D) (c : ℕ)
      → Laid v
      → 2 ≤ c
      → c < max_clusters v
      → v.data_start_sector + ((c - 2) * v.fat32_bpb.sec_per_clus + v.fat32_bpb.sec_per_clus)
        ≤ v.fat32_bpb.tot_sec32
  cluster-inside v c l lo hi =
      let bound =
        mul-le-mul_right {m = c - 2 + 1}
          {n = (v.fat32_bpb.tot_sec32 - v.data_start_sector) / v.fat32_bpb.sec_per_clus}
          v.fat32_bpb.sec_per_clus (omega (arith, max_clusters_lem v l)) in
      omega (
        arith,
        bound,
        div-mul-le_self (v.fat32_bpb.tot_sec32 - v.data_start_sector) v.fat32_bpb.sec_per_clus,
        l.data_start_inside,
      )

  -- Two clusters have no byte in common.
  pub clusters-apart :
      (v : Volume D) (c d : ℕ)
      → c < d
      → 2 ≤ c
      → cluster_start v c + v.fat32_bpb.sec_per_clus * 512 ≤ cluster_start v d
  unfolding cluster_start
  clusters-apart v c d lt lo =
      let bound =
        mul-le-mul_right {m = c - 2 + 1} {n = d - 2} v.fat32_bpb.sec_per_clus (omega arith) in
      omega (arith, bound)

  pub cluster_to_lba_lem :
      (v : Volume D) (c : ℕ)
      → Laid v
      → 2 ≤ c
      → c < max_clusters v
      → cluster_to_lba v c * 512 ≡ cluster_start v c
  unfolding cluster_to_lba cluster_start
  cluster_to_lba_lem v c l lo hi = ground (arith, cluster-inside v c l lo hi, l.word_sized)

  pub first_table-below :
      (v : Volume D) → Laid v → v.fat_start_sector + v.fat32_bpb.fat_sz32 ≤ v.data_start_sector
  first_table-below v l = omega (
    arith,
    l.tables_below,
    mul-le-mul_right {m = 1} {n = v.fat32_bpb.num_fats} v.fat32_bpb.fat_sz32
        (omega (arith, l.has_copies)),
  )
