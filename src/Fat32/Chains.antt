-- ===== src/Fat32/Chains.antt =====
-- The allocation and release of chains of clusters. A loop along a chain takes fuel, and is `none` when
-- that runs out; `get_cluster_chain_length` has its own limit.
use text_os.Common.{
  ℕ, zero, suc, ◌+◌, ◌-◌, ◌*◌, ◌/◌, ◌^◌, Bool, not, ◌&&◌, Option, none, some, [], ◌∷◌, codes, ltb,
  leb, ◌==◌, if◌then◌else◌, u32,
}
use text_os.Drive.{Drive}
use text_os.Fat32.{
  Volume, text, number, say, cluster_to_lba, read_fat_entry, write_fat_entry, find_free_cluster,
  fat_free_cluster, fat_end_of_chain,
}

-- `current_cluster >= 2 && current_cluster < 0x0FFFFFF7`
unfoldable pub in_chain : ℕ → Bool
in_chain c = leb 2 c && ltb c 0x0FFFFFF7

module _ {D : Drive} where
  -- The body of the loop: the entry is cleared, and the hint lowered.
  unfoldable pub free_one : Volume D → ℕ → Volume D
  free_one v c =
      let written = write_fat_entry v c fat_free_cluster in
      let told =
        if written.0
        then written.1
        else say
            (text (codes "Warning: Failed to free cluster ") ∷ number c ∷ text (codes "\n") ∷ [])
            written.1 in
      if ltb c told.next_free_cluster then record told { next_free_cluster = c } else told

  unfoldable pub free_cluster_chain : ℕ → Volume D → ℕ → Option (Volume D)
  free_cluster_chain zero v c = none
  free_cluster_chain (suc fuel) v c =
      let rest = free_cluster_chain fuel (free_one v c) (read_fat_entry v c) in
      if in_chain c then rest else some v

  -- `for (s = …; s < sec_per_clus; s++)`: a sector of zeros is written, a failure only reported.
  unfoldable pub clear_sectors : ℕ → ℕ → ℕ → Volume D → Volume D
  clear_sectors zero s lba v = v
  clear_sectors (suc rounds) s lba v =
      let written = D.write_sectors v.drive (lba + s) 1 (λ i. 0) in
      let next = record v { drive = written.1 } in
      clear_sectors rounds (s + 1) lba
        (if written.0 then next else say (text (codes "Failed to clear cluster data\n") ∷ []) next)

  unfoldable pub allocate_cluster : Volume D → ℕ × Volume D
  allocate_cluster v =
      let cluster = find_free_cluster v v.next_free_cluster in
      let marked = write_fat_entry v cluster fat_end_of_chain in
      if cluster == 0
      then (0, say (text (codes "Disk full: no free clusters available\n") ∷ []) v)
      else if not marked.0
      then (0, say (text (codes "Failed to update FAT entry\n") ∷ []) marked.1)
      else (let cleared =
            clear_sectors v.fat32_bpb.sec_per_clus 0 (cluster_to_lba marked.1 cluster) marked.1 in
          (cluster, record cleared { next_free_cluster = u32 (cluster + 1) }))

  -- What was allocated so far is freed, and the result is 0.
  unfoldable pub give_up : ℕ → ℕ → Volume D → Option (ℕ × Volume D)
  give_up fuel first v = elim (free_cluster_chain fuel v first) [
    | none ↦ none
    | some w ↦ some (0, w)
  ]

  -- The loop that appends `rounds` clusters to the chain that ends with `current`.
  unfoldable pub extend_chain : ℕ → ℕ → ℕ → ℕ → Volume D → Option (ℕ × Volume D)
  extend_chain zero fuel first current v = some (first, v)
  extend_chain (suc rounds) fuel first current v =
      let next = allocate_cluster v in
      let linked = write_fat_entry next.1 current next.0 in
      let rest = extend_chain rounds fuel first next.0 linked.1 in
      if next.0 == 0
      then give_up fuel first next.1
      else if not linked.0
      then give_up fuel first (say (text (codes "Failed to link clusters\n") ∷ []) linked.1)
      else rest

  unfoldable pub allocate_cluster_chain : ℕ → Volume D → ℕ → Option (ℕ × Volume D)
  allocate_cluster_chain fuel v num_clusters =
      let first = allocate_cluster v in
      if num_clusters == 0
      then some (0, v)
      else if first.0 == 0
      then some (0, first.1)
      else extend_chain (num_clusters - 1) fuel first.0 first.0 first.1

  -- The loop ends by itself after 65537 clusters, the last value of `rounds + length`.
  unfoldable pub count_chain : ℕ → ℕ → ℕ → Volume D → ℕ × Volume D
  count_chain zero length current v = (length, v)
  count_chain (suc rounds) length current v =
      let rest = count_chain rounds (length + 1) (read_fat_entry v current) v in
      if not (in_chain current)
      then (length, v)
      else if ltb 65536 (length + 1)
      then (
        length + 1,
        say (text (codes "Warning: Possible corrupt cluster chain detected\n") ∷ []) v,
      )
      else rest

  unfoldable pub get_cluster_chain_length : Volume D → ℕ → ℕ × Volume D
  get_cluster_chain_length v start_cluster = count_chain 65537 0 start_cluster v

  abbrev pub cluster_size : Volume D → ℕ
  cluster_size v = u32 (v.fat32_bpb.sec_per_clus * v.fat32_bpb.bytes_per_sec)

  -- The sum wraps around at 32 bits.
  unfoldable pub clusters_needed : Volume D → ℕ → ℕ
  clusters_needed v size = u32 (size + cluster_size v + (2 ^ 32 - 1)) / cluster_size v
