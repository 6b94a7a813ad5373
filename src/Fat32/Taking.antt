-- ===== src/Fat32/Taking.antt =====
-- `allocate_cluster` takes a free cluster, clears it and moves the hint past it.
use mathlib.Core.Path.{subst}
use text_os.Common.{
  ℕ, zero, suc, ◌+◌, ◌*◌, ◌%◌, ◌≤◌, ◌<◌, ◌≡◌, ◌≢◌, ◌⊎◌, inl, inr, refl, sym, ◌∙◌, ap, not, ◌&&◌,
  List, [], ◌∷◌, arith, codes, u32, ltb, leb, ◌==◌, if◌then◌else◌, ◌^◌, ne→==,
}
use text_os.Memory.Words.{load32-agree}
use text_os.Drive.{Drive, IsReliable}
use text_os.Fat32.{
  Volume, Shown, text, say, max_clusters, write_fat_entry, find_free_cluster, cluster_to_lba,
  fat_end_of_chain,
}
use text_os.Fat32.Geometry.{
  Laid, entry, byte_at, max_clusters_lem, cluster_start, cluster-inside, cluster_to_lba_lem,
  first_table-below,
}
use text_os.Fat32.Entries.{IsEntryWritten, write_fat_entry-IsEntryWritten}
use text_os.Fat32.Search.{AllUsed, Found, from_hint, wrapped, disk_full, find_free_cluster-Found}
use text_os.Fat32.Chains.{clear_sectors, allocate_cluster}
use text_os.Fat32.Links.{IsSameLayout, IsSameLayout-trans, same_max, same-Laid}
use text_os.Fat32.Release.{only_drive-IsSameLayout}

abbrev pub full_text : List Shown
full_text = text (codes "Disk full: no free clusters available\n") ∷ []

module _ {D : Drive} (R : IsReliable D) where
  -- The cluster `c` was free in `v` and is a chain of its own in `w`, full of zeros. No other entry and
  -- no byte of another cluster changed.
  pub record IsTaken (v w : Volume D) (c : ℕ) : Type 0 where
    pub layout : IsSameLayout v w
    pub quiet : w.printed ≡ v.printed
    pub in_range : (2 ≤ c) × (c < max_clusters v)
    pub was_free : entry R v c ≡ 0
    pub marked : entry R w c ≡ fat_end_of_chain
    pub kept : (d : ℕ) → d < max_clusters v → d ≢ c → entry R w d ≡ entry R v d
    pub hint_next : w.next_free_cluster ≡ c + 1
    pub cleared :
        (i : ℕ) → i < v.fat32_bpb.sec_per_clus * 512 → byte_at R w (cluster_start v c + i) ≡ 0
    pub data_kept :
        (a : ℕ)
        → v.data_start_sector * 512 ≤ a
        → (a < cluster_start v c) ⊎ (cluster_start v c + v.fat32_bpb.sec_per_clus * 512 ≤ a)
        → byte_at R w a ≡ byte_at R v a

  pub data Allocated (v : Volume D) : ℕ → Volume D → Type 0 where
    taken : {c : ℕ} {w : Volume D} → IsTaken v w c → Allocated v c w
    no_room : AllUsed R v 2 (max_clusters v) → Allocated v 0 (say full_text v)

  abbrev one_cleared : Volume D → ℕ → Volume D
  one_cleared v sector = record v { drive = (D.write_sectors v.drive sector 1 (λ i. 0)).1 }

  clear_sectors_step :
      (rounds s lba : ℕ) (v : Volume D)
      → lba + s < R.capacity
      → clear_sectors (suc rounds) s lba v
        ≡ clear_sectors rounds (s + 1) lba (one_cleared v (lba + s))
  unfolding clear_sectors
  clear_sectors_step rounds s lba v h =
      rw (R.write-succeeds v.drive (lba + s) 1 (λ i. 0) (omega arith) (omega arith)) refl

  clear_sectors_at :
      (rounds s lba : ℕ) (v : Volume D) (a : ℕ)
      → lba + s + rounds ≤ R.capacity
      → byte_at R (clear_sectors rounds s lba v) a
        ≡ (if leb ((lba + s) * 512) a && ltb a ((lba + s + rounds) * 512) then 0 else byte_at R v a)
  unfolding clear_sectors
  clear_sectors_at zero s lba v a h = ground arith
  clear_sectors_at (suc rounds) s lba v a h =
      let here = R.held-write v.drive (lba + s) 1 (λ i. 0) a (omega arith) (omega arith) in
      ap (λ (u : Volume D). byte_at R u a) (clear_sectors_step rounds s lba v (omega arith))
      ∙ clear_sectors_at rounds (s + 1) lba (one_cleared v (lba + s)) a (omega arith)
      ∙ ground arith

  clear_sectors-only_drive :
      (rounds s lba : ℕ) (v : Volume D)
      → lba + s + rounds ≤ R.capacity
      → clear_sectors rounds s lba v ≡ record v { drive = (clear_sectors rounds s lba v).drive }
  unfolding clear_sectors
  clear_sectors-only_drive zero s lba v h = refl
  clear_sectors-only_drive (suc rounds) s lba v h =
      subst (λ (u : Volume D). u ≡ record v { drive = u.drive })
        (sym (clear_sectors_step rounds s lba v (omega arith)))
        (clear_sectors-only_drive rounds (s + 1) lba (one_cleared v (lba + s)) (omega arith))

  -- The tables of two volumes that agree below the data have the same entries.
  pub entry-agree :
      (v w : Volume D) (d : ℕ)
      → Laid R v
      → w.fat_start_sector ≡ v.fat_start_sector
      → ((a : ℕ) → a < v.data_start_sector * 512 → byte_at R w a ≡ byte_at R v a)
      → d < max_clusters v
      → entry R w d ≡ entry R v d
  unfolding entry
  entry-agree v w d l same agree less = simp (same) (
      ap (λ n. n % 2 ^ 28)
        (load32-agree (byte_at R w) (byte_at R v) (v.fat_start_sector * 512 + d * 4)
          (v.fat_start_sector * 512 + d * 4)
          (λ i lt.
            agree (v.fat_start_sector * 512 + d * 4 + i)
              (omega (arith, first_table-below R v l, l.entries_fit, max_clusters_lem R v l)))))

  module _ (v : Volume D) (c : ℕ) (l : Laid R v) (lo : 2 ≤ c) (hi : c < max_clusters v)
      (free : entry R v c ≡ 0) where
    abbrev marked_volume : Volume D
    marked_volume = (write_fat_entry v c fat_end_of_chain).1

    abbrev cleared_volume : Volume D
    cleared_volume =
        clear_sectors v.fat32_bpb.sec_per_clus 0 (cluster_to_lba marked_volume c) marked_volume

    mark : IsEntryWritten R v marked_volume c fat_end_of_chain
    mark = (write_fat_entry-IsEntryWritten R v c fat_end_of_chain l lo hi).1

    mark_layout : IsSameLayout v marked_volume
    mark_layout = only_drive-IsSameLayout R v marked_volume mark.only_drive

    start : cluster_to_lba marked_volume c * 512 ≡ cluster_start v c
    unfolding cluster_start
    start =
        cluster_to_lba_lem R marked_volume c (same-Laid R v marked_volume mark_layout l) lo
          (omega (arith, same_max v marked_volume mark_layout))
        ∙ simp (mark_layout.same_bpb, mark_layout.same_data) refl

    room : cluster_to_lba marked_volume c + 0 + v.fat32_bpb.sec_per_clus ≤ R.capacity
    unfolding cluster_start
    room = omega (arith, start, cluster-inside R v c l lo hi, l.inside)

    clear_layout : IsSameLayout marked_volume cleared_volume
    clear_layout = only_drive-IsSameLayout R marked_volume cleared_volume (
        clear_sectors-only_drive v.fat32_bpb.sec_per_clus 0 (cluster_to_lba marked_volume c)
          marked_volume room)

    below_kept :
        (a : ℕ) → a < cluster_start v c → byte_at R cleared_volume a ≡ byte_at R marked_volume a
    below_kept a less = ground (
      arith,
      clear_sectors_at v.fat32_bpb.sec_per_clus 0 (cluster_to_lba marked_volume c) marked_volume a
          room,
      start,
    )

    above_kept :
        (a : ℕ)
        → cluster_start v c + v.fat32_bpb.sec_per_clus * 512 ≤ a
        → byte_at R cleared_volume a ≡ byte_at R marked_volume a
    above_kept a more = ground (
      arith,
      clear_sectors_at v.fat32_bpb.sec_per_clus 0 (cluster_to_lba marked_volume c) marked_volume a
          room,
      start,
    )

    all_cleared :
        (i : ℕ)
        → i < v.fat32_bpb.sec_per_clus * 512
        → byte_at R cleared_volume (cluster_start v c + i) ≡ 0
    all_cleared i lt = ground (
      arith,
      clear_sectors_at v.fat32_bpb.sec_per_clus 0 (cluster_to_lba marked_volume c) marked_volume
          (cluster_start v c + i) room,
      start,
    )

    entries_stay : (d : ℕ) → d < max_clusters v → entry R cleared_volume d ≡ entry R marked_volume d
    unfolding cluster_start
    entries_stay d less =
        entry-agree marked_volume cleared_volume d (same-Laid R v marked_volume mark_layout l)
          clear_layout.same_fat (λ a below. below_kept a (omega (arith, mark_layout.same_data)))
          (omega (arith, same_max v marked_volume mark_layout))

    unmoved :
        (a : ℕ)
        → (a < cluster_start v c) ⊎ (cluster_start v c + v.fat32_bpb.sec_per_clus * 512 ≤ a)
        → byte_at R cleared_volume a ≡ byte_at R marked_volume a
    unmoved a (inl less) = below_kept a less
    unmoved a (inr more) = above_kept a more

    marked-IsTaken : IsTaken v (record cleared_volume { next_free_cluster = u32 (c + 1) }) c
    unfolding entry
    marked-IsTaken =
        let whole = IsSameLayout-trans v marked_volume cleared_volume mark_layout clear_layout in
        record {
          layout = record {
            same_bpb = whole.same_bpb;
            same_fat = whole.same_fat;
            same_data = whole.same_data;
            same_directory = whole.same_directory;
          };
          quiet =
              ap (λ (u : Volume D). u.printed)
                (clear_sectors-only_drive v.fat32_bpb.sec_per_clus 0
                  (cluster_to_lba marked_volume c) marked_volume room)
              ∙ ap (λ (u : Volume D). u.printed) mark.only_drive;
          in_range = (lo, hi);
          was_free = free;
          marked = entries_stay c hi ∙ mark.entry_written;
          kept = λ d less other. entries_stay d less ∙ mark.entries_kept d less other;
          hint_next = omega (arith, max_clusters_lem R v l, l.numbered);
          cleared = all_cleared;
          data_kept = λ a high outside. unmoved a outside ∙ mark.data_kept a high;
        }

  -- On a laid-out volume with a hint in range, `allocate_cluster` takes the cluster that was free, or there
  -- is none: then it returns 0 and only prints that the disk is full.
  pub allocate_cluster-Allocated :
      (v : Volume D)
      → Laid R v
      → 2 ≤ v.next_free_cluster
      → v.next_free_cluster ≤ max_clusters v
      → Allocated v (allocate_cluster v).0 (allocate_cluster v).1
  unfolding allocate_cluster
  allocate_cluster-Allocated v l lo hi =
      settle (find_free_cluster v v.next_free_cluster)
        (find_free_cluster-Found R v v.next_free_cluster l lo hi)
    where
      outcome : ℕ → ℕ × Volume D
      outcome c =
          let marked = write_fat_entry v c fat_end_of_chain in
          if c == 0
          then (0, say full_text v)
          else if not marked.0
          then (0, say (text (codes "Failed to update FAT entry\n") ∷ []) marked.1)
          else (
            c,
            record (clear_sectors v.fat32_bpb.sec_per_clus 0 (cluster_to_lba marked.1 c) marked.1) {
              next_free_cluster = u32 (c + 1);
            },
          )

      usual :
          (c : ℕ)
          → 2 ≤ c
          → c < max_clusters v
          → entry R v c ≡ 0
          → Allocated v (outcome c).0 (outcome c).1
      usual c lo hi free =
          let mark = write_fat_entry-IsEntryWritten R v c fat_end_of_chain l lo hi in
          rw (ne→== c 0 (omega arith), mark.0) (taken (marked-IsTaken v c l lo hi free))

      settle : (c : ℕ) → Found R v v.next_free_cluster c → Allocated v (outcome c).0 (outcome c).1
      settle c (from_hint more less free none) = usual c (omega arith) less free
      settle c (wrapped more less free none none') = usual c more (omega arith) free
      settle c (disk_full none) = no_room none
