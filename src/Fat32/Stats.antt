-- ===== src/Fat32/Stats.antt =====
-- `show_cluster_stats`: the clusters are counted by their entries in the table.
use text_os.Common.{
  ℕ, zero, suc, ◌+◌, ◌-◌, ◌*◌, ◌/◌, ◌%◌, List, [], ◌∷◌, codes, ◌==◌, if◌then◌else◌, u32,
}
use text_os.Drive.{Drive}
use text_os.Fat32.{
  Volume, Shown, text, number, say, max_clusters, read_fat_entry, fat_free_cluster, fat_bad_cluster,
}
use text_os.Fat32.Chains.{cluster_size}

pub record ClusterCounts : Type 0 where
  pub free_clusters : ℕ
  pub used_clusters : ℕ
  pub bad_clusters : ℕ

-- One of the three counters is raised.
abbrev pub count_entry : ℕ → ClusterCounts → ClusterCounts
count_entry fat_entry n =
    if fat_entry == fat_free_cluster
    then record n { free_clusters = n.free_clusters + 1 }
    else if fat_entry == fat_bad_cluster
    then record n { bad_clusters = n.bad_clusters + 1 }
    else record n { used_clusters = n.used_clusters + 1 }

module _ {D : Drive} where
  unfoldable pub count_clusters : ℕ → ℕ → ClusterCounts → Volume D → ClusterCounts × Volume D
  count_clusters zero cluster n v = (n, v)
  count_clusters (suc rounds) cluster n v =
      count_clusters rounds (cluster + 1) (count_entry (read_fat_entry v cluster) n)
        (if cluster % 1000 == 0 then say (text (codes ".") ∷ []) v else v)

  -- The lines that are printed behind the counts.
  abbrev statistics : Volume D → ClusterCounts → List Shown
  statistics v n =
      text (codes "\n\nCluster Statistics:\n")
      ∷ text (codes "==================\n")
      ∷ text (codes "Total Clusters: ")
      ∷ number (max_clusters v - 2)
      ∷ text (codes "\n")
      ∷ text (codes "Free Clusters:  ")
      ∷ number n.free_clusters
      ∷ text (codes "\n")
      ∷ text (codes "Used Clusters:  ")
      ∷ number n.used_clusters
      ∷ text (codes "\n")
      ∷ text (codes "Bad Clusters:   ")
      ∷ number n.bad_clusters
      ∷ text (codes "\n")
      ∷ text (codes "Next Free Hint: ")
      ∷ number v.next_free_cluster
      ∷ text (codes "\n")
      ∷ text (codes "Free Space:     ")
      ∷ number (u32 (n.free_clusters * cluster_size v / 1024))
      ∷ text (codes " KB\n")
      ∷ text (codes "Used Space:     ")
      ∷ number (u32 (n.used_clusters * cluster_size v / 1024))
      ∷ text (codes " KB\n")
      ∷ []

  unfoldable pub show_cluster_stats : Volume D → ClusterCounts × Volume D
  show_cluster_stats v =
      let counted =
        count_clusters (max_clusters v - 2) 2
          (record { free_clusters = 0; used_clusters = 0; bad_clusters = 0 })
          (say (text (codes "Scanning FAT for cluster statistics...\n") ∷ []) v) in
      (counted.0, say (statistics counted.1 counted.0) counted.1)
