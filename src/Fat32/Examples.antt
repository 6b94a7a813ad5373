-- ===== src/Fat32/Examples.antt =====
-- A small volume on a drive that is an array of 16 sectors, and runs of the file system on it.
use text_os.Common.{
  ℕ, ◌-◌, ◌≢◌, ◌==◌, ◌&&◌, ltb, ◌+◌, ◌*◌, ◌%◌, ◌≡◌, refl, true, false, none, some, List, [], ◌∷◌,
  ◌++◌, arith, codes, leb, le→leb, if◌then◌else◌,
}
use text_os.Memory.{Memory, store32, load32}
use text_os.Drive.{Drive, IsReliable, written}
use text_os.Fat32.{Volume, max_clusters, write_fat_entry, find_free_cluster, fat_end_of_chain}
use text_os.Fat32.Geometry.{Laid, entry}
use text_os.Fat32.Chains.{in_chain, free_cluster_chain, allocate_cluster, allocate_cluster_chain}
use text_os.Fat32.Data.{write_data_to_clusters}
use text_os.Fat32.Links.{IsChain}
use text_os.Fat32.Release.{IsFreed, free_cluster_chain-IsFreed}
use text_os.Fat32.Taking.{Allocated, allocate_cluster-Allocated}
use text_os.Fat32.Growth.{HintInRange}
use text_os.Fat32.Allocation.{ChainAllocated, allocate_cluster_chain-ChainAllocated}
use text_os.Fat32.Directory.{to_83_format}
use text_os.Fat32.Removed.{Removed}
use text_os.Fat32.Names.{suffix, from_83_format-to_83_format}
use text_os.Fat32.Showing.{from_83_format}
use text_os.Fat32.Stats.{show_cluster_stats}
use text_os.Fat32.Counting.{zeros, show_cluster_stats_lem, show_cluster_stats-allocate_cluster}
use text_os.Fat32.RoundTrip.{IsReadBack, read_data_from_clusters-write_data_to_clusters}

abbrev array_drive : Drive
array_drive = record {
  State = Memory;
  read_sectors =
      λ s lba count. if leb (lba + count) 16 then some (λ i. s (lba * 512 + i)) else none;
  write_sectors = λ s lba count bytes.
      if leb (lba + count) 16
      then (true, written s (lba * 512) (count * 512) bytes)
      else (false, s);
}

abbrev reliable : IsReliable array_drive
reliable = record {
  capacity = 16;
  held = λ s. s;
  read-held = λ s lba count fits few. rw (le→leb (lba + count) 16 fits) refl;
  write-succeeds = λ s lba count bytes fits few. rw (le→leb (lba + count) 16 fits) refl;
  held-write = λ s lba count bytes x fits few. rw (le→leb (lba + count) 16 fits) refl;
}

-- The clusters 2 and 5 end a chain, and 3 leads to 5.
abbrev table : Memory
table = store32 (store32 (store32 (λ i. 0) 520 fat_end_of_chain) 524 5) 532 fat_end_of_chain

abbrev volume : Volume array_drive
volume = record {
  drive = table;
  fat32_bpb = record {
    bytes_per_sec = 512;
    sec_per_clus = 1;
    rsvd_sec_cnt = 1;
    num_fats = 2;
    tot_sec32 = 16;
    fat_sz32 = 1;
    root_clus = 2;
  };
  fat_start_sector = 1;
  data_start_sector = 3;
  current_directory_cluster = 2;
  next_free_cluster = 3;
  printed = [];
}

volume-Laid : Laid reliable volume
volume-Laid = record {
  has_copies = omega arith;
  has_clusters = omega arith;
  small_clusters = omega arith;
  sectors_of_512 = refl;
  tables_below = omega arith;
  data_start_inside = omega arith;
  inside = omega arith;
  word_sized = omega arith;
  entries_fit = omega arith;
  numbered = omega arith;
}

volume-HintInRange : HintInRange reliable volume
volume-HintInRange = omega arith

abbrev clusters : List ℕ
clusters = 3 ∷ 5 ∷ []

volume-IsChain : IsChain reliable volume 3 clusters
unfolding entry load32 store32 in_chain
volume-IsChain = (
  fat_end_of_chain,
  (
    refl,
    omega arith,
    omega arith,
    ((λ e. absurd (omega (arith, e))), tt),
    (refl, omega arith, omega arith, tt, refl),
  ),
  refl,
)

free_cluster_chain-IsFreed_example :
    (w : Volume array_drive) × (free_cluster_chain 3 volume 3 ≡ some w)
    × IsFreed reliable volume w clusters
free_cluster_chain-IsFreed_example =
    free_cluster_chain-IsFreed reliable 3 volume 3 clusters volume-Laid volume-IsChain (omega arith)

allocate_cluster-Allocated_example :
    Allocated reliable volume (allocate_cluster volume).0 (allocate_cluster volume).1
allocate_cluster-Allocated_example =
    allocate_cluster-Allocated reliable volume volume-Laid (omega arith) (omega arith)

allocate_cluster_chain-ChainAllocated_example :
    ChainAllocated reliable volume 3 (allocate_cluster_chain 4 volume 3)
allocate_cluster_chain-ChainAllocated_example =
    allocate_cluster_chain-ChainAllocated reliable 4 3 volume volume-Laid volume-HintInRange
      (omega arith)

read_data_from_clusters-write_data_to_clusters_example :
    (w : Volume array_drive) × (write_data_to_clusters 3 volume 3 (λ i. i % 251) 0 700
      ≡ some (true, w))
    × IsReadBack reliable 3 volume w 3 clusters (λ i. i % 251) 700
read_data_from_clusters-write_data_to_clusters_example =
    read_data_from_clusters-write_data_to_clusters reliable 3 volume 3 clusters (λ i. i % 251) 700
      volume-Laid volume-IsChain (omega arith) (omega arith)

-- The file A in the directory, with the chain of 3.
abbrev with_file : Memory
with_file x =
    if x == 1536
    then b'A'
    else if leb 1537 x && ltb x 1547
    then b' '
    else if x == 1547
    then 0x20
    else if x == 1562
    then 3
    else table x

abbrev file_volume : Volume array_drive
file_volume = record volume { drive = with_file }

show_cluster_stats_lem_example :
    ((show_cluster_stats volume).0.free_clusters
      ≡ zeros (entry reliable volume) (max_clusters volume - 2) 2)
    × ((show_cluster_stats volume).0.free_clusters
          + (show_cluster_stats volume).0.used_clusters
          + (show_cluster_stats volume).0.bad_clusters
        ≡ max_clusters volume - 2)
    × ((show_cluster_stats volume).1
        ≡ record volume { printed = (show_cluster_stats volume).1.printed })
show_cluster_stats_lem_example = show_cluster_stats_lem reliable volume volume-Laid

-- The hint leads to the cluster 4.
four_free : (allocate_cluster volume).0 ≢ 0
unfolding allocate_cluster text_os.Fat32.find_free_cluster text_os.Fat32.scan_free
    text_os.Fat32.read_fat_entry text_os.Fat32.write_fat_entry text_os.Fat32.write_copies load32
    store32
four_free e = absurd (omega (arith, e))

show_cluster_stats-allocate_cluster_example :
    (show_cluster_stats (allocate_cluster volume).1).0.free_clusters + 1
    ≡ (show_cluster_stats volume).0.free_clusters
show_cluster_stats-allocate_cluster_example =
    show_cluster_stats-allocate_cluster reliable volume volume-Laid volume-HintInRange four_free

from_83_format-to_83_format_example :
    from_83_format (to_83_format (codes "readme" ++ suffix (codes "txt")) (λ i. 0))
    ≡ codes "README.TXT"
from_83_format-to_83_format_example =
    from_83_format-to_83_format (codes "readme") (codes "txt") (λ i. 0) (omega arith) (omega arith)
      (omega arith) (omega arith)

-- The file A with a size of five bytes, "Hello" in its first cluster.
abbrev hello : Memory
hello i =
    if i == 0
    then b'H'
    else if i == 1
    then b'e'
    else if i == 2
    then b'l'
    else if i == 3
    then b'l'
    else b'o'

abbrev with_size : Memory
with_size x =
    if x == 1564 then 5 else if leb 2048 x && ltb x 2053 then hello (x - 2048) else with_file x

abbrev hello_volume : Volume array_drive
hello_volume = record volume { drive = with_size }
