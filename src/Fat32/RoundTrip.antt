-- ===== src/Fat32/RoundTrip.antt =====
-- The contents of a file: written to a chain of clusters and read back.
use text_os.Common.{ℕ, ◌*◌, ◌≤◌, ◌<◌, ◌≡◌, true, some, List, [], ◌∷◌, length, All}
use text_os.Memory.{Memory}
use text_os.Drive.{Drive, IsReliable}
use text_os.Fat32.{Volume, max_clusters}
use text_os.Fat32.Geometry.{Laid, entry, byte_at}
use text_os.Fat32.Data.{write_data_to_clusters, read_data_from_clusters}
use text_os.Fat32.Links.{IsChain, Linked, Linked-kept, same_max, same-Laid}
use text_os.Fat32.Release.{only_drive-IsSameLayout}
use text_os.Fat32.Growth.{Outside}
use text_os.Fat32.Contents.{cluster_bytes, write_data-IsStored}
use text_os.Fat32.Reading.{IsFilled, read_data-Linked}

module _ {D : Drive} (R : IsReliable D) where
  -- The volume `w` has the entries of `v` and, outside the clusters of the list, its bytes of data; and
  -- reading `n` bytes of the chain of `c` into any buffer gives the data.
  pub record IsReadBack (fuel : ℕ) (v w : Volume D) (c : ℕ) (xs : List ℕ) (bytes : Memory) (n : ℕ)
      : Type 0 where
    pub only_drive : w ≡ record v { drive = w.drive }
    pub entries : (d : ℕ) → d < max_clusters v → entry R w d ≡ entry R v d
    pub kept :
        (a : ℕ)
        → v.data_start_sector * 512 ≤ a
        → All (Outside v a) xs
        → byte_at R w a ≡ byte_at R v a
    pub read_back :
        (out : Memory)
        → (m : Memory) × (read_data_from_clusters fuel w c out 0 n ≡ some (true, m))
          × IsFilled out m bytes 0 n

  pub entries_all :
      (v w : Volume D) (c : ℕ) (xs : List ℕ) (e : ℕ)
      → ((d : ℕ) → d < max_clusters v → entry R w d ≡ entry R v d)
      → Linked R v c xs e
      → All (λ x. entry R w x ≡ entry R v x) xs
  entries_all v w c [] e same h = tt
  entries_all v w c (x ∷ xs) e same (here, lo, hi, absent, h) =
      (same x hi, entries_all v w (entry R v x) xs e same h)

  -- Given more fuel than the chain has clusters, `write_data_to_clusters` stores data that fit into a
  -- chain, without a change of the table or of another cluster, and `read_data_from_clusters` reads
  -- exactly them.
  pub read_data_from_clusters-write_data_to_clusters :
      (fuel : ℕ) (v : Volume D) (c : ℕ) (xs : List ℕ) (bytes : Memory) (n : ℕ)
      → Laid R v
      → IsChain R v c xs
      → length xs < fuel
      → n ≤ length xs * cluster_bytes v
      → (w : Volume D) × (write_data_to_clusters fuel v c bytes 0 n ≡ some (true, w))
        × IsReadBack fuel v w c xs bytes n
  read_data_from_clusters-write_data_to_clusters fuel v c xs bytes n l (e, h, stop) lt room =
      let s = write_data-IsStored R fuel v c xs e bytes 0 n l h stop lt room in
      let same = only_drive-IsSameLayout R v s.0 s.2.only_drive in
      let linked =
        Linked-kept R v s.0 c xs e (same_max v s.0 same) (entries_all v s.0 c xs e s.2.entries h)
          h in
      (
        s.0,
        s.1,
        record {
          only_drive = s.2.only_drive;
          entries = s.2.entries;
          kept = s.2.kept;
          read_back = λ out.
              read_data-Linked R fuel s.0 c xs e out bytes 0 n (same-Laid R v s.0 same l) linked
                stop lt s.2.holds;
        },
      )
