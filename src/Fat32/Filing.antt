-- ===== src/Fat32/Filing.antt =====
-- What `fat32_add_file` leaves in a volume, and the end of its work: the entry is made, or there is no
-- place for it and the clusters are freed.
use mathlib.Core.Path.{subst}
use text_os.Common.{
  ℕ, ◌+◌, ◌*◌, ◌^◌, ◌-◌, ◌≤◌, ◌<◌, ◌≡◌, ◌≢◌, inl, inr, refl, sym, ◌∙◌, ap, true, Option, some, List,
  [], ◌∷◌, length, All, arith, ne→==, dec_lt, negate,
}
use text_os.Memory.{Memory}
use text_os.Drive.{Drive, IsReliable}
use text_os.Fat32.{Bpb, Volume, max_clusters, cluster_to_lba}
use text_os.Fat32.Geometry.{Laid, entry, byte_at, cluster_start, clusters-apart, max_clusters_lem}
use text_os.Fat32.Chains.{clusters_needed}
use text_os.Fat32.Data.{read_data_from_clusters}
use text_os.Fat32.Directory.{to_83_format, fail_with}
use text_os.Fat32.Links.{
  IsSameLayout, IsSameLayout-trans, same_max, same-Laid, Absent, IsChain, Linked-kept, Linked-All,
}
use text_os.Fat32.Release.{free_cluster_chain-IsFreed}
use text_os.Fat32.Taking.{entry-agree}
use text_os.Fat32.Allocation.{by_list, both_zero, HasAllFree}
use text_os.Fat32.Contents.{cluster_bytes, Holds}
use text_os.Fat32.Reading.{IsFilled, read_data-Linked}
use text_os.Fat32.Listed.{sector, IsThere, IsNew, IsFull}
use text_os.Fat32.Made.{IsListed, IsEntryMade, IsListed-IsEntryMade}
use text_os.Fat32.Placing.{Placed, placed, no_place, start}

module _ {D : Drive} (R : IsReliable D) where
  -- The directory's cluster is one of the volume's, and in use.
  pub record HasDirectory (v : Volume D) : Type 0 where
    pub from_two : 2 ≤ v.current_directory_cluster
    pub below_max : v.current_directory_cluster < max_clusters v
    pub in_use : entry R v v.current_directory_cluster ≢ 0

  -- Everything but the directory entry is done: the clusters of the list, free in `v`, are the chain of
  -- `first` and hold the data.
  pub record IsReady (v u : Volume D) (first : ℕ) (xs : List ℕ) (bytes : Memory) (size : ℕ)
      : Type 0 where
    pub layout : IsSameLayout v u
    pub chain : IsChain R u first xs
    pub empty_first : length xs ≡ 0 → first ≡ 0
    pub were_free : All (λ x. entry R v x ≡ 0) xs
    pub kept : (d : ℕ) → d < max_clusters v → Absent d xs → entry R u d ≡ entry R v d
    pub holds : Holds R u xs bytes 0 size

  -- The bytes of the directory are those of `v`.
  abbrev pub DirectoryKept : Volume D → Volume D → Type 0
  DirectoryKept v u =
      (i : ℕ)
      → i < cluster_bytes v
      → byte_at R u (cluster_start v v.current_directory_cluster + i)
        ≡ byte_at R v (cluster_start v v.current_directory_cluster + i)

  -- The file is in the volume: its chain, the data in it, and its entry in the directory.
  pub record IsFile (fuel : ℕ) (v w : Volume D) (name : List ℕ) (first : ℕ) (xs : List ℕ)
      (bytes : Memory) (size : ℕ) : Type 0 where
    pub ready : IsReady v w first xs bytes size
    pub made : IsEntryMade R v w (to_83_format name (λ i. 0)) first size
    pub read_back :
        (out : Memory)
        → (m : Memory) × (read_data_from_clusters fuel w first out 0 size ≡ some (true, m))
          × IsFilled out m bytes 0 size

  pub data Added (fuel : ℕ) (v : Volume D) (name : List ℕ) (bytes : Memory) (size : ℕ)
      : ℕ → Volume D → Type 0 where
    added :
        {w : Volume D} (first : ℕ) (xs : List ℕ)
        → IsNew R v (to_83_format name (λ i. 0))
        → IsFile fuel v w name first xs bytes size
        → Added fuel v name bytes size 0 w
    directory_full :
        {w : Volume D}
        → IsNew R v (to_83_format name (λ i. 0))
        → IsFull R v
        → IsSameLayout v w
        → ((d : ℕ) → 2 ≤ d → d < max_clusters v → entry R w d ≡ entry R v d)
        → Added fuel v name bytes size (negate 4) w
    already_there :
        IsThere R v (to_83_format name (λ i. 0)) → Added fuel v name bytes size (negate 5) v
    disk_full :
        {w : Volume D} (xs : List ℕ)
        → IsNew R v (to_83_format name (λ i. 0))
        → length xs < clusters_needed v size
        → HasAllFree R v xs
        → IsSameLayout v w
        → ((d : ℕ) → 2 ≤ d → d < max_clusters v → entry R w d ≡ entry R v d)
        → Added fuel v name bytes size (negate 6) w

  pub used_absent :
      (c : ℕ) (xs : List ℕ) (f : ℕ → ℕ) → f c ≢ 0 → All (λ x. f x ≡ 0) xs → Absent c xs
  used_absent c [] f used h = tt
  used_absent c (x ∷ xs) f used (free, h) = ((λ e. used (ap f e ∙ free)), used_absent c xs f used h)

  -- A new drive that agrees on the clusters of the list.
  Holds-drive :
      (u : Volume D) (d : D.State) (xs : List ℕ) (bytes : Memory) (offset n : ℕ)
      → All
          (λ x.
            (i : ℕ)
            → i < cluster_bytes u
            → R.held d (cluster_start u x + i) ≡ byte_at R u (cluster_start u x + i))
          xs
      → Holds R u xs bytes offset n
      → Holds R (record u { drive = d }) xs bytes offset n
  unfolding Holds cluster_start
  Holds-drive u d [] bytes offset n same h = h
  Holds-drive u d (x ∷ xs) bytes offset n (same, rest) (first, h) = (
    (λ i lt inside. same i inside ∙ first i lt inside),
    Holds-drive u d xs bytes (offset + cluster_bytes u) (n - cluster_bytes u) rest h,
  )

  -- The directory's sectors, where its bytes are kept.
  sectors_same :
      (v u : Volume D)
      → Laid R v
      → HasDirectory v
      → IsSameLayout v u
      → DirectoryKept v u
      → (i k : ℕ) → i < v.fat32_bpb.sec_per_clus
      → k < 512
      → sector R u i k ≡ sector R v i k
  unfolding cluster_to_lba
  sectors_same v u l dir s kept i k lt small =
      let lba : cluster_to_lba u u.current_directory_cluster
          ≡ cluster_to_lba v v.current_directory_cluster =
        simp (s.same_bpb, s.same_data, s.same_directory) refl in
      let at : (cluster_to_lba v v.current_directory_cluster + i) * 512 + k
          ≡ cluster_start v v.current_directory_cluster + (i * 512 + k) =
        omega (arith, start R v l dir.from_two dir.below_max) in
      ap (λ (m : ℕ). byte_at R u ((m + i) * 512 + k)) lba
      ∙ ap (byte_at R u) at
      ∙ kept (i * 512 + k) (omega arith)
      ∙ ap (byte_at R v) (sym at)

  module _ (fuel : ℕ) (v : Volume D) (name : List ℕ) (bytes : Memory) (size : ℕ) (l : Laid R v)
      (dir : HasDirectory v) (new : IsNew R v (to_83_format name (λ i. 0))) where
    abbrev pub target : Memory
    target = to_83_format name (λ i. 0)

    -- The refusal -4, after the clusters have been freed.
    no_place-Added :
        (u : Volume D) (first : ℕ) (xs : List ℕ)
        → IsReady v u first xs bytes size
        → IsFull R v
        → length xs < fuel
        → (code : ℕ) × (w : Volume D) × (fail_with 4 fuel first u ≡ some (code, w))
          × Added fuel v name bytes size code w
    unfolding fail_with
    no_place-Added u first [] r crowded lt = (
      negate 4,
      u,
      rw (r.empty_first refl) refl,
      directory_full new crowded r.layout (λ d lo hi. r.kept d hi tt),
    )
    no_place-Added u first (x ∷ xs) r crowded lt =
        let f =
          free_cluster_chain-IsFreed R fuel u first (x ∷ xs) (same-Laid R v u r.layout l) r.chain
            lt in
        (
          negate 4,
          f.0,
          rw (fail_with, ne→== first 0 (omega (arith, r.chain.1.0, r.chain.1.1)), f.1) refl,
          directory_full new crowded (IsSameLayout-trans v u f.0 r.layout f.2.layout) (λ d lo hi.
              by_list R (λ y. entry R f.0 y ≡ entry R v y) d (x ∷ xs)
                (both_zero R (entry R f.0) (entry R v) (x ∷ xs) f.2.freed r.were_free)
                (λ away.
                  f.2.kept d (omega (arith, same_max v u r.layout)) away ∙ r.kept d hi away)),
        )

    module _ (u : Volume D) (first : ℕ) (xs : List ℕ) (d : D.State)
        (r : IsReady v u first xs bytes size) (same_directory : DirectoryKept v u)
        (lt : length xs < fuel) (word_size : size < 2 ^ 32)
        (listed : IsListed R u d target first size) where
      abbrev cluster : ℕ
      cluster = u.current_directory_cluster

      two : 2 ≤ cluster
      two = omega (arith, r.layout.same_directory, dir.from_two)

      apart : Absent cluster xs
      apart =
          subst (λ c. Absent c xs) (sym r.layout.same_directory)
            (used_absent v.current_directory_cluster xs (entry R v) dir.in_use r.were_free)

      inside_max : cluster < max_clusters u
      inside_max = omega (arith, r.layout.same_directory, same_max v u r.layout, dir.below_max)

      place_start : cluster_to_lba u cluster * 512 ≡ cluster_start u cluster
      place_start = start R u (same-Laid R v u r.layout l) two inside_max

      small_first :
          (ys : List ℕ) → IsChain R u first ys → (length ys ≡ 0 → first ≡ 0) → first < 2 ^ 32
      small_first [] chain zero_first = omega (arith, zero_first refl)
      small_first (y ∷ ys) (e, (here, lo, less, away, h), stop) zero_first = omega (
        arith,
        less,
        max_clusters_lem R u (same-Laid R v u r.layout l),
        (same-Laid R v u r.layout l).numbered,
      )

      data_same :
          (x : ℕ)
          → 2 ≤ x
          → x ≢ cluster
          → (i : ℕ) → i < cluster_bytes u
          → R.held d (cluster_start u x + i) ≡ byte_at R u (cluster_start u x + i)
      data_same x lo ne i inside =
          let cs = place_start in
          listed.elsewhere (cluster_start u x + i) (elim (dec_lt x cluster) [
            | yes below ↦ inl (omega (arith, cs, clusters-apart R u x cluster below lo))
            | no above ↦ inr (
                omega
                  (arith, cs, listed.sector_inside, clusters-apart R u cluster x (omega arith) two))
          ])

      entry_same : (y : ℕ) → y < max_clusters u → entry R (record u { drive = d }) y ≡ entry R u y
      unfolding cluster_start
      entry_same y less =
          entry-agree R u (record u { drive = d }) y (same-Laid R v u r.layout l) refl
            (λ a below. listed.elsewhere a (inl (omega (arith, place_start)))) less

      ready : IsReady v (record u { drive = d }) first xs bytes size
      ready = record {
        layout = record {
          same_bpb = r.layout.same_bpb;
          same_fat = r.layout.same_fat;
          same_data = r.layout.same_data;
          same_directory = r.layout.same_directory;
        };
        chain = (
          r.chain.0,
          Linked-kept R u (record u { drive = d }) first xs r.chain.0 refl
              (Linked-All R u first xs r.chain.0 cluster
                (λ y. entry R (record u { drive = d }) y ≡ entry R u y)
                (λ y lo hi ne. entry_same y hi) apart r.chain.1)
              r.chain.1,
          r.chain.2,
        );
        empty_first = r.empty_first;
        were_free = r.were_free;
        kept =
            λ y less away. entry_same y (omega (arith, same_max v u r.layout)) ∙ r.kept y less away;
        holds =
            Holds-drive u d xs bytes 0 size
              (Linked-All R u first xs r.chain.0 cluster
                (λ x.
                  (i : ℕ)
                  → i < cluster_bytes u
                  → R.held d (cluster_start u x + i) ≡ byte_at R u (cluster_start u x + i))
                (λ x lo hi ne. data_same x lo ne) apart r.chain.1)
              r.holds;
      }

      placed-Added : Added fuel v name bytes size 0 (record u { drive = d })
      placed-Added = added first xs new (record {
        ready = ready;
        made =
            IsListed-IsEntryMade R v u d target first size listed
              (ap (λ (b : Bpb). b.sec_per_clus) r.layout.same_bpb)
              (sectors_same v u l dir r.layout same_directory)
              (small_first xs r.chain r.empty_first) word_size;
        read_back = λ out.
            read_data-Linked R fuel (record u { drive = d }) first xs ready.chain.0 out bytes 0 size
              (same-Laid R v (record u { drive = d }) ready.layout l) ready.chain.1 ready.chain.2 lt
              ready.holds;
      })

    pub settle_place :
        (u : Volume D) (first : ℕ) (xs : List ℕ) (r : Option (ℕ × Volume D))
        → IsReady v u first xs bytes size
        → DirectoryKept v u
        → length xs < fuel
        → size < 2 ^ 32
        → Placed R u fuel target first size r
        → (code : ℕ) × (w : Volume D) × (r ≡ some (code, w)) × Added fuel v name bytes size code w
    settle_place u first xs r ready same lt word_size (placed d listed) =
        (0, record u { drive = d }, refl, placed-Added u first xs d ready same lt word_size listed)
    settle_place u first xs r ready same lt word_size (no_place crowded) =
        no_place-Added u first xs ready
          (λ s e inside small z.
            let spc = ap (λ (b : Bpb). b.sec_per_clus) ready.layout.same_bpb in
            crowded s e (omega (arith, spc)) small
              (sectors_same v u l dir ready.layout same s (e * 32) inside (omega arith) ∙ z))
          lt
