-- ===== src/Fat32/Placing.antt =====
-- The directory entry of a new file: the sector it is written to, and what else stays.
use mathlib.Core.Path.{subst}
use text_os.Common.{
  ℕ, zero, suc, ◌+◌, ◌-◌, ◌*◌, ◌≤◌, ◌<◌, ◌≡◌, ◌≢◌, ◌⊎◌, inl, inr, refl, ap, sym, Option, some, none,
  arith, not, ◌==◌, ==_iff, if◌then◌else◌, Bool-cases, ℕ_discrete,
}
use text_os.Memory.{Memory}
use text_os.Drive.{Drive, IsReliable, written}
use text_os.Fat32.{Volume, max_clusters, cluster_to_lba}
use text_os.Fat32.Geometry.{Laid, byte_at, cluster_start, cluster-inside, cluster_to_lba_lem}
use text_os.Fat32.Directory.{
  free_entry, create_entry, check_sectors, fail_with, place_entry, exists, absent,
}
use text_os.Fat32.Removal.{scan_entries}
use text_os.Fat32.Listed.{
  never_deleted, sector, Lists, IsThere, IsNew, IsFull, is_found, scan_entries-Search,
  has_entry-scan_entries, Search-some, Search-none,
}
use text_os.Fat32.Made.{IsListed}

-- The first unused entry of a sector from `e` on.
data FirstFree (buffer : Memory) (e rounds : ℕ) : Option ℕ → Type 0 where
  free :
      (i : ℕ)
      → e ≤ i
      → i < e + rounds
      → buffer (i * 32) ≡ 0
      → ((k : ℕ) → e ≤ k → k < i → buffer (k * 32) ≢ 0)
      → FirstFree buffer e rounds (some i)
  full : ((k : ℕ) → e ≤ k → k < e + rounds → buffer (k * 32) ≢ 0) → FirstFree buffer e rounds none

more_used :
    (buffer : Memory) (e i : ℕ)
    → buffer (e * 32) ≢ 0
    → ((k : ℕ) → e + 1 ≤ k → k < i → buffer (k * 32) ≢ 0)
    → (k : ℕ) → e ≤ k
    → k < i
    → buffer (k * 32) ≢ 0
more_used buffer e i used rest k lo lt = elim (ℕ_discrete e k) [
  | yes same ↦ subst (λ m. buffer (m * 32) ≢ 0) same used
  | no other ↦ rest k (omega arith) lt
]

more :
    (rounds e : ℕ) (buffer : Memory) (r : Option ℕ)
    → buffer (e * 32) ≢ 0
    → FirstFree buffer (e + 1) rounds r
    → FirstFree buffer e (suc rounds) r
more rounds e buffer r used (free i lo lt unused before) =
    free i (omega arith) (omega arith) unused (more_used buffer e i used before)
more rounds e buffer r used (full before) =
    full λ k lo lt. more_used buffer e (e + 1 + rounds) used before k lo (omega arith)

module _ {D : Drive} (R : IsReliable D) where
  free_entry_lem :
      (rounds e : ℕ) (buffer : Memory) → FirstFree buffer e rounds (free_entry rounds e buffer)
  unfolding free_entry
  free_entry_lem zero e buffer = full λ k lo lt. absurd (omega arith)
  free_entry_lem (suc rounds) e buffer =
      let kept = never_deleted (buffer (e * 32)) in
      elim (Bool-cases (buffer (e * 32) == 0)) [
        | inl z ↦ rw z (
            free e (omega arith) (omega arith) ((==_iff (buffer (e * 32)) 0).0 z)
              (λ k lo lt. absurd (omega arith)))
        | inr nz ↦
            rw (nz, kept)
              (more rounds e buffer (free_entry rounds (e + 1) buffer) (λ z. absurd (ground arith))
                (free_entry_lem rounds (e + 1) buffer))
      ]

  -- The outcome of the search for a place.
  pub data Placed (v : Volume D) (fuel : ℕ) (target : Memory) (first size : ℕ)
      : Option (ℕ × Volume D) → Type 0 where
    placed :
        (d : D.State)
        → IsListed R v d target first size
        → Placed v fuel target first size (some (0, record v { drive = d }))
    no_place : IsFull R v → Placed v fuel target first size (fail_with 4 fuel first v)

  module _ (v : Volume D) (l : Laid R v) (lo : 2 ≤ v.current_directory_cluster)
      (hi : v.current_directory_cluster < max_clusters v) where
    abbrev pub lba : ℕ
    lba = cluster_to_lba v v.current_directory_cluster

    pub start : lba * 512 ≡ cluster_start v v.current_directory_cluster
    start = cluster_to_lba_lem R v v.current_directory_cluster l lo hi

    pub room : lba + v.fat32_bpb.sec_per_clus ≤ R.capacity
    unfolding cluster_start
    room = omega (arith, start, cluster-inside R v v.current_directory_cluster l lo hi, l.inside)

    pub check_sectors_cases :
        (rounds s : ℕ) (target : Memory)
        → s + rounds ≡ v.fat32_bpb.sec_per_clus
        → ((i e : ℕ) → i < s → e < 16 → ¬ Lists (sector R v i) target e)
        → ((check_sectors rounds s lba target v ≡ exists) × IsThere R v target)
          ⊎ ((check_sectors rounds s lba target v ≡ absent) × IsNew R v target)
    unfolding check_sectors
    check_sectors_cases zero s target h before =
        inr (refl, λ i e inside small. before i e (omega arith) small)
    check_sectors_cases (suc rounds) s target h before =
        let search = scan_entries-Search 16 0 (sector R v s) target in
        let r = scan_entries 16 0 (sector R v s) target in
        rw
          (
            check_sectors,
            R.read-held v.drive (lba + s) 1 (omega (arith, room)) (omega arith),
            has_entry-scan_entries 16 0 (sector R v s) target,
          )
          (elim (Bool-cases (is_found r)) [
            | inl hit ↦
                let (e, small, lists) = Search-some (sector R v s) target r search hit in
                inl (rw hit refl, (s, e, omega arith, small, lists))
            | inr miss ↦ rw miss (
                check_sectors_cases rounds (s + 1) target (omega arith) (λ i e lt small.
                  elim (ℕ_discrete i s) [
                    | yes same ↦
                        subst (λ m. ¬ Lists (sector R v m) target e) (sym same)
                          (Search-none (sector R v s) target r search miss e small)
                    | no other ↦ before i e (omega arith) small
                  ]))
          ])

    abbrev filled : ℕ → ℕ → Memory → ℕ → ℕ → Memory
    filled s e target first size = create_entry (sector R v s) (e * 32) target first size

    module _ (s e : ℕ) (target : Memory) (first size : ℕ) (inside : s < v.fat32_bpb.sec_per_clus)
        (small : e < 16) where
      abbrev next : D.State
      next = (D.write_sectors v.drive (lba + s) 1 (filled s e target first size)).1

      held_next :
          (a : ℕ)
          → R.held next a
            ≡ written (byte_at R v) ((lba + s) * 512) (1 * 512) (filled s e target first size) a
      held_next a =
          R.held-write v.drive (lba + s) 1 (filled s e target first size) a (omega (arith, room))
            (omega arith)

      written-IsListed :
          sector R v s (e * 32) ≡ 0
          → ((i j : ℕ) → i < s → j < 16 → sector R v i (j * 32) ≢ 0)
          → ((j : ℕ) → j < e → sector R v s (j * 32) ≢ 0)
          → IsListed R v next target first size
      unfolding cluster_to_lba
      written-IsListed unused sectors entries = record {
        sector_number = s;
        index = e;
        sector_inside = inside;
        index_inside = small;
        unused = unused;
        sectors_used = sectors;
        entries_used = entries;
        created = λ k lt.
            let back : (lba + s) * 512 + k - (lba + s) * 512 ≡ k = omega arith in
            let datum = ap (filled s e target first size) back in
            ground (arith, held_next ((lba + s) * 512 + k), datum);
        elsewhere = λ a away. elim away [
          | inl below ↦ ground (arith, held_next a)
          | inr beyond ↦ ground (arith, held_next a)
        ];
      }

    pub place_entry-Placed :
        (rounds s fuel : ℕ) (target : Memory) (first size : ℕ)
        → s + rounds ≡ v.fat32_bpb.sec_per_clus
        → ((i j : ℕ) → i < s → j < 16 → sector R v i (j * 32) ≢ 0)
        → Placed v fuel target first size (place_entry rounds s fuel lba target first size v)
    unfolding place_entry
    place_entry-Placed zero s fuel target first size h before =
        no_place λ i e inside small. before i e (omega arith) small
    place_entry-Placed (suc rounds) s fuel target first size h before =
        rw (place_entry, R.read-held v.drive (lba + s) 1 (omega (arith, room)) (omega arith))
          (settle (free_entry 16 0 (sector R v s)) (free_entry_lem 16 0 (sector R v s))
            (λ used. place_entry-Placed rounds (s + 1) fuel target first size (omega arith) used))
      where
        outcome : Option ℕ → Option (ℕ × Volume D)
        outcome r = elim r [
          | none ↦ place_entry rounds (s + 1) fuel lba target first size v
          | some e ↦
              (let w = D.write_sectors v.drive (lba + s) 1 (filled s e target first size) in
                let v' = record v { drive = w.1 } in
                if not w.0 then fail_with 2 fuel first v' else some (0, v'))
        ]

        settle :
            (r : Option ℕ)
            → FirstFree (sector R v s) 0 16 r
            → (((i j : ℕ) → i < s + 1 → j < 16 → sector R v i (j * 32) ≢ 0)
                → Placed v fuel target first size
                    (place_entry rounds (s + 1) fuel lba target first size v))
            → Placed v fuel target first size (outcome r)
        settle r (full used) rest = rest (λ i j lt small. elim (ℕ_discrete i s) [
          | yes same ↦
              subst (λ m. sector R v m (j * 32) ≢ 0) (sym same) (used j (omega arith) (omega arith))
          | no other ↦ before i j (omega arith) small
        ])
        settle r (free e lo lt unused used) rest =
            rw
              (R.write-succeeds v.drive (lba + s) 1 (filled s e target first size)
                (omega (arith, room)) (omega arith))
              (placed (next s e target first size (omega arith) (omega arith)) (
                written-IsListed s e target first size (omega arith) (omega arith) unused before
                  (λ j near. used j (omega arith) near)))
