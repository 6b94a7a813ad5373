-- ===== src/Fat32/Search.antt =====
-- The search for a free cluster: from the hint to the last cluster, then from the first to the hint.
use mathlib.Core.Path.{subst}
use text_os.Common.{
  ℕ, zero, suc, ◌+◌, ◌-◌, ◌≤◌, ◌<◌, ◌≡◌, ◌≢◌, not, ◌==◌, ltb, if◌then◌else◌, arith, ℕ_discrete,
  dec_lt, le→ltb, lt→ltb, ne→==,
}
use text_os.Drive.{Drive, IsReliable}
use text_os.Fat32.{Volume, scan_free, find_free_cluster, max_clusters}
use text_os.Fat32.Geometry.{Laid, entry}
use text_os.Fat32.Entries.{read_fat_entry_lem}

module _ {D : Drive} (R : IsReliable D) where
  -- No cluster from `lo` on and below `hi` is free.
  abbrev pub AllUsed : Volume D → ℕ → ℕ → Type 0
  AllUsed v lo hi = (c : ℕ) → lo ≤ c → c < hi → entry R v c ≢ 0

  -- What a scan of the clusters from `lo` on and below `hi` may return: the first one that is free, or 0.
  pub data Scanned (v : Volume D) (lo hi : ℕ) : ℕ → Type 0 where
    found : {c : ℕ} → lo ≤ c → c < hi → entry R v c ≡ 0 → AllUsed v lo c → Scanned v lo hi c
    full : AllUsed v lo hi → Scanned v lo hi 0

  scan_free-Scanned :
      (rounds c : ℕ) (v : Volume D)
      → Laid R v
      → 2 ≤ c
      → c + rounds ≤ max_clusters v
      → Scanned v c (c + rounds) (scan_free rounds c v)
  unfolding scan_free
  scan_free-Scanned zero c v l lo hi = full (λ d a b. absurd (omega arith))
  scan_free-Scanned (suc rounds) c v l lo hi = elim (ℕ_discrete (entry R v c) 0) [
    | yes free ↦
        rw (read_fat_entry_lem R v c l lo (omega arith), free)
          (found (omega arith) (omega arith) free (λ d a b. absurd (omega arith)))
    | no used ↦
        rw (read_fat_entry_lem R v c l lo (omega arith), ne→== (entry R v c) 0 used)
          (extend (scan_free rounds (c + 1) v)
            (scan_free-Scanned rounds (c + 1) v l (omega arith) (omega arith)) used)
  ]
    where
      earlier :
          (d : ℕ) {hi : ℕ}
          → c ≤ d
          → (c + 1 ≤ d → d < hi → entry R v d ≢ 0)
          → d < hi
          → entry R v c ≢ 0
          → entry R v d ≢ 0
      earlier d a rest b used = elim (ℕ_discrete c d) [
        | yes same ↦ subst (λ e. entry R v e ≢ 0) same used
        | no other ↦ rest (omega arith) b
      ]

      extend :
          (r : ℕ)
          → Scanned v (c + 1) (c + 1 + rounds) r
          → entry R v c ≢ 0
          → Scanned v c (c + suc rounds) r
      extend r (found more less free none) used =
          found (omega arith) (omega arith) free (λ d a b. earlier d a (none d) b used)
      extend r (full none) used = full (λ d a b. earlier d a (none d) (omega arith) used)

  -- From the hint on the first free cluster is found; if there is none, the first one before the hint.
  pub data Found (v : Volume D) (hint : ℕ) : ℕ → Type 0 where
    from_hint :
        {c : ℕ}
        → hint ≤ c
        → c < max_clusters v
        → entry R v c ≡ 0
        → AllUsed v hint c
        → Found v hint c
    wrapped :
        {c : ℕ}
        → 2 ≤ c
        → c < hint
        → entry R v c ≡ 0
        → AllUsed v hint (max_clusters v)
        → AllUsed v 2 c
        → Found v hint c
    disk_full : AllUsed v 2 (max_clusters v) → Found v hint 0

  pub find_free_cluster-Found :
      (v : Volume D) (hint : ℕ)
      → Laid R v
      → 2 ≤ hint
      → hint ≤ max_clusters v
      → Found v hint (find_free_cluster v hint)
  unfolding find_free_cluster
  find_free_cluster-Found v hint l lo hi =
      first (scan_free (max_clusters v - hint) hint v)
        (scan_free-Scanned (max_clusters v - hint) hint v l lo (omega arith))
    where
      both :
          AllUsed v hint (hint + (max_clusters v - hint))
          → AllUsed v 2 hint
          → AllUsed v 2 (max_clusters v)
      both high low c a b = elim (dec_lt c hint) [
        | yes p ↦ low c a p
        | no p ↦ high c (omega arith) (omega arith)
      ]

      second :
          (r : ℕ)
          → AllUsed v hint (hint + (max_clusters v - hint))
          → Scanned v 2 (2 + (hint - 2)) r
          → Found v hint r
      second r high (found more less free none) =
          wrapped more (omega arith) free (λ c a b. high c a (omega arith)) none
      second r high (full none) = disk_full (both high (λ c a b. none c a (omega arith)))

      first :
          (r : ℕ)
          → Scanned v hint (hint + (max_clusters v - hint)) r
          → Found v hint
              (if not (r == 0) then r else if ltb 2 hint then scan_free (hint - 2) 2 v else 0)
      first r (found more less free none) =
          rw (ne→== r 0 (omega arith)) (from_hint more (omega arith) free none)
      first r (full none) = elim (dec_lt 2 hint) [
        | yes p ↦ rw (lt→ltb 2 hint p) (
            second (scan_free (hint - 2) 2 v) none
              (scan_free-Scanned (hint - 2) 2 v l (omega arith) (omega arith)))
        | no p ↦
            rw (le→ltb 2 hint (omega arith)) (disk_full (both none (λ c a b. absurd (omega arith))))
      ]
