-- ===== src/Fat32/Counting.antt =====
-- What `show_cluster_stats` counts, and that taking a cluster makes one free cluster fewer.
use mathlib.Core.Path.{subst}
use text_os.Common.{
  ℕ, zero, suc, ◌+◌, ◌-◌, ◌%◌, ◌≤◌, ◌<◌, ◌≡◌, ◌≢◌, refl, sym, ap, Bool, true, false, Bool-cases,
  inl, inr, List, [], ◌∷◌, codes, ◌==◌, if◌then◌else◌, arith, ne→==, eq→==, ℕ_discrete,
}
use text_os.Drive.{Drive, IsReliable}
use text_os.Fat32.{Volume, Shown, text, say, max_clusters}
use text_os.Fat32.Geometry.{Laid, entry, max_clusters_lem}
use text_os.Fat32.Entries.{read_fat_entry_lem}
use text_os.Fat32.Stats.{ClusterCounts, count_entry, count_clusters, show_cluster_stats}
use text_os.Fat32.Chains.{allocate_cluster}
use text_os.Fat32.Links.{same_max, same-Laid}
use text_os.Fat32.Growth.{HintInRange}
use text_os.Fat32.Taking.{Allocated, taken, no_room, allocate_cluster-Allocated}

-- How many of the `rounds` numbers from `c` on the function maps to 0.
abbrev pub zeros : (ℕ → ℕ) → ℕ → ℕ → ℕ
zeros f zero c = 0
zeros f (suc rounds) c = (if f c == 0 then 1 else 0) + zeros f rounds (c + 1)

zeros-same :
    (f g : ℕ → ℕ) (rounds c : ℕ)
    → ((d : ℕ) → c ≤ d → d < c + rounds → f d ≡ g d)
    → zeros f rounds c ≡ zeros g rounds c
zeros-same f g zero c h = refl
zeros-same f g (suc rounds) c h =
    rw
      (
        h c (omega arith) (omega arith),
        zeros-same f g rounds (c + 1) (λ d a b. h d (omega arith) (omega arith)),
      )
      refl

-- One zero fewer.
zeros-less :
    (f g : ℕ → ℕ) (rounds c x : ℕ)
    → c ≤ x
    → x < c + rounds
    → f x ≡ 0
    → g x ≢ 0
    → ((d : ℕ) → c ≤ d → d < c + rounds → d ≢ x → g d ≡ f d)
    → zeros g rounds c + 1 ≡ zeros f rounds c
zeros-less f g zero c x lo hi z nz h = absurd (omega arith)
zeros-less f g (suc rounds) c x lo hi z nz h = elim (ℕ_discrete c x) [
  | yes e ↦
      let rest =
        zeros-same f g rounds (x + 1)
          (λ d a b. sym (h d (omega arith) (omega arith) (λ q. absurd (omega (arith, q, e))))) in
      rw (e, z, ne→== (g x) 0 nz) (omega (arith, rest))
  | no ne ↦
      let rest =
        zeros-less f g rounds (c + 1) x (omega arith) (omega arith) z nz
          (λ d a b. h d (omega arith) (omega arith)) in
      rw (h c (omega arith) (omega arith) ne) (omega (arith, rest))
]

module _ {D : Drive} (R : IsReliable D) where
  -- The counters after `rounds` clusters from `c` on, and the volume, which only printed.
  record IsCounted (rounds c : ℕ) (n : ClusterCounts) (v : Volume D) (m : ClusterCounts)
      (w : Volume D) : Type 0 where
    free_counted : m.free_clusters ≡ n.free_clusters + zeros (entry R v) rounds c
    all_counted :
        m.free_clusters + m.used_clusters + m.bad_clusters
        ≡ n.free_clusters + n.used_clusters + n.bad_clusters + rounds
    only_printed : w ≡ record v { printed = w.printed }

  abbrev Result : ℕ → ℕ → ClusterCounts → Volume D → Volume D → Type 0
  Result rounds c n v w =
      IsCounted rounds c n v (count_clusters rounds c n w).0 (count_clusters rounds c n w).1

  count_entry_lem :
      (e : ℕ) (n : ClusterCounts)
      → ((count_entry e n).free_clusters ≡ n.free_clusters + (if e == 0 then 1 else 0))
        × ((count_entry e n).free_clusters
              + (count_entry e n).used_clusters
              + (count_entry e n).bad_clusters
            ≡ n.free_clusters + n.used_clusters + n.bad_clusters + 1)
  count_entry_lem e n = elim (ℕ_discrete e 0) [
    | yes free ↦ rw (eq→== e 0 free) (refl, omega arith)
    | no used ↦ rw (ne→== e 0 used) (elim (Bool-cases (e == 0x0FFFFFF7)) [
      | inl bad ↦ rw (bad) (omega arith, omega arith)
      | inr good ↦ rw (good) (omega arith, omega arith)
    ])
  ]

  IsCounted-then :
      (rounds c : ℕ) (n : ClusterCounts) (v : Volume D) (shown : List Shown) (m : ClusterCounts)
      (w : Volume D)
      → IsCounted rounds (c + 1) (count_entry (entry R v c) n) (record v { printed = shown }) m w
      → IsCounted (suc rounds) c n v m w
  unfolding entry
  IsCounted-then rounds c n v shown m w s =
      let one = count_entry_lem (entry R v c) n in
      record {
        free_counted = omega (arith, s.free_counted, one);
        all_counted = omega (arith, s.all_counted, one);
        only_printed = s.only_printed;
      }

  count_clusters-IsCounted :
      (rounds c : ℕ) (n : ClusterCounts) (v : Volume D)
      → Laid R v
      → 2 ≤ c
      → c + rounds ≤ max_clusters v
      → Result rounds c n v v
  unfolding count_clusters entry
  count_clusters-IsCounted zero c n v l lo hi = record {
    free_counted = omega arith;
    all_counted = omega arith;
    only_printed = refl;
  }
  count_clusters-IsCounted (suc rounds) c n v l lo hi =
      let next = count_entry (entry R v c) n in
      let dot = say (text (codes ".") ∷ []) v in
      let step =
        ap (λ e. count_clusters rounds (c + 1) (count_entry e n) (if c % 1000 == 0 then dot else v))
          (read_fat_entry_lem R v c l lo (omega arith)) in
      let whole = λ (p : ClusterCounts × Volume D). IsCounted (suc rounds) c n v p.0 p.1 in
      let chosen = λ (b : Bool). count_clusters rounds (c + 1) next (if b then dot else v) in
      subst whole (sym step) (elim (Bool-cases (c % 1000 == 0)) [
        | inl shown ↦ subst whole (sym (ap chosen shown)) (
            IsCounted-then rounds c n v dot.printed (chosen true).0 (chosen true).1
              (count_clusters-IsCounted rounds (c + 1) next dot l (omega arith) (omega arith)))
        | inr plain ↦ subst whole (sym (ap chosen plain)) (
            IsCounted-then rounds c n v v.printed (chosen false).0 (chosen false).1
              (count_clusters-IsCounted rounds (c + 1) next v l (omega arith) (omega arith)))
      ])

  -- On a laid-out volume over a reliable drive, `show_cluster_stats` counts as free exactly the clusters whose entry is 0,
  -- counts each cluster once, and changes nothing but what is printed.
  pub show_cluster_stats_lem :
      (v : Volume D)
      → Laid R v
      → ((show_cluster_stats v).0.free_clusters ≡ zeros (entry R v) (max_clusters v - 2) 2)
        × ((show_cluster_stats v).0.free_clusters
              + (show_cluster_stats v).0.used_clusters
              + (show_cluster_stats v).0.bad_clusters
            ≡ max_clusters v - 2)
        × ((show_cluster_stats v).1 ≡ record v { printed = (show_cluster_stats v).1.printed })
  unfolding show_cluster_stats entry
  show_cluster_stats_lem v l =
      let started = say (text (codes "Scanning FAT for cluster statistics...\n") ∷ []) v in
      let empty : ClusterCounts = record {
        free_clusters = 0;
        used_clusters = 0;
        bad_clusters = 0;
      } in
      let s =
        count_clusters-IsCounted (max_clusters v - 2) 2 empty started l (omega arith)
          (omega (arith, max_clusters_lem R v l)) in
      let last = (show_cluster_stats v).1.printed in
      (
        omega (arith, s.free_counted),
        omega (arith, s.all_counted),
        ap (λ (u : Volume D). record u { printed = last }) s.only_printed,
      )

  -- On a laid-out volume over a reliable drive, with the hint in range: if `allocate_cluster` returns a cluster,
  -- `show_cluster_stats` counts one free cluster fewer than before.
  pub show_cluster_stats-allocate_cluster :
      (v : Volume D)
      → Laid R v
      → HintInRange R v
      → (allocate_cluster v).0 ≢ 0
      → (show_cluster_stats (allocate_cluster v).1).0.free_clusters + 1
        ≡ (show_cluster_stats v).0.free_clusters
  show_cluster_stats-allocate_cluster v l hint some_cluster =
      settle (allocate_cluster v).0 (allocate_cluster v).1
        (allocate_cluster-Allocated R v l hint.0 hint.1) some_cluster
    where
      settle :
          (c : ℕ) (w : Volume D)
          → Allocated R v c w
          → c ≢ 0
          → (show_cluster_stats w).0.free_clusters + 1 ≡ (show_cluster_stats v).0.free_clusters
      settle c w (no_room used) ne = absurd (ne refl)
      settle c w (taken t) ne =
          let same = same_max v w t.layout in
          let before = (show_cluster_stats_lem v l).0 in
          let after = (show_cluster_stats_lem w (same-Laid R v w t.layout l)).0 in
          let moved = ap (λ k. zeros (entry R w) (k - 2) 2) same in
          let fewer =
            zeros-less (entry R v) (entry R w) (max_clusters v - 2) 2 c t.in_range.0
              (omega (arith, t.in_range)) t.was_free (λ z. absurd (omega (arith, z, t.marked)))
              (λ d a b other. t.kept d (omega arith) other) in
          omega (arith, before, after, moved, fewer)
