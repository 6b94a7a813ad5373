-- ===== src/Fat32/Writing.antt =====
-- `write_data_to_clusters` puts the data into the clusters of a chain, in their order.
use mathlib.Core.Path.{subst}
use text_os.Common.{
  ℕ, zero, suc, ◌+◌, ◌-◌, ◌*◌, ◌/◌, ◌≤◌, ◌<◌, ◌≡◌, ◌⊎◌, inl, inr, refl, sym, ap, true, arith, ◌%◌,
  if◌then◌else◌, ltb, lt→ltb, le→ltb, dec_lt, Bool,
}
use text_os.Memory.{Memory}
use text_os.Drive.{Drive, IsReliable, written}
use text_os.Fat32.{Volume, max_clusters, cluster_to_lba}
use text_os.Fat32.Geometry.{Laid, byte_at, cluster_start, cluster-inside, cluster_to_lba_lem}
use text_os.Fat32.Chains.{cluster_size}
use text_os.Fat32.Data.{portion, write_cluster}
use text_os.Fat32.Growth.{Outside}

module _ {D : Drive} (R : IsReliable D) where
  pub cluster_size_lem : (v : Volume D) → Laid R v → cluster_size v ≡ v.fat32_bpb.sec_per_clus * 512
  cluster_size_lem v l = rw (l.sectors_of_512) (omega (arith, l.small_clusters))

  -- A portion is a whole cluster, or all that remains.
  pub portion_lem :
      (v : Volume D) (n : ℕ)
      → Laid R v
      → ((n ≤ v.fat32_bpb.sec_per_clus * 512) × (portion (cluster_size v) n ≡ n))
        ⊎ ((v.fat32_bpb.sec_per_clus * 512 < n)
            × (portion (cluster_size v) n ≡ v.fat32_bpb.sec_per_clus * 512))
  portion_lem v n l = rw (cluster_size_lem v l) (elim (dec_lt (v.fat32_bpb.sec_per_clus * 512) n) [
    | yes more ↦ inr (more, rw (lt→ltb (v.fat32_bpb.sec_per_clus * 512) n more) refl)
    | no less ↦ inl (omega arith, rw (le→ltb (v.fat32_bpb.sec_per_clus * 512) n (omega arith)) refl)
  ])

  -- The cluster holds the first `n` bytes of the data from the offset on, and nothing outside it changed.
  pub record IsPut (v w : Volume D) (c : ℕ) (bytes : Memory) (offset n : ℕ) : Type 0 where
    pub only_drive : w ≡ record v { drive = w.drive }
    pub put : (i : ℕ) → i < n → byte_at R w (cluster_start v c + i) ≡ bytes (offset + i)
    pub kept : (a : ℕ) → Outside v a c → byte_at R w a ≡ byte_at R v a

  -- A write under `if (g > 0)`.
  abbrev guarded : ℕ → D.State → ℕ → ℕ → Memory → Bool × D.State
  guarded g d lba count buffer = if ltb 0 g then D.write_sectors d lba count buffer else (true, d)

  guarded-succeeds :
      (g : ℕ) (d : D.State) (lba count : ℕ) (buffer : Memory)
      → (0 < g → (lba + count ≤ R.capacity) × (count ≤ 128))
      → (guarded g d lba count buffer).0 ≡ true
  guarded-succeeds zero d lba count buffer fits = refl
  guarded-succeeds (suc g) d lba count buffer fits =
      rw (lt→ltb 0 (suc g) (omega arith))
        (R.write-succeeds d lba count buffer (fits (omega arith)).0 (fits (omega arith)).1)

  guarded_at :
      (g : ℕ) (d : D.State) (lba count : ℕ) (buffer : Memory) (a : ℕ)
      → (0 < g → (lba + count ≤ R.capacity) × (count ≤ 128))
      → R.held (guarded g d lba count buffer).1 a
        ≡ (if ltb 0 g then written (R.held d) (lba * 512) (count * 512) buffer a else R.held d a)
  guarded_at zero d lba count buffer a fits = refl
  guarded_at (suc g) d lba count buffer a fits =
      rw (lt→ltb 0 (suc g) (omega arith))
        (R.held-write d lba count buffer a (fits (omega arith)).0 (fits (omega arith)).1)

  module _ (v : Volume D) (c : ℕ) (bytes : Memory) (offset n : ℕ) (l : Laid R v) (lo : 2 ≤ c)
      (hi : c < max_clusters v) (fits : n ≤ v.fat32_bpb.sec_per_clus * 512) where
    abbrev tail : Memory
    tail i = if ltb i (n % 512) then bytes (offset + n / 512 * 512 + i) else 0

    abbrev full : Bool × D.State
    full = guarded (n / 512) v.drive (cluster_to_lba v c) (n / 512) (λ i. bytes (offset + i))

    abbrev partial : Bool × D.State
    partial = guarded (n % 512) full.1 (cluster_to_lba v c + n / 512) 1 tail

    start : cluster_to_lba v c * 512 ≡ cluster_start v c
    start = cluster_to_lba_lem R v c l lo hi

    whole_fits : cluster_to_lba v c + v.fat32_bpb.sec_per_clus ≤ R.capacity
    unfolding cluster_start
    whole_fits = omega (arith, start, cluster-inside R v c l lo hi, l.inside)

    outcome : write_cluster v c bytes offset n ≡ (true, record v { drive = partial.1 })
    unfolding write_cluster
    outcome =
        let one =
          guarded-succeeds (n / 512) v.drive (cluster_to_lba v c) (n / 512)
            (λ i. bytes (offset + i)) (λ g. omega (arith, whole_fits)) in
        let two =
          guarded-succeeds (n % 512) full.1 (cluster_to_lba v c + n / 512) 1 tail
            (λ g. omega (arith, whole_fits)) in
        rw (one, two) refl

    bytes_at :
        (a : ℕ)
        → R.held partial.1 a ≡ (
            if ltb 0 (n % 512)
            then written (R.held full.1) ((cluster_to_lba v c + n / 512) * 512) (1 * 512) tail a
            else R.held full.1 a)
    bytes_at a =
        guarded_at (n % 512) full.1 (cluster_to_lba v c + n / 512) 1 tail a
          (λ g. omega (arith, whole_fits))

    full_at :
        (a : ℕ)
        → R.held full.1 a ≡ (
            if ltb 0 (n / 512)
            then written
                (R.held v.drive)
                (cluster_to_lba v c * 512)
                (n / 512 * 512)
                (λ i. bytes (offset + i))
                a
            else R.held v.drive a)
    full_at a =
        guarded_at (n / 512) v.drive (cluster_to_lba v c) (n / 512) (λ i. bytes (offset + i)) a
          (λ g. omega (arith, whole_fits))

    put_at : (i : ℕ) → i < n → R.held partial.1 (cluster_start v c + i) ≡ bytes (offset + i)
    put_at i lt =
        let at = cluster_start v c + i in
        let sector = cluster_to_lba v c + n / 512 in
        let first : at - cluster_to_lba v c * 512 ≡ i = omega (arith, start) in
        let near = ap (λ k. bytes (offset + k)) first in
        elim (dec_lt i (n / 512 * 512)) [
          | yes inside ↦ ground (arith, bytes_at at, full_at at, start, near)
          | no after ↦
              let second : offset + n / 512 * 512 + (at - sector * 512) ≡ offset + i =
                omega (arith, start) in
              let far = ap bytes second in ground (arith, bytes_at at, start, far)
        ]

    kept_at : (a : ℕ) → Outside v a c → R.held partial.1 a ≡ R.held v.drive a
    kept_at a (inl below) = ground (arith, bytes_at a, full_at a, start)
    kept_at a (inr beyond) = ground (arith, bytes_at a, full_at a, start)

    pub write_cluster-IsPut :
        ((write_cluster v c bytes offset n).0 ≡ true)
        × IsPut v (write_cluster v c bytes offset n).1 c bytes offset n
    write_cluster-IsPut =
        subst (λ (r : Bool × Volume D). (r.0 ≡ true) × IsPut v r.1 c bytes offset n) (sym outcome)
          (refl, record { only_drive = refl; put = put_at; kept = kept_at })
