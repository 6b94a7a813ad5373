-- ===== src/Fat32/Reading.antt =====
-- `read_data_from_clusters` reads what a chain of clusters holds.
use mathlib.Core.Path.{subst}
use text_os.Common.{
  ℕ, zero, suc, ◌+◌, ◌-◌, ◌*◌, ◌/◌, ◌≤◌, ◌<◌, ◌≡◌, ◌⊎◌, inl, inr, refl, ◌∙◌, ap, false, true, ◌&&◌,
  none, some, List, [], ◌∷◌, length, arith, ◌%◌, if◌then◌else◌, ltb, leb, lt→ltb, dec_lt, Bool,
}
use text_os.Memory.{Memory}
use text_os.Drive.{Drive, IsReliable, written}
use text_os.Fat32.{Volume, max_clusters, cluster_to_lba}
use text_os.Fat32.Geometry.{Laid, entry, byte_at, cluster_start, cluster-inside, cluster_to_lba_lem}
use text_os.Fat32.Entries.{read_fat_entry_lem}
use text_os.Fat32.Chains.{in_chain, cluster_size}
use text_os.Fat32.Data.{portion, read_cluster, read_data_from_clusters}
use text_os.Fat32.Links.{Linked}
use text_os.Fat32.Release.{in_chain-cluster}
use text_os.Fat32.Writing.{portion_lem}
use text_os.Fat32.Contents.{cluster_bytes, Holds, Holds-nothing}

-- The buffer `m` is `out` with `n` bytes of the data in their places from the offset on.
abbrev pub IsFilled : Memory → Memory → Memory → ℕ → ℕ → Type 0
IsFilled out m bytes offset n =
    (a : ℕ) → m a ≡ (if leb offset a && ltb a (offset + n) then bytes a else out a)

module _ {D : Drive} (R : IsReliable D) where
  -- A read under `if (g > 0)`.
  abbrev guarded : ℕ → D.State → ℕ → ℕ → Memory → ℕ → ℕ → Bool × Memory
  guarded g d lba count buffer at k =
      if ltb 0 g
      then (elim (D.read_sectors d lba count) [
        | none ↦ (false, buffer)
        | some bytes ↦ (true, written buffer at k bytes)
      ])
      else (true, buffer)

  guarded_lem :
      (g : ℕ) (d : D.State) (lba count : ℕ) (buffer : Memory) (at k : ℕ)
      → (0 < g → (lba + count ≤ R.capacity) × (count ≤ 128))
      → (g ≡ 0 → k ≡ 0)
      → ((guarded g d lba count buffer at k).0 ≡ true)
        × ((a : ℕ)
            → (guarded g d lba count buffer at k).1 a
              ≡ written buffer at k (λ i. R.held d (lba * 512 + i)) a)
  guarded_lem zero d lba count buffer at k fits empty =
      (refl, λ a. let z = empty refl in ground arith)
  guarded_lem (suc g) d lba count buffer at k fits empty =
      rw
        (
          lt→ltb 0 (suc g) (omega arith),
          R.read-held d lba count (fits (omega arith)).0 (fits (omega arith)).1,
        )
        (refl, λ a. refl)

  module _ (v : Volume D) (c : ℕ) (out : Memory) (offset n : ℕ) (l : Laid R v) (lo : 2 ≤ c)
      (hi : c < max_clusters v) (fits : n ≤ cluster_bytes v) where
    abbrev full : Bool × Memory
    full = guarded (n / 512) v.drive (cluster_to_lba v c) (n / 512) out offset (n / 512 * 512)

    abbrev partial : Bool × Memory
    partial =
        guarded (n % 512) v.drive (cluster_to_lba v c + n / 512) 1 full.1 (offset + n / 512 * 512)
          (n % 512)

    start : cluster_to_lba v c * 512 ≡ cluster_start v c
    start = cluster_to_lba_lem R v c l lo hi

    whole_fits : cluster_to_lba v c + v.fat32_bpb.sec_per_clus ≤ R.capacity
    unfolding cluster_start
    whole_fits = omega (arith, start, cluster-inside R v c l lo hi, l.inside)

    full_read :
        (full.0 ≡ true)
        × ((a : ℕ)
            → full.1 a
              ≡ written out offset
                  (n / 512 * 512)
                  (λ i. R.held v.drive (cluster_to_lba v c * 512 + i))
                  a)
    full_read =
        guarded_lem (n / 512) v.drive (cluster_to_lba v c) (n / 512) out offset (n / 512 * 512)
          (λ g. omega (arith, whole_fits)) (λ z. omega arith)

    partial_read :
        (partial.0 ≡ true)
        × ((a : ℕ)
            → partial.1 a
              ≡ written full.1
                  (offset + n / 512 * 512)
                  (n % 512)
                  (λ i. R.held v.drive ((cluster_to_lba v c + n / 512) * 512 + i))
                  a)
    partial_read =
        guarded_lem (n % 512) v.drive (cluster_to_lba v c + n / 512) 1 full.1
          (offset + n / 512 * 512) (n % 512) (λ g. omega (arith, whole_fits)) (λ z. z)

    read_cluster-succeeds : read_cluster v c out offset n ≡ (true, partial.1)
    unfolding read_cluster
    read_cluster-succeeds = rw (full_read.0) (ap (λ b. (b, partial.1)) partial_read.0)

    filled :
        (bytes : Memory)
        → ((i : ℕ) → i < n → byte_at R v (cluster_start v c + i) ≡ bytes (offset + i))
        → IsFilled out partial.1 bytes offset n
    filled bytes h a = elim (dec_lt a offset) [
      | yes before ↦ ground (arith, partial_read.1 a, full_read.1 a)
      | no later ↦ elim (dec_lt a (offset + n)) [
        | no beyond ↦ ground (arith, partial_read.1 a, full_read.1 a)
        | yes inside ↦
            let back : offset + (a - offset) ≡ a = omega arith in
            let datum = h (a - offset) (omega arith) ∙ ap bytes back in
            let first : cluster_to_lba v c * 512 + (a - offset) ≡ cluster_start v c + (a - offset) =
              omega (arith, start) in
            let early = ap (R.held v.drive) first ∙ datum in
            elim (dec_lt a (offset + n / 512 * 512)) [
              | yes low ↦ ground (arith, partial_read.1 a, full_read.1 a, early)
              | no high ↦
                  let second : (cluster_to_lba v c + n / 512) * 512 + (a - (offset + n / 512 * 512))
                      ≡ cluster_start v c + (a - offset) =
                    omega (arith, start) in
                  let late = ap (R.held v.drive) second ∙ datum in
                  ground (arith, partial_read.1 a, late)
            ]
      ]
    ]

  module _ (v : Volume D) (x : ℕ) (out bytes : Memory) (offset n : ℕ) (l : Laid R v) (lo : 2 ≤ x)
      (hi : x < max_clusters v) where
    abbrev part : ℕ
    part = portion (cluster_size v) n

    part_size :
        ((n ≤ cluster_bytes v) × (part ≡ n)) ⊎ ((cluster_bytes v < n) × (part ≡ cluster_bytes v))
    part_size = portion_lem R v n l

    abbrev got : Memory
    got = (read_cluster v x out offset part).1

    part_fits : part ≤ cluster_bytes v
    part_fits = omega (arith, part_size)

    got_filled :
        ((i : ℕ)
          → i < n
          → i < cluster_bytes v
          → byte_at R v (cluster_start v x + i) ≡ bytes (offset + i))
        → IsFilled out got bytes offset part
    got_filled h a =
        ap (λ (r : Bool × Memory). r.1 a)
          (read_cluster-succeeds v x out offset part l lo hi part_fits)
        ∙ filled v x out offset part l lo hi part_fits bytes
            (λ i lt. h i (omega (arith, part_size)) (omega (arith, part_size))) a

    got_step :
        (fuel : ℕ)
        → 0 < n
        → read_data_from_clusters (suc fuel) v x out offset n
          ≡ read_data_from_clusters fuel v (entry R v x) got (offset + part / 512 * 512) (n - part)
    unfolding read_data_from_clusters
    got_step fuel some_left =
        rw
          (
            in_chain-cluster R v x l lo hi,
            lt→ltb 0 n some_left,
            ap (λ (r : Bool × Memory). r.0)
                (read_cluster-succeeds v x out offset part l lo hi part_fits),
            read_fat_entry_lem R v x l lo hi,
          )
          refl

    left_held :
        (xs : List ℕ)
        → Holds R v xs bytes (offset + cluster_bytes v) (n - cluster_bytes v)
        → Holds R v xs bytes (offset + part / 512 * 512) (n - part)
    left_held xs held = elim part_size [
      | inl all ↦
          subst (Holds R v xs bytes (offset + part / 512 * 512)) (omega (arith, all))
            (Holds-nothing R v xs bytes (offset + part / 512 * 512))
      | inr some_left ↦
          let place : offset + cluster_bytes v ≡ offset + part / 512 * 512 =
            omega (arith, some_left) in
          let rest : n - cluster_bytes v ≡ n - part = omega (arith, some_left) in
          subst (λ k. Holds R v xs bytes k (n - part)) place
            (subst (Holds R v xs bytes (offset + cluster_bytes v)) rest held)
    ]

    got_then :
        (m : Memory)
        → IsFilled out got bytes offset part
        → IsFilled got m bytes (offset + part / 512 * 512) (n - part)
        → IsFilled out m bytes offset n
    got_then m first rest a = elim part_size [
      | inl (less, same) ↦ let here = first a in let there = rest a in ground arith
      | inr (more, same) ↦ let here = first a in let there = rest a in ground arith
    ]

  pub read_data-Linked :
      (fuel : ℕ) (v : Volume D) (c : ℕ) (xs : List ℕ) (e : ℕ) (out bytes : Memory) (offset n : ℕ)
      → Laid R v
      → Linked R v c xs e
      → in_chain e ≡ false
      → length xs < fuel
      → Holds R v xs bytes offset n
      → (m : Memory) × (read_data_from_clusters fuel v c out offset n ≡ some (true, m))
        × IsFilled out m bytes offset n
  unfolding read_data_from_clusters Holds
  read_data-Linked zero v c xs e out bytes offset n l h stop lt held = absurd (omega arith)
  read_data-Linked (suc fuel) v c [] e out bytes offset n l h stop lt held =
      (out, rw (h, stop, held) refl, λ a. ground arith)
  read_data-Linked (suc fuel) v c (x ∷ xs) e out bytes offset zero l (here, lo, hi, absent, h) stop
        lt held =
      (out, rw (here, in_chain-cluster R v x l lo hi) refl, λ a. ground arith)
  read_data-Linked (suc fuel) v c (x ∷ xs) e out bytes offset (suc n) l (here, lo, hi, absent, h)
        stop lt (first, held) =
      let m = part v x out bytes offset (suc n) l lo hi in
      let buffer = got v x out bytes offset (suc n) l lo hi in
      let after =
        read_data-Linked fuel v (entry R v x) xs e buffer bytes (offset + m / 512 * 512) (suc n - m)
          l h stop (omega arith) (left_held v x out bytes offset (suc n) l lo hi xs held) in
      (
        after.0,
        ap (λ k. read_data_from_clusters (suc fuel) v k out offset (suc n)) here
            ∙ got_step v x out bytes offset (suc n) l lo hi fuel (omega arith)
            ∙ after.1,
        got_then v x out bytes offset (suc n) l lo hi after.0
            (got_filled v x out bytes offset (suc n) l lo hi first) after.2,
      )
