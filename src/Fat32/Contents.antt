-- ===== src/Fat32/Contents.antt =====
-- What a chain of clusters holds, and that `write_data_to_clusters` makes it hold the data.
use mathlib.Core.Path.{subst}
use text_os.Common.{
  ℕ, zero, suc, ◌+◌, ◌-◌, ◌*◌, ◌/◌, ◌≤◌, ◌<◌, ◌≡◌, ◌≢◌, ◌⊎◌, inl, inr, refl, sym, ◌∙◌, ap, false,
  true, some, List, [], ◌∷◌, length, All, arith, lt→ltb, dec_lt,
}
use text_os.Memory.{Memory}
use text_os.Drive.{Drive, IsReliable}
use text_os.Fat32.{Volume, max_clusters, read_fat_entry}
use text_os.Fat32.Geometry.{Laid, entry, byte_at, cluster_start, clusters-apart}
use text_os.Fat32.Entries.{read_fat_entry_lem}
use text_os.Fat32.Chains.{in_chain, cluster_size}
use text_os.Fat32.Data.{portion, write_cluster, write_data_to_clusters}
use text_os.Fat32.Links.{
  IsSameLayout, IsSameLayout-trans, same_max, same-Laid, Absent, Linked, Linked-kept, Linked-All,
}
use text_os.Fat32.Release.{only_drive-IsSameLayout, in_chain-cluster}
use text_os.Fat32.Taking.{entry-agree}
use text_os.Fat32.Growth.{Outside, same-Outside}
use text_os.Fat32.Writing.{IsPut, write_cluster-IsPut, portion_lem}

abbrev pub cluster_bytes : {D : Drive} → Volume D → ℕ
cluster_bytes v = v.fat32_bpb.sec_per_clus * 512

module _ {D : Drive} (R : IsReliable D) where
  -- The clusters of the list hold, one after the other, the `n` bytes of the data from the offset on.
  unfoldable pub Holds : Volume D → List ℕ → Memory → ℕ → ℕ → Type 0
  Holds v [] bytes offset n = n ≡ 0
  Holds v (x ∷ xs) bytes offset n =
      ((i : ℕ)
        → i < n
        → i < cluster_bytes v
        → byte_at R v (cluster_start v x + i) ≡ bytes (offset + i))
      × Holds v xs bytes (offset + cluster_bytes v) (n - cluster_bytes v)

  pub Holds-nothing :
      (v : Volume D) (xs : List ℕ) (bytes : Memory) (offset : ℕ) → Holds v xs bytes offset 0
  unfolding Holds
  Holds-nothing v [] bytes offset = refl
  Holds-nothing v (x ∷ xs) bytes offset = (
    (λ i lt inside. absurd (omega arith)),
    subst (Holds v xs bytes (offset + cluster_bytes v)) (omega arith)
        (Holds-nothing v xs bytes (offset + cluster_bytes v)),
  )

  -- From `v` to `w` the data went to the clusters of the list; nothing else changed.
  pub record IsStored (v w : Volume D) (xs : List ℕ) (bytes : Memory) (offset n : ℕ) : Type 0 where
    pub only_drive : w ≡ record v { drive = w.drive }
    pub entries : (d : ℕ) → d < max_clusters v → entry R w d ≡ entry R v d
    pub holds : Holds w xs bytes offset n
    pub kept :
        (a : ℕ)
        → v.data_start_sector * 512 ≤ a
        → All (Outside v a) xs
        → byte_at R w a ≡ byte_at R v a

  pub moved-Outside :
      (v w : Volume D) (a : ℕ) (xs : List ℕ)
      → IsSameLayout v w
      → All (Outside v a) xs
      → All (Outside w a) xs
  moved-Outside v w a [] s h = tt
  moved-Outside v w a (x ∷ xs) s (o, h) = (same-Outside R v w a x s o, moved-Outside v w a xs s h)

  pub same_bytes : (v w : Volume D) → IsSameLayout v w → cluster_bytes w ≡ cluster_bytes v
  same_bytes v w s = simp (s.same_bpb) refl

  pub same_start :
      (v w : Volume D) (x : ℕ) → IsSameLayout v w → cluster_start w x ≡ cluster_start v x
  unfolding cluster_start
  same_start v w x s = simp (s.same_bpb, s.same_data) refl

  pub start_high : (v : Volume D) (x i : ℕ) → v.data_start_sector * 512 ≤ cluster_start v x + i
  unfolding cluster_start
  start_high v x i = omega arith

  -- An address in one cluster lies outside the others of a chain.
  pub others-Outside :
      (v : Volume D) (c : ℕ) (xs : List ℕ) (e x i : ℕ)
      → 2 ≤ x
      → i < cluster_bytes v
      → Absent x xs
      → Linked R v c xs e
      → All (Outside v (cluster_start v x + i)) xs
  others-Outside v c xs e x i lo lt absent h =
      Linked-All R v c xs e x (Outside v (cluster_start v x + i)) (λ d low high ne. apart d low ne)
        absent h
    where
      apart : (d : ℕ) → 2 ≤ d → d ≢ x → Outside v (cluster_start v x + i) d
      apart d low ne = elim (dec_lt d x) [
        | yes below ↦ inr (omega (arith, clusters-apart R v d x below low))
        | no above ↦ inl (omega (arith, clusters-apart R v x d (omega arith) lo))
      ]

  module _ (v : Volume D) (x : ℕ) (bytes : Memory) (offset n : ℕ) (l : Laid R v) (lo : 2 ≤ x)
      (hi : x < max_clusters v) where
    abbrev part : ℕ
    part = portion (cluster_size v) n

    part_size :
        ((n ≤ cluster_bytes v) × (part ≡ n)) ⊎ ((cluster_bytes v < n) × (part ≡ cluster_bytes v))
    part_size = portion_lem R v n l

    abbrev put_volume : Volume D
    put_volume = (write_cluster v x bytes offset part).1

    put :
        ((write_cluster v x bytes offset part).0 ≡ true) × IsPut R v put_volume x bytes offset part
    put = write_cluster-IsPut R v x bytes offset part l lo hi (omega (arith, part_size))

    put_layout : IsSameLayout v put_volume
    put_layout = only_drive-IsSameLayout R v put_volume put.1.only_drive

    put_entries : (d : ℕ) → d < max_clusters v → entry R put_volume d ≡ entry R v d
    unfolding cluster_start
    put_entries d less =
        entry-agree R v put_volume d l put_layout.same_fat
          (λ a below. put.1.kept a (inl (omega arith))) less

    put-Linked :
        (xs : List ℕ) (e : ℕ)
        → Absent x xs
        → Linked R v (entry R v x) xs e
        → Linked R put_volume (entry R v x) xs e
    put-Linked xs e absent h =
        Linked-kept R v put_volume (entry R v x) xs e (same_max v put_volume put_layout)
          (Linked-All R v (entry R v x) xs e x (λ y. entry R put_volume y ≡ entry R v y)
            (λ d low high ne. put_entries d high) absent h)
          h

    put_next : read_fat_entry put_volume x ≡ entry R v x
    put_next =
        read_fat_entry_lem R put_volume x (same-Laid R v put_volume put_layout l) lo
          (omega (arith, same_max v put_volume put_layout))
        ∙ put_entries x hi

    put_step :
        (fuel : ℕ)
        → 0 < n
        → write_data_to_clusters (suc fuel) v x bytes offset n
          ≡ write_data_to_clusters fuel put_volume
              (entry R v x)
              bytes
              (offset + part / 512 * 512)
              (n - part)
    unfolding write_data_to_clusters
    put_step fuel some_left =
        rw (in_chain-cluster R v x l lo hi, lt→ltb 0 n some_left, put.0, put_next) refl

    -- The first cluster and the others together.
    IsStored-then :
        (w : Volume D) (xs : List ℕ) (e : ℕ)
        → Absent x xs
        → Linked R v (entry R v x) xs e
        → IsStored put_volume w xs bytes (offset + part / 512 * 512) (n - part)
        → IsStored v w (x ∷ xs) bytes offset n
    unfolding Holds
    IsStored-then w xs e absent h s = record {
      only_drive =
          s.only_drive ∙ ap (λ (u : Volume D). record u { drive = w.drive }) put.1.only_drive;
      entries = λ d less.
          s.entries d (omega (arith, same_max v put_volume put_layout)) ∙ put_entries d less;
      holds = (first, others part_size);
      kept = λ a high away.
          s.kept a (subst (λ k. k * 512 ≤ a) (sym put_layout.same_data) high)
            (moved-Outside v put_volume a xs put_layout away.1)
          ∙ put.1.kept a away.0;
    }
      where
        layout : IsSameLayout v w
        layout =
            IsSameLayout-trans v put_volume w put_layout
              (only_drive-IsSameLayout R put_volume w s.only_drive)

        bytes_same : cluster_bytes w ≡ cluster_bytes v
        bytes_same = same_bytes v w layout

        first :
            (i : ℕ)
            → i < n
            → i < cluster_bytes w
            → byte_at R w (cluster_start w x + i) ≡ bytes (offset + i)
        first i lt inside =
            let place = cluster_start v x + i in
            let high : put_volume.data_start_sector * 512 ≤ place =
              subst (λ k. k * 512 ≤ place) (sym put_layout.same_data) (start_high v x i) in
            ap (λ k. byte_at R w (k + i)) (same_start v w x layout)
            ∙ s.kept place high (
                moved-Outside v put_volume place xs put_layout
                  (others-Outside v (entry R v x) xs e x i lo (omega (arith, bytes_same)) absent h))
            ∙ put.1.put i (omega (arith, part_size, bytes_same))

        others :
            ((n ≤ cluster_bytes v) × (part ≡ n))
              ⊎ ((cluster_bytes v < n) × (part ≡ cluster_bytes v))
            → Holds w xs bytes (offset + cluster_bytes w) (n - cluster_bytes w)
        others (inl (less, same)) =
            subst (Holds w xs bytes (offset + cluster_bytes w)) (omega (arith, bytes_same))
              (Holds-nothing w xs bytes (offset + cluster_bytes w))
        others (inr (more, same)) =
            subst (λ k. Holds w xs bytes k (n - cluster_bytes w)) (omega (arith, bytes_same))
              (subst (λ k. Holds w xs bytes (offset + part / 512 * 512) k)
                (omega (arith, bytes_same)) s.holds)

  pub write_data-IsStored :
      (fuel : ℕ) (v : Volume D) (c : ℕ) (xs : List ℕ) (e : ℕ) (bytes : Memory) (offset n : ℕ)
      → Laid R v
      → Linked R v c xs e
      → in_chain e ≡ false
      → length xs < fuel
      → n ≤ length xs * cluster_bytes v
      → (w : Volume D) × (write_data_to_clusters fuel v c bytes offset n ≡ some (true, w))
        × IsStored v w xs bytes offset n
  unfolding write_data_to_clusters Holds
  write_data-IsStored zero v c xs e bytes offset n l h stop lt room = absurd (omega arith)
  write_data-IsStored (suc fuel) v c [] e bytes offset n l h stop lt room =
      let none : n ≡ 0 = omega arith in
      (
        v,
        rw (h, stop, none) refl,
        record {
          only_drive = refl;
          entries = λ d less. refl;
          holds = none;
          kept = λ a high away. refl;
        },
      )
  write_data-IsStored (suc fuel) v c (x ∷ xs) e bytes offset zero l (here, lo, hi, absent, h) stop
        lt room =
      (
        v,
        rw (here, in_chain-cluster R v x l lo hi) refl,
        record {
          only_drive = refl;
          entries = λ d less. refl;
          holds = Holds-nothing v (x ∷ xs) bytes offset;
          kept = λ a high away. refl;
        },
      )
  write_data-IsStored (suc fuel) v c (x ∷ xs) e bytes offset (suc n) l (here, lo, hi, absent, h)
        stop lt room =
      let u = put_volume v x bytes offset (suc n) l lo hi in
      let m = part v x bytes offset (suc n) l lo hi in
      let same = put_layout v x bytes offset (suc n) l lo hi in
      let laid = same-Laid R v u same l in
      let after =
        write_data-IsStored fuel u (entry R v x) xs e bytes (offset + m / 512 * 512) (suc n - m)
          laid (put-Linked v x bytes offset (suc n) l lo hi xs e absent h) stop (omega arith)
          (subst (λ k. suc n - m ≤ length xs * k) (sym (same_bytes v u same))
            (omega (arith, part_size v x bytes offset (suc n) l lo hi))) in
      (
        after.0,
        ap (λ k. write_data_to_clusters (suc fuel) v k bytes offset (suc n)) here
            ∙ put_step v x bytes offset (suc n) l lo hi fuel (omega arith)
            ∙ after.1,
        IsStored-then v x bytes offset (suc n) l lo hi after.0 xs e absent h after.2,
      )
