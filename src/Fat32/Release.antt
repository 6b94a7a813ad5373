-- ===== src/Fat32/Release.antt =====
-- `free_cluster_chain` frees exactly the clusters of a chain.
use mathlib.Core.Path.{subst}
use text_os.Common.{
  ℕ, zero, suc, ◌*◌, ◌≤◌, ◌<◌, ◌≡◌, refl, sym, ◌∙◌, ap, true, false, some, List, [], ◌∷◌, All,
  arith, length, ltb, min, if◌then◌else◌, lt→ltb, le→leb, le→ltb, dec_lt,
}
use text_os.Drive.{Drive, IsReliable}
use text_os.Fat32.{Volume, max_clusters, write_fat_entry}
use text_os.Fat32.Geometry.{Laid, entry, byte_at, max_clusters_lem}
use text_os.Fat32.Entries.{IsEntryWritten, write_fat_entry-IsEntryWritten, read_fat_entry_lem}
use text_os.Fat32.Chains.{in_chain, free_one, free_cluster_chain}
use text_os.Fat32.Links.{
  IsSameLayout, IsSameLayout-trans, same_max, same-Laid, Absent, Linked, IsChain, Linked-kept,
  Linked-All,
}

-- The smallest of a hint and the clusters of a list.
abbrev pub lowest : ℕ → List ℕ → ℕ
lowest hint [] = hint
lowest hint (x ∷ xs) = lowest (min hint x) xs

module _ {D : Drive} (R : IsReliable D) where
  -- From `v` to `w` the clusters of the list were freed, and nothing else changed but the hint.
  pub record IsFreed (v w : Volume D) (xs : List ℕ) : Type 0 where
    pub layout : IsSameLayout v w
    pub quiet : w.printed ≡ v.printed
    pub hint_lowered : w.next_free_cluster ≡ lowest v.next_free_cluster xs
    pub freed : All (λ x. entry R w x ≡ 0) xs
    pub kept : (d : ℕ) → d < max_clusters v → Absent d xs → entry R w d ≡ entry R v d
    pub data_kept : (a : ℕ) → v.data_start_sector * 512 ≤ a → byte_at R w a ≡ byte_at R v a

  pub only_drive-IsSameLayout :
      (v w : Volume D) → w ≡ record v { drive = w.drive } → IsSameLayout v w
  only_drive-IsSameLayout v w p = record {
    same_bpb = ap (λ (u : Volume D). u.fat32_bpb) p;
    same_fat = ap (λ (u : Volume D). u.fat_start_sector) p;
    same_data = ap (λ (u : Volume D). u.data_start_sector) p;
    same_directory = ap (λ (u : Volume D). u.current_directory_cluster) p;
  }

  abbrev hinted : Volume D → ℕ → Volume D
  hinted w x = if ltb x w.next_free_cluster then record w { next_free_cluster = x } else w

  with_hint-IsFreed :
      (v w : Volume D) (x n : ℕ)
      → IsEntryWritten R v w x 0
      → n ≡ min v.next_free_cluster x
      → IsFreed v (record w { next_free_cluster = n }) (x ∷ [])
  unfolding entry
  with_hint-IsFreed v w x n e low =
      let same = only_drive-IsSameLayout v w e.only_drive in
      record {
        layout = record {
          same_bpb = same.same_bpb;
          same_fat = same.same_fat;
          same_data = same.same_data;
          same_directory = same.same_directory;
        };
        quiet = ap (λ (u : Volume D). u.printed) e.only_drive;
        hint_lowered = low;
        freed = (e.entry_written, tt);
        kept = λ d less absent. e.entries_kept d less absent.0;
        data_kept = e.data_kept;
      }

  hinted-IsFreed :
      (v w : Volume D) (x : ℕ) → IsEntryWritten R v w x 0 → IsFreed v (hinted w x) (x ∷ [])
  hinted-IsFreed v w x e =
      let hint = ap (λ (u : Volume D). u.next_free_cluster) e.only_drive in
      elim (dec_lt x w.next_free_cluster) [
        | yes low ↦
            rw (lt→ltb x w.next_free_cluster low) (with_hint-IsFreed v w x x e (omega arith))
        | no high ↦
            rw (le→ltb x w.next_free_cluster (omega arith))
              (with_hint-IsFreed v w x w.next_free_cluster e (omega arith))
      ]

  pub in_chain-cluster :
      (v : Volume D) (x : ℕ) → Laid R v → 2 ≤ x → x < max_clusters v → in_chain x ≡ true
  unfolding in_chain
  in_chain-cluster v x l lo hi =
      let mark : x < 0x0FFFFFF7 = omega (arith, l.numbered, max_clusters_lem R v l) in
      rw (le→leb 2 x lo, lt→ltb x 0x0FFFFFF7 mark) refl

  free_one-IsFreed :
      (v : Volume D) (x : ℕ)
      → Laid R v
      → 2 ≤ x
      → x < max_clusters v
      → IsFreed v (free_one v x) (x ∷ [])
  unfolding free_one
  free_one-IsFreed v x l lo hi =
      let written = write_fat_entry-IsEntryWritten R v x 0 l lo hi in
      rw (written.0) (hinted-IsFreed v (write_fat_entry v x 0).1 x written.1)

  IsFreed-then :
      (v w u : Volume D) (x : ℕ) (xs : List ℕ)
      → x < max_clusters v
      → Absent x xs
      → IsFreed v w (x ∷ [])
      → IsFreed w u xs
      → IsFreed v u (x ∷ xs)
  IsFreed-then v w u x xs hi a p q = record {
    layout = IsSameLayout-trans v w u p.layout q.layout;
    quiet = q.quiet ∙ p.quiet;
    hint_lowered = q.hint_lowered ∙ ap (λ h. lowest h xs) p.hint_lowered;
    freed = (q.kept x (omega (arith, same_max v w p.layout)) a ∙ p.freed.0, q.freed);
    kept = λ d less (ne, absent).
        q.kept d (omega (arith, same_max v w p.layout)) absent ∙ p.kept d less (ne, tt);
    data_kept = λ b high.
        q.data_kept b (subst (λ n. n * 512 ≤ b) (sym p.layout.same_data) high) ∙ p.data_kept b high;
  }

  free-Linked :
      (fuel : ℕ) (v : Volume D) (c : ℕ) (xs : List ℕ) (e : ℕ)
      → Laid R v
      → Linked R v c xs e
      → in_chain e ≡ false
      → length xs < fuel
      → (w : Volume D) × (free_cluster_chain fuel v c ≡ some w) × IsFreed v w xs
  unfolding free_cluster_chain
  free-Linked zero v c xs e l h stop lt = absurd (omega arith)
  free-Linked (suc fuel) v c [] e l h stop lt = (
    v,
    rw (h, stop) refl,
    record {
      layout = record { same_bpb = refl; same_fat = refl; same_data = refl; same_directory = refl };
      quiet = refl;
      hint_lowered = refl;
      freed = tt;
      kept = λ d less absent. refl;
      data_kept = λ a high. refl;
    },
  )
  free-Linked (suc fuel) v c (x ∷ xs) e l (here, lo, hi, a, h) stop lt =
      let first = free_one-IsFreed v x l lo hi in
      let next = free_one v x in
      let same = same_max v next first.layout in
      let entries =
        Linked-All R v (entry R v x) xs e x (λ d. entry R next d ≡ entry R v d)
          (λ d p q ne. first.kept d q (ne, tt)) a h in
      let moved = Linked-kept R v next (entry R v x) xs e same entries h in
      let after =
        free-Linked fuel next (entry R v x) xs e (same-Laid R v next first.layout l) moved stop
          (omega arith) in
      (
        after.0,
        rw (here, in_chain-cluster v x l lo hi, read_fat_entry_lem R v x l lo hi) after.1,
        IsFreed-then v next after.0 x xs hi a first after.2,
      )

  -- Given more fuel than the chain has clusters, `free_cluster_chain` ends: it frees every cluster of the
  -- chain, changes no other entry and no byte of the data, lowers the hint to the smallest of them, and
  -- prints no warning.
  pub free_cluster_chain-IsFreed :
      (fuel : ℕ) (v : Volume D) (c : ℕ) (xs : List ℕ)
      → Laid R v
      → IsChain R v c xs
      → length xs < fuel
      → (w : Volume D) × (free_cluster_chain fuel v c ≡ some w) × IsFreed v w xs
  free_cluster_chain-IsFreed fuel v c xs l (e, h, stop) lt = free-Linked fuel v c xs e l h stop lt
