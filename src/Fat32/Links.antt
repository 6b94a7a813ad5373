-- ===== src/Fat32/Links.antt =====
-- Chains of clusters through the table, and what keeps them.
use mathlib.Core.Path.{subst}
use text_os.Common.{
  ℕ, ◌≤◌, ◌<◌, ◌≡◌, ◌≢◌, refl, sym, ◌∙◌, false, List, [], ◌∷◌, ◌++◌, All, All-append, arith,
}
use text_os.Drive.{Drive, IsReliable}
use text_os.Fat32.{Volume, max_clusters}
use text_os.Fat32.Geometry.{Laid, IsLaidOut, entry}
use text_os.Fat32.Chains.{in_chain}

abbrev pub Absent : ℕ → List ℕ → Type 0
Absent d xs = All (λ x. d ≢ x) xs

-- The layout and the directory are the same; the drive, the hint and the messages may not be.
pub record IsSameLayout {D : Drive} (v w : Volume D) : Type 0 where
  pub same_bpb : w.fat32_bpb ≡ v.fat32_bpb
  pub same_fat : w.fat_start_sector ≡ v.fat_start_sector
  pub same_data : w.data_start_sector ≡ v.data_start_sector
  pub same_directory : w.current_directory_cluster ≡ v.current_directory_cluster

pub IsSameLayout-refl : {D : Drive} (v : Volume D) → IsSameLayout v v
IsSameLayout-refl v = record {
  same_bpb = refl;
  same_fat = refl;
  same_data = refl;
  same_directory = refl;
}

pub IsSameLayout-sym : {D : Drive} (v w : Volume D) → IsSameLayout v w → IsSameLayout w v
IsSameLayout-sym v w s = record {
  same_bpb = sym s.same_bpb;
  same_fat = sym s.same_fat;
  same_data = sym s.same_data;
  same_directory = sym s.same_directory;
}

pub IsSameLayout-trans :
    {D : Drive} (u v w : Volume D) → IsSameLayout u v → IsSameLayout v w → IsSameLayout u w
IsSameLayout-trans u v w p q = record {
  same_bpb = q.same_bpb ∙ p.same_bpb;
  same_fat = q.same_fat ∙ p.same_fat;
  same_data = q.same_data ∙ p.same_data;
  same_directory = q.same_directory ∙ p.same_directory;
}

module _ {D : Drive} where
  pub same_max : (v w : Volume D) → IsSameLayout v w → max_clusters w ≡ max_clusters v
  same_max v w s = simp (s.same_bpb, s.same_data) refl

module _ {D : Drive} (R : IsReliable D) where
  pub same-Laid : (v w : Volume D) → IsSameLayout v w → Laid R v → Laid R w
  same-Laid v w s l =
      subst (λ b. IsLaidOut R.capacity b w.fat_start_sector w.data_start_sector) (sym s.same_bpb)
        (subst (λ n. IsLaidOut R.capacity v.fat32_bpb n w.data_start_sector) (sym s.same_fat)
          (subst (λ n. IsLaidOut R.capacity v.fat32_bpb v.fat_start_sector n) (sym s.same_data) l))

  -- The table leads from the cluster `c` through the clusters of the list, all different, to `e`.
  abbrev pub Linked : Volume D → ℕ → List ℕ → ℕ → Type 0
  Linked v c [] e = c ≡ e
  Linked v c (x ∷ xs) e =
      (c ≡ x) × (2 ≤ x) × (x < max_clusters v) × Absent x xs × Linked v (entry R v x) xs e

  -- The list has the clusters of the chain that starts with `c`, in their order.
  abbrev pub IsChain : Volume D → ℕ → List ℕ → Type 0
  IsChain v c xs = (e : ℕ) × Linked v c xs e × (in_chain e ≡ false)

  -- A chain whose entries are kept stays one.
  pub Linked-kept :
      (v w : Volume D) (c : ℕ) (xs : List ℕ) (e : ℕ)
      → max_clusters w ≡ max_clusters v
      → All (λ x. entry R w x ≡ entry R v x) xs
      → Linked v c xs e
      → Linked w c xs e
  Linked-kept v w c [] e m k h = h
  Linked-kept v w c (x ∷ xs) e m (k, ks) (here, lo, hi, absent, rest) = (
    here,
    lo,
    omega arith,
    absent,
    Linked-kept v w (entry R w x) xs e m ks (subst (λ n. Linked v n xs e) (sym k) rest),
  )

  -- One more cluster at the end.
  pub Linked-snoc :
      (v : Volume D) (c : ℕ) (xs : List ℕ) (e : ℕ)
      → Linked v c xs e
      → 2 ≤ e
      → e < max_clusters v
      → Absent e xs
      → Linked v c (xs ++ e ∷ []) (entry R v e)
  Linked-snoc v c [] e h lo hi a = (h, lo, hi, tt, refl)
  Linked-snoc v c (x ∷ xs) e (here, lo', hi', absent, rest) lo hi (ne, a) = (
    here,
    lo',
    hi',
    All-append (λ y. x ≢ y) xs (e ∷ []) absent ((λ q. ne (sym q)), tt),
    Linked-snoc v (entry R v x) xs e rest lo hi a,
  )

  -- What holds of each cluster but one holds of those of a chain away from it.
  pub Linked-All :
      (v : Volume D) (c : ℕ) (xs : List ℕ) (e n : ℕ) (P : ℕ → Type 0)
      → ((d : ℕ) → 2 ≤ d → d < max_clusters v → d ≢ n → P d)
      → Absent n xs
      → Linked v c xs e
      → All P xs
  Linked-All v c [] e n P f a h = tt
  Linked-All v c (x ∷ xs) e n P f (ne, a) (here, lo, hi, absent, h) =
      (f x lo hi (λ q. ne (sym q)), Linked-All v (entry R v x) xs e n P f a h)
