-- ===== src/Fat32/Growth.antt =====
-- One more cluster for a chain: it is taken, and the last cluster so far is linked to it.
use mathlib.Core.Path.{subst}
use text_os.Common.{
  ℕ, ◌+◌, ◌*◌, ◌≤◌, ◌<◌, ◌≡◌, ◌≢◌, ◌⊎◌, refl, sym, ◌∙◌, ap, true, List, [], ◌∷◌, ◌++◌, All,
  All-append, arith,
}
use text_os.Drive.{Drive, IsReliable}
use text_os.Fat32.{Volume, max_clusters, write_fat_entry, fat_end_of_chain}
use text_os.Fat32.Geometry.{Laid, entry, byte_at, max_clusters_lem, cluster_start}
use text_os.Fat32.Entries.{IsEntryWritten, write_fat_entry-IsEntryWritten}
use text_os.Fat32.Links.{
  IsSameLayout, IsSameLayout-trans, same_max, same-Laid, Absent, Linked, Linked-kept, Linked-snoc,
  Linked-All,
}
use text_os.Fat32.Release.{only_drive-IsSameLayout}
use text_os.Fat32.Taking.{IsTaken}

-- The address lies outside the cluster.
abbrev pub Outside : {D : Drive} → Volume D → ℕ → ℕ → Type 0
Outside v a c = (a < cluster_start v c) ⊎ (cluster_start v c + v.fat32_bpb.sec_per_clus * 512 ≤ a)

module _ {D : Drive} (R : IsReliable D) where
  abbrev pub HintInRange : Volume D → Type 0
  HintInRange v = (2 ≤ v.next_free_cluster) × (v.next_free_cluster ≤ max_clusters v)

  -- Between `v` and `w` a chain was allocated: from `first` through `ys` to `last`, which ends it.
  pub record IsGrown (v w : Volume D) (first : ℕ) (ys : List ℕ) (last : ℕ) : Type 0 where
    pub layout : IsSameLayout v w
    pub quiet : w.printed ≡ v.printed
    pub hint : HintInRange w
    pub linked : Linked R w first ys last
    pub last_range : (2 ≤ last) × (last < max_clusters v)
    pub last_new : Absent last ys
    pub last_marked : entry R w last ≡ fat_end_of_chain
    pub taken : All (λ y. entry R w y ≢ 0) ys
    pub were_free : All (λ y. entry R v y ≡ 0) (ys ++ last ∷ [])
    pub kept : (d : ℕ) → d < max_clusters v → Absent d (ys ++ last ∷ []) → entry R w d ≡ entry R v d
    pub data_kept :
        (a : ℕ)
        → v.data_start_sector * 512 ≤ a
        → All (Outside v a) (ys ++ last ∷ [])
        → byte_at R w a ≡ byte_at R v a

  pub IsTaken-IsGrown : (v w : Volume D) (c : ℕ) → IsTaken R v w c → IsGrown v w c [] c
  IsTaken-IsGrown v w c t = record {
    layout = t.layout;
    quiet = t.quiet;
    hint = omega (arith, t.hint_next, t.in_range, same_max v w t.layout);
    linked = refl;
    last_range = t.in_range;
    last_new = tt;
    last_marked = t.marked;
    taken = tt;
    were_free = (t.was_free, tt);
    kept = λ d less absent. t.kept d less absent.0;
    data_kept = λ a high outside. t.data_kept a high outside.0;
  }

  -- A cluster that is free is not in a list of clusters that are not.
  free-Absent : (c : ℕ) (ys : List ℕ) (f : ℕ → ℕ) → f c ≡ 0 → All (λ y. f y ≢ 0) ys → Absent c ys
  free-Absent c [] f free h = tt
  free-Absent c (y ∷ ys) f free (ne, h) =
      ((λ e. ne (ap f (sym e) ∙ free)), free-Absent c ys f free h)

  All-last : (P : ℕ → Type 0) (ys : List ℕ) (y : ℕ) → All P (ys ++ y ∷ []) → All P ys × P y
  All-last P [] y (p, h) = (tt, p)
  All-last P (x ∷ ys) y (p, h) = let rest = All-last P ys y h in ((p, rest.0), rest.1)

  nonzero_kept :
      (f g : ℕ → ℕ) (ys : List ℕ)
      → All (λ y. g y ≡ f y) ys
      → All (λ y. f y ≢ 0) ys
      → All (λ y. g y ≢ 0) ys
  nonzero_kept f g [] e h = tt
  nonzero_kept f g (y ∷ ys) (e, es) (ne, h) = ((λ z. ne (sym e ∙ z)), nonzero_kept f g ys es h)

  pub same-Outside : (v w : Volume D) (a c : ℕ) → IsSameLayout v w → Outside v a c → Outside w a c
  unfolding cluster_start
  same-Outside v w a c s o = rw (s.same_bpb, s.same_data) o

  module _ (v w u : Volume D) (first : ℕ) (ys : List ℕ) (last c : ℕ) (l : Laid R v)
      (g : IsGrown v w first ys last) (t : IsTaken R w u c) where
    abbrev linked_volume : Volume D
    linked_volume = (write_fat_entry u last c).1

    whole : IsSameLayout v u
    whole = IsSameLayout-trans v w u g.layout t.layout

    pub link : ((write_fat_entry u last c).0 ≡ true) × IsEntryWritten R u linked_volume last c
    link =
        write_fat_entry-IsEntryWritten R u last c (same-Laid R v u whole l) g.last_range.0
          (omega (arith, same_max v u whole, g.last_range))

    apart : c ≢ last
    apart e = absurd (omega (arith, t.was_free, ap (entry R w) e, g.last_marked))

    absent : Absent c ys
    absent = free-Absent c ys (entry R w) t.was_free g.taken

    in_new : Absent c (ys ++ last ∷ [])
    in_new = All-append (λ y. c ≢ y) ys (last ∷ []) absent (apart, tt)

    max_w : max_clusters w ≡ max_clusters v
    max_w = same_max v w g.layout

    max_u : max_clusters u ≡ max_clusters v
    max_u = same_max v u whole

    after_take : All (λ y. entry R u y ≡ entry R w y) ys
    after_take =
        Linked-All R w first ys last c (λ y. entry R u y ≡ entry R w y)
          (λ d lo hi ne. t.kept d hi ne) absent g.linked

    after_take-Linked : Linked R u first ys last
    after_take-Linked = Linked-kept R w u first ys last (same_max w u t.layout) after_take g.linked

    after_link : All (λ y. entry R linked_volume y ≡ entry R u y) ys
    after_link =
        Linked-All R u first ys last last (λ y. entry R linked_volume y ≡ entry R u y)
          (λ d lo hi ne. link.1.entries_kept d hi ne) g.last_new after_take-Linked

    link_layout : IsSameLayout u linked_volume
    link_layout = only_drive-IsSameLayout R u linked_volume link.1.only_drive

    to_c : entry R linked_volume last ≡ c
    to_c =
        link.1.entry_written ∙ omega (arith, t.in_range, max_clusters_lem R v l, max_w, l.numbered)

    new-Linked : Linked R linked_volume first (ys ++ last ∷ []) c
    new-Linked =
        subst (λ e. Linked R linked_volume first (ys ++ last ∷ []) e) to_c
          (Linked-snoc R linked_volume first ys last
            (Linked-kept R u linked_volume first ys last (same_max u linked_volume link_layout)
              after_link after_take-Linked)
            g.last_range.0
            (omega (arith, g.last_range, max_u, same_max u linked_volume link_layout)) g.last_new)

    new_entry :
        (d : ℕ) → d < max_clusters v → d ≢ c → d ≢ last → entry R linked_volume d ≡ entry R w d
    new_entry d less nc nl =
        link.1.entries_kept d (omega (arith, max_u)) nl ∙ t.kept d (omega (arith, max_w)) nc

    pub grown : IsGrown v linked_volume first (ys ++ last ∷ []) c
    grown = record {
      layout = IsSameLayout-trans v u linked_volume whole link_layout;
      quiet = ap (λ (x : Volume D). x.printed) link.1.only_drive ∙ t.quiet ∙ g.quiet;
      hint = omega (
        arith,
        ap (λ (x : Volume D). x.next_free_cluster) link.1.only_drive,
        t.hint_next,
        t.in_range,
        max_w,
        max_u,
        same_max u linked_volume link_layout,
      );
      linked = new-Linked;
      last_range = omega (arith, t.in_range, max_w);
      last_new = in_new;
      last_marked =
          link.1.entries_kept c (omega (arith, t.in_range, max_w, max_u)) apart ∙ t.marked;
      taken =
          All-append (λ y. entry R linked_volume y ≢ 0) ys (last ∷ [])
            (nonzero_kept (entry R u) (entry R linked_volume) ys after_link
              (nonzero_kept (entry R w) (entry R u) ys after_take g.taken))
            ((λ z. absurd (omega (arith, t.in_range, to_c))), tt);
      were_free =
          All-append (λ y. entry R v y ≡ 0) (ys ++ last ∷ []) (c ∷ []) g.were_free
            ((sym (g.kept c (omega (arith, t.in_range, max_w)) in_new) ∙ t.was_free), tt);
      kept = λ d less away.
          let parts = All-last (λ y. d ≢ y) (ys ++ last ∷ []) c away in
          new_entry d less parts.1 (All-last (λ y. d ≢ y) ys last parts.0).1
          ∙ g.kept d less parts.0;
      data_kept = λ a high away.
          let parts = All-last (Outside v a) (ys ++ last ∷ []) c away in
          link.1.data_kept a (subst (λ n. n * 512 ≤ a) (sym whole.same_data) high)
          ∙ t.data_kept a (subst (λ n. n * 512 ≤ a) (sym g.layout.same_data) high)
              (same-Outside v w a c g.layout parts.1)
          ∙ g.data_kept a high parts.0;
    }
