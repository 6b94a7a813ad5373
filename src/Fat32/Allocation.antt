-- ===== src/Fat32/Allocation.antt =====
-- `allocate_cluster_chain`: a chain of as many clusters as were asked for, or none and the table as before.
use mathlib.Core.Path.{subst}
use text_os.Common.{
  ℕ, zero, suc, ◌+◌, ◌-◌, ◌*◌, ◌≤◌, ◌<◌, ◌≡◌, ◌≢◌, refl, sym, ◌∙◌, ap, not, Option, some, List, [],
  ◌∷◌, ◌++◌, length, length-append, All, arith, if◌then◌else◌, ◌==◌, ne→==, ℕ_discrete, codes,
}
use text_os.Drive.{Drive, IsReliable}
use text_os.Fat32.{Volume, text, say, max_clusters, write_fat_entry}
use text_os.Fat32.Geometry.{Laid, entry, byte_at}
use text_os.Fat32.Search.{AllUsed}
use text_os.Fat32.Chains.{in_chain, give_up, extend_chain, allocate_cluster, allocate_cluster_chain}
use text_os.Fat32.Links.{
  IsSameLayout, IsSameLayout-trans, same_max, same-Laid, Absent, IsChain, Linked-kept, Linked-snoc,
}
use text_os.Fat32.Release.{IsFreed, free_cluster_chain-IsFreed}
use text_os.Fat32.Taking.{Allocated, taken, no_room, full_text, allocate_cluster-Allocated}
use text_os.Fat32.Growth.{Outside, HintInRange, IsGrown, IsTaken-IsGrown, grown, link}

module _ {D : Drive} (R : IsReliable D) where
  -- From `v` to `w` the clusters of the list, all of them free before, became the chain of `first`; no
  -- other entry and no byte of another cluster changed.
  pub record IsChainTaken (v w : Volume D) (first : ℕ) (xs : List ℕ) : Type 0 where
    pub layout : IsSameLayout v w
    pub quiet : w.printed ≡ v.printed
    pub hint : HintInRange R w
    pub chain : IsChain R w first xs
    pub were_free : All (λ x. entry R v x ≡ 0) xs
    pub kept : (d : ℕ) → d < max_clusters v → Absent d xs → entry R w d ≡ entry R v d
    pub data_kept :
        (a : ℕ)
        → v.data_start_sector * 512 ≤ a
        → All (Outside v a) xs
        → byte_at R w a ≡ byte_at R v a

  -- The table of `w` is that of `v`, and the shortage was reported.
  pub record IsRolledBack (v w : Volume D) : Type 0 where
    pub layout : IsSameLayout v w
    pub reported : w.printed ≡ v.printed ++ full_text
    pub entries : (d : ℕ) → 2 ≤ d → d < max_clusters v → entry R w d ≡ entry R v d

  -- Every free cluster is in the list.
  abbrev pub HasAllFree : Volume D → List ℕ → Type 0
  HasAllFree v xs = (d : ℕ) → 2 ≤ d → d < max_clusters v → Absent d xs → entry R v d ≢ 0

  pub data ChainAllocated (v : Volume D) (n : ℕ) : Option (ℕ × Volume D) → Type 0 where
    allocated :
        {first : ℕ} {w : Volume D} (xs : List ℕ)
        → length xs ≡ n
        → IsChainTaken v w first xs
        → ChainAllocated v n (some (first, w))
    rolled_back :
        {w : Volume D} (xs : List ℕ)
        → length xs < n
        → HasAllFree v xs
        → IsRolledBack v w
        → ChainAllocated v n (some (0, w))

  -- What holds of the clusters of a list, and away from it, holds.
  pub by_list : (P : ℕ → Type 0) (d : ℕ) (xs : List ℕ) → All P xs → (Absent d xs → P d) → P d
  by_list P d [] h f = f tt
  by_list P d (x ∷ xs) (p, h) f = elim (ℕ_discrete d x) [
    | yes e ↦ subst P (sym e) p
    | no ne ↦ by_list P d xs h (λ a. f (ne, a))
  ]

  all : (P : ℕ → Type 0) (xs : List ℕ) → ((d : ℕ) → P d) → All P xs
  all P [] f = tt
  all P (x ∷ xs) f = (f x, all P xs f)

  pub both_zero :
      (f g : ℕ → ℕ) (xs : List ℕ)
      → All (λ x. f x ≡ 0) xs
      → All (λ x. g x ≡ 0) xs
      → All (λ x. f x ≡ g x) xs
  both_zero f g [] p q = tt
  both_zero f g (x ∷ xs) (p, ps) (q, qs) = (p ∙ sym q, both_zero f g xs ps qs)

  grown-IsChainTaken :
      (v w : Volume D) (first : ℕ) (ys : List ℕ) (last : ℕ)
      → IsGrown R v w first ys last
      → IsChainTaken v w first (ys ++ last ∷ [])
  unfolding in_chain
  grown-IsChainTaken v w first ys last g = record {
    layout = g.layout;
    quiet = g.quiet;
    hint = g.hint;
    chain = (
      entry R w last,
      Linked-snoc R w first ys last g.linked g.last_range.0
          (omega (arith, g.last_range, same_max v w g.layout)) g.last_new,
      rw (g.last_marked) refl,
    );
    were_free = g.were_free;
    kept = g.kept;
    data_kept = g.data_kept;
  }

  -- After the shortage the chain is freed again.
  roll_back :
      (v w : Volume D) (first : ℕ) (ys : List ℕ) (last fuel n : ℕ)
      → Laid R v
      → IsGrown R v w first ys last
      → AllUsed R w 2 (max_clusters w)
      → length ys + 1 < fuel
      → length ys + 1 < n
      → ChainAllocated v n (give_up fuel first (say (full_text) w))
  unfolding give_up entry
  roll_back v w first ys last fuel n l g used enough few =
      let xs = ys ++ last ∷ [] in
      let told = say full_text w in
      let c = grown-IsChainTaken v w first ys last g in
      let same_entries = all (λ x. entry R told x ≡ entry R w x) xs (λ d. refl) in
      let chain : IsChain R told first xs = (
        c.chain.0,
        Linked-kept R w told first xs c.chain.0 refl same_entries c.chain.1,
        c.chain.2,
      ) in
      let size : length xs ≡ length ys + 1 = omega (arith, length-append ys (last ∷ [])) in
      let r =
        free_cluster_chain-IsFreed R fuel told first xs (same-Laid R v w g.layout l) chain
          (omega arith) in
      rw (give_up, r.1)
        (rolled_back xs (omega arith) (no_others xs c) (freed-IsRolledBack xs r.0 c r.2))
    where
      no_others : (xs : List ℕ) → IsChainTaken v w first xs → HasAllFree v xs
      no_others xs c d lo hi absent free =
          used d lo (omega (arith, same_max v w g.layout)) (c.kept d hi absent ∙ free)

      freed-IsRolledBack :
          (xs : List ℕ) (x : Volume D)
          → IsChainTaken v w first xs
          → IsFreed R (say full_text w) x xs
          → IsRolledBack v x
      freed-IsRolledBack xs x c f = record {
        layout = IsSameLayout-trans v w x g.layout (record {
          same_bpb = f.layout.same_bpb;
          same_fat = f.layout.same_fat;
          same_data = f.layout.same_data;
          same_directory = f.layout.same_directory;
        });
        reported = f.quiet ∙ ap (λ t. t ++ full_text) g.quiet;
        entries = λ d lo hi.
            by_list (λ y. entry R x y ≡ entry R v y) d xs
              (both_zero (entry R x) (entry R v) xs f.freed c.were_free)
              (λ absent.
                f.kept d (omega (arith, same_max v w g.layout)) absent ∙ c.kept d hi absent);
      }

  extend_chain-ChainAllocated :
      (rounds fuel n : ℕ) (v w : Volume D) (first : ℕ) (ys : List ℕ) (last : ℕ)
      → Laid R v
      → IsGrown R v w first ys last
      → length ys + 1 + rounds ≡ n
      → n < fuel
      → ChainAllocated v n (extend_chain rounds fuel first last w)
  unfolding extend_chain
  extend_chain-ChainAllocated zero fuel n v w first ys last l g size enough =
      allocated (ys ++ last ∷ []) (omega (arith, length-append ys (last ∷ [])))
        (grown-IsChainTaken v w first ys last g)
  extend_chain-ChainAllocated (suc rounds) fuel n v w first ys last l g size enough =
      settle (allocate_cluster w).0 (allocate_cluster w).1
        (allocate_cluster-Allocated R w (same-Laid R v w g.layout l) g.hint.0 g.hint.1)
        (extend_chain-ChainAllocated rounds fuel n v)
    where
      outcome : ℕ → Volume D → Option (ℕ × Volume D)
      outcome c u =
          let linked = write_fat_entry u last c in
          let rest = extend_chain rounds fuel first c linked.1 in
          if c == 0
          then give_up fuel first u
          else if not linked.0
          then give_up fuel first (say (text (codes "Failed to link clusters\n") ∷ []) linked.1)
          else rest

      settle :
          (c : ℕ) (u : Volume D)
          → Allocated R w c u
          → ((w : Volume D) (first : ℕ) (ys : List ℕ) (last : ℕ)
              → Laid R v
              → IsGrown R v w first ys last
              → length ys + 1 + rounds ≡ n
              → n < fuel
              → ChainAllocated v n (extend_chain rounds fuel first last w))
          → ChainAllocated v n (outcome c u)
      settle c u (taken t) again =
          rw (ne→== c 0 (omega (arith, t.in_range)), (link R v w u first ys last c l g t).0)
            (again (write_fat_entry u last c).1 first (ys ++ last ∷ []) c l
              (grown R v w u first ys last c l g t) (omega (arith, length-append ys (last ∷ [])))
              enough)
      settle c u (no_room used) again =
          roll_back v w first ys last fuel n l g used (omega arith) (omega arith)

  -- On a laid-out volume with a hint in range, and given more fuel than clusters are asked for,
  -- `allocate_cluster_chain` returns a chain of `n` clusters that were free, with all other entries and
  -- the bytes of all other clusters as before; or fewer than `n` were free, and it returns 0 with every
  -- entry as before.
  pub allocate_cluster_chain-ChainAllocated :
      (fuel n : ℕ) (v : Volume D)
      → Laid R v
      → HintInRange R v
      → n < fuel
      → ChainAllocated v n (allocate_cluster_chain fuel v n)
  unfolding allocate_cluster_chain in_chain entry
  allocate_cluster_chain-ChainAllocated fuel zero v l hint enough = allocated [] refl (record {
    layout = same;
    quiet = refl;
    hint = hint;
    chain = (0, refl, refl);
    were_free = tt;
    kept = λ d less absent. refl;
    data_kept = λ a high outside. refl;
  })
    where
      same : IsSameLayout v v
      same = record { same_bpb = refl; same_fat = refl; same_data = refl; same_directory = refl }
  allocate_cluster_chain-ChainAllocated fuel (suc n) v l hint enough =
      rw (ne→== (suc n) 0 (omega arith)) (
        settle (allocate_cluster v).0 (allocate_cluster v).1
          (allocate_cluster-Allocated R v l hint.0 hint.1))
    where
      settle :
          (c : ℕ) (u : Volume D)
          → Allocated R v c u
          → ChainAllocated v
              (suc n)
              (if c == 0 then some (0, u) else extend_chain (suc n - 1) fuel c c u)
      settle c u (taken t) = rw (ne→== c 0 (omega (arith, t.in_range))) (
          extend_chain-ChainAllocated (suc n - 1) fuel (suc n) v u c [] c l
            (IsTaken-IsGrown R v u c t) (omega arith) enough)
      settle c u (no_room used) =
          rolled_back [] (omega arith) (λ d lo hi absent. used d lo hi)
            (record {
              layout = record {
                same_bpb = refl;
                same_fat = refl;
                same_data = refl;
                same_directory = refl;
              };
              reported = refl;
              entries = λ d lo hi. refl;
            })
