-- ===== src/Fat32/Length.antt =====
-- How many clusters a chain has, and how many a size needs.
use text_os.Common.{
  ℕ, zero, suc, ◌+◌, ◌-◌, ◌*◌, ◌/◌, ◌^◌, ◌≤◌, ◌<◌, ◌≡◌, ◌∙◌, ap, false, List, [], ◌∷◌, length,
  arith, u32, le→ltb,
}
use native.Mathlib.Nat.{div-mul-le_self, lt-div-mul-add}
use text_os.Drive.{Drive, IsReliable}
use text_os.Fat32.{Volume, read_fat_entry}
use text_os.Fat32.Geometry.{Laid, entry}
use text_os.Fat32.Entries.{read_fat_entry_lem}
use text_os.Fat32.Chains.{in_chain, count_chain, get_cluster_chain_length, clusters_needed}
use text_os.Fat32.Links.{Linked, IsChain}
use text_os.Fat32.Release.{in_chain-cluster}
use text_os.Fat32.Writing.{cluster_size_lem}
use text_os.Fat32.Contents.{cluster_bytes}

count_chain_bound :
    {D : Drive} (rounds n c : ℕ) (v : Volume D)
    → rounds + n ≤ 65537
    → (count_chain rounds n c v).0 ≤ 65537
unfolding count_chain
count_chain_bound zero n c v h = omega arith
count_chain_bound (suc rounds) n c v h =
    ground (arith, count_chain_bound rounds (n + 1) (read_fat_entry v c) v)

-- Whatever the table holds, a cycle included, `get_cluster_chain_length` stops at 65537 clusters at the latest.
pub get_cluster_chain_length_bound :
    {D : Drive} (v : Volume D) (c : ℕ) → (get_cluster_chain_length v c).0 ≤ 65537
unfolding get_cluster_chain_length
get_cluster_chain_length_bound v c = count_chain_bound 65537 0 c v (omega arith)

module _ {D : Drive} (R : IsReliable D) where
  count_chain_lem :
      (rounds n c : ℕ) (xs : List ℕ) (e : ℕ) (v : Volume D)
      → Laid R v
      → Linked R v c xs e
      → in_chain e ≡ false
      → n + length xs ≤ 65536
      → rounds + n ≡ 65537
      → count_chain rounds n c v ≡ (n + length xs, v)
  unfolding count_chain
  count_chain_lem zero n c xs e v l h stop small size = absurd (omega arith)
  count_chain_lem (suc rounds) n c [] e v l h stop small size =
      rw (h, stop) (ap (λ k. (k, v)) (omega arith))
  count_chain_lem (suc rounds) n c (x ∷ xs) e v l (here, lo, hi, absent, h) stop small size =
      rw
        (
          here,
          in_chain-cluster R v x l lo hi,
          le→ltb 65536 (n + 1) (omega arith),
          read_fat_entry_lem R v x l lo hi,
        )
        (count_chain_lem rounds (n + 1) (entry R v x) xs e v l h stop (omega arith) (omega arith)
          ∙ ap (λ k. (k, v)) (omega arith))

  -- On a laid-out volume `get_cluster_chain_length` returns the number of the clusters of a chain of up to
  -- 65536, and prints nothing.
  pub get_cluster_chain_length_lem :
      (v : Volume D) (c : ℕ) (xs : List ℕ)
      → Laid R v
      → IsChain R v c xs
      → length xs ≤ 65536
      → get_cluster_chain_length v c ≡ (length xs, v)
  unfolding get_cluster_chain_length
  get_cluster_chain_length_lem v c xs l (e, h, stop) small =
      count_chain_lem 65537 0 c xs e v l h stop (omega arith) (omega arith)
      ∙ ap (λ k. (k, v)) (omega arith)

  -- On a laid-out volume, for a size that leaves room for a cluster below 2 ^ 32, `clusters_needed` is the
  -- least number of clusters that hold the size.
  pub clusters_needed_lem :
      (v : Volume D) (size : ℕ)
      → Laid R v
      → size + cluster_bytes v ≤ 2 ^ 32
      → (size ≤ clusters_needed v size * cluster_bytes v)
        × (clusters_needed v size * cluster_bytes v < size + cluster_bytes v)
  unfolding clusters_needed
  clusters_needed_lem v size l small =
      let cs = cluster_bytes v in
      let some_bytes : 0 < cs = omega (arith, l.has_clusters) in
      let sum : u32 (size + cs + (2 ^ 32 - 1)) ≡ size + cs - 1 = omega arith in
      let q = (size + cs - 1) / cs in
      let low = lt-div-mul-add {a = size + cs - 1} {b = cs} some_bytes in
      let high = div-mul-le_self (size + cs - 1) cs in
      rw (cluster_size_lem R v l, sum) (omega (arith, low), omega (arith, high))
