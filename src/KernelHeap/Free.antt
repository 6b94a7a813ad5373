-- ===== src/KernelHeap/Free.antt =====
-- What `deallocate` does to a live block: it is free, merged with its free neighbours, and the other
-- live blocks are untouched.
use text_os.Common.{
  ℕ, ◌+◌, ◌-◌, ◌≡◌, ◌≢◌, refl, ◌⊎◌, ◌↔◌, inl, inr, Bool, true, false, not, ◌&&◌, ◌==◌, List, [],
  ◌∷◌, some, arith, Bool-cases, sym, ◌∙◌, eq→==, ne→==,
}
use mathlib.Core.Bool.{false≢true}
use text_os.KernelHeap.{Block, header, heap_size, mark_free, coalesce_from, coalesce, deallocate}
use text_os.KernelHeap.Valid.{Tiles, IsValid, InUse, InUse-inside}

-- No two free blocks follow one another; `before` tells whether the block in front is used.
abbrev pub IsCoalesced : Bool → List Block → Type 0
IsCoalesced before [] = Unit {0}
IsCoalesced before (b ∷ bs) = ((before ≡ true) ⊎ (b.used ≡ true)) × IsCoalesced b.used bs

abbrev pub merges : Block → Block → Bool
merges b n = not b.used && (not n.used && (b.addr + header + b.size == n.addr))

coalesce_from-Tiles :
    (lo hi : ℕ) (b : Block) (bs : List Block)
    → Tiles lo (b ∷ bs) hi
    → Tiles lo (coalesce_from b bs) hi
unfolding coalesce_from
coalesce_from-Tiles lo hi b [] t = t
coalesce_from-Tiles lo hi b (n ∷ bs) (at, al, (at', al', t)) = elim (Bool-cases (merges b n)) [
  | inl yes_merge ↦
      rw (yes_merge, coalesce_from)
        (coalesce_from-Tiles lo hi (record b { size = b.size + (header + n.size) }) bs
          (at, omega arith, rw (shift) t))
  | inr no_merge ↦
      rw (no_merge, coalesce_from)
        (at, al, coalesce_from-Tiles (lo + header + b.size) hi n bs (at', al', t))
]
  where
    shift : lo + header + (b.size + (header + n.size)) ≡ lo + header + b.size + header + n.size
    shift = omega arith

coalesce_from-IsCoalesced :
    (lo hi : ℕ) (before : Bool) (b : Block) (bs : List Block)
    → Tiles lo (b ∷ bs) hi
    → (before ≡ true) ⊎ (b.used ≡ true)
    → IsCoalesced before (coalesce_from b bs)
unfolding coalesce_from
coalesce_from-IsCoalesced lo hi before b [] t u = (u, tt)
coalesce_from-IsCoalesced lo hi before b (n ∷ bs) (at, al, (at', al', t)) u =
    elim (Bool-cases (merges b n)) [
      | inl yes_merge ↦
          rw (yes_merge, coalesce_from)
            (coalesce_from-IsCoalesced lo hi before (record b { size = b.size + (header + n.size) })
              bs (at, omega arith, rw shift t) u)
      | inr no_merge ↦
          rw (no_merge, coalesce_from)
            (
              u,
              coalesce_from-IsCoalesced (lo + header + b.size) hi b.used n bs (at', al', t)
                  (ground arith),
            )
    ]
  where
    shift : lo + header + (b.size + (header + n.size)) ≡ lo + header + b.size + header + n.size
    shift = omega arith

-- Merging free blocks changes no live one.
coalesce_from-InUse :
    (a k : ℕ) (b : Block) (bs : List Block) → InUse a k (b ∷ bs) ↔ InUse a k (coalesce_from b bs)
unfolding coalesce_from
coalesce_from-InUse a k b [] = (λ u. u, λ u. u)
coalesce_from-InUse a k b (n ∷ bs) = elim (Bool-cases (merges b n)) [
  | inl yes_merge ↦
      rw (yes_merge, coalesce_from)
        (let both = coalesce_from-InUse a k (record b { size = b.size + (header + n.size) }) bs in
          (
            elim [
              | inl (u, _, _) ↦ absurd (false≢true (free_b yes_merge ∙ u))
              | inr (inl (u, _, _)) ↦ absurd (false≢true (free_n yes_merge ∙ u))
              | inr (inr v) ↦ both.0 (inr v)
            ],
            λ v. elim (both.1 v) [
              | inl (u, _, _) ↦ absurd (false≢true (free_b yes_merge ∙ u))
              | inr w ↦ inr (inr w)
            ],
          ))
  | inr no_merge ↦
      rw (no_merge, coalesce_from)
        (let both = coalesce_from-InUse a k n bs in
          (
            elim [ inl v ↦ inl v | inr v ↦ inr (both.0 v) ],
            elim [ inl v ↦ inl v | inr v ↦ inr (both.1 v) ],
          ))
]
  where
    free_b : merges b n ≡ true → false ≡ b.used
    free_b h = ground arith

    free_n : merges b n ≡ true → false ≡ n.used
    free_n h = ground arith

-- The live blocks of `bs'` are those of `bs` but the one at `a`.
abbrev pub Released : ℕ → List Block → List Block → Type 0
Released a bs bs' = (a' k : ℕ) → InUse a' k bs' ↔ ((a' ≢ a) × InUse a' k bs)

mark_free_lem :
    (lo hi a n : ℕ) (bs : List Block)
    → Tiles lo bs hi
    → InUse a n bs
    → (bs' : List Block) × (mark_free a bs ≡ some bs') × Tiles lo bs' hi × Released a bs bs'
unfolding mark_free
mark_free_lem lo hi a n [] t u = absurd u
mark_free_lem lo hi a n (b ∷ bs) (at, al, t) (inl (u, ea, en)) = (
  record b { used = false } ∷ bs,
  rw (eq→== b.addr a ea),
  (at, al, t),
  λ a' k. (
    elim [
      | inl (f, _, _) ↦ absurd (false≢true f)
      | inr v ↦ (omega (arith, InUse-inside (lo + header + b.size) hi a' k bs t v), inr v)
    ],
    λ w. elim (w.1) [ inl (_, e, _) ↦ absurd (w.0 (sym e ∙ ea)) | inr v ↦ inr v ],
  ),
)
mark_free_lem lo hi a n (b ∷ bs) (at, al, t) (inr u) =
    let (bs', e, t', r) = mark_free_lem (lo + header + b.size) hi a n bs t u in
    let far : b.addr ≢ a = omega (arith, InUse-inside (lo + header + b.size) hi a n bs t u) in
    (
      b ∷ bs',
      rw (ne→== b.addr a far, e),
      (at, al, t'),
      λ a' k. (
        elim [
          | inl (f, e', en) ↦ ((λ (z : a' ≡ a). far (e' ∙ z)), inl (f, e', en))
          | inr v ↦ (((r a' k).0 v).0, inr ((r a' k).0 v).1)
        ],
        λ w. elim (w.1) [ inl v ↦ inl v | inr v ↦ inr ((r a' k).1 (w.0, v)) ],
      ),
    )

coalesce-parts :
    (hi : ℕ) (bs : List Block)
    → Tiles 0 bs hi
    → Tiles 0 (coalesce bs) hi × IsCoalesced true (coalesce bs)
unfolding coalesce
coalesce-parts hi [] t = (t, tt)
coalesce-parts hi (b ∷ bs) t =
    (coalesce_from-Tiles 0 hi b bs t, coalesce_from-IsCoalesced 0 hi true b bs t (inl refl))

coalesce-InUse : (a k : ℕ) (bs : List Block) → InUse a k bs ↔ InUse a k (coalesce bs)
unfolding coalesce
coalesce-InUse a k [] = (λ u. u, λ u. u)
coalesce-InUse a k (b ∷ bs) = coalesce_from-InUse a k b bs

-- Freeing a live block of a valid heap succeeds: the heap stays valid, no two free blocks are left side
-- by side, and exactly the other live blocks are still live.
pub deallocate_lem :
    (a n : ℕ) (bs : List Block)
    → IsValid bs
    → InUse a n bs
    → (bs' : List Block) × (deallocate bs (some (a + header)) ≡ some bs')
      × IsValid bs'
      × IsCoalesced true bs'
      × Released a bs bs'
unfolding deallocate
deallocate_lem a n bs v u =
    let (ms, e, t, r) = mark_free_lem 0 heap_size a n bs v u in
    let back : a + header - header ≡ a = omega arith in
    let (t', c) = coalesce-parts heap_size ms t in
    (
      coalesce ms,
      rw (back, deallocate, e),
      t',
      c,
      λ a' k. (
        (λ w. (r a' k).0 ((coalesce-InUse a' k ms).1 w)),
        λ w. (coalesce-InUse a' k ms).0 ((r a' k).1 w),
      ),
    )
