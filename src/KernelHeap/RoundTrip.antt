-- ===== src/KernelHeap/RoundTrip.antt =====
-- Freeing what was just allocated gives back the heap as it was.
use text_os.Common.{
  ℕ, ◌+◌, ◌-◌, ◌≤◌, ◌≡◌, refl, ◌⊎◌, inl, inr, true, false, not, ◌&&◌, leb, List, [], ◌∷◌, Option,
  none, some, arith, Bool-cases, sym, ◌∙◌, ap, eq→==, ne→==, u32,
}
use mathlib.Core.List.{tail-eq_of_cons-eq}
use text_os.KernelHeap.{
  Block, header, heap_size, align, blocks_of, place, first_fit, allocate, mark_free, coalesce_from,
  coalesce, deallocate,
}
use text_os.KernelHeap.Valid.{Tiles, Tiles-le}
use text_os.KernelHeap.Allocate.{IsValidHeap}
use text_os.KernelHeap.Free.{IsCoalesced, merges}

-- A chain with no two free blocks side by side is left as it is.
coalesce_from_same :
    (b : Block) (bs : List Block) → IsCoalesced b.used bs → coalesce_from b bs ≡ b ∷ bs
unfolding coalesce_from
coalesce_from_same b [] h = refl
coalesce_from_same b (n ∷ bs) (u, h) =
    rw (no_merge, coalesce_from) (ap (λ t. b ∷ t) (coalesce_from_same n bs h))
  where
    no_merge : merges b n ≡ false
    no_merge = ground arith

-- A used block in front is not merged.
coalesce_from_used :
    (x b : Block) (bs : List Block)
    → (x.used ≡ true) ⊎ (b.used ≡ true)
    → coalesce_from x (b ∷ bs) ≡ x ∷ coalesce_from b bs
unfolding coalesce_from
coalesce_from_used x b bs u = ground arith

coalesce_from_merge :
    (b n : Block) (bs : List Block)
    → merges b n ≡ true
    → coalesce_from b (n ∷ bs) ≡ coalesce_from (record b { size = b.size + (header + n.size) }) bs
unfolding coalesce_from
coalesce_from_merge b n bs h = rw (h, coalesce_from)

block_eq :
    (b : Block) (s : ℕ) → s ≡ b.size → b.used ≡ false → record b { size = s; used = false } ≡ b
block_eq b s es eu = ground arith

-- Taking back the block that a search found from `lo` on gives `bs`, with a block `x` in front.
abbrev Undone : ℕ → Block → List Block → Option (ℕ × List Block) → Type 0
Undone lo x bs none = Unit {0}
Undone lo x bs (some (p, bs')) =
    (ms : List Block) × (mark_free (p - header) bs' ≡ some ms)
    × (lo + header ≤ p)
    × (coalesce_from x ms ≡ x ∷ bs)

-- Marking a placed block free again and merging gives the block and what follows it.
module _ (size hi : ℕ) (fits : hi ≤ heap_size) where
  place_undone :
      (lo : ℕ) (b : Block) (bs : List Block)
      → Tiles lo (b ∷ bs) hi
      → b.used ≡ false
      → size ≤ b.size
      → IsCoalesced b.used bs
      → (m : Block) × (ms : List Block) × (mark_free b.addr (place size b bs) ≡ some (m ∷ ms))
        × (coalesce_from m ms ≡ b ∷ bs)
        × (m.used ≡ false)
  unfolding place mark_free
  place_undone lo b bs (at, al, t) free big c =
      elim (Bool-cases (leb (u32 (size + header + 4)) b.size)) [
        | inl split ↦
            rw (split, eq→== b.addr b.addr refl)
              (
                record { addr = b.addr; size = size; used = false },
                record {
                  addr = b.addr + header + size;
                  size = b.size - size - header;
                  used = false;
                }
                    ∷ bs,
                refl,
                merged split,
                refl,
              )
        | inr whole ↦
            rw (whole, eq→== b.addr b.addr refl)
              (
                record b { used = false },
                bs,
                refl,
                rw (block_eq b b.size refl free) (coalesce_from_same b bs c),
                refl,
              )
      ]
    where
      room : leb (u32 (size + header + 4)) b.size ≡ true → size + header + 4 ≤ b.size
      room split = ground (arith, Tiles-le (lo + header + b.size) hi bs t)

      merged :
          leb (u32 (size + header + 4)) b.size ≡ true
          → coalesce_from
              (record { addr = b.addr; size = size; used = false })
              (record { addr = b.addr + header + size; size = b.size - size - header; used = false }
                ∷ bs)
            ≡ b ∷ bs
      merged split =
          coalesce_from_merge _ _ bs (ground (arith, room split))
          ∙ ap (λ m. coalesce_from m bs) (block_eq b _ (omega (arith, room split)) free)
          ∙ coalesce_from_same b bs c

  behind :
      (lo : ℕ) (x b : Block) (bs : List Block) (r : Option (ℕ × List Block))
      → b.addr ≡ lo
      → (x.used ≡ true) ⊎ (b.used ≡ true)
      → Undone (lo + header + b.size) b bs r
      → Undone lo x (b ∷ bs) (elim r [ none ↦ none | some (p, rest) ↦ some (p, b ∷ rest) ])
  unfolding mark_free
  behind lo x b bs none at front u = tt
  behind lo x b bs (some (p, rest)) at front (ms, e, le, back) = (
    b ∷ ms,
    rw (ne→== b.addr (p - header) (omega arith), e),
    omega arith,
    coalesce_from_used x b ms front ∙ ap (λ r. x ∷ r) back,
  )

  -- With a block `x` in front, which does not end on two free blocks.
  first_fit-Undone :
      (lo : ℕ) (x : Block) (bs : List Block)
      → Tiles lo bs hi
      → IsCoalesced x.used bs
      → Undone lo x bs (first_fit size bs)
  unfolding first_fit
  first_fit-Undone lo x [] t c = tt
  first_fit-Undone lo x (b ∷ bs) (at, al, t) (front, c) =
      elim (Bool-cases (not b.used && leb size b.size)) [
        | inl hit ↦ rw hit (
            let (m, ms, e, back, mf) =
              place_undone lo b bs (at, al, t) (ground arith) (ground arith) c in
            let out : b.addr + header - header ≡ b.addr = omega arith in
            (
              m ∷ ms,
              rw out e,
              omega arith,
              coalesce_from_used x m ms (inl (front_used hit)) ∙ ap (λ r. x ∷ r) back,
            ))
        | inr miss ↦ rw miss (
            behind lo x b bs (first_fit size bs) at front
              (first_fit-Undone (lo + header + b.size) b bs t c))
      ]
    where
      front_used : (not b.used && leb size b.size) ≡ true → x.used ≡ true
      front_used hit = ground arith

-- The heap after `free` of the pointer that `allocate` returned, if it returned one.
abbrev pub FreesTo : List Block → Option ℕ × List Block → Type 0
FreesTo bs (none, bs') = Unit {0}
FreesTo bs (some p, bs') = deallocate bs' (some p) ≡ some bs

-- On a valid heap with no two free blocks side by side, freeing the pointer that `allocate` returned
-- gives back the very heap from before.
pub deallocate-allocate :
    (h : Option (List Block)) (size : ℕ)
    → IsValidHeap h
    → IsCoalesced true (blocks_of h)
    → FreesTo (blocks_of h) (allocate h size)
unfolding allocate deallocate
deallocate-allocate h size v c =
    settle (first_fit (align size) (blocks_of h))
      (first_fit-Undone (align size) heap_size (omega arith) 0 wall (blocks_of h) v c)
  where
    wall : Block
    wall = record { addr = 0; size = 0; used = true }

    unwrap : (ms : List Block) → coalesce_from wall ms ≡ wall ∷ coalesce ms
    unwrap [] = unfold coalesce_from coalesce in refl
    unwrap (m ∷ ms) = unfold coalesce in coalesce_from_used wall m ms (inl refl)

    settle :
        (r : Option (ℕ × List Block))
        → Undone 0 wall (blocks_of h) r
        → FreesTo
            (blocks_of h)
            (elim r [ none ↦ (none, blocks_of h) | some (p, bs) ↦ (some p, bs) ])
    settle none u = tt
    settle (some (p, bs)) (ms, e, le, back) =
        rw (e, deallocate) (ap some (tail-eq_of_cons-eq (sym (unwrap ms) ∙ back)))
