-- ===== src/KernelHeap/Realloc.antt =====
-- `reallocate` keeps the bytes of the block, and `calloc` clears those of a new one.
use text_os.Common.{
  ℕ, ◌+◌, ◌-◌, ◌*◌, ◌^◌, ◌≤◌, ◌<◌, ◌≡◌, ◌≢◌, refl, ◌⊎◌, inl, inr, List, [], ◌∷◌, Option, none, some,
  arith, sym, ap, eq→==, ne→==, u32, le→leb, lt→leb, dec_lt,
}
use mathlib.Core.Path.{subst}
use text_os.Memory.{Memory, memset}
use text_os.Memory.Loops.{IsBytes, moved_inside, moved_outside, filled_inside, filled_outside}
use text_os.Memory.Laws.{memcpy_lem, memset_lem}
use text_os.KernelHeap.{
  Block, header, heap_size, init, first_fit, place, State, align, allocate, size_at, move_block,
  reallocate, calloc, calloc_bytes,
}
use text_os.KernelHeap.Valid.{Tiles, IsValid, InUse, InUse-inside, align_lem}
use text_os.KernelHeap.Allocate.{Granted, Answer, allocate_lem}
use text_os.KernelHeap.Free.{deallocate_lem}

size_at-InUse :
    (lo hi a n : ℕ) (bs : List Block) → Tiles lo bs hi → InUse a n bs → size_at a bs ≡ some n
unfolding size_at
size_at-InUse lo hi a n [] t u = absurd u
size_at-InUse lo hi a n (b ∷ bs) (at, al, t) (inl (u, ea, en)) = rw (eq→== b.addr a ea, en)
size_at-InUse lo hi a n (b ∷ bs) (at, al, t) (inr u) =
    rw (ne→== b.addr a (omega (arith, InUse-inside (lo + header + b.size) hi a n bs t u)))
      (size_at-InUse (lo + header + b.size) hi a n bs t u)

-- The block of `n` bytes at `a` of the state `s` became one of at least `size` bytes behind `start` in
-- `s'`: its bytes are those of the old block, the other live blocks are live, the heap is valid, and
-- no byte outside the new block changed.
pub record Resized (base : ℕ) (s : State) (a n size q : ℕ) (s' : State) : Type 0 where
  pub start : ℕ
  pub granted : ℕ
  pub pointer : q ≡ start + header
  pub enough : size ≤ granted
  pub live : InUse start granted s'.blocks
  pub valid : IsValid s'.blocks
  pub bytes : (i : ℕ) → i < n → s'.memory (base + q + i) ≡ s.memory (base + (a + header) + i)
  pub others : (a' k : ℕ) → a' ≢ a → InUse a' k s.blocks → InUse a' k s'.blocks
  pub outside : (x : ℕ) → (x < base + q) ⊎ (base + q + granted ≤ x) → s'.memory x ≡ s.memory x

-- What `reallocate` answers: it never leaves the heap, and on failure nothing has changed.
abbrev pub Reallocated : ℕ → State → ℕ → ℕ → ℕ → Option (Option ℕ × State) → Type 0
Reallocated base s a n size none = ⊥
Reallocated base s a n size (some (none, s')) = s' ≡ s
Reallocated base s a n size (some (some q, s')) = Resized base s a n size q s'

module _ (base : ℕ) (s : State) (a n size : ℕ) (small : size ≤ 2 ^ 32 - 4)
    (v : IsValid s.blocks) where
  module _ (bytes : IsBytes s.memory) (u : InUse a n s.blocks) (grows : n < size) where
    -- The copy into a block that was granted, and the release of the old one.
    move_block-Resized :
        (q : ℕ) (bs : List Block)
        → Granted (align size) 0 heap_size s.blocks q bs
        → Reallocated base s a n size (move_block base s (a + header) q bs)
    unfolding move_block
    move_block-Resized q bs g =
        let kept = g.keeps a n u in
        let (bs', e, v', c, r) = deallocate_lem a n bs g.tiles kept.0 in
        let back : a + header - header ≡ a = omega arith in
        let big : size ≤ align size = ((align_lem size (omega arith)).2 small).0 in
        let copied =
          memcpy_lem s.memory (base + q) (base + (a + header)) n bytes
            (apart g.start g.granted q g.pointer g.enough big kept.1) in
        rw (back, move_block, size_at-InUse 0 heap_size a n bs g.tiles kept.0, e, copied)
          record {
            start = g.start;
            granted = g.granted;
            pointer = g.pointer;
            enough = omega (arith, g.enough, big);
            live = (r g.start g.granted).1 (other g.start g.granted kept.1, g.live);
            valid = v';
            bytes = λ i lt. moved_inside s.memory (base + q) (base + (a + header)) n i lt;
            others = λ a' k ne w. (r a' k).1 (ne, (g.keeps a' k w).0);
            outside = λ x out.
                moved_outside s.memory (base + q) (base + (a + header)) n x
                  (beyond g.granted x g.enough big out);
          }
      where
        other :
            (start granted : ℕ)
            → (a + header + n ≤ start) ⊎ (start + header + granted ≤ a)
            → start ≢ a
        other start granted (inl p) = omega arith
        other start granted (inr p) = omega arith

        beyond :
            (granted x : ℕ)
            → align size ≤ granted
            → size ≤ align size
            → (x < base + q) ⊎ (base + q + granted ≤ x)
            → (x < base + q) ⊎ (base + q + n ≤ x)
        beyond granted x enough big (inl p) = inl p
        beyond granted x enough big (inr p) = inr (omega arith)

        apart :
            (start granted q : ℕ)
            → q ≡ start + header
            → align size ≤ granted
            → size ≤ align size
            → (a + header + n ≤ start) ⊎ (start + header + granted ≤ a)
            → (base + q ≤ base + (a + header)) ⊎ (base + (a + header) + n ≤ base + q)
        apart start granted q e enough big (inl p) = inr (omega arith)
        apart start granted q e enough big (inr p) = inl (omega arith)

-- On a valid heap over bytes, for a live block of `n` bytes at `a` and a new size from 1 to 2 ^ 32 - 4, `reallocate`
-- returns a live block of at least the new size with the old bytes in front, the other live blocks
-- kept; or it returns nullptr, and heap and memory are as they were.
pub reallocate_lem :
    (base : ℕ) (s : State) (a n size : ℕ)
    → 0 < size
    → size ≤ 2 ^ 32 - 4
    → IsValid s.blocks
    → IsBytes s.memory
    → InUse a n s.blocks
    → Reallocated base s a n size (reallocate base s (some (a + header)) size)
unfolding reallocate
reallocate_lem base s a n size pos small v bytes u =
    let back : a + header - header ≡ a = omega arith in
    rw (ne→== size 0 (omega arith), back, reallocate, size_at-InUse 0 heap_size a n s.blocks v u)
      (elim (dec_lt n size) [
        | yes grows ↦ rw (lt→leb size n grows) (
            settle grows (allocate (some s.blocks) size)
              (allocate_lem (some s.blocks) size (omega arith) v))
        | no fits ↦ rw (le→leb size n (omega arith)) record {
          start = a;
          granted = n;
          pointer = refl;
          enough = omega arith;
          live = u;
          valid = v;
          bytes = λ i lt. refl;
          others = λ a' k ne w. w;
          outside = λ x out. refl;
        }
      ])
  where
    settle :
        n < size
        → (r : Option ℕ × List Block) → Answer s.blocks (align size) r
        → Reallocated base s a n size (elim (r.0) [
          | none ↦ some (none, record s { blocks = r.1 })
          | some q ↦ move_block base s (a + header) q r.1
        ])
    settle grows (none, bs) (same, busy) = ap (λ t. record s { blocks = t }) same
    settle grows (some q, bs) g = move_block-Resized base s a n size small v bytes u grows q bs g

-- What `calloc` answers: a granted block with every requested byte zero and the rest of memory as it
-- was, or nullptr with heap and memory as they were.
abbrev pub Cleared : ℕ → State → ℕ → Option ℕ × State → Type 0
Cleared base s total (none, s') = s' ≡ s
Cleared base s total (some p, s') =
    Granted (align total) 0 heap_size s.blocks p s'.blocks
    × ((i : ℕ) → i < total → s'.memory (base + p + i) ≡ 0)
    × ((x : ℕ) → (x < base + p) ⊎ (base + p + total ≤ x) → s'.memory x ≡ s.memory x)

-- On a valid heap `calloc` grants and clears a block for the product of its arguments, or changes
-- nothing, if the product fits 32 bits.
pub calloc_lem :
    (base : ℕ) (s : State) (num size : ℕ)
    → num * size < 2 ^ 32
    → IsValid s.blocks
    → Cleared base s (num * size) (calloc base s num size)
unfolding calloc calloc_bytes
calloc_lem base s num size fits v =
    let same : u32 (num * size) ≡ num * size = omega arith in
    subst (λ t. Cleared base s (num * size) (calloc_bytes base s t)) (sym same)
      (settle (allocate (some s.blocks) (num * size))
        (allocate_lem (some s.blocks) (num * size) fits v))
  where
    settle :
        (r : Option ℕ × List Block)
        → Answer s.blocks (align (num * size)) r
        → Cleared base s (num * size) (elim (r.0) [
          | none ↦ (none, record s { blocks = r.1 })
          | some p ↦
              (some p, record { blocks = r.1; memory = memset s.memory (base + p) 0 (num * size) })
        ])
    settle (none, bs) (e, busy) = ap (λ t. record s { blocks = t }) e
    settle (some p, bs) g = rw (memset_lem s.memory (base + p) 0 (num * size)) (
      g,
      (λ i lt. filled_inside s.memory (base + p) 0 (num * size) i lt),
      λ x out. filled_outside s.memory (base + p) 0 (num * size) x out,
    )

-- A product that wraps is granted, though the block is shorter than what the caller asked for: 2 ^ 16
-- items of 2 ^ 16 bytes get a block of no byte.
pub calloc_wraps :
    (base : ℕ) (m : Memory) (k : ℕ)
    → InUse 0 0 (calloc base (record { blocks = init; memory = m }) (2 ^ 16 * k) (2 ^ 16)).1.blocks
unfolding calloc calloc_bytes allocate first_fit place align
calloc_wraps base m k =
    let wrapped : u32 (2 ^ 16 * k * 2 ^ 16) ≡ 0 = omega arith in
    subst (λ t. InUse 0 0 (calloc_bytes base (record { blocks = init; memory = m }) t).1.blocks)
      (sym wrapped) (inl (refl, refl, refl))
