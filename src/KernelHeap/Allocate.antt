-- ===== src/KernelHeap/Allocate.antt =====
-- What `allocate` returns, and what it leaves alone.
use text_os.Common.{
  ℕ, ◌+◌, ◌-◌, ◌%◌, ◌^◌, ◌≤◌, ◌<◌, ◌≡◌, refl, ◌⊎◌, inl, inr, true, false, not, ◌&&◌, leb, List, [],
  ◌∷◌, All, Option, none, some, arith, Bool-cases, u32, sym, ◌∙◌,
}
use mathlib.Core.Bool.{false≢true}
use text_os.KernelHeap.{Block, header, heap_size, align, blocks_of, place, first_fit, allocate}
use text_os.KernelHeap.Valid.{Tiles, IsValid, InUse, InUse-inside, Tiles-le, align_lem}

-- A live block of `bs` is untouched in `bs'` and does not overlap the `granted` bytes at `start`.
abbrev pub KeepsApart : List Block → List Block → ℕ → ℕ → Type 0
KeepsApart bs bs' start granted =
    (a n : ℕ)
    → InUse a n bs
    → InUse a n bs' × ((a + header + n ≤ start) ⊎ (start + header + granted ≤ a))

-- What a successful search for `size` bytes leaves between `lo` and `hi`: the chain still tiles, a
-- block of at least `size` bytes is in use behind its header at `start`, the live blocks are kept, and
-- no other block is live.
pub record Granted (size lo hi : ℕ) (bs : List Block) (p : ℕ) (bs' : List Block) : Type 0 where
  pub start : ℕ
  pub granted : ℕ
  pub tiles : Tiles lo bs' hi
  pub pointer : p ≡ start + header
  pub aligned : p % 4 ≡ 0
  pub enough : size ≤ granted
  pub live : InUse start granted bs'
  pub keeps : KeepsApart bs bs' start granted
  pub only : (a n : ℕ) → InUse a n bs' → (a ≡ start) ⊎ InUse a n bs

-- A block that cannot serve a request.
abbrev pub IsBusy : ℕ → Block → Type 0
IsBusy size b = (not b.used && leb size b.size) ≡ false

abbrev pub Outcome : ℕ → ℕ → ℕ → List Block → Option (ℕ × List Block) → Type 0
Outcome size lo hi bs none = All (IsBusy size) bs
Outcome size lo hi bs (some (p, bs')) = Granted size lo hi bs p bs'

module _ (size hi : ℕ) (fits : hi ≤ heap_size) (four : size % 4 ≡ 0) where
  place-Granted :
      (lo : ℕ) (b : Block) (bs : List Block)
      → lo % 4 ≡ 0
      → Tiles lo (b ∷ bs) hi
      → b.used ≡ false
      → size ≤ b.size
      → Granted size lo hi (b ∷ bs) (b.addr + header) (place size b bs)
  unfolding place
  place-Granted lo b bs al (at, four', t) free big =
      elim (Bool-cases (leb (u32 (size + header + 4)) b.size)) [
        | inl split ↦ rw split record {
          start = b.addr;
          granted = size;
          tiles = (at, four, (omega arith, omega (arith, room split), rw (rest split) t));
          pointer = refl;
          aligned = omega arith;
          enough = omega arith;
          live = inl (refl, refl, refl);
          keeps = λ a n u. (inr (inr (behind a n u)), inr (omega (arith, beyond a n u)));
          only = λ a n. elim [
            | inl (_, e, _) ↦ inl (sym e)
            | inr (inl (f, _, _)) ↦ absurd (false≢true f)
            | inr (inr u) ↦ inr (inr u)
          ];
        }
        | inr whole ↦ rw whole record {
          start = b.addr;
          granted = b.size;
          tiles = (at, four', t);
          pointer = refl;
          aligned = omega arith;
          enough = big;
          live = inl (refl, refl, refl);
          keeps = λ a n u. (inr (behind a n u), inr (omega (arith, beyond a n u)));
          only = λ a n. elim [ inl (_, e, _) ↦ inl (sym e) | inr u ↦ inr (inr u) ];
        }
      ]
    where
      behind : (a n : ℕ) → InUse a n (b ∷ bs) → InUse a n bs
      behind a n (inl (u, _, _)) = absurd (false≢true (sym free ∙ u))
      behind a n (inr u) = u

      beyond : (a n : ℕ) → InUse a n (b ∷ bs) → lo + header + b.size ≤ a
      beyond a n u = (InUse-inside (lo + header + b.size) hi a n bs t (behind a n u)).0

      room : leb (u32 (size + header + 4)) b.size ≡ true → size + header + 4 ≤ b.size
      room split = ground (arith, Tiles-le (lo + header + b.size) hi bs t)

      rest :
          leb (u32 (size + header + 4)) b.size ≡ true
          → lo + header + size + header + (b.size - size - header) ≡ lo + header + b.size
      rest split = omega (arith, room split)

  -- The block that the search found stands behind `b`.
  Granted-behind :
      (lo : ℕ) (b : Block) (bs bs' : List Block) (p : ℕ)
      → b.addr ≡ lo
      → b.size % 4 ≡ 0
      → Granted size (lo + header + b.size) hi bs p bs'
      → Granted size lo hi (b ∷ bs) p (b ∷ bs')
  Granted-behind lo b bs bs' p at four' g = record {
    start = g.start;
    granted = g.granted;
    tiles = (at, four', g.tiles);
    pointer = g.pointer;
    aligned = g.aligned;
    enough = g.enough;
    live = inr g.live;
    keeps = λ a n. elim [
      | inl (u, e, f) ↦ (
        inl (u, e, f),
        inl (
            omega
              (arith, InUse-inside (lo + header + b.size) hi g.start g.granted bs' g.tiles g.live)),
      )
      | inr u ↦ (inr (g.keeps a n u).0, (g.keeps a n u).1)
    ];
    only = λ a n. elim [
      | inl w ↦ inr (inl w)
      | inr u ↦ elim (g.only a n u) [ inl e ↦ inl e | inr v ↦ inr (inr v) ]
    ];
  }

  step :
      (lo : ℕ) (b : Block) (bs : List Block) (r : Option (ℕ × List Block))
      → b.addr ≡ lo
      → b.size % 4 ≡ 0
      → (not b.used && leb size b.size) ≡ false
      → Outcome size (lo + header + b.size) hi bs r
      → Outcome size lo hi (b ∷ bs) (elim r [ none ↦ none | some (p, rest) ↦ some (p, b ∷ rest) ])
  step lo b bs none at four' miss h = (ground arith, h)
  step lo b bs (some (p, rest)) at four' miss g = Granted-behind lo b bs rest p at four' g

  first_fit-Outcome :
      (lo : ℕ) (bs : List Block)
      → lo % 4 ≡ 0
      → Tiles lo bs hi
      → Outcome size lo hi bs (first_fit size bs)
  unfolding first_fit
  first_fit-Outcome lo [] al t = tt
  first_fit-Outcome lo (b ∷ bs) al (at, four', t) =
      elim (Bool-cases (not b.used && leb size b.size)) [
        | inl hit ↦ rw hit (place-Granted lo b bs al (at, four', t) (ground arith) (ground arith))
        | inr miss ↦ rw miss (
            step lo b bs (first_fit size bs) at four' miss
              (first_fit-Outcome (lo + header + b.size) bs (omega arith) t))
      ]

-- The heap that `allocate` starts from is valid, whether it was set up before or not.
abbrev pub IsValidHeap : Option (List Block) → Type 0
IsValidHeap h = IsValid (blocks_of h)

-- What `allocate` answers for a request of `size` bytes: a block that is granted, or nullptr, with the
-- heap as it was and every block in use or too small.
abbrev pub Answer : List Block → ℕ → Option ℕ × List Block → Type 0
Answer bs size (none, bs') = (bs' ≡ bs) × All (IsBusy size) bs
Answer bs size (some p, bs') = Granted size 0 heap_size bs p bs'

-- On a valid heap `allocate` either grants a block of at least the aligned size, live, inside the heap,
-- 4-aligned, apart from every live block, the others kept and the heap valid again; or it returns
-- nullptr, changes nothing, and no free block had the room.
pub allocate_lem :
    (h : Option (List Block)) (size : ℕ)
    → size < 2 ^ 32
    → IsValidHeap h
    → Answer (blocks_of h) (align size) (allocate h size)
unfolding allocate
allocate_lem h size lt v = settle (first_fit (align size) (blocks_of h)) (
    first_fit-Outcome (align size) heap_size (omega arith) (align_lem size lt).0 0 (blocks_of h)
      refl v)
  where
    settle :
        (r : Option (ℕ × List Block))
        → Outcome (align size) 0 heap_size (blocks_of h) r
        → Answer
            (blocks_of h)
            (align size)
            (elim r [ none ↦ (none, blocks_of h) | some (p, bs) ↦ (some p, bs) ])
    settle none busy = (refl, busy)
    settle (some (p, bs)) g = g

-- A request of one of the last three sizes succeeds on a fresh heap, and is granted no byte at all.
pub allocate_huge :
    (size : ℕ)
    → 2 ^ 32 - 4 < size
    → size < 2 ^ 32
    → ((allocate none size).0 ≡ some header) × InUse 0 0 (allocate none size).1
unfolding allocate first_fit place
allocate_huge size lo hi = rw ((align_lem size hi).3 lo, allocate) (refl, inl (refl, refl, refl))
