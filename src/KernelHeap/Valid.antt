-- ===== src/KernelHeap/Valid.antt =====
-- The invariant of the heap: the blocks lie end to end from its first byte to its last, at multiples
-- of four. Also what `align` computes, and the blocks in use.
use text_os.Common.{
  ℕ, ◌+◌, ◌-◌, ◌*◌, ◌/◌, ◌%◌, ◌^◌, ◌≤◌, ◌<◌, ◌≡◌, ◌⊎◌, inl, inr, true, List, [], ◌∷◌, arith, u32,
  bit_and,
}
use text_os.Common.Bits.{bit_and_lowest, bit_and_mask}
use text_os.KernelHeap.{Block, header, heap_size, init, align}

-- The blocks cover the addresses from `lo` up to `hi`, and their sizes are multiples of four.
abbrev pub Tiles : ℕ → List Block → ℕ → Type 0
Tiles lo [] hi = lo ≡ hi
Tiles lo (b ∷ bs) hi = (b.addr ≡ lo) × (b.size % 4 ≡ 0) × Tiles (lo + header + b.size) bs hi

abbrev pub IsValid : List Block → Type 0
IsValid bs = Tiles 0 bs heap_size

pub init-IsValid : IsValid init
init-IsValid = omega arith

-- A block at `a` with `n` bytes of data is in use.
abbrev pub InUse : ℕ → ℕ → List Block → Type 0
InUse a n [] = ⊥
InUse a n (b ∷ bs) = ((b.used ≡ true) × (b.addr ≡ a) × (b.size ≡ n)) ⊎ InUse a n bs

pub Tiles-le : (lo hi : ℕ) (bs : List Block) → Tiles lo bs hi → lo ≤ hi
Tiles-le lo hi [] t = omega arith
Tiles-le lo hi (b ∷ bs) (at, al, t) = omega (arith, Tiles-le (lo + header + b.size) hi bs t)

-- A block in use lies inside the region that is covered.
pub InUse-inside :
    (lo hi a n : ℕ) (bs : List Block)
    → Tiles lo bs hi
    → InUse a n bs
    → (lo ≤ a) × (a + header + n ≤ hi)
InUse-inside lo hi a n [] t u = absurd u
InUse-inside lo hi a n (b ∷ bs) (at, al, t) (inl (u, ea, en)) =
    omega (arith, Tiles-le (lo + header + b.size) hi bs t)
InUse-inside lo hi a n (b ∷ bs) (at, al, t) (inr u) =
    omega (arith, InUse-inside (lo + header + b.size) hi a n bs t u)

mask_two : (x : ℕ) → bit_and x 0xfffffffc ≡ x / 4 % 2 ^ 30 * 4
mask_two x = omega (
  arith,
  bit_and_lowest x 0xfffffffc,
  bit_and_lowest (x / 2) 0x7ffffffe,
  bit_and_mask 30 (x / 2 / 2),
)

-- `align` rounds up to a multiple of four, but the sizes of the last three bytes of the address space
-- go to 0.
pub align_lem :
    (size : ℕ)
    → size < 2 ^ 32
    → (align size % 4 ≡ 0)
      × (align size < 2 ^ 32)
      × (size ≤ 2 ^ 32 - 4 → (size ≤ align size) × (align size < size + 4))
      × (2 ^ 32 - 4 < size → align size ≡ 0)
unfolding align
align_lem size h = omega (arith, mask_two (u32 (size + 3)))
