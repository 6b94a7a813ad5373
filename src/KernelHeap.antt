-- ===== src/KernelHeap.antt =====
-- The heap of stdlib_hooks.cpp: KernelHeap with malloc, free, calloc and realloc. The chain of headers
-- from `free_list` is a list of blocks, and `next` is the block behind. Addresses count from the start
-- of `heap_space`, and a returned pointer is `none` for nullptr.
pub mod Valid
pub mod Allocate
pub mod Free
pub mod RoundTrip
pub mod Realloc
mod Examples
use text_os.Common.{
  ℕ, zero, suc, ◌+◌, ◌-◌, ◌*◌, Bool, true, false, not, ◌&&◌, Option, none, some, List, [], ◌∷◌, leb,
  ◌==◌, if◌then◌else◌, u32, bit_and,
}
use text_os.Memory.{Memory, memcpy, memset}

-- `MemoryBlock`, with the address at which it stands.
pub record Block : Type 0 where
  pub addr : ℕ
  pub size : ℕ
  pub used : Bool

-- `sizeof(MemoryBlock)` on the 32-bit target: two words, and a bool padded to a word.
abbrev pub header : ℕ
header = 12

abbrev pub heap_size : ℕ
heap_size = 65536

-- The blocks after `init`.
abbrev pub init : List Block
init = record { addr = 0; size = heap_size - header; used = false } ∷ []

-- The list that `allocate` works on: `none` stands for a null `free_list`.
abbrev pub blocks_of : Option (List Block) → List Block
blocks_of none = init
blocks_of (some bs) = bs

-- `(size + 3) & ~3` in a 32-bit `size_t`.
unfoldable pub align : ℕ → ℕ
align size = bit_and (u32 (size + 3)) 0xfffffffc

-- A suitable block with those behind it: it is split if a header and four bytes are left over.
unfoldable pub place : ℕ → Block → List Block → List Block
place size b bs =
    if leb (u32 (size + header + 4)) b.size
    then record { addr = b.addr; size = size; used = true }
      ∷ record { addr = b.addr + header + size; size = b.size - size - header; used = false }
      ∷ bs
    else record b { used = true } ∷ bs

-- The search of `allocate`: the address of the data and the new chain.
unfoldable pub first_fit : ℕ → List Block → Option (ℕ × List Block)
first_fit size [] = none
first_fit size (b ∷ bs) =
    if not b.used && leb size b.size
    then some (b.addr + header, place size b bs)
    else elim (first_fit size bs) [ none ↦ none | some (p, rest) ↦ some (p, b ∷ rest) ]

-- `KernelHeap::allocate`: the pointer and the heap, which is set up in any case.
unfoldable pub allocate : Option (List Block) → ℕ → Option ℕ × List Block
allocate h size = elim (first_fit (align size) (blocks_of h)) [
  | none ↦ (none, blocks_of h)
  | some (p, bs) ↦ (some p, bs)
]

-- `block->used = false` for the header at `a`; `none` if no header of the chain stands there, when the
-- source writes into memory that the heap does not own.
unfoldable pub mark_free : ℕ → List Block → Option (List Block)
mark_free a [] = none
mark_free a (b ∷ bs) =
    if b.addr == a
    then some (record b { used = false } ∷ bs)
    else elim (mark_free a bs) [ none ↦ none | some rest ↦ some (b ∷ rest) ]

-- The two loops of `deallocate` over `current`, here `b`: as long as it and the next block are free
-- and adjacent they are merged, then the next block is `current`.
unfoldable pub coalesce_from : Block → List Block → List Block
coalesce_from b [] = b ∷ []
coalesce_from b (n ∷ bs) =
    elim (not b.used && (not n.used && (b.addr + header + b.size == n.addr))) [
      | true ↦ coalesce_from (record b { size = b.size + (header + n.size) }) bs
      | false ↦ b ∷ coalesce_from n bs
    ]

unfoldable pub coalesce : List Block → List Block
unfolding coalesce_from
coalesce [] = []
coalesce (b ∷ bs) = coalesce_from b bs

-- `KernelHeap::deallocate`
unfoldable pub deallocate : List Block → Option ℕ → Option (List Block)
deallocate bs none = some bs
deallocate bs (some p) = elim (mark_free (p - header) bs) [
  | none ↦ none
  | some marked ↦ some (coalesce marked)
]

-- `block->size` of the header at `a`.
unfoldable pub size_at : ℕ → List Block → Option ℕ
size_at a [] = none
size_at a (b ∷ bs) = if b.addr == a then some b.size else size_at a bs

-- The heap with the bytes of memory; `base` is the address of `heap_space`.
pub record State : Type 0 where
  pub blocks : List Block
  pub memory : Memory

-- The end of `reallocate`, with a new block at `q`: copy the old bytes, free the old block.
unfoldable pub move_block : ℕ → State → ℕ → ℕ → List Block → Option (Option ℕ × State)
move_block base s p q bs = elim (size_at (p - header) bs) [
  | none ↦ none
  | some old_size ↦ elim (deallocate bs (some p)) [
    | none ↦ none
    | some rest ↦
        some (
          some q,
          record { blocks = rest; memory = memcpy s.memory (base + q) (base + p) old_size },
        )
  ]
]

-- `KernelHeap::reallocate`; `none` on the outside if `p` is no block of the heap.
unfoldable pub reallocate : ℕ → State → Option ℕ → ℕ → Option (Option ℕ × State)
reallocate base s none size =
    let (p, bs) = allocate (some s.blocks) size in some (p, record s { blocks = bs })
reallocate base s (some p) size =
    if size == 0
    then elim (deallocate s.blocks (some p)) [
      | none ↦ none
      | some bs ↦ some (none, record s { blocks = bs })
    ]
    else elim (size_at (p - header) s.blocks) [
      | none ↦ none
      | some old_size ↦
          if leb size old_size
          then some (some p, s)
          else (let (new_ptr, bs) = allocate (some s.blocks) size in
              elim new_ptr [
                | none ↦ some (none, record s { blocks = bs })
                | some q ↦ move_block base s p q bs
              ])
    ]

-- The body of `calloc` behind `total_size`.
unfoldable pub calloc_bytes : ℕ → State → ℕ → Option ℕ × State
calloc_bytes base s total_size =
    let (ptr, bs) = allocate (some s.blocks) total_size in
    elim ptr [
      | none ↦ (none, record s { blocks = bs })
      | some p ↦ (some p, record { blocks = bs; memory = memset s.memory (base + p) 0 total_size })
    ]

-- `calloc`: the product is taken in 32 bits.
unfoldable pub calloc : ℕ → State → ℕ → ℕ → Option ℕ × State
calloc base s num size = calloc_bytes base s (u32 (num * size))

-- The C hooks and the C++ operators, which only call the heap.
abbrev pub malloc : Option (List Block) → ℕ → Option ℕ × List Block
malloc = allocate

abbrev pub free : List Block → Option ℕ → Option (List Block)
free = deallocate

abbrev pub realloc : ℕ → State → Option ℕ → ℕ → Option (Option ℕ × State)
realloc = reallocate

abbrev pub operator_new : Option (List Block) → ℕ → Option ℕ × List Block
operator_new = allocate

abbrev pub operator_delete : List Block → Option ℕ → Option (List Block)
operator_delete = deallocate
