-- ===== src/Dma/Transfers.antt =====
-- `memory_copy` moves a region through the buffer in chunks, and that is one copy.
use text_os.Common.{
  ℕ, ◌+◌, ◌^◌, ◌≤◌, ◌<◌, ◌≡◌, refl, ◌∙◌, ap, Bool, true, false, not, Option, none, some, List,
  codes, if◌then◌else◌, arith, u32, ◌⊎◌, le→ltb,
}
use text_os.Memory.Loops.{moved}
use text_os.Dma.{DmaManager, aligned_size, say, allocate_dma_buffer, copy_chunks, memory_copy}
use text_os.Dma.Chunks.{Apart, copy_chunks_lem}

module _ (dma_heap : ℕ) (show_int : ℕ → List ℕ) where
  allocate_chunk :
      (d : DmaManager)
      → d.heap_offset + 1024 ≤ 65536
      → allocate_dma_buffer dma_heap show_int 1024 d
        ≡ (some (dma_heap + d.heap_offset), record d { heap_offset = d.heap_offset + 1024 })
  unfolding allocate_dma_buffer aligned_size
  allocate_chunk d room =
      let same : u32 (d.heap_offset + 1024) ≡ d.heap_offset + 1024 = omega arith in
      simp (same, le→ltb 65536 (d.heap_offset + 1024) room) refl

  finish : Option (Bool × DmaManager) → Option (Bool × DmaManager)
  finish r = elim r [
    | none ↦ none
    | some (true, d') ↦ some (true, say (codes "Memory copy completed successfully\n") d')
    | some (false, d') ↦ some (false, d')
  ]

  -- With the manager initialized, 1024 bytes left in its heap, both regions below 2 ^ 32 and apart
  -- from the buffer, and a destination that does not start inside the source behind its start,
  -- `memory_copy` succeeds: the region has moved and no other byte outside the buffer has changed.
  pub memory_copy-IsCopied :
      (src dst length : ℕ) (d : DmaManager)
      → d.initialized ≡ true
      → d.heap_offset + 1024 ≤ 65536
      → src + length ≤ 2 ^ 32
      → dst + length ≤ 2 ^ 32
      → Apart src length (dma_heap + d.heap_offset) 1024
      → Apart dst length (dma_heap + d.heap_offset) 1024
      → (dst ≤ src) ⊎ (src + length ≤ dst)
      → (d' : DmaManager) × (memory_copy dma_heap show_int src dst length d ≡ some (true, d'))
        × ((x : ℕ)
            → (x < dma_heap + d.heap_offset) ⊎ (dma_heap + d.heap_offset + 1024 ≤ x)
            → d'.memory x ≡ moved d.memory dst src length x)
  unfolding memory_copy finish
  memory_copy-IsCopied src dst length d alive room bs bd hs hd order =
      let announced =
        say (codes " bytes\n") (say (show_int length) (say (codes "DMA memory copy: ") d)) in
      let (d', e, copied) =
        copy_chunks_lem dma_heap show_int length length src dst (dma_heap + d.heap_offset)
          (record announced { heap_offset = d.heap_offset + 1024 }) (omega arith) alive bs bd hs hd
          order in
      (
        say (codes "Memory copy completed successfully\n") d',
        ap (λ b. start b (allocate_dma_buffer dma_heap show_int 1024 announced)) alive
            ∙ ap (start true) (allocate_chunk announced room)
            ∙ ap finish e,
        λ x out. copied.bytes x out,
      )
    where
      start : Bool → Option ℕ × DmaManager → Option (Bool × DmaManager)
      start b buffer = if not b then some (false, d) else elim (buffer.0) [
        | none ↦ some (false, buffer.1)
        | some temp ↦ finish (copy_chunks dma_heap show_int length length src dst temp buffer.1)
      ]
