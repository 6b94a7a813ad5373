-- ===== src/Dma.antt =====
-- `DMAManager` of dma_memory.cpp: the bitmap of channels, the buffers of its 64 KB heap, and the copies
-- through memory. `dma_heap` is the address of the heap, and `show_int` the text that `cout` prints for
-- an `int`; what is printed is appended to a log. An address is cast to 32 bits where the code makes it
-- a pointer.
pub mod Channels
pub mod Chunks
pub mod Transfers
mod Examples
use text_os.Common.{
  ℕ, zero, suc, ◌+◌, ◌-◌, ◌*◌, ◌/◌, ◌%◌, ◌^◌, Bool, true, false, not, ◌&&◌, ◌||◌, Option, none,
  some, List, [], ◌∷◌, ◌++◌, codes, ltb, leb, ◌==◌, if◌then◌else◌, u8, u32, u64, is_negative,
  bit_and, bit_or,
}
use text_os.Memory.{Memory, copy_up, fill_up}

abbrev pub dma_max_channels : ℕ
dma_max_channels = 8

pub record DmaManager : Type 0 where
  pub initialized : Bool
  pub active_channels : ℕ
  pub heap_offset : ℕ
  pub memory : Memory
  pub printed : List ℕ

-- `cout << text`
abbrev pub say : List ℕ → DmaManager → DmaManager
say text d = record d { printed = d.printed ++ text }

-- The search of `allocate_channel` from channel `i` on.
unfoldable pub find_channel : ℕ → ℕ → ℕ → Option (ℕ × ℕ)
find_channel zero i active = none
find_channel (suc rounds) i active =
    let rest = find_channel rounds (i + 1) active in
    if bit_and active (2 ^ i) == 0 then some (i, bit_or active (2 ^ i)) else rest

-- `allocate_channel`: the channel, where `none` is -1.
unfoldable pub allocate_channel : DmaManager → Option ℕ × DmaManager
allocate_channel d = elim (find_channel dma_max_channels 0 d.active_channels) [
  | none ↦ (none, d)
  | some (i, active) ↦ (some i, record d { active_channels = active })
]

-- `free_channel` of an `int`: the bit is cleared by a mask of 32 bits.
unfoldable pub free_channel : ℕ → DmaManager → DmaManager
free_channel i d =
    if not (is_negative i) && ltb i dma_max_channels
    then record d { active_channels = bit_and d.active_channels (2 ^ 32 - 1 - 2 ^ i) }
    else d

-- The loop over the digits, the lowest first, with `room` places left, and the zeros before them.
unfoldable pub hex_digits : ℕ → ℕ → List ℕ → List ℕ
hex_digits zero addr out = out
hex_digits (suc room) addr out =
    let digit = addr % 16 in
    hex_digits room (addr / 16) ((if ltb digit 10 then b'0' + digit else b'A' + digit - 10) ∷ out)

unfoldable pub initialize : ℕ → DmaManager → Bool × DmaManager
initialize base_address d =
    let d' = record d { initialized = true; active_channels = 0 } in
    (
      true,
      say (codes "\n") (
          say (hex_digits 16 base_address [])
            (say (codes "DMA Manager initialized at base: 0x") d')),
    )

abbrev pub heap_bytes : ℕ
heap_bytes = 65536

-- `(size + DMA_ALIGNMENT - 1) & ~(DMA_ALIGNMENT - 1)`
unfoldable pub aligned_size : ℕ → ℕ
aligned_size size = bit_and (u32 (size + 63)) (2 ^ 32 - 64)

module _ (dma_heap : ℕ) (show_int : ℕ → List ℕ) where
  unfoldable pub allocate_dma_buffer : ℕ → DmaManager → Option ℕ × DmaManager
  allocate_dma_buffer size d =
      let n = aligned_size size in
      if ltb heap_bytes (u32 (d.heap_offset + n))
      then (none, d)
      else (some (dma_heap + d.heap_offset), record d { heap_offset = u32 (d.heap_offset + n) })

  unfoldable pub read_memory_dma : ℕ → ℕ → ℕ → DmaManager → Bool × DmaManager
  read_memory_dma address buffer size d =
      if not d.initialized
      then (false, d)
      else (true, record d { memory = copy_up size 0 buffer (u32 address) d.memory })

  -- `verify_memory_range` accepts every range.
  abbrev pub verify_memory_range : ℕ → ℕ → Bool
  verify_memory_range address size = true

  unfoldable pub write_memory_dma : ℕ → ℕ → ℕ → DmaManager → Bool × DmaManager
  write_memory_dma address bytes size d =
      if not d.initialized
      then (false, say (codes "DMA Manager not initialized\n") d)
      else if not (verify_memory_range address size)
      then (false, say (codes "Invalid memory range for DMA write\n") d)
      else (
        true,
        say (codes " bytes\n") (
            say (show_int size) (
              say (codes "DMA write completed: ")
                (record d { memory = copy_up size 0 (u32 address) bytes d.memory }))),
      )

  -- The loop of `memory_copy` with fuel; a round moves at least one byte.
  unfoldable pub copy_chunks : ℕ → ℕ → ℕ → ℕ → ℕ → DmaManager → Option (Bool × DmaManager)
  copy_chunks zero remaining src dst temp d = if remaining == 0 then some (true, d) else none
  copy_chunks (suc fuel) remaining src dst temp d =
      let copy_size = if ltb remaining 1024 then remaining else 1024 in
      let read = read_memory_dma src temp copy_size d in
      let written = write_memory_dma dst temp copy_size read.1 in
      let rest =
        copy_chunks fuel (remaining - copy_size) (u64 (src + copy_size)) (u64 (dst + copy_size))
          temp written.1 in
      if remaining == 0
      then some (true, d)
      else if not read.0
      then some (false, read.1)
      else if not written.0
      then some (false, written.1)
      else rest

  unfoldable pub memory_copy : ℕ → ℕ → ℕ → DmaManager → Option (Bool × DmaManager)
  memory_copy src dst length d =
      let announced =
        say (codes " bytes\n") (say (show_int length) (say (codes "DMA memory copy: ") d)) in
      let buffer = allocate_dma_buffer 1024 announced in
      if not d.initialized then some (false, d) else elim (buffer.0) [
        | none ↦ some (false, buffer.1)
        | some temp ↦ elim (copy_chunks length length src dst temp buffer.1) [
          | none ↦ none
          | some (true, d') ↦ some (true, say (codes "Memory copy completed successfully\n") d')
          | some (false, d') ↦ some (false, d')
        ]
      ]

  -- The loop of `pattern_fill` with fuel, with `buffer_size` bytes of the pattern in the buffer.
  unfoldable pub fill_chunks : ℕ → ℕ → ℕ → ℕ → ℕ → DmaManager → Option (Bool × DmaManager)
  fill_chunks zero remaining address buffer buffer_size d =
      if remaining == 0 then some (true, d) else none
  fill_chunks (suc fuel) remaining address buffer buffer_size d =
      let chunk_size = if ltb remaining buffer_size then remaining else buffer_size in
      let written = write_memory_dma address buffer chunk_size d in
      let rest =
        fill_chunks fuel (remaining - chunk_size) (u64 (address + chunk_size)) buffer buffer_size
          written.1 in
      if remaining == 0
      then some (true, d)
      else if not written.0
      then some (false, written.1)
      else rest

  unfoldable pub pattern_fill : ℕ → ℕ → ℕ → DmaManager → Option (Bool × DmaManager)
  pattern_fill address pattern length d =
      let announced = say (codes " bytes\n") (
        say (show_int length) (
          say (codes " for ")
            (say (hex_digits 2 pattern []) (say (codes "DMA pattern fill: 0x") d)))) in
      let buffer_size = if ltb length 1024 then length else 1024 in
      let buffer = allocate_dma_buffer buffer_size announced in
      if not d.initialized then some (false, d) else elim (buffer.0) [
        | none ↦ some (false, buffer.1)
        | some at ↦
            elim (fill_chunks length length address at buffer_size
              (record (buffer.1) { memory = fill_up buffer_size 0 at pattern (buffer.1.memory) })) [
                | none ↦ none
                | some (true, d') ↦ some (true, say (codes "Pattern fill completed\n") d')
                | some (false, d') ↦ some (false, d')
              ]
      ]
