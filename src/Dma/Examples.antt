-- ===== src/Dma/Examples.antt =====
-- The DMA manager with three channels taken, and a copy of 256 bytes.
use text_os.Common.{ℕ, ◌≡◌, ◌<◌, ◌≤◌, ◌+◌, ◌%◌, ◌⊎◌, refl, inr, arith, List, [], ◌∷◌, some, true}
use text_os.Memory.Loops.{moved}
use text_os.Dma.{DmaManager, memory_copy}
use text_os.Dma.Transfers.{memory_copy-IsCopied}

abbrev manager : DmaManager
manager = record {
  initialized = true;
  active_channels = 11;
  heap_offset = 64;
  memory = λ a. a % 251;
  printed = [];
}

-- The text of a number is left short here.
abbrev digits : ℕ → List ℕ
digits n = b'#' ∷ []

memory_copy-IsCopied_example :
    (d' : DmaManager) × (memory_copy 0x200000 digits 0x300000 0x300100 256 manager
      ≡ some (true, d'))
    × ((x : ℕ)
        → (x < 0x200040) ⊎ (0x200040 + 1024 ≤ x)
        → d'.memory x ≡ moved manager.memory 0x300100 0x300000 256 x)
memory_copy-IsCopied_example =
    memory_copy-IsCopied 0x200000 digits 0x300000 0x300100 256 manager refl (omega arith)
      (omega arith) (omega arith) (inr (omega arith)) (inr (omega arith)) (inr (omega arith))
