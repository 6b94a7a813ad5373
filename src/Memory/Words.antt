-- ===== src/Memory/Words.antt =====
-- A 32-bit word that is stored and loaded again, and one that a store leaves alone.
use text_os.Common.{ℕ, ◌+◌, ◌^◌, ◌≤◌, ◌<◌, ◌≡◌, ◌⊎◌, inl, inr, arith}
use text_os.Memory.{Memory, load32, store32}

pub load32-store32 : (m : Memory) (a w : ℕ) → w < 2 ^ 32 → load32 (store32 m a w) a ≡ w
unfolding load32 store32
load32-store32 m a w h = ground arith

pub load32-store32_apart :
    (m : Memory) (a b w : ℕ) → (a + 4 ≤ b) ⊎ (b + 4 ≤ a) → load32 (store32 m a w) b ≡ load32 m b
unfolding load32 store32
load32-store32_apart m a b w (inl h) = ground arith
load32-store32_apart m a b w (inr h) = ground arith

-- A store changes the four bytes of its word only.
pub store32_apart : (m : Memory) (a x w : ℕ) → (x < a) ⊎ (a + 4 ≤ x) → store32 m a w x ≡ m x
unfolding store32
store32_apart m a x w (inl h) = ground arith
store32_apart m a x w (inr h) = ground arith

-- Two memories that agree on the four bytes of a word agree on the word.
pub load32-agree :
    (m k : Memory) (a b : ℕ) → ((i : ℕ) → i < 4 → m (a + i) ≡ k (b + i)) → load32 m a ≡ load32 k b
unfolding load32
load32-agree m k a b h = ground (arith, h 0, h 1, h 2, h 3)
