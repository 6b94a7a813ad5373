-- ===== src/Ahci/Encoding.antt =====
-- The header and the region of a command: what the assignments of identify.h leave in memory.
use text_os.Common.{ℕ, ◌+◌, ◌-◌, ◌*◌, ◌/◌, ◌%◌, ◌^◌, ◌≤◌, ◌<◌, ◌≡◌, inl, inr, ◌∙◌, arith, u32}
use text_os.Memory.{Memory, load32, store32}
use text_os.Memory.Words.{load32-store32, load32-store32_apart, store32_apart, load32-agree}
use text_os.Ahci.Commands.{
  store16, store64, set_bits, set_bits32, merged_bits, configure_header, configure_prdt,
}
use text_os.Ahci.Decode.{load16, load64}
use text_os.Ahci.Fis.{Outside}

pub load64-store64 : (m : Memory) (a w : ℕ) → w < 2 ^ 64 → load64 (store64 m a w) a ≡ w
unfolding load64 store64
load64-store64 m a w h = omega (
  arith,
  load32-store32_apart (store32 m a (u32 w)) (a + 4) a (u32 (w / 2 ^ 32)) (inr (omega arith)),
  load32-store32 m a (u32 w) (omega arith),
  load32-store32 (store32 m a (u32 w)) (a + 4) (u32 (w / 2 ^ 32)) (omega arith),
)

pub store64_apart : (m : Memory) (a x w : ℕ) → Outside a 8 x → store64 m a w x ≡ m x
unfolding store64
store64_apart m a x w (inl h) =
    store32_apart (store32 m a (u32 w)) (a + 4) x (u32 (w / 2 ^ 32)) (inl (omega arith))
    ∙ store32_apart m a x (u32 w) (inl h)
store64_apart m a x w (inr h) =
    store32_apart (store32 m a (u32 w)) (a + 4) x (u32 (w / 2 ^ 32)) (inr (omega arith))
    ∙ store32_apart m a x (u32 w) (inr (omega arith))

pub load64-agree :
    (m k : Memory) (a : ℕ) → ((i : ℕ) → i < 8 → m (a + i) ≡ k (a + i)) → load64 m a ≡ load64 k a
unfolding load64 load32
load64-agree m k a h = ground (arith, h 0, h 1, h 2, h 3, h 4, h 5, h 6, h 7)

pub load16-agree :
    (m k : Memory) (a : ℕ) → ((i : ℕ) → i < 2 → m (a + i) ≡ k (a + i)) → load16 m a ≡ load16 k a
unfolding load16
load16-agree m k a h = ground (arith, h 0, h 1)

set_bits32_lem :
    (m : Memory) (a k width v old : ℕ)
    → load32 m a ≡ old
    → merged_bits old k width v < 2 ^ 32
    → load32 (set_bits32 m a k width v) a ≡ merged_bits old k width v
unfolding set_bits32
set_bits32_lem m a k width v old e h = rw e (load32-store32 m a (merged_bits old k width v) h)

load16-store16 : (m : Memory) (a w : ℕ) → w < 2 ^ 16 → load16 (store16 m a w) a ≡ w
unfolding load16 store16
load16-store16 m a w h = ground arith

module _ (m : Memory) (t buffer byte_count : ℕ) where
  pub prdt_apart : (x : ℕ) → Outside (t + 128) 16 x → configure_prdt m t buffer byte_count x ≡ m x
  unfolding configure_prdt set_bits32
  prdt_apart x (inl h) =
      store32_apart _ (t + 140) x _ (inl (omega arith))
      ∙ store32_apart _ (t + 140) x _ (inl (omega arith))
      ∙ store64_apart m (t + 128) x buffer (inl h)
  prdt_apart x (inr h) =
      store32_apart _ (t + 140) x _ (inr (omega arith))
      ∙ store32_apart _ (t + 140) x _ (inr (omega arith))
      ∙ store64_apart m (t + 128) x buffer (inr (omega arith))

  abbrev placed : Memory
  placed = store64 m (t + 128) buffer

  -- The region's length is stored as one less.
  pub prdt_length :
      load32 m (t + 140) ≡ 0
      → 0 < byte_count
      → byte_count ≤ 2 ^ 22
      → load32 (configure_prdt m t buffer byte_count) (t + 140) % 2 ^ 22 + 1 ≡ byte_count
  unfolding configure_prdt
  prdt_length clear positive limit =
      let low = u32 (byte_count + 2 ^ 32 - 1) in
      let still : load32 placed (t + 140) ≡ 0 =
        load32-agree placed m (t + 140) (t + 140)
          (λ i lt. store64_apart m (t + 128) (t + 140 + i) buffer (inr (omega arith)))
        ∙ clear in
      let first : load32 (set_bits32 placed (t + 140) 0 22 low) (t + 140) ≡ byte_count - 1 =
        set_bits32_lem placed (t + 140) 0 22 low 0 still (omega arith) ∙ omega arith in
      let second =
        set_bits32_lem (set_bits32 placed (t + 140) 0 22 low) (t + 140) 31 1 1 (byte_count - 1)
          first (omega arith) in
      rw second (omega arith)

  pub prdt_address :
      buffer < 2 ^ 64 → load64 (configure_prdt m t buffer byte_count) (t + 128) ≡ buffer
  unfolding configure_prdt set_bits32
  prdt_address h =
      load64-agree _ (store64 m (t + 128) buffer) (t + 128) (λ i lt.
        store32_apart _ (t + 140) (t + 128 + i) _ (inl (omega arith))
        ∙ store32_apart _ (t + 140) (t + 128 + i) _ (inl (omega arith)))
      ∙ load64-store64 m (t + 128) buffer h

module _ (m : Memory) (h w table : ℕ) where
  pub header_apart : (x : ℕ) → Outside h 16 x → configure_header m h w table x ≡ m x
  unfolding configure_header store16 set_bits
  header_apart x (inl o) = store64_apart _ (h + 8) x table (inl (omega arith)) ∙ ground arith
  header_apart x (inr o) = store64_apart _ (h + 8) x table (inr (omega arith)) ∙ ground arith

  pub header_table : table < 2 ^ 64 → load64 (configure_header m h w table) (h + 8) ≡ table
  unfolding configure_header
  header_table = load64-store64 _ (h + 8) table

  pub header_first : m h ≡ 0 → w < 2 → configure_header m h w table h ≡ w * 2 ^ 6 + 5
  unfolding configure_header store16 set_bits
  header_first clear small = store64_apart _ (h + 8) h table (inl (omega arith)) ∙ ground arith

  pub header_regions : load16 (configure_header m h w table) (h + 2) ≡ 1
  unfolding configure_header
  header_regions =
      let k = store16 (set_bits (set_bits m h 0 5 5) h 6 1 w) (h + 2) 1 in
      load16-agree (store64 k (h + 8) table) k (h + 2)
        (λ i lt. store64_apart k (h + 8) (h + 2 + i) table (inl (omega arith)))
      ∙ load16-store16 (set_bits (set_bits m h 0 5 5) h 6 1 w) (h + 2) 1 (omega arith)
