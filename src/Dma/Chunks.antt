-- ===== src/Dma/Chunks.antt =====
-- The loop of `memory_copy`: chunk after chunk through the buffer is one move.
use text_os.Common.{
  ℕ, zero, suc, ◌+◌, ◌-◌, ◌^◌, ◌≤◌, ◌<◌, ◌≡◌, refl, ◌∙◌, Bool, true, Option, some, List, codes,
  arith, u32, u64, ◌⊎◌, inl, inr, ℕ_discrete, dec_lt, eq→==, ne→==, lt→ltb, le→ltb,
}
use text_os.Memory.{Memory, copy_up}
use text_os.Memory.Loops.{moved, copy_up_at}
use text_os.Dma.{DmaManager, say, read_memory_dma, write_memory_dma, copy_chunks}

-- Two regions of `n` and `k` bytes have no byte in common.
abbrev pub Apart : ℕ → ℕ → ℕ → ℕ → Type 0
Apart a n b k = (a + n ≤ b) ⊎ (b + k ≤ a)

-- The state `d'` has the `n` bytes of `src` at `dst`, and all other bytes outside the buffer as in `d`.
pub record IsCopied (src dst n temp : ℕ) (d d' : DmaManager) : Type 0 where
  pub bytes : (x : ℕ) → (x < temp) ⊎ (temp + 1024 ≤ x) → d'.memory x ≡ moved d.memory dst src n x
  pub alive : d'.initialized ≡ d.initialized
  pub channels : d'.active_channels ≡ d.active_channels
  pub offset : d'.heap_offset ≡ d.heap_offset

module _ (dma_heap : ℕ) (show_int : ℕ → List ℕ) where
  -- One chunk.
  chunk_moves :
      (m : Memory) (src dst c temp x : ℕ)
      → c ≤ 1024
      → Apart src c temp 1024
      → Apart dst c temp 1024
      → (x < temp) ⊎ (temp + 1024 ≤ x)
      → copy_up c 0 dst temp (copy_up c 0 temp src m) x ≡ moved m dst src c x
  chunk_moves m src dst c temp x le hs hd hx = ground (
    arith,
    copy_up_at c 0 dst temp (copy_up c 0 temp src m) x (flip hd),
    copy_up_at c 0 temp src m x (turn hs),
    copy_up_at c 0 temp src m (temp + (x - dst)) (turn hs),
  )
    where
      flip : Apart dst c temp 1024 → (dst ≤ temp) ⊎ (temp + (0 + c) ≤ dst)
      flip (inl h) = inl (omega arith)
      flip (inr h) = inr (omega arith)

      turn : Apart src c temp 1024 → (temp ≤ src) ⊎ (src + (0 + c) ≤ temp)
      turn (inl h) = inr (omega arith)
      turn (inr h) = inl (omega arith)

  -- A chunk that has moved, and the rest that moves after it, are one move.
  moves_join :
      (m m2 : Memory) (src dst c n temp x : ℕ)
      → c ≤ n
      → Apart src n temp 1024
      → (dst ≤ src) ⊎ (src + n ≤ dst)
      → ((y : ℕ) → (y < temp) ⊎ (temp + 1024 ≤ y) → m2 y ≡ moved m dst src c y)
      → (x < temp) ⊎ (temp + 1024 ≤ x)
      → moved m2 (dst + c) (src + c) (n - c) x ≡ moved m dst src n x
  moves_join m m2 src dst c n temp x le hs order one hx = elim (dec_lt x (dst + c)) [
    | yes early ↦ ground (arith, one x hx)
    | no late ↦ elim (dec_lt x (dst + n)) [
      | yes within ↦
          let same : src + c + (x - (dst + c)) ≡ src + (x - dst) = omega arith in
          ground (arith, one (src + (x - dst)) (clear hs late within), same, kept order late)
      | no beyond ↦ ground (arith, one x hx)
    ]
  ]
    where
      clear :
          Apart src n temp 1024
          → ¬ (x < dst + c)
          → x < dst + n
          → (src + (x - dst) < temp) ⊎ (temp + 1024 ≤ src + (x - dst))
      clear (inl h) late within = inl (omega arith)
      clear (inr h) late within = inr (omega arith)

      kept :
          (dst ≤ src) ⊎ (src + n ≤ dst)
          → ¬ (x < dst + c)
          → (dst + c ≤ src + (x - dst)) ⊎ (src + (x - dst) < dst) ⊎ (dst + n ≤ x)
      kept (inl h) late = inl (omega arith)
      kept (inr h) late = elim (dec_lt x (dst + n)) [
        | yes within ↦ inr (inl (omega arith))
        | no beyond ↦ inr (inr (omega arith))
      ]

  narrow : (a c n temp : ℕ) → c ≤ n → Apart a n temp 1024 → Apart a c temp 1024
  narrow a c n temp le (inl h) = inl (omega arith)
  narrow a c n temp le (inr h) = inr (omega arith)

  -- The state after one round.
  abbrev after : ℕ → ℕ → ℕ → ℕ → DmaManager → DmaManager
  after c src dst temp d = say (codes " bytes\n") (
      say (show_int c) (
        say (codes "DMA write completed: ")
          (record d { memory = copy_up c 0 dst temp (copy_up c 0 temp src d.memory) })))

  round_lem :
      (c src dst temp : ℕ) (d : DmaManager)
      → d.initialized ≡ true
      → src < 2 ^ 32
      → dst < 2 ^ 32
      → (read_memory_dma dma_heap show_int src temp c d
          ≡ (true, record d { memory = copy_up c 0 temp src d.memory }))
        × (write_memory_dma dma_heap show_int dst temp c
              (record d { memory = copy_up c 0 temp src d.memory })
            ≡ (true, after c src dst temp d))
  unfolding read_memory_dma write_memory_dma
  round_lem c src dst temp d alive hs hd =
      let s : u32 src ≡ src = omega arith in
      let t : u32 dst ≡ dst = omega arith in (simp (alive, s) refl, simp (alive, t) refl)

  abbrev pub Moves : ℕ → ℕ → ℕ → ℕ → DmaManager → Option (Bool × DmaManager) → Type 0
  Moves remaining src dst temp d r =
      (d' : DmaManager) × (r ≡ some (true, d')) × IsCopied src dst remaining temp d d'

  Moves-step :
      (c remaining src dst temp : ℕ) (d : DmaManager) (r : Option (Bool × DmaManager))
      → c ≤ 1024
      → c ≤ remaining
      → Apart src remaining temp 1024
      → Apart dst remaining temp 1024
      → (dst ≤ src) ⊎ (src + remaining ≤ dst)
      → Moves (remaining - c) (src + c) (dst + c) temp (after c src dst temp d) r
      → Moves remaining src dst temp d r
  Moves-step c remaining src dst temp d r le small hs hd order (d', e, copied) = (
    d',
    e,
    record {
      bytes = λ x out.
          copied.bytes x out
          ∙ moves_join d.memory (after c src dst temp d).memory src dst c remaining temp x small hs
              order
              (λ y h.
                chunk_moves d.memory src dst c temp y le (narrow src c remaining temp small hs)
                  (narrow dst c remaining temp small hd) h)
              out;
      alive = copied.alive;
      channels = copied.channels;
      offset = copied.offset;
    },
  )

  further : (a c n temp : ℕ) → c ≤ n → Apart a n temp 1024 → Apart (a + c) (n - c) temp 1024
  further a c n temp le (inl h) = inl (omega arith)
  further a c n temp le (inr h) = inr (omega arith)

  pub copy_chunks_lem :
      (fuel remaining src dst temp : ℕ) (d : DmaManager)
      → remaining ≤ fuel
      → d.initialized ≡ true
      → src + remaining ≤ 2 ^ 32
      → dst + remaining ≤ 2 ^ 32
      → Apart src remaining temp 1024
      → Apart dst remaining temp 1024
      → (dst ≤ src) ⊎ (src + remaining ≤ dst)
      → Moves remaining src dst temp d (copy_chunks dma_heap show_int fuel remaining src dst temp d)
  unfolding copy_chunks
  copy_chunks_lem zero remaining src dst temp d le alive bs bd hs hd order =
      let none_left : remaining ≡ 0 = omega arith in
      (
        d,
        rw (eq→== remaining 0 none_left),
        record { bytes = λ x out. ground arith; alive = refl; channels = refl; offset = refl },
      )
  copy_chunks_lem (suc fuel) remaining src dst temp d le alive bs bd hs hd order =
      elim (ℕ_discrete remaining 0) [
        | yes none_left ↦ (
          d,
          rw (eq→== remaining 0 none_left),
          record { bytes = λ x out. ground arith; alive = refl; channels = refl; offset = refl },
        )
        | no some_left ↦ elim (dec_lt remaining 1024) [
          | yes last ↦
              let (r, w) = round_lem remaining src dst temp d alive (omega arith) (omega arith) in
              let next_src : u64 (src + remaining) ≡ src + remaining = omega arith in
              let next_dst : u64 (dst + remaining) ≡ dst + remaining = omega arith in
              simp
                (ne→== remaining 0 some_left, lt→ltb remaining 1024 last, r, w, next_src, next_dst)
                (Moves-step remaining remaining src dst temp d _ (omega arith) (omega arith) hs hd
                  order
                  (copy_chunks_lem fuel (remaining - remaining) (src + remaining) (dst + remaining)
                    temp (after remaining src dst temp d) (omega arith) alive (omega arith)
                    (omega arith) (further src remaining remaining temp (omega arith) hs)
                    (further dst remaining remaining temp (omega arith) hd)
                    (onward remaining (omega arith) order)))
          | no long ↦
              let (r, w) = round_lem 1024 src dst temp d alive (omega arith) (omega arith) in
              let next_src : u64 (src + 1024) ≡ src + 1024 = omega arith in
              let next_dst : u64 (dst + 1024) ≡ dst + 1024 = omega arith in
              simp
                (
                  ne→== remaining 0 some_left,
                  le→ltb remaining 1024 (omega arith),
                  r,
                  w,
                  next_src,
                  next_dst,
                )
                (Moves-step 1024 remaining src dst temp d _ (omega arith) (omega arith) hs hd order
                  (copy_chunks_lem fuel (remaining - 1024) (src + 1024) (dst + 1024) temp
                    (after 1024 src dst temp d) (omega arith) alive (omega arith) (omega arith)
                    (further src 1024 remaining temp (omega arith) hs)
                    (further dst 1024 remaining temp (omega arith) hd)
                    (onward 1024 (omega arith) order)))
        ]
      ]
    where
      onward :
          (c : ℕ)
          → c ≤ remaining
          → (dst ≤ src) ⊎ (src + remaining ≤ dst)
          → (dst + c ≤ src + c) ⊎ (src + c + (remaining - c) ≤ dst + c)
      onward c small (inl h) = inl (omega arith)
      onward c small (inr h) = inr (omega arith)
