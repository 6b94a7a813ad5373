-- ===== src/Memory/Laws.antt =====
-- The contracts of memcpy, memmove, memset and memcmp: which bytes they write, and with what.
use text_os.Common.{
  ℕ, zero, suc, ◌+◌, ◌-◌, ◌*◌, ◌/◌, ◌≤◌, ◌<◌, ◌≡◌, ◌⊎◌, inl, inr, u8, u32, arith, fun_ext, dec_lt,
  ℕ_discrete, ==_iff, ne→==, lt→ltb, le→ltb,
}
use text_os.Memory.{
  Memory, Sign, same, below, above, copy_words, fill_words, spread, memcpy, memmove, memset, memcmp,
  memcmp_from,
}
use text_os.Memory.Loops.{
  moved, filled, IsBytes, copy_up_at, copy_down_at, fill_up_at, copy_words_at, fill_words_at,
}

memcpy_at :
    (m : Memory) (dest src n x : ℕ)
    → IsBytes m
    → (dest ≤ src) ⊎ (src + n ≤ dest)
    → memcpy m dest src n x ≡ moved m dest src n x
unfolding memcpy
memcpy_at m dest src n x bytes (inl h) =
    let words = n / 4 in
    let mid = copy_words words 0 dest src m in
    ground (
      arith,
      copy_up_at n 0 dest src m x (inl h),
      copy_up_at (n - words * 4) (words * 4) dest src mid x (inl h),
      copy_words_at words 0 dest src m x bytes (inl h),
      copy_words_at words 0 dest src m (src + (x - dest)) bytes (inl h),
    )
memcpy_at m dest src n x bytes (inr h) =
    let words = n / 4 in
    let mid = copy_words words 0 dest src m in
    ground (
      arith,
      copy_up_at n 0 dest src m x (inr (omega arith)),
      copy_up_at (n - words * 4) (words * 4) dest src mid x (inr (omega arith)),
      copy_words_at words 0 dest src m x bytes (inr (omega arith)),
      copy_words_at words 0 dest src m (src + (x - dest)) bytes (inr (omega arith)),
    )

-- Over bytes, for regions in which no byte of the destination lies above the start of the source and below its
-- end, `memcpy`, with its word loop or without, moves exactly the `n` bytes.
pub memcpy_lem :
    (m : Memory) (dest src n : ℕ)
    → IsBytes m
    → (dest ≤ src) ⊎ (src + n ≤ dest)
    → memcpy m dest src n ≡ moved m dest src n
memcpy_lem m dest src n bytes h = fun_ext λ x. memcpy_at m dest src n x bytes h

-- `memmove` moves exactly the `n` bytes, however the regions overlap.
pub memmove_lem : (m : Memory) (dest src n : ℕ) → memmove m dest src n ≡ moved m dest src n
unfolding memmove
memmove_lem m dest src n = fun_ext λ x. elim (dec_lt src dest) [
  | yes later ↦ elim (dec_lt dest (src + n)) [
    | yes inside ↦ ground (arith, copy_down_at n dest src m x (omega arith))
    | no apart ↦ ground (arith, copy_up_at n 0 dest src m x (inr (omega arith)))
  ]
  | no low ↦ ground (arith, copy_up_at n 0 dest src m x (inl (omega arith)))
]

-- `memset` sets exactly the `n` bytes to the low byte of `val`, by words or by bytes.
pub memset_lem : (m : Memory) (dest val n : ℕ) → memset m dest val n ≡ filled m dest (u8 val) n
unfolding memset
memset_lem m dest val n = fun_ext λ x.
    let words = n / 4 in
    ground (
      arith,
      fill_up_at n 0 dest (u8 val) m x,
      fill_up_at (n - words * 4) (words * 4) dest (u8 val)
          (fill_words words 0 dest (u32 (spread (u8 val))) m) x,
      fill_words_at words 0 dest (u8 val) m x (omega arith),
    )

-- The bytes of two regions agree from index `i` up to `j`.
abbrev pub Agree : Memory → ℕ → ℕ → ℕ → ℕ → Type 0
Agree m s1 s2 i j = (k : ℕ) → i ≤ k → k < j → m (s1 + k) ≡ m (s2 + k)

-- What a result of `memcmp` means: no difference up to `j`, or the first one is at some `k`, and
-- there the first region has the lower, or the higher byte.
abbrev pub Decides : Memory → ℕ → ℕ → ℕ → ℕ → Sign → Type 0
Decides m s1 s2 i j same = Agree m s1 s2 i j
Decides m s1 s2 i j below = (k : ℕ) × (k < j) × Agree m s1 s2 i k × (m (s1 + k) < m (s2 + k))
Decides m s1 s2 i j above = (k : ℕ) × (k < j) × Agree m s1 s2 i k × (m (s2 + k) < m (s1 + k))

Agree-step :
    (m : Memory) (s1 s2 i j : ℕ)
    → m (s1 + i) ≡ m (s2 + i)
    → Agree m s1 s2 (i + 1) j
    → Agree m s1 s2 i j
Agree-step m s1 s2 i j e h k lo hi = elim (ℕ_discrete i k) [
  | yes p ↦ rw (← p) e
  | no p ↦ h k (omega arith) hi
]

Decides-step :
    (m : Memory) (s1 s2 i j : ℕ) (r : Sign)
    → m (s1 + i) ≡ m (s2 + i)
    → Decides m s1 s2 (i + 1) j r
    → Decides m s1 s2 i j r
Decides-step m s1 s2 i j same e h = Agree-step m s1 s2 i j e h
Decides-step m s1 s2 i j below e (k, lt, eq, d) = (k, lt, Agree-step m s1 s2 i k e eq, d)
Decides-step m s1 s2 i j above e (k, lt, eq, d) = (k, lt, Agree-step m s1 s2 i k e eq, d)

memcmp_from-Decides :
    (m : Memory) (s1 s2 rounds i j : ℕ)
    → i + rounds ≡ j
    → Decides m s1 s2 i j (memcmp_from m s1 s2 rounds i)
unfolding memcmp_from
memcmp_from-Decides m s1 s2 zero i j e = λ k lo hi. absurd (omega arith)
memcmp_from-Decides m s1 s2 (suc rounds) i j e = elim (ℕ_discrete (m (s1 + i)) (m (s2 + i))) [
  | yes p ↦
      rw ((==_iff _ _).1 p)
        (Decides-step m s1 s2 i j _ p (memcmp_from-Decides m s1 s2 rounds (i + 1) j (omega arith)))
  | no p ↦ elim (dec_lt (m (s1 + i)) (m (s2 + i))) [
    | yes lt ↦
        rw (ne→== _ _ p, lt→ltb _ _ lt) (i, omega arith, (λ k lo hi. absurd (omega arith)), lt)
    | no ge ↦
        rw (ne→== _ _ p, le→ltb (m (s1 + i)) (m (s2 + i)) (omega arith))
          (i, omega arith, (λ k lo hi. absurd (omega arith)), omega arith)
  ]
]

-- `memcmp` finds the first difference, and compares the two bytes there without sign.
pub memcmp_lem : (m : Memory) (s1 s2 n : ℕ) → Decides m s1 s2 0 n (memcmp m s1 s2 n)
unfolding memcmp
memcmp_lem m s1 s2 n = memcmp_from-Decides m s1 s2 n 0 n (omega arith)
