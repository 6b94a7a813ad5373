-- ===== src/Memory/Loops.antt =====
-- What the copying and filling loops leave at each address.
use text_os.Common.{
  ℕ, zero, suc, ◌+◌, ◌-◌, ◌*◌, ◌^◌, ◌≤◌, ◌<◌, ◌≡◌, refl, ◌⊎◌, inl, inr, ◌&&◌, true, ltb, leb, ◌==◌,
  ==_iff, u32, if◌then◌else◌, arith,
}
use text_os.Common.Bits.{every_below, every_below_sound}
use text_os.Memory.{
  Memory, store, load32, store32, copy_up, copy_down, copy_words, fill_up, fill_words, spread,
}

-- The memory after the `n` bytes at `src` went to `dest`, and after `n` bytes were set to `v`.
abbrev pub moved : Memory → ℕ → ℕ → ℕ → Memory
moved m dest src n x = if leb dest x && ltb x (dest + n) then m (src + (x - dest)) else m x

abbrev pub filled : Memory → ℕ → ℕ → ℕ → Memory
filled m dest v n x = if leb dest x && ltb x (dest + n) then v else m x

-- Every cell holds a byte.
abbrev pub IsBytes : Memory → Type 0
IsBytes m = (x : ℕ) → m x < 2 ^ 8

-- An upward copy is right if no round writes what a later one reads.
pub copy_up_at :
    (rounds i d s : ℕ) (m : Memory) (x : ℕ)
    → (d ≤ s) ⊎ (s + (i + rounds) ≤ d)
    → copy_up rounds i d s m x
      ≡ (if leb (d + i) x && ltb x (d + i + rounds) then m (s + (x - d)) else m x)
unfolding copy_up
copy_up_at zero i d s m x h = ground arith
copy_up_at (suc rounds) i d s m x (inl h) =
    ground (arith, copy_up_at rounds (i + 1) d s (store m (d + i) (m (s + i))) x (inl h))
copy_up_at (suc rounds) i d s m x (inr h) =
    ground
      (arith, copy_up_at rounds (i + 1) d s (store m (d + i) (m (s + i))) x (inr (omega arith)))

pub copy_down_at : (n d s : ℕ) (m : Memory) (x : ℕ) → s ≤ d → copy_down n d s m x ≡ moved m d s n x
unfolding copy_down
copy_down_at zero d s m x h = ground arith
copy_down_at (suc i) d s m x h =
    ground (arith, copy_down_at i d s (store m (d + i) (m (s + i))) x h)

pub fill_up_at :
    (rounds i d v : ℕ) (m : Memory) (x : ℕ) → fill_up rounds i d v m x ≡ filled m (d + i) v rounds x
unfolding fill_up
fill_up_at zero i d v m x = ground arith
fill_up_at (suc rounds) i d v m x =
    ground (arith, fill_up_at rounds (i + 1) d v (store m (d + i) v) x)

-- Moving a word moves its four bytes.
move_word : (m : Memory) (a b x : ℕ) → IsBytes m → store32 m a (load32 m b) x ≡ moved m a b 4 x
unfolding store32 load32
move_word m a b x bytes = ground (arith, bytes b, bytes (b + 1), bytes (b + 2), bytes (b + 3))

store32-IsBytes : (m : Memory) (a w : ℕ) → IsBytes m → IsBytes (store32 m a w)
unfolding store32
store32-IsBytes m a w bytes x = ground (arith, bytes x)

pub copy_words_at :
    (rounds i d s : ℕ) (m : Memory) (x : ℕ)
    → IsBytes m
    → (d ≤ s) ⊎ (s + 4 * (i + rounds) ≤ d)
    → copy_words rounds i d s m x
      ≡ (if leb (d + 4 * i) x && ltb x (d + 4 * i + 4 * rounds) then m (s + (x - d)) else m x)
unfolding copy_words
copy_words_at zero i d s m x bytes h = ground arith
copy_words_at (suc rounds) i d s m x bytes (inl h) =
    let next = store32 m (d + 4 * i) (load32 m (s + 4 * i)) in
    ground (
      arith,
      copy_words_at rounds (i + 1) d s next x (store32-IsBytes m _ _ bytes) (inl h),
      move_word m (d + 4 * i) (s + 4 * i) x bytes,
      move_word m (d + 4 * i) (s + 4 * i) (s + (x - d)) bytes,
    )
copy_words_at (suc rounds) i d s m x bytes (inr h) =
    let next = store32 m (d + 4 * i) (load32 m (s + 4 * i)) in
    ground (
      arith,
      copy_words_at rounds (i + 1) d s next x (store32-IsBytes m _ _ bytes) (inr (omega arith)),
      move_word m (d + 4 * i) (s + 4 * i) x bytes,
      move_word m (d + 4 * i) (s + 4 * i) (s + (x - d)) bytes,
    )

-- The four bytes of a spread byte are that byte.
spread_table : every_below 256 (λ v. spread v == v + v * 2 ^ 8 + v * 2 ^ 16 + v * 2 ^ 24) ≡ true
unfolding every_below spread
spread_table = refl

spread_sum : (v : ℕ) → v < 2 ^ 8 → spread v ≡ v + v * 2 ^ 8 + v * 2 ^ 16 + v * 2 ^ 24
spread_sum v h = (==_iff _ _).0 (every_below_sound 256 _ v spread_table h)

fill_word : (m : Memory) (a v x : ℕ) → v < 2 ^ 8 → store32 m a (u32 (spread v)) x ≡ filled m a v 4 x
unfolding store32
fill_word m a v x h = ground (arith, spread_sum v h)

pub fill_words_at :
    (rounds i d v : ℕ) (m : Memory) (x : ℕ)
    → v < 2 ^ 8
    → fill_words rounds i d (u32 (spread v)) m x ≡ filled m (d + 4 * i) v (4 * rounds) x
unfolding fill_words
fill_words_at zero i d v m x h = ground arith
fill_words_at (suc rounds) i d v m x h = ground (
  arith,
  fill_words_at rounds (i + 1) d v (store32 m (d + 4 * i) (u32 (spread v))) x h,
  fill_word m (d + 4 * i) v x h,
)

-- The two pictures, inside and outside the region.
pub moved_inside : (m : Memory) (d s n i : ℕ) → i < n → moved m d s n (d + i) ≡ m (s + i)
moved_inside m d s n i h = ground arith

pub moved_outside : (m : Memory) (d s n x : ℕ) → (x < d) ⊎ (d + n ≤ x) → moved m d s n x ≡ m x
moved_outside m d s n x h = ground arith

pub filled_inside : (m : Memory) (d v n i : ℕ) → i < n → filled m d v n (d + i) ≡ v
filled_inside m d v n i h = ground arith

pub filled_outside : (m : Memory) (d v n x : ℕ) → (x < d) ⊎ (d + n ≤ x) → filled m d v n x ≡ m x
filled_outside m d v n x h = ground arith
