-- ===== src/Memory.antt =====
-- The memory operations of stdlib_hooks.cpp over a memory that maps an address to a byte:
-- memcpy, memmove, memset and memcmp. An address is a number; `dest + i` is not wrapped, since C
-- leaves an object past the end of the address space undefined.
pub mod Loops
pub mod Laws
pub mod Words
mod Examples
use Prim.Native.Nat.{bit_and, bit_or}
use text_os.Common.{
  ℕ, zero, suc, ◌+◌, ◌-◌, ◌*◌, ◌/◌, ◌%◌, ◌^◌, Bool, true, false, ◌&&◌, ltb, leb, ◌==◌,
  if◌then◌else◌, u8, u32,
}

abbrev pub Memory : Type 0
Memory = ℕ → ℕ

-- `*a = v` for a byte.
abbrev pub store : Memory → ℕ → ℕ → Memory
store m a v x = if x == a then v else m x

-- `*(uint32_t*)a`, and the assignment to it: the low byte comes first.
unfoldable pub load32 : Memory → ℕ → ℕ
load32 m a = m a + m (a + 1) * 2 ^ 8 + m (a + 2) * 2 ^ 16 + m (a + 3) * 2 ^ 24

unfoldable pub store32 : Memory → ℕ → ℕ → Memory
store32 m a w =
    store (store (store (store m a (u8 w)) (a + 1) (u8 (w / 2 ^ 8))) (a + 2) (u8 (w / 2 ^ 16)))
      (a + 3) (u8 (w / 2 ^ 24))

-- `for (i = i0; i < i0 + rounds; i++) d[i] = s[i]`
unfoldable pub copy_up : ℕ → ℕ → ℕ → ℕ → Memory → Memory
copy_up zero i d s m = m
copy_up (suc rounds) i d s m = copy_up rounds (i + 1) d s (store m (d + i) (m (s + i)))

-- `for (i = n; i > 0; i--) d[i-1] = s[i-1]`
unfoldable pub copy_down : ℕ → ℕ → ℕ → Memory → Memory
copy_down zero d s m = m
copy_down (suc i) d s m = copy_down i d s (store m (d + i) (m (s + i)))

-- `for (i = i0; i < i0 + rounds; i++) d32[i] = s32[i]`
unfoldable pub copy_words : ℕ → ℕ → ℕ → ℕ → Memory → Memory
copy_words zero i d s m = m
copy_words (suc rounds) i d s m =
    copy_words rounds (i + 1) d s (store32 m (d + 4 * i) (load32 m (s + 4 * i)))

-- `for (i = i0; i < i0 + rounds; i++) d[i] = v`
unfoldable pub fill_up : ℕ → ℕ → ℕ → ℕ → Memory → Memory
fill_up zero i d v m = m
fill_up (suc rounds) i d v m = fill_up rounds (i + 1) d v (store m (d + i) v)

-- `for (i = i0; i < i0 + rounds; i++) d32[i] = v32`
unfoldable pub fill_words : ℕ → ℕ → ℕ → ℕ → Memory → Memory
fill_words zero i d w m = m
fill_words (suc rounds) i d w m = fill_words rounds (i + 1) d w (store32 m (d + 4 * i) w)

-- The first two loops of `memcpy` take the addresses that are multiples of four.
abbrev is_aligned : ℕ → Bool
is_aligned a = bit_and a 0x3 == 0

unfoldable pub memcpy : Memory → ℕ → ℕ → ℕ → Memory
memcpy m dest src n =
    if is_aligned dest && is_aligned src && leb 4 n
    then (let words = n / 4 in
        copy_up (n - words * 4) (words * 4) dest src (copy_words words 0 dest src m))
    else copy_up n 0 dest src m

unfoldable pub memmove : Memory → ℕ → ℕ → ℕ → Memory
memmove m dest src n =
    if ltb src dest && ltb dest (src + n) then copy_down n dest src m else copy_up n 0 dest src m

-- `v | (v << 8) | (v << 16) | (v << 24)`
unfoldable pub spread : ℕ → ℕ
spread v = bit_or (bit_or (bit_or v (v * 2 ^ 8)) (v * 2 ^ 16)) (v * 2 ^ 24)

unfoldable pub memset : Memory → ℕ → ℕ → ℕ → Memory
memset m dest val n =
    let v = u8 val in
    if is_aligned dest && leb 4 n
    then (let words = n / 4 in
        fill_up (n - words * 4) (words * 4) dest v (fill_words words 0 dest (u32 (spread v)) m))
    else fill_up n 0 dest v m

-- The result of `memcmp` and of the string comparisons: -1, 0 or 1.
pub data Sign : Type 0 where
  below same above : Sign

memcmp_from : Memory → ℕ → ℕ → ℕ → ℕ → Sign
memcmp_from m s1 s2 zero i = same
memcmp_from m s1 s2 (suc rounds) i =
    let rest = memcmp_from m s1 s2 rounds (i + 1) in
    if m (s1 + i) == m (s2 + i)
    then rest
    else if ltb (m (s1 + i)) (m (s2 + i))
    then below
    else above

unfoldable pub memcmp : Memory → ℕ → ℕ → ℕ → Sign
unfolding memcmp_from
memcmp m s1 s2 n = memcmp_from m s1 s2 n 0
