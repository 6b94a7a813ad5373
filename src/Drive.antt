-- ===== src/Drive.antt =====
-- What the file system of kernel.cpp uses of a disk: `read_sectors` and `write_sectors` of identify.h for
-- one controller and port. A transfer of `count` sectors of 512 bytes from `lba` on reads into a buffer,
-- a function from an offset to a byte, or fails; only its first `512 * count` bytes have a meaning.
use text_os.Common.{
  ℕ, ◌+◌, ◌-◌, ◌*◌, ◌≤◌, ◌≡◌, Bool, true, ◌&&◌, Option, some, ltb, leb, if◌then◌else◌,
}
use text_os.Memory.{Memory}

pub record Drive : Type 1 where
  pub State : Type 0
  pub read_sectors : State → ℕ → ℕ → Option Memory
  pub write_sectors : State → ℕ → ℕ → Memory → Bool × State

-- The memory `m` with the first `n` bytes of `bytes` at `at`.
abbrev pub written : Memory → ℕ → ℕ → Memory → Memory
written m at n bytes x = if leb at x && ltb x (at + n) then bytes (x - at) else m x

-- A drive without faults: it holds a byte at each address, every transfer of at most 128 sectors, as
-- many as one command of the driver moves, inside its capacity succeeds, a read returns the bytes that are held, and a write changes exactly those. Past the sectors
-- that were asked for the buffer goes on with what is held there, and nothing looks at it.
pub record IsReliable (D : Drive) : Type 0 where
  pub capacity : ℕ
  pub held : D.State → Memory
  pub read-held :
      (s : D.State) (lba count : ℕ)
      → lba + count ≤ capacity
      → count ≤ 128
      → D.read_sectors s lba count ≡ some (λ i. held s (lba * 512 + i))
  pub write-succeeds :
      (s : D.State) (lba count : ℕ) (bytes : Memory)
      → lba + count ≤ capacity
      → count ≤ 128
      → (D.write_sectors s lba count bytes).0 ≡ true
  pub held-write :
      (s : D.State) (lba count : ℕ) (bytes : Memory) (x : ℕ)
      → lba + count ≤ capacity
      → count ≤ 128
      → held (D.write_sectors s lba count bytes).1 x
        ≡ written (held s) (lba * 512) (count * 512) bytes x
