-- ===== src/Dma/Channels.antt =====
-- The channels of the DMA manager: the lowest free one is taken, and given back.
use text_os.Common.{
  ℕ, ◌-◌, ◌^◌, ◌<◌, ◌≡◌, ◌≢◌, refl, ap, Bool, true, false, not, ◌&&◌, Option, none, some, ltb, ◌==◌,
  arith, lt→leb, lt→ltb, bit_and,
}
use text_os.Common.Bits.{every_below, every_below_sound}
use text_os.Dma.{DmaManager, find_channel, allocate_channel, free_channel}

-- Whether the search finds a channel below 8 that was free, with all lower ones taken, marks it, and
-- its mask gives the bitmap back.
abbrev takes : ℕ → Option (ℕ × ℕ) → Bool
takes active none = false
takes active (some (i, marked)) =
    ltb i 8
    && (bit_and active (2 ^ i) == 0)
    && (bit_and active (2 ^ i - 1) == 2 ^ i - 1)
    && not (bit_and marked (2 ^ i) == 0)
    && (bit_and marked (2 ^ 32 - 1 - 2 ^ i) == active)

search_table : every_below 255 (λ a. takes a (find_channel 8 0 a)) ≡ true
unfolding every_below find_channel
search_table = refl

-- The channel `i` is the lowest that `d` has free, `d'` has it in use, and freeing it gives `d` back.
pub record Takes (d : DmaManager) (i : ℕ) (d' : DmaManager) : Type 0 where
  pub below_eight : i < 8
  pub was_free : bit_and d.active_channels (2 ^ i) ≡ 0
  pub lowest : bit_and d.active_channels (2 ^ i - 1) ≡ 2 ^ i - 1
  pub taken : bit_and d'.active_channels (2 ^ i) ≢ 0
  pub given_back : free_channel i d' ≡ d

abbrev outcome : DmaManager → Option (ℕ × ℕ) → Option ℕ × DmaManager
outcome d r = elim r [
  | none ↦ (none, d)
  | some (i, active) ↦ (some i, record d { active_channels = active })
]

-- While one of the eight channels is free, `allocate_channel` takes the lowest free one, and
-- `free_channel` gives it back.
pub allocate_channel-Takes :
    (d : DmaManager)
    → d.active_channels < 255
    → (i : ℕ) × ((allocate_channel d).0 ≡ some i) × Takes d i (allocate_channel d).1
unfolding allocate_channel free_channel
allocate_channel-Takes d h =
    settle (find_channel 8 0 d.active_channels)
      (every_below_sound 255 _ d.active_channels search_table h)
  where
    back :
        (i marked : ℕ)
        → i < 8
        → bit_and marked (2 ^ 32 - 1 - 2 ^ i) ≡ d.active_channels
        → free_channel i (record d { active_channels = marked }) ≡ d
    back i marked lt e =
        rw (lt→leb (2 ^ 31) i (omega arith), lt→ltb i 8 lt)
          (ap (λ a. record d { active_channels = a }) e)

    settle :
        (r : Option (ℕ × ℕ))
        → takes d.active_channels r ≡ true
        → (i : ℕ) × ((outcome d r).0 ≡ some i) × Takes d i (outcome d r).1
    settle none h = cc
    settle (some (i, marked)) h = (
      i,
      refl,
      record {
        below_eight = ground arith;
        was_free = ground arith;
        lowest = ground arith;
        taken = ground arith;
        given_back = back i marked (ground arith) (ground arith);
      },
    )
