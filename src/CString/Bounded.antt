-- ===== src/CString/Bounded.antt =====
-- The contracts of strncpy and strncat, which take at most `n` bytes of the source.
use text_os.Common.{
  ℕ, zero, suc, ◌+◌, ◌<◌, ◌≤◌, ◌≡◌, ◌≢◌, refl, ◌⊎◌, inl, inr, List, [], ◌∷◌, length, take, some,
  arith, ne→==, ap,
}
use text_os.Memory.{Memory, store}
use text_os.CString.{strncpy, strncpy_from, pad, strncat, strncat_from}
use text_os.CString.Strings.{IsString, IsString-same, strlen_lem}
use text_os.CString.Copying.{write_string}

-- The memory after the bytes `bs` were written at `d`.
abbrev pub write_bytes : Memory → ℕ → List ℕ → Memory
write_bytes m d [] = m
write_bytes m d (b ∷ bs) = write_bytes (store m d b) (d + 1) bs

-- The `n` bytes of a field that holds `bs`: cut to `n`, or filled up with zeros.
abbrev pub padded : ℕ → List ℕ → List ℕ
padded zero bs = []
padded (suc n) [] = 0 ∷ padded n []
padded (suc n) (b ∷ bs) = b ∷ padded n bs

pad_writes :
    (rounds i dest d : ℕ) (m : Memory)
    → d ≡ dest + i
    → pad rounds i m dest ≡ write_bytes m d (padded rounds [])
unfolding pad
pad_writes zero i dest d m e = refl
pad_writes (suc rounds) i dest d m e =
    rw (← e) (pad_writes rounds (i + 1) dest (d + 1) (store m d 0) (omega arith))

strncpy_from_writes :
    (rounds i dest src s d : ℕ) (m : Memory) (bs : List ℕ)
    → s ≡ src + i
    → d ≡ dest + i
    → IsString m s bs
    → (dest ≤ src) ⊎ (s + length bs < d)
    → strncpy_from rounds i m dest src ≡ write_bytes m d (padded rounds bs)
unfolding strncpy_from
strncpy_from_writes zero i dest src s d m bs es ed h apart = refl
strncpy_from_writes (suc rounds) i dest src s d m [] es ed h apart =
    rw (← es, h) (pad_writes (suc rounds) i dest d m ed)
strncpy_from_writes (suc rounds) i dest src s d m (b ∷ bs) es ed (e, ne, h) apart =
    rw (← es, ← ed, e, ne→== b 0 ne)
      (strncpy_from_writes rounds (i + 1) dest src (s + 1) (d + 1) (store m d b) bs (omega arith)
        (omega arith)
        (IsString-same m (store m d b) (s + 1) bs (λ x lo hi. rw (ne→== x d (miss x lo hi apart)))
          h)
        (shift apart))
  where
    miss :
        (x : ℕ)
        → s + 1 ≤ x
        → x ≤ s + 1 + length bs
        → (dest ≤ src) ⊎ (s + suc (length bs) < d)
        → x ≢ d
    miss x lo hi (inl p) = omega arith
    miss x lo hi (inr p) = omega arith

    shift : (dest ≤ src) ⊎ (s + suc (length bs) < d) → (dest ≤ src) ⊎ (s + 1 + length bs < d + 1)
    shift (inl p) = inl p
    shift (inr p) = inr (omega arith)

-- `strncpy` writes exactly `n` bytes: the string cut to `n`, or the string and zeros up to `n`.
pub strncpy_lem :
    (m : Memory) (dest src n : ℕ) (bs : List ℕ)
    → IsString m src bs
    → (dest ≤ src) ⊎ (src + length bs < dest)
    → strncpy m dest src n ≡ write_bytes m dest (padded n bs)
unfolding strncpy
strncpy_lem m dest src n bs h apart =
    strncpy_from_writes n 0 dest src src dest m bs (omega arith) (omega arith) h apart

strncat_from_writes :
    (rounds i end src s d : ℕ) (m : Memory) (bs : List ℕ)
    → s ≡ src + i
    → d ≡ end + i
    → IsString m s bs
    → (d ≤ s) ⊎ (s + length bs < d)
    → strncat_from rounds i m end src ≡ write_string m d (take rounds bs)
unfolding strncat_from
strncat_from_writes zero i end src s d m bs es ed h apart = rw (← ed)
strncat_from_writes (suc rounds) i end src s d m [] es ed h apart = rw (← es, ← ed, h)
strncat_from_writes (suc rounds) i end src s d m (b ∷ bs) es ed (e, ne, h) apart =
    rw (← es, ← ed, e, ne→== b 0 ne)
      (strncat_from_writes rounds (i + 1) end src (s + 1) (d + 1) (store m d b) bs (omega arith)
        (omega arith)
        (IsString-same m (store m d b) (s + 1) bs (λ x lo hi. rw (ne→== x d (miss x lo hi apart)))
          h)
        (shift apart))
  where
    miss : (x : ℕ) → s + 1 ≤ x → x ≤ s + 1 + length bs → (d ≤ s) ⊎ (s + suc (length bs) < d) → x ≢ d
    miss x lo hi (inl p) = omega arith
    miss x lo hi (inr p) = omega arith

    shift : (d ≤ s) ⊎ (s + suc (length bs) < d) → (d + 1 ≤ s + 1) ⊎ (s + 1 + length bs < d + 1)
    shift (inl p) = inl (omega arith)
    shift (inr p) = inr (omega arith)

-- `strncat` writes the first `n` bytes of the string of `src`, and a zero, behind that of `dest`.
pub strncat_lem :
    (fuel dest src n : ℕ) (m : Memory) (front bs : List ℕ)
    → IsString m dest front
    → IsString m src bs
    → length front < fuel
    → (dest + length front ≤ src) ⊎ (src + length bs < dest + length front)
    → strncat fuel m dest src n ≡ some (write_string m (dest + length front) (take n bs))
unfolding strncat
strncat_lem fuel dest src n m front bs hd hs lt apart =
    rw (strlen_lem fuel dest m front hd lt, strncat)
      (ap some (
        strncat_from_writes n 0 (dest + length front) src src (dest + length front) m bs
          (omega arith) (omega arith) hs apart))
