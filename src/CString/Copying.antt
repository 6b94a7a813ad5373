-- ===== src/CString/Copying.antt =====
-- The contracts of strcpy and strcat.
use text_os.Common.{
  ℕ, zero, suc, ◌+◌, ◌<◌, ◌≤◌, ◌≡◌, ◌≢◌, refl, ◌⊎◌, inl, inr, List, [], ◌∷◌, ◌++◌, length,
  length-append, All, some, arith, ==_refl, ne→==, ◌∙◌,
}
use mathlib.Core.Path.{subst}
use text_os.Memory.{Memory, store}
use text_os.CString.{strcpy, strcat}
use text_os.CString.Strings.{IsString, IsString-same}

-- The memory after the bytes `bs` were written at `d` with a zero behind them.
abbrev pub write_string : Memory → ℕ → List ℕ → Memory
write_string m d [] = store m d 0
write_string m d (b ∷ bs) = write_string (store m d b) (d + 1) bs

write_string_outside :
    (m : Memory) (d : ℕ) (bs : List ℕ) (x : ℕ)
    → (x < d) ⊎ (d + length bs < x)
    → write_string m d bs x ≡ m x
write_string_outside m d [] x h = ground arith
write_string_outside m d (b ∷ bs) x (inl h) =
    ground (arith, write_string_outside (store m d b) (d + 1) bs x (inl (omega arith)))
write_string_outside m d (b ∷ bs) x (inr h) =
    ground (arith, write_string_outside (store m d b) (d + 1) bs x (inr (omega arith)))

IsString-nonzero : (m : Memory) (s : ℕ) (bs : List ℕ) → IsString m s bs → All (λ b. b ≢ 0) bs
IsString-nonzero m s [] h = tt
IsString-nonzero m s (b ∷ bs) (e, ne, h) = (ne, IsString-nonzero m (s + 1) bs h)

pub write_string-IsString :
    (m : Memory) (d : ℕ) (bs : List ℕ) → All (λ b. b ≢ 0) bs → IsString (write_string m d bs) d bs
write_string-IsString m d [] h = rw ==_refl
write_string-IsString m d (b ∷ bs) (ne, h) = (
  write_string_outside (store m d b) (d + 1) bs d (inl (omega arith)) ∙ rw ==_refl,
  ne,
  write_string-IsString (store m d b) (d + 1) bs h,
)

strcpy_writes :
    (fuel dest src : ℕ) (m : Memory) (bs : List ℕ)
    → IsString m src bs
    → length bs < fuel
    → (dest ≤ src) ⊎ (src + length bs < dest)
    → strcpy fuel m dest src ≡ some (write_string m dest bs)
unfolding strcpy
strcpy_writes zero dest src m bs h lt apart = elim lt [ ]
strcpy_writes (suc fuel) dest src m [] h lt apart = ground arith
strcpy_writes (suc fuel) dest src m (b ∷ bs) (e, ne, h) lt apart =
    rw (e, ne→== b 0 ne)
      (strcpy_writes fuel (dest + 1) (src + 1) (store m dest b) bs
        (IsString-same m (store m dest b) (src + 1) bs (λ x lo hi. rw (ne→== x dest (omega arith)))
          h)
        (omega arith) (apart_next apart))
  where
    apart_next :
        (dest ≤ src) ⊎ (src + suc (length bs) < dest)
        → (dest + 1 ≤ src + 1) ⊎ (src + 1 + length bs < dest + 1)
    apart_next (inl p) = inl (omega arith)
    apart_next (inr p) = inr (omega arith)

-- What a copied string leaves: the string at `d`, and the rest of memory as it was.
abbrev pub Copied : Memory → Memory → ℕ → List ℕ → Type 0
Copied m n d bs = IsString n d bs × ((x : ℕ) → (x < d) ⊎ (d + length bs < x) → n x ≡ m x)

-- With fuel above the length, `strcpy` puts the string of `src` at `dest` and writes nowhere else, if `dest` does not lie inside
-- the source behind its start.
pub strcpy_lem :
    (fuel dest src : ℕ) (m : Memory) (bs : List ℕ)
    → IsString m src bs
    → length bs < fuel
    → (dest ≤ src) ⊎ (src + length bs < dest)
    → (n : Memory) × (strcpy fuel m dest src ≡ some n) × Copied m n dest bs
strcpy_lem fuel dest src m bs h lt apart = (
  write_string m dest bs,
  strcpy_writes fuel dest src m bs h lt apart,
  (write_string-IsString m dest bs (IsString-nonzero m src bs h), write_string_outside m dest bs),
)

strcat_writes :
    (fuel dest src end : ℕ) (m : Memory) (front bs : List ℕ)
    → end ≡ dest + length front
    → IsString m dest front
    → IsString m src bs
    → length front + length bs < fuel
    → (end ≤ src) ⊎ (src + length bs < end)
    → strcat fuel m dest src ≡ some (write_string m end bs)
unfolding strcat
strcat_writes zero dest src end m front bs e hd hs lt apart = elim lt [ ]
strcat_writes (suc fuel) dest src end m [] bs e hd hs lt apart =
    let same : end ≡ dest = omega arith in
    rw (hd, same)
      (strcpy_writes (suc fuel) dest src m bs hs (omega arith)
        (subst (λ t. (t ≤ src) ⊎ (src + length bs < t)) same apart))
strcat_writes (suc fuel) dest src end m (b ∷ front) bs e (at, ne, hd) hs lt apart =
    rw (at, ne→== b 0 ne)
      (strcat_writes fuel (dest + 1) src end m front bs (omega arith) hd hs (omega arith) apart)

append-IsString :
    (m : Memory) (d end : ℕ) (front bs : List ℕ)
    → end ≡ d + length front
    → All (λ b. b ≢ 0) bs
    → IsString m d front
    → IsString (write_string m end bs) d (front ++ bs)
append-IsString m d end [] bs e nz h =
    let same : end ≡ d = omega arith in rw same (write_string-IsString m d bs nz)
append-IsString m d end (b ∷ front) bs e nz (at, ne, h) = (
  write_string_outside m end bs d (inl (omega arith)) ∙ at,
  ne,
  append-IsString m (d + 1) end front bs (omega arith) nz h,
)

-- With fuel above both lengths together, `strcat` appends the string of `src` to that of `dest` and writes nowhere else, if the result does
-- not reach into the source and starts outside it.
pub strcat_lem :
    (fuel dest src : ℕ) (m : Memory) (front bs : List ℕ)
    → IsString m dest front
    → IsString m src bs
    → length front + length bs < fuel
    → (dest + length front + length bs < src) ⊎ (src + length bs < dest)
    → (n : Memory) × (strcat fuel m dest src ≡ some n) × Copied m n dest (front ++ bs)
strcat_lem fuel dest src m front bs hd hs lt apart = (
  write_string m (dest + length front) bs,
  strcat_writes fuel dest src (dest + length front) m front bs refl hd hs lt (settle apart),
  (
    append-IsString m dest (dest + length front) front bs refl (IsString-nonzero m src bs hs) hd,
    λ x out. write_string_outside m (dest + length front) bs x (beyond x out),
  ),
)
  where
    settle :
        (dest + length front + length bs < src) ⊎ (src + length bs < dest)
        → (dest + length front ≤ src) ⊎ (src + length bs < dest + length front)
    settle (inl p) = inl (omega arith)
    settle (inr p) = inr (omega arith)

    beyond :
        (x : ℕ)
        → (x < dest) ⊎ (dest + length (front ++ bs) < x)
        → (x < dest + length front) ⊎ (dest + length front + length bs < x)
    beyond x (inl p) = inl (omega arith)
    beyond x (inr p) = inr (omega (arith, length-append front bs))
