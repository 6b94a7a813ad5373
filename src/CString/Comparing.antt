-- ===== src/CString/Comparing.antt =====
-- What string_compare, strcmp and strncmp decide about the strings at their arguments.
use text_os.Common.{
  ℕ, zero, suc, ◌+◌, ◌-◌, ◌<◌, ◌≤◌, ◌^◌, ◌≡◌, ◌≢◌, ◌↔◌, refl, List, [], ◌∷◌, length, take, Bool,
  true, false, some, arith, ap, sym, ◌∙◌, ◌==◌, eq→==, ne→==, if◌then◌else◌, ℕ_discrete,
}
use mathlib.Core.List.{cons-eq-cons}
use mathlib.Core.Option
use mathlib.Core.Path.{ap₂}
use text_os.Common.Int.{ℤ, pos, negsuc, sub_ℕ}
use text_os.Memory.{Memory, same, above}
use text_os.CString.{string_compare, strcmp, strncmp, strncmp_from}
use text_os.CString.Strings.{IsString}

-- The difference of the first two bytes that differ, the end counting xs a zero.
abbrev pub difference : List ℕ → List ℕ → ℤ
difference [] [] = pos 0
difference [] (b ∷ bs) = sub_ℕ 0 b
difference (a ∷ xs) [] = sub_ℕ a 0
difference (a ∷ xs) (b ∷ bs) = if a == b then difference xs bs else sub_ℕ a b

strcmp-difference :
    (fuel s1 s2 : ℕ) (m : Memory) (xs bs : List ℕ)
    → IsString m s1 xs
    → IsString m s2 bs
    → length xs < fuel
    → strcmp fuel m s1 s2 ≡ some (difference xs bs)
unfolding strcmp
strcmp-difference zero s1 s2 m xs bs h1 h2 lt = elim lt [ ]
strcmp-difference (suc fuel) s1 s2 m [] [] h1 h2 lt = rw (h1, h2)
strcmp-difference (suc fuel) s1 s2 m [] (b ∷ bs) h1 (e, ne, h2) lt = rw (h1, e)
strcmp-difference (suc fuel) s1 s2 m (a ∷ xs) [] (e, ne, h1) h2 lt = rw (e, h2, ne→== a 0 ne)
strcmp-difference (suc fuel) s1 s2 m (a ∷ xs) (b ∷ bs) (ea, na, h1) (eb, nb, h2) lt =
    let next = strcmp-difference fuel (s1 + 1) (s2 + 1) m xs bs h1 h2 (omega arith) in
    elim (ℕ_discrete a b) [
      | yes p ↦ rw (ea, eb, ne→== a 0 na, eq→== a b p) next
      | no p ↦ rw (ea, eb, ne→== a 0 na, ne→== a b p)
    ]

sub_ℕ-ne : (a b : ℕ) → a ≢ b → sub_ℕ a b ≢ pos 0
sub_ℕ-ne a b h = ground arith

difference-zero :
    (m : Memory) (s1 s2 : ℕ) (xs bs : List ℕ)
    → IsString m s1 xs
    → IsString m s2 bs
    → difference xs bs ≡ pos 0
    → xs ≡ bs
difference-zero m s1 s2 [] [] h1 h2 e = refl
difference-zero m s1 s2 [] (b ∷ bs) h1 (eb, nb, h2) e = absurd (ground arith)
difference-zero m s1 s2 (a ∷ xs) [] (ea, na, h1) h2 e = absurd (ground arith)
difference-zero m s1 s2 (a ∷ xs) (b ∷ bs) (ea, na, h1) (eb, nb, h2) e =
    ground (arith, difference-zero m (s1 + 1) (s2 + 1) xs bs h1 h2)

difference_refl : (xs : List ℕ) → difference xs xs ≡ pos 0
difference_refl [] = refl
difference_refl (a ∷ xs) = rw (eq→== a a refl) (difference_refl xs)

-- With fuel above the length of the first string, `strcmp` returns the difference of the first bytes that differ, taken without sign; it is 0 exactly
-- for equal strings.
pub strcmp_lem :
    (fuel s1 s2 : ℕ) (m : Memory) (xs bs : List ℕ)
    → IsString m s1 xs
    → IsString m s2 bs
    → length xs < fuel
    → (strcmp fuel m s1 s2 ≡ some (difference xs bs)) × ((difference xs bs ≡ pos 0) ↔ (xs ≡ bs))
strcmp_lem fuel s1 s2 m xs bs h1 h2 lt = (
  strcmp-difference fuel s1 s2 m xs bs h1 h2 lt,
  (difference-zero m s1 s2 xs bs h1 h2, λ e. rw (← e) (difference_refl xs)),
)

abbrev is_zero : ℤ → Bool
is_zero (pos n) = n == 0
is_zero (negsuc n) = false

is_zero-sub_ℕ : (a b : ℕ) → is_zero (sub_ℕ a b) ≡ (a == b)
is_zero-sub_ℕ a b = ground arith

-- The two loops take the same rounds.
string_compare-strcmp :
    (fuel s1 s2 : ℕ) (m : Memory)
    → string_compare fuel m s1 s2 ≡ Option.map is_zero (strcmp fuel m s1 s2)
unfolding string_compare strcmp
string_compare-strcmp zero s1 s2 m = refl
string_compare-strcmp (suc fuel) s1 s2 m =
    ground (arith, string_compare-strcmp fuel (s1 + 1) (s2 + 1) m, is_zero-sub_ℕ (m s1) (m s2))

is_zero_iff : (z : ℤ) → (is_zero z ≡ true) ↔ (z ≡ pos 0)
is_zero_iff z = ground arith

-- With fuel above the length of the first, `string_compare` answers for any two strings, and the answer is true exactly for equal ones.
pub string_compare_lem :
    (fuel s1 s2 : ℕ) (m : Memory) (xs bs : List ℕ)
    → IsString m s1 xs
    → IsString m s2 bs
    → length xs < fuel
    → (b : Bool) × (string_compare fuel m s1 s2 ≡ some b) × ((b ≡ true) ↔ (xs ≡ bs))
string_compare_lem fuel s1 s2 m xs bs h1 h2 lt =
    let (found, zero_iff) = strcmp_lem fuel s1 s2 m xs bs h1 h2 lt in
    let z = difference xs bs in
    (
      is_zero z,
      string_compare-strcmp fuel s1 s2 m ∙ ap (Option.map is_zero) found,
      (λ e. zero_iff.0 ((is_zero_iff z).0 e), λ e. (is_zero_iff z).1 (zero_iff.1 e)),
    )

strncmp_from-same :
    (rounds i s1 s2 p q : ℕ) (m : Memory) (xs bs : List ℕ)
    → p ≡ s1 + i
    → q ≡ s2 + i
    → IsString m p xs
    → IsString m q bs
    → (strncmp_from rounds i m s1 s2 ≡ same) ↔ (take rounds xs ≡ take rounds bs)
unfolding strncmp_from
strncmp_from-same zero i s1 s2 p q m xs bs ep eq h1 h2 = (λ e. refl, λ e. refl)
strncmp_from-same (suc rounds) i s1 s2 p q m [] [] ep eq h1 h2 =
    rw (← ep, ← eq, h1, h2) (λ e. refl, λ e. refl)
strncmp_from-same (suc rounds) i s1 s2 p q m [] (b ∷ bs) ep eq h1 (e, ne, h2) =
    rw (← ep, ← eq, h1, e, ne→== 0 b (λ z. ne (sym z))) (λ f. absurd (ground arith), λ f. cc)
strncmp_from-same (suc rounds) i s1 s2 p q m (a ∷ xs) [] ep eq (e, ne, h1) h2 =
    rw (← ep, ← eq, e, h2, ne→== a 0 ne) (λ f. absurd (ground arith), λ f. cc)
strncmp_from-same (suc rounds) i s1 s2 p q m (a ∷ xs) (b ∷ bs) ep eq (ea, na, h1) (eb, nb, h2) =
    let next =
      strncmp_from-same rounds (i + 1) s1 s2 (p + 1) (q + 1) m xs bs (omega arith) (omega arith) h1
        h2 in
    elim (ℕ_discrete a b) [
      | yes e ↦
          rw (← ep, ← eq, ea, eb, eq→== a b e, ne→== a 0 na)
            ((λ f. ap₂ ◌∷◌ e (next.0 f)), λ f. next.1 (cons-eq-cons.0 f).1)
      | no d ↦
          rw (← ep, ← eq, ea, eb, ne→== a b d)
            ((λ f. absurd (ground arith)), λ f. absurd (d (cons-eq-cons.0 f).0))
    ]

-- `strncmp` returns 0 exactly where the strings, cut to `n` bytes, are equal.
pub strncmp_lem :
    (m : Memory) (s1 s2 n : ℕ) (xs bs : List ℕ)
    → IsString m s1 xs
    → IsString m s2 bs
    → (strncmp m s1 s2 n ≡ same) ↔ (take n xs ≡ take n bs)
unfolding strncmp
strncmp_lem m s1 s2 n xs bs h1 h2 =
    strncmp_from-same n 0 s1 s2 s1 s2 m xs bs (omega arith) (omega arith) h1 h2

-- The two comparisons disagree on the order of bytes from 128 on: of a string that starts with a
-- byte below 128 and one that starts with a byte from 128 up, `strcmp` finds the first one smaller,
-- and `strncmp` finds it larger.
pub strncmp_order :
    (fuel s1 s2 n : ℕ) (m : Memory)
    → 0 < m s1
    → m s1 < 2 ^ 7
    → 2 ^ 7 ≤ m s2
    → (strcmp (suc fuel) m s1 s2 ≡ some (negsuc (m s2 - m s1 - 1)))
      × (strncmp m s1 s2 (suc n) ≡ above)
unfolding strcmp strncmp strncmp_from
strncmp_order fuel s1 s2 n m nz lo hi = (ground arith, ground arith)
