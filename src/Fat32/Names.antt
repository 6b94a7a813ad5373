-- ===== src/Fat32/Names.antt =====
-- kernel.cpp, the names in 8.3 format: `to_83_format` and `from_83_format`.
use text_os.Common.{
  ℕ, zero, suc, ◌+◌, ◌≤◌, ◌<◌, ◌≡◌, ◌≢◌, ◌⊎◌, inl, inr, refl, sym, ap, append-nil, ◌∙◌, Bool, false,
  true, not, List, [], ◌∷◌, ◌++◌, map, length, All, arith, ◌==◌, ne→==, ==_refl, ltb, if◌then◌else◌,
}
use text_os.Memory.{Memory, store}
use text_os.Fat32.Directory.{copy_name, skip_dot, to_upper, to_83_format}
use text_os.Fat32.Showing.{take_name, from_83_format}

-- The capitals of a text, from the index `j` on.
put_upper : Memory → ℕ → List ℕ → Memory
put_upper out j [] = out
put_upper out j (c ∷ cs) = put_upper (store out j (to_upper c)) (j + 1) cs

abbrev Stands : Memory → ℕ → List ℕ → Type 0
Stands m i [] = Unit {0}
Stands m i (c ∷ cs) = (m i ≡ to_upper c) × Stands m (i + 1) cs

put_upper_outside :
    (out : Memory) (j : ℕ) (cs : List ℕ) (x : ℕ)
    → (x < j) ⊎ (j + length cs ≤ x)
    → put_upper out j cs x ≡ out x
unfolding put_upper
put_upper_outside out j [] x h = refl
put_upper_outside out j (c ∷ cs) x (inl h) =
    ground (arith, put_upper_outside (store out j (to_upper c)) (j + 1) cs x (inl (omega arith)))
put_upper_outside out j (c ∷ cs) x (inr h) =
    ground (arith, put_upper_outside (store out j (to_upper c)) (j + 1) cs x (inr (omega arith)))

put_upper-Stands : (out : Memory) (j : ℕ) (cs : List ℕ) → Stands (put_upper out j cs) j cs
unfolding put_upper
put_upper-Stands out j [] = tt
put_upper-Stands out j (c ∷ cs) = (
  put_upper_outside (store out j (to_upper c)) (j + 1) cs j (inl (omega arith)) ∙ rw ==_refl,
  put_upper-Stands (store out j (to_upper c)) (j + 1) cs,
)

Stands-agree :
    (m n : Memory) (i : ℕ) (cs : List ℕ)
    → ((x : ℕ) → x < i + length cs → n x ≡ m x)
    → Stands m i cs
    → Stands n i cs
Stands-agree m n i [] same h = tt
Stands-agree m n i (c ∷ cs) same (e, h) =
    (same i (omega arith) ∙ e, Stands-agree m n (i + 1) cs (λ x lt. same x (omega arith)) h)

take_name-Stands :
    (rounds i : ℕ) (m : Memory) (cs : List ℕ)
    → Stands m i cs
    → All (λ c. c ≢ b' ') cs
    → length cs ≤ rounds
    → (length cs < rounds → m (i + length cs) ≡ b' ')
    → take_name rounds i m ≡ map to_upper cs
unfolding take_name
take_name-Stands zero i m [] h plain le end = refl
take_name-Stands zero i m (c ∷ cs) h plain le end = absurd (omega arith)
take_name-Stands (suc rounds) i m [] h plain le end =
    let here : m i ≡ b' ' = ap m (omega arith) ∙ end (omega arith) in rw here refl
take_name-Stands (suc rounds) i m (c ∷ cs) (e, h) (ne, plain) le end =
    let rest =
      take_name-Stands rounds (i + 1) m cs h plain (omega arith)
        (λ lt. ap m (omega arith) ∙ end (omega arith)) in
    rw (e, ne→== (to_upper c) b' ' (ground arith), rest) refl

-- The copy ends behind the text, with its capitals in place.
copy_name-append :
    (stops : ℕ → Bool) (rounds j : ℕ) (cs rest : List ℕ) (out : Memory)
    → All (λ c. stops c ≡ false) cs
    → length cs ≤ rounds
    → ((k i : ℕ) (n : Memory) → copy_name stops k i rest n ≡ (rest, n))
    → copy_name stops rounds j (cs ++ rest) out ≡ (rest, put_upper out j cs)
unfolding copy_name put_upper
copy_name-append stops rounds j [] rest out go le ends = ends rounds j out
copy_name-append stops zero j (c ∷ cs) rest out go le ends = absurd (omega arith)
copy_name-append stops (suc rounds) j (c ∷ cs) rest out (g, go) le ends =
    rw g (
      copy_name-append stops rounds (j + 1) cs rest (store out j (to_upper c)) go (omega arith)
        ends)

abbrev pub suffix : List ℕ → List ℕ
suffix [] = []
suffix (c ∷ cs) = b'.' ∷ c ∷ cs

stops_at :
    (stops : ℕ → Bool) (cs : List ℕ) (k i : ℕ) (n : Memory)
    → stops b'.' ≡ true
    → copy_name stops k i (suffix cs) n ≡ (suffix cs, n)
unfolding copy_name
stops_at stops [] zero i n h = refl
stops_at stops [] (suc k) i n h = refl
stops_at stops (c ∷ cs) zero i n h = refl
stops_at stops (c ∷ cs) (suc k) i n h = rw h refl

ends_at : (stops : ℕ → Bool) (k i : ℕ) (n : Memory) → copy_name stops k i [] n ≡ ([], n)
unfolding copy_name
ends_at stops zero i n = refl
ends_at stops (suc k) i n = refl

skip_dot-suffix : (cs : List ℕ) → skip_dot (suffix cs) ≡ cs
skip_dot-suffix [] = refl
skip_dot-suffix (c ∷ cs) = refl

-- A character of a base name.
abbrev pub IsBaseCharacter : ℕ → Type 0
IsBaseCharacter c = (c ≢ b'.') × (c ≢ b' ')

base_goes : (cs : List ℕ) → All IsBaseCharacter cs → All (λ c. (c == b'.') ≡ false) cs
base_goes [] h = tt
base_goes (c ∷ cs) ((ne, _), h) = (ne→== c b'.' ne, base_goes cs h)

base_plain : (cs : List ℕ) → All IsBaseCharacter cs → All (λ c. c ≢ b' ') cs
base_plain [] h = tt
base_plain (c ∷ cs) ((_, ne), h) = (ne, base_plain cs h)

all_go : (cs : List ℕ) → All (λ c. ◌≡◌ {A = Bool} false false) cs
all_go [] = tt
all_go (c ∷ cs) = (refl, all_go cs)

module _ (base ext : List ℕ) (out : Memory) (base_chars : All IsBaseCharacter base)
    (ext_chars : All (λ c. c ≢ b' ') ext) (base_fits : length base ≤ 8)
    (ext_fits : length ext ≤ 3) where
  abbrev blank : Memory
  blank i = if ltb i 11 then b' ' else out i

  abbrev packed_base : Memory
  packed_base = put_upper blank 0 base

  abbrev packed : Memory
  packed = put_upper packed_base 8 ext

  to_83_format-packed : to_83_format (base ++ suffix ext) out ≡ packed
  unfolding to_83_format
  to_83_format-packed =
      let first =
        copy_name-append (λ c. c == b'.') 8 0 base (suffix ext) blank (base_goes base base_chars)
          base_fits (λ k i n. stops_at (λ c. c == b'.') ext k i n refl) in
      let second : copy_name (λ c. false) 3 8 ext packed_base ≡ ([], packed) =
        ap (λ (t : List ℕ). copy_name (λ c. false) 3 8 t packed_base) (sym (append-nil ext))
        ∙ copy_name-append (λ c. false) 3 8 ext [] packed_base (all_go ext) ext_fits
            (λ k i n. ends_at (λ c. false) k i n) in
      rw (to_83_format, first, skip_dot-suffix ext) (ap (λ (p : List ℕ × Memory). p.1) second)

  shown_base : take_name 8 0 packed ≡ map to_upper base
  shown_base =
      take_name-Stands 8 0 packed base
        (Stands-agree packed_base packed 0 base
          (λ x lt. put_upper_outside packed_base 8 ext x (inl (omega arith)))
          (put_upper-Stands blank 0 base))
        (base_plain base base_chars) base_fits
        (λ lt.
          put_upper_outside packed_base 8 ext (0 + length base) (inl (omega arith))
          ∙ put_upper_outside blank 0 base (0 + length base) (inr (omega arith))
          ∙ ground arith)

  shown_ext : take_name 3 8 packed ≡ map to_upper ext
  shown_ext =
      take_name-Stands 3 8 packed ext (put_upper-Stands packed_base 8 ext) ext_chars ext_fits (λ lt.
        put_upper_outside packed_base 8 ext (8 + length ext) (inr (omega arith))
        ∙ put_upper_outside blank 0 base (8 + length ext) (inr (omega arith))
        ∙ ground arith)

shown_suffix :
    (base ext : List ℕ) (out : Memory)
    → length base ≤ 8
    → All (λ c. c ≢ b' ') ext
    → take_name 3 8 (put_upper (put_upper (λ i. if ltb i 11 then b' ' else out i) 0 base) 8 ext)
      ≡ map to_upper ext
    → let m = put_upper (put_upper (λ i. if ltb i 11 then b' ' else out i) 0 base) 8 ext in
      (if not (m 8 == b' ') then b'.' ∷ take_name 3 8 m else []) ≡ suffix (map to_upper ext)
unfolding put_upper
shown_suffix base [] out fits plain e =
    let end =
      put_upper_outside (λ i. if ltb i 11 then b' ' else out i) 0 base 8 (inr (omega arith)) in
    rw end refl
shown_suffix base (c ∷ cs) out fits (ne, plain) e =
    let first =
      (put_upper-Stands (put_upper (λ i. if ltb i 11 then b' ' else out i) 0 base) 8 (c ∷ cs)).0 in
    rw (first, ne→== (to_upper c) b' ' (ground arith), e) refl

-- For a base name of at most 8 characters other than the point and the space, and an extension of at most
-- 3 other than the space, `from_83_format` shows of what `to_83_format` packs the base name and, with an
-- extension, the point and the extension, in capitals.
pub from_83_format-to_83_format :
    (base ext : List ℕ) (out : Memory)
    → All IsBaseCharacter base
    → All (λ c. c ≢ b' ') ext
    → length base ≤ 8
    → length ext ≤ 3
    → from_83_format (to_83_format (base ++ suffix ext) out)
      ≡ map to_upper base ++ suffix (map to_upper ext)
unfolding from_83_format
from_83_format-to_83_format base ext out hb he fb fe =
    rw (to_83_format-packed base ext out hb he fb fe, shown_base base ext out hb he fb fe)
      (ap (λ (t : List ℕ). map to_upper base ++ t)
        (shown_suffix base ext out fb he (shown_ext base ext out hb he fb fe)))
