-- ===== src/CString/Searching.antt =====
-- What strchr and strrchr find in the string at their argument.
use text_os.Common.{
  ℕ, zero, suc, ◌+◌, ◌<◌, ◌≤◌, ◌≡◌, ◌≢◌, refl, List, [], ◌∷◌, length, Option, some, none, arith,
  ◌∙◌, eq→==, ne→==, ℕ_discrete, u8,
}
use mathlib.Core.Path.{subst}
use text_os.Memory.{Memory}
use text_os.CString.{strchr, strrchr, strrchr_from}
use text_os.CString.Strings.{IsString}

-- No address from `lo` up to, but not including, `hi` holds `c`.
abbrev pub Lacks : Memory → ℕ → ℕ → ℕ → Type 0
Lacks m lo hi c = (x : ℕ) → lo ≤ x → x < hi → m x ≢ c

-- `r` is the lowest address of `c` from `s` up to `end`, the zero included, or there is none.
abbrev pub IsFirst : Memory → ℕ → ℕ → ℕ → Option ℕ → Type 0
IsFirst m s end c (some p) = (s ≤ p) × (p ≤ end) × (m p ≡ c) × Lacks m s p c
IsFirst m s end c none = Lacks m s (end + 1) c

-- `r` is the highest address of `c` from `s` up to `end`, the zero left out, or there is none.
abbrev pub IsLast : Memory → ℕ → ℕ → ℕ → Option ℕ → Type 0
IsLast m s end c (some p) = (s ≤ p) × (p < end) × (m p ≡ c) × Lacks m (p + 1) end c
IsLast m s end c none = Lacks m s end c

Lacks-step : (m : Memory) (lo hi c : ℕ) → m lo ≢ c → Lacks m (lo + 1) hi c → Lacks m lo hi c
Lacks-step m lo hi c ne h x le lt = elim (ℕ_discrete lo x) [
  | yes e ↦ rw (← e) ne
  | no d ↦ h x (omega arith) lt
]

IsFirst-step :
    (m : Memory) (s end c : ℕ) (r : Option ℕ)
    → m s ≢ c
    → IsFirst m (s + 1) end c r
    → IsFirst m s end c r
IsFirst-step m s end c none ne h = Lacks-step m s (end + 1) c ne h
IsFirst-step m s end c (some p) ne (lo, hi, at, h) = (omega arith, hi, at, Lacks-step m s p c ne h)

-- `strchr` returns the first address of the character, where the terminating zero counts, or nullptr
-- if the string does not hold it.
pub strchr_lem :
    (fuel s c : ℕ) (m : Memory) (bs : List ℕ)
    → IsString m s bs
    → length bs < fuel
    → (r : Option ℕ) × (strchr fuel m s c ≡ some r) × IsFirst m s (s + length bs) (u8 c) r
unfolding strchr
strchr_lem zero s c m bs h lt = elim lt [ ]
strchr_lem (suc fuel) s c m [] h lt = elim (ℕ_discrete 0 (u8 c)) [
  | yes e ↦ (
    some s,
    rw (h, eq→== 0 (u8 c) e),
    (omega arith, omega arith, h ∙ e, λ x lo hi. absurd (omega arith)),
  )
  | no d ↦
      (none, rw (h, ne→== 0 (u8 c) d), λ x lo hi. (let at : x ≡ s = omega arith in rw (at, h) d))
]
strchr_lem (suc fuel) s c m (b ∷ bs) (e, nz, h) lt = elim (ℕ_discrete b (u8 c)) [
  | yes p ↦ (
    some s,
    rw (e, eq→== b (u8 c) p, ne→== b 0 nz),
    (omega arith, omega arith, e ∙ p, λ x lo hi. absurd (omega arith)),
  )
  | no d ↦
      let (r, found, first) = strchr_lem fuel (s + 1) c m bs h (omega arith) in
      let shift : s + 1 + length bs ≡ s + suc (length bs) = omega arith in
      (
        r,
        rw (e, ne→== b (u8 c) d, ne→== b 0 nz) found,
        IsFirst-step m s (s + suc (length bs)) (u8 c) r (rw e d) (rw shift at first),
      )
]

-- What the loop of `strrchr` returns, with `last` found before `s`.
strrchr_from-IsLast :
    (fuel s start end c : ℕ) (m : Memory) (bs : List ℕ) (last : Option ℕ)
    → end ≡ s + length bs
    → start ≤ s
    → IsString m s bs
    → length bs < fuel
    → IsLast m start s (u8 c) last
    → (r : Option ℕ) × (strrchr_from fuel m s c last ≡ some r) × IsLast m start end (u8 c) r
unfolding strrchr_from
strrchr_from-IsLast zero s start end c m bs last ee le h lt inv = elim lt [ ]
strrchr_from-IsLast (suc fuel) s start end c m [] last ee le h lt inv =
    let here : s ≡ end = omega arith in
    (last, rw h, subst (λ t. IsLast m start t (u8 c) last) here inv)
strrchr_from-IsLast (suc fuel) s start end c m (b ∷ bs) last ee le (e, nz, h) lt inv =
    elim (ℕ_discrete b (u8 c)) [
      | yes p ↦
          rw (e, eq→== b (u8 c) p, ne→== b 0 nz)
            (strrchr_from-IsLast fuel (s + 1) start end c m bs (some s) (omega arith) (omega arith)
              h (omega arith) (le, omega arith, e ∙ p, λ x lo hi. absurd (omega arith)))
      | no d ↦
          rw (e, ne→== b (u8 c) d, ne→== b 0 nz)
            (strrchr_from-IsLast fuel (s + 1) start end c m bs last (omega arith) (omega arith) h
              (omega arith) (extend last inv d))
    ]
  where
    further : (lo : ℕ) → Lacks m lo s (u8 c) → b ≢ u8 c → Lacks m lo (s + 1) (u8 c)
    further lo k d x le lt = elim (ℕ_discrete x s) [
      | yes at ↦ rw (at, e) d
      | no other ↦ k x le (omega arith)
    ]

    extend : (r : Option ℕ) → IsLast m start s (u8 c) r → b ≢ u8 c → IsLast m start (s + 1) (u8 c) r
    extend none k d = further start k d
    extend (some p) (lo, hi, at, k) d = (lo, omega arith, at, further (p + 1) k d)

-- `strrchr` returns the last address of the character before the terminating zero, or nullptr. It
-- never finds the zero itself.
pub strrchr_lem :
    (fuel s c : ℕ) (m : Memory) (bs : List ℕ)
    → IsString m s bs
    → length bs < fuel
    → (r : Option ℕ) × (strrchr fuel m s c ≡ some r) × IsLast m s (s + length bs) (u8 c) r
unfolding strrchr
strrchr_lem fuel s c m bs h lt =
    strrchr_from-IsLast fuel s s (s + length bs) c m bs none refl (omega arith) h lt
      (λ x lo hi. absurd (omega arith))
