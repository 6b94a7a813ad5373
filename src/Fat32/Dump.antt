-- ===== src/Fat32/Dump.antt =====
-- What `fat32_read_file` of kernel.cpp prints of a file.
use mathlib.Core.Path.{subst}
use text_os.Common.{
  ℕ, zero, suc, ◌+◌, ◌≤◌, ◌<◌, ◌≡◌, ◌⊎◌, refl, ap, ◌∙◌, inl, inr, List, [], ◌∷◌, ◌++◌, length,
  arith, min, ℕ_discrete, dec_lt, lt→ltb, le→ltb, codes,
}
use text_os.Memory.{Memory}
use text_os.Fat32.{Shown, text, number}
use text_os.Fat32.Showing.{display_size, visible, shown_bytes, truncation, contents_of, closing}

-- A byte that is printed as it is.
abbrev pub IsPlain : ℕ → Type 0
IsPlain c = ((32 ≤ c) × (c ≤ 126)) ⊎ ((c ≡ 9) ⊎ ((c ≡ 10) ⊎ (c ≡ 13)))

-- A plain byte is shown by itself, any other by a point.
abbrev pub ShowsByte : ℕ → Shown → Type 0
ShowsByte c s = (IsPlain c × (s ≡ text (c ∷ []))) ⊎ ((¬ IsPlain c) × (s ≡ text (46 ∷ [])))

-- The bytes from `i` on are shown.
abbrev pub ShowsBytes : Memory → ℕ → List Shown → Type 0
ShowsBytes bytes i [] = Unit {0}
ShowsBytes bytes i (s ∷ ss) = ShowsByte (bytes i) s × ShowsBytes bytes (i + 1) ss

-- What is shown of a file: its first 2048 bytes between two lines, and a note if there are more.
pub record IsDump (name : List ℕ) (size : ℕ) (bytes : Memory) (out : List Shown) : Type 0 where
  pub body : List Shown
  pub note : List Shown
  pub length_body : length body ≡ min size 2048
  pub shows : ShowsBytes bytes 0 body
  pub truncated :
      ((size ≤ 2048) × (note ≡ []))
      ⊎ ((2048 < size)
          × (note
              ≡ text (codes "\n... (truncated, showing first ")
                ∷ number 2048
                ∷ text (codes " bytes)")
                ∷ []))
  pub whole :
      out
      ≡ text (codes "Contents of ")
        ∷ text name
        ∷ text (codes " (")
        ∷ number size
        ∷ text (codes " bytes):\n")
        ∷ text (codes "--------------------------------\n")
        ∷ (body ++ (note ++ text (codes "\n--------------------------------\n") ∷ []))

visible_lem : (c : ℕ) → ShowsByte c (text (visible c ∷ []))
visible_lem c = elim (dec_lt c 32) [
  | no high ↦ elim (dec_lt 126 c) [
    | no low ↦ inl (inl (omega arith, omega arith), ground arith)
    | yes beyond ↦ inr ((λ h. absurd (omega arith)), ground arith)
  ]
  | yes control ↦ elim (ℕ_discrete c 9) [
    | yes e ↦ inl (inr (inl e), ground arith)
    | no no_tab ↦ elim (ℕ_discrete c 10) [
      | yes e ↦ inl (inr (inr (inl e)), ground arith)
      | no no_line ↦ elim (ℕ_discrete c 13) [
        | yes e ↦ inl (inr (inr (inr e)), ground arith)
        | no no_return ↦ inr ((λ h. absurd (omega arith)), ground arith)
      ]
    ]
  ]
]

shown_bytes-agree :
    (rounds i : ℕ) (m bytes : Memory)
    → ((a : ℕ) → a < i + rounds → m a ≡ bytes a)
    → ShowsBytes bytes i (shown_bytes rounds i m)
unfolding shown_bytes
shown_bytes-agree zero i m bytes h = tt
shown_bytes-agree (suc rounds) i m bytes h = (
  subst (λ c. ShowsByte c (text (visible (m i) ∷ []))) (h i (omega arith)) (visible_lem (m i)),
  shown_bytes-agree rounds (i + 1) m bytes (λ a lt. h a (omega arith)),
)

length-shown_bytes : (rounds i : ℕ) (m : Memory) → length (shown_bytes rounds i m) ≡ rounds
unfolding shown_bytes
length-shown_bytes zero i m = refl
length-shown_bytes (suc rounds) i m = ap (λ n. suc n) (length-shown_bytes rounds (i + 1) m)

pub dump :
    (name : List ℕ) (size : ℕ) (m bytes : Memory)
    → ((a : ℕ) → a < min size 2048 → m a ≡ bytes a)
    → IsDump name size bytes (
        contents_of name size
        ++ (shown_bytes (display_size size) 0 m ++ (truncation size ++ closing)))
dump name size m bytes h = record {
  body = shown_bytes (display_size size) 0 m;
  note = truncation size;
  length_body = length-shown_bytes (display_size size) 0 m ∙ ground arith;
  shows = shown_bytes-agree (display_size size) 0 m bytes (λ a lt. h a (ground arith));
  truncated = elim (dec_lt 2048 size) [
    | yes more ↦ inr (more, rw (lt→ltb 2048 size more, lt→ltb 2048 size more) refl)
    | no all ↦
        inl (omega arith, rw (le→ltb 2048 size (omega arith), le→ltb size size (omega arith)) refl)
  ];
  whole = refl;
}
