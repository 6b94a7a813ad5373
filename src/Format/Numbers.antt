-- ===== src/Format/Numbers.antt =====
-- The texts of numbers: every one is complete inside the 12-byte buffer and reads back as the number,
-- but that of the least `int`.
use text_os.Common.{
  ℕ, ◌^◌, ◌≤◌, ◌<◌, ◌≡◌, ◌≢◌, refl, ◌∙◌, ap, List, [], ◌∷◌, length, some, All, arith, ◌==◌,
  if◌then◌else◌, negate, eq→==, ne→==, lt→leb, le→leb, lt→ltb, le→ltb, inl, inr, ◌⊎◌, dec_lt,
  ℕ_discrete,
}
use text_os.Common.Int.{ℤ, pos, sub_ℕ, signed32}
use text_os.Format.{convert, buffer_size}
use text_os.Format.Digits.{number, IsDigit, Leads, convert_lem}
use text_os.Format.Text.{unsigned_text, positive_text, signed_text}

-- The digits `t` spell `n` in the base, without a zero in front, and fit the local buffer.
pub record Spells (base n : ℕ) (t : List ℕ) : Type 0 where
  pub value : number base 0 t ≡ n
  pub digits : All (IsDigit base) t
  pub some_digit : t ≢ []
  pub fits : length t ≤ buffer_size
  pub leads : (t ≡ b'0' ∷ []) ⊎ Leads t

zero-Spells : (base : ℕ) → 0 < base → Spells base 0 (b'0' ∷ [])
zero-Spells base positive = record {
  value = omega arith;
  digits = ((positive, omega arith, omega arith, inl (omega arith)), tt);
  some_digit = cc;
  fits = omega arith;
  leads = inl refl;
}

convert-Spells :
    (base n : ℕ)
    → 2 ≤ base
    → base ≤ 36
    → n ≢ 0
    → n < base ^ buffer_size
    → (t : List ℕ) × (convert buffer_size base n [] ≡ some t) × Spells base n t
convert-Spells base n lo hi ne lt =
    let (t, e, c) = convert_lem buffer_size base n [] lo hi lt in
    (
      t,
      e,
      record {
        value = c.value;
        digits = c.digits tt;
        some_digit = c.some_digit (inl ne);
        fits = omega (arith, c.fits);
        leads = inr (c.leads ne);
      },
    )

-- `%u` prints the decimal digits of every 32-bit number and `%x` the hexadecimal ones; the digits
-- fit the local buffer and read back as the number.
pub unsigned_text_lem :
    (base n : ℕ)
    → (base ≡ 10) ⊎ (base ≡ 16)
    → n < 2 ^ 32
    → (t : List ℕ) × (unsigned_text base n ≡ some t) × Spells base n t
unfolding unsigned_text
unsigned_text_lem base n b lt = elim (ℕ_discrete n 0) [
  | yes z ↦ (b'0' ∷ [], rw (eq→== n 0 z), rw z (zero-Spells base (pos_base b)))
  | no ne ↦ rw (ne→== n 0 ne) (elim b [
    | inl ten ↦ rw ten (convert-Spells 10 n (omega arith) (omega arith) ne (omega arith))
    | inr hex ↦ rw hex (convert-Spells 16 n (omega arith) (omega arith) ne (omega arith))
  ])
]
  where
    pos_base : (base ≡ 10) ⊎ (base ≡ 16) → 0 < base
    pos_base (inl e) = omega arith
    pos_base (inr e) = omega arith

-- The integer that a text with an optional minus sign stands for.
abbrev pub read_signed : List ℕ → ℤ
read_signed [] = pos 0
read_signed (c ∷ cs) = if c == b'-' then sub_ℕ 0 (number 10 0 cs) else pos (number 10 0 (c ∷ cs))

read_signed-Spells : (n : ℕ) (t : List ℕ) → Spells 10 n t → read_signed t ≡ pos n
read_signed-Spells n [] s = absurd (s.some_digit refl)
read_signed-Spells n (c ∷ cs) s = rw (ne→== c b'-' (s.digits.0.2)) (ap pos s.value)

pub positive_text-Spells :
    (n : ℕ) → n < 2 ^ 31 → (t : List ℕ) × (positive_text n ≡ some t) × Spells 10 n t
unfolding positive_text
positive_text-Spells n lt = elim (ℕ_discrete n 0) [
  | yes z ↦ (b'0' ∷ [], rw (eq→== n 0 z), rw z (zero-Spells 10 (omega arith)))
  | no ne ↦
      rw (ne→== n 0 ne, lt→leb (2 ^ 31) n lt)
        (convert-Spells 10 n (omega arith) (omega arith) ne (omega arith))
]

-- `%d` prints every `int` but the least one: its text is complete, has at most 13 characters and reads
-- back as the number.
pub signed_text_lem :
    (n : ℕ)
    → n < 2 ^ 32
    → n ≢ 2 ^ 31
    → (t : List ℕ) × (signed_text n ≡ some t) × (read_signed t ≡ signed32 n) × (length t ≤ 13)
unfolding signed_text
signed_text_lem n lt ne = elim (dec_lt n (2 ^ 31)) [
  | yes small ↦
      let (t, e, s) = positive_text-Spells n small in
      (
        t,
        rw (lt→leb (2 ^ 31) n small) e,
        read_signed-Spells n t s ∙ rw (lt→ltb n (2 ^ 31) small),
        omega (arith, s.fits),
      )
  | no large ↦
      let (t, e, s) = positive_text-Spells (negate n) (omega arith) in
      (
        b'-' ∷ t,
        rw (le→leb (2 ^ 31) n (omega arith), e),
        rw (s.value, le→ltb n (2 ^ 31) (omega arith)) (ground arith),
        omega (arith, s.fits),
      )
]

-- Of the least `int` only the sign is printed: its negation is negative again, and no digit follows.
pub least_int : signed_text (2 ^ 31) ≡ some (b'-' ∷ [])
unfolding signed_text positive_text
least_int = refl
