-- ===== src/Format/Digits.antt =====
-- The digit loop: it stays inside the buffer, and its digits read back as the number.
use text_os.Common.{
  ℕ, zero, suc, ◌+◌, ◌-◌, ◌*◌, ◌/◌, ◌%◌, ◌^◌, ◌≤◌, ◌<◌, ◌≡◌, ◌≢◌, ◌∙◌, ap, List, [], ◌∷◌, length,
  some, All, arith, ltb, if◌then◌else◌, eq→==, ne→==, ℕ_discrete, dec_lt, refl, sym, ◌⊎◌, inl, inr,
}
use native.Mathlib.Nat.{div-lt_iff_lt-mul, pow-suc, pow-zero, div-add-mod, mod-lt, mul_comm}
use mathlib.Core.Path.{subst}
use mathlib.Core.List.{cons-ne-nil}
use text_os.Format.{convert, digit_char}

-- The value of a digit in lower case, as a reader takes it.
abbrev pub digit_value : ℕ → ℕ
digit_value c = if ltb c b'a' then c - b'0' else c - b'a' + 10

-- The number that digits spell behind `acc`, first digit first.
abbrev pub number : ℕ → ℕ → List ℕ → ℕ
number base acc [] = acc
number base acc (c ∷ cs) = number base (acc * base + digit_value c) cs

-- A digit or a letter from `a` on.
abbrev pub IsDigit : ℕ → ℕ → Type 0
IsDigit base c = (digit_value c < base) × (b'0' ≤ c) × (c ≢ b'-') × ((c ≤ b'9') ⊎ (b'a' ≤ c))

-- The digits do not begin with a zero.
abbrev pub Leads : List ℕ → Type 0
Leads [] = ⊥
Leads (c ∷ cs) = c ≢ b'0'

digit_value-digit_char : (d : ℕ) → d < 36 → digit_value (digit_char d) ≡ d
digit_value-digit_char d h = ground arith

digit_char-IsDigit : (base d : ℕ) → d < base → base ≤ 36 → IsDigit base (digit_char d)
digit_char-IsDigit base d h le = elim (dec_lt d 10) [
  | yes low ↦ (ground arith, ground arith, ground arith, inl (ground arith))
  | no high ↦ (ground arith, ground arith, ground arith, inr (ground arith))
]

digit_char-nonzero : (d : ℕ) → d ≢ 0 → digit_char d ≢ b'0'
digit_char-nonzero d h = ground arith

-- What the loop leaves: the digits of the number in front of those in the buffer, within its room.
pub record Converted (room base n : ℕ) (buffer out : List ℕ) : Type 0 where
  pub value : number base 0 out ≡ number base n buffer
  pub fits : length out ≤ room + length buffer
  pub digits : All (IsDigit base) buffer → All (IsDigit base) out
  pub some_digit : (n ≢ 0) ⊎ (buffer ≢ []) → out ≢ []
  pub same : n ≡ 0 → out ≡ buffer
  pub leads : n ≢ 0 → Leads out

below-pow : (base n k : ℕ) → 0 < base → n < base ^ suc k → n / base < base ^ k
below-pow base n k pos h = (div-lt_iff_lt-mul pos).1 (rw (← pow-suc base k) h)

done : (room base n : ℕ) (buffer : List ℕ) → n ≡ 0 → Converted room base n buffer buffer
done room base n buffer z = record {
  value = rw z;
  fits = omega arith;
  digits = λ d. d;
  some_digit = elim [ inl ne ↦ absurd (ne z) | inr ne ↦ ne ];
  same = λ z. refl;
  leads = λ ne. absurd (ne z);
}

round :
    (room base n : ℕ) (buffer out : List ℕ)
    → 2 ≤ base
    → base ≤ 36
    → n ≢ 0
    → Converted room base (n / base) (digit_char (n % base) ∷ buffer) out
    → Converted (suc room) base n buffer out
round room base n buffer out lo hi ne c = record {
  value =
      c.value
      ∙ ap (λ t. number base t buffer)
          (ap (λ t. n / base * base + t) (digit_value-digit_char (n % base) (omega (arith, small)))
            ∙ whole);
  fits = omega (arith, c.fits);
  digits = λ d. c.digits (digit_char-IsDigit base (n % base) small hi, d);
  some_digit = λ _. c.some_digit (inr (cons-ne-nil _ buffer));
  same = λ z. absurd (ne z);
  leads = λ _. elim (ℕ_discrete (n / base) 0) [
    | yes z ↦
        let digit : n % base ≢ 0 = λ e. ne (whole_zero z e) in
        subst Leads (sym (c.same z)) (digit_char-nonzero (n % base) digit)
    | no more ↦ c.leads more
  ];
}
  where
    small : n % base < base
    small = mod-lt n (omega arith)

    whole : n / base * base + n % base ≡ n
    whole = omega (arith, div-add-mod n base, mul_comm base (n / base))

    whole_zero : n / base ≡ 0 → n % base ≡ 0 → n ≡ 0
    whole_zero z e = sym whole ∙ rw (z, e) (omega arith)

-- With a power of the base above the number, the loop ends inside the buffer.
pub convert_lem :
    (room base n : ℕ) (buffer : List ℕ)
    → 2 ≤ base
    → base ≤ 36
    → n < base ^ room
    → (out : List ℕ) × (convert room base n buffer ≡ some out) × Converted room base n buffer out
unfolding convert
convert_lem zero base n buffer lo hi h =
    let z : n ≡ 0 = omega (arith, pow-zero base) in
    (buffer, rw (eq→== n 0 z), done zero base n buffer z)
convert_lem (suc room) base n buffer lo hi h = elim (ℕ_discrete n 0) [
  | yes z ↦ (buffer, rw (eq→== n 0 z), done (suc room) base n buffer z)
  | no ne ↦
      let next = digit_char (n % base) ∷ buffer in
      let (out, e, c) =
        convert_lem room base (n / base) next lo hi (below-pow base n room (omega arith) h) in
      (out, rw (ne→== n 0 ne) e, round room base n buffer out lo hi ne c)
]
