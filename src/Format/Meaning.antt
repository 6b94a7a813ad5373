-- ===== src/Format/Meaning.antt =====
-- What a format and its arguments mean: the printed text, with every number by the digits that a reader
-- takes for it.
use mathlib.Core.Path.{subst}
use text_os.Common.{
  ℕ, ◌-◌, ◌%◌, ◌^◌, ◌<◌, ◌≡◌, ◌≢◌, inl, inr, refl, ◌∙◌, ap, true, List, [], ◌∷◌, ◌++◌, some, none,
  Option, arith, ne→==, dec_lt, lt→leb, le→leb, negate,
}
use text_os.Format.{Arg, num, str, takes_number}
use text_os.Format.Text.{text, directive_text, number_text, signed_text, prepend, left}
use text_os.Format.Numbers.{Spells, unsigned_text_lem, positive_text-Spells}

-- A number can be printed by the directive of the character: it is a word, and not the least `int`.
pub data Takes : ℕ → ℕ → Type 0 where
  takes_character : {n : ℕ} → Takes b'c' n
  takes_decimal : {n : ℕ} → n < 2 ^ 32 → n ≢ 2 ^ 31 → Takes b'd' n
  takes_integer : {n : ℕ} → n < 2 ^ 32 → n ≢ 2 ^ 31 → Takes b'i' n
  takes_unsigned : {n : ℕ} → n < 2 ^ 32 → Takes b'u' n
  takes_hexadecimal : {n : ℕ} → n < 2 ^ 32 → Takes b'x' n
  takes_pointer : {n : ℕ} → n < 2 ^ 32 → Takes b'p' n

-- The text of the pattern of an `int`: its digits, or a sign and those of its amount.
pub data MeansInt (n : ℕ) : List ℕ → Type 0 where
  positive : {t : List ℕ} → n < 2 ^ 31 → Spells 10 n t → MeansInt n t
  negative : {t : List ℕ} → 2 ^ 31 < n → Spells 10 (2 ^ 32 - n) t → MeansInt n (b'-' ∷ t)

pub data MeansNumber : ℕ → ℕ → List ℕ → Type 0 where
  character : {n : ℕ} → MeansNumber b'c' n (n % 256 ∷ [])
  decimal : {n : ℕ} {t : List ℕ} → MeansInt n t → MeansNumber b'd' n t
  integer : {n : ℕ} {t : List ℕ} → MeansInt n t → MeansNumber b'i' n t
  unsigned : {n : ℕ} {t : List ℕ} → Spells 10 n t → MeansNumber b'u' n t
  hexadecimal : {n : ℕ} {t : List ℕ} → Spells 16 n t → MeansNumber b'x' n t
  pointer : {n : ℕ} {t : List ℕ} → Spells 16 n t → MeansNumber b'p' n (b'0' ∷ b'x' ∷ t)

-- A character behind a `%` that is no directive.
abbrev pub IsOther : ℕ → Type 0
IsOther k =
    (k ≢ b'%')
    × (k ≢ b's')
    × (k ≢ b'c')
    × (k ≢ b'd')
    × (k ≢ b'i')
    × (k ≢ b'u')
    × (k ≢ b'x')
    × (k ≢ b'p')

-- Each directive of the format finds an argument of its kind.
pub data IsSupplied : List ℕ → List Arg → Type 0 where
  nothing : {args : List Arg} → IsSupplied [] args
  plain :
      {c : ℕ} {cs : List ℕ} {args : List Arg}
      → c ≢ b'%'
      → IsSupplied cs args
      → IsSupplied (c ∷ cs) args
  percent :
      {cs : List ℕ} {args : List Arg} → IsSupplied cs args → IsSupplied (b'%' ∷ b'%' ∷ cs) args
  other :
      {k : ℕ} {cs : List ℕ} {args : List Arg}
      → IsOther k
      → IsSupplied cs args
      → IsSupplied (b'%' ∷ k ∷ cs) args
  string :
      {cs : List ℕ} {args : List Arg} {u : List ℕ}
      → IsSupplied cs args
      → IsSupplied (b'%' ∷ b's' ∷ cs) (str u ∷ args)
  number :
      {k n : ℕ} {cs : List ℕ} {args : List Arg}
      → Takes k n
      → IsSupplied cs args
      → IsSupplied (b'%' ∷ k ∷ cs) (num n ∷ args)

-- The text that the format stands for.
pub data Means : List ℕ → List Arg → List ℕ → Type 0 where
  nothing_printed : {args : List Arg} → Means [] args []
  plain_printed :
      {c : ℕ} {cs : List ℕ} {args : List Arg} {t : List ℕ}
      → c ≢ b'%'
      → Means cs args t
      → Means (c ∷ cs) args (c ∷ t)
  percent_printed :
      {cs : List ℕ} {args : List Arg} {t : List ℕ}
      → Means cs args t
      → Means (b'%' ∷ b'%' ∷ cs) args (b'%' ∷ t)
  other_printed :
      {k : ℕ} {cs : List ℕ} {args : List Arg} {t : List ℕ}
      → IsOther k
      → Means cs args t
      → Means (b'%' ∷ k ∷ cs) args (b'%' ∷ k ∷ t)
  string_printed :
      {cs : List ℕ} {args : List Arg} {t u : List ℕ}
      → Means cs args t
      → Means (b'%' ∷ b's' ∷ cs) (str u ∷ args) (u ++ t)
  number_printed :
      {k n : ℕ} {cs : List ℕ} {args : List Arg} {t u : List ℕ}
      → MeansNumber k n u
      → Means cs args t
      → Means (b'%' ∷ k ∷ cs) (num n ∷ args) (u ++ t)

signed_text-MeansInt :
    (n : ℕ) → n < 2 ^ 32 → n ≢ 2 ^ 31 → (t : List ℕ) × (signed_text n ≡ some t) × MeansInt n t
unfolding signed_text
signed_text-MeansInt n lt ne = elim (dec_lt n (2 ^ 31)) [
  | yes small ↦
      let (t, e, s) = positive_text-Spells n small in
      (t, rw (lt→leb (2 ^ 31) n small) e, positive small s)
  | no large ↦
      let amount : negate n ≡ 2 ^ 32 - n = omega arith in
      let (t, e, s) = positive_text-Spells (negate n) (omega arith) in
      (
        b'-' ∷ t,
        rw (le→leb (2 ^ 31) n (omega arith), e) refl,
        negative (omega arith) (subst (λ m. Spells 10 m t) amount s),
      )
]

number_text-MeansNumber :
    (k n : ℕ)
    → Takes k n
    → (t : List ℕ) × (number_text k n ≡ some t) × MeansNumber k n t × (takes_number k ≡ true)
unfolding number_text
number_text-MeansNumber k n takes_character = (n % 256 ∷ [], refl, character, refl)
number_text-MeansNumber k n (takes_decimal lt ne) =
    let (t, e, s) = signed_text-MeansInt n lt ne in (t, e, decimal s, refl)
number_text-MeansNumber k n (takes_integer lt ne) =
    let (t, e, s) = signed_text-MeansInt n lt ne in (t, e, integer s, refl)
number_text-MeansNumber k n (takes_unsigned lt) =
    let (t, e, s) = unsigned_text_lem 10 n (inl refl) lt in (t, e, unsigned s, refl)
number_text-MeansNumber k n (takes_hexadecimal lt) =
    let (t, e, s) = unsigned_text_lem 16 n (inr refl) lt in (t, e, hexadecimal s, refl)
number_text-MeansNumber k n (takes_pointer lt) =
    let (t, e, s) = unsigned_text_lem 16 n (inr refl) lt in
    (b'0' ∷ b'x' ∷ t, rw e refl, pointer s, refl)

text_plain :
    (c : ℕ) (cs : List ℕ) (args : List Arg) (t : List ℕ)
    → c ≢ b'%'
    → text cs args ≡ some t
    → text (c ∷ cs) args ≡ some (c ∷ t)
unfolding text
text_plain c [] args t ne e = rw (ne→== c b'%' ne) (ap (prepend (c ∷ [])) e)
text_plain c (k ∷ cs) args t ne e = rw (text, ne→== c b'%' ne) (ap (prepend (c ∷ [])) e)

-- A directive's text, and then that of the rest of the format.
text_directive :
    (k : ℕ) (cs : List ℕ) (args rest : List Arg) (u t : List ℕ)
    → directive_text k args ≡ some (rest, u)
    → text cs rest ≡ some t
    → text (b'%' ∷ k ∷ cs) args ≡ some (u ++ t)
unfolding text
text_directive k cs args rest u t d e =
    ap
      (λ (r : Option (List Arg × List ℕ)). elim r [
        | none ↦ none
        | some (a, u') ↦ prepend u' (text cs a)
      ])
      d
    ∙ ap (prepend u) e

percent_directive : (args : List Arg) → directive_text b'%' args ≡ some (args, b'%' ∷ [])
unfolding directive_text
percent_directive [] = refl
percent_directive (num n ∷ args) = refl
percent_directive (str u ∷ args) = refl

number_directive :
    (k n : ℕ) (args : List Arg) (u : List ℕ)
    → takes_number k ≡ true
    → number_text k n ≡ some u
    → directive_text k (num n ∷ args) ≡ some (args, u)
unfolding directive_text
number_directive k n args u kind e = rw kind (ap (left args) e)

other_directive :
    (k : ℕ) (args : List Arg) → IsOther k → directive_text k args ≡ some (args, b'%' ∷ k ∷ [])
unfolding directive_text
other_directive k [] h = ground arith
other_directive k (num n ∷ args) h = ground arith
other_directive k (str u ∷ args) h = ground arith

-- A format whose directives find their arguments has a text, and that is the one it means.
pub text-Means :
    (fmt : List ℕ) (args : List Arg)
    → IsSupplied fmt args
    → (t : List ℕ) × (text fmt args ≡ some t) × Means fmt args t
unfolding text directive_text
text-Means fmt args nothing = ([], refl, nothing_printed)
text-Means fmt args (plain {c = c} {cs = cs} ne rest) =
    let (t, e, m) = text-Means cs args rest in
    (c ∷ t, text_plain c cs args t ne e, plain_printed ne m)
text-Means fmt args (percent {cs = cs} rest) =
    let (t, e, m) = text-Means cs args rest in
    (
      b'%' ∷ t,
      text_directive b'%' cs args args (b'%' ∷ []) t (percent_directive args) e,
      percent_printed m,
    )
text-Means fmt args (other {k = k} {cs = cs} h rest) =
    let (t, e, m) = text-Means cs args rest in
    (
      b'%' ∷ k ∷ t,
      text_directive k cs args args (b'%' ∷ k ∷ []) t (other_directive k args h) e,
      other_printed h m,
    )
text-Means fmt args (string {cs = cs} {args = others} {u = u} rest) =
    let (t, e, m) = text-Means cs others rest in
    (u ++ t, text_directive b's' cs (str u ∷ others) others u t refl e, string_printed m)
text-Means fmt args (number {k = k} {n = n} {cs = cs} {args = others} takes rest) =
    let (t, e, m) = text-Means cs others rest in
    let (u, e', m', kind) = number_text-MeansNumber k n takes in
    (
      u ++ t,
      text_directive k cs (num n ∷ others) others u t (number_directive k n others u kind e') e,
      number_printed m' m,
    )
