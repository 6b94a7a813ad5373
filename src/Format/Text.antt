-- ===== src/Format/Text.antt =====
-- The text that a format and its arguments stand for, whatever the sink, and what a number's text is.
use text_os.Common.{
  ℕ, ◌≡◌, refl, ◌∙◌, ap, sym, true, false, ◌||◌, List, [], ◌∷◌, ◌++◌, some, none, Option, arith,
  ◌==◌, if◌then◌else◌, u8, negate, is_negative, Bool-cases, inl, inr,
}
use text_os.Format.{
  Arg, num, str, convert, buffer_size, put_all, put_digits, put_unsigned, put_positive, put_signed,
  put_number, with_args, takes_number, directive, format,
}
use text_os.Format.Digits.{number}

-- The text of an unsigned number: one `0`, or its digits.
unfoldable pub unsigned_text : ℕ → ℕ → Option (List ℕ)
unsigned_text base n = if n == 0 then some (b'0' ∷ []) else convert buffer_size base n []

-- The text of the pattern of an `int`.
unfoldable pub positive_text : ℕ → Option (List ℕ)
positive_text n =
    if n == 0
    then some (b'0' ∷ [])
    else if is_negative n
    then some []
    else convert buffer_size 10 n []

-- Two texts, one behind the other.
abbrev pub prepend : List ℕ → Option (List ℕ) → Option (List ℕ)
prepend t none = none
prepend t (some u) = some (t ++ u)

unfoldable pub signed_text : ℕ → Option (List ℕ)
signed_text n =
    if is_negative n then prepend (b'-' ∷ []) (positive_text (negate n)) else positive_text n

unfoldable pub number_text : ℕ → ℕ → Option (List ℕ)
number_text k n =
    if k == b'c'
    then some (u8 n ∷ [])
    else if k == b'd' || k == b'i'
    then signed_text n
    else if k == b'u'
    then unsigned_text 10 n
    else if k == b'x'
    then unsigned_text 16 n
    else prepend (b'0' ∷ b'x' ∷ []) (unsigned_text 16 n)

-- What a directive with no argument prints.
abbrev pub plain_text : ℕ → List ℕ
plain_text k = if k == b'%' then b'%' ∷ [] else b'%' ∷ k ∷ []

abbrev pub left : List Arg → Option (List ℕ) → Option (List Arg × List ℕ)
left args none = none
left args (some t) = some (args, t)

-- The text of a directive, with the arguments that are left.
unfoldable pub directive_text : ℕ → List Arg → Option (List Arg × List ℕ)
directive_text k [] = if takes_number k || k == b's' then none else some ([], plain_text k)
directive_text k (num n ∷ args) =
    if takes_number k
    then left args (number_text k n)
    else if k == b's'
    then none
    else some (num n ∷ args, plain_text k)
directive_text k (str t ∷ args) =
    if takes_number k
    then none
    else if k == b's'
    then some (args, t)
    else some (str t ∷ args, plain_text k)

unfoldable pub text : List ℕ → List Arg → Option (List ℕ)
text [] args = some []
text (c ∷ []) args = if c == b'%' then none else some (c ∷ [])
text (c ∷ k ∷ cs) args = elim (c == b'%') [
  | true ↦ elim (directive_text k args) [ none ↦ none | some (rest, t) ↦ prepend t (text cs rest) ]
  | false ↦ prepend (c ∷ []) (text (k ∷ cs) args)
]

-- A text is put to a sink all at once.
module _ {S : Type 0} (out : ℕ → S → S) where
  abbrev pub sent : S → Option (List ℕ) → Option S
  sent s none = none
  sent s (some t) = some (put_all out t s)

  abbrev pub sent_left : S → Option (List Arg × List ℕ) → Option (List Arg × S)
  sent_left s none = none
  sent_left s (some (args, t)) = some (args, put_all out t s)

  pub put_all-append :
      (t u : List ℕ) (s : S) → put_all out (t ++ u) s ≡ put_all out u (put_all out t s)
  put_all-append [] u s = refl
  put_all-append (c ∷ t) u s = put_all-append t u (out c s)

  pub sent-prepend :
      (t : List ℕ) (u : Option (List ℕ)) (s : S) → sent s (prepend t u) ≡ sent (put_all out t s) u
  sent-prepend t none s = refl
  sent-prepend t (some u) s = ap some (put_all-append t u s)

  put_digits-sent : (o : Option (List ℕ)) (s : S) → put_digits out o s ≡ sent s o
  unfolding put_digits
  put_digits-sent none s = refl
  put_digits-sent (some t) s = refl

  put_unsigned-sent :
      (base n : ℕ) (s : S) → put_unsigned out base n s ≡ sent s (unsigned_text base n)
  unfolding put_unsigned unsigned_text
  put_unsigned-sent base n s = ground (arith, put_digits-sent (convert buffer_size base n []) s)

  put_positive-sent : (n : ℕ) (s : S) → put_positive out n s ≡ sent s (positive_text n)
  unfolding put_positive positive_text
  put_positive-sent n s = ground (arith, put_digits-sent (convert buffer_size 10 n []) s)

  put_signed-sent : (n : ℕ) (s : S) → put_signed out n s ≡ sent s (signed_text n)
  unfolding put_signed signed_text
  put_signed-sent n s = elim (Bool-cases (is_negative n)) [
    | inl neg ↦ rw neg (
        put_positive-sent (negate n) (out b'-' s)
        ∙ sym (sent-prepend (b'-' ∷ []) (positive_text (negate n)) s))
    | inr pos ↦ rw pos (put_positive-sent n s)
  ]

  put_number-sent : (k n : ℕ) (s : S) → put_number out k n s ≡ sent s (number_text k n)
  unfolding put_number number_text
  put_number-sent k n s = ground (
    arith,
    put_signed-sent n s,
    put_unsigned-sent 10 n s,
    put_unsigned-sent 16 n s,
    put_unsigned-sent 16 n (out b'x' (out b'0' s)),
    sent-prepend (b'0' ∷ b'x' ∷ []) (unsigned_text 16 n) s,
  )

  with_args-left :
      (args : List Arg) (o : Option (List ℕ)) (s : S)
      → with_args out args (sent s o) ≡ sent_left s (left args o)
  unfolding with_args
  with_args-left args none s = refl
  with_args-left args (some t) s = refl

  pub directive-sent :
      (k : ℕ) (args : List Arg) (s : S)
      → directive out k args s ≡ sent_left s (directive_text k args)
  unfolding directive directive_text
  directive-sent k [] s = ground arith
  directive-sent k (num n ∷ args) s = elim (Bool-cases (takes_number k)) [
    | inl number ↦
        rw number (
          ap (with_args out args) (put_number-sent k n s) ∙ with_args-left args (number_text k n) s)
    | inr other ↦ rw other (ground arith)
  ]
  directive-sent k (str t ∷ args) s = ground arith

  -- The loop sends exactly the text of the format, in order, and fails exactly where there is none.
  pub format-sent :
      (fmt : List ℕ) (args : List Arg) (s : S) → format out fmt args s ≡ sent s (text fmt args)
  unfolding format text
  format-sent [] args s = refl
  format-sent (c ∷ []) args s = ground arith
  format-sent (c ∷ k ∷ cs) args s = elim (Bool-cases (c == b'%')) [
    | inl percent ↦
        rw (percent, format, text)
          (ap (resume cs) (directive-sent k args s)
            ∙ settle (format-sent cs) (directive_text k args))
    | inr plain ↦
        rw (plain, format, text)
          (format-sent (k ∷ cs) args (out c s) ∙ sym (sent-prepend (c ∷ []) (text (k ∷ cs) args) s))
  ]
    where
      resume : List ℕ → Option (List Arg × S) → Option S
      resume cs r = elim r [ none ↦ none | some (rest, s') ↦ format out cs rest s' ]

      settle :
          ((a : List Arg) (s' : S) → format out cs a s' ≡ sent s' (text cs a))
          → (r : Option (List Arg × List ℕ))
          → resume cs (sent_left s r)
            ≡ sent s (elim r [ none ↦ none | some (rest, t) ↦ prepend t (text cs rest) ])
      settle later none = refl
      settle later (some (rest, t)) =
          later rest (put_all out t s) ∙ sym (sent-prepend t (text cs rest) s)
