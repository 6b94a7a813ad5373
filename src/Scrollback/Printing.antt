-- ===== src/Scrollback/Printing.antt =====
-- The output operators of `TerminalOutput`: strings, and numbers through their local buffer.
use text_os.Common.{
  ℕ, ◌+◌, ◌^◌, ◌≤◌, ◌<◌, ◌≡◌, ◌≢◌, refl, ◌∙◌, ap, List, [], ◌∷◌, length, append-nil, some, none,
  Option, All, arith, codes, if◌then◌else◌, Bool-cases, inl, inr,
}
use mathlib.Core.Path.{subst}
use text_os.Memory.{Memory}
use text_os.CString.Strings.{IsString, strlen_lem}
use text_os.CString.Copying.{write_string, write_string-IsString}
use text_os.Format.{Arg, num, put_all}
use text_os.Format.Text.{text, directive_text, number_text, unsigned_text, prepend, left}
use text_os.Format.Digits.{IsDigit}
use text_os.Format.Numbers.{Spells, unsigned_text_lem}
use text_os.Format.Sprintf.{sprintf-text}
use text_os.Scrollback.{
  TerminalOutput, put_char, put_chars, put_string, put_format, put_unsigned_int,
}

put_chars-put_all :
    (cs : List ℕ) (i s : ℕ) (m : Memory) (o : TerminalOutput)
    → IsString m (s + i) cs
    → put_chars (length cs) i m s o ≡ put_all put_char cs o
unfolding put_chars
put_chars-put_all [] i s m o h = refl
put_chars-put_all (c ∷ cs) i s m o (e, ne, h) =
    let next : s + i + 1 ≡ s + (i + 1) = omega arith in
    rw (put_chars, e)
      (put_chars-put_all cs (i + 1) s m (put_char c o) (subst (λ a. IsString m a cs) next h))

-- A string in memory is put character by character up to its zero.
put_string_lem :
    (fuel s : ℕ) (m : Memory) (cs : List ℕ) (o : TerminalOutput)
    → IsString m s cs
    → length cs < fuel
    → put_string fuel m s o ≡ some (put_all put_char cs o)
unfolding put_string
put_string_lem fuel s m cs o h lt =
    let here : s ≡ s + 0 = omega arith in
    rw (put_string, strlen_lem fuel s m cs h lt)
      (ap some (put_chars-put_all cs 0 s m o (subst (λ a. IsString m a cs) here h)))

put_format_lem :
    (fuel buffer n : ℕ) (m : Memory) (fmt cs : List ℕ) (o : TerminalOutput)
    → text fmt (num n ∷ []) ≡ some cs
    → All (λ b. b ≢ 0) cs
    → length cs < fuel
    → put_format fuel m buffer fmt n o ≡ some (put_all put_char cs o)
unfolding put_format
put_format_lem fuel buffer n m fmt cs o e nz lt =
    rw (put_format, sprintf-text m buffer fmt (num n ∷ []) cs e)
      (put_string_lem fuel buffer (write_string m buffer cs) cs o
        (write_string-IsString m buffer cs nz) lt)

-- The text of a format that ends with a directive.
abbrev at_end : Option (List Arg × List ℕ) → Option (List ℕ)
at_end r = elim r [ none ↦ none | some (rest, u) ↦ prepend u (text [] rest) ]

hex_text :
    (n : ℕ) (t : List ℕ)
    → unsigned_text 16 n ≡ some t
    → text (codes "0x%x") (num n ∷ []) ≡ some (b'0' ∷ b'x' ∷ t)
unfolding text directive_text number_text
hex_text n t e =
    ap (λ r. prepend (b'0' ∷ []) (prepend (b'x' ∷ []) (at_end (left [] r)))) e
    ∙ ap (λ u. some (b'0' ∷ b'x' ∷ u)) (append-nil t)

decimal_text :
    (n : ℕ) (t : List ℕ) → unsigned_text 10 n ≡ some t → text (codes "%u") (num n ∷ []) ≡ some t
unfolding text directive_text number_text
decimal_text n t e = ap (λ r. at_end (left [] r)) e ∙ ap some (append-nil t)

nonzero-digits : (base : ℕ) (t : List ℕ) → All (IsDigit base) t → All (λ b. b ≢ 0) t
nonzero-digits base [] h = tt
nonzero-digits base (c ∷ t) (d, h) = (omega (arith, d.1), nonzero-digits base t h)

-- With fuel of at least 15, `operator<<(unsigned int)` prints the digits of every number, in hexadecimal
-- behind `0x` after `hex()` and in decimal otherwise: the digits read back as the number, without a
-- zero in front.
pub put_unsigned_int_lem :
    (fuel buffer n : ℕ) (m : Memory) (o : TerminalOutput)
    → n < 2 ^ 32
    → 15 ≤ fuel
    → (t : List ℕ) × Spells (if o.use_hex_format then 16 else 10) n t
      × (put_unsigned_int fuel m buffer n o
          ≡ some (put_all put_char (if o.use_hex_format then b'0' ∷ b'x' ∷ t else t) o))
unfolding put_unsigned_int
put_unsigned_int_lem fuel buffer n m o lt enough = elim (Bool-cases o.use_hex_format) [
  | inl hex ↦
      let (t, e, s) = unsigned_text_lem 16 n (inr refl) lt in
      rw hex (
        t,
        s,
        put_format_lem fuel buffer n m (codes "0x%x") (b'0' ∷ b'x' ∷ t) _ (hex_text n t e)
            (omega arith, (omega arith, nonzero-digits 16 t s.digits)) (omega (arith, s.fits)),
      )
  | inr decimal ↦
      let (t, e, s) = unsigned_text_lem 10 n (inl refl) lt in
      rw decimal (
        t,
        s,
        put_format_lem fuel buffer n m (codes "%u") t _ (decimal_text n t e)
            (nonzero-digits 10 t s.digits) (omega (arith, s.fits)),
      )
]
