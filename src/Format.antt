-- ===== src/Format.antt =====
-- The format interpreter of stdlib_hooks.cpp. `printf` and `sprintf` have the same loop, one over the
-- screen and one over a buffer, so it is written once over a sink: a state and what a character does
-- to it. A format is the list of its characters before the zero, the variable arguments are a list,
-- and the result is `none` where C leaves the behaviour undefined: an argument is missing or of the
-- wrong kind, the format ends behind a `%`, or a digit goes beyond the local buffer.
pub mod Digits
pub mod Text
pub mod Numbers
pub mod Meaning
pub mod Sprintf
pub mod Snprintf
mod Examples
use text_os.Common.{
  ℕ, zero, suc, ◌+◌, ◌-◌, ◌*◌, ◌/◌, ◌%◌, ◌^◌, Bool, true, false, ◌&&◌, ◌||◌, Option, none, some,
  List, [], ◌∷◌, ltb, leb, ◌==◌, if◌then◌else◌, u8, u32, negate, is_negative,
}
use text_os.Memory.{Memory, store}

-- An argument: a 32-bit pattern for `int`, `unsigned` and pointers, or a string.
pub data Arg : Type 0 where
  num : ℕ → Arg
  str : List ℕ → Arg

-- `digit < 10 ? '0' + digit : 'a' + (digit - 10)`
abbrev pub digit_char : ℕ → ℕ
digit_char d = if ltb d 10 then b'0' + d else b'a' + (d - 10)

-- `while (num > 0) { buffer[i++] = …; num /= base; }` with `room` bytes left in the buffer. The list
-- has the latest digit in front, the order in which `while (--i >= 0)` reads it.
unfoldable pub convert : ℕ → ℕ → ℕ → List ℕ → Option (List ℕ)
convert zero base n buffer = if n == 0 then some buffer else none
convert (suc room) base n buffer =
    let rest = convert room base (n / base) (digit_char (n % base) ∷ buffer) in
    if n == 0 then some buffer else rest

-- `char buffer[12]`
abbrev pub buffer_size : ℕ
buffer_size = 12

-- The directives that take a number.
abbrev pub takes_number : ℕ → Bool
takes_number k = k == b'c' || k == b'd' || k == b'i' || k == b'u' || k == b'x' || k == b'p'

module _ {S : Type 0} (out : ℕ → S → S) where
  abbrev pub put_all : List ℕ → S → S
  put_all [] s = s
  put_all (c ∷ cs) s = put_all cs (out c s)

  unfoldable pub put_digits : Option (List ℕ) → S → Option S
  put_digits none s = none
  put_digits (some digits) s = some (put_all digits s)

  -- The cases 'u' (base 10), 'x' and 'p' (base 16).
  unfoldable pub put_unsigned : ℕ → ℕ → S → Option S
  put_unsigned base n s =
      if n == 0 then some (out b'0' s) else put_digits (convert buffer_size base n []) s

  -- The cases 'd' and 'i' behind the sign: the digit loop runs only for a positive number.
  unfoldable pub put_positive : ℕ → S → Option S
  put_positive n s =
      if n == 0
      then some (out b'0' s)
      else if is_negative n
      then some s
      else put_digits (convert buffer_size 10 n []) s

  unfoldable pub put_signed : ℕ → S → Option S
  put_signed n s = if is_negative n then put_positive (negate n) (out b'-' s) else put_positive n s

  unfoldable pub with_args : List Arg → Option S → Option (List Arg × S)
  with_args args none = none
  with_args args (some s) = some (args, s)

  -- A directive that takes a number, by its character.
  unfoldable pub put_number : ℕ → ℕ → S → Option S
  put_number k n s =
      if k == b'c'
      then some (out (u8 n) s)
      else if k == b'd' || k == b'i'
      then put_signed n s
      else if k == b'u'
      then put_unsigned 10 n s
      else if k == b'x'
      then put_unsigned 16 n s
      else put_unsigned 16 n (out b'x' (out b'0' s))

  -- The `switch` behind a `%`.
  unfoldable pub directive : ℕ → List Arg → S → Option (List Arg × S)
  directive k [] s =
      if takes_number k || k == b's'
      then none
      else if k == b'%'
      then some ([], out b'%' s)
      else some ([], out k (out b'%' s))
  directive k (num n ∷ args) s =
      if takes_number k
      then with_args args (put_number k n s)
      else if k == b's'
      then none
      else if k == b'%'
      then some (num n ∷ args, out b'%' s)
      else some (num n ∷ args, out k (out b'%' s))
  directive k (str t ∷ args) s =
      if takes_number k
      then none
      else if k == b's'
      then some (args, put_all t s)
      else if k == b'%'
      then some (str t ∷ args, out b'%' s)
      else some (str t ∷ args, out k (out b'%' s))

  -- `for (p = format; *p; p++)`
  unfoldable pub format : List ℕ → List Arg → S → Option S
  format [] args s = some s
  format (c ∷ []) args s = if c == b'%' then none else some (out c s)
  format (c ∷ k ∷ cs) args s = elim (c == b'%') [
    | true ↦ elim (directive k args s) [ none ↦ none | some (rest, s') ↦ format cs rest s' ]
    | false ↦ format (k ∷ cs) args (out c s)
  ]

-- `str[chars_written++] = c`: memory and the number of characters written.
abbrev pub put_at : ℕ → ℕ → Memory × ℕ → Memory × ℕ
put_at dest c (m, n) = (store m (dest + n) c, n + 1)

-- `sprintf`: the memory with the closing zero, and the count.
unfoldable pub sprintf : Memory → ℕ → List ℕ → List Arg → Option (Memory × ℕ)
sprintf m dest fmt args = elim (format (put_at dest) fmt args (m, 0)) [
  | none ↦ none
  | some (m', n) ↦ some (store m' (dest + n) 0, n)
]
