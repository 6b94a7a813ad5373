-- ===== src/Format/Snprintf.antt =====
-- `snprintf`: the loop of `sprintf` with a count of the room that is left. It stops when no room is
-- left, and its cases 'u', 'x' and 'p' take their argument and print nothing.
use text_os.Common.{
  ℕ, zero, suc, ◌+◌, ◌-◌, ◌≤◌, ◌<◌, ◌≡◌, refl, ◌∙◌, ap, sym, Bool, true, false, ◌||◌, Option, none,
  some, List, [], ◌∷◌, ◌++◌, ◌^◌, ltb, ◌==◌, if◌then◌else◌, u32, arith, length, take, min,
  length-take, lt→ltb,
}
use text_os.Memory.{Memory, store}
use text_os.CString.Copying.{write_string}
use text_os.Format.{Arg, put_all, directive}
use text_os.Format.Text.{
  text, sent, sent_left, directive_text, prepend, directive-sent, put_all-append,
}

-- Memory, `chars_written` and `remaining`.
abbrev pub Room : Type 0
Room = Memory × ℕ × ℕ

-- `if (remaining > 0) { str[chars_written++] = c; remaining--; }`
abbrev pub put_room : ℕ → ℕ → Room → Room
put_room dest c (m, n, zero) = (m, n, zero)
put_room dest c (m, n, suc r) = (store m (dest + n) c, n + 1, r)

-- The cases that only take their argument.
abbrev pub only_consumes : ℕ → Bool
only_consumes k = k == b'u' || k == b'x' || k == b'p'

abbrev consume : List Arg → Room → Option (List Arg × Room)
consume [] s = none
consume (a ∷ args) s = some (args, s)

-- The `switch`, entered with room left. The other cases are those of `sprintf` with a test of the
-- room at each character: a digit loop or a string stops where the room ends.
unfoldable pub directive_in : ℕ → ℕ → List Arg → Room → Option (List Arg × Room)
directive_in dest k args s =
    if only_consumes k then consume args s else directive (put_room dest) k args s

-- `for (p = format; *p && remaining > 0; p++)`
unfoldable pub format_in : ℕ → List ℕ → List Arg → Room → Option Room
format_in dest [] args s = some s
format_in dest (c ∷ cs) args (m, n, zero) = some (m, n, zero)
format_in dest (c ∷ []) args (m, n, suc r) =
    if c == b'%' then none else some (put_room dest c (m, n, suc r))
format_in dest (c ∷ k ∷ cs) args (m, n, suc r) = elim (c == b'%') [
  | true ↦ elim (directive_in dest k args (m, n, suc r)) [
    | none ↦ none
    | some (rest, s') ↦ format_in dest cs rest s'
  ]
  | false ↦ format_in dest (k ∷ cs) args (put_room dest c (m, n, suc r))
]

-- The zero goes to `str[chars_written < size ? chars_written : size - 1]`, an address of 32 bits.
abbrev terminated : ℕ → ℕ → Option Room → Option (Memory × ℕ)
terminated dest size none = none
terminated dest size (some (m, n, r)) =
    some (store m (u32 (dest + (if ltb n size then n else u32 (size + (2 ^ 32 - 1))))) 0, n)

unfoldable pub snprintf : Memory → ℕ → ℕ → List ℕ → List Arg → Option (Memory × ℕ)
snprintf m dest size fmt args =
    terminated dest size (format_in dest fmt args (m, 0, if ltb 0 size then size - 1 else 0))

-- No directive of the format is one that only takes its argument.
abbrev pub Supported : List ℕ → Type 0
Supported [] = Unit
Supported (c ∷ []) = Unit
Supported (c ∷ k ∷ cs) =
    if c == b'%' then (only_consumes k ≡ false) × Supported cs else Supported (k ∷ cs)

put_room-full :
    (dest n : ℕ) (m : Memory) (t : List ℕ) → put_all (put_room dest) t (m, n, 0) ≡ (m, n, 0)
put_room-full dest n m [] = refl
put_room-full dest n m (c ∷ t) = put_room-full dest n m t

-- What is put with `r` bytes of room is the text cut to `r`.
put_room-write_string :
    (dest n d r : ℕ) (m : Memory) (t : List ℕ)
    → d ≡ dest + n
    → (store
          (put_all (put_room dest) t (m, n, r)).0
          (dest + (put_all (put_room dest) t (m, n, r)).1)
          0
        ≡ write_string m d (take r t))
      × ((put_all (put_room dest) t (m, n, r)).1 ≡ n + length (take r t))
put_room-write_string dest n d zero m t e =
    (rw (put_room-full dest n m t, e), rw (put_room-full dest n m t) (omega arith))
put_room-write_string dest n d (suc r) m [] e = (rw e, omega arith)
put_room-write_string dest n d (suc r) m (c ∷ t) e =
    let later =
      put_room-write_string dest (n + 1) (d + 1) r (store m (dest + n) c) t (omega arith) in
    (rw (later.0, e), omega (arith, later.1))

directive_in-sent :
    (dest k : ℕ) (args : List Arg) (s : Room)
    → only_consumes k ≡ false
    → directive_in dest k args s ≡ sent_left (put_room dest) s (directive_text k args)
unfolding directive_in
directive_in-sent dest k args s h = rw h (directive-sent (put_room dest) k args s)

prepend-some :
    (u : List ℕ) (o : Option (List ℕ)) (t : List ℕ)
    → prepend u o ≡ some t
    → (v : List ℕ) × (o ≡ some v) × (t ≡ u ++ v)
prepend-some u none t e = cc
prepend-some u (some v) t e = (v, refl, cc)

-- What the loops do behind a directive, where that has a result.
abbrev text_rest : List ℕ → Option (List Arg × List ℕ) → Option (List ℕ)
text_rest cs none = none
text_rest cs (some (rest, t)) = prepend t (text cs rest)

abbrev format_rest : ℕ → List ℕ → Option (List Arg × Room) → Option Room
format_rest dest cs none = none
format_rest dest cs (some (rest, s)) = format_in dest cs rest s

abbrev Sends : ℕ → List ℕ → Type 0
Sends dest fmt =
    (args : List Arg) (t : List ℕ) (s : Room)
    → Supported fmt
    → text fmt args ≡ some t
    → format_in dest fmt args s ≡ some (put_all (put_room dest) t s)

-- The bounded loop puts the text of the format into the room, whatever that holds.
format_in-sent : (dest : ℕ) (fmt : List ℕ) → Sends dest fmt
unfolding format_in text
format_in-sent dest [] args t s h e = ap (sent (put_room dest) s) e
format_in-sent dest (c ∷ cs) args t (m, n, zero) h e = ap some (sym (put_room-full dest n m t))
format_in-sent dest (c ∷ []) args t (m, n, suc r) h e = last (c == b'%') e
  where
    last :
        (b : Bool)
        → (if b then none else some (c ∷ [])) ≡ some t
        → (if b then none else some (put_room dest c (m, n, suc r)))
          ≡ some (put_all (put_room dest) t (m, n, suc r))
    last true e = cc
    last false e = ap (sent (put_room dest) (m, n, suc r)) e
format_in-sent dest (c ∷ k ∷ cs) args t (m, n, suc r) h e =
    step (format_in-sent dest cs) (format_in-sent dest (k ∷ cs)) (c == b'%') h e
  where
    s : Room
    s = (m, n, suc r)

    settle :
        Sends dest cs
        → (o : Option (List Arg × List ℕ)) → Supported cs
        → text_rest cs o ≡ some t
        → format_rest dest cs (sent_left (put_room dest) s o) ≡ some (put_all (put_room dest) t s)
    settle later none h e = cc
    settle later (some (rest, u)) h e =
        let (v, ev, et) = prepend-some u (text cs rest) t e in
        later rest v (put_all (put_room dest) u s) h ev
        ∙ ap some (sym (rw et (put_all-append (put_room dest) u v s)))

    step :
        Sends dest cs
        → Sends dest (k ∷ cs)
        → (b : Bool) → (if b then (only_consumes k ≡ false) × Supported cs else Supported (k ∷ cs))
        → (elim b [
          | true ↦ text_rest cs (directive_text k args)
          | false ↦ prepend (c ∷ []) (text (k ∷ cs) args)
        ])
          ≡ some t
        → (elim b [
          | true ↦ format_rest dest cs (directive_in dest k args s)
          | false ↦ format_in dest (k ∷ cs) args (put_room dest c s)
        ])
          ≡ some (put_all (put_room dest) t s)
    step rest next true (ok, h) e =
        ap (format_rest dest cs) (directive_in-sent dest k args s ok)
        ∙ settle rest (directive_text k args) h e
    step rest next false h e =
        let (v, ev, et) = prepend-some (c ∷ []) (text (k ∷ cs) args) t e in
        next args v (put_room dest c s) h ev
        ∙ ap some (sym (rw et (put_all-append (put_room dest) (c ∷ []) v s)))

terminated-small :
    (dest size : ℕ) (s : Room)
    → s.1 < size
    → dest + size ≤ 2 ^ 32
    → terminated dest size (some s) ≡ some (store s.0 (dest + s.1) 0, s.1)
terminated-small dest size (m, n, r) lt hi =
    let same : u32 (dest + n) ≡ dest + n = omega arith in rw (lt→ltb n size lt, same)

min_room : (size l : ℕ) → 0 < size → min (size - 1) l < size
min_room size l h = omega arith

-- With room for at least the zero, and directives other than those that only take an argument,
-- `snprintf` writes the text of its format, cut to one less than the size, as a string at `dest` and
-- nothing else; it returns the number of characters written, which is below the size.
pub snprintf_lem :
    (m : Memory) (dest size : ℕ) (fmt : List ℕ) (args : List Arg) (t : List ℕ)
    → 0 < size
    → dest + size ≤ 2 ^ 32
    → Supported fmt
    → text fmt args ≡ some t
    → snprintf m dest size fmt args
      ≡ some (write_string m dest (take (size - 1) t), min (size - 1) (length t))
unfolding snprintf
snprintf_lem m dest size fmt args t lo hi h e =
    let (bytes, count) = put_room-write_string dest 0 dest (size - 1) m t (omega arith) in
    let small : (put_all (put_room dest) t (m, 0, size - 1)).1 ≡ min (size - 1) (length t) =
      omega (arith, count, length-take (size - 1) t) in
    rw (lt→ltb 0 size lo) (
      ap (terminated dest size) (format_in-sent dest fmt args t (m, 0, size - 1) h e)
      ∙ terminated-small dest size (put_all (put_room dest) t (m, 0, size - 1))
          (omega (arith, small, min_room size (length t) lo)) hi
      ∙ rw bytes (ap some (ap (λ n. (write_string m dest (take (size - 1) t), n)) small)))

-- With size 0, `snprintf` stores its zero at the address before the buffer.
pub snprintf_zero :
    (m : Memory) (dest : ℕ) (fmt : List ℕ) (args : List Arg)
    → 0 < dest
    → dest < 2 ^ 32
    → snprintf m dest 0 (b'x' ∷ fmt) args ≡ some (store m (dest - 1) 0, 0)
unfolding snprintf format_in
snprintf_zero m dest fmt args lo hi = rw (wrap) refl
  where
    wrap : u32 (dest + u32 (0 + (2 ^ 32 - 1))) ≡ dest - 1
    wrap = omega arith
