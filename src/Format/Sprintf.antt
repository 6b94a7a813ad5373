-- ===== src/Format/Sprintf.antt =====
-- stdlib_hooks.cpp, `sprintf`: the string in memory and the count.
use text_os.Common.{ℕ, ◌+◌, ◌≡◌, ◌∙◌, ap, List, [], ◌∷◌, length, some, none, Option, arith}
use text_os.Memory.{Memory, store}
use text_os.CString.Copying.{write_string}
use text_os.Format.{Arg, put_all, put_at, sprintf}
use text_os.Format.Text.{text, sent, format-sent}
use text_os.Format.Meaning.{IsSupplied, Means, text-Means}

-- What is put one character after another is the string once the zero is written.
put_at-write_string :
    (dest n d : ℕ) (m : Memory) (t : List ℕ)
    → d ≡ dest + n
    → (store (put_all (put_at dest) t (m, n)).0 (dest + (put_all (put_at dest) t (m, n)).1) 0
        ≡ write_string m d t)
      × ((put_all (put_at dest) t (m, n)).1 ≡ n + length t)
put_at-write_string dest n d m [] e = (rw e, omega arith)
put_at-write_string dest n d m (c ∷ t) e =
    let later = put_at-write_string dest (n + 1) (d + 1) (store m (dest + n) c) t (omega arith) in
    (rw (later.0, e), omega (arith, later.1))

finish : ℕ → Option (Memory × ℕ) → Option (Memory × ℕ)
finish dest r = elim r [ none ↦ none | some (m', n) ↦ some (store m' (dest + n) 0, n) ]

pub sprintf-text :
    (m : Memory) (dest : ℕ) (fmt : List ℕ) (args : List Arg) (t : List ℕ)
    → text fmt args ≡ some t
    → sprintf m dest fmt args ≡ some (write_string m dest t, length t)
unfolding sprintf finish
sprintf-text m dest fmt args t e =
    let (bytes, count) = put_at-write_string dest 0 dest m t (omega arith) in
    ap (finish dest) (format-sent (put_at dest) fmt args (m, 0) ∙ ap (sent (put_at dest) (m, 0)) e)
    ∙ rw (bytes, count) (ap some (ap (λ n. (write_string m dest t, n)) (omega arith)))

-- Where each directive of a format finds an argument of its kind, none of them the least `int` for a
-- signed number, `sprintf` writes a text and a zero at `dest` and nothing else, and returns the number
-- of characters before the zero. The text is what the format means: plain characters as they are,
-- strings and characters as given, and for each number digits in decimal or hexadecimal that read
-- back as it, without a zero in front, a sign before a negative one and `0x` before a pointer.
pub sprintf_lem :
    (m : Memory) (dest : ℕ) (fmt : List ℕ) (args : List Arg)
    → IsSupplied fmt args
    → (t : List ℕ) × Means fmt args t
      × (sprintf m dest fmt args ≡ some (write_string m dest t, length t))
sprintf_lem m dest fmt args supplied =
    let (t, e, means) = text-Means fmt args supplied in (t, means, sprintf-text m dest fmt args t e)
