-- ===== src/Format/Examples.antt =====
-- The format loops at a format with a string and a number.
use text_os.Common.{ℕ, ◌≡◌, ◌^◌, ◌-◌, refl, arith, List, [], ◌∷◌, codes, some, take, min, length}
use text_os.CString.Copying.{write_string}
use text_os.Format.{Arg, num, str, convert, sprintf}
use text_os.Format.Meaning.{IsSupplied, Means, nothing, plain, string, number, takes_decimal}
use text_os.Format.Text.{text, signed_text, positive_text, directive_text, number_text}
use text_os.Format.Sprintf.{sprintf_lem}
use text_os.Format.Snprintf.{snprintf, snprintf_lem}

abbrev fmt : List ℕ
fmt = codes "disk %s: %d"

abbrev args : List Arg
args = str (codes "C") ∷ num (2 ^ 32 - 5) ∷ []

fmt-text : text fmt args ≡ some (codes "disk C: -5")
unfolding text directive_text number_text signed_text positive_text convert
fmt-text = refl

fmt-IsSupplied : IsSupplied fmt args
fmt-IsSupplied = plain (omega arith) (
    plain (omega arith) (
      plain (omega arith) (
        plain (omega arith) (
          plain (omega arith) (
            string (
              plain (omega arith) (
                plain (omega arith)
                  (number (takes_decimal (omega arith) (omega arith)) nothing))))))))

sprintf_lem_example :
    (t : List ℕ) × Means fmt args t
    × (sprintf (λ a. 7) 500 fmt args ≡ some (write_string (λ a. 7) 500 t, length t))
sprintf_lem_example = sprintf_lem (λ a. 7) 500 fmt args fmt-IsSupplied

snprintf_lem_example :
    snprintf (λ a. 7) 500 8 fmt args
    ≡ some (
      write_string (λ a. 7) 500 (take (8 - 1) (codes "disk C: -5")),
      min (8 - 1) (length (codes "disk C: -5")),
    )
snprintf_lem_example =
    snprintf_lem (λ a. 7) 500 8 fmt args (codes "disk C: -5") (omega arith) (omega arith)
      (refl, (refl, tt)) fmt-text
