-- ===== src/CString/Examples.antt =====
-- The string operations at concrete strings: "low" at 100, "lower" at 200, bytes from 128 on at 300.
use text_os.Common.{ℕ, refl, arith, List, [], ◌∷◌, codes}
use text_os.Memory.{Memory}
use text_os.CString.Strings.{IsString}
use text_os.CString.Copying.{write_string}

abbrev low : List ℕ
low = codes "low"

abbrev lower : List ℕ
lower = codes "lower"

abbrev words : Memory
words = write_string (write_string (write_string (λ a. 0) 100 low) 200 lower) 300 (200 ∷ [])

low-IsString : IsString words 100 low
low-IsString = (refl, omega arith, (refl, omega arith, (refl, omega arith, refl)))

lower-IsString : IsString words 200 lower
lower-IsString = (
  refl,
  omega arith,
  (refl, omega arith, (refl, omega arith, (refl, omega arith, (refl, omega arith, refl)))),
)
