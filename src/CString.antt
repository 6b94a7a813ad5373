-- ===== src/CString.antt =====
-- The string operations of stdlib_hooks.cpp over memory. A loop that runs to the terminating zero
-- takes fuel and is `none` when the fuel runs out; the children show that a fuel above the length
-- of the strings is enough. Returned pointers are addresses, with `none` for nullptr.
pub mod Strings
pub mod Copying
pub mod Bounded
pub mod Comparing
pub mod Searching
mod Examples
use text_os.Common.{
  ℕ, zero, suc, ◌+◌, ◌-◌, Bool, true, false, not, ◌&&◌, Option, none, some, ltb, ◌==◌,
  if◌then◌else◌, u8,
}
use text_os.Common.Int.{ℤ, sub_ℕ, ltb_char}
use text_os.Memory.{Memory, Sign, below, same, above, store}

-- `while (*s1 && (*s1 == *s2)) { s1++; s2++; } return *s1 == *s2;`
unfoldable pub string_compare : ℕ → Memory → ℕ → ℕ → Option Bool
string_compare zero m s1 s2 = none
string_compare (suc fuel) m s1 s2 =
    let rest = string_compare fuel m (s1 + 1) (s2 + 1) in
    if not (m s1 == 0) && (m s1 == m s2) then rest else some (m s1 == m s2)

-- `strlen` with `len` counted so far.
strlen_from : ℕ → Memory → ℕ → ℕ → Option ℕ
strlen_from zero m str len = none
strlen_from (suc fuel) m str len =
    let rest = strlen_from fuel m str (len + 1) in if m (str + len) == 0 then some len else rest

unfoldable pub strlen : ℕ → Memory → ℕ → Option ℕ
unfolding strlen_from
strlen fuel m str = strlen_from fuel m str 0

-- `while (*src) *dest++ = *src++; *dest = 0;`
unfoldable pub strcpy : ℕ → Memory → ℕ → ℕ → Option Memory
strcpy zero m dest src = none
strcpy (suc fuel) m dest src =
    let rest = strcpy fuel (store m dest (m src)) (dest + 1) (src + 1) in
    if m src == 0 then some (store m dest 0) else rest

-- `for (; i < n; i++) dest[i] = 0`
pad : ℕ → ℕ → Memory → ℕ → Memory
pad zero i m dest = m
pad (suc rounds) i m dest = pad rounds (i + 1) (store m (dest + i) 0) dest

-- `for (; i < n && src[i]; i++) dest[i] = src[i]`, then the padding.
strncpy_from : ℕ → ℕ → Memory → ℕ → ℕ → Memory
strncpy_from zero i m dest src = m
strncpy_from (suc rounds) i m dest src =
    let rest = strncpy_from rounds (i + 1) (store m (dest + i) (m (src + i))) dest src in
    if m (src + i) == 0 then pad (suc rounds) i m dest else rest

unfoldable pub strncpy : Memory → ℕ → ℕ → ℕ → Memory
unfolding strncpy_from pad
strncpy m dest src n = strncpy_from n 0 m dest src

-- `while (*dest) dest++`, then the copy of `strcpy`.
unfoldable pub strcat : ℕ → Memory → ℕ → ℕ → Option Memory
strcat zero m dest src = none
strcat (suc fuel) m dest src =
    let rest = strcat fuel m (dest + 1) src in
    let copy = strcpy (suc fuel) m dest src in if m dest == 0 then copy else rest

-- The loop of `strncat` with its zero, behind `end`, the address `dest + dest_len`.
strncat_from : ℕ → ℕ → Memory → ℕ → ℕ → Memory
strncat_from zero i m end src = store m (end + i) 0
strncat_from (suc rounds) i m end src =
    let rest = strncat_from rounds (i + 1) (store m (end + i) (m (src + i))) end src in
    if m (src + i) == 0 then store m (end + i) 0 else rest

unfoldable pub strncat : ℕ → Memory → ℕ → ℕ → ℕ → Option Memory
unfolding strncat_from
strncat fuel m dest src n = elim (strlen fuel m dest) [
  | none ↦ none
  | some dest_len ↦ some (strncat_from n 0 m (dest + dest_len) src)
]

-- The difference of the first two bytes that differ, or of the zeros.
unfoldable pub strcmp : ℕ → Memory → ℕ → ℕ → Option ℤ
strcmp zero m s1 s2 = none
strcmp (suc fuel) m s1 s2 =
    let rest = strcmp fuel m (s1 + 1) (s2 + 1) in
    if not (m s1 == 0) && (m s1 == m s2) then rest else some (sub_ℕ (m s1) (m s2))

-- The order of `strncmp` is that of the signed type `char`.
strncmp_from : ℕ → ℕ → Memory → ℕ → ℕ → Sign
strncmp_from zero i m s1 s2 = same
strncmp_from (suc rounds) i m s1 s2 =
    let rest = strncmp_from rounds (i + 1) m s1 s2 in
    if not (m (s1 + i) == m (s2 + i))
    then (if ltb_char (m (s1 + i)) (m (s2 + i)) then below else above)
    else if m (s1 + i) == 0
    then same
    else rest

unfoldable pub strncmp : Memory → ℕ → ℕ → ℕ → Sign
unfolding strncmp_from
strncmp m s1 s2 n = strncmp_from n 0 m s1 s2

-- `while (*s && *s != (char)c) s++; return *s == (char)c ? s : nullptr;`
unfoldable pub strchr : ℕ → Memory → ℕ → ℕ → Option (Option ℕ)
strchr zero m s c = none
strchr (suc fuel) m s c =
    let rest = strchr fuel m (s + 1) c in
    if not (m s == 0) && not (m s == u8 c)
    then rest
    else if m s == u8 c
    then some (some s)
    else some none

strrchr_from : ℕ → Memory → ℕ → ℕ → Option ℕ → Option (Option ℕ)
strrchr_from zero m s c last = none
strrchr_from (suc fuel) m s c last =
    let rest = strrchr_from fuel m (s + 1) c (if m s == u8 c then some s else last) in
    if m s == 0 then some last else rest

unfoldable pub strrchr : ℕ → Memory → ℕ → ℕ → Option (Option ℕ)
unfolding strrchr_from
strrchr fuel m s c = strrchr_from fuel m s c none
