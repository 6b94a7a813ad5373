-- ===== src/CString/Strings.antt =====
-- The strings that stand in memory, and their lengths.
use text_os.Common.{ℕ, zero, suc, ◌+◌, ◌<◌, ◌≤◌, ◌≡◌, ◌≢◌, List, [], ◌∷◌, length, some, arith, ◌∙◌}
use text_os.Memory.{Memory}
use text_os.CString.{strlen, strlen_from}

-- The bytes `bs`, none of them zero, stand at `s` with a zero behind them.
abbrev pub IsString : Memory → ℕ → List ℕ → Type 0
IsString m s [] = m s ≡ 0
IsString m s (b ∷ bs) = (m s ≡ b) × (b ≢ 0) × IsString m (s + 1) bs

strlen_from_lem :
    (fuel len str s : ℕ) (m : Memory) (bs : List ℕ)
    → s ≡ str + len
    → IsString m s bs
    → length bs < fuel
    → strlen_from fuel m str len ≡ some (len + length bs)
unfolding strlen_from
strlen_from_lem zero len str s m bs e h lt = elim lt [ ]
strlen_from_lem (suc fuel) len str s m [] e h lt = ground arith
strlen_from_lem (suc fuel) len str s m (b ∷ bs) e h lt =
    ground (arith, strlen_from_lem fuel (len + 1) str (s + 1) m bs)

-- `strlen` counts the bytes before the zero.
pub strlen_lem :
    (fuel s : ℕ) (m : Memory) (bs : List ℕ)
    → IsString m s bs
    → length bs < fuel
    → strlen fuel m s ≡ some (length bs)
unfolding strlen
strlen_lem fuel s m bs h lt = ground (arith, strlen_from_lem fuel 0 s s m bs (omega arith) h lt)

-- A string is unchanged by writes that miss it and its zero.
pub IsString-same :
    (m n : Memory) (s : ℕ) (bs : List ℕ)
    → ((x : ℕ) → s ≤ x → x ≤ s + length bs → n x ≡ m x)
    → IsString m s bs
    → IsString n s bs
IsString-same m n s [] keep h = keep s (omega arith) (omega arith) ∙ h
IsString-same m n s (b ∷ bs) keep (e, ne, h) = (
  keep s (omega arith) (omega arith) ∙ e,
  ne,
  IsString-same m n (s + 1) bs (λ x lo hi. keep x (omega arith) (omega arith)) h,
)
