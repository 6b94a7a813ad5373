-- ===== src/Ahci/Names.antt =====
-- What the display of the identify data shows: the names in the words of a drive, and its size.
use text_os.Common.{
  ℕ, zero, suc, ◌+◌, ◌*◌, ◌/◌, ◌^◌, ◌<◌, ◌≡◌, ◌≢◌, refl, true, false, ◌&&◌, List, [], ◌∷◌, ◌++◌,
  length, All, replicate, arith, ◌==◌, ne→==, bit_and, u8, u64,
}
use text_os.Common.Bits.{bit_and_mask, bit_or-high}
use text_os.Ahci.Identify.{
  swapped, trim, is_blank, shown_string, model_number, serial_number, max_lba48, gib_capacity,
}

-- The words from `i` on hold the text, two characters to a word, the first in the high byte.
abbrev pub HoldsText : (ℕ → ℕ) → ℕ → List ℕ → Type 0
HoldsText words i [] = Unit {0}
HoldsText words i (c ∷ []) = ⊥
HoldsText words i (c ∷ d ∷ cs) = (words i ≡ c * 2 ^ 8 + d) × HoldsText words (i + 1) cs

abbrev pub IsCharacter : ℕ → Type 0
IsCharacter c = (c < 2 ^ 8) × (c ≢ 0)

-- The last character is not a space.
abbrev pub EndsPlain : List ℕ → Type 0
EndsPlain [] = Unit {0}
EndsPlain (c ∷ []) = c ≢ b' '
EndsPlain (c ∷ d ∷ cs) = EndsPlain (d ∷ cs)

swapped-HoldsText :
    (n i : ℕ) (words : ℕ → ℕ) (cs : List ℕ)
    → length cs ≡ 2 * n
    → All IsCharacter cs
    → HoldsText words i cs
    → swapped n words i ≡ cs
unfolding swapped
swapped-HoldsText zero i words [] e a h = refl
swapped-HoldsText zero i words (c ∷ cs) e a h = absurd (omega arith)
swapped-HoldsText (suc n) i words [] e a h = absurd (omega arith)
swapped-HoldsText (suc n) i words (c ∷ []) e a h = elim h [ ]
swapped-HoldsText (suc n) i words (c ∷ d ∷ cs) e (ac, (ad, a)) (w, h) =
    let high : u8 (words i / 2 ^ 8) ≡ c = omega (arith, w, ac.0, ad.0) in
    let low : u8 (bit_and (words i) 0xFF) ≡ d = omega (arith, bit_and_mask 8 (words i), w, ad.0) in
    rw (high, low, swapped-HoldsText n (i + 1) words cs (omega arith) a h) refl

is_blank-append :
    (c : ℕ) (cs rest : List ℕ) → EndsPlain (c ∷ cs) → is_blank ((c ∷ cs) ++ rest) ≡ false
is_blank-append c [] rest h = rw (ne→== c b' ' h) refl
is_blank-append c (d ∷ cs) rest h = ground (arith, is_blank-append d cs rest h)

trim-append : (cs rest : List ℕ) → EndsPlain cs → trim (cs ++ rest) ≡ cs ++ trim rest
unfolding trim
trim-append [] rest h = refl
trim-append (c ∷ []) rest h = rw (ne→== c b' ' h) refl
trim-append (c ∷ d ∷ cs) rest h =
    let after : (c == b' ') && is_blank ((d ∷ cs) ++ rest) ≡ false =
      ground (arith, is_blank-append d cs rest h) in
    rw (after, trim-append (d ∷ cs) rest h) refl

is_blank-replicate : (k : ℕ) → is_blank (replicate k b' ') ≡ true
is_blank-replicate zero = refl
is_blank-replicate (suc k) = is_blank-replicate k

trim-replicate : (k : ℕ) → trim (replicate k b' ') ≡ replicate k 0
unfolding trim
trim-replicate zero = refl
trim-replicate (suc k) = rw (is_blank-replicate k, trim-replicate k) refl

shown_string-append :
    (cs : List ℕ) (k : ℕ) → All IsCharacter cs → shown_string (cs ++ replicate k 0) ≡ cs
unfolding shown_string
shown_string-append [] zero a = refl
shown_string-append [] (suc k) a = refl
shown_string-append (c ∷ cs) k (h, a) = rw (ne→== c 0 h.1, shown_string-append cs k a) refl

-- A name that does not end in a space, padded with spaces.
abbrev pub padded : List ℕ → ℕ → List ℕ
padded name k = name ++ replicate k b' '

padded-IsCharacter :
    (name : List ℕ) (k : ℕ) → All IsCharacter name → All IsCharacter (padded name k)
padded-IsCharacter [] zero a = tt
padded-IsCharacter [] (suc k) a = (omega arith, padded-IsCharacter [] k tt)
padded-IsCharacter (c ∷ name) k (h, a) = (h, padded-IsCharacter name k a)

shown_name :
    (n i k : ℕ) (words : ℕ → ℕ) (name : List ℕ)
    → length (padded name k) ≡ 2 * n
    → All IsCharacter name
    → EndsPlain name
    → HoldsText words i (padded name k)
    → shown_string (trim (swapped n words i)) ≡ name
shown_name n i k words name e a plain h =
    rw
      (
        swapped-HoldsText n i words (padded name k) e (padded-IsCharacter name k a) h,
        trim-append name (replicate k b' ') plain,
        trim-replicate k,
      )
      (shown_string-append name k a)

-- Where the words 27 to 46 and 10 to 19 of a drive hold a model name of at most 40 characters and a serial
-- number of at most 20, padded with spaces, without zeros and not ending in a space, two characters to a
-- word with the first in the high byte, `model_number` and `serial_number` are these texts.
pub names_lem :
    (words : ℕ → ℕ) (model serial : List ℕ) (k l : ℕ)
    → length (padded model k) ≡ 40
    → length (padded serial l) ≡ 20
    → All IsCharacter model
    → All IsCharacter serial
    → EndsPlain model
    → EndsPlain serial
    → HoldsText words 27 (padded model k)
    → HoldsText words 10 (padded serial l)
    → (model_number words ≡ model) × (serial_number words ≡ serial)
unfolding model_number serial_number
names_lem words model serial k l em es am as' pm ps hm hs =
    (shown_name 20 27 k words model em am pm hm, shown_name 10 10 l words serial es as' ps hs)

-- For words of 16 bits and a size below 2 ^ 53 sectors, the capacity that is shown is the number of
-- sectors in the words 100 to 103, in units of 2 ^ 21 sectors, rounded down.
pub gib_capacity-max_lba48 :
    (words : ℕ → ℕ)
    → ((i : ℕ) → words i < 2 ^ 16)
    → words 103 * 2 ^ 48 + words 102 * 2 ^ 32 + words 101 * 2 ^ 16 + words 100 < 2 ^ 53
    → gib_capacity (max_lba48 words)
      ≡ (words 103 * 2 ^ 48 + words 102 * 2 ^ 32 + words 101 * 2 ^ 16 + words 100) / 2 ^ 21
unfolding gib_capacity max_lba48
gib_capacity-max_lba48 words small size =
    let a = small 100 in
    let b = small 101 in
    let c = small 102 in
    let b' : u64 (words 101 * 2 ^ 16) ≡ words 101 * 2 ^ 16 = omega arith in
    let c' : u64 (words 102 * 2 ^ 32) ≡ words 102 * 2 ^ 32 = omega arith in
    let d' : u64 (words 103 * 2 ^ 48) ≡ words 103 * 2 ^ 48 = omega arith in
    let one = bit_or-high 16 (words 100) (words 101) a in
    let two = bit_or-high 32 (words 101 * 2 ^ 16 + words 100) (words 102) (omega arith) in
    let three =
      bit_or-high 48 (words 102 * 2 ^ 32 + (words 101 * 2 ^ 16 + words 100)) (words 103)
        (omega arith) in
    rw (b', c', d', one, two, three) (omega arith)
